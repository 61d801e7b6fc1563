-- ===== src/Auth/Service/Bootstrapped.antt =====
-- `Bootstrap` of backend/internal/auth/service.go and
-- backend/internal/database/auth_repository.go, and the calls after it.
use flagstack.Auth.Service.Saved.{issue-eq_ok}
use flagstack.Auth.Types.{
  AuthDatabase, Principal, AuthError, BootstrapInput, BootstrapRecord, IssuedSession, LoginInput,
  SessionRecord, SessionRow, bootstrap_complete,
}
use flagstack.Auth.Repository.{
  create_session, delete_session, Reply, check_bootstrap, commit, save_session, bootstrapped,
  check_session, owner_principal,
}
use flagstack.Auth.Service.{
  AuthService, Draw, Secrets, service_bootstrap, check_login, issue, prepare_bootstrap,
  then_bootstrap, then_create, valid_secret, issued_session,
}
use flagstack.Auth.Service
use flagstack.Auth.Repository
use flagstack.Common.{
  [], ◌∷◌, ◌≡◌, ◌≢◌, inl, inr, ok, err, false, refl, sym, ap, ◌∙◌, ℕ, String, List, Result, is_nil,
  Bool-cases, err-ne-ok, ok-inj,
}

-- The calls that change the tables, with their arguments.
pub data AuthCall : Type 0 where
  bootstrap : Draw → ℕ → String → String → BootstrapInput → AuthCall
  login : Draw → ℕ → LoginInput → AuthCall
  logout : String → AuthCall

module _ (service : AuthService) where
  unfoldable pub auth_call : AuthCall → AuthDatabase → AuthDatabase
  auth_call (bootstrap draw now user organisation input) db =
      (service_bootstrap service draw now user organisation input db).1
  auth_call (login draw now input) db = (Service.login service draw now input db).1
  auth_call (logout token) db = Service.logout service token db

  unfoldable pub auth_run : List AuthCall → AuthDatabase → AuthDatabase
  auth_run [] db = db
  auth_run (k ∷ ks) db = auth_run ks (auth_call k db)

issue_state : (s : Secrets) (reply : Reply Principal) → (issue s reply).1 ≡ reply.1
issue_state s (ok principal, db) = refl
issue_state s (err e, db) = refl

module _ (service : AuthService) (db : AuthDatabase) (has_user : is_nil db.users ≡ false) where
  bootstrap-refused :
      (now : ℕ) (user organisation : String) (r : BootstrapRecord)
      → Repository.bootstrap now user organisation r db ≡ (err bootstrap_complete, db)
  unfolding Repository.bootstrap check_bootstrap
  bootstrap-refused now user organisation r = rw (has_user) refl

  then_bootstrap-refused :
      (now : ℕ) (user organisation : String)
      (prepared : Result AuthError (Secrets × BootstrapRecord))
      → ((x : IssuedSession) → (then_bootstrap service now user organisation db prepared).0 ≢ ok x)
        × ((then_bootstrap service now user organisation db prepared).1 ≡ db)
  then_bootstrap-refused now user organisation (err e) = (λ x h. err-ne-ok h, refl)
  then_bootstrap-refused now user organisation (ok (s, r)) =
      rw (bootstrap-refused now user organisation r) (λ x h. err-ne-ok h, refl)

  service_bootstrap-refused :
      (draw : Draw) (now : ℕ) (user organisation : String) (input : BootstrapInput)
      → ((x : IssuedSession)
          → (service_bootstrap service draw now user organisation input db).0 ≢ ok x)
        × ((service_bootstrap service draw now user organisation input db).1 ≡ db)
  unfolding service_bootstrap
  service_bootstrap-refused draw now user organisation input =
      then_bootstrap-refused now user organisation (prepare_bootstrap service draw now input)

save_session-users :
    (db : AuthDatabase) (saved : Result AuthError SessionRow)
    → (save_session db saved).1.users ≡ db.users
save_session-users db (ok row) = refl
save_session-users db (err e) = refl

then_create-users :
    (service : AuthService) (now : ℕ) (db : AuthDatabase)
    (checked : Result AuthError (Secrets × SessionRecord))
    → (then_create service now db checked).1.users ≡ db.users
unfolding create_session
then_create-users service now db (err e) = refl
then_create-users service now db (ok (s, r)) =
    let reply = save_session db (check_session service.platform.parse_uuid now r db) in
    ap (λ (d : AuthDatabase). d.users) (issue_state s reply)
    ∙ save_session-users db (check_session service.platform.parse_uuid now r db)

auth_call-has_user :
    (service : AuthService) (k : AuthCall) (db : AuthDatabase)
    → is_nil db.users ≡ false
    → is_nil (auth_call service k db).users ≡ false
unfolding auth_call Service.login Service.logout delete_session
auth_call-has_user service (bootstrap draw now user organisation input) db h =
    ap (λ (d : AuthDatabase). is_nil d.users)
      (service_bootstrap-refused service db h draw now user organisation input).1
    ∙ h
auth_call-has_user service (login draw now input) db h =
    ap is_nil (then_create-users service now db (check_login service draw now input db)) ∙ h
auth_call-has_user service (logout token) db h = elim (Bool-cases (valid_secret token)) [
  | inl is ↦ rw (is) h
  | inr is ↦ rw (is) h
]

auth_run-has_user :
    (service : AuthService) (ks : List AuthCall) (db : AuthDatabase)
    → is_nil db.users ≡ false
    → is_nil (auth_run service ks db).users ≡ false
unfolding auth_run
auth_run-has_user service [] db h = h
auth_run-has_user service (k ∷ ks) db h =
    auth_run-has_user service ks (auth_call service k db) (auth_call-has_user service k db h)

-- What a bootstrap that succeeds has prepared, checked and stored.
abbrev pub IsBootstrapped :
    AuthService
    → Draw
    → ℕ
    → String
    → String
    → BootstrapInput
    → AuthDatabase
    → IssuedSession
    → AuthDatabase
    → Type 0
IsBootstrapped service draw now user organisation input db issued db' =
    (s : Secrets) × (r : BootstrapRecord) × (prepare_bootstrap service draw now input ≡ ok (s, r))
    × (check_bootstrap now user organisation r db ≡ ok tt)
    × (bootstrapped user organisation r db ≡ db')
    × (issued_session s (owner_principal user organisation r) ≡ issued)

commit-eq_ok :
    (principal p : Principal) (new db db' : AuthDatabase) (checked : Result AuthError (Unit {0}))
    → commit principal new db checked ≡ (ok p, db')
    → (checked ≡ ok tt) × (new ≡ db') × (principal ≡ p)
commit-eq_ok principal p new db db' (err e) h = absurd (err-ne-ok (ap (λ x. x.0) h))
commit-eq_ok principal p new db db' (ok done) h = (refl, ap (λ x. x.1) h, ok-inj (ap (λ x. x.0) h))

then_bootstrap-eq_ok :
    (service : AuthService) (now : ℕ) (user organisation : String) (db db' : AuthDatabase)
    (prepared : Result AuthError (Secrets × BootstrapRecord)) (issued : IssuedSession)
    → then_bootstrap service now user organisation db prepared ≡ (ok issued, db')
    → (s : Secrets) × (r : BootstrapRecord) × (prepared ≡ ok (s, r))
      × (check_bootstrap now user organisation r db ≡ ok tt)
      × (bootstrapped user organisation r db ≡ db')
      × (issued_session s (owner_principal user organisation r) ≡ issued)
unfolding Repository.bootstrap
then_bootstrap-eq_ok service now user organisation db db' (err e) issued h =
    absurd (err-ne-ok (ap (λ x. x.0) h))
then_bootstrap-eq_ok service now user organisation db db' (ok (s, r)) issued h =
    let (principal, reply, is) =
      issue-eq_ok s (Repository.bootstrap now user organisation r db) issued db' h in
    let (checked, stored, same) =
      commit-eq_ok (owner_principal user organisation r) principal
        (bootstrapped user organisation r db) db db' (check_bootstrap now user organisation r db)
        reply in
    (s, r, refl, checked, stored, ap (issued_session s) same ∙ is)

pub service_bootstrap-IsBootstrapped :
    (service : AuthService) (draw : Draw) (now : ℕ) (user organisation : String)
    (input : BootstrapInput) (db db' : AuthDatabase) (issued : IssuedSession)
    → service_bootstrap service draw now user organisation input db ≡ (ok issued, db')
    → IsBootstrapped service draw now user organisation input db issued db'
unfolding service_bootstrap
service_bootstrap-IsBootstrapped service draw now user organisation input db db' issued h =
    then_bootstrap-eq_ok service now user organisation db db'
      (prepare_bootstrap service draw now input) issued h

-- A bootstrap that succeeds is the last one: after any calls that follow it, a further bootstrap,
-- whatever its input is, issues no session and leaves the tables as they were.
pub bootstrap_once :
    (service : AuthService) (draw again : Draw) (now later : ℕ)
    (user organisation user' organisation' : String) (input input' : BootstrapInput)
    (db db' : AuthDatabase) (issued : IssuedSession) (between : List AuthCall)
    → service_bootstrap service draw now user organisation input db ≡ (ok issued, db')
    → ((x : IssuedSession)
        → (service_bootstrap service again later user' organisation' input'
            (auth_run service between db')).0
          ≢ ok x)
      × ((service_bootstrap service again later user' organisation' input'
            (auth_run service between db')).1
          ≡ auth_run service between db')
bootstrap_once service draw again now later user organisation user' organisation' input input' db
      db' issued between h =
    let (s, r, _, _, stored, _) =
      service_bootstrap-IsBootstrapped service draw now user organisation input db db' issued h in
    let has_user : is_nil db'.users ≡ false =
      sym (ap (λ (d : AuthDatabase). is_nil d.users) stored) in
    service_bootstrap-refused service (auth_run service between db')
      (auth_run-has_user service between db' has_user) again later user' organisation' input'
