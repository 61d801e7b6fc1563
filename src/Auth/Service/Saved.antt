-- ===== src/Auth/Service/Saved.antt =====
-- `CreateSession` and `SessionByTokenHash` of backend/internal/database/auth_repository.go, as `Login`
-- of backend/internal/auth/service.go calls the first.
use flagstack.Common.{
  guard, same_bytes, [], ◌∷◌, ◌&&◌, ◌<◌, ◌≡◌, ok, some, none, true, false, arith, refl, sym, ap,
  ◌∙◌, ℕ, String, List, Option, >>=-eq-ok, length, err-ne-ok, subst, any, ok-inj, filter, ltb,
  filter-none, All-map, any-false, same_bytes_refl, lt→ltb, ◌==◌, err, Result, guard-eq_ok,
}
use flagstack.Auth.Types.{
  SessionRow, AuthDatabase, Principal, AuthError, SessionRecord, IssuedSession, bad_uuid,
  constraint,
}
use flagstack.Auth.Repository.{
  session_by_token_hash, principal_by_user_id, Reply, create_session, accepts_session,
  check_session, save_session, session_row,
}
use flagstack.Auth.Service.{AuthService, Secrets, length, ltb, issue, then_create, issued_session}

-- The session that the tables hold behind a saved row, as it is read back.
pub session_by_token_hash-saved :
    (now : ℕ) (row : SessionRow) (db : AuthDatabase) (principal : Principal)
    → (db' : AuthDatabase) → db' ≡ record db { sessions = row ∷ db.sessions }
    → any (λ s. same_bytes s.token_hash row.token_hash) db.sessions ≡ false
    → length row.csrf_hash ≡ 32
    → now < row.expires_at
    → principal_by_user_id db' row.user_id ≡ ok principal
    → session_by_token_hash db' row.token_hash now
      ≡ ok
          (record { principal = principal; csrf_hash = row.csrf_hash; expires_at = row.expires_at })
unfolding session_by_token_hash
session_by_token_hash-saved now row db principal db' same fresh size live found =
    let others : filter (λ s. same_bytes s.token_hash row.token_hash && ltb now s.expires_at)
          db.sessions
        ≡ [] =
      filter-none (λ s. same_bytes s.token_hash row.token_hash && ltb now s.expires_at) db.sessions
        (All-map db.sessions (λ s h. ground arith)
          (any-false (λ s. same_bytes s.token_hash row.token_hash) db.sessions fresh)) in
    let rows : filter (λ s. same_bytes s.token_hash row.token_hash && ltb now s.expires_at)
          db'.sessions
        ≡ row ∷ [] =
      ap
        (λ (d : AuthDatabase).
          filter (λ s. same_bytes s.token_hash row.token_hash && ltb now s.expires_at) d.sessions)
        same
      ∙ rw (same_bytes_refl row.token_hash, lt→ltb now row.expires_at live, others) refl in
    rw (rows, size, found) refl

pub issue-eq_ok :
    (s : Secrets) (reply : Reply Principal) (issued : IssuedSession) (db' : AuthDatabase)
    → issue s reply ≡ (ok issued, db')
    → (principal : Principal) × (reply ≡ (ok principal, db'))
      × (issued_session s principal ≡ issued)
issue-eq_ok s (err e, db) issued db' h = absurd (err-ne-ok (ap (λ x. x.0) h))
issue-eq_ok s (ok principal, db) issued db' h = (
  principal,
  ap (λ (d : AuthDatabase). (ok principal, d)) (ap (λ x. x.1) h),
  ok-inj (ap (λ x. x.0) h),
)

-- The row that a call has saved, and the principal that it has loaded after it.
abbrev pub IsSaved : ℕ → SessionRecord → AuthDatabase → Principal → AuthDatabase → Type 0
IsSaved now r db principal db' =
    (row : SessionRow) × (row.token_hash ≡ r.token_hash)
    × (row.csrf_hash ≡ r.csrf_hash)
    × (row.expires_at ≡ r.expires_at)
    × (accepts_session now row db.sessions ≡ true)
    × (db' ≡ record db { sessions = row ∷ db.sessions })
    × (principal_by_user_id db' row.user_id ≡ ok principal)

save_session-eq_ok :
    (db : AuthDatabase) (saved : Result AuthError SessionRow) (principal : Principal)
    (db' : AuthDatabase)
    → save_session db saved ≡ (ok principal, db')
    → (row : SessionRow) × (saved ≡ ok row)
      × (db' ≡ record db { sessions = row ∷ db.sessions })
      × (principal_by_user_id db' row.user_id ≡ ok principal)
save_session-eq_ok db (err e) principal db' h = absurd (err-ne-ok (ap (λ x. x.0) h))
save_session-eq_ok db (ok row) principal db' h =
    let same : record db { sessions = row ∷ db.sessions } ≡ db' = ap (λ x. x.1) h in
    (
      row,
      refl,
      sym same,
      subst (λ (d : AuthDatabase). principal_by_user_id d row.user_id ≡ ok principal) same
          (ap (λ x. x.0) h),
    )

pub create_session-IsSaved :
    (parse_uuid : String → Option String) (now : ℕ) (r : SessionRecord) (db db' : AuthDatabase)
    (principal : Principal)
    → create_session parse_uuid now r db ≡ (ok principal, db')
    → IsSaved now r db principal db'
unfolding create_session check_session
create_session-IsSaved parse_uuid now r db db' principal h =
    let (row, checked, same, found) =
      save_session-eq_ok db (check_session parse_uuid now r db) principal db' h in
    let (user_id, _, h1) =
      >>=-eq-ok
        (elim (parse_uuid r.user_id) as (λ o. Result AuthError String) [
          | none ↦ err bad_uuid
          | some id ↦ ok id
        ])
        _ checked in
    let (_, _, h2) = >>=-eq-ok (guard (any (λ u. u.id == user_id) db.users) constraint) _ h1 in
    let (_, accepted, h3) =
      >>=-eq-ok (guard (accepts_session now (session_row user_id r) db.sessions) constraint) _ h2 in
    let is : session_row user_id r ≡ row = ok-inj h3 in
    (
      row,
      sym (ap (λ x. x.token_hash) is),
      sym (ap (λ x. x.csrf_hash) is),
      sym (ap (λ x. x.expires_at) is),
      subst (λ x. accepts_session now x db.sessions ≡ true) is (guard-eq_ok _ _ accepted),
      same,
      found,
    )

module _ (service : AuthService) where
  open service use {platform}

  pub then_create-eq_ok :
      (now : ℕ) (db : AuthDatabase) (checked : Result AuthError (Secrets × SessionRecord))
      (issued : IssuedSession) (db' : AuthDatabase)
      → then_create service now db checked ≡ (ok issued, db')
      → (prepared : Secrets × SessionRecord) × (checked ≡ ok prepared)
        × (issue prepared.0 (create_session platform.parse_uuid now prepared.1 db)
            ≡ (ok issued, db'))
  then_create-eq_ok now db (err e) issued db' h = absurd (err-ne-ok (ap (λ x. x.0) h))
  then_create-eq_ok now db (ok prepared) issued db' h = (prepared, refl, h)

pub accepted_parts :
    (now : ℕ) (row : SessionRow) (sessions : List SessionRow)
    → accepts_session now row sessions ≡ true
    → (length row.csrf_hash ≡ 32)
      × (any (λ s. same_bytes s.token_hash row.token_hash) sessions ≡ false)
accepted_parts now row sessions h = (ground arith, ground arith)
