-- ===== src/Auth/Repository.antt =====
-- backend/internal/database/auth_repository.go. Tables as lists of rows. The unique indexes and the
-- checks on the sessions are those of backend/ent/schema; the checks on texts, which the service's
-- normalisation implies, and failures of the database are not modelled. A call is one step: the
-- advisory lock makes it so for `Bootstrap`, whose transaction leaves nothing behind where it fails.
use flagstack.Auth.Types.{
  AuthDatabase, AuthError, BootstrapRecord, OrganisationMembership, Principal, SessionRecord,
  SessionRow, LocalCredential, MembershipRow, Session, bad_uuid, not_singular, row_missing,
  bootstrap_complete, session_not_found, constraint, credential_not_found, bad_csrf_hash,
}
use Prim.Native.String.{compare as compare_text}
use Prim.Native.Nat.{Ordering}
use flagstack.Common.{
  [], ◌∷◌, ◌==◌, ◌&&◌, ◌||◌, ok, err, some, none, true, false, if◌then◌else◌, ◌>>=◌, ◌>>◌, ℕ,
  String, Bool, List, Option, Result, eqb, filter, guard, is_nil, not, any, length, same_bytes,
  sort_by, trim_space, ltb,
}

-- What a call returns and the state of the database behind it, also where it fails.
abbrev pub Reply : Type 0 → Type 0
Reply A = Result AuthError A × AuthDatabase

-- The row that `Only` or `Get` returns.
abbrev pub only_row {ℓ} : {A : Type ℓ} → AuthError → List A → Result AuthError A
only_row missing [] = err missing
only_row missing (x ∷ []) = ok x
only_row missing (x ∷ y ∷ rest) = err not_singular

abbrev pub has_email : String → Option String → Bool
has_email email none = false
has_email email (some e) = e == email

abbrev pub email_or_empty : Option String → String
email_or_empty none = ""
email_or_empty (some e) = e

abbrev pub text_lt : String → String → Bool
text_lt a b = elim (compare_text a b) [ Ordering.lt ↦ true | _ ↦ false ]

-- The function that `sort.Slice` is given, turned round: not (b < a).
abbrev pub membership_le : OrganisationMembership → OrganisationMembership → Bool
membership_le a b = not (if b.name == a.name then text_lt b.id a.id else text_lt b.name a.name)

unfoldable pub bootstrap_required : AuthDatabase → Bool
bootstrap_required db = is_nil db.users

module _ (db : AuthDatabase) where
  unfoldable pub load_memberships :
      List MembershipRow → Result AuthError (List OrganisationMembership)
  load_memberships [] = ok []
  load_memberships (m ∷ ms) = do
    organisation ← only_row row_missing (filter (λ o. o.id == m.organisation_id) db.organisations)
    rest ← load_memberships ms
    ok (
        record {
          id = organisation.id;
          name = organisation.name;
          slug = organisation.slug;
          role = m.role;
        }
        ∷ rest)

  unfoldable pub memberships_by_user_id : String → Result AuthError (List OrganisationMembership)
  memberships_by_user_id user_id = do
    memberships ← load_memberships (filter (λ m. m.user_id == user_id) db.memberships)
    ok (sort_by membership_le memberships)

  unfoldable pub principal_by_user_id : String → Result AuthError Principal
  principal_by_user_id user_id = do
    user ← only_row row_missing (filter (λ u. u.id == user_id) db.users)
    memberships ← memberships_by_user_id user_id
    ok (record {
      user = record {
        id = user.id;
        email = email_or_empty user.email;
        display_name = user.display_name;
      };
      organisations = memberships;
    })

  unfoldable pub credential_by_email : (String → String) → String → Result AuthError LocalCredential
  credential_by_email to_lower email = do
    let normalized = to_lower (trim_space email)
    user ← only_row credential_not_found (filter (λ u. has_email normalized u.email) db.users)
    credential ← only_row credential_not_found (filter (λ c. c.user_id == user.id) db.credentials)
    ok (record { user_id = user.id; password_hash = credential.password_hash })

  -- `now` is what the clock reads.
  unfoldable pub session_by_token_hash : List ℕ → ℕ → Result AuthError Session
  session_by_token_hash token_hash now = do
    row ←
        only_row session_not_found
          (filter (λ s. same_bytes s.token_hash token_hash && ltb now s.expires_at) db.sessions)
    guard (eqb (length row.csrf_hash) 32) bad_csrf_hash
    principal ← principal_by_user_id row.user_id
    ok (record { principal = principal; csrf_hash = row.csrf_hash; expires_at = row.expires_at })

-- The checks and the unique index of the sessions; `now` is the default of the creation time.
abbrev pub accepts_session : ℕ → SessionRow → List SessionRow → Bool
accepts_session now row sessions =
    eqb (length row.token_hash) 32
    && eqb (length row.csrf_hash) 32
    && ltb now row.expires_at
    && not (any (λ s. same_bytes s.token_hash row.token_hash) sessions)

abbrev pub bootstrap_session : String → BootstrapRecord → SessionRow
bootstrap_session user_id r = record {
  user_id = user_id;
  token_hash = r.session_token_hash;
  csrf_hash = r.csrf_hash;
  expires_at = r.session_expires_at;
}

-- The rows that the transaction creates.
abbrev pub bootstrapped : String → String → BootstrapRecord → AuthDatabase → AuthDatabase
bootstrapped user_id organisation_id r db = record {
  users = (record { id = user_id; email = some r.email; display_name = r.display_name }) ∷ db.users;
  credentials = (record { user_id = user_id; password_hash = r.password_hash }) ∷ db.credentials;
  organisations =
      (record { id = organisation_id; name = r.organisation_name; slug = r.organisation_slug })
      ∷ db.organisations;
  memberships =
      (record { organisation_id = organisation_id; user_id = user_id; role = "owner" })
      ∷ db.memberships;
  sessions = bootstrap_session user_id r ∷ db.sessions;
}

abbrev pub owner_principal : String → String → BootstrapRecord → Principal
owner_principal user_id organisation_id r = record {
  user = record { id = user_id; email = r.email; display_name = r.display_name };
  organisations =
      (record {
        id = organisation_id;
        name = r.organisation_name;
        slug = r.organisation_slug;
        role = "owner";
      })
      ∷ [];
}

-- The identifiers are those that the database draws for the new user and the new organisation.
unfoldable pub check_bootstrap :
    ℕ → String → String → BootstrapRecord → AuthDatabase → Result AuthError (Unit {0})
check_bootstrap now user_id organisation_id r db = do
  guard (is_nil db.users) bootstrap_complete
  guard (not (any (λ c. c.user_id == user_id) db.credentials)) constraint
  guard (not (any (λ o. o.id == organisation_id || o.slug == r.organisation_slug) db.organisations))
      constraint
  guard
      (not (any (λ m. m.organisation_id == organisation_id && m.user_id == user_id) db.memberships))
      constraint
  guard (accepts_session now (bootstrap_session user_id r) db.sessions) constraint

abbrev pub commit :
    Principal → AuthDatabase → AuthDatabase → Result AuthError (Unit {0}) → Reply Principal
commit principal db' db (ok done) = (ok principal, db')
commit principal db' db (err e) = (err e, db)

unfoldable pub bootstrap : ℕ → String → String → BootstrapRecord → AuthDatabase → Reply Principal
bootstrap now user_id organisation_id r db =
    commit (owner_principal user_id organisation_id r) (bootstrapped user_id organisation_id r db)
      db (check_bootstrap now user_id organisation_id r db)

abbrev pub session_row : String → SessionRecord → SessionRow
session_row user_id r = record {
  user_id = user_id;
  token_hash = r.token_hash;
  csrf_hash = r.csrf_hash;
  expires_at = r.expires_at;
}

unfoldable pub check_session :
    (String → Option String) → ℕ → SessionRecord → AuthDatabase → Result AuthError SessionRow
check_session parse_uuid now r db = do
  user_id ← elim (parse_uuid r.user_id) [ none ↦ err bad_uuid | some id ↦ ok id ]
  guard (any (λ u. u.id == user_id) db.users) constraint
  guard (accepts_session now (session_row user_id r) db.sessions) constraint
  ok (session_row user_id r)

-- A session that is saved stays, also where the principal cannot be loaded after it.
abbrev pub save_session : AuthDatabase → Result AuthError SessionRow → Reply Principal
save_session db (err e) = (err e, db)
save_session db (ok row) =
    let db' : AuthDatabase = record db { sessions = row ∷ db.sessions } in
    (principal_by_user_id db' row.user_id, db')

unfoldable pub create_session :
    (String → Option String) → ℕ → SessionRecord → AuthDatabase → Reply Principal
create_session parse_uuid now r db = save_session db (check_session parse_uuid now r db)

unfoldable pub delete_session : List ℕ → AuthDatabase → AuthDatabase
delete_session token_hash db = record db {
  sessions = filter (λ s. not (same_bytes s.token_hash token_hash)) db.sessions;
}
