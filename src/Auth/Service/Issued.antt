-- ===== src/Auth/Service/Issued.antt =====
-- `Login` and `AuthenticateSession` of backend/internal/auth/service.go together.
use flagstack.Auth.Service.Passed.{check_login-Passes}
use flagstack.Auth.Service.Drawn.{AreSecrets, new_session_secrets-IsIssued}
use flagstack.Auth.Service.Saved.{
  then_create-eq_ok, issue-eq_ok, create_session-IsSaved, accepted_parts,
  session_by_token_hash-saved,
}
use flagstack.Common.{
  is_blank, ◌<◌, ◌≡◌, ok, true, false, sym, ap, ◌∙◌, ℕ, String, subst, same_bytes_refl,
}
use flagstack.Auth.Password.{verify_password}
use flagstack.Auth.Input.{normalize_email}
use flagstack.Auth.Types.{AuthDatabase, LoginInput, IssuedSession, LocalCredential, Session}
use flagstack.Auth.Repository.{session_by_token_hash, create_session, credential_by_email}
use flagstack.Auth.Service.{
  AuthService, Draw, valid_secret, check_login, login, authenticate_session, valid_csrf,
}

-- A login that succeeds has found the local credential of the normalised email, and the stored hash
-- has verified the password, which is not blank.
pub login_sound :
    (service : AuthService) (draw : Draw) (now : ℕ) (input : LoginInput) (db db' : AuthDatabase)
    (issued : IssuedSession)
    → login service draw now input db ≡ (ok issued, db')
    → (email : String) × (credential : LocalCredential) × (normalize_email service.platform
          input.email
        ≡ ok email)
      × (credential_by_email db service.platform.to_lower email ≡ ok credential)
      × (verify_password service.platform.id_key credential.password_hash input.password ≡ ok true)
      × (is_blank input.password ≡ false)
unfolding login
login_sound service draw now input db db' issued h =
    let (prepared, checked, _) =
      then_create-eq_ok service now db (check_login service draw now input db) issued db' h in
    let (email, credential, normal, known, verified, solid, _, _) =
      check_login-Passes service draw now input db prepared checked in
    (email, credential, normal, known, verified, solid)

-- The token of a session that a login has just issued, with random secrets of 32 bytes, authenticates
-- the session until it expires: it has the principal that the login returned and the expiry, and its
-- digest accepts the CSRF token of the login.
pub authenticate_session-login :
    (service : AuthService) (draw : Draw) (now later : ℕ) (input : LoginInput)
    (db db' : AuthDatabase) (issued : IssuedSession)
    → AreSecrets draw
    → login service draw now input db ≡ (ok issued, db')
    → later < issued.expires_at
    → (session : Session) × (authenticate_session service issued.session_token later db'
        ≡ ok session)
      × (session.principal ≡ issued.principal)
      × (session.expires_at ≡ issued.expires_at)
      × (valid_csrf service session issued.csrf_token ≡ true)
unfolding login authenticate_session valid_csrf
authenticate_session-login service draw now later input db db' issued secret h live =
    let pf = service.platform in
    let (prepared, checked, created) =
      then_create-eq_ok service now db (check_login service draw now input db) issued db' h in
    let (_, _, _, _, _, _, drawn, is_record) =
      check_login-Passes service draw now input db prepared checked in
    let (valid, token, csrf, _) = new_session_secrets-IsIssued service draw now prepared.0 drawn in
    let (principal, reply, is) =
      issue-eq_ok prepared.0 (create_session pf.parse_uuid now prepared.1 db) issued db' created in
    let (row, row_token, row_csrf, row_expiry, accepted, saved, found) =
      create_session-IsSaved pf.parse_uuid now prepared.1 db db' principal reply in
    let token_is : row.token_hash ≡ pf.sha256 issued.session_token =
      row_token
      ∙ ap (λ r. r.token_hash) is_record
      ∙ token
      ∙ ap (λ i. pf.sha256 i.session_token) is in
    let csrf_is : row.csrf_hash ≡ pf.sha256 issued.csrf_token =
      row_csrf ∙ ap (λ r. r.csrf_hash) is_record ∙ csrf ∙ ap (λ i. pf.sha256 i.csrf_token) is in
    let expiry_is : row.expires_at ≡ issued.expires_at =
      row_expiry ∙ ap (λ r. r.expires_at) is_record ∙ ap (λ i. i.expires_at) is in
    let valid_token : valid_secret issued.session_token ≡ true =
      ap (λ i. valid_secret i.session_token) (sym is) ∙ (valid secret).0 in
    let valid_csrf_token : valid_secret issued.csrf_token ≡ true =
      ap (λ i. valid_secret i.csrf_token) (sym is) ∙ (valid secret).1 in
    let (size, free) = accepted_parts now row db.sessions accepted in
    let read =
      session_by_token_hash-saved later row db principal db' saved free size
        (subst (λ e. later < e) (sym expiry_is) live) found in
    (
      record { principal = principal; csrf_hash = row.csrf_hash; expires_at = row.expires_at },
      rw (valid_token) (
          subst
            (λ digest.
              session_by_token_hash db' digest later
              ≡ ok (record {
                principal = principal;
                csrf_hash = row.csrf_hash;
                expires_at = row.expires_at;
              }))
            token_is read),
      ap (λ i. i.principal) is,
      expiry_is,
      rw (valid_csrf_token, csrf_is) (same_bytes_refl (pf.sha256 issued.csrf_token)),
    )
