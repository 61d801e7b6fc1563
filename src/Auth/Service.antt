-- ===== src/Auth/Service.antt =====
-- backend/internal/auth/service.go, on the repository of Auth/Repository.antt. The bytes that the
-- random generator reads and the readings of the clock are arguments; one call reads the clock once.
pub mod Drawn
pub mod Saved
pub mod Passed
pub mod Issued
pub mod Ended
pub mod Bootstrapped
pub mod Rejected
pub mod Owner
pub mod Prepared
use flagstack.Auth.Password.{hash_password, verify_password}
use flagstack.Auth.Repository.{
  delete_session, session_by_token_hash, Reply, bootstrap, create_session, credential_by_email,
}
use flagstack.Auth.Input.{Platform, normalize_bootstrap_input, normalize_email}
use flagstack.Auth.Types.{
  AuthDatabase, AuthError, BootstrapInput, LoginInput, Principal, Session, BootstrapRecord,
  IssuedSession, SessionRecord, invalid_credentials, no_randomness, invalid_input,
  session_not_found, stored_hash, credential_not_found, bootstrap_complete, not_singular,
  row_missing, constraint, bad_uuid, bad_csrf_hash,
}
use flagstack.Common.{
  ◌&&◌, ◌||◌, ◌+◌, ok, err, some, none, false, if◌then◌else◌, ◌>>=◌, ◌>>◌, ℕ, String, Bool, List,
  Option, Result, decode_base64, eqb, length, same_bytes, url_alphabet, encode_base64, guard, not,
  is_blank, ltb, byte_length, wrap,
}

abbrev pub session_secret_length : ℕ
session_secret_length = 32

-- The random values of one call, `none` where the generator fails.
pub record Draw : Type 0 where
  pub salt : Option (List ℕ)
  pub session_secret : Option (List ℕ)
  pub csrf_secret : Option (List ℕ)

abbrev pub random_secret : Option (List ℕ) → Result AuthError String
random_secret none = err no_randomness
random_secret (some bytes) = ok (encode_base64 url_alphabet bytes)

abbrev pub has_secret_length : Option (List ℕ) → Bool
has_secret_length none = false
has_secret_length (some bytes) = eqb (length bytes) session_secret_length

unfoldable pub valid_secret : String → Bool
valid_secret secret = has_secret_length (decode_base64 url_alphabet secret)

-- What `newSessionSecrets` returns: the tokens, their digests and the expiry.
pub record Secrets : Type 0 where
  pub session_token : String
  pub csrf_token : String
  pub token_hash : List ℕ
  pub csrf_hash : List ℕ
  pub expires_at : ℕ

-- The service's state: what `NewService` keeps.
pub record AuthService : Type 0 where
  pub platform : Platform
  pub session_ttl : ℕ

-- `NewService` refuses a time to live that is not positive.
unfoldable pub new_service : Platform → ℕ → Option AuthService
new_service pf ttl = if eqb ttl 0 then none else some (record { platform = pf; session_ttl = ttl })

abbrev pub issued_session : Secrets → Principal → IssuedSession
issued_session s principal = record {
  session_token = s.session_token;
  csrf_token = s.csrf_token;
  expires_at = s.expires_at;
  principal = principal;
}

-- `issued.Principal = principal` where the repository has one.
abbrev pub issue : Secrets → Reply Principal → Reply IssuedSession
issue s (ok principal, db) = (ok (issued_session s principal), db)
issue s (err e, db) = (err e, db)

-- An unknown email is answered like a wrong password.
abbrev pub hide_unknown {ℓ} : {A : Type ℓ} → Result AuthError A → Result AuthError A
hide_unknown (ok a) = ok a
hide_unknown (err credential_not_found) = err invalid_credentials
hide_unknown (err bootstrap_complete) = err bootstrap_complete
hide_unknown (err invalid_credentials) = err invalid_credentials
hide_unknown (err session_not_found) = err session_not_found
hide_unknown (err (invalid_input field fault)) = err (invalid_input field fault)
hide_unknown (err (stored_hash fault)) = err (stored_hash fault)
hide_unknown (err no_randomness) = err no_randomness
hide_unknown (err not_singular) = err not_singular
hide_unknown (err row_missing) = err row_missing
hide_unknown (err constraint) = err constraint
hide_unknown (err bad_uuid) = err bad_uuid
hide_unknown (err bad_csrf_hash) = err bad_csrf_hash

-- Any error of the normalisation is the one error.
abbrev pub or_invalid_credentials {ℓ} : {A : Type ℓ} → Result AuthError A → Result AuthError A
or_invalid_credentials (ok a) = ok a
or_invalid_credentials (err e) = err invalid_credentials

module _ (service : AuthService) where
  open service use {platform, session_ttl}

  unfoldable pub new_session_secrets : Draw → ℕ → Result AuthError Secrets
  new_session_secrets draw now = do
    session_token ← random_secret draw.session_secret
    csrf_token ← random_secret draw.csrf_secret
    ok (record {
      session_token = session_token;
      csrf_token = csrf_token;
      token_hash = platform.sha256 session_token;
      csrf_hash = platform.sha256 csrf_token;
      expires_at = now + session_ttl;
    })

  -- The part of `Bootstrap` before the repository is called.
  unfoldable pub prepare_bootstrap :
      Draw → ℕ → BootstrapInput → Result AuthError (Secrets × BootstrapRecord)
  prepare_bootstrap draw now input = do
    normalized ← normalize_bootstrap_input platform input
    password_hash ← hash_password platform.id_key draw.salt normalized.password
    s ← new_session_secrets draw now
    ok (
      s,
      record {
        email = normalized.email;
        display_name = normalized.display_name;
        password_hash = password_hash;
        organisation_name = normalized.organisation_name;
        organisation_slug = normalized.organisation_slug;
        session_token_hash = s.token_hash;
        csrf_hash = s.csrf_hash;
        session_expires_at = s.expires_at;
      },
    )

  abbrev pub then_bootstrap :
      ℕ
      → String
      → String
      → AuthDatabase
      → Result AuthError (Secrets × BootstrapRecord)
      → Reply IssuedSession
  then_bootstrap now user_id organisation_id db (err e) = (err e, db)
  then_bootstrap now user_id organisation_id db (ok prepared) =
      issue prepared.0 (bootstrap now user_id organisation_id prepared.1 db)

  unfoldable pub service_bootstrap :
      Draw → ℕ → String → String → BootstrapInput → AuthDatabase → Reply IssuedSession
  service_bootstrap draw now user_id organisation_id input db =
      then_bootstrap now user_id organisation_id db (prepare_bootstrap draw now input)

  -- The part of `Login` before the session is created. The verification against the dummy hash has
  -- no result that is used.
  unfoldable pub check_login :
      Draw → ℕ → LoginInput → AuthDatabase → Result AuthError (Secrets × SessionRecord)
  check_login draw now input db = do
    email ← or_invalid_credentials (normalize_email platform input.email)
    guard (not (is_blank input.password || ltb 1024 (byte_length input.password)))
        invalid_credentials
    credential ← hide_unknown (credential_by_email db platform.to_lower email)
    valid ←
        wrap stored_hash (verify_password platform.id_key credential.password_hash input.password)
    guard valid invalid_credentials
    s ← new_session_secrets draw now
    ok (
      s,
      record {
        user_id = credential.user_id;
        token_hash = s.token_hash;
        csrf_hash = s.csrf_hash;
        expires_at = s.expires_at;
      },
    )

  abbrev pub then_create :
      ℕ → AuthDatabase → Result AuthError (Secrets × SessionRecord) → Reply IssuedSession
  then_create now db (err e) = (err e, db)
  then_create now db (ok checked) =
      issue checked.0 (create_session platform.parse_uuid now checked.1 db)

  unfoldable pub login : Draw → ℕ → LoginInput → AuthDatabase → Reply IssuedSession
  login draw now input db = then_create now db (check_login draw now input db)

  unfoldable pub authenticate_session : String → ℕ → AuthDatabase → Result AuthError Session
  authenticate_session token now db =
      if valid_secret token
      then session_by_token_hash db (platform.sha256 token) now
      else err session_not_found

  unfoldable pub logout : String → AuthDatabase → AuthDatabase
  logout token db = if valid_secret token then delete_session (platform.sha256 token) db else db

  unfoldable pub valid_csrf : Session → String → Bool
  valid_csrf session token =
      valid_secret token && same_bytes (platform.sha256 token) session.csrf_hash
