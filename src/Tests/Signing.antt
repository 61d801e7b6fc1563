-- ===== src/Tests/Signing.antt =====
-- Signing in.
use flagstack.Tests.Hashing.{auth_platform, auth_service, drop_spaces, fill, hash, salt}
use flagstack.Auth.Service.Ended.{authenticate_session-logout}
use flagstack.Auth.Service.Rejected.{login-IsUnknownOrWrong}
use flagstack.Auth.Service.Drawn.{AreSecrets}
use flagstack.Auth.Service.Issued.{login_sound, authenticate_session-login}
use flagstack.Auth.Service.{
  login, logout, authenticate_session, valid_csrf, valid_secret, AuthService, Draw,
  service_bootstrap,
}
use flagstack.Auth.Service.Bootstrapped.{AuthCall, auth_run, bootstrap_once}
use flagstack.Auth.Repository.{
  bootstrapped, owner_principal, credential_by_email, principal_by_user_id,
}
use flagstack.Auth.Types.{
  AuthDatabase, BootstrapInput, BootstrapRecord, IssuedSession, LocalCredential, LoginInput,
  Session, invalid_credentials, credential_not_found, session_not_found,
}
use flagstack.Auth.Password.{
  PasswordHash, hash_password, parse_password_hash, verify_password, argon2_iterations,
  argon2_memory, argon2_parallelism, argon2_key_length,
}
use flagstack.Auth.Input.{Platform, normalize_email, validate_password}
use flagstack.Common.{
  [], ◌∷◌, ◌==◌, ◌<◌, ◌≡◌, ◌↔◌, inl, inr, ok, some, true, arith, if◌then◌else◌, refl, zero, suc, ℕ,
  String, List, AreBytes, all_codes, is_plain, length, Bool-cases, and-parts, byte_length, ◌&&◌,
  ◌||◌, ◌≢◌, err, false, Option, is_blank, same_bytes, subst, trim_space, encode_base64, ltb,
}

abbrev no_tables : AuthDatabase
no_tables = record {
  users = [];
  credentials = [];
  organisations = [];
  memberships = [];
  sessions = [];
}

abbrev secret_bytes : List ℕ
secret_bytes =
    1 ∷ 1 ∷ 1 ∷ 1 ∷ 1 ∷ 1 ∷ 1 ∷ 1 ∷ 1 ∷ 1 ∷ 1 ∷ 1 ∷ 1 ∷ 1 ∷ 1 ∷ 1 ∷ 1 ∷ 1 ∷ 1 ∷ 1 ∷ 1 ∷ 1 ∷ 1 ∷ 1
    ∷ 1 ∷ 1 ∷ 1 ∷ 1 ∷ 1 ∷ 1 ∷ 1 ∷ 1 ∷ []

abbrev other_bytes : List ℕ
other_bytes =
    200 ∷ 1 ∷ 1 ∷ 1 ∷ 1 ∷ 1 ∷ 1 ∷ 1 ∷ 1 ∷ 1 ∷ 1 ∷ 1 ∷ 1 ∷ 1 ∷ 1 ∷ 1 ∷ 1 ∷ 1 ∷ 1 ∷ 1 ∷ 1 ∷ 1 ∷ 1 ∷ 1
    ∷ 1 ∷ 1 ∷ 1 ∷ 1 ∷ 1 ∷ 1 ∷ 1 ∷ 1 ∷ []

abbrev first_draw : Draw
first_draw = record {
  salt = some salt;
  session_secret = some secret_bytes;
  csrf_secret = some other_bytes;
}

abbrev next_draw : Draw
next_draw = record {
  salt = some salt;
  session_secret = some other_bytes;
  csrf_secret = some secret_bytes;
}

abbrev owner : BootstrapInput
owner = record {
  email = " ada@example.org";
  display_name = "Ada";
  password = "correct horses!";
  organisation_name = "Example";
  organisation_slug = "example-1";
}

abbrev first_record : BootstrapRecord
first_record = record {
  email = "ada@example.org";
  display_name = "Ada";
  password_hash = hash;
  organisation_name = "Example";
  organisation_slug = "example-1";
  session_token_hash = fill 32 65;
  csrf_hash = fill 32 121;
  session_expires_at = 105;
}

abbrev owned : AuthDatabase
owned = bootstrapped "u" "o" first_record no_tables

abbrev pub first_token : String
first_token = "AQEBAQEBAQEBAQEBAQEBAQEBAQEBAQEBAQEBAQEBAQE"

abbrev pub next_token : String
next_token = "yAEBAQEBAQEBAQEBAQEBAQEBAQEBAQEBAQEBAQEBAQE"

abbrev first_session : IssuedSession
first_session = record {
  session_token = first_token;
  csrf_token = next_token;
  expires_at = 105;
  principal = owner_principal "u" "o" first_record;
}

bootstrap-run :
    service_bootstrap auth_service first_draw 5 "u" "o" owner no_tables ≡ (ok first_session, owned)
unfolding service_bootstrap flagstack.Auth.Service.prepare_bootstrap
    flagstack.Auth.Input.normalize_bootstrap_input flagstack.Auth.Input.normalize_email drop_spaces
    flagstack.Common.trim_space byte_length flagstack.Auth.Input.validate_password
    flagstack.Auth.Input.matches_slug flagstack.Auth.Input.slug_rest hash_password
    flagstack.Auth.Service.new_session_secrets flagstack.Auth.Repository.bootstrap
    flagstack.Auth.Repository.check_bootstrap fill flagstack.Common.encode_base64
    flagstack.Auth.Password.encode_password flagstack.Auth.Password.hash_text
    flagstack.Auth.Password.parameters_text flagstack.Common.decimal
bootstrap-run = refl

abbrev credentials : LoginInput
credentials = record { email = " ada@example.org"; password = "correct horses!" }

abbrev next_session : IssuedSession
next_session = record {
  session_token = next_token;
  csrf_token = first_token;
  expires_at = 150;
  principal = owner_principal "u" "o" first_record;
}

abbrev pub signed_in : AuthDatabase
signed_in = record owned {
  sessions =
      (record { user_id = "u"; token_hash = fill 32 121; csrf_hash = fill 32 65; expires_at = 150 })
      ∷ owned.sessions;
}

login-run : login auth_service next_draw 50 credentials owned ≡ (ok next_session, signed_in)
unfolding login flagstack.Auth.Service.check_login flagstack.Auth.Service.prepare_bootstrap
    flagstack.Auth.Input.normalize_bootstrap_input flagstack.Auth.Input.normalize_email drop_spaces
    flagstack.Common.trim_space byte_length flagstack.Auth.Input.validate_password
    flagstack.Auth.Input.matches_slug flagstack.Auth.Input.slug_rest hash_password
    flagstack.Auth.Service.new_session_secrets flagstack.Auth.Repository.bootstrap
    flagstack.Auth.Repository.check_bootstrap fill flagstack.Common.encode_base64
    flagstack.Auth.Password.encode_password flagstack.Auth.Password.hash_text
    flagstack.Auth.Password.parameters_text flagstack.Common.decimal is_blank credential_by_email
    verify_password parse_password_hash flagstack.Common.split flagstack.Auth.Password.parse_parts
    flagstack.Auth.Password.parse_uint32_parameter flagstack.Common.after_prefix
    flagstack.Common.parse_uint32 flagstack.Common.decode_base64 flagstack.Common.position
    same_bytes flagstack.Auth.Repository.create_session flagstack.Auth.Repository.check_session
    principal_by_user_id flagstack.Auth.Repository.memberships_by_user_id
    flagstack.Auth.Repository.load_memberships flagstack.Common.sort_by flagstack.Common.insert_by
login-run = refl

bytes_only :
    {a b : List ℕ} (P : List ℕ → Type 0) → Path (Option (List ℕ)) (some a) (some b) → P a → P b
bytes_only {a} {b} P h p = let same : a ≡ b = ground arith in subst P same p

next_draw-AreSecrets : AreSecrets next_draw
next_draw-AreSecrets = (
  λ bytes h. bytes_only (λ b. AreBytes b × (length b ≡ 32)) h (omega arith, refl),
  λ bytes h. bytes_only (λ b. AreBytes b × (length b ≡ 32)) h (omega arith, refl),
)

login_sound_example :
    (email : String) × (credential : LocalCredential) × (normalize_email auth_platform
        credentials.email
      ≡ ok email)
    × (credential_by_email owned auth_platform.to_lower email ≡ ok credential)
    × (verify_password auth_platform.id_key credential.password_hash credentials.password ≡ ok true)
    × (is_blank credentials.password ≡ false)
login_sound_example =
    login_sound auth_service next_draw 50 credentials owned signed_in next_session login-run

authenticate_session-login_example :
    (session : Session) × (authenticate_session auth_service next_session.session_token 149
        signed_in
      ≡ ok session)
    × (session.principal ≡ next_session.principal)
    × (session.expires_at ≡ next_session.expires_at)
    × (valid_csrf auth_service session next_session.csrf_token ≡ true)
authenticate_session-login_example =
    authenticate_session-login auth_service next_draw 50 149 credentials owned signed_in
      next_session next_draw-AreSecrets login-run (omega arith)

abbrev pub found_session : Session
found_session = record {
  principal = owner_principal "u" "o" first_record;
  csrf_hash = fill 32 65;
  expires_at = 150;
}

pub authenticate-run : authenticate_session auth_service next_token 149 signed_in ≡ ok found_session
unfolding authenticate_session valid_secret flagstack.Common.decode_base64 flagstack.Common.position
    flagstack.Auth.Repository.session_by_token_hash same_bytes fill principal_by_user_id
    flagstack.Auth.Repository.memberships_by_user_id flagstack.Auth.Repository.load_memberships
    flagstack.Common.sort_by flagstack.Common.insert_by
authenticate-run = refl

authenticate_session-logout_example :
    authenticate_session auth_service next_token 60 (logout auth_service next_token signed_in) ≡ (
      if valid_secret next_token
        && same_bytes (auth_platform.sha256 next_token) (auth_platform.sha256 next_token)
      then err session_not_found
      else authenticate_session auth_service next_token 60 signed_in)
authenticate_session-logout_example =
    authenticate_session-logout auth_service next_token next_token 60 signed_in

stranger :
    credential_by_email owned auth_platform.to_lower "eve@example.org" ≡ err credential_not_found
unfolding credential_by_email drop_spaces trim_space
stranger = refl

stranger_email : normalize_email auth_platform "eve@example.org" ≡ ok "eve@example.org"
unfolding normalize_email drop_spaces trim_space byte_length
stranger_email = refl

stranger_formed : (is_blank "open sesame!" || ltb 1024 (byte_length "open sesame!")) ≡ false
unfolding is_blank byte_length
stranger_formed = refl

login-IsUnknownOrWrong_example :
    login auth_service next_draw 50
      (record { email = "eve@example.org"; password = "open sesame!" })
      owned
    ≡ (err invalid_credentials, owned)
login-IsUnknownOrWrong_example =
    login-IsUnknownOrWrong auth_service next_draw 50 owned
      (record { email = "eve@example.org"; password = "open sesame!" }) "eve@example.org"
      stranger_email stranger_formed (inl stranger)

abbrev blanks : LoginInput
blanks = record { email = "ada@example.org"; password = "            " }

abbrev between : List AuthCall
between = AuthCall.login next_draw 50 credentials ∷ AuthCall.logout first_token ∷ []

bootstrap_once_example :
    ((x : IssuedSession)
      → (service_bootstrap auth_service next_draw 60 "v" "q" owner
          (auth_run auth_service between owned)).0
        ≢ ok x)
    × ((service_bootstrap auth_service next_draw 60 "v" "q" owner
          (auth_run auth_service between owned)).1
        ≡ auth_run auth_service between owned)
bootstrap_once_example =
    bootstrap_once auth_service first_draw next_draw 5 60 "u" "o" "v" "q" owner owner no_tables
      owned first_session between bootstrap-run
