-- ===== src/Auth/Service/Prepared.antt =====
-- What `Bootstrap` of backend/internal/auth/service.go prepares, and its input as
-- backend/internal/auth/types.go normalises it.
use flagstack.Common.{
  guard, byte_length, ◌≡◌, ok, true, false, arith, ◌>>◌, refl, sym, ap, ◌∙◌, ℕ, String, List,
  trim_space, >>=-eq-ok, ltb, not, is_empty, ok-inj, guard-eq_ok, leb, some, length, AreBytes,
}
use flagstack.Auth.Service.Drawn.{new_session_secrets-IsIssued}
use flagstack.Auth.Password.Roundtrip.{IsKdf, verify_password-hash_password}
use flagstack.Auth.Password.{hash_password, verify_password, argon2_salt_length}
use flagstack.Auth.Types.{
  BootstrapInput, BootstrapRecord, invalid_input, required, too_short, too_long, bad_email,
  bad_slug,
}
use flagstack.Auth.Input.{
  Platform, normalize_bootstrap_input, normalize_email, validate_password, is_address, matches_slug,
}
use flagstack.Auth.Service.{
  AuthService, prepare_bootstrap, Draw, Secrets, ltb, new_session_secrets, not, length,
}

-- What a prepared bootstrap has normalised.
abbrev pub IsPrepared : AuthService → Draw → ℕ → BootstrapInput → Secrets × BootstrapRecord → Type 0
IsPrepared service draw now input prepared =
    (normalize_email service.platform input.email ≡ ok prepared.1.email)
    × (ltb 1024 (byte_length input.password) ≡ false)
    × (hash_password service.platform.id_key draw.salt input.password ≡ ok prepared.1.password_hash)
    × (prepared.1.session_token_hash ≡ prepared.0.token_hash)

-- The email is kept in its normalised form, and the password as it is.
abbrev IsNormal : Platform → BootstrapInput → BootstrapInput → Type 0
IsNormal pf input normal =
    (normalize_email pf input.email ≡ ok normal.email)
    × (normal.password ≡ input.password)
    × (ltb 1024 (byte_length input.password) ≡ false)

normalize_bootstrap_input-IsNormal :
    (pf : Platform) (input normal : BootstrapInput)
    → normalize_bootstrap_input pf input ≡ ok normal
    → IsNormal pf input normal
unfolding normalize_bootstrap_input validate_password
normalize_bootstrap_input-IsNormal pf input normal h =
    let (email, normalised, h1) = >>=-eq-ok (normalize_email pf input.email) _ h in
    let (_, tested, h2) =
      >>=-eq-ok
        (guard (not (ltb (byte_length input.password) 12)) (invalid_input "password" too_short)
          >> guard (leb (byte_length input.password) 1024) (invalid_input "password" too_long))
        _ h1 in
    let (_, _, short) =
      >>=-eq-ok
        (guard (not (ltb (byte_length input.password) 12)) (invalid_input "password" too_short)) _
        tested in
    let within =
      guard-eq_ok (leb (byte_length input.password) 1024) (invalid_input "password" too_long)
        short in
    let name = trim_space input.display_name in
    let (_, _, h3) =
      >>=-eq-ok (guard (not (is_empty name)) (invalid_input "display_name" required)) _ h2 in
    let (_, _, h4) =
      >>=-eq-ok (guard (leb (byte_length name) 120) (invalid_input "display_name" too_long)) _ h3 in
    let organisation = trim_space input.organisation_name in
    let (_, _, h5) =
      >>=-eq-ok (guard (not (is_empty organisation)) (invalid_input "organisation_name" required)) _
        h4 in
    let (_, _, h6) =
      >>=-eq-ok
        (guard (leb (byte_length organisation) 160) (invalid_input "organisation_name" too_long)) _
        h5 in
    let (_, _, h7) =
      >>=-eq-ok
        (guard (matches_slug (pf.to_lower (trim_space input.organisation_slug)))
          (invalid_input "organisation_slug" bad_slug))
        _ h6 in
    let is = ok-inj h7 in
    (normalised ∙ ap (λ x. ok x.email) is, sym (ap (λ x. x.password) is), ground arith)

pub prepare_bootstrap-IsPrepared :
    (service : AuthService) (draw : Draw) (now : ℕ) (input : BootstrapInput)
    (prepared : Secrets × BootstrapRecord)
    → prepare_bootstrap service draw now input ≡ ok prepared
    → IsPrepared service draw now input prepared
unfolding prepare_bootstrap
prepare_bootstrap-IsPrepared service draw now input prepared h =
    let pf = service.platform in
    let (normal, normalised, h1) = >>=-eq-ok (normalize_bootstrap_input pf input) _ h in
    let (email, same, within) = normalize_bootstrap_input-IsNormal pf input normal normalised in
    let (hash, hashed, h2) = >>=-eq-ok (hash_password pf.id_key draw.salt normal.password) _ h1 in
    let (s, _, h3) = >>=-eq-ok (new_session_secrets service draw now) _ h2 in
    let is = ok-inj h3 in
    (
      email ∙ ap (λ x. ok x.1.email) is,
      within,
      ap (hash_password pf.id_key draw.salt) (sym same)
          ∙ hashed
          ∙ ap (λ x. ok x.1.password_hash) is,
      sym (ap (λ x. x.1.session_token_hash) is) ∙ ap (λ x. x.0.token_hash) is,
    )

pub prepared_secrets :
    (service : AuthService) (draw : Draw) (now : ℕ) (input : BootstrapInput)
    (prepared : Secrets × BootstrapRecord)
    → prepare_bootstrap service draw now input ≡ ok prepared
    → new_session_secrets service draw now ≡ ok prepared.0
unfolding prepare_bootstrap
prepared_secrets service draw now input prepared h =
    let pf = service.platform in
    let (normal, _, h1) = >>=-eq-ok (normalize_bootstrap_input pf input) _ h in
    let (_, _, h2) = >>=-eq-ok (hash_password pf.id_key draw.salt normal.password) _ h1 in
    let (s, drawn, h3) = >>=-eq-ok (new_session_secrets service draw now) _ h2 in
    drawn ∙ ap (λ x. ok x.0) (ok-inj h3)

pub normalize_email-normal :
    (pf : Platform) (value email : String)
    → normalize_email pf value ≡ ok email
    → pf.to_lower (trim_space value) ≡ email
unfolding normalize_email
normalize_email-normal pf value email h =
    let e = pf.to_lower (trim_space value) in
    let (_, _, h1) = >>=-eq-ok (guard (not (is_empty e)) (invalid_input "email" required)) _ h in
    let (_, _, h2) =
      >>=-eq-ok (guard (leb (byte_length e) 320) (invalid_input "email" too_long)) _ h1 in
    let (_, _, h3) =
      >>=-eq-ok
        (guard (is_address pf.equal_fold e (pf.parse_address e)) (invalid_input "email" bad_email))
        _ h2 in
    ok-inj h3

-- The email that is stored is in its normal form.
pub prepared_email-normal :
    (service : AuthService) (draw : Draw) (now : ℕ) (input : BootstrapInput) (s : Secrets)
    (r : BootstrapRecord)
    → ((text : String)
        → service.platform.to_lower (trim_space (service.platform.to_lower (trim_space text)))
          ≡ service.platform.to_lower (trim_space text))
    → prepare_bootstrap service draw now input ≡ ok (s, r)
    → service.platform.to_lower (trim_space r.email) ≡ r.email
prepared_email-normal service draw now input s r idempotent prepared =
    let pf = service.platform in
    let (normal, _, _, _) = prepare_bootstrap-IsPrepared service draw now input (s, r) prepared in
    let e = normalize_email-normal pf input.email r.email normal in
    ap (λ x. pf.to_lower (trim_space x)) (sym e) ∙ idempotent input.email ∙ e

-- The hash that is stored verifies the password.
pub prepared_hash-verifies :
    (service : AuthService) (draw : Draw) (now : ℕ) (input : BootstrapInput) (salt : List ℕ)
    (s : Secrets) (r : BootstrapRecord)
    → IsKdf service.platform.id_key
    → draw.salt ≡ some salt
    → AreBytes salt
    → length salt ≡ argon2_salt_length
    → prepare_bootstrap service draw now input ≡ ok (s, r)
    → verify_password service.platform.id_key r.password_hash input.password ≡ ok true
prepared_hash-verifies service draw now input salt s r kdf salted are salt_size prepared =
    let pf = service.platform in
    let (_, _, hashed, _) = prepare_bootstrap-IsPrepared service draw now input (s, r) prepared in
    (verify_password-hash_password pf.id_key salt input.password input.password r.password_hash kdf
        are salt_size (ap (λ x. hash_password pf.id_key x input.password) (sym salted) ∙ hashed)).1
      refl

-- The digest that is stored is that of the token.
pub prepared_digest :
    (service : AuthService) (draw : Draw) (now : ℕ) (input : BootstrapInput) (s : Secrets)
    (r : BootstrapRecord)
    → prepare_bootstrap service draw now input ≡ ok (s, r)
    → r.session_token_hash ≡ service.platform.sha256 s.session_token
prepared_digest service draw now input s r prepared =
    let (_, _, _, same) = prepare_bootstrap-IsPrepared service draw now input (s, r) prepared in
    let (_, token, _, _) =
      new_session_secrets-IsIssued service draw now s
        (prepared_secrets service draw now input (s, r) prepared) in
    same ∙ token
