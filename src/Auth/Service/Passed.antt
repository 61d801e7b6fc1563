-- ===== src/Auth/Service/Passed.antt =====
-- The checks of `Login` of backend/internal/auth/service.go.
use flagstack.Common.{
  is_blank, byte_length, guard, wrap, ◌≡◌, ok, true, false, arith, refl, ap, ◌∙◌, ℕ, String,
  >>=-eq-ok, err-ne-ok, subst, ok-inj, ltb, err, Result, guard-eq_ok, ◌||◌, Bool, not, wrap-eq-ok,
}
use flagstack.Auth.Password.{verify_password}
use flagstack.Auth.Input.{normalize_email}
use flagstack.Auth.Types.{
  AuthDatabase, AuthError, LoginInput, SessionRecord, LocalCredential, bad_uuid, constraint,
  credential_not_found, invalid_credentials, bootstrap_complete, session_not_found, no_randomness,
  not_singular, row_missing, bad_csrf_hash, invalid_input, stored_hash,
}
use flagstack.Auth.Repository.{credential_by_email}
use flagstack.Auth.Service.{
  AuthService, Draw, Secrets, new_session_secrets, ltb, or_invalid_credentials, check_login,
  hide_unknown, not,
}

module _ (service : AuthService) where
  open service use {platform}

  -- What the checks of a login that passes have found.
  abbrev pub Passes : Draw → ℕ → LoginInput → AuthDatabase → Secrets × SessionRecord → Type 0
  Passes draw now input db prepared =
      (email : String) × (credential : LocalCredential) × (normalize_email platform input.email
        ≡ ok email)
      × (credential_by_email db platform.to_lower email ≡ ok credential)
      × (verify_password platform.id_key credential.password_hash input.password ≡ ok true)
      × (is_blank input.password ≡ false)
      × (new_session_secrets service draw now ≡ ok prepared.0)
      × (prepared.1 ≡ record {
        user_id = credential.user_id;
        token_hash = prepared.0.token_hash;
        csrf_hash = prepared.0.csrf_hash;
        expires_at = prepared.0.expires_at;
      })

  or_invalid_credentials-eq_ok {ℓ} :
      {A : Type ℓ} (r : Result AuthError A) {a : A} → or_invalid_credentials r ≡ ok a → r ≡ ok a
  or_invalid_credentials-eq_ok (ok b) h = h
  or_invalid_credentials-eq_ok (err e) h = absurd (err-ne-ok h)

  hide_unknown-eq_ok {ℓ} :
      {A : Type ℓ} (r : Result AuthError A) {a : A} → hide_unknown r ≡ ok a → r ≡ ok a
  hide_unknown-eq_ok (ok b) h = h
  hide_unknown-eq_ok (err credential_not_found) h = absurd (err-ne-ok h)
  hide_unknown-eq_ok (err bootstrap_complete) h = absurd (err-ne-ok h)
  hide_unknown-eq_ok (err invalid_credentials) h = absurd (err-ne-ok h)
  hide_unknown-eq_ok (err session_not_found) h = absurd (err-ne-ok h)
  hide_unknown-eq_ok (err (invalid_input field fault)) h = absurd (err-ne-ok h)
  hide_unknown-eq_ok (err (stored_hash fault)) h = absurd (err-ne-ok h)
  hide_unknown-eq_ok (err no_randomness) h = absurd (err-ne-ok h)
  hide_unknown-eq_ok (err not_singular) h = absurd (err-ne-ok h)
  hide_unknown-eq_ok (err row_missing) h = absurd (err-ne-ok h)
  hide_unknown-eq_ok (err constraint) h = absurd (err-ne-ok h)
  hide_unknown-eq_ok (err bad_uuid) h = absurd (err-ne-ok h)
  hide_unknown-eq_ok (err bad_csrf_hash) h = absurd (err-ne-ok h)

  pub check_login-Passes :
      (draw : Draw) (now : ℕ) (input : LoginInput) (db : AuthDatabase)
      (prepared : Secrets × SessionRecord)
      → check_login service draw now input db ≡ ok prepared
      → Passes draw now input db prepared
  unfolding check_login
  check_login-Passes draw now input db prepared h =
      let (email, normal, h1) =
        >>=-eq-ok (or_invalid_credentials (normalize_email platform input.email)) _ h in
      let formed : Bool = not (is_blank input.password || ltb 1024 (byte_length input.password)) in
      let (_, well, h2) = >>=-eq-ok (guard formed invalid_credentials) _ h1 in
      let well_formed = guard-eq_ok formed invalid_credentials well in
      let (credential, known, h3) =
        >>=-eq-ok (hide_unknown (credential_by_email db platform.to_lower email)) _ h2 in
      let (valid, verified, h4) =
        >>=-eq-ok
          (wrap stored_hash
            (verify_password platform.id_key credential.password_hash input.password))
          _ h3 in
      let (_, passed, h5) = >>=-eq-ok (guard valid invalid_credentials) _ h4 in
      let (s, issued, h6) = >>=-eq-ok (new_session_secrets service draw now) _ h5 in
      let same = ok-inj h6 in
      let verifies =
        wrap-eq-ok stored_hash
          (verify_password platform.id_key credential.password_hash input.password) verified in
      (
        email,
        credential,
        or_invalid_credentials-eq_ok (normalize_email platform input.email) normal,
        hide_unknown-eq_ok (credential_by_email db platform.to_lower email) known,
        verifies ∙ ap ok (guard-eq_ok valid invalid_credentials passed),
        ground arith,
        issued ∙ ap (λ x. ok x.0) same,
        subst
            (λ (x : Secrets × SessionRecord). x.1 ≡ record {
              user_id = credential.user_id;
              token_hash = x.0.token_hash;
              csrf_hash = x.0.csrf_hash;
              expires_at = x.0.expires_at;
            })
            same refl,
      )
