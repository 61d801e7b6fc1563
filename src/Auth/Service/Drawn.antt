-- ===== src/Auth/Service/Drawn.antt =====
-- `newSessionSecrets` of backend/internal/auth/service.go.
use flagstack.Common.{
  decode_base64, url_alphabet, ◌+◌, ◌≡◌, ok, some, none, true, refl, sym, ap, ◌∙◌, ℕ, String, List,
  Option, AreBytes, >>=-eq-ok, length, err-ne-ok, subst, ok-inj, decode_base64-encode_base64,
  url_alphabet-IsAlphabet,
}
use flagstack.Auth.Service.{
  AuthService, Draw, valid_secret, Secrets, new_session_secrets, length, random_secret,
  has_secret_length,
}

-- The random bytes of a secret, where the generator succeeds.
abbrev pub AreSecrets : Draw → Type 0
AreSecrets draw =
    ((bytes : List ℕ) → draw.session_secret ≡ some bytes → AreBytes bytes × (length bytes ≡ 32))
    × ((bytes : List ℕ) → draw.csrf_secret ≡ some bytes → AreBytes bytes × (length bytes ≡ 32))

random_secret-valid_secret :
    (drawn : Option (List ℕ)) (token : String)
    → ((bytes : List ℕ) → drawn ≡ some bytes → AreBytes bytes × (length bytes ≡ 32))
    → random_secret drawn ≡ ok token
    → valid_secret token ≡ true
unfolding valid_secret
random_secret-valid_secret none token law h = absurd (err-ne-ok h)
random_secret-valid_secret (some bytes) token law h =
    let (are, size) = law bytes refl in
    ap (λ t. has_secret_length (decode_base64 url_alphabet t)) (sym (ok-inj h))
    ∙ rw (decode_base64-encode_base64 url_alphabet bytes url_alphabet-IsAlphabet are, size) refl

module _ (service : AuthService) where
  open service use {platform, session_ttl}

  -- What `newSessionSecrets` gives.
  abbrev pub IsIssued : Draw → ℕ → Secrets → Type 0
  IsIssued draw now s =
      (AreSecrets draw → (valid_secret s.session_token ≡ true) × (valid_secret s.csrf_token ≡ true))
      × (s.token_hash ≡ platform.sha256 s.session_token)
      × (s.csrf_hash ≡ platform.sha256 s.csrf_token)
      × (s.expires_at ≡ now + session_ttl)

  pub new_session_secrets-IsIssued :
      (draw : Draw) (now : ℕ) (s : Secrets)
      → new_session_secrets service draw now ≡ ok s
      → IsIssued draw now s
  unfolding new_session_secrets
  new_session_secrets-IsIssued draw now s h =
      let (session, drew, h1) = >>=-eq-ok (random_secret draw.session_secret) _ h in
      let (csrf, drew_csrf, h2) = >>=-eq-ok (random_secret draw.csrf_secret) _ h1 in
      subst (IsIssued draw now) (ok-inj h2) (
        λ law. (
          random_secret-valid_secret draw.session_secret session law.0 drew,
          random_secret-valid_secret draw.csrf_secret csrf law.1 drew_csrf,
        ),
        refl,
        refl,
        refl,
      )
