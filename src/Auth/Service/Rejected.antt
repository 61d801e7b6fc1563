-- ===== src/Auth/Service/Rejected.antt =====
-- The logins that backend/internal/auth/service.go rejects.
use flagstack.Common.{
  is_blank, byte_length, ◌||◌, ◌≡◌, ◌⊎◌, inl, inr, ok, err, false, refl, ℕ, String, ltb,
}
use flagstack.Auth.Password.{verify_password}
use flagstack.Auth.Repository.{credential_by_email}
use flagstack.Auth.Input.{normalize_email}
use flagstack.Auth.Types.{
  AuthDatabase, LoginInput, credential_not_found, LocalCredential, invalid_credentials,
}
use flagstack.Auth.Service.{AuthService, login, Draw, check_login, ltb}

module _ (service : AuthService) (draw : Draw) (now : ℕ) (db : AuthDatabase) where
  open service use {platform}

  -- The normalised email has no local credential, or its stored hash does not verify the password.
  abbrev pub IsUnknownOrWrong : String → String → Type 0
  IsUnknownOrWrong email password =
      (credential_by_email db platform.to_lower email ≡ err credential_not_found)
      ⊎ ((credential : LocalCredential) × (credential_by_email db platform.to_lower email
            ≡ ok credential)
          × (verify_password platform.id_key credential.password_hash password ≡ ok false))

  check_login-rejects :
      (input : LoginInput) (email : String)
      → normalize_email platform input.email ≡ ok email
      → (is_blank input.password || ltb 1024 (byte_length input.password)) ≡ false
      → IsUnknownOrWrong email input.password
      → check_login service draw now input db ≡ err invalid_credentials
  unfolding check_login
  check_login-rejects input email normal formed (inl unknown) = rw (normal, formed, unknown) refl
  check_login-rejects input email normal formed (inr (credential, known, wrong)) =
      rw (normal, formed, known, wrong) refl

-- A login does not tell an unknown email from a wrong password: with an email of a valid form and a
-- password that is neither blank nor too long, both are answered with "invalid credentials", and the
-- tables stay as they were.
pub login-IsUnknownOrWrong :
    (service : AuthService) (draw : Draw) (now : ℕ) (db : AuthDatabase) (input : LoginInput)
    (email : String)
    → normalize_email service.platform input.email ≡ ok email
    → (is_blank input.password || ltb 1024 (byte_length input.password)) ≡ false
    → IsUnknownOrWrong service draw now db email input.password
    → login service draw now input db ≡ (err invalid_credentials, db)
unfolding login
login-IsUnknownOrWrong service draw now db input email normal formed rejected =
    rw (check_login-rejects service draw now db input email normal formed rejected) refl
