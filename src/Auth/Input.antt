-- ===== src/Auth/Input.antt =====
-- backend/internal/auth/types.go: the normalisation of inputs. Where a byte length is bounded and
-- the characters are ASCII, the two lengths are one.
use flagstack.Auth.Types.{
  AuthError, BootstrapInput, invalid_input, required, too_short, too_long, bad_email, bad_slug,
}
use flagstack.Auth.Password.{IdKey}
use Prim.Native.Char.{code}
use flagstack.Common.{
  ◌&&◌, ◌||◌, ok, some, none, true, false, if◌then◌else◌, ◌>>=◌, ◌>>◌, ℕ, String, Bool, List,
  Option, Result, is_empty, is_lower_or_digit, eqb, guard, leb, trim_space, byte_length, not, ltb,
}

-- What the package uses of others: Argon2id, SHA-256, `strings.ToLower` and `strings.EqualFold`, the
-- address that `mail.ParseAddress` reads, and `uuid.Parse` with the canonical text of its result.
pub record Platform : Type 0 where
  pub id_key : IdKey
  pub sha256 : String → List ℕ
  pub to_lower : String → String
  pub equal_fold : String → String → Bool
  pub parse_address : String → Option String
  pub parse_uuid : String → Option String

abbrev is_slug_char : ℕ → Bool
is_slug_char c = is_lower_or_digit c || eqb c 45

-- The group behind the first character of `organisationSlugPattern`, without the bound on its
-- length.
unfoldable pub slug_rest : String → Bool
slug_rest String.[] = true
slug_rest (String.◌∷◌ c s) =
    let rest = slug_rest s in
    if is_empty s then is_lower_or_digit (code c) else is_slug_char (code c) && rest

-- `organisationSlugPattern.MatchString`
unfoldable pub matches_slug : String → Bool
matches_slug String.[] = false
matches_slug (String.◌∷◌ c s) = is_lower_or_digit (code c) && slug_rest s && leb (byte_length s) 62

abbrev pub is_address : (String → String → Bool) → String → Option String → Bool
is_address equal_fold email none = false
is_address equal_fold email (some address) = equal_fold address email

unfoldable pub validate_password : String → Result AuthError (Unit {0})
validate_password password = do
  guard (not (ltb (byte_length password) 12)) (invalid_input "password" too_short)
  guard (leb (byte_length password) 1024) (invalid_input "password" too_long)

module _ (pf : Platform) where
  unfoldable pub normalize_email : String → Result AuthError String
  normalize_email value = do
    let email = pf.to_lower (trim_space value)
    guard (not (is_empty email)) (invalid_input "email" required)
    guard (leb (byte_length email) 320) (invalid_input "email" too_long)
    guard (is_address pf.equal_fold email (pf.parse_address email))
        (invalid_input "email" bad_email)
    ok email

  unfoldable pub normalize_bootstrap_input : BootstrapInput → Result AuthError BootstrapInput
  normalize_bootstrap_input input = do
    email ← normalize_email input.email
    validate_password input.password
    let display_name = trim_space input.display_name
    guard (not (is_empty display_name)) (invalid_input "display_name" required)
    guard (leb (byte_length display_name) 120) (invalid_input "display_name" too_long)
    let organisation_name = trim_space input.organisation_name
    guard (not (is_empty organisation_name)) (invalid_input "organisation_name" required)
    guard (leb (byte_length organisation_name) 160) (invalid_input "organisation_name" too_long)
    let organisation_slug = pf.to_lower (trim_space input.organisation_slug)
    guard (matches_slug organisation_slug) (invalid_input "organisation_slug" bad_slug)
    ok (record {
      email = email;
      display_name = display_name;
      password = input.password;
      organisation_name = organisation_name;
      organisation_slug = organisation_slug;
    })
