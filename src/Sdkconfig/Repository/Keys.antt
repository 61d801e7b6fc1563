-- ===== src/Sdkconfig/Repository/Keys.antt =====
-- The texts of SDK keys: what `CreateCredential` of backend/internal/sdkconfig/sdkconfig.go builds
-- and `authenticate` takes apart.
use flagstack.Sdkconfig.Service.{cut_at_dot, server_key_prefix, client_key_prefix}
use flagstack.Sdkconfig.Credentials.{Draw, without_dashes, server_key}
use Prim.Native.String.append
use flagstack.Common.{
  ◌&&◌, ◌||◌, ◌≡◌, some, true, false, arith, refl, ℕ, String, Bool, Option, leb, all_codes, concat,
  eqb, byte_length, is_empty, none, is_plain, trim_space, trim_space-is_plain, all_codes-concat,
  all_codes_weaken, after_prefix,
}

-- [0-9a-f], and the alphabet of base64.RawURLEncoding
abbrev pub is_hex : ℕ → Bool
is_hex c = (leb 48 c && leb c 57) || (leb 97 c && leb c 102)

abbrev pub is_base64url : ℕ → Bool
is_base64url c =
    (leb 48 c && leb c 57)
    || (leb 97 c && leb c 122)
    || (leb 65 c && leb c 90)
    || eqb c 45
    || eqb c 95

-- What is documented of the generators: the canonical text of a new UUID has 32 hexadecimal digits
-- and dashes and `uuid.Parse` reads it, with the dashes and without, and a token is a text of
-- base64 characters that is not empty.
pub record IsDrawn (parse_uuid : String → Option String) (draw : Draw) : Type 0 where
  pub canonical : (id : String) → draw.id ≡ some id → parse_uuid id ≡ some id
  pub compact : (id : String) → draw.id ≡ some id → parse_uuid (without_dashes id) ≡ some id
  pub digits : (id : String) → draw.id ≡ some id → byte_length (without_dashes id) ≡ 32
  pub hex : (id : String) → draw.id ≡ some id → all_codes is_hex (without_dashes id) ≡ true
  pub secret_token : (s : String) → draw.secret ≡ some s → all_codes is_base64url s ≡ true
  pub secret_full : (s : String) → draw.secret ≡ some s → is_empty s ≡ false
  pub public_token : (s : String) → draw.public ≡ some s → all_codes is_base64url s ≡ true

pub cut_at_dot-concat :
    (a s : String) → all_codes is_hex a ≡ true → cut_at_dot (concat a (concat "." s)) ≡ some (a, s)
unfolding cut_at_dot
cut_at_dot-concat String.[] s h =
    rw (append.nil (concat "." s), append.cons "." "" s, append.nil s) refl
cut_at_dot-concat (String.◌∷◌ c a) s h =
    rw (append.cons c a (concat "." s)) (ground (arith, cut_at_dot-concat a s))

pub server_after_client :
    (s : String) → after_prefix server_key_prefix (concat client_key_prefix s) ≡ none
unfolding after_prefix
server_after_client s =
    rw
      (
        append.cons "s" "yoc_client_" s,
        append.cons "y" "oc_client_" s,
        append.cons "o" "c_client_" s,
        append.cons "c" "_client_" s,
        append.cons "_" "client_" s,
        append.cons "c" "lient_" s,
      )
      refl

is_plain-is_hex : (c : ℕ) → is_hex c ≡ true → is_plain c ≡ true
is_plain-is_hex c h = ground arith

is_plain-is_base64url : (c : ℕ) → is_base64url c ≡ true → is_plain c ≡ true
is_plain-is_base64url c h = ground arith

pub trim_space-server_key :
    (id secret : String)
    → all_codes is_hex (without_dashes id) ≡ true
    → all_codes is_base64url secret ≡ true
    → trim_space (server_key id secret) ≡ server_key id secret
unfolding server_key
trim_space-server_key id secret h k = trim_space-is_plain (server_key id secret) (
    rw
      (
        all_codes-concat is_plain server_key_prefix
            (concat (without_dashes id) (concat "." secret)),
        all_codes-concat is_plain (without_dashes id) (concat "." secret),
        all_codes-concat is_plain "." secret,
        all_codes_weaken is_hex is_plain (without_dashes id) is_plain-is_hex h,
        all_codes_weaken is_base64url is_plain secret is_plain-is_base64url k,
      )
      refl)

pub trim_space-client_key :
    (public : String)
    → all_codes is_base64url public ≡ true
    → trim_space (concat client_key_prefix public) ≡ concat client_key_prefix public
trim_space-client_key public k = trim_space-is_plain (concat client_key_prefix public) (
    rw
      (
        all_codes-concat is_plain client_key_prefix public,
        all_codes_weaken is_base64url is_plain public is_plain-is_base64url k,
      )
      refl)
