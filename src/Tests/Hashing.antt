-- ===== src/Tests/Hashing.antt =====
-- A password and its hash, with an Argon2id that repeats the length of the password.
use flagstack.Auth.Password.Bounds.{parse_password_hash-IsSafe}
use flagstack.Auth.Password.{
  PasswordHash, hash_password, parse_password_hash, verify_password, argon2_iterations,
  argon2_memory, argon2_parallelism, argon2_key_length,
}
use flagstack.Auth.Service.{AuthService}
use flagstack.Auth.Password.Roundtrip.{IsKdf, IsSafe, verify_password-hash_password}
use flagstack.Auth.Input.{Platform}
use Prim.Native.Char.{code}
use flagstack.Common.{
  [], ◌∷◌, ◌==◌, ◌%◌, ◌<◌, ◌≡◌, ◌↔◌, inl, inr, ok, some, true, arith, if◌then◌else◌, refl, ap, zero,
  suc, ℕ, String, List, AreBytes, all_codes, is_plain, length, Bool-cases, and-parts, byte_length,
  ◌&&◌, ◌||◌, ◌≢◌, err, false, ◌∙◌, Option, is_blank, same_bytes, subst, trim_space, encode_base64,
  ltb, trim_space-is_plain, url_alphabet,
}

unfoldable pub fill : ℕ → ℕ → List ℕ
fill zero b = []
fill (suc n) b = b ∷ fill n b

pub length-fill : (n b : ℕ) → length (fill n b) ≡ n
unfolding fill
length-fill zero b = refl
length-fill (suc n) b = ap suc (length-fill n b)

pub fill-AreBytes : (n b : ℕ) → b < 256 → AreBytes (fill n b)
unfolding fill
fill-AreBytes zero b h = tt
fill-AreBytes (suc n) b h = (h, fill-AreBytes n b h)

abbrev pub first_code : String → ℕ
first_code String.[] = 0
first_code (String.◌∷◌ c s) = code c

-- Drops white space, and leaves the case.
unfoldable pub drop_spaces : String → String
drop_spaces String.[] = String.[]
drop_spaces (String.◌∷◌ c s) =
    let rest = drop_spaces s in if is_plain (code c) then String.◌∷◌ c rest else rest

pub drop_spaces-is_plain : (s : String) → all_codes is_plain (drop_spaces s) ≡ true
unfolding drop_spaces
drop_spaces-is_plain String.[] = refl
drop_spaces-is_plain (String.◌∷◌ c s) = elim (Bool-cases (is_plain (code c))) [
  | inl is ↦ rw (is, is) (drop_spaces-is_plain s)
  | inr is ↦ rw (is) (drop_spaces-is_plain s)
]

pub drop_spaces-plain : (s : String) → all_codes is_plain s ≡ true → drop_spaces s ≡ s
unfolding drop_spaces
drop_spaces-plain String.[] h = refl
drop_spaces-plain (String.◌∷◌ c s) h =
    let (is, rest) = and-parts (is_plain (code c)) (all_codes is_plain s) h in
    rw (is, drop_spaces-plain s rest) refl

abbrev pub auth_platform : Platform
auth_platform = record {
  id_key =
      λ password salt iterations memory parallelism size. fill size (byte_length password % 256);
  sha256 = λ s. fill 32 (first_code s % 256);
  to_lower = drop_spaces;
  equal_fold = λ a b. a == b;
  parse_address = λ s. some s;
  parse_uuid = λ s. some s;
}

pub auth_platform-IsKdf : IsKdf auth_platform.id_key
auth_platform-IsKdf = record {
  length_asked = λ password salt iterations memory parallelism size.
      length-fill size (byte_length password % 256);
  bytes = λ password salt iterations memory parallelism size.
      fill-AreBytes size (byte_length password % 256) (omega arith);
}

abbrev pub auth_service : AuthService
auth_service = record { platform = auth_platform; session_ttl = 100 }

abbrev pub salt : List ℕ
salt = 0 ∷ 1 ∷ 2 ∷ 3 ∷ 4 ∷ 5 ∷ 6 ∷ 7 ∷ 8 ∷ 9 ∷ 10 ∷ 11 ∷ 12 ∷ 13 ∷ 14 ∷ 255 ∷ []

pub salt-AreBytes : AreBytes salt
salt-AreBytes = omega arith

abbrev pub hash : String
hash =
    "$argon2id$v=19$m=65536,t=3,p=4$AAECAwQFBgcICQoLDA0O/w$Dw8PDw8PDw8PDw8PDw8PDw8PDw8PDw8PDw8PDw8PDw8"

hash-run : hash_password auth_platform.id_key (some salt) "correct horses!" ≡ ok hash
unfolding hash_password flagstack.Auth.Password.encode_password flagstack.Auth.Password.hash_text
    flagstack.Auth.Password.parameters_text flagstack.Common.decimal flagstack.Common.encode_base64
    flagstack.Common.byte_length fill
hash-run = refl

verify_password-hash_password_example :
    (verify_password auth_platform.id_key hash "wrong horse" ≡ ok true) ↔ (
      auth_platform.id_key "wrong horse" salt argon2_iterations argon2_memory argon2_parallelism
        argon2_key_length
      ≡ auth_platform.id_key "correct horses!" salt argon2_iterations argon2_memory
          argon2_parallelism argon2_key_length)
verify_password-hash_password_example =
    verify_password-hash_password auth_platform.id_key salt "correct horses!" "wrong horse" hash
      auth_platform-IsKdf salt-AreBytes refl hash-run

abbrev hash_parts : PasswordHash
hash_parts = record {
  memory = 65_536;
  iterations = 3;
  parallelism = 4;
  salt = salt;
  expected =
      15 ∷ 15 ∷ 15 ∷ 15 ∷ 15 ∷ 15 ∷ 15 ∷ 15 ∷ 15 ∷ 15 ∷ 15 ∷ 15 ∷ 15 ∷ 15 ∷ 15 ∷ 15 ∷ 15 ∷ 15 ∷ 15
      ∷ 15 ∷ 15 ∷ 15 ∷ 15 ∷ 15 ∷ 15 ∷ 15 ∷ 15 ∷ 15 ∷ 15 ∷ 15 ∷ 15 ∷ 15 ∷ [];
}

parse-run : parse_password_hash hash ≡ ok hash_parts
unfolding parse_password_hash flagstack.Common.split flagstack.Auth.Password.parse_parts
    flagstack.Auth.Password.parse_uint32_parameter flagstack.Common.after_prefix
    flagstack.Common.parse_uint32 flagstack.Common.decode_base64 flagstack.Common.position
parse-run = refl

parse_password_hash-IsSafe_example : IsSafe hash_parts
parse_password_hash-IsSafe_example = parse_password_hash-IsSafe hash hash_parts parse-run
