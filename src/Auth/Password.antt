-- ===== src/Auth/Password.antt =====
-- backend/internal/auth/password.go. Argon2id itself is a parameter, of a password, a salt, the
-- iterations, the memory, the parallelism and the length of the output; the bytes that the random
-- generator reads are an argument, `none` where it fails.
pub mod Roundtrip
pub mod Bounds
use flagstack.Auth.Types.{
  AuthError, HashFault, bad_parameter, bad_parameters, no_randomness, bad_format, bad_parallelism,
  bad_salt, unsafe_parameters, bad_output,
}
use flagstack.Common.{
  [], ◌∷◌, ◌==◌, ◌&&◌, ◌||◌, ◌*◌, ◌%◌, ◌^◌, ok, err, some, none, ◌>>=◌, ◌>>◌, ℕ, String, Bool, List,
  Option, Result, concat, encode_base64, eqb, parse_uint32, decimal, guard, length, split,
  std_alphabet, after_prefix, is_empty, not, ltb, decode_base64, same_bytes,
}

abbrev pub IdKey : Type 0
IdKey = String → List ℕ → ℕ → ℕ → ℕ → ℕ → List ℕ

abbrev pub argon2_memory : ℕ
argon2_memory = 65_536

abbrev pub argon2_iterations : ℕ
argon2_iterations = 3

abbrev pub argon2_parallelism : ℕ
argon2_parallelism = 4

abbrev pub argon2_salt_length : ℕ
argon2_salt_length = 16

abbrev pub argon2_key_length : ℕ
argon2_key_length = 32

-- The parts of an encoded hash.
pub record PasswordHash : Type 0 where
  pub memory : ℕ
  pub iterations : ℕ
  pub parallelism : ℕ
  pub salt : List ℕ
  pub expected : List ℕ

-- The directives `m=%d,t=%d,p=%d`.
unfoldable pub parameters_text : ℕ → ℕ → ℕ → String
parameters_text memory iterations parallelism = concat (concat "m=" (decimal memory)) (
    String.◌∷◌ "," (
      concat (concat "t=" (decimal iterations))
        (String.◌∷◌ "," (concat "p=" (decimal parallelism)))))

-- The verbs `$argon2id$v=%d$…$%s$%s`.
unfoldable pub hash_text : String → String → String → String
hash_text parameters salt key = String.◌∷◌ "$" (
    concat "argon2id" (
      String.◌∷◌ "$" (
        concat "v=19" (
          String.◌∷◌ "$" (concat parameters (String.◌∷◌ "$" (concat salt (String.◌∷◌ "$" key))))))))

module _ (id_key : IdKey) where
  unfoldable pub encode_password : String → List ℕ → ℕ → ℕ → ℕ → ℕ → String
  encode_password password salt memory iterations parallelism key_length =
      hash_text (parameters_text memory iterations parallelism) (encode_base64 std_alphabet salt)
        (encode_base64 std_alphabet (id_key password salt iterations memory parallelism key_length))

  unfoldable pub hash_password : Option (List ℕ) → String → Result AuthError String
  hash_password none password = err no_randomness
  hash_password (some salt) password = ok (
      encode_password password salt argon2_memory argon2_iterations argon2_parallelism
        argon2_key_length)

-- A test of a condition that refuses.
abbrev pub or_fault {ℓ} : {A : Type ℓ} → HashFault → Option A → Result HashFault A
or_fault e none = err e
or_fault e (some a) = ok a

abbrev pub parse_suffix : Option String → Option ℕ
parse_suffix none = none
parse_suffix (some digits) = parse_uint32 digits

-- parseUint32Parameter
unfoldable pub parse_uint32_parameter : String → String → Result HashFault ℕ
parse_uint32_parameter value prefix =
    or_fault bad_parameter (parse_suffix (after_prefix prefix value))

-- The tests of the third parameter: any error becomes the one error.
abbrev pub parallelism_of : Result HashFault ℕ → Result HashFault ℕ
parallelism_of (ok p) = guard (not (eqb p 0 || ltb 255 p)) bad_parallelism >> ok p
parallelism_of (err e) = err bad_parallelism

abbrev pub bytes_between : ℕ → ℕ → HashFault → Option (List ℕ) → Result HashFault (List ℕ)
bytes_between low high e none = err e
bytes_between low high e (some bytes) =
    guard (not (ltb (length bytes) low || ltb high (length bytes))) e >> ok bytes

-- The checks behind the first split. The product is one of `uint32`.
unfoldable pub parse_parts : String → String → String → Result HashFault PasswordHash
parse_parts memory_text iterations_text parallelism_text = do
  memory ← parse_uint32_parameter memory_text "m="
  iterations ← parse_uint32_parameter iterations_text "t="
  parallelism ← parallelism_of (parse_uint32_parameter parallelism_text "p=")
  guard
      (not (
        ltb memory (8 * parallelism % 2 ^ 32)
        || ltb 1_048_576 memory
        || eqb iterations 0
        || ltb 10 iterations))
      unsafe_parameters
  ok (record {
    memory = memory;
    iterations = iterations;
    parallelism = parallelism;
    salt = [];
    expected = [];
  })

abbrev pub parse_parameters : List String → Result HashFault PasswordHash
parse_parameters (m ∷ t ∷ p ∷ []) = parse_parts m t p
parse_parameters other = err bad_parameters

abbrev pub parse_fields : List String → Result HashFault PasswordHash
parse_fields (p0 ∷ p1 ∷ p2 ∷ p3 ∷ p4 ∷ p5 ∷ []) = do
  guard (is_empty p0 && p1 == "argon2id" && p2 == "v=19") bad_format
  parameters ← parse_parameters (split p3 b',')
  salt ← bytes_between 8 64 bad_salt (decode_base64 std_alphabet p4)
  expected ← bytes_between 16 64 bad_output (decode_base64 std_alphabet p5)
  ok (record parameters { salt = salt; expected = expected })
parse_fields other = err bad_format

unfoldable pub parse_password_hash : String → Result HashFault PasswordHash
parse_password_hash encoded = parse_fields (split encoded b'$')

unfoldable pub verify_password : IdKey → String → String → Result HashFault Bool
verify_password id_key encoded password = do
  h ← parse_password_hash encoded
  ok (
      same_bytes
        (id_key password h.salt h.iterations h.memory h.parallelism (length h.expected % 2 ^ 32))
        h.expected)
