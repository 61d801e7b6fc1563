-- ===== src/Auth/Password/Roundtrip.antt =====
-- `encodePassword`, `parsePasswordHash` and `VerifyPassword` of backend/internal/auth/password.go.
use flagstack.Common.{
  same_bytes, decimal, encode_base64, std_alphabet, decode_base64, [], ◌∷◌, ◌≡◌, true, refl, sym,
  ap, ◌∙◌, ℕ, String, List, all_codes, every_below, AreBytes, free_of, length, split,
  all_codes-concat, concat, digit_char, split-concat, all_codes-decimal, all_codes-encode_base64,
  split-whole, ◌||◌, ◌*◌, ◌%◌, ◌^◌, ◌≤◌, ◌<◌, ◌↔◌, ok, some, false, arith, after_prefix-concat, eqb,
  ltb, parse_uint32-decimal, decode_base64-encode_base64, std_alphabet-IsAlphabet, ok-inj,
  same_bytes-eq, same_bytes_refl,
}
use flagstack.Auth.Types.{HashFault, bad_salt, bad_output}
use flagstack.Auth.Password.{
  IdKey, hash_text, parameters_text, length, concat, PasswordHash, hash_password, parse_parts,
  parse_password_hash, parse_uint32_parameter, bytes_between, encode_password, eqb, ltb,
  verify_password, argon2_salt_length, argon2_iterations, argon2_memory, argon2_parallelism,
  argon2_key_length,
}
use Prim.Native.String.append
use Prim.Native.Char.{code}

-- What is documented of Argon2id: its output is as long as was asked for.
pub record IsKdf (id_key : IdKey) : Type 0 where
  pub length_asked :
      (password : String) (salt : List ℕ) (iterations memory parallelism size : ℕ)
      → length (id_key password salt iterations memory parallelism size) ≡ size
  pub bytes :
      (password : String) (salt : List ℕ) (iterations memory parallelism size : ℕ)
      → AreBytes (id_key password salt iterations memory parallelism size)

-- The tables of the characters that parts of the text are made of.
digits_free :
    (sep : ℕ)
    → every_below 10 (λ d. free_of sep (code (digit_char d))) ≡ true
    → (n : ℕ) → all_codes (free_of sep) (decimal n) ≡ true
digits_free sep table n = all_codes-decimal (free_of sep) n table

number_free :
    (sep : ℕ) (name : String) (n : ℕ)
    → all_codes (free_of sep) name ≡ true
    → every_below 10 (λ d. free_of sep (code (digit_char d))) ≡ true
    → all_codes (free_of sep) (concat name (decimal n)) ≡ true
number_free sep name n named table =
    all_codes-concat (free_of sep) name (decimal n) ∙ rw (named, digits_free sep table n) refl

split-parameters_text :
    (m t p : ℕ)
    → split (parameters_text m t p) b','
      ≡ concat "m=" (decimal m) ∷ concat "t=" (decimal t) ∷ concat "p=" (decimal p) ∷ []
unfolding parameters_text every_below
split-parameters_text m t p =
    split-concat (concat "m=" (decimal m)) ","
      (concat (concat "t=" (decimal t)) (String.◌∷◌ "," (concat "p=" (decimal p))))
      (number_free b',' "m=" m refl refl)
    ∙ ap (λ parts. concat "m=" (decimal m) ∷ parts)
        (split-concat (concat "t=" (decimal t)) "," (concat "p=" (decimal p))
            (number_free b',' "t=" t refl refl)
          ∙ ap (λ parts. concat "t=" (decimal t) ∷ parts)
              (split-whole (concat "p=" (decimal p)) b',' (number_free b',' "p=" p refl refl)))

parameters_free : (m t p : ℕ) → all_codes (free_of b'$') (parameters_text m t p) ≡ true
unfolding parameters_text every_below
parameters_free m t p =
    rw
      (
        all_codes-concat (free_of b'$') (concat "m=" (decimal m)) (
            String.◌∷◌ ","
              (concat (concat "t=" (decimal t)) (String.◌∷◌ "," (concat "p=" (decimal p))))),
        all_codes-concat (free_of b'$') (concat "t=" (decimal t))
            (String.◌∷◌ "," (concat "p=" (decimal p))),
        number_free b'$' "m=" m refl refl,
        number_free b'$' "t=" t refl refl,
        number_free b'$' "p=" p refl refl,
      )
      refl

encoded_free :
    (bytes : List ℕ)
    → AreBytes bytes
    → all_codes (free_of b'$') (encode_base64 std_alphabet bytes) ≡ true
unfolding every_below
encoded_free bytes h = all_codes-encode_base64 (free_of b'$') std_alphabet bytes refl h

split-hash_text :
    (parameters salt key : String)
    → all_codes (free_of b'$') parameters ≡ true
    → all_codes (free_of b'$') salt ≡ true
    → all_codes (free_of b'$') key ≡ true
    → split (hash_text parameters salt key) b'$'
      ≡ "" ∷ "argon2id" ∷ "v=19" ∷ parameters ∷ salt ∷ key ∷ []
unfolding hash_text
split-hash_text parameters salt key h1 h2 h3 =
    ap (λ t. split t b'$') (sym (append.nil (String.◌∷◌ "$" (rest1))))
    ∙ split-concat "" "$" rest1 refl
    ∙ ap (λ parts. "" ∷ parts)
        (split-concat "argon2id" "$" rest2 refl
          ∙ ap (λ parts. "argon2id" ∷ parts)
              (split-concat "v=19" "$" rest3 refl
                ∙ ap (λ parts. "v=19" ∷ parts)
                    (split-concat parameters "$" rest4 h1
                      ∙ ap (λ parts. parameters ∷ parts)
                          (split-concat salt "$" key h2
                            ∙ ap (λ parts. salt ∷ parts) (split-whole key b'$' h3)))))
  where
    rest4 : String
    rest4 = concat salt (String.◌∷◌ "$" key)

    rest3 : String
    rest3 = concat parameters (String.◌∷◌ "$" rest4)

    rest2 : String
    rest2 = concat "v=19" (String.◌∷◌ "$" rest3)

    rest1 : String
    rest1 = concat "argon2id" (String.◌∷◌ "$" rest2)

parse_uint32_parameter-named :
    (name : String) (n : ℕ)
    → n < 2 ^ 32
    → parse_uint32_parameter (concat name (decimal n)) name ≡ ok n
unfolding parse_uint32_parameter
parse_uint32_parameter-named name n below =
    rw (after_prefix-concat name (decimal n), parse_uint32-decimal n below) refl

-- The bounds that `parsePasswordHash` asks for.
pub record IsSafe (h : PasswordHash) : Type 0 where
  pub memory_low : 8 * h.parallelism ≤ h.memory
  pub memory_high : h.memory ≤ 1_048_576
  pub iterations_low : 1 ≤ h.iterations
  pub iterations_high : h.iterations ≤ 10
  pub parallelism_low : 1 ≤ h.parallelism
  pub parallelism_high : h.parallelism ≤ 255
  pub salt_low : 8 ≤ length h.salt
  pub salt_high : length h.salt ≤ 64
  pub expected_low : 16 ≤ length h.expected
  pub expected_high : length h.expected ≤ 64

parse_parts-parameters :
    (h : PasswordHash)
    → IsSafe h
    → parse_parts
        (concat "m=" (decimal h.memory))
        (concat "t=" (decimal h.iterations))
        (concat "p=" (decimal h.parallelism))
      ≡ ok (record {
        memory = h.memory;
        iterations = h.iterations;
        parallelism = h.parallelism;
        salt = [];
        expected = [];
      })
unfolding parse_parts
parse_parts-parameters h safe =
    let tested : (eqb h.parallelism 0 || ltb 255 h.parallelism) ≡ false = ground arith in
    let safe_parameters : (ltb h.memory (8 * h.parallelism % 2 ^ 32)
          || ltb 1_048_576 h.memory
          || eqb h.iterations 0
          || ltb 10 h.iterations)
        ≡ false =
      let small : 8 * h.parallelism % 2 ^ 32 ≡ 8 * h.parallelism = omega arith in
      rw (small) (ground arith) in
    rw
      (
        parse_uint32_parameter-named "m=" h.memory (omega arith),
        parse_uint32_parameter-named "t=" h.iterations (omega arith),
        parse_uint32_parameter-named "p=" h.parallelism (omega arith),
        tested,
        safe_parameters,
      )
      refl

bytes_between-encoded :
    (low high : ℕ) (e : HashFault) (bytes : List ℕ)
    → AreBytes bytes
    → low ≤ length bytes
    → length bytes ≤ high
    → bytes_between low high e (decode_base64 std_alphabet (encode_base64 std_alphabet bytes))
      ≡ ok bytes
bytes_between-encoded low high e bytes are p q =
    let inside : (ltb (length bytes) low || ltb high (length bytes)) ≡ false = ground arith in
    rw (decode_base64-encode_base64 std_alphabet bytes std_alphabet-IsAlphabet are, inside) refl

-- Parsing gives back the parts that were printed.
pub parse_password_hash-hash_text :
    (h : PasswordHash)
    → IsSafe h
    → AreBytes h.salt
    → AreBytes h.expected
    → parse_password_hash (
        hash_text
          (parameters_text h.memory h.iterations h.parallelism)
          (encode_base64 std_alphabet h.salt)
          (encode_base64 std_alphabet h.expected))
      ≡ ok h
unfolding parse_password_hash
parse_password_hash-hash_text h safe salts keys =
    rw
      (
        split-hash_text (parameters_text h.memory h.iterations h.parallelism)
            (encode_base64 std_alphabet h.salt) (encode_base64 std_alphabet h.expected)
            (parameters_free h.memory h.iterations h.parallelism) (encoded_free h.salt salts)
            (encoded_free h.expected keys),
        split-parameters_text h.memory h.iterations h.parallelism,
        parse_parts-parameters h safe,
        bytes_between-encoded 8 64 bad_salt h.salt salts safe.salt_low safe.salt_high,
        bytes_between-encoded 16 64 bad_output h.expected keys safe.expected_low safe.expected_high,
      )
      refl

-- A hash that `HashPassword` has made of a password, with a salt of 16 bytes, verifies a candidate
-- exactly where Argon2id has the same output for the candidate as for the password, under the salt
-- and the parameters of the hash; so it verifies the password.
pub verify_password-hash_password :
    (id_key : IdKey) (salt : List ℕ) (password candidate encoded : String)
    → IsKdf id_key
    → AreBytes salt
    → length salt ≡ argon2_salt_length
    → hash_password id_key (some salt) password ≡ ok encoded
    → (verify_password id_key encoded candidate ≡ ok true) ↔ (
        id_key candidate salt argon2_iterations argon2_memory argon2_parallelism argon2_key_length
        ≡ id_key password salt argon2_iterations argon2_memory argon2_parallelism argon2_key_length)
unfolding hash_password encode_password verify_password
verify_password-hash_password id_key salt password candidate encoded kdf salts sized h =
    let output : String → List ℕ =
      λ p. id_key p salt argon2_iterations argon2_memory argon2_parallelism argon2_key_length in
    let parts : PasswordHash = record {
      memory = argon2_memory;
      iterations = argon2_iterations;
      parallelism = argon2_parallelism;
      salt = salt;
      expected = output password;
    } in
    let size : length (output password) ≡ 32 = kdf.length_asked password salt 3 65_536 4 32 in
    let safe : IsSafe parts = record {
      memory_low = omega arith;
      memory_high = omega arith;
      iterations_low = omega arith;
      iterations_high = omega arith;
      parallelism_low = omega arith;
      parallelism_high = omega arith;
      salt_low = omega (arith, sized);
      salt_high = omega (arith, sized);
      expected_low = omega (arith, size);
      expected_high = omega (arith, size);
    } in
    let parsed : parse_password_hash encoded ≡ ok parts =
      ap parse_password_hash (sym (ok-inj h))
      ∙ parse_password_hash-hash_text parts safe salts (kdf.bytes password salt 3 65_536 4 32) in
    rw (parsed, size)
      (
        λ same. same_bytes-eq (output candidate) (output password) (ok-inj same),
        λ same.
            ap ok
              (ap (same_bytes (output candidate)) (sym same) ∙ same_bytes_refl (output candidate)),
      )
