-- ===== src/Auth/Password/Bounds.antt =====
-- `parsePasswordHash` of backend/internal/auth/password.go.
use flagstack.Common.{
  decode_base64, std_alphabet, is_empty, guard, [], ◌∷◌, ◌==◌, ◌&&◌, ◌||◌, ◌*◌, ◌%◌, ◌^◌, ◌≤◌, ◌≡◌,
  ok, err, some, none, false, arith, sym, ℕ, String, Bool, List, Option, Result, >>=-eq-ok,
  err-ne-ok, length, split, ltb, eqb, not, guard-eq_ok, ok-inj, subst, ltb-false,
}
use flagstack.Auth.Password.Roundtrip.{IsSafe}
use flagstack.Auth.Types.{
  HashFault, bad_format, bad_parallelism, unsafe_parameters, bad_salt, bad_output,
}
use flagstack.Auth.Password.{
  PasswordHash, parse_parts, parse_password_hash, bytes_between, parallelism_of, parse_fields,
  parse_parameters, length, parse_uint32_parameter, ltb, eqb, not,
}

IsParameters : PasswordHash → Type 0
IsParameters h =
    (8 * h.parallelism ≤ h.memory)
    × (h.memory ≤ 1_048_576)
    × (1 ≤ h.iterations)
    × (h.iterations ≤ 10)
    × (1 ≤ h.parallelism)
    × (h.parallelism ≤ 255)

parallelism_of_bounds :
    (r : Result HashFault ℕ) (p : ℕ) → parallelism_of r ≡ ok p → (1 ≤ p) × (p ≤ 255)
parallelism_of_bounds (err e) p h = absurd (err-ne-ok h)
parallelism_of_bounds (ok q) p h =
    let (_, tested, h1) = >>=-eq-ok (guard (not (eqb q 0 || ltb 255 q)) bad_parallelism) _ h in
    let inside = guard-eq_ok (not (eqb q 0 || ltb 255 q)) bad_parallelism tested in
    let same = ok-inj h1 in ground arith

parse_parts-IsParameters :
    (m t p : String) (h : PasswordHash) → parse_parts m t p ≡ ok h → IsParameters h
unfolding parse_parts IsParameters
parse_parts-IsParameters m t p h e =
    let (memory, _, e1) = >>=-eq-ok (parse_uint32_parameter m "m=") _ e in
    let (iterations, _, e2) = >>=-eq-ok (parse_uint32_parameter t "t=") _ e1 in
    let (parallelism, got, e3) = >>=-eq-ok (parallelism_of (parse_uint32_parameter p "p=")) _ e2 in
    let (low, high) = parallelism_of_bounds (parse_uint32_parameter p "p=") parallelism got in
    let unsafe : Bool =
      ltb memory (8 * parallelism % 2 ^ 32)
      || ltb 1_048_576 memory
      || eqb iterations 0
      || ltb 10 iterations in
    let (_, tested, e4) = >>=-eq-ok (guard (not unsafe) unsafe_parameters) _ e3 in
    let safe = guard-eq_ok (not unsafe) unsafe_parameters tested in
    let small : 8 * parallelism % 2 ^ 32 ≡ 8 * parallelism = omega arith in
    let m_low : ltb memory (8 * parallelism) ≡ false = rw (sym small) (ground arith) in
    subst IsParameters (ok-inj e4) (
      ltb-false memory (8 * parallelism) m_low,
      ground arith,
      ground arith,
      ground arith,
      low,
      high,
    )

parse_parameters-IsParameters :
    (ps : List String) (h : PasswordHash) → parse_parameters ps ≡ ok h → IsParameters h
parse_parameters-IsParameters [] h e = absurd (err-ne-ok e)
parse_parameters-IsParameters (a ∷ []) h e = absurd (err-ne-ok e)
parse_parameters-IsParameters (a ∷ b ∷ []) h e = absurd (err-ne-ok e)
parse_parameters-IsParameters (a ∷ b ∷ c ∷ []) h e = parse_parts-IsParameters a b c h e
parse_parameters-IsParameters (a ∷ b ∷ c ∷ d ∷ rest) h e = absurd (err-ne-ok e)

bytes_between_bounds :
    (low high : ℕ) (e : HashFault) (found : Option (List ℕ)) (bytes : List ℕ)
    → bytes_between low high e found ≡ ok bytes
    → (low ≤ length bytes) × (length bytes ≤ high)
bytes_between_bounds low high e none bytes h = absurd (err-ne-ok h)
bytes_between_bounds low high e (some xs) bytes h =
    let outside : Bool = ltb (length xs) low || ltb high (length xs) in
    let (_, tested, h1) = >>=-eq-ok (guard (not outside) e) _ h in
    let inside = guard-eq_ok (not outside) e tested in
    subst (λ ys. (low ≤ length ys) × (length ys ≤ high)) (ok-inj h1) (ground arith, ground arith)

parse_fields-IsSafe : (ps : List String) (h : PasswordHash) → parse_fields ps ≡ ok h → IsSafe h
unfolding IsParameters
parse_fields-IsSafe [] h e = absurd (err-ne-ok e)
parse_fields-IsSafe (a ∷ []) h e = absurd (err-ne-ok e)
parse_fields-IsSafe (a ∷ b ∷ []) h e = absurd (err-ne-ok e)
parse_fields-IsSafe (a ∷ b ∷ c ∷ []) h e = absurd (err-ne-ok e)
parse_fields-IsSafe (a ∷ b ∷ c ∷ d ∷ []) h e = absurd (err-ne-ok e)
parse_fields-IsSafe (a ∷ b ∷ c ∷ d ∷ s ∷ []) h e = absurd (err-ne-ok e)
parse_fields-IsSafe (a ∷ b ∷ c ∷ d ∷ s ∷ k ∷ l ∷ rest) h e = absurd (err-ne-ok e)
parse_fields-IsSafe (a ∷ b ∷ c ∷ d ∷ s ∷ k ∷ []) h e =
    let (_, _, e1) =
      >>=-eq-ok (guard (is_empty a && b == "argon2id" && c == "v=19") bad_format) _ e in
    let (parameters, got, e2) = >>=-eq-ok (parse_parameters (split d b',')) _ e1 in
    let (salt, salted, e3) =
      >>=-eq-ok (bytes_between 8 64 bad_salt (decode_base64 std_alphabet s)) _ e2 in
    let (expected, keyed, e4) =
      >>=-eq-ok (bytes_between 16 64 bad_output (decode_base64 std_alphabet k)) _ e3 in
    let (m1, m2, t1, t2, p1, p2) = parse_parameters-IsParameters (split d b',') parameters got in
    let (s1, s2) = bytes_between_bounds 8 64 bad_salt (decode_base64 std_alphabet s) salt salted in
    let (k1, k2) =
      bytes_between_bounds 16 64 bad_output (decode_base64 std_alphabet k) expected keyed in
    subst IsSafe (ok-inj e4) (record {
      memory_low = m1;
      memory_high = m2;
      iterations_low = t1;
      iterations_high = t2;
      parallelism_low = p1;
      parallelism_high = p2;
      salt_low = s1;
      salt_high = s2;
      expected_low = k1;
      expected_high = k2;
    })

-- Whatever text a hash is parsed from, the parts that the parser returns are within the bounds: a
-- memory from eight times the parallelism up to 2 ^ 20, one to ten iterations, a parallelism that is
-- not zero and fits a `uint8`, a salt of 8 to 64 bytes and an output of 16 to 64.
pub parse_password_hash-IsSafe :
    (encoded : String) (h : PasswordHash) → parse_password_hash encoded ≡ ok h → IsSafe h
unfolding parse_password_hash
parse_password_hash-IsSafe encoded h e = parse_fields-IsSafe (split encoded b'$') h e
