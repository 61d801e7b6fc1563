-- ===== src/Common/Decimal.antt =====
-- Decimal texts of natural numbers: `%d` of the Go package `fmt`, and strconv.ParseUint.
use Prim.Native.Nat.{ℕ, zero, suc, ◌+◌, ◌-◌, ◌*◌, ◌/◌, ◌%◌, ◌^◌, ◌<◌}
use Prim.Native.Char.{Char, code}
use Prim.Native.String.{String, char_at}
use mathlib.Core.Path.{◌≡◌, refl, ap, ◌∙◌}
use mathlib.Core.Logic.{inl, inr}
use mathlib.Core.Bool.{Bool, true, false, ◌&&◌}
use mathlib.Core.Option.{Option, some, none}
use native.Mathlib.Omega.{arith}
use flagstack.Common.Tests.{eqb, ltb, leb, if◌then◌else◌, Bool-cases, ltb→lt, ltb-false, lt→ltb}
use flagstack.Common.Text.{all_codes, is_empty}
use flagstack.Common.Base64.{every_below, every_below_sound}

abbrev pub digit_char : ℕ → Char
digit_char d = char_at "0123456789" d

-- The digits of a number in front of a text; the first argument bounds their number.
decimal_onto : ℕ → ℕ → String → String
decimal_onto zero n s = s
decimal_onto (suc fuel) n s =
    let more = decimal_onto fuel (n / 10) (String.◌∷◌ (digit_char (n % 10)) s) in
    if ltb n 10 then String.◌∷◌ (digit_char n) s else more

-- fmt.Sprintf("%d", n)
unfoldable pub decimal : ℕ → String
unfolding decimal_onto
decimal n = decimal_onto (suc n) n String.[]

abbrev pub is_decimal : ℕ → Bool
is_decimal c = leb 48 c && leb c 57

parse_digits : ℕ → String → Option ℕ
parse_digits n String.[] = some n
parse_digits n (String.◌∷◌ c s) =
    let rest = parse_digits (n * 10 + (code c - 48)) s in if is_decimal (code c) then rest else none

abbrev below_2_32 : Option ℕ → Option ℕ
below_2_32 none = none
below_2_32 (some n) = if ltb n (2 ^ 32) then some n else none

-- strconv.ParseUint(s, 10, 32)
unfoldable pub parse_uint32 : String → Option ℕ
unfolding parse_digits
parse_uint32 s = if is_empty s then none else below_2_32 (parse_digits 0 s)

abbrev reads_digit : ℕ → Bool
reads_digit d = is_decimal (code (digit_char d)) && eqb (code (digit_char d)) (48 + d)

digit_table : every_below 10 reads_digit ≡ true
unfolding every_below
digit_table = refl

digit-reads : (d : ℕ) → d < 10 → reads_digit d ≡ true
digit-reads d below = every_below_sound 10 reads_digit d digit_table below

parse_digits-digit :
    (d n : ℕ) (s : String)
    → d < 10
    → parse_digits n (String.◌∷◌ (digit_char d) s) ≡ parse_digits (n * 10 + d) s
unfolding parse_digits
parse_digits-digit d n s below =
    let is : code (digit_char d) ≡ 48 + d = let h = digit-reads d below in ground arith in
    let tested : is_decimal (48 + d) ≡ true = ground arith in
    let same : n * 10 + (48 + d - 48) ≡ n * 10 + d = omega arith in rw (is, tested, same) refl

parse_digits-decimal_onto :
    (fuel n : ℕ) (s : String) → n < fuel → parse_digits 0 (decimal_onto fuel n s) ≡ parse_digits n s
unfolding decimal_onto
parse_digits-decimal_onto zero n s enough = absurd (omega arith)
parse_digits-decimal_onto (suc fuel) n s enough = elim (Bool-cases (ltb n 10)) [
  | inl small ↦
      let alone : 0 * 10 + n ≡ n = omega arith in
      rw (small) (parse_digits-digit n 0 s (ltb→lt n 10 small) ∙ ap (λ m. parse_digits m s) alone)
  | inr large ↦
      let big = ltb-false n 10 large in
      let joined : n / 10 * 10 + n % 10 ≡ n = omega arith in
      rw (large) (
        parse_digits-decimal_onto fuel (n / 10) (String.◌∷◌ (digit_char (n % 10)) s) (omega arith)
        ∙ parse_digits-digit (n % 10) (n / 10) s (omega arith)
        ∙ ap (λ m. parse_digits m s) joined)
]

decimal_onto-full : (fuel n : ℕ) (s : String) → n < fuel → is_empty (decimal_onto fuel n s) ≡ false
unfolding decimal_onto
decimal_onto-full zero n s enough = absurd (omega arith)
decimal_onto-full (suc fuel) n s enough = elim (Bool-cases (ltb n 10)) [
  | inl small ↦ rw (small) refl
  | inr large ↦
      let big = ltb-false n 10 large in
      rw (large)
        (decimal_onto-full fuel (n / 10) (String.◌∷◌ (digit_char (n % 10)) s) (omega arith))
]

-- Reading a printed number gives it back.
pub parse_uint32-decimal : (n : ℕ) → n < 2 ^ 32 → parse_uint32 (decimal n) ≡ some n
unfolding parse_uint32 decimal
parse_uint32-decimal n below =
    rw
      (
        decimal_onto-full (suc n) n String.[] (omega arith),
        parse_digits-decimal_onto (suc n) n String.[] (omega arith),
        lt→ltb n (2 ^ 32) below,
      )
      refl

decimal_onto_codes :
    (p : ℕ → Bool) (fuel n : ℕ) (s : String)
    → every_below 10 (λ d. p (code (digit_char d))) ≡ true
    → all_codes p s ≡ true
    → all_codes p (decimal_onto fuel n s) ≡ true
unfolding decimal_onto
decimal_onto_codes p zero n s table h = h
decimal_onto_codes p (suc fuel) n s table h =
    let reads : (d : ℕ) → d < 10 → p (code (digit_char d)) ≡ true =
      λ d below. every_below_sound 10 (λ d'. p (code (digit_char d'))) d table below in
    elim (Bool-cases (ltb n 10)) [
      | inl small ↦ rw (small, reads n (ltb→lt n 10 small)) h
      | inr large ↦ rw (large) (
          decimal_onto_codes p fuel (n / 10) (String.◌∷◌ (digit_char (n % 10)) s) table
            (rw (reads (n % 10) (omega arith)) h))
    ]

-- What holds of every digit holds of every printed number.
pub all_codes-decimal :
    (p : ℕ → Bool) (n : ℕ)
    → every_below 10 (λ d. p (code (digit_char d))) ≡ true
    → all_codes p (decimal n) ≡ true
unfolding decimal
all_codes-decimal p n table = decimal_onto_codes p (suc n) n String.[] table refl

prints : decimal 65_536 ≡ "65536"
unfolding decimal
prints = refl
