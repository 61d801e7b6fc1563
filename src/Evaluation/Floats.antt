-- ===== src/Evaluation/Floats.antt =====
-- Comparison of float64 values, on their IEEE 754 bit patterns below 2 ^ 64.
use flagstack.Common.{
  ℕ, ◌^◌, ◌%◌, ◌*◌, Bool, ◌&&◌, ◌||◌, not, ltb, leb, eqb, if◌then◌else◌, ◌≡◌, refl, true, false,
}

-- The pattern without its sign bit.
abbrev pub magnitude : ℕ → ℕ
magnitude b = b % 2 ^ 63

abbrev pub is_negative : ℕ → Bool
is_negative b = leb (2 ^ 63) b

-- The exponent field is all ones and the fraction is not 0.
abbrev pub is_nan : ℕ → Bool
is_nan b = ltb (0x7ff * 2 ^ 52) (magnitude b)

-- a == b: +0 and -0 are equal, and a NaN equals nothing.
unfoldable pub float_eq : ℕ → ℕ → Bool
float_eq a b =
    not (is_nan a) && not (is_nan b) && (eqb a b || (eqb (magnitude a) 0 && eqb (magnitude b) 0))

-- a < b
unfoldable pub float_lt : ℕ → ℕ → Bool
float_lt a b =
    not (is_nan a)
    && not (is_nan b)
    && (if is_negative a
        then (if is_negative b
            then ltb (magnitude b) (magnitude a)
            else not (eqb (magnitude a) 0 && eqb (magnitude b) 0))
        else (if is_negative b then false else ltb (magnitude a) (magnitude b)))

-- a <= b
unfoldable pub float_le : ℕ → ℕ → Bool
unfolding float_lt float_eq
float_le a b = float_lt a b || float_eq a b

-- -1.5 < 2, -0 == 0, and NaN compares with nothing
compares : float_lt 0xbff8000000000000 0x4000000000000000 ≡ true
unfolding float_lt
compares = refl

zeros : float_eq 0x8000000000000000 0 ≡ true
unfolding float_eq
zeros = refl

nan : float_eq 0x7ff8000000000000 0x7ff8000000000000 ≡ false
unfolding float_eq
nan = refl
