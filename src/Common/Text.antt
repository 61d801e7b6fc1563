-- ===== src/Common/Text.antt =====
-- What the program uses of the Go package `strings`, on texts as sequences of code points.
use Prim.Native.Nat.{ℕ, ◌+◌}
use Prim.Native.Char.{Char, code}
use Prim.Native.String.append
use Prim.Native.String.{String, [], ◌∷◌, ◌++◌}
use mathlib.Core.Path.{◌≡◌, refl, sym, ap, ◌∙◌}
use mathlib.Core.Logic.{inl, inr}
use native.Mathlib.Omega.{arith}
use mathlib.Core.Bool.{Bool, true, false, ◌&&◌, ◌||◌, not}
use mathlib.Core.Option.{Option, some, none}
use mathlib.Core.List.{List, [], ◌∷◌}
use text.Mathlib.TextLemmas.{append-nil, append_assoc}
use text.Mathlib.Text.{◌==◌, find?}
use flagstack.Common.Tests.{true-ne-false, Bool-cases, ltb, leb, eqb, if◌then◌else◌, is_some}

-- unicode.IsSpace
abbrev pub is_space : ℕ → Bool
is_space c =
    (leb 9 c && leb c 13)
    || eqb c 32
    || eqb c 133
    || eqb c 160
    || eqb c 0x1680
    || (leb 0x2000 c && leb c 0x200a)
    || eqb c 0x2028
    || eqb c 0x2029
    || eqb c 0x202f
    || eqb c 0x205f
    || eqb c 0x3000

-- [a-z0-9]
abbrev pub is_lower_or_digit : ℕ → Bool
is_lower_or_digit c = (leb 97 c && leb c 122) || (leb 48 c && leb c 57)

abbrev pub is_empty : String → Bool
is_empty [] = true
is_empty (c ∷ s) = false

trim_left : String → String
trim_left [] = []
trim_left (c ∷ s) = if is_space (code c) then trim_left s else c ∷ s

trim_right : String → String
trim_right [] = []
trim_right (c ∷ s) = let r = trim_right s in if is_empty r && is_space (code c) then [] else c ∷ r

-- strings.TrimSpace
unfoldable pub trim_space : String → String
unfolding trim_left trim_right
trim_space s = trim_right (trim_left s)

-- `strings.TrimSpace(s) == ""`
unfoldable pub is_blank : String → Bool
unfolding trim_space
is_blank s = is_empty (trim_space s)

-- strings.HasSuffix
unfoldable pub has_suffix : String → String → Bool
has_suffix [] t = is_empty t
has_suffix (c ∷ s) t = (c ∷ s) == t || has_suffix s t

-- strings.Contains
unfoldable pub contains_text : String → String → Bool
contains_text s t = is_some (find? s t)

abbrev push : String → Char → String
push s c = s ++ (c ∷ [])

-- strings.Split by a one-character separator, with the part read so far.
split_from : ℕ → String → String → List String
split_from sep part [] = part ∷ []
split_from sep part (c ∷ s) =
    let closed : List String = part ∷ split_from sep "" s in
    let longer : List String = split_from sep (push part c) s in
    if eqb (code c) sep then closed else longer

unfoldable pub split : String → ℕ → List String
unfolding split_from
split s sep = split_from sep "" s

abbrev utf8_length : ℕ → ℕ
utf8_length c = if ltb c 0x80 then 1 else if ltb c 0x800 then 2 else if ltb c 0x1_0000 then 3 else 4

-- `len` of a string, in bytes
unfoldable pub byte_length : String → ℕ
byte_length [] = 0
byte_length (c ∷ s) = utf8_length (code c) + byte_length s

abbrev pub all_codes : (ℕ → Bool) → String → Bool
all_codes p [] = true
all_codes p (c ∷ s) = p (code c) && all_codes p s

pub all_codes-concat :
    (p : ℕ → Bool) (s t : String) → all_codes p (s ++ t) ≡ (all_codes p s && all_codes p t)
all_codes-concat p [] t = rw (append.nil t) refl
all_codes-concat p (c ∷ s) t = rw (append.cons c s t) (ground (arith, all_codes-concat p s t))

pub all_codes_weaken :
    (p q : ℕ → Bool) (s : String)
    → ((c : ℕ) → p c ≡ true → q c ≡ true)
    → all_codes p s ≡ true
    → all_codes q s ≡ true
all_codes_weaken p q [] h e = refl
all_codes_weaken p q (c ∷ s) h e = ground (arith, h (code c), all_codes_weaken p q s h)

abbrev pub is_plain : ℕ → Bool
is_plain c = not (is_space c)

trim_right-plain : (s : String) → all_codes is_plain s ≡ true → trim_right s ≡ s
unfolding trim_right
trim_right-plain [] h = refl
trim_right-plain (c ∷ s) h = elim (Bool-cases (is_space (code c))) [
  | inl space ↦ absurd (true-ne-false (sym h ∙ rw (space) refl))
  | inr solid ↦ rw (trim_right-plain s (ground arith), solid) (ground (arith))
]

-- Text without white space is not changed.
pub trim_space-is_plain : (s : String) → all_codes is_plain s ≡ true → trim_space s ≡ s
unfolding trim_space trim_left
trim_space-is_plain [] h = refl
trim_space-is_plain (c ∷ s) h = elim (Bool-cases (is_space (code c))) [
  | inl space ↦ absurd (true-ne-false (sym h ∙ rw (space) refl))
  | inr solid ↦ rw (solid) (trim_right-plain (c ∷ s) h)
]

-- The rest of a text behind a prefix, where it has the prefix: strings.HasPrefix and TrimPrefix.
unfoldable pub after_prefix : String → String → Option String
after_prefix [] s = some s
after_prefix (p ∷ ps) [] = none
after_prefix (p ∷ ps) (c ∷ s) =
    let rest = after_prefix ps s in if eqb (code p) (code c) then rest else none

pub after_prefix-concat : (p s : String) → after_prefix p (p ++ s) ≡ some s
unfolding after_prefix
after_prefix-concat [] s = rw (append.nil s) refl
after_prefix-concat (c ∷ p) s = rw (append.cons c p s) (ground (arith, after_prefix-concat p s))

-- No character of a text is the separator.
abbrev pub free_of : ℕ → ℕ → Bool
free_of sep c = not (eqb c sep)

split_from-concat :
    (sep : ℕ) (part a s : String)
    → all_codes (free_of sep) a ≡ true
    → split_from sep part (a ++ s) ≡ split_from sep (part ++ a) s
unfolding split_from
split_from-concat sep part [] s h = rw (append.nil s, append-nil part) refl
split_from-concat sep part (c ∷ a) s h =
    let other : eqb (code c) sep ≡ false = ground arith in
    let rest : all_codes (free_of sep) a ≡ true = ground arith in
    rw (append.cons c a s, other)
      (split_from-concat sep (push part c) a s rest
        ∙ ap (λ p. split_from sep p s)
            (append_assoc part (c ∷ []) a
              ∙ ap (λ t. part ++ t) (append.cons c [] a ∙ ap (λ t. c ∷ t) (append.nil a))))

-- A part without the separator, up to the next separator or to the end.
pub split-concat :
    (a : String) (c : Char) (s : String)
    → all_codes (free_of (code c)) a ≡ true
    → split (a ++ (c ∷ s)) (code c) ≡ a ∷ split s (code c)
unfolding split split_from
split-concat a c s h =
    split_from-concat (code c) "" a (c ∷ s) h
    ∙ (let here : eqb (code c) (code c) ≡ true = ground arith in rw (here, append.nil a) refl)

pub split-whole : (a : String) (sep : ℕ) → all_codes (free_of sep) a ≡ true → split a sep ≡ a ∷ []
unfolding split split_from
split-whole a sep h =
    ap (λ t. split_from sep "" t) (sym (append-nil a))
    ∙ split_from-concat sep "" a "" h
    ∙ rw (append.nil a) refl

trims : trim_space "  a b\t\n" ≡ "a b"
unfolding trim_space
trims = refl

splits : split "a.bc." b'.' ≡ "a" ∷ "bc" ∷ "" ∷ []
unfolding split
splits = refl
