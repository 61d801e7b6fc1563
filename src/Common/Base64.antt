-- ===== src/Common/Base64.antt =====
-- What the program uses of the Go package `encoding/base64`: RawStdEncoding and RawURLEncoding, which
-- write no padding. A byte is a number below 256.
use Prim.Native.Nat.{ℕ, zero, suc, ◌+◌, ◌*◌, ◌/◌, ◌%◌, ◌<◌}
use Prim.Native.Char.{code}
use Prim.Native.String.{String, char_at}
use mathlib.Core.Path.{◌≡◌, refl}
use mathlib.Core.Bool.{Bool, true, false, ◌&&◌, ◌||◌, not}
use mathlib.Core.Option.{Option, some, none}
use mathlib.Core.List.{List, [], ◌∷◌}
use native.Mathlib.Omega.{arith}
use flagstack.Common.Tests.{eqb, if◌then◌else◌, All}
use flagstack.Common.Text.{all_codes}

abbrev pub std_alphabet : String
std_alphabet = "ABCDEFGHIJKLMNOPQRSTUVWXYZabcdefghijklmnopqrstuvwxyz0123456789+/"

abbrev pub url_alphabet : String
url_alphabet = "ABCDEFGHIJKLMNOPQRSTUVWXYZabcdefghijklmnopqrstuvwxyz0123456789-_"

-- The groups of six bits.
unfoldable pub sextets : List ℕ → List ℕ
sextets [] = []
sextets (a ∷ []) = a / 4 ∷ a % 4 * 16 ∷ []
sextets (a ∷ b ∷ []) = a / 4 ∷ (a % 4 * 16 + b / 16) ∷ b % 16 * 4 ∷ []
sextets (a ∷ b ∷ c ∷ rest) =
    a / 4 ∷ (a % 4 * 16 + b / 16) ∷ (b % 16 * 4 + c / 64) ∷ c % 64 ∷ sextets rest

unfoldable pub text_of : String → List ℕ → String
text_of alphabet [] = String.[]
text_of alphabet (d ∷ ds) = String.◌∷◌ (char_at alphabet d) (text_of alphabet ds)

-- EncodeToString
unfoldable pub encode_base64 : String → List ℕ → String
unfolding text_of sextets
encode_base64 alphabet bytes = text_of alphabet (sextets bytes)

-- The decoding map: the position of a character in the alphabet.
unfoldable pub position : String → ℕ → ℕ → Option ℕ
position String.[] c n = none
position (String.◌∷◌ a rest) c n =
    let later = position rest c (n + 1) in if eqb (code a) c then some n else later

abbrev pub push_front {ℓ} : {A : Type ℓ} → A → Option (List A) → Option (List A)
push_front x none = none
push_front x (some xs) = some (x ∷ xs)

abbrev is_line_end : ℕ → Bool
is_line_end c = eqb c 10 || eqb c 13

abbrev digit_or_fail : Option ℕ → Option (List ℕ) → Option (List ℕ)
digit_or_fail none rest = none
digit_or_fail (some d) rest = push_front d rest

-- The characters at the ends of lines are skipped.
unfoldable pub digits_of : String → String → Option (List ℕ)
digits_of alphabet String.[] = some []
digits_of alphabet (String.◌∷◌ c s) =
    let rest = digits_of alphabet s in
    if is_line_end (code c) then rest else digit_or_fail (position alphabet (code c) 0) rest

-- The bits that a last group leaves over are not looked at.
unfoldable pub join_sextets : List ℕ → Option (List ℕ)
join_sextets [] = some []
join_sextets (a ∷ []) = none
join_sextets (a ∷ b ∷ []) = some ((a * 4 + b / 16) ∷ [])
join_sextets (a ∷ b ∷ c ∷ []) = some ((a * 4 + b / 16) ∷ (b % 16 * 16 + c / 4) ∷ [])
join_sextets (a ∷ b ∷ c ∷ d ∷ rest) =
    push_front (a * 4 + b / 16)
      (push_front (b % 16 * 16 + c / 4) (push_front (c % 4 * 64 + d) (join_sextets rest)))

abbrev pub join_all : Option (List ℕ) → Option (List ℕ)
join_all none = none
join_all (some ds) = join_sextets ds

-- DecodeString
unfoldable pub decode_base64 : String → String → Option (List ℕ)
unfolding digits_of join_sextets
decode_base64 alphabet s = join_all (digits_of alphabet s)

-- A test of every number below a bound.
unfoldable pub every_below : ℕ → (ℕ → Bool) → Bool
every_below zero p = true
every_below (suc k) p = p k && every_below k p

pub every_below_sound : (k : ℕ) (p : ℕ → Bool) (v : ℕ) → every_below k p ≡ true → v < k → p v ≡ true
unfolding every_below
every_below_sound zero p v all below = absurd (omega arith)
every_below_sound (suc k) p v all below = ground (arith, every_below_sound k p v)

abbrev is_digit_of : Option ℕ → ℕ → Bool
is_digit_of none v = false
is_digit_of (some d) v = eqb d v

-- The alphabet's characters stand for their positions, and none is at the end of a line.
abbrev reads_back : String → ℕ → Bool
reads_back alphabet v =
    is_digit_of (position alphabet (code (char_at alphabet v)) 0) v
    && not (is_line_end (code (char_at alphabet v)))

abbrev pub IsAlphabet : String → Type 0
IsAlphabet alphabet = (v : ℕ) → v < 64 → reads_back alphabet v ≡ true

std_table : every_below 64 (reads_back std_alphabet) ≡ true
unfolding every_below position
std_table = refl

url_table : every_below 64 (reads_back url_alphabet) ≡ true
unfolding every_below position
url_table = refl

pub std_alphabet-IsAlphabet : IsAlphabet std_alphabet
std_alphabet-IsAlphabet v below = every_below_sound 64 (reads_back std_alphabet) v std_table below

pub url_alphabet-IsAlphabet : IsAlphabet url_alphabet
url_alphabet-IsAlphabet v below = every_below_sound 64 (reads_back url_alphabet) v url_table below

abbrev pub AreBytes : List ℕ → Type 0
AreBytes = All (λ b. b < 256)

sextets-lt : (bytes : List ℕ) → AreBytes bytes → All (λ d. d < 64) (sextets bytes)
unfolding sextets
sextets-lt [] h = tt
sextets-lt (a ∷ []) h = omega arith
sextets-lt (a ∷ b ∷ []) h = omega arith
sextets-lt (a ∷ b ∷ c ∷ rest) (p, (q, (r, h))) =
    (omega arith, (omega arith, (omega arith, (omega arith, sextets-lt rest h))))

join_sextets-sextets : (bytes : List ℕ) → AreBytes bytes → join_sextets (sextets bytes) ≡ some bytes
unfolding sextets join_sextets
join_sextets-sextets [] h = refl
join_sextets-sextets (a ∷ []) h = ground arith
join_sextets-sextets (a ∷ b ∷ []) h = ground arith
join_sextets-sextets (a ∷ b ∷ c ∷ rest) (p, (q, (r, h))) =
    rw (join_sextets-sextets rest h) (ground arith)

digits_of-text_of :
    (alphabet : String) (ds : List ℕ)
    → IsAlphabet alphabet
    → All (λ d. d < 64) ds
    → digits_of alphabet (text_of alphabet ds) ≡ some ds
unfolding digits_of text_of
digits_of-text_of alphabet [] law h = refl
digits_of-text_of alphabet (d ∷ ds) law (p, h) =
    ground (arith, law d p, digits_of-text_of alphabet ds law h)

-- Decoding gives back the bytes that were encoded.
pub decode_base64-encode_base64 :
    (alphabet : String) (bytes : List ℕ)
    → IsAlphabet alphabet
    → AreBytes bytes
    → decode_base64 alphabet (encode_base64 alphabet bytes) ≡ some bytes
unfolding decode_base64 encode_base64
decode_base64-encode_base64 alphabet bytes law h =
    rw (digits_of-text_of alphabet (sextets bytes) law (sextets-lt bytes h))
      (join_sextets-sextets bytes h)

all_codes-text_of :
    (p : ℕ → Bool) (alphabet : String) (ds : List ℕ)
    → ((v : ℕ) → v < 64 → p (code (char_at alphabet v)) ≡ true)
    → All (λ d. d < 64) ds
    → all_codes p (text_of alphabet ds) ≡ true
unfolding text_of
all_codes-text_of p alphabet [] law h = refl
all_codes-text_of p alphabet (d ∷ ds) law (below, h) =
    ground (arith, law d below, all_codes-text_of p alphabet ds law h)

-- What holds of every character of the alphabet holds of every encoded text.
pub all_codes-encode_base64 :
    (p : ℕ → Bool) (alphabet : String) (bytes : List ℕ)
    → every_below 64 (λ v. p (code (char_at alphabet v))) ≡ true
    → AreBytes bytes
    → all_codes p (encode_base64 alphabet bytes) ≡ true
unfolding encode_base64
all_codes-encode_base64 p alphabet bytes table h =
    all_codes-text_of p alphabet (sextets bytes)
      (λ v below. every_below_sound 64 (λ d. p (code (char_at alphabet d))) v table below)
      (sextets-lt bytes h)

encodes : encode_base64 std_alphabet (77 ∷ 97 ∷ 110 ∷ 255 ∷ []) ≡ "TWFu/w"
unfolding encode_base64
encodes = refl

decodes : decode_base64 std_alphabet "TWFu/w" ≡ some (77 ∷ 97 ∷ 110 ∷ 255 ∷ [])
unfolding decode_base64 position
decodes = refl
