-- ===== src/Evaluation/Runtime.antt =====
-- What the evaluation package calls and does not implement: encoding/json, crypto/sha256, regexp,
-- float conversions, and the module golang.org/x/mod/semver.
use flagstack.Common.{ℕ, String, Bool, true, List, Option, some, ◌≡◌, ℤ}
use flagstack.Evaluation.Types.{Value}

-- The result of one call of `Decoder.Decode(&v)` with `UseNumber`: `io.EOF`, a value with the
-- input that follows it, or another error.
pub data Next : Type 0 where
  eof syntax_error : Next
  value : Value → String → Next

pub record Runtime : Type 0 where
  -- `Decoder.Decode` at the head of a text
  pub next_value : String → Next
  -- `json.Marshal` of a scalar; `none` is its error
  pub marshal : Value → Option String
  -- `json.Number.Float64`; `none` is its error
  pub parse_float : String → Option ℕ
  -- the conversions to `float64`
  pub float_of_int : ℤ → ℕ
  pub float_of_float32 : ℕ → ℕ
  -- the bytes of `sha256.Sum256`
  pub sha256 : String → List ℕ
  -- whether `regexp.Compile` has no error
  pub compiles : String → Bool
  -- `regexp.MatchString pattern text`; `none` is its error
  pub match_string : String → String → Option Bool
  -- `semver.IsValid` and `semver.Compare`
  pub semver_valid : String → Bool
  pub semver_compare : String → String → ℤ

-- `regexp.MatchString` fails only where the pattern does not compile.
abbrev pub MatchesCompiled : Runtime → Type 0
MatchesCompiled rt =
    (pattern s : String)
    → rt.compiles pattern ≡ true
    → (b : Bool) × (rt.match_string pattern s ≡ some b)
