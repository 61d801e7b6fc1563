-- ===== src/Evaluation/Matching.antt =====
-- backend/internal/evaluation/evaluation.go: conditions, match modes and segments.
pub mod Fuel
use flagstack.Common.{
  ℕ, zero, suc, String, Bool, true, false, not, ◌&&◌, Option, none, some, List, [], ◌∷◌, has_prefix,
  if◌then◌else◌, Result, ok, err, ◌>>=◌, lookup, insert, member, trim_space, is_empty, has_suffix,
  ℤ, pos, lt_int, le_int, is_some,
}
use Prim.Native.String
use flagstack.Evaluation.Types.{
  Value, str, array, Values, Context, Condition, Operator, equals, not_equals, is_in, not_in,
  contains, not_contains, starts_with, ends_with, greater_than, greater_than_or_equal, less_than,
  less_than_or_equal, exists, not_exists, matches_regex, semver_greater_than,
  semver_greater_than_or_equal, semver_less_than, semver_less_than_or_equal, in_segment,
  not_in_segment, MatchMode, match_any, Segment, Fault, segment_reference_not_string, expects_array,
  invalid_regex, unsupported_operator, segment_cycle, out_of_fuel, EvaluationError, parse_error,
}
use flagstack.Evaluation.Runtime.{Runtime}
use flagstack.Evaluation.Decode.{decode_raw}
use flagstack.Evaluation.Floats.{float_lt, float_le}
use flagstack.Evaluation.Values.{
  context_value, equal_values, any_equal, contains_value, number_value,
}

-- `&evaluationError{code: ErrorParse, err: fault}`
abbrev pub parse_failure : Fault → EvaluationError
parse_failure fault = record { code = parse_error; cause = fault }

abbrev pub as_parse_failure {ℓ} : {A : Type ℓ} → Result Fault A → Result EvaluationError A
as_parse_failure (ok a) = ok a
as_parse_failure (err e) = err (parse_failure e)

-- `value.(string)`
abbrev pub as_string : Value → Option String
as_string (str s) = some s
as_string _ = none

-- `value.([]any)`
abbrev pub as_array : Value → Option Values
as_array (array vs) = some vs
as_array _ = none

-- A test on two strings, which is false where one of the values is none.
abbrev pub on_strings :
    Option String
    → Option String
    → (String → String → Result EvaluationError Bool)
    → Result EvaluationError Bool
on_strings (some a) (some b) test = test a b
on_strings _ _ test = ok false

abbrev pub on_numbers : Option ℕ → Option ℕ → (ℕ → ℕ → Bool) → Result EvaluationError Bool
on_numbers (some a) (some b) test = ok (test a b)
on_numbers _ _ test = ok false

abbrev pub membership : Operator → Option Values → (Values → Bool) → Result EvaluationError Bool
membership op none test = err (parse_failure (expects_array op))
membership op (some vs) test = ok (test vs)

abbrev pub regex_result : String → Option Bool → Result EvaluationError Bool
regex_result pattern none = err (parse_failure (invalid_regex pattern))
regex_result pattern (some b) = ok b

unfoldable pub normalize_semver : String → String
normalize_semver value =
    let s = trim_space value in
    if not (is_empty s) && not (has_prefix s "v") then String.◌++◌ "v" s else s

abbrev pub on_versions : Option ℤ → (ℤ → Bool) → Result EvaluationError Bool
on_versions none test = ok false
on_versions (some c) test = ok (test c)

abbrev pub segment_key : Option String → Result EvaluationError String
segment_key none = err (parse_failure segment_reference_not_string)
segment_key (some s) = ok s

module _ (rt : Runtime) where
  unfoldable pub compare_semver : String → String → Option ℤ
  compare_semver left right =
      let l = normalize_semver left in
      let r = normalize_semver right in
      if rt.semver_valid l && rt.semver_valid r then some (rt.semver_compare l r) else none

  abbrev pub versions : Value → Value → (ℤ → Bool) → Result EvaluationError Bool
  versions actual expected test =
      on_strings (as_string actual) (as_string expected)
        (λ a e. on_versions (compare_semver a e) test)

  -- The switch on the operator, for an attribute that exists and a value that was decoded.
  unfoldable pub compare_values : Operator → Value → Value → Result EvaluationError Bool
  unfolding compare_semver
  compare_values equals actual expected = ok (equal_values rt actual expected)
  compare_values not_equals actual expected = ok (not (equal_values rt actual expected))
  compare_values is_in actual expected = membership is_in (as_array expected) (any_equal rt actual)
  compare_values not_in actual expected =
      membership not_in (as_array expected) (λ vs. not (any_equal rt actual vs))
  compare_values contains actual expected = ok (contains_value rt actual expected)
  compare_values not_contains actual expected = ok (not (contains_value rt actual expected))
  compare_values starts_with actual expected =
      on_strings (as_string actual) (as_string expected) (λ a e. ok (has_prefix a e))
  compare_values ends_with actual expected =
      on_strings (as_string actual) (as_string expected) (λ a e. ok (has_suffix a e))
  compare_values greater_than actual expected =
      on_numbers (number_value rt actual) (number_value rt expected) (λ a e. float_lt e a)
  compare_values greater_than_or_equal actual expected =
      on_numbers (number_value rt actual) (number_value rt expected) (λ a e. float_le e a)
  compare_values less_than actual expected =
      on_numbers (number_value rt actual) (number_value rt expected) (λ a e. float_lt a e)
  compare_values less_than_or_equal actual expected =
      on_numbers (number_value rt actual) (number_value rt expected) (λ a e. float_le a e)
  compare_values matches_regex actual expected =
      on_strings (as_string actual) (as_string expected)
        (λ a e. regex_result e (rt.match_string e a))
  compare_values semver_greater_than actual expected =
      versions actual expected (λ c. lt_int (pos 0) c)
  compare_values semver_greater_than_or_equal actual expected =
      versions actual expected (λ c. le_int (pos 0) c)
  compare_values semver_less_than actual expected = versions actual expected (λ c. lt_int c (pos 0))
  compare_values semver_less_than_or_equal actual expected =
      versions actual expected (λ c. le_int c (pos 0))
  compare_values op actual expected = err (parse_failure (unsupported_operator op))

  -- The first branch of `conditionMatches`, before the negation.
  unfoldable pub segment_condition :
      (String → Result EvaluationError Bool) → Condition → Result EvaluationError Bool
  segment_condition match_segment c = do
    v ← as_parse_failure (decode_raw rt c.value)
    key ← segment_key (as_string v)
    match_segment key

  abbrev pub compare_present : Condition → Option Value → Result EvaluationError Bool
  compare_present c none = ok false
  compare_present c (some actual) = do
    expected ← as_parse_failure (decode_raw rt c.value)
    compare_values c.operator actual expected

  abbrev pub condition_with :
      Operator
      → Context
      → (String → Result EvaluationError Bool)
      → Condition
      → Result EvaluationError Bool
  condition_with in_segment ctx match_segment c = segment_condition match_segment c
  condition_with not_in_segment ctx match_segment c = do
    matched ← segment_condition match_segment c
    ok (not matched)
  condition_with exists ctx match_segment c = ok (is_some (context_value ctx c.attribute))
  condition_with not_exists ctx match_segment c = ok (not (is_some (context_value ctx c.attribute)))
  condition_with _ ctx match_segment c = compare_present c (context_value ctx c.attribute)

  -- `conditionMatches`, with the call of `matchSegment` passed in.
  unfoldable pub condition_matches :
      Context → (String → Result EvaluationError Bool) → Condition → Result EvaluationError Bool
  condition_matches ctx match_segment c = condition_with c.operator ctx match_segment c

-- The two loops of `matchConditions`.
unfoldable pub match_any_of :
    (Condition → Result EvaluationError Bool) → List Condition → Result EvaluationError Bool
match_any_of test [] = ok false
match_any_of test (c ∷ cs) =
    let rest = match_any_of test cs in test c >>= λ matched. if matched then ok true else rest

unfoldable pub match_all_of :
    (Condition → Result EvaluationError Bool) → List Condition → Result EvaluationError Bool
match_all_of test [] = ok true
match_all_of test (c ∷ cs) =
    let rest = match_all_of test cs in test c >>= λ matched. if matched then rest else ok false

abbrev pub match_mode :
    MatchMode
    → (Condition → Result EvaluationError Bool)
    → List Condition
    → Result EvaluationError Bool
match_mode match_any test cs = match_any_of test cs
match_mode _ test cs = match_all_of test cs

unfoldable pub match_conditions :
    (Condition → Result EvaluationError Bool)
    → MatchMode
    → List Condition
    → Result EvaluationError Bool
match_conditions test mode cs = match_mode mode test cs

-- `segmentIndex`: a later segment replaces an earlier one of the same key.
unfoldable pub index_segments : List (String × Segment) → List Segment → List (String × Segment)
index_segments index [] = index
index_segments index (s ∷ ss) = index_segments (insert s.key s index) ss

module _ (rt : Runtime) (ctx : Context) (index : List (String × Segment)) where
  -- `matchSegment`. `visiting` holds the keys that are set in the source's map: the deferred
  -- `delete` restores it at each return. The fuel bounds how deep the calls are nested.
  unfoldable pub match_segment : ℕ → List String → String → Result EvaluationError Bool
  match_segment zero visiting key = err (parse_failure out_of_fuel)
  match_segment (suc fuel) visiting key = elim (lookup key index) [
    | none ↦ ok false
    | some segment ↦
        if member visiting key
        then err (parse_failure (segment_cycle key))
        else match_conditions (condition_matches rt ctx (match_segment fuel (key ∷ visiting)))
            segment.mode segment.conditions
  ]
