-- ===== src/Evaluation/Validate.antt =====
-- backend/internal/evaluation/evaluation.go: validation of flags and segments. A `fmt.Errorf`
-- that wraps another error is `wrap`.
use flagstack.Common.{
  ℕ, String, Bool, true, false, not, ◌&&◌, ◌||◌, Option, none, some, List, [], ◌∷◌, if◌then◌else◌,
  Result, ok, err, ◌>>=◌, ◌>>◌, guard, wrap, member, trim_space, is_blank, is_empty, is_nil, ℤ, pos,
  add_int, lt_int, eq_int,
}
use flagstack.Evaluation.Types.{
  Value, Values, Kind, boolean, text, numeric, json, Condition, Operator, equals, not_equals, is_in,
  not_in, contains, not_contains, starts_with, ends_with, greater_than, greater_than_or_equal,
  less_than, less_than_or_equal, exists, not_exists, matches_regex, semver_greater_than,
  semver_greater_than_or_equal, semver_less_than, semver_less_than_or_equal, in_segment,
  not_in_segment, MatchMode, match_all, match_any, Segment, Variant, Rule, Outcome, Allocation,
  Flag, Fault, ids_required, unsupported_kind, default_value, variant_key_required,
  variant_reserved_or_duplicated, in_variant, in_rule, rule_id_required, duplicate_rule,
  no_conditions, in_fallthrough, segment_key_required, unknown_variant, expects_array,
  invalid_regex, regex_not_string, not_semver, unsupported_operator, outcome_variant_and_rollout,
  outcome_missing, weight_not_positive, weights_total, segment_reference_empty, segment_reference,
  condition_value, attribute_required,
}
use flagstack.Evaluation.Runtime.{Runtime}
use flagstack.Evaluation.Decode.{decode_raw, validate_value_kind}
use flagstack.Evaluation.Matching.{as_string, as_array, normalize_semver}

abbrev pub bucket_scale : ℕ
bucket_scale = 100_000

unfoldable pub valid_kind : Kind → Bool
valid_kind boolean = true
valid_kind text = true
valid_kind numeric = true
valid_kind json = true
valid_kind (Kind.other s) = false

unfoldable pub validate_match_mode : MatchMode → Result Fault (Unit {0})
validate_match_mode match_all = ok tt
validate_match_mode match_any = ok tt
validate_match_mode mode = err (Fault.match_mode mode)

-- The loop over a rollout's allocations, with the total so far.
unfoldable pub validate_rollout : List String → ℤ → List Allocation → Result Fault (Unit {0})
validate_rollout allowed total [] = guard (eq_int total (pos bucket_scale)) weights_total
validate_rollout allowed total (a ∷ rest) = do
  guard (member allowed a.variant) (unknown_variant a.variant)
  guard (lt_int (pos 0) a.weight) weight_not_positive
  validate_rollout allowed (add_int total a.weight) rest

unfoldable pub validate_outcome : Outcome → List String → Bool → Result Fault (Unit {0})
validate_outcome outcome allowed required =
    let has_variant = not (is_blank outcome.variant) in
    let has_rollout = not (is_nil outcome.rollout) in
    if has_variant && has_rollout
    then err outcome_variant_and_rollout
    else if not has_variant && not has_rollout
    then (if required then err outcome_missing else ok tt)
    else if has_variant
    then guard (member allowed outcome.variant) (unknown_variant outcome.variant)
    else validate_rollout allowed (pos 0) outcome.rollout

-- `allowed` before the loop over variants.
abbrev pub reserved_variants : Kind → List String
reserved_variants boolean = "off" ∷ "on" ∷ "default" ∷ []
reserved_variants _ = "default" ∷ []

abbrev pub reference_text : Option String → Result Fault (Unit {0})
reference_text none = err segment_reference_empty
reference_text (some s) = guard (not (is_blank s)) segment_reference_empty

abbrev pub array_value : Operator → Option Values → Result Fault (Unit {0})
array_value op none = err (expects_array op)
array_value op (some vs) = ok tt

module _ (rt : Runtime) where
  -- The first switch of `validateCondition`, on a segment operator.
  unfoldable pub validate_reference : Condition → Result Fault (Unit {0})
  validate_reference c = do
    v ← wrap segment_reference (decode_raw rt c.value)
    reference_text (as_string v)

  abbrev pub regex_value : Option String → Result Fault (Unit {0})
  regex_value none = err regex_not_string
  regex_value (some pattern) = guard (rt.compiles pattern) (invalid_regex pattern)

  abbrev pub version_value : Option String → Result Fault (Unit {0})
  version_value none = err not_semver
  version_value (some s) = guard (rt.semver_valid (normalize_semver s)) not_semver

  -- The second switch of `validateCondition`, on a decoded value.
  unfoldable pub operand : Operator → Value → Result Fault (Unit {0})
  operand equals v = ok tt
  operand not_equals v = ok tt
  operand contains v = ok tt
  operand not_contains v = ok tt
  operand starts_with v = ok tt
  operand ends_with v = ok tt
  operand greater_than v = ok tt
  operand greater_than_or_equal v = ok tt
  operand less_than v = ok tt
  operand less_than_or_equal v = ok tt
  operand is_in v = array_value is_in (as_array v)
  operand not_in v = array_value not_in (as_array v)
  operand matches_regex v = regex_value (as_string v)
  operand semver_greater_than v = version_value (as_string v)
  operand semver_greater_than_or_equal v = version_value (as_string v)
  operand semver_less_than v = version_value (as_string v)
  operand semver_less_than_or_equal v = version_value (as_string v)
  operand op v = err (unsupported_operator op)

  unfoldable pub validate_comparison : Condition → Result Fault (Unit {0})
  validate_comparison c = do
    guard (not (is_blank c.attribute)) attribute_required
    v ← wrap condition_value (decode_raw rt c.value)
    operand c.operator v

  abbrev pub validate_with : Operator → Condition → Result Fault (Unit {0})
  validate_with in_segment c = validate_reference c
  validate_with not_in_segment c = validate_reference c
  validate_with exists c = guard (not (is_blank c.attribute)) attribute_required
  validate_with not_exists c = guard (not (is_blank c.attribute)) attribute_required
  validate_with _ c = validate_comparison c

  unfoldable pub validate_condition : Condition → Result Fault (Unit {0})
  validate_condition c = validate_with c.operator c

  unfoldable pub validate_conditions : List Condition → Result Fault (Unit {0})
  validate_conditions [] = ok tt
  validate_conditions (c ∷ cs) = validate_condition c >> validate_conditions cs

  unfoldable pub validate_segment : Segment → Result Fault (Unit {0})
  validate_segment s = do
    guard (not (is_blank s.key)) segment_key_required
    wrap (Fault.in_segment s.key) (validate_match_mode s.mode)
    guard (not (is_nil s.conditions)) (Fault.in_segment s.key no_conditions)
    wrap (Fault.in_segment s.key) (validate_conditions s.conditions)

  -- The loop over variants; the result is the final `allowed`.
  unfoldable pub validate_variants : Kind → List String → List Variant → Result Fault (List String)
  validate_variants kind allowed [] = ok allowed
  validate_variants kind allowed (v ∷ vs) = do
    let key = trim_space v.key
    guard (not (is_empty key)) variant_key_required
    guard (not (member allowed key)) (variant_reserved_or_duplicated key)
    wrap (in_variant key) (validate_value_kind rt kind v.value)
    validate_variants kind (key ∷ allowed) vs

  -- The loop over rules, with `seenRules`.
  unfoldable pub validate_rules : List String → List String → List Rule → Result Fault (Unit {0})
  validate_rules allowed seen [] = ok tt
  validate_rules allowed seen (r ∷ rs) = do
    guard (not (is_blank r.id)) rule_id_required
    guard (not (member seen r.id)) (duplicate_rule r.id)
    wrap (in_rule r.id) (validate_match_mode r.mode)
    guard (not (is_nil r.conditions)) (in_rule r.id no_conditions)
    wrap (in_rule r.id) (validate_conditions r.conditions)
    wrap (in_rule r.id) (validate_outcome r.outcome allowed true)
    validate_rules allowed (r.id ∷ seen) rs

  unfoldable pub validate_flag : Flag → Result Fault (Unit {0})
  validate_flag flag = do
    guard (not (is_blank flag.id || is_blank flag.environment_id)) ids_required
    guard (valid_kind flag.kind) (unsupported_kind flag.kind)
    wrap default_value (validate_value_kind rt flag.kind flag.default_value)
    allowed ← validate_variants flag.kind (reserved_variants flag.kind) flag.variants
    validate_rules allowed [] flag.policy.rules
    wrap in_fallthrough (validate_outcome flag.policy.fallthrough allowed false)
