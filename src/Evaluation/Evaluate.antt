-- ===== src/Evaluation/Evaluate.antt =====
-- backend/internal/evaluation/evaluation.go: `Evaluate`, buckets and outcomes.
pub mod Rollout
pub mod Kinds
pub mod Safe
pub mod Accepted
use flagstack.Common.{
  ℕ, ◌+◌, ◌*◌, ◌%◌, String, Bool, true, false, not, ◌&&◌, Option, none, some, List, [], ◌∷◌, ◌==◌,
  if◌then◌else◌, Result, ok, err, ◌>>=◌, ◌>>◌, is_blank, is_empty, is_nil, length, ℤ, pos, add_int,
  lt_int,
}
use Prim.Native.String
use Prim.Native.Nat.{suc}
use flagstack.Evaluation.Types.{
  Kind, boolean, Context, Variant, Segment, Rule, Outcome, Allocation, Flag, EvalResult, Reason,
  static, default, targeting_match, split, disabled, error, Fault, unknown_variant,
  rollout_unresolved, EvaluationError, ErrorCode, parse_error,
}
use flagstack.Evaluation.Runtime.{Runtime}
use flagstack.Evaluation.Values.{bucket_value}
use flagstack.Evaluation.Validate.{bucket_scale, validate_flag, validate_segment}
use flagstack.Evaluation.Matching.{
  parse_failure, condition_matches, match_conditions, index_segments, match_segment,
}

-- `binary.BigEndian.Uint32(digest[:4])`; a digest has 32 bytes.
abbrev pub big_endian_uint32 : List ℕ → ℕ
big_endian_uint32 (a ∷ b ∷ c ∷ d ∷ rest) = ((a * 256 + b) * 256 + c) * 256 + d
big_endian_uint32 _ = 0

abbrev pub nul : String
nul = "\0"

module _ (rt : Runtime) where
  unfoldable pub bucket : String → String → String → ℕ
  bucket environment_id flag_id value =
      let input = String.◌++◌ "switchonyourcode-v1" (
        String.◌++◌ nul (
          String.◌++◌ environment_id
            (String.◌++◌ nul (String.◌++◌ flag_id (String.◌++◌ nul value))))) in
      big_endian_uint32 (rt.sha256 input) % bucket_scale

abbrev pub boolean_value : Kind → String → Option String
boolean_value boolean v = some v
boolean_value _ v = none

-- The built-in variants of `variantValue`; `none` where the switch falls through.
abbrev pub built_in : Flag → String → Option String
built_in flag key =
    if key == "default"
    then some flag.default_value
    else if key == "on"
    then boolean_value flag.kind "true"
    else if key == "off"
    then boolean_value flag.kind "false"
    else none

unfoldable pub find_variant : String → List Variant → Result EvaluationError String
find_variant key [] = err (parse_failure (unknown_variant key))
find_variant key (v ∷ vs) = if v.key == key then ok v.value else find_variant key vs

unfoldable pub variant_value : Flag → String → Result EvaluationError String
variant_value flag key = elim (built_in flag key) [
  | some v ↦ ok v
  | none ↦ find_variant key flag.variants
]

-- The loop of `resolveOutcome`: the allocation that a bucket falls in.
unfoldable pub pick : ℕ → ℤ → List Allocation → Option Allocation
pick n cumulative [] = none
pick n cumulative (a ∷ rest) =
    let total = add_int cumulative a.weight in
    let later = pick n total rest in if lt_int (pos n) total then some a else later

-- A `Result` with the value and the variant set, as `resolveOutcome` returns it.
abbrev pub resolved : String → String → EvalResult
resolved value variant = record {
  value = value;
  variant = variant;
  reason = static;
  rule_id = "";
  error_code = none;
  error_message = none;
}

abbrev pub resolve_pick : Flag → Option Allocation → Result EvaluationError EvalResult
resolve_pick flag none = err (parse_failure rollout_unresolved)
resolve_pick flag (some a) = do v ← variant_value flag a.variant; ok (resolved v a.variant)

abbrev pub error_result : Flag → ErrorCode → Fault → EvalResult
error_result flag code fault = record {
  value = flag.default_value;
  variant = "default";
  reason = error;
  rule_id = "";
  error_code = some code;
  error_message = some fault;
}

unfoldable pub outcome_empty : Outcome → Bool
outcome_empty o = is_blank o.variant && is_nil o.rollout

abbrev pub failed_result : Flag → EvaluationError → EvalResult
failed_result flag e = error_result flag e.code e.cause

-- The reason that `Evaluate` sets for a resolved outcome.
abbrev pub outcome_reason : Outcome → Reason → Reason
outcome_reason o plain = if not (is_nil o.rollout) then split else plain

abbrev pub rule_result : Flag → Rule → Result EvaluationError EvalResult → EvalResult
rule_result flag rule (err e) = failed_result flag e
rule_result flag rule (ok r) = record r {
  rule_id = rule.id;
  reason = outcome_reason rule.outcome targeting_match;
}

abbrev pub fallthrough_result : Flag → Result EvaluationError EvalResult → EvalResult
fallthrough_result flag (err e) = failed_result flag e
fallthrough_result flag (ok r) = record r { reason = outcome_reason flag.policy.fallthrough static }

-- What an enabled flag with no fallthrough outcome resolves to.
abbrev pub no_outcome : Kind → Flag → EvalResult
no_outcome boolean flag = record (resolved "true" "on") { reason = static }
no_outcome _ flag = record (resolved flag.default_value "default") { reason = default }

abbrev pub checked : Flag → Result Fault (Unit {0}) → EvalResult → EvalResult
checked flag (err e) next = error_result flag parse_error e
checked flag (ok _) next = next

module _ (rt : Runtime) where
  unfoldable pub resolve_outcome : Flag → Outcome → Context → Result EvaluationError EvalResult
  resolve_outcome flag outcome ctx =
      if not (is_empty outcome.variant)
      then (variant_value flag outcome.variant >>= λ v. ok (resolved v outcome.variant))
      else (bucket_value rt ctx outcome.bucket_by >>= λ b.
          resolve_pick flag
            (pick (bucket rt flag.environment_id flag.id b) (pos 0) outcome.rollout))

  -- The part of `Evaluate` behind the rules.
  unfoldable pub after_rules : Flag → Context → EvalResult
  after_rules flag ctx =
      if outcome_empty flag.policy.fallthrough
      then no_outcome flag.kind flag
      else fallthrough_result flag (resolve_outcome flag flag.policy.fallthrough ctx)

  abbrev pub rule_step :
      Flag → Context → Rule → Result EvaluationError Bool → EvalResult → EvalResult
  rule_step flag ctx rule (err e) next = failed_result flag e
  rule_step flag ctx rule (ok true) next =
      rule_result flag rule (resolve_outcome flag rule.outcome ctx)
  rule_step flag ctx rule (ok false) next = next

  -- The loop over rules, for a test of a rule's conditions.
  unfoldable pub evaluate_rules :
      (Rule → Result EvaluationError Bool) → Flag → Context → List Rule → EvalResult
  evaluate_rules matches flag ctx [] = after_rules flag ctx
  evaluate_rules matches flag ctx (rule ∷ rest) =
      let next = evaluate_rules matches flag ctx rest in rule_step flag ctx rule (matches rule) next

  -- `matchConditions` of a rule, with fuel for one visit of every segment.
  unfoldable pub rule_matches : Context → List Segment → Rule → Result EvaluationError Bool
  rule_matches ctx segments rule =
      let index = index_segments [] segments in
      match_conditions
        (condition_matches rt ctx (match_segment rt ctx index (suc (length index)) [])) rule.mode
        rule.conditions

  unfoldable pub validate_segments : List Segment → Result Fault (Unit {0})
  validate_segments [] = ok tt
  validate_segments (s ∷ ss) = validate_segment rt s >> validate_segments ss

  unfoldable pub evaluate : Flag → Context → List Segment → EvalResult
  evaluate flag ctx segments = checked flag (validate_flag rt flag) (
      checked flag (validate_segments segments) (
        if not flag.enabled
        then record (resolved flag.default_value "default") { reason = disabled }
        else evaluate_rules (rule_matches ctx segments) flag ctx flag.policy.rules))
