-- ===== src/Evaluation/Evaluate/Accepted.antt =====
-- `Evaluate` on what `ValidateFlag` and `ValidateSegmentSet` accept.
use flagstack.Evaluation.Matching.{index_segments, match_segment, condition_matches}
use flagstack.Evaluation.SegmentSet.Acyclic.{Covers, validate_segment_set_sound}
use flagstack.Evaluation.SegmentSet.{
  build_index, validate_segment_set, validate_portable_conditions, segment_references,
}
use flagstack.Evaluation.Decode.{validate_value_kind}
use flagstack.Evaluation.Values.{bucket_value}
use flagstack.Evaluation.SegmentSet.Accepted.{
  NeverFails, match_conditions-NeverFails, conditions-NeverFail,
}
use flagstack.Evaluation.Evaluate.Safe.{
  HasTrimmedKeys, NotParse, HasPlainVariant, Resolves, allowed-Resolves, resolve_outcome-NotParse,
  HasPlainOutcomes,
}
use flagstack.Evaluation.Evaluate.{
  resolve_outcome, no_outcome, resolve_pick, after_rules, evaluate_rules, fallthrough_result,
  rule_result, outcome_empty, pick, rule_step, bucket, evaluate, rule_matches, validate_segments,
}
use flagstack.Evaluation.Validate.{
  validate_flag, validate_rules, validate_conditions, validate_variants, reserved_variants,
  validate_outcome, valid_kind, validate_match_mode, validate_segment,
}
use flagstack.Evaluation.Types.{
  EvalResult, Flag, Kind, Rule, parse_error, boolean, ids_required, rule_id_required,
  duplicate_rule, unsupported_kind, in_rule, default_value, in_fallthrough, no_conditions,
  duplicate_segment, Allocation, Context, EvaluationError, Outcome, Segment, Fault,
}
use flagstack.Common.{
  [], ◌∷◌, ◌||◌, ◌≡◌, ◌≢◌, inl, inr, ok, err, some, none, true, false, arith, refl, All, String,
  Bool, List, Option, Result, >>=-eq-ok, Bool-cases, guard, is_empty, member, not, is_blank, pos,
  wrap, is_nil, wrap-eq-ok, suc, All-map, is_some, length, lookup, insert, All-every,
}
use flagstack.Evaluation.Runtime.{MatchesCompiled, Runtime}

abbrev pub NoParseError : EvalResult → Type 0
NoParseError r = r.error_code ≢ some parse_error

-- What the loop of `ValidateFlag` over rules has checked of each rule.
abbrev IsCheckedRule : Runtime → List String → Rule → Type 0
IsCheckedRule rt allowed r =
    (validate_conditions rt r.conditions ≡ ok tt)
    × (validate_outcome r.outcome allowed true ≡ ok tt)

record IsCheckedFlag (rt : Runtime) (flag : Flag) : Type 0 where
  allowed : List String
  variants : validate_variants rt flag.kind (reserved_variants flag.kind) flag.variants ≡ ok allowed
  rules : All (IsCheckedRule rt allowed) flag.policy.rules
  last : validate_outcome flag.policy.fallthrough allowed false ≡ ok tt

module _ (rt : Runtime) where
  validate_rules-checked :
      (allowed seen : List String) (rs : List Rule)
      → validate_rules rt allowed seen rs ≡ ok tt
      → All (IsCheckedRule rt allowed) rs
  unfolding validate_rules
  validate_rules-checked allowed seen [] h = tt
  validate_rules-checked allowed seen (r ∷ rs) h =
      let (_, _, h1) = >>=-eq-ok (guard (not (is_blank r.id)) rule_id_required) _ h in
      let (_, _, h2) = >>=-eq-ok (guard (not (member seen r.id)) (duplicate_rule r.id)) _ h1 in
      let (_, _, h3) = >>=-eq-ok (wrap (in_rule r.id) (validate_match_mode r.mode)) _ h2 in
      let (_, _, h4) =
        >>=-eq-ok (guard (not (is_nil r.conditions)) (in_rule r.id no_conditions)) _ h3 in
      let (_, cs, h5) =
        >>=-eq-ok (wrap (in_rule r.id) (validate_conditions rt r.conditions)) _ h4 in
      let (_, o, h6) =
        >>=-eq-ok (wrap (in_rule r.id) (validate_outcome r.outcome allowed true)) _ h5 in
      (
        (
          wrap-eq-ok (in_rule r.id) (validate_conditions rt r.conditions) cs,
          wrap-eq-ok (in_rule r.id) (validate_outcome r.outcome allowed true) o,
        ),
        validate_rules-checked allowed (r.id ∷ seen) rs h6,
      )

  validate_flag-checked : (flag : Flag) → validate_flag rt flag ≡ ok tt → IsCheckedFlag rt flag
  unfolding validate_flag
  validate_flag-checked flag h =
      let (_, _, h1) =
        >>=-eq-ok (guard (not (is_blank flag.id || is_blank flag.environment_id)) ids_required) _
          h in
      let (_, _, h2) = >>=-eq-ok (guard (valid_kind flag.kind) (unsupported_kind flag.kind)) _ h1 in
      let raw = validate_value_kind rt flag.kind flag.default_value in
      let (_, _, h3) = >>=-eq-ok (wrap default_value raw) _ h2 in
      let vs = validate_variants rt flag.kind (reserved_variants flag.kind) flag.variants in
      let (allowed, variants, h4) = >>=-eq-ok vs _ h3 in
      let (_, rules, last) = >>=-eq-ok (validate_rules rt allowed [] flag.policy.rules) _ h4 in
      record {
        allowed = allowed;
        variants = variants;
        rules = validate_rules-checked allowed [] flag.policy.rules (ground arith);
        last =
            wrap-eq-ok in_fallthrough (validate_outcome flag.policy.fallthrough allowed false)
              (ground arith);
      }

  resolve_pick-clean :
      (flag : Flag) (o : Option Allocation) {r : EvalResult}
      → resolve_pick flag o ≡ ok r
      → r.error_code ≡ none
  resolve_pick-clean flag none h = cc
  resolve_pick-clean flag (some a) h = ground arith

  resolve_outcome-clean :
      (flag : Flag) (o : Outcome) (ctx : Context) {r : EvalResult}
      → resolve_outcome rt flag o ctx ≡ ok r
      → r.error_code ≡ none
  unfolding resolve_outcome
  resolve_outcome-clean flag o ctx {r} h = elim (Bool-cases (is_empty o.variant)) [
    | inl rollout ↦
        let (b, _, picked) =
          >>=-eq-ok (bucket_value rt ctx o.bucket_by) _ (rw (rollout, resolve_outcome) at h) in
        resolve_pick-clean flag (pick (bucket rt flag.environment_id flag.id b) (pos 0) o.rollout)
          picked
    | inr fixed ↦ ground arith
  ]

  rule_result-NoParseError :
      (flag : Flag) (rule : Rule) (m : Result EvaluationError EvalResult)
      → NotParse m
      → ((r : EvalResult) → m ≡ ok r → r.error_code ≡ none)
      → NoParseError (rule_result flag rule m)
  rule_result-NoParseError flag rule (ok r) h clean = ground (arith, clean r refl)
  rule_result-NoParseError flag rule (err e) h clean = ground (arith, h e refl)

  fallthrough_result-NoParseError :
      (flag : Flag) (m : Result EvaluationError EvalResult)
      → NotParse m
      → ((r : EvalResult) → m ≡ ok r → r.error_code ≡ none)
      → NoParseError (fallthrough_result flag m)
  fallthrough_result-NoParseError flag (ok r) h clean = ground (arith, clean r refl)
  fallthrough_result-NoParseError flag (err e) h clean = ground (arith, h e refl)

  no_outcome-NoParseError : (kind : Kind) (flag : Flag) → NoParseError (no_outcome kind flag)
  no_outcome-NoParseError boolean flag = ground arith
  no_outcome-NoParseError _ flag = ground arith

  module _ (flag : Flag) (ctx : Context) (checked_flag : IsCheckedFlag rt flag)
      (trimmed : HasTrimmedKeys flag) where
    resolves : (key : String) → member checked_flag.allowed key ≡ true → Resolves flag key
    resolves key m =
        allowed-Resolves rt flag checked_flag.allowed key checked_flag.variants trimmed m

    after_rules-NoParseError :
        HasPlainVariant flag.policy.fallthrough → NoParseError (after_rules rt flag ctx)
    unfolding after_rules
    after_rules-NoParseError plain = elim (Bool-cases (outcome_empty flag.policy.fallthrough)) [
      | inl e ↦ rw e (no_outcome-NoParseError flag.kind flag)
      | inr e ↦
          let last = flag.policy.fallthrough in
          rw e (
            fallthrough_result-NoParseError flag (resolve_outcome rt flag last ctx)
              (resolve_outcome-NotParse rt flag last ctx checked_flag.allowed false resolves plain
                checked_flag.last (inr e))
              (λ r. resolve_outcome-clean flag last ctx))
    ]

    rule_step-NoParseError :
        (rule : Rule) (m : Result EvaluationError Bool) (next : EvalResult)
        → NeverFails m
        → IsCheckedRule rt checked_flag.allowed rule
        → HasPlainVariant rule.outcome
        → NoParseError next
        → NoParseError (rule_step rt flag ctx rule m next)
    rule_step-NoParseError rule (err e) next h c plain n = absurd (h e refl)
    rule_step-NoParseError rule (ok true) next h c plain n =
        rule_result-NoParseError flag rule (resolve_outcome rt flag rule.outcome ctx)
          (resolve_outcome-NotParse rt flag rule.outcome ctx checked_flag.allowed true resolves
            plain c.1 (inl refl))
          (λ r. resolve_outcome-clean flag rule.outcome ctx)
    rule_step-NoParseError rule (ok false) next h c plain n = n

    evaluate_rules-NoParseError :
        (matches : Rule → Result EvaluationError Bool) (rules : List Rule)
        → All (λ r. NeverFails (matches r)) rules
        → All (IsCheckedRule rt checked_flag.allowed) rules
        → All (λ (r : Rule). HasPlainVariant r.outcome) rules
        → HasPlainVariant flag.policy.fallthrough
        → NoParseError (evaluate_rules rt matches flag ctx rules)
    unfolding evaluate_rules
    evaluate_rules-NoParseError matches [] _ _ _ plain = after_rules-NoParseError plain
    evaluate_rules-NoParseError matches (r ∷ rs) (m, ms) (c, cs) (p, ps) plain =
        rule_step-NoParseError r (matches r) (evaluate_rules rt matches flag ctx rs) m c p
          (evaluate_rules-NoParseError matches rs ms cs ps plain)

  build_index-segments :
      (index : List (String × Segment)) (ss : List Segment) {final : List (String × Segment)}
      → build_index rt index ss ≡ ok final
      → validate_segments rt ss ≡ ok tt
  unfolding build_index validate_segments
  build_index-segments index [] h = refl
  build_index-segments index (s ∷ ss) h =
      let (_, valid, h1) = >>=-eq-ok (validate_segment rt s) _ h in
      let (_, _, h2) =
        >>=-eq-ok (wrap (Fault.in_segment s.key) (validate_portable_conditions rt s.conditions)) _
          h1 in
      let (_, _, h3) =
        >>=-eq-ok (guard (not (is_some (lookup s.key index))) (duplicate_segment s.key)) _ h2 in
      let rest = build_index-segments (insert s.key s index) ss h3 in ground arith

  pub validate_segment_set-segments :
      (order : List (String × Segment) → List String) (ss : List Segment)
      → validate_segment_set rt order ss ≡ ok tt
      → validate_segments rt ss ≡ ok tt
  unfolding validate_segment_set
  validate_segment_set-segments order ss h =
      let (index, built, _) = >>=-eq-ok (build_index rt [] ss) _ h in
      build_index-segments [] ss built

  rule_matches-NeverFails :
      (order : List (String × Segment) → List String) (ss : List Segment) (ctx : Context)
      (allowed : List String) (rule : Rule)
      → MatchesCompiled rt
      → Covers order
      → validate_segment_set rt order ss ≡ ok tt
      → IsCheckedRule rt allowed rule
      → NeverFails (rule_matches rt ctx ss rule)
  unfolding rule_matches
  rule_matches-NeverFails order ss ctx allowed rule compiled covers h checked_rule =
      let index = index_segments [] ss in
      let next = match_segment rt ctx index (suc (length index)) [] in
      match_conditions-NeverFails (condition_matches rt ctx next) rule.mode rule.conditions (
        conditions-NeverFail rt compiled ctx next rule.conditions checked_rule.0 (
          All-every (segment_references rt rule.conditions)
            (validate_segment_set_sound rt order ss compiled covers h ctx)))

-- A flag that `ValidateFlag` accepts, with segments that `ValidateSegmentSet` accepts, never
-- evaluates to PARSE_ERROR, whatever the context: provided that no variant key has white space
-- around it and no outcome's variant is only white space.
pub evaluate-NoParseError :
    (rt : Runtime) (order : List (String × Segment) → List String) (flag : Flag) (ctx : Context)
    (segments : List Segment)
    → MatchesCompiled rt
    → Covers order
    → validate_flag rt flag ≡ ok tt
    → validate_segment_set rt order segments ≡ ok tt
    → HasTrimmedKeys flag
    → HasPlainOutcomes flag
    → NoParseError (evaluate rt flag ctx segments)
unfolding evaluate
evaluate-NoParseError rt order flag ctx segments compiled covers valid set trimmed plain =
    let c = validate_flag-checked rt flag valid in
    let matches = rule_matches rt ctx segments in
    let rules =
      evaluate_rules-NoParseError rt flag ctx c trimmed matches flag.policy.rules
        (All-map flag.policy.rules
          (λ r p. rule_matches-NeverFails rt order segments ctx c.allowed r compiled covers set p)
          c.rules)
        c.rules plain.0 plain.1 in
    rw (valid, validate_segment_set-segments rt order segments set) (ground arith)
