-- ===== src/Evaluation/Evaluate/Kinds.antt =====
-- The values of `Evaluate` and a flag's kind.
use flagstack.Evaluation.Values.{bucket_value}
use flagstack.Evaluation.Evaluate.{
  find_variant, variant_value, boolean_value, built_in, resolve_pick, after_rules, evaluate,
  evaluate_rules, no_outcome, resolve_outcome, checked, fallthrough_result, outcome_empty,
  rule_result, rule_step, rule_matches, pick, validate_segments, bucket,
}
use flagstack.Evaluation.Validate.{validate_variants, validate_flag, valid_kind, reserved_variants}
use flagstack.Evaluation.Types.{
  Kind, bool, Variant, variant_key_required, variant_reserved_or_duplicated, in_variant, Flag,
  ids_required, unsupported_kind, default_value, boolean, Allocation, EvalResult, Context,
  EvaluationError, Fault, Rule, Outcome, Segment,
}
use flagstack.Evaluation.Decode.{decode_raw, validate_value_kind}
use flagstack.Common.{
  ◌≡◌, true, ok, List, String, false, All, ◌∷◌, trim_space, >>=-eq-ok, guard, not, is_empty, member,
  wrap, wrap-eq-ok, [], ◌==◌, ◌||◌, inl, inr, some, arith, if◌then◌else◌, Bool, Bool-cases,
  Option-cases, is_blank, subst, none, Option, err, refl, Result, pos,
}
use flagstack.Evaluation.Runtime.{Runtime}

-- encoding/json decodes the literals `true` and `false` to booleans.
abbrev pub DecodesBooleans : Runtime → Type 0
DecodesBooleans rt =
    (decode_raw rt "true" ≡ ok (bool true)) × (decode_raw rt "false" ≡ ok (bool false))

abbrev pub HasKind : Runtime → Kind → String → Type 0
HasKind rt kind raw = validate_value_kind rt kind raw ≡ ok tt

module _ (rt : Runtime) where
  validate_variants-HasKind :
      (kind : Kind) (allowed : List String) (vs : List Variant) {final : List String}
      → validate_variants rt kind allowed vs ≡ ok final
      → All (λ (v : Variant). HasKind rt kind v.value) vs
  unfolding validate_variants
  validate_variants-HasKind kind allowed [] h = tt
  validate_variants-HasKind kind allowed (v ∷ vs) h =
      let key = trim_space v.key in
      let (_, _, h1) = >>=-eq-ok (guard (not (is_empty key)) variant_key_required) _ h in
      let (_, _, h2) =
        >>=-eq-ok (guard (not (member allowed key)) (variant_reserved_or_duplicated key)) _ h1 in
      let (_, valid, h3) =
        >>=-eq-ok (wrap (in_variant key) (validate_value_kind rt kind v.value)) _ h2 in
      (
        wrap-eq-ok (in_variant key) (validate_value_kind rt kind v.value) valid,
        validate_variants-HasKind kind (key ∷ allowed) vs h3,
      )

  pub record IsKinded (flag : Flag) : Type 0 where
    pub default_kind : HasKind rt flag.kind flag.default_value
    pub variant_kinds : All (λ (v : Variant). HasKind rt flag.kind v.value) flag.variants

  pub validate_flag-IsKinded : (flag : Flag) → validate_flag rt flag ≡ ok tt → IsKinded flag
  unfolding validate_flag
  validate_flag-IsKinded flag h =
      let (_, _, h1) =
        >>=-eq-ok (guard (not (is_blank flag.id || is_blank flag.environment_id)) ids_required) _
          h in
      let (_, _, h2) = >>=-eq-ok (guard (valid_kind flag.kind) (unsupported_kind flag.kind)) _ h1 in
      let raw = validate_value_kind rt flag.kind flag.default_value in
      let (_, valid, h3) = >>=-eq-ok (wrap default_value raw) _ h2 in
      let vs = validate_variants rt flag.kind (reserved_variants flag.kind) flag.variants in
      let (allowed, variants, _) = >>=-eq-ok vs _ h3 in
      record {
        default_kind = wrap-eq-ok default_value raw valid;
        variant_kinds =
            validate_variants-HasKind flag.kind (reserved_variants flag.kind) flag.variants
              variants;
      }

  find_variant-HasKind :
      (kind : Kind) (key : String) (vs : List Variant) {raw : String}
      → All (λ (v : Variant). HasKind rt kind v.value) vs
      → find_variant key vs ≡ ok raw
      → HasKind rt kind raw
  unfolding find_variant
  find_variant-HasKind kind key [] all h = cc
  find_variant-HasKind kind key (v ∷ vs) {raw} (here, later) h = elim (Bool-cases (v.key == key)) [
    | inl e ↦ let same : v.value ≡ raw = ground arith in subst (HasKind rt kind) same here
    | inr e ↦ find_variant-HasKind kind key vs later (ground arith)
  ]

  module _ (booleans : DecodesBooleans rt) where
    boolean_value-HasKind :
        (kind : Kind) (b : Bool) {raw : String}
        → boolean_value kind (if b then "true" else "false") ≡ some raw
        → HasKind rt kind raw
    unfolding validate_value_kind
    boolean_value-HasKind boolean true {raw} h =
        let same : ◌≡◌ {A = String} "true" raw = ground arith in
        subst (HasKind rt boolean) same (rw booleans.0)
    boolean_value-HasKind boolean false {raw} h =
        let same : ◌≡◌ {A = String} "false" raw = ground arith in
        subst (HasKind rt boolean) same (rw booleans.1)
    boolean_value-HasKind _ b h = cc

    built_in-HasKind :
        (flag : Flag) (key : String) {raw : String}
        → IsKinded flag
        → built_in flag key ≡ some raw
        → HasKind rt flag.kind raw
    built_in-HasKind flag key {raw} kinded h = elim (Bool-cases (key == "default")) [
      | inl e ↦
          let same : flag.default_value ≡ raw = ground arith in
          subst (HasKind rt flag.kind) same kinded.default_kind
      | inr e ↦ elim (Bool-cases (key == "on")) [
        | inl on ↦ boolean_value-HasKind flag.kind true (ground arith)
        | inr not_on ↦ boolean_value-HasKind flag.kind false (ground arith)
      ]
    ]

    variant_value-HasKind :
        (flag : Flag) (key : String) {raw : String}
        → IsKinded flag
        → variant_value flag key ≡ ok raw
        → HasKind rt flag.kind raw
    unfolding variant_value
    variant_value-HasKind flag key {raw} kinded h = elim (Option-cases (built_in flag key)) [
      | inl none_built ↦
          find_variant-HasKind flag.kind key flag.variants kinded.variant_kinds (ground arith)
      | inr (v, e) ↦
          let same : v ≡ raw = ground arith in
          subst (HasKind rt flag.kind) same (built_in-HasKind flag key kinded e)
    ]

    resolve_pick-HasKind :
        (flag : Flag) (o : Option Allocation) {r : EvalResult}
        → IsKinded flag
        → resolve_pick flag o ≡ ok r
        → HasKind rt flag.kind r.value
    resolve_pick-HasKind flag none kinded h = cc
    resolve_pick-HasKind flag (some a) {r} kinded h =
        let (v, found, e) = >>=-eq-ok (variant_value flag a.variant) _ h in
        let same : v ≡ r.value = ground arith in
        subst (HasKind rt flag.kind) same (variant_value-HasKind flag a.variant kinded found)

    resolve_outcome-HasKind :
        (flag : Flag) (o : Outcome) (ctx : Context) {r : EvalResult}
        → IsKinded flag
        → resolve_outcome rt flag o ctx ≡ ok r
        → HasKind rt flag.kind r.value
    unfolding resolve_outcome
    resolve_outcome-HasKind flag o ctx {r} kinded h = elim (Bool-cases (is_empty o.variant)) [
      | inl rollout ↦
          let (b, _, picked) = >>=-eq-ok (bucket_value rt ctx o.bucket_by) _ (rw rollout at h) in
          resolve_pick-HasKind flag
            (pick (bucket rt flag.environment_id flag.id b) (pos 0) o.rollout) kinded picked
      | inr fixed ↦
          let (v, found, e) = >>=-eq-ok (variant_value flag o.variant) _ (rw fixed at h) in
          let same : v ≡ r.value = ground arith in
          subst (HasKind rt flag.kind) same (variant_value-HasKind flag o.variant kinded found)
    ]

    rule_result-HasKind :
        (flag : Flag) (rule : Rule) (m : Result EvaluationError EvalResult)
        → IsKinded flag
        → ((r : EvalResult) → m ≡ ok r → HasKind rt flag.kind r.value)
        → HasKind rt flag.kind (rule_result flag rule m).value
    rule_result-HasKind flag rule (ok r) kinded h = h r refl
    rule_result-HasKind flag rule (err e) kinded h = kinded.default_kind

    fallthrough_result-HasKind :
        (flag : Flag) (m : Result EvaluationError EvalResult)
        → IsKinded flag
        → ((r : EvalResult) → m ≡ ok r → HasKind rt flag.kind r.value)
        → HasKind rt flag.kind (fallthrough_result flag m).value
    fallthrough_result-HasKind flag (ok r) kinded h = h r refl
    fallthrough_result-HasKind flag (err e) kinded h = kinded.default_kind

    no_outcome-HasKind :
        (kind : Kind) (flag : Flag)
        → HasKind rt kind flag.default_value
        → HasKind rt kind (no_outcome kind flag).value
    unfolding validate_value_kind
    no_outcome-HasKind boolean flag h = rw booleans.0
    no_outcome-HasKind _ flag h = h

    after_rules-HasKind :
        (flag : Flag) (ctx : Context)
        → IsKinded flag
        → HasKind rt flag.kind (after_rules rt flag ctx).value
    unfolding after_rules
    after_rules-HasKind flag ctx kinded =
        elim (Bool-cases (outcome_empty flag.policy.fallthrough)) [
          | inl e ↦ rw e (no_outcome-HasKind flag.kind flag kinded.default_kind)
          | inr e ↦ rw e (
              fallthrough_result-HasKind flag (resolve_outcome rt flag flag.policy.fallthrough ctx)
                kinded (λ r. resolve_outcome-HasKind flag flag.policy.fallthrough ctx kinded))
        ]

    rule_step-HasKind :
        (flag : Flag) (ctx : Context) (rule : Rule) (m : Result EvaluationError Bool)
        (next : EvalResult)
        → IsKinded flag
        → HasKind rt flag.kind next.value
        → HasKind rt flag.kind (rule_step rt flag ctx rule m next).value
    rule_step-HasKind flag ctx rule (err e) next kinded h = kinded.default_kind
    rule_step-HasKind flag ctx rule (ok true) next kinded h =
        rule_result-HasKind flag rule (resolve_outcome rt flag rule.outcome ctx) kinded
          (λ r. resolve_outcome-HasKind flag rule.outcome ctx kinded)
    rule_step-HasKind flag ctx rule (ok false) next kinded h = h

    evaluate_rules-HasKind :
        (matches : Rule → Result EvaluationError Bool) (flag : Flag) (ctx : Context)
        (rules : List Rule)
        → IsKinded flag
        → HasKind rt flag.kind (evaluate_rules rt matches flag ctx rules).value
    unfolding evaluate_rules
    evaluate_rules-HasKind matches flag ctx [] kinded = after_rules-HasKind flag ctx kinded
    evaluate_rules-HasKind matches flag ctx (rule ∷ rest) kinded =
        rule_step-HasKind flag ctx rule (matches rule) (evaluate_rules rt matches flag ctx rest)
          kinded (evaluate_rules-HasKind matches flag ctx rest kinded)

    checked-HasKind :
        (flag : Flag) (m : Result Fault (Unit {0})) (next : EvalResult)
        → IsKinded flag
        → HasKind rt flag.kind next.value
        → HasKind rt flag.kind (checked flag m next).value
    checked-HasKind flag (ok _) next kinded h = h
    checked-HasKind flag (err e) next kinded h = kinded.default_kind

    enabled-HasKind :
        (flag : Flag) (off on : EvalResult)
        → HasKind rt flag.kind off.value
        → HasKind rt flag.kind on.value
        → HasKind rt flag.kind (if not flag.enabled then off else on).value
    enabled-HasKind flag off on h k = elim (Bool-cases flag.enabled) [
      | inl e ↦ rw e k
      | inr e ↦ rw e h
    ]

-- For a flag that `ValidateFlag` accepts, the value that `Evaluate` returns has the flag's kind,
-- for every context and every list of segments, on the error branches too.
pub evaluate-HasKind :
    (rt : Runtime) (flag : Flag) (ctx : Context) (segments : List Segment)
    → DecodesBooleans rt
    → validate_flag rt flag ≡ ok tt
    → HasKind rt flag.kind (evaluate rt flag ctx segments).value
unfolding evaluate
evaluate-HasKind rt flag ctx segments booleans valid =
    let kinded = validate_flag-IsKinded rt flag valid in
    let run = evaluate_rules rt (rule_matches rt ctx segments) flag ctx flag.policy.rules in
    rw valid (
      checked-HasKind rt booleans flag (validate_segments rt segments) _ kinded (
        enabled-HasKind rt booleans flag _ run kinded.default_kind (
          evaluate_rules-HasKind rt booleans (rule_matches rt ctx segments) flag ctx
            flag.policy.rules kinded)))
