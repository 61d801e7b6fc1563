-- ===== src/Evaluation/Evaluate/Safe.antt =====
-- `ValidateFlag` and `resolveOutcome`: variants and outcomes.
use flagstack.Evaluation.Evaluate.Rollout.{pick-total}
use flagstack.Evaluation.Values.{bucket_value}
use flagstack.Evaluation.SegmentSet.Accepted.{NeverFails, bind-NeverFails}
use flagstack.Evaluation.Decode.{validate_value_kind}
use flagstack.Evaluation.Validate.{
  validate_variants, reserved_variants, validate_outcome, validate_rollout, bucket_scale,
}
use flagstack.Evaluation.Evaluate.{
  variant_value, find_variant, built_in, resolve_outcome, outcome_empty, resolve_pick, pick, bucket,
}
use flagstack.Evaluation.Types.{
  EvaluationError, Flag, Outcome, Rule, Variant, parse_error, variant_key_required,
  variant_reserved_or_duplicated, in_variant, Kind, Allocation, Context,
}
use flagstack.Common.{
  [], ◌∷◌, ◌==◌, ◌≡◌, ◌≢◌, ◌⊎◌, inl, inr, ok, err, true, arith, All, String, List, Result, is_blank,
  member, is_empty, trim_space, >>=-eq-ok, guard, not, wrap, Bool-cases, ◌<◌, none, false, refl, ℕ,
  Bool, eq_iff, ℤ, ◌>>=◌, ◌∙◌, pos, is_nil,
}
use flagstack.Evaluation.Runtime.{Runtime}

abbrev pub NotParse {ℓ} : {A : Type ℓ} → Result EvaluationError A → Type ℓ
NotParse r = (e : EvaluationError) → r ≡ err e → e.code ≢ parse_error

-- No variant key has white space around it.
abbrev pub HasTrimmedKeys : Flag → Type 0
HasTrimmedKeys flag = All (λ (v : Variant). trim_space v.key ≡ v.key) flag.variants

-- The variant of an outcome is empty, or not only white space.
abbrev pub HasPlainVariant : Outcome → Type 0
HasPlainVariant o = is_blank o.variant ≡ is_empty o.variant

abbrev pub HasPlainOutcomes : Flag → Type 0
HasPlainOutcomes flag =
    All (λ (r : Rule). HasPlainVariant r.outcome) flag.policy.rules
    × HasPlainVariant flag.policy.fallthrough

-- The keys for which `variantValue` has a value.
abbrev pub Resolves : Flag → String → Type 0
Resolves flag key = NeverFails (variant_value flag key)

reserved-built_in :
    (flag : Flag) (key : String)
    → member (reserved_variants flag.kind) key ≡ true
    → built_in flag key ≢ none
reserved-built_in flag key m = ground (
  arith,
  eq_iff "default" key,
  eq_iff key "default",
  eq_iff "on" key,
  eq_iff key "on",
  eq_iff "off" key,
  eq_iff key "off",
)

built_in-Resolves : (flag : Flag) (key : String) → built_in flag key ≢ none → Resolves flag key
unfolding variant_value
built_in-Resolves flag key h e p = ground arith

found-Resolves :
    (flag : Flag) (key : String) {raw : String}
    → find_variant key flag.variants ≡ ok raw
    → Resolves flag key
unfolding variant_value
found-Resolves flag key h e p = ground arith

-- An outcome that `Evaluate` resolves: one of a rule, or a fallthrough that is not empty.
abbrev pub IsUsed : Outcome → Bool → Type 0
IsUsed o required = (required ≡ true) ⊎ (outcome_empty o ≡ false)

validated_rollout :
    (o : Outcome) (allowed : List String) (required : Bool)
    → is_blank o.variant ≡ true
    → validate_outcome o allowed required ≡ ok tt
    → IsUsed o required
    → (validate_rollout allowed (pos 0) o.rollout ≡ ok tt) × (is_nil o.rollout ≡ false)
unfolding validate_outcome outcome_empty
validated_rollout o allowed required blank h used = ground arith

validated_variant :
    (o : Outcome) (allowed : List String) (required : Bool)
    → is_blank o.variant ≡ false
    → validate_outcome o allowed required ≡ ok tt
    → member allowed o.variant ≡ true
unfolding validate_outcome
validated_variant o allowed required blank h = ground arith

bind-NotParse {ℓ κ} :
    {A : Type ℓ} {B : Type κ} (m : Result EvaluationError A) (f : A → Result EvaluationError B)
    → NotParse m
    → ((a : A) → NotParse (f a))
    → NotParse (m >>= f)
bind-NotParse (ok a) f h k = k a
bind-NotParse (err e) f h k = λ e' p. h e' (ground arith)

NeverFails-NotParse {ℓ} : {A : Type ℓ} (m : Result EvaluationError A) → NeverFails m → NotParse m
NeverFails-NotParse m h e p = absurd (h e p)

module _ (rt : Runtime) where
  find_allowed :
      (kind : Kind) (allowed : List String) (vs : List Variant) (final : List String) (key : String)
      → validate_variants rt kind allowed vs ≡ ok final
      → All (λ (v : Variant). trim_space v.key ≡ v.key) vs
      → member final key ≡ true
      → (member allowed key ≡ true) ⊎ ((raw : String) × (find_variant key vs ≡ ok raw))
  unfolding validate_variants find_variant
  find_allowed kind allowed [] final key h trimmed m = inl (ground arith)
  find_allowed kind allowed (v ∷ vs) final key h (t, ts) m =
      let k = trim_space v.key in
      let (_, _, h1) = >>=-eq-ok (guard (not (is_empty k)) variant_key_required) _ h in
      let (_, _, h2) =
        >>=-eq-ok (guard (not (member allowed k)) (variant_reserved_or_duplicated k)) _ h1 in
      let (_, _, h3) = >>=-eq-ok (wrap (in_variant k) (validate_value_kind rt kind v.value)) _ h2 in
      elim (Bool-cases (v.key == key)) [
        | inl same ↦ inr (v.value, rw same)
        | inr other ↦ elim (find_allowed kind (k ∷ allowed) vs final key h3 ts m) [
          | inl before ↦ inl (ground arith)
          | inr (raw, found) ↦ inr (raw, rw other found)
        ]
      ]

  pub allowed-Resolves :
      (flag : Flag) (final : List String) (key : String)
      → validate_variants rt flag.kind (reserved_variants flag.kind) flag.variants ≡ ok final
      → HasTrimmedKeys flag
      → member final key ≡ true
      → Resolves flag key
  allowed-Resolves flag final key h trimmed m =
      elim (find_allowed flag.kind (reserved_variants flag.kind) flag.variants final key h trimmed
        m) [
          | inl reserved ↦ built_in-Resolves flag key (reserved-built_in flag key reserved)
          | inr (raw, found) ↦ found-Resolves flag key found
        ]

  resolve_pick-NeverFails :
      (flag : Flag) (allowed : List String) (n : ℕ) (total : ℤ) (rs : List Allocation)
      → ((key : String) → member allowed key ≡ true → Resolves flag key)
      → rs ≢ []
      → validate_rollout allowed total rs ≡ ok tt
      → n < bucket_scale
      → NeverFails (resolve_pick flag (pick n total rs))
  resolve_pick-NeverFails flag allowed n total [] all some_left h lt = absurd (some_left refl)
  resolve_pick-NeverFails flag allowed n total (a ∷ rest) all some_left h lt =
      let (b, found, known) = pick-total allowed total a rest n h lt in
      rw found (
        bind-NeverFails (variant_value flag b.variant) _ (all b.variant known)
          (λ v _ e. ground arith))

  bucket_value-NotParse : (ctx : Context) (path : String) → NotParse (bucket_value rt ctx path)
  unfolding bucket_value
  bucket_value-NotParse ctx path e h = ground arith

  bucket-lt : (e f v : String) → bucket rt e f v < bucket_scale
  unfolding bucket
  bucket-lt e f v = omega arith

  pub resolve_outcome-NotParse :
      (flag : Flag) (o : Outcome) (ctx : Context) (allowed : List String) (required : Bool)
      → ((key : String) → member allowed key ≡ true → Resolves flag key)
      → HasPlainVariant o
      → validate_outcome o allowed required ≡ ok tt
      → IsUsed o required
      → NotParse (resolve_outcome rt flag o ctx)
  unfolding resolve_outcome
  resolve_outcome-NotParse flag o ctx allowed required all plain h used =
      elim (Bool-cases (is_empty o.variant)) [
        | inl empty ↦
            let (rollout, some_left) =
              validated_rollout o allowed required (plain ∙ empty) h used in
            rw (empty, resolve_outcome)
              (bind-NotParse (bucket_value rt ctx o.bucket_by) _
                (bucket_value-NotParse ctx o.bucket_by)
                (λ b.
                  NeverFails-NotParse
                    (resolve_pick flag
                      (pick (bucket rt flag.environment_id flag.id b) (pos 0) o.rollout))
                    (resolve_pick-NeverFails flag allowed _ (pos 0) o.rollout all
                      (λ nil. ground arith) rollout (bucket-lt flag.environment_id flag.id b))))
        | inr filled ↦
            let known = validated_variant o allowed required (plain ∙ filled) h in
            rw (filled, resolve_outcome)
              (bind-NotParse (variant_value flag o.variant) _
                (NeverFails-NotParse (variant_value flag o.variant) (all o.variant known))
                (λ v e. ground arith))
      ]
