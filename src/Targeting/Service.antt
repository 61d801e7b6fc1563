-- ===== src/Targeting/Service.antt =====
-- backend/internal/targeting/targeting.go: the service.
pub mod Stored
pub mod Preview
pub mod Segments
use flagstack.Evaluation.Validate.{validate_segment}
use flagstack.Evaluation.Evaluate.{evaluate}
use flagstack.Evaluation.SegmentSet.{
  validate_definition, validate_policy_segments, validate_segment_set,
}
use flagstack.Targeting.Schedules.{
  apply_claimed, fail_claimed, claim_due_scheduled_changes, create_scheduled_change,
}
use flagstack.Targeting.Repository.{
  Store, segment_of, Reply, get_flag_state, load_evaluation, list_segments, set_policy, found,
  no_policy, set_variants, create_segment, update_segment,
}
use flagstack.Targeting.Types.{
  Segment, CreateScheduleInput, ScheduledChange, SegmentInput, Database, FlagState, TargetingError,
  EnvironmentState, evaluation_fault, invalid, invalid_definition, required, segment_not_found,
  in_past, too_long, bad_key, no_change,
}
use flagstack.Evaluation.Runtime.{Runtime}
use flagstack.Evaluation.Types.{
  Context, Fault, MatchMode, Policy, Variant, Flag, match_all, EvalResult,
}
use Prim.Native.Char.{code}
use flagstack.Evaluation.Types
use flagstack.Common.{
  byte_length, [], ◌∷◌, String, Bool, ◌++◌, ◌==◌, ◌&&◌, ◌||◌, ◌+◌, ok, err, some, none, true, false,
  if◌then◌else◌, ◌>>=◌, ◌>>◌, ℕ, List, Option, Result, eqb, is_empty, leb, ltb, ℤ, lt_int,
  trim_space, wrap, guard, is_nil, pos, not, pos_part, map, is_some, is_lower_or_digit,
}

-- What the service uses of other packages: the evaluator's, the repository's, the order of
-- `range` on a segment index, and strings.ToLower.
pub record Environment : Type 0 where
  pub runtime : Runtime
  pub store : Store
  pub order : List (String × Types.Segment) → List String
  pub to_lower : String → String

-- [a-z0-9._-]
abbrev is_key_char : ℕ → Bool
is_key_char c = is_lower_or_digit c || eqb c 46 || eqb c 95 || eqb c 45

-- The group behind the first character of `keyPattern`, without the bound on its length.
unfoldable pub key_rest : String → Bool
key_rest String.[] = true
key_rest (String.◌∷◌ c s) =
    let rest = key_rest s in
    if is_empty s then is_lower_or_digit (code c) else is_key_char (code c) && rest

-- `keyPattern.MatchString`
unfoldable pub matches_key : String → Bool
matches_key String.[] = false
matches_key (String.◌∷◌ c s) = is_lower_or_digit (code c) && key_rest s && leb (byte_length s) 127

unfoldable pub key_or_validation : String → String
key_or_validation key = if is_empty key then "validation-segment" else key

-- `match == ""` becomes `all`
abbrev pub mode_or_all : MatchMode → MatchMode
mode_or_all (MatchMode.other s) = if is_empty s then match_all else MatchMode.other s
mode_or_all mode = mode

-- `&ValidationError{Field: field, Message: err.Error()}`
abbrev pub as_invalid : String → Result Fault (Unit {0}) → Result TargetingError (Unit {0})
as_invalid field r = wrap (λ fault. invalid field (invalid_definition fault)) r

abbrev pub validate_environments :
    Runtime → FlagState → List Variant → List EnvironmentState → Result TargetingError (Unit {0})
validate_environments rt state variants [] = ok tt
validate_environments rt state variants (e ∷ es) =
    as_invalid "variants" (validate_definition rt state.kind state.default_value variants e.policy)
    >> validate_environments rt state variants es

abbrev pub evaluation_segment : SegmentInput → Types.Segment
evaluation_segment input = record {
  key = input.key;
  name = input.name;
  mode = input.mode;
  conditions = input.conditions;
}

-- The loop of `UpdateSegment` over the existing segments: `candidate`.
unfoldable pub replace_segment : String → SegmentInput → List Segment → List Types.Segment
replace_segment id input [] = []
replace_segment id input (s ∷ ss) =
    (if s.id == id then evaluation_segment input else segment_of s) ∷ replace_segment id input ss

-- The first segment with the id.
abbrev pub find_segment : String → List Segment → Option Segment
find_segment id [] = none
find_segment id (s ∷ ss) = if s.id == id then some s else find_segment id ss

module _ (env : Environment) where
  unfoldable pub normalize_segment_input : SegmentInput → Bool → Result TargetingError SegmentInput
  normalize_segment_input input require_key = do
    let name = trim_space input.name
    guard (not (is_empty name)) (invalid "name" required)
    guard (leb (byte_length name) 160) (invalid "name" too_long)
    let key = env.to_lower (trim_space input.key)
    guard (not (require_key || not (is_empty key)) || matches_key key) (invalid "key" bad_key)
    let description = trim_space input.description
    guard (leb (byte_length description) 2000) (invalid "description" too_long)
    let mode = mode_or_all input.mode
    as_invalid "conditions" (
        validate_segment env.runtime (record {
          key = key_or_validation key;
          name = name;
          mode = mode;
          conditions = input.conditions;
        }))
    ok (record {
      name = name;
      key = key;
      description = description;
      mode = mode;
      conditions = input.conditions;
    })

  unfoldable pub service_set_variants :
      String → String → String → List Variant → Database → Reply FlagState
  service_set_variants organisation project flag variants db = do
    state ← get_flag_state env.store db organisation project flag
    validate_environments env.runtime state variants state.environments
    (if is_nil state.environments
        then as_invalid "variants"
            (validate_definition env.runtime state.kind state.default_value variants no_policy)
        else ok tt)
    set_variants env.store organisation project flag variants db

  -- The checks of a policy that `SetPolicy` and `CreateScheduledChange` make.
  abbrev pub check_policy :
      String → String → String → String → Policy → Database → Result TargetingError (Unit {0})
  check_policy field organisation project flag policy db = do
    state ← get_flag_state env.store db organisation project flag
    as_invalid field
        (validate_definition env.runtime state.kind state.default_value state.variants policy)
    segments ← list_segments env.store organisation project db
    as_invalid field (validate_policy_segments env.runtime policy (map segment_of segments))

  unfoldable pub service_set_policy :
      String → String → String → String → Policy → Database → Reply EnvironmentState
  service_set_policy organisation project environment flag policy db = do
    check_policy "policy" organisation project flag policy db
    set_policy env.store organisation project environment flag policy db

  unfoldable pub preview :
      String → String → String → String → Context → Database → Result TargetingError EvalResult
  preview organisation project environment flag ctx db = do
    (f, segments) ← load_evaluation env.store organisation project environment flag db
    ok (evaluate env.runtime f ctx segments)

  unfoldable pub service_create_segment :
      String → String → String → SegmentInput → Database → Reply Segment
  service_create_segment id organisation project input db = do
    normalized ← normalize_segment_input input true
    existing ← list_segments env.store organisation project db
    as_invalid "conditions" (
        validate_segment_set env.runtime env.order
          (map segment_of existing ++ evaluation_segment normalized ∷ []))
    create_segment env.store id organisation project normalized db

  unfoldable pub service_update_segment :
      String → String → String → SegmentInput → Database → Reply Segment
  service_update_segment organisation project segment input db = do
    normalized ← normalize_segment_input input false
    existing ← list_segments env.store organisation project db
    current ← found segment_not_found (find_segment segment existing)
    let keyed =
        if is_empty normalized.key then record normalized { key = current.key } else normalized
    as_invalid "conditions"
        (validate_segment_set env.runtime env.order (replace_segment segment keyed existing))
    update_segment env.store organisation project segment keyed db

  abbrev pub check_patch_policy :
      String → String → String → Option Policy → Database → Result TargetingError (Unit {0})
  check_patch_policy organisation project flag none db = ok tt
  check_patch_policy organisation project flag (some policy) db =
      check_policy "patch.policy" organisation project flag policy db

  -- `now` is `time.Now`; `zero_time` tests for Go's zero time.
  unfoldable pub service_create_scheduled_change :
      ℕ
      → (ℕ → Bool)
      → String
      → String
      → String
      → CreateScheduleInput
      → Database
      → Reply ScheduledChange
  service_create_scheduled_change now zero_time id organisation project input db = do
    guard (not (zero_time input.execute_at)) (invalid "execute_at" required)
    guard (ltb now input.execute_at) (invalid "execute_at" in_past)
    guard (is_some input.patch.enabled || is_some input.patch.policy) (invalid "patch" no_change)
    check_patch_policy organisation project input.feature_flag_id input.patch.policy db
    create_scheduled_change env.store id organisation project input db

  abbrev pub validate_patch_policy :
      Option Policy → Flag → List Types.Segment → Result TargetingError (Unit {0})
  validate_patch_policy none flag segments = ok tt
  validate_patch_policy (some policy) flag segments = do
    wrap evaluation_fault
        (validate_definition env.runtime flag.kind flag.default_value flag.variants policy)
    wrap evaluation_fault (validate_policy_segments env.runtime policy segments)

  unfoldable pub validate_claimed_change :
      ScheduledChange → Database → Result TargetingError (Unit {0})
  validate_claimed_change change db = do
    (flag, segments) ←
        load_evaluation env.store change.organisation_id change.project_id change.environment_id
          change.feature_flag_id db
    validate_patch_policy change.patch.policy flag segments

  -- `_ = FailClaimedScheduledChange(…)`
  abbrev pub fail_ignored : ScheduledChange → TargetingError → Database → Database
  fail_ignored change why db = elim (fail_claimed env.store change why db) [
    | ok db' ↦ db'
    | err e ↦ db
  ]

  abbrev pub settle : ScheduledChange → Database → Result TargetingError Database → ℕ × Database
  settle change db (ok db') = (1, db')
  settle change db (err e) = (0, fail_ignored change e db)

  -- One round of the loop of `RunDueScheduledChanges`: 1 if the change is completed.
  unfoldable pub run_change : ℕ → ScheduledChange → Database → ℕ × Database
  run_change now change db =
      settle change db (validate_claimed_change change db >> apply_claimed env.store now change db)

  unfoldable pub run_changes : ℕ → List ScheduledChange → Database → ℕ × Database
  run_changes now [] db = (0, db)
  run_changes now (change ∷ rest) db =
      let (one, db1) = run_change now change db in
      let (more, db2) = run_changes now rest db1 in (one + more, db2)

  unfoldable pub run_due_scheduled_changes :
      (List ScheduledChange → List ScheduledChange) → ℕ → ℤ → List String → Database → ℕ × Database
  run_due_scheduled_changes by_due now limit tokens db =
      let bound = if lt_int (pos 0) limit then pos_part limit else 50 in
      let (changes, db') = claim_due_scheduled_changes by_due now bound tokens db in
      run_changes now changes db'
