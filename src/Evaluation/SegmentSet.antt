-- ===== src/Evaluation/SegmentSet.antt =====
-- backend/internal/evaluation/validation.go and portability.go: validation before a configuration
-- is stored. Each loop over a Go map takes the order in which it runs through the keys.
pub mod Order
pub mod Accepted
pub mod Acyclic
pub mod Definition
pub mod Fuel
use flagstack.Common.{
  ℕ, zero, suc, String, Bool, false, not, Option, none, some, List, [], ◌∷◌, ◌++◌, if◌then◌else◌,
  Result, ok, err, ◌>>=◌, ◌>>◌, guard, wrap, member, is_blank, contains_text, lookup, insert,
  is_some, length, map,
}
use flagstack.Evaluation.Types.{
  Value, Kind, Condition, Operator, matches_regex, in_segment, not_in_segment, Segment, Variant,
  Rule, Policy, Fault, in_rule, invalid_regex, regex_not_string, posix_class, duplicate_segment,
  unknown_segment, segment_cycle, out_of_fuel,
}
use flagstack.Evaluation.Runtime.{Runtime}
use flagstack.Evaluation.Decode.{decode_raw}
use flagstack.Evaluation.Matching.{as_string}
use flagstack.Evaluation.Validate.{validate_flag, validate_segment}

-- Conditions of an entry of a map; the zero `Segment` of a missing key has none.
abbrev pub conditions_of : Option Segment → List Condition
conditions_of none = []
conditions_of (some s) = s.conditions

abbrev pub reference_key : Option String → List String
reference_key none = []
reference_key (some s) = if is_blank s then [] else s ∷ []

abbrev pub decoded_reference : Result Fault Value → List String
decoded_reference (err e) = []
decoded_reference (ok v) = reference_key (as_string v)

-- The loops over references; `context` is what an unknown one is reported with.
unfoldable pub all_known : (String → Bool) → String → List String → Result Fault (Unit {0})
all_known known context [] = ok tt
all_known known context (k ∷ ks) =
    guard (known k) (unknown_segment context k) >> all_known known context ks

-- A loop that threads `visited`.
unfoldable pub visit_all :
    (List String → String → Result Fault (List String))
    → List String
    → List String
    → Result Fault (List String)
visit_all visit visited [] = ok visited
visit_all visit visited (k ∷ ks) = do visited' ← visit visited k; visit_all visit visited' ks

module _ (rt : Runtime) where
  unfoldable pub validate_regex_pattern : String → Result Fault (Unit {0})
  validate_regex_pattern pattern = do
    guard (not (contains_text pattern "[[:")) posix_class
    guard (rt.compiles pattern) (invalid_regex pattern)

  abbrev pub pattern_value : Option String → Result Fault (Unit {0})
  pattern_value none = err regex_not_string
  pattern_value (some pattern) = validate_regex_pattern pattern

  abbrev pub portable_with : Operator → Condition → Result Fault (Unit {0})
  portable_with matches_regex c = do v ← decode_raw rt c.value; pattern_value (as_string v)
  portable_with _ c = ok tt

  unfoldable pub validate_portable_conditions : List Condition → Result Fault (Unit {0})
  validate_portable_conditions [] = ok tt
  validate_portable_conditions (c ∷ cs) =
      portable_with c.operator c >> validate_portable_conditions cs

  unfoldable pub validate_portable_rules : List Rule → Result Fault (Unit {0})
  validate_portable_rules [] = ok tt
  validate_portable_rules (r ∷ rs) =
      wrap (in_rule r.id) (validate_portable_conditions r.conditions) >> validate_portable_rules rs

  unfoldable pub validate_portable_policy : Policy → Result Fault (Unit {0})
  validate_portable_policy policy = validate_portable_rules policy.rules

  unfoldable pub validate_definition :
      Kind → String → List Variant → Policy → Result Fault (Unit {0})
  validate_definition kind default variants policy = do
    validate_flag rt (record {
      id = "validation-flag";
      environment_id = "validation-environment";
      key = "";
      kind = kind;
      default_value = default;
      enabled = false;
      variants = variants;
      policy = policy;
    })
    validate_portable_policy policy

  abbrev pub reference_with : Operator → Condition → List String
  reference_with in_segment c = decoded_reference (decode_raw rt c.value)
  reference_with not_in_segment c = decoded_reference (decode_raw rt c.value)
  reference_with _ c = []

  unfoldable pub segment_references : List Condition → List String
  segment_references [] = []
  segment_references (c ∷ cs) = reference_with c.operator c ++ segment_references cs

  -- The first loop of `ValidateSegmentSet`; the result is `index`.
  unfoldable pub build_index :
      List (String × Segment) → List Segment → Result Fault (List (String × Segment))
  build_index index [] = ok index
  build_index index (s ∷ ss) = do
    validate_segment rt s
    wrap (Fault.in_segment s.key) (validate_portable_conditions s.conditions)
    guard (not (is_some (lookup s.key index))) (duplicate_segment s.key)
    build_index (insert s.key s index) ss

  unfoldable pub check_references : List (String × Segment) → List Segment → Result Fault (Unit {0})
  check_references index [] = ok tt
  check_references index (s ∷ ss) =
      all_known (λ k. is_some (lookup k index)) s.key (segment_references s.conditions)
      >> check_references index ss

  -- `visit`. `visiting` holds the keys that are set in the source's map: each is deleted when its
  -- own call returns with no error. The fuel bounds how deep the calls are nested.
  unfoldable pub visit :
      List (String × Segment) → ℕ → List String → List String → String → Result Fault (List String)
  visit index zero visiting visited key = err out_of_fuel
  visit index (suc fuel) visiting visited key =
      if member visited key
      then ok visited
      else if member visiting key
      then err (segment_cycle key)
      else (visit_all (visit index fuel (key ∷ visiting)) visited
            (segment_references (conditions_of (lookup key index)))
          >>= λ visited'. ok (key ∷ visited'))

  -- `order` is the order of `range index`.
  unfoldable pub validate_segment_set :
      (List (String × Segment) → List String) → List Segment → Result Fault (Unit {0})
  validate_segment_set order segments = do
    index ← build_index [] segments
    check_references index segments
    visited ← visit_all (visit index (suc (suc (length index))) []) [] (order index)
    ok tt

  unfoldable pub check_rule_references : (String → Bool) → List Rule → Result Fault (Unit {0})
  check_rule_references known [] = ok tt
  check_rule_references known (r ∷ rs) =
      all_known known r.id (segment_references r.conditions) >> check_rule_references known rs

  unfoldable pub validate_policy_segments : Policy → List Segment → Result Fault (Unit {0})
  validate_policy_segments policy segments = do
    validate_portable_policy policy
    let known = map (λ (s : Segment). s.key) segments
    check_rule_references (member known) policy.rules
