-- ===== src/Tests/Evaluating.antt =====
-- Evaluation of the demo flag.
use flagstack.Evaluation.SegmentSet.Fuel.{validate_segment_set-ends}
use flagstack.Evaluation.Decode.{validate_value_kind, decode_raw}
use flagstack.Evaluation.Matching.Fuel.{rule_matches-ends}
use flagstack.Evaluation.SegmentSet.Acyclic.{validate_segment_set_sound}
use flagstack.Evaluation.Evaluate.Accepted.{NoParseError, evaluate-NoParseError}
use flagstack.Evaluation.Matching.{match_segment, index_segments, parse_failure}
use flagstack.Evaluation.Evaluate.Rollout.{Picks, pick-total}
use flagstack.Evaluation.Types.{Allocation, Segment, match_all, out_of_fuel}
use flagstack.Evaluation.SegmentSet.Accepted.{NeverFails}
use flagstack.Evaluation.Evaluate.Kinds.{HasKind, evaluate-HasKind}
use flagstack.Evaluation.Evaluate.{evaluate, pick, rule_matches}
use flagstack.Evaluation.SegmentSet.{
  validate_segment_set, build_index, check_references, visit_all, visit,
}
use flagstack.Evaluation.Validate.{
  validate_flag, validate_variants, validate_rules, validate_outcome, validate_rollout,
  validate_conditions, validate_condition, validate_reference, valid_kind, validate_match_mode,
}
use flagstack.Tests.Demo.{
  demo, demo_context, demo_flag, demo_segments, in_beta, demo_policy, demo-DecodesBooleans,
  keys_in_order, demo-MatchesCompiled, keys_in_order-Covers,
}
use flagstack.Common.{
  [], ◌∷◌, add_int, ◌≡◌, ◌≢◌, ok, err, arith, refl, suc, trim_space, is_blank, pos, length,
}

demo_flag-valid : validate_flag demo demo_flag ≡ ok tt
unfolding validate_flag validate_variants validate_rules validate_outcome validate_rollout
    validate_conditions validate_condition validate_reference validate_value_kind decode_raw
    valid_kind validate_match_mode is_blank trim_space add_int
demo_flag-valid = refl

pub demo_segments-valid : validate_segment_set demo keys_in_order demo_segments ≡ ok tt
unfolding validate_segment_set build_index check_references visit_all visit
    flagstack.Evaluation.Validate.validate_segment is_blank validate_match_mode validate_conditions
    validate_condition validate_reference decode_raw
    flagstack.Evaluation.SegmentSet.validate_portable_conditions flagstack.Common.lookup
    flagstack.Evaluation.Validate.validate_comparison flagstack.Evaluation.Validate.operand
    flagstack.Common.insert flagstack.Evaluation.SegmentSet.all_known
    flagstack.Evaluation.SegmentSet.segment_references
demo_segments-valid = refl

-- The staff member is in the segment that refers to another one; the bucket decides on the variant.
demo-run : (evaluate demo demo_flag demo_context demo_segments).variant ≡ "default"
unfolding evaluate validate_flag is_blank valid_kind validate_value_kind decode_raw
    validate_variants validate_rules validate_match_mode validate_conditions validate_condition
    validate_reference validate_outcome validate_rollout add_int
    flagstack.Evaluation.Evaluate.validate_segments flagstack.Evaluation.Validate.validate_segment
    flagstack.Evaluation.Validate.validate_comparison flagstack.Common.insert
    flagstack.Common.lookup flagstack.Common.has_suffix trim_space
    flagstack.Evaluation.Evaluate.bucket flagstack.Evaluation.Evaluate.evaluate_rules
    flagstack.Evaluation.Evaluate.find_variant flagstack.Evaluation.Evaluate.outcome_empty pick
    flagstack.Evaluation.Evaluate.resolve_outcome rule_matches
    flagstack.Evaluation.Evaluate.variant_value flagstack.Evaluation.Matching.compare_values
    flagstack.Evaluation.Matching.condition_matches index_segments
    flagstack.Evaluation.Matching.match_all_of flagstack.Evaluation.Matching.match_any_of
    flagstack.Evaluation.Matching.match_conditions match_segment
    flagstack.Evaluation.Matching.segment_condition flagstack.Evaluation.Validate.operand
    flagstack.Evaluation.Values.bucket_value flagstack.Evaluation.Values.context_value
    flagstack.Evaluation.Values.field flagstack.Common.split
demo-run = refl

evaluate-NoParseError_example : NoParseError (evaluate demo demo_flag demo_context demo_segments)
unfolding trim_space is_blank
evaluate-NoParseError_example =
    evaluate-NoParseError demo keys_in_order demo_flag demo_context demo_segments
      demo-MatchesCompiled keys_in_order-Covers demo_flag-valid demo_segments-valid (refl, tt)
      ((refl, tt), refl)

evaluate-HasKind_example :
    HasKind demo demo_flag.kind (evaluate demo demo_flag demo_context demo_segments).value
evaluate-HasKind_example =
    evaluate-HasKind demo demo_flag demo_context demo_segments demo-DecodesBooleans demo_flag-valid

validate_segment_set_sound_example : NeverFails (
    match_segment demo demo_context
      (index_segments [] demo_segments)
      (suc (length (index_segments [] demo_segments)))
      []
      "beta")
validate_segment_set_sound_example =
    validate_segment_set_sound demo keys_in_order demo_segments demo-MatchesCompiled
      keys_in_order-Covers demo_segments-valid demo_context "beta"

abbrev looping : Segment
looping = record { key = "beta"; name = "Beta"; mode = match_all; conditions = in_beta ∷ [] }

rule_matches-ends_example :
    rule_matches demo demo_context (looping ∷ []) (record {
      id = "rule-1";
      name = "";
      mode = match_all;
      conditions = in_beta ∷ [];
      outcome = demo_policy.fallthrough;
    })
    ≢ err (parse_failure out_of_fuel)
rule_matches-ends_example = rule_matches-ends demo demo_context (looping ∷ []) (record {
  id = "rule-1";
  name = "";
  mode = match_all;
  conditions = in_beta ∷ [];
  outcome = demo_policy.fallthrough;
})

abbrev first_half : Allocation
first_half = record { variant = "blue"; weight = pos 50_000 }

abbrev second_half : Allocation
second_half = record { variant = "default"; weight = pos 50_000 }

pick-total_example : Picks ("blue" ∷ "default" ∷ []) 51_207 (pos 0) (first_half ∷ second_half ∷ [])
unfolding validate_rollout add_int
pick-total_example =
    pick-total ("blue" ∷ "default" ∷ []) (pos 0) first_half (second_half ∷ []) 51_207 refl
      (omega arith)

validate_segment_set-ends_example :
    validate_segment_set demo keys_in_order (looping ∷ []) ≢ err out_of_fuel
validate_segment_set-ends_example = validate_segment_set-ends demo keys_in_order (looping ∷ [])
