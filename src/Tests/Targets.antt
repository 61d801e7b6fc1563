-- ===== src/Tests/Targets.antt =====
-- A database with the demo flag, and a scheduled change on it.
use flagstack.Targeting.Schedules.Applied.{IsPatched, apply_claimed-patches}
use flagstack.Targeting.Service.Segments.{service_create_segment-valid}
use flagstack.Evaluation.SegmentSet.{validate_segment_set}
use flagstack.Targeting.Schedules.Lease.{claim-supersedes}
use flagstack.Tests.Demo.{demo, demo_policy, demo_segments, demo_variants, keys_in_order, in_beta}
use flagstack.Targeting.Schedules.{
  apply_claimed, claim, apply_patch, claim_row, eligible, fail_claimed,
}
use flagstack.Targeting.Types.{
  Segment, Database, EnvironmentState, ScheduledChange, Status, not_singular, SegmentInput,
  ConfigRow,
}
use flagstack.Targeting.Service.{Environment, service_create_segment}
use flagstack.Targeting.Repository.{
  Store, list_segments, parse_id, put_policy, new_segment, segment_of, DeepEqualIsEqual,
  parse_environment_flag_scope, new_config, parse_flag_scope, is_config,
}
use flagstack.Evaluation.Types.{text, match_all}
use flagstack.Evaluation.Types
use flagstack.Common.{
  [], ◌∷◌, ◌≡◌, ◌≢◌, ok, some, none, true, false, if◌then◌else◌, refl, sym, Option, trim_space,
  is_blank, map, true-ne-false, String, eq_iff, ◌++◌, List, filter,
}

-- Takes every text as a UUID but the blank ones, and no two policies as deeply equal.
abbrev pub store : Store
store = record {
  parse_uuid = λ s. if is_blank s then none else some s;
  deep_equal_policy = λ a b. false;
  deep_equal_variants = λ a b. false;
}

abbrev service : Environment
service = record { runtime = demo; store = store; order = keys_in_order; to_lower = λ s. s }

store-DeepEqualIsEqual : DeepEqualIsEqual store
store-DeepEqualIsEqual a b h = absurd (true-ne-false (sym h))

abbrev segment_row : Types.Segment → Segment
segment_row s = record {
  id = s.key;
  organisation_id = "o";
  project_id = "p";
  name = s.name;
  key = s.key;
  description = "";
  mode = s.mode;
  conditions = s.conditions;
  archived = false;
}

abbrev change : ScheduledChange
change = record {
  id = "change-1";
  organisation_id = "o";
  project_id = "p";
  environment_id = "e";
  feature_flag_id = "flag-1";
  created_by_user_id = "";
  execute_at = 100;
  patch = record { enabled = some true; policy = none };
  status = Status.pending;
  claim_token = none;
  claimed_at = none;
  executed_at = none;
  last_error = none;
}

abbrev pub database : Database
database = record {
  projects = (record { id = "p"; organisation_id = "o"; archived = false }) ∷ [];
  environments =
      (record { id = "e"; organisation_id = "o"; project_id = "p"; key = "production" }) ∷ [];
  flags =
      (record {
        id = "flag-1";
        organisation_id = "o";
        project_id = "p";
        key = "colour";
        kind = text;
        default_value = "\"d\"";
        variants = demo_variants;
        client_visible = true;
        archived = false;
      })
      ∷ [];
  configs = [];
  segments = map segment_row demo_segments;
  schedules = change ∷ [];
}

abbrev stored : EnvironmentState × Database
stored = put_policy store "o" "p" "e" "flag-1" demo_policy database none

abbrev claimed : Option ScheduledChange × Database
claimed = (
  some (claim_row "token-1" 200 change),
  record database { schedules = claim_row "token-1" 200 change ∷ [] },
)

claimed-run : claim 200 "token-1" change database ≡ claimed
unfolding claim eligible
claimed-run = refl

abbrev executed_change : ScheduledChange
executed_change = record (claim_row "token-1" 200 change) {
  status = Status.executed;
  executed_at = some 201;
  last_error = none;
}

abbrev applied : Database
applied = record database {
  configs = apply_patch store "o" "p" "e" "flag-1" change.patch none [];
  schedules = executed_change ∷ [];
}

tokens-differ : Path String "token-1" "token-0" → ⊥
tokens-differ h = true-ne-false (sym ((eq_iff "token-1" "token-0").1 h))

claim-supersedes_example :
    (apply_claimed store 900 (claim_row "token-0" 50 change) claimed.1 ≢ ok applied)
    × (fail_claimed store (claim_row "token-0" 50 change) not_singular claimed.1 ≢ ok applied)
unfolding parse_id is_blank
claim-supersedes_example =
    claim-supersedes store 200 900 "token-1" "token-0" change (claim_row "token-1" 200 change)
      (claim_row "token-0" 50 change) not_singular database claimed.1 applied refl claimed-run refl
      refl tokens-differ

abbrev extra : SegmentInput
extra = record {
  name = "Extra";
  key = "extra";
  description = "";
  mode = match_all;
  conditions = in_beta ∷ [];
}

abbrev extended : Database
extended = record database {
  segments = database.segments ++ new_segment "extra-id" "o" "p" extra ∷ [];
}

created-run :
    service_create_segment service "extra-id" "o" "p" extra database
    ≡ ok (new_segment "extra-id" "o" "p" extra, extended)
unfolding service_create_segment flagstack.Targeting.Service.normalize_segment_input trim_space
    is_blank flagstack.Targeting.Service.matches_key flagstack.Targeting.Service.key_rest
    flagstack.Common.byte_length flagstack.Targeting.Service.key_or_validation
    flagstack.Evaluation.Validate.validate_segment flagstack.Evaluation.Validate.validate_match_mode
    flagstack.Evaluation.Validate.validate_conditions
    flagstack.Evaluation.Validate.validate_condition
    flagstack.Evaluation.Validate.validate_reference flagstack.Evaluation.Decode.decode_raw
    list_segments flagstack.Targeting.Repository.parse_project_scope parse_id
    flagstack.Evaluation.SegmentSet.validate_segment_set flagstack.Evaluation.SegmentSet.build_index
    flagstack.Evaluation.SegmentSet.validate_portable_conditions flagstack.Common.lookup
    flagstack.Common.insert flagstack.Evaluation.Validate.validate_comparison
    flagstack.Evaluation.Validate.operand flagstack.Evaluation.SegmentSet.check_references
    flagstack.Evaluation.SegmentSet.all_known flagstack.Evaluation.SegmentSet.segment_references
    flagstack.Evaluation.SegmentSet.visit_all flagstack.Evaluation.SegmentSet.visit
    flagstack.Targeting.Repository.create_segment
created-run = refl

service_create_segment-valid_example :
    (segments : List Segment) × (list_segments store "o" "p" extended ≡ ok segments)
    × (validate_segment_set demo keys_in_order (map segment_of segments) ≡ ok tt)
service_create_segment-valid_example =
    service_create_segment-valid service "extra-id" "o" "p" extra
      (new_segment "extra-id" "o" "p" extra) database extended created-run

abbrev config_row : ConfigRow
config_row = new_config "o" "p" "e" "flag-1" demo_policy

abbrev configured : Database
configured = record claimed.1 { configs = config_row ∷ [] }

abbrev patched_database : Database
patched_database = record configured {
  configs = (record config_row { enabled = true; revision = 2 }) ∷ [];
  schedules = executed_change ∷ [];
}

patched-run :
    apply_claimed store 201 (claim_row "token-1" 200 change) configured ≡ ok patched_database
unfolding apply_claimed flagstack.Targeting.Repository.parse_environment_flag_scope
    flagstack.Targeting.Repository.parse_flag_scope
    flagstack.Targeting.Repository.parse_project_scope parse_id is_blank
    flagstack.Targeting.Schedules.is_claimed flagstack.Targeting.Schedules.patch_config
patched-run = refl

apply_claimed-patches_example :
    (r : ConfigRow) × (filter (is_config "o" "p" "e" "flag-1") patched_database.configs ≡ r ∷ [])
    × IsPatched change.patch config_row r
unfolding parse_environment_flag_scope parse_flag_scope
    flagstack.Targeting.Repository.parse_project_scope parse_id is_blank
apply_claimed-patches_example =
    apply_claimed-patches store 201 (claim_row "token-1" 200 change) configured patched_database "o"
      "p" "e" "flag-1" config_row store-DeepEqualIsEqual refl refl patched-run
