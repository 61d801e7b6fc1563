-- ===== src/Tests/Credentials.antt =====
-- The credentials of the SDKs.
use flagstack.Targeting.Types.{Database, FlagRow}
use flagstack.Sdkconfig.Repository.Refined.{replay, events, opens_refines_replay}
use flagstack.Sdkconfig.Repository.Hidden.{configuration_for_key-set_client_visible}
use flagstack.Targeting.Service.Stored.{HasUniqueFlags}
use flagstack.Sdkconfig.Repository.Visible.{IsServed, configuration_for_key-IsServed}
use flagstack.Evaluation.Types.{text}
use flagstack.Sdkconfig.Repository.Opens.{opens}
use flagstack.Sdkconfig.Repository.Roundtrip.{authenticate_key-service_create_credential}
use flagstack.Tests.Demo.{demo, keys_in_order, demo_variants}
use flagstack.Sdkconfig.Service.{Platform, authenticate_key, configuration_for_key}
use flagstack.Sdkconfig.Repository.Keys.{IsDrawn, is_hex, is_base64url}
use flagstack.Tests.Targets.{database}
use flagstack.Sdkconfig.Repository.Rows.{IsKept}
use flagstack.Sdkconfig.Types.{
  CredentialRow, SdkDatabase, CreateInput, CreatedCredential, Configuration, Credential, Flag,
}
use flagstack.Sdkconfig.Credentials.{Draw, without_dashes, service_create_credential, kind_client}
use flagstack.Targeting.Repository.{Store, no_policy}
use flagstack.Sdkconfig.Repository.{
  find_client_credential, find_server_credential, load_configuration, set_client_visible,
  create_credential, revoke_credential, Sorting, credential_of, sdk_reader, sdk_store,
}
use flagstack.Sdkconfig.Repository.Calls.{
  run, Call, authenticate_key-revoke_credential, create, revoke,
}
use flagstack.Common.{
  [], ◌∷◌, some, none, true, false, String, byte_length, ◌==◌, ◌≡◌, ok, arith, if◌then◌else◌, refl,
  ℕ, List, Option, all_codes, subst, is_empty, ◌≢◌, All, map,
}

abbrev uuid_store : Store
uuid_store = record {
  parse_uuid = λ s. some s;
  deep_equal_policy = λ a b. false;
  deep_equal_variants = λ a b. false;
}

abbrev sorting : Sorting
sorting = record { collate = λ a b. true; uuid_le = λ a b. true }

abbrev new_id : String
new_id = "00000000000000000000000000000007"

abbrev draw : Draw
draw = record { id = some new_id; secret = some "s3cret"; public = some "k" }

-- What holds of the one value drawn holds of every value drawn.
drawn_only :
    {a b : String} (P : String → Type 0) → Path (Option String) (some a) (some b) → P a → P b
drawn_only {a} {b} P h p = let same : a ≡ b = ground arith in subst P same p

draw-IsDrawn : IsDrawn (λ s. some s) draw
unfolding without_dashes byte_length
draw-IsDrawn = record {
  canonical = λ id h. refl;
  compact =
      λ id h. drawn_only (λ i. Path (Option String) (some (without_dashes i)) (some i)) h refl;
  digits = λ id h. drawn_only (λ i. byte_length (without_dashes i) ≡ 32) h refl;
  hex = λ id h. drawn_only (λ i. all_codes is_hex (without_dashes i) ≡ true) h refl;
  secret_token = λ s h. drawn_only (λ i. all_codes is_base64url i ≡ true) h refl;
  secret_full = λ s h. drawn_only (λ i. is_empty i ≡ false) h refl;
  public_token = λ s h. drawn_only (λ i. all_codes is_base64url i ≡ true) h refl;
}

abbrev key_row : CredentialRow
key_row = record {
  id = "c-1";
  organisation_id = "o";
  project_id = "p";
  environment_id = "e";
  name = "browser";
  kind = "client";
  client_key = "syoc_client_k1";
  secret_digest = none;
  revoked_at = none;
  created_at = 3;
}

abbrev tables : Database
tables = record database { segments = [] }

abbrev sdk_database : SdkDatabase
sdk_database = record { core = tables; credentials = key_row ∷ [] }

sdk_database-IsKept : IsKept sdk_database.credentials
sdk_database-IsKept = record { ids = λ id. ground arith; keys = λ k full. ground arith }

abbrev digest : List ℕ
digest =
    1 ∷ 2 ∷ 3 ∷ 4 ∷ 5 ∷ 6 ∷ 7 ∷ 8 ∷ 9 ∷ 10 ∷ 11 ∷ 12 ∷ 13 ∷ 14 ∷ 15 ∷ 16 ∷ 17 ∷ 18 ∷ 19 ∷ 20 ∷ 21
    ∷ 22 ∷ 23 ∷ 24 ∷ 25 ∷ 26 ∷ 27 ∷ 28 ∷ 29 ∷ 30 ∷ 31 ∷ 32 ∷ []

-- The digest of every other text is another one.
abbrev sdk_platform : Platform
sdk_platform = record {
  runtime = record demo { sha256 = λ s. if s == "s3cret" then digest else [] };
  order = keys_in_order;
  parse_uuid = λ s. some s;
}

abbrev input : CreateInput
input = record { name = " build "; kind = "server "; environment_id = "e" }

abbrev created_row : CredentialRow
created_row = record {
  id = new_id;
  organisation_id = "o";
  project_id = "p";
  environment_id = "e";
  name = "build";
  kind = "server";
  client_key = "";
  secret_digest = some digest;
  revoked_at = none;
  created_at = 9;
}

abbrev created : CreatedCredential
created = record {
  credential = record {
    id = new_id;
    organisation_id = "o";
    project_id = "p";
    environment_id = "e";
    name = "build";
    kind = "server";
    client_key = "";
    revoked_at = none;
    created_at = 9;
  };
  key = "syoc_server_00000000000000000000000000000007.s3cret";
}

abbrev two_rows : SdkDatabase
two_rows = record { core = tables; credentials = key_row ∷ created_row ∷ [] }

create-run :
    service_create_credential sdk_platform.runtime.sha256
      (λ s. s)
      (sdk_store uuid_store sorting 9)
      draw
      "o"
      "p"
      input
      sdk_database
    ≡ ok (created, two_rows)
unfolding service_create_credential flagstack.Common.trim_space byte_length
    flagstack.Common.is_blank flagstack.Sdkconfig.Credentials.with_material create_credential
    flagstack.Sdkconfig.Repository.scope_of flagstack.Targeting.Repository.parse_project_scope
    flagstack.Sdkconfig.Repository.has_material credential_of
    flagstack.Sdkconfig.Credentials.server_key without_dashes
create-run = refl

authenticate_key-service_create_credential_example :
    authenticate_key sdk_platform (sdk_reader uuid_store sorting two_rows) created.key
    ≡ ok created.credential
authenticate_key-service_create_credential_example =
    authenticate_key-service_create_credential sdk_platform uuid_store sorting (λ s. s) 9 draw "o"
      "p" input sdk_database two_rows created refl draw-IsDrawn create-run

abbrev revoked_key : CredentialRow
revoked_key = record key_row { revoked_at = some 20 }

abbrev after_revocation : SdkDatabase
after_revocation = record { core = tables; credentials = revoked_key ∷ [] }

abbrev revoked_credential : Credential
revoked_credential = record {
  id = "c-1";
  organisation_id = "o";
  project_id = "p";
  environment_id = "e";
  name = "browser";
  kind = "client";
  client_key = "syoc_client_k1";
  revoked_at = some 20;
  created_at = 3;
}

revoke-run :
    revoke_credential uuid_store "o" "p" "c-1" 20 sdk_database
    ≡ ok (revoked_credential, after_revocation)
unfolding revoke_credential flagstack.Sdkconfig.Repository.scope_of
    flagstack.Targeting.Repository.parse_project_scope credential_of
revoke-run = refl

abbrev calls : List Call
calls =
    create 9 (record {
      id = new_id;
      organisation_id = "o";
      project_id = "p";
      environment_id = "e";
      name = "build";
      kind = "server";
      client_key = "";
      secret_digest = digest;
    })
    ∷ revoke "o" "p" "c-1" 30
    ∷ []

created_opens :
    authenticate_key sdk_platform
      (sdk_reader uuid_store sorting (run uuid_store calls after_revocation))
      created.key
    ≡ ok created.credential
unfolding authenticate_key flagstack.Sdkconfig.Service.authenticate flagstack.Common.after_prefix
    flagstack.Common.trim_space flagstack.Sdkconfig.Service.authenticate_server
    flagstack.Sdkconfig.Service.cut_at_dot byte_length find_server_credential run
    flagstack.Sdkconfig.Repository.Calls.call revoke_credential
    flagstack.Sdkconfig.Repository.scope_of flagstack.Targeting.Repository.parse_project_scope
    create_credential flagstack.Common.is_blank flagstack.Sdkconfig.Repository.has_material
    flagstack.Common.same_bytes credential_of flagstack.Targeting.Repository.parse_id
created_opens = refl

authenticate_key-revoke_credential_example : created.credential.id ≢ "c-1"
authenticate_key-revoke_credential_example =
    authenticate_key-revoke_credential sdk_platform uuid_store sorting "o" "p" "c-1" 20 sdk_database
      after_revocation revoked_credential calls created.key created.credential sdk_database-IsKept
      revoke-run created_opens

opens_refines_replay_example :
    opens sdk_platform uuid_store sorting (run uuid_store calls sdk_database)
    ≡ replay sdk_platform uuid_store
        (events uuid_store calls sdk_database)
        (opens sdk_platform uuid_store sorting sdk_database)
opens_refines_replay_example =
    opens_refines_replay sdk_platform uuid_store sorting calls sdk_database sdk_database-IsKept

abbrev served_row : Flag
served_row = record {
  id = "flag-1";
  key = "colour";
  kind = text;
  default_value = "\"d\"";
  enabled = false;
  variants = demo_variants;
  policy = no_policy;
  revision = 0;
}

abbrev served_by_id : Configuration
served_by_id = record {
  schema_version = 1;
  environment = record { id = "e"; key = "production" };
  flags = served_row ∷ [];
  segments = [];
}

key_opens :
    authenticate_key sdk_platform (sdk_reader uuid_store sorting sdk_database) "syoc_client_k1"
    ≡ ok (credential_of key_row)
unfolding authenticate_key flagstack.Sdkconfig.Service.authenticate flagstack.Common.after_prefix
    flagstack.Common.trim_space find_client_credential
key_opens = refl

serves :
    configuration_for_key sdk_platform (sdk_reader uuid_store sorting sdk_database) "syoc_client_k1"
    ≡ ok served_by_id
unfolding configuration_for_key authenticate_key flagstack.Sdkconfig.Service.authenticate
    flagstack.Common.after_prefix flagstack.Common.trim_space find_client_credential
    load_configuration flagstack.Sdkconfig.Repository.scope_of
    flagstack.Targeting.Repository.parse_project_scope flagstack.Targeting.Repository.parse_id
    credential_of flagstack.Sdkconfig.Service.validate_configuration flagstack.Common.is_blank
    flagstack.Evaluation.SegmentSet.validate_segment_set flagstack.Evaluation.SegmentSet.build_index
    flagstack.Common.sort_by flagstack.Common.insert_by
    flagstack.Evaluation.SegmentSet.check_references flagstack.Evaluation.SegmentSet.visit_all
    flagstack.Sdkconfig.Service.validate_flags flagstack.Common.lookup
    flagstack.Sdkconfig.Repository.index_configs flagstack.Evaluation.SegmentSet.validate_definition
    flagstack.Evaluation.Validate.validate_flag flagstack.Sdkconfig.Referenced.rule_references
    flagstack.Sdkconfig.Referenced.index_references flagstack.Evaluation.Matching.index_segments
    flagstack.Sdkconfig.Referenced.add_flags flagstack.Sdkconfig.Referenced.add_rules
    flagstack.Sdkconfig.Referenced.keep_needed flagstack.Evaluation.Validate.valid_kind
    flagstack.Evaluation.Decode.validate_value_kind flagstack.Evaluation.Decode.decode_raw
    flagstack.Evaluation.Validate.validate_variants flagstack.Evaluation.Validate.validate_rules
    no_policy flagstack.Evaluation.Validate.validate_outcome
    flagstack.Evaluation.SegmentSet.validate_portable_policy
    flagstack.Evaluation.SegmentSet.validate_portable_rules
    flagstack.Evaluation.SegmentSet.validate_policy_segments
    flagstack.Evaluation.SegmentSet.check_rule_references
    flagstack.Sdkconfig.Referenced.referenced_segments flagstack.Sdkconfig.Referenced.needed_keys
    flagstack.Sdkconfig.Referenced.drain flagstack.Sdkconfig.Referenced.all_references
    flagstack.Sdkconfig.Referenced.flag_references
serves = refl

configuration_for_key-IsServed_example :
    All (IsServed uuid_store sorting sdk_database (credential_of key_row)) served_by_id.flags
configuration_for_key-IsServed_example =
    configuration_for_key-IsServed sdk_platform uuid_store sorting sdk_database "syoc_client_k1"
      (credential_of key_row) served_by_id key_opens serves

abbrev hidden_database : SdkDatabase
hidden_database = record {
  core = record tables {
    flags = map (λ (r : FlagRow). record r { client_visible = false }) database.flags;
  };
  credentials = key_row ∷ [];
}

abbrev nothing_served : Configuration
nothing_served = record served_by_id { flags = [] }

hide-run :
    set_client_visible uuid_store "o" "p" "flag-1" false sdk_database ≡ ok (false, hidden_database)
unfolding set_client_visible flagstack.Sdkconfig.Repository.scope_of
    flagstack.Targeting.Repository.parse_project_scope
hide-run = refl

key_opens_still :
    authenticate_key sdk_platform (sdk_reader uuid_store sorting hidden_database) "syoc_client_k1"
    ≡ ok (credential_of key_row)
unfolding authenticate_key flagstack.Sdkconfig.Service.authenticate flagstack.Common.after_prefix
    flagstack.Common.trim_space find_client_credential
key_opens_still = refl

serves_nothing :
    configuration_for_key sdk_platform
      (sdk_reader uuid_store sorting hidden_database)
      "syoc_client_k1"
    ≡ ok nothing_served
unfolding configuration_for_key authenticate_key flagstack.Sdkconfig.Service.authenticate
    flagstack.Common.after_prefix flagstack.Common.trim_space find_client_credential
    load_configuration flagstack.Sdkconfig.Repository.scope_of
    flagstack.Targeting.Repository.parse_project_scope flagstack.Targeting.Repository.parse_id
    credential_of flagstack.Sdkconfig.Service.validate_configuration flagstack.Common.is_blank
    flagstack.Evaluation.SegmentSet.validate_segment_set flagstack.Evaluation.SegmentSet.build_index
    flagstack.Common.sort_by flagstack.Common.insert_by
    flagstack.Evaluation.SegmentSet.check_references flagstack.Evaluation.SegmentSet.visit_all
    flagstack.Sdkconfig.Service.validate_flags flagstack.Sdkconfig.Referenced.referenced_segments
    flagstack.Sdkconfig.Referenced.needed_keys flagstack.Sdkconfig.Referenced.drain
    flagstack.Sdkconfig.Referenced.all_references flagstack.Sdkconfig.Referenced.flag_references
    flagstack.Sdkconfig.Referenced.index_references flagstack.Evaluation.Matching.index_segments
    flagstack.Sdkconfig.Referenced.add_flags flagstack.Sdkconfig.Referenced.keep_needed
serves_nothing = refl

client_key_row : (credential_of key_row).kind ≡ kind_client
unfolding credential_of
client_key_row = refl

tables-HasUniqueFlags : HasUniqueFlags tables
tables-HasUniqueFlags f h = ground arith

configuration_for_key-set_client_visible_example : All (λ f. f.id ≢ "flag-1") nothing_served.flags
configuration_for_key-set_client_visible_example =
    configuration_for_key-set_client_visible sdk_platform uuid_store sorting "o" "p" "flag-1"
      "flag-1" false sdk_database hidden_database "syoc_client_k1" (credential_of key_row)
      nothing_served tables-HasUniqueFlags refl hide-run key_opens_still client_key_row
      serves_nothing
