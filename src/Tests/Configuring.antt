-- ===== src/Tests/Configuring.antt =====
-- The configuration of an SDK and its invalidation, for the demo flag.
use flagstack.Sdkconfig.Invalidation.Safe.{run-NoPanic}
use flagstack.Sdkconfig.Referenced.Equivalent.{referenced_segments-equivalent}
use flagstack.Evaluation.Matching.{index_segments}
use flagstack.Sdkconfig.Referenced.Loop.{needed_keys-ends}
use flagstack.Sdkconfig.Invalidation.Signals.{reaches, publish-pending}
use flagstack.Sdkconfig.Invalidation.{
  Hub, Invalidation, publish, invalidation_matches, publish_to, run, update, subscribing,
  publishing, cancelling, new_hub,
}
use flagstack.Sdkconfig.Referenced.Closed.{AreCovered, IsClosed, needed_keys-IsClosed}
use flagstack.Evaluation.Evaluate.{evaluate, validate_segments}
use flagstack.Sdkconfig.Referenced.{needed_keys, referenced_segments, flag_references}
use flagstack.Evaluation.Types.{text}
use flagstack.Sdkconfig.Types.{Credential}
use flagstack.Tests.Demo.{
  demo, demo_flag, demo_segments, demo_variants, beta, demo_context, demo_policy, staff,
}
use flagstack.Sdkconfig.Types
use flagstack.Common.{[], ◌∷◌, ◌≡◌, ok, some, none, true, false, refl, All, String, List}

abbrev configured : Types.Flag
configured = record {
  id = "flag-1";
  key = "colour";
  kind = text;
  default_value = "\"d\"";
  enabled = true;
  variants = demo_variants;
  policy = demo_policy;
  revision = 3;
}

kept-run : referenced_segments demo (configured ∷ []) demo_segments ≡ some (beta ∷ staff ∷ [])
unfolding referenced_segments needed_keys flagstack.Sdkconfig.Referenced.drain
    flagstack.Sdkconfig.Referenced.all_references flag_references
    flagstack.Sdkconfig.Referenced.rule_references flagstack.Sdkconfig.Referenced.references
    flagstack.Sdkconfig.Referenced.unmarshal_string flagstack.Common.is_blank
    flagstack.Sdkconfig.Referenced.add_flags flagstack.Sdkconfig.Referenced.add_rules
    flagstack.Sdkconfig.Referenced.add_conditions flagstack.Sdkconfig.Referenced.index_references
    index_segments flagstack.Common.insert flagstack.Sdkconfig.Referenced.expand
    flagstack.Common.lookup flagstack.Sdkconfig.Referenced.keep_needed
kept-run = refl

needed-run : needed_keys demo (configured ∷ []) demo_segments ≡ some ("staff" ∷ "beta" ∷ [])
unfolding needed_keys flagstack.Sdkconfig.Referenced.drain
    flagstack.Sdkconfig.Referenced.all_references flag_references
    flagstack.Sdkconfig.Referenced.rule_references flagstack.Sdkconfig.Referenced.references
    flagstack.Sdkconfig.Referenced.unmarshal_string flagstack.Common.is_blank
    flagstack.Sdkconfig.Referenced.add_flags flagstack.Sdkconfig.Referenced.add_rules
    flagstack.Sdkconfig.Referenced.add_conditions flagstack.Sdkconfig.Referenced.index_references
    index_segments flagstack.Common.insert flagstack.Sdkconfig.Referenced.expand
    flagstack.Common.lookup
needed-run = refl

demo_segments-each_valid : validate_segments demo demo_segments ≡ ok tt
unfolding validate_segments flagstack.Evaluation.Validate.validate_segment flagstack.Common.is_blank
    flagstack.Evaluation.Validate.validate_match_mode
    flagstack.Evaluation.Validate.validate_conditions
    flagstack.Evaluation.Validate.validate_condition
    flagstack.Evaluation.Validate.validate_reference flagstack.Evaluation.Decode.decode_raw
    flagstack.Evaluation.Validate.validate_comparison flagstack.Evaluation.Validate.operand
demo_segments-each_valid = refl

referenced_segments-equivalent_example :
    evaluate demo demo_flag demo_context (beta ∷ staff ∷ [])
    ≡ evaluate demo demo_flag demo_context demo_segments
referenced_segments-equivalent_example =
    referenced_segments-equivalent demo [] configured [] demo_segments (beta ∷ staff ∷ []) demo_flag
      demo_context refl demo_segments-each_valid kept-run

needed_keys-ends_example :
    (needed : List String) × (needed_keys demo (configured ∷ []) demo_segments ≡ some needed)
needed_keys-ends_example = needed_keys-ends demo (configured ∷ []) demo_segments

needed_keys-IsClosed_example :
    AreCovered ("staff" ∷ "beta" ∷ []) (flag_references demo (configured ∷ []))
    × IsClosed demo (index_segments [] demo_segments) ("staff" ∷ "beta" ∷ [])
needed_keys-IsClosed_example =
    needed_keys-IsClosed demo (configured ∷ []) demo_segments ("staff" ∷ "beta" ∷ []) needed-run

abbrev production : Credential
production = record {
  id = "credential-1";
  organisation_id = "organisation-1";
  project_id = "project-1";
  environment_id = "environment-1";
  name = "server";
  kind = "server";
  client_key = "";
  revoked_at = none;
  created_at = 0;
}

abbrev policy_change : Invalidation
policy_change = record {
  project_id = "project-1";
  environment_id = "environment-1";
  credential_id = "";
}

abbrev revocation : Invalidation
revocation = record { project_id = ""; environment_id = ""; credential_id = "credential-1" }

run-NoPanic_example :
    (h : Hub) × (run
        (subscribing production
          ∷ publishing policy_change
          ∷ cancelling 0
          ∷ cancelling 0
          ∷ publishing revocation
          ∷ [])
        new_hub
      ≡ ok h)
    × All (λ e. (h.channels e.1.channel).closed ≡ false) h.subscribers
run-NoPanic_example = run-NoPanic (
    subscribing production
    ∷ publishing policy_change
    ∷ cancelling 0
    ∷ cancelling 0
    ∷ publishing revocation
    ∷ [])

abbrev subscribed : Hub
subscribed = record {
  next_id = 1;
  subscribers = (1, record { credential = production; channel = 0 }) ∷ [];
  allocated = 1;
  channels = λ a. record { pending = some policy_change; closed = false };
  cancels = λ a. record { id = 1; done = false };
}

abbrev signalled : Hub
signalled = record subscribed {
  channels = update subscribed.channels 0 (record { pending = some policy_change; closed = false });
}

signalled-run : publish revocation subscribed ≡ ok signalled
unfolding publish publish_to invalidation_matches
signalled-run = refl

-- The revocation is not what is pending.
publish-pending_example : (signalled.channels 0).pending ≡ some policy_change
unfolding reaches invalidation_matches
publish-pending_example = publish-pending revocation subscribed signalled signalled-run 0
