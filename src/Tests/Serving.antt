-- ===== src/Tests/Serving.antt =====
-- An SDK's request for its configuration.
use flagstack.Sdkconfig.Service.Authentic.{HasSecret, authenticate_sound}
use flagstack.Sdkconfig.Service.{
  Platform, Repository, authenticate, server_key_prefix, client_key_prefix,
}
use flagstack.Evaluation.Types.{text}
use flagstack.Sdkconfig.Types.{Flag, Configuration, Credential}
use flagstack.Tests.Demo.{
  demo, beta, demo_segments, demo_variants, keys_in_order, demo_policy, staff,
}
use flagstack.Common.{[], ◌∷◌, ◌≡◌, ◌⊎◌, ok, some, none, true, refl, String, after_prefix}

abbrev served_flag_row : Flag
served_flag_row = record {
  id = "flag-1";
  key = "colour";
  kind = text;
  default_value = "\"d\"";
  enabled = true;
  variants = demo_variants;
  policy = demo_policy;
  revision = 3;
}

abbrev pub platform : Platform
platform = record { runtime = demo; order = keys_in_order; parse_uuid = λ s. some s }

abbrev browser : Credential
browser = record {
  id = "credential-2";
  organisation_id = "organisation-1";
  project_id = "project-1";
  environment_id = "environment-1";
  name = "browser";
  kind = "client";
  client_key = "syoc_client_k";
  revoked_at = none;
  created_at = 0;
}

abbrev stored_configuration_row : Configuration
stored_configuration_row = record {
  schema_version = 0;
  environment = record { id = "environment-1"; key = "production" };
  flags = served_flag_row ∷ [];
  segments = demo_segments;
}

abbrev repository : Repository
repository = record {
  find_server_credential =
      λ id. ok (record { credential = browser; secret_digest = 0 ∷ 0 ∷ 200 ∷ 7 ∷ [] });
  find_client_credential = λ key. ok browser;
  load_configuration = λ credential. ok stored_configuration_row;
}

abbrev served_configuration : Configuration
served_configuration = record stored_configuration_row {
  schema_version = 1;
  segments = beta ∷ staff ∷ [];
}

abbrev server_key : String
server_key = "syoc_server_0123456789abcdef0123456789abcdef.secret"

server-run : authenticate platform repository server_key ≡ ok browser
unfolding authenticate after_prefix flagstack.Sdkconfig.Service.authenticate_server
    flagstack.Sdkconfig.Service.cut_at_dot flagstack.Common.byte_length flagstack.Common.same_bytes
server-run = refl

authenticate_sound_example :
    ((rest : String) × (after_prefix server_key_prefix server_key ≡ some rest)
      × HasSecret platform repository rest browser)
    ⊎ ((rest : String) × (after_prefix client_key_prefix server_key ≡ some rest)
        × (repository.find_client_credential server_key ≡ ok browser))
authenticate_sound_example = authenticate_sound platform repository server_key browser server-run
