-- ===== src/Sdkconfig/Service/Served.antt =====
-- `ConfigurationForKey` and the evaluation of what it returns.
use flagstack.Evaluation.Types
use flagstack.Sdkconfig.Types.{Flag, Configuration}

-- The flag that an SDK evaluates, from a configuration.
abbrev pub served_flag : Configuration → Flag → Types.Flag
served_flag c f = record {
  id = f.id;
  environment_id = c.environment.id;
  key = f.key;
  kind = f.kind;
  default_value = f.default_value;
  enabled = f.enabled;
  variants = f.variants;
  policy = f.policy;
}
