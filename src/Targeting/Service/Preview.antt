-- ===== src/Targeting/Service/Preview.antt =====
-- `SetPolicy`, `LoadEvaluation` and `Preview` together.
use flagstack.Targeting.Types.{ConfigRow, FlagRow}
use flagstack.Evaluation.Types.{Flag}
use flagstack.Common.{String}

-- The flag that `LoadEvaluation` builds from the rows that it finds.
abbrev loaded_flag : FlagRow → String → ConfigRow → Flag
loaded_flag r environment c = record {
  id = r.id;
  environment_id = environment;
  key = r.key;
  kind = r.kind;
  default_value = r.default_value;
  enabled = c.enabled;
  variants = r.variants;
  policy = c.policy;
}
