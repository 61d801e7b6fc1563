-- ===== src/Evaluation/SegmentSet/Definition.antt =====
-- `ValidateDefinition` and `ValidateFlag`.
use flagstack.Evaluation.Types.{Flag}
use flagstack.Evaluation.Runtime.{Runtime}
use flagstack.Evaluation.Validate.{validate_flag}
use flagstack.Evaluation.SegmentSet.{validate_definition}
use flagstack.Common.{◌≡◌, ok, false, is_blank, >>=-eq-ok}

-- What `ValidateDefinition` validates, with any ids that are not blank.
pub validate_definition-flag :
    (rt : Runtime) (flag : Flag)
    → is_blank flag.id ≡ false
    → is_blank flag.environment_id ≡ false
    → validate_definition rt flag.kind flag.default_value flag.variants flag.policy ≡ ok tt
    → validate_flag rt flag ≡ ok tt
unfolding validate_definition validate_flag is_blank
validate_definition-flag rt flag a b h =
    let (_, valid, _) =
      >>=-eq-ok
        (validate_flag rt (record {
          id = "validation-flag";
          environment_id = "validation-environment";
          key = "";
          kind = flag.kind;
          default_value = flag.default_value;
          enabled = false;
          variants = flag.variants;
          policy = flag.policy;
        }))
        _ h in
    rw (a, b) valid
