-- ===== src/Evaluation/Types.antt =====
-- backend/internal/evaluation/evaluation.go: the data. `json.RawMessage` is the text that it
-- holds, `any` is `Value`. The string types `Operator`, `MatchMode` and a flag's `Kind` are data
-- types with the constants of the source; `other s` is any other string.
use flagstack.Common.{ℕ, String, Bool, List, Option, ℤ}

-- The dynamic types that Go's fixed-width integers have in an `any`.
pub data IntKind : Type 0 where
  int int8 int16 int32 int64 uint uint8 uint16 uint32 uint64 : IntKind

-- What an `any` holds: what encoding/json decodes to, and what a Go caller may put in a context.
-- Floats are their IEEE 754 bit patterns. An object lists each key once, in any order.
mutual
  pub data Value : Type 0 where
    null : Value
    bool : Bool → Value
    str : String → Value
    number : String → Value
    float64 : ℕ → Value
    float32 : ℕ → Value
    integer : IntKind → ℤ → Value
    array : Values → Value
    strings : List String → Value
    object : Entries → Value

  pub data Values : Type 0 where
    nil : Values
    cons : Value → Values → Values

  pub data Entries : Type 0 where
    end : Entries
    entry : String → Value → Entries → Entries

pub data MatchMode : Type 0 where
  match_all match_any : MatchMode
  other : String → MatchMode

pub data Kind : Type 0 where
  boolean text numeric json : Kind
  other : String → Kind

pub data Operator : Type 0 where
  equals not_equals is_in not_in contains not_contains starts_with ends_with : Operator
  greater_than greater_than_or_equal less_than less_than_or_equal : Operator
  exists not_exists matches_regex : Operator
  semver_greater_than semver_greater_than_or_equal : Operator
  semver_less_than semver_less_than_or_equal : Operator
  in_segment not_in_segment : Operator
  other : String → Operator

pub data Reason : Type 0 where
  static default targeting_match split disabled error : Reason

pub data ErrorCode : Type 0 where
  parse_error targeting_key_missing invalid_context : ErrorCode

pub record Context : Type 0 where
  pub targeting_key : String
  pub attributes : Entries

pub record Variant : Type 0 where
  pub key : String
  pub value : String

pub record Condition : Type 0 where
  pub attribute : String
  pub operator : Operator
  pub value : String

pub record Allocation : Type 0 where
  pub variant : String
  pub weight : ℤ

pub record Outcome : Type 0 where
  pub variant : String
  pub rollout : List Allocation
  pub bucket_by : String

pub record Rule : Type 0 where
  pub id : String
  pub name : String
  pub mode : MatchMode
  pub conditions : List Condition
  pub outcome : Outcome

pub record Policy : Type 0 where
  pub rules : List Rule
  pub fallthrough : Outcome

pub record Segment : Type 0 where
  pub key : String
  pub name : String
  pub mode : MatchMode
  pub conditions : List Condition

pub record Flag : Type 0 where
  pub id : String
  pub environment_id : String
  pub key : String
  pub kind : Kind
  pub default_value : String
  pub enabled : Bool
  pub variants : List Variant
  pub policy : Policy

-- One constructor for each `fmt.Errorf` of the package, with what its text is built from.
pub data Fault : Type 0 where
  ids_required : Fault
  unsupported_kind : Kind → Fault
  default_value : Fault → Fault
  variant_key_required : Fault
  variant_reserved_or_duplicated : String → Fault
  in_variant in_rule in_segment : String → Fault → Fault
  rule_id_required : Fault
  duplicate_rule : String → Fault
  no_conditions : Fault
  in_fallthrough : Fault → Fault
  segment_key_required : Fault
  rollout_unresolved : Fault
  unknown_variant : String → Fault
  targeting_key_required : Fault
  bucket_attribute_missing : String → Fault
  bucket_attribute : String → Fault → Fault
  not_scalar : Fault
  marshal_failed : Fault
  segment_reference_not_string : Fault
  expects_array : Operator → Fault
  invalid_regex : String → Fault
  regex_not_string posix_class : Fault
  not_semver : Fault
  unsupported_operator : Operator → Fault
  segment_cycle : String → Fault
  outcome_variant_and_rollout outcome_missing : Fault
  weight_not_positive weights_total : Fault
  segment_reference_empty : Fault
  segment_reference condition_value : Fault → Fault
  attribute_required : Fault
  match_mode : MatchMode → Fault
  not_boolean not_text not_number : Fault
  json_required json_syntax json_multiple : Fault
  duplicate_segment : String → Fault
  unknown_segment : String → String → Fault
  -- not in the source: the fuel of a recursion of the model ran out
  out_of_fuel : Fault

-- `*evaluationError`
pub record EvaluationError : Type 0 where
  pub code : ErrorCode
  pub cause : Fault

pub record EvalResult : Type 0 where
  pub value : String
  pub variant : String
  pub reason : Reason
  pub rule_id : String
  -- `none` is the empty string
  pub error_code : Option ErrorCode
  pub error_message : Option Fault
