-- ===== src/Targeting/Types.antt =====
-- backend/internal/targeting/targeting.go: the data, and the rows that the repository keeps. Times
-- are nanoseconds; `none` is a nil pointer. An id is the canonical text of a UUID.
use flagstack.Evaluation.Types.{Fault, Kind, MatchMode, Policy, Condition, Variant}
use flagstack.Common.{ℕ, String, Bool, List, Option}

pub record EnvironmentState : Type 0 where
  pub environment_id : String
  pub enabled : Bool
  pub policy : Policy
  pub revision : ℕ

pub record FlagState : Type 0 where
  pub id : String
  pub key : String
  pub kind : Kind
  pub default_value : String
  pub variants : List Variant
  pub environments : List EnvironmentState

pub record Segment : Type 0 where
  pub id : String
  pub organisation_id : String
  pub project_id : String
  pub name : String
  pub key : String
  pub description : String
  pub mode : MatchMode
  pub conditions : List Condition
  pub archived : Bool

pub record SegmentInput : Type 0 where
  pub name : String
  pub key : String
  pub description : String
  pub mode : MatchMode
  pub conditions : List Condition

pub record SchedulePatch : Type 0 where
  pub enabled : Option Bool
  pub policy : Option Policy

pub data Status : Type 0 where
  pending running executed failed cancelled : Status

pub data Message : Type 0 where
  required in_past no_change too_long bad_key : Message
  invalid_definition : Fault → Message

pub data TargetingError : Type 0 where
  project_not_found environment_not_found feature_flag_not_found segment_not_found : TargetingError
  segment_key_conflict schedule_not_found schedule_not_pending : TargetingError
  -- a `ValidationError`: the field and the message
  invalid : String → Message → TargetingError
  -- a fault of package evaluation, passed on as it is
  evaluation_fault : Fault → TargetingError
  -- a text that `uuid.Parse` refuses
  bad_uuid : String → TargetingError
  -- what `Only` reports for two rows or more
  not_singular : TargetingError
  constraint : TargetingError

-- Also the row of the table. `none` is a null claim token or an empty last error; a last error is
-- what its text is built from.
pub record ScheduledChange : Type 0 where
  pub id : String
  pub organisation_id : String
  pub project_id : String
  pub environment_id : String
  pub feature_flag_id : String
  pub created_by_user_id : String
  pub execute_at : ℕ
  pub patch : SchedulePatch
  pub status : Status
  pub claim_token : Option String
  pub claimed_at : Option ℕ
  pub executed_at : Option ℕ
  pub last_error : Option TargetingError

pub record CreateScheduleInput : Type 0 where
  pub environment_id : String
  pub feature_flag_id : String
  pub created_by_user_id : String
  pub execute_at : ℕ
  pub patch : SchedulePatch

-- The rows of the other tables.
pub record FlagRow : Type 0 where
  pub id : String
  pub organisation_id : String
  pub project_id : String
  pub key : String
  pub kind : Kind
  pub default_value : String
  pub variants : List Variant
  pub client_visible : Bool
  pub archived : Bool

pub record ConfigRow : Type 0 where
  pub organisation_id : String
  pub project_id : String
  pub environment_id : String
  pub feature_flag_id : String
  pub enabled : Bool
  pub policy : Policy
  pub revision : ℕ

pub record EnvironmentRow : Type 0 where
  pub id : String
  pub organisation_id : String
  pub project_id : String
  pub key : String

pub record ProjectRow : Type 0 where
  pub id : String
  pub organisation_id : String
  pub archived : Bool

pub record Database : Type 0 where
  pub projects : List ProjectRow
  pub environments : List EnvironmentRow
  pub flags : List FlagRow
  pub configs : List ConfigRow
  pub segments : List Segment
  pub schedules : List ScheduledChange
