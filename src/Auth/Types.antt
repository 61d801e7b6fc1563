-- ===== src/Auth/Types.antt =====
-- backend/internal/auth/types.go: the data, and the rows that the repository keeps. Times are
-- nanoseconds; `none` is a null or nil value. An id is the canonical text of a UUID, a digest the
-- list of its bytes.
use flagstack.Common.{ℕ, String, List, Option}

pub record User : Type 0 where
  pub id : String
  pub email : String
  pub display_name : String

pub record OrganisationMembership : Type 0 where
  pub id : String
  pub name : String
  pub slug : String
  pub role : String

pub record Principal : Type 0 where
  pub user : User
  pub organisations : List OrganisationMembership

pub record Session : Type 0 where
  pub principal : Principal
  pub csrf_hash : List ℕ
  pub expires_at : ℕ

pub record IssuedSession : Type 0 where
  pub session_token : String
  pub csrf_token : String
  pub expires_at : ℕ
  pub principal : Principal

pub record BootstrapInput : Type 0 where
  pub email : String
  pub display_name : String
  pub password : String
  pub organisation_name : String
  pub organisation_slug : String

pub record LoginInput : Type 0 where
  pub email : String
  pub password : String

pub record BootstrapRecord : Type 0 where
  pub email : String
  pub display_name : String
  pub password_hash : String
  pub organisation_name : String
  pub organisation_slug : String
  pub session_token_hash : List ℕ
  pub csrf_hash : List ℕ
  pub session_expires_at : ℕ

pub record LocalCredential : Type 0 where
  pub user_id : String
  pub password_hash : String

pub record SessionRecord : Type 0 where
  pub user_id : String
  pub token_hash : List ℕ
  pub csrf_hash : List ℕ
  pub expires_at : ℕ

pub data InputFault : Type 0 where
  required too_long too_short bad_email bad_slug : InputFault

pub data HashFault : Type 0 where
  bad_format bad_parameters bad_parameter bad_parallelism unsafe_parameters bad_salt : HashFault
  bad_output : HashFault

pub data AuthError : Type 0 where
  bootstrap_complete credential_not_found invalid_credentials session_not_found : AuthError
  -- a `ValidationError`: the field and the message
  invalid_input : String → InputFault → AuthError
  -- "verify stored password hash"
  stored_hash : HashFault → AuthError
  no_randomness : AuthError
  -- an error of the database: two rows where one is expected, a row that is not there, an index or a
  -- check that refuses a row, a text that is no UUID, a digest of another length
  not_singular row_missing constraint bad_uuid bad_csrf_hash : AuthError

-- The rows of the tables. A null email is `none`.
pub record UserRow : Type 0 where
  pub id : String
  pub email : Option String
  pub display_name : String

pub record OrganisationRow : Type 0 where
  pub id : String
  pub name : String
  pub slug : String

pub record MembershipRow : Type 0 where
  pub organisation_id : String
  pub user_id : String
  pub role : String

pub record SessionRow : Type 0 where
  pub user_id : String
  pub token_hash : List ℕ
  pub csrf_hash : List ℕ
  pub expires_at : ℕ

pub record AuthDatabase : Type 0 where
  pub users : List UserRow
  pub credentials : List LocalCredential
  pub organisations : List OrganisationRow
  pub memberships : List MembershipRow
  pub sessions : List SessionRow
