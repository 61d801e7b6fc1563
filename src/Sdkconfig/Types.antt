-- ===== src/Sdkconfig/Types.antt =====
-- backend/internal/sdkconfig/sdkconfig.go: the data. Times are seconds; `none` is a nil pointer.
use flagstack.Targeting.Types.{Database}
use flagstack.Common.{ℕ, String, Bool, List, Option}
use flagstack.Evaluation.Types.{Kind, Variant, Policy, Segment}

-- A credential's kind is the string `server` or `client`.
pub record Credential : Type 0 where
  pub id : String
  pub organisation_id : String
  pub project_id : String
  pub environment_id : String
  pub name : String
  pub kind : String
  pub client_key : String
  pub revoked_at : Option ℕ
  pub created_at : ℕ

pub record StoredServerCredential : Type 0 where
  pub credential : Credential
  pub secret_digest : List ℕ

pub record CreatedCredential : Type 0 where
  pub credential : Credential
  pub key : String

pub record CreateInput : Type 0 where
  pub name : String
  pub kind : String
  pub environment_id : String

-- `id` is the canonical text of the UUID.
pub record CredentialRecord : Type 0 where
  pub id : String
  pub organisation_id : String
  pub project_id : String
  pub environment_id : String
  pub name : String
  pub kind : String
  pub client_key : String
  pub secret_digest : List ℕ

pub record Environment : Type 0 where
  pub id : String
  pub key : String

pub record Flag : Type 0 where
  pub id : String
  pub key : String
  pub kind : Kind
  pub default_value : String
  pub enabled : Bool
  pub variants : List Variant
  pub policy : Policy
  pub revision : ℕ

pub record Configuration : Type 0 where
  pub schema_version : ℕ
  pub environment : Environment
  pub flags : List Flag
  pub segments : List Segment

-- The rows of the credentials, and the tables that the repository reads and writes. A null digest
-- is `none`.
pub record CredentialRow : Type 0 where
  pub id : String
  pub organisation_id : String
  pub project_id : String
  pub environment_id : String
  pub name : String
  pub kind : String
  pub client_key : String
  pub secret_digest : Option (List ℕ)
  pub revoked_at : Option ℕ
  pub created_at : ℕ

pub record SdkDatabase : Type 0 where
  pub core : Database
  pub credentials : List CredentialRow
