-- ===== src/Sdkconfig/Repository.antt =====
-- backend/internal/database/sdk_config_repository.go. Tables, queries and updates as in
-- Targeting/Repository.antt; the checks and the unique index of the credentials' table are those of
-- backend/ent/schema/sdk_credential.go. The orders that the database sorts by are parameters.
pub mod Keys
pub mod Roundtrip
pub mod Saved
pub mod Rows
pub mod Opens
pub mod Revoked
pub mod Calls
pub mod Kept
pub mod Refined
pub mod Visible
pub mod Hidden
use flagstack.Sdkconfig.Credentials.{CredentialStore, kind_client, kind_server}
use flagstack.Targeting.Types.{ConfigRow, FlagRow, ProjectRow, constraint}
use flagstack.Evaluation.Values.{same_bool}
use flagstack.Targeting.Repository.{
  Store, no_policy, only, parse_project_scope, is_flag, is_environment, segment_of,
}
use flagstack.Sdkconfig.Service.{
  SdkError, Repository, credential_not_found, database_fault, environment_not_found,
  feature_flag_not_found, invalid_credential,
}
use flagstack.Sdkconfig.Types.{
  CredentialRecord, CredentialRow, Credential, Flag, SdkDatabase, StoredServerCredential,
  Configuration,
}
use flagstack.Common.{
  [], ◌∷◌, ◌++◌, ◌==◌, ◌&&◌, ◌||◌, ok, err, some, none, false, if◌then◌else◌, ◌>>=◌, ◌>>◌, ℕ,
  String, Bool, List, Option, Result, not, insert, is_blank, is_empty, wrap, is_some, map, eqb,
  guard, leb, length, lookup, any, filter, sort_by, update_where, by_two,
}

pub record Sorting : Type 0 where
  pub collate : String → String → Bool
  pub uuid_le : String → String → Bool

unfoldable pub credential_of : CredentialRow → Credential
credential_of row = record {
  id = row.id;
  organisation_id = row.organisation_id;
  project_id = row.project_id;
  environment_id = row.environment_id;
  name = row.name;
  kind = row.kind;
  client_key = row.client_key;
  revoked_at = row.revoked_at;
  created_at = row.created_at;
}

abbrev pub some_or {ℓ} : {A : Type ℓ} → SdkError → Option A → Result SdkError A
some_or e none = err e
some_or e (some a) = ok a

abbrev pub digest_or_nil : Option (List ℕ) → List ℕ
digest_or_nil none = []
digest_or_nil (some bytes) = bytes

abbrev pub some_bytes : List ℕ → Option (List ℕ)
some_bytes [] = none
some_bytes (b ∷ bs) = some (b ∷ bs)

-- Whether the table has a row that `Only` returns.
abbrev pub sole {ℓ} : {A : Type ℓ} → SdkError → List A → Result SdkError A
sole missing xs = wrap database_fault (only xs) >>= some_or missing

unfoldable pub scope_of : Store → String → String → Result SdkError (String × String)
scope_of st organisation project = wrap database_fault (parse_project_scope st organisation project)

-- The table's check constraints.
unfoldable pub has_material : CredentialRow → Bool
has_material row =
    (row.kind == kind_server
      && (is_some row.secret_digest && eqb (length (digest_or_nil row.secret_digest)) 32)
      && is_empty row.client_key)
    || (row.kind == kind_client && not (is_some row.secret_digest) && not (is_empty row.client_key))

abbrev pub passes_checks : CredentialRow → Bool
passes_checks row = not (is_blank row.name) && has_material row

-- The primary key, and the unique index of the client keys that are not empty.
abbrev pub collides : CredentialRow → CredentialRow → Bool
collides new row =
    row.id == new.id || (not (is_empty new.client_key) && row.client_key == new.client_key)

abbrev pub is_project : String → String → ProjectRow → Bool
is_project o p row = row.id == p && row.organisation_id == o && not row.archived

abbrev pub is_live_server : String → CredentialRow → Bool
is_live_server id row = row.id == id && row.kind == kind_server && not (is_some row.revoked_at)

abbrev pub is_live_client : String → CredentialRow → Bool
is_live_client key row =
    row.client_key == key && row.kind == kind_client && not (is_some row.revoked_at)

abbrev pub is_credential : String → String → String → CredentialRow → Bool
is_credential o p id row = row.id == id && row.organisation_id == o && row.project_id == p

-- `RevokeCredential` on the row that it found: the first revocation stays.
abbrev pub revoke_row : ℕ → CredentialRow → Option ℕ → SdkDatabase → Credential × SdkDatabase
revoke_row now row (some at) db = (credential_of row, db)
revoke_row now row none db = (
  credential_of (record row { revoked_at = some now }),
  record db {
    credentials =
        update_where (λ r. r.id == row.id) (λ r. record r { revoked_at = some now }) db.credentials;
  },
)

abbrev pub stored_of : CredentialRow → StoredServerCredential
stored_of row = record {
  credential = credential_of row;
  secret_digest = digest_or_nil row.secret_digest;
}

-- The row that `CreateCredential` saves.
abbrev pub new_credential_row : String → String → String → CredentialRecord → ℕ → CredentialRow
new_credential_row o p e r now = record {
  id = r.id;
  organisation_id = o;
  project_id = p;
  environment_id = e;
  name = r.name;
  kind = r.kind;
  client_key = r.client_key;
  secret_digest = some_bytes r.secret_digest;
  revoked_at = none;
  created_at = now;
}

module _ (st : Store) where
  unfoldable pub create_credential :
      ℕ → CredentialRecord → SdkDatabase → Result SdkError (Credential × SdkDatabase)
  create_credential now r db = do
    (o, p) ← scope_of st r.organisation_id r.project_id
    e ← some_or environment_not_found (st.parse_uuid r.environment_id)
    guard (any (is_project o p) db.core.projects) environment_not_found
    guard (any (is_environment o p e) db.core.environments) environment_not_found
    let row = new_credential_row o p e r now
    guard (passes_checks row && not (any (collides row) db.credentials)) (database_fault constraint)
    ok (credential_of row, record db { credentials = db.credentials ++ row ∷ [] })

  unfoldable pub revoke_credential :
      String → String → String → ℕ → SdkDatabase → Result SdkError (Credential × SdkDatabase)
  revoke_credential organisation project credential now db = do
    (o, p) ← scope_of st organisation project
    id ← some_or credential_not_found (st.parse_uuid credential)
    row ← sole credential_not_found (filter (is_credential o p id) db.credentials)
    ok (revoke_row now row row.revoked_at db)

  unfoldable pub find_server_credential :
      SdkDatabase → String → Result SdkError StoredServerCredential
  find_server_credential db credential = do
    id ← some_or credential_not_found (st.parse_uuid credential)
    row ← sole credential_not_found (filter (is_live_server id) db.credentials)
    ok (stored_of row)

  unfoldable pub find_client_credential : SdkDatabase → String → Result SdkError Credential
  find_client_credential db key = do
    row ← sole credential_not_found (filter (is_live_client key) db.credentials)
    ok (credential_of row)

  unfoldable pub set_client_visible :
      String → String → String → Bool → SdkDatabase → Result SdkError (Bool × SdkDatabase)
  set_client_visible organisation project flag visible db = do
    (o, p) ← scope_of st organisation project
    id ← some_or feature_flag_not_found (st.parse_uuid flag)
    row ← sole feature_flag_not_found (filter (is_flag o p id) db.core.flags)
    ok (
      visible,
      (if same_bool row.client_visible visible then db else record db {
        core = record db.core {
          flags =
              update_where (λ r. r.id == row.id) (λ r. record r { client_visible = visible })
                db.core.flags;
        };
      }),
    )

-- `configByFlag`: the last configuration of a flag stays.
unfoldable pub index_configs :
    List (String × ConfigRow) → List ConfigRow → List (String × ConfigRow)
index_configs m [] = m
index_configs m (c ∷ cs) = index_configs (insert c.feature_flag_id c m) cs

abbrev pub resolve : FlagRow → Option ConfigRow → Flag
resolve flag none = record {
  id = flag.id;
  key = flag.key;
  kind = flag.kind;
  default_value = flag.default_value;
  enabled = false;
  variants = flag.variants;
  policy = no_policy;
  revision = 0;
}
resolve flag (some config) = record {
  id = flag.id;
  key = flag.key;
  kind = flag.kind;
  default_value = flag.default_value;
  enabled = config.enabled;
  variants = flag.variants;
  policy = config.policy;
  revision = config.revision;
}

-- The query of the flags: a client's has one more condition.
abbrev pub is_served : String → String → String → FlagRow → Bool
is_served kind o p row =
    row.organisation_id == o
    && row.project_id == p
    && not row.archived
    && (not (kind == kind_client) || row.client_visible)

module _ (st : Store) (sorting : Sorting) where
  open sorting use {collate, uuid_le}

  unfoldable pub list_credentials :
      String → String → SdkDatabase → Result SdkError (List Credential)
  list_credentials organisation project db = do
    (o, p) ← scope_of st organisation project
    ok (
        map credential_of (
          sort_by (by_two (λ a b. leb a.created_at b.created_at) (λ a b. uuid_le a.id b.id))
            (filter (λ r. r.organisation_id == o && r.project_id == p) db.credentials)))

  unfoldable pub load_configuration : SdkDatabase → Credential → Result SdkError Configuration
  load_configuration db c = do
    (o, p) ← scope_of st c.organisation_id c.project_id
    e ← some_or invalid_credential (st.parse_uuid c.environment_id)
    guard (any (is_project o p) db.core.projects) invalid_credential
    environment ← sole invalid_credential (filter (is_environment o p e) db.core.environments)
    let flags =
        sort_by (by_two (λ a b. collate a.key b.key) (λ a b. uuid_le a.id b.id))
          (filter (is_served c.kind o p) db.core.flags)
    let configs = index_configs [] (
        filter (λ r. r.organisation_id == o && r.project_id == p && r.environment_id == e)
          db.core.configs)
    let segments = sort_by (by_two (λ a b. collate a.key b.key) (λ a b. uuid_le a.id b.id)) (
        filter (λ s. s.organisation_id == o && s.project_id == p && not s.archived)
          db.core.segments)
    ok (record {
      schema_version = 0;
      environment = record { id = environment.id; key = environment.key };
      flags = map (λ flag. resolve flag (lookup flag.id configs)) flags;
      segments = map segment_of segments;
    })

  -- The repository as the service's interfaces take it.
  abbrev pub sdk_reader : SdkDatabase → Repository
  sdk_reader db = record {
    find_server_credential = find_server_credential st db;
    find_client_credential = find_client_credential st db;
    load_configuration = load_configuration db;
  }

  abbrev pub sdk_store : ℕ → CredentialStore SdkDatabase
  sdk_store now = record {
    list_credentials = list_credentials;
    create_credential = create_credential st now;
    revoke_credential = revoke_credential st;
    set_client_visible = set_client_visible st;
  }
