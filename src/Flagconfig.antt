-- ===== src/Flagconfig.antt =====
-- backend/internal/flagconfig/flagconfig.go and
-- backend/internal/database/flag_config_repository.go. What other calls do to the database between
-- the query for the row and the write is an argument.
pub mod Enabled
use flagstack.Targeting.Types.{ConfigRow, Database, TargetingError}
use flagstack.Targeting.Repository.{
  Store, no_policy, is_config, is_environment, parse_project_scope, is_flag, only, parse_id,
}
use flagstack.Evaluation.Values.{same_bool}
use flagstack.Common.{
  ◌∷◌, ◌==◌, ◌&&◌, ◌||◌, ok, err, some, none, true, false, if◌then◌else◌, ◌>>=◌, ◌>>◌, suc, ℕ,
  String, Bool, List, Option, Result, any, guard, update_where, wrap, not, is_blank, map, filter,
  sort_by, by_two,
}

pub record FlagConfig : Type 0 where
  pub environment_id : String
  pub feature_flag_id : String
  pub enabled : Bool
  pub revision : ℕ

pub data FlagConfigError : Type 0 where
  ids_required : FlagConfigError
  environment_missing feature_flag_missing config_missing : FlagConfigError
  -- any other error of the database
  database_error : TargetingError → FlagConfigError

unfoldable pub flag_config_of : ConfigRow → FlagConfig
flag_config_of row = record {
  environment_id = row.environment_id;
  feature_flag_id = row.feature_flag_id;
  enabled = row.enabled;
  revision = row.revision;
}

unfoldable pub validate_targets :
    Database → String → String → String → String → Result FlagConfigError (Unit {0})
validate_targets db o p e f = do
  guard (any (is_environment o p e) db.environments) environment_missing
  guard (any (is_flag o p f) db.flags) feature_flag_missing

-- The row that `SetEnabled` creates; the policy and the revision are the columns' defaults.
abbrev pub enabled_row : String → String → String → String → ConfigRow
enabled_row o p e f = record {
  organisation_id = o;
  project_id = p;
  environment_id = e;
  feature_flag_id = f;
  enabled = true;
  policy = no_policy;
  revision = 1;
}

-- UpdateOne of the row that was read, by its primary key, with the next of the revision read.
unfoldable pub store_enabled : ConfigRow → Bool → Database → Database
store_enabled row enabled db = record db {
  configs =
      update_where
        (is_config row.organisation_id row.project_id row.environment_id row.feature_flag_id)
        (λ r. record r { enabled = enabled; revision = suc row.revision }) db.configs;
}

abbrev pub change_enabled : ConfigRow → Bool → Database → FlagConfig × Database
change_enabled row enabled db =
    if same_bool row.enabled enabled then (flag_config_of row, db) else (
      flag_config_of (record row { enabled = enabled; revision = suc row.revision }),
      store_enabled row enabled db,
    )

abbrev pub reload : Option ConfigRow → Result FlagConfigError ConfigRow
reload none = err config_missing
reload (some row) = ok row

-- What follows where no row was found: nothing to do, a new row, or the row that another call has
-- created in the meantime.
unfoldable pub create_enabled :
    String → String → String → String → Database → Result FlagConfigError (FlagConfig × Database)
create_enabled o p e f db =
    if any (is_config o p e f) db.configs
    then (do
      found ← wrap database_error (only (filter (is_config o p e f) db.configs))
      row ← reload found
      ok (change_enabled row true db))
    else ok (
      flag_config_of (enabled_row o p e f),
      record db { configs = enabled_row o p e f ∷ db.configs },
    )

abbrev pub absent_config : String → String → FlagConfig
absent_config environment flag = record {
  environment_id = environment;
  feature_flag_id = flag;
  enabled = false;
  revision = 0;
}

module _ (meanwhile : Database → Database) where
  -- `environment` and `flag` are the texts that the caller gave.
  unfoldable pub write_enabled :
      String
      → String
      → String
      → String
      → String
      → String
      → Bool
      → Option ConfigRow
      → Database
      → Result FlagConfigError (FlagConfig × Database)
  write_enabled environment flag o p e f enabled (some row) db =
      ok (change_enabled row enabled (meanwhile db))
  write_enabled environment flag o p e f true none db = create_enabled o p e f (meanwhile db)
  write_enabled environment flag o p e f false none db =
      ok (absent_config environment flag, meanwhile db)

module _ (st : Store) where
  module _ (meanwhile : Database → Database) where
    unfoldable pub set_enabled :
        String
        → String
        → String
        → String
        → Bool
        → Database
        → Result FlagConfigError (FlagConfig × Database)
    set_enabled organisation project environment flag enabled db = do
      (o, p) ← wrap database_error (parse_project_scope st organisation project)
      e ← wrap database_error (parse_id st environment)
      f ← wrap database_error (parse_id st flag)
      validate_targets db o p e f
      found ← wrap database_error (only (filter (is_config o p e f) db.configs))
      write_enabled meanwhile environment flag o p e f enabled found db

    unfoldable pub service_set_enabled :
        String
        → String
        → String
        → String
        → Bool
        → Database
        → Result FlagConfigError (FlagConfig × Database)
    service_set_enabled organisation project environment flag enabled db = do
      guard
          (not (is_blank organisation || is_blank project || is_blank environment || is_blank flag))
          ids_required
      set_enabled organisation project environment flag enabled db

  -- The order of the rows is by the identifiers of the environment and of the flag.
  unfoldable pub list_configs :
      (String → String → Bool)
      → String
      → String
      → Database
      → Result FlagConfigError (List FlagConfig)
  list_configs uuid_le organisation project db = do
    (o, p) ← wrap database_error (parse_project_scope st organisation project)
    ok (
        map flag_config_of (
          sort_by
            (by_two (λ a b. uuid_le a.environment_id b.environment_id)
              (λ a b. uuid_le a.feature_flag_id b.feature_flag_id))
            (filter (λ r. r.organisation_id == o && r.project_id == p) db.configs)))

  unfoldable pub service_list_configs :
      (String → String → Bool)
      → String
      → String
      → Database
      → Result FlagConfigError (List FlagConfig)
  service_list_configs uuid_le organisation project db = do
    guard (not (is_blank organisation || is_blank project)) ids_required
    list_configs uuid_le organisation project db
