-- ===== src/Targeting/Repository.antt =====
-- backend/internal/database/targeting_repository.go: flags, environment configurations and
-- segments. A table is a list of rows, a query a filter on it; an update changes the rows with the
-- primary key, which for a configuration is its unique pair of an environment and a flag. That the
-- database fails is not modelled.
pub mod Queries
use flagstack.Targeting.Types.{
  Segment, ConfigRow, Database, EnvironmentRow, FlagRow, TargetingError, EnvironmentState,
  FlagState, bad_uuid, not_singular, environment_not_found, feature_flag_not_found, SegmentInput,
  project_not_found, segment_not_found, segment_key_conflict,
}
use flagstack.Evaluation.Types.{Policy, Variant, Flag}
use flagstack.Evaluation.Types
use flagstack.Common.{
  [], ◌∷◌, ◌==◌, ◌&&◌, ◌||◌, ok, err, some, none, false, if◌then◌else◌, ◌>>=◌, ◌>>◌, String, Bool,
  List, Option, Result, map, guard, not, ◌++◌, suc, ◌≡◌, true, any, filter, update_where,
}

-- What the repository uses of other packages: `uuid.Parse` with the canonical text of its result,
-- and reflect.DeepEqual, which tells a nil slice from an empty one, on policies and variants.
pub record Store : Type 0 where
  pub parse_uuid : String → Option String
  pub deep_equal_policy : Policy → Policy → Bool
  pub deep_equal_variants : List Variant → List Variant → Bool

-- Deep equality of policies implies that they are equal as lists.
abbrev pub DeepEqualIsEqual : Store → Type 0
DeepEqualIsEqual st = (a b : Policy) → st.deep_equal_policy a b ≡ true → a ≡ b

-- What a call returns and the state of the database behind it.
abbrev pub Reply : Type 0 → Type 0
Reply A = Result TargetingError (A × Database)

-- `Only`, where none is "not found".
abbrev pub only {ℓ} : {A : Type ℓ} → List A → Result TargetingError (Option A)
only [] = ok none
only (x ∷ []) = ok (some x)
only (x ∷ y ∷ rest) = err not_singular

abbrev pub found {ℓ} : {A : Type ℓ} → TargetingError → Option A → Result TargetingError A
found e none = err e
found e (some x) = ok x

module _ (st : Store) where
  unfoldable pub parse_id : String → Result TargetingError String
  parse_id s = found (bad_uuid s) (st.parse_uuid s)

  unfoldable pub parse_project_scope : String → String → Result TargetingError (String × String)
  unfolding parse_id
  parse_project_scope organisation project = do
    o ← parse_id organisation
    p ← parse_id project
    ok (o, p)

  unfoldable pub parse_flag_scope :
      String → String → String → Result TargetingError (String × String × String)
  parse_flag_scope organisation project flag = do
    (o, p) ← parse_project_scope organisation project
    f ← parse_id flag
    ok (o, p, f)

  unfoldable pub parse_environment_flag_scope :
      String → String → String → String → Result TargetingError (String × String × String × String)
  parse_environment_flag_scope organisation project environment flag = do
    (o, p, f) ← parse_flag_scope organisation project flag
    e ← parse_id environment
    ok (o, p, e, f)

abbrev pub is_flag : String → String → String → FlagRow → Bool
is_flag o p f row =
    row.id == f && row.organisation_id == o && row.project_id == p && not row.archived

abbrev pub is_environment : String → String → String → EnvironmentRow → Bool
is_environment o p e row = row.id == e && row.organisation_id == o && row.project_id == p

abbrev pub is_config : String → String → String → String → ConfigRow → Bool
is_config o p e f row =
    row.organisation_id == o
    && row.project_id == p
    && row.environment_id == e
    && row.feature_flag_id == f

unfoldable pub ensure_evaluation_targets :
    Database → String → String → String → String → Result TargetingError (Unit {0})
ensure_evaluation_targets db o p e f = do
  guard (any (is_environment o p e) db.environments) environment_not_found
  guard (any (is_flag o p f) db.flags) feature_flag_not_found

unfoldable pub environment_state : ConfigRow → EnvironmentState
environment_state row = record {
  environment_id = row.environment_id;
  enabled = row.enabled;
  policy = row.policy;
  revision = row.revision;
}

module _ (st : Store) (db : Database) where
  unfoldable pub get_flag_state : String → String → String → Result TargetingError FlagState
  get_flag_state organisation project flag = do
    (o, p) ← parse_project_scope st organisation project
    f ← parse_id st flag
    row ← only (filter (is_flag o p f) db.flags)
    r ← found feature_flag_not_found row
    ok (record {
      id = r.id;
      key = r.key;
      kind = r.kind;
      default_value = r.default_value;
      variants = r.variants;
      environments = map environment_state (
          filter (λ c. c.organisation_id == o && c.project_id == p && c.feature_flag_id == f)
            db.configs);
    })

-- UpdateOne of a flag, by its primary key.
unfoldable pub store_variants : FlagRow → List Variant → Database → Database
store_variants row variants db = record db {
  flags = update_where (λ r. r.id == row.id) (λ r. record r { variants = variants }) db.flags;
}

-- UpdateOne of a configuration with a new policy and the next revision.
unfoldable pub store_policy : ConfigRow → Policy → Database → Database
store_policy row policy db = record db {
  configs =
      update_where
        (is_config row.organisation_id row.project_id row.environment_id row.feature_flag_id)
        (λ r. record r { policy = policy; revision = suc r.revision }) db.configs;
}

-- The row that `SetPolicy` creates; the revision is the column's default.
abbrev pub new_config : String → String → String → String → Policy → ConfigRow
new_config o p e f policy = record {
  organisation_id = o;
  project_id = p;
  environment_id = e;
  feature_flag_id = f;
  enabled = false;
  policy = policy;
  revision = 1;
}

unfoldable pub no_policy : Policy
no_policy = record {
  rules = [];
  fallthrough = record { variant = ""; rollout = []; bucket_by = "" };
}

-- The row that `CreateSegment` creates.
abbrev pub new_segment : String → String → String → SegmentInput → Segment
new_segment id o p input = record {
  id = id;
  organisation_id = o;
  project_id = p;
  name = input.name;
  key = input.key;
  description = input.description;
  mode = input.mode;
  conditions = input.conditions;
  archived = false;
}

-- The update sets every field of the input but the key.
abbrev pub changed_segment : SegmentInput → Segment → Segment
changed_segment input row = record row {
  name = input.name;
  description = input.description;
  mode = input.mode;
  conditions = input.conditions;
}

-- `state` of `LoadEvaluation`.
abbrev pub state_or_default : String → Option ConfigRow → EnvironmentState
state_or_default environment none = record {
  environment_id = environment;
  enabled = false;
  policy = no_policy;
  revision = 0;
}
state_or_default environment (some row) = environment_state row

abbrev pub segment_of : Segment → Types.Segment
segment_of s = record { key = s.key; name = s.name; mode = s.mode; conditions = s.conditions }

module _ (st : Store) where
  unfoldable pub set_variants : String → String → String → List Variant → Database → Reply FlagState
  set_variants organisation project flag variants db = do
    (o, p, f) ← parse_flag_scope st organisation project flag
    entity ← only (filter (is_flag o p f) db.flags)
    row ← found feature_flag_not_found entity
    let db' =
        if st.deep_equal_variants row.variants variants then db else store_variants row variants db
    state ← get_flag_state st db' organisation project flag
    ok (state, db')

  -- What `SetPolicy` does with the row that it found.
  abbrev pub put_policy :
      String
      → String
      → String
      → String
      → Policy
      → Database
      → Option ConfigRow
      → EnvironmentState × Database
  put_policy o p e f policy db none =
      let row = new_config o p e f policy in
      (environment_state row, record db { configs = row ∷ db.configs })
  put_policy o p e f policy db (some row) =
      if st.deep_equal_policy row.policy policy then (environment_state row, db) else (
        environment_state (record row { policy = policy; revision = suc row.revision }),
        store_policy row policy db,
      )

  unfoldable pub set_policy :
      String → String → String → String → Policy → Database → Reply EnvironmentState
  set_policy organisation project environment flag policy db = do
    (o, p, e, f) ← parse_environment_flag_scope st organisation project environment flag
    ensure_evaluation_targets db o p e f
    entity ← only (filter (is_config o p e f) db.configs)
    ok (put_policy o p e f policy db entity)

  unfoldable pub list_segments : String → String → Database → Result TargetingError (List Segment)
  list_segments organisation project db = do
    (o, p) ← parse_project_scope st organisation project
    ok (filter (λ s. s.organisation_id == o && s.project_id == p && not s.archived) db.segments)

  unfoldable pub load_evaluation :
      String
      → String
      → String
      → String
      → Database
      → Result TargetingError (Flag × List Types.Segment)
  load_evaluation organisation project environment flag db = do
    (o, p, e, f) ← parse_environment_flag_scope st organisation project environment flag
    ensure_evaluation_targets db o p e f
    entity ← only (filter (λ r. r.id == f) db.flags)
    row ← found feature_flag_not_found entity
    config ← only (filter (is_config o p e f) db.configs)
    let state = state_or_default environment config
    segments ← list_segments organisation project db
    ok (
      record {
        id = row.id;
        environment_id = environment;
        key = row.key;
        kind = row.kind;
        default_value = row.default_value;
        enabled = state.enabled;
        variants = row.variants;
        policy = state.policy;
      },
      map segment_of segments,
    )

  -- `id` is the new row's, from `uuid.New`. The keys of a project's segments are unique.
  unfoldable pub create_segment : String → String → String → SegmentInput → Database → Reply Segment
  create_segment id organisation project input db = do
    (o, p) ← parse_project_scope st organisation project
    guard (any (λ r. r.id == p && r.organisation_id == o && not r.archived) db.projects)
        project_not_found
    guard (not (any (λ s. s.id == id || (s.project_id == p && s.key == input.key)) db.segments))
        segment_key_conflict
    let row = new_segment id o p input
    ok (row, record db { segments = db.segments ++ row ∷ [] })

  unfoldable pub update_segment : String → String → String → SegmentInput → Database → Reply Segment
  update_segment organisation project segment input db = do
    (o, p) ← parse_project_scope st organisation project
    id ← parse_id st segment
    entity ← only (
        filter (λ s. s.id == id && s.organisation_id == o && s.project_id == p && not s.archived)
          db.segments)
    row ← found segment_not_found entity
    ok (
      changed_segment input row,
      record db {
        segments = update_where (λ s. s.id == row.id) (changed_segment input) db.segments;
      },
    )
