-- ===== src/Targeting/Schedules.antt =====
-- backend/internal/database/targeting_repository.go: scheduled changes. The statements of the
-- source are the steps: a conditional update or a transaction is one step; `CancelScheduledChange`
-- reads the row in one step and writes it in another.
pub mod Lifecycle
pub mod Lease
pub mod Applied
use flagstack.Targeting.Repository.{
  Store, Reply, parse_environment_flag_scope, parse_id, parse_project_scope,
  ensure_evaluation_targets, no_policy, only, found, is_config,
}
use flagstack.Targeting.Types.{
  ScheduledChange, Status, CreateScheduleInput, Database, SchedulePatch, TargetingError, ConfigRow,
  schedule_not_pending, constraint, schedule_not_found,
}
use flagstack.Common.{
  [], ◌∷◌, ◌++◌, ◌==◌, ◌&&◌, ◌||◌, ◌+◌, ◌*◌, ok, some, none, true, false, if◌then◌else◌, ◌>>=◌,
  ◌>>◌, zero, suc, ℕ, String, Bool, List, Option, Result, leb, not, eqb, is_empty, guard, length,
  any, filter, update_where,
}

-- scheduleClaimLease, in nanoseconds
abbrev pub schedule_claim_lease : ℕ
schedule_claim_lease = 2 * 60 * 1_000_000_000

abbrev pub is_pending : Status → Bool
is_pending Status.pending = true
is_pending _ = false

abbrev pub is_running : Status → Bool
is_running Status.running = true
is_running _ = false

-- `ClaimedAtLTE(staleBefore)`, with `staleBefore` as now less the lease.
abbrev pub is_stale : ℕ → Option ℕ → Bool
is_stale now none = false
is_stale now (some claimed) = leb (claimed + schedule_claim_lease) now

-- The condition `eligible`.
unfoldable pub eligible : ℕ → ScheduledChange → Bool
eligible now s =
    (is_pending s.status && leb s.execute_at now)
    || (is_running s.status && is_stale now s.claimed_at)

abbrev pub has_token : String → Option String → Bool
has_token token none = false
has_token token (some t) = t == token

-- The condition under which a worker that holds a claim may finish it.
unfoldable pub is_claimed : String → String → ScheduledChange → Bool
is_claimed id token s = s.id == id && is_running s.status && has_token token s.claim_token

module _ (st : Store) where
  abbrev pub parse_creator : String → Result TargetingError String
  parse_creator creator = if is_empty creator then ok "" else parse_id st creator

  -- `id` is the new row's, from `uuid.New`.
  unfoldable pub create_scheduled_change :
      String → String → String → CreateScheduleInput → Database → Reply ScheduledChange
  create_scheduled_change id organisation project input db = do
    (o, p, e, f) ←
        parse_environment_flag_scope st organisation project input.environment_id
          input.feature_flag_id
    ensure_evaluation_targets db o p e f
    creator ← parse_creator input.created_by_user_id
    guard (not (any (λ s. s.id == id) db.schedules)) constraint
    let row : ScheduledChange = record {
      id = id;
      organisation_id = o;
      project_id = p;
      environment_id = e;
      feature_flag_id = f;
      created_by_user_id = creator;
      execute_at = input.execute_at;
      patch = input.patch;
      status = Status.pending;
      claim_token = none;
      claimed_at = none;
      executed_at = none;
      last_error = none;
    }
    ok (row, record db { schedules = db.schedules ++ row ∷ [] })

  -- The first part of `CancelScheduledChange`: the row, if it is pending.
  unfoldable pub cancel_read :
      String → String → String → Database → Result TargetingError ScheduledChange
  cancel_read organisation project schedule db = do
    (o, p) ← parse_project_scope st organisation project
    id ← parse_id st schedule
    entity ←
        only (filter (λ s. s.id == id && s.organisation_id == o && s.project_id == p) db.schedules)
    row ← found schedule_not_found entity
    guard (is_pending row.status) schedule_not_pending
    ok row

-- Its last part: the update by the primary key.
unfoldable pub cancel_write : ScheduledChange → Database → Database
cancel_write row db = record db {
  schedules =
      update_where (λ s. s.id == row.id) (λ s. record s { status = Status.cancelled }) db.schedules;
}

abbrev pub claim_row : String → ℕ → ScheduledChange → ScheduledChange
claim_row token now s = record s {
  status = Status.running;
  claim_token = some token;
  claimed_at = some now;
}

-- One round of the loop of `ClaimDueScheduledChanges`, for a row that the query listed, with a new
-- token: the row's claim, if the update changed one row.
unfoldable pub claim : ℕ → String → ScheduledChange → Database → Option ScheduledChange × Database
claim now token row db =
    let mine = λ (s : ScheduledChange). s.id == row.id && eligible now s in
    (
      if eqb (length (filter mine db.schedules)) 1 then some (claim_row token now row) else none,
      record db { schedules = update_where mine (claim_row token now) db.schedules },
    )

abbrev pub keep {ℓ} : {A : Type ℓ} → Option A → List A → List A
keep none xs = xs
keep (some x) xs = x ∷ xs

-- The loop, with the tokens that `uuid.New` returns.
unfoldable pub claim_all :
    ℕ → List String → List ScheduledChange → Database → List ScheduledChange × Database
claim_all now (token ∷ tokens) (row ∷ rows) db =
    let (c, db') = claim now token row db in
    let (cs, db'') = claim_all now tokens rows db' in (keep c cs, db'')
claim_all now _ _ db = ([], db)

abbrev pub take {ℓ} : {A : Type ℓ} → ℕ → List A → List A
take zero xs = []
take (suc n) [] = []
take (suc n) (x ∷ xs) = x ∷ take n xs

-- `by_due` is the database's ORDER BY on execute_at and id.
unfoldable pub claim_due_scheduled_changes :
    (List ScheduledChange → List ScheduledChange)
    → ℕ
    → ℕ
    → List String
    → Database
    → List ScheduledChange × Database
claim_due_scheduled_changes by_due now limit tokens db =
    claim_all now tokens (take limit (by_due (filter (eligible now) db.schedules))) db

abbrev pub patched {ℓ} : {A : Type ℓ} → Option A → A → A
patched none old = old
patched (some new) old = new

-- Whether the patch changes a field: `reflect.DeepEqual`, or `!=` for the flag.
abbrev pub changes {ℓ} : {A : Type ℓ} → (A → A → Bool) → Option A → A → Bool
changes same none old = false
changes same (some new) old = not (same old new)

abbrev pub same_bool : Bool → Bool → Bool
same_bool true b = b
same_bool false b = not b

module _ (st : Store) where
  -- The new field values of a configuration that a patch is applied to.
  unfoldable pub patch_config : SchedulePatch → ConfigRow → ConfigRow
  patch_config patch row =
      let new_enabled = changes same_bool patch.enabled row.enabled in
      let new_policy = changes st.deep_equal_policy patch.policy row.policy in
      if new_enabled || new_policy
      then record row {
        enabled = if new_enabled then patched patch.enabled row.enabled else row.enabled;
        policy = if new_policy then patched patch.policy row.policy else row.policy;
        revision = suc row.revision;
      }
      else row

  abbrev pub apply_patch :
      String
      → String
      → String
      → String
      → SchedulePatch
      → Option ConfigRow
      → List ConfigRow
      → List ConfigRow
  apply_patch o p e f patch none configs =
      (record {
        organisation_id = o;
        project_id = p;
        environment_id = e;
        feature_flag_id = f;
        enabled = patched patch.enabled false;
        policy = patched patch.policy no_policy;
        revision = 1;
      })
      ∷ configs
  apply_patch o p e f patch (some row) configs =
      update_where (is_config o p e f) (patch_config patch) configs

  -- The transaction of `ApplyClaimedScheduledChange`, at a time now.
  unfoldable pub apply_claimed : ℕ → ScheduledChange → Database → Result TargetingError Database
  apply_claimed now change db = do
    (o, p, e, f) ←
        parse_environment_flag_scope st change.organisation_id change.project_id
          change.environment_id change.feature_flag_id
    id ← parse_id st change.id
    token ← parse_id st (patched change.claim_token "")
    claimed ← only (filter (is_claimed id token) db.schedules)
    schedule ← found schedule_not_pending claimed
    config ← only (filter (is_config o p e f) db.configs)
    ok (record db {
      configs = apply_patch o p e f change.patch config db.configs;
      schedules =
          update_where (λ s. s.id == schedule.id)
            (λ s. record s { status = Status.executed; executed_at = some now; last_error = none })
            db.schedules;
    })

  -- `FailClaimedScheduledChange`; the message is what `why` is shown as.
  unfoldable pub fail_claimed :
      ScheduledChange → TargetingError → Database → Result TargetingError Database
  fail_claimed change why db = do
    id ← parse_id st change.id
    token ← parse_id st (patched change.claim_token "")
    guard (eqb (length (filter (is_claimed id token) db.schedules)) 1) schedule_not_pending
    ok (record db {
      schedules =
          update_where (is_claimed id token)
            (λ s. record s { status = Status.failed; last_error = some why }) db.schedules;
    })
