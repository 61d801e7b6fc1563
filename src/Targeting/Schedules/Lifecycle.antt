-- ===== src/Targeting/Schedules/Lifecycle.antt =====
-- The statuses of a scheduled change: pending, running, executed, failed and cancelled.
use flagstack.Targeting.Repository.Queries.{only-some, found-eq-ok}
use flagstack.Targeting.Schedules.{
  is_claimed, apply_claimed, create_scheduled_change, is_running, cancel_write, claim, patched,
  fail_claimed,
}
use flagstack.Targeting.Types.{
  ScheduledChange, Status, Database, CreateScheduleInput, TargetingError, schedule_not_pending,
}
use flagstack.Targeting.Repository.{
  Store, parse_id, parse_environment_flag_scope, only, found, is_config,
}
use flagstack.Common.{
  [], ◌∷◌, ◌==◌, ◌≡◌, ok, some, none, true, false, refl, sym, ap, ◌∙◌, All, ℕ, String, Bool, List,
  >>=-eq-ok, ok-inj, arith, any, filter, update_where,
}

-- One step of the workers and the requests. A cancellation may write any row that it read before;
-- `untouched` is any operation that leaves the table of scheduled changes as it is.
pub data Step (st : Store) : Database → Database → Type 0 where
  row_created :
      (id o p : String) (input : CreateScheduleInput) {row : ScheduledChange} {db db' : Database}
      → create_scheduled_change st id o p input db ≡ ok (row, db')
      → Step st db db'
  row_cancelled : (row : ScheduledChange) {db : Database} → Step st db (cancel_write row db)
  row_claimed :
      (now : ℕ) (token : String) (row : ScheduledChange) {db : Database}
      → Step st db (claim now token row db).1
  row_applied :
      (now : ℕ) (change : ScheduledChange) {db db' : Database}
      → apply_claimed st now change db ≡ ok db'
      → Step st db db'
  row_failed :
      (change : ScheduledChange) (why : TargetingError) {db db' : Database}
      → fail_claimed st change why db ≡ ok db'
      → Step st db db'
  untouched : {db db' : Database} → db'.schedules ≡ db.schedules → Step st db db'

pub data Steps (st : Store) : Database → Database → Type 0 where
  done : {db : Database} → Steps st db db
  next : {a b c : Database} → Step st a b → Steps st b c → Steps st a c

abbrev pub is_active : Status → Bool
is_active Status.pending = true
is_active Status.running = true
is_active _ = false

-- A row has the id, and every row with the id is neither pending nor running.
abbrev IsFinished : String → List ScheduledChange → Type 0
IsFinished id rows =
    (any (λ s. s.id == id) rows ≡ true)
    × All (λ s. s.id == id ≡ true → is_active s.status ≡ false) rows

pub claimed-running :
    (id token : String) (s : ScheduledChange)
    → is_claimed id token s ≡ true
    → (s.id == id ≡ true) × (is_active s.status ≡ true)
unfolding is_claimed
claimed-running id token s h = (ground arith, running s.status (ground arith))
  where
    running : (status : Status) → is_running status ≡ true → is_active status ≡ true
    running Status.running e = refl
    running Status.pending e = cc
    running Status.executed e = cc
    running Status.failed e = cc
    running Status.cancelled e = cc

module _ (st : Store) where
  -- What a successful `ApplyClaimedScheduledChange` found, and what it wrote to the table.
  pub apply_claimed-inv :
      (now : ℕ) (change : ScheduledChange) (db db' : Database)
      → apply_claimed st now change db ≡ ok db'
      → (id : String) × (token : String) × (s : ScheduledChange) × (parse_id st change.id ≡ ok id)
        × (parse_id st (patched change.claim_token "") ≡ ok token)
        × (filter (is_claimed id token) db.schedules ≡ s ∷ [])
        × (db'.schedules
            ≡ update_where
                (λ r. r.id == s.id)
                (λ r. record r {
                  status = Status.executed;
                  executed_at = some now;
                  last_error = none;
                })
                db.schedules)
  unfolding apply_claimed
  apply_claimed-inv now change db db' h =
      let (scope, _, h1) =
        >>=-eq-ok
          (parse_environment_flag_scope st change.organisation_id change.project_id
            change.environment_id change.feature_flag_id)
          _ h in
      let (id, parsed, h2) = >>=-eq-ok (parse_id st change.id) _ h1 in
      let (token, holds, h3) = >>=-eq-ok (parse_id st (patched change.claim_token "")) _ h2 in
      let (claimed, one, h4) = >>=-eq-ok (only (filter (is_claimed id token) db.schedules)) _ h3 in
      let (s, got, h5) = >>=-eq-ok (found schedule_not_pending claimed) _ h4 in
      let (config, _, h6) =
        >>=-eq-ok (only (filter (is_config scope.0 scope.1 scope.2 scope.3) db.configs)) _ h5 in
      (
        id,
        token,
        s,
        parsed,
        holds,
        only-some (filter (is_claimed id token) db.schedules) s
            (one ∙ ap (λ o. ok o) (found-eq-ok schedule_not_pending claimed s got)),
        ap (λ d. d.schedules) (sym (ok-inj h6)),
      )
