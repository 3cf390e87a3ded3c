-- ===== src/Deletion/Worker.antt =====
-- deletion.py: the claim of an operation, the recovery of stale ones with their enqueuing, and
-- `run_operation`.
use lifeflow.Prelude.{
  ℕ, ◌+◌, ◌-◌, Bool, false, ◌&&◌, String, List, [], ◌∷◌, Option, none, some, map, find?, leb, ltb,
  ◌==◌, nat_eq, if◌then◌else◌,
}
use lifeflow.Deletion.Operation.{
  DeletionOperationType, imported_data, account_deletion, retention, DeletionOperationState,
  DataDeletionOperation, is_pending, is_running,
}
use lifeflow.Deletion.Tables.{LinkedAccount, Memory, Tables}
use lifeflow.Deletion.Batches.{Run, run_imported_data_batch, run_batches}
use lifeflow.Deletion.Retention.{RetentionHorizons, unset, run_retention_step}
use lifeflow.Deletion.Account.{run_account_deletion_step}
use lifeflow.Deletion.Lifecycle.{DeletionEvent, Store, audit, store_operation}

abbrev pub claimable : ℕ → DataDeletionOperation → Bool
claimable id o = o.id == id && is_pending o.state

abbrev pub claimed : ℕ → DataDeletionOperation → DataDeletionOperation
claimed now o = record o {
  state = DeletionOperationState.running;
  started_at = some now;
  heartbeat_at = some now;
  attempt_count = o.attempt_count + 1;
}

-- `claim_operation`: the row that the conditional UPDATE returns, read again.
abbrev pub claim_all : ℕ → ℕ → List DataDeletionOperation → List DataDeletionOperation
claim_all now id operations = map (λ o. if claimable id o then claimed now o else o) operations

abbrev pub claim_of : Option DataDeletionOperation → ℕ → Option DataDeletionOperation
claim_of none now = none
claim_of (some o) now = some (claimed now o)

unfoldable pub claim_operation :
    ℕ → ℕ → List DataDeletionOperation → Option DataDeletionOperation × List DataDeletionOperation
claim_operation now id operations =
    (claim_of (find? (claimable id) operations) now, claim_all now id operations)

-- What `enqueue_job` answers: accepted, or an exception.
abbrev pub Queue : Type 0
Queue = ℕ → Bool

abbrev pub enqueued : ℕ → DataDeletionOperation → DataDeletionOperation
enqueued now o = record o { enqueued_at = some now }

-- `_enqueue`
abbrev pub enqueue : ℕ → Queue → DataDeletionOperation → DataDeletionOperation
enqueue now queue o = if queue o.id then enqueued now o else o

abbrev pub enqueue_on : Option Queue → ℕ → DataDeletionOperation → DataDeletionOperation
enqueue_on none now o = o
enqueue_on (some queue) now o = enqueue now queue o

abbrev pub accepts : Option Queue → ℕ → Bool
accepts none id = false
accepts (some queue) id = queue id

abbrev pub before : ℕ → Option ℕ → Bool
before cutoff none = false
before cutoff (some at) = ltb at cutoff

abbrev pub is_stale : ℕ → ℕ → DataDeletionOperation → Bool
is_stale now timeout o = is_running o.state && before (now - timeout) o.heartbeat_at

abbrev pub given_up : ℕ → DataDeletionOperation → DataDeletionOperation
given_up now o = record o {
  state = DeletionOperationState.partially_failed;
  safe_error_code = some "worker_stale_timeout";
  safe_error_message = some "The worker did not finish after repeated attempts.";
  completed_at = some now;
}

abbrev pub requeued : DataDeletionOperation → DataDeletionOperation
requeued o = record o { state = DeletionOperationState.pending; started_at = none }

-- `RecoveryResult`, with what the session holds.
pub record Recovery : Type 0 where
  pub operations : List DataDeletionOperation
  pub events : List DeletionEvent
  pub requeued_count : ℕ
  pub failed_count : ℕ
  pub drained_count : ℕ

module _ (now : ℕ) (redis : Option Queue) where
  -- The queries return every matching row, and the loops change only the row of their round, so each
  -- is one pass over the table. An answer of Redis is for the pass and the operation.
  module _ (timeout max_attempts : ℕ) where
    abbrev pub recover_row : DataDeletionOperation → DataDeletionOperation
    recover_row o =
        if is_stale now timeout o
        then if leb max_attempts o.attempt_count
          then given_up now o
          else enqueue_on redis now (requeued o)
        else o

    abbrev pub recover_events : List DataDeletionOperation → List DeletionEvent → List DeletionEvent
    recover_events [] events = events
    recover_events (o ∷ operations) events = recover_events operations (
        if is_stale now timeout o && leb max_attempts o.attempt_count
        then audit "partially_failed" false (given_up now o) events
        else events)

    abbrev pub count_rows : (DataDeletionOperation → Bool) → List DataDeletionOperation → ℕ
    count_rows p [] = 0
    count_rows p (o ∷ operations) =
        let rest = count_rows p operations in if p o then 1 + rest else rest

  abbrev pub never_enqueued : DataDeletionOperation → Bool
  never_enqueued o = is_pending o.state && unset o.enqueued_at

  module _ (redis_later : Option Queue) where
    abbrev pub drain_row : DataDeletionOperation → DataDeletionOperation
    drain_row o = if never_enqueued o then enqueue_on redis_later now o else o

    unfoldable pub recover_stale_operations :
        ℕ → ℕ → List DataDeletionOperation → List DeletionEvent → Recovery
    recover_stale_operations timeout max_attempts operations events =
        let recovered = map (recover_row timeout max_attempts) operations in
        record {
          operations = map drain_row recovered;
          events = recover_events timeout max_attempts operations events;
          requeued_count =
              count_rows timeout max_attempts
                (λ o. is_stale now timeout o && ltb o.attempt_count max_attempts) operations;
          failed_count =
              count_rows timeout max_attempts
                (λ o. is_stale now timeout o && leb max_attempts o.attempt_count) operations;
          drained_count =
              count_rows timeout max_attempts (λ o. never_enqueued o && accepts redis_later o.id)
                recovered;
        }

abbrev pub exhausted : ℕ → DataDeletionOperation → DataDeletionOperation
exhausted now o = record o {
  state = DeletionOperationState.failed;
  safe_error_code = some "max_attempts_exhausted";
  safe_error_message = some "This operation exceeded the maximum attempts.";
  completed_at = some now;
}

abbrev pub finished : ℕ → DataDeletionOperation → DataDeletionOperation
finished now o =
    if o.resume_cursor.provider_revoke_failed
    then record o {
      state = DeletionOperationState.partially_failed;
      safe_error_code = some "provider_revoke_failed";
      safe_error_message =
          some "Provider access could not be revoked; local data was still erased.";
      completed_at = some now;
    }
    else record o { state = DeletionOperationState.succeeded; completed_at = some now }

-- The event is recorded before `completed_at` is set, which it does not name.
abbrev pub finish_suffix : DataDeletionOperation → String
finish_suffix o = if o.resume_cursor.provider_revoke_failed then "partially_failed" else "completed"

-- What the worker's batches need.
pub record Engine : Type 0 where
  pub horizons : RetentionHorizons
  pub batch_size : ℕ
  pub revoker : Option (LinkedAccount → Bool)
  pub recompute : ℕ → ℕ → Tables → Memory
  pub created_at : ℕ → ℕ
  pub new_subject : ℕ
  pub address : ℕ → String

module _ (e : Engine) (now : ℕ) where
  abbrev pub batch_of : DeletionOperationType → Run → Bool × Run
  batch_of imported_data r = run_imported_data_batch (e.recompute now) e.batch_size r
  batch_of account_deletion r =
      run_account_deletion_step now e.new_subject e.revoker e.batch_size e.address r
  batch_of retention r = run_retention_step e.created_at e.horizons now e.batch_size r

  -- `_run_one_batch`
  unfoldable pub run_one_batch : Run → Bool × Run
  run_one_batch r = batch_of r.operation.operation_type r

  abbrev pub conclude : List DeletionEvent → Option Run → Option Store
  conclude events none = none
  conclude events (some r) = some (
      store_operation (finish_suffix r.operation) false (finished now r.operation)
        (record { tables = r.tables; audit = events }))

  module _ (fuel max_attempts : ℕ) where
    abbrev pub run_claimed : DataDeletionOperation → Store → Option Store
    run_claimed o db =
        if ltb max_attempts o.attempt_count
        then some (store_operation "failed" false (exhausted now o) db)
        else conclude (audit "started" false o db.audit)
            (run_batches run_one_batch now fuel (record { operation = o; tables = db.tables }))

    abbrev pub run_claim : Option DataDeletionOperation → Store → Option Store
    run_claim none db = some db
    run_claim (some o) db = run_claimed o db

    -- `none`: the rounds have not sufficed.
    unfoldable pub run_operation : ℕ → Store → Option Store
    unfolding claim_operation
    run_operation id db =
        let (o, operations) = claim_operation now id db.tables.operations in
        run_claim o (record db { tables = record db.tables { operations = operations } })
