-- ===== src/Deletion/Consistent.antt =====
-- What holds of every row of `data_deletion_operations`, and the changes that deletion.py makes to one.
use lifeflow.Prelude.{
  ℕ, ◌≤◌, ◌<◌, Bool, true, false, ◌≡◌, ◌≢◌, String, [], Option, none, some, arith, nat_eq, if-cases,
}
use lifeflow.Deletion.Operation.{
  DeletionOperationType, DeletionOperationState, ScopeKey, Cursor, Counts, DataDeletionOperation,
  is_previewed, is_pending, is_running, is_live, is_terminal,
}
use lifeflow.Deletion.Tables.{Tables}
use lifeflow.Deletion.Plans.{Plan, planned}
use lifeflow.Deletion.Lifecycle.{blank, refreshed, confirmed, cancelled_row}
use lifeflow.Deletion.Retention.{retention_operation}
use lifeflow.Deletion.Worker.{Queue, claimed, enqueue_on, given_up, requeued, finished}

abbrev pub is_cancelled : DeletionOperationState → Bool
is_cancelled DeletionOperationState.cancelled = true
is_cancelled _ = false

abbrev pub is_failed : DeletionOperationState → Bool
is_failed DeletionOperationState.failed = true
is_failed _ = false

abbrev pub is_partially_failed : DeletionOperationState → Bool
is_partially_failed DeletionOperationState.partially_failed = true
is_partially_failed _ = false

pub record IsConsistent (max_attempts : ℕ) (o : DataDeletionOperation) : Type 0 where
  pub versioned : 1 ≤ o.version
  pub attempts : o.attempt_count ≤ max_attempts
  pub tries_left : is_pending o.state ≡ true → o.attempt_count < max_attempts
  pub untried : is_previewed o.state ≡ true → o.attempt_count ≡ 0
  pub untouched : is_previewed o.state ≡ true → o.deleted_counts ≡ []
  pub no_phase : is_previewed o.state ≡ true → o.resume_cursor.phase ≡ none
  pub tried : is_running o.state ≡ true → 1 ≤ o.attempt_count
  pub started : is_running o.state ≡ true → o.started_at ≢ none
  pub beating : is_running o.state ≡ true → o.heartbeat_at ≢ none
  pub under_way : is_live o.state ≡ true → o.completed_at ≡ none
  pub ended : is_terminal o.state ≡ true → o.completed_at ≢ none
  pub withdrawn : is_cancelled o.state ≡ true → o.cancellation_requested_at ≢ none
  pub explained : is_partially_failed o.state ≡ true → o.safe_error_code ≢ none
  pub never_failed : is_failed o.state ≡ false

module _ (max_attempts : ℕ) (some_tries : 1 ≤ max_attempts) where
  module _ (digest : Plan → String) (audit_events : ℕ → ℕ) (now ttl_minutes : ℕ) (t : Tables) where
    pub planned-IsConsistent :
        (new_id user_id : ℕ) (type : DeletionOperationType) (account : Option ℕ) (key : ScopeKey)
        → IsConsistent max_attempts (
            planned digest audit_events now ttl_minutes t
              (blank now new_id user_id type account key))
    planned-IsConsistent new_id user_id type account key = ground arith

    pub refreshed-IsConsistent :
        (o : DataDeletionOperation)
        → IsConsistent max_attempts o
        → IsConsistent max_attempts (refreshed digest audit_events now ttl_minutes t o)
    refreshed-IsConsistent o v = ground arith

  pub confirmed-IsConsistent :
      (o : DataDeletionOperation)
      → is_previewed o.state ≡ true
      → IsConsistent max_attempts o
      → IsConsistent max_attempts (confirmed o)
  confirmed-IsConsistent o p v = ground arith

  pub retention_operation-IsConsistent :
      (now : ℕ) (new_id : ℕ → ℕ) (user_id : ℕ)
      → IsConsistent max_attempts (retention_operation now new_id user_id)
  retention_operation-IsConsistent now new_id user_id = ground arith

  module _ (now : ℕ) where
    pub cancelled_row-IsConsistent :
        (o : DataDeletionOperation)
        → IsConsistent max_attempts o
        → IsConsistent max_attempts (cancelled_row now o)
    cancelled_row-IsConsistent o v = ground arith

    pub claimed-IsConsistent :
        (o : DataDeletionOperation)
        → is_pending o.state ≡ true
        → IsConsistent max_attempts o
        → IsConsistent max_attempts (claimed now o)
    claimed-IsConsistent o p v = ground arith

    pub enqueue_on-IsConsistent :
        (redis : Option Queue) (o : DataDeletionOperation)
        → IsConsistent max_attempts o
        → IsConsistent max_attempts (enqueue_on redis now o)
    enqueue_on-IsConsistent none o v = v
    enqueue_on-IsConsistent (some queue) o v =
        if-cases (IsConsistent max_attempts) (queue o.id) (λ _. ground arith) (λ _. v)

    pub given_up-IsConsistent :
        (o : DataDeletionOperation)
        → IsConsistent max_attempts o
        → IsConsistent max_attempts (given_up now o)
    given_up-IsConsistent o v = ground arith

    pub finished-IsConsistent :
        (o : DataDeletionOperation)
        → IsConsistent max_attempts o
        → IsConsistent max_attempts (finished now o)
    finished-IsConsistent o v =
        if-cases (IsConsistent max_attempts) o.resume_cursor.provider_revoke_failed
          (λ _. ground arith) (λ _. ground arith)

  pub requeued-IsConsistent :
      (o : DataDeletionOperation)
      → is_running o.state ≡ true
      → o.attempt_count < max_attempts
      → IsConsistent max_attempts o
      → IsConsistent max_attempts (requeued o)
  requeued-IsConsistent o r lt v = ground arith

  -- What a batch changes of a running operation.
  pub advanced-IsConsistent :
      (o : DataDeletionOperation) (cursor : Cursor) (counts : Counts)
      → is_running o.state ≡ true
      → IsConsistent max_attempts o
      → IsConsistent max_attempts (record o { resume_cursor = cursor; deleted_counts = counts })
  advanced-IsConsistent o cursor counts r v = ground arith

  pub beaten-IsConsistent :
      (o : DataDeletionOperation) (now : ℕ)
      → IsConsistent max_attempts o
      → IsConsistent max_attempts (record o { heartbeat_at = some now })
  beaten-IsConsistent o now v = ground arith

  pub forgotten-IsConsistent :
      (o : DataDeletionOperation) (account : Option ℕ)
      → IsConsistent max_attempts o
      → IsConsistent max_attempts (record o { source_account_id = account })
  forgotten-IsConsistent o account v = ground arith
