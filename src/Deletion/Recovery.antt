-- ===== src/Deletion/Recovery.antt =====
-- `claim_operation` and `recover_stale_operations` of deletion.py, on one operation and on the table.
use lifeflow.Prelude.{
  ℕ, ◌<◌, true, false, ◌≡◌, refl, List, [], ◌∷◌, Option, none, some, find?, arith, nat_eq, leb,
}
use lifeflow.Deletion.Operation.{DataDeletionOperation, is_pending, is_cancellable}
use lifeflow.Deletion.Worker.{
  Queue, claimable, claim_all, claim_operation, is_stale, recover_row, drain_row, requeued, accepts,
}
use lifeflow.Deletion.Retention.{unset}

claim_all-none :
    (now id : ℕ) (os : List DataDeletionOperation)
    → find? (claimable id) (claim_all now id os) ≡ none
claim_all-none now id [] = refl
claim_all-none now id (o ∷ os) = ground (arith, claim_all-none now id os)

-- Once a worker has tried to claim an operation, a second claim gets nothing, whenever it comes, until
-- something else changes the table: two workers never process one operation.
claim_operation_once :
    (now later id : ℕ) (os : List DataDeletionOperation)
    → (claim_operation later id (claim_operation now id os).1).0 ≡ none
unfolding claim_operation
claim_operation_once now later id os = rw (claim_all-none now id os)

module _ (now timeout max_attempts : ℕ) where
  abbrev pub RecoveredOnce :
      Option Queue → Option Queue → DataDeletionOperation → DataDeletionOperation
  RecoveredOnce redis later o =
      drain_row now redis later (recover_row now redis timeout max_attempts o)

  recovery-is_cancellable :
      (redis later : Option Queue) (o : DataDeletionOperation)
      → is_stale now timeout o ≡ true
      → o.attempt_count < max_attempts
      → let o' = RecoveredOnce redis later o in
        (is_cancellable o'.state ≡ true)
        × (o'.deleted_counts ≡ o.deleted_counts)
        × (o'.resume_cursor ≡ o.resume_cursor)
  recovery-is_cancellable none none o s lt = ground arith
  recovery-is_cancellable none (some q) o s lt = ground arith
  recovery-is_cancellable (some q) none o s lt = ground arith
  recovery-is_cancellable (some q) (some q') o s lt = ground arith

-- A pending operation that was enqueued once.
recovery-enqueued :
    (now timeout max_attempts : ℕ) (redis later : Option Queue) (o : DataDeletionOperation)
    → is_pending o.state ≡ true
    → unset o.enqueued_at ≡ false
    → RecoveredOnce now timeout max_attempts redis later o ≡ o
recovery-enqueued now timeout max_attempts redis later o p u = ground arith

recovery-requeued :
    (now timeout max_attempts : ℕ) (refuses later : Option Queue) (o : DataDeletionOperation)
    → is_stale now timeout o ≡ true
    → leb max_attempts o.attempt_count ≡ false
    → unset o.enqueued_at ≡ false
    → accepts refuses o.id ≡ false
    → RecoveredOnce now timeout max_attempts refuses later o ≡ requeued o
recovery-requeued now timeout max_attempts none later o s lt u r = ground arith
recovery-requeued now timeout max_attempts (some q) later o s lt u r = ground arith

recovery-strands :
    (now timeout max_attempts : ℕ) (refuses later : Option Queue) (o : DataDeletionOperation)
    → is_stale now timeout o ≡ true
    → o.attempt_count < max_attempts
    → unset o.enqueued_at ≡ false
    → accepts refuses o.id ≡ false
    → let o' = RecoveredOnce now timeout max_attempts refuses later o in
      (now' timeout' max_attempts' : ℕ) (redis' later' : Option Queue)
      → RecoveredOnce now' timeout' max_attempts' redis' later' o' ≡ o'
recovery-strands now timeout max_attempts refuses later o s lt u r =
    rw (recovery-requeued now timeout max_attempts refuses later o s (ground arith) u r)
      λ now' timeout' max_attempts' redis' later'.
        recovery-enqueued now' timeout' max_attempts' redis' later' (requeued o) refl u

-- A stale operation with attempts left that has been enqueued before, and that the queue does not
-- accept when it is recovered, is cancellable after the recovery, with what its committed batches have
-- deleted still counted and its cursor kept; and no later recovery enqueues it or changes it at all,
-- whatever the clock and the queue.
pub recovery-stale :
    (now timeout max_attempts : ℕ) (redis later : Option Queue) (o : DataDeletionOperation)
    → is_stale now timeout o ≡ true
    → o.attempt_count < max_attempts
    → unset o.enqueued_at ≡ false
    → accepts redis o.id ≡ false
    → let o' = RecoveredOnce now timeout max_attempts redis later o in
      ((is_cancellable o'.state ≡ true)
        × (o'.deleted_counts ≡ o.deleted_counts)
        × (o'.resume_cursor ≡ o.resume_cursor))
      × ((now' timeout' max_attempts' : ℕ) (redis' later' : Option Queue)
          → RecoveredOnce now' timeout' max_attempts' redis' later' o' ≡ o')
recovery-stale now timeout max_attempts redis later o s lt u r = (
  recovery-is_cancellable now timeout max_attempts redis later o s lt,
  recovery-strands now timeout max_attempts redis later o s lt u r,
)
