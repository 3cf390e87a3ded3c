-- ===== src/Deletion/Batches.antt =====
-- The bounded batches of deletion.py and retention.py: the derived rows first, then the source items,
-- a batch at a time, and the loop of `run_operation` over them.
use lifeflow.Prelude.{
  ℕ, zero, suc, Bool, true, false, not, List, [], ◌∷◌, Option, none, some, map, select, contains,
  length, ◌==◌, nat_eq, if◌then◌else◌,
}
use lifeflow.Records.{SourceItem}
use lifeflow.Deletion.Operation.{
  Phase, derived, sources, done, Cursor, Counts, add, DataDeletionOperation,
}
use lifeflow.Deletion.Tables.{Memory, Tables, imported_scope}
use lifeflow.Deletion.Planner.{run_derived_cleanup}

abbrev pub take {ℓ} : {A : Type ℓ} → ℕ → List A → List A
take zero xs = []
take (suc n) [] = []
take (suc n) (x ∷ xs) = x ∷ take n xs

-- What the session of a worker holds: the operation and the tables.
pub record Run : Type 0 where
  pub operation : DataDeletionOperation
  pub tables : Tables

abbrev pub phase_or : Phase → Option Phase → Phase
phase_or default none = default
phase_or default (some p) = p

module _ (scope : SourceItem → Bool) (limit : ℕ) where
  abbrev pub batch_ids : List SourceItem → List ℕ
  batch_ids items = take limit (map (λ s. s.id) (select scope items))

  -- `delete_source_items_batch`: how many were deleted, and what is left.
  unfoldable pub delete_source_items_batch : List SourceItem → ℕ × List SourceItem
  delete_source_items_batch items =
      let ids = batch_ids items in (length ids, select (λ s. not (contains ids s.id)) items)

-- `resume_cursor_json = {"phase": …}`
abbrev pub cursor_at : Phase → Cursor
cursor_at p = record { phase = some p; provider_revoke_failed = false }

module _ (scope : SourceItem → Bool) (derive : Tables → Counts → Tables × Counts) where
  abbrev pub derived_step : Run → Run
  derived_step r =
      let (t, counts) = derive r.tables r.operation.deleted_counts in
      record {
        operation = record r.operation {
          resume_cursor = cursor_at sources;
          deleted_counts = counts;
        };
        tables = t;
      }

  abbrev pub sources_step : ℕ → Run → Bool × Run
  sources_step limit r =
      let (n, items) = delete_source_items_batch scope limit r.tables.source_items in
      if n == 0
      then (true, record r { operation = record r.operation { resume_cursor = cursor_at done } })
      else (
        false,
        record {
          operation = record r.operation {
            deleted_counts = add "source_items" n r.operation.deleted_counts;
          };
          tables = record r.tables { source_items = items };
        },
      )

  -- One batch, and whether the operation is complete.
  abbrev pub staged_batch : ℕ → Phase → Run → Bool × Run
  staged_batch limit derived r = (false, derived_step r)
  staged_batch limit sources r = sources_step limit r
  staged_batch limit _ r = (true, r)

module _ (recompute : ℕ → Tables → Memory) where
  -- The cleanup of the derived rows, and `recompute_user_memory` at the worker's clock after it, which
  -- is `recompute`: it reads what it needs of the tables and writes the memory.
  abbrev pub imported_cleanup : ℕ → (SourceItem → Bool) → Tables → Counts → Tables × Counts
  imported_cleanup user_id scope t counts =
      let (t', counts') = run_derived_cleanup user_id scope t counts in
      (record t' { memory = recompute user_id t' }, counts')

  abbrev pub imported_batch_of : Option ℕ → ℕ → Run → Bool × Run
  imported_batch_of none limit r = (true, r)
  imported_batch_of (some account) limit r =
      let o = r.operation in
      let scope = imported_scope o.user_id account o.snapshot_cutoff in
      staged_batch scope (imported_cleanup o.user_id scope) limit
        (phase_or derived o.resume_cursor.phase) r

  -- `_run_imported_data_batch`
  unfoldable pub run_imported_data_batch : ℕ → Run → Bool × Run
  run_imported_data_batch limit r = imported_batch_of r.operation.source_account_id limit r

abbrev pub beat : ℕ → Run → Run
beat now r = record r { operation = record r.operation { heartbeat_at = some now } }

-- The `while True` of `run_operation`. The fuel bounds the rounds: `none` is a loop that has not
-- ended within them.
abbrev pub run_batches : (Run → Bool × Run) → ℕ → ℕ → Run → Option Run
run_batches step now zero r = none
run_batches step now (suc fuel) r =
    let (complete, r') = step r in
    let rest = run_batches step now fuel (beat now r') in
    if complete then some (beat now r') else rest

-- The batches that a worker has committed when it dies in or after its `k`th one: the batch under way
-- is rolled back.
abbrev pub committed : (Run → Bool × Run) → ℕ → ℕ → Run → Run
committed step now zero r = r
committed step now (suc k) r =
    let (complete, r') = step r in
    let rest = committed step now k (beat now r') in if complete then beat now r' else rest
