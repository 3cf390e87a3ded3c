-- ===== src/Deletion/Refinement.antt =====
-- `run_operation` of deletion.py on imported data: its batches against one stroke, and after a crash.
use lifeflow.Prelude.{ℕ, ◌+◌, ◌≤◌, ◌<◌, Bool, ◌≡◌, refl, ap, ◌∙◌, some}
use lifeflow.Records.{SourceItem}
use lifeflow.Deletion.Operation.{DataDeletionOperation}
use lifeflow.Deletion.Tables.{Memory, Tables, imported_scope}
use lifeflow.Deletion.Cleanup.{run_derived_cleanup-Preserved}
use lifeflow.Deletion.Batches.{
  Run, staged_batch, imported_cleanup, imported_batch_of, run_imported_data_batch, run_batches,
}
use lifeflow.Deletion.Removal.{DistinctIds, in_scope}
use lifeflow.Deletion.OneStroke.{phase_of, finish_from, run_staged}

module _ (recompute : ℕ → Tables → Memory) (account : ℕ) where
  -- The scope of an operation.
  abbrev pub scope_of : DataDeletionOperation → SourceItem → Bool
  scope_of o = imported_scope o.user_id account o.snapshot_cutoff

  -- The operation from its phase on in one stroke: the derived rows once, then every source item of
  -- the scope, with the counts of both.
  abbrev pub one_stroke : ℕ → Run → Run
  one_stroke now r =
      finish_from (scope_of r.operation) now
        (imported_cleanup recompute r.operation.user_id (scope_of r.operation)) (phase_of r) r

  abbrev Fixed : DataDeletionOperation → DataDeletionOperation → Type 0
  Fixed o p =
      (p.source_account_id ≡ some account)
      × (p.user_id ≡ o.user_id)
      × (p.snapshot_cutoff ≡ o.snapshot_cutoff)

  pub batch-staged :
      (o : DataDeletionOperation) (limit : ℕ) (r : Run)
      → Fixed o r.operation
      → run_imported_data_batch recompute limit r
        ≡ staged_batch
            (scope_of o)
            (imported_cleanup recompute o.user_id (scope_of o))
            limit
            (phase_of r)
            r
  unfolding run_imported_data_batch
  batch-staged o limit r (a, u, c) =
      let batch : ℕ → ℕ → Bool × Run = λ user_id cutoff.
        let scope = imported_scope user_id account cutoff in
        staged_batch scope (imported_cleanup recompute user_id scope) limit (phase_of r) r in
      ap (λ x. imported_batch_of recompute x limit r) a
      ∙ ap (λ x. batch x r.operation.snapshot_cutoff) u
      ∙ ap (batch o.user_id) c

  pub run_batches-one_stroke :
      (limit now fuel : ℕ) (r : Run)
      → 1 ≤ limit
      → r.operation.source_account_id ≡ some account
      → DistinctIds r.tables.source_items
      → in_scope (scope_of r.operation) r.tables.source_items + 1 < fuel
      → run_batches (run_imported_data_batch recompute limit) now fuel r ≡ some (one_stroke now r)
  run_batches-one_stroke limit now fuel r positive a distinct enough =
      let o = r.operation in
      run_staged (scope_of o) now (imported_cleanup recompute o.user_id (scope_of o)) (Fixed o)
        (λ p cursor counts beat_at f. f) (run_imported_data_batch recompute limit) limit positive
        (batch-staged o limit)
        (λ t c. (run_derived_cleanup-Preserved o.user_id (scope_of o) t c).sources) (phase_of r)
        fuel r refl (a, refl, refl) distinct enough
