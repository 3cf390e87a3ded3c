-- ===== src/Deletion/Sessions.antt =====
-- The operation and the table of operations through the batches that deletion.py runs.
use lifeflow.Prelude.{
  ℕ, zero, suc, ◌≤◌, Bool, true, ◌≡◌, refl, sym, subst, ◌∙◌, String, List, [], ◌∷◌, Option, none,
  some, find?, select, ◌==◌, nat_eq, if-cases,
}
use lifeflow.Models.{ExecutionOutcome}
use lifeflow.Records.{SourceItem, ActionProposal}
use lifeflow.Deletion.Operation.{
  DeletionOperationType, imported_data, account_deletion, retention, Phase, derived, sources,
  credentials, product, minimise, finalise, done, Cursor, Counts, DataDeletionOperation, is_running,
}
use lifeflow.Deletion.Tables.{
  User, LinkedAccount, Memory, Tables, imported_scope, expired_scope, outcome_of,
}
use lifeflow.Deletion.Cleanup.{run_derived_cleanup-Preserved}
use lifeflow.Deletion.Batches.{
  Run, phase_or, staged_batch, delete_source_items_batch, imported_cleanup, imported_batch_of,
  run_imported_data_batch, beat, run_batches, committed,
}
use lifeflow.Deletion.Retention.{
  RetentionHorizons, cutoff, delete_age_based_categories, retention_cleanup, run_retention_step,
}
use lifeflow.Deletion.Account.{
  delete_accounts, minimise_if_acted_on, minimise_acted_on, clear_product, account_phase,
  is_deleted, account_step_of, run_account_deletion_step,
}
use lifeflow.Deletion.Worker.{Engine, batch_of, run_one_batch}
use lifeflow.Deletion.Rows.{All, All-map}
use lifeflow.Deletion.Consistent.{
  IsConsistent, advanced-IsConsistent, beaten-IsConsistent, forgotten-IsConsistent,
}

module _ (max_attempts : ℕ) (some_tries : 1 ≤ max_attempts) where
  abbrev pub AllConsistent : List DataDeletionOperation → Type 0
  AllConsistent = All (IsConsistent max_attempts)

  -- A session that holds a running operation, whose row and table are consistent.
  pub record IsWorking (r : Run) : Type 0 where
    pub running : is_running r.operation.state ≡ true
    pub row : IsConsistent max_attempts r.operation
    pub rows : AllConsistent r.tables.operations

  advanced-IsWorking :
      (r : Run) (cursor : Cursor) (counts : Counts) (t : Tables)
      → IsWorking r
      → AllConsistent t.operations
      → IsWorking (record {
        operation = record r.operation { resume_cursor = cursor; deleted_counts = counts };
        tables = t;
      })
  advanced-IsWorking r cursor counts t w rows = record {
    running = w.running;
    row = advanced-IsConsistent max_attempts some_tries r.operation cursor counts w.running w.row;
    rows = rows;
  }

  pub beat-IsWorking : (now : ℕ) (r : Run) → IsWorking r → IsWorking (beat now r)
  beat-IsWorking now r w = record {
    running = w.running;
    row = beaten-IsConsistent max_attempts some_tries r.operation now w.row;
    rows = w.rows;
  }

  module _ (scope : SourceItem → Bool) (derive : Tables → Counts → Tables × Counts)
      (leaves : (t : Tables) (c : Counts) → (derive t c).0.operations ≡ t.operations) where
    staged_batch-IsWorking :
        (limit : ℕ) (p : Phase) (r : Run)
        → IsWorking r
        → IsWorking (staged_batch scope derive limit p r).1
    staged_batch-IsWorking limit derived r w =
        advanced-IsWorking r _ _ _ w
          (subst AllConsistent (sym (leaves r.tables r.operation.deleted_counts)) w.rows)
    staged_batch-IsWorking limit sources r w =
        if-cases (λ (s : Bool × Run). IsWorking s.1)
          ((delete_source_items_batch scope limit r.tables.source_items).0 == 0)
          (λ _. advanced-IsWorking r _ r.operation.deleted_counts r.tables w w.rows)
          (λ _. advanced-IsWorking r r.operation.resume_cursor _ _ w w.rows)
    staged_batch-IsWorking limit credentials r w = w
    staged_batch-IsWorking limit product r w = w
    staged_batch-IsWorking limit minimise r w = w
    staged_batch-IsWorking limit finalise r w = w
    staged_batch-IsWorking limit done r w = w

  imported_batch_of-IsWorking :
      (recompute : ℕ → Tables → Memory) (account : Option ℕ) (limit : ℕ) (r : Run)
      → IsWorking r
      → IsWorking (imported_batch_of recompute account limit r).1
  imported_batch_of-IsWorking recompute none limit r w = w
  imported_batch_of-IsWorking recompute (some account) limit r w =
      let o = r.operation in
      let scope = imported_scope o.user_id account o.snapshot_cutoff in
      staged_batch-IsWorking scope (imported_cleanup recompute o.user_id scope)
        (λ t c. (run_derived_cleanup-Preserved o.user_id scope t c).operations) limit
        (phase_or derived o.resume_cursor.phase) r w

  module _ (created_at : ℕ → ℕ) (h : RetentionHorizons) (now : ℕ) where
    retention_cleanup-operations :
        (user_id : ℕ) (t : Tables) (c : Counts)
        → (retention_cleanup created_at h now user_id t c).0.operations ≡ t.operations
    unfolding delete_age_based_categories
    retention_cleanup-operations user_id t c =
        let scope = expired_scope user_id (cutoff now h.source_items_days) in
        (run_derived_cleanup-Preserved user_id scope t c).operations

    run_retention_step-IsWorking :
        (limit : ℕ) (r : Run)
        → IsWorking r
        → IsWorking (run_retention_step created_at h now limit r).1
    unfolding run_retention_step
    run_retention_step-IsWorking limit r w =
        let user_id = r.operation.user_id in
        staged_batch-IsWorking (expired_scope user_id (cutoff now h.source_items_days))
          (retention_cleanup created_at h now user_id) (retention_cleanup-operations user_id) limit
          (phase_or derived r.operation.resume_cursor.phase) r w

  delete_accounts-rows :
      (user_id : ℕ) (t : Tables)
      → AllConsistent t.operations
      → AllConsistent (delete_accounts user_id t).operations
  unfolding delete_accounts
  delete_accounts-rows user_id t a =
      All-map (IsConsistent max_attempts) _ _
        (λ o v. forgotten-IsConsistent max_attempts some_tries o _ v) t.operations a

  minimise_if_acted_on-operations :
      (o : Option ExecutionOutcome) (id : ℕ) (t : Tables) (c : Counts)
      → (minimise_if_acted_on o id t c).1.0.operations ≡ t.operations
  minimise_if_acted_on-operations none id t c = refl
  minimise_if_acted_on-operations (some o) id t c = refl

  minimise_acted_on-operations :
      (ps : List ActionProposal) (t : Tables) (c : Counts)
      → (minimise_acted_on ps t c).1.0.operations ≡ t.operations
  minimise_acted_on-operations [] t c = refl
  minimise_acted_on-operations (p ∷ ps) t c =
      let o = outcome_of p.id t.executions in
      let (t', c') = (minimise_if_acted_on o p.id t c).1 in
      minimise_acted_on-operations ps t' c' ∙ minimise_if_acted_on-operations o p.id t c

  module _ (now new_subject : ℕ) (revoker : Option (LinkedAccount → Bool)) (limit : ℕ)
      (address : ℕ → String) where
    account_phase-IsWorking :
        (p : Phase) (u : User) (r : Run)
        → IsWorking r
        → IsWorking (account_phase now new_subject revoker limit address p u r).1
    unfolding clear_product
    account_phase-IsWorking credentials u r w =
        advanced-IsWorking r _ _ _ w (delete_accounts-rows u.id r.tables w.rows)
    account_phase-IsWorking product u r w =
        if-cases IsWorking
          ((delete_source_items_batch (λ s. s.user_id == u.id) limit r.tables.source_items).0 == 0)
          (λ _. advanced-IsWorking r _ _ _ w w.rows)
          (λ _. advanced-IsWorking r r.operation.resume_cursor _ _ w w.rows)
    account_phase-IsWorking minimise u r w = advanced-IsWorking r _ _ _ w (
        subst AllConsistent
          (sym (
            minimise_acted_on-operations (select (λ p. p.user_id == u.id) r.tables.proposals)
              r.tables r.operation.deleted_counts))
          w.rows)
    account_phase-IsWorking finalise u r w =
        advanced-IsWorking r _ r.operation.deleted_counts _ w w.rows
    account_phase-IsWorking derived u r w = w
    account_phase-IsWorking sources u r w = w
    account_phase-IsWorking done u r w = w

    account_step_of-IsWorking :
        (o : Option User) (r : Run)
        → IsWorking r
        → IsWorking (account_step_of now new_subject revoker limit address o r).1
    account_step_of-IsWorking none r w = w
    account_step_of-IsWorking (some u) r w =
        if-cases (λ (s : Bool × Run). IsWorking s.1) (is_deleted u.account_state) (λ _. w)
          (λ _.
            account_phase-IsWorking (phase_or credentials r.operation.resume_cursor.phase) u r w)

  module _ (e : Engine) (now : ℕ) where
    batch_of-IsWorking :
        (type : DeletionOperationType) (r : Run) → IsWorking r → IsWorking (batch_of e now type r).1
    unfolding run_imported_data_batch run_account_deletion_step
    batch_of-IsWorking imported_data r w =
        imported_batch_of-IsWorking (e.recompute now) r.operation.source_account_id e.batch_size r w
    batch_of-IsWorking account_deletion r w =
        account_step_of-IsWorking now e.new_subject e.revoker e.batch_size e.address
          (find? (λ u. u.id == r.operation.user_id) r.tables.users) r w
    batch_of-IsWorking retention r w =
        run_retention_step-IsWorking e.created_at e.horizons now e.batch_size r w

    pub run_one_batch-IsWorking : (r : Run) → IsWorking r → IsWorking (run_one_batch e now r).1
    unfolding run_one_batch
    run_one_batch-IsWorking r w = batch_of-IsWorking r.operation.operation_type r w

    abbrev Lands : Option Run → Type 0
    Lands none = Unit
    Lands (some r) = IsWorking r

    run_batches-Lands :
        (fuel : ℕ) (r : Run) → IsWorking r → Lands (run_batches (run_one_batch e now) now fuel r)
    run_batches-Lands zero r w = tt
    run_batches-Lands (suc fuel) r w =
        let (complete, r') = run_one_batch e now r in
        let w' = beat-IsWorking now r' (run_one_batch-IsWorking r w) in
        if-cases Lands complete (λ _. w') (λ _. run_batches-Lands fuel (beat now r') w')

    pub run_batches-IsWorking :
        (fuel : ℕ) (r : Run) {r' : Run}
        → IsWorking r
        → run_batches (run_one_batch e now) now fuel r ≡ some r'
        → IsWorking r'
    run_batches-IsWorking fuel r w h = subst Lands h (run_batches-Lands fuel r w)

    pub committed-IsWorking :
        (k : ℕ) (r : Run) → IsWorking r → IsWorking (committed (run_one_batch e now) now k r)
    committed-IsWorking zero r w = w
    committed-IsWorking (suc k) r w =
        let (complete, r') = run_one_batch e now r in
        let w' = beat-IsWorking now r' (run_one_batch-IsWorking r w) in
        if-cases IsWorking complete (λ _. w') (λ _. committed-IsWorking k (beat now r') w')
