-- ===== src/Deletion/Cleanup.antt =====
-- `run_derived_cleanup` of deletion_planner.py, once and twice.
use lifeflow.Prelude.{
  ℕ, Bool, not, ◌≡◌, sym, subst, String, List, [], ◌∷◌, select, contains, arith, string_eq, nat_eq,
}
use lifeflow.Records.{SourceItem}
use lifeflow.Deletion.Operation.{Counts}
use lifeflow.Deletion.Tables.{Tables, external_ids, surviving_external_ids}
use lifeflow.Deletion.Planner.{signal_decisions, apply_derived_decisions, run_derived_cleanup}
use lifeflow.Deletion.Rows.{Apart}
use lifeflow.Deletion.Signals.{Unaffected, signal_decisions-Unaffected, signal_decisions-same}
use lifeflow.Deletion.Evidence.{
  NoneAffected, proposal_decisions-NoneAffected, proposal_decisions-same,
}
use lifeflow.Deletion.Histories.{
  Preserved, proposal_decisions-Preserved, proposal_decisions-signals,
}

-- No derived row of the user refers to removed evidence.
pub record Supported (user_id : ℕ) (removed : List String) (t : Tables) : Type 0 where
  pub signals : Unaffected user_id removed t.signals
  pub proposals : NoneAffected user_id removed t.proposals

module _ (user_id : ℕ) (removed surviving : List String) where
  apply_derived_decisions-Preserved :
      (t : Tables) (c : Counts)
      → Preserved t (apply_derived_decisions user_id removed surviving t c).0
  unfolding apply_derived_decisions
  apply_derived_decisions-Preserved t c =
      let (ss, c') = signal_decisions user_id removed surviving t.signals c in
      let p =
        proposal_decisions-Preserved user_id removed surviving (record t { signals = ss }) c' in
      record {
        sources = p.sources;
        operations = p.operations;
        executions = p.executions;
        proposals = p.proposals;
      }

  apply_derived_decisions-Supported :
      (t : Tables) (c : Counts)
      → Apart removed surviving
      → Supported user_id removed (apply_derived_decisions user_id removed surviving t c).0
  unfolding apply_derived_decisions
  apply_derived_decisions-Supported t c apart =
      let (ss, c') = signal_decisions user_id removed surviving t.signals c in
      let t' = record t { signals = ss } in
      record {
        signals =
            subst (Unaffected user_id removed)
              (sym (proposal_decisions-signals user_id removed surviving t' c'))
              (signal_decisions-Unaffected user_id removed surviving apart t.signals c);
        proposals = proposal_decisions-NoneAffected user_id removed surviving apart t' c';
      }

  apply_derived_decisions-same :
      (t : Tables) (c : Counts)
      → Supported user_id removed t
      → apply_derived_decisions user_id removed surviving t c ≡ (t, c)
  unfolding apply_derived_decisions
  apply_derived_decisions-same t c u =
      rw (signal_decisions-same user_id removed surviving t.signals c u.signals)
        (proposal_decisions-same user_id removed surviving t c u.proposals)

surviving_external_ids-Apart :
    (removed rs : List String) → Apart removed (select (λ r. not (contains removed r)) rs)
surviving_external_ids-Apart removed [] r h = absurd (ground arith)
surviving_external_ids-Apart removed (x ∷ rs) r h =
    ground (arith, surviving_external_ids-Apart removed rs r)

module _ (user_id : ℕ) (scope : SourceItem → Bool) where
  -- After the cleanup of the derived rows no signal and no proposal of the user refers to evidence
  -- in the scope of the deletion.
  pub run_derived_cleanup-Supported :
      (t : Tables) (c : Counts)
      → Supported user_id
          (external_ids scope t.source_items)
          (run_derived_cleanup user_id scope t c).0
  unfolding run_derived_cleanup
  run_derived_cleanup-Supported t c =
      let removed = external_ids scope t.source_items in
      apply_derived_decisions-Supported user_id removed
        (surviving_external_ids user_id removed t.source_items) t c
        (surviving_external_ids-Apart removed _)

  -- The cleanup of the derived rows deletes no execution and changes none but for its erased payload
  -- and result, so none that is pending or uncertain; it deletes no proposal that has an execution;
  -- and it leaves the source items and the operations.
  pub run_derived_cleanup-Preserved :
      (t : Tables) (c : Counts) → Preserved t (run_derived_cleanup user_id scope t c).0
  unfolding run_derived_cleanup
  run_derived_cleanup-Preserved t c =
      let removed = external_ids scope t.source_items in
      apply_derived_decisions-Preserved user_id removed
        (surviving_external_ids user_id removed t.source_items) t c

  run_derived_cleanup-same :
      (items : List SourceItem) (t : Tables) (c : Counts)
      → t.source_items ≡ items
      → Supported user_id (external_ids scope items) t
      → run_derived_cleanup user_id scope t c ≡ (t, c)
  unfolding run_derived_cleanup
  run_derived_cleanup-same items t c same u =
      let removed = external_ids scope t.source_items in
      apply_derived_decisions-same user_id removed
        (surviving_external_ids user_id removed t.source_items) t c
        (subst (λ is. Supported user_id (external_ids scope is) t) (sym same) u)

  -- A second cleanup of the derived rows, as after a crash, changes and counts nothing.
  pub run_derived_cleanup_twice :
      (t : Tables) (c c' : Counts)
      → let t' = (run_derived_cleanup user_id scope t c).0 in
        run_derived_cleanup user_id scope t' c' ≡ (t', c')
  run_derived_cleanup_twice t c c' =
      run_derived_cleanup-same t.source_items (run_derived_cleanup user_id scope t c).0 c'
        (run_derived_cleanup-Preserved t c).sources (run_derived_cleanup-Supported t c)
