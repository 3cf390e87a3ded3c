-- ===== src/Deletion/OneStroke.antt =====
-- The batches of deletion.py and retention.py against the deletion in one stroke.
use lifeflow.Prelude.{
  ℕ, zero, suc, ◌+◌, ◌≤◌, ◌<◌, Bool, true, false, ◌≡◌, refl, sym, ap, ◌∙◌, String, List, [], ◌∷◌,
  Option, some, arith, ◌==◌, nat_eq, string_eq, Bool-cases, inl, inr, ==→≡,
}
use lifeflow.Records.{SourceItem}
use lifeflow.Deletion.Operation.{
  Phase, derived, sources, credentials, product, minimise, finalise, done, Cursor, Counts, add,
  increase, DataDeletionOperation,
}
use lifeflow.Deletion.Tables.{Tables}
use lifeflow.Deletion.Batches.{
  Run, phase_or, cursor_at, delete_source_items_batch, derived_step, sources_step, staged_batch,
  beat, run_batches,
}
use lifeflow.Deletion.Removal.{
  DistinctIds, in_scope, out_of_scope, out_of_scope-all, IsBatch, delete_source_items_batch-IsBatch,
}

abbrev pub phase_of : Run → Phase
phase_of r = phase_or derived r.operation.resume_cursor.phase

increase_twice :
    (key : String) (m n : ℕ) (c : Counts)
    → increase key n (increase key m c) ≡ increase key (m + n) c
increase_twice key m n [] = ground arith
increase_twice key m n ((k, x) ∷ c) = ground (arith, increase_twice key m n c)

add_twice : (key : String) (m n : ℕ) (c : Counts) → add key n (add key m c) ≡ add key (m + n) c
add_twice key m n c = ground (arith, increase_twice key m n c)

-- A round that ends the loop, and one that does not.
pub run_batches-last :
    (step : Run → Bool × Run) (now fuel : ℕ) (r : Run) {r' : Run}
    → step r ≡ (true, r')
    → run_batches step now (suc fuel) r ≡ some (beat now r')
run_batches-last step now fuel r e = rw e

pub run_batches-more :
    (step : Run → Bool × Run) (now fuel : ℕ) (r : Run) {r' : Run}
    → step r ≡ (false, r')
    → run_batches step now (suc fuel) r ≡ run_batches step now fuel (beat now r')
run_batches-more step now fuel r e = rw e

module _ (scope : SourceItem → Bool) (now : ℕ) where
  abbrev pub finished_as : Counts → List SourceItem → Run → Run
  finished_as counts items r = record {
    operation = record r.operation {
      resume_cursor = cursor_at done;
      deleted_counts = counts;
      heartbeat_at = some now;
    };
    tables = record r.tables { source_items = items };
  }

  -- All source items in scope at once.
  abbrev pub finish_sources : Run → Run
  finish_sources r =
      finished_as
        (add "source_items" (in_scope scope r.tables.source_items) r.operation.deleted_counts)
        (out_of_scope scope r.tables.source_items) r

  abbrev finished_as' : Run → Counts → List SourceItem → Run
  finished_as' r counts items = finished_as counts items r

  pub finish_sources-none :
      (r : Run)
      → in_scope scope r.tables.source_items ≡ 0
      → beat now (record r { operation = record r.operation { resume_cursor = cursor_at done } })
        ≡ finish_sources r
  finish_sources-none r e =
      let items = out_of_scope-all scope r.tables.source_items e in
      let counts : r.operation.deleted_counts
          ≡ add "source_items" (in_scope scope r.tables.source_items) r.operation.deleted_counts =
        ground (arith, e) in
      ap (λ c. finished_as c r.tables.source_items r) counts
      ∙ ap
          (finished_as' r
            (add "source_items" (in_scope scope r.tables.source_items) r.operation.deleted_counts))
          (sym items)

  abbrev pub after_batch : ℕ → List SourceItem → Run → Run
  after_batch n items r = record {
    operation = record r.operation {
      deleted_counts = add "source_items" n r.operation.deleted_counts;
    };
    tables = record r.tables { source_items = items };
  }

  pub finish_sources-batch :
      (limit : ℕ) (r : Run) (n : ℕ) (items : List SourceItem)
      → IsBatch scope limit r.tables.source_items n items
      → finish_sources (beat now (after_batch n items r)) ≡ finish_sources r
  finish_sources-batch limit r n items b =
      let c = r.operation.deleted_counts in
      let sum : n + in_scope scope items ≡ in_scope scope r.tables.source_items =
        omega (arith, b.remaining) in
      let counts =
        add_twice "source_items" n (in_scope scope items) c
        ∙ ap (λ k. add "source_items" k c) sum in
      ap (λ k. finished_as k (out_of_scope scope items) r) counts
      ∙ ap (finished_as' r (add "source_items" (in_scope scope r.tables.source_items) c)) b.others

  module _ (derive : Tables → Counts → Tables × Counts) where
    sources_step-last :
        (limit : ℕ) (r : Run)
        → ((delete_source_items_batch scope limit r.tables.source_items).0 == 0) ≡ true
        → sources_step scope derive limit r
          ≡ (true, record r { operation = record r.operation { resume_cursor = cursor_at done } })
    sources_step-last limit r e = rw e

    sources_step-more :
        (limit : ℕ) (r : Run)
        → let (n, items) = delete_source_items_batch scope limit r.tables.source_items in
          (n == 0) ≡ false → sources_step scope derive limit r ≡ (false, after_batch n items r)
    sources_step-more limit r e = rw e

    -- The whole operation from a phase on, without batches.
    abbrev pub finish_from : Phase → Run → Run
    finish_from derived r = finish_sources (derived_step scope derive r)
    finish_from sources r = finish_sources r
    finish_from _ r = beat now r

    module _ (Fixed : DataDeletionOperation → Type 0)
        (keep : (o : DataDeletionOperation) (cursor : Cursor) (counts : Counts) (beat_at : Option ℕ)
          → Fixed o
          → Fixed (record o {
            resume_cursor = cursor;
            deleted_counts = counts;
            heartbeat_at = beat_at;
          }))
        (step : Run → Bool × Run) (limit : ℕ) (positive : 1 ≤ limit)
        (staged : (r : Run)
          → Fixed r.operation
          → step r ≡ staged_batch scope derive limit (phase_of r) r) where
      at_sources :
          (r : Run)
          → Fixed r.operation
          → phase_of r ≡ sources
          → step r ≡ sources_step scope derive limit r
      at_sources r f ph = staged r f ∙ ap (λ p. staged_batch scope derive limit p r) ph

      pub run_sources :
          (fuel : ℕ) (r : Run)
          → Fixed r.operation
          → DistinctIds r.tables.source_items
          → phase_of r ≡ sources
          → in_scope scope r.tables.source_items < fuel
          → run_batches step now fuel r ≡ some (finish_sources r)
      run_sources zero r f d ph lt = absurd (omega arith)
      run_sources (suc fuel) r f d ph lt =
          let (n, items) = delete_source_items_batch scope limit r.tables.source_items in
          let b = delete_source_items_batch-IsBatch scope limit r.tables.source_items d in
          elim (Bool-cases (n == 0)) [
            | inl e ↦
                run_batches-last step now fuel r (at_sources r f ph ∙ sources_step-last limit r e)
                ∙ ap some (finish_sources-none r (omega (arith, b.count, ==→≡ n 0 e)))
            | inr e ↦
                run_batches-more step now fuel r (at_sources r f ph ∙ sources_step-more limit r e)
                ∙ run_sources fuel (beat now (after_batch n items r))
                    (keep r.operation r.operation.resume_cursor
                      (add "source_items" n r.operation.deleted_counts) (some now) f)
                    b.distinct ph (ground (arith, b.remaining))
                ∙ ap some (finish_sources-batch limit r n items b)
          ]

      run_ended :
          (p : Phase) (fuel : ℕ) (r : Run)
          → staged_batch scope derive limit p r ≡ (true, r)
          → phase_of r ≡ p
          → Fixed r.operation
          → run_batches step now (suc fuel) r ≡ some (beat now r)
      run_ended p fuel r ended e f =
          run_batches-last step now fuel r
            (staged r f ∙ ap (λ q. staged_batch scope derive limit q r) e ∙ ended)

      module _
          (leaves : (t : Tables) (c : Counts) → (derive t c).0.source_items ≡ t.source_items) where
        -- From every phase the loop ends, within a round for each item in scope and two more, as the
        -- operation in one stroke does.
        pub run_staged :
            (p : Phase) (fuel : ℕ) (r : Run)
            → phase_of r ≡ p
            → Fixed r.operation
            → DistinctIds r.tables.source_items
            → in_scope scope r.tables.source_items + 1 < fuel
            → run_batches step now fuel r ≡ some (finish_from p r)
        run_staged p zero r e f d lt = absurd (omega arith)
        run_staged derived (suc fuel) r e f d lt =
            let (t, c) = derive r.tables r.operation.deleted_counts in
            let same = leaves r.tables r.operation.deleted_counts in
            run_batches-more step now fuel r
              (staged r f ∙ ap (λ p. staged_batch scope derive limit p r) e)
            ∙ run_sources fuel (beat now (derived_step scope derive r))
                (keep r.operation (cursor_at sources) c (some now) f) (rw same d) refl
                (rw same (omega arith))
        run_staged sources (suc fuel) r e f d lt = run_sources (suc fuel) r f d e (omega arith)
        run_staged credentials (suc fuel) r e f d lt = run_ended credentials fuel r refl e f
        run_staged product (suc fuel) r e f d lt = run_ended product fuel r refl e f
        run_staged minimise (suc fuel) r e f d lt = run_ended minimise fuel r refl e f
        run_staged finalise (suc fuel) r e f d lt = run_ended finalise fuel r refl e f
        run_staged done (suc fuel) r e f d lt = run_ended done fuel r refl e f
