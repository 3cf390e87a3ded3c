-- ===== src/Deletion/Resume.antt =====
-- The worker of deletion.py that dies between two batches, and the one that resumes its operation.
use lifeflow.Prelude.{
  ℕ, zero, suc, ◌+◌, ◌≤◌, ◌<◌, Bool, true, false, ◌≡◌, refl, sym, ap, subst, ◌∙◌, some, arith,
  if-cases, ◌==◌, nat_eq, ==→≡,
}
use lifeflow.Records.{SourceItem}
use lifeflow.Deletion.Operation.{
  Counts, Phase, derived, sources, credentials, product, minimise, finalise, done,
}
use lifeflow.Deletion.Tables.{Memory, Tables}
use lifeflow.Deletion.Cleanup.{run_derived_cleanup-Preserved}
use lifeflow.Deletion.Batches.{
  Run, staged_batch, sources_step, imported_cleanup, run_imported_data_batch, run_batches, beat,
  committed, delete_source_items_batch,
}
use lifeflow.Deletion.Removal.{DistinctIds, in_scope, delete_source_items_batch-IsBatch}
use lifeflow.Deletion.OneStroke.{
  phase_of, finish_from, after_batch, finish_sources-none, finish_sources-batch,
}
use lifeflow.Deletion.Refinement.{scope_of, one_stroke, batch-staged, run_batches-one_stroke}

module _ (recompute : ℕ → Tables → Memory) (account : ℕ) where
  -- What a later worker needs to reach the same end.
  record Continues (later : ℕ) (r r' : Run) : Type 0 where
    linked : r'.operation.source_account_id ≡ some account
    distinct : DistinctIds r'.tables.source_items
    fewer :
        in_scope (scope_of recompute account r'.operation) r'.tables.source_items
        ≤ in_scope (scope_of recompute account r.operation) r.tables.source_items
    same : one_stroke recompute account later r' ≡ one_stroke recompute account later r

  module _ (now later limit : ℕ) (positive : 1 ≤ limit) where
    beat-same :
        (p : Phase) (r : Run)
        → let scope = scope_of recompute account r.operation in
          let derive = imported_cleanup recompute r.operation.user_id scope in
          finish_from scope later derive p (beat now r) ≡ finish_from scope later derive p r
    beat-same derived r = refl
    beat-same sources r = refl
    beat-same credentials r = refl
    beat-same product r = refl
    beat-same minimise r = refl
    beat-same finalise r = refl
    beat-same done r = refl

    sources_step-Continues :
        (r : Run)
        → phase_of r ≡ sources
        → r.operation.source_account_id ≡ some account
        → DistinctIds r.tables.source_items
        → let scope = scope_of recompute account r.operation in
          let derive = imported_cleanup recompute r.operation.user_id scope in
          Continues later r (beat now (sources_step scope derive limit r).1)
    sources_step-Continues r e a d =
        let scope = scope_of recompute account r.operation in
        let derive = imported_cleanup recompute r.operation.user_id scope in
        let (n, items) = delete_source_items_batch scope limit r.tables.source_items in
        let b = delete_source_items_batch-IsBatch scope limit r.tables.source_items d in
        let whole = ap (λ p. finish_from scope later derive p r) (sym e) in
        if-cases (λ (s : Bool × Run). Continues later r (beat now s.1)) (n == 0)
          (λ h. record {
            linked = a;
            distinct = d;
            fewer = omega arith;
            same = finish_sources-none scope later r (omega (arith, b.count, ==→≡ n 0 h)) ∙ whole;
          })
          (λ h. record {
            linked = a;
            distinct = b.distinct;
            fewer = omega (arith, b.remaining);
            same =
                ap
                  (λ p.
                    finish_from scope later derive p (beat now (after_batch scope later n items r)))
                  e
                ∙ finish_sources-batch scope later limit r n items b
                ∙ whole;
          })

    idle-Continues :
        (r : Run)
        → r.operation.source_account_id ≡ some account
        → DistinctIds r.tables.source_items
        → Continues later r (beat now r)
    idle-Continues r a d = record {
      linked = a;
      distinct = d;
      fewer = omega arith;
      same = beat-same (phase_of r) r;
    }

    staged-Continues :
        (p : Phase) (r : Run)
        → phase_of r ≡ p
        → r.operation.source_account_id ≡ some account
        → DistinctIds r.tables.source_items
        → let scope = scope_of recompute account r.operation in
          let derive = imported_cleanup recompute r.operation.user_id scope in
          Continues later r (beat now (staged_batch scope derive limit p r).1)
    staged-Continues derived r e a d =
        let scope = scope_of recompute account r.operation in
        let derive = imported_cleanup recompute r.operation.user_id scope in
        let kept =
          run_derived_cleanup-Preserved r.operation.user_id scope r.tables
            r.operation.deleted_counts in
        record {
          linked = a;
          distinct = rw kept.sources d;
          fewer = rw kept.sources (omega arith);
          same = ap (λ p. finish_from scope later derive p r) (sym e);
        }
    staged-Continues sources r e a d = sources_step-Continues r e a d
    staged-Continues credentials r e a d = idle-Continues r a d
    staged-Continues product r e a d = idle-Continues r a d
    staged-Continues minimise r e a d = idle-Continues r a d
    staged-Continues finalise r e a d = idle-Continues r a d
    staged-Continues done r e a d = idle-Continues r a d

    batch-Continues :
        (r : Run)
        → r.operation.source_account_id ≡ some account
        → DistinctIds r.tables.source_items
        → Continues later r (beat now (run_imported_data_batch recompute limit r).1)
    batch-Continues r a d =
        subst (λ (s : Bool × Run). Continues later r (beat now s.1))
          (sym (batch-staged recompute account r.operation limit r (a, refl, refl)))
          (staged-Continues (phase_of r) r refl a d)

    committed-Continues :
        (k : ℕ) (r : Run)
        → r.operation.source_account_id ≡ some account
        → DistinctIds r.tables.source_items
        → Continues later r (committed (run_imported_data_batch recompute limit) now k r)
    committed-Continues zero r a d = record {
      linked = a;
      distinct = d;
      fewer = omega arith;
      same = refl;
    }
    committed-Continues (suc k) r a d =
        let (complete, r1) = run_imported_data_batch recompute limit r in
        let one = batch-Continues r a d in
        let rest = committed-Continues k (beat now r1) one.linked one.distinct in
        if-cases (Continues later r) complete (λ _. one)
          (λ _. record {
            linked = rest.linked;
            distinct = rest.distinct;
            fewer = omega (arith, one.fewer, rest.fewer);
            same = rest.same ∙ one.same;
          })

  abbrev is_derived : Phase → Bool
  is_derived derived = true
  is_derived _ = false

  -- A committed batch has the cleanup behind it.
  abbrev HasCleaned : Run → Type 0
  HasCleaned r = is_derived (phase_of r) ≡ false

  module _ (now limit : ℕ) where
    staged-HasCleaned :
        (scope : SourceItem → Bool) (derive : Tables → Counts → Tables × Counts) (p : Phase)
        (r : Run)
        → phase_of r ≡ p
        → HasCleaned (beat now (staged_batch scope derive limit p r).1)
    staged-HasCleaned scope derive derived r e = refl
    staged-HasCleaned scope derive sources r e =
        if-cases (λ (s : Bool × Run). HasCleaned (beat now s.1))
          ((delete_source_items_batch scope limit r.tables.source_items).0 == 0) (λ _. refl)
          (λ _. ap is_derived e)
    staged-HasCleaned scope derive credentials r e = ap is_derived e
    staged-HasCleaned scope derive product r e = ap is_derived e
    staged-HasCleaned scope derive minimise r e = ap is_derived e
    staged-HasCleaned scope derive finalise r e = ap is_derived e
    staged-HasCleaned scope derive done r e = ap is_derived e

    batch-HasCleaned :
        (r : Run)
        → r.operation.source_account_id ≡ some account
        → HasCleaned (beat now (run_imported_data_batch recompute limit r).1)
    batch-HasCleaned r a =
        subst (λ (s : Bool × Run). HasCleaned (beat now s.1))
          (sym (batch-staged recompute account r.operation limit r (a, refl, refl)))
          (staged-HasCleaned (scope_of recompute account r.operation)
            (imported_cleanup recompute r.operation.user_id
              (scope_of recompute account r.operation))
            (phase_of r) r refl)

    committed-HasCleaned :
        (k : ℕ) (r : Run)
        → 1 ≤ limit
        → r.operation.source_account_id ≡ some account
        → DistinctIds r.tables.source_items
        → HasCleaned (committed (run_imported_data_batch recompute limit) now (suc k) r)
    committed-HasCleaned zero r positive a d =
        if-cases HasCleaned (run_imported_data_batch recompute limit r).0
          (λ _. batch-HasCleaned r a) (λ _. batch-HasCleaned r a)
    committed-HasCleaned (suc k) r positive a d =
        let (complete, r1) = run_imported_data_batch recompute limit r in
        let one = batch-Continues now now limit positive r a d in
        if-cases HasCleaned complete (λ _. batch-HasCleaned r a)
          (λ _. committed-HasCleaned k (beat now r1) positive one.linked one.distinct)

-- The clock at which the memory is recomputed: the first worker's, if that has committed a batch.
abbrev pub cleaned_at : ℕ → ℕ → ℕ → ℕ
cleaned_at zero now later = later
cleaned_at (suc k) now later = now

module _ (recompute : ℕ → ℕ → Tables → Memory) (account : ℕ) where
  -- Behind the cleanup the memory is not recomputed.
  one_stroke-cleaned :
      (now later : ℕ) (p : Phase) (r : Run)
      → is_derived (recompute now) account p ≡ false
      → let scope = scope_of (recompute now) account r.operation in
        finish_from scope later (imported_cleanup (recompute later) r.operation.user_id scope) p r
        ≡ finish_from scope later (imported_cleanup (recompute now) r.operation.user_id scope) p r
  one_stroke-cleaned now later derived r h = absurd (ground arith)
  one_stroke-cleaned now later sources r h = refl
  one_stroke-cleaned now later credentials r h = refl
  one_stroke-cleaned now later product r h = refl
  one_stroke-cleaned now later minimise r h = refl
  one_stroke-cleaned now later finalise r h = refl
  one_stroke-cleaned now later done r h = refl

  -- A worker that commits any number of batches of an imported-data deletion and dies, and a second
  -- one with another clock and another batch size, leave what one stroke would have left at the
  -- second one's clock, but for the memory, which is recomputed once, at the clock of the first one
  -- if that has committed a batch and of the second one otherwise; if both sizes are at least 1 and
  -- the source items have distinct ids. A crash loses nothing and repeats nothing.
  pub resumed-one_stroke :
      (now later limit limit' k fuel : ℕ) (r : Run)
      → 1 ≤ limit
      → 1 ≤ limit'
      → r.operation.source_account_id ≡ some account
      → DistinctIds r.tables.source_items
      → in_scope (scope_of (recompute now) account r.operation) r.tables.source_items + 1 < fuel
      → run_batches
          (run_imported_data_batch (recompute later) limit')
          later
          fuel
          (committed (run_imported_data_batch (recompute now) limit) now k r)
        ≡ some (one_stroke (recompute (cleaned_at k now later)) account later r)
  resumed-one_stroke now later limit limit' zero fuel r positive positive' a d enough =
      run_batches-one_stroke (recompute later) account limit' later fuel r positive' a d enough
  resumed-one_stroke now later limit limit' (suc k) fuel r positive positive' a d enough =
      let r' = committed (run_imported_data_batch (recompute now) limit) now (suc k) r in
      let c = committed-Continues (recompute now) account now later limit positive (suc k) r a d in
      let cleaned = committed-HasCleaned (recompute now) account now limit k r positive a d in
      run_batches-one_stroke (recompute later) account limit' later fuel r' positive' c.linked
        c.distinct (omega (arith, c.fewer, enough))
      ∙ ap some (one_stroke-cleaned now later (phase_of r') r' cleaned ∙ c.same)
