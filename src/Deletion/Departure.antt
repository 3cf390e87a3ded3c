-- ===== src/Deletion/Departure.antt =====
-- The phases of account_deletion.py from the first one on.
use lifeflow.Prelude.{
  ℕ, zero, suc, ◌+◌, ◌≤◌, ◌<◌, Bool, true, false, ◌≡◌, refl, sym, ap, subst, ◌∙◌, String, List, [],
  ◌∷◌, Option, none, some, map, find?, select, arith, ◌==◌, nat_eq, ==→≡, Bool-cases, inl, inr,
}
use lifeflow.Records.{SourceItem, ActionExecution}
use lifeflow.Deletion.Operation.{credentials, product, minimise, add}
use lifeflow.Deletion.Tables.{forget, without_result, User, LinkedAccount, outcome_of}
use lifeflow.Deletion.Planner.{minimise_execution}
use lifeflow.Deletion.Batches.{Run, phase_or, delete_source_items_batch, beat, run_batches}
use lifeflow.Deletion.Account.{
  is_deleted, delete_accounts, clear_product, moved, credentials_step, product_step,
}
use lifeflow.Deletion.Rows.{All-map}
use lifeflow.Deletion.Histories.{SameHistory}
use lifeflow.Deletion.Scrubbed.{own_ids, own_ids-map}
use lifeflow.Deletion.Removal.{DistinctIds, in_scope, delete_source_items_batch-IsBatch}
use lifeflow.Deletion.OneStroke.{run_batches-more}
use lifeflow.Deletion.Erasure.{
  owned_by, IsCleared, NoAccounts, select-not, step, IsOpen, step-phase, Ends, minimise-Ends_enough,
}

module _ (now new_subject : ℕ) (revoker : Option (LinkedAccount → Bool)) (limit : ℕ)
    (positive : 1 ≤ limit) (address : ℕ → String) (u : User) (es : List ActionExecution)
    (mine : List ℕ) where
  abbrev step_ : Run → Bool × Run
  step_ = step now new_subject revoker limit positive address u es mine

  abbrev Ends_ : Option Run → Type 0
  Ends_ = Ends now new_subject revoker limit positive address u es mine

  abbrev batched : ℕ → List SourceItem → Run → Run
  batched n items r = record {
    operation = record r.operation {
      deleted_counts = add "source_items" n r.operation.deleted_counts;
    };
    tables = record r.tables { source_items = items };
  }

  abbrev product_cleared : Run → Run
  product_cleared r =
      let (t, counts) =
        clear_product now new_subject revoker limit u.id r.tables r.operation.deleted_counts in
      moved now new_subject revoker limit minimise r.operation.resume_cursor.provider_revoke_failed
        counts t r

  product_step-more :
      (r : Run)
      → let (n, items) = delete_source_items_batch (owned_by u.id) limit r.tables.source_items in
        (n == 0) ≡ false → product_step now new_subject revoker limit u.id r ≡ batched n items r
  product_step-more r e = rw e

  product_step-last :
      (r : Run)
      → ((delete_source_items_batch (owned_by u.id) limit r.tables.source_items).0 == 0) ≡ true
      → product_step now new_subject revoker limit u.id r ≡ product_cleared r
  product_step-last r e = rw e

  product_cleared-IsCleared :
      (r : Run)
      → in_scope (owned_by u.id) r.tables.source_items ≡ 0
      → IsCleared u.id (product_cleared r).tables
  unfolding clear_product
  product_cleared-IsCleared r none_left = (
    none_left,
    select-not _ r.tables.signals,
    select-not _ r.tables.briefs,
    select-not _ (
        map (without_result (map (λ b. b.id) (select (λ b. b.user_id == u.id) r.tables.briefs)))
          r.tables.runs),
    select-not _ r.tables.preferences,
    select-not _ r.tables.memory.evidence,
    select-not _ r.tables.memory.items,
  )

  product-Ends :
      (fuel : ℕ) (r : Run)
      → IsOpen now new_subject revoker limit positive address u es mine product r
      → DistinctIds r.tables.source_items
      → NoAccounts u.id r.tables
      → SameHistory es r.tables.executions
      → own_ids u.id r.tables.proposals ≡ mine
      → in_scope (owned_by u.id) r.tables.source_items + 2 < fuel
      → Ends_ (run_batches step_ now fuel r)
  unfolding clear_product
  product-Ends zero r o d unlinked history kept lt = absurd (omega arith)
  product-Ends (suc fuel) r o d unlinked history kept lt =
      let (n, items) = delete_source_items_batch (owned_by u.id) limit r.tables.source_items in
      let b = delete_source_items_batch-IsBatch (owned_by u.id) limit r.tables.source_items d in
      elim (Bool-cases (n == 0)) [
        | inl e ↦
            subst Ends_
              (sym (
                run_batches-more step_ now fuel r (
                  step-phase now new_subject revoker limit positive address u es mine product r o
                  ∙ ap (λ x. (false, x)) (product_step-last r e))))
              (minimise-Ends_enough now new_subject revoker limit positive address u es mine fuel
                (omega (arith, lt)) (beat now (product_cleared r))
                (record { found = o.found; own = o.own; alive = o.alive; phase = refl })
                (product_cleared-IsCleared r (omega (arith, b.count, ==→≡ n 0 e))) unlinked history
                (own_ids-map u.id _ (λ p. refl) (λ p. refl) r.tables.proposals ∙ kept))
        | inr e ↦
            subst Ends_
              (sym (
                run_batches-more step_ now fuel r (
                  step-phase now new_subject revoker limit positive address u es mine product r o
                  ∙ ap (λ x. (false, x)) (product_step-more r e))))
              (product-Ends fuel (beat now (batched n items r))
                (record { found = o.found; own = o.own; alive = o.alive; phase = o.phase })
                b.distinct unlinked history kept (ground (arith, b.remaining)))
      ]

  -- Clearing the link of a source item to its account.
  forget-DistinctIds :
      (ids : List ℕ) (ss : List SourceItem)
      → DistinctIds ss
      → DistinctIds (
          map
            (λ (s : SourceItem). record s { source_account_id = forget ids s.source_account_id })
            ss)
  forget-DistinctIds ids [] d = tt
  forget-DistinctIds ids (s ∷ ss) (fresh, d) = (
    All-map (λ (x : SourceItem). (x.id == s.id) ≡ false)
        (λ (x : SourceItem). (x.id == s.id) ≡ false) _ (λ x h. h) ss fresh,
    forget-DistinctIds ids ss d,
  )

  forget-in_scope :
      (ids : List ℕ) (ss : List SourceItem)
      → in_scope (owned_by u.id) (
          map
            (λ (s : SourceItem). record s { source_account_id = forget ids s.source_account_id })
            ss)
        ≡ in_scope (owned_by u.id) ss
  forget-in_scope ids [] = refl
  forget-in_scope ids (s ∷ ss) = ground (arith, forget-in_scope ids ss)

  -- A worker that runs the deletion of an account from its start, whatever the batch size from 1 up and
  -- whatever the provider answers, ends within a round for each source item of the user and four more,
  -- if the source items have distinct ids. Then the user's row is marked as deleted now, has the name
  -- and address of a deleted account and no Google subject, and keeps a deletion subject that it has
  -- already; no source item, signal, brief, run, preference, memory or connected account of the user
  -- is left; every proposal of the user that is left has an execution and is a tombstone, without
  -- rationale, payload, source references, approved payload or rejection reason; every execution is
  -- there, with its outcome and unchanged but for its payload and result; and the executions of the
  -- user's proposals have neither.
  pub run_batches-Erased :
      (fuel : ℕ) (r : Run)
      → find? (λ x. x.id == r.operation.user_id) r.tables.users ≡ some u
      → u.id ≡ r.operation.user_id
      → is_deleted u.account_state ≡ false
      → r.operation.resume_cursor.phase ≡ none
      → DistinctIds r.tables.source_items
      → r.tables.executions ≡ es
      → own_ids u.id r.tables.proposals ≡ mine
      → in_scope (owned_by u.id) r.tables.source_items + 3 < fuel
      → Ends_ (run_batches step_ now fuel r)
  unfolding delete_accounts
  run_batches-Erased zero r found own alive fresh d begun kept lt = absurd (omega arith)
  run_batches-Erased (suc fuel) r found own alive fresh d begun kept lt =
      let ids = map (λ a. a.id) (select (λ a. a.user_id == u.id) r.tables.connected_accounts) in
      let o : IsOpen now new_subject revoker limit positive address u es mine credentials r =
        record {
          found = found;
          own = own;
          alive = alive;
          phase = ap (phase_or credentials) fresh;
        } in
      subst Ends_
        (sym (
          run_batches-more step_ now fuel r
            (step-phase now new_subject revoker limit positive address u es mine credentials r o)))
        (product-Ends fuel (beat now (credentials_step now new_subject revoker limit u.id r))
          (record { found = found; own = own; alive = alive; phase = refl })
          (forget-DistinctIds ids r.tables.source_items d)
          (select-not _ r.tables.connected_accounts)
          (ap (map minimise_execution) begun, λ i. ap (outcome_of i) begun)
          (own_ids-map u.id _ (λ p. refl) (λ p. refl) r.tables.proposals ∙ kept)
          (omega (arith, lt, forget-in_scope ids r.tables.source_items)))
