-- ===== src/Deletion/Retained.antt =====
-- What the retention of retention.py keeps: the unresolved executions and their proposals.
use lifeflow.Prelude.{
  ℕ, Bool, true, false, not, ◌≡◌, refl, sym, ap, ◌∙◌, List, [], ◌∷◌, map, select, contains, arith,
  ◌==◌, nat_eq, ◌&&◌, ==→≡,
}
use lifeflow.Records.{ActionProposal, ActionExecution}
use lifeflow.Deletion.Operation.{Counts}
use lifeflow.Deletion.Tables.{without_brief, Tables, expired_scope, outcome_of}
use lifeflow.Deletion.Planner.{run_derived_cleanup}
use lifeflow.Deletion.Histories.{has_execution, acted_on}
use lifeflow.Deletion.Cleanup.{run_derived_cleanup-Preserved}
use lifeflow.Deletion.Retention.{
  RetentionHorizons, cutoff, is_unresolved, expired_brief, expired_proposal,
  delete_age_based_categories, retention_cleanup,
}

abbrev pub has_row : ℕ → List ActionProposal → Bool
has_row id ps = contains (map (λ p. p.id) ps) id

contains-select :
    (f : ℕ → Bool) (ids : List ℕ) (id : ℕ)
    → f id ≡ true
    → contains (select f ids) id ≡ contains ids id
contains-select f [] id h = refl
contains-select f (i ∷ ids) id h = ground (arith, contains-select f ids id h, ==→≡ id i)

acted_on-has_row :
    (es : List ActionExecution) (ps : List ActionProposal) (id : ℕ)
    → has_execution es id ≡ true
    → contains (acted_on es ps) id ≡ has_row id ps
acted_on-has_row es ps id h = contains-select (has_execution es) (map (λ p. p.id) ps) id h

outcome_of-delete :
    (ids : List ℕ) (id : ℕ) (es : List ActionExecution)
    → contains ids id ≡ false
    → outcome_of id (select (λ e. not (contains ids e.proposal_id)) es) ≡ outcome_of id es
outcome_of-delete ids id [] h = refl
outcome_of-delete ids id (e ∷ es) h =
    ground (arith, outcome_of-delete ids id es h, ==→≡ e.proposal_id id)

has_row-delete :
    (user_id id : ℕ) (ids : List ℕ) (ps : List ActionProposal)
    → contains ids id ≡ false
    → has_row id (select (λ p. not (p.user_id == user_id && contains ids p.id)) ps) ≡ has_row id ps
has_row-delete user_id id ids [] h = refl
has_row-delete user_id id ids (p ∷ ps) h =
    ground (arith, has_row-delete user_id id ids ps h, ==→≡ id p.id)

has_row-without_brief :
    (id : ℕ) (ids : List ℕ) (ps : List ActionProposal)
    → has_row id (map (without_brief ids) ps) ≡ has_row id ps
has_row-without_brief id ids [] = refl
has_row-without_brief id ids (p ∷ ps) = ground (arith, has_row-without_brief id ids ps)

unresolved-acted :
    (es : List ActionExecution) (id : ℕ)
    → is_unresolved (outcome_of id es) ≡ true
    → has_execution es id ≡ true
unresolved-acted es id u = ground arith

module _ (created_at : ℕ → ℕ) (h : RetentionHorizons) (now user_id : ℕ) where
  expired_proposal-keeps :
      (es : List ActionExecution) (p : ActionProposal)
      → is_unresolved (outcome_of p.id es) ≡ true
      → expired_proposal created_at h now user_id es p ≡ false
  unfolding expired_proposal
  expired_proposal-keeps es p u = ground arith

  expired_proposal-unresolved :
      (es : List ActionExecution) (id : ℕ) (ps : List ActionProposal)
      → is_unresolved (outcome_of id es) ≡ true
      → has_row id (select (expired_proposal created_at h now user_id es) ps) ≡ false
  expired_proposal-unresolved es id [] u = refl
  expired_proposal-unresolved es id (p ∷ ps) u =
      let keep : (id == p.id) ≡ true → expired_proposal created_at h now user_id es p ≡ false = λ e.
        expired_proposal-keeps es p
          (ap (λ i. is_unresolved (outcome_of i es)) (sym (==→≡ id p.id e)) ∙ u) in
      ground (arith, expired_proposal-unresolved es id ps u, keep)

  delete_age_based_categories-unresolved :
      (t : Tables) (c : Counts) (id : ℕ)
      → is_unresolved (outcome_of id t.executions) ≡ true
      → let t' = (delete_age_based_categories created_at h now user_id t c).0 in
        (outcome_of id t'.executions ≡ outcome_of id t.executions)
        × (has_row id t'.proposals ≡ has_row id t.proposals)
  unfolding delete_age_based_categories
  delete_age_based_categories-unresolved t c id u =
      let briefs = map (λ b. b.id) (select (expired_brief created_at h now user_id) t.briefs) in
      let ps = map (without_brief briefs) t.proposals in
      let kept = expired_proposal-unresolved t.executions id ps u in
      let ids =
        map (λ p. p.id) (select (expired_proposal created_at h now user_id t.executions) ps) in
      (
        outcome_of-delete ids id t.executions kept,
        has_row-delete user_id id ids ps kept ∙ has_row-without_brief id briefs t.proposals,
      )

  -- A whole cleanup by age leaves every execution that is pending or uncertain with its outcome, and
  -- the proposal it is of, whatever the horizons.
  pub retention_cleanup-unresolved :
      (t : Tables) (c : Counts) (id : ℕ)
      → is_unresolved (outcome_of id t.executions) ≡ true
      → let t' = (retention_cleanup created_at h now user_id t c).0 in
        (outcome_of id t'.executions ≡ outcome_of id t.executions)
        × (has_row id t'.proposals ≡ has_row id t.proposals)
  retention_cleanup-unresolved t c id u =
      let scope = expired_scope user_id (cutoff now h.source_items_days) in
      let (t1, c1) = run_derived_cleanup user_id scope t c in
      let kept = run_derived_cleanup-Preserved user_id scope t c in
      let same = kept.executions.1 id in
      let u1 = ap is_unresolved same ∙ u in
      let (outcomes, rows) = delete_age_based_categories-unresolved t1 c1 id u1 in
      let acted : has_row id t1.proposals ≡ has_row id t.proposals =
        sym (acted_on-has_row t1.executions t1.proposals id (unresolved-acted _ id u1))
        ∙ ap (λ ids. contains ids id) kept.proposals
        ∙ acted_on-has_row t.executions t.proposals id (unresolved-acted _ id u) in
      (outcomes ∙ same, rows ∙ acted)
