-- ===== src/Deletion/Histories.antt =====
-- What `apply_derived_decisions` of deletion_planner.py leaves of the history of the actions.
use lifeflow.Prelude.{
  ℕ, Bool, true, false, not, ◌≡◌, refl, sym, subst, ◌∙◌, String, List, [], ◌∷◌, ◌++◌, ◌&&◌, Option,
  none, some, map, find?, select, contains, arith, if-cases, ◌==◌, string_eq, nat_eq,
}
use lifeflow.Models.{ExecutionOutcome, ProposalStatus}
use lifeflow.Records.{ActionProposal, ActionExecution}
use lifeflow.Deletion.Operation.{Counts}
use lifeflow.Deletion.Tables.{Tables, meets, survivors, outcome_of}
use lifeflow.Deletion.Planner.{
  Fate, preserved, minimised, deleted, recomputed, fate_of, file_under, ProposalDisposition,
  classify_proposals, minimise_execution, minimise_execution_in, minimise_in, minimise_one,
  prune_in, minimise_all, recompute_proposal, recompute_proposals, delete_proposals,
  proposal_decisions,
}
use lifeflow.Deletion.Rows.{All, All-imp}

abbrev pub has_execution : List ActionExecution → ℕ → Bool
has_execution es id = elim (outcome_of id es) [ none ↦ false | some _ ↦ true ]

-- The ids of the proposals with an execution.
abbrev pub acted_on : List ActionExecution → List ActionProposal → List ℕ
acted_on es ps = select (has_execution es) (map (λ p. p.id) ps)

abbrev pub Unused : List ActionExecution → List ℕ → Type 0
Unused es = All (λ id. has_execution es id ≡ false)

fate_of-deleted :
    (o : Option ExecutionOutcome) (approved_at : Option ℕ) (s : ProposalStatus) (r : List String)
    → fate_of o approved_at s r ≡ deleted
    → o ≡ none
fate_of-deleted none approved_at s r h = refl
fate_of-deleted (some ExecutionOutcome.pending) approved_at s r h = absurd (ground arith)
fate_of-deleted (some ExecutionOutcome.uncertain) approved_at s r h = absurd (ground arith)
fate_of-deleted (some ExecutionOutcome.succeeded) approved_at s r h = absurd (ground arith)
fate_of-deleted (some ExecutionOutcome.failed) approved_at s r h = absurd (ground arith)

module _ (es : List ActionExecution) where
  file_under-Unused :
      (f : Fate) (id : ℕ) (d : ProposalDisposition)
      → (f ≡ deleted → has_execution es id ≡ false)
      → Unused es d.delete_ids
      → Unused es (file_under f id d).delete_ids
  file_under-Unused preserved id d h u = u
  file_under-Unused minimised id d h u = u
  file_under-Unused deleted id d h u = (h refl, u)
  file_under-Unused recomputed id d h u = u

  classify_proposals-Unused :
      (user_id : ℕ) (removed surviving : List String) (ps : List ActionProposal)
      → Unused es (classify_proposals user_id removed surviving es ps).delete_ids
  classify_proposals-Unused user_id removed surviving [] = tt
  classify_proposals-Unused user_id removed surviving (p ∷ ps) =
      let d = classify_proposals user_id removed surviving es ps in
      let remaining = survivors surviving p.source_refs in
      let f = fate_of (outcome_of p.id es) p.approved_at p.status remaining in
      let before = classify_proposals-Unused user_id removed surviving ps in
      if-cases (λ (c : ProposalDisposition). Unused es c.delete_ids)
        (p.user_id == user_id && meets p.source_refs removed)
        (λ e.
          file_under-Unused f p.id d
            (λ h.
              ground
                (arith, fate_of-deleted (outcome_of p.id es) p.approved_at p.status remaining h))
            before)
        (λ e. before)

  Unused-contains :
      (ids : List ℕ) (id : ℕ) → Unused es ids → has_execution es id ≡ true → contains ids id ≡ false
  Unused-contains [] id u h = refl
  Unused-contains (i ∷ ids) id (e, u) h = ground (arith, Unused-contains ids id u h)

Unused-tail :
    (e : ActionExecution) (es : List ActionExecution) (ids : List ℕ)
    → Unused (e ∷ es) ids
    → Unused es ids
Unused-tail e es ids u =
    All-imp (λ id. has_execution (e ∷ es) id ≡ false) _ (λ id h. ground arith) ids u

pub keep-executions :
    (ids : List ℕ) (es : List ActionExecution)
    → Unused es ids
    → select (λ e. not (contains ids e.proposal_id)) es ≡ es
keep-executions ids [] u = refl
keep-executions ids (e ∷ es) u = ground (
  arith,
  keep-executions ids es (Unused-tail e es ids u),
  Unused-contains (e ∷ es) ids e.proposal_id u,
)

-- The executions that differ in their erased content only.
abbrev pub SameHistory : List ActionExecution → List ActionExecution → Type 0
SameHistory es es' =
    (map minimise_execution es' ≡ map minimise_execution es)
    × ((id : ℕ) → outcome_of id es' ≡ outcome_of id es)

pub minimise_execution_in-SameHistory :
    (id : ℕ) (es : List ActionExecution) → SameHistory es (minimise_execution_in id es)
minimise_execution_in-SameHistory id [] = (refl, λ i. refl)
minimise_execution_in-SameHistory id (e ∷ es) =
    let (same, outcomes) = minimise_execution_in-SameHistory id es in
    (ground (arith, same), λ i. ground (arith, outcomes i))

-- What the minimising loop keeps.
abbrev Kept : Tables → Tables → Type 0
Kept t t' =
    SameHistory t.executions t'.executions
    × (t'.source_items ≡ t.source_items)
    × (t'.signals ≡ t.signals)
    × (t'.operations ≡ t.operations)
    × (map (λ p. p.id) t'.proposals ≡ map (λ p. p.id) t.proposals)

minimise_in-ids :
    (id : ℕ) (ps : List ActionProposal) → map (λ p. p.id) (minimise_in id ps) ≡ map (λ p. p.id) ps
minimise_in-ids id [] = refl
minimise_in-ids id (p ∷ ps) = ground (arith, minimise_in-ids id ps)

minimise_one-Kept :
    (o : Option ActionProposal) (us : List ℕ) (id : ℕ) (t : Tables) (c : Counts)
    → Kept t (minimise_one o us id t c).0
minimise_one-Kept none us id t c = ((refl, λ i. refl), refl, refl, refl, refl)
minimise_one-Kept (some p) us id t c = (
  minimise_execution_in-SameHistory id t.executions,
  refl,
  refl,
  refl,
  minimise_in-ids id t.proposals,
)

minimise_all-Kept : (us ids : List ℕ) (t : Tables) (c : Counts) → Kept t (minimise_all us ids t c).0
minimise_all-Kept us [] t c = ((refl, λ i. refl), refl, refl, refl, refl)
minimise_all-Kept us (id ∷ ids) t c =
    let found = find? (λ p. p.id == id) t.proposals in
    let (t', c') = minimise_one found us id t c in
    let ((e1, o1), i1, s1, w1, p1) = minimise_one-Kept found us id t c in
    let ((e2, o2), i2, s2, w2, p2) = minimise_all-Kept us ids t' c' in
    ((e2 ∙ e1, λ i. o2 i ∙ o1 i), i2 ∙ i1, s2 ∙ s1, w2 ∙ w1, p2 ∙ p1)

prune_in-ids :
    (surviving : List String) (id : ℕ) (ps : List ActionProposal)
    → map (λ p. p.id) (prune_in surviving id ps) ≡ map (λ p. p.id) ps
prune_in-ids surviving id [] = refl
prune_in-ids surviving id (p ∷ ps) = ground (arith, prune_in-ids surviving id ps)

recompute_proposal-ids :
    (o : Option ActionProposal) (surviving : List String) (id : ℕ) (ps : List ActionProposal)
    (c : Counts)
    → map (λ p. p.id) (recompute_proposal o surviving id ps c).0 ≡ map (λ p. p.id) ps
recompute_proposal-ids none surviving id ps c = refl
recompute_proposal-ids (some p) surviving id ps c = prune_in-ids surviving id ps

recompute_proposals-ids :
    (surviving : List String) (ids : List ℕ) (ps : List ActionProposal) (c : Counts)
    → map (λ p. p.id) (recompute_proposals surviving ids ps c).0 ≡ map (λ p. p.id) ps
recompute_proposals-ids surviving [] ps c = refl
recompute_proposals-ids surviving (id ∷ ids) ps c =
    let found = find? (λ p. p.id == id) ps in
    let (ps', c') = recompute_proposal found surviving id ps c in
    recompute_proposals-ids surviving ids ps' c' ∙ recompute_proposal-ids found surviving id ps c

-- Deleting proposals without an execution leaves those with one.
acted_on-delete :
    (user_id : ℕ) (ids : List ℕ) (es : List ActionExecution)
    → Unused es ids
    → (ps : List ActionProposal)
    → acted_on es (select (λ p. not (p.user_id == user_id && contains ids p.id)) ps)
      ≡ acted_on es ps
acted_on-delete user_id ids es u [] = refl
acted_on-delete user_id ids es u (p ∷ ps) =
    ground (arith, acted_on-delete user_id ids es u ps, Unused-contains es ids p.id u)

select-same :
    (f g : ℕ → Bool) → ((i : ℕ) → f i ≡ g i) → (ids : List ℕ) → select f ids ≡ select g ids
select-same f g same [] = refl
select-same f g same (i ∷ ids) = rw (same i, select-same f g same ids)

-- The history of the actions: the executions but for their content, and the proposals they are of.
pub record Preserved (t t' : Tables) : Type 0 where
  pub sources : t'.source_items ≡ t.source_items
  pub operations : t'.operations ≡ t.operations
  pub executions : SameHistory t.executions t'.executions
  pub proposals : acted_on t'.executions t'.proposals ≡ acted_on t.executions t.proposals

-- Deleting proposals without an execution, after changes that keep the history, keeps it.
delete_proposals-Preserved :
    (user_id : ℕ) (ids : List ℕ) (t t1 : Tables)
    → (t1.source_items ≡ t.source_items)
    → (t1.operations ≡ t.operations)
    → SameHistory t.executions t1.executions
    → map (λ p. p.id) t1.proposals ≡ map (λ p. p.id) t.proposals
    → Unused t.executions ids
    → Preserved t (delete_proposals user_id ids t1)
delete_proposals-Preserved user_id ids t t1 items work (same, outcomes) rows unused =
    let has : (id : ℕ) → has_execution t1.executions id ≡ has_execution t.executions id =
      λ id. rw (outcomes id, has_execution) in
    let unused1 : Unused t1.executions ids =
      All-imp (λ id. has_execution t.executions id ≡ false) _ (λ id h. has id ∙ h) ids unused in
    let kept = keep-executions ids t1.executions unused1 in
    let acted = acted_on-delete user_id ids t1.executions unused1 t1.proposals in
    record {
      sources = items;
      operations = work;
      executions = subst (SameHistory t.executions) (sym kept) (same, outcomes);
      proposals = rw kept (acted ∙ rw rows (select-same _ _ has (map (λ p. p.id) t.proposals)));
    }

module _ (user_id : ℕ) (removed surviving : List String) where
  pub proposal_decisions-Preserved :
      (t : Tables) (c : Counts) → Preserved t (proposal_decisions user_id removed surviving t c).0
  unfolding proposal_decisions
  proposal_decisions-Preserved t c =
      let d = classify_proposals user_id removed surviving t.executions t.proposals in
      let us = d.preserve_uncertain_ids in
      let (t1, c1) = minimise_all us (d.minimise_ids ++ us) t c in
      let (ps, c2) = recompute_proposals surviving d.recompute_ids t1.proposals c1 in
      let (same, items, ss, work, ids) = minimise_all-Kept us (d.minimise_ids ++ us) t c in
      delete_proposals-Preserved user_id d.delete_ids t (record t1 { proposals = ps }) items work
        same (recompute_proposals-ids surviving d.recompute_ids t1.proposals c1 ∙ ids)
        (classify_proposals-Unused t.executions user_id removed surviving t.proposals)

  pub proposal_decisions-signals :
      (t : Tables) (c : Counts)
      → (proposal_decisions user_id removed surviving t c).0.signals ≡ t.signals
  unfolding proposal_decisions
  proposal_decisions-signals t c =
      let d = classify_proposals user_id removed surviving t.executions t.proposals in
      let us = d.preserve_uncertain_ids in
      let (same, items, ss, work, ids) = minimise_all-Kept us (d.minimise_ids ++ us) t c in ss
