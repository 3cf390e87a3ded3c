-- ===== src/Deletion/Tombstones.antt =====
-- The loop of account_deletion.py over the proposals: what it minimises, and what it leaves.
use lifeflow.Prelude.{ℕ, false, ◌≡◌, refl, ◌∙◌, List, [], ◌∷◌, Option, none, some, arith, nat_eq}
use lifeflow.Models.{ExecutionOutcome}
use lifeflow.Records.{ActionProposal, ActionExecution}
use lifeflow.Deletion.Operation.{Counts}
use lifeflow.Deletion.Tables.{Tables, outcome_of}
use lifeflow.Deletion.Account.{minimise_if_acted_on, minimise_acted_on}
use lifeflow.Deletion.Rows.{All-imp, All-append}
use lifeflow.Deletion.Histories.{
  has_execution, Unused, SameHistory, minimise_execution_in-SameHistory,
}

minimise_if_acted_on-rest :
    (o : Option ExecutionOutcome) (id : ℕ) (t x : Tables) (c : Counts)
    → let t' = (minimise_if_acted_on o id t c).1.0 in
      x ≡ record t' { proposals = x.proposals; executions = x.executions }
      → x ≡ record t { proposals = x.proposals; executions = x.executions }
minimise_if_acted_on-rest none id t x c h = h
minimise_if_acted_on-rest (some o) id t x c h = h

pub minimise_acted_on-rest :
    (ps : List ActionProposal) (t : Tables) (c : Counts)
    → let t' = (minimise_acted_on ps t c).1.0 in
      t' ≡ record t { proposals = t'.proposals; executions = t'.executions }
minimise_acted_on-rest [] t c = refl
minimise_acted_on-rest (p ∷ ps) t c =
    let o = outcome_of p.id t.executions in
    let (t', c') = (minimise_if_acted_on o p.id t c).1 in
    minimise_if_acted_on-rest o p.id t _ c (minimise_acted_on-rest ps t' c')

abbrev Spared : List ActionExecution → List ℕ × (Tables × Counts) → Type 0
Spared es (ids, (t, c)) = SameHistory es t.executions × Unused es ids

minimise_if_acted_on-Spared :
    (o : Option ExecutionOutcome) (id : ℕ) (t : Tables) (c : Counts)
    → outcome_of id t.executions ≡ o
    → Spared t.executions (minimise_if_acted_on o id t c)
minimise_if_acted_on-Spared none id t c h = ((refl, λ i. refl), (ground (arith, h), tt))
minimise_if_acted_on-Spared (some o) id t c h =
    (minimise_execution_in-SameHistory id t.executions, tt)

-- The loop keeps every execution but for its content, and the ids it returns have none.
pub minimise_acted_on-Spared :
    (ps : List ActionProposal) (t : Tables) (c : Counts)
    → Spared t.executions (minimise_acted_on ps t c)
minimise_acted_on-Spared [] t c = ((refl, λ i. refl), tt)
minimise_acted_on-Spared (p ∷ ps) t c =
    let o = outcome_of p.id t.executions in
    let (gone, (t', c')) = minimise_if_acted_on o p.id t c in
    let (ids, s) = minimise_acted_on ps t' c' in
    let ((e1, o1), u1) = minimise_if_acted_on-Spared o p.id t c refl in
    let ((e2, o2), u2) = minimise_acted_on-Spared ps t' c' in
    let u2' : Unused t.executions ids =
      All-imp (λ id. has_execution t'.executions id ≡ false) _ (λ id h. ground (arith, o1 id, h))
        ids u2 in
    (
      (e2 ∙ e1, λ i. o2 i ∙ o1 i),
      All-append (λ id. has_execution t.executions id ≡ false) gone ids u1 u2',
    )
