-- ===== src/Deletion/Scrubbed.antt =====
-- The loop of account_deletion.py over the proposals: what it erases.
use lifeflow.Prelude.{
  ℕ, Bool, true, false, ◌||◌, not, ◌≡◌, refl, ap, ◌∙◌, List, [], ◌∷◌, ◌++◌, Option, none, some,
  arith, map, contains, if-cases, Bool-cases, ◌⊎◌, inl, inr, ==→≡, select, ◌==◌, ◌&&◌, nat_eq,
}
use lifeflow.Payloads.{emptied}
use lifeflow.Models.{ExecutionOutcome}
use lifeflow.Records.{ActionProposal, ActionExecution}
use lifeflow.Deletion.Operation.{Counts}
use lifeflow.Deletion.Tables.{Tables, outcome_of}
use lifeflow.Deletion.Planner.{
  minimise_proposal, minimise_execution, minimise_in, minimise_execution_in, delete_proposals,
}
use lifeflow.Deletion.Account.{minimise_if_acted_on, minimise_acted_on}
use lifeflow.Deletion.Rows.{All, All-imp, All-both, All-map, All-select, contains-append}
use lifeflow.Deletion.Histories.{has_execution, minimise_execution_in-SameHistory}

-- Nothing of what was done is left in the row.
pub record IsErased (e : ActionExecution) : Type 0 where
  pub payload : e.executed_payload_json ≡ emptied
  pub result : e.result_json ≡ []

-- Nothing of what was proposed is left in the row.
pub record IsTombstone (p : ActionProposal) : Type 0 where
  pub rationale : p.rationale ≡ "[minimised: source evidence deleted]"
  pub payload : p.payload_json ≡ emptied
  pub source_refs : p.source_refs ≡ []
  pub approved_payload : p.approved_payload_json ≡ none
  pub rejection : p.rejection_reason ≡ none

minimise_execution-IsErased : (e : ActionExecution) → IsErased (minimise_execution e)
minimise_execution-IsErased e = record { payload = refl; result = refl }

minimise_proposal-IsTombstone : (p : ActionProposal) → IsTombstone (minimise_proposal p)
minimise_proposal-IsTombstone p = record {
  rationale = refl;
  payload = refl;
  source_refs = refl;
  approved_payload = refl;
  rejection = refl;
}

outcome_of-none :
    (id : ℕ) (es : List ActionExecution)
    → outcome_of id es ≡ none
    → All (λ e. (e.proposal_id == id) ≡ false) es
outcome_of-none id [] h = tt
outcome_of-none id (e ∷ es) h = ground (arith, h, outcome_of-none id es)

module _ (user_id : ℕ) (mine : List ℕ) (es : List ActionExecution) where
  -- Of another user's proposal, or erased, or of a proposal that the loop has yet to reach.
  pub data Scrubbed (rest : List ℕ) (e : ActionExecution) : Type 0 where
    foreign : contains mine e.proposal_id ≡ false → Scrubbed rest e
    erased : IsErased e → Scrubbed rest e
    ahead : contains rest e.proposal_id ≡ true → Scrubbed rest e

  -- Another user's, or a tombstone of what has an execution, or yet to be reached, or to be deleted.
  pub data Laid (rest : List ℕ) (gone : ℕ → Bool) (p : ActionProposal) : Type 0 where
    others : (p.user_id == user_id) ≡ false → Laid rest gone p
    tombstone : IsTombstone p → has_execution es p.id ≡ true → Laid rest gone p
    waits : contains rest p.id ≡ true → Laid rest gone p
    leaves : gone p.id ≡ true → Laid rest gone p

  Scrubbed-later :
      (id : ℕ) (rest : List ℕ) (e : ActionExecution)
      → (e.proposal_id == id) ≡ false
      → Scrubbed (id ∷ rest) e
      → Scrubbed rest e
  Scrubbed-later id rest e n (foreign h) = foreign h
  Scrubbed-later id rest e n (erased h) = erased h
  Scrubbed-later id rest e n (ahead h) = ahead (ground (arith, n, h))

  Laid-later :
      (id : ℕ) (rest : List ℕ) (gone : ℕ → Bool) (p : ActionProposal)
      → (p.id == id) ≡ false
      → Laid (id ∷ rest) gone p
      → Laid rest gone p
  Laid-later id rest gone p n (others h) = others h
  Laid-later id rest gone p n (tombstone h e) = tombstone h e
  Laid-later id rest gone p n (waits h) = waits (ground (arith, n, h))
  Laid-later id rest gone p n (leaves h) = leaves h

  Laid-gone :
      (rest : List ℕ) (gone gone' : ℕ → Bool)
      → ((i : ℕ) → gone i ≡ true → gone' i ≡ true)
      → (p : ActionProposal) → Laid rest gone p
      → Laid rest gone' p
  Laid-gone rest gone gone' f p (others h) = others h
  Laid-gone rest gone gone' f p (tombstone h e) = tombstone h e
  Laid-gone rest gone gone' f p (waits h) = waits h
  Laid-gone rest gone gone' f p (leaves h) = leaves (f p.id h)

  abbrev or_is : (ℕ → Bool) → ℕ → ℕ → Bool
  or_is gone id i = gone i || (i == id)

  Laid-leaves :
      (id : ℕ) (rest : List ℕ) (gone : ℕ → Bool) (p : ActionProposal)
      → Laid (id ∷ rest) gone p
      → Laid rest (or_is gone id) p
  Laid-leaves id rest gone p l = elim (Bool-cases (p.id == id)) [
    | inl e ↦ leaves (ground (arith, e))
    | inr n ↦
        Laid-gone rest gone (or_is gone id) (λ i h. ground (arith, h)) p
          (Laid-later id rest gone p n l)
  ]

  minimised-Scrubbed :
      (id : ℕ) (rest : List ℕ) (xs : List ActionExecution)
      → All (Scrubbed (id ∷ rest)) xs
      → All (Scrubbed rest) (minimise_execution_in id xs)
  minimised-Scrubbed id rest xs a =
      All-map (Scrubbed (id ∷ rest)) (Scrubbed rest) _
        (λ e l.
          if-cases (Scrubbed rest) (e.proposal_id == id)
            (λ _. erased (minimise_execution-IsErased e)) (λ n. Scrubbed-later id rest e n l))
        xs a

  minimised-Laid :
      (id : ℕ) (rest : List ℕ) (gone : ℕ → Bool) (ps : List ActionProposal)
      → has_execution es id ≡ true
      → All (Laid (id ∷ rest) gone) ps
      → All (Laid rest gone) (minimise_in id ps)
  minimised-Laid id rest gone ps h a =
      All-map (Laid (id ∷ rest) gone) (Laid rest gone) _
        (λ p l.
          if-cases (Laid rest gone) (p.id == id)
            (λ e.
              tombstone (minimise_proposal-IsTombstone p)
                (ap (has_execution es) (==→≡ p.id id e) ∙ h))
            (λ n. Laid-later id rest gone p n l))
        ps a

  abbrev ids_of : List ActionProposal → List ℕ
  ids_of = map (λ p. p.id)

  abbrev SameOutcomes : List ActionExecution → Type 0
  SameOutcomes xs = (i : ℕ) → outcome_of i xs ≡ outcome_of i es

  abbrev either : (ℕ → Bool) → List ℕ → ℕ → Bool
  either gone ids i = gone i || contains ids i

  -- One round, for the outcome that it finds.
  abbrev Round : List ℕ → (ℕ → Bool) → List ℕ × (Tables × Counts) → Type 0
  Round rest gone (ids, (t, c)) =
      All (Scrubbed rest) t.executions × All (Laid rest (either gone ids)) t.proposals

  round :
      (o : Option ExecutionOutcome) (id : ℕ) (rest : List ℕ) (gone : ℕ → Bool) (t : Tables)
      (c : Counts)
      → outcome_of id t.executions ≡ o
      → SameOutcomes t.executions
      → All (Scrubbed (id ∷ rest)) t.executions
      → All (Laid (id ∷ rest) gone) t.proposals
      → Round rest gone (minimise_if_acted_on o id t c)
  round none id rest gone t c h same xs ps = (
    All-both _ _ (Scrubbed rest) (λ e n l. Scrubbed-later id rest e n l) t.executions
        (outcome_of-none id t.executions h) xs,
    All-imp (Laid (id ∷ rest) gone) _
        (λ p l.
          Laid-gone rest (or_is gone id) (either gone (id ∷ [])) (λ i e. ground (arith, e)) p
            (Laid-leaves id rest gone p l))
        t.proposals ps,
  )
  round (some o) id rest gone t c h same xs ps = (
    minimised-Scrubbed id rest t.executions xs,
    All-imp (Laid rest gone) _
        (λ p l. Laid-gone rest gone (either gone []) (λ i e. ground (arith, e)) p l) _
        (minimised-Laid id rest gone t.proposals (ground (arith, same id, h)) ps),
  )

  round-same :
      (o : Option ExecutionOutcome) (id : ℕ) (t : Tables) (c : Counts)
      → SameOutcomes t.executions
      → SameOutcomes (minimise_if_acted_on o id t c).1.0.executions
  round-same none id t c same = same
  round-same (some o) id t c same =
      λ i. (minimise_execution_in-SameHistory id t.executions).1 i ∙ same i

  pub minimise_acted_on-Round :
      (ps : List ActionProposal) (gone : ℕ → Bool) (t : Tables) (c : Counts)
      → SameOutcomes t.executions
      → All (Scrubbed (ids_of ps)) t.executions
      → All (Laid (ids_of ps) gone) t.proposals
      → Round [] gone (minimise_acted_on ps t c)
  minimise_acted_on-Round [] gone t c same xs ls = (
    xs,
    All-imp (Laid [] gone) _
        (λ p l. Laid-gone [] gone (either gone []) (λ i e. ground (arith, e)) p l) _ ls,
  )
  minimise_acted_on-Round (p ∷ ps) gone t c same xs ls =
      let o = outcome_of p.id t.executions in
      let (out, (t', c')) = minimise_if_acted_on o p.id t c in
      let (xs', ls') = round o p.id (ids_of ps) gone t c refl same xs ls in
      let (xs'', ls'') =
        minimise_acted_on-Round ps (either gone out) t' c' (round-same o p.id t c same) xs' ls' in
      let ids = (minimise_acted_on ps t' c').0 in
      (
        xs'',
        All-imp (Laid [] (either (either gone out) ids)) _
            (λ q l.
              Laid-gone [] (either (either gone out) ids) (either gone (out ++ ids))
                (λ i e. ground (arith, e, contains-append out ids i)) q l)
            _ ls'',
      )

-- Of the executions of these proposals nothing but the bare outcome is left.
abbrev pub AllErased : List ℕ → List ActionExecution → Type 0
AllErased mine = All (λ e. (contains mine e.proposal_id ≡ false) ⊎ IsErased e)

-- Of the user's proposals only tombstones are left, each of what has an execution.
abbrev pub AllTombstones : ℕ → List ActionExecution → List ActionProposal → Type 0
AllTombstones user_id es = All (λ (p : ActionProposal).
    ((p.user_id == user_id) ≡ false) ⊎ (IsTombstone p × (has_execution es p.id ≡ true)))

-- The ids of the user's proposals.
abbrev pub own_ids : ℕ → List ActionProposal → List ℕ
own_ids user_id ps = map (λ p. p.id) (select (λ p. p.user_id == user_id) ps)

pub own_ids-map :
    (user_id : ℕ) (f : ActionProposal → ActionProposal)
    → ((p : ActionProposal) → (f p).id ≡ p.id)
    → ((p : ActionProposal) → (f p).user_id ≡ p.user_id)
    → (ps : List ActionProposal) → own_ids user_id (map f ps) ≡ own_ids user_id ps
own_ids-map user_id f i u [] = refl
own_ids-map user_id f i u (p ∷ ps) = ground (arith, i p, u p, own_ids-map user_id f i u ps)

module _ (user_id : ℕ) (es : List ActionExecution) where
  Scrubbed-start :
      (mine : List ℕ) (xs : List ActionExecution) → All (Scrubbed user_id mine es mine) xs
  Scrubbed-start mine [] = tt
  Scrubbed-start mine (e ∷ xs) = (
    elim (Bool-cases (contains mine e.proposal_id)) [ inl h ↦ ahead h | inr h ↦ foreign h ],
    Scrubbed-start mine xs,
  )

  Laid-more :
      (mine : List ℕ) (id : ℕ) (rest : List ℕ) (p : ActionProposal)
      → Laid user_id mine es rest (λ _. false) p
      → Laid user_id mine es (id ∷ rest) (λ _. false) p
  Laid-more mine id rest p (others h) = others h
  Laid-more mine id rest p (tombstone h e) = tombstone h e
  Laid-more mine id rest p (waits h) = waits (ground (arith, h))
  Laid-more mine id rest p (leaves h) = leaves h

  Laid-start :
      (mine : List ℕ) (ps : List ActionProposal)
      → All (Laid user_id mine es (own_ids user_id ps) (λ _. false)) ps
  Laid-start mine [] = tt
  Laid-start mine (p ∷ ps) =
      if-cases
        (λ (own : List ActionProposal).
          All (Laid user_id mine es (map (λ q. q.id) own) (λ _. false)) (p ∷ ps))
        (p.user_id == user_id)
        (λ _. (
          waits (ground arith),
          All-imp (Laid user_id mine es (own_ids user_id ps) (λ _. false)) _
              (Laid-more mine p.id (own_ids user_id ps)) ps (Laid-start mine ps),
        ))
        (λ n. (others n, Laid-start mine ps))

  -- What a delete of the ids of the loop leaves.
  Laid-end :
      (mine ids : List ℕ) (p : ActionProposal)
      → not (p.user_id == user_id && contains ids p.id) ≡ true
      → Laid user_id mine es [] (λ i. false || contains ids i) p
      → ((p.user_id == user_id) ≡ false) ⊎ (IsTombstone p × (has_execution es p.id ≡ true))
  Laid-end mine ids p k (others h) = inl h
  Laid-end mine ids p k (tombstone h e) = inr (h, e)
  Laid-end mine ids p k (waits h) = absurd (ground (arith, h))
  Laid-end mine ids p k (leaves h) = inl (ground (arith, h, k))

  Scrubbed-end :
      (mine : List ℕ) (e : ActionExecution)
      → Scrubbed user_id mine es [] e
      → (contains mine e.proposal_id ≡ false) ⊎ IsErased e
  Scrubbed-end mine e (foreign h) = inl h
  Scrubbed-end mine e (erased h) = inr h
  Scrubbed-end mine e (ahead h) = absurd (ground (arith, h))

  pub minimised-Left :
      (t : Tables) (c : Counts)
      → ((i : ℕ) → outcome_of i t.executions ≡ outcome_of i es)
      → let (ids, (t1, c1)) =
          minimise_acted_on (select (λ p. p.user_id == user_id) t.proposals) t c in
        let t2 = delete_proposals user_id ids t1 in
        AllErased (own_ids user_id t.proposals) t2.executions
        × AllTombstones user_id es t2.proposals
  minimised-Left t c same =
      let own = select (λ p. p.user_id == user_id) t.proposals in
      let mine = own_ids user_id t.proposals in
      let (ids, (t1, c1)) = minimise_acted_on own t c in
      let (xs, ls) =
        minimise_acted_on-Round user_id mine es own (λ _. false) t c same
          (Scrubbed-start mine t.executions) (Laid-start mine t.proposals) in
      (
        All-select (Scrubbed user_id mine es []) _ _ (λ e k l. Scrubbed-end mine e l) t1.executions
            xs,
        All-select (Laid user_id mine es [] (λ i. false || contains ids i)) _ _
            (λ p k l. Laid-end mine ids p k l) t1.proposals ls,
      )
