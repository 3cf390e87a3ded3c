-- ===== src/Deletion/Evidence.antt =====
-- What `apply_derived_decisions` of deletion_planner.py does to the references of the proposals.
use lifeflow.Prelude.{
  ℕ, Bool, true, false, not, ◌≡◌, refl, String, List, [], ◌∷◌, ◌++◌, ◌||◌, ◌&&◌, Option, none, some,
  map, find?, select, contains, arith, if-cases, ◌==◌, string_eq, nat_eq,
}
use lifeflow.Records.{ActionProposal, ActionExecution}
use lifeflow.Deletion.Operation.{Counts}
use lifeflow.Deletion.Tables.{Tables, MemoryEvidence, meets, survivors, outcome_of}
use lifeflow.Deletion.Planner.{
  Fate, preserved, minimised, deleted, recomputed, fate_of, file_under, ProposalDisposition,
  classify_proposals, minimise_one, minimise_all, recompute_proposal, recompute_proposals,
  without_source, proposal_decisions,
}
use lifeflow.Deletion.Rows.{
  All, All-imp, All-both, All-map, All-select, find?-none, contains-append, Apart, survivors-meets,
}

module _ (user_id : ℕ) (removed : List String) where
  -- A proposal of the user with a reference to removed evidence.
  abbrev pub proposal_affected : ActionProposal → Bool
  proposal_affected p = p.user_id == user_id && meets p.source_refs removed

  abbrev Filed : ProposalDisposition → ActionProposal → Type 0
  Filed d p =
      (not (proposal_affected p)
        || contains d.delete_ids p.id
        || contains d.minimise_ids p.id
        || contains d.preserve_uncertain_ids p.id
        || contains d.recompute_ids p.id)
      ≡ true

  file_under-new :
      (f : Fate) (p : ActionProposal) (d : ProposalDisposition) → Filed (file_under f p.id d) p
  file_under-new preserved p d = ground arith
  file_under-new minimised p d = ground arith
  file_under-new deleted p d = ground arith
  file_under-new recomputed p d = ground arith

  file_under-old :
      (f : Fate) (id : ℕ) (d : ProposalDisposition) (p : ActionProposal)
      → Filed d p
      → Filed (file_under f id d) p
  file_under-old preserved id d p h = ground arith
  file_under-old minimised id d p h = ground arith
  file_under-old deleted id d p h = ground arith
  file_under-old recomputed id d p h = ground arith

  module _ (surviving : List String) (executions : List ActionExecution) where
    abbrev FiledAll : ActionProposal → List ActionProposal → ProposalDisposition → Type 0
    FiledAll p ps d = Filed d p × All (Filed d) ps

    classify_proposals-Filed :
        (ps : List ActionProposal)
        → All (Filed (classify_proposals user_id removed surviving executions ps)) ps
    classify_proposals-Filed [] = tt
    classify_proposals-Filed (p ∷ ps) =
        let d = classify_proposals user_id removed surviving executions ps in
        let f =
          fate_of (outcome_of p.id executions) p.approved_at p.status
            (survivors surviving p.source_refs) in
        let before = classify_proposals-Filed ps in
        if-cases (FiledAll p ps) (proposal_affected p)
          (λ e. (file_under-new f p d, All-imp (Filed d) _ (file_under-old f p.id d) ps before))
          (λ e. (ground arith, before))

  -- The proposals that the loops have yet to reach.
  abbrev Covered : List ℕ → List ℕ → List ℕ → ActionProposal → Type 0
  Covered ds ms rs p =
      (not (proposal_affected p) || contains ds p.id || contains ms p.id || contains rs p.id) ≡ true

  minimise_one-Covered :
      (o : Option ActionProposal) (us ds : List ℕ) (id : ℕ) (ms rs : List ℕ) (t : Tables)
      (c : Counts)
      → find? (λ p. p.id == id) t.proposals ≡ o
      → All (Covered ds (id ∷ ms) rs) t.proposals
      → All (Covered ds ms rs) (minimise_one o us id t c).0.proposals
  minimise_one-Covered none us ds id ms rs t c h a =
      All-both _ _ (Covered ds ms rs) (λ x p q. ground arith) t.proposals
        (find?-none _ t.proposals h) a
  minimise_one-Covered (some p) us ds id ms rs t c h a =
      All-map _ (Covered ds ms rs) _ (λ x q. ground arith) t.proposals a

  minimise_all-Covered :
      (us ds ms rs : List ℕ) (t : Tables) (c : Counts)
      → All (Covered ds ms rs) t.proposals
      → All (Covered ds [] rs) (minimise_all us ms t c).0.proposals
  minimise_all-Covered us ds [] rs t c a = a
  minimise_all-Covered us ds (id ∷ ms) rs t c a =
      let (t', c') = minimise_one (find? (λ p. p.id == id) t.proposals) us id t c in
      minimise_all-Covered us ds ms rs t' c' (minimise_one-Covered _ us ds id ms rs t c refl a)

  module _ (surviving : List String) (apart : Apart removed surviving) where
    recompute_proposal-Covered :
        (o : Option ActionProposal) (ds : List ℕ) (id : ℕ) (rs : List ℕ) (ps : List ActionProposal)
        (c : Counts)
        → find? (λ p. p.id == id) ps ≡ o
        → All (Covered ds [] (id ∷ rs)) ps
        → All (Covered ds [] rs) (recompute_proposal o surviving id ps c).0
    recompute_proposal-Covered none ds id rs ps c h a =
        All-both _ _ (Covered ds [] rs) (λ x p q. ground arith) ps (find?-none _ ps h) a
    recompute_proposal-Covered (some p) ds id rs ps c h a =
        All-map _ (Covered ds [] rs) _
          (λ x q. ground (arith, survivors-meets removed surviving apart x.source_refs)) ps a

    recompute_proposals-Covered :
        (ds rs : List ℕ) (ps : List ActionProposal) (c : Counts)
        → All (Covered ds [] rs) ps
        → All (Covered ds [] []) (recompute_proposals surviving rs ps c).0
    recompute_proposals-Covered ds [] ps c a = a
    recompute_proposals-Covered ds (id ∷ rs) ps c a =
        let (ps', c') = recompute_proposal (find? (λ p. p.id == id) ps) surviving id ps c in
        recompute_proposals-Covered ds rs ps' c' (recompute_proposal-Covered _ ds id rs ps c refl a)

  abbrev pub NoneAffected : List ActionProposal → Type 0
  NoneAffected = All (λ p. proposal_affected p ≡ false)

  -- No proposal keeps a reference to removed evidence.
  pub proposal_decisions-NoneAffected :
      (surviving : List String)
      → Apart removed surviving
      → (t : Tables) (c : Counts)
      → NoneAffected (proposal_decisions user_id removed surviving t c).0.proposals
  unfolding proposal_decisions
  proposal_decisions-NoneAffected surviving apart t c =
      let d = classify_proposals user_id removed surviving t.executions t.proposals in
      let us = d.preserve_uncertain_ids in
      let ms = d.minimise_ids ++ us in
      let (t1, c1) = minimise_all us ms t c in
      let (ps, c2) = recompute_proposals surviving d.recompute_ids t1.proposals c1 in
      let filed_all = classify_proposals-Filed surviving t.executions t.proposals in
      let start : All (Covered d.delete_ids ms d.recompute_ids) t.proposals =
        All-imp (Filed d) _ (λ p f. ground (arith, contains-append d.minimise_ids us p.id))
          t.proposals filed_all in
      All-select (Covered d.delete_ids [] []) _ _ (λ x k p. ground arith) ps
        (recompute_proposals-Covered surviving apart d.delete_ids d.recompute_ids t1.proposals c1
          (minimise_all-Covered us d.delete_ids ms d.recompute_ids t c start))

  classify_proposals-same :
      (surviving : List String) (es : List ActionExecution) (ps : List ActionProposal)
      → NoneAffected ps
      → classify_proposals user_id removed surviving es ps ≡ record {
        delete_ids = [];
        minimise_ids = [];
        preserve_uncertain_ids = [];
        recompute_ids = [];
      }
  classify_proposals-same surviving es [] u = refl
  classify_proposals-same surviving es (p ∷ ps) (e, u) =
      rw (e, classify_proposals-same surviving es ps u)

  map-without_source : (ms : List MemoryEvidence) → map (without_source []) ms ≡ ms
  map-without_source [] = refl
  map-without_source (m ∷ ms) = ground (arith, map-without_source ms)

  keep_proposals :
      (ps : List ActionProposal) → select (λ p. not (p.user_id == user_id && false)) ps ≡ ps
  keep_proposals [] = refl
  keep_proposals (p ∷ ps) = ground (arith, keep_proposals ps)

  keep_executions : (es : List ActionExecution) → select (λ e. true) es ≡ es
  keep_executions [] = refl
  keep_executions (e ∷ es) = ground (arith, keep_executions es)

  -- Where no proposal has one, nothing is decided.
  pub proposal_decisions-same :
      (surviving : List String) (t : Tables) (c : Counts)
      → NoneAffected t.proposals
      → proposal_decisions user_id removed surviving t c ≡ (t, c)
  unfolding nat_eq proposal_decisions
  proposal_decisions-same surviving t c u = rw (
    classify_proposals-same surviving t.executions t.proposals u,
    keep_proposals t.proposals,
    keep_executions t.executions,
    map-without_source t.memory.evidence,
  )
