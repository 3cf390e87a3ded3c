-- ===== src/Generation/Respect.antt =====
-- `generate_from_brief` against the owner's decisions and the invariant of the rows.
use lifeflow.Prelude.{ℕ, true, false, ◌≡◌, String, Option, some, arith, if-cases, not, ◌||◌}
use lifeflow.Models.{ProposalStatus, is_open, is_proposed}
use lifeflow.Payloads.{Boundary, canonical_payload, action_payload_hash, action_document}
use lifeflow.Records.{ActionProposal}
use lifeflow.Proposals.{Work, is_due}
use lifeflow.Proposals.Invariant.{IsValid}
use lifeflow.Generation.Candidate.{
  ProposalCandidate, Fate, reconsider, refreshed, was_edited, has_changed, new_proposal,
}

module _ (user_id reference : ℕ) (c : ProposalCandidate) (payload_hash : String) where
  -- What generation may do to a row: nothing; let it expire; or, for a row that is proposed, not due
  -- and never edited, refresh it.
  pub data Respects (p : ActionProposal) : ActionProposal → Type 0 where
    leaves : Respects p p
    expires :
        is_due user_id reference p ≡ true
        → Respects p (record p { status = ProposalStatus.expired })
    refreshes :
        is_due user_id reference p ≡ false
        → is_proposed p.status ≡ true
        → was_edited p.user_edited_at ≡ false
        → has_changed c payload_hash p ≡ true
        → Respects p (refreshed c payload_hash p)

  abbrev Kept : ActionProposal → Fate × Work → Type 0
  Kept p t = Respects p t.1.proposal

  -- A candidate whose origin has a proposal leaves that row as it is, or expires it when it is due,
  -- or refreshes it when it is proposed, not due, never edited and different from the candidate.
  pub reconsider-Respects :
      (w : Work) → Respects w.proposal (reconsider user_id reference c payload_hash w).1.proposal
  unfolding reconsider
  reconsider-Respects w =
      let p = w.proposal in
      if-cases (Kept p) (is_due user_id reference p) (λ due. expires due)
        (λ early.
          if-cases (Kept p) (not (is_open p.status)) (λ _. leaves)
            (λ _.
              if-cases (Kept p) (not (is_proposed p.status) || was_edited p.user_edited_at)
                (λ _. leaves)
                (λ free.
                  if-cases (Kept p) (has_changed c payload_hash p)
                    (λ changed. refreshes early (ground arith) (ground arith) changed)
                    (λ _. leaves))))

module _ (B : Boundary) (user_id reference : ℕ) (c : ProposalCandidate) (payload_hash : String)
    (canonical : canonical_payload B c.action_type c.payload ≡ some c.payload)
    (hashed : action_payload_hash B c.action_type c.payload ≡ some payload_hash) where
  candidate_hash : payload_hash ≡ B.sha256 (action_document c.action_type c.payload)
  unfolding action_payload_hash
  candidate_hash = ground (arith, canonical)

  pub Respects-IsValid :
      (p p' : ActionProposal)
      → Respects user_id reference c payload_hash p p'
      → IsValid B reference p
      → IsValid B reference p'
  Respects-IsValid p _ leaves v = v
  Respects-IsValid p _ (expires due) v = ground arith
  Respects-IsValid p _ (refreshes early status free changed) v = ground (arith, candidate_hash)

  pub new_proposal-IsValid :
      (id : ℕ) (brief_id : Option ℕ)
      → IsValid B reference (new_proposal user_id reference id brief_id c payload_hash)
  unfolding new_proposal
  new_proposal-IsValid id brief_id = ground (arith, candidate_hash)
