-- ===== src/Generation/Holding.antt =====
-- The slot of an action type in `generate_from_brief`: the row that holds it.
use lifeflow.Prelude.{
  ℕ, Bool, true, false, ◌≡◌, String, List, [], ◌∷◌, Option, none, some, map, ◌==◌, nat_eq,
  string_eq, if◌then◌else◌,
}
use lifeflow.Models.{is_open}
use lifeflow.Payloads.{Boundary, action_payload_hash}
use lifeflow.Records.{ActionProposal}
use lifeflow.Proposals.{Work, is_due}
use lifeflow.Generation.Candidate.{
  ProposalCandidate, ProposalGenerationSummary, Fate, preserved_free, fills_slot, count,
}
use lifeflow.Generation.Walk.{Generating, try_candidate, walk, get_by_origin, put_proposal}

-- No row has the id of another.
abbrev Apart : ℕ → List ActionProposal → Type 0
Apart id [] = Unit
Apart id (p ∷ ps) = ((p.id == id) ≡ false) × Apart id ps

abbrev pub Distinct : List ActionProposal → Type 0
Distinct [] = Unit
Distinct (p ∷ ps) = Apart p.id ps × Distinct ps

module _ (B : Boundary) (user_id reference : ℕ) (brief_id : Option ℕ) (new_id : String → ℕ)
    (winner : String → Option ActionProposal) where
  -- What is known of a candidate whose origin has a row.
  pub record Found (ps : List ActionProposal) (c : ProposalCandidate) : Type 0 where
    pub row : ActionProposal
    pub hash : String
    pub hashed : action_payload_hash B c.action_type c.payload ≡ some hash
    pub found : get_by_origin user_id c.origin_fingerprint ps ≡ some row

  -- A candidate whose row is open and not due, behind any number of candidates whose rows are closed.
  pub data IsHeld (ps : List ActionProposal) : List ProposalCandidate → Type 0 where
    holder :
        {c : ProposalCandidate} {cs : List ProposalCandidate} (f : Found ps c)
        → is_open (f.row).status ≡ true
        → is_due user_id reference f.row ≡ false
        → IsHeld ps (c ∷ cs)
    past :
        {c : ProposalCandidate} {cs : List ProposalCandidate} (f : Found ps c)
        → is_open (f.row).status ≡ false
        → IsHeld ps cs
        → IsHeld ps (c ∷ cs)

  -- An open row keeps the slot, and nothing is created for it.
  abbrev Keeps : Fate × Work → Type 0
  Keeps (fate, w) =
      (fills_slot fate ≡ true)
      × ((t : ProposalGenerationSummary) → (count fate t).created ≡ t.created)

  abbrev tried : ProposalCandidate → Generating → Option (Bool × Generating)
  tried = try_candidate B user_id reference brief_id new_id winner

  -- What the walk leaves.
  abbrev Ends : Generating → Option Generating → Type 0
  Ends s o =
      (s' : Generating) × ((o ≡ some s')
        × (map (λ p. p.id) s'.proposals ≡ map (λ p. p.id) s.proposals)
        × (s'.summary.created ≡ s.summary.created))

  abbrev walked : List ProposalCandidate → Generating → Option Generating
  walked = walk B user_id reference brief_id new_id winner

  abbrev goes_on : List ProposalCandidate → Option (Bool × Generating) → Option Generating
  goes_on cs none = none
  goes_on cs (some (filled, s)) = if filled then some s else walked cs s

  abbrev skipped : ActionProposal → Generating → Generating
  skipped p s = record s {
    proposals = put_proposal p s.proposals;
    summary = count preserved_free s.summary;
  }
