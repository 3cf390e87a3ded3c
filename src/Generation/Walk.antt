-- ===== src/Generation/Walk.antt =====
-- The loops of `ActionProposalService.generate_from_brief` over the candidates.
use lifeflow.Prelude.{
  ℕ, Bool, ◌&&◌, String, List, [], ◌∷◌, ◌++◌, Option, none, some, map, find?, ◌==◌, string_eq,
  nat_eq, if◌then◌else◌,
}
use lifeflow.Models.{ActionType, action_type_eq, risk_level_eq}
use lifeflow.Payloads.{Boundary, action_payload_hash, payload_eq}
use lifeflow.Records.{ActionProposal}
use lifeflow.Proposals.{AuditEvent, Work}
use lifeflow.Generation.Candidate.{
  ProposalCandidate, ProposalGenerationSummary, Fate, created, fills_slot, count, reconsider,
  new_proposal, announce,
}

pub record Generating : Type 0 where
  pub proposals : List ActionProposal
  pub audit : List AuditEvent
  pub summary : ProposalGenerationSummary

abbrev pub put_proposal : ActionProposal → List ActionProposal → List ActionProposal
put_proposal q = map (λ p. if p.id == q.id then q else p)

-- `ActionProposalRepository.get_by_origin`
unfoldable pub get_by_origin : ℕ → String → List ActionProposal → Option ActionProposal
get_by_origin user_id fingerprint =
    find? (λ p. p.origin_fingerprint == fingerprint && p.user_id == user_id)

-- `ranked_by_type`, in the order in which the types appear.
abbrev pub add_candidate :
    ProposalCandidate
    → List (ActionType × List ProposalCandidate)
    → List (ActionType × List ProposalCandidate)
add_candidate c [] = (c.action_type, c ∷ []) ∷ []
add_candidate c ((t, cs) ∷ groups) =
    let rest = add_candidate c groups in
    if t == c.action_type then (t, cs ++ (c ∷ [])) ∷ groups else (t, cs) ∷ rest

unfoldable pub ranked_by_type :
    List ProposalCandidate
    → List (ActionType × List ProposalCandidate)
    → List (ActionType × List ProposalCandidate)
ranked_by_type [] groups = groups
ranked_by_type (c ∷ cs) groups = ranked_by_type cs (add_candidate c groups)

module _ (B : Boundary) (user_id reference : ℕ) (brief_id : Option ℕ) (new_id : String → ℕ)
    (winner : String → Option ActionProposal) where
  abbrev pub settle : Fate → Work → List ActionProposal → Generating → Bool × Generating
  settle fate w proposals s = (
    fills_slot fate,
    record { proposals = proposals; audit = w.audit; summary = count fate s.summary },
  )

  abbrev pub against :
      ProposalCandidate
      → String
      → ActionProposal
      → List ActionProposal
      → Generating
      → Bool × Generating
  against c payload_hash p proposals s =
      let (fate, w) =
        reconsider user_id reference c payload_hash (record { proposal = p; audit = s.audit }) in
      settle fate w (put_proposal w.proposal proposals) s

  abbrev pub insert :
      Option ActionProposal → ProposalCandidate → String → Generating → Bool × Generating
  insert (some q) c payload_hash s = against c payload_hash q (q ∷ s.proposals) s
  insert none c payload_hash s =
      let p =
        new_proposal user_id reference (new_id c.origin_fingerprint) brief_id c payload_hash in
      settle created (announce user_id reference c p s.audit) (p ∷ s.proposals) s

  abbrev pub try_found :
      Option ActionProposal → ProposalCandidate → String → Generating → Bool × Generating
  try_found (some p) c payload_hash s = against c payload_hash p s.proposals s
  try_found none c payload_hash s = insert (winner c.origin_fingerprint) c payload_hash s

  abbrev pub try_hashed :
      Option String → ProposalCandidate → Generating → Option (Bool × Generating)
  try_hashed none c s = none
  try_hashed (some payload_hash) c s =
      some (try_found (get_by_origin user_id c.origin_fingerprint s.proposals) c payload_hash s)

  -- One candidate; `none` is an exception.
  unfoldable pub try_candidate : ProposalCandidate → Generating → Option (Bool × Generating)
  try_candidate c s = try_hashed (action_payload_hash B c.action_type c.payload) c s

  -- The candidates of one type, until one fills the slot.
  unfoldable pub walk : List ProposalCandidate → Generating → Option Generating
  walk [] s = some s
  walk (c ∷ cs) s = elim (try_candidate c s) [
    | none ↦ none
    | some (filled, s') ↦ let rest = walk cs s' in if filled then some s' else rest
  ]

  unfoldable pub walk_all :
      List (ActionType × List ProposalCandidate) → Generating → Option Generating
  walk_all [] s = some s
  walk_all ((t, cs) ∷ groups) s = elim (walk cs s) [ none ↦ none | some s' ↦ walk_all groups s' ]

  unfoldable pub generate_from_candidates : List ProposalCandidate → Generating → Option Generating
  generate_from_candidates candidates s = walk_all (ranked_by_type candidates []) s
