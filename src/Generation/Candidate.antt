-- ===== src/Generation/Candidate.antt =====
-- One candidate of `ActionProposalService.generate_from_brief` against one row.
use lifeflow.Prelude.{
  ℕ, ◌+◌, Bool, true, false, not, ◌&&◌, ◌||◌, String, List, [], ◌∷◌, Option, none, some, length,
  min, ◌==◌, string_eq, nat_eq, if◌then◌else◌,
}
use lifeflow.Models.{
  ActionType, RiskLevel, low, medium, ProposalStatus, is_open, is_proposed, action_type_eq,
  risk_level_eq,
}
use lifeflow.Payloads.{Payload, payload_eq}
use lifeflow.Records.{ActionProposal}
use lifeflow.Proposals.{
  AuditEvent, system, kind, number, text, Work, is_due, mark_expired, event, update,
}

pub record ProposalCandidate : Type 0 where
  pub action_type : ActionType
  pub rationale : String
  pub source_refs : List String
  pub payload : Payload
  pub risk_level : RiskLevel
  pub confidence : ℕ
  pub origin_fingerprint : String
  pub expires_at : ℕ

-- `ProposalGenerationSummary`, without `skipped`, which counts what was not composed.
pub record ProposalGenerationSummary : Type 0 where
  pub created : ℕ
  pub updated : ℕ
  pub unchanged : ℕ
  pub preserved : ℕ

-- What becomes of one candidate.
pub data Fate : Type 0 where
  created updated unchanged preserved_slot preserved_free : Fate

-- Whether the loop over the candidates of a type ends.
abbrev pub fills_slot : Fate → Bool
fills_slot preserved_free = false
fills_slot _ = true

abbrev pub count : Fate → ProposalGenerationSummary → ProposalGenerationSummary
count created s = record s { created = s.created + 1 }
count updated s = record s { updated = s.updated + 1 }
count unchanged s = record s { unchanged = s.unchanged + 1 }
count preserved_slot s = record s { preserved = s.preserved + 1 }
count preserved_free s = record s { preserved = s.preserved + 1 }

abbrev composer_version : String
composer_version = "proposal-det-v1"

abbrev risk_value : RiskLevel → String
risk_value low = "low"
risk_value medium = "medium"

abbrev same_refs : List String → List String → Bool
same_refs [] [] = true
same_refs (a ∷ as') (b ∷ bs) = a == b && same_refs as' bs
same_refs _ _ = false

abbrev pub was_edited : Option ℕ → Bool
was_edited none = false
was_edited (some _) = true

-- `changed`
unfoldable pub has_changed : ProposalCandidate → String → ActionProposal → Bool
has_changed c payload_hash p =
    not (p.action_type == c.action_type)
    || not (p.rationale == c.rationale)
    || not (same_refs p.source_refs c.source_refs)
    || not (p.payload_json == c.payload)
    || not (p.payload_hash == payload_hash)
    || not (p.risk_level == c.risk_level)
    || not (p.confidence == c.confidence)

abbrev pub refreshed : ProposalCandidate → String → ActionProposal → ActionProposal
refreshed c payload_hash p = record p {
  action_type = c.action_type;
  rationale = c.rationale;
  source_refs = c.source_refs;
  payload_json = c.payload;
  payload_hash = payload_hash;
  risk_level = c.risk_level;
  confidence = c.confidence;
  expires_at = min p.expires_at c.expires_at;
  version = p.version + 1;
}

module _ (user_id reference : ℕ) where
  abbrev pub refresh : ProposalCandidate → String → Work → Work
  refresh c payload_hash w =
      let w' = update (refreshed c payload_hash) w in
      event user_id (system "proposal") "proposal.updated"
        (("action_type", kind w'.proposal.action_type)
          ∷ ("version", number w'.proposal.version)
          ∷ ("composer_version", text composer_version)
          ∷ [])
        w'

  -- A candidate whose origin has a proposal.
  unfoldable pub reconsider : ProposalCandidate → String → Work → Fate × Work
  reconsider c payload_hash w =
      let p = w.proposal in
      if is_due user_id reference p
      then (preserved_free, mark_expired user_id (system "proposal") w)
      else if not (is_open p.status)
      then (preserved_free, w)
      else if not (is_proposed p.status) || was_edited p.user_edited_at
      then (preserved_slot, w)
      else if has_changed c payload_hash p
      then (updated, refresh c payload_hash w)
      else (unchanged, w)

  -- A candidate whose origin has none.
  unfoldable pub new_proposal : ℕ → Option ℕ → ProposalCandidate → String → ActionProposal
  new_proposal id brief_id c payload_hash = record {
    id = id;
    user_id = user_id;
    origin_brief_id = brief_id;
    origin_fingerprint = c.origin_fingerprint;
    action_type = c.action_type;
    rationale = c.rationale;
    source_refs = c.source_refs;
    payload_json = c.payload;
    payload_hash = payload_hash;
    version = 1;
    risk_level = c.risk_level;
    confidence = c.confidence;
    status = ProposalStatus.proposed;
    expires_at = c.expires_at;
    approved_action_type = none;
    approved_payload_json = none;
    approved_payload_hash = none;
    approved_binding_hash = none;
    approved_version = none;
    approved_at = none;
    approved_execution_mode = none;
    approved_provider = none;
    approved_connected_account_id = none;
    approved_authorisation_revision = none;
    approved_required_scope = none;
    approved_source_account_id = none;
    approved_execution_context_hash = none;
    user_edited_at = none;
    rejected_at = none;
    rejection_reason = none;
  }

  abbrev pub announce : ProposalCandidate → ActionProposal → List AuditEvent → Work
  announce c p audit =
      event user_id (system "proposal") "proposal.created"
        (("action_type", kind c.action_type)
          ∷ ("risk_level", text (risk_value c.risk_level))
          ∷ ("version", number 1)
          ∷ ("composer_version", text composer_version)
          ∷ ("source_count", number (length c.source_refs))
          ∷ [])
        (record { proposal = p; audit = audit })
