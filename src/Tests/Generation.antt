-- ===== src/Tests/Generation.antt =====
-- A generation that proposes one draft.
use lifeflow.Prelude.{
  List, ◌≡◌, refl, [], ◌∷◌, none, some, string_eq, nat_eq, strip_by, is_white_space,
}
use lifeflow.Records.{ActionProposal}
use lifeflow.Models.{ProposalStatus, create_gmail_draft, medium, action_type_eq, risk_level_eq}
use lifeflow.Payloads.{
  canonical_payload, action_payload_hash, parse_action_payload, valid_draft, valid_addresses,
  payload_eq,
}
use lifeflow.Proposals.{system, kind, number, text}
use lifeflow.Service.Validity.{AllValid}
use lifeflow.Generation.Candidate.{ProposalCandidate, reconsider, new_proposal}
use lifeflow.Generation.Walk.{
  Generating, try_candidate, walk, walk_all, ranked_by_type, generate_from_candidates,
  get_by_origin,
}
use lifeflow.Generation.Respect.{Respects, reconsider-Respects}
use lifeflow.Generation.Validity.{generate-AllValid}
use lifeflow.Tests.Data.{boundary, payload, proposal, work}

abbrev candidate : ProposalCandidate
candidate = record {
  action_type = create_gmail_draft;
  rationale = "asked";
  source_refs = "mail-1" ∷ [];
  payload = payload;
  risk_level = medium;
  confidence = 80;
  origin_fingerprint = "f";
  expires_at = 100;
}

reconsider-Respects_example :
    Respects 1 5 candidate "action" proposal (reconsider 1 5 candidate "action" work).1.proposal
reconsider-Respects_example = reconsider-Respects 1 5 candidate "action" work

abbrev before : Generating
before = record {
  proposals = [];
  audit = [];
  summary = record { created = 0; updated = 0; unchanged = 0; preserved = 0 };
}

abbrev after : Generating
after = record {
  proposals = proposal ∷ [];
  audit =
      record {
        user_id = 1;
        actor = system "proposal";
        event_type = "proposal.created";
        entity_id = 7;
        metadata =
            ("action_type", kind create_gmail_draft)
            ∷ ("risk_level", text "medium")
            ∷ ("version", number 1)
            ∷ ("composer_version", text "proposal-det-v1")
            ∷ ("source_count", number 1)
            ∷ [];
      }
      ∷ [];
  summary = record { created = 1; updated = 0; unchanged = 0; preserved = 0 };
}

proposes :
    generate_from_candidates boundary 1 5 none (λ _. 7) (λ _. none) (candidate ∷ []) before
    ≡ some after
unfolding generate_from_candidates ranked_by_type walk_all walk try_candidate get_by_origin
    new_proposal parse_action_payload valid_draft valid_addresses action_payload_hash string_eq
    nat_eq payload_eq action_type_eq risk_level_eq strip_by is_white_space
proposes = refl

-- The owner has edited the draft of the second candidate; the row of the first one is rejected, and
-- the third one has none.
abbrev rejected_row : ActionProposal
rejected_row = record proposal {
  id = 8;
  origin_fingerprint = "e";
  status = ProposalStatus.rejected;
}

abbrev edited_row : ActionProposal
edited_row = record proposal { status = ProposalStatus.edited; user_edited_at = some 4 }

abbrev held : Generating
held = record before { proposals = rejected_row ∷ edited_row ∷ [] }

abbrev candidates : List ProposalCandidate
candidates =
    record candidate { origin_fingerprint = "e" }
    ∷ candidate
    ∷ record candidate { origin_fingerprint = "g" }
    ∷ []

parses_candidate : canonical_payload boundary create_gmail_draft payload ≡ some payload
unfolding proposes
parses_candidate = refl

generate-AllValid_example : AllValid boundary 5 after.proposals
generate-AllValid_example =
    generate-AllValid boundary 1 5 none (λ _. 7) (λ _. none) (λ f q e. cc) (candidate ∷ []) before
      (parses_candidate, tt) tt proposes
