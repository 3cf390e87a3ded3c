-- ===== src/Tests/Data.antt =====
-- A Google account, a message that came from it, and the draft that was proposed for it.
use lifeflow.Prelude.{String, true, [], ◌∷◌, none, some}
use lifeflow.Models.{
  create_gmail_draft, medium, ProposalStatus, AccountStatus, ExecutionMode, real, simulation,
  unavailable,
}
use lifeflow.Payloads.{
  Boundary, Document, context_document, action_document, binding_document, execution_document,
  Payload, gmail_draft,
}
use lifeflow.Records.{ConnectedAccount, SourceItem, ActionProposal}
use lifeflow.Context.{gmail_compose_scope}
use lifeflow.Policy.{Displayed}
use lifeflow.Proposals.{Work}
use lifeflow.Service.{Database}

abbrev pub context_digest : ExecutionMode → String
context_digest real = "context"
context_digest simulation = "simulated context"
context_digest unavailable = "unavailable context"

-- Stands for SHA-256: each format of document has its own digests.
abbrev digest : Document → String
digest (context_document mode _ _ _ _ _) = context_digest mode
digest (action_document _ _) = "action"
digest (binding_document _ _ _ _) = "binding"
digest (execution_document _ _ _ _) = "execution"

abbrev pub boundary : Boundary
boundary = record { sha256 = digest; zone_exists = λ _. true }

abbrev pub account : ConnectedAccount
account = record {
  id = 9;
  user_id = 1;
  provider = "google";
  status = AccountStatus.active;
  granted_scopes = gmail_compose_scope ∷ [];
  authorisation_revision = 4;
}

abbrev pub other_account : ConnectedAccount
other_account = record account { id = 8 }

abbrev pub message : SourceItem
message = record {
  id = 5;
  user_id = 1;
  external_id = "mail-1";
  source_account_id = some 9;
  created_at = 10;
}

abbrev pub payload : Payload
payload = gmail_draft (record {
  to = "ann@example.com" ∷ [];
  subject = "Re: lunch";
  body = "See you there.";
  thread_id = none;
})

abbrev pub proposal : ActionProposal
proposal = record {
  id = 7;
  user_id = 1;
  origin_brief_id = none;
  origin_fingerprint = "f";
  action_type = create_gmail_draft;
  rationale = "asked";
  source_refs = "mail-1" ∷ [];
  payload_json = payload;
  payload_hash = "action";
  version = 1;
  risk_level = medium;
  confidence = 80;
  status = ProposalStatus.proposed;
  expires_at = 100;
  approved_action_type = none;
  approved_payload_json = none;
  approved_payload_hash = none;
  approved_binding_hash = none;
  approved_version = none;
  approved_at = none;
  approved_execution_mode = none;
  approved_provider = none;
  approved_connected_account_id = none;
  approved_authorisation_revision = none;
  approved_required_scope = none;
  approved_source_account_id = none;
  approved_execution_context_hash = none;
  user_edited_at = none;
  rejected_at = none;
  rejection_reason = none;
}

abbrev pub work : Work
work = record { proposal = proposal; audit = [] }

abbrev pub displayed : Displayed
displayed = record {
  action_type = create_gmail_draft;
  payload_hash = "action";
  version = 1;
  execution_context_hash = "context";
}

abbrev pub database : Database
database = record {
  proposals = proposal ∷ [];
  executions = [];
  accounts = account ∷ [];
  sources = message ∷ [];
  audit = [];
}
