-- ===== src/Records.antt =====
-- The rows of models.py that the proposal lifecycle reads and writes. Identifiers are only
-- compared, so they are numbers; instants are microseconds since the epoch; `confidence` is only
-- compared, so it is a number too. Columns that no modelled code reads are left out.
use lifeflow.Prelude.{ℕ, String, List, Option}
use lifeflow.Models.{
  ActionType, RiskLevel, ProposalStatus, ExecutionOutcome, ExecutionMode, AccountStatus,
}
use lifeflow.Payloads.{Payload}

pub record ConnectedAccount : Type 0 where
  pub id : ℕ
  pub user_id : ℕ
  pub provider : String
  pub status : AccountStatus
  pub granted_scopes : List String
  pub authorisation_revision : ℕ

pub record SourceItem : Type 0 where
  pub id : ℕ
  pub user_id : ℕ
  pub external_id : String
  pub source_account_id : Option ℕ
  pub created_at : ℕ

pub record ActionProposal : Type 0 where
  pub id : ℕ
  pub user_id : ℕ
  pub origin_brief_id : Option ℕ
  pub origin_fingerprint : String
  pub action_type : ActionType
  pub rationale : String
  pub source_refs : List String
  pub payload_json : Payload
  pub payload_hash : String
  pub version : ℕ
  pub risk_level : RiskLevel
  pub confidence : ℕ
  pub status : ProposalStatus
  pub expires_at : ℕ
  pub approved_action_type : Option ActionType
  pub approved_payload_json : Option Payload
  pub approved_payload_hash : Option String
  pub approved_binding_hash : Option String
  pub approved_version : Option ℕ
  pub approved_at : Option ℕ
  pub approved_execution_mode : Option ExecutionMode
  pub approved_provider : Option String
  pub approved_connected_account_id : Option ℕ
  pub approved_authorisation_revision : Option ℕ
  pub approved_required_scope : Option String
  pub approved_source_account_id : Option ℕ
  pub approved_execution_context_hash : Option String
  pub user_edited_at : Option ℕ
  pub rejected_at : Option ℕ
  pub rejection_reason : Option String

pub record ActionExecution : Type 0 where
  pub id : ℕ
  pub proposal_id : ℕ
  pub idempotency_key : String
  pub approved_action_type : ActionType
  pub approved_proposal_version : ℕ
  pub executed_payload_json : Payload
  pub executed_payload_hash : String
  pub approval_binding_hash : String
  pub execution_mode : ExecutionMode
  pub outcome : ExecutionOutcome
  pub started_at : ℕ
  pub completed_at : Option ℕ
  pub result_json : List (String × String)
  pub error_code : Option String
