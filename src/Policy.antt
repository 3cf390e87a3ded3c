-- ===== src/Policy.antt =====
-- `action_policy.py`: the checks before an approval and before an execution.
pub mod Checks
use lifeflow.Prelude.{
  ℕ, Bool, true, false, not, ◌||◌, String, List, Option, none, some, ◌==◌, string_eq, nat_eq, leb,
  ltb, if◌then◌else◌,
}
use lifeflow.Models.{
  ActionType, create_task, create_gmail_draft, create_calendar_event, RiskLevel, low, medium,
  is_proposed, is_edited, is_approved, ExecutionMode, unavailable, action_type_eq, risk_level_eq,
  execution_mode_eq,
}
use lifeflow.Payloads.{
  DateTime, Payload, task, gmail_draft, calendar_event, emptied, Boundary, canonical_payload,
  action_payload_hash, approval_binding_hash, payload_eq,
}
use lifeflow.Records.{ConnectedAccount, SourceItem, ActionProposal}
use lifeflow.Context.{
  ExecutionContext, SourceMode, google_provider, resolve_execution_context, execution_context_hash,
}
use lifeflow.Outcome.{
  Result, ok, or_refuse, or_raise, refuse_if, ◌>>=◌, ◌>>◌, ownership_mismatch, risk_mismatch,
  proposal_expired, payload_hash_mismatch, invalid_due_at, invalid_event_time, invalid_transition,
  stale_preview, stale_version, simulated_scope_missing, stale_execution_context, approval_missing,
  approval_mismatch, approval_stale, approval_context_changed,
}

-- `EXPECTED_RISK`
unfoldable pub expected_risk : ActionType → RiskLevel
expected_risk create_task = low
expected_risk create_gmail_draft = medium
expected_risk create_calendar_event = medium

abbrev pub due_passed : ℕ → Option DateTime → Bool
due_passed now none = false
due_passed now (some d) = leb d.instant now

-- The last two tests of `_validate_common`, on the type of the payload.
abbrev pub check_times : ℕ → Payload → Result (Unit {0})
check_times now (task t) = refuse_if (due_passed now t.due_at) invalid_due_at
check_times now (gmail_draft d) = ok tt
check_times now emptied = ok tt
check_times now (calendar_event e) = refuse_if (leb e.starts_at.instant now) invalid_event_time

-- `proposal.user_edited_at and proposal.approved_at < proposal.user_edited_at`
abbrev pub edited_after : Option ℕ → ℕ → Bool
edited_after none approved_at = false
edited_after (some edited_at) approved_at = ltb approved_at edited_at

abbrev pub is_unavailable : ExecutionMode → Bool
is_unavailable unavailable = true
is_unavailable _ = false

-- What the owner saw before approving.
pub record Displayed : Type 0 where
  pub action_type : ActionType
  pub payload_hash : String
  pub version : ℕ
  pub execution_context_hash : String

-- The context that the snapshot of an approval stands for.
abbrev pub approved_context : ActionProposal → ExecutionMode → String → ExecutionContext
approved_context p mode provider = record {
  mode = mode;
  provider = provider;
  connected_account_id = p.approved_connected_account_id;
  account_authorisation_revision = p.approved_authorisation_revision;
  required_scope = p.approved_required_scope;
  source_mode = if provider == google_provider then SourceMode.google else SourceMode.synthetic;
  source_account_id = p.approved_source_account_id;
}

module _ (B : Boundary) where
  -- `_validate_common`
  unfoldable pub validate_common : ActionProposal → ℕ → ℕ → Result (Unit {0})
  validate_common p user_id now = do
    refuse_if (not (p.user_id == user_id)) ownership_mismatch
    refuse_if (not (p.risk_level == expected_risk p.action_type)) risk_mismatch
    refuse_if (leb p.expires_at now) proposal_expired
    payload ← or_raise (canonical_payload B p.action_type p.payload_json)
    hash ← or_raise (action_payload_hash B p.action_type payload)
    refuse_if (not (hash == p.payload_hash)) payload_hash_mismatch
    check_times now payload

  module _ (p : ActionProposal) (user_id : ℕ) (accounts : List ConnectedAccount)
      (sources : List SourceItem) (now : ℕ) where
    unfoldable pub validate_approval : Displayed → Result ExecutionContext
    validate_approval d = do
      validate_common p user_id now
      refuse_if (not (is_proposed p.status || is_edited p.status)) invalid_transition
      refuse_if (not (d.action_type == p.action_type)) stale_preview
      refuse_if (not (d.payload_hash == p.payload_hash)) stale_preview
      refuse_if (not (d.version == p.version)) stale_version
      let context = resolve_execution_context p.action_type accounts sources
      refuse_if (is_unavailable context.mode) simulated_scope_missing
      refuse_if (not (execution_context_hash B context == d.execution_context_hash))
          stale_execution_context
      ok context

    unfoldable pub validate_execution : Result ExecutionContext
    validate_execution = do
      validate_common p user_id now
      refuse_if (not (is_approved p.status)) invalid_transition
      action_type ← or_refuse p.approved_action_type approval_missing
      payload_json ← or_refuse p.approved_payload_json approval_missing
      payload_hash ← or_refuse p.approved_payload_hash approval_missing
      binding_hash ← or_refuse p.approved_binding_hash approval_missing
      version ← or_refuse p.approved_version approval_missing
      approved_at ← or_refuse p.approved_at approval_missing
      mode ← or_refuse p.approved_execution_mode approval_missing
      provider ← or_refuse p.approved_provider approval_missing
      context_hash ← or_refuse p.approved_execution_context_hash approval_missing
      refuse_if (not (action_type == p.action_type)) approval_mismatch
      refuse_if (not (version == p.version)) approval_mismatch
      refuse_if (not (payload_hash == p.payload_hash)) approval_mismatch
      payload ← or_raise (canonical_payload B action_type payload_json)
      refuse_if (not (payload == p.payload_json)) approval_mismatch
      expected ← or_raise (approval_binding_hash B p.action_type payload p.version context_hash)
      refuse_if (not (expected == binding_hash)) approval_mismatch
      refuse_if (not (execution_context_hash B (approved_context p mode provider) == context_hash))
          approval_mismatch
      refuse_if (edited_after p.user_edited_at approved_at) approval_stale
      let current = resolve_execution_context p.action_type accounts sources
      refuse_if (not (execution_context_hash B current == context_hash)) approval_context_changed
      ok current
