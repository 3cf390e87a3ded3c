-- ===== src/Proposals/Operations.antt =====
-- `edit`, `approve` and `reject` of `ActionProposalService`, on the locked row.
use lifeflow.Prelude.{
  ℕ, ◌+◌, Bool, false, not, ◌&&◌, String, List, [], ◌∷◌, Option, none, some, leb, ◌==◌, nat_eq,
  is_empty, strip_by, is_space, if◌then◌else◌,
}
use lifeflow.Models.{ActionType, ProposalStatus, is_open, is_approved, action_type_eq}
use lifeflow.Payloads.{
  Payload, Boundary, canonical_payload, action_payload_hash, approval_binding_hash,
}
use lifeflow.Records.{ConnectedAccount, SourceItem, ActionProposal}
use lifeflow.Context.{ExecutionContext, execution_context_hash}
use lifeflow.Policy.{Displayed, validate_approval}
use lifeflow.Outcome.{
  Code, ok, or_raise, stale_version, stale_action_type, invalid_transition, proposal_expired,
}
use lifeflow.Proposals.Session.{
  Actor, user, kind, text, number, optional, flag, mode, code, Work, Action, lift, ◌>>=◌, ◌>>◌, row,
  update, event, write, write_if, guard, refuse_if_with, attempt,
}

-- `_clear_approval`
unfoldable pub clear_approval : ActionProposal → ActionProposal
clear_approval p = record p {
  approved_action_type = none;
  approved_payload_json = none;
  approved_payload_hash = none;
  approved_binding_hash = none;
  approved_version = none;
  approved_at = none;
  approved_execution_mode = none;
  approved_provider = none;
  approved_connected_account_id = none;
  approved_authorisation_revision = none;
  approved_required_scope = none;
  approved_source_account_id = none;
  approved_execution_context_hash = none;
}

-- `_require_version_and_type`
abbrev pub require_version_and_type : ℕ → ActionType → Action (Unit {0})
require_version_and_type expected_version action_type = do
  p ← row
  guard (p.version == expected_version) stale_version
  guard (p.action_type == action_type) stale_action_type

-- `reason.strip() if reason else None`
abbrev pub stripped_reason : Option String → Option String
stripped_reason none = none
stripped_reason (some reason) = if is_empty reason then none else some (strip_by is_space reason)

-- `bool(proposal.rejection_reason)`
abbrev pub recorded : Option String → Bool
recorded none = false
recorded (some reason) = not (is_empty reason)

module _ (user_id : ℕ) where
  -- `_mark_expired`
  abbrev pub mark_expired : Actor → Work → Work
  mark_expired actor w =
      event user_id actor "proposal.expired"
        (("action_type", kind w.proposal.action_type) ∷ ("version", number w.proposal.version) ∷ [])
        (update (λ p. record p { status = ProposalStatus.expired }) w)

  abbrev pub is_due : ℕ → ActionProposal → Bool
  is_due now p = is_open p.status && leb p.expires_at now

  -- `_expire_if_due`
  abbrev pub expire_if_due : ℕ → Actor → Action Bool
  expire_if_due now actor w =
      (ok (is_due now w.proposal), if is_due now w.proposal then mark_expired actor w else w)

  -- The event of a denied approval or execution.
  abbrev pub denied : String → Code → Work → Work
  denied event_type c w =
      event user_id (user user_id) event_type
        (("action_type", kind w.proposal.action_type)
          ∷ ("reason_code", code c)
          ∷ ("version", number w.proposal.version)
          ∷ [])
        w

  -- The `approval.invalidated` event of an edit or a rejection.
  abbrev pub invalidated : Work → Work
  invalidated w =
      event user_id (user user_id) "approval.invalidated"
        (("action_type", kind w.proposal.action_type)
          ∷ ("invalidated_version", optional w.proposal.approved_version)
          ∷ [])
        w

  module _ (B : Boundary) (now : ℕ) where
    unfoldable pub edit : ℕ → ActionType → Payload → Action (Unit {0})
    unfolding clear_approval is_open
    edit expected_version action_type payload = do
      require_version_and_type expected_version action_type
      before ← row
      guard (is_open before.status) invalid_transition
      expired ← expire_if_due now (user user_id)
      guard (not expired) proposal_expired
      typed ← lift (or_raise (canonical_payload B action_type payload))
      payload_json ← lift (or_raise (canonical_payload B action_type typed))
      write_if (is_approved before.status) invalidated
      hash ← lift (or_raise (action_payload_hash B action_type typed))
      write (
          update λ p. record (clear_approval p) {
            payload_json = payload_json;
            payload_hash = hash;
            version = p.version + 1;
            status = ProposalStatus.edited;
            user_edited_at = some now;
          })
      p ← row
      write (
          event user_id (user user_id) "proposal.edited" (
            ("action_type", kind p.action_type)
            ∷ ("version", number p.version)
            ∷ ("approval_invalidated", flag (is_approved before.status))
            ∷ []))

    -- What `approve` writes.
    unfoldable pub approve_row :
        ActionType → Payload → String → ExecutionContext → ActionProposal → ActionProposal
    approve_row action_type payload_json binding context p = record p {
      approved_action_type = some action_type;
      approved_payload_json = some payload_json;
      approved_payload_hash = some p.payload_hash;
      approved_execution_mode = some context.mode;
      approved_provider = some context.provider;
      approved_connected_account_id = context.connected_account_id;
      approved_authorisation_revision = context.account_authorisation_revision;
      approved_required_scope = context.required_scope;
      approved_source_account_id = context.source_account_id;
      approved_execution_context_hash = some (execution_context_hash B context);
      approved_binding_hash = some binding;
      approved_version = some p.version;
      approved_at = some now;
      status = ProposalStatus.approved;
    }

    unfoldable pub approve : List ConnectedAccount → List SourceItem → Displayed → Action (Unit {0})
    unfolding approve_row is_open
    approve accounts sources displayed = do
      expired ← expire_if_due now (user user_id)
      refuse_if_with expired (denied "approval.denied" proposal_expired) proposal_expired
      p ← row
      context ←
          attempt (validate_approval B p user_id accounts sources now displayed)
            (denied "approval.denied")
      let action_type = displayed.action_type
      payload ← lift (or_raise (canonical_payload B action_type p.payload_json))
      payload_json ← lift (or_raise (canonical_payload B action_type payload))
      binding ← lift (
          or_raise (
            approval_binding_hash B action_type payload p.version
              (execution_context_hash B context)))
      write (update (approve_row action_type payload_json binding context))
      write (
          event user_id (user user_id) "proposal.approved" (
            ("action_type", kind p.action_type)
            ∷ ("version", number p.version)
            ∷ ("payload_hash", text p.payload_hash)
            ∷ ("execution_mode", mode context.mode)
            ∷ ("provider", text context.provider)
            ∷ ("execution_context_hash", text (execution_context_hash B context))
            ∷ []))

    unfoldable pub reject : ℕ → Option String → Action (Unit {0})
    unfolding clear_approval is_open
    reject expected_version reason = do
      before ← row
      guard (before.version == expected_version) stale_version
      guard (is_open before.status) invalid_transition
      expired ← expire_if_due now (user user_id)
      guard (not expired) proposal_expired
      write_if (is_approved before.status) (λ w. update clear_approval (invalidated w))
      write (
          update λ p. record p {
            status = ProposalStatus.rejected;
            rejected_at = some now;
            rejection_reason = stripped_reason reason;
          })
      p ← row
      write (
          event user_id (user user_id) "proposal.rejected" (
            ("action_type", kind p.action_type)
            ∷ ("version", number p.version)
            ∷ ("reason_recorded", flag (recorded p.rejection_reason))
            ∷ []))
