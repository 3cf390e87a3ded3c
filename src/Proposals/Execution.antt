-- ===== src/Proposals/Execution.antt =====
-- `ActionProposalService.execute` in its three parts: the replay of an earlier attempt, the part up
-- to the durable commit of the pending attempt, and the part after the executor has answered.
use lifeflow.Prelude.{
  ℕ, ◌-◌, Bool, true, not, ◌&&◌, String, List, [], ◌∷◌, Option, none, some, ltb, ◌==◌, string_eq,
  if◌then◌else◌, ◌*◌,
}
use lifeflow.Models.{
  ActionType, ProposalStatus, ExecutionOutcome, ExecutionMode, real, is_pending, is_open,
}
use lifeflow.Payloads.{Payload, Boundary, canonical_payload, execution_document}
use lifeflow.Records.{ConnectedAccount, SourceItem, ActionProposal, ActionExecution}
use lifeflow.Context.{ApprovedExecutionAuthorization}
use lifeflow.Policy.{validate_execution, is_unavailable}
use lifeflow.Outcome.{Code, ok, raised, or_raise, proposal_expired, approval_context_changed}
use lifeflow.Proposals.Session.{
  user, system, kind, text, number, flag, Action, pure, lift, ◌>>=◌, ◌>>◌, Work, row, update, event,
  write, write_if, refuse_if_with, attempt,
}
use lifeflow.Proposals.Operations.{clear_approval, expire_if_due, denied}

-- `STALE_PENDING_AGE`, 120 seconds in microseconds.
abbrev pub stale_pending_age : ℕ
stale_pending_age = 120 * 1000000

-- `outcome == pending and now - started_at > STALE_PENDING_AGE`. A start in the future gives 0.
unfoldable pub is_stale : ℕ → ActionExecution → Bool
is_stale now e = is_pending e.outcome && ltb stale_pending_age (now - e.started_at)

unfoldable pub effective_execution_status : ℕ → ActionExecution → ExecutionOutcome
unfolding is_stale
effective_execution_status now e = if is_stale now e then ExecutionOutcome.uncertain else e.outcome

abbrev pub mark_uncertain : ActionExecution → ActionExecution
mark_uncertain e = record e { outcome = ExecutionOutcome.uncertain }

-- `approved_execution_authorization`: `none` is a failed assertion, `some none` a simulated
-- approval, to which no account is bound.
unfoldable pub approved_execution_authorization :
    ActionProposal → Option (Option ApprovedExecutionAuthorization)
approved_execution_authorization p = elim p.approved_execution_mode [
  | some real ↦ elim p.approved_connected_account_id [
    | none ↦ none
    | some account ↦ elim p.approved_provider [
      | none ↦ none
      | some provider ↦ elim p.approved_authorisation_revision [
        | none ↦ none
        | some revision ↦ elim p.approved_required_scope [
          | none ↦ none
          | some scope ↦ elim p.approved_execution_context_hash [
            | none ↦ none
            | some hash ↦ some (
                some (record {
                  connected_account_id = account;
                  provider = provider;
                  authorisation_revision = revision;
                  required_scope = scope;
                  execution_context_hash = hash;
                }))
          ]
        ]
      ]
    ]
  ]
  | _ ↦ some none
]

-- What a registry is asked to do. Of the two registries the mode selects one.
pub record Call : Type 0 where
  pub execution_mode : ExecutionMode
  pub action_type : ActionType
  pub proposal_id : ℕ
  pub payload : Payload
  pub authorization : Option ApprovedExecutionAuthorization

-- How an executor ends: an outcome, a `FinalExecutionError`, or any other exception.
pub data Reply : Type 0 where
  succeeded : List (String × String) → Reply
  uncertain : List (String × String) → Reply
  final_error : String → Reply
  crashed : Reply

module _ (user_id : ℕ) where
  -- An earlier attempt exists: it is returned, marked uncertain first if it is stale.
  unfoldable pub replay : ℕ → ActionExecution → Action ActionExecution
  unfolding is_stale
  replay now e = do
    p ← row
    write_if (is_stale now e) (
        event user_id (system "executor") "execution.uncertain" (
          ("action_type", kind p.action_type)
          ∷ ("execution_id", number e.id)
          ∷ ("reason_code", text "stale_pending_attempt")
          ∷ []))
    write (
        event user_id (user user_id) "execution.replayed"
          (("action_type", kind p.action_type) ∷ ("execution_id", number e.id) ∷ []))
    pure (if is_stale now e then mark_uncertain e else e)

  -- The handler of a `PolicyViolationError` in `execute`: a changed context also takes the stale
  -- approval away.
  abbrev pub drop_stale_approval : Code → ActionProposal → ActionProposal
  drop_stale_approval approval_context_changed p = record (clear_approval p) {
    status = ProposalStatus.edited;
  }
  drop_stale_approval _ p = p

  abbrev denied_execution : Code → Work → Work
  denied_execution c w = denied user_id "execution.denied" c (update (drop_stale_approval c) w)

  abbrev assert_that : Bool → Action (Unit {0})
  assert_that b w = (if b then ok tt else raised, w)

  module _ (B : Boundary) (now : ℕ) where
    -- Up to the commit: the new attempt, and the call that is made of a registry. The first two
    -- arguments are the row's id and `started_at`, which are defaults of its columns.
    unfoldable pub begin :
        ℕ → ℕ → List ConnectedAccount → List SourceItem → Action (ActionExecution × Call)
    unfolding clear_approval is_open
    begin id started_at accounts sources = do
      expired ← expire_if_due user_id now (user user_id)
      refuse_if_with expired (denied user_id "execution.denied" proposal_expired) proposal_expired
      p ← row
      context ← attempt (validate_execution B p user_id accounts sources now) denied_execution
      action_type ← lift (or_raise p.approved_action_type)
      payload_json ← lift (or_raise p.approved_payload_json)
      payload_hash ← lift (or_raise p.approved_payload_hash)
      binding_hash ← lift (or_raise p.approved_binding_hash)
      version ← lift (or_raise p.approved_version)
      payload ← lift (or_raise (canonical_payload B action_type payload_json))
      assert_that (not (is_unavailable context.mode))
      authorization ← lift (or_raise (approved_execution_authorization p))
      executed ← lift (or_raise (canonical_payload B action_type payload))
      let idempotency_key = B.sha256 (execution_document p.id action_type version payload_hash)
      write (update λ q. record q { status = ProposalStatus.executing })
      write (
          event user_id (user user_id) "proposal.executing"
            (("action_type", kind p.action_type) ∷ ("version", number p.version) ∷ []))
      write (
          event user_id (system "executor") "execution.started"
            (("action_type", kind p.action_type) ∷ ("idempotency_key", text idempotency_key) ∷ []))
      pure (
        record {
          id = id;
          proposal_id = p.id;
          idempotency_key = idempotency_key;
          approved_action_type = action_type;
          approved_proposal_version = version;
          executed_payload_json = executed;
          executed_payload_hash = payload_hash;
          approval_binding_hash = binding_hash;
          execution_mode = context.mode;
          outcome = ExecutionOutcome.pending;
          started_at = started_at;
          completed_at = none;
          result_json = [];
          error_code = none;
        },
        record {
          execution_mode = context.mode;
          action_type = action_type;
          proposal_id = p.id;
          payload = payload;
          authorization = authorization;
        },
      )

  abbrev changed_message : String
  changed_message =
      "The approved account, authorisation, or scope changed before execution. No external action was attempted. Review your connected account and check for a fresh proposal."

  abbrev failed_message : String
  failed_message = "The execution failed and was not retried."

  abbrev failure_result : String → List (String × String)
  failure_result error_code =
      ("status", "failed")
      ∷ (
        "message",
        if error_code == "approval_context_changed" then changed_message else failed_message,
      )
      ∷ []

  -- After the executor. `completed_at` is the clock at that point.
  unfoldable pub finish : ℕ → ActionExecution → Reply → Action ActionExecution
  finish completed_at e (final_error error_code) = do
    write (update λ p. record p { status = ProposalStatus.failed })
    p ← row
    write (
        event user_id (system "executor") "execution.failed" (
          ("action_type", kind p.action_type)
          ∷ ("error_code", text error_code)
          ∷ ("final", flag true)
          ∷ []))
    write (
        event user_id (system "executor") "proposal.failed"
          (("action_type", kind p.action_type) ∷ ("version", number p.version) ∷ []))
    pure (record e {
      completed_at = some completed_at;
      outcome = ExecutionOutcome.failed;
      error_code = some error_code;
      result_json = failure_result error_code;
    })
  finish completed_at e (uncertain result) = do
    p ← row
    write (
        event user_id (system "executor") "execution.uncertain"
          (("action_type", kind p.action_type) ∷ ("execution_id", number e.id) ∷ []))
    pure (record e { outcome = ExecutionOutcome.uncertain; result_json = result })
  finish completed_at e (succeeded result) = do
    write (update λ p. record p { status = ProposalStatus.executed })
    p ← row
    write (
        event user_id (system "executor") "execution.succeeded"
          (("action_type", kind p.action_type) ∷ ("execution_id", number e.id) ∷ []))
    write (
        event user_id (system "executor") "proposal.executed"
          (("action_type", kind p.action_type) ∷ ("version", number p.version) ∷ []))
    pure (record e {
      completed_at = some completed_at;
      outcome = ExecutionOutcome.succeeded;
      result_json = result;
    })
  finish completed_at e crashed = lift raised
