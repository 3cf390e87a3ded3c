-- ===== src/Proposals/Approval.antt =====
-- `approve` followed by `execute`, in action_proposal_service.py.
use lifeflow.Prelude.{
  ℕ, ◌<◌, ◌≤◌, true, false, ◌≡◌, ◌≢◌, refl, sym, ◌∙◌, subst, ap, List, none, arith, is_some,
}
use lifeflow.Models.{real, is_open, execution_mode_eq}
use lifeflow.Payloads.{Boundary, binding_document, action_payload_hash, approval_binding_hash}
use lifeflow.Payloads.Laws.{parse_action_payload-canonical}
use lifeflow.Records.{ConnectedAccount, SourceItem, ActionProposal, ActionExecution}
use lifeflow.Context.{ExecutionContext, resolve_execution_context, execution_context_hash}
use lifeflow.Context.Provenance.{resolve_real}
use lifeflow.Policy.{
  Displayed, validate_common, validate_approval, validate_execution, is_unavailable, check_times,
}
use lifeflow.Policy.Checks.{
  ApprovalChecks, validate_approval_ok, validate_execution_ok, validate_execution_pass,
  validate_common_ok,
}
use lifeflow.Outcome.{ok, is_ok, is_ok-value}
use lifeflow.Proposals.Session.{Work}
use lifeflow.Proposals.Operations.{approve, approve_row, is_due}
use lifeflow.Proposals.Execution.{begin, Call, approved_execution_authorization}
use lifeflow.Proposals.Invariant.{IsValid, approved_row}
use lifeflow.Proposals.Rows.{approve_row_lem}

module _ (B : Boundary) (user_id before now : ℕ) (accounts : List ConnectedAccount)
    (sources : List SourceItem) (d : Displayed) (w : Work) where
  -- The answer of `approve` on a valid row.
  pub record Approved (c : ExecutionContext) : Type 0 where
    pub checks : ApprovalChecks B w.proposal user_id accounts sources now d c
    pub in_time : now < w.proposal.expires_at
    pub row :
        (approve user_id B now accounts sources d w).1.proposal
        ≡ approved_row B user_id now c w.proposal

  approve_passed :
      (approve user_id B now accounts sources d w).0 ≡ ok tt
      → is_ok (validate_approval B w.proposal user_id accounts sources now d) ≡ true
  unfolding approve
  approve_passed h = ground arith

  pub approve_ok :
      IsValid B before w.proposal
      → (approve user_id B now accounts sources d w).0 ≡ ok tt
      → (c : ExecutionContext) × Approved c
  unfolding approve
  approve_ok v h =
      let p = w.proposal in
      let (c, e) =
        is_ok-value (validate_approval B p user_id accounts sources now d) (approve_passed h) in
      let k = validate_approval_ok B p user_id accounts sources now d e in
      let common = validate_common_ok B p user_id now k.common in
      let alive : is_due user_id now p ≡ false = ground (arith, common.in_time) in
      (
        c,
        record {
          checks = k;
          in_time = common.in_time;
          row =
              approve_row_lem B user_id now accounts sources w d before v
              ∙ ground (arith, e, alive);
        },
      )

-- The common checks pass again later, until the proposal or its payload falls due.
validate_common_later :
    (B : Boundary) (p : ActionProposal) (user_id before now later : ℕ)
    → IsValid B before p
    → validate_common B p user_id now ≡ ok tt
    → later < p.expires_at
    → check_times later p.payload_json ≡ ok tt
    → validate_common B p user_id later ≡ ok tt
unfolding validate_common action_payload_hash
validate_common_later B p user_id before now later v h in_time times =
    ground (arith, v.canonical, v.hashed)

module _ (B : Boundary) (user_id now later : ℕ) (accounts : List ConnectedAccount)
    (sources : List SourceItem) (p : ActionProposal) (c : ExecutionContext) where
  approved_row-runs :
      (before : ℕ)
      → before ≤ now
      → IsValid B before p
      → validate_common B p user_id later ≡ ok tt
      → c ≡ resolve_execution_context p.action_type accounts sources
      → is_unavailable c.mode ≡ false
      → validate_execution B (approved_row B user_id now c p) user_id accounts sources later ≡ ok c
  unfolding approve_row execution_context_hash validate_common approval_binding_hash
  approved_row-runs before le v common current available =
      validate_execution_pass B (approved_row B user_id now c p) user_id accounts sources later
        (record {
          common = common;
          is_approved_now = refl;
          json = p.payload_json;
          binding = B.sha256 (
              binding_document p.action_type p.payload_json p.version (execution_context_hash B c));
          approved_at = now;
          mode = c.mode;
          provider = c.provider;
          context_hash = execution_context_hash B c;
          action_type = refl;
          version = refl;
          payload_hash = refl;
          payload_json = refl;
          same_payload = v.canonical;
          has_binding = refl;
          bound = ground (arith, v.canonical, v.positive);
          has_mode = refl;
          has_provider = refl;
          has_hash = refl;
          snapshot = refl;
          approved = refl;
          fresh = ground (arith, v.edited_by);
          current = current;
          unchanged = refl;
        })

  -- The assertions about a real approval hold of what `approve` has written.
  approved_row-authorization :
      c ≡ resolve_execution_context p.action_type accounts sources
      → approved_execution_authorization (approved_row B user_id now c p) ≢ none
  unfolding approve_row approved_execution_authorization
  approved_row-authorization current = elim (execution_mode_eq.dec c.mode real) [
    | yes r ↦
        let (a, bound) =
          resolve_real p.action_type accounts sources
            (ap (λ (x : ExecutionContext). x.mode) (sym current) ∙ r) in
        let (scope, _, has_scope, _) = bound.scope in
        ground (arith, bound.account, bound.revision, has_scope)
    | no n ↦ ground arith
  ]

-- Nothing after the policy engine stops an execution that it lets pass.
begin_runs :
    (B : Boundary) (user_id later id started_at : ℕ) (accounts : List ConnectedAccount)
    (sources : List SourceItem) (w : Work) (c : ExecutionContext)
    → validate_execution B w.proposal user_id accounts sources later ≡ ok c
    → is_unavailable c.mode ≡ false
    → approved_execution_authorization w.proposal ≢ none
    → is_ok (begin user_id B later id started_at accounts sources w).0 ≡ true
unfolding begin is_open
begin_runs B user_id later id started_at accounts sources w c passed available authorized =
    let p = w.proposal in
    let k = validate_execution_ok B p user_id accounts sources later passed in
    let common = validate_common_ok B p user_id later k.common in
    let (auth, e) = is_some (approved_execution_authorization p) authorized in
    let again =
      parse_action_payload-canonical B.zone_exists p.action_type k.json {q = p.payload_json}
        k.same_payload in
    ground (arith, common.in_time)

module _ (B : Boundary) (user_id before now later : ℕ) (accounts : List ConnectedAccount)
    (sources : List SourceItem) (d : Displayed) (w : Work) where
  -- When `approve` succeeds on a valid row whose edits do not lie in its future, then `execute`,
  -- at any later or earlier clock before the proposal and its payload fall due, with the same
  -- accounts and evidence, reaches the call of a registry.
  pub approve-begin :
      (id started_at : ℕ)
      → before ≤ now
      → IsValid B before w.proposal
      → let (r, w') = approve user_id B now accounts sources d w in
        r ≡ ok tt
        → later < w.proposal.expires_at
        → check_times later w.proposal.payload_json ≡ ok tt
        → (started : ActionExecution × Call) × ((begin user_id B later id started_at accounts
              sources w').0
            ≡ ok started)
  approve-begin id started_at le v h in_time times =
      let p = w.proposal in
      let (c, k) = approve_ok B user_id before now accounts sources d w v h in
      let w' = (approve user_id B now accounts sources d w).1 in
      let common =
        validate_common_later B p user_id before now later v k.checks.common in_time times in
      let runs =
        approved_row-runs B user_id now later accounts sources p c before le v common
          k.checks.current k.checks.available in
      let authorized =
        approved_row-authorization B user_id now later accounts sources p c k.checks.current in
      is_ok-value (begin user_id B later id started_at accounts sources w').0 (
        begin_runs B user_id later id started_at accounts sources w' c
          (subst (λ q. validate_execution B q user_id accounts sources later ≡ ok c) (sym k.row)
            runs)
          k.checks.available
          (subst (λ q. approved_execution_authorization q ≢ none) (sym k.row) authorized))
