-- ===== src/Tests/Approvals.antt =====
-- Approval, execution and withdrawal of one draft.
use lifeflow.Prelude.{
  ℕ, ◌≡◌, refl, true, false, String, Option, List, [], ◌∷◌, none, some, arith, string_eq, nat_eq,
  strip_by, is_white_space, subst, sym,
}
use mathlib.Core.Option.{some-injective}
use lifeflow.Models.{
  ActionType, create_gmail_draft, real, ExecutionOutcome, ProposalStatus, action_type_eq,
  risk_level_eq, execution_mode_eq,
}
use lifeflow.Payloads.{
  Payload, payload_eq, canonical_payload, parse_action_payload, valid_draft, valid_addresses,
  action_payload_hash, approval_binding_hash,
}
use lifeflow.Payloads.Laws.{parse_action_payload-canonical}
use lifeflow.Records.{ConnectedAccount, SourceItem, ActionExecution}
use lifeflow.Context.{
  ExecutionContext, resolve_execution_context, distinct_account_ids, google_accounts,
  non_google_ids, account_by_id, google_context, required_google_scope, execution_context_hash,
  ApprovedExecutionAuthorization, has_simulated_capability,
}
use lifeflow.Context.Provenance.{BoundTo, resolve_real, resolve-connect}
use lifeflow.Policy.{
  Displayed, validate_common, validate_approval, validate_execution, expected_risk,
}
use lifeflow.Outcome.{ok, refused, is_ok, approval_context_changed}
use lifeflow.Proposals.{
  Reply, finish, Work, edit, approve, reject, begin, Call, approved_execution_authorization,
}
use lifeflow.Proposals.Invariant.{IsValid}
use lifeflow.Proposals.Keeps.{approve-IsValid}
use lifeflow.Proposals.Authority.{Authorized, begin-Authorized, begin_bound}
use lifeflow.Proposals.Approval.{approve-begin}
use lifeflow.Proposals.Diagram.{Follows, calls-Follow}
use lifeflow.Proposals.Withdrawal.{Withdrawn, Dropped, edit_withdraws, begin_context_changed}
use lifeflow.Tests.Data.{
  context_digest, boundary, account, other_account, message, payload, proposal, work, displayed,
}

-- The draft after its approval at instant 10.
approved_work : Work
unfolding parse_action_payload valid_draft valid_addresses action_payload_hash approval_binding_hash
    resolve_execution_context distinct_account_ids google_accounts non_google_ids account_by_id
    google_context required_google_scope execution_context_hash validate_common validate_approval
    validate_execution expected_risk approve begin approved_execution_authorization string_eq nat_eq
    payload_eq action_type_eq risk_level_eq execution_mode_eq strip_by is_white_space
    has_simulated_capability
approved_work = (approve 1 boundary 10 (account ∷ []) (message ∷ []) displayed work).1

parses : canonical_payload boundary create_gmail_draft payload ≡ some payload
unfolding approved_work
parses = refl

approves : (approve 1 boundary 10 (account ∷ []) (message ∷ []) displayed work).0 ≡ ok tt
unfolding approved_work
approves = refl

parse_action_payload-canonical_example :
    parse_action_payload (λ _. true) create_gmail_draft payload ≡ some payload
unfolding approved_work
parse_action_payload-canonical_example =
    parse_action_payload-canonical (λ _. true) create_gmail_draft payload refl

-- The call that is made of the Google registry at instant 20.
abbrev call : Call
call = record {
  execution_mode = real;
  action_type = create_gmail_draft;
  proposal_id = 7;
  payload = payload;
  authorization = some (record {
    connected_account_id = 9;
    provider = "google";
    authorisation_revision = 4;
    required_scope = "https://www.googleapis.com/auth/gmail.compose";
    execution_context_hash = "context";
  });
}

abbrev pub attempt : ActionExecution
attempt = record {
  id = 50;
  proposal_id = 7;
  idempotency_key = "execution";
  approved_action_type = create_gmail_draft;
  approved_proposal_version = 1;
  executed_payload_json = payload;
  executed_payload_hash = "action";
  approval_binding_hash = "binding";
  execution_mode = real;
  outcome = ExecutionOutcome.pending;
  started_at = 21;
  completed_at = none;
  result_json = [];
  error_code = none;
}

begins :
    (begin 1 boundary 20 50 21 (account ∷ []) (message ∷ []) approved_work).0 ≡ ok (attempt, call)
unfolding approved_work
begins = refl

begin-Authorized_example :
    (c : ExecutionContext) × Authorized boundary 1 20
      (account ∷ [])
      (message ∷ [])
      approved_work
      attempt
      call
      c
begin-Authorized_example =
    begin-Authorized boundary 1 20 (account ∷ []) (message ∷ []) approved_work 50 21 begins

pub proposal-IsValid : IsValid boundary 5 proposal
unfolding approved_work
proposal-IsValid = record {
  canonical = refl;
  hashed = refl;
  positive = omega arith;
  edited_by = refl;
  snapshot = λ e. cc;
}

approve-begin_example :
    (started : ActionExecution × Call) × ((begin 1 boundary 20 50 21
        (account ∷ [])
        (message ∷ [])
        (approve 1 boundary 10 (account ∷ []) (message ∷ []) displayed work).1).0
      ≡ ok started)
approve-begin_example =
    approve-begin boundary 1 5 10 20 (account ∷ []) (message ∷ []) displayed work 50 21
      (omega arith) proposal-IsValid approves (omega arith) refl

resolve_real_example :
    (a : ConnectedAccount) × BoundTo create_gmail_draft
      (account ∷ [])
      (message ∷ [])
      (resolve_execution_context create_gmail_draft (account ∷ []) (message ∷ []))
      a
unfolding approved_work
resolve_real_example = resolve_real create_gmail_draft (account ∷ []) (message ∷ []) refl

resolve-connect_example :
    resolve_execution_context create_gmail_draft (other_account ∷ account ∷ []) (message ∷ [])
    ≡ resolve_execution_context create_gmail_draft (account ∷ []) (message ∷ [])
unfolding approved_work
resolve-connect_example =
    resolve-connect other_account (account ∷ []) create_gmail_draft (message ∷ []) refl refl

begin_bound_example :
    let current = resolve_execution_context create_gmail_draft (account ∷ []) (message ∷ []) in
    (a : ConnectedAccount) × BoundTo create_gmail_draft (account ∷ []) (message ∷ []) current a
    × (auth : ApprovedExecutionAuthorization) × (call.authorization ≡ some auth)
    × (auth.connected_account_id ≡ a.id)
    × (auth.authorisation_revision ≡ a.authorisation_revision)
    × (current.required_scope ≡ some auth.required_scope)
unfolding approved_work
begin_bound_example =
    begin_bound boundary 1 20 (account ∷ []) (message ∷ []) approved_work 50 21
      (λ mode provider m p e. cc) begins refl

approved-IsValid : IsValid boundary 10 approved_work.proposal
unfolding approved_work
approved-IsValid =
    approve-IsValid boundary 1 5 10 (omega arith) (account ∷ []) (message ∷ []) displayed work
      proposal-IsValid

begin_context_changed_example :
    let (r, w) = begin 1 boundary 20 50 21 [] (message ∷ []) approved_work in
    (r ≡ refused approval_context_changed)
    × Dropped boundary 1 10 20 [] (message ∷ []) approved_work w.proposal
    × ((later id' started_at' : ℕ) (accounts' : List ConnectedAccount) (sources' : List SourceItem)
        → is_ok (begin 1 boundary later id' started_at' accounts' sources' w).0 ≡ false)
unfolding approved_work
begin_context_changed_example =
    begin_context_changed boundary 1 10 20 [] (message ∷ []) approved_work 50 21 approved-IsValid
      refl refl
      (λ s e.
        let m = some-injective real s.mode s.has_mode in
        let x : "unavailable context" ≡ context_digest real =
          subst (λ y. "unavailable context" ≡ context_digest y) (sym m) e in
        cc)

edit_withdraws_example :
    let w' = (edit 1 boundary 15 1 create_gmail_draft payload approved_work).1 in
    (q : Payload) × Withdrawn boundary 1 15 1 create_gmail_draft payload approved_work q w'.proposal
    × ((later id started_at : ℕ) (accounts : List ConnectedAccount) (sources : List SourceItem)
        → is_ok (begin 1 boundary later id started_at accounts sources w').0 ≡ false)
unfolding approved_work edit
edit_withdraws_example =
    edit_withdraws boundary 1 15 1 create_gmail_draft payload approved_work refl

abbrev started_work : Work
started_work = record work { proposal = record proposal { status = ProposalStatus.executing } }

calls-Follow_example :
    ((expected_version : ℕ) (t : ActionType) (p : Payload)
      → Follows work.proposal.status
          (edit 1 boundary 5 expected_version t p work).1.proposal.status)
    × ((expected_version : ℕ) (reason : Option String)
        → Follows work.proposal.status
            (reject 1 boundary 5 expected_version reason work).1.proposal.status)
    × ((accounts : List ConnectedAccount) (sources : List SourceItem) (d : Displayed)
        → Follows work.proposal.status
            (approve 1 boundary 5 accounts sources d work).1.proposal.status)
    × ((id started_at : ℕ) (accounts : List ConnectedAccount) (sources : List SourceItem)
        → Follows work.proposal.status
            (begin 1 boundary 5 id started_at accounts sources work).1.proposal.status)
    × ((completed_at : ℕ) (e : ActionExecution) (reply : Reply)
        → Follows ProposalStatus.executing
            (finish 1 completed_at e reply started_work).1.proposal.status)
calls-Follow_example = calls-Follow boundary 1 5 work started_work proposal-IsValid refl
