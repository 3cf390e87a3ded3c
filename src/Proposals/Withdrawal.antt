-- ===== src/Proposals/Withdrawal.antt =====
-- Where `edit` and `execute` of action_proposal_service.py clear an approval.
use lifeflow.Prelude.{
  ℕ, ◌+◌, ◌<◌, true, false, ◌≡◌, ◌≢◌, refl, subst, List, none, some, arith, is_some, ◌∙◌, ap, sym,
}
use lifeflow.Models.{ActionType, ProposalStatus, is_open, is_approved}
use lifeflow.Payloads.{Payload, Boundary, canonical_payload, approval_binding_hash}
use lifeflow.Records.{ConnectedAccount, SourceItem, ActionProposal}
use lifeflow.Context.{resolve_execution_context, execution_context_hash}
use lifeflow.Policy.{validate_common, validate_execution, approved_context}
use lifeflow.Policy.Checks.{validate_common_ok}
use lifeflow.Outcome.{ok, refused, is_ok, approval_context_changed}
use lifeflow.Proposals.Session.{Work}
use lifeflow.Proposals.Operations.{edit, clear_approval}
use lifeflow.Proposals.Execution.{begin}
use lifeflow.Proposals.Invariant.{IsValid, Snapshot}
use lifeflow.Proposals.Rows.{edited_row, edit_row}

-- Nothing of an approval is on the row: neither what was approved nor the context it was approved for.
pub record IsUnapproved (p : ActionProposal) : Type 0 where
  pub action_type : p.approved_action_type ≡ none
  pub payload_json : p.approved_payload_json ≡ none
  pub payload_hash : p.approved_payload_hash ≡ none
  pub binding_hash : p.approved_binding_hash ≡ none
  pub version : p.approved_version ≡ none
  pub at : p.approved_at ≡ none
  pub mode : p.approved_execution_mode ≡ none
  pub provider : p.approved_provider ≡ none
  pub connected_account : p.approved_connected_account_id ≡ none
  pub revision : p.approved_authorisation_revision ≡ none
  pub scope : p.approved_required_scope ≡ none
  pub source_account : p.approved_source_account_id ≡ none
  pub context_hash : p.approved_execution_context_hash ≡ none

edited_row-IsUnapproved :
    (B : Boundary) (user_id now : ℕ) (q : Payload) (p : ActionProposal)
    → IsUnapproved (edited_row B user_id now q p)
unfolding clear_approval
edited_row-IsUnapproved B user_id now q p = record {
  action_type = refl;
  payload_json = refl;
  payload_hash = refl;
  binding_hash = refl;
  version = refl;
  at = refl;
  mode = refl;
  provider = refl;
  connected_account = refl;
  revision = refl;
  scope = refl;
  source_account = refl;
  context_hash = refl;
}

-- Only an approved row begins an execution.
begin_not_approved :
    (B : Boundary) (user_id now id started_at : ℕ) (accounts : List ConnectedAccount)
    (sources : List SourceItem) (w : Work)
    → is_approved w.proposal.status ≡ false
    → is_ok (begin user_id B now id started_at accounts sources w).0 ≡ false
unfolding begin validate_execution
begin_not_approved B user_id now id started_at accounts sources w h = ground arith

module _ (B : Boundary) (user_id now expected_version : ℕ) (t : ActionType) (payload : Payload)
    (w : Work) where
  edit_accepted :
      (edit user_id B now expected_version t payload w).0 ≡ ok tt
      → (canonical_payload B t payload ≢ none)
        × (w.proposal.version ≡ expected_version)
        × (w.proposal.action_type ≡ t)
        × (is_open w.proposal.status ≡ true)
        × (now < w.proposal.expires_at)
  unfolding edit
  edit_accepted h = ground arith

  -- What a successful edit found and left.
  pub record Withdrawn (q : Payload) (p' : ActionProposal) : Type 0 where
    pub parsed : canonical_payload B t payload ≡ some q
    pub row : p' ≡ edited_row B user_id now q w.proposal
    pub cleared : IsUnapproved p'
    pub status : p'.status ≡ ProposalStatus.edited
    pub carries : p'.payload_json ≡ q
    pub bumped : p'.version ≡ w.proposal.version + 1
    pub guarded : w.proposal.version ≡ expected_version
    pub open_before : is_open w.proposal.status ≡ true
    pub in_time : now < w.proposal.expires_at

  -- When `edit` succeeds, the row before it was open, unexpired and of the version the caller
  -- named; the row after it is `edited`, carries the parsed payload and the next version, and has
  -- none of the thirteen columns of an approval or of its context; and no execution of the new row
  -- begins, at any time and with any accounts and evidence.
  pub edit_withdraws :
      (edit user_id B now expected_version t payload w).0 ≡ ok tt
      → let w' = (edit user_id B now expected_version t payload w).1 in
        (q : Payload) × Withdrawn q w'.proposal
        × ((later id started_at : ℕ) (accounts : List ConnectedAccount) (sources : List SourceItem)
            → is_ok (begin user_id B later id started_at accounts sources w').0 ≡ false)
  unfolding clear_approval
  edit_withdraws h =
      let (valid, version, same_type, is_open_before, alive) = edit_accepted h in
      let (q, e) = is_some (canonical_payload B t payload) valid in
      let w' = (edit user_id B now expected_version t payload w).1 in
      let row : w'.proposal ≡ edited_row B user_id now q w.proposal =
        edit_row B user_id now expected_version t payload w ∙ rw e (ground arith) in
      (
        q,
        record {
          parsed = e;
          row = row;
          cleared =
              subst IsUnapproved (sym row) (edited_row-IsUnapproved B user_id now q w.proposal);
          status = ap (λ (p : ActionProposal). p.status) row;
          carries = ap (λ (p : ActionProposal). p.payload_json) row;
          bumped = ap (λ (p : ActionProposal). p.version) row;
          guarded = version;
          open_before = is_open_before;
          in_time = alive;
        },
        λ later id started_at accounts sources.
            begin_not_approved B user_id later id started_at accounts sources w'
              (ap (λ (p : ActionProposal). is_approved p.status) row),
      )

module _ (B : Boundary) (user_id before now : ℕ) (accounts : List ConnectedAccount)
    (sources : List SourceItem) (w : Work) where
  context_changed :
      (s : Snapshot B w.proposal)
      → IsValid B before w.proposal
      → is_approved w.proposal.status ≡ true
      → validate_common B w.proposal user_id now ≡ ok tt
      → execution_context_hash B (resolve_execution_context w.proposal.action_type accounts sources)
        ≢ execution_context_hash B (approved_context w.proposal s.mode s.provider)
      → validate_execution B w.proposal user_id accounts sources now
        ≡ refused approval_context_changed
  unfolding validate_execution approval_binding_hash
  context_changed s v a common differs = ground (arith, v.canonical, v.positive)

  -- The row that a changed context leaves.
  pub record Dropped (p' : ActionProposal) : Type 0 where
    pub cleared : IsUnapproved p'
    pub status : p'.status ≡ ProposalStatus.edited
    pub carries : p'.payload_json ≡ w.proposal.payload_json
    pub version : p'.version ≡ w.proposal.version

  cleared_row-Dropped :
      Dropped (record (clear_approval w.proposal) { status = ProposalStatus.edited })
  unfolding clear_approval
  cleared_row-Dropped = record {
    cleared = record {
      action_type = refl;
      payload_json = refl;
      payload_hash = refl;
      binding_hash = refl;
      version = refl;
      at = refl;
      mode = refl;
      provider = refl;
      connected_account = refl;
      revision = refl;
      scope = refl;
      source_account = refl;
      context_hash = refl;
    };
    status = refl;
    carries = refl;
    version = refl;
  }

  -- When a valid, approved row passes the common checks and the hash of its context resolved now
  -- differs from that of its approved context, `execute` is refused with
  -- `approval_context_changed`; the row is `edited` again, with its payload and version and none of
  -- the thirteen columns of an approval or of its context; and no execution of it begins, at any
  -- time and with any accounts and evidence.
  pub begin_context_changed :
      (id started_at : ℕ)
      → IsValid B before w.proposal
      → (a : is_approved w.proposal.status ≡ true)
      → validate_common B w.proposal user_id now ≡ ok tt
      → ((s : Snapshot B w.proposal)
          → execution_context_hash B
              (resolve_execution_context w.proposal.action_type accounts sources)
            ≢ execution_context_hash B (approved_context w.proposal s.mode s.provider))
      → let (r, w') = begin user_id B now id started_at accounts sources w in
        (r ≡ refused approval_context_changed)
        × Dropped w'.proposal
        × ((later id' started_at' : ℕ) (accounts' : List ConnectedAccount)
              (sources' : List SourceItem)
            → is_ok (begin user_id B later id' started_at' accounts' sources' w').0 ≡ false)
  unfolding begin
  begin_context_changed id started_at v a common differs =
      let s = v.snapshot a in
      let e = context_changed s v a common (differs s) in
      let alive = (validate_common_ok B w.proposal user_id now common).in_time in
      let w' = (begin user_id B now id started_at accounts sources w).1 in
      let row : w'.proposal
          ≡ record (clear_approval w.proposal) { status = ProposalStatus.edited } =
        ground arith in
      (
        ground arith,
        subst Dropped (sym row) cleared_row-Dropped,
        λ later id' started_at' accounts' sources'.
            begin_not_approved B user_id later id' started_at' accounts' sources' w'
              (ap (λ (p : ActionProposal). is_approved p.status) row),
      )
