-- ===== src/Proposals/Diagram.antt =====
-- The state diagram of a proposal in action_proposal_service.py, and the calls as its edges.
use lifeflow.Prelude.{
  ℕ, true, ◌≡◌, ◌⊎◌, inl, inr, refl, ap, sym, subst, ◌∙◌, String, List, Option, arith, Option-cases,
}
use lifeflow.Models.{
  ActionType, ProposalStatus, proposed, edited, approved, rejected, executing, executed, failed,
  expired, is_open, is_approved,
}
use lifeflow.Payloads.{Payload, Boundary, canonical_payload}
use lifeflow.Records.{ConnectedAccount, SourceItem, ActionExecution}
use lifeflow.Policy.{Displayed, validate_common, validate_approval, validate_execution}
use lifeflow.Policy.Checks.{validate_approval_ok, validate_execution_ok}
use lifeflow.Outcome.{Code, refused, Result-cases, approval_context_changed}
use lifeflow.Proposals.Session.{Work}
use lifeflow.Proposals.Operations.{edit, approve, approve_row, reject, clear_approval}
use lifeflow.Proposals.Execution.{
  Reply, final_error, uncertain, succeeded, crashed, begin, finish, drop_stale_approval,
}
use lifeflow.Proposals.Invariant.{IsValid}
use lifeflow.Proposals.Rows.{edit_row, reject_row, approve_row_lem, begin_row}

pub data HasOwner : ProposalStatus → Type 0 where
  was_proposed : HasOwner proposed
  was_edited : HasOwner edited
  was_approved : HasOwner approved

infix 40 ◌⟶◌
pub data ◌⟶◌ : ProposalStatus → ProposalStatus → Type 0 where
  revise : {s : ProposalStatus} → HasOwner s → s ⟶ edited
  refuse : {s : ProposalStatus} → HasOwner s → s ⟶ rejected
  lapse : {s : ProposalStatus} → HasOwner s → s ⟶ expired
  accept_new : proposed ⟶ approved
  accept_edited : edited ⟶ approved
  start : approved ⟶ executing
  succeed : executing ⟶ executed
  fail : executing ⟶ failed

abbrev pub Follows : ProposalStatus → ProposalStatus → Type 0
Follows s s' = (s' ≡ s) ⊎ (s ⟶ s')

ruleset edges = (
  revise, refuse, lapse, accept_new, accept_edited, start, succeed, fail, was_proposed, was_edited,
  was_approved,
)

module _ (B : Boundary) (user_id now : ℕ) (w : Work) where
  edit-Follows :
      (expected_version : ℕ) (t : ActionType) (payload : Payload)
      → Follows w.proposal.status
          (edit user_id B now expected_version t payload w).1.proposal.status
  unfolding clear_approval is_open
  edit-Follows expected_version t payload =
      rw (edit_row B user_id now expected_version t payload w)
        (elim (Option-cases (canonical_payload B t payload)) [
          | inl e ↦ rw e (grind (arith, edges))
          | inr (q, e) ↦ rw e (grind (arith, edges))
        ])

  reject-Follows :
      (expected_version : ℕ) (reason : Option String)
      → Follows w.proposal.status (reject user_id B now expected_version reason w).1.proposal.status
  unfolding clear_approval is_open
  reject-Follows expected_version reason =
      rw (reject_row B user_id now expected_version reason w) (grind (arith, edges))

  approve-Follows :
      (accounts : List ConnectedAccount) (sources : List SourceItem) (d : Displayed)
      → IsValid B now w.proposal
      → Follows w.proposal.status (approve user_id B now accounts sources d w).1.proposal.status
  unfolding approve_row is_open
  approve-Follows accounts sources d v =
      let p = w.proposal in
      rw (approve_row_lem B user_id now accounts sources w d now v)
        (elim (Result-cases (validate_approval B p user_id accounts sources now d)) [
          | inl (c, e) ↦
              let k = validate_approval_ok B p user_id accounts sources now d e in
              rw e (grind (arith, edges, k.undecided))
          | inr (inl (c, e)) ↦ rw e (grind (arith, edges))
          | inr (inr e) ↦ rw e (grind (arith, edges))
        ])

  -- The policy engine compares contexts only for an approved row.
  refused_late :
      (accounts : List ConnectedAccount) (sources : List SourceItem)
      → validate_execution B w.proposal user_id accounts sources now
        ≡ refused approval_context_changed
      → is_approved w.proposal.status ≡ true
  unfolding validate_execution validate_common
  refused_late accounts sources h = ground arith

  drop-Follows :
      (c : Code)
      → (c ≡ approval_context_changed → is_approved w.proposal.status ≡ true)
      → Follows w.proposal.status (drop_stale_approval user_id c w.proposal).status
  unfolding clear_approval
  drop-Follows approval_context_changed h = grind (arith, edges, h refl)
  drop-Follows _ h = inl refl

  begin-Follows :
      (id started_at : ℕ) (accounts : List ConnectedAccount) (sources : List SourceItem)
      → Follows w.proposal.status
          (begin user_id B now id started_at accounts sources w).1.proposal.status
  unfolding clear_approval is_open
  begin-Follows id started_at accounts sources =
      let p = w.proposal in
      rw (begin_row B user_id now accounts sources w id started_at)
        (elim (Result-cases (validate_execution B p user_id accounts sources now)) [
          | inl (c, e) ↦
              let k = validate_execution_ok B p user_id accounts sources now e in
              rw e (grind (arith, edges, k.is_approved_now))
          | inr (inl (c, e)) ↦
              let drops =
                drop-Follows c λ changed. refused_late accounts sources (e ∙ ap refused changed) in
              rw e (grind (arith, edges, drops))
          | inr (inr e) ↦ rw e (grind (arith, edges))
        ])

  finish-Follows :
      (started : Work)
      → started.proposal.status ≡ executing
      → (completed_at : ℕ) (e : ActionExecution) (reply : Reply)
      → Follows started.proposal.status
          (finish user_id completed_at e reply started).1.proposal.status
  unfolding finish
  finish-Follows started h completed_at e (final_error code) =
      inr (subst (λ s. s ⟶ failed) (sym h) fail)
  finish-Follows started h completed_at e (uncertain result) = inl refl
  finish-Follows started h completed_at e (succeeded result) =
      inr (subst (λ s. s ⟶ executed) (sym h) succeed)
  finish-Follows started h completed_at e crashed = inl refl

  -- On a valid row, each of `edit`, `reject`, `approve` and the part of `execute` before the
  -- commit leaves the status as it is or takes one edge of the state diagram; and so does the part
  -- of `execute` behind the executor's answer, whatever that is, on a row that is executing.
  pub calls-Follow :
      (started : Work)
      → IsValid B now w.proposal
      → started.proposal.status ≡ executing
      → ((expected_version : ℕ) (t : ActionType) (payload : Payload)
          → Follows w.proposal.status
              (edit user_id B now expected_version t payload w).1.proposal.status)
        × ((expected_version : ℕ) (reason : Option String)
            → Follows w.proposal.status
                (reject user_id B now expected_version reason w).1.proposal.status)
        × ((accounts : List ConnectedAccount) (sources : List SourceItem) (d : Displayed)
            → Follows w.proposal.status
                (approve user_id B now accounts sources d w).1.proposal.status)
        × ((id started_at : ℕ) (accounts : List ConnectedAccount) (sources : List SourceItem)
            → Follows w.proposal.status
                (begin user_id B now id started_at accounts sources w).1.proposal.status)
        × ((completed_at : ℕ) (e : ActionExecution) (reply : Reply)
            → Follows started.proposal.status
                (finish user_id completed_at e reply started).1.proposal.status)
  calls-Follow started v h = (
    edit-Follows,
    reject-Follows,
    λ accounts sources d. approve-Follows accounts sources d v,
    begin-Follows,
    finish-Follows started h,
  )
