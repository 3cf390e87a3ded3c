-- ===== src/Proposals/Keeps.antt =====
-- `edit`, `reject`, `approve` and `execute` of action_proposal_service.py against the invariant.
use lifeflow.Prelude.{ℕ, ◌≤◌, ◌≡◌, String, List, Option, some, arith, Option-cases, inl, inr}
use lifeflow.Models.{ActionType, ProposalStatus}
use lifeflow.Payloads.{Payload, Boundary, canonical_payload}
use lifeflow.Payloads.Laws.{parse_action_payload-canonical}
use lifeflow.Records.{ConnectedAccount, SourceItem, ActionProposal, ActionExecution}
use lifeflow.Policy.{Displayed, validate_approval, validate_execution}
use lifeflow.Policy.Checks.{validate_approval_ok}
use lifeflow.Outcome.{Code, Result-cases}
use lifeflow.Proposals.Session.{Work}
use lifeflow.Proposals.Operations.{edit, approve, reject, clear_approval}
use lifeflow.Proposals.Execution.{
  begin, finish, Reply, succeeded, uncertain, final_error, crashed, drop_stale_approval,
}
use lifeflow.Proposals.Invariant.{IsValid, approved_row-IsValid}
use lifeflow.Proposals.Rows.{
  expired_row, edited_row, edit_row, reject_row, approve_row_lem, begin_row,
}

module _ (B : Boundary) (user_id before now : ℕ) (le : before ≤ now) where
  edited_row-IsValid :
      (q : Payload) (p : ActionProposal)
      → canonical_payload B p.action_type q ≡ some q
      → IsValid B before p
      → IsValid B now (edited_row B user_id now q p)
  unfolding clear_approval
  edited_row-IsValid q p e v = ground arith

  pub later-IsValid : (p : ActionProposal) → IsValid B before p → IsValid B now p
  later-IsValid p v = ground arith

  pub expired_row-IsValid :
      (p : ActionProposal) → IsValid B before p → IsValid B now (expired_row p)
  expired_row-IsValid p v = ground arith

  -- `edit` leaves a valid row valid, also where it is refused, if the clock has not gone back.
  pub edit-IsValid :
      (expected_version : ℕ) (t : ActionType) (payload : Payload) (w : Work)
      → IsValid B before w.proposal
      → IsValid B now (edit user_id B now expected_version t payload w).1.proposal
  edit-IsValid expected_version t payload w v =
      rw (edit_row B user_id now expected_version t payload w)
        (elim (Option-cases (canonical_payload B t payload)) [
          | inl invalid ↦
              rw invalid
                (ground (arith, later-IsValid w.proposal v, expired_row-IsValid w.proposal v))
          | inr (q, e) ↦ rw e (
              ground (
                arith,
                later-IsValid w.proposal v,
                expired_row-IsValid w.proposal v,
                edited_row-IsValid q w.proposal,
                parse_action_payload-canonical B.zone_exists t payload {q = q} e,
              ))
        ])

  rejected_row-IsValid :
      (p q : ActionProposal)
      → IsValid B before p
      → q ≡ record p {
        status = ProposalStatus.rejected;
        rejected_at = q.rejected_at;
        rejection_reason = q.rejection_reason;
      }
      → IsValid B now q
  rejected_row-IsValid p q v e = rw e (ground arith)

  pub reject-IsValid :
      (expected_version : ℕ) (reason : Option String) (w : Work)
      → IsValid B before w.proposal
      → IsValid B now (reject user_id B now expected_version reason w).1.proposal
  unfolding clear_approval
  reject-IsValid expected_version reason w v =
      rw (reject_row B user_id now expected_version reason w)
        (ground (arith, later-IsValid w.proposal v, expired_row-IsValid w.proposal v))

  -- `approve` leaves a valid row valid, also where it is refused, if the clock has not gone back.
  pub approve-IsValid :
      (accounts : List ConnectedAccount) (sources : List SourceItem) (d : Displayed) (w : Work)
      → IsValid B before w.proposal
      → IsValid B now (approve user_id B now accounts sources d w).1.proposal
  approve-IsValid accounts sources d w v =
      let p = w.proposal in
      rw (approve_row_lem B user_id now accounts sources w d before v)
        (elim (Result-cases (validate_approval B p user_id accounts sources now d)) [
          | inl (c, e) ↦
              let k = validate_approval_ok B p user_id accounts sources now d e in
              rw e (
                ground (
                  arith,
                  later-IsValid p v,
                  expired_row-IsValid p v,
                  approved_row-IsValid B user_id now before c p le v k.available,
                ))
          | inr (inl (c, e)) ↦ rw e (ground (arith, later-IsValid p v, expired_row-IsValid p v))
          | inr (inr e) ↦ rw e (ground (arith, later-IsValid p v, expired_row-IsValid p v))
        ])

  drop_stale_approval-IsValid :
      (c : Code) (p : ActionProposal)
      → IsValid B before p
      → IsValid B now (drop_stale_approval user_id c p)
  unfolding clear_approval
  drop_stale_approval-IsValid c p v = ground (arith, later-IsValid p v)

  executing_row-IsValid :
      (p : ActionProposal)
      → IsValid B before p
      → IsValid B now (record p { status = ProposalStatus.executing })
  executing_row-IsValid p v = ground arith

  pub begin-IsValid :
      (id started_at : ℕ) (accounts : List ConnectedAccount) (sources : List SourceItem) (w : Work)
      → IsValid B before w.proposal
      → IsValid B now (begin user_id B now id started_at accounts sources w).1.proposal
  begin-IsValid id started_at accounts sources w v =
      let p = w.proposal in
      rw (begin_row B user_id now accounts sources w id started_at)
        (elim (Result-cases (validate_execution B p user_id accounts sources now)) [
          | inl (c, e) ↦ rw e (
              ground (arith, later-IsValid p v, expired_row-IsValid p v, executing_row-IsValid p v))
          | inr (inl (c, e)) ↦ rw e (
              ground (
                arith,
                later-IsValid p v,
                expired_row-IsValid p v,
                drop_stale_approval-IsValid c p v,
              ))
          | inr (inr e) ↦ rw e (ground (arith, later-IsValid p v, expired_row-IsValid p v))
        ])

  pub finish-IsValid :
      (completed_at : ℕ) (e : ActionExecution) (r : Reply) (w : Work)
      → IsValid B before w.proposal
      → IsValid B now (finish user_id completed_at e r w).1.proposal
  unfolding finish
  finish-IsValid completed_at e (succeeded result) w v = ground arith
  finish-IsValid completed_at e (uncertain result) w v = ground (arith, later-IsValid w.proposal v)
  finish-IsValid completed_at e (final_error code) w v = ground arith
  finish-IsValid completed_at e crashed w v = ground (arith, later-IsValid w.proposal v)
