-- ===== src/Proposals/Rows.antt =====
-- How each call leaves the locked row: the calls as functions of the row alone.
use lifeflow.Prelude.{
  ℕ, ◌+◌, Bool, true, false, not, ◌&&◌, ◌≡◌, String, List, Option, none, some, leb, arith, ◌==◌,
  nat_eq, if◌then◌else◌, Option-cases, inl, inr,
}
use lifeflow.Models.{ActionType, ProposalStatus, is_approved, is_open, action_type_eq}
use lifeflow.Payloads.{
  Payload, Boundary, action_document, canonical_payload, action_payload_hash, approval_binding_hash,
}
use lifeflow.Payloads.Laws.{parse_action_payload-canonical}
use lifeflow.Records.{ConnectedAccount, SourceItem, ActionProposal}
use lifeflow.Context.{ExecutionContext}
use lifeflow.Policy.{Displayed, validate_approval, validate_execution, is_unavailable}
use lifeflow.Policy.Checks.{validate_approval_ok, validate_execution_ok}
use lifeflow.Outcome.{Result, ok, refused, raised, Result-cases}
use lifeflow.Proposals.Session.{Work}
use lifeflow.Proposals.Operations.{edit, approve, is_due, reject, clear_approval, stripped_reason}
use lifeflow.Proposals.Execution.{begin, drop_stale_approval, approved_execution_authorization}
use lifeflow.Proposals.Invariant.{IsValid, approved_row}

abbrev pub expired_row : ActionProposal → ActionProposal
expired_row p = record p { status = ProposalStatus.expired }

module _ (B : Boundary) (user_id now : ℕ) where
  abbrev pub edited_row : Payload → ActionProposal → ActionProposal
  edited_row q p = record (clear_approval p) {
    payload_json = q;
    payload_hash = B.sha256 (action_document p.action_type q);
    version = p.version + 1;
    status = ProposalStatus.edited;
    user_edited_at = some now;
  }

  module _ (expected_version : ℕ) (t : ActionType) (payload : Payload) where
    abbrev written : Option Payload → ActionProposal → ActionProposal
    written none p = p
    written (some q) p = edited_row q p

    abbrev pub edit_spec : Option Payload → ActionProposal → ActionProposal
    edit_spec o p =
        if p.version == expected_version && p.action_type == t && is_open p.status
        then if leb p.expires_at now then expired_row p else written o p
        else p

    pub edit_row :
        (w : Work)
        → (edit user_id B now expected_version t payload w).1.proposal
          ≡ edit_spec (canonical_payload B t payload) w.proposal
    unfolding edit action_payload_hash
    edit_row w = elim (Option-cases (canonical_payload B t payload)) [
      | inl invalid ↦ ground arith
      | inr (q, e) ↦
          ground (arith, parse_action_payload-canonical B.zone_exists t payload {q = q} e)
    ]

  module _ (expected_version : ℕ) (reason : Option String) where
    abbrev pub rejected_row : ActionProposal → ActionProposal
    rejected_row p = record p {
      status = ProposalStatus.rejected;
      rejected_at = some now;
      rejection_reason = stripped_reason reason;
    }

    abbrev pub reject_spec : ActionProposal → ActionProposal
    reject_spec p =
        if p.version == expected_version && is_open p.status
        then if leb p.expires_at now
          then expired_row p
          else rejected_row (if is_approved p.status then clear_approval p else p)
        else p

    pub reject_row :
        (w : Work)
        → (reject user_id B now expected_version reason w).1.proposal ≡ reject_spec w.proposal
    unfolding reject
    reject_row w = ground arith

  module _ (accounts : List ConnectedAccount) (sources : List SourceItem) (w : Work) where
    module _ (d : Displayed) where
      abbrev pub decided : Result ExecutionContext → ActionProposal → ActionProposal
      decided (ok c) p = approved_row B user_id now c p
      decided (refused _) p = p
      decided raised p = p

      abbrev pub approve_spec : Result ExecutionContext → ActionProposal → ActionProposal
      approve_spec r p = if is_due user_id now p then expired_row p else decided r p

      pub approve_row_lem :
          (before : ℕ)
          → IsValid B before w.proposal
          → (approve user_id B now accounts sources d w).1.proposal
            ≡ approve_spec
                (validate_approval B w.proposal user_id accounts sources now d)
                w.proposal
      unfolding approve approval_binding_hash is_open
      approve_row_lem before v =
          let p = w.proposal in
          elim (Result-cases (validate_approval B p user_id accounts sources now d)) [
            | inl (c, e) ↦
                let k = validate_approval_ok B p user_id accounts sources now d e in ground arith
            | inr (inl (c, e)) ↦ ground arith
            | inr (inr e) ↦ ground arith
          ]

    abbrev pub started : Result ExecutionContext → ActionProposal → ActionProposal
    started (ok c) p = record p { status = ProposalStatus.executing }
    started (refused code) p = drop_stale_approval user_id code p
    started raised p = p

    abbrev pub begin_spec : Bool → Result ExecutionContext → ActionProposal → ActionProposal
    begin_spec asserted r p =
        if is_due user_id now p then expired_row p else if asserted then started r p else p

    abbrev runs : Result ExecutionContext → ActionProposal → Bool
    runs (ok c) p =
        not (is_unavailable c.mode)
        && (elim (approved_execution_authorization p) [ none ↦ false | some _ ↦ true ])
    runs (refused _) p = true
    runs raised p = true

    pub begin_row :
        (id started_at : ℕ)
        → (begin user_id B now id started_at accounts sources w).1.proposal
          ≡ begin_spec
              (runs (validate_execution B w.proposal user_id accounts sources now) w.proposal)
              (validate_execution B w.proposal user_id accounts sources now)
              w.proposal
    unfolding begin is_open
    begin_row id started_at =
        let p = w.proposal in
        elim (Result-cases (validate_execution B p user_id accounts sources now)) [
          | inl (c, e) ↦
              let k = validate_execution_ok B p user_id accounts sources now e in
              ground (
                arith,
                parse_action_payload-canonical B.zone_exists p.action_type k.json
                    {q = p.payload_json} k.same_payload,
              )
          | inr (inl (c, e)) ↦ ground arith
          | inr (inr e) ↦ ground arith
        ]
