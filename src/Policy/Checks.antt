-- ===== src/Policy/Checks.antt =====
-- What the policy engine has checked when it lets an approval or an execution pass.
use lifeflow.Prelude.{
  ℕ, ◌<◌, true, false, ◌||◌, ◌≡◌, String, List, none, some, arith, string_eq, Option-cases, inl,
  inr, is_some, ◌≢◌,
}
use lifeflow.Models.{ExecutionMode, is_proposed, is_edited, is_approved}
use lifeflow.Payloads.{
  Payload, Boundary, canonical_payload, action_payload_hash, approval_binding_hash,
}
use lifeflow.Records.{ConnectedAccount, SourceItem, ActionProposal}
use lifeflow.Context.{ExecutionContext, resolve_execution_context, execution_context_hash}
use lifeflow.Policy.{
  expected_risk, Displayed, validate_common, validate_approval, validate_execution,
  approved_context, is_unavailable, edited_after, check_times,
}
use lifeflow.Outcome.{ok}

module _ (B : Boundary) (p : ActionProposal) (user_id : ℕ) where
  -- What `_validate_common` lets pass.
  pub record CommonChecks (now : ℕ) : Type 0 where
    pub owner : p.user_id ≡ user_id
    pub risk : p.risk_level ≡ expected_risk p.action_type
    pub in_time : now < p.expires_at
    pub payload : Payload
    pub parsed : canonical_payload B p.action_type p.payload_json ≡ some payload
    pub hashed : action_payload_hash B p.action_type payload ≡ some p.payload_hash
    pub times : check_times now payload ≡ ok tt

  pub validate_common_ok : (now : ℕ) → validate_common B p user_id now ≡ ok tt → CommonChecks now
  unfolding validate_common
  validate_common_ok now h =
      elim (Option-cases (canonical_payload B p.action_type p.payload_json)) [
        | inl e ↦ absurd (ground arith)
        | inr (q, e) ↦ record {
          owner = ground arith;
          risk = ground arith;
          in_time = ground arith;
          payload = q;
          parsed = e;
          hashed = ground arith;
          times = ground arith;
        }
      ]

  module _ (accounts : List ConnectedAccount) (sources : List SourceItem) (now : ℕ) where
    pub record ApprovalChecks (d : Displayed) (c : ExecutionContext) : Type 0 where
      pub common : validate_common B p user_id now ≡ ok tt
      pub undecided : (is_proposed p.status || is_edited p.status) ≡ true
      pub action_type : d.action_type ≡ p.action_type
      pub payload_hash : d.payload_hash ≡ p.payload_hash
      pub version : d.version ≡ p.version
      pub current : c ≡ resolve_execution_context p.action_type accounts sources
      pub available : is_unavailable c.mode ≡ false
      pub context : execution_context_hash B c ≡ d.execution_context_hash

    pub validate_approval_ok :
        (d : Displayed) {c : ExecutionContext}
        → validate_approval B p user_id accounts sources now d ≡ ok c
        → ApprovalChecks d c
    unfolding validate_approval
    validate_approval_ok d h = ground arith

    pub record ExecutionChecks (c : ExecutionContext) : Type 0 where
      pub common : validate_common B p user_id now ≡ ok tt
      pub is_approved_now : is_approved p.status ≡ true
      pub json : Payload
      pub binding : String
      pub approved_at : ℕ
      pub mode : ExecutionMode
      pub provider : String
      pub context_hash : String
      pub action_type : p.approved_action_type ≡ some p.action_type
      pub version : p.approved_version ≡ some p.version
      pub payload_hash : p.approved_payload_hash ≡ some p.payload_hash
      pub payload_json : p.approved_payload_json ≡ some json
      pub same_payload : canonical_payload B p.action_type json ≡ some p.payload_json
      pub has_binding : p.approved_binding_hash ≡ some binding
      pub bound :
          approval_binding_hash B p.action_type p.payload_json p.version context_hash ≡ some binding
      pub has_mode : p.approved_execution_mode ≡ some mode
      pub has_provider : p.approved_provider ≡ some provider
      pub has_hash : p.approved_execution_context_hash ≡ some context_hash
      pub snapshot : execution_context_hash B (approved_context p mode provider) ≡ context_hash
      pub approved : p.approved_at ≡ some approved_at
      pub fresh : edited_after p.user_edited_at approved_at ≡ false
      pub current : c ≡ resolve_execution_context p.action_type accounts sources
      pub unchanged : execution_context_hash B c ≡ context_hash

    -- The columns of the snapshot are filled.
    filled :
        {c : ExecutionContext}
        → validate_execution B p user_id accounts sources now ≡ ok c
        → (p.approved_payload_json ≢ none)
          × (p.approved_binding_hash ≢ none)
          × (p.approved_at ≢ none)
          × (p.approved_execution_mode ≢ none)
          × (p.approved_provider ≢ none)
          × (p.approved_execution_context_hash ≢ none)
    unfolding validate_execution
    filled h = ground arith

    pub validate_execution_ok :
        {c : ExecutionContext}
        → validate_execution B p user_id accounts sources now ≡ ok c
        → ExecutionChecks c
    unfolding validate_execution
    validate_execution_ok {c} h =
        let (n1, n2, n3, n4, n5, n6) = filled h in
        let (json, e1) = is_some p.approved_payload_json n1 in
        let (binding, e2) = is_some p.approved_binding_hash n2 in
        let (approved_at, e3) = is_some p.approved_at n3 in
        let (mode, e4) = is_some p.approved_execution_mode n4 in
        let (provider, e5) = is_some p.approved_provider n5 in
        let (context_hash, e6) = is_some p.approved_execution_context_hash n6 in
        record {
          common = ground arith;
          is_approved_now = ground arith;
          json = json;
          binding = binding;
          approved_at = approved_at;
          mode = mode;
          provider = provider;
          context_hash = context_hash;
          action_type = ground arith;
          version = ground arith;
          payload_hash = ground arith;
          payload_json = e1;
          same_payload = ground arith;
          has_binding = e2;
          bound = ground arith;
          has_mode = e4;
          has_provider = e5;
          has_hash = e6;
          snapshot = ground arith;
          approved = e3;
          fresh = ground arith;
          current = ground arith;
          unchanged = ground arith;
        }

    pub validate_execution_pass :
        {c : ExecutionContext}
        → ExecutionChecks c
        → validate_execution B p user_id accounts sources now ≡ ok c
    unfolding validate_execution
    validate_execution_pass {c} k = ground arith
