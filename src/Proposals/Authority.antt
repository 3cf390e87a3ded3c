-- ===== src/Proposals/Authority.antt =====
-- What `execute` of action_proposal_service.py hands to a registry, against the approval on the row
-- and the accounts of execution_context.py.
use lifeflow.Prelude.{
  ℕ, ◌<◌, true, false, ◌≡◌, ◌≢◌, refl, sym, ◌∙◌, ap, String, List, none, some, arith,
}
use lifeflow.Models.{ExecutionMode, real, simulation, ExecutionOutcome, is_open}
use lifeflow.Payloads.{Boundary, Document, context_document}
use lifeflow.Payloads.Laws.{parse_action_payload-canonical}
use lifeflow.Records.{ConnectedAccount, SourceItem, ActionProposal, ActionExecution}
use lifeflow.Context.{
  ExecutionContext, resolve_execution_context, execution_context_hash,
  ApprovedExecutionAuthorization,
}
use lifeflow.Context.Provenance.{BoundTo, resolve_real}
use lifeflow.Policy.{validate_execution, approved_context, is_unavailable}
use lifeflow.Policy.Checks.{ExecutionChecks, validate_execution_ok, validate_common_ok}
use lifeflow.Outcome.{ok, is_ok, is_ok-value}
use lifeflow.Proposals.Session.{Work}
use lifeflow.Proposals.Execution.{begin, Call, approved_execution_authorization}

module _ (B : Boundary) (user_id now : ℕ) (accounts : List ConnectedAccount)
    (sources : List SourceItem) (w : Work) where
  -- What a begun execution and its call carry.
  pub record Authorized (e : ActionExecution) (call : Call) (c : ExecutionContext) : Type 0 where
    pub checks : ExecutionChecks B w.proposal user_id accounts sources now c
    pub in_time : now < w.proposal.expires_at
    pub call_type : call.action_type ≡ w.proposal.action_type
    pub call_payload : call.payload ≡ w.proposal.payload_json
    pub call_mode : call.execution_mode ≡ c.mode
    pub runnable : is_unavailable call.execution_mode ≡ false
    pub authorized : approved_execution_authorization w.proposal ≡ some call.authorization
    pub stored_payload : e.executed_payload_json ≡ w.proposal.payload_json
    pub stored_hash : e.executed_payload_hash ≡ w.proposal.payload_hash
    pub stored_version : e.approved_proposal_version ≡ w.proposal.version
    pub stored_outcome : e.outcome ≡ ExecutionOutcome.pending

  begin_passed :
      (id started_at : ℕ) {e : ActionExecution} {call : Call}
      → (begin user_id B now id started_at accounts sources w).0 ≡ ok (e, call)
      → is_ok (validate_execution B w.proposal user_id accounts sources now) ≡ true
  unfolding begin
  begin_passed id started_at h = ground arith

  -- When the part of `execute` before the commit returns an attempt and a call,
  -- `validate_execution` has returned a context for the row at that time and all of its checks
  -- hold; the proposal has not expired; the call carries the row's own action type and payload,
  -- the mode of that context, which is not `unavailable`, and the authorisation of the approval;
  -- and the attempt is pending and records the row's payload, hash and version.
  pub begin-Authorized :
      (id started_at : ℕ) {e : ActionExecution} {call : Call}
      → (begin user_id B now id started_at accounts sources w).0 ≡ ok (e, call)
      → (c : ExecutionContext) × Authorized e call c
  unfolding begin is_open
  begin-Authorized id started_at {e} {call} h =
      let p = w.proposal in
      let (c, passed) =
        is_ok-value (validate_execution B p user_id accounts sources now)
          (begin_passed id started_at h) in
      let k = validate_execution_ok B p user_id accounts sources now passed in
      let again =
        parse_action_payload-canonical B.zone_exists p.action_type k.json {q = p.payload_json}
          k.same_payload in
      let common = validate_common_ok B p user_id now k.common in
      (
        c,
        record {
          checks = k;
          in_time = common.in_time;
          call_type = ground arith;
          call_payload = ground arith;
          call_mode = ground arith;
          runnable = ground arith;
          authorized = ground arith;
          stored_payload = ground arith;
          stored_hash = ground arith;
          stored_version = ground arith;
          stored_outcome = ground arith;
        },
      )

-- The six facts of a context that its hash covers.
abbrev pub hashed_facts : ExecutionContext → Document
hashed_facts c =
    context_document c.mode c.provider c.connected_account_id c.account_authorisation_revision
      c.required_scope c.source_account_id

-- Two contexts that hash alike are alike: what is asked of SHA-256, at these two contexts.
abbrev pub NoCollision : Boundary → ExecutionContext → ExecutionContext → Type 0
NoCollision B c d =
    execution_context_hash B c ≡ execution_context_hash B d → hashed_facts c ≡ hashed_facts d

-- The snapshot of an approval and another context do not collide.
abbrev pub Faithful : Boundary → ActionProposal → ExecutionContext → Type 0
Faithful B p c =
    (mode : ExecutionMode) (provider : String)
    → p.approved_execution_mode ≡ some mode
    → p.approved_provider ≡ some provider
    → NoCollision B (approved_context p mode provider) c

module _ (B : Boundary) (user_id now : ℕ) (accounts : List ConnectedAccount)
    (sources : List SourceItem) (w : Work) where
  authorization_real :
      (c : ExecutionContext) (a : ConnectedAccount) (mode : ExecutionMode)
      (provider scope hash : String)
      → let p = w.proposal in
        p.approved_execution_mode ≡ some mode
        → p.approved_provider ≡ some provider
        → p.approved_execution_context_hash ≡ some hash
        → hashed_facts (approved_context p mode provider) ≡ hashed_facts c
        → c.mode ≡ real
        → c.connected_account_id ≡ some a.id
        → c.account_authorisation_revision ≡ some a.authorisation_revision
        → c.required_scope ≡ some scope
        → approved_execution_authorization p
          ≡ some (
              some (record {
                connected_account_id = a.id;
                provider = c.provider;
                authorisation_revision = a.authorisation_revision;
                required_scope = scope;
                execution_context_hash = hash;
              }))
  unfolding approved_execution_authorization
  authorization_real c a mode provider scope hash e1 e2 e3 same r1 r2 r3 r4 = ground arith

  authorization_simulated :
      (c : ExecutionContext) (mode : ExecutionMode) (provider : String)
      → let p = w.proposal in
        p.approved_execution_mode ≡ some mode
        → hashed_facts (approved_context p mode provider) ≡ hashed_facts c
        → c.mode ≡ simulation
        → approved_execution_authorization p ≡ some none
  unfolding approved_execution_authorization
  authorization_simulated c mode provider e1 same r = ground arith

  -- When that part returns a call in the mode `real`, and the context of the approval and the
  -- context resolved now do not collide under SHA-256, then there is a connected account such that
  -- the context resolved now is bound to it, and the call's authorisation names its identifier,
  -- its present authorisation revision and the scope that the context requires.
  pub begin_bound :
      (id started_at : ℕ) {e : ActionExecution} {call : Call}
      → let current = resolve_execution_context w.proposal.action_type accounts sources in
        Faithful B w.proposal current
        → (begin user_id B now id started_at accounts sources w).0 ≡ ok (e, call)
        → call.execution_mode ≡ real
        → (a : ConnectedAccount) × BoundTo w.proposal.action_type accounts sources current a
          × (auth : ApprovedExecutionAuthorization) × (call.authorization ≡ some auth)
          × (auth.connected_account_id ≡ a.id)
          × (auth.authorisation_revision ≡ a.authorisation_revision)
          × (current.required_scope ≡ some auth.required_scope)
  begin_bound id started_at {e} {call} collide h is_real =
      let p = w.proposal in
      let (c, k) = begin-Authorized B user_id now accounts sources w id started_at h in
      let x = k.checks in
      let real_c : c.mode ≡ real = sym k.call_mode ∙ is_real in
      let (a, bound) =
        resolve_real p.action_type accounts sources
          (ap (λ (d : ExecutionContext). d.mode) (sym x.current) ∙ real_c) in
      let (scope, _, has_scope, _) = bound.scope in
      let same =
        collide x.mode x.provider x.has_mode x.has_provider
          (x.snapshot ∙ sym x.unchanged ∙ ap (execution_context_hash B) x.current) in
      let auth =
        authorization_real (resolve_execution_context p.action_type accounts sources) a x.mode
          x.provider scope x.context_hash x.has_mode x.has_provider x.has_hash same
          (ap (λ (d : ExecutionContext). d.mode) (sym x.current) ∙ real_c) bound.account
          bound.revision has_scope in
      (
        a,
        bound,
        record {
          connected_account_id = a.id;
          provider = (resolve_execution_context p.action_type accounts sources).provider;
          authorisation_revision = a.authorisation_revision;
          required_scope = scope;
          execution_context_hash = x.context_hash;
        },
        ground (arith, k.authorized, auth),
        refl,
        refl,
        has_scope,
      )

  -- When that part returns a call in another mode than `real`, under the same assumption on
  -- SHA-256, the call carries no authorisation.
  pub begin_simulated :
      (id started_at : ℕ) {e : ActionExecution} {call : Call}
      → Faithful B w.proposal (resolve_execution_context w.proposal.action_type accounts sources)
      → (begin user_id B now id started_at accounts sources w).0 ≡ ok (e, call)
      → call.execution_mode ≢ real
      → call.authorization ≡ none
  begin_simulated id started_at {e} {call} collide h not_real =
      let p = w.proposal in
      let (c, k) = begin-Authorized B user_id now accounts sources w id started_at h in
      let x = k.checks in
      let same =
        collide x.mode x.provider x.has_mode x.has_provider
          (x.snapshot ∙ sym x.unchanged ∙ ap (execution_context_hash B) x.current) in
      let simulated : call.execution_mode ≡ simulation = ground (arith, k.runnable) in
      let auth =
        authorization_simulated (resolve_execution_context p.action_type accounts sources) x.mode
          x.provider x.has_mode same
          (ap (λ (d : ExecutionContext). d.mode) (sym x.current) ∙ sym k.call_mode ∙ simulated) in
      ground (arith, k.authorized, auth)
