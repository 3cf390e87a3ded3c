-- ===== src/Service.antt =====
-- `ActionProposalService` over the database: each public method as one request, and the sweep that
-- recovers attempts nobody revisits.
pub mod Attempts
pub mod Validity
pub mod Sweep
use lifeflow.Prelude.{
  ℕ, ◌+◌, ◌-◌, Bool, true, false, ◌&&◌, String, List, [], ◌∷◌, ◌++◌, Option, none, some, map, find?,
  select, contains, leb, ltb, ◌==◌, nat_eq, string_eq, if◌then◌else◌,
}
use lifeflow.Models.{ActionType, is_open, is_pending, ProposalStatus}
use lifeflow.Payloads.{Payload, Boundary}
use lifeflow.Records.{ConnectedAccount, SourceItem, ActionProposal, ActionExecution}
use lifeflow.Policy.{Displayed}
use lifeflow.Outcome.{Code, Result, ok, refused, raised, not_found}
use lifeflow.Proposals.{
  AuditEvent, system, kind, number, text, Work, Action, edit, approve, reject, is_due, mark_expired,
  replay, begin, finish, Call, Reply, stale_pending_age, mark_uncertain,
}

pub record Database : Type 0 where
  pub proposals : List ActionProposal
  pub executions : List ActionExecution
  pub accounts : List ConnectedAccount
  pub sources : List SourceItem
  pub audit : List AuditEvent

-- `ActionProposalRepository.get`
unfoldable pub get_proposal : ℕ → ℕ → Database → Option ActionProposal
get_proposal user_id id db = find? (λ p. p.id == id && p.user_id == user_id) db.proposals

-- `ActionExecutionRepository.get_by_proposal`; the owner was checked when the proposal was read.
unfoldable pub get_by_proposal : ℕ → Database → Option ActionExecution
get_by_proposal proposal_id db = find? (λ e. e.proposal_id == proposal_id) db.executions

-- The row is flushed under its primary key, with the audit events of the call.
unfoldable pub save : Work → Database → Database
save w db = record db {
  proposals = map (λ p. if p.id == w.proposal.id then w.proposal else p) db.proposals;
  audit = w.audit;
}

-- `uq_action_executions_proposal` makes the proposal's id a key of the table.
unfoldable pub put_execution : ActionExecution → Database → Database
put_execution e db = record db {
  executions = map (λ x. if x.proposal_id == e.proposal_id then e else x) db.executions;
}

unfoldable pub add_execution : ActionExecution → Database → Database
add_execution e db = record db { executions = e ∷ db.executions }

abbrev pub load : ActionProposal → Database → Work
load p db = record { proposal = p; audit = db.audit }

-- How a request ends: a refusal is answered with what was written so far, which is committed; any
-- other exception rolls the request's transaction back.
abbrev pub close : {A : Type 0} → Result A → Work → Database → Result A × Database
close (ok a) w db = (ok a, save w db)
close (refused c) w db = (refused c, save w db)
close raised w db = (raised, db)

abbrev pub run : {A : Type 0} → Action A → Option ActionProposal → Database → Result A × Database
run m none db = (refused not_found, db)
run m (some p) db = let (r, w) = m (load p db) in close r w db

-- What the clock and the database supply to one execution.
pub record Moment : Type 0 where
  pub now : ℕ
  pub completed_at : ℕ
  pub execution_id : ℕ
  pub started_at : ℕ

pub record Executed : Type 0 where
  pub result : Result ActionExecution
  pub db : Database
  pub calls : List Call

module _ (user_id : ℕ) where
  -- `ConnectedAccountRepository.list`
  unfoldable pub accounts_of : Database → List ConnectedAccount
  accounts_of db = select (λ a. a.user_id == user_id) db.accounts

  -- `SourceItemRepository.list_by_external_ids` at the proposal's references
  unfoldable pub evidence_sources : ActionProposal → Database → List SourceItem
  evidence_sources p db =
      select (λ s. s.user_id == user_id && contains p.source_refs s.external_id) db.sources

  -- `expire_due`: every due proposal of the user, in one pass.
  unfoldable pub expire_all :
      ℕ → List ActionProposal → List AuditEvent → List ActionProposal × List AuditEvent × ℕ
  expire_all now [] audit = ([], audit, 0)
  expire_all now (p ∷ ps) audit =
      let due = p.user_id == user_id && is_due user_id now p in
      let w = mark_expired user_id (system "proposal") (record { proposal = p; audit = audit }) in
      let (rest, audit', n) = expire_all now ps (if due then w.audit else audit) in
      ((if due then w.proposal else p) ∷ rest, audit', if due then n + 1 else n)

  unfoldable pub expire_due : ℕ → Database → ℕ × Database
  expire_due now db =
      let (ps, audit, n) = expire_all now db.proposals db.audit in
      (n, record db { proposals = ps; audit = audit })

module _ (B : Boundary) (user_id : ℕ) where
  unfoldable pub edit_proposal :
      ℕ → ℕ → ℕ → ActionType → Payload → Database → Result (Unit {0}) × Database
  edit_proposal now id expected_version action_type payload db =
      run (edit user_id B now expected_version action_type payload) (get_proposal user_id id db) db

  abbrev approve_found :
      ℕ → Displayed → Option ActionProposal → Database → Result (Unit {0}) × Database
  approve_found now displayed none db = (refused not_found, db)
  approve_found now displayed (some p) db =
      run (approve user_id B now (accounts_of user_id db) (evidence_sources user_id p db) displayed)
        (some p) db

  unfoldable pub approve_proposal : ℕ → ℕ → Displayed → Database → Result (Unit {0}) × Database
  approve_proposal now id displayed db = approve_found now displayed (get_proposal user_id id db) db

  unfoldable pub reject_proposal :
      ℕ → ℕ → ℕ → Option String → Database → Result (Unit {0}) × Database
  reject_proposal now id expected_version reason db =
      run (reject user_id B now expected_version reason) (get_proposal user_id id db) db

  module _ (m : Moment) (registry : Call → Reply) where
    abbrev replayed : Result ActionExecution → Work → Database → Executed
    replayed (ok e) w db = record { result = ok e; db = put_execution e (save w db); calls = [] }
    replayed (refused c) w db = record { result = refused c; db = save w db; calls = [] }
    replayed raised w db = record { result = raised; db = db; calls = [] }

    -- The pending attempt is committed before the call, so an exception does not undo it.
    abbrev settled : Call → Result ActionExecution → Work → Database → Executed
    settled call (ok e) w db = record {
      result = ok e;
      db = put_execution e (save w db);
      calls = call ∷ [];
    }
    settled call (refused c) w db = record { result = refused c; db = save w db; calls = call ∷ [] }
    settled call raised w db = record { result = raised; db = db; calls = call ∷ [] }

    abbrev begun : Result (ActionExecution × Call) → Work → Database → Executed
    begun (ok (e, call)) w db =
        let (r, w') = finish user_id m.completed_at e (registry call) w in
        settled call r w' (add_execution e (save w db))
    begun (refused c) w db = record { result = refused c; db = save w db; calls = [] }
    begun raised w db = record { result = raised; db = db; calls = [] }

    abbrev execute_found : Option ActionExecution → ActionProposal → Database → Executed
    execute_found (some e) p db = let (r, w) = replay user_id m.now e (load p db) in replayed r w db
    execute_found none p db =
        let (r, w) =
          begin user_id B m.now m.execution_id m.started_at (accounts_of user_id db)
            (evidence_sources user_id p db) (load p db) in
        begun r w db

    abbrev execute_row : Option ActionProposal → Database → Executed
    execute_row none db = record { result = refused not_found; db = db; calls = [] }
    execute_row (some p) db = execute_found (get_by_proposal p.id db) p db

    unfoldable pub execute : ℕ → Database → Executed
    execute id db = execute_row (get_proposal user_id id db) db

-- `recover_stale_pending_executions`. An attempt with no proposal is not joined.
abbrev pub proposal_of : List ActionProposal → ActionExecution → Option ActionProposal
proposal_of proposals e = find? (λ p. p.id == e.proposal_id) proposals

-- `started_at < now - STALE_PENDING_AGE`
unfoldable pub past_cutoff : ℕ → ActionExecution → Bool
past_cutoff now e = is_pending e.outcome && ltb e.started_at (now - stale_pending_age)

abbrev pub swept_event : ActionExecution → ActionProposal → AuditEvent
swept_event e p = record {
  user_id = p.user_id;
  actor = system "executor";
  event_type = "execution.uncertain";
  entity_id = p.id;
  metadata =
      ("action_type", kind p.action_type)
      ∷ ("execution_id", number e.id)
      ∷ ("reason_code", text "stale_pending_attempt")
      ∷ [];
}

abbrev pub sweep_one :
    Option ActionProposal
    → Bool
    → ActionExecution
    → List AuditEvent
    → ActionExecution × List AuditEvent × ℕ
sweep_one none stale e audit = (e, audit, 0)
sweep_one (some p) stale e audit = (
  if stale then mark_uncertain e else e,
  if stale then audit ++ (swept_event e p ∷ []) else audit,
  if stale then 1 else 0,
)

unfoldable pub sweep :
    ℕ
    → List ActionProposal
    → List ActionExecution
    → List AuditEvent
    → List ActionExecution × List AuditEvent × ℕ
sweep now proposals [] audit = ([], audit, 0)
sweep now proposals (e ∷ es) audit =
    let (e', audit', k) = sweep_one (proposal_of proposals e) (past_cutoff now e) e audit in
    let (es', audit'', n) = sweep now proposals es audit' in (e' ∷ es', audit'', k + n)

unfoldable pub recover_stale_pending_executions : ℕ → Database → ℕ × Database
recover_stale_pending_executions now db =
    let (es, audit, n) = sweep now db.proposals db.executions db.audit in
    (n, record db { executions = es; audit = audit })
