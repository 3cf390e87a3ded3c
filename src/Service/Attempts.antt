-- ===== src/Service/Attempts.antt =====
-- Histories of requests to `ActionProposalService`, and the registry calls that they make.
use lifeflow.Prelude.{
  ℕ, ◌+◌, ◌≤◌, Bool, true, false, ◌&&◌, ◌≡◌, refl, String, List, [], ◌∷◌, ◌++◌, Option, none, some,
  map, find?, any, arith, ◌==◌, nat_eq, if◌then◌else◌, ◌∙◌, sym, subst,
}
use lifeflow.Models.{ActionType}
use lifeflow.Payloads.{Payload, Boundary}
use lifeflow.Records.{ConnectedAccount, SourceItem, ActionProposal, ActionExecution}
use lifeflow.Policy.{Displayed}
use lifeflow.Outcome.{Result, ok, refused, raised}
use lifeflow.Proposals.{
  AuditEvent, Work, Action, Call, Reply, approve, begin, finish, replay, edit, reject,
}
use lifeflow.Service.{
  Database, get_proposal, get_by_proposal, save, put_execution, add_execution, load, edit_proposal,
  approve_found, approve_proposal, settled, begun, replayed, execute_found, execute_row,
  reject_proposal, expire_due, Moment, execute, sweep, recover_stale_pending_executions,
  accounts_of, evidence_sources, sweep_one, proposal_of, past_cutoff, close, run,
}

-- What can happen to the database, one request or job at a time. The owner's accounts and the
-- synced evidence change arbitrarily in between.
pub data Request : Type 0 where
  edits : ℕ → ℕ → ℕ → ℕ → ActionType → Payload → Request
  approves : ℕ → ℕ → ℕ → Displayed → Request
  rejects : ℕ → ℕ → ℕ → ℕ → Option String → Request
  executes : ℕ → Moment → (Call → Reply) → ℕ → Request
  expires : ℕ → ℕ → Request
  recovers : ℕ → Request
  syncs : List ConnectedAccount → List SourceItem → Request

module _ (B : Boundary) where
  unfoldable pub serve : Request → Database → Database × List Call
  serve (edits user now id version t payload) db =
      ((edit_proposal B user now id version t payload db).1, [])
  serve (approves user now id d) db = ((approve_proposal B user now id d db).1, [])
  serve (rejects user now id version reason) db =
      ((reject_proposal B user now id version reason db).1, [])
  serve (executes user m registry id) db =
      ((execute B user m registry id db).db, (execute B user m registry id db).calls)
  serve (expires user now) db = ((expire_due user now db).1, [])
  serve (recovers now) db = ((recover_stale_pending_executions now db).1, [])
  serve (syncs accounts sources) db = (record db { accounts = accounts; sources = sources }, [])

  -- A history, and the calls made of executors in it.
  unfoldable pub serve_all : List Request → Database → Database × List Call
  serve_all [] db = (db, [])
  serve_all (r ∷ rs) db =
      let (db', calls) = serve r db in let (db'', more) = serve_all rs db' in (db'', calls ++ more)

abbrev pub bit : Bool → ℕ
bit true = 1
bit false = 0

-- The calls that are about one proposal.
abbrev pub calls_for : ℕ → List Call → ℕ
calls_for id [] = 0
calls_for id (c ∷ cs) = bit (c.proposal_id == id) + calls_for id cs

abbrev pub attempted_in : ℕ → List ActionExecution → Bool
attempted_in id = any (λ e. e.proposal_id == id)

abbrev pub attempted : ℕ → Database → Bool
attempted id db = attempted_in id db.executions

get_by_proposal-none :
    (id : ℕ) (es : List ActionExecution)
    → find? (λ e. e.proposal_id == id) es ≡ none
    → attempted_in id es ≡ false
get_by_proposal-none id [] h = refl
get_by_proposal-none id (e ∷ es) h = ground (arith, get_by_proposal-none id es)

put-attempted :
    (id : ℕ) (e : ActionExecution) (es : List ActionExecution)
    → attempted_in id (map (λ x. if x.proposal_id == e.proposal_id then e else x) es)
      ≡ attempted_in id es
put-attempted id e [] = refl
put-attempted id e (x ∷ es) = ground (arith, put-attempted id e es)

sweep-attempted :
    (id now : ℕ) (ps : List ActionProposal) (es : List ActionExecution) (audit : List AuditEvent)
    → attempted_in id (sweep now ps es audit).0 ≡ attempted_in id es
unfolding sweep
sweep-attempted id now ps [] audit = refl
sweep-attempted id now ps (e ∷ es) audit = ground (
  arith,
  sweep-attempted id now ps es (sweep_one (proposal_of ps e) (past_cutoff now e) e audit).1,
)

find-id :
    (user id : ℕ) (ps : List ActionProposal) {p : ActionProposal}
    → find? (λ p. p.id == id && p.user_id == user) ps ≡ some p
    → p.id ≡ id
find-id user id [] h = cc
find-id user id (q ∷ ps) {p} h = ground (arith, find-id user id ps {p = p})

get_proposal-id :
    (user id : ℕ) (db : Database) {p : ActionProposal}
    → get_proposal user id db ≡ some p
    → p.id ≡ id
unfolding get_proposal
get_proposal-id user id db h = find-id user id db.proposals h

-- A begun attempt is the proposal's own.
begin-ids :
    (B : Boundary) (user now id started_at : ℕ) (accounts : List ConnectedAccount)
    (sources : List SourceItem) (w : Work) {e : ActionExecution} {c : Call}
    → (begin user B now id started_at accounts sources w).0 ≡ ok (e, c)
    → (e.proposal_id ≡ w.proposal.id) × (c.proposal_id ≡ w.proposal.id)
unfolding begin
begin-ids B user now id started_at accounts sources w h = ground arith

-- A finished attempt keeps its proposal.
finish-ids :
    (user at' : ℕ) (e : ActionExecution) (r : Reply) (w : Work) {e' : ActionExecution}
    → (finish user at' e r w).0 ≡ ok e'
    → e'.proposal_id ≡ e.proposal_id
unfolding finish
finish-ids user at' e r w h = ground arith

close-executions :
    {A : Type 0} (r : Result A) (w : Work) (db : Database)
    → (close r w db).1.executions ≡ db.executions
unfolding save
close-executions (ok a) w db = refl
close-executions (refused c) w db = refl
close-executions raised w db = refl

run-executions :
    {A : Type 0} (m : Action A) (o : Option ActionProposal) (db : Database)
    → (run m o db).1.executions ≡ db.executions
run-executions m none db = refl
run-executions m (some p) db = close-executions (m (load p db)).0 (m (load p db)).1 db

module _ (B : Boundary) (user : ℕ) where
  approve_found-executions :
      (now : ℕ) (d : Displayed) (o : Option ActionProposal) (db : Database)
      → (approve_found B user now d o db).1.executions ≡ db.executions
  approve_found-executions now d none db = refl
  approve_found-executions now d (some p) db =
      run-executions (approve user B now (accounts_of user db) (evidence_sources user p db) d)
        (some p) db

  module _ (m : Moment) (registry : Call → Reply) (pid : ℕ) where
    -- The calls of a step are paid for by an attempt that it adds.
    abbrev Paid : Database → Database → List Call → Type 0
    Paid before after calls =
        calls_for pid calls + bit (attempted pid before) ≤ bit (attempted pid after)

    settled_ok-Paid :
        (call : Call) (e e' : ActionExecution) (w w' : Work) (db : Database)
        → call.proposal_id ≡ e.proposal_id
        → (e.proposal_id ≡ pid → attempted pid db ≡ false)
        → let x = settled B user m registry call (ok e') w' (add_execution e (save w db)) in
          Paid db x.db x.calls
    unfolding save add_execution put_execution
    settled_ok-Paid call e e' w w' db c fresh =
        rw (put-attempted pid e' (e ∷ db.executions)) (ground arith)

    settled-Paid :
        (call : Call) (e : ActionExecution) (r : Result ActionExecution) (w w' : Work)
        (db : Database)
        → call.proposal_id ≡ e.proposal_id
        → (e.proposal_id ≡ pid → attempted pid db ≡ false)
        → let x = settled B user m registry call r w' (add_execution e (save w db)) in
          Paid db x.db x.calls
    unfolding save add_execution
    settled-Paid call e (ok e') w w' db c fresh = settled_ok-Paid call e e' w w' db c fresh
    settled-Paid call e (refused code) w w' db c fresh = ground arith
    settled-Paid call e raised w w' db c fresh = ground arith

    begun-Paid :
        (r : Result (ActionExecution × Call)) (w : Work) (db : Database)
        → ((e : ActionExecution) (c : Call)
            → r ≡ ok (e, c)
            → (c.proposal_id ≡ e.proposal_id) × (e.proposal_id ≡ pid → attempted pid db ≡ false))
        → let x = begun B user m registry r w db in Paid db x.db x.calls
    unfolding save
    begun-Paid (ok (e, c)) w db h =
        let (same, fresh) = h e c refl in
        let (r, w') = finish user m.completed_at e (registry c) w in
        settled-Paid c e r w w' db same fresh
    begun-Paid (refused code) w db h = omega arith
    begun-Paid raised w db h = omega arith

    replayed-Paid :
        (r : Result ActionExecution) (w : Work) (db : Database)
        → let x = replayed B user m registry r w db in Paid db x.db x.calls
    unfolding save put_execution
    replayed-Paid (ok e) w db = rw (put-attempted pid e db.executions) (omega arith)
    replayed-Paid (refused code) w db = omega arith
    replayed-Paid raised w db = omega arith

    execute_found-Paid :
        (o : Option ActionExecution) (p : ActionProposal) (db : Database)
        → get_by_proposal p.id db ≡ o
        → let x = execute_found B user m registry o p db in Paid db x.db x.calls
    unfolding get_by_proposal
    execute_found-Paid (some e) p db found =
        replayed-Paid (replay user m.now e (load p db)).0 (replay user m.now e (load p db)).1 db
    execute_found-Paid none p db found =
        let accounts = accounts_of user db in
        let sources = evidence_sources user p db in
        let (r, w) = begin user B m.now m.execution_id m.started_at accounts sources (load p db) in
        begun-Paid r w db λ e c h.
          let (e_id, c_id) =
            begin-ids B user m.now m.execution_id m.started_at accounts sources (load p db) h in
          (
            c_id ∙ sym e_id,
            λ same.
                subst (λ i. attempted i db ≡ false) (sym e_id ∙ same)
                  (get_by_proposal-none p.id db.executions found),
          )

    execute_row-Paid :
        (o : Option ActionProposal) (db : Database)
        → let x = execute_row B user m registry o db in Paid db x.db x.calls
    execute_row-Paid none db = omega arith
    execute_row-Paid (some p) db = execute_found-Paid (get_by_proposal p.id db) p db refl

    execute-Paid :
        (id : ℕ) (db : Database) → let x = execute B user m registry id db in Paid db x.db x.calls
    unfolding execute
    execute-Paid id db = execute_row-Paid (get_proposal user id db) db

module _ (B : Boundary) where
  pub serve-Paid :
      (pid : ℕ) (r : Request) (db : Database)
      → let (db', calls) = serve B r db in
        calls_for pid calls + bit (attempted pid db) ≤ bit (attempted pid db')
  unfolding serve edit_proposal approve_proposal reject_proposal expire_due
      recover_stale_pending_executions
  serve-Paid pid (edits user now id version t payload) db =
      rw (run-executions (edit user B now version t payload) (get_proposal user id db) db)
        (omega arith)
  serve-Paid pid (approves user now id d) db =
      rw (approve_found-executions B user now d (get_proposal user id db) db) (omega arith)
  serve-Paid pid (rejects user now id version reason) db =
      rw (run-executions (reject user B now version reason) (get_proposal user id db) db)
        (omega arith)
  serve-Paid pid (executes user m registry id) db = execute-Paid B user m registry pid id db
  serve-Paid pid (expires user now) db = omega arith
  serve-Paid pid (recovers now) db =
      rw (sweep-attempted pid now db.proposals db.executions db.audit) (omega arith)
  serve-Paid pid (syncs accounts sources) db = omega arith

  calls_for-append :
      (pid : ℕ) (cs ds : List Call) → calls_for pid (cs ++ ds) ≡ calls_for pid cs + calls_for pid ds
  calls_for-append pid [] ds = omega arith
  calls_for-append pid (c ∷ cs) ds = omega (arith, calls_for-append pid cs ds)

  serve_all-Paid :
      (pid : ℕ) (rs : List Request) (db : Database)
      → let (db', calls) = serve_all B rs db in
        calls_for pid calls + bit (attempted pid db) ≤ bit (attempted pid db')
  unfolding serve_all
  serve_all-Paid pid [] db = omega arith
  serve_all-Paid pid (r ∷ rs) db =
      let (db', calls) = serve B r db in
      omega (
        arith,
        calls_for-append pid calls (serve_all B rs db').1,
        serve-Paid pid r db,
        serve_all-Paid pid rs db',
      )

  bit-le-one : (b : Bool) → bit b ≤ 1
  bit-le-one true = omega arith
  bit-le-one false = omega arith

  -- Over any list of requests, from any database, the registries are called at most once for a
  -- proposal, and not at all when the database starts with an attempt for it.
  pub serve_all-calls :
      (pid : ℕ) (rs : List Request) (db : Database)
      → calls_for pid (serve_all B rs db).1 + bit (attempted pid db) ≤ 1
  serve_all-calls pid rs db =
      omega (arith, serve_all-Paid pid rs db, bit-le-one (attempted pid (serve_all B rs db).0))
