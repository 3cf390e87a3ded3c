-- ===== src/Service/Validity.antt =====
-- The requests to `ActionProposalService` against the invariant of the rows.
use lifeflow.Prelude.{
  ℕ, ◌≤◌, Bool, ◌&&◌, ◌≡◌, refl, List, [], ◌∷◌, Option, none, some, map, find?, arith, ◌==◌, nat_eq,
  if◌then◌else◌, Option-cases, inl, inr, Bool-cases, if-cases, subst,
}
use mathlib.Core.Option.{some-injective}
use lifeflow.Payloads.{Boundary}
use lifeflow.Records.{ActionProposal, ActionExecution}
use lifeflow.Policy.{Displayed}
use lifeflow.Outcome.{Result, ok, refused, raised}
use lifeflow.Proposals.{
  AuditEvent, Work, Action, Call, Reply, is_due, edit, approve, reject, begin, finish, replay,
}
use lifeflow.Proposals.Invariant.{IsValid}
use lifeflow.Proposals.Keeps.{
  edit-IsValid, reject-IsValid, approve-IsValid, begin-IsValid, finish-IsValid, later-IsValid,
  expired_row-IsValid,
}
use lifeflow.Service.{
  Database, get_proposal, get_by_proposal, save, put_execution, add_execution, load, run, close,
  edit_proposal, approve_found, approve_proposal, reject_proposal, expire_all, expire_due, Moment,
  execute, execute_row, execute_found, begun, settled, replayed, recover_stale_pending_executions,
  accounts_of, evidence_sources,
}
use lifeflow.Service.Attempts.{
  Request, edits, approves, rejects, executes, expires, recovers, syncs, serve,
}

module _ (B : Boundary) where
  abbrev pub AllValid : ℕ → List ActionProposal → Type 0
  AllValid now [] = Unit
  AllValid now (p ∷ ps) = IsValid B now p × AllValid now ps

  pub find-IsValid :
      (now : ℕ) (test : ActionProposal → Bool) (ps : List ActionProposal) {p : ActionProposal}
      → AllValid now ps
      → find? test ps ≡ some p
      → IsValid B now p
  find-IsValid now test [] v h = cc
  find-IsValid now test (q ∷ ps) {p} (v, vs) h = elim (Bool-cases (test q)) [
    | inl e ↦ subst (IsValid B now) (some-injective _ _ (rw e at h)) v
    | inr e ↦ find-IsValid now test ps vs (rw e at h)
  ]

  module _ (user_id before now : ℕ) (le : before ≤ now) where
    all_later : (ps : List ActionProposal) → AllValid before ps → AllValid now ps
    all_later [] v = tt
    all_later (p ∷ ps) (v, vs) = (later-IsValid B user_id before now le p v, all_later ps vs)

    save-AllValid :
        (q : ActionProposal) (ps : List ActionProposal)
        → IsValid B now q
        → AllValid before ps
        → AllValid now (map (λ p. if p.id == q.id then q else p) ps)
    save-AllValid q [] vq v = tt
    save-AllValid q (p ∷ ps) vq (v, vs) = (
      if-cases (IsValid B now) (p.id == q.id) (λ _. vq)
          (λ _. later-IsValid B user_id before now le p v),
      save-AllValid q ps vq vs,
    )

    -- A request that ends in any way leaves valid rows, if the call on the locked row does.
    close-AllValid :
        {A : Type 0} (r : Result A) (w : Work) (db : Database)
        → IsValid B now w.proposal
        → AllValid before db.proposals
        → AllValid now (close r w db).1.proposals
    unfolding save
    close-AllValid (ok a) w db vw v = save-AllValid w.proposal db.proposals vw v
    close-AllValid (refused c) w db vw v = save-AllValid w.proposal db.proposals vw v
    close-AllValid raised w db vw v = all_later db.proposals v

    run-AllValid :
        {A : Type 0} (m : Action A) (test : ActionProposal → Bool) (db : Database)
        → ((w : Work) → IsValid B before w.proposal → IsValid B now (m w).1.proposal)
        → AllValid before db.proposals
        → AllValid now (run m (find? test db.proposals) db).1.proposals
    run-AllValid m test db keeps v = elim (Option-cases (find? test db.proposals)) [
      | inl e ↦ rw e (all_later db.proposals v)
      | inr (p, e) ↦ rw e (
          close-AllValid (m (load p db)).0 (m (load p db)).1 db
            (keeps (load p db) (find-IsValid before test db.proposals v e)) v)
    ]

    expire_all-AllValid :
        (ps : List ActionProposal) (audit : List AuditEvent)
        → AllValid before ps
        → AllValid now (expire_all user_id now ps audit).0
    unfolding expire_all
    expire_all-AllValid [] audit v = tt
    expire_all-AllValid (p ∷ ps) audit (v, vs) = (
      if-cases (IsValid B now) (p.user_id == user_id && is_due user_id now p)
          (λ _. expired_row-IsValid B user_id before now le p v)
          (λ _. later-IsValid B user_id before now le p v),
      expire_all-AllValid ps _ vs,
    )

    approve_found-AllValid :
        (d : Displayed) (db : Database) (o : Option ActionProposal)
        → ((p : ActionProposal) → o ≡ some p → IsValid B before p)
        → AllValid before db.proposals
        → AllValid now (approve_found B user_id now d o db).1.proposals
    approve_found-AllValid d db none vp v = all_later db.proposals v
    approve_found-AllValid d db (some p) vp v =
        let accounts = accounts_of user_id db in
        let sources = evidence_sources user_id p db in
        let (r, w) = approve user_id B now accounts sources d (load p db) in
        close-AllValid r w db
          (approve-IsValid B user_id before now le accounts sources d (load p db) (vp p refl)) v

  module _ (user_id : ℕ) (m : Moment) (registry : Call → Reply) where
    settled-AllValid :
        (call : Call) (r : Result ActionExecution) (w' : Work) (db : Database)
        → IsValid B m.now w'.proposal
        → AllValid m.now db.proposals
        → AllValid m.now (settled B user_id m registry call r w' db).db.proposals
    unfolding save put_execution
    settled-AllValid call (ok e) w' db vw v =
        save-AllValid user_id m.now m.now (omega arith) w'.proposal db.proposals vw v
    settled-AllValid call (refused c) w' db vw v =
        save-AllValid user_id m.now m.now (omega arith) w'.proposal db.proposals vw v
    settled-AllValid call raised w' db vw v = v

    module _ (before : ℕ) (le : before ≤ m.now) where
      begun-AllValid :
          (r : Result (ActionExecution × Call)) (w : Work) (db : Database)
          → IsValid B m.now w.proposal
          → AllValid before db.proposals
          → AllValid m.now (begun B user_id m registry r w db).db.proposals
      unfolding save add_execution
      begun-AllValid (ok (e, call)) w db vw v =
          let (r, w') = finish user_id m.completed_at e (registry call) w in
          settled-AllValid call r w' (add_execution e (save w db))
            (finish-IsValid B user_id m.now m.now (omega arith) m.completed_at e (registry call) w
              vw)
            (save-AllValid user_id before m.now le w.proposal db.proposals vw v)
      begun-AllValid (refused c) w db vw v =
          save-AllValid user_id before m.now le w.proposal db.proposals vw v
      begun-AllValid raised w db vw v = all_later user_id before m.now le db.proposals v

      replayed-AllValid :
          (r : Result ActionExecution) (w : Work) (db : Database)
          → IsValid B m.now w.proposal
          → AllValid before db.proposals
          → AllValid m.now (replayed B user_id m registry r w db).db.proposals
      unfolding save put_execution
      replayed-AllValid (ok e) w db vw v =
          save-AllValid user_id before m.now le w.proposal db.proposals vw v
      replayed-AllValid (refused c) w db vw v =
          save-AllValid user_id before m.now le w.proposal db.proposals vw v
      replayed-AllValid raised w db vw v = all_later user_id before m.now le db.proposals v

      replay-proposal :
          (e : ActionExecution) (w : Work) → (replay user_id m.now e w).1.proposal ≡ w.proposal
      unfolding replay
      replay-proposal e w = ground arith

      execute_found-AllValid :
          (o : Option ActionExecution) (p : ActionProposal) (db : Database)
          → IsValid B before p
          → AllValid before db.proposals
          → AllValid m.now (execute_found B user_id m registry o p db).db.proposals
      execute_found-AllValid (some e) p db vp v =
          let (r, w) = replay user_id m.now e (load p db) in
          replayed-AllValid r w db
            (rw (replay-proposal e (load p db)) (later-IsValid B user_id before m.now le p vp)) v
      execute_found-AllValid none p db vp v =
          let accounts = accounts_of user_id db in
          let sources = evidence_sources user_id p db in
          let (r, w) =
            begin user_id B m.now m.execution_id m.started_at accounts sources (load p db) in
          begun-AllValid r w db
            (begin-IsValid B user_id before m.now le m.execution_id m.started_at accounts sources
              (load p db) vp)
            v

      execute_row-AllValid :
          (db : Database) (o : Option ActionProposal)
          → ((p : ActionProposal) → o ≡ some p → IsValid B before p)
          → AllValid before db.proposals
          → AllValid m.now (execute_row B user_id m registry o db).db.proposals
      execute_row-AllValid db none vp v = all_later user_id before m.now le db.proposals v
      execute_row-AllValid db (some p) vp v =
          execute_found-AllValid (get_by_proposal p.id db) p db (vp p refl) v

  -- The clock after a request: the time that it reads, if it reads one.
  abbrev pub clock : ℕ → Request → ℕ
  clock before (edits user now id version t payload) = now
  clock before (approves user now id d) = now
  clock before (rejects user now id version reason) = now
  clock before (executes user m registry id) = m.now
  clock before (expires user now) = now
  clock before (recovers now) = before
  clock before (syncs accounts sources) = before

  -- When every proposal of the database is valid at a clock, then after any one request, whose
  -- clock has not gone back, every proposal is valid at the request's clock.
  pub serve-AllValid :
      (before : ℕ) (r : Request) (db : Database)
      → before ≤ clock before r
      → AllValid before db.proposals
      → AllValid (clock before r) (serve B r db).0.proposals
  unfolding serve edit_proposal approve_proposal reject_proposal expire_due execute
      recover_stale_pending_executions get_proposal
  serve-AllValid before (edits user now id version t payload) db le v =
      run-AllValid user before now le (edit user B now version t payload) _ db
        (λ w. edit-IsValid B user before now le version t payload w) v
  serve-AllValid before (approves user now id d) db le v =
      approve_found-AllValid user before now le d db (get_proposal user id db)
        (λ p e. find-IsValid before _ db.proposals v e) v
  serve-AllValid before (rejects user now id version reason) db le v =
      run-AllValid user before now le (reject user B now version reason) _ db
        (λ w. reject-IsValid B user before now le version reason w) v
  serve-AllValid before (executes user m registry id) db le v =
      execute_row-AllValid user m registry before le db (get_proposal user id db)
        (λ p e. find-IsValid before _ db.proposals v e) v
  serve-AllValid before (expires user now) db le v =
      expire_all-AllValid user before now le db.proposals db.audit v
  serve-AllValid before (recovers now) db le v = v
  serve-AllValid before (syncs accounts sources) db le v = v
