-- ===== src/Service/Sweep.antt =====
-- `recover_stale_pending_executions` against `effective_execution_status`.
use lifeflow.Prelude.{
  ℕ, ◌+◌, false, ◌≡◌, ◌≢◌, refl, List, [], ◌∷◌, none, map, arith, nat_eq, if◌then◌else◌, is_some,
  subst, sym,
}
use lifeflow.Records.{ActionProposal, ActionExecution}
use lifeflow.Proposals.{AuditEvent, is_stale, effective_execution_status}
use lifeflow.Service.{
  Database, proposal_of, past_cutoff, sweep_one, sweep, recover_stale_pending_executions,
}

-- Every attempt belongs to a proposal (a foreign key).
abbrev pub AllJoined : List ActionProposal → List ActionExecution → Type 0
AllJoined proposals [] = Unit
AllJoined proposals (e ∷ es) = (proposal_of proposals e ≢ none) × AllJoined proposals es

past_cutoff-eq-is_stale : (now : ℕ) (e : ActionExecution) → past_cutoff now e ≡ is_stale now e
unfolding past_cutoff is_stale
past_cutoff-eq-is_stale now e = ground arith

abbrev pub resolved : ℕ → ActionExecution → ActionExecution
resolved now e = record e { outcome = effective_execution_status now e }

abbrev pub count_stale : ℕ → List ActionExecution → ℕ
count_stale now [] = 0
count_stale now (e ∷ es) = (if is_stale now e then 1 else 0) + count_stale now es

module _ (now : ℕ) (proposals : List ActionProposal) where
  sweep_executions :
      (es : List ActionExecution) (audit : List AuditEvent)
      → AllJoined proposals es
      → ((sweep now proposals es audit).0 ≡ map (resolved now) es)
        × ((sweep now proposals es audit).2 ≡ count_stale now es)
  unfolding sweep effective_execution_status
  sweep_executions [] audit j = (refl, refl)
  sweep_executions (e ∷ es) audit (j, js) =
      let (p, found) = is_some (proposal_of proposals e) j in
      let ih =
        sweep_executions es (sweep_one (proposal_of proposals e) (past_cutoff now e) e audit).1
          js in
      ground (arith, past_cutoff-eq-is_stale now e)

  -- A table with no stale attempt.
  abbrev Settled : List ActionExecution → Type 0
  Settled [] = Unit
  Settled (e ∷ es) = (is_stale now e ≡ false) × Settled es

  Settled-resolved : (es : List ActionExecution) → Settled (map (resolved now) es)
  unfolding is_stale effective_execution_status
  Settled-resolved [] = tt
  Settled-resolved (e ∷ es) = (ground arith, Settled-resolved es)

  sweep-Settled :
      (es : List ActionExecution) (audit : List AuditEvent)
      → Settled es
      → sweep now proposals es audit ≡ (es, audit, 0)
  unfolding sweep
  sweep-Settled [] audit s = refl
  sweep-Settled (e ∷ es) audit (s, ss) =
      ground (arith, past_cutoff-eq-is_stale now e, sweep-Settled es audit ss)

-- When every attempt has its proposal, the sweep gives each attempt the outcome that
-- `effective_execution_status` reports at that time, returns the number of stale attempts, and
-- leaves the proposals alone.
pub recover_lem :
    (now : ℕ) (db : Database)
    → AllJoined db.proposals db.executions
    → let (n, db') = recover_stale_pending_executions now db in
      (db'.executions ≡ map (resolved now) db.executions)
      × (n ≡ count_stale now db.executions)
      × (db'.proposals ≡ db.proposals)
unfolding recover_stale_pending_executions
recover_lem now db j =
    let (rows, n) = sweep_executions now db.proposals db.executions db.audit j in (rows, n, refl)

-- When every attempt has its proposal, a second sweep at the same time finds nothing and changes
-- nothing.
pub recover_twice :
    (now : ℕ) (db : Database)
    → AllJoined db.proposals db.executions
    → let db' = (recover_stale_pending_executions now db).1 in
      recover_stale_pending_executions now db' ≡ (0, db')
unfolding recover_stale_pending_executions
recover_twice now db j =
    let (rows, n) = sweep_executions now db.proposals db.executions db.audit j in
    ground (
      arith,
      sweep-Settled now db.proposals (sweep now db.proposals db.executions db.audit).0
          (sweep now db.proposals db.executions db.audit).1
          (subst (Settled now db.proposals) (sym rows)
            (Settled-resolved now db.proposals db.executions)),
    )
