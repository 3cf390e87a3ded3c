-- ===== src/Tests/Requests.antt =====
-- Histories of requests over one draft.
use lifeflow.Prelude.{◌+◌, ◌≤◌, ◌≡◌, List, [], ◌∷◌, arith, map, nat_eq}
use lifeflow.Proposals.{Call, Reply, uncertain}
use lifeflow.Service.{Database, Moment, recover_stale_pending_executions}
use lifeflow.Service.Attempts.{
  Request, approves, executes, bit, calls_for, attempted, serve, serve_all, serve_all-calls,
}
use lifeflow.Service.Validity.{AllValid, serve-AllValid}
use lifeflow.Service.Sweep.{resolved, count_stale, recover_lem, recover_twice}
use lifeflow.Tests.Data.{boundary, displayed, database}
use lifeflow.Tests.Approvals.{proposal-IsValid, attempt}

abbrev moment : Moment
moment = record { now = 20; completed_at = 22; execution_id = 50; started_at = 21 }

abbrev registry : Call → Reply
registry _ = uncertain []

abbrev history : List Request
history =
    approves 1 10 7 displayed ∷ executes 1 moment registry 7 ∷ executes 1 moment registry 7 ∷ []

serve_all-calls_example :
    calls_for 7 (serve_all boundary history database).1 + bit (attempted 7 database) ≤ 1
serve_all-calls_example = serve_all-calls boundary 7 history database

serve-AllValid_example :
    AllValid boundary 10 (serve boundary (approves 1 10 7 displayed) database).0.proposals
serve-AllValid_example =
    serve-AllValid boundary 5 (approves 1 10 7 displayed) database (omega arith)
      (proposal-IsValid, tt)

-- A crash between the commit and the executor's answer left the attempt pending.
abbrev crashed_database : Database
crashed_database = record database { executions = attempt ∷ [] }

recover_lem_example :
    let (n, db) = recover_stale_pending_executions 200000000 crashed_database in
    (db.executions ≡ map (resolved 200000000) crashed_database.executions)
    × (n ≡ count_stale 200000000 crashed_database.executions)
    × (db.proposals ≡ crashed_database.proposals)
unfolding nat_eq
recover_lem_example = recover_lem 200000000 crashed_database (λ e. cc, tt)

recover_twice_example :
    let db = (recover_stale_pending_executions 200000000 crashed_database).1 in
    recover_stale_pending_executions 200000000 db ≡ (0, db)
unfolding nat_eq
recover_twice_example = recover_twice 200000000 crashed_database (λ e. cc, tt)
