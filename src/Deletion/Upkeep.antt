-- ===== src/Deletion/Upkeep.antt =====
-- Every row of `data_deletion_operations` through the histories of deletion.py.
use lifeflow.Prelude.{
  ℕ, ◌≤◌, false, ◌≡◌, refl, subst, String, List, [], Option, none, some, find?, arith, nat_eq,
  if-cases, ltb, string_eq, option_eq,
}
use mathlib.Core.Option.{some-injective, none-ne-some}
use lifeflow.Deletion.Operation.{account_deletion, whole_account, DataDeletionOperation}
use lifeflow.Deletion.Batches.{Run, run_batches}
use lifeflow.Deletion.Retention.{
  cutoff, users_with_expired_data, scan_and_create_retention_operations,
}
use lifeflow.Deletion.Plans.{Plan}
use lifeflow.Deletion.Lifecycle.{
  Store, create_imported_data_preview, create_account_deletion_preview, confirm_operation,
  cancel_operation,
}
use lifeflow.Deletion.Worker.{
  Engine, claimable, claim_of, claim_all, claim_operation, run_one_batch, conclude, run_claimed,
  run_claim, run_operation,
}
use lifeflow.Deletion.Rows.{All-map, find?-All}
use lifeflow.Deletion.Consistent.{IsConsistent, claimed-IsConsistent, finished-IsConsistent}
use lifeflow.Deletion.Sessions.{IsWorking, run_batches-IsWorking, committed-IsWorking}
use lifeflow.Deletion.Steps.{
  crashed, with_operations, Happens, previews_import, previews_account, confirms, cancels, scans,
  recovers, runs, dies, History, begins, continues,
}
use lifeflow.Deletion.Requests.{
  Rows, StoreConsistent, put-Rows, reuse_or_create-Rows, imported_preview_of-Rows, confirm_of-Rows,
  cancel_of-Rows, scan_users-Rows, recovered-Rows,
}

module _ (max_attempts : ℕ) (some_tries : 1 ≤ max_attempts) where
  abbrev Rowwise : List DataDeletionOperation → Type 0
  Rowwise = Rows max_attempts some_tries

  abbrev Stored : Store → Type 0
  Stored = StoreConsistent max_attempts some_tries

  module _ (now id : ℕ) where
    claim_all-Rows : (os : List DataDeletionOperation) → Rowwise os → Rowwise (claim_all now id os)
    claim_all-Rows os a =
        let C = IsConsistent max_attempts in
        All-map C C _
          (λ o v.
            if-cases C (claimable id o)
              (λ h. claimed-IsConsistent max_attempts some_tries now o (ground arith) v) (λ _. v))
          os a

    claim_of-IsWorking :
        (found : Option DataDeletionOperation) (db : Store) {o : DataDeletionOperation}
        → Stored db
        → find? (claimable id) db.tables.operations ≡ found
        → claim_of found now ≡ some o
        → IsWorking max_attempts some_tries (record {
          operation = o;
          tables = record db.tables { operations = claim_all now id db.tables.operations };
        })
    claim_of-IsWorking none db a e h = absurd (none-ne-some _ h)
    claim_of-IsWorking (some p) db a e h =
        let (v, pending) = find?-All (IsConsistent max_attempts) _ _ a e in
        let c = claimed-IsConsistent max_attempts some_tries now p (ground arith) v in
        subst
          (λ (o : DataDeletionOperation). IsWorking max_attempts some_tries (record {
            operation = o;
            tables = record db.tables { operations = claim_all now id db.tables.operations };
          }))
          (some-injective _ _ h)
          (record { running = refl; row = c; rows = claim_all-Rows db.tables.operations a })

  module _ (e : Engine) (now fuel : ℕ) where
    conclude-Rows :
        (events : List _) (r : Option Run) {db' : Store}
        → ((r' : Run) → r ≡ some r' → IsWorking max_attempts some_tries r')
        → conclude e now events r ≡ some db'
        → Stored db'
    conclude-Rows events none w h = absurd (none-ne-some _ h)
    conclude-Rows events (some r) w h =
        let v = w r refl in
        subst Stored (some-injective _ _ h) (
          put-Rows max_attempts some_tries _ _
            (finished-IsConsistent max_attempts some_tries now r.operation v.row) v.rows)

    run_claimed-Rows :
        (o : DataDeletionOperation) (db : Store) {db' : Store}
        → IsWorking max_attempts some_tries (record { operation = o; tables = db.tables })
        → run_claimed e now fuel max_attempts o db ≡ some db'
        → Stored db'
    run_claimed-Rows o db w h =
        let within : ltb max_attempts o.attempt_count ≡ false = ground (arith, w.row.attempts) in
        conclude-Rows _
          (run_batches (run_one_batch e now) now fuel
            (record { operation = o; tables = db.tables }))
          (λ r' eq. run_batches-IsWorking max_attempts some_tries e now fuel _ w eq)
          (rw (within, run_claimed) at h)

    run_claim-Rows :
        (o : Option DataDeletionOperation) (db : Store) {db' : Store}
        → Stored db
        → ((o' : DataDeletionOperation)
            → o ≡ some o'
            → IsWorking max_attempts some_tries (record { operation = o'; tables = db.tables }))
        → run_claim e now fuel max_attempts o db ≡ some db'
        → Stored db'
    run_claim-Rows none db a w h = subst Stored (some-injective _ _ h) a
    run_claim-Rows (some o) db a w h = run_claimed-Rows o db (w o refl) h

    run_operation-Rows :
        (id : ℕ) (db : Store) {db' : Store}
        → Stored db
        → run_operation e now fuel max_attempts id db ≡ some db'
        → Stored db'
    unfolding run_operation claim_operation
    run_operation-Rows id db a h =
        run_claim-Rows (claim_of (find? (claimable id) db.tables.operations) now)
          (with_operations (claim_all now id db.tables.operations) db)
          (claim_all-Rows now id db.tables.operations a)
          (λ o eq. claim_of-IsWorking now id _ db a refl eq) h

    crashed-Rows :
        (id k : ℕ) (db : Store) {o : DataDeletionOperation}
        → Stored db
        → (claim_operation now id db.tables.operations).0 ≡ some o
        → Stored
            (crashed e now k o (with_operations (claim_operation now id db.tables.operations).1 db))
    unfolding claim_operation
    crashed-Rows id k db {o} a h =
        let r : Run = record {
          operation = o;
          tables = record db.tables { operations = claim_all now id db.tables.operations };
        } in
        let w =
          committed-IsWorking max_attempts some_tries e now k r
            (claim_of-IsWorking now id _ db a refl h) in
        put-Rows max_attempts some_tries _ _ w.row w.rows

  module _ (digest : Plan → String) (audit_events : ℕ → ℕ) (e : Engine) where
    abbrev Step : Store → Store → Type 0
    Step = Happens digest audit_events e max_attempts

    Happens-StoreConsistent : (db db' : Store) → Step db db' → Stored db → Stored db'
    unfolding create_imported_data_preview create_account_deletion_preview confirm_operation
        cancel_operation scan_and_create_retention_operations
    Happens-StoreConsistent db _ (previews_import now ttl new_id user_id account) a =
        imported_preview_of-Rows max_attempts some_tries digest audit_events now ttl new_id user_id
          _ account db a
    Happens-StoreConsistent db _ (previews_account now ttl new_id user_id) a =
        reuse_or_create-Rows max_attempts some_tries digest audit_events now ttl new_id user_id _
          account_deletion none whole_account db a
    Happens-StoreConsistent db _ (confirms now ttl user_id version phrase id) a =
        confirm_of-Rows max_attempts some_tries digest audit_events now ttl user_id version phrase _
          id db refl a
    Happens-StoreConsistent db _ (cancels now ttl user_id id) a =
        cancel_of-Rows max_attempts some_tries digest audit_events now ttl user_id _ id db refl a
    Happens-StoreConsistent db _ (scans now new_id elsewhere h max_operations) a =
        scan_users-Rows max_attempts some_tries now new_id elsewhere
          (users_with_expired_data max_operations (cutoff now h.source_items_days)
            db.tables.source_items)
          (record { operations = db.tables.operations; created = 0; reused = 0; enqueue_ids = [] })
          a
    Happens-StoreConsistent db _ (recovers now timeout redis later) a =
        recovered-Rows max_attempts some_tries now timeout redis later db a
    Happens-StoreConsistent db db' (runs now fuel id h) a = run_operation-Rows e now fuel id db a h
    Happens-StoreConsistent db _ (dies now id k h) a = crashed-Rows e now 0 id k db a h

    -- Whatever the requests, scans, recoveries, runs and crashes, every row stays consistent: an
    -- operation is tried at most `max_attempts` times, and a pending one has a try left; a previewed
    -- one has deleted nothing; a running one has a start and a heartbeat; exactly the terminal ones
    -- are completed; a cancelled or partly failed one says when or why; and none is ever `failed`,
    -- if at least one attempt is allowed.
    pub History-StoreConsistent :
        (db db' : Store)
        → History digest audit_events e max_attempts db db'
        → Stored db
        → Stored db'
    History-StoreConsistent db _ begins a = a
    History-StoreConsistent db db'' (continues {db' = db'} h s) a =
        Happens-StoreConsistent db' db'' s (History-StoreConsistent db db' h a)
