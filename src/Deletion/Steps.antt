-- ===== src/Deletion/Steps.antt =====
-- Histories of the operations of deletion.py and retention.py: requests, ticks of the recovery, scans,
-- whole runs of a worker, and runs that die between two batches.
use lifeflow.Prelude.{ℕ, Bool, false, ◌≡◌, String, List, Option, some, nat_eq}
use lifeflow.Deletion.Operation.{DataDeletionOperation, put}
use lifeflow.Deletion.Batches.{committed}
use lifeflow.Deletion.Retention.{RetentionHorizons, scan_and_create_retention_operations}
use lifeflow.Deletion.Plans.{Plan}
use lifeflow.Deletion.Lifecycle.{
  Store, audit, create_imported_data_preview, create_account_deletion_preview, confirm_operation,
  cancel_operation,
}
use lifeflow.Deletion.Worker.{
  Queue, Engine, claim_operation, recover_stale_operations, run_one_batch, run_operation,
}

-- What a worker that dies leaves: the claim, the event of its start, and the batches it committed.
abbrev pub crashed : Engine → ℕ → ℕ → DataDeletionOperation → Store → Store
crashed e now k o db =
    let r = committed (run_one_batch e now) now k (record { operation = o; tables = db.tables }) in
    record {
      tables = record r.tables { operations = put r.operation r.tables.operations };
      audit = audit "started" false o db.audit;
    }

abbrev pub with_operations : List DataDeletionOperation → Store → Store
with_operations operations db = record db { tables = record db.tables { operations = operations } }

abbrev pub recovered : ℕ → ℕ → ℕ → Option Queue → Option Queue → Store → Store
recovered now timeout max_attempts redis later db =
    let r =
      recover_stale_operations now redis later timeout max_attempts db.tables.operations db.audit in
    record { tables = record db.tables { operations = r.operations }; audit = r.events }

module _ (digest : Plan → String) (audit_events : ℕ → ℕ) (e : Engine) (max_attempts : ℕ) where
  -- One step of a history, with what the process that makes it brings.
  pub data Happens (db : Store) : Store → Type 0 where
    previews_import :
        (now ttl new_id user_id account : ℕ)
        → Happens db
            (create_imported_data_preview digest audit_events now ttl new_id user_id account db).1
    previews_account :
        (now ttl new_id user_id : ℕ)
        → Happens db
            (create_account_deletion_preview digest audit_events now ttl new_id user_id db).1
    confirms :
        (now ttl user_id version : ℕ) (phrase : String) (id : ℕ)
        → Happens db (confirm_operation digest audit_events now ttl user_id version phrase id db).1
    cancels :
        (now ttl user_id id : ℕ)
        → Happens db (cancel_operation digest audit_events now ttl user_id id db).1
    scans :
        (now : ℕ) (new_id : ℕ → ℕ) (created_elsewhere : ℕ → Bool) (h : RetentionHorizons)
        (max_operations : ℕ)
        → Happens db (
            with_operations
              (scan_and_create_retention_operations now new_id created_elsewhere h max_operations
                db.tables.source_items db.tables.operations).operations
              db)
    recovers :
        (now timeout : ℕ) (redis later : Option Queue)
        → Happens db (recovered now timeout max_attempts redis later db)
    runs :
        (now fuel id : ℕ) {db' : Store}
        → run_operation e now fuel max_attempts id db ≡ some db'
        → Happens db db'
    dies :
        (now id k : ℕ) {o : DataDeletionOperation}
        → (claim_operation now id db.tables.operations).0 ≡ some o
        → Happens db
            (crashed e now k o (with_operations (claim_operation now id db.tables.operations).1 db))

  pub data History (db : Store) : Store → Type 0 where
    begins : History db db
    continues : {db' db'' : Store} → History db db' → Happens db' db'' → History db db''
