-- ===== src/Schedule/Worker.antt =====
-- `run_scheduled_generation` of scheduled_briefs.py: one job of the queue. What other processes and
-- the brief service do is an argument.
use lifeflow.Prelude.{
  ℕ, ◌+◌, Bool, true, false, ◌&&◌, String, List, [], ◌∷◌, Option, none, some, find?, map, ltb, ◌==◌,
  nat_eq, if◌then◌else◌,
}
use lifeflow.Schedule.Run.{
  ScheduledRunStatus, ScheduledBriefRun, Brief, JobId, text, number, flag, RunEvent, Store,
  max_attempts, job_id_for, is_pending, event, Answer, enqueue_failed, put_run,
}

-- The exceptions that `classify_failure` tells apart.
pub data Failure : Type 0 where
  redis_error operational_error timeout_error other_error : Failure

abbrev pub error_code_of : Failure → String
error_code_of redis_error = "redis_unavailable"
error_code_of operational_error = "database_unavailable"
error_code_of timeout_error = "worker_timeout"
error_code_of other_error = "generation_error"

abbrev pub message_of : Failure → String
message_of redis_error = "The job queue was temporarily unavailable."
message_of operational_error = "The database was temporarily unavailable."
message_of timeout_error = "Brief generation timed out."
message_of other_error = "Brief generation failed and was not completed."

abbrev pub is_transient : Failure → Bool
is_transient other_error = false
is_transient _ = true

-- How `BriefService.generate` ends: with the id and version of the new brief, which is flushed and
-- not yet committed; with an exception; or never, because the worker dies.
pub data Generation : Type 0 where
  generated : ℕ → ℕ → Generation
  failed_with : Failure → Generation
  died : Generation

-- What one job finds.
pub record Job : Type 0 where
  pub now : ℕ
  -- the run is gone when the worker reads it, or reads it again after a failure
  pub run_deleted : Bool
  pub run_deleted_later : Bool
  pub user_present : Bool
  pub enabled : Bool
  pub generation : Generation
  pub redis : Option JobId → Answer

abbrev pub claimable : ℕ → ScheduledBriefRun → Bool
claimable run_id r = r.id == run_id && is_pending r.status

abbrev pub claimed : ℕ → ScheduledBriefRun → ScheduledBriefRun
claimed now r = record r {
  status = ScheduledRunStatus.running;
  started_at = some now;
  attempt_count = r.attempt_count + 1;
}

-- The `UPDATE … WHERE` that claims the run.
unfoldable pub claim : ℕ → ℕ → List ScheduledBriefRun → List ScheduledBriefRun
claim now run_id runs = map (λ r. if claimable run_id r then claimed now r else r) runs

abbrev pub drop_run : ℕ → List ScheduledBriefRun → List ScheduledBriefRun
drop_run run_id [] = []
drop_run run_id (r ∷ rs) =
    let rest = drop_run run_id rs in if r.id == run_id then rest else r ∷ rest

-- The brief of a run; the column is unique.
unfoldable pub brief_of : ℕ → List Brief → Option Brief
brief_of run_id briefs =
    find? (λ b. elim b.scheduled_run_id [ none ↦ false | some i ↦ i == run_id ]) briefs

abbrev pub write_run : ScheduledBriefRun → List RunEvent → Store → Store
write_run r audit db = record db { runs = put_run r db.runs; audit = audit }

module _ (now : ℕ) where
  abbrev pub ended : ScheduledRunStatus → String → String → ScheduledBriefRun → ScheduledBriefRun
  ended status error_code message r = record r {
    status = status;
    error_code = some error_code;
    error_message = some message;
    completed_at = some now;
  }

  -- `_mark_terminal`
  abbrev pub mark_terminal :
      ScheduledRunStatus → String → String → String → ScheduledBriefRun → Store → Store
  mark_terminal status event_type error_code message r db =
      write_run (ended status error_code message r)
        (event event_type (("error_code", text error_code) ∷ []) r db.audit) db

  abbrev pub succeeded_with : ℕ → ScheduledBriefRun → ScheduledBriefRun
  succeeded_with brief_id r = record r {
    brief_id = some brief_id;
    status = ScheduledRunStatus.succeeded;
    completed_at = some now;
  }

  abbrev pub retried : Failure → ScheduledBriefRun → ScheduledBriefRun
  retried f r = record r {
    status = ScheduledRunStatus.pending;
    queue_job_id = job_id_for r.user_id r.local_brief_date r.attempt_count;
    error_code = some (error_code_of f);
    error_message = some (message_of f);
    enqueued_at = none;
  }

  abbrev pub retry_enqueued : Answer → ScheduledBriefRun → ScheduledBriefRun
  retry_enqueued enqueue_failed r = r
  retry_enqueued _ r = record r { enqueued_at = some now }

  module _ (redis : Option JobId → Answer) where
    -- The `except` branch, on the row read again after the roll-back.
    unfoldable pub after_failure : Failure → ScheduledBriefRun → Store → Store
    after_failure f r db =
        if is_transient f && ltb r.attempt_count max_attempts
        then write_run (retry_enqueued (redis (retried f r).queue_job_id) (retried f r)) db.audit db
        else mark_terminal ScheduledRunStatus.failed "scheduled_brief.failed" (error_code_of f)
            (message_of f) r db

module _ (j : Job) where
  abbrev pub generate : Generation → ScheduledBriefRun → Store → Store
  generate (generated id version) r db =
      write_run (succeeded_with j.now id r)
        (event "scheduled_brief.succeeded"
          (("brief_id", number id) ∷ ("brief_version", number version) ∷ []) r db.audit)
        (record db {
          briefs = record { id = id; version = version; scheduled_run_id = some r.id } ∷ db.briefs;
        })
  generate (failed_with f) r db =
      if j.run_deleted_later
      then record db { runs = drop_run r.id db.runs }
      else after_failure j.now j.redis f r db
  generate died r db = db

  abbrev pub generate_unless : Option Brief → ScheduledBriefRun → Store → Store
  generate_unless (some b) r db =
      write_run (succeeded_with j.now b.id r)
        (event "scheduled_brief.succeeded"
          (("brief_id", number b.id) ∷ ("recovered_existing", flag true) ∷ []) r db.audit)
        db
  generate_unless none r db = generate j.generation r db

  -- On the claimed row.
  unfoldable pub run_claimed : ScheduledBriefRun → Store → Store
  run_claimed r db =
      if j.run_deleted
      then record db { runs = drop_run r.id db.runs }
      else if j.user_present
      then if j.enabled
        then generate_unless (brief_of r.id db.briefs) r db
        else mark_terminal j.now ScheduledRunStatus.skipped "scheduled_brief.skipped"
            "schedule_disabled_before_execution"
            "Scheduled briefs were turned off before this run executed." r db
      else mark_terminal j.now ScheduledRunStatus.skipped "scheduled_brief.skipped"
          "user_unavailable" "The user account is no longer available." r db

  abbrev pub run_if : Option ScheduledBriefRun → Store → Store
  run_if none db = db
  run_if (some r) db = run_claimed (claimed j.now r) db

  unfoldable pub run_scheduled_generation : ℕ → Store → Store
  run_scheduled_generation run_id db =
      run_if (find? (claimable run_id) db.runs) (record db { runs = claim j.now run_id db.runs })
