-- ===== src/Tests/Schedules.antt =====
-- A zone with a gap, and a day of one owner's schedule.
use lifeflow.Prelude.{
  ℕ, ◌+◌, ◌-◌, ◌≤◌, ◌≡◌, ◌≢◌, refl, List, [], ◌∷◌, none, some, ltb, if◌then◌else◌, arith, nat_eq,
  Bool,
}
use lifeflow.Schedule.Instant.{
  Zone, ScheduleClassification, resolve_naive, first_valid_instant_after_gap, search_gap,
  compute_target_utc, resolve_local_schedule_instant, combine,
}
use lifeflow.Schedule.Resolution.{Resolved, resolve_naive-Resolved, resolve_naive-total}
use lifeflow.Schedule.Run.{
  flag, ScheduledRunStatus, ScheduledBriefRun, Store, queued, job_id_for, get_for_local_date, job,
}
use lifeflow.Schedule.Dispatch.{
  EnabledSchedule, Planning, plan_dispatch, plan_all, plan_one, DispatchTickResult,
}
use lifeflow.Schedule.Tick.{Redis}
use lifeflow.Schedule.Worker.{Job, generated}
use lifeflow.Schedule.Upkeep.{AllConsistent}
use lifeflow.Schedule.Histories.{Event, ticks, works, steps, steps-AllConsistent}
use lifeflow.Schedule.Briefs.{briefs_for, steps-briefs}
use lifeflow.Schedule.Slots.{OneEach, accounted, plan_dispatch-OneEach}

-- Clocks go forward by an hour at second 7200.
abbrev spring : Zone
spring = record {
  first_reading = λ n. if ltb n 10800 then n else n - 3600;
  second_reading = λ n. if ltb n 7200 then n else n - 3600;
  local = λ u. if ltb u 7200 then u else u + 3600;
}

-- 02:30 does not exist, and 03:00 is second 7200.
resolve_naive-Resolved_example :
    Resolved spring 9000
      (record { utc = 7200; classification = ScheduleClassification.nonexistent })
unfolding resolve_naive first_valid_instant_after_gap search_gap nat_eq
resolve_naive-Resolved_example = resolve_naive-Resolved spring 9000 refl

resolve_naive-total_example : resolve_naive spring 9000 ≢ none
resolve_naive-total_example = resolve_naive-total spring 9000 30 (omega arith) refl

abbrev utc : Zone
utc = record { first_reading = λ n. n; second_reading = λ n. n; local = λ u. u }

abbrev schedule : EnabledSchedule
schedule = record {
  user_id = 1;
  timezone = "UTC";
  briefing_time = record { hour = 7; minute = 30 };
}

abbrev empty_store : Store
empty_store = record { runs = []; briefs = []; audit = [] }

-- 08:00 on day 20000.
abbrev eight : ℕ
eight = 1728028800

abbrev redis : Redis eight
redis = record { on_plan = λ _. queued; on_recovery = λ _. queued; on_drain = λ _. queued }

abbrev worker : Job
worker = record {
  now = 1728028860;
  run_deleted = Bool.false;
  run_deleted_later = Bool.false;
  user_present = Bool.true;
  enabled = Bool.true;
  generation = generated 70 1;
  redis = λ _. queued;
}

abbrev history : List Event
history =
    ticks eight (λ _. some utc) (λ _. 60) (λ _. Bool.false) redis (schedule ∷ [])
    ∷ works worker 60
    ∷ works worker 60
    ∷ []

steps-AllConsistent_example : AllConsistent (steps history empty_store).runs
steps-AllConsistent_example = steps-AllConsistent history empty_store tt

steps-briefs_example : briefs_for 60 (steps history empty_store).briefs ≤ 1
steps-briefs_example = steps-briefs 60 history empty_store (omega arith)

abbrev run : ScheduledBriefRun
run = record {
  id = 60;
  user_id = 1;
  local_brief_date = 20000;
  scheduled_for_utc = 1728027000;
  timezone_snapshot = "UTC";
  briefing_time_snapshot = record { hour = 7; minute = 30 };
  status = ScheduledRunStatus.pending;
  queue_job_id = job_id_for 1 20000 0;
  brief_id = none;
  attempt_count = 0;
  enqueued_at = none;
  started_at = none;
  completed_at = none;
  error_code = none;
  error_message = none;
}

abbrev planning : Planning
planning = record {
  runs = run ∷ [];
  audit = [];
  plan = record {
    to_enqueue = run ∷ [];
    skipped_grace = 0;
    already_handled = 0;
    not_due = 0;
    invalid_timezone = 0;
  };
}

plans :
    plan_dispatch eight (λ _. some utc) (λ _. 60) (λ _. Bool.false) (schedule ∷ []) empty_store
    ≡ some planning
unfolding plan_dispatch plan_all plan_one get_for_local_date compute_target_utc
    resolve_local_schedule_instant combine resolve_naive nat_eq
plans = refl

plan_dispatch-OneEach_example : OneEach planning.runs × (accounted planning.plan ≡ 1)
plan_dispatch-OneEach_example =
    plan_dispatch-OneEach eight (λ _. some utc) (λ _. 60) (λ _. Bool.false) (schedule ∷ [])
      empty_store tt plans

-- A worker has died over the run, whose job was enqueued for its first attempt.
abbrev stale_store : Store
stale_store = record empty_store {
  runs =
      record run {
        status = ScheduledRunStatus.running;
        attempt_count = 1;
        enqueued_at = some 1;
        started_at = some 1;
      }
      ∷ [];
}

abbrev ticked : Store
ticked = record {
  runs =
      record run {
        queue_job_id = job_id_for 1 20000 1;
        attempt_count = 1;
        enqueued_at = some eight;
      }
      ∷ [];
  briefs = [];
  audit =
      record {
        user_id = 1;
        event_type = "scheduled_brief.enqueued";
        entity_id = 60;
        metadata = ("job_id", job (job_id_for 1 20000 1)) ∷ ("recovered", flag Bool.true) ∷ [];
      }
      ∷ [];
}

abbrev counted : DispatchTickResult
counted = record {
  due = 0;
  enqueued = 0;
  deduplicated = 0;
  skipped_grace = 0;
  recovered_stale = 1;
  recovery_failed = 0;
  drained = 0;
}
