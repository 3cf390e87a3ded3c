-- ===== src/Schedule/Dispatch.antt =====
-- `plan_dispatch`, the enqueuing of the planned runs and `_recover_never_enqueued` of
-- scheduled_briefs.py. The owners' schedules, the time zones, the ids of new rows, the answers of
-- Redis and the race on the unique constraint are arguments.
use lifeflow.Prelude.{
  ℕ, ◌+◌, ◌-◌, ◌/◌, Bool, true, false, ◌&&◌, String, List, [], ◌∷◌, ◌++◌, Option, none, some, ltb,
  if◌then◌else◌,
}
use lifeflow.Schedule.Instant.{Zone, BriefingTime, compute_target_utc}
use lifeflow.Schedule.Run.{
  ScheduledRunStatus, ScheduledBriefRun, JobId, text, number, job, RunEvent, Store, grace_window,
  job_id_for, is_pending, event, Answer, queued, deduplicated, enqueue_failed, get_for_local_date,
  put_run,
}

pub record EnabledSchedule : Type 0 where
  pub user_id : ℕ
  pub timezone : String
  pub briefing_time : BriefingTime

pub record DispatchPlan : Type 0 where
  pub to_enqueue : List ScheduledBriefRun
  pub skipped_grace : ℕ
  pub already_handled : ℕ
  pub not_due : ℕ
  pub invalid_timezone : ℕ

abbrev pub empty_plan : DispatchPlan
empty_plan = record {
  to_enqueue = [];
  skipped_grace = 0;
  already_handled = 0;
  not_due = 0;
  invalid_timezone = 0;
}

pub record Planning : Type 0 where
  pub runs : List ScheduledBriefRun
  pub audit : List RunEvent
  pub plan : DispatchPlan

abbrev already_handled : Planning → Planning
already_handled s = record s {
  plan = record s.plan { already_handled = s.plan.already_handled + 1 };
}

module _ (now : ℕ) where
  -- The new row, before it is added.
  abbrev pub new_run : ℕ → EnabledSchedule → ℕ → ℕ → ScheduledBriefRun
  new_run id schedule local_date target_utc =
      let r : ScheduledBriefRun = record {
        id = id;
        user_id = schedule.user_id;
        local_brief_date = local_date;
        scheduled_for_utc = target_utc;
        timezone_snapshot = schedule.timezone;
        briefing_time_snapshot = schedule.briefing_time;
        status = ScheduledRunStatus.pending;
        queue_job_id = job_id_for schedule.user_id local_date 0;
        brief_id = none;
        attempt_count = 0;
        enqueued_at = none;
        started_at = none;
        completed_at = none;
        error_code = none;
        error_message = none;
      } in
      if ltb grace_window (now - target_utc)
      then record r {
        status = ScheduledRunStatus.skipped;
        queue_job_id = none;
        completed_at = some now;
        error_code = some "missed_grace_window";
        error_message = some "Missed the catch-up window; no brief was generated for this date.";
      }
      else r

  -- Behind the insertion.
  abbrev pub planned : ScheduledBriefRun → Planning → Planning
  planned r s =
      if is_pending r.status
      then record s {
        runs = r ∷ s.runs;
        plan = record s.plan { to_enqueue = s.plan.to_enqueue ++ (r ∷ []) };
      }
      else record s {
        runs = r ∷ s.runs;
        audit =
            event "scheduled_brief.skipped"
              (("local_brief_date", number r.local_brief_date)
                ∷ ("error_code", text "missed_grace_window")
                ∷ [])
              r s.audit;
        plan = record s.plan { skipped_grace = s.plan.skipped_grace + 1 };
      }

  module _ (zone_info : String → Option Zone) (new_id : ℕ → ℕ) (claimed_elsewhere : ℕ → Bool) where
    -- Not yet due, or claimed by another process before the insertion, or added.
    abbrev pub due_step : Bool → Bool → EnabledSchedule → ℕ → ℕ → Planning → Planning
    due_step true taken schedule local_date target_utc s = record s {
      plan = record s.plan { not_due = s.plan.not_due + 1 };
    }
    due_step false true schedule local_date target_utc s = already_handled s
    due_step false false schedule local_date target_utc s =
        planned (new_run (new_id schedule.user_id) schedule local_date target_utc) s

    abbrev pub plan_due : EnabledSchedule → ℕ → Option ℕ → Planning → Option Planning
    plan_due schedule local_date none s = none
    plan_due schedule local_date (some target_utc) s = some (
        due_step (ltb now target_utc) (claimed_elsewhere schedule.user_id) schedule local_date
          target_utc s)

    abbrev pub plan_open :
        EnabledSchedule → Zone → ℕ → Option ScheduledBriefRun → Planning → Option Planning
    plan_open schedule zone local_date (some r) s = some (already_handled s)
    plan_open schedule zone local_date none s =
        plan_due schedule local_date (compute_target_utc zone local_date schedule.briefing_time) s

    abbrev pub plan_in : EnabledSchedule → Option Zone → Planning → Option Planning
    plan_in schedule none s =
        some (record s { plan = record s.plan { invalid_timezone = s.plan.invalid_timezone + 1 } })
    plan_in schedule (some zone) s =
        let local_date = zone.local now / 86400 in
        plan_open schedule zone local_date (get_for_local_date schedule.user_id local_date s.runs) s

    -- One round of the loop of `plan_dispatch`; `none` is an exception.
    unfoldable pub plan_one : EnabledSchedule → Planning → Option Planning
    plan_one schedule s = plan_in schedule (zone_info schedule.timezone) s

    unfoldable pub plan_all : List EnabledSchedule → Planning → Option Planning
    plan_all [] s = some s
    plan_all (schedule ∷ schedules) s = elim (plan_one schedule s) [
      | none ↦ none
      | some s' ↦ plan_all schedules s'
    ]

    unfoldable pub plan_dispatch : List EnabledSchedule → Store → Option Planning
    plan_dispatch schedules db =
        plan_all schedules (record { runs = db.runs; audit = db.audit; plan = empty_plan })

-- What a tick counts.
pub record DispatchTickResult : Type 0 where
  pub due : ℕ
  pub enqueued : ℕ
  pub deduplicated : ℕ
  pub skipped_grace : ℕ
  pub recovered_stale : ℕ
  pub recovery_failed : ℕ
  pub drained : ℕ

abbrev pub mark_enqueued : ℕ → ScheduledBriefRun → ScheduledBriefRun
mark_enqueued now r = record r { enqueued_at = some now }

module _ (now : ℕ) (redis : Option JobId → Answer) where
  -- One round of the loop of `dispatch_tick`, and what it adds to `enqueued` and `deduplicated`.
  abbrev pub enqueue_one : Answer → ScheduledBriefRun → Store → Store × ℕ × ℕ
  enqueue_one enqueue_failed r db = (db, 0, 0)
  enqueue_one deduplicated r db = (record db { runs = put_run (mark_enqueued now r) db.runs }, 0, 1)
  enqueue_one queued r db = (
    record db {
      runs = put_run (mark_enqueued now r) db.runs;
      audit =
          event "scheduled_brief.enqueued"
            (("local_brief_date", number r.local_brief_date)
              ∷ ("job_id", job r.queue_job_id)
              ∷ ("lag_seconds", number (now - r.scheduled_for_utc))
              ∷ [])
            r db.audit;
    },
    1,
    0,
  )

  unfoldable pub enqueue_planned : List ScheduledBriefRun → Store → Store × ℕ × ℕ
  enqueue_planned [] db = (db, 0, 0)
  enqueue_planned (r ∷ rs) db =
      let (db1, e, d) = enqueue_one (redis r.queue_job_id) r db in
      let (db2, enqueued, repeated) = enqueue_planned rs db1 in (db2, e + enqueued, d + repeated)

  -- `_recover_never_enqueued`
  abbrev pub never_enqueued : ScheduledBriefRun → Bool
  never_enqueued r = is_pending r.status && elim r.enqueued_at [ none ↦ true | some _ ↦ false ]

  abbrev pub reached : Answer → Bool
  reached enqueue_failed = false
  reached _ = true

  unfoldable pub recover_never_enqueued : List ScheduledBriefRun → List ScheduledBriefRun × ℕ
  recover_never_enqueued [] = ([], 0)
  recover_never_enqueued (r ∷ rs) =
      let (rest, n) = recover_never_enqueued rs in
      let drains = never_enqueued r && reached (redis r.queue_job_id) in
      ((if drains then mark_enqueued now r else r) ∷ rest, if drains then n + 1 else n)
