-- ===== src/Schedule/Tick.antt =====
-- `recover_stale_running` and `dispatch_tick` of scheduled_briefs.py.
use lifeflow.Prelude.{
  ℕ, ◌+◌, ◌-◌, Bool, true, false, ◌&&◌, String, List, [], ◌∷◌, Option, none, some, leb, ltb, length,
  if◌then◌else◌,
}
use lifeflow.Schedule.Instant.{Zone}
use lifeflow.Schedule.Run.{
  ScheduledRunStatus, ScheduledBriefRun, JobId, text, flag, job, RunEvent, Store,
  stale_running_threshold, max_attempts, job_id_for, is_running, event, Answer, enqueue_failed,
}
use lifeflow.Schedule.Dispatch.{
  EnabledSchedule, Planning, plan_dispatch, DispatchTickResult, enqueue_planned,
  recover_never_enqueued,
}

module _ (now : ℕ) where
  abbrev started_before : ℕ → Option ℕ → Bool
  started_before cutoff none = false
  started_before cutoff (some started_at) = ltb started_at cutoff

  -- The query of `recover_stale_running`.
  unfoldable pub is_stale_running : ScheduledBriefRun → Bool
  is_stale_running r =
      is_running r.status && started_before (now - stale_running_threshold) r.started_at

  abbrev pub stale_failed : ScheduledBriefRun → ScheduledBriefRun
  stale_failed r = record r {
    status = ScheduledRunStatus.failed;
    error_code = some "worker_stale_timeout";
    error_message = some "The worker did not finish in time after repeated attempts.";
    completed_at = some now;
  }

  abbrev pub stale_requeued : ScheduledBriefRun → ScheduledBriefRun
  stale_requeued r = record r {
    status = ScheduledRunStatus.pending;
    queue_job_id = job_id_for r.user_id r.local_brief_date r.attempt_count;
    started_at = none;
    enqueued_at = none;
  }

  module _ (redis : Option JobId → Answer) where
    -- The row, the events, and whether it was requeued or failed.
    abbrev pub requeue :
        Answer → ScheduledBriefRun → List RunEvent → ScheduledBriefRun × List RunEvent × ℕ × ℕ
    requeue enqueue_failed r audit = (r, audit, 0, 0)
    requeue _ r audit = (
      record r { enqueued_at = some now },
      event "scheduled_brief.enqueued"
          (("job_id", job r.queue_job_id) ∷ ("recovered", flag true) ∷ []) r audit,
      1,
      0,
    )

    -- One round of the loop of `recover_stale_running`.
    unfoldable pub recover_one :
        ScheduledBriefRun → List RunEvent → ScheduledBriefRun × List RunEvent × ℕ × ℕ
    recover_one r audit =
        if leb max_attempts r.attempt_count
        then (
          stale_failed r,
          event "scheduled_brief.failed" (("error_code", text "worker_stale_timeout") ∷ [])
              (stale_failed r) audit,
          0,
          1,
        )
        else requeue (redis (stale_requeued r).queue_job_id) (stale_requeued r) audit

    -- The rows, the events, and how many were requeued and failed.
    unfoldable pub recover_stale_running :
        List ScheduledBriefRun → List RunEvent → List ScheduledBriefRun × List RunEvent × ℕ × ℕ
    recover_stale_running [] audit = ([], audit, 0, 0)
    recover_stale_running (r ∷ rs) audit =
        let (r', audit', k, m) =
          if is_stale_running r then recover_one r audit else (r, audit, 0, 0) in
        let (rs', audit'', requeued, failed) = recover_stale_running rs audit' in
        (r' ∷ rs', audit'', k + requeued, m + failed)

  -- The three places where a tick asks Redis.
  pub record Redis : Type 0 where
    pub on_plan : Option JobId → Answer
    pub on_recovery : Option JobId → Answer
    pub on_drain : Option JobId → Answer

  module _ (zone_info : String → Option Zone) (new_id : ℕ → ℕ) (claimed_elsewhere : ℕ → Bool)
      (redis : Redis) where
    -- Behind the planning.
    abbrev pub finish_tick : Planning → Store → Store × DispatchTickResult
    finish_tick s db =
        let (db1, enqueued, repeated) =
          enqueue_planned now redis.on_plan s.plan.to_enqueue
            (record db { runs = s.runs; audit = s.audit }) in
        let (runs2, audit2, requeued, lost) =
          recover_stale_running redis.on_recovery db1.runs db1.audit in
        let (runs3, drained) = recover_never_enqueued now redis.on_drain runs2 in
        (
          record db { runs = runs3; audit = audit2 },
          record {
            due = length s.plan.to_enqueue + s.plan.skipped_grace;
            enqueued = enqueued;
            deduplicated = repeated;
            skipped_grace = s.plan.skipped_grace;
            recovered_stale = requeued;
            recovery_failed = lost;
            drained = drained;
          },
        )

    -- `none` is an exception, which leaves the store as it was.
    unfoldable pub dispatch_tick :
        List EnabledSchedule → Store → Option (Store × DispatchTickResult)
    dispatch_tick schedules db =
        elim (plan_dispatch now zone_info new_id claimed_elsewhere schedules db) [
          | none ↦ none
          | some s ↦ some (finish_tick s db)
        ]
