-- ===== src/Schedule/Consistent.antt =====
-- What holds of every row of `scheduled_brief_runs`, and the changes that scheduled_briefs.py makes.
use lifeflow.Prelude.{ℕ, ◌≤◌, ◌<◌, Bool, true, false, ◌≡◌, ◌≢◌, String, none, arith, nat_eq}
use lifeflow.Schedule.Run.{
  ScheduledRunStatus, ScheduledBriefRun, Answer, job_id_for, is_pending, is_running, max_attempts,
}
use lifeflow.Schedule.Dispatch.{EnabledSchedule, new_run, mark_enqueued}
use lifeflow.Schedule.Tick.{stale_failed, stale_requeued}
use lifeflow.Schedule.Worker.{Failure, claimed, ended, succeeded_with, retried, retry_enqueued}

abbrev pub is_succeeded : ScheduledRunStatus → Bool
is_succeeded ScheduledRunStatus.succeeded = true
is_succeeded _ = false

abbrev pub is_given_up : ScheduledRunStatus → Bool
is_given_up ScheduledRunStatus.failed = true
is_given_up ScheduledRunStatus.skipped = true
is_given_up _ = false

pub record IsConsistent (r : ScheduledBriefRun) : Type 0 where
  pub attempts : r.attempt_count ≤ max_attempts
  pub tries_left : is_pending r.status ≡ true → r.attempt_count < max_attempts
  pub next_job :
      is_pending r.status ≡ true
      → r.queue_job_id ≡ job_id_for r.user_id r.local_brief_date r.attempt_count
  pub not_completed : is_pending r.status ≡ true → r.completed_at ≡ none
  pub tried : is_running r.status ≡ true → 1 ≤ r.attempt_count
  pub started : is_running r.status ≡ true → r.started_at ≢ none
  pub under_way : is_running r.status ≡ true → r.completed_at ≡ none
  pub has_brief : is_succeeded r.status ≡ true → r.brief_id ≢ none
  pub succeeded_at : is_succeeded r.status ≡ true → r.completed_at ≢ none
  pub has_reason : is_given_up r.status ≡ true → r.error_code ≢ none
  pub given_up_at : is_given_up r.status ≡ true → r.completed_at ≢ none

module _ (now : ℕ) where
  pub new_run-IsConsistent :
      (id : ℕ) (schedule : EnabledSchedule) (local_date target_utc : ℕ)
      → IsConsistent (new_run now id schedule local_date target_utc)
  new_run-IsConsistent id schedule local_date target_utc = ground arith

  pub mark_enqueued-IsConsistent :
      (r : ScheduledBriefRun) → IsConsistent r → IsConsistent (mark_enqueued now r)
  mark_enqueued-IsConsistent r v = ground arith

  pub claimed-IsConsistent :
      (r : ScheduledBriefRun)
      → is_pending r.status ≡ true
      → IsConsistent r
      → IsConsistent (claimed now r)
  claimed-IsConsistent r p v = ground arith

  pub stale_failed-IsConsistent :
      (r : ScheduledBriefRun) → IsConsistent r → IsConsistent (stale_failed now r)
  stale_failed-IsConsistent r v = ground arith

  pub stale_requeued-IsConsistent :
      (r : ScheduledBriefRun)
      → is_running r.status ≡ true
      → r.attempt_count < max_attempts
      → IsConsistent r
      → IsConsistent (stale_requeued now r)
  stale_requeued-IsConsistent r p lt v = ground arith

  pub succeeded_with-IsConsistent :
      (id : ℕ) (r : ScheduledBriefRun) → IsConsistent r → IsConsistent (succeeded_with now id r)
  succeeded_with-IsConsistent id r v = ground arith

  pub ended-IsConsistent :
      (status : ScheduledRunStatus) (code message : String) (r : ScheduledBriefRun)
      → is_given_up status ≡ true
      → IsConsistent r
      → IsConsistent (ended now status code message r)
  ended-IsConsistent status code message r g v = ground arith

  pub retried-IsConsistent :
      (f : Failure) (a : Answer) (r : ScheduledBriefRun)
      → is_running r.status ≡ true
      → r.attempt_count < max_attempts
      → IsConsistent r
      → IsConsistent (retry_enqueued now a (retried now f r))
  retried-IsConsistent f a r p lt v = ground arith
