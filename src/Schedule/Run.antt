-- ===== src/Schedule/Run.antt =====
-- `ScheduledBriefRun` of models.py, the state that scheduled_briefs.py keeps, and its enqueuing.
use lifeflow.Prelude.{
  ℕ, ◌*◌, Bool, true, false, ◌&&◌, String, List, [], ◌∷◌, ◌++◌, Option, some, map, find?, ◌==◌,
  nat_eq, if◌then◌else◌,
}
use lifeflow.Schedule.Instant.{BriefingTime}

pub data ScheduledRunStatus : Type 0 where
  pending running succeeded failed skipped : ScheduledRunStatus

-- `job_id_for`: the three numbers that the text `scheduled-brief:…` joins.
pub record JobId : Type 0 where
  pub user_id : ℕ
  pub local_date : ℕ
  pub attempt : ℕ

pub record ScheduledBriefRun : Type 0 where
  pub id : ℕ
  pub user_id : ℕ
  pub local_brief_date : ℕ
  pub scheduled_for_utc : ℕ
  pub timezone_snapshot : String
  pub briefing_time_snapshot : BriefingTime
  pub status : ScheduledRunStatus
  pub queue_job_id : Option JobId
  pub brief_id : Option ℕ
  pub attempt_count : ℕ
  pub enqueued_at : Option ℕ
  pub started_at : Option ℕ
  pub completed_at : Option ℕ
  pub error_code : Option String
  pub error_message : Option String

-- `Brief`: its id, its version and the run it belongs to. Its content is not read here.
pub record Brief : Type 0 where
  pub id : ℕ
  pub version : ℕ
  pub scheduled_run_id : Option ℕ

-- A value of an event's metadata.
pub data Detail : Type 0 where
  text : String → Detail
  number : ℕ → Detail
  flag : Bool → Detail
  job : Option JobId → Detail

-- `AuditEvent`, of the actor `system:scheduler` about a run.
pub record RunEvent : Type 0 where
  pub user_id : ℕ
  pub event_type : String
  pub entity_id : ℕ
  pub metadata : List (String × Detail)

pub record Store : Type 0 where
  pub runs : List ScheduledBriefRun
  pub briefs : List Brief
  pub audit : List RunEvent

-- `GRACE_WINDOW` and `STALE_RUNNING_THRESHOLD` in seconds, and `MAX_ATTEMPTS`.
abbrev pub grace_window : ℕ
grace_window = 6 * 3600

abbrev pub stale_running_threshold : ℕ
stale_running_threshold = 10 * 60

abbrev pub max_attempts : ℕ
max_attempts = 3

abbrev pub job_id_for : ℕ → ℕ → ℕ → Option JobId
job_id_for user_id local_date attempt =
    some (record { user_id = user_id; local_date = local_date; attempt = attempt })

abbrev pub is_pending : ScheduledRunStatus → Bool
is_pending ScheduledRunStatus.pending = true
is_pending _ = false

abbrev pub is_running : ScheduledRunStatus → Bool
is_running ScheduledRunStatus.running = true
is_running _ = false

abbrev pub event :
    String → List (String × Detail) → ScheduledBriefRun → List RunEvent → List RunEvent
event event_type metadata r audit =
    audit
    ++ (record {
      user_id = r.user_id;
      event_type = event_type;
      entity_id = r.id;
      metadata = metadata;
    }
        ∷ [])

-- How `_try_enqueue_job` ends: queued, already in the queue, or a failure of Redis.
pub data Answer : Type 0 where
  queued deduplicated enqueue_failed : Answer

-- ScheduledBriefRunRepository.get_for_local_date
unfoldable pub get_for_local_date : ℕ → ℕ → List ScheduledBriefRun → Option ScheduledBriefRun
get_for_local_date user_id local_date runs =
    find? (λ r. r.user_id == user_id && r.local_brief_date == local_date) runs

-- A changed row is written under its primary key.
unfoldable pub put_run : ScheduledBriefRun → List ScheduledBriefRun → List ScheduledBriefRun
put_run r runs = map (λ x. if x.id == r.id then r else x) runs
