-- ===== src/Schedule/Queued.antt =====
-- The jobs of the pending runs over a `dispatch_tick` of scheduled_briefs.py.
use mathlib.Core.List.{Mem, mem-cons_self, mem-cons_of_mem}
use mathlib.Core.Option.{some-injective}
use lifeflow.Prelude.{
  ℕ, Bool, true, false, ◌≡◌, refl, String, List, [], ◌∷◌, Option, none, some, arith, if-cases,
  Option-cases, inl, inr, subst, ◌&&◌, ◌==◌, nat_eq, ltb, leb,
}
use lifeflow.Schedule.Instant.{Zone}
use lifeflow.Schedule.Run.{
  ScheduledBriefRun, JobId, RunEvent, Store, is_pending, put_run, max_attempts, Answer,
  enqueue_failed, deduplicated, queued,
}
use lifeflow.Schedule.Dispatch.{
  EnabledSchedule, Planning, planned, due_step, plan_due, plan_open, plan_in, plan_one, plan_all,
  plan_dispatch, new_run, enqueue_one, enqueue_planned, mark_enqueued, never_enqueued, reached,
  recover_never_enqueued,
}
use lifeflow.Schedule.Tick.{
  is_stale_running, stale_requeued, requeue, recover_one, recover_stale_running,
}
use lifeflow.Schedule.Upkeep.{none-some}

module _ (now : ℕ) (olds : List ScheduledBriefRun) where
  -- A run that is not pending, or whose job Redis has taken in this tick, or that has none, or that is
  -- as it was.
  pub data Fresh (r : ScheduledBriefRun) : Type 0 where
    idle : is_pending r.status ≡ false → Fresh r
    accepted : r.enqueued_at ≡ some now → Fresh r
    unqueued : r.enqueued_at ≡ none → Fresh r
    kept : Mem r olds → Fresh r

  abbrev pub AllFresh : List ScheduledBriefRun → Type 0
  AllFresh [] = Unit
  AllFresh (r ∷ rs) = Fresh r × AllFresh rs

  new_run-Fresh :
      (id : ℕ) (schedule : EnabledSchedule) (local_date target : ℕ)
      → Fresh (new_run now id schedule local_date target)
  new_run-Fresh id schedule local_date target = unqueued (ground arith)

  planned-AllFresh :
      (r : ScheduledBriefRun) (s : Planning)
      → Fresh r
      → AllFresh s.runs
      → AllFresh (planned now r s).runs
  planned-AllFresh r s f fs =
      if-cases (λ (x : Planning). AllFresh x.runs) (is_pending r.status) (λ _. (f, fs))
        (λ _. (f, fs))

  module _ (zone_info : String → Option Zone) (new_id : ℕ → ℕ) (claimed_elsewhere : ℕ → Bool) where
    due_step-AllFresh :
        (early taken : Bool) (schedule : EnabledSchedule) (local_date target : ℕ) (s : Planning)
        → AllFresh s.runs
        → AllFresh
            (due_step now zone_info new_id claimed_elsewhere early taken schedule local_date target
              s).runs
    due_step-AllFresh true taken schedule local_date target s fs = fs
    due_step-AllFresh false true schedule local_date target s fs = fs
    due_step-AllFresh false false schedule local_date target s fs =
        planned-AllFresh (new_run now (new_id schedule.user_id) schedule local_date target) s
          (new_run-Fresh (new_id schedule.user_id) schedule local_date target) fs

    abbrev Runs : Planning → Type 0
    Runs s = AllFresh s.runs

    plan_due-AllFresh :
        (schedule : EnabledSchedule) (local_date : ℕ) (o : Option ℕ) (s : Planning) {s' : Planning}
        → Runs s
        → plan_due now zone_info new_id claimed_elsewhere schedule local_date o s ≡ some s'
        → Runs s'
    plan_due-AllFresh schedule local_date none s fs h = absurd (none-some h)
    plan_due-AllFresh schedule local_date (some target) s fs h = subst Runs (some-injective _ _ h) (
        due_step-AllFresh (ltb now target) (claimed_elsewhere schedule.user_id) schedule local_date
          target s fs)

    plan_open-AllFresh :
        (schedule : EnabledSchedule) (zone : Zone) (local_date : ℕ) (o : Option ScheduledBriefRun)
        (s : Planning) {s' : Planning}
        → Runs s
        → plan_open now zone_info new_id claimed_elsewhere schedule zone local_date o s ≡ some s'
        → Runs s'
    plan_open-AllFresh schedule zone local_date (some r) s fs h =
        subst Runs (some-injective _ _ h) fs
    plan_open-AllFresh schedule zone local_date none s fs h =
        plan_due-AllFresh schedule local_date _ s fs h

    plan_in-AllFresh :
        (schedule : EnabledSchedule) (o : Option Zone) (s : Planning) {s' : Planning}
        → Runs s
        → plan_in now zone_info new_id claimed_elsewhere schedule o s ≡ some s'
        → Runs s'
    plan_in-AllFresh schedule none s fs h = subst Runs (some-injective _ _ h) fs
    plan_in-AllFresh schedule (some zone) s fs h = plan_open-AllFresh schedule zone _ _ s fs h

    plan_all-AllFresh :
        (schedules : List EnabledSchedule) (s : Planning) {s' : Planning}
        → Runs s
        → plan_all now zone_info new_id claimed_elsewhere schedules s ≡ some s'
        → Runs s'
    unfolding plan_all plan_one
    plan_all-AllFresh [] s fs h = subst Runs (some-injective _ _ h) fs
    plan_all-AllFresh (schedule ∷ schedules) s {s'} fs h =
        elim (Option-cases (plan_one now zone_info new_id claimed_elsewhere schedule s)) [
          | inl e ↦ absurd (none-some (rw (e, plan_all) at h))
          | inr (t, e) ↦
              plan_all-AllFresh schedules t
                (plan_in-AllFresh schedule (zone_info schedule.timezone) s fs e)
                (rw (e, plan_all) at h)
        ]

  put_run-AllFresh :
      (r : ScheduledBriefRun) (rs : List ScheduledBriefRun)
      → Fresh r
      → AllFresh rs
      → AllFresh (put_run r rs)
  unfolding put_run
  put_run-AllFresh r [] f fs = tt
  put_run-AllFresh r (x ∷ rs) f (g, fs) =
      (if-cases Fresh (x.id == r.id) (λ _. f) (λ _. g), put_run-AllFresh r rs f fs)

  module _ (redis : Option JobId → Answer) where
    enqueue_one-AllFresh :
        (a : Answer) (r : ScheduledBriefRun) (db : Store)
        → AllFresh db.runs
        → AllFresh (enqueue_one now redis a r db).0.runs
    enqueue_one-AllFresh enqueue_failed r db fs = fs
    enqueue_one-AllFresh deduplicated r db fs =
        put_run-AllFresh (mark_enqueued now r) db.runs (accepted refl) fs
    enqueue_one-AllFresh queued r db fs =
        put_run-AllFresh (mark_enqueued now r) db.runs (accepted refl) fs

    pub enqueue_planned-AllFresh :
        (rs : List ScheduledBriefRun) (db : Store)
        → AllFresh db.runs
        → AllFresh (enqueue_planned now redis rs db).0.runs
    unfolding enqueue_planned
    enqueue_planned-AllFresh [] db fs = fs
    enqueue_planned-AllFresh (r ∷ rs) db fs =
        enqueue_planned-AllFresh rs _ (enqueue_one-AllFresh (redis r.queue_job_id) r db fs)

    requeue-Fresh :
        (a : Answer) (r : ScheduledBriefRun) (audit : List RunEvent)
        → Fresh (requeue now redis a (stale_requeued now r) audit).0
    requeue-Fresh enqueue_failed r audit = unqueued refl
    requeue-Fresh deduplicated r audit = accepted refl
    requeue-Fresh queued r audit = accepted refl

    recover_one-Fresh :
        (r : ScheduledBriefRun) (audit : List RunEvent) → Fresh (recover_one now redis r audit).0
    unfolding recover_one
    recover_one-Fresh r audit =
        if-cases (λ (t : ScheduledBriefRun × List RunEvent × ℕ × ℕ). Fresh t.0)
          (leb max_attempts r.attempt_count) (λ _. idle refl)
          (λ _. requeue-Fresh (redis (stale_requeued now r).queue_job_id) r audit)

    pub recover_stale_running-AllFresh :
        (rs : List ScheduledBriefRun) (audit : List RunEvent)
        → AllFresh rs
        → AllFresh (recover_stale_running now redis rs audit).0
    unfolding recover_stale_running
    recover_stale_running-AllFresh [] audit fs = tt
    recover_stale_running-AllFresh (r ∷ rs) audit (f, fs) = (
      if-cases (λ (t : ScheduledBriefRun × List RunEvent × ℕ × ℕ). Fresh t.0)
          (is_stale_running now r) (λ _. recover_one-Fresh r audit) (λ _. f),
      recover_stale_running-AllFresh rs _ fs,
    )

module _ (now : ℕ) (olds : List ScheduledBriefRun) where
  -- The job of a pending run: Redis has taken it in this tick, or the run is as it was before the tick
  -- and has been enqueued before.
  pub data IsQueued (r : ScheduledBriefRun) : Type 0 where
    not_pending : is_pending r.status ≡ false → IsQueued r
    now_queued : r.enqueued_at ≡ some now → IsQueued r
    still_queued : Mem r olds → never_enqueued now (λ _. queued) r ≡ false → IsQueued r

  abbrev pub AllQueued : List ScheduledBriefRun → Type 0
  AllQueued [] = Unit
  AllQueued (r ∷ rs) = IsQueued r × AllQueued rs

  settled-IsQueued :
      (r : ScheduledBriefRun)
      → never_enqueued now (λ _. queued) r ≡ false
      → Fresh now olds r
      → IsQueued r
  settled-IsQueued r e (idle h) = not_pending h
  settled-IsQueued r e (accepted h) = now_queued h
  settled-IsQueued r e (unqueued h) = not_pending (ground (arith, e, h))
  settled-IsQueued r e (kept m) = still_queued m e

  pub recover_never_enqueued-AllQueued :
      (redis : Option JobId → Answer)
      → ((id : Option JobId) → reached now redis (redis id) ≡ true)
      → (rs : List ScheduledBriefRun) → AllFresh now olds rs
      → AllQueued (recover_never_enqueued now redis rs).0
  unfolding recover_never_enqueued
  recover_never_enqueued-AllQueued redis answers [] fs = tt
  recover_never_enqueued-AllQueued redis answers (r ∷ rs) (f, fs) = (
    if-cases IsQueued (never_enqueued now redis r && reached now redis (redis r.queue_job_id))
        (λ _. now_queued refl)
        (λ e. settled-IsQueued r (ground (arith, answers r.queue_job_id, e)) f),
    recover_never_enqueued-AllQueued redis answers rs fs,
  )

-- Every run is as it was.
pub mem-AllFresh :
    (now : ℕ) (olds rs : List ScheduledBriefRun)
    → ((r : ScheduledBriefRun) → Mem r rs → Mem r olds)
    → AllFresh now olds rs
mem-AllFresh now olds [] f = tt
mem-AllFresh now olds (r ∷ rs) f =
    (kept (f r mem-cons_self), mem-AllFresh now olds rs (λ x m. f x (mem-cons_of_mem r m)))

module _ (now : ℕ) (zone_info : String → Option Zone) (new_id : ℕ → ℕ)
    (claimed_elsewhere : ℕ → Bool) where
  pub plan_dispatch-AllFresh :
      (schedules : List EnabledSchedule) (db : Store) {s : Planning}
      → plan_dispatch now zone_info new_id claimed_elsewhere schedules db ≡ some s
      → AllFresh now db.runs s.runs
  unfolding plan_dispatch
  plan_dispatch-AllFresh schedules db h =
      plan_all-AllFresh now db.runs zone_info new_id claimed_elsewhere schedules _
        (mem-AllFresh now db.runs db.runs (λ r m. m)) h
