-- ===== src/Schedule/Upkeep.antt =====
-- The operations of scheduled_briefs.py against the invariant of the rows.
use lifeflow.Prelude.{
  ℕ, Bool, true, false, ◌≡◌, String, List, [], ◌∷◌, ◌++◌, Option, none, some, find?, arith,
  if-cases, ◌==◌, nat_eq, Option-cases, inl, inr, ltb, subst, ◌/◌,
}
use mathlib.Core.Option.{some-injective}
use lifeflow.Schedule.Instant.{Zone}
use lifeflow.Schedule.Run.{
  ScheduledBriefRun, JobId, RunEvent, Store, Answer, queued, deduplicated, enqueue_failed,
  is_pending, is_running, put_run,
}
use lifeflow.Schedule.Dispatch.{
  EnabledSchedule, new_run, mark_enqueued, Planning, plan_one, due_step, plan_due, plan_open,
  plan_in, plan_all, plan_dispatch, planned, enqueue_one, enqueue_planned, recover_never_enqueued,
}
use lifeflow.Schedule.Tick.{
  Redis, is_stale_running, recover_one, recover_stale_running, finish_tick,
}
use lifeflow.Schedule.Consistent.{
  IsConsistent, new_run-IsConsistent, mark_enqueued-IsConsistent, stale_failed-IsConsistent,
  stale_requeued-IsConsistent,
}

pub none-some : {A : Type 0} {a : A} → none ≡ some a → ⊥
none-some h = cc

abbrev pub AllConsistent : List ScheduledBriefRun → Type 0
AllConsistent [] = Unit
AllConsistent (r ∷ rs) = IsConsistent r × AllConsistent rs

pub put_run-AllConsistent :
    (r : ScheduledBriefRun) (rs : List ScheduledBriefRun)
    → IsConsistent r
    → AllConsistent rs
    → AllConsistent (put_run r rs)
unfolding put_run
put_run-AllConsistent r [] v vs = tt
put_run-AllConsistent r (x ∷ rs) v (vx, vs) =
    (if-cases IsConsistent (x.id == r.id) (λ _. v) (λ _. vx), put_run-AllConsistent r rs v vs)

append-AllConsistent :
    (rs : List ScheduledBriefRun) (r : ScheduledBriefRun)
    → AllConsistent rs
    → IsConsistent r
    → AllConsistent (rs ++ (r ∷ []))
append-AllConsistent [] r vs v = (v, tt)
append-AllConsistent (x ∷ rs) r (vx, vs) v = (vx, append-AllConsistent rs r vs v)

pub find-IsConsistent :
    (test : ScheduledBriefRun → Bool) (rs : List ScheduledBriefRun) {r : ScheduledBriefRun}
    → AllConsistent rs
    → find? test rs ≡ some r
    → IsConsistent r × (test r ≡ true)
find-IsConsistent test [] vs h = cc
find-IsConsistent test (x ∷ rs) {r} (v, vs) h = ground (arith, find-IsConsistent test rs {r = r} vs)

abbrev pub Planned : Planning → Type 0
Planned s = AllConsistent s.runs × AllConsistent s.plan.to_enqueue

module _ (now : ℕ) where
  planned-Planned :
      (r : ScheduledBriefRun) (s : Planning)
      → IsConsistent r
      → Planned s
      → Planned (planned now r s)
  planned-Planned r s v (vs, ws) =
      if-cases Planned (is_pending r.status)
        (λ _. ((v, vs), append-AllConsistent s.plan.to_enqueue r ws v)) (λ _. ((v, vs), ws))

  module _ (zone_info : String → Option Zone) (new_id : ℕ → ℕ) (claimed_elsewhere : ℕ → Bool) where
    due_step-Planned :
        (early taken : Bool) (schedule : EnabledSchedule) (local_date target : ℕ) (s : Planning)
        → Planned s
        → Planned (
            due_step now zone_info new_id claimed_elsewhere early taken schedule local_date target
              s)
    due_step-Planned true taken schedule local_date target s vs = vs
    due_step-Planned false true schedule local_date target s vs = vs
    due_step-Planned false false schedule local_date target s vs =
        planned-Planned (new_run now (new_id schedule.user_id) schedule local_date target) s
          (new_run-IsConsistent now (new_id schedule.user_id) schedule local_date target) vs

    plan_due-Planned :
        (schedule : EnabledSchedule) (local_date : ℕ) (o : Option ℕ) (s : Planning) {s' : Planning}
        → Planned s
        → plan_due now zone_info new_id claimed_elsewhere schedule local_date o s ≡ some s'
        → Planned s'
    plan_due-Planned schedule local_date none s vs h = cc
    plan_due-Planned schedule local_date (some target) s vs h =
        subst Planned (some-injective _ _ h) (
          due_step-Planned (ltb now target) (claimed_elsewhere schedule.user_id) schedule local_date
            target s vs)

    plan_open-Planned :
        (schedule : EnabledSchedule) (zone : Zone) (local_date : ℕ) (o : Option ScheduledBriefRun)
        (s : Planning) {s' : Planning}
        → Planned s
        → plan_open now zone_info new_id claimed_elsewhere schedule zone local_date o s ≡ some s'
        → Planned s'
    plan_open-Planned schedule zone local_date (some r) s vs h =
        subst Planned (some-injective _ _ h) vs
    plan_open-Planned schedule zone local_date none s vs h =
        plan_due-Planned schedule local_date _ s vs h

    plan_in-Planned :
        (schedule : EnabledSchedule) (o : Option Zone) (s : Planning) {s' : Planning}
        → Planned s
        → plan_in now zone_info new_id claimed_elsewhere schedule o s ≡ some s'
        → Planned s'
    plan_in-Planned schedule none s vs h = subst Planned (some-injective _ _ h) vs
    plan_in-Planned schedule (some zone) s vs h =
        plan_open-Planned schedule zone (zone.local now / 86400) _ s vs h

    plan_all-Planned :
        (schedules : List EnabledSchedule) (s : Planning) {s' : Planning}
        → Planned s
        → plan_all now zone_info new_id claimed_elsewhere schedules s ≡ some s'
        → Planned s'
    unfolding plan_all plan_one
    plan_all-Planned [] s vs h = subst Planned (some-injective _ _ h) vs
    plan_all-Planned (schedule ∷ schedules) s {s'} vs h =
        elim (Option-cases (plan_one now zone_info new_id claimed_elsewhere schedule s)) [
          | inl e ↦ absurd (none-some (rw (e, plan_all) at h))
          | inr (t, e) ↦
              plan_all-Planned schedules t
                (plan_in-Planned schedule (zone_info schedule.timezone) s vs e)
                (rw (e, plan_all) at h)
        ]

  module _ (redis : Option JobId → Answer) where
    enqueue_one-AllConsistent :
        (a : Answer) (r : ScheduledBriefRun) (db : Store)
        → IsConsistent r
        → AllConsistent db.runs
        → AllConsistent (enqueue_one now redis a r db).0.runs
    enqueue_one-AllConsistent enqueue_failed r db v vs = vs
    enqueue_one-AllConsistent deduplicated r db v vs =
        put_run-AllConsistent (mark_enqueued now r) db.runs (mark_enqueued-IsConsistent now r v) vs
    enqueue_one-AllConsistent queued r db v vs =
        put_run-AllConsistent (mark_enqueued now r) db.runs (mark_enqueued-IsConsistent now r v) vs

    enqueue_planned-AllConsistent :
        (rs : List ScheduledBriefRun) (db : Store)
        → AllConsistent rs
        → AllConsistent db.runs
        → AllConsistent (enqueue_planned now redis rs db).0.runs
    unfolding enqueue_planned
    enqueue_planned-AllConsistent [] db ws vs = vs
    enqueue_planned-AllConsistent (r ∷ rs) db (w, ws) vs =
        enqueue_planned-AllConsistent rs _ ws
          (enqueue_one-AllConsistent (redis r.queue_job_id) r db w vs)

    recover_one-IsConsistent :
        (r : ScheduledBriefRun) (audit : List RunEvent)
        → is_running r.status ≡ true
        → IsConsistent r
        → IsConsistent (recover_one now redis r audit).0
    unfolding recover_one
    recover_one-IsConsistent r audit running v =
        ground (arith, stale_failed-IsConsistent now r v, stale_requeued-IsConsistent now r running)

    stale_is_running :
        (r : ScheduledBriefRun) → is_stale_running now r ≡ true → is_running r.status ≡ true
    unfolding is_stale_running
    stale_is_running r h = ground arith

    recover_stale_running-AllConsistent :
        (rs : List ScheduledBriefRun) (audit : List RunEvent)
        → AllConsistent rs
        → AllConsistent (recover_stale_running now redis rs audit).0
    unfolding recover_stale_running
    recover_stale_running-AllConsistent [] audit vs = tt
    recover_stale_running-AllConsistent (r ∷ rs) audit (v, vs) = (
      if-cases (λ (t : ScheduledBriefRun × List RunEvent × ℕ × ℕ). IsConsistent t.0)
          (is_stale_running now r) (λ e. recover_one-IsConsistent r audit (stale_is_running r e) v)
          (λ _. v),
      recover_stale_running-AllConsistent rs _ vs,
    )

    recover_never_enqueued-AllConsistent :
        (rs : List ScheduledBriefRun)
        → AllConsistent rs
        → AllConsistent (recover_never_enqueued now redis rs).0
    unfolding recover_never_enqueued
    recover_never_enqueued-AllConsistent [] vs = tt
    recover_never_enqueued-AllConsistent (r ∷ rs) (v, vs) = (
      if-cases IsConsistent _ (λ _. mark_enqueued-IsConsistent now r v) (λ _. v),
      recover_never_enqueued-AllConsistent rs vs,
    )

  module _ (zone_info : String → Option Zone) (new_id : ℕ → ℕ) (claimed_elsewhere : ℕ → Bool)
      (redis : Redis now) where
    pub finish_tick-AllConsistent :
        (s : Planning) (db : Store)
        → Planned s
        → AllConsistent (finish_tick now zone_info new_id claimed_elsewhere redis s db).0.runs
    finish_tick-AllConsistent s db (vs, ws) =
        recover_never_enqueued-AllConsistent redis.on_drain _ (
          recover_stale_running-AllConsistent redis.on_recovery _ _
            (enqueue_planned-AllConsistent redis.on_plan s.plan.to_enqueue _ ws vs))

  module _ (zone_info : String → Option Zone) (new_id : ℕ → ℕ) (claimed_elsewhere : ℕ → Bool) where
    pub plan_dispatch-Planned :
        (schedules : List EnabledSchedule) (db : Store) {s : Planning}
        → AllConsistent db.runs
        → plan_dispatch now zone_info new_id claimed_elsewhere schedules db ≡ some s
        → Planned s
    unfolding plan_dispatch
    plan_dispatch-Planned schedules db vs h =
        plan_all-Planned zone_info new_id claimed_elsewhere schedules _ (vs, tt) h
