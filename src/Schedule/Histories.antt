-- ===== src/Schedule/Histories.antt =====
-- Histories of scheduled_briefs.py: ticks of the dispatcher and jobs of the workers, one at a time.
use lifeflow.Prelude.{
  ℕ, Bool, true, ◌≡◌, refl, String, List, [], ◌∷◌, Option, none, some, find?, arith, if-cases, ◌==◌,
  nat_eq, Option-cases, inl, inr, ltb, ◌&&◌, subst,
}
use mathlib.Core.Option.{some-injective}
use lifeflow.Schedule.Instant.{Zone}
use lifeflow.Schedule.Run.{
  ScheduledRunStatus, ScheduledBriefRun, Brief, JobId, Store, Answer, is_pending, is_running,
  max_attempts,
}
use lifeflow.Schedule.Dispatch.{EnabledSchedule, plan_dispatch, DispatchTickResult}
use lifeflow.Schedule.Tick.{Redis, dispatch_tick}
use lifeflow.Schedule.Worker.{
  Failure, Generation, generated, failed_with, died, Job, claimed, claimable, claim, drop_run,
  brief_of, ended, mark_terminal, is_transient, retried, retry_enqueued, after_failure, generate,
  generate_unless, run_claimed, run_if, run_scheduled_generation, error_code_of, message_of,
  succeeded_with,
}
use lifeflow.Schedule.Consistent.{
  IsConsistent, is_given_up, claimed-IsConsistent, succeeded_with-IsConsistent, ended-IsConsistent,
  retried-IsConsistent,
}
use lifeflow.Schedule.Upkeep.{
  AllConsistent, put_run-AllConsistent, find-IsConsistent, plan_dispatch-Planned, none-some,
  finish_tick-AllConsistent,
}

pub data Event : Type 0 where
  ticks :
      (now : ℕ)
      → (String → Option Zone)
      → (ℕ → ℕ)
      → (ℕ → Bool)
      → Redis now
      → List EnabledSchedule
      → Event
  works : Job → ℕ → Event

abbrev pub tick_store : Option (Store × DispatchTickResult) → Store → Store
tick_store none db = db
tick_store (some (db', result)) db = db'

unfoldable pub step : Event → Store → Store
step (ticks now zone_info new_id claimed_elsewhere redis schedules) db =
    tick_store (dispatch_tick now zone_info new_id claimed_elsewhere redis schedules db) db
step (works j run_id) db = run_scheduled_generation j run_id db

unfoldable pub steps : List Event → Store → Store
steps [] db = db
steps (e ∷ es) db = steps es (step e db)

claim-AllConsistent :
    (now run_id : ℕ) (rs : List ScheduledBriefRun)
    → AllConsistent rs
    → AllConsistent (claim now run_id rs)
unfolding claim
claim-AllConsistent now run_id [] vs = tt
claim-AllConsistent now run_id (r ∷ rs) (v, vs) =
    (ground (arith, claimed-IsConsistent now r), claim-AllConsistent now run_id rs vs)

drop_run-AllConsistent :
    (run_id : ℕ) (rs : List ScheduledBriefRun)
    → AllConsistent rs
    → AllConsistent (drop_run run_id rs)
drop_run-AllConsistent run_id [] vs = tt
drop_run-AllConsistent run_id (r ∷ rs) (v, vs) =
    if-cases AllConsistent (r.id == run_id) (λ _. drop_run-AllConsistent run_id rs vs)
      (λ _. (v, drop_run-AllConsistent run_id rs vs))

mark_terminal-AllConsistent :
    (now : ℕ) (status : ScheduledRunStatus) (event_type code message : String)
    (r : ScheduledBriefRun) (db : Store)
    → is_given_up status ≡ true
    → IsConsistent r
    → AllConsistent db.runs
    → AllConsistent (mark_terminal now status event_type code message r db).runs
mark_terminal-AllConsistent now status event_type code message r db g v vs =
    put_run-AllConsistent (ended now status code message r) db.runs
      (ended-IsConsistent now status code message r g v) vs

abbrev Kept : Store → Type 0
Kept db = AllConsistent db.runs

after_failure-AllConsistent :
    (now : ℕ) (redis : Option JobId → Answer) (f : Failure) (r : ScheduledBriefRun) (db : Store)
    → is_running r.status ≡ true
    → IsConsistent r
    → AllConsistent db.runs
    → AllConsistent (after_failure now redis f r db).runs
unfolding after_failure
after_failure-AllConsistent now redis f r db running v vs =
    if-cases Kept (is_transient f && ltb r.attempt_count max_attempts)
      (λ e.
        put_run-AllConsistent
          (retry_enqueued now (redis (retried now f r).queue_job_id) (retried now f r)) db.runs
          (retried-IsConsistent now f (redis (retried now f r).queue_job_id) r running
            (ground arith) v)
          vs)
      (λ _.
        mark_terminal-AllConsistent now ScheduledRunStatus.failed "scheduled_brief.failed"
          (error_code_of f) (message_of f) r db refl v vs)

module _ (j : Job) where
  generate-AllConsistent :
      (g : Generation) (r : ScheduledBriefRun) (db : Store)
      → is_running r.status ≡ true
      → IsConsistent r
      → AllConsistent db.runs
      → AllConsistent (generate j g r db).runs
  generate-AllConsistent (generated id version) r db running v vs =
      put_run-AllConsistent (succeeded_with j.now id r) db.runs
        (succeeded_with-IsConsistent j.now id r v) vs
  generate-AllConsistent (failed_with f) r db running v vs =
      if-cases Kept j.run_deleted_later (λ _. drop_run-AllConsistent r.id db.runs vs)
        (λ _. after_failure-AllConsistent j.now j.redis f r db running v vs)
  generate-AllConsistent died r db running v vs = vs

  generate_unless-AllConsistent :
      (o : Option Brief) (r : ScheduledBriefRun) (db : Store)
      → is_running r.status ≡ true
      → IsConsistent r
      → AllConsistent db.runs
      → AllConsistent (generate_unless j o r db).runs
  generate_unless-AllConsistent (some b) r db running v vs =
      put_run-AllConsistent (succeeded_with j.now b.id r) db.runs
        (succeeded_with-IsConsistent j.now b.id r v) vs
  generate_unless-AllConsistent none r db running v vs =
      generate-AllConsistent j.generation r db running v vs

  run_claimed-AllConsistent :
      (r : ScheduledBriefRun) (db : Store)
      → is_running r.status ≡ true
      → IsConsistent r
      → AllConsistent db.runs
      → AllConsistent (run_claimed j r db).runs
  unfolding run_claimed
  run_claimed-AllConsistent r db running v vs =
      if-cases Kept j.run_deleted (λ _. drop_run-AllConsistent r.id db.runs vs)
        (λ _.
          if-cases Kept j.user_present
            (λ _.
              if-cases Kept j.enabled
                (λ _. generate_unless-AllConsistent (brief_of r.id db.briefs) r db running v vs)
                (λ _.
                  mark_terminal-AllConsistent j.now ScheduledRunStatus.skipped
                    "scheduled_brief.skipped" _ _ r db refl v vs))
            (λ _.
              mark_terminal-AllConsistent j.now ScheduledRunStatus.skipped "scheduled_brief.skipped"
                _ _ r db refl v vs))

  run_if-AllConsistent :
      (o : Option ScheduledBriefRun) (db : Store)
      → ((r : ScheduledBriefRun) → o ≡ some r → IsConsistent r × (is_pending r.status ≡ true))
      → AllConsistent db.runs
      → AllConsistent (run_if j o db).runs
  run_if-AllConsistent none db found vs = vs
  run_if-AllConsistent (some r) db found vs =
      let (v, pending) = found r refl in
      run_claimed-AllConsistent (claimed j.now r) db refl (claimed-IsConsistent j.now r pending v)
        vs

  run_scheduled_generation-AllConsistent :
      (run_id : ℕ) (db : Store)
      → AllConsistent db.runs
      → AllConsistent (run_scheduled_generation j run_id db).runs
  unfolding run_scheduled_generation
  run_scheduled_generation-AllConsistent run_id db vs =
      run_if-AllConsistent (find? (claimable run_id) db.runs) _
        (λ r e. let (v, t) = find-IsConsistent (claimable run_id) db.runs vs e in (v, ground arith))
        (claim-AllConsistent j.now run_id db.runs vs)

tick_store-AllConsistent :
    (o : Option (Store × DispatchTickResult)) (db : Store)
    → ((db' : Store) (result : DispatchTickResult)
        → o ≡ some (db', result)
        → AllConsistent db'.runs)
    → AllConsistent db.runs
    → AllConsistent (tick_store o db).runs
tick_store-AllConsistent none db h vs = vs
tick_store-AllConsistent (some (db', result)) db h vs = h db' result refl

module _ (now : ℕ) (zone_info : String → Option Zone) (new_id : ℕ → ℕ)
    (claimed_elsewhere : ℕ → Bool) (redis : Redis now) where
  dispatch_tick-AllConsistent :
      (schedules : List EnabledSchedule) (db db' : Store) (result : DispatchTickResult)
      → AllConsistent db.runs
      → dispatch_tick now zone_info new_id claimed_elsewhere redis schedules db ≡ some (db', result)
      → AllConsistent db'.runs
  unfolding dispatch_tick
  dispatch_tick-AllConsistent schedules db db' result vs h =
      elim (Option-cases (plan_dispatch now zone_info new_id claimed_elsewhere schedules db)) [
        | inl e ↦ absurd (none-some (rw (e, dispatch_tick) at h))
        | inr (s, e) ↦
            let ended =
              finish_tick-AllConsistent now zone_info new_id claimed_elsewhere redis s db
                (plan_dispatch-Planned now zone_info new_id claimed_elsewhere schedules db vs e) in
            let same = some-injective _ _ (rw (e, dispatch_tick) at h) in
            subst (λ (t : Store × DispatchTickResult). AllConsistent t.0.runs) same ended
      ]

step-AllConsistent :
    (e : Event) (db : Store) → AllConsistent db.runs → AllConsistent (step e db).runs
unfolding step
step-AllConsistent (ticks now zone_info new_id claimed_elsewhere redis schedules) db vs =
    tick_store-AllConsistent _ db
      (λ db' result h.
        dispatch_tick-AllConsistent now zone_info new_id claimed_elsewhere redis schedules db db'
          result vs h)
      vs
step-AllConsistent (works j run_id) db vs = run_scheduled_generation-AllConsistent j run_id db vs

-- Over any history of ticks and jobs, if every row is consistent at its start, every row is
-- consistent at its end.
pub steps-AllConsistent :
    (es : List Event) (db : Store) → AllConsistent db.runs → AllConsistent (steps es db).runs
unfolding steps
steps-AllConsistent [] db vs = vs
steps-AllConsistent (e ∷ es) db vs = steps-AllConsistent es (step e db) (step-AllConsistent e db vs)
