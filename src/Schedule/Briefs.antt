-- ===== src/Schedule/Briefs.antt =====
-- The briefs that the workers of scheduled_briefs.py link to a run.
use lifeflow.Prelude.{
  ℕ, ◌+◌, ◌≤◌, Bool, false, ◌≡◌, refl, List, [], ◌∷◌, Option, none, some, find?, arith,
  if◌then◌else◌, if-cases, ◌==◌, nat_eq, Option-cases, inl, inr,
}
use lifeflow.Schedule.Run.{ScheduledBriefRun, Brief, JobId, Store, Answer}
use lifeflow.Schedule.Dispatch.{plan_dispatch}
use lifeflow.Schedule.Tick.{dispatch_tick}
use lifeflow.Schedule.Worker.{
  Failure, Generation, generated, failed_with, died, Job, claimed, claimable, brief_of,
  after_failure, generate, generate_unless, run_claimed, run_if, run_scheduled_generation,
}
use lifeflow.Schedule.Histories.{Event, ticks, works, step, steps}

abbrev belongs : ℕ → Option ℕ → Bool
belongs run_id none = false
belongs run_id (some i) = i == run_id

-- How many briefs are linked to a run.
abbrev pub briefs_for : ℕ → List Brief → ℕ
briefs_for run_id [] = 0
briefs_for run_id (b ∷ bs) =
    (if belongs run_id b.scheduled_run_id then 1 else 0) + briefs_for run_id bs

brief_of-none :
    (run_id : ℕ) (bs : List Brief) → brief_of run_id bs ≡ none → briefs_for run_id bs ≡ 0
unfolding brief_of
brief_of-none run_id [] h = refl
brief_of-none run_id (b ∷ bs) h = ground (arith, brief_of-none run_id bs)

module _ (run_id : ℕ) where
  abbrev AtMostOne : Store → Type 0
  AtMostOne db = briefs_for run_id db.briefs ≤ 1

  after_failure-briefs :
      (now : ℕ) (redis : Option JobId → Answer) (f : Failure) (r : ScheduledBriefRun) (db : Store)
      → AtMostOne db
      → AtMostOne (after_failure now redis f r db)
  unfolding after_failure
  after_failure-briefs now redis f r db le = if-cases AtMostOne _ (λ _. le) (λ _. le)

  module _ (j : Job) where
    generate-briefs :
        (g : Generation) (r : ScheduledBriefRun) (db : Store)
        → brief_of r.id db.briefs ≡ none
        → AtMostOne db
        → AtMostOne (generate j g r db)
    unfolding nat_eq
    generate-briefs (generated id version) r db fresh le =
        ground (arith, brief_of-none r.id db.briefs fresh)
    generate-briefs (failed_with f) r db fresh le =
        if-cases AtMostOne j.run_deleted_later (λ _. le)
          (λ _. after_failure-briefs j.now j.redis f r db le)
    generate-briefs died r db fresh le = le

    generate_unless-briefs :
        (o : Option Brief) (r : ScheduledBriefRun) (db : Store)
        → brief_of r.id db.briefs ≡ o
        → AtMostOne db
        → AtMostOne (generate_unless j o r db)
    generate_unless-briefs (some b) r db e le = le
    generate_unless-briefs none r db e le = generate-briefs j.generation r db e le

    run_claimed-briefs :
        (r : ScheduledBriefRun) (db : Store) → AtMostOne db → AtMostOne (run_claimed j r db)
    unfolding run_claimed
    run_claimed-briefs r db le =
        if-cases AtMostOne j.run_deleted (λ _. le)
          (λ _.
            if-cases AtMostOne j.user_present
              (λ _.
                if-cases AtMostOne j.enabled
                  (λ _. generate_unless-briefs (brief_of r.id db.briefs) r db refl le) (λ _. le))
              (λ _. le))

    run_if-briefs :
        (o : Option ScheduledBriefRun) (db : Store) → AtMostOne db → AtMostOne (run_if j o db)
    run_if-briefs none db le = le
    run_if-briefs (some r) db le = run_claimed-briefs (claimed j.now r) db le

  step-briefs : (e : Event) (db : Store) → AtMostOne db → AtMostOne (step e db)
  unfolding step run_scheduled_generation dispatch_tick
  step-briefs (ticks now zone_info new_id claimed_elsewhere redis schedules) db le =
      elim (Option-cases (plan_dispatch now zone_info new_id claimed_elsewhere schedules db)) [
        | inl e ↦ rw (e, step, dispatch_tick) le
        | inr (s, e) ↦ rw (e, step, dispatch_tick) le
      ]
  step-briefs (works j id) db le = run_if-briefs j (find? (claimable id) db.runs) _ le

  -- Over any history of ticks and jobs, a run that starts with at most one linked brief ends with
  -- at most one.
  pub steps-briefs :
      (es : List Event) (db : Store)
      → briefs_for run_id db.briefs ≤ 1
      → briefs_for run_id (steps es db).briefs ≤ 1
  unfolding steps
  steps-briefs [] db le = le
  steps-briefs (e ∷ es) db le = steps-briefs es (step e db) (step-briefs e db le)
