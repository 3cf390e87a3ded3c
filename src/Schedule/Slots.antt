-- ===== src/Schedule/Slots.antt =====
-- The slots, one per user and local date, that `plan_dispatch` of scheduled_briefs.py fills.
use lifeflow.Prelude.{
  ℕ, ◌+◌, ◌/◌, Bool, true, false, ◌&&◌, ◌≡◌, refl, String, List, [], ◌∷◌, Option, none, some, any,
  length, arith, ◌==◌, nat_eq, Option-cases, inl, inr, subst, ltb, length-append,
}
use mathlib.Core.Option.{some-injective}
use lifeflow.Schedule.Instant.{Zone}
use lifeflow.Schedule.Run.{ScheduledBriefRun, Store, get_for_local_date}
use lifeflow.Schedule.Dispatch.{
  EnabledSchedule, Planning, DispatchPlan, new_run, due_step, plan_due, plan_open, plan_in,
  plan_one, plan_all, plan_dispatch,
}
use lifeflow.Schedule.Upkeep.{none-some}

abbrev pub has_slot : ℕ → ℕ → List ScheduledBriefRun → Bool
has_slot user_id local_date = any (λ r. r.user_id == user_id && r.local_brief_date == local_date)

-- The unique constraint of the table.
abbrev pub OneEach : List ScheduledBriefRun → Type 0
OneEach [] = Unit
OneEach (r ∷ rs) = (has_slot r.user_id r.local_brief_date rs ≡ false) × OneEach rs

-- The schedules that a plan accounts for.
abbrev pub accounted : DispatchPlan → ℕ
accounted p =
    length p.to_enqueue + p.skipped_grace + p.already_handled + p.not_due + p.invalid_timezone

get_for_local_date-none :
    (user_id local_date : ℕ) (rs : List ScheduledBriefRun)
    → get_for_local_date user_id local_date rs ≡ none
    → has_slot user_id local_date rs ≡ false
unfolding get_for_local_date
get_for_local_date-none user_id local_date [] h = refl
get_for_local_date-none user_id local_date (r ∷ rs) h =
    ground (arith, get_for_local_date-none user_id local_date rs)

-- What a round does: it keeps the constraint, and accounts for one more schedule.
abbrev Grown : Planning → Planning → Type 0
Grown s s' = (OneEach s.runs → OneEach s'.runs) × (accounted s'.plan ≡ accounted s.plan + 1)

module _ (now : ℕ) (zone_info : String → Option Zone) (new_id : ℕ → ℕ)
    (claimed_elsewhere : ℕ → Bool) where
  due_step-Grown :
      (early taken : Bool) (schedule : EnabledSchedule) (local_date target : ℕ) (s : Planning)
      → has_slot schedule.user_id local_date s.runs ≡ false
      → Grown s
          (due_step now zone_info new_id claimed_elsewhere early taken schedule local_date target s)
  due_step-Grown true taken schedule local_date target s fresh = (λ u. u, omega arith)
  due_step-Grown false true schedule local_date target s fresh = (λ u. u, omega arith)
  due_step-Grown false false schedule local_date target s fresh =
      let r = new_run now (new_id schedule.user_id) schedule local_date target in
      (λ u. ground (arith, fresh, u), ground (arith, length-append s.plan.to_enqueue (r ∷ [])))

  plan_due-Grown :
      (schedule : EnabledSchedule) (local_date : ℕ) (o : Option ℕ) (s : Planning) {s' : Planning}
      → has_slot schedule.user_id local_date s.runs ≡ false
      → plan_due now zone_info new_id claimed_elsewhere schedule local_date o s ≡ some s'
      → Grown s s'
  plan_due-Grown schedule local_date none s fresh h = absurd (none-some h)
  plan_due-Grown schedule local_date (some target) s fresh h =
      subst (Grown s) (some-injective _ _ h) (
        due_step-Grown (ltb now target) (claimed_elsewhere schedule.user_id) schedule local_date
          target s fresh)

  plan_open-Grown :
      (schedule : EnabledSchedule) (zone : Zone) (local_date : ℕ) (o : Option ScheduledBriefRun)
      (s : Planning) {s' : Planning}
      → get_for_local_date schedule.user_id local_date s.runs ≡ o
      → plan_open now zone_info new_id claimed_elsewhere schedule zone local_date o s ≡ some s'
      → Grown s s'
  plan_open-Grown schedule zone local_date (some r) s e h =
      subst (Grown s) (some-injective _ _ h) (λ u. u, omega arith)
  plan_open-Grown schedule zone local_date none s e h =
      plan_due-Grown schedule local_date _ s
        (get_for_local_date-none schedule.user_id local_date s.runs e) h

  plan_in-Grown :
      (schedule : EnabledSchedule) (o : Option Zone) (s : Planning) {s' : Planning}
      → plan_in now zone_info new_id claimed_elsewhere schedule o s ≡ some s'
      → Grown s s'
  plan_in-Grown schedule none s h = subst (Grown s) (some-injective _ _ h) (λ u. u, omega arith)
  plan_in-Grown schedule (some zone) s h =
      plan_open-Grown schedule zone (zone.local now / 86400) _ s refl h

  plan_all-Grown :
      (schedules : List EnabledSchedule) (s : Planning) {s' : Planning}
      → plan_all now zone_info new_id claimed_elsewhere schedules s ≡ some s'
      → (OneEach s.runs → OneEach s'.runs)
        × (accounted s'.plan ≡ accounted s.plan + length schedules)
  unfolding plan_all plan_one
  plan_all-Grown [] s {s'} h =
      subst
        (λ (t : Planning).
          (OneEach s.runs → OneEach t.runs) × (accounted t.plan ≡ accounted s.plan + 0))
        (some-injective s s' h) (λ u. u, omega arith)
  plan_all-Grown (schedule ∷ schedules) s {s'} h =
      elim (Option-cases (plan_one now zone_info new_id claimed_elsewhere schedule s)) [
        | inl e ↦ absurd (none-some (rw (e, plan_all) at h))
        | inr (t, e) ↦
            let (keeps, counts) = plan_in-Grown schedule (zone_info schedule.timezone) s e in
            let (keeps', counts') = plan_all-Grown schedules t (rw (e, plan_all) at h) in
            (λ u. keeps' (keeps u), omega (arith, counts, counts'))
      ]

  -- A plan keeps the table to one run for a user and local date, if the table starts so, and puts
  -- every enabled schedule into exactly one of its five counts.
  pub plan_dispatch-OneEach :
      (schedules : List EnabledSchedule) (db : Store) {s : Planning}
      → OneEach db.runs
      → plan_dispatch now zone_info new_id claimed_elsewhere schedules db ≡ some s
      → OneEach s.runs × (accounted s.plan ≡ length schedules)
  unfolding plan_dispatch
  plan_dispatch-OneEach schedules db {s} one h =
      let (keeps, counts) = plan_all-Grown schedules _ h in (keeps one, omega (arith, counts))
