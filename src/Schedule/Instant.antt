-- ===== src/Schedule/Instant.antt =====
-- `resolve_local_schedule_instant` of scheduled_briefs.py. A time zone of the database is a
-- parameter: what its conversions do is not assumed.
use lifeflow.Prelude.{
  ℕ, zero, suc, ◌+◌, ◌*◌, Bool, true, false, ◌&&◌, Option, none, some, min, ltb, ◌==◌, nat_eq,
  if◌then◌else◌,
}

-- `ZoneInfo`, in seconds. A wall-clock time, counted from the epoch as if it were UTC, has two
-- readings (`fold` of PEP 495); the first reading is `fold=0`.
pub record Zone : Type 0 where
  pub first_reading : ℕ → ℕ
  pub second_reading : ℕ → ℕ
  pub local : ℕ → ℕ

pub data ScheduleClassification : Type 0 where
  valid ambiguous nonexistent : ScheduleClassification

pub record ScheduleResolution : Type 0 where
  pub utc : ℕ
  pub classification : ScheduleClassification

-- `_GAP_SEARCH_STEP`, and `_GAP_SEARCH_BOUND` in such steps.
abbrev pub gap_search_step : ℕ
gap_search_step = 60

abbrev pub gap_search_bound : ℕ
gap_search_bound = 240

-- `briefing_time`, a text `HH:MM`, by its two numbers.
pub record BriefingTime : Type 0 where
  pub hour : ℕ
  pub minute : ℕ

-- `datetime.combine(local_date, time(hour, minute))`; dates are counted from the epoch. `none` is
-- a `ValueError`.
unfoldable pub combine : ℕ → BriefingTime → Option ℕ
combine local_date t =
    if ltb t.hour 24 && ltb t.minute 60
    then some (local_date * 86400 + t.hour * 3600 + t.minute * 60)
    else none

module _ (z : Zone) where
  -- The loop of `_first_valid_instant_after_gap`, with the rounds that `elapsed` still leaves.
  unfoldable pub search_gap : ℕ → ℕ → Option ℕ
  search_gap zero candidate = none
  search_gap (suc rounds) candidate =
      let rest = search_gap rounds (candidate + gap_search_step) in
      let utc = z.first_reading candidate in if z.local utc == candidate then some utc else rest

  -- `elapsed <= bound` lets the first round and one for each step pass.
  unfoldable pub first_valid_instant_after_gap : ℕ → Option ℕ
  first_valid_instant_after_gap naive = search_gap (suc gap_search_bound) naive

  abbrev after_gap : Option ℕ → Option ScheduleResolution
  after_gap none = none
  after_gap (some utc) =
      some (record { utc = utc; classification = ScheduleClassification.nonexistent })

  abbrev once : ℕ → Option ScheduleResolution
  once utc = some (record { utc = utc; classification = ScheduleClassification.valid })

  abbrev twice : ℕ → ℕ → Option ScheduleResolution
  twice a b =
      if a == b
      then once a
      else some (record { utc = min a b; classification = ScheduleClassification.ambiguous })

  abbrev classify : ℕ → Bool → Bool → Option ScheduleResolution
  classify naive true true = twice (z.first_reading naive) (z.second_reading naive)
  classify naive true false = once (z.first_reading naive)
  classify naive false true = once (z.second_reading naive)
  classify naive false false = after_gap (first_valid_instant_after_gap naive)

  unfoldable pub resolve_naive : ℕ → Option ScheduleResolution
  resolve_naive naive =
      classify naive (z.local (z.first_reading naive) == naive)
        (z.local (z.second_reading naive) == naive)

  abbrev resolve_combined : Option ℕ → Option ScheduleResolution
  resolve_combined none = none
  resolve_combined (some naive) = resolve_naive naive

  unfoldable pub resolve_local_schedule_instant : ℕ → BriefingTime → Option ScheduleResolution
  resolve_local_schedule_instant local_date t = resolve_combined (combine local_date t)

  -- `compute_target_utc`
  abbrev utc_of : Option ScheduleResolution → Option ℕ
  utc_of none = none
  utc_of (some r) = some r.utc

  unfoldable pub compute_target_utc : ℕ → BriefingTime → Option ℕ
  compute_target_utc local_date t = utc_of (resolve_local_schedule_instant local_date t)
