-- ===== src/Schedule/Resolution.antt =====
-- What `resolve_local_schedule_instant` of scheduled_briefs.py returns, against the readings of the
-- wall-clock time.
use lifeflow.Prelude.{
  ℕ, zero, suc, ◌+◌, ◌*◌, ◌<◌, ◌≤◌, false, some, none, ◌==◌, nat_eq, ◌≡◌, ◌≢◌, arith, Bool-cases,
  inl, inr, ◌∙◌, ap, sym, subst, ◌⊎◌,
}
use lifeflow.Schedule.Instant.{
  Zone, ScheduleClassification, ScheduleResolution, gap_search_step, gap_search_bound, search_gap,
  first_valid_instant_after_gap, resolve_naive,
}

module _ (z : Zone) where
  abbrev pub Missing : ℕ → Type 0
  Missing naive = z.local (z.first_reading naive) ≢ naive

  -- The wall-clock time of a first reading that exists, `k` steps on, and the first such.
  pub record FirstAfter (rounds naive utc : ℕ) : Type 0 where
    pub steps : ℕ
    pub in_bound : steps < rounds
    pub reading : utc ≡ z.first_reading (naive + steps * gap_search_step)
    pub exists : z.local utc ≡ naive + steps * gap_search_step
    pub earlier : (j : ℕ) → j < steps → Missing (naive + j * gap_search_step)

  missing : (naive : ℕ) → (z.local (z.first_reading naive) == naive) ≡ false → Missing naive
  unfolding nat_eq
  missing naive h e = ground arith

  later_steps :
      (rounds naive utc : ℕ)
      → (z.local (z.first_reading naive) == naive) ≡ false
      → (f : FirstAfter rounds (naive + gap_search_step) utc) (j : ℕ) → j < suc f.steps
      → Missing (naive + j * gap_search_step)
  later_steps rounds naive utc skipped f zero lt =
      let step : naive ≡ naive + 0 * gap_search_step = omega arith in
      subst Missing step (missing naive skipped)
  later_steps rounds naive utc skipped f (suc j) lt =
      let step : naive + gap_search_step + j * gap_search_step ≡ naive + suc j * gap_search_step =
        omega arith in
      subst Missing step (f.earlier j (omega arith))

  later :
      (rounds naive utc : ℕ)
      → (z.local (z.first_reading naive) == naive) ≡ false
      → FirstAfter rounds (naive + gap_search_step) utc
      → FirstAfter (suc rounds) naive utc
  later rounds naive utc skipped f =
      let step : naive + gap_search_step + f.steps * gap_search_step
          ≡ naive + suc f.steps * gap_search_step =
        omega arith in
      record {
        steps = suc f.steps;
        in_bound = omega (arith, f.in_bound);
        reading = f.reading ∙ ap z.first_reading step;
        exists = f.exists ∙ step;
        earlier = later_steps rounds naive utc skipped f;
      }

  at_once :
      (rounds naive utc : ℕ)
      → z.first_reading naive ≡ utc
      → z.local (z.first_reading naive) ≡ naive
      → FirstAfter (suc rounds) naive utc
  at_once rounds naive utc reading found =
      let step : naive ≡ naive + 0 * gap_search_step = omega arith in
      record {
        steps = 0;
        in_bound = omega arith;
        reading = sym reading ∙ ap z.first_reading step;
        exists = ap z.local (sym reading) ∙ found ∙ step;
        earlier = λ j lt. absurd (omega (arith, lt));
      }

  search_gap_first :
      (rounds naive : ℕ) {utc : ℕ}
      → search_gap z rounds naive ≡ some utc
      → FirstAfter rounds naive utc
  unfolding search_gap
  search_gap_first zero naive h = cc
  search_gap_first (suc rounds) naive {utc} h =
      elim (Bool-cases (z.local (z.first_reading naive) == naive)) [
        | inl e ↦ at_once rounds naive utc (ground arith) (ground arith)
        | inr e ↦
            later rounds naive utc e (search_gap_first rounds (naive + gap_search_step) (rw e at h))
      ]

  search_gap_finds :
      (rounds naive k : ℕ)
      → k < rounds
      → z.local (z.first_reading (naive + k * gap_search_step)) ≡ naive + k * gap_search_step
      → search_gap z rounds naive ≢ none
  unfolding search_gap
  search_gap_finds zero naive k lt found = absurd (omega (arith, lt))
  search_gap_finds (suc rounds) naive zero lt found =
      let step : naive + 0 * gap_search_step ≡ naive = omega arith in
      let now : z.local (z.first_reading naive) ≡ naive =
        subst (λ n. z.local (z.first_reading n) ≡ n) step found in
      ground arith
  search_gap_finds (suc rounds) naive (suc k) lt found =
      let step : naive + suc k * gap_search_step ≡ naive + gap_search_step + k * gap_search_step =
        omega arith in
      let rest =
        search_gap_finds rounds (naive + gap_search_step) k (omega (arith, lt))
          (subst (λ n. z.local (z.first_reading n) ≡ n) step found) in
      ground arith

  -- What a resolution means.
  pub data Resolved (naive : ℕ) (r : ScheduleResolution) : Type 0 where
    is_unique :
        r.classification ≡ ScheduleClassification.valid
        → z.local r.utc ≡ naive
        → ((u : ℕ)
            → (u ≡ z.first_reading naive) ⊎ (u ≡ z.second_reading naive)
            → z.local u ≡ naive
            → u ≡ r.utc)
        → Resolved naive r
    is_earliest :
        r.classification ≡ ScheduleClassification.ambiguous
        → z.local r.utc ≡ naive
        → z.local (z.first_reading naive) ≡ naive
        → z.local (z.second_reading naive) ≡ naive
        → z.first_reading naive ≢ z.second_reading naive
        → r.utc ≤ z.first_reading naive
        → r.utc ≤ z.second_reading naive
        → Resolved naive r
    is_after_gap :
        r.classification ≡ ScheduleClassification.nonexistent
        → z.local (z.first_reading naive) ≢ naive
        → z.local (z.second_reading naive) ≢ naive
        → FirstAfter (suc gap_search_bound) naive r.utc
        → Resolved naive r

  -- A wall-clock time that `resolve_naive` resolves exists at the instant it returns and at no other
  -- reading (`valid`); or exists at both of its readings, which differ, and the instant returned is
  -- not later than either (`ambiguous`); or exists at neither, and the instant returned is the
  -- first reading of the first wall-clock time, in steps of a minute within four hours, that exists
  -- (`nonexistent`).
  pub resolve_naive-Resolved :
      (naive : ℕ) {r : ScheduleResolution} → resolve_naive z naive ≡ some r → Resolved naive r
  unfolding resolve_naive first_valid_instant_after_gap nat_eq
  resolve_naive-Resolved naive {r} h = elim (nat_eq.dec (z.local (z.first_reading naive)) naive) [
    | yes a ↦ elim (nat_eq.dec (z.local (z.second_reading naive)) naive) [
      | yes b ↦ elim (nat_eq.dec (z.first_reading naive) (z.second_reading naive)) [
        | yes s ↦ is_unique (ground arith) (ground arith) (λ u o e. ground arith)
        | no n ↦ is_earliest (ground arith) (ground arith) a b n (ground arith) (ground arith)
      ]
      | no b ↦ is_unique (ground arith) (ground arith) (λ u o e. ground arith)
    ]
    | no a ↦ elim (nat_eq.dec (z.local (z.second_reading naive)) naive) [
      | yes b ↦ is_unique (ground arith) (ground arith) (λ u o e. ground arith)
      | no b ↦
          is_after_gap (ground arith) a b
            (search_gap_first (suc gap_search_bound) naive (ground arith))
    ]
  ]

  -- `resolve_naive` returns a result when, within four hours of the wall-clock time and in steps of
  -- a minute from it, there is a wall-clock time that exists in its first reading.
  pub resolve_naive-total :
      (naive k : ℕ)
      → k ≤ gap_search_bound
      → z.local (z.first_reading (naive + k * gap_search_step)) ≡ naive + k * gap_search_step
      → resolve_naive z naive ≢ none
  unfolding resolve_naive first_valid_instant_after_gap nat_eq
  resolve_naive-total naive k le found =
      let finds = search_gap_finds (suc gap_search_bound) naive k (omega (arith, le)) found in
      ground arith
