-- ===== src/Schedule/Drain.antt =====
-- What `dispatch_tick` of scheduled_briefs.py leaves behind.
use lifeflow.Prelude.{ℕ, false, ◌≡◌, List, [], ◌∷◌, Option}
use lifeflow.Schedule.Run.{ScheduledBriefRun}
use lifeflow.Schedule.Tick.{is_stale_running}

module _ (now : ℕ) where
  abbrev pub NoneStale : List ScheduledBriefRun → Type 0
  NoneStale [] = Unit
  NoneStale (r ∷ rs) = (is_stale_running now r ≡ false) × NoneStale rs
