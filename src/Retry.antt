-- ===== src/Retry.antt =====
-- `retry_read` of retry.py. Times are microseconds; a random draw from [0, 1) is a number of
-- thousandths, and a jittered delay is rounded down to a microsecond.
pub mod Bounds
use lifeflow.Prelude.{
  ℕ, zero, suc, ◌+◌, ◌-◌, ◌*◌, ◌/◌, ◌^◌, Bool, true, false, not, List, [], ◌∷◌, Option, none, some,
  min, max, ltb, if◌then◌else◌,
}

-- How one call of `fn` ends.
pub data Attempt (A E : Type 0) : Type 0 where
  returns : A → Attempt A E
  raises : E → Attempt A E

-- How `retry_read` ends; `no_attempt` is the failed assertion when no attempt is allowed.
pub data Ending (A E : Type 0) : Type 0 where
  returned : A → Ending A E
  raised : E → Ending A E
  no_attempt : Ending A E

pub record Retried (A E : Type 0) : Type 0 where
  pub ending : Ending A E
  pub calls : ℕ
  pub sleeps : List ℕ

pub record RetryPolicy : Type 0 where
  pub max_attempts : ℕ
  pub base_delay : ℕ
  pub max_delay : ℕ
  pub budget : ℕ
  pub retry_after : Option ℕ

abbrev floored : ℕ → Option ℕ → ℕ → ℕ
floored max_delay none delay = delay
floored max_delay (some seconds) delay = min (max delay seconds) max_delay

-- The delay behind the failed attempt of a number, counted from 1, at a random draw.
unfoldable pub delay_after : RetryPolicy → ℕ → ℕ → ℕ
delay_after p attempt rand =
    let capped = min (p.base_delay * 2 ^ (attempt - 1)) p.max_delay in
    let jittered = min (capped * (500 + rand) / 1000) p.max_delay in
    floored p.max_delay p.retry_after jittered

module _ {A E : Type 0} (p : RetryPolicy) (is_retryable : E → Bool) (fn : ℕ → Attempt A E)
    (rand : ℕ → ℕ) where
  abbrev pub stop : Ending A E → ℕ → Retried A E
  stop ending calls = record { ending = ending; calls = calls; sleeps = [] }

  abbrev pub slept : ℕ → Retried A E → Retried A E
  slept delay r = record r { sleeps = delay ∷ r.sleeps }

  -- The last attempt that is allowed, and any other.
  abbrev pub last_attempt : ℕ → Attempt A E → Retried A E
  last_attempt attempt (returns a) = stop (returned a) attempt
  last_attempt attempt (raises e) = stop (raised e) attempt

  abbrev pub one_attempt : ℕ → ℕ → ℕ → Retried A E → Attempt A E → Retried A E
  one_attempt attempt elapsed delay rest (returns a) = stop (returned a) attempt
  one_attempt attempt elapsed delay rest (raises e) =
      if not (is_retryable e)
      then stop (raised e) attempt
      else if ltb p.budget (elapsed + delay)
      then stop (raised e) attempt
      else slept delay rest

  -- The loop, with the attempts that are left, at the number of the next one.
  unfoldable pub retry_loop : ℕ → ℕ → ℕ → Retried A E
  retry_loop zero attempt elapsed = stop no_attempt 0
  retry_loop (suc zero) attempt elapsed = last_attempt attempt (fn attempt)
  retry_loop (suc (suc left)) attempt elapsed =
      let delay = delay_after p attempt (rand attempt) in
      one_attempt attempt elapsed delay (retry_loop (suc left) (attempt + 1) (elapsed + delay))
        (fn attempt)

  unfoldable pub retry_read : Retried A E
  retry_read = retry_loop p.max_attempts 1 0
