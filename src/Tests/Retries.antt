-- ===== src/Tests/Retries.antt =====
-- A read that fails twice and is answered the third time.
use lifeflow.Prelude.{ℕ, Bool, ltb, arith, none, if◌then◌else◌}
use lifeflow.Retry.{Attempt, returns, raises, RetryPolicy, retry_read}
use lifeflow.Retry.Bounds.{Bounded, retry_read-Bounded}

abbrev policy : RetryPolicy
policy = record {
  max_attempts = 3;
  base_delay = 500000;
  max_delay = 8000000;
  budget = 20000000;
  retry_after = none;
}

abbrev flaky : ℕ → Attempt ℕ ℕ
flaky attempt = if ltb attempt 3 then raises attempt else returns 70

retry_read-Bounded_example :
    Bounded policy
      (λ _. Bool.true)
      flaky
      (λ _. 500)
      3
      1
      0
      (retry_read policy (λ _. Bool.true) flaky (λ _. 500))
retry_read-Bounded_example =
    retry_read-Bounded policy (λ _. Bool.true) flaky (λ _. 500) (omega arith)
