-- ===== src/Retry/Bounds.antt =====
-- The attempts, the sleeps and the ending of `retry_read` of retry.py.
use lifeflow.Prelude.{
  ℕ, zero, suc, ◌+◌, ◌-◌, ◌≤◌, ◌<◌, Bool, true, not, ◌≡◌, refl, List, [], ◌∷◌, max, ltb, arith,
  if-cases, nat_eq, ap, ◌∙◌, subst,
}
use lifeflow.Retry.{
  Attempt, returns, raises, Ending, returned, raised, no_attempt, Retried, RetryPolicy, delay_after,
  stop, slept, last_attempt, one_attempt, retry_loop, retry_read,
}

abbrev pub total : List ℕ → ℕ
total [] = 0
total (d ∷ ds) = d + total ds

abbrev pub AllWithin : ℕ → List ℕ → Type 0
AllWithin bound [] = Unit
AllWithin bound (d ∷ ds) = (d ≤ bound) × AllWithin bound ds

delay_after-bound : (p : RetryPolicy) (attempt rand : ℕ) → delay_after p attempt rand ≤ p.max_delay
unfolding delay_after
delay_after-bound p attempt rand = ground arith

module _ {A E : Type 0} (p : RetryPolicy) (is_retryable : E → Bool) (fn : ℕ → Attempt A E)
    (rand : ℕ → ℕ) where
  -- The ending is that of the last call.
  abbrev pub FromLast : Ending A E → ℕ → Type 0
  FromLast (returned a) calls = fn calls ≡ returns a
  FromLast (raised e) calls = fn calls ≡ raises e
  FromLast no_attempt calls = calls ≡ 0

  -- A loop that starts at an attempt with some attempts left and some time slept.
  pub record Bounded (left attempt elapsed : ℕ) (r : Retried A E) : Type 0 where
    pub at_least : attempt ≤ r.calls
    pub at_most : r.calls < attempt + left
    pub slept_time : elapsed + total r.sleeps ≤ max elapsed p.budget
    pub each_sleep : AllWithin p.max_delay r.sleeps
    pub from_last : FromLast r.ending r.calls
    pub earlier :
        (n : ℕ) → attempt ≤ n → n < r.calls → (e : E) × (fn n ≡ raises e) × (is_retryable e ≡ true)

  stop-Bounded :
      (left attempt elapsed : ℕ) (ending : Ending A E)
      → FromLast ending attempt
      → Bounded (suc left) attempt elapsed (stop p is_retryable fn rand ending attempt)
  stop-Bounded left attempt elapsed ending last = record {
    at_least = omega arith;
    at_most = omega arith;
    slept_time = ground arith;
    each_sleep = tt;
    from_last = last;
    earlier = λ n le lt. absurd (omega (arith, le, lt));
  }

  slept-Bounded :
      (left attempt elapsed delay : ℕ) (e : E) (r : Retried A E)
      → fn attempt ≡ raises e
      → is_retryable e ≡ true
      → delay ≤ p.max_delay
      → elapsed + delay ≤ p.budget
      → Bounded (suc left) (attempt + 1) (elapsed + delay) r
      → Bounded (suc (suc left)) attempt elapsed (slept p is_retryable fn rand delay r)
  slept-Bounded left attempt elapsed delay e r failed again short in_budget b = record {
    at_least = omega (arith, b.at_least);
    at_most = omega (arith, b.at_most);
    slept_time = ground (arith, b.slept_time);
    each_sleep = (short, b.each_sleep);
    from_last = b.from_last;
    earlier = λ n le lt. elim (nat_eq.dec n attempt) [
      | yes same ↦ (e, ap fn same ∙ failed, again)
      | no other ↦ b.earlier n (omega (arith, le, other)) lt
    ];
  }

  last_attempt-Bounded :
      (attempt elapsed : ℕ) (a : Attempt A E)
      → fn attempt ≡ a
      → Bounded 1 attempt elapsed (last_attempt p is_retryable fn rand attempt a)
  last_attempt-Bounded attempt elapsed (returns a) h = stop-Bounded 0 attempt elapsed (returned a) h
  last_attempt-Bounded attempt elapsed (raises e) h = stop-Bounded 0 attempt elapsed (raised e) h

  one_attempt-Bounded :
      (left attempt elapsed delay : ℕ) (rest : Retried A E) (a : Attempt A E)
      → fn attempt ≡ a
      → delay ≤ p.max_delay
      → Bounded (suc left) (attempt + 1) (elapsed + delay) rest
      → Bounded
          (suc (suc left))
          attempt
          elapsed
          (one_attempt p is_retryable fn rand attempt elapsed delay rest a)
  one_attempt-Bounded left attempt elapsed delay rest (returns a) h short b =
      stop-Bounded (suc left) attempt elapsed (returned a) h
  one_attempt-Bounded left attempt elapsed delay rest (raises e) h short b =
      if-cases (Bounded (suc (suc left)) attempt elapsed) (not (is_retryable e))
        (λ _. stop-Bounded (suc left) attempt elapsed (raised e) h)
        (λ again.
          if-cases (Bounded (suc (suc left)) attempt elapsed) (ltb p.budget (elapsed + delay))
            (λ _. stop-Bounded (suc left) attempt elapsed (raised e) h)
            (λ in_budget.
              slept-Bounded left attempt elapsed delay e rest h (ground arith) short (ground arith)
                b))

  retry_loop-Bounded :
      (left attempt elapsed : ℕ)
      → Bounded
          (suc left)
          attempt
          elapsed
          (retry_loop p is_retryable fn rand (suc left) attempt elapsed)
  unfolding retry_loop
  retry_loop-Bounded zero attempt elapsed = last_attempt-Bounded attempt elapsed (fn attempt) refl
  retry_loop-Bounded (suc left) attempt elapsed =
      let delay = delay_after p attempt (rand attempt) in
      one_attempt-Bounded left attempt elapsed delay
        (retry_loop p is_retryable fn rand (suc left) (attempt + 1) (elapsed + delay)) (fn attempt)
        refl (delay_after-bound p attempt (rand attempt))
        (retry_loop-Bounded left (attempt + 1) (elapsed + delay))

  -- When at least one attempt is allowed, `retry_read` calls `fn` at least once and at most the
  -- allowed number of times, sleeps no longer than its budget in total and than the ceiling each
  -- time, ends with what its last call ended with, and every call before that raised a retryable
  -- exception.
  pub retry_read-Bounded :
      1 ≤ p.max_attempts → Bounded p.max_attempts 1 0 (retry_read p is_retryable fn rand)
  unfolding retry_read
  retry_read-Bounded some_attempt =
      let more : suc (p.max_attempts - 1) ≡ p.max_attempts = omega (arith, some_attempt) in
      subst (λ n. Bounded n 1 0 (retry_loop p is_retryable fn rand n 1 0)) more
        (retry_loop-Bounded (p.max_attempts - 1) 1 0)
