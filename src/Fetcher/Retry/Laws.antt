-- ===== src/Fetcher/Retry/Laws.antt =====
-- The retry loop and its backoff (internal/processor/fetcher/core/retry.go).
use issue_tracker.Prelude.{
  ℕ, zero, suc, ◌+◌, ◌*◌, ◌/◌, ◌≤◌, ◌<◌, ◌≡◌, ◌⊎◌, refl, true, false, Option, none, some, arith,
  ◌-◌, Option-cases, Bool-cases, inl, inr, ◌∙◌, sym,
}
use issue_tracker.Fetcher.Errors.{Error}
use Prim.Native.Nat.{◌^◌}
use issue_tracker.Fetcher.Retry.{
  RetryPolicy, calculate_backoff, draws, is_retryable, Run, retry_loop, with_retry, interruption,
  capped,
}

-- Call number `k` failed with an error that is retried.
abbrev pub WasRetried : Run → RetryPolicy → ℕ → Type 0
WasRetried r policy k = (e : Error) × (r.fn k ≡ some e) × (is_retryable e policy ≡ true)

-- How a loop may end with a result after `n` calls: with the success of the last call; with the
-- error of the last call, which is not retried or used up the attempts; or with the error of the
-- context, in the wait for an attempt that was left.
pub data Ends (r : Run) (policy : RetryPolicy) (result : Option Error) (n : ℕ) : Type 0 where
  succeeded : (k : ℕ) → n ≡ suc k → r.fn k ≡ none → result ≡ none → Ends r policy result n
  failed :
      (k : ℕ) (e : Error)
      → n ≡ suc k
      → r.fn k ≡ some e
      → ((is_retryable e policy ≡ false) ⊎ (n ≡ policy.max_attempts))
      → result ≡ some e
      → Ends r policy result n
  stopped :
      (k : ℕ) (e : Error)
      → n ≡ suc k
      → n < policy.max_attempts
      → r.interrupted n ≡ some e
      → result ≡ some e
      → Ends r policy result n

abbrev pub Outcome : Run → RetryPolicy → Option Error × ℕ → Type 0
Outcome r policy (result, n) =
    Ends r policy result n
    × (n ≤ policy.max_attempts)
    × ((k : ℕ) → suc k < n → WasRetried r policy k)

lt_suc-cases : (k n : ℕ) → k < suc n → (k < n) ⊎ (k ≡ n)
lt_suc-cases k n h = omega arith

interruption-stopped :
    (r : Run) (n : ℕ) (e : Error)
    → interruption r n ≡ some e
    → (k : ℕ) × (n ≡ suc k) × (r.interrupted n ≡ some e)
unfolding interruption
interruption-stopped r zero e h = cc
interruption-stopped r (suc k) e h = (k, refl, h)

module _ (r : Run) (policy : RetryPolicy) where
  abbrev Before : ℕ → Type 0
  Before n = (k : ℕ) → k < n → WasRetried r policy k

  Before-suc : (n : ℕ) → Before n → WasRetried r policy n → Before (suc n)
  Before-suc n b w k h = elim (lt_suc-cases k n h) [ inl lt ↦ b k lt | inr e ↦ rw e w ]

  -- The loop at an attempt, and its error when the attempts are used up.
  abbrev Last : ℕ → Option Error → Type 0
  Last zero last = Unit {0}
  Last (suc n) last = r.fn n ≡ last

  used_up :
      (attempt : ℕ) (last : Option Error)
      → attempt ≡ policy.max_attempts
      → 0 < policy.max_attempts
      → Before attempt
      → Last attempt last
      → Outcome r policy (last, attempt)
  used_up zero last e p b l = absurd (omega arith)
  used_up (suc n) last e p b l =
      let (err, failed_with, _) = b n (omega arith) in
      (
        failed n err refl failed_with (inr e) (sym l ∙ failed_with),
        omega arith,
        λ k h. b k (omega arith),
      )

  retry_loop-Outcome :
      (left attempt : ℕ) (last : Option Error)
      → attempt + left ≡ policy.max_attempts
      → 0 < policy.max_attempts
      → Before attempt
      → Last attempt last
      → Outcome r policy (retry_loop r policy left attempt last)
  unfolding retry_loop
  retry_loop-Outcome zero attempt last e p b l = used_up attempt last (omega arith) p b l
  retry_loop-Outcome (suc left) attempt last e p b l =
      elim (Option-cases (interruption r attempt)) [
        | inr (err, stop) ↦
            rw (stop, retry_loop)
              (let (k, is_suc, halted) = interruption-stopped r attempt err stop in
                (
                  stopped k err is_suc (omega arith) halted refl,
                  omega arith,
                  λ j h. b j (omega arith),
                ))
        | inl go ↦
            rw (go, retry_loop)
              (elim (Option-cases (r.fn attempt)) [
                | inl good ↦
                    rw (good, retry_loop)
                      (succeeded attempt refl good refl, omega arith, λ k h. b k (omega arith))
                | inr (err, bad) ↦
                    rw (bad, retry_loop)
                      (elim (Bool-cases (is_retryable err policy)) [
                        | inr final ↦
                            rw (final, retry_loop)
                              (
                                failed attempt err refl bad (inl final) refl,
                                omega arith,
                                λ k h. b k (omega arith),
                              )
                        | inl again ↦
                            rw (again, retry_loop)
                              (retry_loop-Outcome left (suc attempt) (some err) (omega arith) p
                                (Before-suc attempt b (err, bad, again)) bad)
                      ])
              ])
      ]

-- With a positive number of attempts the loop ends in one of the ways of `Ends`, within that number
-- of calls, and each call before the last one failed with an error that the policy retries.
pub with_retry-Outcome :
    (r : Run) (policy : RetryPolicy)
    → 0 < policy.max_attempts
    → Outcome r policy (with_retry r policy)
unfolding with_retry
with_retry-Outcome r policy h =
    retry_loop-Outcome r policy policy.max_attempts 0 none (omega arith) h (λ k lt. elim lt [ ]) tt

scale_bounds :
    (d draw : ℕ)
    → draw < draws
    → (3 * d / 4 ≤ d * (3 * draws + 2 * draw) / (4 * draws))
      × (d * (3 * draws + 2 * draw) / (4 * draws) ≤ 5 * d / 4)
scale_bounds d draw h = grind arith

-- The delay before a retry is the nominal one, which no jitter changes, within a quarter; and the
-- nominal delay is at most the policy's limit.
calculate_backoff_bounds :
    (policy : RetryPolicy) (attempt draw : ℕ)
    → draw < draws
    → let nominal = calculate_backoff (record policy { jitter = false }) attempt 0 in
      let delay = calculate_backoff policy attempt draw in
      (3 * nominal / 4 ≤ delay) × (delay ≤ 5 * nominal / 4) × (nominal ≤ policy.max_delay)
unfolding calculate_backoff
calculate_backoff_bounds policy attempt draw h = ground (
  arith,
  scale_bounds (capped policy (policy.initial_delay * policy.multiplier ^ (attempt - 1))) draw,
)
