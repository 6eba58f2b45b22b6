-- ===== src/Fetcher/Retry.antt =====
-- internal/processor/fetcher/core/retry.go: the retry policy, its backoff and the retry loop.
-- Floats are exact here: every policy of the program multiplies by 2.0, so the multiplier is a
-- natural number; a draw of `rand.Float64()` is `draw / 2 ^ 53`, and a delay is rounded down once.
mod Laws
mod Tests
use Prim.Native.Nat.{◌^◌}
use issue_tracker.Prelude.{
  ℕ, zero, suc, ◌+◌, ◌-◌, ◌*◌, ◌/◌, Bool, true, false, ◌&&◌, Option, none, some, String, List, [],
  ◌∷◌, ltb, if◌then◌else◌, ◌==◌,
}
use issue_tracker.Prelude.Keys.{string_eq}
use issue_tracker.Fetcher.Errors.{Error, Info, as_crawler, canceled}
use issue_tracker.Fetcher.Errors.Category

pub record RetryPolicy : Type 0 where
  pub max_attempts : ℕ
  pub initial_delay : ℕ
  pub max_delay : ℕ
  pub multiplier : ℕ
  pub jitter : Bool
  pub retryable_errors : List String

abbrev pub default_retry_policy : RetryPolicy
default_retry_policy = record {
  max_attempts = 3;
  initial_delay = 1000000000;
  max_delay = 30000000000;
  multiplier = 2;
  jitter = true;
  retryable_errors = Category.network ∷ Category.timeout ∷ Category.rate_limit ∷ [];
}

-- 2 ^ 53, the number of values of `rand.Float64()`.
abbrev pub draws : ℕ
draws = 9007199254740992

capped : RetryPolicy → ℕ → ℕ
capped policy delay = if ltb policy.max_delay delay then policy.max_delay else delay

-- `attempt` is at least 1 at every call. With jitter the delay is scaled by 0.75 + 0.5 * draw.
unfoldable pub calculate_backoff : RetryPolicy → ℕ → ℕ → ℕ
unfolding capped
calculate_backoff policy attempt draw =
    let delay = capped policy (policy.initial_delay * policy.multiplier ^ (attempt - 1)) in
    if policy.jitter then delay * (3 * draws + 2 * draw) / (4 * draws) else delay

contains : List String → String → Bool
contains [] c = false
contains (x ∷ xs) c = let rest = contains xs c in if c == x then true else rest

retryable_in : Option Info → RetryPolicy → Bool
retryable_in none policy = false
retryable_in (some i) policy = i.retryable && contains policy.retryable_errors i.category

unfoldable pub is_retryable : Error → RetryPolicy → Bool
unfolding retryable_in contains as_crawler
is_retryable err policy = retryable_in (as_crawler err) policy

-- What the loop meets: the result of each call of `fn` (`none` is nil), and whether the context
-- ends during the wait before an attempt, with its error.
pub record Run : Type 0 where
  pub fn : ℕ → Option Error
  pub interrupted : ℕ → Option Error

-- The wait before every attempt but the first.
interruption : Run → ℕ → Option Error
interruption r zero = none
interruption r (suc n) = r.interrupted (suc n)

-- The loop at `attempt`, with `left` attempts to go: the result, and how often `fn` was called.
retry_loop : Run → RetryPolicy → ℕ → ℕ → Option Error → Option Error × ℕ
retry_loop r policy zero attempt last = (last, attempt)
retry_loop r policy (suc left) attempt last = elim (interruption r attempt) [
  | some stopped ↦ (some stopped, attempt)
  | none ↦ elim (r.fn attempt) [
    | none ↦ (none, suc attempt)
    | some err ↦ elim (is_retryable err policy) [
      | true ↦ retry_loop r policy left (suc attempt) (some err)
      | false ↦ (some err, suc attempt)
    ]
  ]
]

unfoldable pub with_retry : Run → RetryPolicy → Option Error × ℕ
unfolding retry_loop interruption
with_retry r policy = retry_loop r policy policy.max_attempts 0 none
