-- ===== src/Llm/RetryProvider/Tests.antt =====
-- Runs of the provider (pkg/llm/retry.go).
use issue_tracker.Prelude.{
  ℕ, zero, suc, ◌+◌, ◌≤◌, ◌<◌, ◌≡◌, ◌≢◌, refl, true, false, none, [], ◌∷◌, arith,
}
use issue_tracker.Llm.Errors.{Error, llm, llm_of, wraps, other, as_llm, is_retryable}
use issue_tracker.Llm.RetryProvider.{
  RetryPolicy, RetryProvider, default_rate_limit_retry_policy, default_network_retry_policy,
  new_retry_provider, Reply, answered, refused, Run, exhausted, next_by, loop, generate,
  compute_backoff,
}
use issue_tracker.Llm.RetryProvider.Laws.{FailsRetryably, generate_ends}

abbrev slow : Error
slow =
    wraps
      (llm (record { code = "rate_limit"; provider = "gemini"; message = "429"; retryable = true }))

abbrev lost : Error
lost =
    llm_of (record { code = "network"; provider = "gemini"; message = "reset"; retryable = true })
      (other "EOF")

abbrev denied : Error
denied = llm (record { code = "auth"; provider = "gemini"; message = "403"; retryable = false })

abbrev provider : RetryProvider
provider = record {
  rate_limit_p = default_rate_limit_retry_policy;
  network_p = default_network_retry_policy;
}

abbrev unset : RetryPolicy
unset = record {
  max_attempts = 0;
  initial_delay = 0;
  max_delay = 0;
  multiplier = 0;
  jitter = false;
}

abbrev replies : ℕ → Reply
replies zero = refused slow
replies (suc zero) = refused lost
replies (suc (suc k)) = answered "rules"

abbrev run : Run
run = record { inner = replies; draw = λ i. 0; interrupted = λ i. none }

abbrev all_slow : Run
all_slow = record { inner = λ i. refused slow; draw = λ i. 0; interrupted = λ i. none }

abbrev all_denied : Run
all_denied = record { inner = λ i. refused denied; draw = λ i. 0; interrupted = λ i. none }

generate-run : (generate provider run).waits ≡ 500000000 ∷ 10000000000 ∷ []
unfolding generate loop next_by as_llm compute_backoff
generate-run = refl

generate-all_slow : (generate provider all_slow).calls ≡ 5
unfolding generate loop next_by as_llm compute_backoff
generate-all_slow = refl

generate-all_denied : (generate provider all_denied).calls ≡ 1
unfolding generate loop next_by as_llm compute_backoff
generate-all_denied = refl

generate_ends_example :
    ((generate provider all_slow).result ≢ exhausted)
    × (0 < (generate provider all_slow).calls)
    × ((generate provider all_slow).calls + 1 ≤ 8)
unfolding new_retry_provider
generate_ends_example = generate_ends unset unset all_slow

replies-bad : (k : ℕ) → k < 2 → FailsRetryably run k
unfolding is_retryable as_llm
replies-bad zero h = (slow, (refl, refl))
replies-bad (suc zero) h = (lost, (refl, refl))
replies-bad (suc (suc k)) h = ground arith
