-- ===== src/Fetcher/Retry/Tests.antt =====
-- The retry loop and its backoff (internal/processor/fetcher/core/retry.go) at concrete inputs.
use issue_tracker.Prelude.{ℕ, zero, suc, ◌≡◌, refl, subst, Option, none, some, arith}
use issue_tracker.Prelude.Keys.{string_eq}
use issue_tracker.Fetcher.Errors.{Error, new_network_error}
use issue_tracker.Fetcher.Retry.{default_retry_policy, Run, with_retry, is_retryable}
use issue_tracker.Fetcher.Retry.Laws.{Outcome, with_retry-Outcome}

refused : Error
unfolding new_network_error
refused = new_network_error "NET_001" "refused" "u" none

-- The first call fails, the second succeeds.
second : ℕ → Option Error
second zero = some refused
second (suc n) = none

flaky : Run
flaky = record { fn = second; interrupted = λ n. none }

flaky_result : with_retry flaky default_retry_policy ≡ (none, 2)
unfolding with_retry flaky second refused is_retryable
flaky_result = refl

with_retry-Outcome_example : Outcome flaky default_retry_policy (none, 2)
with_retry-Outcome_example =
    subst (Outcome flaky default_retry_policy) flaky_result
      (with_retry-Outcome flaky default_retry_policy (omega arith))
