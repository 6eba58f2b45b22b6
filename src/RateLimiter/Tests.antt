-- ===== src/RateLimiter/Tests.antt =====
-- Runs of a bucket with a request in each second and a burst of two (internal/processor/fetcher/rate_limiter/token_bucket.go).
use issue_tracker.Prelude.{
  ℕ, suc, ◌+◌, ◌-◌, ◌*◌, ◌≤◌, ◌<◌, ◌≡◌, true, false, some, List, [], ◌∷◌, refl, arith,
}
use issue_tracker.RateLimiter.{
  token, TokenBucketRateLimiter, new_rate_limiter, allow, refill, min_float, time_to_next_token,
}
use issue_tracker.RateLimiter.Flow.{allows, until, allows-le, allow-time_to_next_token}

abbrev full : TokenBucketRateLimiter
full = record { rate = 3600; burst = 2; tokens = 2 * token; last_refill = 0 }

abbrev empty : TokenBucketRateLimiter
empty = record { rate = 3600; burst = 2; tokens = 0; last_refill = 7 }

abbrev times : List ℕ
times = 1 ∷ 2 ∷ 3 ∷ 1000000000 ∷ 1000000001 ∷ []

new_rate_limiter_run : new_rate_limiter 3600 2 0 ≡ some full
unfolding new_rate_limiter
new_rate_limiter_run = refl

allows_run : (allows times full).1 ≡ 3
unfolding allows allow refill min_float
allows_run = refl

time_to_next_token_run : time_to_next_token empty ≡ 1000000000
unfolding time_to_next_token
time_to_next_token_run = refl

allows-le_example :
    ((allows times full).1 * token ≤ 2 * token + (until 0 times - 0) * 3600)
    × ((allows times full).0.tokens ≤ (allows times full).0.burst * token)
allows-le_example =
    allows-le times full (omega arith)
      (omega arith, (omega arith, (omega arith, (omega arith, (omega arith, tt)))))

allow-time_to_next_token_example :
    ((5 < time_to_next_token empty) → (allow (7 + 5) empty).1 ≡ false)
    × ((allow (7 + suc (time_to_next_token empty)) empty).1 ≡ true)
allow-time_to_next_token_example = allow-time_to_next_token empty 5 (omega arith) (omega arith)
