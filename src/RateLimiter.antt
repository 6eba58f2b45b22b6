-- ===== src/RateLimiter.antt =====
-- internal/processor/fetcher/rate_limiter/token_bucket.go: the token bucket that limits the requests to an address.
-- Floats are exact: a token is `token` parts, as many as there are nanoseconds in an hour, so that the requests of
-- an hour are the parts that come in a nanosecond. The label is left out.

pub mod Flow
mod Tests
use issue_tracker.Prelude.{
  ℕ, suc, ◌+◌, ◌-◌, ◌*◌, ◌/◌, Bool, true, false, Option, none, some, List, [], ◌∷◌, ltb, leb,
  if◌then◌else◌, ◌==◌,
}
use issue_tracker.Prelude.Keys.{nat_eq}

abbrev pub token : ℕ
token = 3600000000000

pub record TokenBucketRateLimiter : Type 0 where
  pub rate : ℕ
  pub burst : ℕ
  pub tokens : ℕ
  pub last_refill : ℕ

-- `NewRateLimiter`: none is the limiter that allows everything.
unfoldable pub new_rate_limiter : ℕ → ℕ → ℕ → Option TokenBucketRateLimiter
new_rate_limiter requests_per_hour burst now =
    let most = if ltb burst 1 then 1 else burst in
    if requests_per_hour == 0
    then none
    else some
        record { rate = requests_per_hour; burst = most; tokens = most * token; last_refill = now }

unfoldable pub min_float : ℕ → ℕ → ℕ
min_float a b = if ltb a b then a else b

unfoldable pub refill : ℕ → TokenBucketRateLimiter → TokenBucketRateLimiter
unfolding min_float
refill now r = record r {
  tokens = min_float (r.tokens + (now - r.last_refill) * r.rate) (r.burst * token);
  last_refill = now;
}

-- `Allow`, with the limiter after it.
unfoldable pub allow : ℕ → TokenBucketRateLimiter → TokenBucketRateLimiter × Bool
allow now r =
    let full = refill now r in
    if leb token full.tokens
    then (record full { tokens = full.tokens - token }, true)
    else (full, false)

-- `timeToNextToken`, in nanoseconds.
unfoldable pub time_to_next_token : TokenBucketRateLimiter → ℕ
time_to_next_token r = if leb token r.tokens then 0 else (token - r.tokens) / r.rate
