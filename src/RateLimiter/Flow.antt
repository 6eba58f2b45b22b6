-- ===== src/RateLimiter/Flow.antt =====
-- How many requests a bucket lets through (internal/processor/fetcher/rate_limiter/token_bucket.go).
use native.Mathlib.Nat.{add-mul, mul-le-mul_right, div-add-mod', lt-div-mul-add}
use issue_tracker.Prelude.{
  sym, refl, ap, ◌∙◌, ◌&&◌, ℕ, suc, ◌+◌, ◌-◌, ◌*◌, ◌/◌, ◌≤◌, ◌<◌, ◌≡◌, true, false, List, [], ◌∷◌,
  leb, if◌then◌else◌, arith,
}
use issue_tracker.RateLimiter.{
  token, TokenBucketRateLimiter, min_float, refill, allow, time_to_next_token,
}

-- Calls of `Allow` at the times of a list, with the count of those that are let through.
unfoldable pub allows : List ℕ → TokenBucketRateLimiter → TokenBucketRateLimiter × ℕ
allows [] r = (r, 0)
allows (t ∷ ts) r =
    let (next, allowed) = allow t r in
    let (last, count) = allows ts next in (last, if allowed then suc count else count)

-- The times do not go back.
abbrev pub Forward : ℕ → List ℕ → Type 0
Forward from [] = Unit
Forward from (t ∷ ts) = (from ≤ t) × Forward t ts

-- The time of the last call.
unfoldable pub until : ℕ → List ℕ → ℕ
until from [] = from
until from (t ∷ ts) = until t ts

refill-le :
    (now : ℕ) (r : TokenBucketRateLimiter)
    → (refill now r).tokens ≤ r.tokens + (now - r.last_refill) * r.rate
unfolding refill min_float
refill-le now r = ground arith

allow-paid :
    (now : ℕ) (r : TokenBucketRateLimiter)
    → (if (allow now r).1 then token else 0) + (allow now r).0.tokens
      ≤ r.tokens + (now - r.last_refill) * r.rate
unfolding allow
allow-paid now r = ground (arith, refill-le now r)

allow-rate : (now : ℕ) (r : TokenBucketRateLimiter) → (allow now r).0.rate ≡ r.rate
unfolding allow refill
allow-rate now r = ground arith

allow-last_refill : (now : ℕ) (r : TokenBucketRateLimiter) → (allow now r).0.last_refill ≡ now
unfolding allow refill
allow-last_refill now r = ground arith

until-ge : (from : ℕ) (ts : List ℕ) → Forward from ts → from ≤ until from ts
unfolding until
until-ge from [] on = omega arith
until-ge from (t ∷ ts) (first, on) = omega (arith, first, until-ge t ts on)

-- The parts of two spans are those of both.
spans :
    (from mid to k : ℕ)
    → from ≤ mid
    → mid ≤ to
    → (mid - from) * k + (to - mid) * k ≡ (to - from) * k
spans from mid to k first then_ =
    sym (ap (λ n. n * k) (omega arith) ∙ add-mul (mid - from) (to - mid) k)

-- What is let through and what is left was there before or came in the meantime.
allows-paid :
    (ts : List ℕ) (r : TokenBucketRateLimiter) (from k : ℕ)
    → r.last_refill ≡ from
    → r.rate ≡ k
    → Forward from ts
    → (allows ts r).1 * token + (allows ts r).0.tokens ≤ r.tokens + (until from ts - from) * k
unfolding allows until
allows-paid [] r from k at same on = ground arith
allows-paid (t ∷ ts) r from k at same (first, on) =
    let next = (allow t r).0 in
    let rest = allows-paid ts next t k (allow-last_refill t r) (allow-rate t r ∙ same) on in
    let here = allow-paid t r in
    let moved : (t - r.last_refill) * r.rate ≡ (t - from) * k = rw (at, same) refl in
    ground (arith, rest, here, moved, spans from t (until t ts) k first (until-ge t ts on))

allow-full :
    (now : ℕ) (r : TokenBucketRateLimiter) → (allow now r).0.tokens ≤ (allow now r).0.burst * token
unfolding allow refill min_float
allow-full now r = ground arith

allows-full :
    (ts : List ℕ) (r : TokenBucketRateLimiter)
    → r.tokens ≤ r.burst * token
    → (allows ts r).0.tokens ≤ (allows ts r).0.burst * token
unfolding allows
allows-full [] r full = full
allows-full (t ∷ ts) r full = allows-full ts (allow t r).0 (allow-full t r)

-- Of the requests at any times that do not go back, a bucket that is not over its burst lets through at most its
-- burst and, besides, as many as the rate gives for the time from its last refill to the last request. It is not
-- over its burst afterwards.
pub allows-le :
    (ts : List ℕ) (r : TokenBucketRateLimiter)
    → r.tokens ≤ r.burst * token
    → Forward r.last_refill ts
    → ((allows ts r).1 * token
        ≤ r.burst * token + (until r.last_refill ts - r.last_refill) * r.rate)
      × ((allows ts r).0.tokens ≤ (allows ts r).0.burst * token)
allows-le ts r full on =
    (omega (arith, allows-paid ts r r.last_refill r.rate refl refl on, full), allows-full ts r full)

-- A request passes if there is a token by then, and the burst leaves room for one.
allow-since :
    (r : TokenBucketRateLimiter) (d : ℕ)
    → (allow (r.last_refill + d) r).1
      ≡ leb token (r.tokens + d * r.rate) && leb token (r.burst * token)
unfolding allow refill min_float
allow-since r d =
    let since : r.last_refill + d - r.last_refill ≡ d = omega arith in rw (since) (ground arith)

below_quotient : (n k d : ℕ) → 0 < k → d < n / k → d * k < n
below_quotient n k d some_ before =
    let up : suc d * k ≤ n / k * k = mul-le-mul_right k before in
    let one_more : (d + 1) * k ≡ d * k + 1 * k = add-mul d 1 k in
    let same : suc d * k ≡ (d + 1) * k = ap (λ m. m * k) (omega arith) in
    omega (arith, up, one_more, same, div-add-mod' n k, some_)

above_quotient : (n k : ℕ) → 0 < k → n < suc (n / k) * k
above_quotient n k some_ =
    let one_more : (n / k + 1) * k ≡ n / k * k + 1 * k = add-mul (n / k) 1 k in
    let same : suc (n / k) * k ≡ (n / k + 1) * k = ap (λ m. m * k) (omega arith) in
    let strict : n < n / k * k + k = lt-div-mul-add some_ in omega (arith, strict, one_more, same)

-- A bucket with a rate and a burst above 0 lets no request through before the wait of `timeToNextToken` since its
-- last refill is over, and lets one through a nanosecond after it.
pub allow-time_to_next_token :
    (r : TokenBucketRateLimiter) (d : ℕ)
    → 0 < r.rate
    → 0 < r.burst
    → ((d < time_to_next_token r) → (allow (r.last_refill + d) r).1 ≡ false)
      × ((allow (r.last_refill + suc (time_to_next_token r)) r).1 ≡ true)
unfolding time_to_next_token
allow-time_to_next_token r d rate burst =
    let missing = token - r.tokens in
    let late = above_quotient missing r.rate rate in
    (
      (λ early. allow-since r d ∙ ground (arith, early, below_quotient missing r.rate d rate)),
      allow-since r (suc (time_to_next_token r)) ∙ ground (arith, late, burst, rate),
    )
