-- ===== src/Llmgen/HostBreaker/Laws.antt =====
-- When the host breaker blocks (internal/processor/parser/rule/llmgen/breaker.go).
use issue_tracker.Prelude.{
  ℕ, ◌+◌, ◌-◌, ◌<◌, ◌≡◌, ◌≢◌, refl, true, false, none, some, List, [], ◌∷◌, leb, if◌then◌else◌,
  lookup, lookup-insert, lookup-erase, length, arith, ==_iff, ==_refl,
}
use issue_tracker.Prelude.Keys.{pair_eq, string_eq}
use issue_tracker.Llmgen.HostBreaker.{
  HostKey, HostState, HostBreaker, allow, record_rate_limit, record_success, state_or_new, limited,
}

-- The state of a key, and that of a key that has no entry.
abbrev state_of : HostBreaker → HostKey → HostState
state_of b key = state_or_new (lookup key b.st)

state-record_rate_limit :
    (b : HostBreaker) (key : HostKey) (now : ℕ)
    → lookup key (record_rate_limit b key now).st ≡ some (limited b.cfg now (state_of b key))
unfolding record_rate_limit
state-record_rate_limit b key now =
    ground (arith, lookup-insert key key (limited b.cfg now (state_of b key)) b.st, ==_refl key)

-- A call at one key, for all that can be done with a breaker.
pub data Call : Type 0 where
  allows rate_limited : HostKey → ℕ → Call
  succeeded : HostKey → Call

abbrev pub key_of : Call → HostKey
key_of (allows k now) = k
key_of (rate_limited k now) = k
key_of (succeeded k) = k

unfoldable pub step : HostBreaker → Call → HostBreaker
step b (allows k now) = (allow b k now).breaker
step b (rate_limited k now) = record_rate_limit b k now
step b (succeeded k) = record_success b k

lookup-step_other :
    (b : HostBreaker) (c : Call) (key : HostKey)
    → key_of c ≢ key
    → lookup key (step b c).st ≡ lookup key b.st
unfolding step allow record_rate_limit record_success
lookup-step_other b (allows k now) key h = ground (arith, lookup-erase k key b.st, ==_iff k key)
lookup-step_other b (rate_limited k now) key h =
    ground (arith, lookup-insert k key (limited b.cfg now (state_of b k)) b.st, ==_iff k key)
lookup-step_other b (succeeded k) key h = ground (arith, lookup-erase k key b.st, ==_iff k key)

allow-found :
    (b d : HostBreaker) (key : HostKey) (now : ℕ)
    → lookup key b.st ≡ lookup key d.st
    → ((allow b key now).allowed ≡ (allow d key now).allowed)
      × ((allow b key now).remaining ≡ (allow d key now).remaining)
unfolding allow
allow-found b d key now e = ground arith

-- A call at one key leaves the state of every other key alone, and so what `Allow` answers there.
step-other :
    (b : HostBreaker) (c : Call) (key : HostKey) (now : ℕ)
    → key_of c ≢ key
    → (lookup key (step b c).st ≡ lookup key b.st)
      × ((allow (step b c) key now).allowed ≡ (allow b key now).allowed)
      × ((allow (step b c) key now).remaining ≡ (allow b key now).remaining)
step-other b c key now h =
    let same = lookup-step_other b c key h in
    let (allowed, remaining) = allow-found (step b c) b key now same in (same, allowed, remaining)

unfoldable pub rate_limits : HostBreaker → HostKey → List ℕ → HostBreaker
rate_limits b key [] = b
rate_limits b key (t ∷ ts) = rate_limits (record_rate_limit b key t) key ts

cfg-rate_limits :
    (ts : List ℕ) (b : HostBreaker) (key : HostKey) → (rate_limits b key ts).cfg ≡ b.cfg
unfolding rate_limits record_rate_limit
cfg-rate_limits [] b key = refl
cfg-rate_limits (t ∷ ts) b key = cfg-rate_limits ts (record_rate_limit b key t) key

-- Below the threshold the rate limits are only counted.
below-rate_limits :
    (ts : List ℕ) (b : HostBreaker) (key : HostKey)
    → (state_of b key).blocked_until ≡ 0
    → (state_of b key).failures + length ts < b.cfg.failure_threshold
    → ((state_of (rate_limits b key ts) key).failures ≡ (state_of b key).failures + length ts)
      × ((state_of (rate_limits b key ts) key).blocked_until ≡ 0)
unfolding rate_limits state_or_new limited
below-rate_limits [] b key z h = (omega arith, z)
below-rate_limits (t ∷ ts) b key z h =
    let counted = state-record_rate_limit b key t in
    let same : (record_rate_limit b key t).cfg ≡ b.cfg = cfg-rate_limits (t ∷ []) b key in
    ground (arith, below-rate_limits ts (record_rate_limit b key t) key)

-- A key with no entry that meets rate limits, the last of them at `t`: `Allow` refuses it exactly if
-- they are as many as the threshold and the cooldown after `t` is not over, and then tells how much
-- of the cooldown is left.
rate_limits-allow :
    (b : HostBreaker) (key : HostKey) (ts : List ℕ) (t now : ℕ)
    → lookup key b.st ≡ none
    → length ts < b.cfg.failure_threshold
    → 0 < b.cfg.cooldown_duration
    → let a = allow (record_rate_limit (rate_limits b key ts) key t) key now in
      (a.allowed ≡ (
        if leb b.cfg.failure_threshold (length ts + 1)
        then leb (t + b.cfg.cooldown_duration) now
        else true))
      × (a.allowed ≡ false → a.remaining ≡ t + b.cfg.cooldown_duration - now)
unfolding allow limited state_or_new
rate_limits-allow b key ts t now fresh few long =
    let before = below-rate_limits ts b key in
    let same : (rate_limits b key ts).cfg ≡ b.cfg = cfg-rate_limits ts b key in
    ground (arith, before, state-record_rate_limit (rate_limits b key ts) key t)
