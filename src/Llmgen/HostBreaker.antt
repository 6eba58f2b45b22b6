-- ===== src/Llmgen/HostBreaker.antt =====
-- internal/processor/parser/rule/llmgen/breaker.go: the breaker of a host and target type that
-- answers with rate limits. A key is the pair of both; the reading of the clock is an argument, and
-- the mutex makes each method one step. A configured number that is not positive is 0 here.
mod Laws
mod Tests
use issue_tracker.Prelude.{
  ℕ, zero, suc, ◌+◌, ◌-◌, Bool, true, false, Option, none, some, String, List, [], ◌∷◌, ltb, leb,
  if◌then◌else◌, ◌==◌, AssocList, lookup, insert, erase,
}
use issue_tracker.Prelude.Keys.{nat_eq, string_eq, pair_eq}

pub record Config : Type 0 where
  pub failure_threshold : ℕ
  pub cooldown_duration : ℕ

abbrev pub default_config : Config
default_config = record { failure_threshold = 3; cooldown_duration = 600000000000 }

abbrev pub HostKey : Type 0
HostKey = String × String

pub record HostState : Type 0 where
  pub failures : ℕ
  pub blocked_until : ℕ

pub record HostBreaker : Type 0 where
  pub cfg : Config
  pub st : AssocList HostKey HostState

or_default : ℕ → ℕ → ℕ
or_default n default = if n == 0 then default else n

unfoldable pub new_host_breaker : Config → HostBreaker
unfolding or_default
new_host_breaker cfg = record {
  cfg = record {
    failure_threshold = or_default cfg.failure_threshold default_config.failure_threshold;
    cooldown_duration = or_default cfg.cooldown_duration default_config.cooldown_duration;
  };
  st = [];
}

-- The answer and, for a refusal, how long the key is still blocked.
pub record Answer : Type 0 where
  pub breaker : HostBreaker
  pub allowed : Bool
  pub remaining : ℕ

allow_found : HostBreaker → HostKey → ℕ → Option HostState → Answer
allow_found b key now none = record { breaker = b; allowed = true; remaining = 0 }
allow_found b key now (some st) =
    if st.blocked_until == 0
    then record { breaker = b; allowed = true; remaining = 0 }
    else if leb st.blocked_until now
    then record { breaker = record b { st = erase key b.st }; allowed = true; remaining = 0 }
    else record { breaker = b; allowed = false; remaining = st.blocked_until - now }

unfoldable pub allow : HostBreaker → HostKey → ℕ → Answer
unfolding allow_found
allow b key now = allow_found b key now (lookup key b.st)

state_or_new : Option HostState → HostState
state_or_new none = record { failures = 0; blocked_until = 0 }
state_or_new (some st) = st

-- One more rate limit in a state.
limited : Config → ℕ → HostState → HostState
limited cfg now st = record st {
  failures = st.failures + 1;
  blocked_until =
      if leb cfg.failure_threshold (st.failures + 1)
      then now + cfg.cooldown_duration
      else st.blocked_until;
}

unfoldable pub record_rate_limit : HostBreaker → HostKey → ℕ → HostBreaker
unfolding limited state_or_new
record_rate_limit b key now = record b {
  st = insert key (limited b.cfg now (state_or_new (lookup key b.st))) b.st;
}

unfoldable pub record_success : HostBreaker → HostKey → HostBreaker
record_success b key = record b { st = erase key b.st }

pub record BreakerSnapshot : Type 0 where
  pub key : HostKey
  pub failures : ℕ
  pub blocked_until : ℕ

-- In the order of the list, where Go's map has none.
snapshot_of : AssocList HostKey HostState → List BreakerSnapshot
snapshot_of [] = []
snapshot_of ((k, st) ∷ rest) =
    record { key = k; failures = st.failures; blocked_until = st.blocked_until } ∷ snapshot_of rest

pub snapshot : HostBreaker → List BreakerSnapshot
unfolding snapshot_of
snapshot b = snapshot_of b.st
