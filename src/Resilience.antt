-- ===== src/Resilience.antt =====
-- pkg/resilience/circuit_breaker.go: the circuit breaker of a source and the registry of breakers.
-- The mutex makes each method one step; `time.Since` and `time.Now` read the argument `now`, and the
-- log lines are left out. A negative `max_failures` or `open_timeout` acts as 0.
mod Laws
mod Spec
pub mod Registry
mod Tests
use issue_tracker.Prelude.{
  ℕ, ◌+◌, Bool, true, false, Option, none, some, String, List, [], ◌∷◌, leb, if◌then◌else◌,
  AssocList, lookup, insert,
}
use issue_tracker.Prelude.Keys.{string_eq}

pub data CbState : Type 0 where
  closed opened half_open : CbState

pub record Config : Type 0 where
  pub max_failures : ℕ
  pub open_timeout : ℕ

abbrev pub default_config : Config
default_config = record { max_failures = 5; open_timeout = 60000000000 }

pub record CircuitBreaker : Type 0 where
  pub config : Config
  pub source : String
  pub state : CbState
  pub failures : ℕ
  pub opened_at : ℕ
  pub probe_active : Bool

unfoldable pub new_circuit_breaker : String → Config → CircuitBreaker
new_circuit_breaker source config = record {
  config = config;
  source = source;
  state = closed;
  failures = 0;
  opened_at = 0;
  probe_active = false;
}

-- The `switch` of `Allow`: the new breaker, and whether the request may go.
allow_in : CbState → CircuitBreaker → ℕ → CircuitBreaker × Bool
allow_in closed cb now = (cb, true)
allow_in opened cb now =
    if leb (cb.opened_at + cb.config.open_timeout) now
    then (record cb { state = half_open; probe_active = true }, true)
    else (cb, false)
allow_in half_open cb now =
    if cb.probe_active then (cb, false) else (record cb { probe_active = true }, true)

unfoldable pub allow : CircuitBreaker → ℕ → CircuitBreaker × Bool
unfolding allow_in
allow cb now = allow_in cb.state cb now

success_in : CbState → CircuitBreaker → CircuitBreaker
success_in closed cb = record cb { failures = 0 }
success_in opened cb = record cb { failures = 0 }
success_in half_open cb = record cb { failures = 0; state = closed; probe_active = false }

unfoldable pub record_success : CircuitBreaker → CircuitBreaker
unfolding success_in
record_success cb = success_in cb.state cb

failure_in : CbState → CircuitBreaker → ℕ → CircuitBreaker
failure_in closed cb now =
    let counted = record cb { failures = cb.failures + 1 } in
    if leb cb.config.max_failures (cb.failures + 1)
    then record counted { state = opened; opened_at = now }
    else counted
failure_in opened cb now = cb
failure_in half_open cb now = record cb { state = opened; opened_at = now; probe_active = false }

unfoldable pub record_failure : CircuitBreaker → ℕ → CircuitBreaker
unfolding failure_in
record_failure cb now = failure_in cb.state cb now

-- What a client of the breaker calls, with the time of the call.
pub data Call : Type 0 where
  allows fails : ℕ → Call
  succeeds : Call

unfoldable pub step : CircuitBreaker → Call → CircuitBreaker
unfolding allow record_success record_failure
step cb (allows now) = (allow cb now).0
step cb (fails now) = record_failure cb now
step cb succeeds = record_success cb

unfoldable pub run : CircuitBreaker → List Call → CircuitBreaker
run cb [] = cb
run cb (c ∷ cs) = run (step cb c) cs

pub record CircuitBreakerRegistry : Type 0 where
  pub config : Config
  pub cbs : AssocList String CircuitBreaker

unfoldable pub new_circuit_breaker_registry : Config → CircuitBreakerRegistry
new_circuit_breaker_registry config = record { config = config; cbs = [] }

-- The double check under the write lock finds what the first look-up found, in one step.
get_or_create :
    Option CircuitBreaker
    → CircuitBreakerRegistry
    → String
    → CircuitBreakerRegistry × CircuitBreaker
get_or_create (some cb) r source = (r, cb)
get_or_create none r source =
    let cb = new_circuit_breaker source r.config in (record r { cbs = insert source cb r.cbs }, cb)

unfoldable pub get : CircuitBreakerRegistry → String → CircuitBreakerRegistry × CircuitBreaker
unfolding get_or_create
get r source = get_or_create (lookup source r.cbs) r source

changed :
    (CircuitBreaker → CircuitBreaker)
    → Option CircuitBreaker
    → AssocList String CircuitBreaker
    → String
    → AssocList String CircuitBreaker
changed change none cbs source = cbs
changed change (some cb) cbs source = insert source (change cb) cbs

-- The registry holds pointers: a call on the breaker that `get` returned changes it where the registry holds
-- it, and does not change a registry that does not.
unfoldable pub call : CircuitBreakerRegistry → String → Call → CircuitBreakerRegistry
unfolding get step changed
call r source c =
    let r' = (get r source).0 in
    record r' { cbs = changed (λ cb. step cb c) (lookup source r'.cbs) r'.cbs source }
