-- ===== src/Resilience/Laws.antt =====
-- The circuit breaker (pkg/resilience/circuit_breaker.go) over every sequence of calls.
use issue_tracker.Prelude.{
  ℕ, ◌+◌, ◌≤◌, ◌<◌, ◌≡◌, ◌≢◌, ◌⊎◌, ◌↔◌, refl, ap, true, false, List, [], ◌∷◌, map, length, leb,
  if◌then◌else◌, arith, String,
}
use issue_tracker.Resilience.{
  closed, opened, half_open, Config, CircuitBreaker, new_circuit_breaker, allow, Call, allows,
  fails, succeeds, step, run,
}

pub record IsValid (cb : CircuitBreaker) : Type 0 where
  pub probing : cb.state ≡ half_open → cb.probe_active ≡ true
  pub idle : cb.probe_active ≡ true → cb.state ≡ half_open
  pub below : cb.state ≡ closed → cb.failures < cb.config.max_failures

pub step-IsValid :
    (cb : CircuitBreaker) (c : Call) → 0 < cb.config.max_failures → IsValid cb → IsValid (step cb c)
unfolding step
step-IsValid cb (allows now) h v = ground arith
step-IsValid cb (fails now) h v = ground arith
step-IsValid cb succeeds h v = ground arith

pub config-step : (cb : CircuitBreaker) (c : Call) → (step cb c).config ≡ cb.config
unfolding step
config-step cb (allows now) = ground arith
config-step cb (fails now) = ground arith
config-step cb succeeds = ground arith

module _ (limit : ℕ) (positive : 0 < limit) where
  run_from-IsValid :
      (cs : List Call) (cb : CircuitBreaker)
      → cb.config.max_failures ≡ limit
      → IsValid cb
      → IsValid (run cb cs)
  unfolding run
  run_from-IsValid [] cb e v = v
  run_from-IsValid (c ∷ cs) cb e v =
      run_from-IsValid cs (step cb c)
        (omega (arith, ap (λ (k : Config). k.max_failures) (config-step cb c)))
        (step-IsValid cb c (omega arith) v)

pub new-IsValid :
    (source : String) (config : Config)
    → 0 < config.max_failures
    → IsValid (new_circuit_breaker source config)
unfolding new_circuit_breaker
new-IsValid source config h = ground arith

-- After any calls on a new breaker with a positive failure limit, a probe is out exactly in the
-- half-open state, and a closed breaker has counted fewer failures than the limit.
pub run-IsValid :
    (source : String) (config : Config) (cs : List Call)
    → 0 < config.max_failures
    → IsValid (run (new_circuit_breaker source config) cs)
run-IsValid source config cs h =
    run_from-IsValid config.max_failures h cs (new_circuit_breaker source config)
      (unfold new_circuit_breaker in refl) (new-IsValid source config h)

-- A valid breaker lets a request pass exactly if it is closed, or opened for the timeout.
allow_iff :
    (cb : CircuitBreaker) (now : ℕ)
    → IsValid cb
    → ((allow cb now).1 ≡ true) ↔ (
        (cb.state ≡ closed) ⊎ ((cb.state ≡ opened) × (cb.opened_at + cb.config.open_timeout ≤ now)))
unfolding allow
allow_iff cb now v = ground arith

-- While the probe of a valid half-open breaker has no result, every request is refused and changes
-- nothing, at any times and in any number.
half_open_holds :
    (ts : List ℕ) (cb : CircuitBreaker) (now : ℕ)
    → IsValid cb
    → cb.state ≡ half_open
    → (run cb (map allows ts) ≡ cb) × ((allow cb now).1 ≡ false)
unfolding run step
half_open_holds [] cb now v h = (refl, ground arith)
half_open_holds (t ∷ ts) cb now v h = ground (arith, half_open_holds ts cb now v h)

opened-fails : (ts : List ℕ) (cb : CircuitBreaker) → cb.state ≡ opened → run cb (map fails ts) ≡ cb
unfolding run step
opened-fails [] cb h = refl
opened-fails (t ∷ ts) cb h = ground (arith, opened-fails ts cb h)

fails_trip :
    (ts : List ℕ) (cb : CircuitBreaker)
    → cb.state ≡ closed
    → cb.failures < cb.config.max_failures
    → (run cb (map fails ts)).state
      ≡ (if leb cb.config.max_failures (cb.failures + length ts) then opened else closed)
unfolding run step
fails_trip [] cb h b = ground arith
fails_trip (t ∷ ts) cb h b =
    ground (arith, opened-fails ts (step cb (fails t)), fails_trip ts (step cb (fails t)))

-- A success followed by consecutive failures opens a valid breaker, whatever its state but opened,
-- exactly when there are as many failures as the limit, which is positive.
consecutive_failures_trip :
    (ts : List ℕ) (cb : CircuitBreaker)
    → IsValid cb
    → cb.state ≢ opened
    → 0 < cb.config.max_failures
    → (run cb (succeeds ∷ map fails ts)).state
      ≡ (if leb cb.config.max_failures (length ts) then opened else closed)
unfolding run step
consecutive_failures_trip ts cb v n h = ground (arith, fails_trip ts (step cb succeeds))

-- An opened breaker lets one probe pass once the timeout is over; its success closes the breaker
-- with no failure counted, and its failure opens it again from the time of the failure.
probe_decides :
    (cb : CircuitBreaker) (now later : ℕ)
    → cb.state ≡ opened
    → cb.opened_at + cb.config.open_timeout ≤ now
    → let probing = run cb (allows now ∷ []) in
      ((allow cb now).1 ≡ true)
      × ((allow probing later).1 ≡ false)
      × (run probing (succeeds ∷ [])
          ≡ record cb { state = closed; failures = 0; probe_active = false })
      × (run probing (fails later ∷ [])
          ≡ record cb { state = opened; opened_at = later; probe_active = false })
unfolding run step
probe_decides cb now later h e = ground arith
