-- ===== src/Resilience/Spec.antt =====
-- What the breaker of pkg/resilience/circuit_breaker.go promises, as a machine of three states that
-- keeps only the numbers that matter in each, and the proof that the code implements it.
use issue_tracker.Prelude.{
  ℕ, ◌+◌, ◌<◌, ◌≡◌, refl, sym, subst, ap₂, ◌∙◌, List, [], ◌∷◌, leb, if◌then◌else◌, arith, String,
}
use issue_tracker.Resilience.{
  CbState, closed, opened, half_open, Config, CircuitBreaker, new_circuit_breaker, Call, allows,
  fails, succeeds, step, run,
}
use issue_tracker.Resilience.Laws.{IsValid, config-step, new-IsValid, step-IsValid}

pub data View : Type 0 where
  passing : ℕ → View
  blocking : ℕ → View
  probing : View

spec_step : Config → View → Call → View
spec_step c (passing n) (allows now) = passing n
spec_step c (passing n) (fails now) =
    if leb c.max_failures (n + 1) then blocking now else passing (n + 1)
spec_step c (passing n) succeeds = passing 0
spec_step c (blocking since) (allows now) =
    if leb (since + c.open_timeout) now then probing else blocking since
spec_step c (blocking since) (fails now) = blocking since
spec_step c (blocking since) succeeds = blocking since
spec_step c probing (allows now) = probing
spec_step c probing (fails now) = blocking now
spec_step c probing succeeds = passing 0

pub spec_run : Config → View → List Call → View
spec_run c v [] = v
spec_run c v (x ∷ xs) = spec_run c (spec_step c v x) xs

view_in : CbState → CircuitBreaker → View
view_in closed cb = passing cb.failures
view_in opened cb = blocking cb.opened_at
view_in half_open cb = probing

pub view : CircuitBreaker → View
unfolding view_in
view cb = view_in cb.state cb

view-step :
    (cb : CircuitBreaker) (c : Call)
    → IsValid cb
    → view (step cb c) ≡ spec_step cb.config (view cb) c
unfolding view step spec_step
view-step cb (allows now) v = ground arith
view-step cb (fails now) v = ground arith
view-step cb succeeds v = ground arith

view-run_from :
    (cs : List Call) (cb : CircuitBreaker)
    → 0 < cb.config.max_failures
    → IsValid cb
    → view (run cb cs) ≡ spec_run cb.config (view cb) cs
unfolding run spec_run
view-run_from [] cb h v = refl
view-run_from (c ∷ cs) cb h v =
    view-run_from cs (step cb c)
      (subst (λ (k : Config). 0 < k.max_failures) (sym (config-step cb c)) h)
      (step-IsValid cb c h v)
    ∙ ap₂ (λ k w. spec_run k w cs) (config-step cb c) (view-step cb c v)

-- Any calls on a new breaker with a positive failure limit move it as the three-state machine says.
pub view-run :
    (source : String) (config : Config) (cs : List Call)
    → 0 < config.max_failures
    → view (run (new_circuit_breaker source config) cs) ≡ spec_run config (passing 0) cs
unfolding view new_circuit_breaker
view-run source config cs h =
    view-run_from cs (new_circuit_breaker source config) h (new-IsValid source config h)
