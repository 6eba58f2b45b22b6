-- ===== src/Resilience/Tests.antt =====
-- Runs of the circuit breaker (pkg/resilience/circuit_breaker.go), and its theorems at concrete inputs.
use issue_tracker.Prelude.{◌≡◌, refl, List, [], ◌∷◌, String, arith}
use issue_tracker.Resilience.{
  opened, half_open, Config, new_circuit_breaker, Call, allows, fails, step, run, get,
  new_circuit_breaker_registry,
}
use issue_tracker.Resilience.Laws.{IsValid, run-IsValid}
use issue_tracker.Resilience.Spec.{view, spec_run, passing, view-run}
use issue_tracker.Resilience.Registry.{calls, own, calls-isolated}

abbrev config : Config
config = record { max_failures = 2; open_timeout = 60 }

abbrev down : List Call
down = fails 5 ∷ fails 7 ∷ []

abbrev probed : List Call
probed = fails 5 ∷ fails 7 ∷ allows 70 ∷ []

down_opens : (run (new_circuit_breaker "cnn" config) down).state ≡ opened
unfolding run step new_circuit_breaker
down_opens = refl

probed_half_opens : (run (new_circuit_breaker "cnn" config) probed).state ≡ half_open
unfolding run step new_circuit_breaker
probed_half_opens = refl

run-IsValid_example : IsValid (run (new_circuit_breaker "cnn" config) probed)
run-IsValid_example = run-IsValid "cnn" config probed (omega arith)

view-run_example :
    view (run (new_circuit_breaker "cnn" config) probed) ≡ spec_run config (passing 0) probed
view-run_example = view-run "cnn" config probed (omega arith)

abbrev mixed : List (String × Call)
mixed = ("cnn", fails 5) ∷ ("bbc", allows 6) ∷ ("cnn", fails 7) ∷ []

calls-isolated_example :
    (get (calls (new_circuit_breaker_registry config) mixed) "cnn").1
    ≡ run (new_circuit_breaker "cnn" config) (own "cnn" mixed)
calls-isolated_example = calls-isolated config mixed "cnn"
