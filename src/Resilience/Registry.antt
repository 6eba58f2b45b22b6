-- ===== src/Resilience/Registry.antt =====
-- The registry of breakers (pkg/resilience/circuit_breaker.go): a breaker for each source.
use issue_tracker.Prelude.{
  ◌≡◌, refl, List, [], ◌∷◌, if◌then◌else◌, arith, String, lookup, insert, lookup-insert, ==_iff,
  ==_refl, ◌==◌, inl, inr, Option-cases,
}
use issue_tracker.Prelude.Keys.{string_eq}
use issue_tracker.Resilience.{
  Config, CircuitBreaker, new_circuit_breaker, CircuitBreakerRegistry, new_circuit_breaker_registry,
  get, call, Call, step, run,
}

-- The breaker that `get` returns for a source.
unfoldable pub breaker : CircuitBreakerRegistry → String → CircuitBreaker
breaker r source = (get r source).1

pub calls : CircuitBreakerRegistry → List (String × Call) → CircuitBreakerRegistry
calls r [] = r
calls r ((source, c) ∷ cs) = calls (call r source c) cs

-- The calls that name a source, in order.
pub own : String → List (String × Call) → List Call
own source [] = []
own source ((s, c) ∷ cs) = let rest = own source cs in if s == source then c ∷ rest else rest

pub breaker-call :
    (r : CircuitBreakerRegistry) (s source : String) (c : Call)
    → breaker (call r s c) source
      ≡ (if s == source then step (breaker r source) c else breaker r source)
unfolding breaker call get
breaker-call r s source c = elim (Option-cases (lookup s r.cbs)) [
  | inl e ↦
      let cb = new_circuit_breaker s r.config in
      ground (
        arith,
        ==_iff s source,
        ==_refl s,
        lookup-insert s s cb r.cbs,
        lookup-insert s source (step cb c) (insert s cb r.cbs),
        lookup-insert s source cb r.cbs,
      )
  | inr (cb, e) ↦ ground (arith, ==_iff s source, lookup-insert s source (step cb c) r.cbs)
]

calls-run :
    (cs : List (String × Call)) (r : CircuitBreakerRegistry) (source : String)
    → breaker (calls r cs) source ≡ run (breaker r source) (own source cs)
unfolding calls run own
calls-run [] r source = refl
calls-run ((s, c) ∷ cs) r source =
    ground (arith, breaker-call r s source c, calls-run cs (call r s c) source)

-- Through a new registry a source has a breaker of its own: whatever calls are made on all sources,
-- it stands where a new breaker stands after the calls on that source alone.
pub calls-isolated :
    (config : Config) (cs : List (String × Call)) (source : String)
    → (get (calls (new_circuit_breaker_registry config) cs) source).1
      ≡ run (new_circuit_breaker source config) (own source cs)
unfolding breaker new_circuit_breaker_registry get new_circuit_breaker lookup
calls-isolated config cs source = calls-run cs (new_circuit_breaker_registry config) source
