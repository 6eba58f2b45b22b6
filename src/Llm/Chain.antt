-- ===== src/Llm/Chain.antt =====
-- pkg/llm/chain (chain.go, policy.go) and pkg/llm/policy (cheapest.go, fixed.go): the chain of providers, and the
-- policies that order it. A provider is its name and what it replies when it is called; `cancelled n` is the
-- context's error after `n` calls. Prices are natural numbers. Log lines are left out.

pub mod Walk
pub mod Select
mod Tests
use issue_tracker.Prelude.{
  ℕ, zero, suc, Bool, true, false, not, Option, none, some, String, List, [], ◌∷◌, ltb,
  if◌then◌else◌, ◌==◌,
}
use issue_tracker.Prelude.Keys.{nat_eq, string_eq}
use issue_tracker.Llm.Errors.{Error, Info, llm, llm_of, as_llm}
use issue_tracker.Llm.RetryProvider.{Reply, answered, refused}

pub record Provider : Type 0 where
  pub name : String
  pub reply : Reply

abbrev pub provider_name : String
provider_name = "chain"

abbrev pub bad_request : String
bad_request = "bad_request"

-- An error of the chain's own, without a cause and with one.
abbrev pub chain_info : String → String → Info
chain_info code message = record {
  code = code;
  provider = provider_name;
  message = message;
  retryable = false;
}

delegates_info : Option Info → Bool
delegates_info none = true
delegates_info (some i) = not (i.code == bad_request)

unfoldable pub should_delegate : Error → Bool
unfolding delegates_info
should_delegate err = delegates_info (as_llm err)

-- What a call returns: a response, an error, or neither.
pub data Result : Type 0 where
  response : String → Result
  failed : Error → Result
  neither : Result

-- The result, and the names of the providers that were called.
pub record Report : Type 0 where
  pub result : Result
  pub called : List String

also : String → Report → Report
also name rep = record rep { called = name ∷ rep.called }

exhausted : Option Error → Result
exhausted none = neither
exhausted (some err) = failed err

-- `lastErr` after a reply.
captured : Option Error → Reply → Option Error
captured last (answered text) = last
captured last (refused err) = some err

-- What follows an error that goes on: the end of the context, or the rest of the loop.
next : String → Option Error → Report → Report
unfolding also
next name none rest = also name rest
next name (some cause) rest = record {
  result = failed (llm_of (chain_info "network" "context canceled during chain execution") cause);
  called = name ∷ [];
}

turn : String → Reply → Option Error → Report → Report
unfolding next
turn name (answered text) stopped rest = record { result = response text; called = name ∷ [] }
turn name (refused err) stopped rest =
    if should_delegate err
    then next name stopped rest
    else record { result = failed err; called = name ∷ [] }

-- The loop over the handlers, after `n` calls.
unfoldable pub walk : (ℕ → Option Error) → ℕ → Option Error → List Provider → Report
unfolding turn exhausted captured
walk cancelled n last [] = record { result = exhausted last; called = [] }
walk cancelled n last (h ∷ handlers) =
    let rest = walk cancelled (suc n) (captured last h.reply) handlers in
    turn h.name h.reply (cancelled (suc n)) rest

abbrev pub uncalled : Result → Report
uncalled result = record { result = result; called = [] }

-- A context that is over already.
unless_over : Option Error → String → Report → Report
unless_over none message rep = rep
unless_over (some cause) message rep =
    uncalled (failed (llm_of (chain_info "network" message) cause))

-- `Provider.Generate` of a chain.
unfoldable pub generate : (ℕ → Option Error) → List Provider → Report
unfolding unless_over
generate cancelled [] = uncalled (failed (llm (chain_info bad_request "chain has no handlers")))
generate cancelled (h ∷ handlers) =
    unless_over (cancelled 0) "context already canceled before first handler"
      (walk cancelled 0 none (h ∷ handlers))

-- `Policy.Select`, for one request.
pub data Selected : Type 0 where
  ordered : List Provider → Selected
  unselected : Error → Selected

unfoldable pub delegate : (ℕ → Option Error) → Selected → Report
delegate cancelled (unselected err) =
    uncalled (failed (llm_of (chain_info "unknown" "policy.Select failed") err))
delegate cancelled (ordered []) =
    uncalled (failed (llm (chain_info bad_request "policy returned empty candidate list")))
delegate cancelled (ordered (h ∷ handlers)) = generate cancelled (h ∷ handlers)

with_policy :
    Option Error → (ℕ → Option Error) → (List Provider → Selected) → List Provider → Report
unfolding unless_over
with_policy before cancelled select [] =
    uncalled (failed (llm (chain_info bad_request "policy chain has no candidates")))
with_policy before cancelled select (c ∷ candidates) =
    unless_over before "context already canceled before policy select"
      (delegate cancelled (select (c ∷ candidates)))

-- `PolicyProvider.Generate`; `before` is the context's error before the policy selects.
unfoldable pub policy_generate :
    Option Error → (ℕ → Option Error) → Option (List Provider → Selected) → List Provider → Report
unfolding with_policy
policy_generate before cancelled none candidates =
    uncalled (failed (llm (chain_info bad_request "policy chain has no policy")))
policy_generate before cancelled (some select) candidates =
    with_policy before cancelled select candidates

-- The prices of a provider for the request.
pub record Capabilities : Type 0 where
  pub cost_input_per_1m : ℕ
  pub cost_output_per_1m : ℕ

-- `capabilityFor`.
unfoldable pub capability_for : Option (String → Option Capabilities) → Provider → Capabilities
capability_for none p = record { cost_input_per_1m = 0; cost_output_per_1m = 0 }
capability_for (some caps) p = elim (caps p.name) [
  | none ↦ record { cost_input_per_1m = 0; cost_output_per_1m = 0 }
  | some c ↦ c
]

-- The comparison of `CheapestFirst`.
unfoldable pub cheaper : Capabilities → Capabilities → Bool
cheaper a b =
    if a.cost_input_per_1m == b.cost_input_per_1m
    then ltb a.cost_output_per_1m b.cost_output_per_1m
    else ltb a.cost_input_per_1m b.cost_input_per_1m

module _ (less : Provider → Provider → Bool) where
  -- `sort.SliceStable` under `less`: an element stands before the later ones that are not less.
  unfoldable pub place : Provider → List Provider → List Provider
  place x [] = x ∷ []
  place x (y ∷ ys) = let rest = place x ys in if less y x then y ∷ rest else x ∷ (y ∷ ys)

  unfoldable pub stable_sort : List Provider → List Provider
  stable_sort [] = []
  stable_sort (x ∷ xs) = place x (stable_sort xs)

unfoldable pub cheapest_first : Option (String → Option Capabilities) → List Provider → Selected
cheapest_first caps candidates =
    ordered
      (stable_sort (λ a b. cheaper (capability_for caps a) (capability_for caps b)) candidates)

-- `byName`: the last candidate of a name.
unfoldable pub by_name : String → List Provider → Option Provider
by_name name [] = none
by_name name (c ∷ candidates) = elim (by_name name candidates) [
  | some other ↦ some other
  | none ↦ if c.name == name then some c else none
]

keep : Option Provider → List Provider → List Provider
keep none rest = rest
keep (some c) rest = c ∷ rest

named : List String → List Provider → List Provider
unfolding keep
named [] candidates = []
named (name ∷ names) candidates = keep (by_name name candidates) (named names candidates)

-- `FixedOrder.Select`.
unfoldable pub fixed_order : List String → List Provider → Selected
unfolding named
fixed_order [] candidates = ordered candidates
fixed_order (name ∷ names) candidates = ordered (named (name ∷ names) candidates)
