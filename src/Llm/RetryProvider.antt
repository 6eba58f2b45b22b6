-- ===== src/Llm/RetryProvider.antt =====
-- pkg/llm/retry.go: a provider that tries again. Floats are exact: the multiplier is a natural number
-- (both default policies double), a draw of `rand.Float64()` is `draw / 2 ^ 53`, and a delay is rounded
-- down once. A number of attempts below 0 is not modelled.

mod Laws
mod Tests
use Prim.Native.Nat.{◌^◌}
use issue_tracker.Prelude.{
  ℕ, zero, suc, ◌+◌, ◌-◌, ◌*◌, ◌/◌, Bool, true, false, ◌&&◌, Option, none, some, String, List, [],
  ◌∷◌, ltb, leb, if◌then◌else◌, ◌==◌,
}
use issue_tracker.Prelude.Keys.{nat_eq, string_eq}
use issue_tracker.Llm.Errors.{Error, Info, as_llm, is_retryable, rate_limit}

pub record RetryPolicy : Type 0 where
  pub max_attempts : ℕ
  pub initial_delay : ℕ
  pub max_delay : ℕ
  pub multiplier : ℕ
  pub jitter : Bool

abbrev pub default_rate_limit_retry_policy : RetryPolicy
default_rate_limit_retry_policy = record {
  max_attempts = 5;
  initial_delay = 10000000000;
  max_delay = 300000000000;
  multiplier = 2;
  jitter = false;
}

abbrev pub default_network_retry_policy : RetryPolicy
default_network_retry_policy = record {
  max_attempts = 3;
  initial_delay = 1000000000;
  max_delay = 30000000000;
  multiplier = 2;
  jitter = true;
}

-- `RetryProvider` without the provider inside and the random numbers.
pub record RetryProvider : Type 0 where
  pub rate_limit_p : RetryPolicy
  pub network_p : RetryPolicy

unfoldable pub new_retry_provider : RetryPolicy → RetryPolicy → RetryProvider
new_retry_provider rate network = record {
  rate_limit_p = if rate.max_attempts == 0 then default_rate_limit_retry_policy else rate;
  network_p = if network.max_attempts == 0 then default_network_retry_policy else network;
}

abbrev pub draws : ℕ
draws = 9007199254740992

-- With jitter the delay is scaled by 0.5 + draw.
unfoldable pub compute_backoff : RetryPolicy → ℕ → ℕ → ℕ
compute_backoff p attempt draw =
    let delay = p.initial_delay * p.multiplier ^ (attempt - 1) in
    let capped = if ltb 0 p.max_delay && ltb p.max_delay delay then p.max_delay else delay in
    if p.jitter then capped * (draws + 2 * draw) / (2 * draws) else capped

pub data Reply : Type 0 where
  answered : String → Reply
  refused : Error → Reply

-- What a call meets: the replies of the provider inside, the draws, and whether the context ends during
-- the wait after a reply, with its error.
pub record Run : Type 0 where
  pub inner : ℕ → Reply
  pub draw : ℕ → ℕ
  pub interrupted : ℕ → Option Error

-- `exhausted` is the error of the last return, that no error was captured.
pub data Result : Type 0 where
  response : String → Result
  failed : Error → Result
  exhausted : Result

-- What follows an error: an end, or a wait and another round with the counts of both policies.
pub data Next : Type 0 where
  stop : Next
  again : ℕ → ℕ → ℕ → Next

unfoldable pub next_by : RetryProvider → ℕ → ℕ → ℕ → Option Info → Next
next_by p rate network draw none = stop
next_by p rate network draw (some i) =
    let r = rate + 1 in
    let n = network + 1 in
    if i.retryable
    then (if i.code == rate_limit
        then (if leb p.rate_limit_p.max_attempts r
            then stop
            else again r network (compute_backoff p.rate_limit_p r draw))
        else (if leb p.network_p.max_attempts n
            then stop
            else again rate n (compute_backoff p.network_p n draw)))
    else stop

-- What the provider did: its result, the calls of the provider inside, and the waits that were begun,
-- the last first.
pub record Report : Type 0 where
  pub result : Result
  pub calls : ℕ
  pub waits : List ℕ

unfoldable pub last_result : Option Error → Result
last_result none = exhausted
last_result (some err) = failed err

-- The loop with `left` rounds to go, after `calls` calls.
unfoldable pub loop : RetryProvider → Run → ℕ → ℕ → ℕ → ℕ → List ℕ → Option Error → Report
loop p run zero calls rate network waits last = record {
  result = last_result last;
  calls = calls;
  waits = waits;
}
loop p run (suc left) calls rate network waits last = elim (run.inner calls) [
  | answered text ↦ record { result = response text; calls = suc calls; waits = waits }
  | refused err ↦ elim (next_by p rate network (run.draw calls) (as_llm err)) [
    | stop ↦ record { result = failed err; calls = suc calls; waits = waits }
    | again r n delay ↦ elim (run.interrupted calls) [
      | some done ↦ record { result = failed done; calls = suc calls; waits = delay ∷ waits }
      | none ↦ loop p run left (suc calls) r n (delay ∷ waits) (some err)
    ]
  ]
]

unfoldable pub generate : RetryProvider → Run → Report
generate p run = loop p run (p.rate_limit_p.max_attempts + p.network_p.max_attempts) 0 0 0 [] none
