-- ===== src/Fetcher/Worker.antt =====
-- internal/processor/fetcher/worker/pool.go: what a fetcher worker does with one Kafka message, from
-- `Handle` on. A `World` holds what the calls out of this code answer while the message is handled;
-- the handling returns the breakers' new state, the effects in order, and the error. Log lines and
-- the busy counter are left out. What other workers do with the breakers while the page is fetched
-- is `meanwhile`.
pub mod Effects
mod Trace
mod Settled
mod Retries
mod Breaker
mod Tests
use issue_tracker.Prelude.{
  ℕ, suc, ◌+◌, Bool, true, false, ◌&&◌, ◌||◌, ◌/◌, Option, none, some, String, List, [], ◌∷◌, ◌++◌,
  ltb, leb, if◌then◌else◌, ◌==◌,
}
use issue_tracker.Prelude.Keys.{string_eq}
use issue_tracker.Precheck.{Decision, Verdict, allow, drop, extract_links_only}
use issue_tracker.Fetcher.Retry.{RetryPolicy, calculate_backoff}
use issue_tracker.Resilience.{CircuitBreakerRegistry, Call, allows, fails, succeeds, get, call}
use issue_tracker.Resilience
use Effects.{
  Job, Content, Attempt, with_drain, Effect, dead_lettered, requeued, normalized, committed,
  released, Reason, unmarshal_failed, circuit_open, handler_failed, gate_held,
}

-- Only the fields that `CalculateBackoff` reads are set in the source.
abbrev pub kafka_requeue_policy : RetryPolicy
kafka_requeue_policy = record {
  max_attempts = 0;
  initial_delay = 5000000000;
  max_delay = 300000000000;
  multiplier = 2;
  jitter = true;
  retryable_errors = [];
}

-- `locks.GateSkipRetryDelay`, half of the ten minutes of `DefaultProcessingLockTTL`.
abbrev pub gate_skip_retry_delay : ℕ
gate_skip_retry_delay = 600000000000 / 2

pub data GateAnswer : Type 0 where
  gate_failed gate_taken gate_acquired : GateAnswer

pub data Fetched : Type 0 where
  fetch_failed : Fetched
  fetched : List Content → Fetched

pub record World : Type 0 where
  -- `UnmarshalCrawlJob` of the message.
  pub job : Option Job
  -- `Normalize` of the normalizer, if there is one; `none` is its error.
  pub normalizer : Option (String → Option String)
  pub url_gate : Option (String → Bool)
  pub precheck : Option (String → Decision)
  pub now : ℕ
  pub stopped_in_wait : Bool
  pub stage_gate : GateAnswer
  pub stopped_at_gate : Bool
  -- The times of `Allow` and of `RecordFailure`.
  pub allow_at : ℕ
  pub failure_at : ℕ
  pub meanwhile : List (String × Call)
  pub handler : Fetched
  -- `contentSvc.Store` and the JSON after it: the stored id; and `Forward` of the message.
  pub store : Content → Option String
  pub forward : String → Bool
  -- The first attempt, and the one with the drain context.
  pub dlq : Attempt
  pub dlq_drain : Attempt
  pub enqueue : Attempt
  pub enqueue_drain : Attempt
  pub commit : Attempt
  pub commit_drain : Attempt
  pub draw : ℕ

pub data Fault : Type 0 where
  stopped gate_aborted circuit_refused dlq_failed handle_failed republish_failed publish_failed
        commit_failed :
      Fault

pub record Report : Type 0 where
  pub breakers : CircuitBreakerRegistry
  pub effects : List Effect
  pub fault : Option Fault

abbrev pub report : CircuitBreakerRegistry → List Effect → Option Fault → Report
report b es f = record { breakers = b; effects = es; fault = f }

normalized_or_raw : String → Option String → String
normalized_or_raw raw none = raw
normalized_or_raw raw (some n) = if n == "" then raw else n

pub normalize_url : Option (String → Option String) → String → String
normalize_url none raw = raw
normalize_url (some n) raw = if raw == "" then raw else normalized_or_raw raw (n raw)

-- `p.pool.Commit` as the end of a handling.
commit_effects : World → List Effect
commit_effects w = if with_drain w.commit w.commit_drain then committed ∷ [] else []

commit_fault : World → Option Fault
commit_fault w = if with_drain w.commit w.commit_drain then none else some commit_failed

-- `publishNormalized`: the partition key and the stored id.
canonical_of : World → Content → String
canonical_of w c =
    let source = if c.canonical_url == "" then c.url else c.canonical_url in
    let n = normalize_url w.normalizer source in if n == "" then c.canonical_url else n

partition_key : World → Content → String
partition_key w c = let canonical = canonical_of w c in if canonical == "" then c.url else canonical

forward_stored : World → String → Option String → Option Effect
forward_stored w key none = none
forward_stored w key (some id) = if w.forward id then some (normalized key id) else none

pub publish_normalized : World → Content → Option Effect
publish_normalized w c =
    forward_stored w (partition_key w c) (w.store (record c { canonical_url = canonical_of w c }))

-- The loop over the contents: what was published, and whether all was.
pub publish_all : World → List Content → List Effect × Bool
publish_all w [] = ([], true)
publish_all w (c ∷ cs) =
    let (es, done) = publish_all w cs in
    elim (publish_normalized w c) [ none ↦ ([], false) | some e ↦ (e ∷ es, done) ]

-- `requeueWithRetry`: the job that is enqueued.
retried : World → Job → Job
retried w j = record j {
  scheduled_at = w.now + calculate_backoff kafka_requeue_policy (j.retry_count + 1) w.draw;
  retry_count = j.retry_count + 1;
}

-- After a failed fetch: the dead letter or the retry, if it was sent.
republish : World → Job → Option Effect
republish w j =
    if leb j.max_retries j.retry_count
    then (if with_drain w.dlq w.dlq_drain then some (dead_lettered handler_failed) else none)
    else (if with_drain w.enqueue w.enqueue_drain then some (requeued (retried w j)) else none)

-- `requeueGateSkip` has one attempt to enqueue, and no fault.
skipped : World → Job → Job
skipped w j = record j {
  scheduled_at = w.now + gate_skip_retry_delay;
  retry_count = j.retry_count + 1;
}

requeue_gate_skip : World → Job → List Effect
requeue_gate_skip w j =
    if leb j.max_retries j.retry_count
    then (if with_drain w.dlq w.dlq_drain then dead_lettered gate_held ∷ commit_effects w else [])
    else elim w.enqueue [ Attempt.sent ↦ requeued (skipped w j) ∷ commit_effects w | _ ↦ [] ]

-- The fetch under an allowing breaker.
pub after_fetch : World → CircuitBreakerRegistry → Job → Fetched → Report
after_fetch w b j fetch_failed =
    let failing = call b j.crawler_name (fails w.failure_at) in
    elim (republish w j) [
      | none ↦ report failing [] (some republish_failed)
      | some e ↦ report failing (e ∷ commit_effects w) (some handle_failed)
    ]
after_fetch w b j (fetched cs) =
    let (es, done) = publish_all w cs in
    if done
    then report (call b j.crawler_name succeeds) (es ++ commit_effects w) (commit_fault w)
    else report b es (some publish_failed)

-- The dead letter of a job that the breaker refuses.
pub refuse : World → CircuitBreakerRegistry → Report
refuse w b =
    if with_drain w.dlq w.dlq_drain
    then report b (dead_lettered circuit_open ∷ commit_effects w) (some circuit_refused)
    else report b [] (some dlq_failed)

-- The calls of other workers on the breakers.
pub others : CircuitBreakerRegistry → List (String × Call) → CircuitBreakerRegistry
others b [] = b
others b ((source, c) ∷ cs) = others (call b source c) cs

pub crawl : World → CircuitBreakerRegistry → Job → Report
crawl w b j =
    let asked = call b j.crawler_name (allows w.allow_at) in
    if (Resilience.allow (get b j.crawler_name).1 w.allow_at).1
    then after_fetch w (others asked w.meanwhile) j w.handler
    else refuse w asked

-- Behind the stage gate; its slot and lock are released whatever happens.
gated : World → CircuitBreakerRegistry → Job → GateAnswer → Report
gated w b j gate_failed = if w.stopped_at_gate then report b [] (some gate_aborted) else crawl w b j
gated w b j gate_taken = report b (requeue_gate_skip w j) none
gated w b j gate_acquired = let r = crawl w b j in record r { effects = r.effects ++ released ∷ [] }

blocked : Option (String → Bool) → String → Bool
blocked none url = false
blocked (some allowed) url = if allowed url then false else true

is_drop : Verdict → Bool
is_drop allow = false
is_drop drop = true
is_drop extract_links_only = false

dropped : Option (String → Decision) → String → Bool
dropped none url = false
dropped (some check) url = is_drop (check url).verdict

pub process_job : World → CircuitBreakerRegistry → Job → Report
process_job w b j =
    if blocked w.url_gate j.url || dropped w.precheck j.url
    then report b (commit_effects w) (commit_fault w)
    else if ltb w.now j.scheduled_at && w.stopped_in_wait
    then report b [] (some stopped)
    else gated w b j w.stage_gate

handle_job : World → CircuitBreakerRegistry → Option Job → Report
handle_job w b none =
    if with_drain w.dlq w.dlq_drain
    then report b (dead_lettered unmarshal_failed ∷ commit_effects w) none
    else report b [] none
handle_job w b (some j) = process_job w b (record j { url = normalize_url w.normalizer j.url })

pub handle : World → CircuitBreakerRegistry → Report
handle w b = handle_job w b w.job
