-- ===== src/Fetcher/Worker/Tests.antt =====
-- Runs of the fetcher worker (internal/processor/fetcher/worker/pool.go), and its theorems at
-- concrete inputs.
use issue_tracker.Prelude.{
  ◌≤◌, ◌≡◌, ◌⊎◌, ◌-◌, refl, inl, true, false, none, some, [], ◌∷◌, arith, lookup,
}
use issue_tracker.Prelude.Keys.{string_eq}
use issue_tracker.Resilience.{
  CircuitBreakerRegistry, CircuitBreaker, opened, new_circuit_breaker_registry, call, allows, get,
  step, fails,
}
use issue_tracker.Resilience
use issue_tracker.Resilience.Registry.{breaker}
use issue_tracker.Fetcher.Retry.{calculate_backoff}
use issue_tracker.Fetcher.Worker.Effects.{
  Job, Content, Attempt, with_drain, requeued, normalized, committed, released,
}
use issue_tracker.Fetcher.Worker.{
  World, fetch_failed, fetched, gate_acquired, handle, handle_job, process_job, gated, crawl,
  after_fetch, others, republish, retried, publish_all, publish_normalized, forward_stored,
  partition_key, canonical_of, normalize_url, commit_effects, commit_fault, blocked, dropped,
}
use issue_tracker.Fetcher.Worker.Trace.{commits, hands_on, Published, Refused, Has}
use issue_tracker.Fetcher.Worker.Settled.{handled_job, handle-settled}
use issue_tracker.Fetcher.Worker.Retries.{NextTry, handle-retries, waiting, again, Requeued-le}
use issue_tracker.Fetcher.Worker.Breaker.{IsProbing, crawl_each, lost_probe}

abbrev job : Job
job = record {
  id = "j1";
  crawler_name = "cnn";
  url = "https://cnn.com/a";
  scheduled_at = 5;
  retry_count = 1;
  max_retries = 3;
}

abbrev page : Content
page = record { url = "https://cnn.com/a"; canonical_url = "" }

abbrev world : World
world = record {
  job = some job;
  normalizer = none;
  url_gate = some (λ url. true);
  precheck = none;
  now = 10;
  stopped_in_wait = false;
  stage_gate = gate_acquired;
  stopped_at_gate = false;
  allow_at = 11;
  failure_at = 12;
  meanwhile = [];
  handler = fetched (page ∷ []);
  store = λ c. some "id1";
  forward = λ id. true;
  dlq = Attempt.sent;
  dlq_drain = Attempt.sent;
  enqueue = Attempt.cancelled;
  enqueue_drain = Attempt.sent;
  commit = Attempt.sent;
  commit_drain = Attempt.sent;
  draw = 0;
}

abbrev failing : World
failing = record world { handler = fetch_failed }

abbrev breakers : CircuitBreakerRegistry
breakers = record { config = record { max_failures = 2; open_timeout = 60 }; cbs = [] }

abbrev next_job : Job
next_job = record job { scheduled_at = 7500000010; retry_count = 2 }

world_publishes :
    (handle world breakers).effects
    ≡ normalized "https://cnn.com/a" "id1" ∷ committed ∷ released ∷ []
unfolding handle handle_job process_job gated crawl after_fetch others publish_all
    publish_normalized forward_stored partition_key canonical_of normalize_url commit_effects
    commit_fault blocked dropped get call Resilience.allow lookup Resilience.new_circuit_breaker
    with_drain
world_publishes = refl

failing_requeues : (handle failing breakers).effects ≡ requeued next_job ∷ committed ∷ released ∷ []
unfolding handle handle_job process_job gated crawl after_fetch others republish retried
    calculate_backoff normalize_url commit_effects commit_fault blocked dropped get call
    Resilience.allow with_drain lookup Resilience.new_circuit_breaker
failing_requeues = refl

handle-settled_example :
    (hands_on (handle world breakers).effects ≡ true)
    ⊎ Published world (handle world breakers).effects
    ⊎ ((j : Job) × (world.job ≡ some j) × Refused world (handled_job world j))
handle-settled_example = handle-settled world breakers (rw world_publishes (unfold commits in refl))

failing-Has : Has (requeued next_job) (handle failing breakers).effects
failing-Has = rw failing_requeues (inl refl)

handle-retries_example : NextTry failing job next_job
handle-retries_example = handle-retries failing breakers job next_job refl failing-Has

Requeued-le_example : 1 ≤ job.max_retries - job.retry_count
Requeued-le_example = Requeued-le job 1 (again failing breakers next_job refl failing-Has waiting)

abbrev opened_breaker : CircuitBreaker
opened_breaker = record {
  config = breakers.config;
  source = "cnn";
  state = opened;
  failures = 2;
  opened_at = 3;
  probe_active = false;
}

abbrev opened_breakers : CircuitBreakerRegistry
opened_breakers = record breakers { cbs = ("cnn", opened_breaker) ∷ [] }

-- The content is stored, and its message is not sent.
abbrev unsent : World
unsent = record world { forward = λ id. false; allow_at = 100 }

unsent_stops : (publish_all unsent (page ∷ [])).1 ≡ false
unfolding publish_all publish_normalized forward_stored
unsent_stops = refl

lost_probe_example :
    IsProbing (crawl_each (crawl unsent opened_breakers job).breakers ((failing, job) ∷ [])) "cnn"
unfolding breaker get lookup
lost_probe_example =
    (lost_probe unsent opened_breakers job (page ∷ []) refl (omega arith) refl refl unsent_stops
      ((failing, job) ∷ []) world job (refl, tt) refl).0
