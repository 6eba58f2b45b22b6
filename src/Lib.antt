-- ===== src/Lib.antt =====
-- IssueTracker: the core of a crawling pipeline.
--
-- The program crawls news and community pages. Jobs come to the fetcher worker from Kafka; a page that
-- was fetched is stored, and goes on to the parser, the validator and the enricher. The links found on
-- a page are published as new jobs. On the way stand guards: circuit breakers by crawler, retry
-- policies, a chain of prechecks, markers of URLs that are in the pipeline, budgets of calls to language
-- models and a guard of enrichment costs. This library models these parts, each in its own modules.
--
-- Where things are:
-- - Resilience (pkg/resilience/circuit_breaker.go): the circuit breaker, with `Allow`, `RecordSuccess`
--   and `RecordFailure`, and the registry of breakers by source. Resilience.Spec is what a breaker
--   promises, as a machine without counters of its own.
-- - Fetcher.Errors (internal/processor/fetcher/core/errors.go): the crawler's errors, their chain under
--   `errors.Is` and `errors.As`, and their constructors.
-- - Fetcher.Retry (internal/processor/fetcher/core/retry.go): `CalculateBackoff` and `WithRetry`.
-- - Fetcher.Worker (internal/processor/fetcher/worker/pool.go): `Handle` of one message, with
--   `processJob`, the requeueing, the dead letters and the publishing of what was fetched. It uses
--   Resilience, Fetcher.Retry and Precheck.
-- - Precheck (internal/processor/precheck): the chain of sources that decide on a URL before it is
--   fetched, the batch of URLs, and the blacklist.
-- - RateLimiter (internal/processor/fetcher/rate_limiter/token_bucket.go): the token bucket.
-- - Bus.SeenCache (internal/bus/seen_cache.go): the cache of URLs that were in the pipeline a moment ago.
-- - Bus.Messages (internal/bus/worker.go): a crawl job, its topic and its Kafka message.
-- - Bus.Chain (internal/bus/chain.go): `PublishChained`, the filter of URLs by their markers and the
--   building of the messages. It uses Bus.SeenCache and Bus.Messages; Bus.Chain.Guarded puts it together with
--   the pipeline guard of Locks.Marker.
-- - Bus.Resolver (internal/bus/resolver.go and override_resolver.go): the resolvers that give a job its
--   priority, and their chain.
-- - Llmgen.HostBreaker and Llmgen.CallBudget (internal/processor/parser/rule/llmgen/breaker.go and
--   budget.go): the breaker by host and the budget of calls that guard the making of parser rules, with
--   callers of the budget that run at the same time in Llmgen.CallBudget.Callers.
-- - Llm.Errors and Llm.RetryProvider (pkg/llm/errors.go and retry.go): the providers' errors, and the
--   provider that tries again under two policies.
-- - Enrich.CostGuard (internal/processor/enrich/worker/cost_guard.go): the guard of enrichment costs.
-- - Locks.StageGate (internal/locks/semaphore.go and stage_gate.go): the slots of a stage and the gate
--   in front of it, as steps of workers in any order.
-- - Locks.ProcessingLock (internal/locks/processing_lock.go, pkg/redis/lock.go): the lock of a URL in a
--   stage with its tokens, as events of any workers. Locks.Marker (internal/locks/ingestion_marker.go and
--   pipeline_guard.go): the markers of URLs in the pipeline, with their times.
-- - Bus.RetryScheduler (internal/bus/retry.go, pkg/redis/retry_queue.go): jobs that wait in Redis for their
--   next attempt, and the poll that publishes them. It uses Bus.Messages.
-- - Queue.PriorityZset (pkg/queue/priority_zset.go, priority_header.go): the queue by priority and arrival.
-- - Scheduler.BufferDrainer (internal/scheduler/buffer_drainer.go, pkg/queue/buffering_producer.go,
--   pkg/redis/job_buffer.go): messages of low priority wait in lists, and the drainer sends them on.
-- - Scoring (internal/scoring) and Bus.ScoreResolver (internal/bus/score_resolver.go): the scores of hosts,
--   and the resolver that raises hosts by them. They use Bus.Resolver.
-- - Workerpool (internal/workerpool/pool.go): the pool of workers behind a consumer, as steps of its
--   goroutines in any order.
-- - Llm.Chain (pkg/llm/chain, pkg/llm/policy): the chain of providers, and the policies that order it.
-- - Validate (internal/processor/validate/types, pkg/config/processor/validate.go): what the validators
--   share. Validate.News and Validate.Community (internal/processor/validate/domain): the validators of
--   news and of posts, with their scores.
-- - Redis: the commands that these parts send, as interfaces with the laws of their documentation, each with
--   an implementation in memory that meets them: Redis itself (texts and a sorted set), Redis.Expiring
--   (keys that expire) and Redis.Lists.
-- - Prelude: the library's names passed on, tests, lists, keys and association lists (Go maps).
--
-- How the code is read:
-- - A time is a natural number of nanoseconds, where 0 is the zero `time.Time`; each reading of a clock
--   is an input, and so is each random draw. A Go integer that the code compares with 0 or less is a
--   natural number, where 0 stands for those; no count here can come near the bound of an `int`.
-- - A method under a mutex is one step. Where a method takes it several times, the module says so. What
--   other workers do with the breakers during a fetch is a list of calls between the two uses.
-- - Kafka, Redis, the stores and the network are inputs: what each call to them answers. `context`
--   cancellation is an input where the code asks for it.
-- - Loops are recursion on lists, and `WithRetry` and `Generate` are recursion on the attempts that are
--   left, which the policies bound. No definition has fuel that can run out.
-- - Floating point numbers are exact, and rounded once where the code converts to a duration.
-- - Log lines, metrics and error texts are left out.
--
-- Not modelled: the commands under cmd, the HTTP interface, the stores and their SQL, the clients of
-- Kafka and the language models, configuration, and the fetching of pages itself, all of them
-- input and output; and, of the program's own logic, the schedule of entries, the parser's rules,
-- the validation worker, the enrichment worker and the policies by latency.
mod Prelude
pub mod RateLimiter
pub mod Redis
pub mod Resilience
pub mod Llmgen
pub mod Precheck
pub mod Fetcher
pub mod Enrich
pub mod Queue
pub mod Scheduler
pub mod Scoring
pub mod Workerpool
pub mod Validate
pub mod Bus
pub mod Llm
pub mod Locks
