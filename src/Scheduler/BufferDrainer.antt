-- ===== src/Scheduler/BufferDrainer.antt =====
-- internal/scheduler/buffer_drainer.go with pkg/redis/job_buffer.go and pkg/queue/buffering_producer.go: messages
-- of low priority wait in lists of Redis, and a drainer sends them on as far as the backlog allows. JSON, the
-- producer, the backlog and the retry scheduler are parameters. A pipeline that fails has done any number of
-- its commands. Log lines and goroutines are left out, and so are bounds of `int64`.

pub mod Drained
pub mod Loss
pub mod Shift
mod Tests
use issue_tracker.Prelude.{
  ℕ, zero, suc, ◌-◌, Bool, true, false, ◌||◌, Option, none, some, String, List, [], ◌∷◌, ltb, leb,
  if◌then◌else◌, ◌==◌, length,
}
use issue_tracker.Prelude.Keys.{nat_eq, string_eq}
use issue_tracker.Redis.{Fate, done, unsent, unanswered}
use issue_tracker.Redis.Lists.{Lists}
use issue_tracker.Bus.Messages.{CrawlJob, Message}

abbrev pub topic_crawl_normal : String
topic_crawl_normal = "issuetracker.crawl.normal"

abbrev pub topic_crawl_low : String
topic_crawl_low = "issuetracker.crawl.low"

any_empty : List String → Bool
any_empty [] = false
any_empty (p ∷ ps) = p == "" || any_empty ps

module _ {R : Type 0} (redis : Lists R) where
  -- The first commands of the pipeline.
  unfoldable pub push_commands : ℕ → String → List String → ℕ → R → R
  push_commands zero label payloads max_len r = r
  push_commands (suc zero) label payloads max_len r = redis.lpush label payloads r
  push_commands (suc (suc n)) label payloads max_len r =
      if ltb 0 max_len
      then redis.ltrim label max_len (redis.lpush label payloads r)
      else redis.lpush label payloads r

  push_pipeline : Option ℕ → String → List String → ℕ → R → R × Bool
  push_pipeline none label payloads max_len r = (push_commands 2 label payloads max_len r, true)
  push_pipeline (some n) label payloads max_len r =
      (push_commands n label payloads max_len r, false)

  -- `EnqueueBatch`, with the number of commands after which it breaks; `false` is an error. The key of a
  -- label stands here as the label.
  unfoldable pub enqueue_batch : Option ℕ → String → List String → ℕ → R → R × Bool
  unfolding push_pipeline any_empty
  enqueue_batch broken label [] max_len r = (r, if label == "" then false else true)
  enqueue_batch broken label (p ∷ ps) max_len r =
      if label == "" || any_empty (p ∷ ps)
      then (r, false)
      else push_pipeline broken label (p ∷ ps) max_len r

  -- `EnqueueJob`.
  unfoldable pub enqueue_job : Option ℕ → String → String → ℕ → R → R × Bool
  enqueue_job broken label payload max_len r =
      if payload == "" then (r, false) else enqueue_batch broken label (payload ∷ []) max_len r

  rpop_count : Fate → String → ℕ → R → R × Option (List String)
  rpop_count done label n r = let (r', popped) = redis.rpop label n r in (r', some popped)
  rpop_count unsent label n r = (r, none)
  rpop_count unanswered label n r = ((redis.rpop label n r).0, none)

  -- `DrainJobs`; none is an error. What an unanswered command popped is out of the list.
  unfoldable pub drain_jobs : Fate → String → ℕ → R → R × Option (List String)
  unfolding rpop_count
  drain_jobs fate label n r =
      if n == 0 then (r, some []) else if label == "" then (r, none) else rpop_count fate label n r

  unfoldable pub job_buffer_len : Bool → String → R → Option ℕ
  job_buffer_len broken label r =
      if label == "" || broken then none else some (length (redis.items r label))

-- `labelForTopic`; none is the empty text.
unfoldable pub label_for_topic : String → Option String
label_for_topic topic =
    if topic == topic_crawl_normal
    then some "normal"
    else if topic == topic_crawl_low
    then some "low"
    else none

-- What the buffering producer made of a message: where it went, and whether the caller gets an error.
pub data Sent : Type 0 where
  buffered : Sent
  direct : Bool → Sent

module _ {R : Type 0} (redis : Lists R) (encode : Message → Option String)
    (publish : Message → Bool) (max_len : ℕ) where
  enqueued_or_direct : Message → R × Bool → R × Sent
  enqueued_or_direct msg (r, true) = (r, buffered)
  enqueued_or_direct msg (r, false) = (r, direct (publish msg))

  publish_payload : Option ℕ → Message → String → Option String → R → R × Sent
  unfolding enqueued_or_direct
  publish_payload broken msg label none r = (r, direct (publish msg))
  publish_payload broken msg label (some payload) r =
      enqueued_or_direct msg (enqueue_job redis broken label payload max_len r)

  publish_label : Option ℕ → Message → Option String → R → R × Sent
  unfolding publish_payload
  publish_label broken msg none r = (r, direct (publish msg))
  publish_label broken msg (some label) r = publish_payload broken msg label (encode msg) r

  -- `BufferingProducer.Publish`.
  unfoldable pub buffering_publish : Option ℕ → Message → R → R × Sent
  unfolding publish_label
  buffering_publish broken msg r = publish_label broken msg (label_for_topic msg.topic) r

-- `BufferDrainer` with its decoders, and its retry scheduler as what it answers to a job.
pub record BufferDrainer : Type 0 where
  pub decode : String → Option Message
  pub unmarshal_job : String → Option CrawlJob
  pub retry_scheduler : Option (CrawlJob → Bool)
  pub target_backlog : ℕ
  pub drain_batch : ℕ
  pub max_len : ℕ

-- What a cycle meets: the backlog, the commands that break, and the answer of the producer.
pub record Faults : Type 0 where
  pub backlog : Option ℕ
  pub len : Bool
  pub drain : Fate
  pub publish : List Message → Bool
  pub reenqueue : Option ℕ

-- What a cycle did: the store, the messages that were published and the jobs that the retry scheduler took.
pub record Cycle (R : Type 0) : Type 0 where
  pub store : R
  pub published : List Message
  pub scheduled : List CrawlJob

cons_decoded : Option Message → List Message → List Message
cons_decoded none msgs = msgs
cons_decoded (some msg) msgs = msg ∷ msgs

-- The messages of the payloads that can be decoded.
unfoldable pub decoded : BufferDrainer → List String → List Message
unfolding cons_decoded
decoded d [] = []
decoded d (p ∷ ps) = cons_decoded (d.decode p) (decoded d ps)

-- `failedPayloads` with the payload at the index, where there is one.
failed_at : List String → List String → List String
failed_at [] failed = failed
failed_at (p ∷ ps) failed = p ∷ failed

behind : List String → List String
behind [] = []
behind (p ∷ ps) = ps

dispatch_job :
    (CrawlJob → Bool)
    → List String
    → Option CrawlJob
    → List CrawlJob × List String
    → List CrawlJob × List String
unfolding failed_at
dispatch_job retry payloads none (jobs, failed) = (jobs, failed_at payloads failed)
dispatch_job retry payloads (some job) (jobs, failed) =
    if retry job then (job ∷ jobs, failed) else (jobs, failed_at payloads failed)

-- The loop of `dispatchToRetry`: the jobs that were scheduled and `failedPayloads`.
unfoldable pub dispatch :
    BufferDrainer → (CrawlJob → Bool) → List Message → List String → List CrawlJob × List String
unfolding dispatch_job behind
dispatch d retry [] payloads = ([], [])
dispatch d retry (msg ∷ msgs) payloads =
    dispatch_job retry payloads (d.unmarshal_job msg.value)
      (dispatch d retry msgs (behind payloads))

min : ℕ → ℕ → ℕ
min a b = if ltb b a then b else a

module _ {R : Type 0} (redis : Lists R) (d : BufferDrainer) where
  dispatch_to_retry : Option ℕ → String → List CrawlJob × List String → R → Cycle R
  dispatch_to_retry broken label (jobs, failed) r = record {
    store = (enqueue_batch redis broken label failed d.max_len r).0;
    published = [];
    scheduled = jobs;
  }

  unpublished :
      Option (CrawlJob → Bool) → Option ℕ → String → List Message → List String → R → Cycle R
  unfolding dispatch_to_retry
  unpublished none broken label msgs payloads r = record {
    store = (enqueue_batch redis broken label payloads d.max_len r).0;
    published = [];
    scheduled = [];
  }
  unpublished (some retry) broken label msgs payloads r =
      dispatch_to_retry broken label (dispatch d retry msgs payloads) r

  publish_drained : Faults → String → List String → List Message → R → Cycle R
  unfolding unpublished
  publish_drained faults label payloads [] r = record { store = r; published = []; scheduled = [] }
  publish_drained faults label payloads (m ∷ msgs) r =
      if faults.publish (m ∷ msgs)
      then record { store = r; published = m ∷ msgs; scheduled = [] }
      else unpublished d.retry_scheduler faults.reenqueue label (m ∷ msgs) payloads r

  drained : Faults → String → R × Option (List String) → Cycle R
  unfolding publish_drained
  drained faults label (r, none) = record { store = r; published = []; scheduled = [] }
  drained faults label (r, some payloads) =
      publish_drained faults label payloads (decoded d payloads) r

  drain_some : Faults → String → ℕ → Option ℕ → R → Cycle R
  unfolding drained min
  drain_some faults label available none r = record { store = r; published = []; scheduled = [] }
  drain_some faults label available (some len) r =
      if len == 0
      then record { store = r; published = []; scheduled = [] }
      else drained faults label
          (drain_jobs redis faults.drain label (min (min available d.drain_batch) len) r)

  drain_below : Faults → String → Option ℕ → R → Cycle R
  unfolding drain_some
  drain_below faults label none r = record { store = r; published = []; scheduled = [] }
  drain_below faults label (some backlog) r =
      if leb d.target_backlog backlog
      then record { store = r; published = []; scheduled = [] }
      else drain_some faults label (d.target_backlog - backlog)
          (job_buffer_len redis faults.len label r) r

  -- `drainOnce` of a label.
  unfoldable pub drain_once : Faults → String → R → Cycle R
  unfolding drain_below
  drain_once faults label r = drain_below faults label faults.backlog r
