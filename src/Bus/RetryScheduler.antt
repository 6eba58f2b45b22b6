-- ===== src/Bus/RetryScheduler.antt =====
-- internal/bus/retry.go over pkg/redis/retry_queue.go: jobs that wait in Redis for their next attempt. The
-- key of an entry is its job's id behind a fixed prefix, and stands here as the id; scores are the
-- milliseconds of the times. A pipeline that fails has done any number of its commands. JSON, Redis and
-- the publisher's producer are parameters. Log lines are left out, and so is the expiry of an entry after
-- a day.

mod Kept
mod Waits
mod Returns
mod Tests
use issue_tracker.Prelude.{
  ℕ, zero, suc, ◌+◌, ◌/◌, Bool, true, false, ◌||◌, Option, none, some, String, List, [], ◌∷◌, ◌++◌,
  if◌then◌else◌, ◌==◌,
}
use issue_tracker.Prelude.Keys.{nat_eq, string_eq}
use issue_tracker.Redis.{Redis}
use issue_tracker.Bus.Messages.{CrawlJob, Message, build_message}

-- `retryEntry` in Redis.
pub record Entry : Type 0 where
  pub job_bytes : String
  pub last_err : String

-- `json.Marshal` and `json.Unmarshal` of entries, `Marshal` and `json.Unmarshal` of jobs; the count of
-- skips at the gate is the text in the job's metadata.
pub record Json : Type 0 where
  pub marshal_entry : Entry → Option String
  pub unmarshal_entry : String → Option Entry
  pub marshal_job : CrawlJob → Option String
  pub unmarshal_job : String → Option CrawlJob
  pub gate_skip_count : CrawlJob → Option String

-- A message with the headers of a retry.
pub record RetryMessage : Type 0 where
  pub message : Message
  pub retry_count : ℕ
  pub last_error : Option String
  pub gate_skip_count : Option String

unfoldable pub text_or_none : String → Option String
text_or_none text = if text == "" then none else some text

unfoldable given : Option String → Option String
unfolding text_or_none
given none = none
given (some text) = text_or_none text

unfoldable pub apply_retry_headers : Json → Message → CrawlJob → Option String → RetryMessage
unfolding given
apply_retry_headers json msg job last_err = record {
  message = msg;
  retry_count = job.retry_count;
  last_error = last_err;
  gate_skip_count = given (json.gate_skip_count job);
}

-- Millis of a time in nanoseconds.
unfoldable pub unix_milli : ℕ → ℕ
unix_milli t = t / 1000000

module _ {R : Type 0} (redis : Redis String String R) where
  -- The first commands of `EnqueueRetry`.
  unfoldable pub enqueue_commands : ℕ → String → String → ℕ → R → R
  enqueue_commands zero id payload score r = r
  enqueue_commands (suc zero) id payload score r = redis.zadd id score r
  enqueue_commands (suc (suc n)) id payload score r = redis.set id payload (redis.zadd id score r)

  -- `EnqueueRetry`, with the number of commands after which it breaks; `false` is an error.
  unfoldable pub enqueue_retry : Option ℕ → String → String → ℕ → R → R × Bool
  enqueue_retry broken id payload scheduled_at r =
      if id == "" || payload == "" then (r, false) else elim broken [
        | some n ↦ (enqueue_commands n id payload (unix_milli scheduled_at) r, false)
        | none ↦ (enqueue_commands 2 id payload (unix_milli scheduled_at) r, true)
      ]

  unfoldable pub ack_commands : ℕ → String → R → R
  ack_commands zero id r = r
  ack_commands (suc zero) id r = redis.zrem id r
  ack_commands (suc (suc n)) id r = redis.del id (redis.zrem id r)

  unfoldable pub ack_retry : Option ℕ → String → R → R
  ack_retry broken id r =
      if id == ""
      then r
      else elim broken [ some n ↦ ack_commands n id r | none ↦ ack_commands 2 id r ]

  -- The entries of the ids that are due, and the ids whose entry is gone.
  unfoldable pub cons_due :
      String
      → Option String
      → List (String × String) × List String
      → List (String × String) × List String
  cons_due id none (found, stale) = (found, id ∷ stale)
  cons_due id (some payload) (found, stale) = ((id, payload) ∷ found, stale)

  unfoldable pub entries_of : List String → R → List (String × String) × List String
  entries_of [] r = ([], [])
  entries_of (id ∷ ids) r = cons_due id (redis.get r id) (entries_of ids r)

  unfoldable pub remove_all : List String → R → R
  remove_all [] r = r
  remove_all (id ∷ ids) r = remove_all ids (redis.zrem id r)

-- What the commands of a peek meet.
pub record PeekFaults : Type 0 where
  pub range : Bool
  pub gets : Bool
  pub cleanup : Bool

module _ {R : Type 0} (redis : Redis String String R) where
  -- `PeekDueRetries`; none is an error.
  unfoldable pub peek_due_retries : PeekFaults → ℕ → ℕ → R → R × Option (List (String × String))
  peek_due_retries faults now limit r =
      let ids = redis.zrange (unix_milli now) limit r in
      let (found, stale) = entries_of redis ids r in
      if limit == 0
      then (r, some [])
      else if faults.range || faults.gets
      then (r, none)
      else if faults.cleanup
      then (r, none)
      else (remove_all redis stale r, some found)

-- What the republishing of one item meets: whether the producer takes the message, after how many commands
-- the acknowledgement and the rescheduling break, and the time of the rescheduling.
pub record ItemFaults : Type 0 where
  pub publish : RetryMessage → Bool
  pub ack : Option ℕ
  pub reschedule : Option ℕ
  pub now : ℕ

-- `RedisDelayedRetryScheduler` with what its publisher resolves and its batch and backoff.
pub record RetryScheduler : Type 0 where
  pub json : Json
  pub resolver : Option (CrawlJob → ℕ)
  pub batch_size : ℕ
  pub republish_failure_backoff : ℕ

-- A damaged payload, and the message otherwise. Its value is the bytes that were stored.
unfoldable message_of : Json → Entry → CrawlJob → Option Message → Option RetryMessage
unfolding text_or_none
message_of json e job none = none
message_of json e job (some msg) =
    some
      (apply_retry_headers json (record msg { value = e.job_bytes }) job (text_or_none e.last_err))

unfoldable job_message : RetryScheduler → Entry → Option CrawlJob → Option RetryMessage
unfolding message_of
job_message s e none = none
job_message s e (some job) =
    message_of s.json e job (build_message s.resolver s.json.marshal_job job)

unfoldable entry_message : RetryScheduler → Option Entry → Option RetryMessage
unfolding job_message
entry_message s none = none
entry_message s (some e) = job_message s e (s.json.unmarshal_job e.job_bytes)

unfoldable pub retry_message : RetryScheduler → String → Option RetryMessage
unfolding entry_message
retry_message s payload = entry_message s (s.json.unmarshal_entry payload)

module _ {R : Type 0} (redis : Redis String String R) (s : RetryScheduler) where
  -- `republish` of one item: what is left in Redis, and the message if it was published.
  send : ItemFaults → String → String → Option RetryMessage → R → R × Option RetryMessage
  send faults id payload none r = (ack_retry redis faults.ack id r, none)
  send faults id payload (some msg) r =
      if faults.publish msg then (ack_retry redis faults.ack id r, some msg) else (
        (enqueue_retry redis faults.reschedule id payload (faults.now + s.republish_failure_backoff)
            r).0,
        none,
      )

  unfoldable pub republish : ItemFaults → String → String → R → R × Option RetryMessage
  unfolding send
  republish faults id payload r = send faults id payload (retry_message s payload) r

  -- The items of a poll, in order; `faults` tells what the item with a number meets.
  unfoldable pub republish_all :
      (ℕ → ItemFaults) → ℕ → List (String × String) → R → R × List RetryMessage
  republish_all faults i [] r = (r, [])
  republish_all faults i ((id, payload) ∷ items) r =
      let (r', sent) = republish (faults i) id payload r in
      let (last, others) = republish_all faults (i + 1) items r' in
      (last, elim sent [ none ↦ others | some msg ↦ msg ∷ others ])

  poll_items : (ℕ → ItemFaults) → R × Option (List (String × String)) → R × List RetryMessage
  poll_items faults (r, none) = (r, [])
  poll_items faults (r, some items) = republish_all faults 0 items r

  unfoldable pub poll_once : PeekFaults → (ℕ → ItemFaults) → ℕ → R → R × List RetryMessage
  unfolding poll_items
  poll_once peek faults now r = poll_items faults (peek_due_retries redis peek now s.batch_size r)

  enqueue_payload : Option ℕ → CrawlJob → Option String → R → R × Bool
  enqueue_payload broken job none r = (r, false)
  enqueue_payload broken job (some payload) r =
      enqueue_retry redis broken job.id payload job.scheduled_at r

  enqueue_bytes : Option ℕ → CrawlJob → String → Option String → R → R × Bool
  unfolding enqueue_payload
  enqueue_bytes broken job last_err none r = (r, false)
  enqueue_bytes broken job last_err (some bytes) r =
      enqueue_payload broken job
        (s.json.marshal_entry (record { job_bytes = bytes; last_err = last_err })) r

  -- `Enqueue` of a job: whether it is in Redis.
  unfoldable pub enqueue : Option ℕ → CrawlJob → String → R → R × Bool
  unfolding enqueue_bytes
  enqueue broken job last_err r = enqueue_bytes broken job last_err (s.json.marshal_job job) r
