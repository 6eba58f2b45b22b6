-- ===== src/Bus/RetryScheduler/Tests.antt =====
-- Runs of the retry scheduler over association lists (internal/bus/retry.go, pkg/redis/retry_queue.go).
use issue_tracker.Prelude.{
  ℕ, refl, false, ◌&&◌, none, some, String, [], ◌∷◌, if◌then◌else◌, ◌==◌, lookup,
}
use issue_tracker.Prelude.Keys.{nat_eq, string_eq}
use issue_tracker.Redis.Memory.{Store, memory, memory-IsRedis}
use issue_tracker.Bus.Messages.{CrawlJob, TargetType, Message}
use issue_tracker.Bus.RetryScheduler.{Entry, Json, ItemFaults, RetryScheduler, poll_once}
use issue_tracker.Bus.RetryScheduler.Kept.{Settled, poll_once-Settled}
use issue_tracker.Bus.RetryScheduler.Returns.{calm_peek}

abbrev job : CrawlJob
job = record {
  id = "job";
  crawler_name = "yna";
  url = "https://a/1";
  target_type = TargetType.article;
  priority = 2;
  scheduled_at = 5000000;
  timeout = 30;
  retry_count = 1;
  max_retries = 3;
}

abbrev entry : Entry
entry = record { job_bytes = "job bytes"; last_err = "timeout" }

-- One entry and one job in place of JSON.
abbrev json : Json
json = record {
  marshal_entry =
      λ e. if e.job_bytes == "job bytes" && e.last_err == "timeout" then some "entry" else none;
  unmarshal_entry = λ p. if p == "entry" then some entry else none;
  marshal_job = λ j. some "job bytes";
  unmarshal_job = λ b. if b == "job bytes" then some job else none;
  gate_skip_count = λ j. none;
}

abbrev scheduler : RetryScheduler
scheduler = record {
  json = json;
  resolver = none;
  batch_size = 10;
  republish_failure_backoff = 1000000000;
}

abbrev blank : Store String String
blank = record { strings = []; members = [] }

abbrev message : Message
message = record {
  topic = "issuetracker.crawl.normal";
  key = "job";
  value = "job bytes";
  crawler = "yna";
  priority = 2;
}

-- The job waits since a rescheduling.
abbrev waiting : Store String String
waiting = record { strings = ("job", "entry") ∷ []; members = ("job", 5) ∷ [] }

-- The producer refuses the message, and the rescheduling breaks at once.
abbrev refused : ℕ → ItemFaults
refused n = record { publish = λ msg. false; ack = none; reschedule = some 0; now = 9000000 }

poll_once-Settled_example :
    Settled memory scheduler "job" "entry"
      (poll_once memory scheduler calm_peek refused 8000000 waiting)
unfolding memory lookup
poll_once-Settled_example =
    poll_once-Settled memory scheduler calm_peek refused 8000000 "job" "entry" waiting
      memory-IsRedis (5, refl, refl)
