-- ===== src/Bus/RetryScheduler/Returns.antt =====
-- How a rescheduled job comes back (internal/bus/retry.go, pkg/redis/retry_queue.go).
use issue_tracker.Prelude.{ℕ, ◌≡◌, true, false, none, some, String, ◌==◌}
use issue_tracker.Prelude.Keys.{nat_eq, string_eq}
use issue_tracker.Redis.{Redis}
use issue_tracker.Bus.Messages.{CrawlJob, Message}
use issue_tracker.Bus.RetryScheduler.{
  Entry, Json, RetryMessage, text_or_none, apply_retry_headers, PeekFaults, ItemFaults,
  RetryScheduler,
}

-- An entry that is written is read back, and is not the empty text.
pub record IsJson (json : Json) : Type 0 where
  pub entry :
      (e : Entry) (p : String) → json.marshal_entry e ≡ some p → json.unmarshal_entry p ≡ some e
  pub filled : (e : Entry) (p : String) → json.marshal_entry e ≡ some p → (p == "") ≡ false

-- A peek and items that meet no fault.
abbrev pub calm_peek : PeekFaults
calm_peek = record { range = false; gets = false; cleanup = false }

abbrev pub calm_items : ℕ → ItemFaults
calm_items n = record { publish = λ msg. true; ack = none; reschedule = none; now = 0 }

-- The message of a retry: the publisher's for the job, with the bytes that were stored.
abbrev pub retry_of : RetryScheduler → CrawlJob → String → String → Message → RetryMessage
retry_of s job bytes last_err msg =
    apply_retry_headers s.json (record msg { value = bytes }) job (text_or_none last_err)
