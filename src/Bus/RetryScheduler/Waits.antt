-- ===== src/Bus/RetryScheduler/Waits.antt =====
-- When a waiting job is published (internal/bus/retry.go, pkg/redis/retry_queue.go).
use issue_tracker.Prelude.{
  ℕ, ◌+◌, ◌≤◌, ◌≡◌, inl, inr, refl, ◌||◌, Option, none, some, String, List, [], ◌∷◌, if◌then◌else◌,
  ◌==◌, arith, All, Bool-cases, Option-cases,
}
use issue_tracker.Prelude.Keys.{nat_eq, string_eq}
use issue_tracker.Redis.{Redis, RangesLow}
use issue_tracker.Bus.RetryScheduler.{
  RetryMessage, unix_milli, cons_due, entries_of, remove_all, PeekFaults, peek_due_retries,
  ItemFaults, RetryScheduler, retry_message, send, republish, republish_all, poll_items, poll_once,
}

module _ {R : Type 0} (redis : Redis String String R) (s : RetryScheduler) where
  -- A message of a job whose time has come.
  abbrev pub Due : ℕ → R → RetryMessage → Type 0
  Due now r msg =
      (id payload : String) × (at : ℕ) × (redis.score r id ≡ some at)
      × (at ≤ unix_milli now)
      × (redis.get r id ≡ some payload)
      × (retry_message s payload ≡ some msg)

  -- An item of a job whose time has come.
  abbrev pub DueItem : ℕ → R → String × String → Type 0
  DueItem now r (id, payload) =
      (at : ℕ) × (redis.score r id ≡ some at)
      × (at ≤ unix_milli now)
      × (redis.get r id ≡ some payload)

  entries_of-DueItem :
      (now : ℕ) (ids : List String) (r : R)
      → All (λ (m : String). (at : ℕ) × (redis.score r m ≡ some at) × (at ≤ unix_milli now)) ids
      → All (DueItem now r) (entries_of redis ids r).0
  unfolding entries_of cons_due
  entries_of-DueItem now [] r low = tt
  entries_of-DueItem now (i ∷ ids) r ((at, score, soon), low) =
      elim (Option-cases (redis.get r i)) [
        | inl e ↦ rw (e) (entries_of-DueItem now ids r low)
        | inr (old, e) ↦ rw (e) ((at, score, soon, e), entries_of-DueItem now ids r low)
      ]

  Due-cons :
      (now : ℕ) (r : R) (sent : Option RetryMessage) (others : List RetryMessage)
      → ((msg : RetryMessage) → sent ≡ some msg → Due now r msg)
      → All (Due now r) others
      → All (Due now r) (elim sent [ none ↦ others | some msg ↦ msg ∷ others ])
  Due-cons now r none others h hs = hs
  Due-cons now r (some msg) others h hs = (h msg refl, hs)

  send-from :
      (faults : ItemFaults) (id payload : String) (o : Option RetryMessage) (r : R)
      (msg : RetryMessage)
      → (send redis s faults id payload o r).1 ≡ some msg
      → o ≡ some msg
  unfolding send
  send-from faults id payload none r msg e = ground arith
  send-from faults id payload (some m) r msg e = ground (arith, e)

  republish_all-Due :
      (faults : ℕ → ItemFaults) (now n : ℕ) (first : R) (items : List (String × String)) (r : R)
      → All (DueItem now first) items
      → All (Due now first) (republish_all redis s faults n items r).1
  unfolding republish_all republish
  republish_all-Due faults now n first [] r due = tt
  republish_all-Due faults now n first ((id, payload) ∷ items) r ((at, score, soon, g), due) =
      let next = send redis s (faults n) id payload (retry_message s payload) r in
      Due-cons now first next.1 (republish_all redis s faults (n + 1) items next.0).1
        (λ msg e. (
          id,
          payload,
          at,
          score,
          soon,
          g,
          send-from (faults n) id payload (retry_message s payload) r msg e,
        ))
        (republish_all-Due faults now (n + 1) first items next.0 due)

-- No job is published before its time: whatever a poll meets, each message that it publishes is that of an
-- entry that was in Redis before it with a time that is not after the poll's.
poll_once-Due :
    {R : Type 0} (redis : Redis String String R) (s : RetryScheduler) (peek : PeekFaults)
    (faults : ℕ → ItemFaults) (now : ℕ) (r : R)
    → RangesLow redis
    → All (Due redis s now r) (poll_once redis s peek faults now r).1
unfolding poll_once peek_due_retries poll_items republish_all
poll_once-Due redis s peek faults now r ranges =
    let ids = redis.zrange (unix_milli now) s.batch_size r in
    elim (Bool-cases (s.batch_size == 0)) [
      | inl idle ↦ rw (idle, if◌then◌else◌) tt
      | inr busy ↦ elim (Bool-cases (peek.range || peek.gets)) [
        | inl e ↦ rw (busy, e, if◌then◌else◌) tt
        | inr e ↦ elim (Bool-cases peek.cleanup) [
          | inl f ↦ rw (busy, e, f, if◌then◌else◌) tt
          | inr f ↦
              rw (busy, e, f, if◌then◌else◌)
                (republish_all-Due redis s faults now 0 r (entries_of redis ids r).0
                  (remove_all redis (entries_of redis ids r).1 r)
                  (entries_of-DueItem redis s now ids r
                    (ranges.low (unix_milli now) s.batch_size r)))
        ]
      ]
    ]
