-- ===== src/Bus/RetryScheduler/Kept.antt =====
-- What a poll leaves in Redis of a job that waits (internal/bus/retry.go, pkg/redis/retry_queue.go).
use issue_tracker.Prelude.{
  ℕ, zero, suc, ◌+◌, ◌≡◌, ◌≢◌, ◌⊎◌, inl, inr, refl, sym, ap, subst, ◌∙◌, ◌||◌, Option, none, some,
  String, List, [], ◌∷◌, if◌then◌else◌, ◌==◌, ==_iff, arith, All, Member, Bool-cases, Option-cases,
}
use issue_tracker.Prelude.Keys.{nat_eq, string_eq}
use issue_tracker.Redis.{Redis, IsRedis}
use issue_tracker.Bus.RetryScheduler.{
  RetryMessage, unix_milli, enqueue_commands, enqueue_retry, ack_commands, ack_retry, cons_due,
  entries_of, remove_all, PeekFaults, peek_due_retries, ItemFaults, RetryScheduler, retry_message,
  send, republish, republish_all, poll_items, poll_once,
}

module _ {R : Type 0} (redis : Redis String String R) where
  -- The job's entry is in the set of those that wait, and its payload in place.
  abbrev pub Queued : String → String → R → Type 0
  Queued id payload r = (at : ℕ) × (redis.score r id ≡ some at) × (redis.get r id ≡ some payload)

  -- An item with the id has the payload.
  abbrev pub Agrees : String → String → String × String → Type 0
  Agrees id payload item = item.0 ≡ id → item.1 ≡ payload

  -- What became of a job: it waits, or it was published, or its payload cannot be read.
  abbrev pub Settled : RetryScheduler → String → String → R × List RetryMessage → Type 0
  Settled s id payload (r, sent) =
      Queued id payload r
      ⊎ ((retry_message s payload ≡ none)
          ⊎ ((msg : RetryMessage) × (retry_message s payload ≡ some msg) × Member msg sent))

  module _ (law : IsRedis redis) where
    ack_commands-Queued :
        (n : ℕ) (id other payload : String) (r : R)
        → id ≢ other
        → Queued other payload r
        → Queued other payload (ack_commands redis n id r)
    unfolding ack_commands
    ack_commands-Queued zero id other payload r apart q = q
    ack_commands-Queued (suc zero) id other payload r apart (at, s, g) = (
      at,
      ground (arith, s, apart, ==_iff id other, law.score_zrem id r other),
      law.get_zrem id r other ∙ g,
    )
    ack_commands-Queued (suc (suc n)) id other payload r apart (at, s, g) = (
      at,
      law.score_del id (redis.zrem id r) other
          ∙ ground (arith, s, apart, ==_iff id other, law.score_zrem id r other),
      ground (
        arith,
        g,
        apart,
        ==_iff id other,
        law.get_del id (redis.zrem id r) other,
        law.get_zrem id r other,
      ),
    )

    ack_retry-Queued :
        (broken : Option ℕ) (id other payload : String) (r : R)
        → id ≢ other
        → Queued other payload r
        → Queued other payload (ack_retry redis broken id r)
    unfolding ack_retry
    ack_retry-Queued none id other payload r apart q = elim (Bool-cases (id == "")) [
      | inl e ↦ rw (e, if◌then◌else◌) q
      | inr e ↦ rw (e, if◌then◌else◌) (ack_commands-Queued 2 id other payload r apart q)
    ]
    ack_retry-Queued (some n) id other payload r apart q = elim (Bool-cases (id == "")) [
      | inl e ↦ rw (e, if◌then◌else◌) q
      | inr e ↦ rw (e, if◌then◌else◌) (ack_commands-Queued n id other payload r apart q)
    ]

    zadd-Queued :
        (score : ℕ) (id other payload : String) (r : R)
        → Queued other payload r
        → Queued other payload (redis.zadd id score r)
    zadd-Queued score id other payload r (at, s, g) = elim (Bool-cases (id == other)) [
      | inl e ↦ (
        score,
        ground (arith, e, law.score_zadd id score r other),
        law.get_zadd id score r other ∙ g,
      )
      | inr e ↦ (
        at,
        ground (arith, e, s, law.score_zadd id score r other),
        law.get_zadd id score r other ∙ g,
      )
    ]

    -- The rescheduling puts a job back with its own payload, however far it comes.
    enqueue_commands-Queued :
        (n score : ℕ) (id old other payload : String) (r : R)
        → (id ≡ other → old ≡ payload)
        → Queued other payload r
        → Queued other payload (enqueue_commands redis n id old score r)
    unfolding enqueue_commands
    enqueue_commands-Queued zero score id old other payload r agrees q = q
    enqueue_commands-Queued (suc zero) score id old other payload r agrees q =
        zadd-Queued score id other payload r q
    enqueue_commands-Queued (suc (suc n)) score id old other payload r agrees q =
        let (at, s, g) = zadd-Queued score id other payload r q in
        (
          at,
          law.score_set id old (redis.zadd id score r) other ∙ s,
          elim (Bool-cases (id == other)) [
            | inl e ↦ ground (
              arith,
              e,
              agrees ((==_iff id other).0 e),
              law.get_set id old (redis.zadd id score r) other,
            )
            | inr e ↦ ground (arith, e, g, law.get_set id old (redis.zadd id score r) other)
          ],
        )

    enqueue_retry-Queued :
        (broken : Option ℕ) (id old other payload : String) (time : ℕ) (r : R)
        → (id ≡ other → old ≡ payload)
        → Queued other payload r
        → Queued other payload (enqueue_retry redis broken id old time r).0
    unfolding enqueue_retry
    enqueue_retry-Queued none id old other payload time r agrees q =
        elim (Bool-cases (id == "" || old == "")) [
          | inl e ↦ rw (e, if◌then◌else◌) q
          | inr e ↦
              rw (e, if◌then◌else◌)
                (enqueue_commands-Queued 2 (unix_milli time) id old other payload r agrees q)
        ]
    enqueue_retry-Queued (some n) id old other payload time r agrees q =
        elim (Bool-cases (id == "" || old == "")) [
          | inl e ↦ rw (e, if◌then◌else◌) q
          | inr e ↦
              rw (e, if◌then◌else◌)
                (enqueue_commands-Queued n (unix_milli time) id old other payload r agrees q)
        ]

    module _ (s : RetryScheduler) (id payload : String) where
      -- One item: afterwards the job waits still, or it was this item.
      abbrev Passed : R × Option RetryMessage → Type 0
      Passed (r, sent) =
          Queued id payload r
          ⊎ ((retry_message s payload ≡ none)
              ⊎ ((msg : RetryMessage) × (retry_message s payload ≡ some msg) × (sent ≡ some msg)))

      send-Passed :
          (faults : ItemFaults) (i old : String) (o : Option RetryMessage) (r : R)
          → retry_message s old ≡ o
          → (i ≡ id → old ≡ payload)
          → Queued id payload r
          → Passed (send redis s faults i old o r)
      unfolding send
      send-Passed faults i old none r e agrees q = elim (Bool-cases (i == id)) [
        | inl h ↦ inr (inl (ap (retry_message s) (sym (agrees ((==_iff i id).0 h))) ∙ e))
        | inr h ↦
            inl (ack_retry-Queued faults.ack i id payload r (ground (arith, h, ==_iff i id)) q)
      ]
      send-Passed faults i old (some msg) r e agrees q = elim (Bool-cases (faults.publish msg)) [
        | inl taken ↦
            rw (taken, if◌then◌else◌)
              (elim (Bool-cases (i == id)) [
                | inl h ↦
                    inr
                      (inr (msg, ap (retry_message s) (sym (agrees ((==_iff i id).0 h))) ∙ e, refl))
                | inr h ↦
                    inl (
                      ack_retry-Queued faults.ack i id payload r (ground (arith, h, ==_iff i id)) q)
              ])
        | inr refused ↦
            rw (refused, if◌then◌else◌)
              (inl (
                enqueue_retry-Queued faults.reschedule i old id payload
                  (faults.now + s.republish_failure_backoff) r agrees q))
      ]

      -- An item that was published before others.
      Settled-cons :
          (sent : Option RetryMessage) (last : R) (others : List RetryMessage)
          → Settled s id payload (last, others)
          → Settled s id payload (last, elim sent [ none ↦ others | some msg ↦ msg ∷ others ])
      Settled-cons none last others h = h
      Settled-cons (some m) last others (inl q) = inl q
      Settled-cons (some m) last others (inr (inl e)) = inr (inl e)
      Settled-cons (some m) last others (inr (inr (msg, e, there))) = inr (inr (msg, e, inr there))

      republish_all-Settled :
          (faults : ℕ → ItemFaults) (n : ℕ) (items : List (String × String)) (r : R)
          → All (Agrees id payload) items
          → Queued id payload r
          → Settled s id payload (republish_all redis s faults n items r)
      unfolding republish_all republish
      republish_all-Settled faults n [] r agrees q = inl q
      republish_all-Settled faults n ((j, old) ∷ items) r (here, others) q =
          let next = send redis s (faults n) j old (retry_message s old) r in
          elim (send-Passed (faults n) j old (retry_message s old) r refl here q) [
            | inl kept ↦
                Settled-cons next.1 (republish_all redis s faults (n + 1) items next.0).0
                  (republish_all redis s faults (n + 1) items next.0).1
                  (republish_all-Settled faults (n + 1) items next.0 others kept)
            | inr (inl e) ↦ inr (inl e)
            | inr (inr (msg, e, now)) ↦ inr (
                inr (
                  msg,
                  e,
                  subst
                      (λ (o : Option RetryMessage). Member msg (elim o [
                        | none ↦ (republish_all redis s faults (n + 1) items next.0).1
                        | some m ↦ m ∷ (republish_all redis s faults (n + 1) items next.0).1
                      ]))
                      (sym now) (inl refl),
                ))
          ]

    -- The ids of a peek whose entry is gone are others than one that has its entry.
    pub entries_of-Agrees :
        (ids : List String) (id payload : String) (r : R)
        → redis.get r id ≡ some payload
        → All (Agrees id payload) (entries_of redis ids r).0
          × All (λ (i : String). i ≢ id) (entries_of redis ids r).1
    unfolding entries_of cons_due
    entries_of-Agrees [] id payload r g = (tt, tt)
    entries_of-Agrees (i ∷ ids) id payload r g =
        let (found, stale) = entries_of-Agrees ids id payload r g in
        elim (Option-cases (redis.get r i)) [
          | inl e ↦
              rw (e)
                (found, ((λ (same : i ≡ id). ground (arith, e, g, ap (redis.get r) same)), stale))
          | inr (old, e) ↦
              rw (e)
                (((λ (same : i ≡ id). ground (arith, e, g, ap (redis.get r) same)), found), stale)
        ]

    remove_all-Queued :
        (ids : List String) (id payload : String) (r : R)
        → All (λ (i : String). i ≢ id) ids
        → Queued id payload r
        → Queued id payload (remove_all redis ids r)
    unfolding remove_all
    remove_all-Queued [] id payload r apart q = q
    remove_all-Queued (i ∷ ids) id payload r (here, others) (at, s, g) =
        remove_all-Queued ids id payload (redis.zrem i r) others
          (at, ground (arith, s, here, ==_iff i id, law.score_zrem i r id), law.get_zrem i r id ∙ g)

-- No poll loses a job. Whatever breaks in it - the range, the reading, the removal of stale ids, and for
-- each item the publishing and any of the commands after it - a job that waited before it waits afterwards
-- with the same payload, or its message was published in this poll, or its payload cannot be read.
pub poll_once-Settled :
    {R : Type 0} (redis : Redis String String R) (s : RetryScheduler) (peek : PeekFaults)
    (faults : ℕ → ItemFaults) (now : ℕ) (id payload : String) (r : R)
    → IsRedis redis
    → Queued redis id payload r
    → Settled redis s id payload (poll_once redis s peek faults now r)
unfolding poll_once peek_due_retries poll_items republish_all
poll_once-Settled redis s peek faults now id payload r law q =
    let ids = redis.zrange (unix_milli now) s.batch_size r in
    let (at, score, g) = q in
    let (agrees, apart) = entries_of-Agrees redis law ids id payload r g in
    elim (Bool-cases (s.batch_size == 0)) [
      | inl idle ↦ rw (idle, if◌then◌else◌) (inl q)
      | inr busy ↦ elim (Bool-cases (peek.range || peek.gets)) [
        | inl e ↦ rw (busy, e, if◌then◌else◌) (inl q)
        | inr e ↦ elim (Bool-cases peek.cleanup) [
          | inl f ↦ rw (busy, e, f, if◌then◌else◌) (inl q)
          | inr f ↦
              rw (busy, e, f, if◌then◌else◌)
                (republish_all-Settled redis law s id payload faults 0 (entries_of redis ids r).0
                  (remove_all redis (entries_of redis ids r).1 r) agrees
                  (remove_all-Queued redis law (entries_of redis ids r).1 id payload r apart q))
        ]
      ]
    ]
