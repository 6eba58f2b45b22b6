-- ===== src/Scheduler/BufferDrainer/Drained.antt =====
-- What a cycle sends on (internal/scheduler/buffer_drainer.go).
use issue_tracker.Prelude.{
  ℕ, ◌+◌, ◌-◌, ◌≤◌, ◌≡◌, ◌⊎◌, inl, inr, refl, ap, Bool, Option, none, some, String, List, [], ◌∷◌,
  leb, if◌then◌else◌, ◌==◌, arith, length, Bool-cases, Option-cases,
}
use issue_tracker.Prelude.Keys.{nat_eq, string_eq}
use issue_tracker.Redis.{Fate, done, unsent, unanswered}
use issue_tracker.Redis.Lists.{Lists, IsLists}
use issue_tracker.Bus.Messages.{CrawlJob, Message}
use issue_tracker.Scheduler.BufferDrainer.{
  rpop_count, drain_jobs, job_buffer_len, BufferDrainer, Faults, Cycle, cons_decoded, decoded,
  dispatch_to_retry, unpublished, publish_drained, drained, min, drain_some, drain_below,
  drain_once,
}

decoded-length : (d : BufferDrainer) (ps : List String) → length (decoded d ps) ≤ length ps
unfolding decoded cons_decoded
decoded-length d [] = omega arith
decoded-length d (p ∷ ps) = elim (Option-cases (d.decode p)) [
  | inl e ↦ rw (e) (omega (arith, decoded-length d ps))
  | inr (msg, e) ↦ rw (e) (omega (arith, decoded-length d ps))
]

min-le : (a b : ℕ) → (min a b ≤ a) × (min a b ≤ b)
unfolding min
min-le a b = (ground arith, ground arith)

module _ {R : Type 0} (redis : Lists R) (law : IsLists redis) (d : BufferDrainer) (faults : Faults)
    (label : String) where
  -- Messages that a cycle published are those of the oldest payloads, up to a number, in their order; these
  -- and no others have left the buffer.
  abbrev pub Oldest : ℕ → R → Cycle R → Type 0
  Oldest n r c =
      (c.published ≡ [])
      ⊎ ((c.published ≡ decoded d (redis.rpop label n r).1)
          × (c.store ≡ (redis.rpop label n r).0)
          × (length c.published ≤ n))

  retried-none :
      (retry : Option (CrawlJob → Bool)) (broken : Option ℕ) (msgs : List Message)
      (ps : List String) (r : R)
      → (unpublished redis d retry broken label msgs ps r).published ≡ []
  unfolding unpublished dispatch_to_retry
  retried-none none broken msgs ps r = refl
  retried-none (some retry) broken msgs ps r = refl

  publish_drained-all :
      (ps : List String) (msgs : List Message) (r : R)
      → ((publish_drained redis d faults label ps msgs r).published ≡ [])
        ⊎ (((publish_drained redis d faults label ps msgs r).published ≡ msgs)
            × ((publish_drained redis d faults label ps msgs r).store ≡ r))
  unfolding publish_drained
  publish_drained-all ps [] r = inl refl
  publish_drained-all ps (m ∷ msgs) r = elim (Bool-cases (faults.publish (m ∷ msgs))) [
    | inl e ↦ rw (e, if◌then◌else◌) (inr (refl, refl))
    | inr e ↦
        rw (e, if◌then◌else◌)
          (inl (retried-none d.retry_scheduler faults.reenqueue (m ∷ msgs) ps r))
  ]

  rpop_count-Oldest :
      (fate : Fate) (n : ℕ) (r : R)
      → Oldest n r (drained redis d faults label (rpop_count redis fate label n r))
  unfolding drained rpop_count
  rpop_count-Oldest done n r =
      let ps = (redis.rpop label n r).1 in
      let r' = (redis.rpop label n r).0 in
      elim (publish_drained-all ps (decoded d ps) r') [
        | inl g ↦ inl g
        | inr (g, same) ↦
            inr (g, same, omega (arith, ap length g, decoded-length d ps, law.at_most label n r))
      ]
  rpop_count-Oldest unsent n r = inl refl
  rpop_count-Oldest unanswered n r = inl refl

  drained-Oldest :
      (n : ℕ) (r : R)
      → Oldest n r (drained redis d faults label (drain_jobs redis faults.drain label n r))
  unfolding drain_jobs
  drained-Oldest n r = elim (Bool-cases (n == 0)) [
    | inl e ↦ rw (e, if◌then◌else◌) (inl (unfold drained decoded publish_drained in refl))
    | inr e ↦ elim (Bool-cases (label == "")) [
      | inl f ↦ rw (e, f, if◌then◌else◌) (inl (unfold drained in refl))
      | inr f ↦ rw (e, f, if◌then◌else◌) (rpop_count-Oldest faults.drain n r)
    ]
  ]

  drain_some-Oldest :
      (available : ℕ) (len : Option ℕ) (r : R)
      → (n : ℕ) × (n ≤ available)
        × (n ≤ d.drain_batch)
        × Oldest n r (drain_some redis d faults label available len r)
  unfolding drain_some
  drain_some-Oldest available none r = (0, omega arith, omega arith, inl refl)
  drain_some-Oldest available (some len) r = elim (Bool-cases (len == 0)) [
    | inl e ↦ rw (e, if◌then◌else◌) (0, omega arith, omega arith, inl refl)
    | inr e ↦
        rw (e, if◌then◌else◌)
          (
            min (min available d.drain_batch) len,
            omega (arith, min-le available d.drain_batch, min-le (min available d.drain_batch) len),
            omega (arith, min-le available d.drain_batch, min-le (min available d.drain_batch) len),
            drained-Oldest (min (min available d.drain_batch) len) r,
          )
  ]

module _ {R : Type 0} (redis : Lists R) (law : IsLists redis) (d : BufferDrainer) (faults : Faults)
    (label : String) (r : R) where
  -- What a cycle promises for a reading of the backlog.
  abbrev Room : Option ℕ → Cycle R → Type 0
  Room o c =
      (c.published ≡ [])
      ⊎ ((backlog : ℕ) × (n : ℕ) × (o ≡ some backlog)
          × (backlog + n ≤ d.target_backlog)
          × (n ≤ d.drain_batch)
          × (length c.published ≤ n)
          × (c.published ≡ decoded d (redis.rpop label n r).1)
          × (c.store ≡ (redis.rpop label n r).0))

  drain_below-Room : (o : Option ℕ) → Room o (drain_below redis d faults label o r)
  unfolding drain_below
  drain_below-Room none = inl refl
  drain_below-Room (some backlog) = elim (Bool-cases (leb d.target_backlog backlog)) [
    | inl full ↦ rw (full, if◌then◌else◌) (inl refl)
    | inr room ↦
        let (n, within, batch, oldest) =
          drain_some-Oldest redis law d faults label (d.target_backlog - backlog)
            (job_buffer_len redis faults.len label r) r in
        rw (room, if◌then◌else◌)
          (elim oldest [
            | inl e ↦ inl e
            | inr (e, store, few) ↦
                inr (backlog, n, refl, ground (arith, room, within), batch, few, e, store)
          ])
  ]

-- A cycle sends on no more than there is room for, and the oldest first: what it publishes are the messages
-- of the payloads that waited longest, in their order, which are then taken out of the buffer; with the
-- backlog that was read they stay within the target, and they are no more than the batch.
pub drain_once-Oldest :
    {R : Type 0} (redis : Lists R) (d : BufferDrainer) (faults : Faults) (label : String) (r : R)
    → IsLists redis
    → ((drain_once redis d faults label r).published ≡ [])
      ⊎ ((backlog : ℕ) × (n : ℕ) × (faults.backlog ≡ some backlog)
          × (backlog + n ≤ d.target_backlog)
          × (n ≤ d.drain_batch)
          × (length (drain_once redis d faults label r).published ≤ n)
          × ((drain_once redis d faults label r).published ≡ decoded d (redis.rpop label n r).1)
          × ((drain_once redis d faults label r).store ≡ (redis.rpop label n r).0))
unfolding drain_once
drain_once-Oldest redis d faults label r law =
    drain_below-Room redis law d faults label r faults.backlog
