-- ===== src/Scheduler/BufferDrainer/Loss.antt =====
-- What a cycle may lose (internal/scheduler/buffer_drainer.go).
use issue_tracker.Prelude.{
  ◌≤◌, ℕ, ◌-◌, ◌≡◌, ◌⊎◌, inl, inr, refl, sym, ap, subst, ◌∙◌, Bool, false, Option, none, some,
  String, List, [], ◌∷◌, leb, if◌then◌else◌, ◌==◌, ==_refl, arith, All, Member, onto, Member-onto,
  Member-of_onto, Member-append, Member-of_append, Bool-cases, Option-cases,
}
use issue_tracker.Prelude.Keys.{nat_eq, string_eq}
use issue_tracker.Redis.{Fate, done, unsent, unanswered}
use issue_tracker.Redis.Lists.{Lists, IsLists}
use issue_tracker.Bus.Messages.{CrawlJob, Message}
use issue_tracker.Scheduler.BufferDrainer.{
  any_empty, push_commands, push_pipeline, enqueue_batch, rpop_count, drain_jobs, job_buffer_len,
  BufferDrainer, Faults, Cycle, cons_decoded, decoded, failed_at, behind, dispatch_job, dispatch,
  dispatch_to_retry, unpublished, publish_drained, drained, min, drain_some, drain_below,
  drain_once,
}

module _ (d : BufferDrainer) where
  -- A payload that is not empty and can be decoded.
  abbrev pub Decodes : String → Type 0
  Decodes p = (msg : Message) × (d.decode p ≡ some msg) × ((p == "") ≡ false)

  -- The payload's job is among those that the retry scheduler took.
  abbrev pub Scheduled : String → List CrawlJob → Type 0
  Scheduled p jobs =
      (msg : Message) × (job : CrawlJob) × (d.decode p ≡ some msg)
      × (d.unmarshal_job msg.value ≡ some job)
      × Member job jobs

  -- The payload's message is among those.
  abbrev pub Among : String → List Message → Type 0
  Among p msgs = (msg : Message) × (d.decode p ≡ some msg) × Member msg msgs

  decoded-Among : (ps : List String) (p : String) → Member p ps → Decodes p → Among p (decoded d ps)
  unfolding decoded cons_decoded
  decoded-Among [] p h g = elim h [ ]
  decoded-Among (q ∷ ps) p (inl same) (msg, e, filled) =
      let own : d.decode q ≡ some msg = ap d.decode (sym same) ∙ e in rw (own) (msg, e, inl refl)
  decoded-Among (q ∷ ps) p (inr there) g = elim (Option-cases (d.decode q)) [
    | inl e ↦ rw (e) (decoded-Among ps p there g)
    | inr (other, e) ↦
        rw (e) (let (msg, f, more) = decoded-Among ps p there g in (msg, f, inr more))
  ]

  module _ (retry : CrawlJob → Bool) where
    -- What the loop made of a payload.
    abbrev Handled : String → List CrawlJob × List String → Type 0
    Handled p (jobs, failed) = Member p failed ⊎ Scheduled p jobs

    Handled-first :
        (p : String) (ps : List String) (msg : Message) (o : Option CrawlJob)
        (rest : List CrawlJob × List String)
        → d.decode p ≡ some msg
        → d.unmarshal_job msg.value ≡ o
        → Handled p (dispatch_job retry (p ∷ ps) o rest)
    unfolding dispatch_job failed_at
    Handled-first p ps msg none (jobs, failed) e f = inl (inl refl)
    Handled-first p ps msg (some job) (jobs, failed) e f = elim (Bool-cases (retry job)) [
      | inl taken ↦ rw (taken, if◌then◌else◌) (inr (msg, job, e, f, inl refl))
      | inr refused ↦ rw (refused, if◌then◌else◌) (inl (inl refl))
    ]

    Handled-later :
        (p q : String) (ps : List String) (o : Option CrawlJob) (rest : List CrawlJob × List String)
        → Handled p rest
        → Handled p (dispatch_job retry (q ∷ ps) o rest)
    unfolding dispatch_job failed_at
    Handled-later p q ps none (jobs, failed) (inl h) = inl (inr h)
    Handled-later p q ps none (jobs, failed) (inr h) = inr h
    Handled-later p q ps (some job) (jobs, failed) h = elim (Bool-cases (retry job)) [
      | inl taken ↦
          rw (taken, if◌then◌else◌)
            (elim h [
              | inl back ↦ inl back
              | inr (msg, j, e, f, more) ↦ inr (msg, j, e, f, inr more)
            ])
      | inr refused ↦
          rw (refused, if◌then◌else◌) (elim h [ inl back ↦ inl (inr back) | inr more ↦ inr more ])
    ]

    dispatch-Handled :
        (ps : List String) (p : String)
        → ((q : String) → Member q ps → Decodes q)
        → Member p ps
        → Handled p (dispatch d retry (decoded d ps) ps)
    unfolding dispatch behind decoded cons_decoded
    dispatch-Handled [] p good h = elim h [ ]
    dispatch-Handled (q ∷ ps) p good h =
        let (msg, e, filled) = good q (inl refl) in
        rw (e) (elim h [
          | inl same ↦
              subst
                (λ (x : String). Handled x (
                  dispatch_job retry (q ∷ ps) (d.unmarshal_job msg.value)
                    (dispatch d retry (decoded d ps) ps)))
                (sym same)
                (Handled-first q ps msg (d.unmarshal_job msg.value)
                  (dispatch d retry (decoded d ps) ps) e refl)
          | inr there ↦
              Handled-later p q ps (d.unmarshal_job msg.value) (dispatch d retry (decoded d ps) ps)
                (dispatch-Handled ps p (λ x m. good x (inr m)) there)
        ])

    failed-All :
        (P : String → Type 0) (q : String) (ps : List String) (o : Option CrawlJob)
        (rest : List CrawlJob × List String)
        → P q
        → All P rest.1
        → All P (dispatch_job retry (q ∷ ps) o rest).1
    unfolding dispatch_job failed_at
    failed-All P q ps none (jobs, failed) here others = (here, others)
    failed-All P q ps (some job) (jobs, failed) here others = elim (Bool-cases (retry job)) [
      | inl taken ↦ rw (taken, if◌then◌else◌) others
      | inr refused ↦ rw (refused, if◌then◌else◌) (here, others)
    ]

    dispatch-All :
        (P : String → Type 0) (ps : List String)
        → ((q : String) → Member q ps → P q)
        → ((q : String) → Member q ps → Decodes q)
        → All P (dispatch d retry (decoded d ps) ps).1
    unfolding dispatch behind decoded cons_decoded
    dispatch-All P [] h good = tt
    dispatch-All P (q ∷ ps) h good =
        let (msg, e, filled) = good q (inl refl) in
        rw (e) (
          failed-All P q ps (d.unmarshal_job msg.value) (dispatch d retry (decoded d ps) ps)
            (h q (inl refl)) (dispatch-All P ps (λ x m. h x (inr m)) (λ x m. good x (inr m))))

-- No text among those is empty.
abbrev IsFilled : String → Type 0
IsFilled p = (p == "") ≡ false

any_empty-All : (ps : List String) → All IsFilled ps → any_empty ps ≡ false
unfolding any_empty
any_empty-All [] h = refl
any_empty-All (p ∷ ps) (here, others) = ground (arith, here, any_empty-All ps others)

All-Member :
    (P : String → Type 0) (ps : List String) → ((q : String) → Member q ps → P q) → All P ps
All-Member P [] h = tt
All-Member P (p ∷ ps) h = (h p (inl refl), All-Member P ps (λ x m. h x (inr m)))

module _ {R : Type 0} (redis : Lists R) (law : IsLists redis) (label : String) where
  enqueue_batch-Member :
      (max_len : ℕ) (ps : List String) (p : String) (r : R)
      → max_len ≡ 0
      → (label == "") ≡ false
      → All IsFilled ps
      → Member p ps ⊎ Member p (redis.items r label)
      → Member p (redis.items (enqueue_batch redis none label ps max_len r).0 label)
  unfolding enqueue_batch push_pipeline push_commands
  enqueue_batch-Member max_len [] p r whole named filled (inl h) = elim h [ ]
  enqueue_batch-Member max_len [] p r whole named filled (inr h) = h
  enqueue_batch-Member max_len (q ∷ ps) p r whole named filled h =
      rw (whole, named, any_empty-All (q ∷ ps) filled, if◌then◌else◌)
        (subst (Member p)
          (sym (ground (arith, ==_refl label, law.items_lpush label (q ∷ ps) r label)))
          (Member-onto p (q ∷ ps) (redis.items r label) h))

module _ {R : Type 0} (redis : Lists R) (d : BufferDrainer) (label : String) where
  -- Where a payload is after a cycle.
  abbrev pub Safe : String → Cycle R → Type 0
  Safe p c =
      Member p (redis.items c.store label) ⊎ (Among d p c.published ⊎ Scheduled d p c.scheduled)

  -- It is, or it was popped from the store before by a command whose answer was lost, with at most a batch.
  abbrev pub SafeOrPopped : Faults → String → R → Cycle R → Type 0
  SafeOrPopped faults p r c =
      Safe p c
      ⊎ ((faults.drain ≡ unanswered)
          × (n : ℕ) × (n ≤ d.drain_batch)
          × Member p (redis.rpop label n r).1)

module _ {R : Type 0} (redis : Lists R) (law : IsLists redis) (d : BufferDrainer) (faults : Faults)
    (label : String) where
  unpublished-Safe :
      (o : Option (CrawlJob → Bool)) (ps : List String) (p : String) (r : R)
      → (label == "") ≡ false
      → d.max_len ≡ 0
      → ((q : String) → Member q ps → Decodes d q)
      → Member p ps ⊎ Member p (redis.items r label)
      → Safe redis d label p (unpublished redis d o none label (decoded d ps) ps r)
  unfolding unpublished dispatch_to_retry
  unpublished-Safe none ps p r named whole good h =
      (inl (
        enqueue_batch-Member redis law label d.max_len ps p r whole named
          (All-Member IsFilled ps (λ q m. (good q m).2)) h))
  unpublished-Safe (some retry) ps p r named whole good h =
      let failed = dispatch-All d retry IsFilled ps (λ q m. (good q m).2) good in
      let result = dispatch d retry (decoded d ps) ps in
      (elim h [
        | inl taken ↦ elim (dispatch-Handled d retry ps p good taken) [
          | inl back ↦ inl (
              enqueue_batch-Member redis law label d.max_len result.1 p r whole named failed
                (inl back))
          | inr scheduled ↦ inr (inr scheduled)
        ]
        | inr left ↦ inl (
            enqueue_batch-Member redis law label d.max_len result.1 p r whole named failed
              (inr left))
      ])

  publish_drained-Safe :
      (ps : List String) (msgs : List Message) (p : String) (r : R)
      → decoded d ps ≡ msgs
      → (label == "") ≡ false
      → d.max_len ≡ 0
      → faults.reenqueue ≡ none
      → ((q : String) → Member q ps → Decodes d q)
      → Member p ps ⊎ Member p (redis.items r label)
      → Safe redis d label p (publish_drained redis d faults label ps msgs r)
  unfolding publish_drained
  publish_drained-Safe ps [] p r e named whole calm good h = elim h [
    | inl taken ↦
        let (msg, f, there) = decoded-Among d ps p taken (good p taken) in
        let none_there : Member msg [] = subst (Member msg) e there in elim none_there [ ]
    | inr left ↦ inl left
  ]
  publish_drained-Safe ps (m ∷ msgs) p r e named whole calm good h =
      elim (Bool-cases (faults.publish (m ∷ msgs))) [
        | inl sent ↦
            rw (sent, if◌then◌else◌)
              (elim h [
                | inl taken ↦
                    let (msg, f, there) = decoded-Among d ps p taken (good p taken) in
                    inr (inl (msg, f, subst (Member msg) e there))
                | inr left ↦ inl left
              ])
        | inr refused ↦
            rw (refused, calm, if◌then◌else◌)
              (subst
                (λ (ms : List Message).
                  Safe redis d label p (unpublished redis d d.retry_scheduler none label ms ps r))
                e (unpublished-Safe d.retry_scheduler ps p r named whole good h))
      ]

  module _ (named : (label == "") ≡ false) (whole : d.max_len ≡ 0) (calm : faults.reenqueue ≡ none)
      (p : String) (r : R) (good : (q : String) → Member q (redis.items r label) → Decodes d q)
      (h : Member p (redis.items r label)) where
    popped-or_left :
        (n : ℕ)
        → Member p (redis.rpop label n r).1 ⊎ Member p (redis.items (redis.rpop label n r).0 label)
    popped-or_left n =
        let ps = (redis.rpop label n r).1 in
        elim (Member-of_append p (redis.items (redis.rpop label n r).0 label) (onto ps [])
          (subst (Member p) (law.popped label n r) h)) [
            | inl left ↦ inr left
            | inr back ↦ elim (Member-of_onto p ps [] back) [
              | inl taken ↦ inl taken
              | inr nowhere ↦ elim nowhere [ ]
            ]
          ]

    min-batch : (available len : ℕ) → min (min available d.drain_batch) len ≤ d.drain_batch
    unfolding min
    min-batch available len = ground arith

    -- The payload is safe, or it was popped by a command whose answer was lost, with no more than a batch.
    abbrev Settled : Cycle R → Type 0
    Settled c = SafeOrPopped redis d label faults p r c

    rpop_count-Safe :
        (fate : Fate) (n : ℕ)
        → faults.drain ≡ fate
        → n ≤ d.drain_batch
        → Settled (drained redis d faults label (rpop_count redis fate label n r))
    unfolding drained rpop_count
    rpop_count-Safe done n at few =
        let ps = (redis.rpop label n r).1 in
        let r' = (redis.rpop label n r).0 in
        inl (
          publish_drained-Safe ps (decoded d ps) p r' refl named whole calm
            (λ q m. good q (
              subst (Member q) (sym (law.popped label n r)) (
                Member-append q (redis.items r' label) (onto ps [])
                  (inr (Member-onto q ps [] (inl m))))))
            (popped-or_left n))
    rpop_count-Safe unsent n at few = inl (inl h)
    rpop_count-Safe unanswered n at few = elim (popped-or_left n) [
      | inl taken ↦ inr (at, n, few, taken)
      | inr left ↦ inl (inl left)
    ]

    drained-Safe :
        (n : ℕ)
        → n ≤ d.drain_batch
        → Settled (drained redis d faults label (drain_jobs redis faults.drain label n r))
    unfolding drain_jobs
    drained-Safe n few = elim (Bool-cases (n == 0)) [
      | inl e ↦ rw (e, if◌then◌else◌) (inl (inl (unfold drained decoded publish_drained in h)))
      | inr e ↦ rw (e, named, if◌then◌else◌) (rpop_count-Safe faults.drain n refl few)
    ]

    drain_some-Safe :
        (available : ℕ) (len : Option ℕ) → Settled (drain_some redis d faults label available len r)
    unfolding drain_some
    drain_some-Safe available none = inl (inl h)
    drain_some-Safe available (some len) = elim (Bool-cases (len == 0)) [
      | inl e ↦ rw (e, if◌then◌else◌) (inl (inl h))
      | inr e ↦
          rw (e, if◌then◌else◌)
            (drained-Safe (min (min available d.drain_batch) len) (min-batch available len))
    ]

    drain_below-Safe : (o : Option ℕ) → Settled (drain_below redis d faults label o r)
    unfolding drain_below
    drain_below-Safe none = inl (inl h)
    drain_below-Safe (some backlog) = elim (Bool-cases (leb d.target_backlog backlog)) [
      | inl e ↦ rw (e, if◌then◌else◌) (inl (inl h))
      | inr e ↦
          rw (e, if◌then◌else◌)
            (drain_some-Safe (d.target_backlog - backlog) (job_buffer_len redis faults.len label r))
    ]

-- A cycle loses nothing that can be decoded but by a lost answer. Where all payloads of the buffer can be
-- decoded, the buffer has no bound and putting payloads back does not break, every payload of the buffer is in
-- it after the cycle, or its message was published, or its job was taken by the retry scheduler; or the answer
-- of the command that pops was lost, and the payload is among those, at most a batch, that it popped.
pub drain_once-Safe :
    {R : Type 0} (redis : Lists R) (d : BufferDrainer) (faults : Faults) (label p : String) (r : R)
    → IsLists redis
    → (label == "") ≡ false
    → d.max_len ≡ 0
    → faults.reenqueue ≡ none
    → ((q : String) → Member q (redis.items r label) → Decodes d q)
    → Member p (redis.items r label)
    → SafeOrPopped redis d label faults p r (drain_once redis d faults label r)
unfolding drain_once
drain_once-Safe redis d faults label p r law named whole calm good h =
    drain_below-Safe redis law d faults label named whole calm p r good h faults.backlog
