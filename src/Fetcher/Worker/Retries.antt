-- ===== src/Fetcher/Worker/Retries.antt =====
-- The retries of a crawl job (internal/processor/fetcher/worker/pool.go): how often one is enqueued.
use issue_tracker.Prelude.{
  All-append, ℕ, suc, ◌+◌, ◌-◌, ◌≤◌, ◌≡◌, sym, subst, Option, some, String, List, [], ◌∷◌, All,
  arith, Option-cases, Bool-cases, inl, inr, if◌then◌else◌,
}
use issue_tracker.Resilience.{CircuitBreakerRegistry, call, allows}
use issue_tracker.Fetcher.Worker.Effects.{
  Job, Content, Effect, dead_lettered, requeued, normalized, committed, released,
}
use issue_tracker.Fetcher.Worker.Trace.{Has}
use issue_tracker.Fetcher.Worker.{
  World, Fetched, fetch_failed, fetched, GateAnswer, gate_failed, gate_taken, gate_acquired,
  commit_effects, publish_normalized, forward_stored, publish_all, republish, requeue_gate_skip,
  after_fetch, refuse, others, crawl, gated, process_job, handle_job, handle, retried, skipped,
  normalize_url,
}

-- `k` is the job `j` after one more retry, within the limit, and is not to be run before now.
pub record NextTry (w : World) (j k : Job) : Type 0 where
  pub same_id : k.id ≡ j.id
  pub same_crawler : k.crawler_name ≡ j.crawler_name
  pub same_limit : k.max_retries ≡ j.max_retries
  pub counted : k.retry_count ≡ j.retry_count + 1
  pub within : k.retry_count ≤ k.max_retries
  pub delayed : w.now ≤ k.scheduled_at

abbrev Retries : World → Job → Effect → Type 0
Retries w j (dead_lettered r) = Unit
Retries w j (requeued k) = NextTry w j k
Retries w j (normalized x y) = Unit
Retries w j committed = Unit
Retries w j released = Unit

module _ (w : World) (j : Job) where
  commit_effects-Retries : All (Retries w j) (commit_effects w)
  unfolding commit_effects
  commit_effects-Retries = ground arith

  republish-Retries : (e : Effect) → republish w j ≡ some e → Retries w j e
  unfolding republish retried
  republish-Retries (dead_lettered r) h = tt
  republish-Retries (requeued k) h = ground arith
  republish-Retries (normalized x y) h = tt
  republish-Retries committed h = tt
  republish-Retries released h = tt

  publish_normalized-Retries :
      (c : Content) (e : Effect) → publish_normalized w c ≡ some e → Retries w j e
  unfolding publish_normalized forward_stored
  publish_normalized-Retries c (dead_lettered r) h = tt
  publish_normalized-Retries c (requeued k) h = ground arith
  publish_normalized-Retries c (normalized x y) h = tt
  publish_normalized-Retries c committed h = tt
  publish_normalized-Retries c released h = tt

  publish_all-Retries : (cs : List Content) → All (Retries w j) (publish_all w cs).0
  unfolding publish_all
  publish_all-Retries [] = tt
  publish_all-Retries (c ∷ cs) = elim (Option-cases (publish_normalized w c)) [
    | inl p ↦ rw (p, publish_all) tt
    | inr (e, p) ↦ rw (p, publish_all) (publish_normalized-Retries c e p, publish_all-Retries cs)
  ]

  after_fetch-Retries :
      (b : CircuitBreakerRegistry) (f : Fetched) → All (Retries w j) (after_fetch w b j f).effects
  unfolding after_fetch
  after_fetch-Retries b fetch_failed = elim (Option-cases (republish w j)) [
    | inl p ↦ rw (p, after_fetch) tt
    | inr (e, p) ↦ rw (p, after_fetch) (republish-Retries e p, commit_effects-Retries)
  ]
  after_fetch-Retries b (fetched cs) = elim (Bool-cases (publish_all w cs).1) [
    | inl done ↦
        rw (done, if◌then◌else◌)
          (All-append (Retries w j) (publish_all w cs).0 (commit_effects w) (publish_all-Retries cs)
            commit_effects-Retries)
    | inr stuck ↦ rw (stuck, if◌then◌else◌) (publish_all-Retries cs)
  ]

  requeue_gate_skip-Retries : All (Retries w j) (requeue_gate_skip w j)
  unfolding requeue_gate_skip skipped
  requeue_gate_skip-Retries = ground (arith, commit_effects-Retries)

  refuse-Retries : (b : CircuitBreakerRegistry) → All (Retries w j) (refuse w b).effects
  unfolding refuse
  refuse-Retries b = ground (arith, commit_effects-Retries)

  crawl-Retries : (b : CircuitBreakerRegistry) → All (Retries w j) (crawl w b j).effects
  unfolding crawl
  crawl-Retries b =
      let asked = call b j.crawler_name (allows w.allow_at) in
      ground (arith, refuse-Retries asked, after_fetch-Retries (others asked w.meanwhile) w.handler)

  gated-Retries :
      (b : CircuitBreakerRegistry) (g : GateAnswer) → All (Retries w j) (gated w b j g).effects
  unfolding gated
  gated-Retries b gate_failed = ground (arith, crawl-Retries b)
  gated-Retries b gate_taken = requeue_gate_skip-Retries
  gated-Retries b gate_acquired =
      All-append (Retries w j) (crawl w b j).effects (released ∷ []) (crawl-Retries b) (tt, tt)

  process_job-Retries : (b : CircuitBreakerRegistry) → All (Retries w j) (process_job w b j).effects
  unfolding process_job
  process_job-Retries b = ground (arith, commit_effects-Retries, gated-Retries b w.stage_gate)

Retries-url :
    (w : World) (j : Job) (u : String) (e : Effect)
    → Retries w (record j { url = u }) e
    → Retries w j e
Retries-url w j u (dead_lettered r) h = tt
Retries-url w j u (requeued k) h = ground arith
Retries-url w j u (normalized x y) h = tt
Retries-url w j u committed h = tt
Retries-url w j u released h = tt

All-mono :
    (P Q : Effect → Type 0) (xs : List Effect) → ((e : Effect) → P e → Q e) → All P xs → All Q xs
All-mono P Q [] f h = tt
All-mono P Q (x ∷ xs) f h = (f x h.0, All-mono P Q xs f h.1)

All-Has : (P : Effect → Type 0) (xs : List Effect) (e : Effect) → All P xs → Has e xs → P e
All-Has P [] e h m = absurd m
All-Has P (x ∷ xs) e h (inl p) = subst P (sym p) h.0
All-Has P (x ∷ xs) e h (inr m) = All-Has P xs e h.1 m

handle_job-Retries :
    (w : World) (b : CircuitBreakerRegistry) (j : Job)
    → All (Retries w j) (handle_job w b (some j)).effects
unfolding handle_job
handle_job-Retries w b j =
    All-mono (Retries w (record j { url = normalize_url w.normalizer j.url })) (Retries w j)
      (process_job w b (record j { url = normalize_url w.normalizer j.url })).effects
      (Retries-url w j (normalize_url w.normalizer j.url))
      (process_job-Retries w (record j { url = normalize_url w.normalizer j.url }) b)

-- Whatever the outside answers, a job that the handling of a message enqueues is the message's own
-- job with its retry counter one higher and still within its limit, to be run not before now.
pub handle-retries :
    (w : World) (b : CircuitBreakerRegistry) (j k : Job)
    → w.job ≡ some j
    → Has (requeued k) (handle w b).effects
    → NextTry w j k
unfolding handle
handle-retries w b j k e h =
    All-Has (Retries w j) (handle_job w b (some j)).effects (requeued k) (handle_job-Retries w b j)
      (subst (λ (o : Option Job). Has (requeued k) (handle_job w b o).effects) e h)

-- A job is handled and enqueued again, what was enqueued is handled and enqueued again, and so on, so many
-- times in a row.
pub data Requeued : Job → ℕ → Type 0 where
  waiting : {j : Job} → Requeued j 0
  again :
      {j : Job} {n : ℕ} (w : World) (b : CircuitBreakerRegistry) (k : Job)
      → w.job ≡ some j
      → Has (requeued k) (handle w b).effects
      → Requeued k n
      → Requeued j (suc n)

-- A chain of retries ends: from a job to the one that its handling enqueues, to the one that the handling of that
-- one enqueues, and so on, there are at most as many steps as the job has retries left, whatever the outside
-- answers and whatever the breakers are. Each message counts for one step of the chain: a message that Kafka
-- delivers again starts another chain, with the same bound.
pub Requeued-le : (j : Job) (n : ℕ) → Requeued j n → n ≤ j.max_retries - j.retry_count
Requeued-le j n waiting = omega arith
Requeued-le j n (again {n = m} w b k e h r) =
    omega (arith, Requeued-le k m r, handle-retries w b j k e h)
