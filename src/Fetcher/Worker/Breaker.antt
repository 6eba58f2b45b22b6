-- ===== src/Fetcher/Worker/Breaker.antt =====
-- The circuit breaker in the hands of the fetcher worker (internal/processor/fetcher/worker/pool.go).
use issue_tracker.Prelude.{
  ℕ, ◌+◌, ◌≤◌, ◌≡◌, ◌≢◌, sym, ap, subst, ◌∙◌, true, false, String, List, [], ◌∷◌, All, arith,
  Bool-cases, inl, inr, ◌==◌, ==_iff, ==_refl,
}
use issue_tracker.Prelude.Keys.{string_eq}
use issue_tracker.Resilience.{
  CircuitBreakerRegistry, call, Call, allows, fails, succeeds, step, opened, half_open,
  CircuitBreaker, allow,
}
use issue_tracker.Resilience.Registry.{breaker, breaker-call}
use issue_tracker.Fetcher.Worker.Effects.{Job, Content}
use issue_tracker.Fetcher.Worker.{
  World, Report, Fetched, fetch_failed, fetched, publish_all, after_fetch, refuse, others, crawl,
}

-- The breaker of the crawler waits for the result of a probe.
abbrev pub IsProbing : CircuitBreakerRegistry → String → Type 0
IsProbing b name = ((breaker b name).state ≡ half_open) × ((breaker b name).probe_active ≡ true)

step-probing :
    (cb : CircuitBreaker) (now : ℕ)
    → cb.state ≡ half_open
    → cb.probe_active ≡ true
    → (step cb (allows now) ≡ cb) × ((allow cb now).1 ≡ false)
unfolding step
step-probing cb now h p = ground arith

step-opened :
    (cb : CircuitBreaker) (now : ℕ)
    → cb.state ≡ opened
    → cb.opened_at + cb.config.open_timeout ≤ now
    → ((step cb (allows now)).state ≡ half_open)
      × ((step cb (allows now)).probe_active ≡ true)
      × ((allow cb now).1 ≡ true)
unfolding step
step-opened cb now h p = ground arith

call-other :
    (b : CircuitBreakerRegistry) (s name : String) (c : Call)
    → s ≢ name
    → breaker (call b s c) name ≡ breaker b name
call-other b s name c h = ground (arith, breaker-call b s name c, ==_iff s name)

call-own :
    (b : CircuitBreakerRegistry) (name : String) (c : Call)
    → breaker (call b name c) name ≡ step (breaker b name) c
call-own b name c = ground (arith, breaker-call b name name c, ==_refl name)

after_fetch-other :
    (w : World) (b : CircuitBreakerRegistry) (j : Job) (f : Fetched) (name : String)
    → j.crawler_name ≢ name
    → breaker (after_fetch w b j f).breakers name ≡ breaker b name
unfolding after_fetch
after_fetch-other w b j fetch_failed name h =
    ground (arith, call-other b j.crawler_name name (fails w.failure_at) h)
after_fetch-other w b j (fetched cs) name h =
    ground (arith, call-other b j.crawler_name name succeeds h)

refuse-breakers : (w : World) (b : CircuitBreakerRegistry) → (refuse w b).breakers ≡ b
unfolding refuse
refuse-breakers w b = ground arith

IsProbing-eq :
    (b c : CircuitBreakerRegistry) (name : String)
    → breaker c name ≡ breaker b name
    → IsProbing b name
    → IsProbing c name
IsProbing-eq b c name e (half, probe) = (
  ap (λ (x : CircuitBreaker). x.state) e ∙ half,
  ap (λ (x : CircuitBreaker). x.probe_active) e ∙ probe,
)

module _ (w : World) (b : CircuitBreakerRegistry) (j : Job) where
  abbrev asked : CircuitBreakerRegistry
  asked = call b j.crawler_name (allows w.allow_at)

  crawl-refused :
      (allow (breaker b j.crawler_name) w.allow_at).1 ≡ false → crawl w b j ≡ refuse w asked
  unfolding crawl breaker
  crawl-refused h = rw h

  crawl-allowed :
      (allow (breaker b j.crawler_name) w.allow_at).1 ≡ true
      → crawl w b j ≡ after_fetch w (others asked w.meanwhile) j w.handler
  unfolding crawl breaker
  crawl-allowed h = rw h

  -- Where no other worker calls a breaker meanwhile.
  crawl-quiet :
      w.meanwhile ≡ []
      → (allow (breaker b j.crawler_name) w.allow_at).1 ≡ true
      → crawl w b j ≡ after_fetch w asked j w.handler
  unfolding others
  crawl-quiet quiet h =
      crawl-allowed h
      ∙ ap (λ (cs : List (String × Call)). after_fetch w (others asked cs) j w.handler) quiet

  -- A job of the crawler is refused, and the breaker goes on waiting.
  crawl-IsProbing_own :
      IsProbing b j.crawler_name
      → (crawl w b j ≡ refuse w asked) × IsProbing (crawl w b j).breakers j.crawler_name
  crawl-IsProbing_own (half, probe) =
      let (still, no_go) = step-probing (breaker b j.crawler_name) w.allow_at half probe in
      (
        crawl-refused no_go,
        IsProbing-eq b (crawl w b j).breakers j.crawler_name
            (ap (λ (r : Report). breaker r.breakers j.crawler_name) (crawl-refused no_go)
              ∙ ap (λ (c : CircuitBreakerRegistry). breaker c j.crawler_name)
                  (refuse-breakers w asked)
              ∙ call-own b j.crawler_name (allows w.allow_at)
              ∙ still)
            (half, probe),
      )

  crawl-other :
      (name : String)
      → w.meanwhile ≡ []
      → j.crawler_name ≢ name
      → breaker (crawl w b j).breakers name ≡ breaker b name
  crawl-other name quiet ne = elim (Bool-cases (allow (breaker b j.crawler_name) w.allow_at).1) [
    | inl go ↦
        ap (λ (r : Report). breaker r.breakers name) (crawl-quiet quiet go)
        ∙ after_fetch-other w asked j w.handler name ne
        ∙ call-other b j.crawler_name name (allows w.allow_at) ne
    | inr no_go ↦
        ap (λ (r : Report). breaker r.breakers name) (crawl-refused no_go)
        ∙ ap (λ (c : CircuitBreakerRegistry). breaker c name) (refuse-breakers w asked)
        ∙ call-other b j.crawler_name name (allows w.allow_at) ne
  ]

  crawl-IsProbing :
      (name : String) → w.meanwhile ≡ [] → IsProbing b name → IsProbing (crawl w b j).breakers name
  crawl-IsProbing name quiet p = elim (Bool-cases (j.crawler_name == name)) [
    | inl same ↦
        let e = (==_iff j.crawler_name name).0 same in
        subst (λ (n : String). IsProbing (crawl w b j).breakers n) e
          (crawl-IsProbing_own (subst (λ (n : String). IsProbing b n) (sym e) p)).1
    | inr differs ↦
        IsProbing-eq b (crawl w b j).breakers name
          (crawl-other name quiet (ground (arith, ==_iff j.crawler_name name))) p
  ]

-- Jobs behind the stage gate, one after another.
pub crawl_each : CircuitBreakerRegistry → List (World × Job) → CircuitBreakerRegistry
crawl_each b [] = b
crawl_each b ((w, j) ∷ rest) = crawl_each (crawl w b j).breakers rest

abbrev pub Quiet : List (World × Job) → Type 0
Quiet = All (λ (r : World × Job). r.0.meanwhile ≡ [])

crawl_each-IsProbing :
    (jobs : List (World × Job)) (b : CircuitBreakerRegistry) (name : String)
    → Quiet jobs
    → IsProbing b name
    → IsProbing (crawl_each b jobs) name
unfolding crawl_each
crawl_each-IsProbing [] b name q p = p
crawl_each-IsProbing ((w, j) ∷ rest) b name q p =
    crawl_each-IsProbing rest (crawl w b j).breakers name q.1 (crawl-IsProbing w b j name q.0 p)

after_fetch-stuck :
    (w : World) (b : CircuitBreakerRegistry) (j : Job) (cs : List Content)
    → (publish_all w cs).1 ≡ false
    → (after_fetch w b j (fetched cs)).breakers ≡ b
unfolding after_fetch
after_fetch-stuck w b j cs h = ground arith

probe_unrecorded :
    (w : World) (b : CircuitBreakerRegistry) (j : Job) (cs : List Content)
    → (breaker b j.crawler_name).state ≡ opened
    → (breaker b j.crawler_name).opened_at + (breaker b j.crawler_name).config.open_timeout
      ≤ w.allow_at
    → w.meanwhile ≡ []
    → w.handler ≡ fetched cs
    → (publish_all w cs).1 ≡ false
    → IsProbing (crawl w b j).breakers j.crawler_name
probe_unrecorded w b j cs open_ over quiet got stuck =
    let (half, probe, go) = step-opened (breaker b j.crawler_name) w.allow_at open_ over in
    let asked_own = call-own b j.crawler_name (allows w.allow_at) in
    let e = crawl-quiet w b j quiet go ∙ ap (after_fetch w (asked w b j) j) got in
    let same =
      ap (λ (r : Report). breaker r.breakers j.crawler_name) e
      ∙ ap (λ (c : CircuitBreakerRegistry). breaker c j.crawler_name)
          (after_fetch-stuck w (asked w b j) j cs stuck)
      ∙ asked_own in
    (
      ap (λ (x : CircuitBreaker). x.state) same ∙ half,
      ap (λ (x : CircuitBreaker). x.probe_active) same ∙ probe,
    )

-- The opened breaker of a crawler, once the timeout is over, lets a job probe. If a content that
-- the job fetched cannot be published, no result of the probe is recorded: the breaker waits for it
-- for good, and every later job of the crawler is refused, however many jobs of any crawlers are
-- handled in between, at whatever times. (No other worker calls the breakers during a fetch.)
pub lost_probe :
    (w : World) (b : CircuitBreakerRegistry) (j : Job) (cs : List Content)
    → (breaker b j.crawler_name).state ≡ opened
    → (breaker b j.crawler_name).opened_at + (breaker b j.crawler_name).config.open_timeout
      ≤ w.allow_at
    → w.meanwhile ≡ []
    → w.handler ≡ fetched cs
    → (publish_all w cs).1 ≡ false
    → (later : List (World × Job)) (w' : World) (j' : Job) → Quiet later
    → j'.crawler_name ≡ j.crawler_name
    → let reached = crawl_each (crawl w b j).breakers later in
      IsProbing reached j.crawler_name
      × (crawl w' reached j' ≡ refuse w' (call reached j'.crawler_name (allows w'.allow_at)))
lost_probe w b j cs open_ over quiet got stuck later w' j' q same =
    let waits =
      crawl_each-IsProbing later (crawl w b j).breakers j.crawler_name q
        (probe_unrecorded w b j cs open_ over quiet got stuck) in
    let waits' = subst (IsProbing (crawl_each (crawl w b j).breakers later)) (sym same) waits in
    (waits, (crawl-IsProbing_own w' (crawl_each (crawl w b j).breakers later) j' waits').0)
