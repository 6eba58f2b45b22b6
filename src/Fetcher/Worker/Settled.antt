-- ===== src/Fetcher/Worker/Settled.antt =====
-- The fetcher worker commits a message only when its work is done or handed on
-- (internal/processor/fetcher/worker/pool.go).
use issue_tracker.Prelude.{
  ◌≡◌, ◌⊎◌, refl, Bool, true, ◌||◌, Option, none, some, String, List, [], ◌∷◌, ◌++◌, arith,
  Option-cases, Bool-cases, inl, inr, if◌then◌else◌,
}
use issue_tracker.Resilience.{CircuitBreakerRegistry, call, allows}
use issue_tracker.Precheck.{Verdict, Decision, drop}
use issue_tracker.Fetcher.Worker.Effects.{Job, Effect, released}
use issue_tracker.Fetcher.Worker.{
  World, Fetched, fetch_failed, fetched, GateAnswer, gate_failed, gate_taken, gate_acquired,
  normalize_url, commit_effects, publish_all, republish, requeue_gate_skip, after_fetch, refuse,
  others, crawl, gated, process_job, blocked, dropped, is_drop, handle_job, handle,
}
use issue_tracker.Fetcher.Worker.Trace.{
  is_committed, commits, is_handed_on, hands_on, Published, Refused, AllPublished-append,
  publish_all-AllPublished, commits-append, hands_on-append, commits-publish_all,
}

-- What a commit among the effects shows.
abbrev pub Settled : World → List Effect → Type 0
Settled w es = commits es ≡ true → (hands_on es ≡ true) ⊎ Published w es

republish-hands_on :
    (w : World) (j : Job) (e : Effect) → republish w j ≡ some e → is_handed_on e ≡ true
unfolding republish is_handed_on
republish-hands_on w j e h = ground arith

after_fetch-Settled :
    (w : World) (b : CircuitBreakerRegistry) (j : Job) (f : Fetched)
    → w.handler ≡ f
    → Settled w (after_fetch w b j f).effects
unfolding after_fetch hands_on commits commit_effects
after_fetch-Settled w b j fetch_failed e h = elim (Option-cases (republish w j)) [
  | inl p ↦ ground arith
  | inr (x, p) ↦ ground (arith, republish-hands_on w j x p)
]
after_fetch-Settled w b j (fetched cs) e h = elim (Bool-cases (publish_all w cs).1) [
  | inl done ↦ inr (
    cs,
    e,
    rw (done, if◌then◌else◌)
        (AllPublished-append w cs (publish_all w cs).0 (commit_effects w)
          (publish_all-AllPublished w cs done)),
  )
  | inr stuck ↦ ground (arith, commits-publish_all w cs)
]

refuse-Settled : (w : World) (b : CircuitBreakerRegistry) → Settled w (refuse w b).effects
unfolding refuse hands_on is_handed_on commits
refuse-Settled w b h = ground arith

crawl-Settled : (w : World) (b : CircuitBreakerRegistry) (j : Job) → Settled w (crawl w b j).effects
unfolding crawl
crawl-Settled w b j =
    let asked = call b j.crawler_name (allows w.allow_at) in
    ground (
      arith,
      refuse-Settled w asked,
      after_fetch-Settled w (others asked w.meanwhile) j w.handler refl,
    )

requeue_gate_skip-Settled : (w : World) (j : Job) → Settled w (requeue_gate_skip w j)
unfolding requeue_gate_skip hands_on is_handed_on commits
requeue_gate_skip-Settled w j h = ground arith

commits-released : (es : List Effect) → commits (es ++ released ∷ []) ≡ commits es
unfolding commits is_committed
commits-released es = ground (arith, commits-append es (released ∷ []))

hands_on-released : (es : List Effect) → hands_on (es ++ released ∷ []) ≡ hands_on es
unfolding hands_on is_handed_on
hands_on-released es = ground (arith, hands_on-append es (released ∷ []))

Settled-released : (w : World) (es : List Effect) → Settled w es → Settled w (es ++ released ∷ [])
Settled-released w es s h = elim (s (rw (← commits-released es) h)) [
  | inl on ↦ inl (rw (hands_on-released es) on)
  | inr (cs, e, all) ↦ inr (cs, e, AllPublished-append w cs es (released ∷ []) all)
]

gated-Settled :
    (w : World) (b : CircuitBreakerRegistry) (j : Job) (g : GateAnswer)
    → Settled w (gated w b j g).effects
unfolding gated commits
gated-Settled w b j gate_failed h = ground (arith, crawl-Settled w b j)
gated-Settled w b j gate_taken h = requeue_gate_skip-Settled w j h
gated-Settled w b j gate_acquired h =
    Settled-released w (crawl w b j).effects (crawl-Settled w b j) h

-- The job that `Handle` works on: the message's, under its normalized URL.
pub handled_job : World → Job → Job
handled_job w j = record j { url = normalize_url w.normalizer j.url }

blocked-refuses :
    (w : World) (j : Job) (g : Option (String → Bool))
    → w.url_gate ≡ g
    → blocked g j.url ≡ true
    → Refused w j
unfolding blocked
blocked-refuses w j none e h = cc
blocked-refuses w j (some allowed) e h = inl (allowed, e, ground arith)

is_drop-drop : (v : Verdict) → is_drop v ≡ true → v ≡ drop
unfolding is_drop
is_drop-drop v h = ground arith

dropped-refuses :
    (w : World) (j : Job) (c : Option (String → Decision))
    → w.precheck ≡ c
    → dropped c j.url ≡ true
    → Refused w j
unfolding dropped
dropped-refuses w j none e h = cc
dropped-refuses w j (some check) e h = inr (check, e, is_drop-drop (check j.url).verdict h)

tests-Refused :
    (w : World) (j : Job)
    → (blocked w.url_gate j.url || dropped w.precheck j.url) ≡ true
    → Refused w j
tests-Refused w j h = elim (Bool-cases (blocked w.url_gate j.url)) [
  | inl e ↦ blocked-refuses w j w.url_gate refl e
  | inr e ↦ dropped-refuses w j w.precheck refl (rw e at h)
]

process_job-settled :
    (w : World) (b : CircuitBreakerRegistry) (j : Job)
    → commits (process_job w b j).effects ≡ true
    → (hands_on (process_job w b j).effects ≡ true)
      ⊎ Published w (process_job w b j).effects
      ⊎ Refused w j
unfolding process_job commits
process_job-settled w b j h = ground (arith, tests-Refused w j, gated-Settled w b j w.stage_gate)

handle_job-settled :
    (w : World) (b : CircuitBreakerRegistry) (o : Option Job)
    → w.job ≡ o
    → commits (handle_job w b o).effects ≡ true
    → (hands_on (handle_job w b o).effects ≡ true)
      ⊎ Published w (handle_job w b o).effects
      ⊎ ((j : Job) × (w.job ≡ some j) × Refused w (handled_job w j))
unfolding handle_job hands_on is_handed_on commits handled_job
handle_job-settled w b none e h = ground arith
handle_job-settled w b (some j) e h = elim (process_job-settled w b (handled_job w j) h) [
  | inl on ↦ inl on
  | inr (inl all) ↦ inr (inl all)
  | inr (inr no_go) ↦ inr (inr (j, e, no_go))
]

-- A message is committed only if its job was sent to the dead letters or enqueued again, if every
-- content that was fetched for it has been stored and published, or if the URL guard or the precheck
-- refuses its URL. So no message is lost by a commit.
pub handle-settled :
    (w : World) (b : CircuitBreakerRegistry)
    → commits (handle w b).effects ≡ true
    → (hands_on (handle w b).effects ≡ true)
      ⊎ Published w (handle w b).effects
      ⊎ ((j : Job) × (w.job ≡ some j) × Refused w (handled_job w j))
unfolding handle
handle-settled w b h = handle_job-settled w b w.job refl h
