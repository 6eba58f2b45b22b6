-- ===== src/Scoring/Cycle.antt =====
-- What a cycle of the scorer gives the resolver (internal/scoring/scorer.go, internal/bus/score_resolver.go).
use issue_tracker.Prelude.{
  ℕ, ◌≡◌, ◌≢◌, inl, inr, refl, ap, ◌∙◌, Option, none, some, String, List, [], ◌∷◌, leb,
  if◌then◌else◌, ◌==◌, ==_iff, arith, AssocList, lookup, lookup-insert, Bool-cases,
}
use issue_tracker.Prelude.Keys.{nat_eq, string_eq}
use issue_tracker.Bus.Messages.{CrawlJob, priority_high, priority_normal}
use issue_tracker.Bus.Resolver.{Chainable, found, composite_resolve}
use issue_tracker.Bus.ScoreResolver.{
  Resolver, snapshot, set_scores, in_snapshot, threshold_for, score_of, resolve_score,
  dynamic_score_priority_resolver,
}
use issue_tracker.Scoring.{
  score, HostAggregate, Scorer, weights_for, Scores, scored, score_all, cycle, run_once,
}

-- The score that the last aggregate of a host with a score gives it.
unfoldable pub last_score : Scorer → String → List HostAggregate → Option ℕ → Option ℕ
last_score s host [] so_far = so_far
last_score s host (a ∷ aggregates) so_far = last_score s host aggregates (
    if a.host == host
    then elim (score a.signals (weights_for s a.host)) [ none ↦ so_far | some v ↦ some v ]
    else so_far)

scored-lookup :
    (s : Scorer) (a : HostAggregate) (host : String) (o : Option ℕ) (done : Scores)
    → lookup host (scored s a o done).0 ≡ (
        if a.host == host
        then elim o [ none ↦ lookup host done.0 | some v ↦ some v ]
        else lookup host done.0)
unfolding scored
scored-lookup s a host none (scores, stored) = ground arith
scored-lookup s a host (some v) (scores, stored) = lookup-insert a.host host v scores

score_all-lookup :
    (s : Scorer) (host : String) (aggregates : List HostAggregate) (done : Scores)
    → lookup host (score_all s aggregates done).0
      ≡ last_score s host aggregates (lookup host done.0)
unfolding score_all last_score
score_all-lookup s host [] done = refl
score_all-lookup s host (a ∷ aggregates) done =
    let o = score a.signals (weights_for s a.host) in
    score_all-lookup s host aggregates (scored s a o done)
    ∙ ap (last_score s host aggregates) (scored-lookup s a host o done)

in_snapshot-snapshot :
    (host : String) (m : AssocList String ℕ) → in_snapshot host (snapshot m) ≡ lookup host m
unfolding in_snapshot snapshot
in_snapshot-snapshot host [] = unfold lookup in refl
in_snapshot-snapshot host (e ∷ m) = refl

score_of-run_once :
    (host_of : String → String) (s : Scorer) (aggregates : List HostAggregate) (sink : Resolver)
    (job : CrawlJob)
    → host_of job.url ≢ ""
    → score_of host_of (run_once s (some aggregates) sink).0 job
      ≡ last_score s (host_of job.url) aggregates none
unfolding score_of run_once cycle set_scores
score_of-run_once host_of s aggregates sink job hosted = elim (Bool-cases (host_of job.url == "")) [
  | inl e ↦ ground (arith, e, hosted, ==_iff (host_of job.url) "")
  | inr e ↦
      rw (e, if◌then◌else◌)
        (in_snapshot-snapshot (host_of job.url) (score_all s aggregates ([], [])).0
          ∙ score_all-lookup s (host_of job.url) aggregates ([], [])
          ∙ ap (last_score s (host_of job.url) aggregates) (unfold lookup in refl))
]

resolved :
    (host_of : String → String) (r : Resolver) (chain : List Chainable) (terminal : Chainable)
    (t u : ℕ) (job : CrawlJob) (o : Option ℕ)
    → score_of host_of r job ≡ o
    → composite_resolve (dynamic_score_priority_resolver host_of r ∷ chain) terminal t u job
      ≡ (elim o [
        | none ↦ composite_resolve chain terminal t u job
        | some v ↦
            if leb (threshold_for r (host_of job.url)) v then priority_high else priority_normal
      ])
unfolding composite_resolve dynamic_score_priority_resolver resolve_score found
resolved host_of r chain terminal t u job none e = rw (e) refl
resolved host_of r chain terminal t u job (some v) e = rw (e) refl

-- A cycle of the scorer decides the priorities of jobs at once. If the last aggregate of a host that has
-- enough samples and weight gives a score, the resolver raises the host's jobs to high from the threshold
-- on - the host's own, or the general one - and leaves them normal below it, never low; without a score the
-- resolvers behind it decide. The job's URL has a host.
pub run_once-resolves :
    (host_of : String → String) (s : Scorer) (aggregates : List HostAggregate) (sink : Resolver)
    (chain : List Chainable) (terminal : Chainable) (t u : ℕ) (job : CrawlJob)
    → host_of job.url ≢ ""
    → let r = (run_once s (some aggregates) sink).0 in
      composite_resolve (dynamic_score_priority_resolver host_of r ∷ chain) terminal t u job
      ≡ (elim (last_score s (host_of job.url) aggregates none) [
        | none ↦ composite_resolve chain terminal t u job
        | some v ↦
            if leb (threshold_for sink (host_of job.url)) v then priority_high else priority_normal
      ])
unfolding run_once cycle set_scores threshold_for
run_once-resolves host_of s aggregates sink chain terminal t u job hosted =
    resolved host_of (run_once s (some aggregates) sink).0 chain terminal t u job
      (last_score s (host_of job.url) aggregates none)
      (score_of-run_once host_of s aggregates sink job hosted)
