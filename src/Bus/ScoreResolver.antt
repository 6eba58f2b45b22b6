-- ===== src/Bus/ScoreResolver.antt =====
-- internal/bus/score_resolver.go: the resolver that raises hosts by their scores. The host of a URL, by the
-- library's net/url, is a parameter.
use issue_tracker.Prelude.{
  ℕ, Option, none, some, String, [], ◌∷◌, leb, if◌then◌else◌, ◌==◌, AssocList, lookup,
}
use issue_tracker.Prelude.Keys.{string_eq}
use issue_tracker.Bus.Messages.{CrawlJob, priority_high, priority_normal}
use issue_tracker.Bus.Resolver.{Chainable, found, or_else}

-- `DynamicScorePriorityResolver`; none is a pointer that is nil.
pub record Resolver : Type 0 where
  pub scores : Option (AssocList String ℕ)
  pub threshold : ℕ
  pub host_thresholds : Option (AssocList String ℕ)

unfoldable pub new_dynamic_score_priority_resolver : ℕ → Resolver
new_dynamic_score_priority_resolver threshold = record {
  scores = none;
  threshold = threshold;
  host_thresholds = none;
}

unfoldable pub snapshot : AssocList String ℕ → Option (AssocList String ℕ)
snapshot [] = none
snapshot (entry ∷ rest) = some (entry ∷ rest)

unfoldable pub set_scores : AssocList String ℕ → Resolver → Resolver
unfolding snapshot
set_scores scores r = record r { scores = snapshot scores }

unfoldable pub set_host_thresholds : AssocList String ℕ → Resolver → Resolver
unfolding snapshot
set_host_thresholds thresholds r = record r { host_thresholds = snapshot thresholds }

-- The value of a host in a snapshot.
unfoldable pub in_snapshot : String → Option (AssocList String ℕ) → Option ℕ
in_snapshot host none = none
in_snapshot host (some m) = lookup host m

unfoldable pub threshold_for : Resolver → String → ℕ
threshold_for r host = or_else r.threshold (in_snapshot host r.host_thresholds)

-- `lookup`.
unfoldable pub score_of : (String → String) → Resolver → CrawlJob → Option ℕ
score_of host_of r job =
    if host_of job.url == "" then none else in_snapshot (host_of job.url) r.scores

unfoldable pub resolve_score : Resolver → String → Option ℕ → ℕ
resolve_score r host none = priority_normal
resolve_score r host (some v) =
    if leb (threshold_for r host) v then priority_high else priority_normal

-- `CanResolve` and `Resolve`.
unfoldable pub dynamic_score_priority_resolver : (String → String) → Resolver → Chainable
unfolding resolve_score
dynamic_score_priority_resolver host_of r = record {
  can_resolve = λ now job. found (score_of host_of r job);
  resolve = λ now job. resolve_score r (host_of job.url) (score_of host_of r job);
}
