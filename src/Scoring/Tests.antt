-- ===== src/Scoring/Tests.antt =====
-- Scores at concrete inputs (internal/scoring, internal/bus/score_resolver.go).
use issue_tracker.Prelude.{
  ℕ, ◌≤◌, ◌<◌, ◌≡◌, ◌⊎◌, refl, none, some, String, List, [], ◌∷◌, leb, if◌then◌else◌, ==_iff, arith,
}
use issue_tracker.Prelude.Keys.{string_eq}
use issue_tracker.Bus.Messages.{CrawlJob, TargetType, priority_high, priority_normal}
use issue_tracker.Bus.Resolver.{composite_resolve, default_priority_resolver}
use issue_tracker.Bus.ScoreResolver.{Resolver, threshold_for, dynamic_score_priority_resolver}
use issue_tracker.Scoring.{
  one, default_weights, min_sample_count, HostSignals, clamp01, score, merge_weights, HostAggregate,
  Scorer, run_once,
}
use issue_tracker.Scoring.Bounds.{total, score-Between}
use issue_tracker.Scoring.Cycle.{last_score, run_once-resolves}

-- The signals 0.2, 2 and 0.9.
abbrev signals : HostSignals
signals = record { freshness = 200000; impact = 2000000; host_trust = 900000; sample_count = 20 }

score_signals : score signals default_weights ≡ some 710000
unfolding score clamp01
score_signals = refl

score-Between_example :
    ((score signals default_weights ≡ none)
      × ((20 < min_sample_count) ⊎ (total default_weights ≡ 0)))
    ⊎ ((v : ℕ) × (score signals default_weights ≡ some v)
        × (min_sample_count ≤ 20)
        × (0 < total default_weights)
        × (200000 ≤ v)
        × (v ≤ 1000000)
        × (v ≤ one))
unfolding clamp01
score-Between_example =
    score-Between 200000 1000000 signals default_weights
      ((omega arith, omega arith), (omega arith, omega arith), (omega arith, omega arith))

merged_some :
    merge_weights default_weights none (some 9) none
    ≡ some (record { freshness = 3; impact = 9; host_trust = 5 })
unfolding merge_weights
merged_some = refl

abbrev scorer : Scorer
scorer = record {
  weights = default_weights;
  window_minutes = 60;
  tuning = λ host. none;
  marshal = λ s. none;
}

abbrev job : CrawlJob
job = record {
  id = "job";
  crawler_name = "yna";
  url = "yna.co.kr";
  target_type = TargetType.article;
  priority = 0;
  scheduled_at = 0;
  timeout = 30;
  retry_count = 0;
  max_retries = 3;
}

abbrev aggregates : List HostAggregate
aggregates = record { host = "yna.co.kr"; signals = signals } ∷ []

abbrev sink : Resolver
sink = record { scores = none; threshold = 700000; host_thresholds = none }

run_once-resolves_example :
    composite_resolve
      (dynamic_score_priority_resolver (λ url. url) (run_once scorer (some aggregates) sink).0 ∷ [])
      (default_priority_resolver priority_normal)
      0
      0
      job
    ≡ (elim (last_score scorer "yna.co.kr" aggregates none) [
      | none ↦ composite_resolve [] (default_priority_resolver priority_normal) 0 0 job
      | some v ↦ if leb (threshold_for sink "yna.co.kr") v then priority_high else priority_normal
    ])
run_once-resolves_example =
    run_once-resolves (λ url. url) scorer aggregates sink []
      (default_priority_resolver priority_normal) 0 0 job
      (λ e. ground (arith, ==_iff {K = String} "yna.co.kr" "", e))
