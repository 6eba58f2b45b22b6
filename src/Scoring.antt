-- ===== src/Scoring.antt =====
-- internal/scoring/score.go and scorer.go: the scores of hosts. A signal or score is a natural number of parts of
-- `one`, and a weight a natural number of parts of its own; a negative number or NaN of a signal stands as 0,
-- as the code takes it, and negative weights are not modelled. A quotient is rounded down once. The
-- aggregator, the store and JSON are parameters; the ticker and log lines are left out.

pub mod Bounds
pub mod Cycle
mod Tests
use issue_tracker.Prelude.{
  ℕ, ◌+◌, ◌*◌, ◌/◌, Bool, true, false, Option, none, some, String, List, [], ◌∷◌, ltb,
  if◌then◌else◌, ◌==◌, AssocList, insert,
}
use issue_tracker.Prelude.Keys.{nat_eq, string_eq}
use issue_tracker.Bus.ScoreResolver.{Resolver, set_scores}

abbrev pub one : ℕ
one = 1000000

pub record Weights : Type 0 where
  pub freshness : ℕ
  pub impact : ℕ
  pub host_trust : ℕ

abbrev pub default_weights : Weights
default_weights = record { freshness = 3; impact = 2; host_trust = 5 }

abbrev pub min_sample_count : ℕ
min_sample_count = 20

pub record HostSignals : Type 0 where
  pub freshness : ℕ
  pub impact : ℕ
  pub host_trust : ℕ
  pub sample_count : ℕ

unfoldable pub clamp01 : ℕ → ℕ
clamp01 v = if ltb one v then one else v

-- `Score`; none is its `false`.
unfoldable pub score : HostSignals → Weights → Option ℕ
score s w =
    let total = w.freshness + w.impact + w.host_trust in
    let raw =
      w.freshness * clamp01 s.freshness
      + w.impact * clamp01 s.impact
      + w.host_trust * clamp01 s.host_trust in
    if ltb s.sample_count min_sample_count
    then none
    else if total == 0
    then none
    else some (clamp01 (raw / total))

given : ℕ → Option ℕ → ℕ
given base none = base
given base (some v) = v

merged : Weights → Option ℕ → Option ℕ → Option ℕ → Weights
unfolding given
merged base freshness impact host_trust = record {
  freshness = given base.freshness freshness;
  impact = given base.impact impact;
  host_trust = given base.host_trust host_trust;
}

-- `MergeWeights`.
unfoldable pub merge_weights : Weights → Option ℕ → Option ℕ → Option ℕ → Option Weights
unfolding merged
merge_weights base none none none = none
merge_weights base (some f) impact host_trust = some (merged base (some f) impact host_trust)
merge_weights base none (some i) host_trust = some (merged base none (some i) host_trust)
merge_weights base none none (some t) = some (merged base none none (some t))

pub record HostAggregate : Type 0 where
  pub host : String
  pub signals : HostSignals

-- `HostScoringState`, without its time.
pub record HostScoringState : Type 0 where
  pub host : String
  pub score : ℕ
  pub signals : String
  pub window_minutes : ℕ

-- `Scorer` with its lookup of weights by host, and JSON.
pub record Scorer : Type 0 where
  pub weights : Weights
  pub window_minutes : ℕ
  pub tuning : String → Option Weights
  pub marshal : HostSignals → Option String

unfoldable pub weights_for : Scorer → String → Weights
weights_for s host = elim (s.tuning host) [ none ↦ s.weights | some w ↦ w ]

raw_or_empty : Option String → String
raw_or_empty none = "{}"
raw_or_empty (some raw) = raw

-- The scores of a cycle so far, and the states that it stores.
abbrev pub Scores : Type 0
Scores = AssocList String ℕ × List HostScoringState

scored : Scorer → HostAggregate → Option ℕ → Scores → Scores
unfolding raw_or_empty
scored s a none (scores, stored) = (scores, stored)
scored s a (some v) (scores, stored) = (
  insert a.host v scores,
  record {
    host = a.host;
    score = v;
    signals = raw_or_empty (s.marshal a.signals);
    window_minutes = s.window_minutes;
  }
      ∷ stored,
)

-- The loop over the aggregates; the states that were stored last stand first.
unfoldable pub score_all : Scorer → List HostAggregate → Scores → Scores
unfolding scored
score_all s [] done = done
score_all s (a ∷ aggregates) done =
    score_all s aggregates (scored s a (score a.signals (weights_for s a.host)) done)

cycle : Scorer → Option (List HostAggregate) → Resolver → Resolver × List HostScoringState
cycle s none sink = (sink, [])
cycle s (some aggregates) sink =
    let (scores, stored) = score_all s aggregates ([], []) in (set_scores scores sink, stored)

-- `runOnce`: what the sink and the store get; none is a failure of the aggregator.
unfoldable pub run_once :
    Scorer → Option (List HostAggregate) → Resolver → Resolver × List HostScoringState
unfolding cycle
run_once s aggregates sink = cycle s aggregates sink
