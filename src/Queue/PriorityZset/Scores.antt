-- ===== src/Queue/PriorityZset/Scores.antt =====
-- The scores of the queue (pkg/queue/priority_zset.go).
use Prim.Native.Nat.{◌^◌}
use issue_tracker.Prelude.{ℕ, ◌+◌, ◌*◌, ◌≤◌, ◌<◌, ◌≡◌, ◌↔◌, ◌⊎◌, arith}
use issue_tracker.Queue.PriorityZset.{
  normal_or, priority_score, priority_from_score, priority_factor,
}

-- The priority comes back from a score, as long as milliseconds stay below 1e13 (until the year 2286),
-- and the score is below 2 ^ 53, where a float64 is exact.
pub priority_from_score-priority_score :
    (priority arrival : ℕ)
    → arrival < priority_factor
    → (priority_from_score (priority_score priority arrival) ≡ normal_or priority)
      × (priority_score priority arrival < 2 ^ 53)
unfolding priority_from_score priority_score normal_or
priority_from_score-priority_score priority arrival h = ground arith

le-lexicographic :
    (n n' t t' : ℕ)
    → t < priority_factor
    → t' < priority_factor
    → (n * priority_factor + t ≤ n' * priority_factor + t') ↔ ((n < n') ⊎ ((n ≡ n') × (t ≤ t')))
le-lexicographic n n' t t' h k = ground arith

-- The order of scores: by priority, and by arrival where that is the same.
pub priority_score-le :
    (p t p' t' : ℕ)
    → t < priority_factor
    → t' < priority_factor
    → (priority_score p t ≤ priority_score p' t')
      ↔ ((normal_or p < normal_or p') ⊎ ((normal_or p ≡ normal_or p') × (t ≤ t')))
unfolding priority_score
priority_score-le p t p' t' h k = le-lexicographic (normal_or p) (normal_or p') t t' h k
