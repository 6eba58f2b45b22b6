-- ===== src/Workerpool/Tests.antt =====
-- Runs of a pool (internal/workerpool/pool.go).
use issue_tracker.Prelude.{ℕ, ◌+◌, ◌*◌, ◌≤◌, ◌≡◌, refl, true, false, List, [], ◌∷◌, length}
use issue_tracker.Workerpool.{
  stopped, new, Action, fetches, sends, gives_up, takes, finishes, stops, polled, drained, done,
  cancelled, commit_with_drain, step, run, pick,
}
use issue_tracker.Workerpool.Invariant.{count, Accounted}
use issue_tracker.Workerpool.Runs.{run-Accounted, run-drained}

-- A message is handled, and a second is given up when the pool stops.
abbrev actions : List (Action ℕ)
actions =
    fetches 7
    ∷ sends
    ∷ fetches 8
    ∷ stops
    ∷ polled
    ∷ gives_up
    ∷ polled
    ∷ takes
    ∷ drained
    ∷ finishes 0
    ∷ drained
    ∷ []

all_stopped : (run actions (new 1)).stop ≡ stopped true
unfolding run step new pick
all_stopped = refl

run-Accounted_example :
    let p = run actions (new 1) in
    (p.panicked ≡ false)
    × (length p.jobs ≤ p.worker_count * 2)
    × (length p.busy ≤ p.worker_count)
    × Accounted (λ m. true) p
run-Accounted_example = run-Accounted 1 actions (λ m. true)

run-drained_example :
    let p = run actions (new 1) in
    (count (λ m. true) p.fetched ≡ count (λ m. true) p.handled + count (λ m. true) p.dropped)
    × (length p.dropped ≤ 1)
run-drained_example = run-drained 1 actions (λ m. true) all_stopped

committed_again : commit_with_drain cancelled done ≡ true
unfolding commit_with_drain
committed_again = refl
