-- ===== src/Locks/Marker/Tests.antt =====
-- A run of the pipeline guard over keys that expire (internal/locks/pipeline_guard.go).
use issue_tracker.Prelude.{◌≡◌, refl, true, some, [], ◌∷◌, leb, lookup}
use issue_tracker.Prelude.Texts.{bytes_eq}
use issue_tracker.Redis.Expiring.Memory.{Keys, keys, live, keys-IsExpiring}
use issue_tracker.Bus.Messages.{TargetType}
use issue_tracker.Redis.{done}
use issue_tracker.Locks.Marker.{check_and_acquire, release}
use issue_tracker.Locks.Marker.Window.{guard_of, window, check_and_acquire-window}

abbrev blank : Keys
blank = record { entries = []; now = 0 }

-- A category with the default minute, checked again after two.
check_and_acquire-window_example :
    let g = guard_of 0 0 in
    let first = check_and_acquire keys (λ x. x) g done (9 ∷ []) TargetType.category blank in
    (first.1 ≡ some true)
    × ((check_and_acquire keys
          (λ x. x)
          g
          done
          (9 ∷ [])
          TargetType.article
          (keys.wait 120000000000 first.0)).1
        ≡ some (leb (window g TargetType.category) 120000000000))
    × ((check_and_acquire keys
          (λ x. x)
          g
          done
          (9 ∷ [])
          TargetType.article
          (release keys (λ x. x) g done (9 ∷ []) (keys.wait 120000000000 first.0)).0).1
        ≡ some true)
unfolding keys lookup live
check_and_acquire-window_example =
    check_and_acquire-window keys (λ x. x) 0 0 (9 ∷ []) TargetType.category TargetType.article
      120000000000 blank keys-IsExpiring refl
