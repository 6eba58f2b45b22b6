-- ===== src/Locks/ProcessingLock/Tests.antt =====
-- Runs of the locks over keys that expire (internal/locks/processing_lock.go, pkg/redis/lock.go).
use issue_tracker.Prelude.{◌≡◌, refl, none, some, List, [], ◌∷◌, arith, Bytes, length, lookup}
use issue_tracker.Prelude.Texts.{bytes_eq}
use issue_tracker.Redis.Expiring.Memory.{Keys, keys, keys-IsExpiring}
use issue_tracker.Redis.{done, unanswered}
use issue_tracker.Locks.ProcessingLock.{
  token_of, ok, new_redis_processing_lock, acquire, release, processing_key,
}
use issue_tracker.Locks.ProcessingLock.Keys.{processing_key-inj}
use issue_tracker.Locks.ProcessingLock.Held.{Event, acquires, releases, waits, run, Refused}
use issue_tracker.Locks.ProcessingLock.Exclusion.{acquire-Refused}

abbrev blank : Keys
blank = record { entries = []; now = 0 }

abbrev key : Bytes
key = 7 ∷ []

abbrev own : Bytes
own = 1 ∷ []

abbrev other : Bytes
other = 2 ∷ []

-- Another worker asks, releases late with its old token, and breaks; nine minutes pass.
abbrev events : List Event
events =
    acquires (some other) done key
    ∷ releases done key other
    ∷ waits 540000000000
    ∷ acquires (some other) unanswered key
    ∷ []

acquire-Refused_example :
    let l = new_redis_processing_lock 0 in
    let first = acquire keys l (some own) done key blank in
    let last = release keys l done key own (run keys l events first.0) in
    (first.1 ≡ token_of own)
    × Refused keys l key events first.0
    × (last.1 ≡ ok)
    × (keys.get last.0 key ≡ none)
unfolding keys lookup new_redis_processing_lock
acquire-Refused_example =
    acquire-Refused keys 0 key own events blank keys-IsExpiring refl (λ e. ground (arith, e))
      (tt, ((λ here e. ground (arith, e)), (tt, (tt, tt)))) (omega arith)

-- The lock of the other, taken after the first was over.
abbrev taken_over : Keys
taken_over = record { entries = (key, (other, 100)) ∷ []; now = 10 }

-- A hash of one byte.
abbrev short_hash : Bytes → Bytes
short_hash [] = 0 ∷ []
short_hash (b ∷ bs) = b ∷ []

short_hash-length : (x : Bytes) → length (short_hash x) ≡ 1
short_hash-length [] = refl
short_hash-length (b ∷ bs) = refl

processing_key-inj_example : (key ≡ key) × (short_hash (3 ∷ 1 ∷ []) ≡ short_hash (3 ∷ 2 ∷ []))
unfolding processing_key
processing_key-inj_example =
    processing_key-inj short_hash 1 key key (3 ∷ 1 ∷ []) (3 ∷ 2 ∷ []) short_hash-length refl
