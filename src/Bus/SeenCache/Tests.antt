-- ===== src/Bus/SeenCache/Tests.antt =====
-- Runs of the cache (internal/bus/seen_cache.go).
use issue_tracker.Prelude.{
  ℕ, ◌+◌, ◌<◌, ◌≡◌, refl, true, none, some, List, [], ◌∷◌, length, lookup, insert, erase, arith,
}
use issue_tracker.Bus.SeenCache.{
  SeenCache, new_seen_cache, has_in, add_in, has, add, len, known, evict, compacted, ordered,
}
use issue_tracker.Bus.SeenCache.Runs.{Call, asks, adds, run, step, last_added, has_in-recent}
use issue_tracker.Bus.SeenCache.Growth.{rounds, order_grows}

abbrev cache : SeenCache
cache = record { ttl = 10; max_size = 2; entries = []; order = [] }

abbrev calls : List Call
calls = adds "a" 1 ∷ adds "b" 2 ∷ asks "a" 3 ∷ adds "c" 4 ∷ asks "a" 5 ∷ []

run-calls : (run cache calls).order ≡ "b" ∷ "c" ∷ []
unfolding run step add_in has_in evict ordered compacted known lookup insert erase
run-calls = refl

len-off : len (add (new_seen_cache 5 0) "a" 1) ≡ 0
unfolding len add new_seen_cache
len-off = refl

has-added : (has (add (some cache) "a" 1) "a" 10).1 ≡ true
unfolding has add has_in add_in evict ordered compacted known lookup insert erase
has-added = refl

has_in-recent_example : (t : ℕ) × ((last_added "c" none calls ≡ some t) × (12 < t + 10))
unfolding new_seen_cache run step add_in has_in evict ordered compacted known lookup insert erase
has_in-recent_example = has_in-recent 2 10 cache calls "c" 12 (omega arith) refl refl

order_grows_example :
    (length (run cache (adds "a" 1 ∷ rounds "a" 10 1 50)).entries ≡ 1)
    × (length (run cache (adds "a" 1 ∷ rounds "a" 10 1 50)).order ≡ 51)
unfolding new_seen_cache
order_grows_example = order_grows 2 10 cache "a" 1 50 (omega arith) refl
