-- ===== src/Bus/SeenCache.antt =====
-- internal/bus/seen_cache.go: the cache of URLs that were in the pipeline a moment ago. The mutex makes
-- each method one step.

mod Laws
mod Runs
mod Growth
mod Tests
use issue_tracker.Prelude.{
  ℕ, ◌+◌, ◌*◌, Bool, true, false, Option, none, some, String, List, [], ◌∷◌, ◌++◌, ltb, leb, length,
  if◌then◌else◌, ◌==◌, AssocList, lookup, insert, erase,
}
use issue_tracker.Prelude.Keys.{nat_eq, string_eq}

abbrev pub default_seen_cache_size : ℕ
default_seen_cache_size = 10000

abbrev pub default_seen_cache_ttl : ℕ
default_seen_cache_ttl = 600000000000

pub record SeenCache : Type 0 where
  pub ttl : ℕ
  pub max_size : ℕ
  pub entries : AssocList String ℕ
  pub order : List String

-- A size or a time to live below 0 counts as 0.
unfoldable pub new_seen_cache : ℕ → ℕ → Option SeenCache
new_seen_cache size ttl =
    if ttl == 0
    then none
    else some (record {
      ttl = ttl;
      max_size = if size == 0 then default_seen_cache_size else size;
      entries = [];
      order = [];
    })

has_entry : Option ℕ → SeenCache → String → ℕ → SeenCache × Bool
has_entry none c url now = (c, false)
has_entry (some t) c url now =
    if leb (t + c.ttl) now then (record c { entries = erase url c.entries }, false) else (c, true)

unfoldable pub has_in : SeenCache → String → ℕ → SeenCache × Bool
unfolding has_entry
has_in c url now = has_entry (lookup url c.entries) c url now

unfoldable pub known : Option ℕ → Bool
known none = false
known (some t) = true

-- The loop that drops the oldest while there are more than `max_size`.
unfoldable pub evict : ℕ → AssocList String ℕ → List String → AssocList String ℕ × List String
evict max_size entries [] = (entries, [])
evict max_size entries (oldest ∷ order) =
    let rest = evict max_size (erase oldest entries) order in
    if ltb max_size (length entries) then rest else (entries, oldest ∷ order)

-- The URLs of the order that are still entries.
unfoldable pub compact : AssocList String ℕ → List String → List String
unfolding known
compact entries [] = []
compact entries (url ∷ order) =
    let rest = compact entries order in if known (lookup url entries) then url ∷ rest else rest

unfoldable pub ordered : SeenCache → String → List String
unfolding known
ordered c url = if known (lookup url c.entries) then c.order else c.order ++ url ∷ []

unfoldable pub compacted : SeenCache → AssocList String ℕ × List String → SeenCache
compacted c (entries, order) = record c {
  entries = entries;
  order = if ltb (2 * c.max_size) (length order) then compact entries order else order;
}

unfoldable pub add_in : SeenCache → String → ℕ → SeenCache
add_in c url now = compacted c (evict c.max_size (insert url now c.entries) (ordered c url))

-- The methods of a cache that may be nil.
unfoldable pub has : Option SeenCache → String → ℕ → Option SeenCache × Bool
has none url now = (none, false)
has (some c) url now = let (c', found) = has_in c url now in (some c', found)

unfoldable pub add : Option SeenCache → String → ℕ → Option SeenCache
add none url now = none
add (some c) url now = some (add_in c url now)

unfoldable pub len : Option SeenCache → ℕ
len none = 0
len (some c) = length c.entries
