-- ===== src/Bus/SeenCache/Runs.antt =====
-- Any sequence of calls of the cache (internal/bus/seen_cache.go).
use issue_tracker.Prelude.{
  ℕ, ◌+◌, ◌≤◌, ◌<◌, ◌≡◌, ◌⊎◌, inl, inr, refl, sym, subst, ◌∙◌, true, Option, none, some, String,
  List, [], ◌∷◌, length, if◌then◌else◌, ◌==◌, arith, lookup, insert, lookup-insert, Option-cases,
}
use issue_tracker.Prelude.Keys.{string_eq, nat_eq}
use issue_tracker.Bus.SeenCache.{
  SeenCache, new_seen_cache, has_in, add_in, known, compacted, ordered,
}
use issue_tracker.Bus.SeenCache.Laws.{
  IsValid, has_in-IsValid, add_in-IsValid, has_in-cases, evict-Within, erase-Within,
}

pub data Call : Type 0 where
  asks adds : String → ℕ → Call

unfoldable pub step : SeenCache → Call → SeenCache
step c (asks url now) = (has_in c url now).0
step c (adds url now) = add_in c url now

unfoldable pub run : SeenCache → List Call → SeenCache
run c [] = c
run c (call ∷ calls) = run (step c call) calls

-- When a URL was last added, behind the time that is given.
unfoldable pub last_added : String → Option ℕ → List Call → Option ℕ
last_added url before [] = before
last_added url before (asks u now ∷ calls) = last_added url before calls
last_added url before (adds u now ∷ calls) =
    last_added url (if u == url then some now else before) calls

step-IsValid : (c : SeenCache) (call : Call) → IsValid c → IsValid (step c call)
unfolding step
step-IsValid c (asks url now) v = has_in-IsValid c url now v
step-IsValid c (adds url now) v = add_in-IsValid c url now v

run-IsValid : (calls : List Call) (c : SeenCache) → IsValid c → IsValid (run c calls)
unfolding run
run-IsValid [] c v = v
run-IsValid (call ∷ calls) c v = run-IsValid calls (step c call) (step-IsValid c call v)

abbrev pub empty : ℕ → ℕ → SeenCache
empty size ttl = record { ttl = ttl; max_size = size; entries = []; order = [] }

max_size-step :
    (c : SeenCache) (call : Call)
    → ((step c call).max_size ≡ c.max_size) × ((step c call).ttl ≡ c.ttl)
unfolding step has_in add_in compacted
max_size-step c (asks url now) = ground arith
max_size-step c (adds url now) = (refl, refl)

max_size-run :
    (calls : List Call) (c : SeenCache)
    → ((run c calls).max_size ≡ c.max_size) × ((run c calls).ttl ≡ c.ttl)
unfolding run
max_size-run [] c = (refl, refl)
max_size-run (call ∷ calls) c =
    let (m, t) = max_size-run calls (step c call) in
    let (m', t') = max_size-step c call in (m ∙ m', t ∙ t')

empty-IsValid : (size ttl : ℕ) → IsValid (empty size ttl)
unfolding known lookup
empty-IsValid size ttl = record { covered = λ url k. ground (arith, k); small = omega arith }

pub new-empty :
    (size ttl : ℕ) (c : SeenCache)
    → 0 < size
    → new_seen_cache size ttl ≡ some c
    → empty size ttl ≡ c
unfolding new_seen_cache
new-empty size ttl c pos e = ground arith

-- A cache that was made with a size holds no more URLs than it after any calls.
size_holds :
    (size ttl : ℕ) (c : SeenCache) (calls : List Call)
    → 0 < size
    → new_seen_cache size ttl ≡ some c
    → length (run c calls).entries ≤ size
size_holds size ttl c calls pos e =
    subst (λ (d : SeenCache). length (run d calls).entries ≤ size) (new-empty size ttl c pos e)
      (omega (
        arith,
        (run-IsValid calls (empty size ttl) (empty-IsValid size ttl)).small,
        (max_size-run calls (empty size ttl)).0,
      ))

-- An entry of the cache has the time when its URL was last added.
abbrev Dated : SeenCache → String → Option ℕ → Type 0
Dated c url t = (lookup url c.entries ≡ none) ⊎ (lookup url c.entries ≡ t)

add_in-Dated :
    (c : SeenCache) (u url : String) (now : ℕ) (t : Option ℕ)
    → Dated c url t
    → Dated (add_in c u now) url (if u == url then some now else t)
unfolding add_in compacted
add_in-Dated c u url now t d =
    let m = insert u now c.entries in
    ground
      (arith, d, evict-Within c.max_size (ordered c u) m url, lookup-insert u url now c.entries)

has_in-Dated :
    (c : SeenCache) (u url : String) (now : ℕ) (t : Option ℕ)
    → Dated c url t
    → Dated (has_in c u now).0 url t
has_in-Dated c u url now t d = elim (has_in-cases c u now) [
  | inl p ↦ subst (λ (x : SeenCache). Dated x url t) (sym p) d
  | inr p ↦
      subst (λ (x : SeenCache). Dated x url t) (sym p)
        (ground (arith, d, erase-Within u c.entries url))
]

run-Dated :
    (calls : List Call) (c : SeenCache) (url : String) (t : Option ℕ)
    → Dated c url t
    → Dated (run c calls) url (last_added url t calls)
unfolding run step last_added
run-Dated [] c url t d = d
run-Dated (asks u now ∷ calls) c url t d =
    run-Dated calls (has_in c u now).0 url t (has_in-Dated c u url now t d)
run-Dated (adds u now ∷ calls) c url t d =
    run-Dated calls (add_in c u now) url (if u == url then some now else t)
      (add_in-Dated c u url now t d)

has_in-found :
    (c : SeenCache) (url : String) (now : ℕ)
    → (has_in c url now).1 ≡ true
    → (t : ℕ) × ((lookup url c.entries ≡ some t) × (now < t + c.ttl))
unfolding has_in
has_in-found c url now h = elim (Option-cases (lookup url c.entries)) [
  | inl p ↦ ground arith
  | inr (t, p) ↦ (t, (p, ground arith))
]

lookup-empty : (url : String) → lookup {V = ℕ} url [] ≡ none
unfolding lookup
lookup-empty url = refl

-- A cache remembers a URL at most for its time to live: if it answers after any calls that it knows a
-- URL, then the URL was added, for the last time less than the time to live ago.
pub has_in-recent :
    (size ttl : ℕ) (c : SeenCache) (calls : List Call) (url : String) (now : ℕ)
    → 0 < size
    → new_seen_cache size ttl ≡ some c
    → (has_in (run c calls) url now).1 ≡ true
    → (t : ℕ) × ((last_added url none calls ≡ some t) × (now < t + ttl))
has_in-recent size ttl c calls url now pos e found =
    let c' = run (empty size ttl) calls in
    let dated = run-Dated calls (empty size ttl) url none (inl (lookup-empty url)) in
    let same = (max_size-run calls (empty size ttl)).1 in
    let (t, (p, fresh)) = has_in-found c' url now (
      subst (λ (d : SeenCache). (has_in (run d calls) url now).1 ≡ true)
        (sym (new-empty size ttl c pos e)) found) in
    (t, (ground (arith, p, dated), omega (arith, fresh, same)))
