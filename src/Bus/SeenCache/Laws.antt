-- ===== src/Bus/SeenCache/Laws.antt =====
-- What a method of the cache does to its entries and its order (internal/bus/seen_cache.go).
use issue_tracker.Prelude.{
  ℕ, ◌≤◌, ◌≡◌, ◌⊎◌, inl, inr, refl, sym, subst, Bool, true, false, ◌||◌, none, String, List, [],
  ◌∷◌, ◌++◌, ltb, length, if◌then◌else◌, ◌==◌, ==_refl, ==_iff, arith, AssocList, lookup, insert,
  erase, lookup-erase, lookup-insert, Bool-cases,
}
use issue_tracker.Prelude.Keys.{nat_eq, string_eq}
use issue_tracker.Bus.SeenCache.{
  SeenCache, has_in, known, evict, compact, ordered, compacted, add_in,
}

unfoldable pub elem : String → List String → Bool
elem url [] = false
elem url (x ∷ xs) = (url == x) || elem url xs

elem-append :
    (url : String) (xs ys : List String) → elem url (xs ++ ys) ≡ (elem url xs || elem url ys)
unfolding elem
elem-append url [] ys = refl
elem-append url (x ∷ xs) ys = ground (arith, elem-append url xs ys)

-- Every entry has its place in the order.
abbrev pub Covered : AssocList String ℕ → List String → Type 0
Covered entries order = (url : String) → known (lookup url entries) ≡ true → elem url order ≡ true

-- The entries of the first are entries of the second, with the same time.
abbrev pub Within : AssocList String ℕ → AssocList String ℕ → Type 0
Within small big = (url : String) → (lookup url small ≡ none) ⊎ (lookup url small ≡ lookup url big)

pub erase-Within : (gone : String) (m : AssocList String ℕ) → Within (erase gone m) m
erase-Within gone m url = ground (arith, lookup-erase gone url m)

Within-trans : (a b c : AssocList String ℕ) → Within a b → Within b c → Within a c
Within-trans a b c p q url = ground (arith, p url, q url)

erase-Covered :
    (gone : String) (m : AssocList String ℕ) (order : List String)
    → Covered m (gone ∷ order)
    → Covered (erase gone m) order
unfolding elem known
erase-Covered gone m order h url k =
    ground (arith, lookup-erase gone url m, h url, ==_iff gone url, ==_iff url gone)

unlisted : (m : AssocList String ℕ) → Covered m [] → length m ≡ 0
unfolding elem known lookup
unlisted [] h = refl
unlisted ((k, t) ∷ m) h = ground (arith, h k, ==_refl k)

pub evict-Within :
    (max_size : ℕ) (order : List String) (m : AssocList String ℕ)
    → Within (evict max_size m order).0 m
unfolding evict
evict-Within max_size [] m url = inr refl
evict-Within max_size (o ∷ order) m url = ground (
  arith,
  Within-trans (evict max_size (erase o m) order).0 (erase o m) m
      (evict-Within max_size order (erase o m)) (erase-Within o m) url,
)

pub evict-Covered :
    (max_size : ℕ) (order : List String) (m : AssocList String ℕ)
    → Covered m order
    → Covered (evict max_size m order).0 (evict max_size m order).1
      × (length (evict max_size m order).0 ≤ max_size)
unfolding evict
evict-Covered max_size [] m h = (h, omega (arith, unlisted m h))
evict-Covered max_size (o ∷ order) m h = elim (Bool-cases (ltb max_size (length m))) [
  | inl many ↦
      rw (many, if◌then◌else◌)
        (evict-Covered max_size order (erase o m) (erase-Covered o m order h))
  | inr few ↦ rw (few, if◌then◌else◌) (h, ground (arith, few))
]

compact-elem :
    (m : AssocList String ℕ) (order : List String) (url : String)
    → known (lookup url m) ≡ true
    → elem url order ≡ true
    → elem url (compact m order) ≡ true
unfolding compact elem
compact-elem m [] url k h = h
compact-elem m (x ∷ order) url k h = ground (arith, compact-elem m order url k, ==_iff url x)

-- A cache within its size whose entries all stand in its order.
pub record IsValid (c : SeenCache) : Type 0 where
  pub covered : Covered c.entries c.order
  pub small : length c.entries ≤ c.max_size

length-erase_le : (gone : String) (m : AssocList String ℕ) → length (erase gone m) ≤ length m
unfolding erase
length-erase_le gone [] = omega arith
length-erase_le gone (e ∷ m) = ground (arith, length-erase_le gone m)

abbrev without : SeenCache → String → SeenCache
without c url = record c { entries = erase url c.entries }

-- `Has` changes nothing, or drops the entry that it was asked for.
pub has_in-cases :
    (c : SeenCache) (url : String) (now : ℕ)
    → ((has_in c url now).0 ≡ c) ⊎ ((has_in c url now).0 ≡ without c url)
unfolding has_in
has_in-cases c url now = ground arith

without-IsValid : (c : SeenCache) (url : String) → IsValid c → IsValid (without c url)
unfolding known
without-IsValid c url v = record {
  covered = λ k h. v.covered k (ground (arith, h, erase-Within url c.entries k));
  small = omega (arith, v.small, length-erase_le url c.entries);
}

pub has_in-IsValid :
    (c : SeenCache) (url : String) (now : ℕ) → IsValid c → IsValid (has_in c url now).0
has_in-IsValid c url now v = elim (has_in-cases c url now) [
  | inl p ↦ subst IsValid (sym p) v
  | inr p ↦ subst IsValid (sym p) (without-IsValid c url v)
]

insert-Covered :
    (c : SeenCache) (url : String) (now : ℕ)
    → Covered c.entries c.order
    → Covered (insert url now c.entries) (ordered c url)
unfolding known ordered elem
insert-Covered c url now h k = ground (
  arith,
  h k,
  lookup-insert url k now c.entries,
  elem-append k c.order (url ∷ []),
  ==_iff url k,
  ==_iff k url,
)

compacted-IsValid :
    (c : SeenCache) (m : AssocList String ℕ) (order : List String)
    → Covered m order
    → length m ≤ c.max_size
    → IsValid (compacted c (m, order))
unfolding compacted
compacted-IsValid c m order h few = record {
  covered = λ url k. ground (arith, h url k, compact-elem m order url k);
  small = few;
}

pub add_in-IsValid :
    (c : SeenCache) (url : String) (now : ℕ) → IsValid c → IsValid (add_in c url now)
unfolding add_in
add_in-IsValid c url now v =
    let entries = insert url now c.entries in
    let (kept, few) =
      evict-Covered c.max_size (ordered c url) entries (insert-Covered c url now v.covered) in
    compacted-IsValid c (evict c.max_size entries (ordered c url)).0
      (evict c.max_size entries (ordered c url)).1 kept few
