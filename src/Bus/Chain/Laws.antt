-- ===== src/Bus/Chain/Laws.antt =====
-- What the publisher lets pass (internal/bus/chain.go).
use issue_tracker.Prelude.{
  ℕ, ◌+◌, ◌≡◌, inl, inr, refl, sym, subst, ap, ◌∙◌, Bool, true, false, not, ◌||◌, Option, none,
  some, String, List, [], ◌∷◌, if◌then◌else◌, ◌==◌, ==_iff, arith, Bool-cases,
}
use issue_tracker.Prelude.Keys.{string_eq}
use issue_tracker.Bus.SeenCache.{SeenCache, has}
use issue_tracker.Bus.Chain.{Turn, State, AcquireFunc, marked, attempt, filter_by_acquire}

-- A marker that is set if it is absent, and stays: `held` tells which URLs have one.
pub record SetOnce {M : Type 0} (op : AcquireFunc M) (held : M → String → Bool) : Type 0 where
  pub answers : (m : M) (url : String) → (op m url).1 ≡ some (not (held m url))
  pub sets : (m : M) (url u : String) → held (op m url).0 u ≡ (held m u || (url == u))

-- No URL of the list is taken, nor twice in the list.
abbrev pub Once : (String → Bool) → List String → Type 0
Once taken [] = Unit
Once taken (url ∷ urls) = (taken url ≡ false) × Once (λ u. taken u || (url == u)) urls

Once-ext :
    (f g : String → Bool) (urls : List String)
    → ((u : String) → f u ≡ g u)
    → Once f urls
    → Once g urls
Once-ext f g [] same o = tt
Once-ext f g (url ∷ urls) same (free, o) = (
  sym (same url) ∙ free,
  Once-ext (λ u. f u || (url == u)) (λ u. g u || (url == u)) urls
      (λ u. ap (λ (b : Bool). b || (url == u)) (same u)) o,
)

pub filter_by_acquire-nil :
    {M : Type 0} (op : AcquireFunc M) (turn : Turn) (i : ℕ) (s : State M)
    → (filter_by_acquire op turn i s []).1 ≡ []
unfolding filter_by_acquire
filter_by_acquire-nil op turn i s = refl

attempt-open :
    {M : Type 0} (op : AcquireFunc M) (turn : Turn) (i : ℕ) (m : M) (url : String)
    → (op m url).1 ≡ none
    → attempt op turn i (m, none) url ≡ (((op m url).0, none), true)
unfolding attempt marked has
attempt-open op turn i m url down = marked-none (op m url).0 (op m url).1 down
  where
    marked-none :
        {M : Type 0} (n : M) (answer : Option Bool)
        → answer ≡ none
        → marked none (n, answer) url (turn.added_at i) ≡ ((n, none), true)
    marked-none n none e = refl
    marked-none n (some b) e = ground arith

filter_by_acquire-stopped :
    {M : Type 0} (op : AcquireFunc M) (turn : Turn) (i : ℕ) (s : State M) (url : String)
    (urls : List String)
    → turn.cancelled i ≡ true
    → (filter_by_acquire op turn i s (url ∷ urls)).1 ≡ url ∷ urls
unfolding filter_by_acquire
filter_by_acquire-stopped op turn i s url urls stopped = rw (stopped, if◌then◌else◌) refl

pub filter_by_acquire-next :
    {M : Type 0} (op : AcquireFunc M) (turn : Turn) (i : ℕ) (s : State M) (url : String)
    (urls : List String)
    → turn.cancelled i ≡ false
    → let (s', kept) = attempt op turn i s url in
      let rest = (filter_by_acquire op turn (i + 1) s' urls).1 in
      (filter_by_acquire op turn i s (url ∷ urls)).1 ≡ (if kept then url ∷ rest else rest)
unfolding filter_by_acquire
filter_by_acquire-next op turn i s url urls running = rw (running, if◌then◌else◌) refl

module _ {M : Type 0} (op : AcquireFunc M) (held : M → String → Bool) (law : SetOnce op held)
    (turn : Turn) where
  -- A URL that is kept was free and is taken after it; any other leaves the markers as they are.
  abbrev Marks : M → String → State M → Bool → Type 0
  Marks m url s true = (held m url ≡ false) × ((u : String) → held s.0 u ≡ (held m u || (url == u)))
  Marks m url s false = (u : String) → held s.0 u ≡ held m u

  marked-Marks :
      (cache : Option SeenCache) (m m' : M) (answer : Option Bool) (url : String) (t : ℕ)
      → answer ≡ some (not (held m url))
      → ((u : String) → held m' u ≡ (held m u || (url == u)))
      → Marks m url (marked cache (m', answer) url t).0 (marked cache (m', answer) url t).1
  unfolding marked
  marked-Marks cache m m' none url t e sets = ground arith
  marked-Marks cache m m' (some true) url t e sets = (ground arith, sets)
  marked-Marks cache m m' (some false) url t e sets =
      λ u. ground (arith, e, sets u, ==_iff url u, λ (p : url ≡ u). ap (held m) p)

  attempt-Marks :
      (i : ℕ) (s : State M) (url : String)
      → Marks s.0 url (attempt op turn i s url).0 (attempt op turn i s url).1
  unfolding attempt
  attempt-Marks i (m, cache) url = elim (Bool-cases (has cache url (turn.asked_at i)).1) [
    | inl seen ↦ rw (seen, if◌then◌else◌) (λ u. refl)
    | inr unseen ↦
        rw (unseen, if◌then◌else◌)
          (marked-Marks (has cache url (turn.asked_at i)).0 m (op m url).0 (op m url).1 url
            (turn.added_at i) (law.answers m url) (law.sets m url))
  ]

  keep-Once :
      (m : M) (url : String) (s : State M) (kept : Bool) (rest : List String)
      → Marks m url s kept
      → Once (held s.0) rest
      → Once (held m) (if kept then url ∷ rest else rest)
  keep-Once m url s true rest (free, marks) o =
      (free, Once-ext (held s.0) (λ u. held m u || (url == u)) rest marks o)
  keep-Once m url s false rest marks o = Once-ext (held s.0) (held m) rest marks o

  filter_by_acquire-Once :
      (urls : List String) (i : ℕ) (s : State M)
      → ((j : ℕ) → turn.cancelled j ≡ false)
      → Once (held s.0) (filter_by_acquire op turn i s urls).1
  filter_by_acquire-Once [] i s running =
      subst (Once (held s.0)) (sym (filter_by_acquire-nil op turn i s)) tt
  filter_by_acquire-Once (url ∷ urls) i s running =
      let (s', kept) = attempt op turn i s url in
      subst (Once (held s.0)) (sym (filter_by_acquire-next op turn i s url urls (running i))) (
        keep-Once s.0 url s' kept (filter_by_acquire op turn (i + 1) s' urls).1
          (attempt-Marks i s url) (filter_by_acquire-Once urls (i + 1) s' running))

-- With a marker that is set if it is absent, and without cancellation, the URLs that pass the filter
-- had no marker before, and none of them passes twice, whatever the cache holds.
filter_by_acquire-distinct :
    {M : Type 0} (op : AcquireFunc M) (held : M → String → Bool) (turn : Turn) (s : State M)
    (urls : List String)
    → SetOnce op held
    → ((j : ℕ) → turn.cancelled j ≡ false)
    → Once (held s.0) (filter_by_acquire op turn 0 s urls).1
filter_by_acquire-distinct op held turn s urls law running =
    filter_by_acquire-Once op held law turn urls 0 s running

-- While the markers cannot be asked and there is no cache, every URL passes, in the same order,
-- whether the context is cancelled or not.
filter_by_acquire-open :
    {M : Type 0} (op : AcquireFunc M) (turn : Turn) (urls : List String) (i : ℕ) (m : M)
    → ((n : M) (url : String) → (op n url).1 ≡ none)
    → (filter_by_acquire op turn i (m, none) urls).1 ≡ urls
filter_by_acquire-open op turn [] i m down = filter_by_acquire-nil op turn i (m, none)
filter_by_acquire-open {M = M} op turn (url ∷ urls) i m down =
    elim (Bool-cases (turn.cancelled i)) [
      | inl stopped ↦ filter_by_acquire-stopped op turn i (m, none) url urls stopped
      | inr running ↦
          filter_by_acquire-next op turn i (m, none) url urls running
          ∙ ap
              (λ (a : State M × Bool).
                if a.1
                then url ∷ (filter_by_acquire op turn (i + 1) a.0 urls).1
                else (filter_by_acquire op turn (i + 1) a.0 urls).1)
              (attempt-open op turn i m url (down m url))
          ∙ ap (λ (l : List String). url ∷ l)
              (filter_by_acquire-open op turn urls (i + 1) (op m url).0 down)
    ]
