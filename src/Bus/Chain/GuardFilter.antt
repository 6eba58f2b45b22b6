-- ===== src/Bus/Chain/GuardFilter.antt =====
-- The filter of URLs under the pipeline guard (internal/bus/chain.go with internal/locks/pipeline_guard.go).
use issue_tracker.Prelude.{
  ℕ, ◌+◌, ◌≤◌, ◌<◌, ◌⊎◌, ◌≡◌, refl, sym, ap, subst, ◌∙◌, Bool, true, false, Option, none, some,
  String, List, [], ◌∷◌, if◌then◌else◌, arith, Bytes, Member, Bool-cases, inl, inr,
}
use issue_tracker.Prelude.Texts.{bytes_eq}
use issue_tracker.Redis.Expiring.{Expiring, IsExpiring}
use issue_tracker.Bus.SeenCache.{SeenCache, has}
use issue_tracker.Bus.Messages.{TargetType}
use issue_tracker.Bus.Chain.{Turn, State, AcquireFunc, marked, attempt, filter_by_acquire}
use issue_tracker.Bus.Chain.Laws.{filter_by_acquire-nil, filter_by_acquire-next}
use issue_tracker.Locks.Marker.Window.{guard_of, window}
use issue_tracker.Bus.Chain.GuardMarkers.{
  total, Markers, guard_func, key, Live, guard_func-Live, guard_func-taken, guard_func-acquired,
  guard_func-total, guard_func-answers,
}

filter_by_acquire-state :
    {M : Type 0} (op : AcquireFunc M) (turn : Turn) (i : ℕ) (s : State M) (url : String)
    (urls : List String)
    → turn.cancelled i ≡ false
    → (filter_by_acquire op turn i s (url ∷ urls)).0
      ≡ (filter_by_acquire op turn (i + 1) (attempt op turn i s url).0 urls).0
unfolding filter_by_acquire
filter_by_acquire-state op turn i s url urls running = rw (running, if◌then◌else◌) refl

module _ {R : Type 0} (redis : Expiring R) (hash : Bytes → Bytes) (bytes : String → Bytes)
    (ttl category_ttl : ℕ) (law : IsExpiring redis) where
  abbrev pub op : TargetType → AcquireFunc (Markers R)
  op = guard_func redis hash bytes ttl category_ttl

  abbrev pub own : String → Bytes
  own url = key redis hash bytes ttl category_ttl url

  abbrev pub Marks : String → Markers R → Type 0
  Marks u = Live redis hash bytes ttl category_ttl (own u)

  -- One URL of the filter, for the markers.
  marked-state :
      (cache : Option SeenCache) (a : Markers R × Option Bool) (url : String) (at : ℕ)
      → (marked cache a url at).0.0 ≡ a.0
  unfolding marked
  marked-state cache (m, none) url at = refl
  marked-state cache (m, some true) url at = refl
  marked-state cache (m, some false) url at = refl

  marked-answer :
      (cache : Option SeenCache) (a : Markers R × Option Bool) (url : String) (at : ℕ) (b : Bool)
      → a.1 ≡ some b
      → (marked cache a url at).1 ≡ b
  unfolding marked
  marked-answer cache (m, none) url at b e = ground (arith, e)
  marked-answer cache (m, some true) url at b e = ground (arith, e)
  marked-answer cache (m, some false) url at b e = ground (arith, e)

  module _ (t : TargetType) (turn : Turn) where
    attempt-Live :
        (k : Bytes) (i : ℕ) (m : Markers R) (cache : Option SeenCache) (url : String)
        → Live redis hash bytes ttl category_ttl k m
        → Live redis hash bytes ttl category_ttl k (attempt (op t) turn i (m, cache) url).0.0
    unfolding attempt
    attempt-Live k i m cache url live = elim (Bool-cases (has cache url (turn.asked_at i)).1) [
      | inl seen ↦ rw (seen, if◌then◌else◌) live
      | inr new ↦
          rw (new, if◌then◌else◌)
            (subst (Live redis hash bytes ttl category_ttl k)
              (sym (
                marked-state (has cache url (turn.asked_at i)).0 (op t m url) url
                  (turn.added_at i)))
              (guard_func-Live redis hash bytes ttl category_ttl law k t m url live))
    ]

    attempt-total :
        (i : ℕ) (m : Markers R) (cache : Option SeenCache) (url : String)
        → total (attempt (op t) turn i (m, cache) url).0.0.1 ≤ total m.1
    unfolding attempt
    attempt-total i m cache url = elim (Bool-cases (has cache url (turn.asked_at i)).1) [
      | inl seen ↦ rw (seen, if◌then◌else◌) (omega arith)
      | inr new ↦
          rw (new, if◌then◌else◌)
            (subst (λ (n : Markers R). total n.1 ≤ total m.1)
              (sym (
                marked-state (has cache url (turn.asked_at i)).0 (op t m url) url
                  (turn.added_at i)))
              (guard_func-total redis hash bytes ttl category_ttl law t m url))
    ]

    attempt-taken :
        (i : ℕ) (m : Markers R) (cache : Option SeenCache) (url : String)
        → Marks url m
        → (attempt (op t) turn i (m, cache) url).1 ≡ false
    unfolding attempt
    attempt-taken i m cache url live = elim (Bool-cases (has cache url (turn.asked_at i)).1) [
      | inl seen ↦ rw (seen, if◌then◌else◌) refl
      | inr new ↦
          rw (new, if◌then◌else◌)
            (marked-answer (has cache url (turn.asked_at i)).0 (op t m url) url (turn.added_at i)
              false (guard_func-taken redis hash bytes ttl category_ttl law t m url live))
    ]

    attempt-acquired :
        (i : ℕ) (m : Markers R) (cache : Option SeenCache) (url : String)
        → total m.1 < window (guard_of ttl category_ttl) t
        → (attempt (op t) turn i (m, cache) url).1 ≡ true
        → Marks url (attempt (op t) turn i (m, cache) url).0.0
    unfolding attempt
    attempt-acquired i m cache url short = elim (Bool-cases (has cache url (turn.asked_at i)).1) [
      | inl seen ↦ rw (seen, if◌then◌else◌) (λ kept. absurd (ground (arith, kept)))
      | inr new ↦
          let (b, answered) = guard_func-answers redis hash bytes ttl category_ttl law t m url in
          let told =
            marked-answer (has cache url (turn.asked_at i)).0 (op t m url) url (turn.added_at i) b
              answered in
          rw (new, if◌then◌else◌)
            (λ kept.
              subst (Marks url)
                (sym (
                  marked-state (has cache url (turn.asked_at i)).0 (op t m url) url
                    (turn.added_at i)))
                (guard_func-acquired redis hash bytes ttl category_ttl law t m url short
                  (answered ∙ ap (λ (c : Bool). some c) (sym told ∙ kept))))
    ]

    -- All URLs of the filter.
    abbrev pub filtered : ℕ → State (Markers R) → List String → State (Markers R) × List String
    filtered i s urls = filter_by_acquire (op t) turn i s urls

    module _ (running : (j : ℕ) → turn.cancelled j ≡ false) where
      filtered-Live :
          (k : Bytes) (urls : List String) (i : ℕ) (m : Markers R) (cache : Option SeenCache)
          → Live redis hash bytes ttl category_ttl k m
          → Live redis hash bytes ttl category_ttl k (filtered i (m, cache) urls).0.0
      filtered-Live k [] i m cache live = unfold filter_by_acquire in live
      filtered-Live k (url ∷ urls) i m cache live =
          let s = (attempt (op t) turn i (m, cache) url).0 in
          subst (λ (x : State (Markers R)). Live redis hash bytes ttl category_ttl k x.0)
            (sym (filter_by_acquire-state (op t) turn i (m, cache) url urls (running i)))
            (filtered-Live k urls (i + 1) s.0 s.1 (attempt-Live k i m cache url live))

      kept_or_later :
          (url u : String) (kept : Bool) (rest : List String)
          → Member u (if kept then url ∷ rest else rest)
          → ((u ≡ url) × (kept ≡ true)) ⊎ Member u rest
      kept_or_later url u true rest (inl e) = inl (e, refl)
      kept_or_later url u true rest (inr h) = inr h
      kept_or_later url u false rest h = inr h

      pub filtered-taken :
          (u : String) (urls : List String) (i : ℕ) (m : Markers R) (cache : Option SeenCache)
          → Marks u m
          → ¬ Member u (filtered i (m, cache) urls).1
      filtered-taken u [] i m cache live h =
          elim (subst (Member u) (filter_by_acquire-nil (op t) turn i (m, cache)) h) [ ]
      filtered-taken u (url ∷ urls) i m cache live h =
          let a = attempt (op t) turn i (m, cache) url in
          elim (kept_or_later url u a.1 (filtered (i + 1) a.0 urls).1 (
            subst (Member u) (filter_by_acquire-next (op t) turn i (m, cache) url urls (running i))
              h)) [
                | inl (same, kept) ↦
                    let refused =
                      attempt-taken i m cache url (subst (λ (x : String). Marks x m) same live) in
                    absurd (ground (arith, kept, refused))
                | inr later ↦
                    filtered-taken u urls (i + 1) a.0.0 a.0.1
                      (attempt-Live (own u) i m cache url live) later
              ]

      pub filtered-acquired :
          (u : String) (urls : List String) (i : ℕ) (m : Markers R) (cache : Option SeenCache)
          → total m.1 < window (guard_of ttl category_ttl) t
          → Member u (filtered i (m, cache) urls).1
          → Marks u (filtered i (m, cache) urls).0.0
      filtered-acquired u [] i m cache short h =
          elim (subst (Member u) (filter_by_acquire-nil (op t) turn i (m, cache)) h) [ ]
      filtered-acquired u (url ∷ urls) i m cache short h =
          let a = attempt (op t) turn i (m, cache) url in
          subst (λ (x : State (Markers R)). Marks u x.0)
            (sym (filter_by_acquire-state (op t) turn i (m, cache) url urls (running i)))
            (elim (kept_or_later url u a.1 (filtered (i + 1) a.0 urls).1 (
              subst (Member u)
                (filter_by_acquire-next (op t) turn i (m, cache) url urls (running i)) h)) [
                  | inl (same, kept) ↦ filtered-Live (own u) urls (i + 1) a.0.0 a.0.1 (
                      subst (λ (x : String). Marks x a.0.0) (sym same)
                        (attempt-acquired i m cache url short kept))
                  | inr later ↦
                      filtered-acquired u urls (i + 1) a.0.0 a.0.1
                        (omega (arith, short, attempt-total i m cache url)) later
                ])
