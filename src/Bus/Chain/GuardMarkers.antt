-- ===== src/Bus/Chain/GuardMarkers.antt =====
-- The markers of the pipeline guard as what the publisher asks for each URL (internal/locks/pipeline_guard.go,
-- internal/bus/chain.go): they expire, and time passes before each of the guard's commands.
use issue_tracker.Prelude.{
  ℕ, ◌+◌, ◌-◌, ◌≤◌, ◌<◌, ◌≡◌, refl, sym, ap, ◌∙◌, Bool, true, false, Option, some, String, List, [],
  ◌∷◌, ==_iff, ==_refl, arith, Bytes, Option-cases, inl, inr,
}
use issue_tracker.Prelude.Texts.{bytes_eq}
use issue_tracker.Redis.{done}
use issue_tracker.Redis.Expiring.{Expiring, IsExpiring, after}
use issue_tracker.Bus.Messages.{TargetType}
use issue_tracker.Bus.Chain.{AcquireFunc}
use issue_tracker.Locks.Marker.{ingestion_key, mark, acquire_lock, check_and_acquire}
use issue_tracker.Locks.Marker.Window.{
  guard_of, window, check_and_acquire-lock, category_ttl-filled, window-filled,
}

-- The times that pass before the commands to come.
abbrev pub total : List ℕ → ℕ
total [] = 0
total (d ∷ ds) = d + total ds

-- Redis, and those times.
abbrev pub Markers : Type 0 → Type 0
Markers R = R × List ℕ

module _ {R : Type 0} (redis : Expiring R) (hash : Bytes → Bytes) (bytes : String → Bytes)
    (ttl category_ttl : ℕ) where
  abbrev pub asked : TargetType → String → R → R × Option Bool
  asked t url r = check_and_acquire redis hash (guard_of ttl category_ttl) done (bytes url) t r

  -- `guard.CheckAndAcquire` for a type of target, as what the filter calls for each URL.
  abbrev pub guard_func : TargetType → AcquireFunc (Markers R)
  guard_func t (r, []) url = let (r', b) = asked t url r in ((r', []), b)
  guard_func t (r, d ∷ ds) url = let (r', b) = asked t url (redis.wait d r) in ((r', ds), b)

  abbrev pub key : String → Bytes
  key url = ingestion_key hash (bytes url)

  -- The marker outlasts the times to come.
  abbrev pub Live : Bytes → Markers R → Type 0
  Live k (r, ds) = (v : Bytes) × (left : ℕ) × (redis.get r k ≡ some (v, left)) × (total ds < left)

  module _ (law : IsExpiring redis) where
    lock-Live :
        (k own : Bytes) (w : ℕ) (r : R) (e : Bytes × ℕ)
        → 0 < w
        → redis.get r k ≡ some e
        → redis.get (acquire_lock redis done own w r).0 k ≡ some e
    unfolding acquire_lock
    lock-Live k own w r e filled at = elim (Option-cases (redis.get r own)) [
      | inl free ↦ ground (
        arith,
        at,
        free,
        law.get_free own mark w r k filled free,
        ==_iff own k,
        λ (p : own ≡ k). ap (redis.get r) p,
      )
      | inr (f, there) ↦ law.get_taken own mark w r f k there ∙ at
    ]

    lock-taken :
        (k : Bytes) (w : ℕ) (r : R) (e : Bytes × ℕ)
        → redis.get r k ≡ some e
        → (acquire_lock redis done k w r).1 ≡ some false
    unfolding acquire_lock
    lock-taken k w r e at = ap (λ (b : Bool). some b) (law.taken k mark w r e at)

    lock-acquired :
        (k : Bytes) (w : ℕ) (r : R)
        → 0 < w
        → (acquire_lock redis done k w r).1 ≡ some true
        → redis.get (acquire_lock redis done k w r).0 k ≡ some (mark, w)
    unfolding acquire_lock
    lock-acquired k w r filled passed = elim (Option-cases (redis.get r k)) [
      | inl free ↦ law.get_free k mark w r k filled free ∙ ground (arith, ==_refl k)
      | inr (e, at) ↦ absurd (ground (arith, passed, law.taken k mark w r e at))
    ]

    lock-answers :
        (k : Bytes) (w : ℕ) (r : R)
        → (acquire_lock redis done k w r).1 ≡ some (redis.set_nx k mark w r).1
    unfolding acquire_lock
    lock-answers k w r = refl

    wait-Live :
        (k : Bytes) (d : ℕ) (ds : List ℕ) (r : R) → Live k (r, d ∷ ds) → Live k (redis.wait d r, ds)
    wait-Live k d ds r (v, left, at, outlasts) = (
      v,
      left - d,
      law.get_wait d r k ∙ ap (after d) at ∙ ground (arith, outlasts),
      omega (arith, outlasts),
    )

    same_lock :
        (t : TargetType) (url : String) (r : R)
        → asked t url r ≡ acquire_lock redis done (key url) (window (guard_of ttl category_ttl) t) r
    same_lock t url r =
        check_and_acquire-lock redis hash (guard_of ttl category_ttl) done (bytes url) t r
          (category_ttl-filled ttl category_ttl)

    -- The same for a command of the guard.
    asked-Live :
        (k : Bytes) (t : TargetType) (url : String) (r : R) (ds : List ℕ)
        → Live k (r, ds)
        → Live k ((asked t url r).0, ds)
    asked-Live k t url r ds (v, left, at, outlasts) = rw (same_lock t url r) (
      v,
      left,
      lock-Live k (key url) (window (guard_of ttl category_ttl) t) r (v, left)
          (window-filled ttl category_ttl t) at,
      outlasts,
    )

    pub guard_func-Live :
        (k : Bytes) (t : TargetType) (m : Markers R) (url : String)
        → Live k m
        → Live k (guard_func t m url).0
    guard_func-Live k t (r, []) url live = asked-Live k t url r [] live
    guard_func-Live k t (r, d ∷ ds) url live =
        asked-Live k t url (redis.wait d r) ds (wait-Live k d ds r live)

    asked-taken :
        (t : TargetType) (url : String) (r : R) (ds : List ℕ)
        → Live (key url) (r, ds)
        → (asked t url r).1 ≡ some false
    asked-taken t url r ds (v, left, at, outlasts) =
        rw (same_lock t url r)
          (lock-taken (key url) (window (guard_of ttl category_ttl) t) r (v, left) at)

    pub guard_func-taken :
        (t : TargetType) (m : Markers R) (url : String)
        → Live (key url) m
        → (guard_func t m url).1 ≡ some false
    guard_func-taken t (r, []) url live = asked-taken t url r [] live
    guard_func-taken t (r, d ∷ ds) url live =
        asked-taken t url (redis.wait d r) ds (wait-Live (key url) d ds r live)

    asked-acquired :
        (t : TargetType) (url : String) (r : R) (ds : List ℕ)
        → total ds < window (guard_of ttl category_ttl) t
        → (asked t url r).1 ≡ some true
        → Live (key url) ((asked t url r).0, ds)
    asked-acquired t url r ds short passed =
        let w = window (guard_of ttl category_ttl) t in
        let lock_passed = ap (λ (a : R × Option Bool). a.1) (sym (same_lock t url r)) ∙ passed in
        rw (same_lock t url r) (
          mark,
          w,
          lock-acquired (key url) w r (window-filled ttl category_ttl t) lock_passed,
          short,
        )

    pub guard_func-acquired :
        (t : TargetType) (m : Markers R) (url : String)
        → total m.1 < window (guard_of ttl category_ttl) t
        → (guard_func t m url).1 ≡ some true
        → Live (key url) (guard_func t m url).0
    guard_func-acquired t (r, []) url short passed = asked-acquired t url r [] short passed
    guard_func-acquired t (r, d ∷ ds) url short passed =
        asked-acquired t url (redis.wait d r) ds (omega (arith, short)) passed

    pub guard_func-total :
        (t : TargetType) (m : Markers R) (url : String) → total (guard_func t m url).0.1 ≤ total m.1
    guard_func-total t (r, []) url = omega arith
    guard_func-total t (r, d ∷ ds) url = omega arith

    asked-answers :
        (t : TargetType) (url : String) (r : R) → (b : Bool) × ((asked t url r).1 ≡ some b)
    asked-answers t url r =
        let w = window (guard_of ttl category_ttl) t in
        (
          (redis.set_nx (key url) mark w r).1,
          ap (λ (a : R × Option Bool). a.1) (same_lock t url r) ∙ lock-answers (key url) w r,
        )

    pub guard_func-answers :
        (t : TargetType) (m : Markers R) (url : String)
        → (b : Bool) × ((guard_func t m url).1 ≡ some b)
    guard_func-answers t (r, []) url = asked-answers t url r
    guard_func-answers t (r, d ∷ ds) url = asked-answers t url (redis.wait d r)
