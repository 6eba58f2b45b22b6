-- ===== src/Locks/Marker/Window.antt =====
-- How long a marker keeps a URL out (internal/locks/pipeline_guard.go, internal/locks/ingestion_marker.go).
use issue_tracker.Prelude.{
  ℕ, zero, suc, ◌<◌, ◌-◌, ltb, leb, ◌≡◌, refl, ap, ◌∙◌, Bool, true, Option, none, some,
  if◌then◌else◌, ==_refl, arith, Bytes, inl, inr, Bool-cases,
}
use issue_tracker.Prelude.Texts.{bytes_eq}
use issue_tracker.Redis.Expiring.{Expiring, IsExpiring, after}
use issue_tracker.Bus.Messages.{TargetType}
use issue_tracker.Redis.{Fate, done}
use issue_tracker.Locks.Marker.{
  ingestion_key, default_category_ttl, default_ingestion_mark_ttl, mark, acquire_lock, release_lock,
  or_default, new_redis_ingestion_marker, acquire, acquire_with_ttl, invalidate, PipelineGuard,
  new_pipeline_guard, check_and_acquire, release,
}

-- The time that a marker of a target lasts.
unfoldable pub window : PipelineGuard → TargetType → ℕ
window g TargetType.category = g.category_ttl
window g TargetType.article = g.lock.ttl
window g TargetType.sitemap = g.lock.ttl
window g TargetType.search_results = g.lock.ttl

or_default-filled : (default ttl : ℕ) → 0 < default → 0 < or_default default ttl
unfolding or_default
or_default-filled default zero h = h
or_default-filled default (suc ttl) h = omega arith

-- The guard of some configuration.
abbrev pub guard_of : ℕ → ℕ → PipelineGuard
guard_of ttl category_ttl = new_pipeline_guard (new_redis_ingestion_marker ttl) category_ttl

pub window-filled :
    (ttl category_ttl : ℕ) (t : TargetType) → 0 < window (guard_of ttl category_ttl) t
unfolding window new_pipeline_guard new_redis_ingestion_marker
window-filled ttl category_ttl TargetType.category =
    or_default-filled default_category_ttl category_ttl (omega arith)
window-filled ttl category_ttl TargetType.article =
    or_default-filled default_ingestion_mark_ttl ttl (omega arith)
window-filled ttl category_ttl TargetType.sitemap =
    or_default-filled default_ingestion_mark_ttl ttl (omega arith)
window-filled ttl category_ttl TargetType.search_results =
    or_default-filled default_ingestion_mark_ttl ttl (omega arith)

or_default-same : (default ttl : ℕ) → 0 < ttl → or_default default ttl ≡ ttl
unfolding or_default
or_default-same default zero h = omega (arith, h)
or_default-same default (suc ttl) h = refl

module _ {R : Type 0} (redis : Expiring R) (hash : Bytes → Bytes) where
  pub check_and_acquire-lock :
      (g : PipelineGuard) (fate : Fate) (url : Bytes) (t : TargetType) (r : R)
      → 0 < g.category_ttl
      → check_and_acquire redis hash g fate url t r
        ≡ acquire_lock redis fate (ingestion_key hash url) (window g t) r
  unfolding check_and_acquire window acquire acquire_with_ttl
  check_and_acquire-lock g fate url TargetType.category r h =
      ap (λ (n : ℕ). acquire_lock redis fate (ingestion_key hash url) n r)
        (or_default-same g.lock.ttl g.category_ttl h)
  check_and_acquire-lock g fate url TargetType.article r h = refl
  check_and_acquire-lock g fate url TargetType.sitemap r h = refl
  check_and_acquire-lock g fate url TargetType.search_results r h = refl

  acquire_lock-free :
      (law : IsExpiring redis) (key : Bytes) (ttl : ℕ) (r : R)
      → redis.get r key ≡ none
      → (acquire_lock redis done key ttl r).1 ≡ some true
  unfolding acquire_lock
  acquire_lock-free law key ttl r e = ap (λ (b : Bool). some b) (law.free key mark ttl r e)

  -- The answer to a check some time after one that passed.
  later-check :
      (law : IsExpiring redis) (key : Bytes) (ttl other d : ℕ) (r : R)
      → 0 < ttl
      → redis.get r key ≡ none
      → (acquire_lock redis done key other (redis.wait d (acquire_lock redis done key ttl r).0)).1
        ≡ some (leb ttl d)
  unfolding acquire_lock
  later-check law key ttl other d r filled free =
      let r1 = (redis.set_nx key mark ttl r).0 in
      let marked : redis.get r1 key ≡ some (mark, ttl) =
        ground (arith, law.get_free key mark ttl r key filled free, ==_refl key) in
      let left : redis.get (redis.wait d r1) key
          ≡ (if ltb d ttl then some (mark, ttl - d) else none) =
        law.get_wait d r1 key ∙ ap (after d) marked in
      elim (Bool-cases (ltb d ttl)) [
        | inl early ↦
            ap (λ (b : Bool). some b)
              (law.taken key mark other (redis.wait d r1) (mark, ttl - d)
                (ground (arith, left, early)))
            ∙ ground (arith, early)
        | inr over ↦
            ap (λ (b : Bool). some b)
              (law.free key mark other (redis.wait d r1) (ground (arith, left, over)))
            ∙ ground (arith, over)
      ]

  released-check :
      (law : IsExpiring redis) (key : Bytes) (ttl : ℕ) (r : R)
      → (acquire_lock redis done key ttl (release_lock redis done key r).0).1 ≡ some true
  unfolding acquire_lock release_lock
  released-check law key ttl r =
      ap (λ (b : Bool). some b)
        (law.free key mark ttl (redis.del key r)
          (ground (arith, law.get_del key r key, ==_refl key)))

pub category_ttl-filled : (ttl category_ttl : ℕ) → 0 < (guard_of ttl category_ttl).category_ttl
unfolding new_pipeline_guard
category_ttl-filled ttl category_ttl =
    or_default-filled default_category_ttl category_ttl (omega arith)

-- A URL whose check passed is kept out for just the time of its target type, also by checks for another
-- type: a check at a time `d` later passes exactly if the time is over, and one after a release passes at
-- once. The time is the guard's configured one, or its default where none is given.
pub check_and_acquire-window :
    {R : Type 0} (redis : Expiring R) (hash : Bytes → Bytes) (ttl category_ttl : ℕ) (url : Bytes)
    (t u : TargetType) (d : ℕ) (r : R)
    → IsExpiring redis
    → redis.get r (ingestion_key hash url) ≡ none
    → let g = guard_of ttl category_ttl in
      let first = check_and_acquire redis hash g done url t r in
      (first.1 ≡ some true)
      × ((check_and_acquire redis hash g done url u (redis.wait d first.0)).1
          ≡ some (leb (window g t) d))
      × ((check_and_acquire redis hash g done url u
            (release redis hash g done url (redis.wait d first.0)).0).1
          ≡ some true)
check_and_acquire-window {R = R} redis hash ttl category_ttl url t u d r law free =
    let g = guard_of ttl category_ttl in
    let key = ingestion_key hash url in
    let filled = category_ttl-filled ttl category_ttl in
    let w = window-filled ttl category_ttl t in
    let same =
      λ (v : TargetType) (x : R). check_and_acquire-lock redis hash g done url v x filled in
    rw (same t r) (
      acquire_lock-free redis hash law key (window g t) r free,
      ap (λ (p : R × Option Bool). p.1)
            (same u (redis.wait d (acquire_lock redis done key (window g t) r).0))
          ∙ later-check redis hash law key (window g t) (window g u) d r w free,
      ap (λ (p : R × Option Bool). p.1)
            (same u
              (release redis hash g done url
                (redis.wait d (acquire_lock redis done key (window g t) r).0)).0)
          ∙ unfold release invalidate in
            released-check redis hash law key (window g u)
              (redis.wait d (acquire_lock redis done key (window g t) r).0),
    )
