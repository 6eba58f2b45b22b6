-- ===== src/Bus/SeenCache/Growth.antt =====
-- How the order of the cache grows (internal/bus/seen_cache.go).
use issue_tracker.Prelude.{
  ℕ, zero, suc, ◌+◌, ◌<◌, ◌≡◌, refl, ap, subst, ◌∙◌, some, String, List, [], ◌∷◌, ◌++◌, length,
  replicate, ==_refl, arith, lookup, insert, erase,
}
use issue_tracker.Prelude.Keys.{string_eq, nat_eq}
use issue_tracker.Bus.SeenCache.{
  SeenCache, new_seen_cache, has_in, add_in, known, evict, compact, compacted, ordered,
}
use issue_tracker.Bus.SeenCache.Runs.{new-empty, Call, asks, adds, run, step}

-- Each time the URL has just expired, it is asked for and added again.
unfoldable pub rounds : String → ℕ → ℕ → ℕ → List Call
rounds url ttl t zero = []
rounds url ttl t (suc n) = asks url (t + ttl) ∷ adds url (t + ttl) ∷ rounds url ttl (t + ttl) n

module _ (url : String) where
  abbrev holding : ℕ → ℕ → ℕ → ℕ → SeenCache
  holding size ttl t n = record {
    ttl = ttl;
    max_size = size;
    entries = (url, t) ∷ [];
    order = replicate n url;
  }

  compact-replicate : (t n : ℕ) → compact ((url, t) ∷ []) (replicate n url) ≡ replicate n url
  unfolding compact known lookup
  compact-replicate t zero = refl
  compact-replicate t (suc n) = ground (arith, compact-replicate t n, ==_refl url)

  replicate-suc : (n : ℕ) → replicate n url ++ url ∷ [] ≡ replicate (suc n) url
  replicate-suc zero = refl
  replicate-suc (suc n) = ap (λ (l : List String). url ∷ l) (replicate-suc n)

  evict-one :
      (size t : ℕ) (order : List String)
      → 0 < size
      → evict size ((url, t) ∷ []) order ≡ ((url, t) ∷ [], order)
  unfolding evict
  evict-one size t [] pos = refl
  evict-one size t (o ∷ order) pos = ground arith

  has_in-expired :
      (size ttl t n : ℕ)
      → (has_in (holding size ttl t n) url (t + ttl)).0
        ≡ record { ttl = ttl; max_size = size; entries = []; order = replicate n url }
  unfolding has_in lookup erase
  has_in-expired size ttl t n = ground (arith, ==_refl url)

  add_in-again :
      (size ttl now n : ℕ)
      → 0 < size
      → add_in
          (record { ttl = ttl; max_size = size; entries = []; order = replicate n url })
          url
          now
        ≡ holding size ttl now (suc n)
  unfolding add_in ordered compacted lookup insert known erase
  add_in-again size ttl now n pos = ground (
    arith,
    evict-one size now (replicate n url ++ url ∷ []) pos,
    replicate-suc n,
    compact-replicate now (suc n),
  )

  run-rounds :
      (n size ttl t m : ℕ)
      → 0 < size
      → (k : ℕ) × (run (holding size ttl t (suc m)) (rounds url ttl t n)
          ≡ holding size ttl k (suc (n + m)))
  unfolding run rounds step
  run-rounds zero size ttl t m pos = (t, ap (λ (x : ℕ). holding size ttl t (suc x)) (omega arith))
  run-rounds (suc n) size ttl t m pos =
      let (k, e) = run-rounds n size ttl (t + ttl) (suc m) pos in
      (
        k,
        ap (λ (c : SeenCache). run c (rounds url ttl (t + ttl) n))
              (ap (λ (c : SeenCache). add_in c url (t + ttl)) (has_in-expired size ttl t (suc m))
                ∙ add_in-again size ttl (t + ttl) (suc m) pos)
            ∙ e
            ∙ ap (λ (x : ℕ). holding size ttl k (suc x)) (omega arith),
      )

  length-replicate : (n : ℕ) → length (replicate n url) ≡ n
  length-replicate zero = refl
  length-replicate (suc n) = ap suc (length-replicate n)

-- The order of a cache with a size has no bound: if one URL is asked for and added again each time it
-- has just expired, `n` times after it was first added, the cache holds that one URL and its order has
-- `n + 1` items.
pub order_grows :
    (size ttl : ℕ) (c : SeenCache) (url : String) (t n : ℕ)
    → 0 < size
    → new_seen_cache size ttl ≡ some c
    → let c' = run c (adds url t ∷ rounds url ttl t n) in
      (length c'.entries ≡ 1) × (length c'.order ≡ n + 1)
unfolding run step
order_grows size ttl c url t n pos e =
    let (k, p) = run-rounds url n size ttl t 0 pos in
    let q =
      subst
        (λ (d : SeenCache).
          run d (adds url t ∷ rounds url ttl t n) ≡ holding url size ttl k (suc (n + 0)))
        (new-empty size ttl c pos e)
        (ap (λ (d : SeenCache). run d (rounds url ttl t n)) (add_in-again url size ttl t 0 pos)
          ∙ p) in
    (
      ap (λ (d : SeenCache). length d.entries) q,
      ap (λ (d : SeenCache). length d.order) q ∙ length-replicate url (suc (n + 0)) ∙ omega arith,
    )
