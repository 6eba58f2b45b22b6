-- ===== src/Redis/Expiring/Memory.antt =====
-- Keys that expire on an association list: an implementation that meets the interface's laws.
use issue_tracker.Prelude.{
  ℕ, ◌+◌, ◌-◌, ltb, ◌≡◌, ◌<◌, refl, inl, inr, ap, ◌∙◌, Bool-cases, Bool, true, false, Option, none,
  some, if◌then◌else◌, ◌==◌, arith, Bytes, AssocList, lookup, insert, erase, lookup-insert,
  lookup-erase,
}
use issue_tracker.Prelude.Texts.{bytes_eq}
use issue_tracker.Redis.Expiring.{Expiring, IsExpiring, after}

-- The keys with the times at which they end, and the clock.
pub record Keys : Type 0 where
  pub entries : AssocList Bytes (Bytes × ℕ)
  pub now : ℕ

unfoldable pub live : ℕ → Option (Bytes × ℕ) → Option (Bytes × ℕ)
live now none = none
live now (some (v, until)) = if ltb now until then some (v, until - now) else none

set_if : Bytes → Bytes → ℕ → Keys → Option (Bytes × ℕ) → Keys × Bool
set_if k v ttl r none = (record r { entries = insert k (v, r.now + ttl) r.entries }, true)
set_if k v ttl r (some e) = (r, false)

unfoldable pub keys : Expiring Keys
unfolding live set_if
keys = record {
  get = λ r k. live r.now (lookup k r.entries);
  set_nx = λ k v ttl r. set_if k v ttl r (live r.now (lookup k r.entries));
  del = λ k r. record r { entries = erase k r.entries };
  wait = λ d r. record r { now = r.now + d };
}

module _ (k v : Bytes) (ttl : ℕ) (r : Keys) where
  set_if-free : (o : Option (Bytes × ℕ)) → o ≡ none → (set_if k v ttl r o).1 ≡ true
  unfolding set_if
  set_if-free none e = refl
  set_if-free (some x) e = ground arith

  live-set_if :
      (o : Option (Bytes × ℕ)) (j : Bytes)
      → 0 < ttl
      → o ≡ none
      → live r.now (lookup j (set_if k v ttl r o).0.entries)
        ≡ (if k == j then some (v, ttl) else live r.now (lookup j r.entries))
  unfolding set_if live
  live-set_if none j filled e = elim (Bool-cases (k == j)) [
    | inl here ↦
        rw (lookup-insert k j (v, r.now + ttl) r.entries, here, if◌then◌else◌)
          (ground (arith, filled))
    | inr away ↦ rw (lookup-insert k j (v, r.now + ttl) r.entries, away, if◌then◌else◌) refl
  ]
  live-set_if (some x) j filled e = ground arith

  set_if-taken :
      (o : Option (Bytes × ℕ)) (e : Bytes × ℕ) → o ≡ some e → set_if k v ttl r o ≡ (r, false)
  unfolding set_if
  set_if-taken none e h = ground arith
  set_if-taken (some x) e h = refl

now-set_if :
    (k v : Bytes) (ttl : ℕ) (r : Keys) (o : Option (Bytes × ℕ)) → (set_if k v ttl r o).0.now ≡ r.now
unfolding set_if
now-set_if k v ttl r none = refl
now-set_if k v ttl r (some e) = refl

live-erase :
    (k j : Bytes) (now : ℕ) (m : AssocList Bytes (Bytes × ℕ))
    → live now (lookup j (erase k m)) ≡ (if k == j then none else live now (lookup j m))
unfolding live
live-erase k j now m = elim (Bool-cases (k == j)) [
  | inl e ↦ rw (lookup-erase k j m, e, if◌then◌else◌) refl
  | inr e ↦ rw (lookup-erase k j m, e, if◌then◌else◌) refl
]

live-wait : (now d : ℕ) (o : Option (Bytes × ℕ)) → live (now + d) o ≡ after d (live now o)
unfolding live
live-wait now d none = refl
live-wait now d (some (v, until)) = elim (Bool-cases (ltb now until)) [
  | inl e ↦ elim (Bool-cases (ltb (now + d) until)) [
    | inl f ↦ ground (arith, e, f)
    | inr f ↦ ground (arith, e, f)
  ]
  | inr e ↦ ground (arith, e)
]

pub keys-IsExpiring : IsExpiring keys
unfolding keys
keys-IsExpiring = record {
  free = λ k v ttl r e. set_if-free k v ttl r (live r.now (lookup k r.entries)) e;
  get_free = λ k v ttl r j filled e.
      let o = live r.now (lookup k r.entries) in
      ap (λ (n : ℕ). live n (lookup j (set_if k v ttl r o).0.entries)) (now-set_if k v ttl r o)
      ∙ live-set_if k v ttl r o j filled e;
  taken = λ k v ttl r e h.
      ap (λ (p : Keys × Bool). p.1) (set_if-taken k v ttl r (live r.now (lookup k r.entries)) e h);
  get_taken = λ k v ttl r e j h.
      ap (λ (p : Keys × Bool). live p.0.now (lookup j p.0.entries))
        (set_if-taken k v ttl r (live r.now (lookup k r.entries)) e h);
  get_del = λ k r j. live-erase k j r.now r.entries;
  get_wait = λ d r k. live-wait r.now d (lookup k r.entries);
}
