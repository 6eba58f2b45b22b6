-- ===== src/Locks/ProcessingLock/Keys.antt =====
-- The keys of the locks (internal/locks/processing_lock.go, ProcessingKey).
use issue_tracker.Prelude.{
  ℕ, ◌≡◌, refl, ap, [], ◌∷◌, ◌++◌, arith, Bytes, length, length-append, append-inj,
}
use issue_tracker.Locks.ProcessingLock.{processing_lock_key_prefix, url_part, processing_key}

-- Two texts with ends of one length.
append-ends :
    (xs ys us vs : Bytes) → length us ≡ length vs → xs ++ us ≡ ys ++ vs → (xs ≡ ys) × (us ≡ vs)
append-ends [] [] us vs same e = (refl, e)
append-ends [] (y ∷ ys) us vs same e = ground (arith, same, ap length e, length-append ys vs)
append-ends (x ∷ xs) [] us vs same e = ground (arith, same, ap length e, length-append xs us)
append-ends (x ∷ xs) (y ∷ ys) us vs same e =
    let (first, more) = append-ends xs ys us vs same (cc) in (cc, more)

-- Different stages, and URLs with different hashes, have different keys: where all hashes have one length,
-- two keys are equal only for one stage and one hash, whatever the stages are called.
pub processing_key-inj :
    (hash : Bytes → Bytes) (n : ℕ) (s t u v : Bytes)
    → ((x : Bytes) → length (hash x) ≡ n)
    → processing_key hash s u ≡ processing_key hash t v
    → (s ≡ t) × (hash u ≡ hash v)
unfolding processing_key
processing_key-inj hash n s t u v sized e =
    let rest =
      append-inj processing_lock_key_prefix (s ++ (url_part ++ hash u)) (t ++ (url_part ++ hash v))
        e in
    let (stage, tail) =
      append-ends s t (url_part ++ hash u) (url_part ++ hash v) (omega (arith, sized u, sized v))
        rest in
    (stage, append-inj url_part (hash u) (hash v) tail)
