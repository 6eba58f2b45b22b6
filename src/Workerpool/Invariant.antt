-- ===== src/Workerpool/Invariant.antt =====
-- What holds of a pool at every time (internal/workerpool/pool.go).
use issue_tracker.Prelude.{
  ℕ, ◌+◌, ◌*◌, ◌≤◌, ◌≡◌, ◌⊎◌, inl, refl, Bool, true, false, List, [], ◌∷◌, ◌++◌, if◌then◌else◌,
  arith, length,
}
use issue_tracker.Workerpool.{
  Poll, fetching, sending, ended, Stop, running, waiting, draining, stopped, ConsumerPool, new,
}

module _ {M : Type 0} (is : M → Bool) where
  one_if : Bool → ℕ
  one_if true = 1
  one_if false = 0

  -- The messages among those that satisfy the test.
  unfoldable pub count : List M → ℕ
  unfolding one_if
  count [] = 0
  count (x ∷ xs) = one_if (is x) + count xs

  pub count-append : (xs ys : List M) → count (xs ++ ys) ≡ count xs + count ys
  unfolding count
  count-append [] ys = omega arith
  count-append (x ∷ xs) ys = omega (arith, count-append xs ys)

  unfoldable pub held : Poll M → ℕ
  unfolding one_if
  held fetching = 0
  held (sending m) = one_if (is m)
  held ended = 0

  abbrev pub Accounted : ConsumerPool M → Type 0
  Accounted p =
      count p.fetched
      ≡ held p.poll + count p.jobs + count p.busy + count p.handled + count p.dropped

pub closed_apart : (b : Bool) → b ≡ false → b ≡ true → ⊥
closed_apart b e f = ground (arith, e, f)

-- The channel is open before `close`.
abbrev pub Open : Stop → Bool → Type 0
Open running closed = closed ≡ false
Open waiting closed = closed ≡ false
Open draining closed = Unit
Open (stopped ok) closed = Unit

module _ {M : Type 0} where
  -- From the closing of the channel on `poll` has ended, and a pool that was drained is empty.
  abbrev pub Finished : Stop → Poll M → List M → List M → Type 0
  Finished running poll jobs busy = Unit
  Finished waiting poll jobs busy = Unit
  Finished draining poll jobs busy = poll ≡ ended
  Finished (stopped false) poll jobs busy = poll ≡ ended
  Finished (stopped true) poll jobs busy = (poll ≡ ended) × (jobs ≡ []) × (busy ≡ [])

  -- What every step keeps.
  pub record IsValid (p : ConsumerPool M) : Type 0 where
    pub calm : p.panicked ≡ false
    pub room : length p.jobs ≤ p.worker_count * 2
    pub workers : length p.busy ≤ p.worker_count
    pub open_before : Open p.stop p.closed
    pub finished : Finished p.stop p.poll p.jobs p.busy
    pub given_up : (p.dropped ≡ []) ⊎ ((length p.dropped ≡ 1) × (p.poll ≡ ended))
    pub accounted : (is : M → Bool) → Accounted is p

  pub new-IsValid : (n : ℕ) → IsValid (new n)
  unfolding new count held
  new-IsValid n = record {
    calm = refl;
    room = omega arith;
    workers = omega arith;
    open_before = refl;
    finished = tt;
    given_up = inl refl;
    accounted = λ is. omega arith;
  }

  pub if-IsValid :
      (b : Bool) (p q : ConsumerPool M)
      → (b ≡ true → IsValid p)
      → (b ≡ false → IsValid q)
      → IsValid (if b then p else q)
  if-IsValid true p q h k = h refl
  if-IsValid false p q h k = k refl
