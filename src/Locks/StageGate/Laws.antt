-- ===== src/Locks/StageGate/Laws.antt =====
-- The slots of a stage are never lost and never more than its capacity (internal/locks).
use issue_tracker.Prelude.{
  ℕ, zero, suc, ◌+◌, ◌-◌, ◌≤◌, ◌<◌, ◌≡◌, refl, sym, subst, ◌∙◌, Option-cases, inl, inr, Bool-cases,
  Bool, true, false, some, List, [], ◌∷◌, ◌++◌, if◌then◌else◌, ◌==◌, arith,
}
use issue_tracker.Prelude.Keys.{nat_eq}
use issue_tracker.Locks.StageGate.{
  Weighted, Semaphore, new_semaphore, acquire, release, StageGate, build_stage_gate, lock_failed,
  lock_taken, lock_acquired, locked, swap, release_entry, Step, takes, asks, releases, Steps, start,
  next,
}

-- The entries that are not released.
unfoldable pub open_entries : List Bool → ℕ
open_entries [] = 0
open_entries (true ∷ grants) = open_entries grants
open_entries (false ∷ grants) = open_entries grants + 1

open_entries-append :
    (grants : List Bool) → open_entries (grants ++ false ∷ []) ≡ open_entries grants + 1
unfolding open_entries
open_entries-append [] = refl
open_entries-append (true ∷ grants) = open_entries-append grants
open_entries-append (false ∷ grants) = omega (arith, open_entries-append grants)

open_entries-swap :
    (i : ℕ) (grants : List Bool)
    → open_entries grants ≡ (
        if (swap i grants).1
        then open_entries (swap i grants).0 + 1
        else open_entries (swap i grants).0)
unfolding open_entries swap
open_entries-swap i [] = refl
open_entries-swap zero (true ∷ grants) = refl
open_entries-swap zero (false ∷ grants) = refl
open_entries-swap (suc i) (true ∷ grants) = open_entries-swap i grants
open_entries-swap (suc i) (false ∷ grants) = ground (arith, open_entries-swap i grants)

-- What the library's documentation says of the semaphore: `held` permits are out, at most `size`; it hands
-- one out only while there is one, and takes one back while one is out.
pub record IsWeighted {S : Type 0} (w : Weighted S) (held size : S → ℕ) : Type 0 where
  pub held_new : (n : ℕ) → held (w.new n) ≡ 0
  pub size_new : (n : ℕ) → size (w.new n) ≡ n
  pub acquires :
      (s t : S)
      → w.acquire s ≡ some t
      → (held s < size s) × (held t ≡ held s + 1) × (size t ≡ size s)
  pub gives_back :
      (s : S)
      → 0 < held s
      → (t : S) × ((w.release s ≡ some t) × (held t + 1 ≡ held s) × (size t ≡ size s))

module _ {S : Type 0} (w : Weighted S) (held size : S → ℕ) (law : IsWeighted w held size) where
  -- The slots that are out are those of the workers at the lock and of the open entries.
  record IsBalanced (g : StageGate S) : Type 0 where
    counted : g.sem.in_flight ≡ g.asking + open_entries g.grants
    backed : held g.sem.sem ≡ g.sem.in_flight
    within : held g.sem.sem ≤ size g.sem.sem
    sized : size g.sem.sem ≡ g.sem.capacity
    sound : g.sem.panicked ≡ false

  release-counts :
      (s : Semaphore S)
      → 0 < s.in_flight
      → held s.sem ≡ s.in_flight
      → ((release w s).in_flight + 1 ≡ s.in_flight)
        × (held (release w s).sem + 1 ≡ held s.sem)
        × (size (release w s).sem ≡ size s.sem)
        × ((release w s).panicked ≡ s.panicked)
        × ((release w s).capacity ≡ s.capacity)
  unfolding release
  release-counts s h e =
      let (t, (back, less, same)) = law.gives_back s.sem (omega arith) in
      ground (arith, back, less, same)

  -- A slot that comes back from the lock, or from an entry.
  returned-IsBalanced :
      (g : StageGate S) (asking : ℕ) (grants : List Bool)
      → asking + open_entries grants + 1 ≡ g.asking + open_entries g.grants
      → IsBalanced g
      → IsBalanced (record { sem = release w g.sem; asking = asking; grants = grants })
  returned-IsBalanced g asking grants one b =
      let (counted, permitted, sized, quiet, same) =
        release-counts g.sem (omega (arith, one, b.counted)) b.backed in
      record {
        counted = omega (arith, one, b.counted, counted);
        backed = omega (arith, b.backed, counted, permitted);
        within = omega (arith, b.within, permitted, sized);
        sized = sized ∙ b.sized ∙ sym same;
        sound = quiet ∙ b.sound;
      }

  Step-IsBalanced : (g h : StageGate S) → Step w g h → IsBalanced g → IsBalanced h
  unfolding acquire locked release_entry
  Step-IsBalanced g _ (takes _ sem got) b =
      let (room, more, same) = law.acquires g.sem.sem sem got in
      record {
        counted = omega (arith, b.counted);
        backed = omega (arith, b.backed, more);
        within = omega (arith, room, more, same);
        sized = same ∙ b.sized;
        sound = b.sound;
      }
  Step-IsBalanced g _ (asks _ lock_failed some_ask) b =
      returned-IsBalanced g (g.asking - 1) g.grants (omega (arith, some_ask)) b
  Step-IsBalanced g _ (asks _ lock_taken some_ask) b =
      returned-IsBalanced g (g.asking - 1) g.grants (omega (arith, some_ask)) b
  Step-IsBalanced g _ (asks _ lock_acquired some_ask) b = record {
    counted = omega (arith, b.counted, open_entries-append g.grants, some_ask);
    backed = b.backed;
    within = b.within;
    sized = b.sized;
    sound = b.sound;
  }
  Step-IsBalanced g _ (releases _ i) b = elim (Bool-cases (swap i g.grants).1) [
    | inl won ↦
        rw (won, if◌then◌else◌)
          (returned-IsBalanced g g.asking (swap i g.grants).0
            (ground (arith, won, open_entries-swap i g.grants)) b)
    | inr late ↦ rw (late, if◌then◌else◌) b
  ]

  Steps-IsBalanced : (g h : StageGate S) → Steps w g h → IsBalanced g → IsBalanced h
  Steps-IsBalanced g _ (start _) b = b
  Steps-IsBalanced g h (next _ k _ steps step) b =
      Step-IsBalanced k h step (Steps-IsBalanced g k steps b)

  capacity-release : (s : Semaphore S) → (release w s).capacity ≡ s.capacity
  unfolding release
  capacity-release s = elim (Option-cases (w.release s.sem)) [
    | inl e ↦ ground (arith, e)
    | inr (t, e) ↦ ground (arith, e)
  ]

  capacity-Step : (g h : StageGate S) → Step w g h → h.sem.capacity ≡ g.sem.capacity
  unfolding acquire locked release_entry
  capacity-Step g _ (takes _ sem got) = refl
  capacity-Step g _ (asks _ lock_failed some_ask) = capacity-release g.sem
  capacity-Step g _ (asks _ lock_taken some_ask) = capacity-release g.sem
  capacity-Step g _ (asks _ lock_acquired some_ask) = refl
  capacity-Step g _ (releases _ i) = ground (arith, capacity-release g.sem)

  capacity-Steps : (g h : StageGate S) → Steps w g h → h.sem.capacity ≡ g.sem.capacity
  capacity-Steps g _ (start _) = refl
  capacity-Steps g h (next _ k _ steps step) = capacity-Step k h step ∙ capacity-Steps g k steps

  abbrev idle : ℕ → StageGate S
  idle capacity = record {
    sem = record { sem = w.new capacity; capacity = capacity; in_flight = 0; panicked = false };
    asking = 0;
    grants = [];
  }

  idle-IsBalanced : (capacity : ℕ) → IsBalanced (idle capacity)
  unfolding open_entries
  idle-IsBalanced capacity = record {
    counted = refl;
    backed = law.held_new capacity;
    within = omega (arith, law.held_new capacity);
    sized = law.size_new capacity;
    sound = refl;
  }

  built-idle :
      (capacity : ℕ) (g : StageGate S)
      → build_stage_gate w capacity ≡ some g
      → idle (if capacity == 0 then 1 else capacity) ≡ g
  unfolding build_stage_gate new_semaphore
  built-idle capacity g e = ground arith

  built-IsBalanced :
      (capacity : ℕ) (g : StageGate S)
      → build_stage_gate w capacity ≡ some g
      → IsBalanced g × (g.sem.capacity ≡ (if capacity == 0 then 1 else capacity))
  built-IsBalanced capacity g e =
      let c = if capacity == 0 then 1 else capacity in
      subst (λ (x : StageGate S). IsBalanced x × (x.sem.capacity ≡ c)) (built-idle capacity g e)
        (idle-IsBalanced c, refl)

-- Whatever the workers at a gate do, in whatever order: the slots that are out are as many as the workers
-- that wait for their URL's lock and the entries that are not released; they are at most the capacity of
-- the gate, or one if that is 0; and the library's semaphore never panics.
pub slots_kept :
    {S : Type 0} (w : Weighted S) (held size : S → ℕ) (capacity : ℕ) (g h : StageGate S)
    → IsWeighted w held size
    → build_stage_gate w capacity ≡ some g
    → Steps w g h
    → (h.sem.in_flight ≡ h.asking + open_entries h.grants)
      × (h.sem.in_flight ≤ (if capacity == 0 then 1 else capacity))
      × (h.sem.panicked ≡ false)
slots_kept w held size capacity g h law e steps =
    let (b, same) = built-IsBalanced w held size law capacity g e in
    let c = Steps-IsBalanced w held size law g h steps b in
    (
      c.counted,
      omega (arith, c.within, c.backed, c.sized, capacity-Steps w held size law g h steps, same),
      c.sound,
    )

swap-again : (i : ℕ) (grants : List Bool) → (swap i (swap i grants).0).1 ≡ false
unfolding swap
swap-again i [] = refl
swap-again zero (true ∷ grants) = refl
swap-again zero (false ∷ grants) = refl
swap-again (suc i) (x ∷ grants) = swap-again i grants

-- The function that an entry returned may be called again: the second call changes nothing.
release_entry-again :
    {S : Type 0} (w : Weighted S) (i : ℕ) (g : StageGate S)
    → release_entry w i (release_entry w i g) ≡ release_entry w i g
unfolding release_entry
release_entry-again w i g = ground (arith, swap-again i g.grants)
