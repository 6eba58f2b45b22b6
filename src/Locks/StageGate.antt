-- ===== src/Locks/StageGate.antt =====
-- internal/locks/semaphore.go and stage_gate.go: the slots of a stage. Any number of workers pass the
-- gate at the same time; each step that they can see is a step here, so that an order of steps is an
-- interleaving. What the lock of a URL answers is an input, and the weighted semaphore of x/sync is a
-- parameter. Log lines, metrics and the release of the URL's lock, whose error is only logged, are left
-- out.

mod Laws
mod Tests
use issue_tracker.Prelude.{
  ℕ, zero, suc, ◌+◌, ◌-◌, ◌<◌, ◌≡◌, Bool, true, false, Option, none, some, List, [], ◌∷◌, ◌++◌,
  if◌then◌else◌, ◌==◌,
}
use issue_tracker.Prelude.Keys.{nat_eq}

-- `semaphore.Weighted` of x/sync with weight 1: `acquire` answers `none` while it waits, and `release`
-- where it panics.
pub record Weighted (S : Type 0) : Type 0 where
  pub new : ℕ → S
  pub acquire : S → Option S
  pub release : S → Option S

-- `weightedSemaphore`, and whether the library has panicked.
pub record Semaphore (S : Type 0) : Type 0 where
  pub sem : S
  pub capacity : ℕ
  pub in_flight : ℕ
  pub panicked : Bool

unfoldable pub new_semaphore : {S : Type 0} → Weighted S → ℕ → Option (Semaphore S)
new_semaphore w capacity =
    if capacity == 0
    then none
    else some
        (record { sem = w.new capacity; capacity = capacity; in_flight = 0; panicked = false })

-- `Acquire` that has got its permit.
unfoldable pub acquire : {S : Type 0} → Semaphore S → S → Semaphore S
acquire s sem = record s { sem = sem; in_flight = s.in_flight + 1 }

unfoldable pub released : {S : Type 0} → Semaphore S → Option S → Semaphore S
released s none = record s { panicked = true }
released s (some sem) = record s { sem = sem }

unfoldable pub release : {S : Type 0} → Weighted S → Semaphore S → Semaphore S
unfolding released
release w s =
    if s.in_flight == 0
    then s
    else released (record s { in_flight = s.in_flight - 1 }) (w.release s.sem)

-- `stageGate` with its semaphore, the workers that have a slot and wait for their URL's lock, and of each
-- entry that was granted whether its `released` is set.
pub record StageGate (S : Type 0) : Type 0 where
  pub sem : Semaphore S
  pub asking : ℕ
  pub grants : List Bool

new_gate : {S : Type 0} → Option (Semaphore S) → Option (StageGate S)
new_gate none = none
new_gate (some sem) = some (record { sem = sem; asking = 0; grants = [] })

-- A capacity below 1 counts as 1.
unfoldable pub build_stage_gate : {S : Type 0} → Weighted S → ℕ → Option (StageGate S)
unfolding new_gate
build_stage_gate w capacity = new_gate (new_semaphore w (if capacity == 0 then 1 else capacity))

-- What the lock of the URL answers.
pub data LockAnswer : Type 0 where
  lock_failed lock_taken lock_acquired : LockAnswer

-- `Acquire` behind the semaphore: the slot goes back unless the lock is acquired.
unfoldable pub locked : {S : Type 0} → Weighted S → StageGate S → LockAnswer → StageGate S
locked w g lock_failed = record g { sem = release w g.sem; asking = g.asking - 1 }
locked w g lock_taken = record g { sem = release w g.sem; asking = g.asking - 1 }
locked w g lock_acquired = record g { asking = g.asking - 1; grants = g.grants ++ false ∷ [] }

-- `CompareAndSwap` of the entry's `released`, and whether it has swapped.
unfoldable pub swap : ℕ → List Bool → List Bool × Bool
swap i [] = ([], false)
swap zero (true ∷ grants) = (true ∷ grants, false)
swap zero (false ∷ grants) = (true ∷ grants, true)
swap (suc i) (released ∷ grants) = let (grants', won) = swap i grants in (released ∷ grants', won)

-- The function that `Acquire` has returned for the `i`th entry.
unfoldable pub release_entry : {S : Type 0} → Weighted S → ℕ → StageGate S → StageGate S
release_entry w i g =
    let (grants, won) = swap i g.grants in
    if won then record g { sem = release w g.sem; grants = grants } else g

-- The steps of the workers. A worker whose context ends while it waits for a slot changes nothing.
pub data Step {S : Type 0} (w : Weighted S) : StageGate S → StageGate S → Type 0 where
  takes :
      (g : StageGate S) (sem : S)
      → w.acquire g.sem.sem ≡ some sem
      → Step w g (record g { sem = acquire g.sem sem; asking = g.asking + 1 })
  asks : (g : StageGate S) (answer : LockAnswer) → 0 < g.asking → Step w g (locked w g answer)
  releases : (g : StageGate S) (i : ℕ) → Step w g (release_entry w i g)

pub data Steps {S : Type 0} (w : Weighted S) : StageGate S → StageGate S → Type 0 where
  start : (g : StageGate S) → Steps w g g
  next : (g h k : StageGate S) → Steps w g h → Step w h k → Steps w g k
