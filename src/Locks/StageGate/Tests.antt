-- ===== src/Locks/StageGate/Tests.antt =====
-- Runs of the gate (internal/locks).
use issue_tracker.Prelude.{
  ℕ, ◌+◌, ◌-◌, ltb, if◌then◌else◌, ◌==◌, ◌≤◌, ◌≡◌, refl, false, none, some, [], ◌∷◌, arith,
}
use issue_tracker.Prelude.Keys.{nat_eq}
use issue_tracker.Locks.StageGate.{
  Weighted, new_semaphore, acquire, release, StageGate, build_stage_gate, lock_taken, lock_acquired,
  locked, swap, release_entry, Steps, start, next, takes, asks,
}
use issue_tracker.Locks.StageGate.Laws.{IsWeighted, open_entries, slots_kept}

-- The permits that are out, and how many there are.
abbrev counter : Weighted (ℕ × ℕ)
counter = record {
  new = λ n. (0, n);
  acquire = λ s. if ltb s.0 s.1 then some (s.0 + 1, s.1) else none;
  release = λ s. if s.0 == 0 then none else some (s.0 - 1, s.1);
}

counter-IsWeighted : IsWeighted counter (λ s. s.0) (λ s. s.1)
counter-IsWeighted = record {
  held_new = λ n. refl;
  size_new = λ n. refl;
  acquires = λ s t e. ground arith;
  gives_back = λ s h. ((s.0 - 1, s.1), (ground arith, ground arith, refl));
}

abbrev gate : StageGate (ℕ × ℕ)
gate = record {
  sem = record { sem = (0, 2); capacity = 2; in_flight = 0; panicked = false };
  asking = 0;
  grants = [];
}

abbrev two_asking : StageGate (ℕ × ℕ)
two_asking = record {
  sem = record { sem = (2, 2); capacity = 2; in_flight = 2; panicked = false };
  asking = 2;
  grants = [];
}

abbrev one_in : StageGate (ℕ × ℕ)
one_in = record {
  sem = record { sem = (1, 2); capacity = 2; in_flight = 1; panicked = false };
  asking = 0;
  grants = false ∷ [];
}

-- Two workers get a slot; one finds its URL taken, the other enters.
abbrev steps : Steps counter gate one_in
unfolding acquire locked release
steps =
    next gate (locked counter two_asking lock_taken) one_in
      (next gate two_asking (locked counter two_asking lock_taken)
        (next gate (record gate { sem = acquire gate.sem (1, 2); asking = 1 }) two_asking
          (next gate gate (record gate { sem = acquire gate.sem (1, 2); asking = 1 }) (start gate)
            (takes gate (1, 2) refl))
          (takes (record gate { sem = acquire gate.sem (1, 2); asking = 1 }) (2, 2) refl))
        (asks two_asking lock_taken (omega arith)))
      (asks (locked counter two_asking lock_taken) lock_acquired (omega arith))

slots_kept_example :
    (one_in.sem.in_flight ≡ one_in.asking + open_entries one_in.grants)
    × (one_in.sem.in_flight ≤ 2)
    × (one_in.sem.panicked ≡ false)
unfolding build_stage_gate new_semaphore
slots_kept_example =
    slots_kept counter (λ s. s.0) (λ s. s.1) 2 gate one_in counter-IsWeighted refl steps

release_entry-one_in : (release_entry counter 0 one_in).sem.in_flight ≡ 0
unfolding release_entry swap release
release_entry-one_in = refl
