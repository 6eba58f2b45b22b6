-- ===== src/Workerpool/Runs.antt =====
-- What holds after every run of a pool (internal/workerpool/pool.go).
use issue_tracker.Prelude.{
  ℕ, ◌+◌, ◌*◌, ◌≤◌, ◌≡◌, inl, inr, refl, ap, subst, Bool, true, false, List, [], ◌∷◌, arith, length,
}
use issue_tracker.Workerpool.{
  Stop, stopped, ConsumerPool, new, Action, fetches, fetch_fails, sends, gives_up, takes, finishes,
  context_ends, stops, polled, drained, times_out, pick, step, run,
}
use issue_tracker.Workerpool.Invariant.{count, held, Accounted, Finished, IsValid, new-IsValid}
use issue_tracker.Workerpool.Polling.{
  fetch-IsValid, fetch_fail-IsValid, send-IsValid, give_up-IsValid,
}
use issue_tracker.Workerpool.Working.{
  take_job-IsValid, finish-IsValid, begin_stop-IsValid, close_jobs-IsValid, drain-IsValid,
  time_out-IsValid,
}

module _ {M : Type 0} where
  context_ends-IsValid : (p : ConsumerPool M) → IsValid p → IsValid (record p { cancelled = true })
  context_ends-IsValid p v = record {
    calm = v.calm;
    room = v.room;
    workers = v.workers;
    open_before = v.open_before;
    finished = v.finished;
    given_up = v.given_up;
    accounted = v.accounted;
  }

  step-IsValid : (a : Action M) (p : ConsumerPool M) → IsValid p → IsValid (step a p)
  unfolding step
  step-IsValid (fetches m) p v = fetch-IsValid m p.poll p refl v
  step-IsValid fetch_fails p v = fetch_fail-IsValid p.poll p refl v
  step-IsValid sends p v = send-IsValid p.poll p refl v
  step-IsValid gives_up p v = give_up-IsValid p.poll p refl v
  step-IsValid takes p v = take_job-IsValid p.jobs p refl v
  step-IsValid (finishes n) p v = finish-IsValid n (pick n p.busy) p refl v
  step-IsValid context_ends p v = context_ends-IsValid p v
  step-IsValid stops p v = begin_stop-IsValid p.stop p refl v
  step-IsValid polled p v = close_jobs-IsValid p.stop p.poll p refl refl v
  step-IsValid drained p v = drain-IsValid p.stop p.jobs p.busy p refl refl refl v
  step-IsValid times_out p v = time_out-IsValid p.stop p refl v

  kept : (actions : List (Action M)) (p : ConsumerPool M) → IsValid p → IsValid (run actions p)
  unfolding run
  kept [] p v = v
  kept (a ∷ actions) p v = kept actions (step a p) (step-IsValid a p v)

-- A pool never loses or doubles a message, and never sends on its closed channel. In every run, whatever the
-- order of its goroutines: there was no panic; the channel holds at most two messages a worker, and no more
-- messages are handled at a time than there are workers; and the messages that were fetched are, each as
-- often as it was fetched, those at the send, in the channel, at a worker, handled, or given up.
pub run-Accounted :
    {M : Type 0} (n : ℕ) (actions : List (Action M)) (is : M → Bool)
    → let p = run actions (new n) in
      (p.panicked ≡ false)
      × (length p.jobs ≤ p.worker_count * 2)
      × (length p.busy ≤ p.worker_count)
      × Accounted is p
run-Accounted n actions is =
    let v = kept actions (new n) (new-IsValid n) in (v.calm, v.room, v.workers, v.accounted is)

-- A graceful stop handles what was fetched: when `Stop` has returned without its timeout, every message is
-- handled as often as it was fetched, but for one at most, which `poll` gave up when it was cancelled.
pub run-drained :
    {M : Type 0} (n : ℕ) (actions : List (Action M)) (is : M → Bool)
    → (run actions (new n)).stop ≡ stopped true
    → let p = run actions (new n) in
      (count is p.fetched ≡ count is p.handled + count is p.dropped) × (length p.dropped ≤ 1)
unfolding count held
run-drained n actions is e =
    let p = run actions (new n) in
    let v = kept actions (new n) (new-IsValid n) in
    let (done, no_jobs, no_busy) =
      subst (λ (s : Stop). Finished s p.poll p.jobs p.busy) e v.finished in
    (
      omega
          (arith, v.accounted is, ap (held is) done, ap (count is) no_jobs, ap (count is) no_busy),
      elim v.given_up [ inl h ↦ omega (arith, ap length h) | inr (h, k) ↦ omega (arith, h) ],
    )
