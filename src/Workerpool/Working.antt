-- ===== src/Workerpool/Working.antt =====
-- The steps of the workers and of `Stop` keep the invariant (internal/workerpool/pool.go).
use issue_tracker.Prelude.{
  ℕ, zero, suc, ◌≡◌, ap, subst, Bool, true, false, Option, none, some, List, [], ◌∷◌, ltb, arith,
  length,
}
use issue_tracker.Workerpool.{
  Poll, fetching, sending, ended, Stop, running, waiting, draining, stopped, ConsumerPool, take_job,
  behind_first, pick, finish, begin_stop, close_jobs, drain, time_out,
}
use issue_tracker.Workerpool.Invariant.{count, Open, Finished, IsValid, if-IsValid}

module _ {M : Type 0} where
  -- A pool with a job, or with a busy worker, was not drained.
  not_empty :
      (s : Stop) (poll : Poll M) (jobs busy : List M) (m : M) (rest : List M)
      → jobs ≡ m ∷ rest
      → Finished s poll jobs busy
      → Finished s poll rest (m ∷ busy)
  not_empty running poll jobs busy m rest e f = tt
  not_empty waiting poll jobs busy m rest e f = tt
  not_empty draining poll jobs busy m rest e f = f
  not_empty (stopped false) poll jobs busy m rest e f = f
  not_empty (stopped true) poll jobs busy m rest e (f, g, h) = ground (arith, e, g)

  some_busy :
      (s : Stop) (poll : Poll M) (jobs busy rest : List M)
      → length busy ≡ suc (length rest)
      → Finished s poll jobs busy
      → Finished s poll jobs rest
  some_busy running poll jobs busy rest e f = tt
  some_busy waiting poll jobs busy rest e f = tt
  some_busy draining poll jobs busy rest e f = f
  some_busy (stopped false) poll jobs busy rest e f = f
  some_busy (stopped true) poll jobs busy rest e (f, g, h) =
      let impossible : ⊥ = omega (arith, e, ap length h) in elim impossible [ ]

  behind_first-some :
      (x : M) (o : Option (M × List M)) (m : M) (rest : List M)
      → behind_first x o ≡ some (m, rest)
      → (ys : List M) × (o ≡ some (m, ys)) × (rest ≡ x ∷ ys)
  unfolding behind_first
  behind_first-some x none m rest e = ground arith
  behind_first-some x (some (y, ys)) m rest e = (ys, cc, cc)

  first-same :
      (x m : M) (xs rest : List M)
      → ◌≡◌ {A = Option (M × List M)} (some (x, xs)) (some (m, rest))
      → x ∷ xs ≡ m ∷ rest
  first-same x m xs rest e = cc

  pick-count :
      (n : ℕ) (xs : List M) (m : M) (rest : List M)
      → pick n xs ≡ some (m, rest)
      → (length xs ≡ suc (length rest)) × ((is : M → Bool) → count is xs ≡ count is (m ∷ rest))
  unfolding pick count
  pick-count n [] m rest e = ground arith
  pick-count zero (x ∷ xs) m rest e =
      let same = first-same x m xs rest e in (ap length same, λ is. ap (count is) same)
  pick-count (suc n) (x ∷ xs) m rest e =
      let (ys, f, g) = behind_first-some x (pick n xs) m rest e in
      let (len, kept) = pick-count n xs m ys f in
      (omega (arith, len, ap length g), λ is. omega (arith, kept is, ap (count is) g))

  pub take_job-IsValid :
      (jobs : List M) (p : ConsumerPool M) → p.jobs ≡ jobs → IsValid p → IsValid (take_job jobs p)
  unfolding take_job count
  take_job-IsValid [] p e v = v
  take_job-IsValid (m ∷ rest) p e v =
      if-IsValid (ltb (length p.busy) p.worker_count) (record p { jobs = rest; busy = m ∷ p.busy })
        p
        (λ free. record {
          calm = v.calm;
          room = omega (arith, v.room, ap length e);
          workers = ground (arith, free);
          open_before = v.open_before;
          finished = not_empty p.stop p.poll p.jobs p.busy m rest e v.finished;
          given_up = v.given_up;
          accounted = λ is. omega (arith, v.accounted is, ap (count is) e);
        })
        (λ full. v)

  pub finish-IsValid :
      (n : ℕ) (o : Option (M × List M)) (p : ConsumerPool M)
      → pick n p.busy ≡ o
      → IsValid p
      → IsValid (finish o p)
  unfolding finish count
  finish-IsValid n none p e v = v
  finish-IsValid n (some (m, rest)) p e v =
      let (len, kept) = pick-count n p.busy m rest e in
      record {
        calm = v.calm;
        room = v.room;
        workers = omega (arith, v.workers, len);
        open_before = v.open_before;
        finished = some_busy p.stop p.poll p.jobs p.busy rest len v.finished;
        given_up = v.given_up;
        accounted = λ is. omega (arith, v.accounted is, kept is);
      }

  pub begin_stop-IsValid :
      (s : Stop) (p : ConsumerPool M) → p.stop ≡ s → IsValid p → IsValid (begin_stop s p)
  unfolding begin_stop
  begin_stop-IsValid running p e v = record {
    calm = v.calm;
    room = v.room;
    workers = v.workers;
    open_before = subst (λ (t : Stop). Open t p.closed) e v.open_before;
    finished = tt;
    given_up = v.given_up;
    accounted = v.accounted;
  }
  begin_stop-IsValid waiting p e v = v
  begin_stop-IsValid draining p e v = v
  begin_stop-IsValid (stopped ok) p e v = v

  pub close_jobs-IsValid :
      (s : Stop) (poll : Poll M) (p : ConsumerPool M)
      → p.stop ≡ s
      → p.poll ≡ poll
      → IsValid p
      → IsValid (close_jobs s poll p)
  unfolding close_jobs
  close_jobs-IsValid waiting ended p e f v = record {
    calm = v.calm;
    room = v.room;
    workers = v.workers;
    open_before = tt;
    finished = f;
    given_up = v.given_up;
    accounted = v.accounted;
  }
  close_jobs-IsValid waiting fetching p e f v = v
  close_jobs-IsValid waiting (sending m) p e f v = v
  close_jobs-IsValid running poll p e f v = v
  close_jobs-IsValid draining poll p e f v = v
  close_jobs-IsValid (stopped ok) poll p e f v = v

  pub drain-IsValid :
      (s : Stop) (jobs busy : List M) (p : ConsumerPool M)
      → p.stop ≡ s
      → p.jobs ≡ jobs
      → p.busy ≡ busy
      → IsValid p
      → IsValid (drain s jobs busy p)
  unfolding drain
  drain-IsValid draining [] [] p e f g v = record {
    calm = v.calm;
    room = v.room;
    workers = v.workers;
    open_before = tt;
    finished = (subst (λ (t : Stop). Finished t p.poll p.jobs p.busy) e v.finished, f, g);
    given_up = v.given_up;
    accounted = v.accounted;
  }
  drain-IsValid draining [] (m ∷ busy) p e f g v = v
  drain-IsValid draining (m ∷ jobs) busy p e f g v = v
  drain-IsValid running jobs busy p e f g v = v
  drain-IsValid waiting jobs busy p e f g v = v
  drain-IsValid (stopped ok) jobs busy p e f g v = v

  pub time_out-IsValid :
      (s : Stop) (p : ConsumerPool M) → p.stop ≡ s → IsValid p → IsValid (time_out s p)
  unfolding time_out
  time_out-IsValid draining p e v = record {
    calm = v.calm;
    room = v.room;
    workers = v.workers;
    open_before = tt;
    finished = subst (λ (t : Stop). Finished t p.poll p.jobs p.busy) e v.finished;
    given_up = v.given_up;
    accounted = v.accounted;
  }
  time_out-IsValid running p e v = v
  time_out-IsValid waiting p e v = v
  time_out-IsValid (stopped ok) p e v = v
