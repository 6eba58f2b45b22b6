-- ===== src/Workerpool/Polling.antt =====
-- The steps of the goroutine that polls keep the invariant (internal/workerpool/pool.go).
use issue_tracker.Prelude.{
  ◌*◌, ◌≡◌, ◌≢◌, inl, inr, refl, ap, Bool, true, false, List, [], ◌∷◌, ◌++◌, ltb, arith, length,
  length-append,
}
use issue_tracker.Workerpool.{
  Poll, fetching, sending, ended, Stop, running, waiting, draining, stopped, ConsumerPool, fetch,
  fetch_fail, send, give_up,
}
use issue_tracker.Workerpool.Invariant.{
  count, count-append, held, closed_apart, Open, Finished, IsValid, if-IsValid,
}

module _ {M : Type 0} where
  -- While the pool polls, what `poll`, the jobs and the busy are is free.
  unfinished :
      (s : Stop) (old poll : Poll M) (jobs busy jobs' busy' : List M)
      → old ≢ ended
      → Finished s old jobs busy
      → Finished s poll jobs' busy'
  unfinished running old poll jobs busy jobs' busy' h f = tt
  unfinished waiting old poll jobs busy jobs' busy' h f = tt
  unfinished draining old poll jobs busy jobs' busy' h f = elim (h f) [ ]
  unfinished (stopped false) old poll jobs busy jobs' busy' h f = elim (h f) [ ]
  unfinished (stopped true) old poll jobs busy jobs' busy' h f = elim (h f.0) [ ]

  still_live :
      (s : Stop) (closed : Bool) (poll : Poll M) (jobs busy : List M)
      → poll ≢ ended
      → Open s closed
      → Finished s poll jobs busy
      → closed ≡ false
  still_live running closed poll jobs busy h o f = o
  still_live waiting closed poll jobs busy h o f = o
  still_live draining closed poll jobs busy h o f = elim (h f) [ ]
  still_live (stopped false) closed poll jobs busy h o f = elim (h f) [ ]
  still_live (stopped true) closed poll jobs busy h o f = elim (h f.0) [ ]

  pub fetch-IsValid :
      (m : M) (poll : Poll M) (p : ConsumerPool M)
      → p.poll ≡ poll
      → IsValid p
      → IsValid (fetch m poll p)
  unfolding fetch count held
  fetch-IsValid m fetching p e v =
      let going : p.poll ≢ ended = λ h. ground (arith, e, h) in
      record {
        calm = v.calm;
        room = v.room;
        workers = v.workers;
        open_before = v.open_before;
        finished =
            unfinished p.stop p.poll (sending m) p.jobs p.busy p.jobs p.busy going v.finished;
        given_up = elim v.given_up [ inl h ↦ inl h | inr (h, k) ↦ elim (going k) [ ] ];
        accounted = λ is. omega (arith, v.accounted is, ap (held is) e);
      }
  fetch-IsValid m (sending other) p e v = v
  fetch-IsValid m ended p e v = v

  pub fetch_fail-IsValid :
      (poll : Poll M) (p : ConsumerPool M) → p.poll ≡ poll → IsValid p → IsValid (fetch_fail poll p)
  unfolding fetch_fail held
  fetch_fail-IsValid fetching p e v =
      let going : p.poll ≢ ended = λ h. ground (arith, e, h) in
      if-IsValid p.cancelled (record p { poll = ended }) p
        (λ c. record {
          calm = v.calm;
          room = v.room;
          workers = v.workers;
          open_before = v.open_before;
          finished = unfinished p.stop p.poll ended p.jobs p.busy p.jobs p.busy going v.finished;
          given_up = elim v.given_up [ inl h ↦ inl h | inr (h, k) ↦ elim (going k) [ ] ];
          accounted = λ is. omega (arith, v.accounted is, ap (held is) e);
        })
        (λ c. v)
  fetch_fail-IsValid (sending m) p e v = v
  fetch_fail-IsValid ended p e v = v

  pub send-IsValid :
      (poll : Poll M) (p : ConsumerPool M) → p.poll ≡ poll → IsValid p → IsValid (send poll p)
  unfolding send held count
  send-IsValid fetching p e v = v
  send-IsValid (sending m) p e v =
      let going : p.poll ≢ ended = λ h. ground (arith, e, h) in
      let live = still_live p.stop p.closed p.poll p.jobs p.busy going v.open_before v.finished in
      if-IsValid p.closed (record p { panicked = true }) _
        (λ shut. elim (closed_apart p.closed live shut) [ ])
        (λ live_still.
          if-IsValid (ltb (length p.jobs) (p.worker_count * 2))
            (record p { poll = fetching; jobs = p.jobs ++ m ∷ [] }) p
            (λ fits. record {
              calm = v.calm;
              room = ground (arith, fits, length-append p.jobs (m ∷ []));
              workers = v.workers;
              open_before = v.open_before;
              finished =
                  unfinished p.stop p.poll fetching p.jobs p.busy (p.jobs ++ m ∷ []) p.busy going
                    v.finished;
              given_up = elim v.given_up [ inl h ↦ inl h | inr (h, k) ↦ elim (going k) [ ] ];
              accounted = λ is.
                  omega (arith, v.accounted is, ap (held is) e, count-append is p.jobs (m ∷ []));
            })
            (λ full. v))
  send-IsValid ended p e v = v

  pub give_up-IsValid :
      (poll : Poll M) (p : ConsumerPool M) → p.poll ≡ poll → IsValid p → IsValid (give_up poll p)
  unfolding give_up held count
  give_up-IsValid fetching p e v = v
  give_up-IsValid (sending m) p e v =
      let going : p.poll ≢ ended = λ h. ground (arith, e, h) in
      if-IsValid p.cancelled (record p { poll = ended; dropped = m ∷ p.dropped }) p
        (λ c. record {
          calm = v.calm;
          room = v.room;
          workers = v.workers;
          open_before = v.open_before;
          finished = unfinished p.stop p.poll ended p.jobs p.busy p.jobs p.busy going v.finished;
          given_up = elim v.given_up [
            | inl h ↦ inr (omega (arith, ap length h), refl)
            | inr (h, k) ↦ elim (going k) [ ]
          ];
          accounted = λ is. omega (arith, v.accounted is, ap (held is) e);
        })
        (λ c. v)
  give_up-IsValid ended p e v = v
