-- ===== src/Workerpool.antt =====
-- internal/workerpool/pool.go: the goroutine that polls, the channel of jobs, the workers and `Stop`, as steps in
-- any order. A step that is not possible leaves the pool as it is. Messages, the consumer and the handler are
-- inputs; a send on a closed channel, which panics, is a field of the state. Log lines are left out.

pub mod Invariant
pub mod Polling
pub mod Working
pub mod Runs
mod Tests
use issue_tracker.Prelude.{
  ℕ, zero, suc, ◌*◌, Bool, true, false, ◌&&◌, ◌||◌, Option, none, some, List, [], ◌∷◌, ◌++◌, ltb,
  if◌then◌else◌, ◌==◌, length,
}
use issue_tracker.Prelude.Keys.{nat_eq}

abbrev pub default_drain_timeout : ℕ
default_drain_timeout = 5000000000

-- Where `poll` stands: at `FetchMessage`, at the send of a message, or at its end.
pub data Poll (M : Type 0) : Type 0 where
  fetching : Poll M
  sending : M → Poll M
  ended : Poll M

-- Where `stopImpl` stands: not begun, at `pollWg.Wait`, at the `select` behind `close`, or at its end, with
-- whether the pool was drained.
pub data Stop : Type 0 where
  running waiting draining : Stop
  stopped : Bool → Stop

pub record ConsumerPool (M : Type 0) : Type 0 where
  pub worker_count : ℕ
  pub poll : Poll M
  pub cancelled : Bool
  pub jobs : List M
  pub closed : Bool
  pub busy : List M
  pub stop : Stop
  pub panicked : Bool
  -- What was fetched, handled, and given up by `poll`.
  pub fetched : List M
  pub handled : List M
  pub dropped : List M

one_at_least : ℕ → ℕ
one_at_least zero = 1
one_at_least (suc n) = suc n

-- `New` and `Start`; a count of workers of 0 or less stands as 0.
unfoldable pub new : {M : Type 0} → ℕ → ConsumerPool M
unfolding one_at_least
new worker_count = record {
  worker_count = one_at_least worker_count;
  poll = fetching;
  cancelled = false;
  jobs = [];
  closed = false;
  busy = [];
  stop = running;
  panicked = false;
  fetched = [];
  handled = [];
  dropped = [];
}

-- A step of `poll` (a message or an error from the consumer, the two cases of its `select`), of a worker
-- (`finishes` with its place among the busy ones), of the context, or of `Stop`.
pub data Action (M : Type 0) : Type 0 where
  fetches : M → Action M
  fetch_fails sends gives_up takes : Action M
  finishes : ℕ → Action M
  context_ends stops polled drained times_out : Action M

module _ {M : Type 0} where
  unfoldable pub fetch : M → Poll M → ConsumerPool M → ConsumerPool M
  fetch m fetching p = record p { poll = sending m; fetched = m ∷ p.fetched }
  fetch m (sending other) p = p
  fetch m ended p = p

  unfoldable pub fetch_fail : Poll M → ConsumerPool M → ConsumerPool M
  fetch_fail fetching p = if p.cancelled then record p { poll = ended } else p
  fetch_fail (sending m) p = p
  fetch_fail ended p = p

  -- The channel has room for two messages a worker.
  unfoldable pub send : Poll M → ConsumerPool M → ConsumerPool M
  send fetching p = p
  send (sending m) p =
      if p.closed
      then record p { panicked = true }
      else if ltb (length p.jobs) (p.worker_count * 2)
      then record p { poll = fetching; jobs = p.jobs ++ m ∷ [] }
      else p
  send ended p = p

  unfoldable pub give_up : Poll M → ConsumerPool M → ConsumerPool M
  give_up fetching p = p
  give_up (sending m) p =
      if p.cancelled then record p { poll = ended; dropped = m ∷ p.dropped } else p
  give_up ended p = p

  unfoldable pub take_job : List M → ConsumerPool M → ConsumerPool M
  take_job [] p = p
  take_job (m ∷ rest) p =
      if ltb (length p.busy) p.worker_count then record p { jobs = rest; busy = m ∷ p.busy } else p

  unfoldable pub behind_first : M → Option (M × List M) → Option (M × List M)
  behind_first x none = none
  behind_first x (some (y, ys)) = some (y, x ∷ ys)

  -- The element at a place, and the others.
  unfoldable pub pick : ℕ → List M → Option (M × List M)
  unfolding behind_first
  pick n [] = none
  pick zero (x ∷ xs) = some (x, xs)
  pick (suc n) (x ∷ xs) = behind_first x (pick n xs)

  unfoldable pub finish : Option (M × List M) → ConsumerPool M → ConsumerPool M
  finish none p = p
  finish (some (m, rest)) p = record p { busy = rest; handled = m ∷ p.handled }

  unfoldable pub begin_stop : Stop → ConsumerPool M → ConsumerPool M
  begin_stop running p = record p { cancelled = true; stop = waiting }
  begin_stop waiting p = p
  begin_stop draining p = p
  begin_stop (stopped ok) p = p

  -- `pollWg.Wait` returns, and the channel is closed.
  unfoldable pub close_jobs : Stop → Poll M → ConsumerPool M → ConsumerPool M
  close_jobs waiting ended p = record p { closed = true; stop = draining }
  close_jobs waiting fetching p = p
  close_jobs waiting (sending m) p = p
  close_jobs running poll p = p
  close_jobs draining poll p = p
  close_jobs (stopped ok) poll p = p

  -- All workers are at their end: the channel is empty and none is busy.
  unfoldable pub drain : Stop → List M → List M → ConsumerPool M → ConsumerPool M
  drain draining [] [] p = record p { stop = stopped true }
  drain draining [] (m ∷ busy) p = p
  drain draining (m ∷ jobs) busy p = p
  drain running jobs busy p = p
  drain waiting jobs busy p = p
  drain (stopped ok) jobs busy p = p

  unfoldable pub time_out : Stop → ConsumerPool M → ConsumerPool M
  time_out draining p = record p { stop = stopped false }
  time_out running p = p
  time_out waiting p = p
  time_out (stopped ok) p = p

  unfoldable pub step : Action M → ConsumerPool M → ConsumerPool M
  unfolding fetch fetch_fail send give_up take_job finish begin_stop close_jobs drain time_out
  step (fetches m) p = fetch m p.poll p
  step fetch_fails p = fetch_fail p.poll p
  step sends p = send p.poll p
  step gives_up p = give_up p.poll p
  step takes p = take_job p.jobs p
  step (finishes n) p = finish (pick n p.busy) p
  step context_ends p = record p { cancelled = true }
  step stops p = begin_stop p.stop p
  step polled p = close_jobs p.stop p.poll p
  step drained p = drain p.stop p.jobs p.busy p
  step times_out p = time_out p.stop p

  unfoldable pub run : List (Action M) → ConsumerPool M → ConsumerPool M
  run [] p = p
  run (a ∷ actions) p = run actions (step a p)

-- What a commit answers: done, the context's end, or another error.
pub data Committed : Type 0 where
  done cancelled refused : Committed

-- `CommitWithDrain`, with the answers to its first commit and to the one under a new context; `false` is an
-- error.
unfoldable pub commit_with_drain : Committed → Committed → Bool
commit_with_drain done again = true
commit_with_drain refused again = false
commit_with_drain cancelled done = true
commit_with_drain cancelled cancelled = false
commit_with_drain cancelled refused = false
