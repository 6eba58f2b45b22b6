-- ===== src/Enrich/CostGuard.antt =====
-- internal/processor/enrich/worker/cost_guard.go: the guard of what enrichment costs, a budget of
-- calls for each day and a limit on the backlog. Times are nanoseconds since the zero time. A lag
-- below 0 counts as 0. A call is one step here; in the source its parts (the backlog, the budget, the
-- state that is logged) take the mutex one after the other. Log lines and metrics are left out.

mod Laws
mod Budget
mod Tests
use issue_tracker.Prelude.{
  ℕ, ◌+◌, ◌*◌, Bool, true, false, ◌||◌, ◌&&◌, Option, none, some, String, ltb, leb, if◌then◌else◌,
  ◌==◌,
}
use issue_tracker.Prelude.Keys.{nat_eq}

pub data SkipReason : Type 0 where
  skip_none daily_budget backlog : SkipReason

pub record Config : Type 0 where
  pub daily_call_limit : ℕ
  pub max_backlog : ℕ
  pub backlog_topic : String
  pub backlog_group : String
  pub backlog_check_interval : ℕ

abbrev pub default_backlog_check_interval : ℕ
default_backlog_check_interval = 10000000000

-- What `Backlog` answers at a time for a topic and a group, `none` for an error.
abbrev pub BacklogChecker : Type 0
BacklogChecker = ℕ → String → String → Option ℕ

pub record CostGuard : Type 0 where
  pub cfg : Config
  pub checker : Option BacklogChecker
  pub day : ℕ
  pub count : ℕ
  pub checked_at : ℕ
  pub last_backlog : ℕ
  pub blocked_by : SkipReason

unfoldable pub new_cost_guard : Config → Option BacklogChecker → CostGuard
new_cost_guard cfg checker = record {
  cfg =
      if cfg.backlog_check_interval == 0
      then record cfg { backlog_check_interval = default_backlog_check_interval }
      else cfg;
  checker = checker;
  day = 0;
  count = 0;
  checked_at = 0;
  last_backlog = 0;
  blocked_by = skip_none;
}

has_checker : Option BacklogChecker → Bool
has_checker none = false
has_checker (some f) = true

unfoldable pub enabled : Option CostGuard → Bool
unfolding has_checker
enabled none = false
enabled (some g) =
    ltb 0 g.cfg.daily_call_limit || (ltb 0 g.cfg.max_backlog && has_checker g.checker)

-- When the clock is read: for the age of the cached lag, for the question and for the note of its
-- answer, and for the date in UTC, whose parts the library's calendar tells.
pub record Readings : Type 0 where
  pub looked_at : ℕ
  pub asked_at : ℕ
  pub noted_at : ℕ
  pub year : ℕ
  pub month : ℕ
  pub month_day : ℕ

unfoldable pub current_day : Readings → ℕ
current_day r = r.year * 10000 + r.month * 100 + r.month_day

unfoldable pub consume_daily_budget : CostGuard → Readings → CostGuard × Bool
consume_daily_budget g r =
    let today = current_day r in
    let g' = if today == g.day then g else record g { day = today; count = 0 } in
    if g.cfg.daily_call_limit == 0
    then (g, true)
    else if leb g.cfg.daily_call_limit g'.count
    then (g', false)
    else (record g' { count = g'.count + 1 }, true)

over : CostGuard → ℕ → SkipReason
over g lag = if ltb g.cfg.max_backlog lag then backlog else skip_none

-- The lag that an answer stands for. An error is kept as lag 0.
unfoldable pub lag_of : Option ℕ → ℕ
lag_of none = 0
lag_of (some lag) = lag

unfoldable pub fresh : CostGuard → Readings → Bool
fresh g r =
    if g.checked_at == 0
    then false
    else ltb r.looked_at (g.checked_at + g.cfg.backlog_check_interval)

check_by : Option BacklogChecker → CostGuard → Readings → CostGuard × SkipReason
unfolding over lag_of
check_by none g r = (g, skip_none)
check_by (some f) g r =
    let lag = lag_of (f r.asked_at g.cfg.backlog_topic g.cfg.backlog_group) in
    if g.cfg.max_backlog == 0
    then (g, skip_none)
    else if fresh g r
    then (g, over g g.last_backlog)
    else (record g { last_backlog = lag; checked_at = r.noted_at }, over g lag)

unfoldable pub check_backlog : CostGuard → Readings → CostGuard × SkipReason
unfolding check_by
check_backlog g r = check_by g.checker g r

note_state : CostGuard → SkipReason → CostGuard
note_state g reason = record g { blocked_by = reason }

allow_budget : CostGuard × Bool → CostGuard × (Bool × SkipReason)
unfolding note_state
allow_budget (g, true) = (note_state g skip_none, (true, skip_none))
allow_budget (g, false) = (note_state g daily_budget, (false, daily_budget))

allow_in : CostGuard × SkipReason → Readings → CostGuard × (Bool × SkipReason)
unfolding allow_budget note_state
allow_in (g, skip_none) r = allow_budget (consume_daily_budget g r)
allow_in (g, daily_budget) r = (note_state g daily_budget, (false, daily_budget))
allow_in (g, backlog) r = (note_state g backlog, (false, backlog))

unfoldable pub ask : CostGuard → Readings → CostGuard × (Bool × SkipReason)
unfolding allow_in
ask g r = allow_in (check_backlog g r) r

-- `Allow` of a guard that may be nil.
unfoldable pub allow : Option CostGuard → Readings → Option CostGuard × (Bool × SkipReason)
allow none r = (none, (true, skip_none))
allow (some g) r = let (g', answer) = ask g r in (some g', answer)
