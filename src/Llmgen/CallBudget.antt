-- ===== src/Llmgen/CallBudget.antt =====
-- internal/processor/parser/rule/llmgen/budget.go: the budget of calls to the language model, in
-- two sliding windows. A mutex guards each reading or writing of a window, and these, `check` and
-- `record_in`, are the steps; `allow` is what one caller does while no other runs, and Callers has the
-- steps of several callers in any order. Each reading of the clock is an
-- input of its own. Log lines and metrics are left out.

mod Sliding
mod Laws
mod History
mod Callers
mod Shared
mod Tests
use issue_tracker.Prelude.{
  ℕ, ◌+◌, Bool, true, false, ◌||◌, Option, none, some, String, List, [], ◌∷◌, ◌++◌, ltb, leb,
  length, if◌then◌else◌, ◌==◌, AssocList, lookup, insert,
}
use issue_tracker.Prelude.Keys.{nat_eq, string_eq}

abbrev pub budget_window_daily : String
budget_window_daily = "daily"

abbrev pub budget_window_hourly : String
budget_window_hourly = "hourly"

abbrev pub hour : ℕ
hour = 3600000000000

abbrev pub day : ℕ
day = 86400000000000

pub record BudgetConfig : Type 0 where
  pub daily_cap : ℕ
  pub hourly_cap : ℕ

unfoldable pub enabled : BudgetConfig → Bool
enabled c = ltb 0 c.daily_cap || ltb 0 c.hourly_cap

-- `counter` answers `Count` of the shared counter for a window, `none` for an error; there is none
-- where the process counts by itself, in `local`.
pub record CallBudget : Type 0 where
  pub cfg : BudgetConfig
  pub counter : Option (String → Option ℕ)
  pub local : AssocList String (List ℕ)
  pub exceeded : AssocList String Bool

unfoldable pub new_call_budget : BudgetConfig → Option (String → Option ℕ) → Option CallBudget
unfolding enabled
new_call_budget cfg counter =
    if enabled cfg
    then some (record { cfg = cfg; counter = counter; local = []; exceeded = [] })
    else none

stamps_or_none : Option (List ℕ) → List ℕ
stamps_or_none none = []
stamps_or_none (some ts) = ts

-- The calls that a window holds.
unfoldable pub stamps : CallBudget → String → List ℕ
unfolding stamps_or_none
stamps b window = stamps_or_none (lookup window b.local)

-- `t.After(now - span)`.
unfoldable pub kept : ℕ → ℕ → List ℕ → List ℕ
kept now span [] = []
kept now span (t ∷ ts) =
    let rest = kept now span ts in if ltb now (t + span) then t ∷ rest else rest

unfoldable pub prune : CallBudget → String → ℕ → ℕ → CallBudget
prune b window span now = record b {
  local = insert window (kept now span (stamps b window)) b.local;
}

unfoldable pub local_record : CallBudget → String → ℕ → ℕ → ℕ → CallBudget
local_record b window span prune_at stamp_at =
    let c = prune b window span prune_at in
    record c { local = insert window (stamps c window ++ stamp_at ∷ []) c.local }

-- A window of `Allow` and `record`: its name, cap and span, and when the clock is read for it, to
-- count, to prune before recording, and for the stamp of the call.
pub record Window : Type 0 where
  pub name : String
  pub cap : ℕ
  pub span : ℕ
  pub count_at : ℕ
  pub prune_at : ℕ
  pub stamp_at : ℕ

note_state : CallBudget → String → Bool → CallBudget
note_state b window blocked = record b { exceeded = insert window blocked b.exceeded }

-- `b.count`: what it changes, and the number unless the counter fails.
count_by : Option (String → Option ℕ) → CallBudget → Window → CallBudget × Option ℕ
count_by (some counter) b w = (b, counter w.name)
count_by none b w = let c = prune b w.name w.span w.count_at in (c, some (length (stamps c w.name)))

-- One window of the loop in `Allow`: what it changes, and whether the window blocks the call.
judge : CallBudget × Option ℕ → Window → CallBudget × Bool
unfolding note_state
judge (b, none) w = (b, false)
judge (b, some n) w = (note_state b w.name (leb w.cap n), leb w.cap n)

unfoldable pub check : CallBudget → Window → CallBudget × Bool
unfolding judge count_by
check b w = if w.cap == 0 then (b, false) else judge (count_by b.counter b w) w

-- One window of the loop in `record`. The shared counter's `Record` changes nothing here.
record_by : Option (String → Option ℕ) → CallBudget → Window → CallBudget
record_by (some counter) b w = b
record_by none b w = local_record b w.name w.span w.prune_at w.stamp_at

unfoldable pub record_in : CallBudget → Window → CallBudget
unfolding record_by
record_in b w = if w.cap == 0 then b else record_by b.counter b w

-- When the clock is read for a window.
pub record Readings : Type 0 where
  pub count_at : ℕ
  pub prune_at : ℕ
  pub stamp_at : ℕ

abbrev pub window_of : String → ℕ → ℕ → Readings → Window
window_of name cap span r = record {
  name = name;
  cap = cap;
  span = span;
  count_at = r.count_at;
  prune_at = r.prune_at;
  stamp_at = r.stamp_at;
}

abbrev pub hourly : BudgetConfig → Readings → Window
hourly c = window_of budget_window_hourly c.hourly_cap hour

abbrev pub daily : BudgetConfig → Readings → Window
daily c = window_of budget_window_daily c.daily_cap day

pub record Answer : Type 0 where
  pub budget : CallBudget
  pub allowed : Bool
  pub window : String

-- The hourly window comes first.
pub allow_in : CallBudget → Window → Window → Answer
allow_in b h d =
    let (c, hour_full) = check b h in
    let (e, day_full) = check c d in
    if hour_full
    then record { budget = c; allowed = false; window = h.name }
    else if day_full
    then record { budget = e; allowed = false; window = d.name }
    else record { budget = record_in (record_in e h) d; allowed = true; window = "" }

-- `Allow` of a caller, with no step of another in between.
unfoldable pub allow : CallBudget → Readings → Readings → Answer
unfolding allow_in
allow b by_hour by_day = allow_in b (hourly b.cfg by_hour) (daily b.cfg by_day)
