-- ===== src/Llmgen/CallBudget/Callers.antt =====
-- Callers that run at the same time (internal/processor/parser/rule/llmgen/budget.go): the mutex guards each
-- reading and each writing of a window, and `Allow` as a whole is several such steps, between which other callers
-- take theirs.

pub mod Cap
use issue_tracker.Prelude.{
  ℕ, suc, ◌-◌, ◌≤◌, Bool, true, false, List, [], ◌∷◌, ◌++◌, ltb, ◌==◌, if◌then◌else◌,
}
use issue_tracker.Prelude.Keys.{nat_eq}
use issue_tracker.Llmgen.CallBudget.{CallBudget, check, record_in, Readings, hourly, daily}

-- A step of one of the callers: it asks a window, or records its call in one.
pub data Event : Type 0 where
  asks_hour asks_day records_hour records_day : Readings → Event

-- `inside` is the number of callers that passed the hourly window and have not recorded there yet, nor been
-- refused by the daily one; `admitted` are the stamps that were recorded in the hourly window.
pub record Pool : Type 0 where
  pub budget : CallBudget
  pub inside : ℕ
  pub admitted : List ℕ

asked_hour : CallBudget × Bool → Pool → Pool
asked_hour (b, true) p = record p { budget = b }
asked_hour (b, false) p = record p { budget = b; inside = suc p.inside }

asked_day : CallBudget × Bool → Pool → Pool
asked_day (b, true) p = record p { budget = b; inside = p.inside - 1 }
asked_day (b, false) p = record p { budget = b }

-- Up to a number of callers are between the two windows' check and record. A step that no caller can take does
-- nothing.
unfoldable pub caller_step : ℕ → Pool → Event → Pool
unfolding asked_hour asked_day
caller_step callers p (asks_hour r) =
    if ltb p.inside callers then asked_hour (check p.budget (hourly p.budget.cfg r)) p else p
caller_step callers p (asks_day r) =
    if p.inside == 0 then p else asked_day (check p.budget (daily p.budget.cfg r)) p
caller_step callers p (records_hour r) = if p.inside == 0 then p else record {
  budget = record_in p.budget (hourly p.budget.cfg r);
  inside = p.inside - 1;
  admitted = p.admitted ++ r.stamp_at ∷ [];
}
caller_step callers p (records_day r) = record p {
  budget = record_in p.budget (daily p.budget.cfg r);
}

unfoldable pub callers_run : ℕ → Pool → List Event → Pool
callers_run callers p [] = p
callers_run callers p (e ∷ es) = callers_run callers (caller_step callers p e) es

unfoldable pub idle : CallBudget → Pool
idle b = record { budget = b; inside = 0; admitted = [] }

-- The readings of the clock for the hourly window, which are made under the mutex, do not go back.
abbrev pub Forward : ℕ → List Event → ℕ → Type 0
Forward since [] now = since ≤ now
Forward since (asks_hour r ∷ es) now = (since ≤ r.count_at) × Forward r.count_at es now
Forward since (asks_day r ∷ es) now = Forward since es now
Forward since (records_hour r ∷ es) now =
    (since ≤ r.prune_at) × (r.prune_at ≤ r.stamp_at) × Forward r.stamp_at es now
Forward since (records_day r ∷ es) now = Forward since es now
