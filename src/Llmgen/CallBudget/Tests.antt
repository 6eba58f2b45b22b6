-- ===== src/Llmgen/CallBudget/Tests.antt =====
-- Runs of the budget (internal/processor/parser/rule/llmgen/budget.go).
use issue_tracker.Prelude.{
  ◌+◌, ◌-◌, ℕ, ◌≤◌, ◌≡◌, if◌then◌else◌, ◌==◌, refl, none, some, List, [], ◌∷◌, length, lookup,
  insert, arith,
}
use issue_tracker.Prelude.Keys.{string_eq}
use issue_tracker.Llmgen.CallBudget.{
  BudgetConfig, CallBudget, Readings, new_call_budget, allow, check, stamps, prune, record_in,
  local_record, kept, hour,
}
use issue_tracker.Llmgen.CallBudget.Callers.Cap.{hourly_cap_callers}
use issue_tracker.Llmgen.CallBudget.Callers.{
  Event, asks_hour, records_hour, caller_step, callers_run, idle,
}
use issue_tracker.Llmgen.CallBudget.History.{Times, hours}

abbrev caps : BudgetConfig
caps = record { daily_cap = 3; hourly_cap = 2 }

abbrev budget : CallBudget
budget = record { cfg = caps; counter = none; local = []; exceeded = [] }

abbrev at : ℕ → Times
at t = (
  record { count_at = t; prune_at = t; stamp_at = t },
  record { count_at = t; prune_at = t; stamp_at = t },
)

abbrev calls : List Times
calls = at 10 ∷ at 20 ∷ at 30 ∷ at 3600000000050 ∷ at 3600000000060 ∷ []

hours-calls : hours budget calls [] ≡ 10 ∷ 20 ∷ 3600000000050 ∷ []
unfolding hours allow check stamps lookup prune insert kept record_in local_record
hours-calls = refl

abbrev shared : CallBudget
shared = record {
  cfg = caps;
  counter = some (λ w. if w == "hourly" then some 1 else some 3);
  local = [];
  exceeded = [];
}

-- Two callers in a budget of one call an hour: both ask before one records, and both pass.
abbrev one_call : CallBudget
one_call = record {
  cfg = record { daily_cap = 0; hourly_cap = 1 };
  counter = none;
  local = [];
  exceeded = [];
}

abbrev reading : ℕ → Readings
reading t = record { count_at = t; prune_at = t; stamp_at = t }

abbrev crossing : List Event
crossing =
    asks_hour (reading 1)
    ∷ asks_hour (reading 2)
    ∷ records_hour (reading 3)
    ∷ records_hour (reading 4)
    ∷ []

crossing_run : (callers_run 2 (idle one_call) crossing).admitted ≡ 3 ∷ 4 ∷ []
unfolding callers_run caller_step idle check stamps lookup prune insert kept record_in local_record
crossing_run = refl

hourly_cap_callers_example :
    length (kept 10 hour (callers_run 2 (idle one_call) crossing).admitted) ≤ 1 + (2 - 1)
unfolding new_call_budget
hourly_cap_callers_example =
    hourly_cap_callers (record { daily_cap = 0; hourly_cap = 1 }) one_call 2 crossing 10 refl
      (omega arith)
      (
        omega arith,
        (omega arith, (omega arith, omega arith, (omega arith, omega arith, omega arith))),
      )
