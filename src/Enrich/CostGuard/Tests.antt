-- ===== src/Enrich/CostGuard/Tests.antt =====
-- Runs of the guard (internal/processor/enrich/worker/cost_guard.go).
use issue_tracker.Prelude.{
  ℕ, ◌*◌, ◌≤◌, ◌≡◌, refl, true, none, some, List, [], ◌∷◌, ◌==◌, if◌then◌else◌, arith,
}
use issue_tracker.Prelude.Keys.{string_eq, nat_eq}
use issue_tracker.Enrich.CostGuard.{
  Config, CostGuard, BacklogChecker, Readings, new_cost_guard, enabled, fresh, ask, allow,
  consume_daily_budget, check_backlog, current_day, lag_of,
}
use issue_tracker.Enrich.CostGuard.Budget.{allowed_on, daily_call_limit_holds}

abbrev limits : Config
limits = record {
  daily_call_limit = 2;
  max_backlog = 100;
  backlog_topic = "validated";
  backlog_group = "enrich";
  backlog_check_interval = 10;
}

-- The lag grows with time, and the broker fails at 30.
abbrev lags : BacklogChecker
lags t topic group = if t == 30 then none else if topic == "validated" then some (t * 2) else some 0

abbrev busy : BacklogChecker
busy t topic group = some 1000

abbrev guard : CostGuard
guard = new_cost_guard limits (some lags)

abbrev at : ℕ → ℕ → Readings
at t d = record {
  looked_at = t;
  asked_at = t;
  noted_at = t;
  year = 2025;
  month = 11;
  month_day = d;
}

abbrev calls : List Readings
calls = at 10 1 ∷ at 30 1 ∷ at 35 1 ∷ at 90 2 ∷ at 95 2 ∷ at 110 2 ∷ []

allowed_on-calls : allowed_on 20251101 guard calls ≡ 2
unfolding allowed_on ask check_backlog fresh lag_of consume_daily_budget current_day new_cost_guard
allowed_on-calls = refl

-- The lag of 180 at time 90 is fresh until 100; at 110 it is 220.
allowed_on-calls_next : allowed_on 20251102 guard calls ≡ 0
unfolding allowed_on ask check_backlog fresh lag_of consume_daily_budget current_day new_cost_guard
allowed_on-calls_next = refl

allow-unguarded : (allow none (at 10 1)).1.0 ≡ true
unfolding allow
allow-unguarded = refl

enabled-guard : enabled (some guard) ≡ true
unfolding enabled new_cost_guard
enabled-guard = refl

daily_call_limit_holds_example : allowed_on 20251101 guard calls ≤ 2
unfolding current_day
daily_call_limit_holds_example =
    daily_call_limit_holds limits (some lags) calls 20251101 (omega arith) (omega arith)

abbrev asked : CostGuard
asked = record guard { checked_at = 10; last_backlog = 20 }
