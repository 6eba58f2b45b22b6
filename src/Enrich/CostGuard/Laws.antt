-- ===== src/Enrich/CostGuard/Laws.antt =====
-- What the guard answers (internal/processor/enrich/worker/cost_guard.go).
use issue_tracker.Prelude.{
  ℕ, ◌<◌, ◌≡◌, true, false, ◌&&◌, some, ltb, leb, if◌then◌else◌, ◌==◌, arith,
}
use issue_tracker.Prelude.Keys.{nat_eq}
use issue_tracker.Enrich.CostGuard.{
  skip_none, daily_budget, backlog, CostGuard, BacklogChecker, Readings, consume_daily_budget,
  lag_of, fresh, check_backlog, ask, current_day,
}

-- The lag that counts for a call: what the checker answers, or the last answer while it is fresh.
abbrev pub current_lag : CostGuard → BacklogChecker → Readings → ℕ
current_lag g f r =
    if fresh g r
    then g.last_backlog
    else lag_of (f r.asked_at g.cfg.backlog_topic g.cfg.backlog_group)

-- The calls that the day has used before a call.
abbrev pub used : CostGuard → Readings → ℕ
used g r = if current_day r == g.day then g.count else 0

-- With a checker and a limit on the backlog, a call is skipped for the backlog if the lag that counts
-- is above the limit, and then the budget of the day is not touched; else for the budget, if the day
-- has a limit and has used it up; else it is allowed.
ask-answer :
    (g : CostGuard) (f : BacklogChecker) (r : Readings)
    → g.checker ≡ some f
    → 0 < g.cfg.max_backlog
    → let answer = ask g r in
      (answer.1 ≡ (
        if ltb g.cfg.max_backlog (current_lag g f r)
        then (false, backlog)
        else if ltb 0 g.cfg.daily_call_limit && leb g.cfg.daily_call_limit (used g r)
        then (false, daily_budget)
        else (true, skip_none)))
      × (answer.1.1 ≡ backlog → (answer.0.day ≡ g.day) × (answer.0.count ≡ g.count))
unfolding ask check_backlog consume_daily_budget
ask-answer g f r e limited = ground arith

-- While the last answer is fresh, the checker is not asked: with any other checker the guard answers
-- the same.
ask-cached :
    (g : CostGuard) (f f' : BacklogChecker) (r : Readings)
    → g.checker ≡ some f
    → fresh g r ≡ true
    → (ask (record g { checker = some f' }) r).1 ≡ (ask g r).1
unfolding ask check_backlog consume_daily_budget fresh
ask-cached g f f' r e still = ground arith
