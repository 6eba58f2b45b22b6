-- ===== src/Enrich/CostGuard/Budget.antt =====
-- The budget of a day (internal/processor/enrich/worker/cost_guard.go), over any calls of the guard.
use issue_tracker.Prelude.{
  ℕ, ◌+◌, ◌≤◌, ◌<◌, ◌≡◌, ap, sym, subst, ◌&&◌, Option, List, [], ◌∷◌, if◌then◌else◌, ◌==◌, arith,
}
use issue_tracker.Prelude.Keys.{nat_eq}
use issue_tracker.Enrich.CostGuard.{
  CostGuard, BacklogChecker, Readings, consume_daily_budget, check_backlog, ask, Config,
  current_day, new_cost_guard,
}

-- The calls of a day that are allowed.
unfoldable pub allowed_on : ℕ → CostGuard → List Readings → ℕ
allowed_on d g [] = 0
allowed_on d g (r ∷ rs) =
    let (g', answer) = ask g r in
    let rest = allowed_on d g' rs in if (current_day r == d) && answer.0 then rest + 1 else rest

-- The date does not go back from one call to the next.
abbrev pub Ordered : ℕ → List Readings → Type 0
Ordered since [] = since ≤ since
Ordered since (r ∷ rs) = (since ≤ current_day r) × Ordered (current_day r) rs

-- What is left of a day's budget.
abbrev Left : ℕ → CostGuard → ℕ → Type 0
Left d g n =
    (g.day ≡ d → n + g.count ≤ g.cfg.daily_call_limit)
    × (g.day < d → n ≤ g.cfg.daily_call_limit)
    × (d < g.day → n ≡ 0)

ask-cfg : (g : CostGuard) (r : Readings) → (ask g r).0.cfg ≡ g.cfg
unfolding ask check_backlog consume_daily_budget
ask-cfg g r = ground arith

-- A call leaves the count of its day, or an earlier day's count.
ask-Left :
    (d n : ℕ) (g : CostGuard) (r : Readings)
    → 0 < g.cfg.daily_call_limit
    → g.count ≤ g.cfg.daily_call_limit
    → g.day ≤ current_day r
    → Left d (ask g r).0 n
    → Left d g (if (current_day r == d) && (ask g r).1.0 then n + 1 else n)
unfolding ask check_backlog consume_daily_budget
ask-Left d n g r pos few o l = ground arith

-- From an earlier date on, too.
earlier :
    (rs : List Readings) (since since' : ℕ) → since' ≤ since → Ordered since rs → Ordered since' rs
earlier [] since since' h o = omega arith
earlier (r ∷ rs) since since' h (now, o) = (omega arith, o)

-- What a call does to the budget of its day, whatever comes after.
ask-day :
    (g : CostGuard) (r : Readings)
    → g.count ≤ g.cfg.daily_call_limit
    → g.day ≤ current_day r
    → ((ask g r).0.count ≤ g.cfg.daily_call_limit) × ((ask g r).0.day ≤ current_day r)
unfolding ask check_backlog consume_daily_budget
ask-day g r few o = ground arith

allowed_on-Left :
    (rs : List Readings) (d : ℕ) (g : CostGuard)
    → 0 < g.cfg.daily_call_limit
    → g.count ≤ g.cfg.daily_call_limit
    → Ordered g.day rs
    → Left d g (allowed_on d g rs)
unfolding allowed_on
allowed_on-Left [] d g pos few o = ground arith
allowed_on-Left (r ∷ rs) d g pos few (now, o) =
    let g' = (ask g r).0 in
    let (few', day') = ask-day g r few now in
    let same = ap (λ (c : Config). c.daily_call_limit) (ask-cfg g r) in
    let later =
      allowed_on-Left rs d g' (omega (arith, same)) (omega (arith, same, few'))
        (earlier rs (current_day r) g'.day day' o) in
    (ask-Left d (allowed_on d g' rs) g r pos few now later)

new-unused :
    (cfg : Config) (checker : Option BacklogChecker)
    → let g = new_cost_guard cfg checker in
      (g.cfg.daily_call_limit ≡ cfg.daily_call_limit) × ((g.day ≡ 0) × (g.count ≡ 0))
unfolding new_cost_guard
new-unused cfg checker = ground arith

-- A guard with a limit for the day lets no more calls pass on any day than the limit, whatever the
-- backlog does, as long as the date does not go back.
pub daily_call_limit_holds :
    (cfg : Config) (checker : Option BacklogChecker) (rs : List Readings) (d : ℕ)
    → 0 < cfg.daily_call_limit
    → Ordered 0 rs
    → allowed_on d (new_cost_guard cfg checker) rs ≤ cfg.daily_call_limit
daily_call_limit_holds cfg checker rs d pos o =
    let g = new_cost_guard cfg checker in
    let (limit, unused) = new-unused cfg checker in
    let l =
      allowed_on-Left rs d g (omega (arith, limit)) (omega (arith, limit, unused.1))
        (subst (λ (n : ℕ). Ordered n rs) (sym unused.0) o) in
    ground (arith, limit, unused, l)
