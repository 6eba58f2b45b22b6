-- ===== src/Llmgen/CallBudget/Shared.antt =====
-- The budget with a counter that the instances share
-- (internal/processor/parser/rule/llmgen/budget.go).
use issue_tracker.Prelude.{
  ℕ, ◌≤◌, ◌<◌, ◌≡◌, refl, ◌↔◌, ◌⊎◌, inl, inr, Bool, true, false, Option, none, some, String, leb,
  Bool-cases, arith,
}
use issue_tracker.Prelude.Keys.{nat_eq}
use issue_tracker.Llmgen.CallBudget.{
  CallBudget, Window, check, allow, allow_in, Readings, budget_window_hourly, budget_window_daily,
  hourly, daily,
}

-- A window with a cap, whose count the counter answers and finds to be at the cap.
abbrev pub Full : ℕ → Option ℕ → Type 0
Full cap counted = (0 < cap) × ((n : ℕ) × (counted ≡ some n) × (cap ≤ n))

reached : ℕ → Option ℕ → Bool
reached cap none = false
reached cap (some n) = leb cap n

count-Full :
    (cap : ℕ) (counted : Option ℕ) → 0 < cap → (reached cap counted ≡ true) ↔ Full cap counted
unfolding reached
count-Full limit none pos = (λ e. ground arith, λ (p, (n, e, l)). ground arith)
count-Full limit (some n) pos =
    (λ e. (pos, (n, refl, ground arith)), λ (p, (m, e, l)). ground arith)

counter-check :
    (b : CallBudget) (w : Window) (count : String → Option ℕ)
    → b.counter ≡ some count
    → ((check b w).0.counter ≡ some count) × (((check b w).1 ≡ true) ↔ Full w.cap (count w.name))
unfolding check
counter-check b w count e = ground (arith, count-Full w.cap (count w.name))

-- With a shared counter, a call is refused just when a window that has a cap has a count and the count
-- has reached the cap: a counter that fails lets the call pass.
allow_iff_room :
    (b : CallBudget) (count : String → Option ℕ) (h d : Readings)
    → b.counter ≡ some count
    → ((allow b h d).allowed ≡ false) ↔ (
        Full b.cfg.hourly_cap (count budget_window_hourly)
        ⊎ Full b.cfg.daily_cap (count budget_window_daily))
unfolding allow allow_in
allow_iff_room b count h d e =
    let w = hourly b.cfg h in
    let v = daily b.cfg d in
    let (keeps, full_h) = counter-check b w count e in
    let (still, full_d) = counter-check (check b w).0 v count keeps in
    (
      λ r. elim (Bool-cases (check b w).1) [
        | inl full ↦ inl (full_h.0 full)
        | inr open_ ↦ inr (full_d.0 (ground arith))
      ],
      λ r. elim r [
        | inl full ↦ ground (arith, full_h.1 full)
        | inr full ↦ ground (arith, full_d.1 full)
      ],
    )
