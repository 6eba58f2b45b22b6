-- ===== src/Llmgen/CallBudget/History.antt =====
-- Any sequence of calls of the budget (internal/processor/parser/rule/llmgen/budget.go) keeps both
-- sliding windows within their caps, where the process counts by itself.
use issue_tracker.Prelude.{
  ℕ, ◌≤◌, ◌<◌, ◌≡◌, ◌≢◌, refl, sym, ap, subst, subst₂, none, some, String, List, [], ◌∷◌, lookup,
  length, arith, ==_iff,
}
use issue_tracker.Prelude.Keys.{string_eq}
use issue_tracker.Llmgen.CallBudget.{
  BudgetConfig, CallBudget, new_call_budget, stamps, kept, prune, local_record, Window, check,
  record_in, Readings, allow, hourly, daily, hour, day, budget_window_hourly, budget_window_daily,
}
use issue_tracker.Llmgen.CallBudget.Sliding.{Tracks, Tracks-few}
use issue_tracker.Llmgen.CallBudget.Laws.{InOrder, admit, allow_in-hourly, allow_in-daily}

-- The readings of a call, for the hourly and for the daily window.
abbrev pub Times : Type 0
Times = Readings × Readings

-- The stamps of the calls that were allowed, in each window, behind those before.
unfoldable pub hours : CallBudget → List Times → List ℕ → List ℕ
hours b [] admitted = admitted
hours b ((h, d) ∷ rs) admitted =
    let a = allow b h d in hours a.budget rs (admit a.allowed admitted h.stamp_at)

unfoldable pub days : CallBudget → List Times → List ℕ → List ℕ
days b [] admitted = admitted
days b ((h, d) ∷ rs) admitted =
    let a = allow b h d in days a.budget rs (admit a.allowed admitted d.stamp_at)

-- The clock does not go back from one reading of a window to the next, nor to `now` at the end.
abbrev pub Ordered : (Times → Readings) → ℕ → List Times → ℕ → Type 0
Ordered pick since [] now = since ≤ now
Ordered pick since (r ∷ rs) now =
    (since ≤ (pick r).count_at)
    × ((pick r).count_at ≤ (pick r).prune_at)
    × ((pick r).prune_at ≤ (pick r).stamp_at)
    × Ordered pick (pick r).stamp_at rs now

pub apart : budget_window_hourly ≢ budget_window_daily
apart = ground (arith, ==_iff {K = String} "hourly" "daily")

cfg-allow : (b : CallBudget) (h d : Readings) → (allow b h d).budget.cfg ≡ b.cfg
unfolding allow check record_in local_record prune
cfg-allow b h d = ground arith

allow-hourly :
    (b : CallBudget) (h d : Readings) (admitted : List ℕ) (since : ℕ)
    → Tracks b (hourly b.cfg h) admitted since
    → 0 < b.cfg.hourly_cap
    → InOrder since (hourly b.cfg h)
    → Tracks
        (allow b h d).budget
        (hourly b.cfg h)
        (admit (allow b h d).allowed admitted h.stamp_at)
        h.stamp_at
unfolding allow
allow-hourly b h d admitted since t pos o =
    allow_in-hourly b (hourly b.cfg h) (daily b.cfg d) apart admitted since t pos o

allow-daily :
    (b : CallBudget) (h d : Readings) (admitted : List ℕ) (since : ℕ)
    → Tracks b (daily b.cfg d) admitted since
    → 0 < b.cfg.daily_cap
    → InOrder since (daily b.cfg d)
    → Tracks
        (allow b h d).budget
        (daily b.cfg d)
        (admit (allow b h d).allowed admitted d.stamp_at)
        d.stamp_at
unfolding allow
allow-daily b h d admitted since t pos o =
    allow_in-daily b (hourly b.cfg h) (daily b.cfg d) apart admitted since t pos o

-- What is tracked does not depend on when the clock is read for the window.
pub Tracks-same :
    (b : CallBudget) (v w : Window) (admitted : List ℕ) (since : ℕ)
    → v.name ≡ w.name
    → v.cap ≡ w.cap
    → v.span ≡ w.span
    → Tracks b v admitted since
    → Tracks b w admitted since
Tracks-same b v w admitted since n c s t = record {
  local_mode = t.local_mode;
  same = λ now h.
      subst₂ (λ (x : ℕ) (y : String). kept now x admitted ≡ kept now x (stamps b y)) s n
        (t.same now h);
  few = subst₂ (λ (x : ℕ) (y : String). length (stamps b y) ≤ x) c n t.few;
}

hours-few :
    (rs : List Times) (b : CallBudget) (any : Readings) (admitted : List ℕ) (since now : ℕ)
    → Tracks b (hourly b.cfg any) admitted since
    → 0 < b.cfg.hourly_cap
    → Ordered (λ r. r.0) since rs now
    → length (kept now hour (hours b rs admitted)) ≤ b.cfg.hourly_cap
unfolding hours
hours-few [] b any admitted since now t pos o =
    Tracks-few b (hourly b.cfg any) admitted since now t o
hours-few ((h, d) ∷ rs) b any admitted since now t pos (p, q, r, o) =
    let a = allow b h d in
    let same = cfg-allow b h d in
    let cap = ap (λ (c : BudgetConfig). c.hourly_cap) same in
    let here = Tracks-same b (hourly b.cfg any) (hourly b.cfg h) admitted since refl refl refl t in
    let next = allow-hourly b h d admitted since here pos (p, q, r) in
    subst
      (λ (n : ℕ).
        length (kept now hour (hours a.budget rs (admit a.allowed admitted h.stamp_at))) ≤ n)
      cap
      (hours-few rs a.budget h (admit a.allowed admitted h.stamp_at) h.stamp_at now
        (Tracks-same a.budget (hourly b.cfg h) (hourly a.budget.cfg h)
          (admit a.allowed admitted h.stamp_at) h.stamp_at refl (sym cap) refl next)
        (omega (arith, cap)) o)

days-few :
    (rs : List Times) (b : CallBudget) (any : Readings) (admitted : List ℕ) (since now : ℕ)
    → Tracks b (daily b.cfg any) admitted since
    → 0 < b.cfg.daily_cap
    → Ordered (λ r. r.1) since rs now
    → length (kept now day (days b rs admitted)) ≤ b.cfg.daily_cap
unfolding days
days-few [] b any admitted since now t pos o = Tracks-few b (daily b.cfg any) admitted since now t o
days-few ((h, d) ∷ rs) b any admitted since now t pos (p, q, r, o) =
    let a = allow b h d in
    let same = cfg-allow b h d in
    let cap = ap (λ (c : BudgetConfig). c.daily_cap) same in
    let here = Tracks-same b (daily b.cfg any) (daily b.cfg d) admitted since refl refl refl t in
    let next = allow-daily b h d admitted since here pos (p, q, r) in
    subst
      (λ (n : ℕ).
        length (kept now day (days a.budget rs (admit a.allowed admitted d.stamp_at))) ≤ n)
      cap
      (days-few rs a.budget d (admit a.allowed admitted d.stamp_at) d.stamp_at now
        (Tracks-same a.budget (daily b.cfg d) (daily a.budget.cfg d)
          (admit a.allowed admitted d.stamp_at) d.stamp_at refl (sym cap) refl next)
        (omega (arith, cap)) o)

abbrev unread : Readings
unread = record { count_at = 0; prune_at = 0; stamp_at = 0 }

abbrev pub fresh : BudgetConfig → CallBudget
fresh cfg = record { cfg = cfg; counter = none; local = []; exceeded = [] }

pub fresh-Tracks : (cfg : BudgetConfig) (w : Window) → Tracks (fresh cfg) w [] 0
unfolding stamps lookup
fresh-Tracks cfg w = record { local_mode = refl; same = λ now h. refl; few = omega arith }

pub new-fresh :
    (cfg : BudgetConfig) (b : CallBudget) → new_call_budget cfg none ≡ some b → fresh cfg ≡ b
unfolding new_call_budget
new-fresh cfg b e = ground arith

-- One caller at a time, each of whose calls of `Allow` returns before the next one begins, a budget made without
-- a shared counter lets no more calls pass in any hour than its hourly cap, if there is one, whatever the daily
-- window does, as long as the clock does not go back: at any time `now`, the calls allowed in the hour before it number at most the cap.
hourly_cap_holds :
    (cfg : BudgetConfig) (b : CallBudget) (rs : List Times) (now : ℕ)
    → new_call_budget cfg none ≡ some b
    → 0 < cfg.hourly_cap
    → Ordered (λ r. r.0) 0 rs now
    → length (kept now hour (hours b rs [])) ≤ cfg.hourly_cap
hourly_cap_holds cfg b rs now e pos o =
    subst (λ (c : CallBudget). length (kept now hour (hours c rs [])) ≤ cfg.hourly_cap)
      (new-fresh cfg b e)
      (hours-few rs (fresh cfg) unread [] 0 now (fresh-Tracks cfg (hourly cfg unread)) pos o)

-- One caller at a time, a budget made without a shared counter lets no more calls pass in any 24 hours than its
-- daily cap, if there is one, whatever the hourly window does, as long as the clock
-- does not go back: at any time `now`, the calls allowed in the day before it number at most the cap.
daily_cap_holds :
    (cfg : BudgetConfig) (b : CallBudget) (rs : List Times) (now : ℕ)
    → new_call_budget cfg none ≡ some b
    → 0 < cfg.daily_cap
    → Ordered (λ r. r.1) 0 rs now
    → length (kept now day (days b rs [])) ≤ cfg.daily_cap
daily_cap_holds cfg b rs now e pos o =
    subst (λ (c : CallBudget). length (kept now day (days c rs [])) ≤ cfg.daily_cap)
      (new-fresh cfg b e)
      (days-few rs (fresh cfg) unread [] 0 now (fresh-Tracks cfg (daily cfg unread)) pos o)
