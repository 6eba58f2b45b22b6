-- ===== src/Llmgen/CallBudget/Callers/Cap.antt =====
-- How far callers that run at the same time pass the hourly cap (internal/processor/parser/rule/llmgen/budget.go).
use issue_tracker.Prelude.{
  lookup, ℕ, ◌+◌, ◌-◌, ◌≤◌, ◌<◌, ◌≡◌, refl, sym, ap, subst, ◌∙◌, Bool, true, false, none, some,
  List, [], ◌∷◌, ◌++◌, ltb, ◌==◌, if◌then◌else◌, length, length-append, arith, Bool-cases, inl, inr,
}
use issue_tracker.Prelude.Keys.{nat_eq, string_eq}
use issue_tracker.Llmgen.CallBudget.{
  BudgetConfig, CallBudget, new_call_budget, stamps, kept, prune, local_record, Window, check,
  record_in, Readings, hourly, daily, hour, budget_window_hourly, window_of,
}
use issue_tracker.Llmgen.CallBudget.Sliding.{
  Tracks, Tracks-few, kept-kept, length-kept-le, check-local, record_in-local, record_in-Tracks,
  stamps-local_record,
}
use issue_tracker.Llmgen.CallBudget.Laws.{check-other, record_in-other, Tracks-eq}
use issue_tracker.Llmgen.CallBudget.History.{Tracks-same, apart, fresh, fresh-Tracks, new-fresh}
use issue_tracker.Llmgen.CallBudget.Callers.{
  Event, asks_hour, asks_day, records_hour, records_day, Pool, asked_hour, asked_day, caller_step,
  callers_run, idle, Forward,
}

-- The hourly window, with room for the callers that are inside.
abbrev wide : BudgetConfig → ℕ → Readings → Window
wide cfg callers = window_of budget_window_hourly (cfg.hourly_cap + (callers - 1)) hour

-- What was recorded and what is still to be recorded have room.
record Held (cfg : BudgetConfig) (callers : ℕ) (p : Pool) (since : ℕ) : Type 0 where
  tracks : (r : Readings) → Tracks p.budget (wide cfg callers r) p.admitted since
  room : p.inside + length (stamps p.budget budget_window_hourly) ≤ cfg.hourly_cap + (callers - 1)

cfg-caller_step :
    (callers : ℕ) (p : Pool) (e : Event) → (caller_step callers p e).budget.cfg ≡ p.budget.cfg
unfolding caller_step check record_in local_record prune
cfg-caller_step callers p (asks_hour r) = ground arith
cfg-caller_step callers p (asks_day r) = ground arith
cfg-caller_step callers p (records_hour r) = ground arith
cfg-caller_step callers p (records_day r) = ground arith

module _ (callers : ℕ) (p : Pool) (since : ℕ) (held : Held p.budget.cfg callers p since)
    (pos : 0 < p.budget.cfg.hourly_cap) where
  abbrev cfg : BudgetConfig
  cfg = p.budget.cfg

  -- After the hourly window was asked, whatever the answer.
  counted-Tracks :
      (r s : Readings)
      → since ≤ r.count_at
      → Tracks (check p.budget (hourly cfg r)).0 (wide cfg callers s) p.admitted r.count_at
  counted-Tracks r s later =
      let t = held.tracks s in
      let (pruned, full, still) = check-local p.budget (hourly cfg r) t.local_mode pos in
      record {
        local_mode = still;
        same = λ now after.
            t.same now (omega arith)
            ∙ sym (kept-kept hour (stamps p.budget budget_window_hourly) r.count_at now after)
            ∙ ap (kept now hour) (sym pruned);
        few = omega (
          arith,
          ap (length {A = ℕ}) pruned,
          length-kept-le r.count_at hour (stamps p.budget budget_window_hourly),
          t.few,
        );
      }

  counted-few :
      (r : Readings)
      → (length (stamps (check p.budget (hourly cfg r)).0 budget_window_hourly)
          ≤ length (stamps p.budget budget_window_hourly))
        × ((check p.budget (hourly cfg r)).1 ≡ false
            → length (stamps (check p.budget (hourly cfg r)).0 budget_window_hourly)
              < cfg.hourly_cap)
  counted-few r =
      let (pruned, full, still) =
        check-local p.budget (hourly cfg r) (held.tracks r).local_mode pos in
      (
        omega (
          arith,
          ap (length {A = ℕ}) pruned,
          length-kept-le r.count_at hour (stamps p.budget budget_window_hourly),
        ),
        λ open_. ground (arith, ap (length {A = ℕ}) pruned, full, open_),
      )

  asked_hour-Held :
      (r : Readings) (answer : Bool)
      → (check p.budget (hourly cfg r)).1 ≡ answer
      → since ≤ r.count_at
      → p.inside < callers
      → Held cfg callers (asked_hour ((check p.budget (hourly cfg r)).0, answer) p) r.count_at
  unfolding asked_hour
  asked_hour-Held r true e later free = record {
    tracks = λ s. counted-Tracks r s later;
    room = omega (arith, (counted-few r).0, held.room);
  }
  asked_hour-Held r false e later free = record {
    tracks = λ s. counted-Tracks r s later;
    room = omega (arith, (counted-few r).1 e, free);
  }

  -- A step on the other window.
  other-Held :
      (b : CallBudget) (n : ℕ)
      → (stamps b budget_window_hourly ≡ stamps p.budget budget_window_hourly)
        × (b.counter ≡ p.budget.counter)
      → n ≤ p.inside
      → Held cfg callers (record p { budget = b; inside = n }) since
  other-Held b n same few = record {
    tracks = λ s.
        Tracks-eq p.budget b (wide cfg callers s) p.admitted since since (held.tracks s) same
          (omega arith);
    room = omega (arith, ap (length {A = ℕ}) same.0, held.room, few);
  }

  records_hour-Held :
      (r : Readings)
      → since ≤ r.prune_at
      → r.prune_at ≤ r.stamp_at
      → 0 < p.inside
      → Held cfg callers
          (record {
            budget = record_in p.budget (hourly cfg r);
            inside = p.inside - 1;
            admitted = p.admitted ++ r.stamp_at ∷ [];
          })
          r.stamp_at
  records_hour-Held r later last some_ =
      let t = held.tracks r in
      let w = hourly cfg r in
      let v = wide cfg callers r in
      let narrow = record_in-local p.budget w t.local_mode pos in
      let broad = record_in-local p.budget v t.local_mode (omega (arith, pos)) in
      let recorded =
        ap (λ (b : CallBudget). stamps b budget_window_hourly) narrow
        ∙ stamps-local_record p.budget budget_window_hourly hour r.prune_at r.stamp_at in
      let done =
        subst (λ (b : CallBudget). Tracks b v (p.admitted ++ r.stamp_at ∷ []) r.stamp_at)
          (broad ∙ sym narrow)
          (record_in-Tracks p.budget v p.admitted since t (omega (arith, pos))
            (omega (arith, held.room, some_)) later last) in
      record {
        tracks = λ s.
            Tracks-same (record_in p.budget w) v (wide cfg callers s)
              (p.admitted ++ r.stamp_at ∷ []) r.stamp_at refl refl refl done;
        room = omega (
          arith,
          ap (length {A = ℕ}) recorded,
          length-append (kept r.prune_at hour (stamps p.budget budget_window_hourly))
              (r.stamp_at ∷ []),
          length-kept-le r.prune_at hour (stamps p.budget budget_window_hourly),
          held.room,
          some_,
        );
      }

  later-Held : (later : ℕ) → since ≤ later → Held cfg callers p later
  later-Held later h = record {
    tracks = λ s.
        Tracks-eq p.budget p.budget (wide cfg callers s) p.admitted since later (held.tracks s)
          (refl, refl) h;
    room = held.room;
  }

  asked_day-Held :
      (r : Readings) (answer : Bool)
      → Held cfg callers (asked_day ((check p.budget (daily cfg r)).0, answer) p) since
  unfolding asked_day
  asked_day-Held r true =
      other-Held (check p.budget (daily cfg r)).0 (p.inside - 1)
        (check-other p.budget (daily cfg r) budget_window_hourly (λ e. apart (sym e))) (omega arith)
  asked_day-Held r false =
      other-Held (check p.budget (daily cfg r)).0 p.inside
        (check-other p.budget (daily cfg r) budget_window_hourly (λ e. apart (sym e))) (omega arith)

  -- The time of the clock after a step.
  abbrev reading : Event → ℕ
  reading (asks_hour r) = r.count_at
  reading (asks_day r) = since
  reading (records_hour r) = r.stamp_at
  reading (records_day r) = since

  caller_step-Held :
      (e : Event) (es : List Event) (now : ℕ)
      → Forward since (e ∷ es) now
      → Held cfg callers (caller_step callers p e) (reading e) × Forward (reading e) es now
  unfolding caller_step
  caller_step-Held (asks_hour r) es now (later, on) = (
    elim (Bool-cases (ltb p.inside callers)) [
      | inl free ↦
          rw (free, if◌then◌else◌)
            (asked_hour-Held r (check p.budget (hourly cfg r)).1 refl later (ground (arith, free)))
      | inr full ↦ rw (full, if◌then◌else◌) (later-Held r.count_at later)
    ],
    on,
  )
  caller_step-Held (asks_day r) es now on = (
    elim (Bool-cases (p.inside == 0)) [
      | inl nobody ↦ rw (nobody, if◌then◌else◌) held
      | inr some_ ↦ rw (some_, if◌then◌else◌) (asked_day-Held r (check p.budget (daily cfg r)).1)
    ],
    on,
  )
  caller_step-Held (records_hour r) es now (later, last, on) = (
    elim (Bool-cases (p.inside == 0)) [
      | inl nobody ↦ rw (nobody, if◌then◌else◌) (later-Held r.stamp_at (omega arith))
      | inr some_ ↦
          rw (some_, if◌then◌else◌) (records_hour-Held r later last (ground (arith, some_)))
    ],
    on,
  )
  caller_step-Held (records_day r) es now on = (
    other-Held (record_in p.budget (daily cfg r)) p.inside
        (record_in-other p.budget (daily cfg r) budget_window_hourly (λ e. apart (sym e)))
        (omega arith),
    on,
  )

callers_run-few :
    (callers : ℕ) (es : List Event) (p : Pool) (since now : ℕ)
    → Held p.budget.cfg callers p since
    → 0 < p.budget.cfg.hourly_cap
    → Forward since es now
    → length (kept now hour (callers_run callers p es).admitted)
      ≤ p.budget.cfg.hourly_cap + (callers - 1)
unfolding callers_run
callers_run-few callers [] p since now held pos on =
    let any : Readings = record { count_at = 0; prune_at = 0; stamp_at = 0 } in
    Tracks-few p.budget (wide p.budget.cfg callers any) p.admitted since now (held.tracks any) on
callers_run-few callers (e ∷ es) p since now held pos on =
    let q = caller_step callers p e in
    let (held', on') = caller_step-Held callers p since held pos e es now on in
    let same = cfg-caller_step callers p e in
    subst
      (λ (c : BudgetConfig).
        length (kept now hour (callers_run callers q es).admitted) ≤ c.hourly_cap + (callers - 1))
      same
      (callers_run-few callers es q (reading callers p since held pos e) now
        (subst (λ (c : BudgetConfig). Held c callers q (reading callers p since held pos e))
          (sym same) held')
        (subst (λ (c : BudgetConfig). 0 < c.hourly_cap) (sym same) pos) on')

-- However many callers ask a budget at the same time, in any order of their steps, it lets no more calls pass in
-- any hour than its hourly cap and, besides, one for each further caller: with at most `callers` of them between
-- the check of the hourly window and the record in it, the calls recorded in the hour before any time `now` number
-- at most the cap and `callers - 1`. The budget has no shared counter and an hourly cap, and its clock does not go
-- back.
pub hourly_cap_callers :
    (cfg : BudgetConfig) (b : CallBudget) (callers : ℕ) (es : List Event) (now : ℕ)
    → new_call_budget cfg none ≡ some b
    → 0 < cfg.hourly_cap
    → Forward 0 es now
    → length (kept now hour (callers_run callers (idle b) es).admitted)
      ≤ cfg.hourly_cap + (callers - 1)
unfolding idle stamps lookup
hourly_cap_callers cfg b callers es now e pos on =
    subst
      (λ (c : CallBudget).
        length (kept now hour (callers_run callers (idle c) es).admitted)
        ≤ cfg.hourly_cap + (callers - 1))
      (new-fresh cfg b e)
      (callers_run-few callers es (idle (fresh cfg)) 0 now
        (record { tracks = λ r. fresh-Tracks cfg (wide cfg callers r); room = omega (arith, pos) })
        pos on)
