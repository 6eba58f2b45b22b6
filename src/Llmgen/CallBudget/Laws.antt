-- ===== src/Llmgen/CallBudget/Laws.antt =====
-- The budget keeps both windows within their caps (internal/processor/parser/rule/llmgen/budget.go).
use issue_tracker.Prelude.{
  ℕ, ◌≤◌, ◌<◌, ◌≡◌, ◌≢◌, refl, sym, ap, subst, ◌∙◌, Bool, true, false, String, List, [], ◌∷◌, ◌++◌,
  if◌then◌else◌, lookup-insert, length, arith, ==_iff, Bool-cases, inl, inr,
}
use issue_tracker.Prelude.Keys.{string_eq}
use issue_tracker.Llmgen.CallBudget.{
  CallBudget, stamps, kept, prune, local_record, Window, check, record_in, Answer, allow_in,
}
use issue_tracker.Llmgen.CallBudget.Sliding.{Tracks, check-Tracks, record_in-Tracks}

abbrev refusal : CallBudget → Window → Answer
refusal b w = record { budget = b; allowed = false; window = w.name }

abbrev passage : CallBudget → Answer
passage b = record { budget = b; allowed = true; window = "" }

-- What a window's steps leave alone.
pub check-other :
    (b : CallBudget) (w : Window) (other : String)
    → w.name ≢ other
    → (stamps (check b w).0 other ≡ stamps b other) × ((check b w).0.counter ≡ b.counter)
unfolding check prune stamps
check-other b w other h = ground (
  arith,
  lookup-insert w.name other (kept w.count_at w.span (stamps b w.name)) b.local,
  ==_iff w.name other,
)

pub record_in-other :
    (b : CallBudget) (w : Window) (other : String)
    → w.name ≢ other
    → (stamps (record_in b w) other ≡ stamps b other) × ((record_in b w).counter ≡ b.counter)
unfolding record_in local_record prune stamps
record_in-other b w other h =
    let c = prune b w.name w.span w.prune_at in
    ground (
      arith,
      lookup-insert w.name other (kept w.prune_at w.span (stamps b w.name)) b.local,
      lookup-insert w.name other (stamps c w.name ++ w.stamp_at ∷ []) c.local,
      ==_iff w.name other,
    )

pub Tracks-eq :
    (b c : CallBudget) (w : Window) (admitted : List ℕ) (since later : ℕ)
    → Tracks b w admitted since
    → (stamps c w.name ≡ stamps b w.name) × (c.counter ≡ b.counter)
    → since ≤ later
    → Tracks c w admitted later
Tracks-eq b c w admitted since later t (e, k) h = record {
  local_mode = k ∙ t.local_mode;
  same = λ now l. t.same now (omega arith) ∙ ap (kept now w.span) (sym e);
  few = omega (arith, ap (length {A = ℕ}) e, t.few);
}

-- The readings for a window, in order and not before `since`.
abbrev pub InOrder : ℕ → Window → Type 0
InOrder since w = (since ≤ w.count_at) × (w.count_at ≤ w.prune_at) × (w.prune_at ≤ w.stamp_at)

abbrev pub admit : Bool → List ℕ → ℕ → List ℕ
admit ok admitted t = if ok then admitted ++ t ∷ [] else admitted

module _ (b : CallBudget) (h d : Window) (apart : h.name ≢ d.name) where
  abbrev checked : CallBudget
  checked = (check b h).0

  abbrev judged : CallBudget
  judged = (check checked d).0

  -- The three ways through `Allow`.
  allow_in-refused_h : (check b h).1 ≡ true → allow_in b h d ≡ refusal checked h
  unfolding allow_in
  allow_in-refused_h full = rw (full, if◌then◌else◌)

  allow_in-refused_d :
      (check b h).1 ≡ false → (check checked d).1 ≡ true → allow_in b h d ≡ refusal judged d
  unfolding allow_in
  allow_in-refused_d open_ full = rw (open_, full, if◌then◌else◌)

  allow_in-passed :
      (check b h).1 ≡ false
      → (check checked d).1 ≡ false
      → allow_in b h d ≡ passage (record_in (record_in judged h) d)
  unfolding allow_in
  allow_in-passed open_ room = rw (open_, room, if◌then◌else◌)

  abbrev pub After : Window → List ℕ → Answer → Type 0
  After w admitted a = Tracks a.budget w (admit a.allowed admitted w.stamp_at) w.stamp_at

  module _ (admitted : List ℕ) (since : ℕ) where
    pub allow_in-hourly :
        Tracks b h admitted since → 0 < h.cap → InOrder since h → After h admitted (allow_in b h d)
    allow_in-hourly t pos (o, p, q) =
        let (counted, room) = check-Tracks b h admitted since t pos o in
        let other = check-other checked d h.name (λ e. apart (sym e)) in
        elim (Bool-cases (check b h).1) [
          | inl full ↦ subst (After h admitted) (sym (allow_in-refused_h full)) (
              Tracks-eq checked checked h admitted h.count_at h.stamp_at counted (refl, refl)
                (omega arith))
          | inr open_ ↦
              let before =
                Tracks-eq checked judged h admitted h.count_at h.count_at counted other
                  (omega arith) in
              elim (Bool-cases (check checked d).1) [
                | inl full ↦ subst (After h admitted) (sym (allow_in-refused_d open_ full)) (
                    Tracks-eq judged judged h admitted h.count_at h.stamp_at before (refl, refl)
                      (omega arith))
                | inr free ↦ subst (After h admitted) (sym (allow_in-passed open_ free)) (
                    Tracks-eq (record_in judged h) (record_in (record_in judged h) d) h
                      (admitted ++ h.stamp_at ∷ []) h.stamp_at h.stamp_at
                      (record_in-Tracks judged h admitted h.count_at before pos
                        (omega (arith, ap (length {A = ℕ}) other.0, room open_)) p q)
                      (record_in-other (record_in judged h) d h.name (λ e. apart (sym e)))
                      (omega arith))
              ]
        ]

    pub allow_in-daily :
        Tracks b d admitted since → 0 < d.cap → InOrder since d → After d admitted (allow_in b h d)
    allow_in-daily t pos (o, p, q) =
        let first =
          Tracks-eq b checked d admitted since since t (check-other b h d.name apart)
            (omega arith) in
        let (counted, room) = check-Tracks checked d admitted since first pos o in
        elim (Bool-cases (check b h).1) [
          | inl full ↦ subst (After d admitted) (sym (allow_in-refused_h full)) (
              Tracks-eq checked checked d admitted since d.stamp_at first (refl, refl)
                (omega arith))
          | inr open_ ↦ elim (Bool-cases (check checked d).1) [
            | inl full ↦ subst (After d admitted) (sym (allow_in-refused_d open_ full)) (
                Tracks-eq judged judged d admitted d.count_at d.stamp_at counted (refl, refl)
                  (omega arith))
            | inr free ↦
                let other = record_in-other judged h d.name apart in
                subst (After d admitted) (sym (allow_in-passed open_ free)) (
                  record_in-Tracks (record_in judged h) d admitted d.count_at
                    (Tracks-eq judged (record_in judged h) d admitted d.count_at d.count_at counted
                      other (omega arith))
                    pos (omega (arith, ap (length {A = ℕ}) other.0, room free)) p q)
          ]
        ]
