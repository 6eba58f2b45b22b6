-- ===== src/Llmgen/CallBudget/Sliding.antt =====
-- One sliding window of the local budget (internal/processor/parser/rule/llmgen/budget.go).
use issue_tracker.Prelude.{
  ℕ, ◌≤◌, ◌<◌, ◌≡◌, refl, sym, ap, subst, ◌∙◌, false, none, String, List, [], ◌∷◌, ◌++◌, leb,
  if◌then◌else◌, insert, lookup-insert, length, length-append, arith, ==_refl, ◌==◌,
}
use issue_tracker.Prelude.Keys.{string_eq}
use issue_tracker.Llmgen.CallBudget.{
  CallBudget, stamps, kept, prune, local_record, Window, check, record_in,
}

pub kept-kept :
    (span : ℕ) (ts : List ℕ) (now later : ℕ)
    → now ≤ later
    → kept later span (kept now span ts) ≡ kept later span ts
unfolding kept
kept-kept span [] now later h = refl
kept-kept span (t ∷ ts) now later h = ground (arith, kept-kept span ts now later h)

kept-append :
    (now span : ℕ) (xs ys : List ℕ)
    → kept now span (xs ++ ys) ≡ kept now span xs ++ kept now span ys
unfolding kept
kept-append now span [] ys = refl
kept-append now span (x ∷ xs) ys = ground (arith, kept-append now span xs ys)

pub length-kept-le : (now span : ℕ) (ts : List ℕ) → length (kept now span ts) ≤ length ts
unfolding kept
length-kept-le now span [] = omega arith
length-kept-le now span (t ∷ ts) = ground (arith, length-kept-le now span ts)

stamps-prune :
    (b : CallBudget) (name : String) (span now : ℕ)
    → stamps (prune b name span now) name ≡ kept now span (stamps b name)
unfolding stamps prune
stamps-prune b name span now =
    ground (arith, lookup-insert name name (kept now span (stamps b name)) b.local, ==_refl name)

-- What a write of a window's stamps does to the stamps of a window.
stamps-insert :
    (b : CallBudget) (name other : String) (ts : List ℕ)
    → stamps (record b { local = insert name ts b.local }) other
      ≡ (if name == other then ts else stamps b other)
unfolding stamps
stamps-insert b name other ts = ground (arith, lookup-insert name other ts b.local)

pub stamps-local_record :
    (b : CallBudget) (name : String) (span p s : ℕ)
    → stamps (local_record b name span p s) name ≡ kept p span (stamps b name) ++ s ∷ []
unfolding local_record
stamps-local_record b name span p s =
    let c = prune b name span p in
    ground (
      arith,
      stamps-insert c name name (stamps c name ++ s ∷ []),
      stamps-prune b name span p,
      ==_refl name,
    )

-- `admitted` are the stamps of the calls that the window has let pass, the last of them at `since` at
-- the latest: the window holds the ones that count from then on, and no more than its cap.
pub record Tracks (b : CallBudget) (w : Window) (admitted : List ℕ) (since : ℕ) : Type 0 where
  pub local_mode : b.counter ≡ none
  pub same : (now : ℕ) → since ≤ now → kept now w.span admitted ≡ kept now w.span (stamps b w.name)
  pub few : length (stamps b w.name) ≤ w.cap

-- So in the span before any later time there were no more calls than the cap.
pub Tracks-few :
    (b : CallBudget) (w : Window) (admitted : List ℕ) (since now : ℕ)
    → Tracks b w admitted since
    → since ≤ now
    → length (kept now w.span admitted) ≤ w.cap
Tracks-few b w admitted since now t h =
    omega (
      arith,
      ap (length {A = ℕ}) (t.same now h),
      length-kept-le now w.span (stamps b w.name),
      t.few,
    )

local_record-same :
    (w : Window) (ts us : List ℕ) (since now : ℕ)
    → ((n : ℕ) → since ≤ n → kept n w.span ts ≡ kept n w.span us)
    → since ≤ w.prune_at
    → w.prune_at ≤ now
    → kept now w.span (ts ++ w.stamp_at ∷ [])
      ≡ kept now w.span (kept w.prune_at w.span us ++ w.stamp_at ∷ [])
local_record-same w ts us since now same p s =
    kept-append now w.span ts (w.stamp_at ∷ [])
    ∙ ap (λ (l : List ℕ). l ++ kept now w.span (w.stamp_at ∷ []))
        (same now (omega arith) ∙ sym (kept-kept w.span us w.prune_at now s))
    ∙ sym (kept-append now w.span (kept w.prune_at w.span us) (w.stamp_at ∷ []))

pub record_in-local :
    (b : CallBudget) (w : Window)
    → b.counter ≡ none
    → 0 < w.cap
    → record_in b w ≡ local_record b w.name w.span w.prune_at w.stamp_at
unfolding record_in
record_in-local b w h pos = ground arith

counter-local_record :
    (b : CallBudget) (name : String) (span p s : ℕ)
    → (local_record b name span p s).counter ≡ b.counter
unfolding local_record prune
counter-local_record b name span p s = refl

pub record_in-Tracks :
    (b : CallBudget) (w : Window) (admitted : List ℕ) (since : ℕ)
    → Tracks b w admitted since
    → 0 < w.cap
    → length (stamps b w.name) < w.cap
    → since ≤ w.prune_at
    → w.prune_at ≤ w.stamp_at
    → Tracks (record_in b w) w (admitted ++ w.stamp_at ∷ []) w.stamp_at
record_in-Tracks b w admitted since t pos room p s =
    subst (λ (c : CallBudget). Tracks c w (admitted ++ w.stamp_at ∷ []) w.stamp_at)
      (sym (record_in-local b w t.local_mode pos))
      (record {
        local_mode = counter-local_record b w.name w.span w.prune_at w.stamp_at ∙ t.local_mode;
        same = λ now h.
            local_record-same w admitted (stamps b w.name) since now t.same p (omega arith)
            ∙ ap (kept now w.span) (sym recorded);
        few = omega (
          arith,
          ap (length {A = ℕ}) recorded,
          length-append (kept w.prune_at w.span (stamps b w.name)) (w.stamp_at ∷ []),
          length-kept-le w.prune_at w.span (stamps b w.name),
        );
      })
  where
    recorded :
        stamps (local_record b w.name w.span w.prune_at w.stamp_at) w.name
        ≡ kept w.prune_at w.span (stamps b w.name) ++ w.stamp_at ∷ []
    recorded = stamps-local_record b w.name w.span w.prune_at w.stamp_at

pub check-local :
    (b : CallBudget) (w : Window)
    → b.counter ≡ none
    → 0 < w.cap
    → (stamps (check b w).0 w.name ≡ kept w.count_at w.span (stamps b w.name))
      × ((check b w).1 ≡ leb w.cap (length (kept w.count_at w.span (stamps b w.name))))
      × ((check b w).0.counter ≡ none)
unfolding check prune stamps
check-local b w h pos = ground (
  arith,
  lookup-insert w.name w.name (kept w.count_at w.span (stamps b w.name)) b.local,
  ==_refl w.name,
)

pub check-Tracks :
    (b : CallBudget) (w : Window) (admitted : List ℕ) (since : ℕ)
    → Tracks b w admitted since
    → 0 < w.cap
    → since ≤ w.count_at
    → Tracks (check b w).0 w admitted w.count_at
      × ((check b w).1 ≡ false → length (stamps (check b w).0 w.name) < w.cap)
check-Tracks b w admitted since t pos h =
    let (pruned, full, still) = check-local b w t.local_mode pos in
    (
      record {
        local_mode = still;
        same = λ now later.
            t.same now (omega arith)
            ∙ sym (kept-kept w.span (stamps b w.name) w.count_at now later)
            ∙ ap (kept now w.span) (sym pruned);
        few = omega (
          arith,
          ap (length {A = ℕ}) pruned,
          length-kept-le w.count_at w.span (stamps b w.name),
          t.few,
        );
      },
      λ open_. ground (arith, ap (length {A = ℕ}) pruned, full, open_),
    )
