-- ===== src/Validate/Community/Runs.antt =====
-- What counts as repeated (internal/processor/validate/domain/community/validator.go).
use issue_tracker.Prelude.{
  ℕ, zero, suc, ◌+◌, ◌≡◌, refl, true, false, [], ◌∷◌, ◌++◌, leb, if◌then◌else◌, ◌==◌, arith, Bytes,
  replicate,
}
use issue_tracker.Prelude.Keys.{nat_eq}
use issue_tracker.Validate.Community.{run_points, count_run, count_repeat_runes}

-- A text does not begin with the rune.
abbrev pub BeginsOther : ℕ → Bytes → Type 0
BeginsOther r [] = Unit
BeginsOther r (x ∷ xs) = (x == r) ≡ false

count_run-replicate :
    (least r n m : ℕ) (rest : Bytes)
    → BeginsOther r rest
    → count_run least r m (replicate n r ++ rest)
      ≡ run_points least (m + n) + count_repeat_runes least rest
unfolding count_run count_repeat_runes run_points
count_run-replicate least r zero m [] other =
    let same : m + 0 ≡ m = omega arith in rw (same) (omega arith)
count_run-replicate least r zero m (x ∷ xs) other =
    let same : m + 0 ≡ m = omega arith in rw (other, same) refl
count_run-replicate least r (suc n) m rest other =
    let step : m + suc n ≡ suc m + n = omega arith in
    let self : (r == r) ≡ true = ground arith in
    rw (self, step) (count_run-replicate least r n (suc m) rest other)

-- The repeated runes are counted run by run: a run of one rune, up to a different one, counts with its length if
-- it has the least length and not at all otherwise, and the text behind it as it does alone.
pub count_repeat_runes-replicate :
    (least r n : ℕ) (rest : Bytes)
    → BeginsOther r rest
    → count_repeat_runes least (replicate (suc n) r ++ rest)
      ≡ (if leb least (suc n) then suc n else 0) + count_repeat_runes least rest
unfolding count_repeat_runes run_points
count_repeat_runes-replicate least r n rest other =
    let same : suc n ≡ 1 + n = omega arith in rw (same) (count_run-replicate least r n 1 rest other)
