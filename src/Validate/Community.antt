-- ===== src/Validate/Community.antt =====
-- internal/processor/validate/domain/community/validator.go: the validator of posts of communities. Trimming of
-- white space in a URL, by the tables of unicode, is a parameter.

pub mod Laws
mod Tests
pub mod Runs
use issue_tracker.Prelude.{
  ℕ, zero, suc, ◌+◌, ◌*◌, ◌/◌, Bool, true, false, not, List, [], ◌∷◌, ◌++◌, ltb, leb, if◌then◌else◌,
  ◌==◌, Bytes, length,
}
use issue_tracker.Prelude.Keys.{nat_eq}
use issue_tracker.Validate.{one, Content, ValidationError, ValidationResult, conclude, is_blank}
use issue_tracker.Validate.News.{above, points}

pub record Config : Type 0 where
  pub body_min_len : ℕ
  pub quality_threshold : ℕ
  pub max_repeat_ratio : ℕ
  pub min_repeat_run : ℕ

unfoldable pub validate_body : Config → Content → List ValidationError
validate_body cfg c =
    if ltb (length c.body) cfg.body_min_len
    then record { field = "Body"; rule = "min_length" } ∷ []
    else []

unfoldable pub run_points : ℕ → ℕ → ℕ
run_points least n = if leb least n then n else 0

-- The loops of `countRepeatRunes`, within a run of a rune that has `n` of it so far.
unfoldable pub count_run : ℕ → ℕ → ℕ → Bytes → ℕ
unfolding run_points
count_run least r n [] = run_points least n
count_run least r n (x ∷ xs) =
    let on = count_run least r (suc n) xs in
    let fresh = count_run least x 1 xs in if x == r then on else run_points least n + fresh

unfoldable pub count_repeat_runes : ℕ → Bytes → ℕ
count_repeat_runes least [] = 0
count_repeat_runes least (r ∷ rs) = count_run least r 1 rs

unfoldable pub detect_flood : Config → Content → List ValidationError
detect_flood cfg c =
    if length c.body == 0
    then []
    else if above (count_repeat_runes cfg.min_repeat_run c.body) (length c.body)
        cfg.max_repeat_ratio
    then record { field = "Body"; rule = "spam_flood" } ∷ []
    else []

unfoldable pub score_body : Config → Bytes → ℕ
score_body cfg body =
    if ltb (length body) cfg.body_min_len
    then 0
    else if leb 200 (length body)
    then one
    else length body * one / 200

unfoldable pub score_meta : (Bytes → Bytes) → Content → ℕ
score_meta trim_space c =
    points (not (is_blank c.title)) 400000
    + points (not (c.published_at == 0)) 300000
    + points (not (is_blank (trim_space c.url))) 300000

unfoldable pub quality_score : Config → (Bytes → Bytes) → Content → ℕ
quality_score cfg trim_space c = (score_body cfg c.body * 6 + score_meta trim_space c * 4) / 10

-- `Validate`.
unfoldable pub validate : Config → (Bytes → Bytes) → Content → ValidationResult
validate cfg trim_space c =
    conclude cfg.quality_threshold (quality_score cfg trim_space c)
      (validate_body cfg c ++ detect_flood cfg c)
