-- ===== src/Validate/News/Scores.antt =====
-- The bounds of the score of news (internal/processor/validate/domain/news/validator.go).
use native.Mathlib.Nat.{mul-le-mul_right, div-le_of_le-mul}
use issue_tracker.Prelude.{ℕ, ◌+◌, ◌-◌, ◌*◌, ◌/◌, ◌≤◌, arith}
use issue_tracker.Prelude.Keys.{nat_eq}
use issue_tracker.Validate.{one, Content}
use issue_tracker.Validate.News.{
  Config, score_word_count, points, score_metadata, score_structure, quality_score,
}

score_metadata-le : (c : Content) → score_metadata c ≤ one
unfolding score_metadata points
score_metadata-le c = ground arith

score_structure-le : (c : Content) → score_structure c ≤ one
unfolding score_structure points
score_structure-le c = ground arith

-- A part that is at most the whole has at most the points of the whole.
share_le : (part whole n : ℕ) → part ≤ whole → part * n / whole ≤ n
share_le part whole n within = div-le_of_le-mul whole (mul-le-mul_right n within)

score_word_count-le : (cfg : Config) (wc : ℕ) → score_word_count cfg wc ≤ one
unfolding score_word_count
score_word_count-le cfg wc = ground (
  arith,
  share_le wc cfg.min_word_count 500000,
  share_le (wc - cfg.min_word_count) (cfg.min_word_count * 3) 500000,
)

-- The score of an article is at most 1 where the weights sum to at most 1.
pub quality_score-le :
    (cfg : Config) (c : Content)
    → cfg.weight_word_count + cfg.weight_meta + cfg.weight_structure ≤ one
    → quality_score cfg c ≤ one
unfolding quality_score
quality_score-le cfg c weights =
    let words = mul-le-mul_right cfg.weight_word_count (score_word_count-le cfg c.word_count) in
    let meta = mul-le-mul_right cfg.weight_meta (score_metadata-le c) in
    let structure = mul-le-mul_right cfg.weight_structure (score_structure-le c) in
    div-le_of_le-mul one (omega (arith, words, meta, structure, weights))
