-- ===== src/Validate/News.antt =====
-- internal/processor/validate/domain/news/validator.go: the validator of news. The classes of runes, by the tables
-- of unicode, are parameters. Floats are exact, and a score is rounded down where it is divided.

pub mod Laws
pub mod Scores
mod Tests
use issue_tracker.Prelude.{
  ℕ, zero, suc, ◌+◌, ◌-◌, ◌*◌, ◌/◌, Bool, true, false, ◌&&◌, ◌||◌, not, List, [], ◌∷◌, ◌++◌, ltb,
  leb, if◌then◌else◌, ◌==◌, Bytes, length,
}
use issue_tracker.Prelude.Keys.{nat_eq}
use issue_tracker.Validate.{
  one, Content, ValidationError, ValidationResult, conclude, count_runes, is_blank,
}

-- The part of `ValidateConfig` for news.
pub record Config : Type 0 where
  pub title_min_len : ℕ
  pub title_max_len : ℕ
  pub body_min_len : ℕ
  pub body_max_len : ℕ
  pub min_word_count : ℕ
  pub quality_threshold : ℕ
  pub max_cap_ratio : ℕ
  pub max_punct_ratio : ℕ
  pub weight_word_count : ℕ
  pub weight_meta : ℕ
  pub weight_structure : ℕ

-- `unicode.IsLetter` and `unicode.IsUpper`, and `unicode.IsPunct` or `unicode.IsSymbol`.
pub record Runes : Type 0 where
  pub is_cap : ℕ → Bool
  pub is_punct : ℕ → Bool

unfoldable pub validate_title : Config → Content → List ValidationError
validate_title cfg c =
    if ltb (length c.title) cfg.title_min_len
    then record { field = "Title"; rule = "min_length" } ∷ []
    else if ltb cfg.title_max_len (length c.title)
    then record { field = "Title"; rule = "max_length" } ∷ []
    else []

unfoldable pub validate_body : Config → Content → List ValidationError
validate_body cfg c =
    if ltb (length c.body) cfg.body_min_len
    then record { field = "Body"; rule = "min_length" } ∷ []
    else if ltb cfg.body_max_len (length c.body)
    then record { field = "Body"; rule = "max_length" } ∷ []
    else []

unfoldable pub validate_published_at : Content → List ValidationError
validate_published_at c =
    if not c.article
    then []
    else if c.published_at == 0
    then record { field = "PublishedAt"; rule = "required" } ∷ []
    else []

-- The title, a space and the body.
unfoldable pub text_of : Content → Bytes
text_of c = c.title ++ 32 ∷ c.body

-- `part / total > ratio`.
unfoldable pub above : ℕ → ℕ → ℕ → Bool
above part total ratio = ltb (ratio * total) (part * one)

unfoldable pub detect_spam : Config → Runes → Content → List ValidationError
unfolding above
detect_spam cfg runes c =
    let text = text_of c in
    let total = length text in
    let caps =
      if above (count_runes runes.is_cap text) total cfg.max_cap_ratio
      then record { field = "Body"; rule = "spam_caps" } ∷ []
      else [] in
    let puncts =
      if above (count_runes runes.is_punct text) total cfg.max_punct_ratio
      then record { field = "Body"; rule = "spam_punct" } ∷ []
      else [] in
    if total == 0 then [] else caps ++ puncts

-- A count of words of 0 or less stands as 0.
unfoldable pub score_word_count : Config → ℕ → ℕ
score_word_count cfg wc =
    let least = cfg.min_word_count in
    let half : ℕ = 500000 in
    if wc == 0
    then half
    else if leb (least * 4) wc
    then one
    else if ltb wc least
    then wc * half / least
    else half + (wc - least) * half / (least * 3)

unfoldable pub points : Bool → ℕ → ℕ
points yes_it_is n = if yes_it_is then n else 0

no_tags : List Bytes → Bool
no_tags [] = true
no_tags (t ∷ ts) = false

unfoldable pub score_metadata : Content → ℕ
unfolding no_tags points
score_metadata c =
    points (not (is_blank c.author)) 400000
    + points (not (is_blank c.category)) 300000
    + points (not (no_tags c.tags)) 300000

-- `strings.Contains` of a line break.
has_line_break : Bytes → Bool
has_line_break [] = false
has_line_break (r ∷ rs) = r == 10 || has_line_break rs

unfoldable pub score_structure : Content → ℕ
unfolding has_line_break points
score_structure c =
    points (not (is_blank c.url)) 300000
    + points (not (is_blank c.summary)) 300000
    + points (has_line_break c.body) 400000

unfoldable pub quality_score : Config → Content → ℕ
quality_score cfg c =
    (score_word_count cfg c.word_count * cfg.weight_word_count
      + score_metadata c * cfg.weight_meta
      + score_structure c * cfg.weight_structure)
    / one

-- `Validate`.
unfoldable pub validate : Config → Runes → Content → ValidationResult
validate cfg runes c = conclude cfg.quality_threshold (quality_score cfg c) (
    validate_title cfg c
    ++ (validate_body cfg c ++ (validate_published_at c ++ detect_spam cfg runes c)))
