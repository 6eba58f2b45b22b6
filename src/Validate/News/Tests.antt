-- ===== src/Validate/News/Tests.antt =====
-- Runs of the validator of news on concrete articles (internal/processor/validate/domain/news/validator.go).
use issue_tracker.Prelude.{◌≡◌, ◌↔◌, ◌≤◌, arith, true, [], ◌∷◌, ltb, refl}
use issue_tracker.Validate.{one, Content, none_yet, conclude, is_blank, count_runes}
use issue_tracker.Validate.News.{
  Config, Runes, quality_score, score_word_count, score_metadata, score_structure, validate_title,
  validate_body, validate_published_at, detect_spam, text_of, validate,
}
use issue_tracker.Validate.News.Scores.{quality_score-le}
use issue_tracker.Validate.News.Laws.{Meets, validate-Meets}

abbrev config : Config
config = record {
  title_min_len = 2;
  title_max_len = 9;
  body_min_len = 4;
  body_max_len = 90;
  min_word_count = 1;
  quality_threshold = 300000;
  max_cap_ratio = 500000;
  max_punct_ratio = 300000;
  weight_word_count = 400000;
  weight_meta = 300000;
  weight_structure = 300000;
}

abbrev runes : Runes
runes = record { is_cap = λ r. ltb r 91; is_punct = λ r. ltb r 48 }

abbrev article : Content
article = record {
  title = 84 ∷ 105 ∷ 116 ∷ [];
  body = 110 ∷ 101 ∷ 119 ∷ 115 ∷ 10 ∷ 111 ∷ 107 ∷ [];
  summary = [];
  author = 97 ∷ [];
  published_at = 5;
  category = 98 ∷ [];
  tags = [];
  url = 117 ∷ [];
  word_count = 2;
  article = true;
}

quality_score_run : quality_score config article ≡ 686666
unfolding quality_score score_word_count score_metadata is_blank score_structure
quality_score_run = refl

validate_run : (validate config runes article).is_valid ≡ true
unfolding validate conclude quality_score score_word_count score_metadata is_blank score_structure
    validate_title validate_body validate_published_at detect_spam text_of count_runes
validate_run = refl

validate-Meets_example :
    (((validate config runes article).is_valid ≡ true) ↔ Meets config runes article)
    × ((validate config runes article).is_valid ≡ none_yet (validate config runes article).errors)
validate-Meets_example = validate-Meets config runes article

quality_score-le_example : quality_score config article ≤ one
quality_score-le_example = quality_score-le config article (omega arith)
