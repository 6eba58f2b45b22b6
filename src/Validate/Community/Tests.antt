-- ===== src/Validate/Community/Tests.antt =====
-- Runs of the validator of posts on a concrete post (internal/processor/validate/domain/community/validator.go).
use issue_tracker.Prelude.{
  ◌≡◌, ◌↔◌, ◌+◌, ◌++◌, leb, if◌then◌else◌, replicate, true, false, [], ◌∷◌, refl,
}
use issue_tracker.Validate.{Content, none_yet, conclude, is_blank}
use issue_tracker.Validate.News.{points, above}
use issue_tracker.Validate.Community.{
  Config, count_repeat_runes, count_run, quality_score, score_body, score_meta, validate_body,
  detect_flood, validate,
}
use issue_tracker.Validate.Community.Runs.{count_repeat_runes-replicate}
use issue_tracker.Validate.Community.Laws.{MeetsPost, validate-MeetsPost}

abbrev config : Config
config = record {
  body_min_len = 2;
  quality_threshold = 300000;
  max_repeat_ratio = 600000;
  min_repeat_run = 3;
}

abbrev post : Content
post = record {
  title = 84 ∷ 105 ∷ 116 ∷ [];
  body = 110 ∷ 101 ∷ 119 ∷ 115 ∷ 10 ∷ 111 ∷ 107 ∷ [];
  summary = [];
  author = 97 ∷ [];
  published_at = 5;
  category = 98 ∷ [];
  tags = [];
  url = 117 ∷ [];
  word_count = 2;
  article = false;
}

count_repeat_runes_run : count_repeat_runes 3 (7 ∷ 7 ∷ 7 ∷ 8 ∷ 8 ∷ 9 ∷ 9 ∷ 9 ∷ 9 ∷ []) ≡ 7
unfolding count_repeat_runes count_run
count_repeat_runes_run = refl

validate_run : (validate config (λ s. s) post).is_valid ≡ true
unfolding validate conclude quality_score score_body score_meta points is_blank validate_body
    detect_flood above count_repeat_runes count_run
validate_run = refl

validate-MeetsPost_example :
    (((validate config (λ s. s) post).is_valid ≡ true) ↔ MeetsPost config (λ s. s) post)
    × ((validate config (λ s. s) post).is_valid ≡ none_yet (validate config (λ s. s) post).errors)
validate-MeetsPost_example = validate-MeetsPost config (λ s. s) post

count_repeat_runes-replicate_example :
    count_repeat_runes 3 (replicate 4 7 ++ 8 ∷ 8 ∷ [])
    ≡ (if leb 3 4 then 4 else 0) + count_repeat_runes 3 (8 ∷ 8 ∷ [])
count_repeat_runes-replicate_example = count_repeat_runes-replicate 3 7 3 (8 ∷ 8 ∷ []) refl
