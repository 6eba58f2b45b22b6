-- ===== src/Validate/News/Laws.antt =====
-- When news is valid, and how it is scored (internal/processor/validate/domain/news/validator.go).
use issue_tracker.Prelude.{
  ℕ, ◌*◌, ◌≤◌, ◌<◌, ◌≡◌, ◌↔◌, ◌⊎◌, sym, ap, ◌∙◌, Bool, true, false, ◌&&◌, ◌∷◌, ◌++◌, leb, ◌==◌,
  arith, length, length-append,
}
use issue_tracker.Prelude.Keys.{nat_eq}
use issue_tracker.Validate.{one, Content, none_yet, none_yet-append, conclude-is_valid, count_runes}
use issue_tracker.Validate.News.{
  Config, Runes, validate_title, validate_body, validate_published_at, text_of, above, detect_spam,
  quality_score, validate,
}

-- What an article must be, said in numbers.
pub record Meets (cfg : Config) (runes : Runes) (c : Content) : Type 0 where
  pub title_from : cfg.title_min_len ≤ length c.title
  pub title_to : length c.title ≤ cfg.title_max_len
  pub body_from : cfg.body_min_len ≤ length c.body
  pub body_to : length c.body ≤ cfg.body_max_len
  pub dated : (c.article ≡ false) ⊎ (0 < c.published_at)
  pub caps : count_runes runes.is_cap (text_of c) * one ≤ cfg.max_cap_ratio * length (text_of c)
  pub puncts :
      count_runes runes.is_punct (text_of c) * one ≤ cfg.max_punct_ratio * length (text_of c)
  pub quality : cfg.quality_threshold ≤ quality_score cfg c

validate_title_lem :
    (cfg : Config) (c : Content)
    → (none_yet (validate_title cfg c) ≡ true)
      ↔ ((cfg.title_min_len ≤ length c.title) × (length c.title ≤ cfg.title_max_len))
unfolding none_yet validate_title
validate_title_lem cfg c = ground arith

validate_body_lem :
    (cfg : Config) (c : Content)
    → (none_yet (validate_body cfg c) ≡ true)
      ↔ ((cfg.body_min_len ≤ length c.body) × (length c.body ≤ cfg.body_max_len))
unfolding none_yet validate_body
validate_body_lem cfg c = ground arith

validate_published_at_lem :
    (c : Content)
    → (none_yet (validate_published_at c) ≡ true) ↔ ((c.article ≡ false) ⊎ (0 < c.published_at))
unfolding none_yet validate_published_at
validate_published_at_lem c = ground arith

text_filled : (c : Content) → (length (text_of c) == 0) ≡ false
unfolding text_of
text_filled c = ground (arith, length-append c.title (32 ∷ c.body))

above_lem : (part total ratio : ℕ) → (above part total ratio ≡ false) ↔ (part * one ≤ ratio * total)
unfolding above
above_lem part total ratio = ground arith

detect_spam_lem :
    (cfg : Config) (runes : Runes) (c : Content)
    → (none_yet (detect_spam cfg runes c) ≡ true) ↔ (
        (above (count_runes runes.is_cap (text_of c)) (length (text_of c)) cfg.max_cap_ratio
          ≡ false)
        × (above (count_runes runes.is_punct (text_of c)) (length (text_of c)) cfg.max_punct_ratio
            ≡ false))
unfolding none_yet detect_spam
detect_spam_lem cfg runes c = ground (arith, text_filled c)

-- A news article is valid exactly if it meets the numbers of the configuration: the lengths of title and body
-- are within their bounds, an article page has a date, the parts of capitals and of punctuation in its text
-- are not above their ratios, and its score is not below the threshold. A result that is not valid names an
-- error, and one that is valid none.
pub validate-Meets :
    (cfg : Config) (runes : Runes) (c : Content)
    → (((validate cfg runes c).is_valid ≡ true) ↔ Meets cfg runes c)
      × ((validate cfg runes c).is_valid ≡ none_yet (validate cfg runes c).errors)
unfolding validate
validate-Meets cfg runes c =
    let title = validate_title cfg c in
    let body = validate_body cfg c in
    let dated = validate_published_at c in
    let spam = detect_spam cfg runes c in
    let (whole, same) =
      conclude-is_valid cfg.quality_threshold (quality_score cfg c)
        (title ++ (body ++ (dated ++ spam))) in
    let split =
      whole
      ∙ ap (λ (b : Bool). b && leb cfg.quality_threshold (quality_score cfg c))
          (none_yet-append title (body ++ (dated ++ spam))
            ∙ ap (λ (b : Bool). none_yet title && b)
                (none_yet-append body (dated ++ spam)
                  ∙ ap (λ (b : Bool). none_yet body && b) (none_yet-append dated spam))) in
    (
      (
        λ valid.
            let all : (none_yet title
                  && (none_yet body && (none_yet dated && none_yet spam))
                  && leb cfg.quality_threshold (quality_score cfg c))
                ≡ true =
              sym split ∙ valid in
            let (t, t') = (validate_title_lem cfg c).0 (ground (arith, all)) in
            let (b, b') = (validate_body_lem cfg c).0 (ground (arith, all)) in
            let (caps, puncts) = (detect_spam_lem cfg runes c).0 (ground (arith, all)) in
            record {
              title_from = t;
              title_to = t';
              body_from = b;
              body_to = b';
              dated = (validate_published_at_lem c).0 (ground (arith, all));
              caps =
                  (above_lem (count_runes runes.is_cap (text_of c)) (length (text_of c))
                      cfg.max_cap_ratio).0
                    caps;
              puncts =
                  (above_lem (count_runes runes.is_punct (text_of c)) (length (text_of c))
                      cfg.max_punct_ratio).0
                    puncts;
              quality = ground (arith, all);
            },
        λ m.
            let titled = (validate_title_lem cfg c).1 (m.title_from, m.title_to) in
            let bodied = (validate_body_lem cfg c).1 (m.body_from, m.body_to) in
            let given = (validate_published_at_lem c).1 m.dated in
            let calm = (detect_spam_lem cfg runes c).1 (
              (above_lem (count_runes runes.is_cap (text_of c)) (length (text_of c))
                    cfg.max_cap_ratio).1
                  m.caps,
              (above_lem (count_runes runes.is_punct (text_of c)) (length (text_of c))
                    cfg.max_punct_ratio).1
                  m.puncts,
            ) in
            split ∙ ground (arith, titled, bodied, given, calm, m.quality),
      ),
      same,
    )
