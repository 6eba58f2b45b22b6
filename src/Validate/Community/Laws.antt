-- ===== src/Validate/Community/Laws.antt =====
-- When a post is valid, and what counts as repeated (internal/processor/validate/domain/community/validator.go).
use issue_tracker.Prelude.{
  ℕ, suc, ◌+◌, ◌*◌, ◌≤◌, ◌≡◌, ◌↔◌, sym, ap, ◌∙◌, Bool, true, ◌&&◌, [], ◌∷◌, ◌++◌, leb, arith, Bytes,
  length,
}
use issue_tracker.Prelude.Keys.{nat_eq}
use issue_tracker.Validate.{one, Content, none_yet, none_yet-append, conclude-is_valid}
use issue_tracker.Validate.News.{above}
use issue_tracker.Validate.Community.{
  Config, validate_body, run_points, count_run, count_repeat_runes, detect_flood, quality_score,
  validate,
}

count_run-le : (least r n : ℕ) (xs : Bytes) → count_run least r n xs ≤ n + length xs
unfolding count_run run_points
count_run-le least r n [] = ground arith
count_run-le least r n (x ∷ xs) =
    ground (arith, count_run-le least r (suc n) xs, count_run-le least x 1 xs)

-- The repeated runes are some of those that there are.
count_repeat_runes-le : (least : ℕ) (xs : Bytes) → count_repeat_runes least xs ≤ length xs
unfolding count_repeat_runes
count_repeat_runes-le least [] = omega arith
count_repeat_runes-le least (x ∷ xs) = omega (arith, count_run-le least x 1 xs)

-- What a post must be, said in numbers.
pub record MeetsPost (cfg : Config) (trim_space : Bytes → Bytes) (c : Content) : Type 0 where
  pub body_from : cfg.body_min_len ≤ length c.body
  pub repeated :
      count_repeat_runes cfg.min_repeat_run c.body * one ≤ cfg.max_repeat_ratio * length c.body
  pub quality : cfg.quality_threshold ≤ quality_score cfg trim_space c

validate_body_lem :
    (cfg : Config) (c : Content)
    → (none_yet (validate_body cfg c) ≡ true) ↔ (cfg.body_min_len ≤ length c.body)
unfolding none_yet validate_body
validate_body_lem cfg c = ground arith

detect_flood_lem :
    (cfg : Config) (c : Content)
    → (none_yet (detect_flood cfg c) ≡ true)
      ↔ (count_repeat_runes cfg.min_repeat_run c.body * one ≤ cfg.max_repeat_ratio * length c.body)
unfolding none_yet detect_flood above
detect_flood_lem cfg c = ground (arith, count_repeat_runes-le cfg.min_repeat_run c.body)

-- A post is valid exactly if it meets the numbers of the configuration: its body is long enough, the part of
-- runes that stand in a run of the least length is not above the ratio, and its score is not below the
-- threshold. A result that is not valid names an error, and one that is valid none.
pub validate-MeetsPost :
    (cfg : Config) (trim_space : Bytes → Bytes) (c : Content)
    → (((validate cfg trim_space c).is_valid ≡ true) ↔ MeetsPost cfg trim_space c)
      × ((validate cfg trim_space c).is_valid ≡ none_yet (validate cfg trim_space c).errors)
unfolding validate
validate-MeetsPost cfg trim_space c =
    let body = validate_body cfg c in
    let flood = detect_flood cfg c in
    let (whole, same) =
      conclude-is_valid cfg.quality_threshold (quality_score cfg trim_space c) (body ++ flood) in
    let split =
      whole
      ∙ ap (λ (b : Bool). b && leb cfg.quality_threshold (quality_score cfg trim_space c))
          (none_yet-append body flood) in
    (
      (
        λ valid.
            let all : ((none_yet body && none_yet flood)
                  && leb cfg.quality_threshold (quality_score cfg trim_space c))
                ≡ true =
              sym split ∙ valid in
            record {
              body_from = (validate_body_lem cfg c).0 (ground (arith, all));
              repeated = (detect_flood_lem cfg c).0 (ground (arith, all));
              quality = ground (arith, all);
            },
        λ m.
            let bodied = (validate_body_lem cfg c).1 m.body_from in
            let calm = (detect_flood_lem cfg c).1 m.repeated in
            split ∙ ground (arith, bodied, calm, m.quality),
      ),
      same,
    )
