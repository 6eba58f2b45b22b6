-- ===== src/Validate.antt =====
-- internal/processor/validate: what the validators share (types/types.go, and the articles that they check, of
-- internal/processor/fetcher/core/models.go). A text is a list of runes; a ratio, weight or score is a natural
-- number of parts of `one`. Messages of errors are left out, and of an
-- article what no validator reads.
pub mod News
pub mod Community
use issue_tracker.Prelude.{
  ℕ, suc, ◌≡◌, Bool, true, false, ◌&&◌, String, List, [], ◌∷◌, ◌++◌, ltb, leb, if◌then◌else◌, arith,
  Bytes, length,
}

abbrev pub one : ℕ
one = 1000000

pub record Content : Type 0 where
  pub title : Bytes
  pub body : Bytes
  pub summary : Bytes
  pub author : Bytes
  pub published_at : ℕ
  pub category : Bytes
  pub tags : List Bytes
  pub url : Bytes
  pub word_count : ℕ
  pub article : Bool

pub record ValidationError : Type 0 where
  pub field : String
  pub rule : String

pub record ValidationResult : Type 0 where
  pub is_valid : Bool
  pub quality_score : ℕ
  pub errors : List ValidationError

-- `len(errs) == 0`.
unfoldable pub none_yet : List ValidationError → Bool
none_yet [] = true
none_yet (e ∷ errs) = false

-- A low score is an error where there is no other, and what is left decides.
unfoldable pub conclude : ℕ → ℕ → List ValidationError → ValidationResult
unfolding none_yet
conclude threshold score errs =
    let all =
      if ltb score threshold && none_yet errs
      then errs ++ record { field = "QualityScore"; rule = "quality_low" } ∷ []
      else errs in
    record { is_valid = none_yet all && leb threshold score; quality_score = score; errors = all }

-- The errors are none.
pub none_yet-append :
    (xs ys : List ValidationError) → none_yet (xs ++ ys) ≡ none_yet xs && none_yet ys
unfolding none_yet
none_yet-append [] ys = ground arith
none_yet-append (x ∷ xs) ys = ground arith

-- An article is valid if there was no error and the score is not below the threshold; and then, and only
-- then, its result has no errors.
pub conclude-is_valid :
    (threshold score : ℕ) (errs : List ValidationError)
    → ((conclude threshold score errs).is_valid ≡ none_yet errs && leb threshold score)
      × ((conclude threshold score errs).is_valid ≡ none_yet (conclude threshold score errs).errors)
unfolding conclude none_yet
conclude-is_valid threshold score [] = (ground arith, ground arith)
conclude-is_valid threshold score (e ∷ errs) = (ground arith, ground arith)

-- The runes that satisfy a test.
unfoldable pub count_runes : (ℕ → Bool) → Bytes → ℕ
count_runes is [] = 0
count_runes is (r ∷ rs) = let rest = count_runes is rs in if is r then suc rest else rest

unfoldable pub is_blank : Bytes → Bool
is_blank [] = true
is_blank (r ∷ rs) = false
