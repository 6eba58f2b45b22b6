-- ===== src/Fetcher/Errors/Laws.antt =====
-- What `errors.Is` sees of the crawler errors (internal/processor/fetcher/core/errors.go).
use issue_tracker.Prelude.{
  ◌≡◌, ◌≢◌, ◌⊎◌, ◌↔◌, Bool, true, Option, none, some, String, [], ◌∷◌, All, arith, ==_iff, inl, inr,
}
use issue_tracker.Prelude.Keys.{string_eq}
use issue_tracker.Fetcher.Errors.{
  Error, Info, crawler, crawler_of, matches, is, as_crawler, inherit_retryable, new_database_error,
  new_queue_error, new_storage_error,
}

-- A target that names a code or a category is matched exactly by the errors that agree with it on
-- whatever it names; one that names neither is matched by nothing.
matches_iff :
    (e t : Info)
    → (matches e t ≡ true) ↔ (
        ((t.code ≡ "") ⊎ (t.code ≡ e.code))
        × ((t.category ≡ "") ⊎ (t.category ≡ e.category))
        × ((t.code ≢ "") ⊎ (t.category ≢ "")))
unfolding matches
matches_iff e t = ground (
  arith,
  ==_iff t.code "",
  ==_iff t.category "",
  ==_iff t.code e.code,
  ==_iff t.category e.category,
)

-- The retryability that `errors.As` finds.
retryable_in : Option Info → Option Bool
retryable_in none = none
retryable_in (some i) = some i.retryable

pub retryable_of : Error → Option Bool
unfolding retryable_in
retryable_of e = retryable_in (as_crawler e)

-- Wrapping an error in the storage, database or queue layer, whatever retryability the caller asks
-- for: a crawler error that is wrapped directly lends its own retryability to the new error, and is
-- still matched by every target that it matches.
layers_inherit :
    (i : Info) (e : Error) (code message : String) (asked : Bool) (t : Info)
    → (e ≡ crawler i) ⊎ ((cause : Error) × (e ≡ crawler_of i cause))
    → All
        (λ (wrap : Error).
          (retryable_of wrap ≡ some i.retryable) × (is e t ≡ true → is wrap t ≡ true))
        (new_storage_error code message asked (some e)
          ∷ new_database_error code message asked (some e)
          ∷ new_queue_error code message asked (some e)
          ∷ [])
unfolding new_storage_error new_database_error new_queue_error is as_crawler retryable_of
    inherit_retryable
layers_inherit i e code message asked t (inl p) = ground arith
layers_inherit i e code message asked t (inr (cause, p)) = ground arith
