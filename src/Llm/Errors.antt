-- ===== src/Llm/Errors.antt =====
-- pkg/llm/errors.go: the errors of the providers.
use issue_tracker.Prelude.{Bool, false, Option, none, some, String}
use issue_tracker.Prelude.Keys.{string_eq}

abbrev pub rate_limit : String
rate_limit = "rate_limit"

-- The fields of `llm.Error` but its cause.
pub record Info : Type 0 where
  pub code : String
  pub provider : String
  pub message : String
  pub retryable : Bool

-- An error of Go: an `*llm.Error` without or with a cause, an error that wraps one, or any other.
pub data Error : Type 0 where
  llm : Info → Error
  llm_of : Info → Error → Error
  wraps : Error → Error
  other : String → Error

-- `errors.As` with `**Error`.
unfoldable pub as_llm : Error → Option Info
as_llm (llm i) = some i
as_llm (llm_of i cause) = some i
as_llm (wraps e) = as_llm e
as_llm (other text) = none

retryable_in : Option Info → Bool
retryable_in none = false
retryable_in (some i) = i.retryable

unfoldable pub is_retryable : Option Error → Bool
unfolding retryable_in
is_retryable none = false
is_retryable (some err) = retryable_in (as_llm err)
