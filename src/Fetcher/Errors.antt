-- ===== src/Fetcher/Errors.antt =====
-- internal/processor/fetcher/core/errors.go: the crawler's error values, their constructors, and
-- `errors.Is` and `errors.As` over a chain of wrapped errors.
-- Formatted codes and messages of the HTTP constructors are `format code`, a parameter, since
-- `fmt.Sprintf` is the standard library's.
pub mod Category
mod Laws
mod Tests
use Category
use issue_tracker.Prelude.{
  ℕ, Bool, true, false, not, ◌&&◌, ◌||◌, Option, none, some, String, if◌then◌else◌, ◌==◌,
}
use issue_tracker.Prelude.Keys.{string_eq}

-- The fields of `CrawlerError` but `Err`.
pub record Info : Type 0 where
  pub category : String
  pub code : String
  pub message : String
  pub source : String
  pub url : String
  pub status_code : ℕ
  pub retryable : Bool

-- `crawler` is a `CrawlerError` with no `Err`, `crawler_of` one with it, and `wrapped` any other
-- error that unwraps to its cause (`fmt.Errorf` with `%w`).
pub data Error : Type 0 where
  canceled deadline_exceeded : Error
  plain : String → Error
  wrapped : String → Error → Error
  crawler : Info → Error
  crawler_of : Info → Error → Error

-- `(*CrawlerError).Is` for a target that is a `CrawlerError`.
unfoldable pub matches : Info → Info → Bool
matches e t =
    if not (t.code == "") && not (t.code == e.code)
    then false
    else if not (t.category == "") && not (t.category == e.category)
    then false
    else not (t.code == "") || not (t.category == "")

-- `errors.Is(err, target)` for such a target (a pointer that occurs in no chain by itself).
unfoldable pub is : Error → Info → Bool
unfolding matches
is canceled t = false
is deadline_exceeded t = false
is (plain m) t = false
is (wrapped m e) t = is e t
is (crawler i) t = matches i t
is (crawler_of i e) t = let rest = is e t in if matches i t then true else rest

-- `errors.Is(err, context.Canceled)`.
unfoldable pub is_canceled : Error → Bool
is_canceled canceled = true
is_canceled deadline_exceeded = false
is_canceled (plain m) = false
is_canceled (wrapped m e) = is_canceled e
is_canceled (crawler i) = false
is_canceled (crawler_of i e) = is_canceled e

-- `errors.Is(err, context.DeadlineExceeded)`.
unfoldable pub is_deadline_exceeded : Error → Bool
is_deadline_exceeded canceled = false
is_deadline_exceeded deadline_exceeded = true
is_deadline_exceeded (plain m) = false
is_deadline_exceeded (wrapped m e) = is_deadline_exceeded e
is_deadline_exceeded (crawler i) = false
is_deadline_exceeded (crawler_of i e) = is_deadline_exceeded e

-- `errors.As(err, &crawlerErr)`: the outermost crawler error of the chain.
unfoldable pub as_crawler : Error → Option Info
as_crawler canceled = none
as_crawler deadline_exceeded = none
as_crawler (plain m) = none
as_crawler (wrapped m e) = as_crawler e
as_crawler (crawler i) = some i
as_crawler (crawler_of i e) = some i

-- An `Err` field that may be nil.
unfoldable pub with_cause : Info → Option Error → Error
with_cause i none = crawler i
with_cause i (some e) = crawler_of i e

unfoldable pub new_network_error : String → String → String → Option Error → Error
unfolding with_cause
new_network_error code message url err =
    with_cause
      (record {
        category = Category.network;
        code = code;
        message = message;
        source = "";
        url = url;
        status_code = 0;
        retryable = true;
      })
      err

unfoldable pub new_timeout_error : String → String → String → Option Error → Error
unfolding with_cause
new_timeout_error code message url err =
    with_cause
      (record {
        category = Category.timeout;
        code = code;
        message = message;
        source = "";
        url = url;
        status_code = 0;
        retryable = true;
      })
      err

unfoldable pub new_rate_limit_error : String → String → String → ℕ → Error
new_rate_limit_error code message url status = crawler (record {
  category = Category.rate_limit;
  code = code;
  message = message;
  source = "";
  url = url;
  status_code = status;
  retryable = true;
})

unfoldable pub new_parse_error : String → String → String → Option Error → Error
unfolding with_cause
new_parse_error code message url err =
    with_cause
      (record {
        category = Category.parse;
        code = code;
        message = message;
        source = "";
        url = url;
        status_code = 0;
        retryable = false;
      })
      err

unfoldable pub new_validation_error : String → String → Option Error → Error
unfolding with_cause
new_validation_error code message err =
    with_cause
      (record {
        category = Category.validation;
        code = code;
        message = message;
        source = "";
        url = "";
        status_code = 0;
        retryable = false;
      })
      err

unfoldable pub new_not_found_error : String → Error
new_not_found_error url = crawler (record {
  category = Category.not_found;
  code = "HTTP_404";
  message = "resource not found";
  source = "";
  url = url;
  status_code = 404;
  retryable = false;
})

unfoldable pub new_forbidden_error : String → Error
new_forbidden_error url = crawler (record {
  category = Category.forbidden;
  code = "HTTP_403";
  message = "forbidden";
  source = "";
  url = url;
  status_code = 403;
  retryable = false;
})

unfoldable pub new_http_server_error : (ℕ → String) → (ℕ → String) → String → ℕ → Error
new_http_server_error http_code status_text url status =
    crawler_of
      (record {
        category = Category.network;
        code = http_code status;
        message = "server error";
        source = "";
        url = url;
        status_code = status;
        retryable = true;
      })
      (plain (status_text status))

unfoldable pub new_http_client_error : (ℕ → String) → (ℕ → String) → String → ℕ → Error
new_http_client_error http_code status_text url status =
    crawler_of
      (record {
        category = Category.internal;
        code = http_code status;
        message = "client error";
        source = "";
        url = url;
        status_code = status;
        retryable = false;
      })
      (plain (status_text status))

-- A type assertion: only the error itself counts, not its chain.
unfoldable pub inherit_retryable : Option Error → Bool → Bool
inherit_retryable none default = default
inherit_retryable (some canceled) default = default
inherit_retryable (some deadline_exceeded) default = default
inherit_retryable (some (plain m)) default = default
inherit_retryable (some (wrapped m e)) default = default
inherit_retryable (some (crawler i)) default = i.retryable
inherit_retryable (some (crawler_of i e)) default = i.retryable

unfoldable pub new_database_error : String → String → Bool → Option Error → Error
unfolding with_cause inherit_retryable
new_database_error code message retryable err =
    with_cause
      (record {
        category = Category.database;
        code = code;
        message = message;
        source = "";
        url = "";
        status_code = 0;
        retryable = inherit_retryable err retryable;
      })
      err

unfoldable pub new_queue_error : String → String → Bool → Option Error → Error
unfolding with_cause inherit_retryable
new_queue_error code message retryable err =
    with_cause
      (record {
        category = Category.queue;
        code = code;
        message = message;
        source = "";
        url = "";
        status_code = 0;
        retryable = inherit_retryable err retryable;
      })
      err

unfoldable pub new_storage_error : String → String → Bool → Option Error → Error
unfolding with_cause inherit_retryable
new_storage_error code message retryable err =
    with_cause
      (record {
        category = Category.storage;
        code = code;
        message = message;
        source = "";
        url = "";
        status_code = 0;
        retryable = inherit_retryable err retryable;
      })
      err

unfoldable pub new_config_error : String → String → Option Error → Error
unfolding with_cause
new_config_error code message err =
    with_cause
      (record {
        category = Category.config;
        code = code;
        message = message;
        source = "";
        url = "";
        status_code = 0;
        retryable = false;
      })
      err

unfoldable pub new_internal_error : String → String → Option Error → Error
unfolding with_cause
new_internal_error code message err =
    with_cause
      (record {
        category = Category.internal;
        code = code;
        message = message;
        source = "";
        url = "";
        status_code = 0;
        retryable = false;
      })
      err
