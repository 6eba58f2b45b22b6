-- ===== src/Fetcher/Errors/Tests.antt =====
-- The crawler errors (internal/processor/fetcher/core/errors.go) at concrete inputs.
use issue_tracker.Prelude.{true}
use issue_tracker.Fetcher.Errors.Category
use issue_tracker.Fetcher.Errors.{Info}

abbrev timeout_info : Info
timeout_info = record {
  category = Category.timeout;
  code = "NET_002";
  message = "timeout";
  source = "";
  url = "u";
  status_code = 0;
  retryable = true;
}

abbrev by_code : Info
by_code = record timeout_info { category = "" }
