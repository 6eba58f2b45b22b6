-- ===== src/Precheck/Tests.antt =====
-- Runs of the precheck chain (internal/processor/precheck), and its theorems at concrete inputs.
use issue_tracker.Prelude.{
  refl, ◌≡◌, Option, none, some, String, [], ◌∷◌, map, All, if◌then◌else◌, ◌==◌,
}
use issue_tracker.Prelude.Keys.{string_eq}
use issue_tracker.Precheck.{
  drop, Source, allow_decision, check_url, check_urls, BlacklistMode, no_mode, mode_drop,
  mode_extract_links_only, new_blacklist_source, blacklist_check, blacklist_check_batch,
}
use issue_tracker.Precheck.Laws.{forget_allowed, BatchAgrees, check_urls-eq, blacklist-BatchAgrees}

abbrev open_source : Source
open_source = record { name = "robots"; check = λ url. allow_decision; check_batch = none }

abbrev strict : Source
strict = record {
  name = "rate";
  check = λ url. record { verdict = drop; reason = "full"; source = "" };
  check_batch = none;
}

abbrev matcher : String → Option BlacklistMode
matcher url =
    if url == "/ads"
    then some mode_drop
    else if url == "/list"
    then some mode_extract_links_only
    else if url == "/"
    then some no_mode
    else none

-- The blacklist of the matcher, which takes batches.
abbrev blacklist : Source
blacklist = record {
  name = "blacklist";
  check = blacklist_check matcher;
  check_batch = some (blacklist_check_batch matcher);
}

blacklist_run : new_blacklist_source (some matcher) ≡ some blacklist
unfolding new_blacklist_source
blacklist_run = refl

blacklist-agrees : All BatchAgrees (blacklist ∷ [])
blacklist-agrees = (blacklist-BatchAgrees matcher, tt)

check_urls-eq_example :
    map forget_allowed (check_urls (blacklist ∷ []) ("/a" ∷ "/ads" ∷ "/list" ∷ "/" ∷ []))
    ≡ map (check_url (blacklist ∷ [])) ("/a" ∷ "/ads" ∷ "/list" ∷ "/" ∷ [])
check_urls-eq_example =
    check_urls-eq (blacklist ∷ []) ("/a" ∷ "/ads" ∷ "/list" ∷ "/" ∷ []) blacklist-agrees
