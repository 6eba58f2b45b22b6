-- ===== src/Precheck.antt =====
-- internal/processor/precheck: the chain of sources that decides before a fetch whether a URL is
-- processed, and the blacklist as such a source. `matcher` stands for
-- `BlacklistMatcher.MatchedMode`; it answers `none` where that returns an error.
mod Laws
mod Tests
use issue_tracker.Prelude.{
  Bool, true, false, Option, none, some, String, List, [], ◌∷◌, map, if◌then◌else◌, ◌==◌,
}
use issue_tracker.Prelude.Keys.{string_eq}

pub data Verdict : Type 0 where
  allow drop extract_links_only : Verdict

abbrev pub is_allow : Verdict → Bool
is_allow allow = true
is_allow drop = false
is_allow extract_links_only = false

pub record Decision : Type 0 where
  pub verdict : Verdict
  pub reason : String
  pub source : String

unfoldable pub allowed : Decision → Bool
allowed d = is_allow d.verdict

-- `check_batch` is there for a `BatchSource`.
pub record Source : Type 0 where
  pub name : String
  pub check : String → Decision
  pub check_batch : Option (List String → List Decision)

-- `New` keeps the sources that are not nil.
unfoldable pub new : List (Option Source) → List Source
new [] = []
new (none ∷ ss) = new ss
new (some s ∷ ss) = s ∷ new ss

-- The name of the source stands in where a refusal carries none.
unfoldable pub labelled : Source → Decision → Decision
labelled s d =
    if is_allow d.verdict then d else if d.source == "" then record d { source = s.name } else d

abbrev pub allow_decision : Decision
allow_decision = record { verdict = allow; reason = ""; source = "" }

unfoldable pub check_url : List Source → String → Decision
unfolding labelled
check_url [] url = allow_decision
check_url (s ∷ ss) url =
    let rest = check_url ss url in
    if is_allow (s.check url).verdict then rest else labelled s (s.check url)

check_each : List Source → List String → List Decision
check_each ss urls = map (check_url ss) urls

-- A single source that takes batches is asked once.
check_batched : List Source → List String → List Decision
unfolding labelled check_each
check_batched [] urls = check_each [] urls
check_batched (s ∷ []) urls = elim s.check_batch [
  | none ↦ check_each (s ∷ []) urls
  | some batch ↦ map (labelled s) (batch urls)
]
check_batched (s ∷ t ∷ ss) urls = check_each (s ∷ t ∷ ss) urls

unfoldable pub check_urls : List Source → List String → List Decision
unfolding check_batched
check_urls ss [] = []
check_urls ss (u ∷ us) = check_batched ss (u ∷ us)

pub data BlacklistMode : Type 0 where
  no_mode mode_drop mode_extract_links_only : BlacklistMode

unfoldable pub mode_to_decision : BlacklistMode → Decision
mode_to_decision mode_extract_links_only = record {
  verdict = extract_links_only;
  reason = "blacklist:extract_links_only";
  source = "blacklist";
}
mode_to_decision mode_drop = record {
  verdict = drop;
  reason = "blacklist:drop";
  source = "blacklist";
}
mode_to_decision no_mode = record { verdict = allow; reason = ""; source = "blacklist" }

blacklist_decision : Option BlacklistMode → Decision
unfolding mode_to_decision
blacklist_decision none = record { verdict = allow; reason = ""; source = "blacklist" }
blacklist_decision (some mode) = mode_to_decision mode

unfoldable pub blacklist_check : (String → Option BlacklistMode) → String → Decision
unfolding blacklist_decision
blacklist_check matcher url = blacklist_decision (matcher url)

unfoldable pub blacklist_check_batch : (String → Option BlacklistMode) → List String → List Decision
unfolding blacklist_check
blacklist_check_batch matcher [] = []
blacklist_check_batch matcher (u ∷ us) =
    blacklist_check matcher u ∷ blacklist_check_batch matcher us

-- A nil matcher gives no source.
unfoldable pub new_blacklist_source : Option (String → Option BlacklistMode) → Option Source
unfolding blacklist_check blacklist_check_batch
new_blacklist_source none = none
new_blacklist_source (some matcher) = some (record {
  name = "blacklist";
  check = blacklist_check matcher;
  check_batch = some (blacklist_check_batch matcher);
})
