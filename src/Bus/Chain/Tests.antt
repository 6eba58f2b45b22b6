-- ===== src/Bus/Chain/Tests.antt =====
-- Runs of the publisher under the pipeline guard (internal/bus/chain.go).
use issue_tracker.Prelude.{
  true, false, not, ◌==◌, if◌then◌else◌, none, some, String, List, [], ◌∷◌, Bytes,
}
use issue_tracker.Prelude.Keys.{string_eq}
use issue_tracker.Prelude.Texts.{bytes_eq}
use issue_tracker.Redis.Expiring.Memory.{Keys, keys}
use issue_tracker.Bus.Chain.{Publisher, Turn, State}
use issue_tracker.Bus.Chain.GuardMarkers.{Markers, guard_func}

abbrev turn : Turn
turn = record {
  cancelled = λ i. false;
  asked_at = λ i. 5;
  added_at = λ i. 5;
  new_job_id = λ i. "id";
  now = 7;
}

abbrev bytes : String → Bytes
bytes url = if url == "/x" then 1 ∷ [] else 2 ∷ []

-- A day for an article and a minute for a category.
abbrev publisher : Publisher (Markers Keys)
publisher = record {
  normalizer = some (λ url. if url == "/x?" then some "/x" else some url);
  gate = some (λ url. not (url == "/blocked"));
  guard = some (guard_func keys (λ b. b) bytes 0 0);
  lock = none;
  resolver = none;
  marshal = λ job. some job.url;
  producer = λ msgs. true;
}

-- A nanosecond before each command, and half a minute before the third.
abbrev begin : State (Markers Keys)
begin = ((record { entries = []; now = 0 }, 1 ∷ 1 ∷ 30000000000 ∷ 1 ∷ []), none)

abbrev links : List String
links = "/x?" ∷ "/x" ∷ "/blocked" ∷ []
