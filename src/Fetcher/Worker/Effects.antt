-- ===== src/Fetcher/Worker/Effects.antt =====
-- internal/processor/fetcher/worker/pool.go: the data of the fetcher worker, and what it does to the
-- outside. Of `core.CrawlJob` the target's type and metadata, the timeout and the priority are left
-- out: nothing here reads or changes them.
use issue_tracker.Prelude.{ℕ, Bool, true, false, String}

pub record Job : Type 0 where
  pub id : String
  pub crawler_name : String
  pub url : String
  pub scheduled_at : ℕ
  pub retry_count : ℕ
  pub max_retries : ℕ

pub record Content : Type 0 where
  pub url : String
  pub canonical_url : String

-- One attempt to publish or commit; `cancelled` is an error that is `context.Canceled`.
pub data Attempt : Type 0 where
  sent cancelled failed : Attempt

-- A cancelled attempt is made once more with the drain context.
unfoldable pub with_drain : Attempt → Attempt → Bool
with_drain sent second = true
with_drain failed second = false
with_drain cancelled sent = true
with_drain cancelled cancelled = false
with_drain cancelled failed = false

pub data Reason : Type 0 where
  unmarshal_failed circuit_open handler_failed gate_held : Reason

pub data Effect : Type 0 where
  dead_lettered : Reason → Effect
  requeued : Job → Effect
  -- A message on the topic of normalized contents, with its partition key and the content's id.
  normalized : String → String → Effect
  committed released : Effect
