-- ===== src/Bus/Messages.antt =====
-- internal/bus/worker.go and internal/processor/fetcher/core: a crawl job and its Kafka message. The
-- priority in the headers stays a number, and marshalling to JSON is a parameter.
use issue_tracker.Prelude.{ℕ, Option, none, some, String, if◌then◌else◌, ◌==◌}
use issue_tracker.Prelude.Keys.{nat_eq}

pub data TargetType : Type 0 where
  sitemap article category search_results : TargetType

abbrev pub priority_high : ℕ
priority_high = 1

abbrev pub priority_normal : ℕ
priority_normal = 2

abbrev pub priority_low : ℕ
priority_low = 3

-- `core.CrawlJob`, with the URL and the type of its target.
pub record CrawlJob : Type 0 where
  pub id : String
  pub crawler_name : String
  pub url : String
  pub target_type : TargetType
  pub priority : ℕ
  pub scheduled_at : ℕ
  pub timeout : ℕ
  pub retry_count : ℕ
  pub max_retries : ℕ

pub record Message : Type 0 where
  pub topic : String
  pub key : String
  pub value : String
  pub crawler : String
  pub priority : ℕ

unfoldable pub crawl_topic : ℕ → String
crawl_topic p =
    if p == priority_high
    then "issuetracker.crawl.high"
    else if p == priority_low
    then "issuetracker.crawl.low"
    else "issuetracker.crawl.normal"

resolved : Option (CrawlJob → ℕ) → CrawlJob → CrawlJob
resolved none job = job
resolved (some resolve) job = record job { priority = resolve job }

marshalled : Option String → CrawlJob → Option Message
marshalled none j = none
marshalled (some bytes) j = some (record {
  topic = crawl_topic j.priority;
  key = j.id;
  value = bytes;
  crawler = j.crawler_name;
  priority = j.priority;
})

unfoldable pub build_message :
    Option (CrawlJob → ℕ) → (CrawlJob → Option String) → CrawlJob → Option Message
unfolding resolved marshalled
build_message resolver marshal job = let j = resolved resolver job in marshalled (marshal j) j
