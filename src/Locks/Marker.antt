-- ===== src/Locks/Marker.antt =====
-- internal/locks/ingestion_marker.go and internal/locks/pipeline_guard.go over pkg/redis/lock.go: the markers of
-- URLs that are in the pipeline, with a time to live by the type of the target. The hash of a URL and the
-- commands of Redis are parameters. The checks for nil are left out, and with them the markers that do
-- nothing.

pub mod Window
mod Tests
use issue_tracker.Prelude.{
  ℕ, zero, suc, Bool, true, false, Option, none, some, List, [], ◌∷◌, ◌++◌, Bytes,
}
use issue_tracker.Redis.Expiring.{Expiring}
use issue_tracker.Bus.Messages.{TargetType}
use issue_tracker.Redis.{Fate, done, unsent, unanswered}

-- "ingestion:url:".
abbrev pub ingestion_key_prefix : Bytes
ingestion_key_prefix =
    105 ∷ 110 ∷ 103 ∷ 101 ∷ 115 ∷ 116 ∷ 105 ∷ 111 ∷ 110 ∷ 58 ∷ 117 ∷ 114 ∷ 108 ∷ 58 ∷ []

unfoldable pub ingestion_key : (Bytes → Bytes) → Bytes → Bytes
ingestion_key hash url = ingestion_key_prefix ++ hash url

-- A day, and a minute.
abbrev pub default_ingestion_mark_ttl : ℕ
default_ingestion_mark_ttl = 86400000000000

abbrev pub default_category_ttl : ℕ
default_category_ttl = 60000000000

-- The value of a marker, "1".
abbrev pub mark : Bytes
mark = 49 ∷ []

module _ {R : Type 0} (redis : Expiring R) where
  -- `AcquireLock`; none is an error.
  unfoldable pub acquire_lock : Fate → Bytes → ℕ → R → R × Option Bool
  acquire_lock done key ttl r =
      let (r', acquired) = redis.set_nx key mark ttl r in (r', some acquired)
  acquire_lock unsent key ttl r = (r, none)
  acquire_lock unanswered key ttl r = ((redis.set_nx key mark ttl r).0, none)

  -- `ReleaseLock`; `false` is an error.
  unfoldable pub release_lock : Fate → Bytes → R → R × Bool
  release_lock done key r = (redis.del key r, true)
  release_lock unsent key r = (r, false)
  release_lock unanswered key r = (redis.del key r, false)

or_default : ℕ → ℕ → ℕ
or_default default zero = default
or_default default (suc ttl) = suc ttl

-- `RedisIngestionMarker`, without its locker.
pub record RedisIngestionMarker : Type 0 where
  pub ttl : ℕ

-- A time of 0 or less stands as 0.
unfoldable pub new_redis_ingestion_marker : ℕ → RedisIngestionMarker
unfolding or_default
new_redis_ingestion_marker ttl = record { ttl = or_default default_ingestion_mark_ttl ttl }

module _ {R : Type 0} (redis : Expiring R) (hash : Bytes → Bytes) (m : RedisIngestionMarker) where
  unfoldable pub acquire : Fate → Bytes → R → R × Option Bool
  acquire fate url r = acquire_lock redis fate (ingestion_key hash url) m.ttl r

  unfoldable pub acquire_with_ttl : Fate → Bytes → ℕ → R → R × Option Bool
  unfolding or_default
  acquire_with_ttl fate url ttl r =
      acquire_lock redis fate (ingestion_key hash url) (or_default m.ttl ttl) r

  unfoldable pub invalidate : Fate → Bytes → R → R × Bool
  invalidate fate url r = release_lock redis fate (ingestion_key hash url) r

pub record PipelineGuard : Type 0 where
  pub lock : RedisIngestionMarker
  pub category_ttl : ℕ

unfoldable pub new_pipeline_guard : RedisIngestionMarker → ℕ → PipelineGuard
unfolding or_default
new_pipeline_guard lock category_ttl = record {
  lock = lock;
  category_ttl = or_default default_category_ttl category_ttl;
}

module _ {R : Type 0} (redis : Expiring R) (hash : Bytes → Bytes) (g : PipelineGuard) where
  unfoldable pub check_and_acquire : Fate → Bytes → TargetType → R → R × Option Bool
  check_and_acquire fate url TargetType.category r =
      acquire_with_ttl redis hash g.lock fate url g.category_ttl r
  check_and_acquire fate url TargetType.article r = acquire redis hash g.lock fate url r
  check_and_acquire fate url TargetType.sitemap r = acquire redis hash g.lock fate url r
  check_and_acquire fate url TargetType.search_results r = acquire redis hash g.lock fate url r

  unfoldable pub release : Fate → Bytes → R → R × Bool
  release fate url r = invalidate redis hash g.lock fate url r
