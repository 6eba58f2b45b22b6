-- ===== src/Locks/ProcessingLock.antt =====
-- internal/locks/processing_lock.go over pkg/redis/lock.go: the lock of a URL in a stage, which only the token of
-- its own acquisition releases. The hash of a URL, the random token and the commands of Redis are parameters.
-- Log lines and the checks for a nil receiver are left out.

pub mod Keys
pub mod Held
pub mod Exclusion
mod Tests
use issue_tracker.Prelude.{
  ℕ, zero, suc, ◌≡◌, Bool, true, false, Option, none, some, List, [], ◌∷◌, ◌++◌, if◌then◌else◌,
  ◌==◌, Bytes,
}
use issue_tracker.Prelude.Texts.{bytes_eq}
use issue_tracker.Redis.{Fate, done, unsent, unanswered}
use issue_tracker.Redis.Expiring.{Expiring}

-- "processing:" and ":url:".
abbrev pub processing_lock_key_prefix : Bytes
processing_lock_key_prefix = 112 ∷ 114 ∷ 111 ∷ 99 ∷ 101 ∷ 115 ∷ 115 ∷ 105 ∷ 110 ∷ 103 ∷ 58 ∷ []

abbrev pub url_part : Bytes
url_part = 58 ∷ 117 ∷ 114 ∷ 108 ∷ 58 ∷ []

-- `hash` is the hexadecimal SHA-256.
unfoldable pub processing_key : (Bytes → Bytes) → Bytes → Bytes → Bytes
processing_key hash stage url = processing_lock_key_prefix ++ (stage ++ (url_part ++ hash url))

-- Ten minutes.
abbrev pub default_processing_lock_ttl : ℕ
default_processing_lock_ttl = 600000000000

-- What `Acquire` returns: the token, that the lock is taken, or an error.
pub data Acquired : Type 0 where
  token_of : Bytes → Acquired
  taken failed : Acquired

-- What `Release` returns; `not_owned` is `ErrLockNotOwned`.
pub data Released : Type 0 where
  ok not_owned failed : Released

module _ {R : Type 0} (redis : Expiring R) where
  answered : Bytes → R × Bool → R × Acquired
  answered token (r, true) = (r, token_of token)
  answered token (r, false) = (r, taken)

  set_token : Fate → Bytes → Bytes → ℕ → R → R × Acquired
  unfolding answered
  set_token done token key ttl r = answered token (redis.set_nx key token ttl r)
  set_token unsent token key ttl r = (r, failed)
  set_token unanswered token key ttl r = ((redis.set_nx key token ttl r).0, failed)

  -- `AcquireLockWithToken`; `token` is `newLockToken`, none when it fails.
  unfoldable pub acquire_lock_with_token : Option Bytes → Fate → Bytes → ℕ → R → R × Acquired
  unfolding set_token
  acquire_lock_with_token none fate key ttl r = (r, failed)
  acquire_lock_with_token (some token) fate key ttl r = set_token fate token key ttl r

  same_token : Bytes → Option (Bytes × ℕ) → Bool
  same_token token none = false
  same_token token (some (v, left)) = v == token

  -- `luaReleaseOwned`: whether the key was deleted.
  unfoldable pub release_script : Bytes → Bytes → R → R × Bool
  unfolding same_token
  release_script key token r =
      if same_token token (redis.get r key) then (redis.del key r, true) else (r, false)

  unfoldable pub eval : Fate → Bytes → Bytes → R → R × Option Bool
  eval done key token r = let (r', deleted) = release_script key token r in (r', some deleted)
  eval unsent key token r = (r, none)
  eval unanswered key token r = ((release_script key token r).0, none)

  -- `ReleaseLockOwned`; none is an error.
  unfoldable pub release_lock_owned : Fate → Bytes → Bytes → R → R × Option Bool
  unfolding eval
  release_lock_owned fate key token r = if token == [] then (r, none) else eval fate key token r

-- `RedisProcessingLock`, without its locker.
pub record RedisProcessingLock : Type 0 where
  pub ttl : ℕ

-- A time of 0 or less stands as 0.
unfoldable pub new_redis_processing_lock : ℕ → RedisProcessingLock
new_redis_processing_lock zero = record { ttl = default_processing_lock_ttl }
new_redis_processing_lock (suc ttl) = record { ttl = suc ttl }

module _ {R : Type 0} (redis : Expiring R) (l : RedisProcessingLock) where
  unfoldable pub acquire : Option Bytes → Fate → Bytes → R → R × Acquired
  acquire token fate key r = acquire_lock_with_token redis token fate key l.ttl r

  unfoldable pub released_by : R × Option Bool → R × Released
  released_by (r, none) = (r, failed)
  released_by (r, some true) = (r, ok)
  released_by (r, some false) = (r, not_owned)

  unfoldable pub release : Fate → Bytes → Bytes → R → R × Released
  unfolding released_by
  release fate key token r =
      if token == [] then (r, ok) else released_by (release_lock_owned redis fate key token r)
