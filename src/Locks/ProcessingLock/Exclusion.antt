-- ===== src/Locks/ProcessingLock/Exclusion.antt =====
-- The lock is exclusive, and only its own token releases it (internal/locks/processing_lock.go,
-- pkg/redis/lock.go).
use issue_tracker.Prelude.{
  ℕ, zero, suc, ◌-◌, ◌<◌, ◌≡◌, ◌≢◌, inl, inr, refl, ap, ◌∙◌, Bool, false, none, some, List, [],
  if◌then◌else◌, ◌==◌, ==_iff, ==_refl, arith, All, Bytes, Bool-cases,
}
use issue_tracker.Prelude.Texts.{bytes_eq}
use issue_tracker.Redis.Expiring.{Expiring, IsExpiring}
use issue_tracker.Redis.{Fate, done, unsent, unanswered}
use issue_tracker.Locks.ProcessingLock.{
  Acquired, token_of, Released, ok, not_owned, answered, set_token, acquire_lock_with_token,
  same_token, release_script, eval, release_lock_owned, RedisProcessingLock,
  new_redis_processing_lock, acquire, released_by, release,
}
use issue_tracker.Locks.ProcessingLock.Held.{
  Event, run, Refused, Holds, Foreign, waited, released_by-other, run-Holds,
}

ttl-filled : (cfg : ℕ) → 0 < (new_redis_processing_lock cfg).ttl
unfolding new_redis_processing_lock
ttl-filled zero = omega arith
ttl-filled (suc ttl) = omega arith

module _ {R : Type 0} (redis : Expiring R) (l : RedisProcessingLock) where
  -- What a release with a token that is not empty does, by what the script answers.
  release-eval :
      (fate : Fate) (key token : Bytes) (r : R)
      → token ≢ []
      → release redis l fate key token r ≡ released_by redis l (eval redis fate key token r)
  unfolding release release_lock_owned
  release-eval fate key token r named = elim (Bool-cases (token == [])) [
    | inl e ↦ ground (arith, e, named, ==_iff token [])
    | inr e ↦ rw (e, if◌then◌else◌) refl
  ]

  answered-free :
      (token key : Bytes) (r : R)
      → IsExpiring redis
      → redis.get r key ≡ none
      → acquire redis l (some token) done key r
        ≡ ((redis.set_nx key token l.ttl r).0, token_of token)
  unfolding acquire acquire_lock_with_token set_token answered
  answered-free token key r law free =
      ap (λ (ok : Bool). answered redis token ((redis.set_nx key token l.ttl r).0, ok))
        (law.free key token l.ttl r free)

  script-other :
      (key token other : Bytes) (left : ℕ) (r : R)
      → Holds redis key other left r
      → other ≢ token
      → release_script redis key token r ≡ (r, false)
  unfolding release_script same_token
  script-other key token other left r h apart = elim (Bool-cases (other == token)) [
    | inl e ↦ ground (arith, e, apart, ==_iff other token)
    | inr e ↦ rw (h, e, if◌then◌else◌) refl
  ]

  eval-other :
      (fate : Fate) (key token other : Bytes) (left : ℕ) (r : R)
      → Holds redis key other left r
      → other ≢ token
      → (eval redis fate key token r).0 ≡ r
  unfolding eval
  eval-other done key token other left r h apart =
      ap (λ (p : R × Bool). p.0) (script-other key token other left r h apart)
  eval-other unsent key token other left r h apart = refl
  eval-other unanswered key token other left r h apart =
      ap (λ (p : R × Bool). p.0) (script-other key token other left r h apart)

  release-own :
      (key token : Bytes) (left : ℕ) (r : R)
      → token ≢ []
      → Holds redis key token left r
      → release redis l done key token r ≡ (redis.del key r, ok)
  release-own key token left r named h =
      release-eval done key token r named
      ∙ unfold eval release_script same_token released_by in
        rw (h, ==_refl token, if◌then◌else◌) refl

-- Mutual exclusion. Once a worker has a lock, no acquisition of the key by anyone takes it until the worker
-- releases it or its time is over - not after commands that break, nor after late releases with the tokens
-- of others - and then the worker's own release succeeds and frees the key.
pub acquire-Refused :
    {R : Type 0} (redis : Expiring R) (cfg : ℕ) (key token : Bytes) (events : List Event) (r : R)
    → IsExpiring redis
    → redis.get r key ≡ none
    → token ≢ []
    → All (Foreign key token) events
    → let l = new_redis_processing_lock cfg in
      waited events < l.ttl
      → let first = acquire redis l (some token) done key r in
        let last = release redis l done key token (run redis l events first.0) in
        (first.1 ≡ token_of token)
        × Refused redis l key events first.0
        × (last.1 ≡ ok)
        × (redis.get last.0 key ≡ none)
acquire-Refused {R = R} redis cfg key token events r law free named foreign early =
    let l = new_redis_processing_lock cfg in
    let first = acquire redis l (some token) done key r in
    let took : first ≡ ((redis.set_nx key token l.ttl r).0, token_of token) =
      answered-free redis l token key r law free in
    let store : first.0 ≡ (redis.set_nx key token l.ttl r).0 =
      ap (λ (p : R × Acquired). p.0) took in
    let has : Holds redis key token l.ttl first.0 =
      ap (λ (x : R). redis.get x key) store
      ∙ ground (arith, law.get_free key token l.ttl r key (ttl-filled cfg) free, ==_refl key) in
    let (held, refused) =
      run-Holds redis law l key token events l.ttl first.0 (ttl-filled cfg) foreign early has in
    let gone =
      release-own redis l key token (l.ttl - waited events) (run redis l events first.0) named
        held in
    (
      ap (λ (p : R × Acquired). p.1) took,
      refused,
      ap (λ (p : R × Released). p.1) gone,
      ap (λ (p : R × Released). redis.get p.0 key) gone
          ∙ ground (arith, law.get_del key (run redis l events first.0) key, ==_refl key),
    )

-- A release never takes a lock from another: if the key is held under another token, no release changes
-- any key, whatever becomes of its command, and one that is answered says so.
release-not_owned :
    {R : Type 0} (redis : Expiring R) (l : RedisProcessingLock) (fate : Fate)
    (key token other : Bytes) (left : ℕ) (r : R)
    → Holds redis key other left r
    → other ≢ token
    → token ≢ []
    → ((release redis l done key token r).1 ≡ not_owned)
      × ((k : Bytes) → redis.get (release redis l fate key token r).0 k ≡ redis.get r k)
release-not_owned {R = R} redis l fate key token other left r h apart named = (
  (ap (λ (p : R × Released). p.1) (release-eval redis l done key token r named)
      ∙ unfold eval released_by in rw (script-other redis l key token other left r h apart) refl),
  λ k.
      ap (λ (p : R × Released). redis.get p.0 k) (release-eval redis l fate key token r named)
      ∙ ap (λ (x : R). redis.get x k)
          (released_by-other redis l (eval redis fate key token r)
            ∙ eval-other redis l fate key token other left r h apart),
)
