-- ===== src/Locks/ProcessingLock/Held.antt =====
-- A lock belongs to its token until it is released or expires (internal/locks/processing_lock.go,
-- pkg/redis/lock.go).
use issue_tracker.Prelude.{
  ℕ, ◌+◌, ◌-◌, ◌<◌, ◌≡◌, ◌≢◌, ◌⊎◌, inl, inr, refl, sym, ap, subst, ◌∙◌, Bool, true, false, Option,
  none, some, List, [], ◌∷◌, if◌then◌else◌, ◌==◌, ==_iff, arith, All, Bytes, Bool-cases,
  Option-cases,
}
use issue_tracker.Prelude.Texts.{bytes_eq}
use issue_tracker.Redis.Expiring.{Expiring, IsExpiring}
use issue_tracker.Redis.{Fate, done, unsent, unanswered}
use issue_tracker.Locks.ProcessingLock.{
  Acquired, taken, answered, set_token, acquire_lock_with_token, same_token, release_script, eval,
  release_lock_owned, RedisProcessingLock, acquire, released_by, release,
}

-- What any workers do, in the order in which it reaches Redis, and time that passes.
pub data Event : Type 0 where
  acquires : Option Bytes → Fate → Bytes → Event
  releases : Fate → Bytes → Bytes → Event
  waits : ℕ → Event

abbrev pub Holds : {R : Type 0} → Expiring R → Bytes → Bytes → ℕ → R → Type 0
Holds redis key token left r = redis.get r key ≡ some (token, left)

module _ {R : Type 0} (redis : Expiring R) (l : RedisProcessingLock) where
  unfoldable pub step : Event → R → R
  step (acquires token fate key) r = (acquire redis l token fate key r).0
  step (releases fate key token) r = (release redis l fate key token r).0
  step (waits d) r = redis.wait d r

  unfoldable pub run : List Event → R → R
  run [] r = r
  run (e ∷ es) r = run es (step e r)

  -- No acquisition of the key among the events takes the lock.
  abbrev pub Refused : Bytes → List Event → R → Type 0
  Refused key [] r = Unit
  Refused key (acquires token fate k ∷ es) r =
      (k ≡ key
        → ((acquire redis l token fate k r).1 ≡ taken)
          ⊎ ((acquire redis l token fate k r).1 ≡ Acquired.failed))
      × Refused key es (step (acquires token fate k) r)
  Refused key (releases fate k token ∷ es) r = Refused key es (step (releases fate k token) r)
  Refused key (waits d ∷ es) r = Refused key es (step (waits d) r)

-- An event that does not release the lock with the token.
abbrev pub Foreign : Bytes → Bytes → Event → Type 0
Foreign key token (acquires t fate k) = Unit
Foreign key token (releases fate k t) = k ≡ key → t ≢ token
Foreign key token (waits d) = Unit

abbrev pub waited : List Event → ℕ
waited [] = 0
waited (acquires t fate k ∷ es) = waited es
waited (releases fate k t ∷ es) = waited es
waited (waits d ∷ es) = d + waited es

module _ {R : Type 0} (redis : Expiring R) (l : RedisProcessingLock) where
  pub released_by-other : (a : R × Option Bool) → (released_by redis l a).0 ≡ a.0
  unfolding released_by
  released_by-other (r, none) = refl
  released_by-other (r, some true) = refl
  released_by-other (r, some false) = refl

module _ {R : Type 0} (redis : Expiring R) (law : IsExpiring redis) where
  answered-store : (t : Bytes) (a : R × Bool) → (answered redis t a).0 ≡ a.0
  unfolding answered
  answered-store t (r, true) = refl
  answered-store t (r, false) = refl

  answered-taken : (t : Bytes) (a : R × Bool) → a.1 ≡ false → (answered redis t a).1 ≡ taken
  unfolding answered
  answered-taken t (r, true) e = ground arith
  answered-taken t (r, false) e = refl

  set_nx-Holds :
      (k t key token : Bytes) (ttl left : ℕ) (r : R)
      → 0 < ttl
      → Holds redis key token left r
      → Holds redis key token left (redis.set_nx k t ttl r).0
  set_nx-Holds k t key token ttl left r filled h = elim (Option-cases (redis.get r k)) [
    | inl e ↦ elim (Bool-cases (k == key)) [
      | inl here ↦ ground (arith, h, e, ap (redis.get r) ((==_iff k key).0 here))
      | inr away ↦ ground (arith, h, away, law.get_free k t ttl r key filled e)
    ]
    | inr (x, e) ↦ law.get_taken k t ttl r x key e ∙ h
  ]

  -- An acquisition, however it ends, leaves a lock that is held as it is, and does not take it.
  acquire-Holds :
      (l : RedisProcessingLock) (t : Option Bytes) (fate : Fate) (k key token : Bytes) (left : ℕ)
      (r : R)
      → 0 < l.ttl
      → Holds redis key token left r
      → Holds redis key token left (acquire redis l t fate k r).0
  unfolding acquire acquire_lock_with_token set_token
  acquire-Holds l none fate k key token left r filled h = h
  acquire-Holds l (some t) done k key token left r filled h =
      ap (λ (x : R). redis.get x key) (answered-store t (redis.set_nx k t l.ttl r))
      ∙ set_nx-Holds k t key token l.ttl left r filled h
  acquire-Holds l (some t) unsent k key token left r filled h = h
  acquire-Holds l (some t) unanswered k key token left r filled h =
      set_nx-Holds k t key token l.ttl left r filled h

  acquire-refused :
      (l : RedisProcessingLock) (t : Option Bytes) (fate : Fate) (k key token : Bytes) (left : ℕ)
      (r : R)
      → Holds redis key token left r
      → k ≡ key
      → ((acquire redis l t fate k r).1 ≡ taken)
        ⊎ ((acquire redis l t fate k r).1 ≡ Acquired.failed)
  unfolding acquire acquire_lock_with_token set_token
  acquire-refused l none fate k key token left r h same = inr refl
  acquire-refused l (some t) done k key token left r h same = inl (
      answered-taken t (redis.set_nx k t l.ttl r)
        (law.taken k t l.ttl r (token, left) (ap (redis.get r) same ∙ h)))
  acquire-refused l (some t) unsent k key token left r h same = inr refl
  acquire-refused l (some t) unanswered k key token left r h same = inr refl

  release_script-Holds :
      (k t key token : Bytes) (left : ℕ) (r : R)
      → (k ≡ key → t ≢ token)
      → Holds redis key token left r
      → Holds redis key token left (release_script redis k t r).0
  unfolding release_script same_token
  release_script-Holds k t key token left r foreign h = elim (Bool-cases (k == key)) [
    | inl here ↦
        let same : redis.get r k ≡ some (token, left) =
          ap (redis.get r) ((==_iff k key).0 here) ∙ h in
        let apart : token ≢ t = λ e. foreign ((==_iff k key).0 here) (sym e) in
        rw (same) (ground (arith, h, ==_iff token t, apart))
    | inr away ↦ elim (Bool-cases (same_token redis t (redis.get r k))) [
      | inl e ↦ ground (arith, e, away, h, law.get_del k r key)
      | inr e ↦ ground (arith, e, h)
    ]
  ]

  eval-Holds :
      (fate : Fate) (k t key token : Bytes) (left : ℕ) (r : R)
      → (k ≡ key → t ≢ token)
      → Holds redis key token left r
      → Holds redis key token left (eval redis fate k t r).0
  unfolding eval
  eval-Holds done k t key token left r foreign h =
      release_script-Holds k t key token left r foreign h
  eval-Holds unsent k t key token left r foreign h = h
  eval-Holds unanswered k t key token left r foreign h =
      release_script-Holds k t key token left r foreign h

  release-Holds :
      (l : RedisProcessingLock) (fate : Fate) (k t key token : Bytes) (left : ℕ) (r : R)
      → (k ≡ key → t ≢ token)
      → Holds redis key token left r
      → Holds redis key token left (release redis l fate k t r).0
  unfolding release release_lock_owned
  release-Holds l fate k t key token left r foreign h = elim (Bool-cases (t == [])) [
    | inl e ↦ rw (e, if◌then◌else◌) h
    | inr e ↦
        rw (e, if◌then◌else◌)
          (ap (λ (x : R). redis.get x key) (released_by-other redis l (eval redis fate k t r))
            ∙ eval-Holds fate k t key token left r foreign h)
  ]

  wait-Holds :
      (d : ℕ) (key token : Bytes) (left : ℕ) (r : R)
      → d < left
      → Holds redis key token left r
      → Holds redis key token (left - d) (redis.wait d r)
  wait-Holds d key token left r early h = ground (arith, law.get_wait d r key, h, early)

  -- A lock that is held stays, and is refused to all, through events that neither release it nor last as long.
  pub run-Holds :
      (l : RedisProcessingLock) (key token : Bytes) (events : List Event) (left : ℕ) (r : R)
      → 0 < l.ttl
      → All (Foreign key token) events
      → waited events < left
      → Holds redis key token left r
      → Holds redis key token (left - waited events) (run redis l events r)
        × Refused redis l key events r
  unfolding run step
  run-Holds l key token [] left r filled foreign early h =
      (subst (λ (n : ℕ). Holds redis key token n r) (omega arith) h, tt)
  run-Holds l key token (acquires t fate k ∷ es) left r filled (here, foreign) early h =
      let (held, refused) =
        run-Holds l key token es left (acquire redis l t fate k r).0 filled foreign early
          (acquire-Holds l t fate k key token left r filled h) in
      (held, ((λ same. acquire-refused l t fate k key token left r h same), refused))
  run-Holds l key token (releases fate k t ∷ es) left r filled (here, foreign) early h =
      run-Holds l key token es left (release redis l fate k t r).0 filled foreign early
        (release-Holds l fate k t key token left r here h)
  run-Holds l key token (waits d ∷ es) left r filled (here, foreign) early h =
      let (held, refused) =
        run-Holds l key token es (left - d) (redis.wait d r) filled foreign (omega (arith, early))
          (wait-Holds d key token left r (omega (arith, early)) h) in
      (
        subst (λ (n : ℕ). Holds redis key token n (run redis l es (redis.wait d r))) (omega arith)
            held,
        refused,
      )
