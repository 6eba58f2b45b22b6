-- ===== src/Queue/PriorityZset/Safety.antt =====
-- What a failure may do to an entry (pkg/queue/priority_zset.go).
use issue_tracker.Prelude.{
  none, Option, subst, sym, ==_refl, ◌==◌, false, if◌then◌else◌, Bool-cases, ℕ, zero, suc, ◌≡◌, ◌⊎◌,
  inl, inr, refl, ap, ◌∙◌, some, ◌++◌, ==_iff, arith, Bytes, Option-cases,
}
use issue_tracker.Prelude.Texts.{bytes_eq}
use issue_tracker.Redis.{Fate, done, unsent, unanswered, Redis, IsRedis, PopsMin}
use issue_tracker.Queue.PriorityZset.{
  Headers, Config, Queue, new_priority_zset_queue, Codec, put_header, pipeline, Faults, Outcome,
  lost, put_back, pop_by, popped_off, pop_member, pop_failed, restored, pop, restore_on_pop_failure,
}
use issue_tracker.Queue.PriorityZset.RoundTrip.{keys_apart}

score-put_header :
    {R : Type 0} (redis : Redis Bytes Bytes R) (codec : Codec) (q : Queue) (id payload : Bytes)
    (headers : Headers) (r : R) (m : Bytes)
    → IsRedis redis
    → redis.score (put_header redis codec q id payload headers r) m ≡ redis.score r m
unfolding put_header
score-put_header redis codec q id payload headers r m law =
    let hk = q.header_key ++ id in
    elim (Option-cases
      (codec.marshal (record { payload_sha = codec.digest payload; headers = headers }))) [
        | inl e ↦ ground (arith, e, law.score_del hk r m)
        | inr (b, e) ↦ ground (arith, e, law.score_set hk b r m, law.score_del hk r m)
      ]

get-put_header :
    {R : Type 0} (redis : Redis Bytes Bytes R) (codec : Codec) (q : Queue) (id payload : Bytes)
    (headers : Headers) (r : R) (k : Bytes)
    → IsRedis redis
    → (q.header_key ++ id == k) ≡ false
    → redis.get (put_header redis codec q id payload headers r) k ≡ redis.get r k
unfolding put_header
get-put_header redis codec q id payload headers r k law other =
    let hk = q.header_key ++ id in
    elim (Option-cases
      (codec.marshal (record { payload_sha = codec.digest payload; headers = headers }))) [
        | inl e ↦ ground (arith, e, other, law.get_del hk r k)
        | inr (b, e) ↦ ground (arith, e, other, law.get_set hk b r k, law.get_del hk r k)
      ]

-- A pipeline that breaks after any number of its commands does not show an entry without its payload:
-- either all members are as before, or the payload of the pushed entry is in place.
pub pipeline_shows_whole :
    {R : Type 0} (redis : Redis Bytes Bytes R) (codec : Codec) (cfg : Config) (q : Queue)
    (n score : ℕ) (id payload : Bytes) (headers : Headers) (r : R)
    → IsRedis redis
    → new_priority_zset_queue cfg ≡ some q
    → ((m : Bytes)
        → redis.score (pipeline redis codec q n score id payload headers r) m ≡ redis.score r m)
      ⊎ (redis.get (pipeline redis codec q n score id payload headers r) (q.entry_key ++ id)
          ≡ some payload)
unfolding pipeline
pipeline_shows_whole redis codec cfg q zero score id payload headers r law accepted =
    inl (λ m. refl)
pipeline_shows_whole redis codec cfg q (suc zero) score id payload headers r law accepted =
    inl (λ m. law.score_set (q.entry_key ++ id) payload r m)
pipeline_shows_whole redis codec cfg q (suc (suc zero)) score id payload headers r law accepted =
    inl (λ m.
      score-put_header redis codec q id payload headers (redis.set (q.entry_key ++ id) payload r) m
        law
      ∙ law.score_set (q.entry_key ++ id) payload r m)
pipeline_shows_whole redis codec cfg q (suc (suc (suc n))) score id payload headers r law accepted =
    let set_up = redis.set (q.entry_key ++ id) payload r in
    let apart = keys_apart cfg q id id accepted in
    inr (
      law.get_zadd id score (put_header redis codec q id payload headers set_up) (q.entry_key ++ id)
      ∙ get-put_header redis codec q id payload headers set_up (q.entry_key ++ id) law (
          ground (
            arith,
            ==_iff (q.header_key ++ id) (q.entry_key ++ id),
            apart,
            λ (e : q.header_key ++ id ≡ q.entry_key ++ id). sym e,
          ))
      ∙ ground (
        arith,
        law.get_set (q.entry_key ++ id) payload r (q.entry_key ++ id),
        ==_refl (q.entry_key ++ id),
      ))

module _ {R : Type 0} (redis : Redis Bytes Bytes R) (codec : Codec) (q : Queue) (faults : Faults)
    (r : R) where
  -- A key after a pop: its text is as it was, and as a member it has its score, but for the one member that was
  -- taken out and could not be put back, or whose pop was not answered.
  abbrev pub Keeps : Bytes → R × Outcome → Type 0
  Keeps k (after, o) =
      (redis.get after k ≡ redis.get r k)
      × ((redis.score after k ≡ redis.score r k)
          ⊎ (((o ≡ lost) ⊎ ((o ≡ pop_failed) × (faults.pop ≡ unanswered)))
              × (s : ℕ) × (r' : R) × (redis.zpopmin r ≡ some (k, s, r'))))

  abbrev pub Failed : R × Outcome → Type 0
  Failed (after, o) = (o ≡ restored) ⊎ ((o ≡ pop_failed) ⊎ (o ≡ lost))

  module _ (law : IsRedis redis) (pops : PopsMin redis) (k : Bytes) where
    score-popped :
        (id : Bytes) (s : ℕ) (r' : R)
        → redis.zpopmin r ≡ some (id, s, r')
        → (redis.score r' k ≡ redis.score r k)
          ⊎ ((t : ℕ) × (x : R) × (redis.zpopmin r ≡ some (k, t, x)))
    score-popped id s r' e =
        let (scored, least, rest, same) = pops.popped r id s r' e in
        elim (Bool-cases (id == k)) [
          | inl own ↦
              let at : id ≡ k = (==_iff id k).0 own in
              inr (s, r', subst (λ (x : Bytes). redis.zpopmin r ≡ some (x, s, r')) at e)
          | inr other ↦ inl (rest k ∙ ground (arith, other))
        ]

    score-put_back :
        (id : Bytes) (s : ℕ) (r' : R)
        → redis.zpopmin r ≡ some (id, s, r')
        → redis.score (redis.zadd id s r') k ≡ redis.score r k
    score-put_back id s r' e =
        let (scored, least, rest, same) = pops.popped r id s r' e in
        ground (
          arith,
          scored,
          rest k,
          law.score_zadd id s r' k,
          ==_iff id k,
          λ (p : id ≡ k). ap (redis.score r) p,
        )

    put_back-Keeps :
        (fate : Fate) (id : Bytes) (s : ℕ) (r' : R)
        → redis.zpopmin r ≡ some (id, s, r')
        → Keeps k (put_back redis codec q fate id s r')
    unfolding put_back
    put_back-Keeps done id s r' e =
        (law.get_zadd id s r' k ∙ (pops.popped r id s r' e).3 k, inl (score-put_back id s r' e))
    put_back-Keeps unsent id s r' e = (
      (pops.popped r id s r' e).3 k,
      elim (score-popped id s r' e) [
        | inl same ↦ inl same
        | inr (t, x, own) ↦ inr (inl refl, t, x, own)
      ],
    )
    put_back-Keeps unanswered id s r' e =
        (law.get_zadd id s r' k ∙ (pops.popped r id s r' e).3 k, inl (score-put_back id s r' e))

    pop_member-Keeps :
        (o : Option (Bytes × ℕ × R))
        → redis.zpopmin r ≡ o
        → Failed (pop_member redis codec q faults o r)
        → Keeps k (pop_member redis codec q faults o r)
    unfolding pop_member restore_on_pop_failure
    pop_member-Keeps none e failed = (refl, inl refl)
    pop_member-Keeps (some (id, s, r')) e failed =
        let back = put_back-Keeps faults.restore id s r' e in
        elim (Bool-cases faults.entry) [
          | inl f ↦ rw (f, if◌then◌else◌) back
          | inr f ↦ elim (Bool-cases faults.header) [
            | inl g ↦ rw (f, g, if◌then◌else◌) back
            | inr g ↦ absurd (ground (arith, f, g, failed))
          ]
        ]

    popped_off-Keeps :
        (o : Option (Bytes × ℕ × R))
        → redis.zpopmin r ≡ o
        → faults.pop ≡ unanswered
        → Keeps k (popped_off redis codec q o r, pop_failed)
    unfolding popped_off
    popped_off-Keeps none e at = (refl, inl refl)
    popped_off-Keeps (some (id, s, r')) e at = (
      (pops.popped r id s r' e).3 k,
      elim (score-popped id s r' e) [
        | inl same ↦ inl same
        | inr (t, x, own) ↦ inr (inr (refl, at), t, x, own)
      ],
    )

    pop_by-Keeps :
        (fate : Fate)
        → faults.pop ≡ fate
        → Failed (pop_by redis codec q fate faults r)
        → Keeps k (pop_by redis codec q fate faults r)
    unfolding pop_by
    pop_by-Keeps done at failed = pop_member-Keeps (redis.zpopmin r) refl failed
    pop_by-Keeps unsent at failed = (refl, inl refl)
    pop_by-Keeps unanswered at failed = popped_off-Keeps (redis.zpopmin r) refl at

-- Whatever a pop that fails meets, the payloads, the headers and the members with their scores are as they
-- were, but for at most one member: the one that was taken out, where putting it back failed too, which is the
-- outcome `lost`, or where the answer of the command that took it out was lost.
pub pop-Keeps :
    {R : Type 0} (redis : Redis Bytes Bytes R) (codec : Codec) (q : Queue) (faults : Faults) (r : R)
    → IsRedis redis
    → PopsMin redis
    → Failed redis codec q faults r (pop redis codec q faults r)
    → (k : Bytes) → Keeps redis codec q faults r k (pop redis codec q faults r)
unfolding pop
pop-Keeps redis codec q faults r law pops failed k =
    pop_by-Keeps redis codec q faults r law pops k faults.pop refl failed
