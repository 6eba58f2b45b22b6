-- ===== src/Queue/PriorityZset/Order.antt =====
-- Which entry is popped, and which is dropped (pkg/queue/priority_zset.go).
use issue_tracker.Prelude.{
  ℕ, ◌≤◌, ◌<◌, ◌≡◌, ◌≢◌, ◌⊎◌, inl, inr, false, none, some, arith, Bytes, Option-cases,
}
use issue_tracker.Prelude.Texts.{bytes_eq}
use issue_tracker.Redis.{Redis, PopsMin, TrimsMax}
use issue_tracker.Queue.PriorityZset.{
  Queue, Codec, trim, priority_score, normal_or, priority_factor,
}
use issue_tracker.Queue.PriorityZset.Scores.{priority_score-le}
use issue_tracker.Queue.PriorityZset.RoundTrip.{score-trim}

-- A member waits that was pushed with a priority at a time.
abbrev pub Waits : {R : Type 0} → Redis Bytes Bytes R → R → Bytes → ℕ → ℕ → Type 0
Waits redis r id priority arrival =
    (redis.score r id ≡ some (priority_score priority arrival)) × (arrival < priority_factor)

-- An entry of a higher priority is popped before every entry of a lower one, and of the same priority the
-- one that arrived first.
pub pop_first :
    {R : Type 0} (redis : Redis Bytes Bytes R) (r r' : R) (id id' : Bytes) (p t p' t' s : ℕ)
    → PopsMin redis
    → Waits redis r id p t
    → Waits redis r id' p' t'
    → redis.zpopmin r ≡ some (id, s, r')
    → (normal_or p < normal_or p') ⊎ ((normal_or p ≡ normal_or p') × (t ≤ t'))
pop_first redis r r' id id' p t p' t' s pops (w, early) (w', early') e =
    let (scored, least, rest, same) = pops.popped r id s r' e in
    let lowest = least id' (priority_score p' t') w' in
    (priority_score-le p t p' t' early early').0 (ground (arith, scored, w, lowest))

-- A trim of a queue that is too long drops the newest entries of the lowest priority, not the oldest: an
-- entry that it drops has no higher priority than any that stays, and of the same priority it arrived no
-- earlier.
pub trim_drops_newest :
    {R : Type 0} (redis : Redis Bytes Bytes R) (codec : Codec) (q : Queue) (r : R) (id id' : Bytes)
    (p t p' t' : ℕ)
    → TrimsMax redis
    → Waits redis r id p t
    → Waits redis r id' p' t'
    → redis.score (trim redis codec q false r) id ≡ none
    → redis.score (trim redis codec q false r) id' ≢ none
    → (normal_or p' < normal_or p) ⊎ ((normal_or p' ≡ normal_or p) × (t' ≤ t))
unfolding trim
trim_drops_newest redis codec q r id id' p t p' t' trims (w, early) (w', early') gone stays =
    (priority_score-le p' t' p t early' early).0 (elim (trims.kept_or_high q.max_size r id) [
      | inl same ↦ ground (arith, same, gone, w)
      | inr (dropped, high) ↦ elim (Option-cases (redis.score (redis.ztrim q.max_size r) id')) [
        | inl e ↦ absurd (stays e)
        | inr (u, e) ↦
            let kept = score-trim redis codec q trims false r id' u e in
            ground (arith, kept, w', high (priority_score p t) u id' w e)
      ]
    ])
