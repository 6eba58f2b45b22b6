-- ===== src/Redis.antt =====
-- The commands of Redis that the program's queues and locks send, as an interface: texts under keys, and
-- the one sorted set of the component. The laws are what the documentation of the commands says.

pub mod Extreme
pub mod Memory
pub mod Framing
pub mod Expiring
pub mod Lists
use issue_tracker.Prelude.{
  ℕ, ◌≤◌, ◌≡◌, ◌⊎◌, inl, inr, Option, none, some, List, if◌then◌else◌, ◌==◌, elem, true, All,
  length, Comparable,
}

-- What becomes of a command: it is done and answered, or it breaks before the server or after it.
pub data Fate : Type 0 where
  done unsent unanswered : Fate

pub record Redis (T V R : Type 0) : Type 0 where
  pub get : R → T → Option V
  pub set : T → V → R → R
  pub del : T → R → R
  pub score : R → T → Option ℕ
  pub zadd : T → ℕ → R → R
  pub zrem : T → R → R
  -- `ZPOPMIN`, with the member, its score and what is left.
  pub zpopmin : R → Option (T × ℕ × R)
  -- `ZRANGEBYSCORE` up to a score, with a limit.
  pub zrange : ℕ → ℕ → R → List T
  -- `ZREMRANGEBYRANK` from a rank to the end.
  pub ztrim : ℕ → R → R

pub record IsRedis {T V R : Type 0} ⦃c : Comparable T⦄ (x : Redis T V R) : Type 0 where
  pub get_set :
      (k : T) (v : V) (r : R) (j : T)
      → x.get (x.set k v r) j ≡ (if k == j then some v else x.get r j)
  pub score_set : (k : T) (v : V) (r : R) (m : T) → x.score (x.set k v r) m ≡ x.score r m
  pub get_del : (k : T) (r : R) (j : T) → x.get (x.del k r) j ≡ (if k == j then none else x.get r j)
  pub score_del : (k : T) (r : R) (m : T) → x.score (x.del k r) m ≡ x.score r m
  pub get_zadd : (n : T) (s : ℕ) (r : R) (j : T) → x.get (x.zadd n s r) j ≡ x.get r j
  pub score_zadd :
      (n : T) (s : ℕ) (r : R) (m : T)
      → x.score (x.zadd n s r) m ≡ (if n == m then some s else x.score r m)
  pub get_zrem : (n : T) (r : R) (j : T) → x.get (x.zrem n r) j ≡ x.get r j
  pub score_zrem :
      (n : T) (r : R) (m : T) → x.score (x.zrem n r) m ≡ (if n == m then none else x.score r m)

-- The member that is popped has the lowest score.
pub record PopsMin {T V R : Type 0} ⦃c : Comparable T⦄ (x : Redis T V R) : Type 0 where
  pub popped :
      (r : R) (m : T) (s : ℕ) (r' : R)
      → x.zpopmin r ≡ some (m, s, r')
      → (x.score r m ≡ some s)
        × ((j : T) (t : ℕ) → x.score r j ≡ some t → s ≤ t)
        × ((j : T) → x.score r' j ≡ (if m == j then none else x.score r j))
        × ((k : T) → x.get r' k ≡ x.get r k)
  pub none_left : (r : R) → x.zpopmin r ≡ none → (j : T) → x.score r j ≡ none

-- A trim removes members of the highest scores.
pub record TrimsMax {T V R : Type 0} ⦃c : Comparable T⦄ (x : Redis T V R) : Type 0 where
  pub get_ztrim : (n : ℕ) (r : R) (k : T) → x.get (x.ztrim n r) k ≡ x.get r k
  pub kept_or_high :
      (n : ℕ) (r : R) (j : T)
      → (x.score (x.ztrim n r) j ≡ x.score r j)
        ⊎ ((x.score (x.ztrim n r) j ≡ none)
            × ((s t : ℕ) (k : T) → x.score r j ≡ some s → x.score (x.ztrim n r) k ≡ some t → t ≤ s))

-- A range has members at or below its score, and every such member that is not in it is behind a range
-- that is full.
pub record RangesLow {T V R : Type 0} ⦃c : Comparable T⦄ (x : Redis T V R) : Type 0 where
  pub low :
      (top n : ℕ) (r : R)
      → All (λ (m : T). (s : ℕ) × (x.score r m ≡ some s) × (s ≤ top)) (x.zrange top n r)
  pub full_or_listed :
      (top n : ℕ) (r : R) (m : T) (s : ℕ)
      → x.score r m ≡ some s
      → s ≤ top
      → (n ≤ length (x.zrange top n r)) ⊎ (elem m (x.zrange top n r) ≡ true)
