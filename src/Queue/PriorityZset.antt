-- ===== src/Queue/PriorityZset.antt =====
-- pkg/queue/priority_zset.go and priority_header.go: the queue of a stage in a sorted set of Redis, where
-- the score holds the priority and the time of arrival. SHA-256, JSON and the decimals of `strconv` are
-- parameters, and so is Redis. Scores are exact: below 2 ^ 53 a float64 is. The expiry of an entry is its
-- absence when it is read.

mod Scores
mod RoundTrip
mod Order
mod Safety
mod Tests
use Prim.Native.Nat.{◌^◌}
use issue_tracker.Prelude.{
  ℕ, zero, suc, ◌+◌, ◌*◌, ◌/◌, Bool, true, false, ◌&&◌, ◌||◌, Option, none, some, List, [], ◌∷◌,
  ◌++◌, ltb, leb, if◌then◌else◌, ◌==◌, AssocList, lookup, insert, Bytes, has_prefix,
}
use issue_tracker.Prelude.Keys.{nat_eq}
use issue_tracker.Prelude.Texts.{bytes_eq}
use issue_tracker.Redis.{Redis, Fate, done, unsent, unanswered}

abbrev pub Headers : Type 0
Headers = AssocList Bytes Bytes

-- "priority".
abbrev pub priority_header_key : Bytes
priority_header_key = 112 ∷ 114 ∷ 105 ∷ 111 ∷ 114 ∷ 105 ∷ 116 ∷ 121 ∷ []

-- "hdr:".
abbrev pub header_prefix_marker : Bytes
header_prefix_marker = 104 ∷ 100 ∷ 114 ∷ 58 ∷ []

abbrev pub priority_zset_max_size : ℕ
priority_zset_max_size = 100000

-- 1e13.
abbrev pub priority_factor : ℕ
priority_factor = 10000000000000

-- A priority out of 1 to 3 is the normal one.
unfoldable pub normal_or : ℕ → ℕ
normal_or p = if ltb p 1 || ltb 3 p then 2 else p

unfoldable pub priority_score : ℕ → ℕ → ℕ
unfolding normal_or
priority_score priority arrival = normal_or priority * priority_factor + arrival

unfoldable pub priority_from_score : ℕ → ℕ
priority_from_score score = score / priority_factor

priority_of : Option ℕ → ℕ
priority_of none = 2
priority_of (some n) = if ltb n 1 || ltb 3 n then 2 else n

header_priority : (Bytes → Option ℕ) → Option Bytes → ℕ
unfolding priority_of
header_priority atoi none = 2
header_priority atoi (some v) = priority_of (atoi v)

-- `PriorityFromHeader`; a negative number counts as 0.
unfoldable pub priority_from_header : (Bytes → Option ℕ) → Headers → ℕ
unfolding header_priority
priority_from_header atoi headers = header_priority atoi (lookup priority_header_key headers)

pub record Config : Type 0 where
  pub zset_key : Bytes
  pub entry_key_prefix : Bytes
  pub max_size : ℕ
  pub header_key_prefix : Bytes

pub record Queue : Type 0 where
  pub entry_key : Bytes
  pub header_key : Bytes
  pub max_size : ℕ

unfoldable pub is_empty : Bytes → Bool
is_empty [] = true
is_empty (b ∷ bs) = false

unfoldable pub header_prefix_of : Config → Bytes
unfolding is_empty
header_prefix_of cfg =
    if is_empty cfg.header_key_prefix
    then header_prefix_marker ++ cfg.entry_key_prefix
    else cfg.header_key_prefix

unfoldable pub new_priority_zset_queue : Config → Option Queue
unfolding header_prefix_of
new_priority_zset_queue cfg =
    let header_key = header_prefix_of cfg in
    if is_empty cfg.zset_key || is_empty cfg.entry_key_prefix
    then none
    else if has_prefix header_key cfg.entry_key_prefix || has_prefix cfg.entry_key_prefix header_key
    then none
    else some (record {
      entry_key = cfg.entry_key_prefix;
      header_key = header_key;
      max_size = if cfg.max_size == 0 then priority_zset_max_size else cfg.max_size;
    })

-- `headerEnvelope`.
pub record Envelope : Type 0 where
  pub payload_sha : Bytes
  pub headers : Headers

-- `payloadDigest`, `json.Marshal` and `json.Unmarshal` of an envelope.
pub record Codec : Type 0 where
  pub digest : Bytes → Bytes
  pub marshal : Envelope → Option Bytes
  pub unmarshal : Bytes → Option Envelope

unfoldable pub has_headers : Headers → Bool
has_headers [] = false
has_headers (h ∷ hs) = true

module _ {R : Type 0} (redis : Redis Bytes Bytes R) (codec : Codec) (q : Queue) where
  store_header : Bytes → Option Bytes → R → R
  store_header id none r = redis.del (q.header_key ++ id) r
  store_header id (some encoded) r = redis.set (q.header_key ++ id) encoded r

  unfoldable pub put_header : Bytes → Bytes → Headers → R → R
  unfolding store_header
  put_header id payload headers r =
      if has_headers headers
      then store_header id
          (codec.marshal (record { payload_sha = codec.digest payload; headers = headers })) r
      else redis.del (q.header_key ++ id) r

  -- The pipeline of a push, after its first `n` commands: all three, or fewer where the connection broke.
  unfoldable pub pipeline : ℕ → ℕ → Bytes → Bytes → Headers → R → R
  pipeline zero score id payload headers r = r
  pipeline (suc zero) score id payload headers r = redis.set (q.entry_key ++ id) payload r
  pipeline (suc (suc zero)) score id payload headers r =
      put_header id payload headers (redis.set (q.entry_key ++ id) payload r)
  pipeline (suc (suc (suc n))) score id payload headers r =
      redis.zadd id score (put_header id payload headers (redis.set (q.entry_key ++ id) payload r))

  -- Where the trim failed nothing is trimmed; its error is not looked at.
  unfoldable pub trim : Bool → R → R
  trim failed r = if failed then r else redis.ztrim q.max_size r

  -- `PushWithHeaders` at a time: with `broken` at a number of commands it fails after them.
  unfoldable pub push_with_headers :
      Option ℕ → Bool → ℕ → ℕ → Bytes → Bytes → Headers → R → R × Bool
  push_with_headers broken trim_failed arrival priority id payload headers r =
      let score = priority_score priority arrival in
      if is_empty id || is_empty payload then (r, false) else elim broken [
        | some n ↦ (pipeline n score id payload headers r, false)
        | none ↦ (trim trim_failed (pipeline 3 score id payload headers r), true)
      ]

  unfoldable pub push : Option ℕ → Bool → ℕ → ℕ → Bytes → Bytes → R → R × Bool
  push broken trim_failed arrival priority id payload r =
      push_with_headers broken trim_failed arrival priority id payload [] r

-- `PopResult`; a payload that has expired is none, and so are headers that are not there.
pub record PopResult : Type 0 where
  pub id : Bytes
  pub score : ℕ
  pub priority : ℕ
  pub payload : Option Bytes
  pub headers : Option Headers

-- What becomes of the commands of a pop. Those that read, and the deletion of the entry, fail or do not: a lost
-- answer of a read leaves nothing behind, and one of the deletion is not missed.
pub record Faults : Type 0 where
  pub pop : Fate
  pub entry : Bool
  pub header : Bool
  pub restore : Fate
  pub cleanup : Bool

-- A pop finds nothing, its own command fails, or it pops; an error behind the command is `restored` where the
-- member was put back and `lost` where that failed too.
pub data Outcome : Type 0 where
  nothing pop_failed restored lost : Outcome
  popped : PopResult → Outcome

unfoldable pub bytes_or_nil : Option Bytes → Bytes
bytes_or_nil none = []
bytes_or_nil (some payload) = payload

opened : Codec → Option Bytes → Option Envelope → Option Headers
opened codec payload none = none
opened codec payload (some env) =
    if is_empty env.payload_sha || env.payload_sha == codec.digest (bytes_or_nil payload)
    then some env.headers
    else none

-- The headers that belong to the payload, if they can be read.
unfoldable pub headers_of : Codec → Option Bytes → Option Bytes → Option Headers
unfolding opened
headers_of codec payload none = none
headers_of codec payload (some raw) =
    if is_empty raw then none else opened codec payload (codec.unmarshal raw)

module _ {R : Type 0} (redis : Redis Bytes Bytes R) (codec : Codec) (q : Queue) where
  put_back : Fate → Bytes → ℕ → R → R × Outcome
  put_back done id score r = (redis.zadd id score r, restored)
  put_back unsent id score r = (r, lost)
  put_back unanswered id score r = (redis.zadd id score r, lost)

  unfoldable pub restore_on_pop_failure : Faults → Bytes → ℕ → R → R × Outcome
  unfolding put_back
  restore_on_pop_failure faults id score r = put_back faults.restore id score r

  unfoldable pub cleaned : Faults → Bytes → R → R
  cleaned faults id r =
      if faults.cleanup then r else redis.del (q.header_key ++ id) (redis.del (q.entry_key ++ id) r)

  pop_member : Faults → Option (Bytes × ℕ × R) → R → R × Outcome
  unfolding restore_on_pop_failure cleaned
  pop_member faults none r = (r, nothing)
  pop_member faults (some (id, score, r')) r =
      let payload = redis.get r' (q.entry_key ++ id) in
      if faults.entry
      then restore_on_pop_failure faults id score r'
      else if faults.header
      then restore_on_pop_failure faults id score r'
      else (
        cleaned faults id r',
        popped (record {
          id = id;
          score = score;
          priority = priority_from_score score;
          payload = payload;
          headers = headers_of codec payload (redis.get r' (q.header_key ++ id));
        }),
      )

  -- What `BZPOPMIN` leaves.
  popped_off : Option (Bytes × ℕ × R) → R → R
  popped_off none r = r
  popped_off (some (id, score, r')) r = r'

  pop_by : Fate → Faults → R → R × Outcome
  unfolding pop_member popped_off
  pop_by done faults r = pop_member faults (redis.zpopmin r) r
  pop_by unsent faults r = (r, pop_failed)
  pop_by unanswered faults r = (popped_off (redis.zpopmin r) r, pop_failed)

  -- A pop whose answer is lost has popped all the same, and returns an error.
  unfoldable pub pop : Faults → R → R × Outcome
  unfolding pop_by
  pop faults r = pop_by faults.pop faults r

-- The message of a popped entry: the headers that were kept, under the priority of the score.
unfoldable pub headers_or_none : Option Headers → Headers
headers_or_none none = []
headers_or_none (some headers) = headers

unfoldable pub message_headers : (ℕ → Bytes) → PopResult → Headers
message_headers itoa res =
    insert priority_header_key (itoa res.priority) (headers_or_none res.headers)
