-- ===== src/Queue/PriorityZset/RoundTrip.antt =====
-- What is pushed is what is popped (pkg/queue/priority_zset.go).
use issue_tracker.Prelude.{
  subst, subst₂, lookup, [], ◌∷◌, ℕ, ◌<◌, ◌≡◌, ◌≢◌, inl, inr, refl, sym, ap, ◌∙◌, Bool, true, false,
  ◌||◌, Option, none, some, ◌++◌, if◌then◌else◌, ◌==◌, ==_iff, ==_refl, arith, Bytes, has_prefix,
  prefixes_apart, Bool-cases,
}
use issue_tracker.Prelude.Texts.{bytes_eq}
use issue_tracker.Redis.{done, Redis, IsRedis, PopsMin, TrimsMax}
use issue_tracker.Queue.PriorityZset.{
  Headers, Config, Queue, new_priority_zset_queue, Envelope, Codec, has_headers, is_empty,
  put_header, pipeline, trim, push_with_headers, PopResult, Faults, popped, headers_of, opened,
  pop_by, pop_member, bytes_or_nil, pop, priority_score, priority_from_score, normal_or,
  priority_factor,
}
use issue_tracker.Queue.PriorityZset.Scores.{priority_from_score-priority_score}

-- All texts of the headers are valid UTF-8, by the test `utf8`.
abbrev pub IsText : (Bytes → Bool) → Headers → Type 0
IsText utf8 [] = Unit
IsText utf8 ((key, value) ∷ headers) = (utf8 key ≡ true) × (utf8 value ≡ true) × IsText utf8 headers

-- JSON gives back an envelope of valid texts, with its headers as a map, which has no order; anything else comes
-- back changed, and nothing is said of it. A digest is a text that has bytes.
pub record IsCodec (utf8 : Bytes → Bool) (codec : Codec) : Type 0 where
  pub written :
      (e : Envelope)
      → utf8 e.payload_sha ≡ true
      → IsText utf8 e.headers
      → (b : Bytes) × (e' : Envelope) × (codec.marshal e ≡ some b)
        × (codec.unmarshal b ≡ some e')
        × (is_empty b ≡ false)
        × (e'.payload_sha ≡ e.payload_sha)
        × ((key : Bytes) → lookup key e'.headers ≡ lookup key e.headers)
  pub digested : (payload : Bytes) → is_empty (codec.digest payload) ≡ false
  pub digest_text : (payload : Bytes) → utf8 (codec.digest payload) ≡ true

-- The headers of a message are those that were sent, as a map, or none where none were sent.
abbrev pub SameHeaders : Option Headers → Headers → Type 0
SameHeaders none sent = has_headers sent ≡ false
SameHeaders (some got) sent =
    (has_headers sent ≡ true) × ((key : Bytes) → lookup key got ≡ lookup key sent)

prefixes-new :
    (cfg : Config) (q : Queue)
    → new_priority_zset_queue cfg ≡ some q
    → (has_prefix q.entry_key q.header_key ≡ false) × (has_prefix q.header_key q.entry_key ≡ false)
unfolding new_priority_zset_queue
prefixes-new cfg q e = ground arith

-- No entry of an accepted queue has the key of a header.
pub keys_apart :
    (cfg : Config) (q : Queue) (id id' : Bytes)
    → new_priority_zset_queue cfg ≡ some q
    → q.entry_key ++ id ≢ q.header_key ++ id'
keys_apart cfg q id id' e =
    let (h, k) = prefixes-new cfg q e in prefixes_apart q.entry_key q.header_key id id' h k

module _ {R : Type 0} (redis : Redis Bytes Bytes R) (law : IsRedis redis) (codec : Codec)
    (utf8 : Bytes → Bool) (good : IsCodec utf8 codec) (q : Queue) (id payload : Bytes)
    (headers : Headers) (texts : IsText utf8 headers)
    (apart : q.entry_key ++ id ≢ q.header_key ++ id) (score : ℕ) (r : R) where
  abbrev after : R
  after = pipeline redis codec q 3 score id payload headers r

  abbrev envelope : Envelope
  envelope = record { payload_sha = codec.digest payload; headers = headers }

  abbrev encoded : Bytes
  encoded = (good.written envelope (good.digest_text payload) texts).0

  get_put_header :
      (r' : R) (j : Bytes)
      → redis.get (put_header redis codec q id payload headers r') j ≡ (
          if q.header_key ++ id == j
          then (if has_headers headers then some encoded else none)
          else redis.get r' j)
  unfolding put_header
  get_put_header r' j =
      let (b, e', m, u, ne, sha, same) = good.written envelope (good.digest_text payload) texts in
      elim (Bool-cases (has_headers headers)) [
        | inl some_left ↦
            rw (some_left, m, put_header, if◌then◌else◌) (law.get_set (q.header_key ++ id) b r' j)
        | inr no_header ↦ rw (no_header, if◌then◌else◌) (law.get_del (q.header_key ++ id) r' j)
      ]

  pub entry-after : redis.get after (q.entry_key ++ id) ≡ some payload
  unfolding pipeline
  entry-after =
      let before = redis.set (q.entry_key ++ id) payload r in
      law.get_zadd id score (put_header redis codec q id payload headers before) (q.entry_key ++ id)
      ∙ get_put_header before (q.entry_key ++ id)
      ∙ ground (
        arith,
        ==_iff (q.header_key ++ id) (q.entry_key ++ id),
        apart,
        λ (e : q.header_key ++ id ≡ q.entry_key ++ id). sym e,
        law.get_set (q.entry_key ++ id) payload r (q.entry_key ++ id),
        ==_refl (q.entry_key ++ id),
      )

  header-after :
      redis.get after (q.header_key ++ id) ≡ (if has_headers headers then some encoded else none)
  unfolding pipeline
  header-after =
      let before = redis.set (q.entry_key ++ id) payload r in
      law.get_zadd id score (put_header redis codec q id payload headers before)
        (q.header_key ++ id)
      ∙ get_put_header before (q.header_key ++ id)
      ∙ ground (arith, ==_refl (q.header_key ++ id))

  headers_of-kept :
      SameHeaders
        (headers_of codec (some payload) (if has_headers headers then some encoded else none))
        headers
  unfolding headers_of bytes_or_nil opened
  headers_of-kept =
      let (b, e', m, u, ne, sha, same) = good.written envelope (good.digest_text payload) texts in
      elim (Bool-cases (has_headers headers)) [
        | inl some_left ↦
            rw
              (
                some_left,
                ne,
                u,
                sha,
                good.digested payload,
                ==_refl (codec.digest payload),
                if◌then◌else◌,
                ◌||◌,
              )
              (some_left, same)
        | inr no_header ↦ rw (no_header, if◌then◌else◌) no_header
      ]

  pub headers_of-after :
      SameHeaders (headers_of codec (some payload) (redis.get after (q.header_key ++ id))) headers
  headers_of-after =
      subst (λ (raw : Option Bytes). SameHeaders (headers_of codec (some payload) raw) headers)
        (sym header-after) headers_of-kept

  score-after : redis.score after id ≡ some score
  unfolding pipeline
  score-after =
      law.score_zadd id score
        (put_header redis codec q id payload headers (redis.set (q.entry_key ++ id) payload r)) id
      ∙ ground (arith, ==_refl id)

abbrev pub no_faults : Faults
no_faults = record { pop = done; entry = false; header = false; restore = done; cleanup = false }

pop-popped :
    {R : Type 0} (redis : Redis Bytes Bytes R) (codec : Codec) (q : Queue) (r r' : R) (id : Bytes)
    (score : ℕ)
    → redis.zpopmin r ≡ some (id, score, r')
    → (pop redis codec q no_faults r).1
      ≡ popped (record {
        id = id;
        score = score;
        priority = priority_from_score score;
        payload = redis.get r' (q.entry_key ++ id);
        headers =
            headers_of codec (redis.get r' (q.entry_key ++ id)) (redis.get r' (q.header_key ++ id));
      })
unfolding pop pop_by pop_member
pop-popped redis codec q r r' id score e = rw (e, pop) refl

push-pipeline :
    {R : Type 0} (redis : Redis Bytes Bytes R) (codec : Codec) (q : Queue) (trim_failed : Bool)
    (arrival priority : ℕ) (id payload : Bytes) (headers : Headers) (r : R)
    → is_empty id ≡ false
    → is_empty payload ≡ false
    → (push_with_headers redis codec q none trim_failed arrival priority id payload headers r).0
      ≡ trim redis codec q trim_failed
          (pipeline redis codec q 3 (priority_score priority arrival) id payload headers r)
unfolding push_with_headers
push-pipeline redis codec q trim_failed arrival priority id payload headers r named filled =
    rw (named, filled, ◌||◌, if◌then◌else◌) refl

get-trim :
    {R : Type 0} (redis : Redis Bytes Bytes R) (codec : Codec) (q : Queue)
    → TrimsMax redis
    → (failed : Bool) (r : R) (k : Bytes)
    → redis.get (trim redis codec q failed r) k ≡ redis.get r k
unfolding trim
get-trim redis codec q trims true r k = refl
get-trim redis codec q trims false r k = trims.get_ztrim q.max_size r k

-- A member that a trim leaves has its score.
pub score-trim :
    {R : Type 0} (redis : Redis Bytes Bytes R) (codec : Codec) (q : Queue)
    → TrimsMax redis
    → (failed : Bool) (r : R) (m : Bytes) (s : ℕ)
    → redis.score (trim redis codec q failed r) m ≡ some s
    → redis.score r m ≡ some s
unfolding trim
score-trim redis codec q trims true r m s e = e
score-trim redis codec q trims false r m s e = elim (trims.kept_or_high q.max_size r m) [
  | inl same ↦ sym same ∙ e
  | inr (gone, high) ↦ ground (arith, gone, e)
]

-- A queue gives back what was pushed: if a pop after an unbroken push takes the pushed member, it has the
-- payload, the headers (as a map, and none where there were none) and the priority of the push, a priority out
-- of range as the normal one; whatever stood in Redis before, and whether or not the queue was trimmed. The
-- keys and values of the headers are valid UTF-8: JSON changes other bytes.
pub pop-push :
    {R : Type 0} (redis : Redis Bytes Bytes R) (codec : Codec) (utf8 : Bytes → Bool) (cfg : Config)
    (q : Queue)
    → IsRedis redis
    → PopsMin redis
    → TrimsMax redis
    → IsCodec utf8 codec
    → new_priority_zset_queue cfg ≡ some q
    → (trim_failed : Bool) (arrival priority : ℕ) (id payload : Bytes) (headers : Headers) (r : R)
    → arrival < priority_factor
    → is_empty id ≡ false
    → is_empty payload ≡ false
    → IsText utf8 headers
    → let r1 =
        (push_with_headers redis codec q none trim_failed arrival priority id payload headers
          r).0 in
      (s : ℕ) (r2 : R)
      → redis.zpopmin r1 ≡ some (id, s, r2)
      → (res : PopResult) × ((pop redis codec q no_faults r1).1 ≡ popped res)
        × (res.id ≡ id)
        × (res.payload ≡ some payload)
        × SameHeaders res.headers headers
        × (res.priority ≡ normal_or priority)
pop-push {R = R} redis codec utf8 cfg q law pops trims good accepted trim_failed arrival priority id
      payload headers r early named filled texts s r2 e =
    let score = priority_score priority arrival in
    let apart = keys_apart cfg q id id accepted in
    let stored = pipeline redis codec q 3 score id payload headers r in
    let r1 =
      (push_with_headers redis codec q none trim_failed arrival priority id payload headers r).0 in
    let pushed =
      push-pipeline redis codec q trim_failed arrival priority id payload headers r named filled in
    let gets = λ (k : Bytes).
      ap (λ (x : R). redis.get x k) pushed ∙ get-trim redis codec q trims trim_failed stored k in
    let (scored, least, rest, same) = pops.popped r1 id s r2 e in
    let entry =
      same (q.entry_key ++ id)
      ∙ gets (q.entry_key ++ id)
      ∙ entry-after redis law codec utf8 good q id payload headers texts apart score r in
    let raw = same (q.header_key ++ id) ∙ gets (q.header_key ++ id) in
    let header =
      subst₂ (λ (p raw : Option Bytes). SameHeaders (headers_of codec p raw) headers) (sym entry)
        (sym raw)
        (headers_of-after redis law codec utf8 good q id payload headers texts apart score r) in
    let at_score =
      score-trim redis codec q trims trim_failed stored id s
        (ap (λ (x : R). redis.score x id) (sym pushed) ∙ scored) in
    let same_score : s ≡ score = ground (
      arith,
      at_score,
      score-after redis law codec utf8 good q id payload headers texts apart score r,
    ) in
    (
      record {
        id = id;
        score = s;
        priority = priority_from_score s;
        payload = redis.get r2 (q.entry_key ++ id);
        headers =
            headers_of codec (redis.get r2 (q.entry_key ++ id)) (redis.get r2 (q.header_key ++ id));
      },
      pop-popped redis codec q r1 r2 id s e,
      refl,
      entry,
      header,
      ap priority_from_score same_score
          ∙ (priority_from_score-priority_score priority arrival early).0,
    )
