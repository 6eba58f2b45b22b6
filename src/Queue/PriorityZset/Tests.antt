-- ===== src/Queue/PriorityZset/Tests.antt =====
-- Runs of the queue over association lists (pkg/queue/priority_zset.go).
use issue_tracker.Prelude.{
  ltb, ◌&&◌, Bool, if◌then◌else◌, ℕ, ◌≤◌, ◌<◌, ◌≡◌, ◌⊎◌, inl, refl, ap, ◌∙◌, true, false, Option,
  none, some, List, [], ◌∷◌, ◌++◌, arith, Bytes, has_prefix, lookup, insert, erase,
}
use issue_tracker.Prelude.Texts.{bytes_eq}
use issue_tracker.Redis.{done, unanswered}
use issue_tracker.Redis.Memory.{Store, memory, memory-IsRedis, memory-PopsMin, memory-TrimsMax}
use issue_tracker.Redis.Extreme.{extreme, trim as trim_members}
use issue_tracker.Redis.Framing.{join, frame, split, flat, pairs, split-join, pairs-flat}
use issue_tracker.Queue.PriorityZset.{
  Headers, Config, Queue, new_priority_zset_queue, header_prefix_of, Envelope, Codec, has_headers,
  is_empty, put_header, pipeline, trim, push_with_headers, PopResult, Faults, restored, popped, pop,
  pop_by, popped_off, pop_member, put_back, restore_on_pop_failure, priority_score, normal_or,
}
use issue_tracker.Queue.PriorityZset.RoundTrip.{IsText, IsCodec, SameHeaders, no_faults, pop-push}
use issue_tracker.Queue.PriorityZset.Order.{pop_first, trim_drops_newest}
use issue_tracker.Queue.PriorityZset.Safety.{pipeline_shows_whole, Keeps, pop-Keeps}

abbrev cfg : Config
cfg = record {
  zset_key = 122 ∷ [];
  entry_key_prefix = 101 ∷ 58 ∷ [];
  max_size = 2;
  header_key_prefix = [];
}

abbrev queue : Queue
queue = record {
  entry_key = 101 ∷ 58 ∷ [];
  header_key = 104 ∷ 100 ∷ 114 ∷ 58 ∷ 101 ∷ 58 ∷ [];
  max_size = 2;
}

queue-accepted : new_priority_zset_queue cfg ≡ some queue
unfolding new_priority_zset_queue header_prefix_of is_empty has_prefix
queue-accepted = refl

-- Texts of ASCII stand for those of UTF-8.
ascii : Bytes → Bool
ascii [] = true
ascii (b ∷ bs) = ltb b 128 && ascii bs

-- A text that is none is replaced, as JSON replaces the bytes.
clean : Bytes → Bytes
clean text = if ascii text then text else 63 ∷ []

clean_headers : Headers → Headers
clean_headers [] = []
clean_headers ((key, value) ∷ headers) = (clean key, clean value) ∷ clean_headers headers

clean_headers-text : (headers : Headers) → IsText ascii headers → clean_headers headers ≡ headers
unfolding clean_headers clean
clean_headers-text [] h = refl
clean_headers-text ((key, value) ∷ headers) (k, v, more) =
    rw (k, v, clean_headers-text headers more, if◌then◌else◌) refl

-- The digest is a byte for each of the payload and one more, and an envelope its texts one behind the other.
digits : Bytes → Bytes
digits [] = 35 ∷ []
digits (b ∷ bs) = 35 ∷ digits bs

digits-filled : (payload : Bytes) → is_empty (digits payload) ≡ false
unfolding digits is_empty
digits-filled [] = refl
digits-filled (b ∷ bs) = refl

digits-text : (payload : Bytes) → ascii (digits payload) ≡ true
unfolding ascii digits
digits-text [] = refl
digits-text (b ∷ bs) = digits-text bs

envelope_of : List Bytes → Option Envelope
envelope_of [] = none
envelope_of (sha ∷ rest) = some (record { payload_sha = sha; headers = pairs rest })

abbrev codec : Codec
codec = record {
  digest = digits;
  marshal = λ e. some (join (clean e.payload_sha ∷ flat (clean_headers e.headers)));
  unmarshal = λ raw. envelope_of (split raw);
}

join-filled : (t : Bytes) (ts : List Bytes) → is_empty (join (t ∷ ts)) ≡ false
unfolding join frame is_empty
join-filled [] ts = refl
join-filled (b ∷ t) ts = refl

envelope_of-join :
    (sha : Bytes) (headers : Headers)
    → envelope_of (split (join (sha ∷ flat headers)))
      ≡ some (record { payload_sha = sha; headers = headers })
unfolding envelope_of
envelope_of-join sha headers =
    ap envelope_of (split-join (sha ∷ flat headers))
    ∙ ap (λ (h : Headers). some (record { payload_sha = sha; headers = h })) (pairs-flat headers)

codec-IsCodec : IsCodec ascii codec
unfolding is_empty digits clean
codec-IsCodec = record {
  written = λ e sha texts. (
    join (clean e.payload_sha ∷ flat (clean_headers e.headers)),
    record { payload_sha = clean e.payload_sha; headers = clean_headers e.headers },
    refl,
    envelope_of-join (clean e.payload_sha) (clean_headers e.headers),
    join-filled (clean e.payload_sha) (flat (clean_headers e.headers)),
    rw (sha, if◌then◌else◌) refl,
    λ key. ap (lookup key) (clean_headers-text e.headers texts),
  );
  digested = digits-filled;
  digest_text = digits-text;
}

abbrev blank : Store Bytes Bytes
blank = record { strings = []; members = [] }

-- A payload with one header, pushed at time 7 with a priority out of range.
abbrev one : Store Bytes Bytes
one =
    (push_with_headers memory codec queue none false 7 9 (1 ∷ []) (2 ∷ 3 ∷ [])
      ((4 ∷ [], 5 ∷ []) ∷ []) blank).0

abbrev left : Store Bytes Bytes
left = record one { members = [] }

pop-push_example :
    (res : PopResult) × ((pop memory codec queue no_faults one).1 ≡ popped res)
    × (res.id ≡ 1 ∷ [])
    × (res.payload ≡ some (2 ∷ 3 ∷ []))
    × SameHeaders res.headers ((4 ∷ [], 5 ∷ []) ∷ [])
    × (res.priority ≡ 2)
unfolding has_headers normal_or push_with_headers is_empty pipeline put_header trim memory extreme
    trim_members lookup insert erase join frame flat priority_score clean_headers clean digits ascii
pop-push_example =
    pop-push memory codec ascii cfg queue memory-IsRedis memory-PopsMin memory-TrimsMax
      codec-IsCodec queue-accepted false 7 9 (1 ∷ []) (2 ∷ 3 ∷ []) ((4 ∷ [], 5 ∷ []) ∷ []) blank
      (omega arith) refl refl (refl, refl, tt) 20000000000007 left refl

-- Three entries in a queue for two: the newest of the lowest priority is number 3.
abbrev full : Store Bytes Bytes
full = record {
  strings = [];
  members = (1 ∷ [], 10000000000050) ∷ (2 ∷ [], 20000000000010) ∷ (3 ∷ [], 20000000000030) ∷ [];
}

pop_first_example : (1 < 2) ⊎ ((◌≡◌ {A = ℕ} 1 2) × (50 ≤ 10))
unfolding priority_score normal_or memory extreme lookup erase
pop_first_example =
    pop_first memory full
      (record full { members = (2 ∷ [], 20000000000010) ∷ (3 ∷ [], 20000000000030) ∷ [] }) (1 ∷ [])
      (2 ∷ []) 1 50 2 10 10000000000050 memory-PopsMin (refl, omega arith) (refl, omega arith) refl

trim_drops_newest_example : (2 < 2) ⊎ ((◌≡◌ {A = ℕ} 2 2) × (10 ≤ 30))
unfolding priority_score normal_or memory extreme lookup erase trim trim_members
trim_drops_newest_example =
    trim_drops_newest memory codec queue full (3 ∷ []) (2 ∷ []) 2 30 2 10 memory-TrimsMax
      (refl, omega arith) (refl, omega arith) refl (λ e. ground arith)

pipeline_shows_whole_example :
    ((m : Bytes)
      → memory.score (pipeline memory codec queue 2 5 (1 ∷ []) (2 ∷ []) [] blank) m
        ≡ memory.score blank m)
    ⊎ (memory.get
          (pipeline memory codec queue 2 5 (1 ∷ []) (2 ∷ []) [] blank)
          (queue.entry_key ++ 1 ∷ [])
        ≡ some (2 ∷ []))
pipeline_shows_whole_example =
    pipeline_shows_whole memory codec cfg queue 2 5 (1 ∷ []) (2 ∷ []) [] blank memory-IsRedis
      queue-accepted

-- The answer of the pop is lost: the member is gone.
abbrev unanswered_pop : Faults
unanswered_pop = record {
  pop = unanswered;
  entry = false;
  header = false;
  restore = done;
  cleanup = false;
}

unanswered_pop_run : memory.score (pop memory codec queue unanswered_pop full).0 (1 ∷ []) ≡ none
unfolding pop pop_by popped_off memory extreme lookup erase
unanswered_pop_run = refl

abbrev unreadable : Faults
unreadable = record { pop = done; entry = true; header = false; restore = done; cleanup = false }

restored-unreadable : (pop memory codec queue unreadable full).1 ≡ restored
unfolding pop pop_by pop_member restore_on_pop_failure put_back memory extreme lookup
restored-unreadable = refl

pop-Keeps_example :
    Keeps memory codec queue unreadable full (1 ∷ []) (pop memory codec queue unreadable full)
pop-Keeps_example =
    pop-Keeps memory codec queue unreadable full memory-IsRedis memory-PopsMin
      (inl restored-unreadable) (1 ∷ [])
