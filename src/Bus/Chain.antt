-- ===== src/Bus/Chain.antt =====
-- internal/bus/chain.go: the URLs that were found on a page become crawl jobs. `M` is the state of the
-- markers in Redis; the normalizer, the gate, the guard, the resolver and the producer are what the
-- publisher is given. Log lines are left out.

mod Laws
mod GuardMarkers
mod GuardFilter
mod Guarded
mod Tests
use issue_tracker.Prelude.{
  ℕ, zero, suc, ◌+◌, Bool, true, false, Option, none, some, String, List, [], ◌∷◌, if◌then◌else◌,
  ◌==◌,
}
use issue_tracker.Prelude.Keys.{string_eq}
use issue_tracker.Bus.SeenCache.{SeenCache, has, add}
use issue_tracker.Bus.Messages.{
  TargetType, sitemap, article, category, search_results, CrawlJob, Message, build_message,
}

abbrev pub default_max_retries : ℕ
default_max_retries = 3

-- `acquireFunc`: whether the marker of a URL was acquired, `none` for an error.
abbrev pub AcquireFunc : Type 0 → Type 0
AcquireFunc M = M → String → M × Option Bool

pub record Publisher (M : Type 0) : Type 0 where
  pub normalizer : Option (String → Option String)
  pub gate : Option (String → Bool)
  pub guard : Option (TargetType → AcquireFunc M)
  pub lock : Option (AcquireFunc M)
  pub resolver : Option (CrawlJob → ℕ)
  pub marshal : CrawlJob → Option String
  pub producer : List Message → Bool

-- What a publishing meets: whether the context is cancelled before the URL with a number, the readings
-- of the clock at it, the ids of the jobs, and the time of their making.
pub record Turn : Type 0 where
  pub cancelled : ℕ → Bool
  pub asked_at : ℕ → ℕ
  pub added_at : ℕ → ℕ
  pub new_job_id : ℕ → String
  pub now : ℕ

-- The markers, and the cache of the publisher.
abbrev pub State : Type 0 → Type 0
State M = M × Option SeenCache

unfoldable pub is_category : TargetType → Bool
is_category category = true
is_category sitemap = false
is_category article = false
is_category search_results = false

module _ {M : Type 0} where
  -- What the marker says of a URL that the cache does not know.
  unfoldable pub marked : Option SeenCache → M × Option Bool → String → ℕ → State M × Bool
  marked cache (m, none) url t = ((m, cache), true)
  marked cache (m, some true) url t = ((m, cache), true)
  marked cache (m, some false) url t = ((m, add cache url t), false)

  -- One URL: is it kept?
  unfoldable pub attempt : AcquireFunc M → Turn → ℕ → State M → String → State M × Bool
  attempt op turn i (m, cache) url =
      let (cache', seen) = has cache url (turn.asked_at i) in
      if seen then ((m, cache'), false) else marked cache' (op m url) url (turn.added_at i)

  unfoldable pub filter_by_acquire :
      AcquireFunc M → Turn → ℕ → State M → List String → State M × List String
  filter_by_acquire op turn i s [] = (s, [])
  filter_by_acquire op turn i s (url ∷ urls) =
      let (s', keep) = attempt op turn i s url in
      let (last, rest) = filter_by_acquire op turn (i + 1) s' urls in
      if turn.cancelled i then (s, url ∷ urls) else (last, if keep then url ∷ rest else rest)

  -- A category is not cached.
  unfoldable pub acquire_via_guard :
      (TargetType → AcquireFunc M)
      → Turn
      → State M
      → TargetType
      → List String
      → State M × List String
  acquire_via_guard guard turn (m, cache) type urls =
      let uncached = is_category type in
      let (after, out) =
        filter_by_acquire (guard type) turn 0 (m, if uncached then none else cache) urls in
      ((after.0, if uncached then cache else after.1), out)

  unfoldable pub acquire_ingestion :
      AcquireFunc M → Turn → State M → List String → State M × List String
  acquire_ingestion lock turn s urls = filter_by_acquire lock turn 0 s urls

unfoldable pub normalized_url : Option String → String → Option String
normalized_url none url = some url
normalized_url (some n) url = if n == "" then none else some n

unfoldable pub keep : Option String → List String → List String
keep none urls = urls
keep (some url) urls = url ∷ urls

-- A URL that cannot be normalized passes as it is; an empty one is dropped.
unfoldable pub normalize_urls : (String → Option String) → List String → List String
normalize_urls n [] = []
normalize_urls n (url ∷ urls) = keep (normalized_url (n url) url) (normalize_urls n urls)

-- `Gate.Filter`.
unfoldable pub gate_filter : (String → Bool) → List String → List String
gate_filter allow [] = []
gate_filter allow (url ∷ urls) =
    let rest = gate_filter allow urls in if allow url then url ∷ rest else rest

unfoldable pub normalized : Option (String → Option String) → List String → List String
normalized none urls = urls
normalized (some n) urls = normalize_urls n urls

unfoldable pub gated : Option (String → Bool) → List String → List String
gated none urls = urls
gated (some allow) urls = gate_filter allow urls

-- The guard comes first, and the ingestion marker in its place.
unfoldable pub acquired :
    {M : Type 0} → Publisher M → Turn → State M → TargetType → List String → State M × List String
acquired p turn s type urls = elim p.guard [
  | some g ↦ acquire_via_guard g turn s type urls
  | none ↦ elim p.lock [
    | none ↦ (s, urls)
    | some l ↦ if is_category type then (s, urls) else acquire_ingestion l turn s urls
  ]
]

unfoldable pub cons_message : Option Message → Option (List Message) → Option (List Message)
cons_message none msgs = none
cons_message (some msg) none = none
cons_message (some msg) (some msgs) = some (msg ∷ msgs)

abbrev pub job_of : Turn → ℕ → String → String → TargetType → ℕ → CrawlJob
job_of turn i crawler_name url type timeout = record {
  id = turn.new_job_id i;
  crawler_name = crawler_name;
  url = url;
  target_type = type;
  priority = 0;
  scheduled_at = turn.now;
  timeout = timeout;
  retry_count = 0;
  max_retries = default_max_retries;
}

unfoldable pub build_job_messages :
    {M : Type 0}
    → Publisher M
    → Turn
    → ℕ
    → String
    → List String
    → TargetType
    → ℕ
    → Option (List Message)
build_job_messages p turn i crawler_name [] type timeout = some []
build_job_messages p turn i crawler_name (url ∷ urls) type timeout =
    cons_message (build_message p.resolver p.marshal (job_of turn i crawler_name url type timeout))
      (build_job_messages p turn (i + 1) crawler_name urls type timeout)

-- `nothing_left` is a return before the batch, without an error.
pub data Outcome : Type 0 where
  nothing_left build_failed : Outcome
  published unpublished : List Message → Outcome

unfoldable pub send : (List Message → Bool) → Option (List Message) → Outcome
send producer none = build_failed
send producer (some msgs) = if producer msgs then published msgs else unpublished msgs

unfoldable pub is_empty : List String → Bool
is_empty [] = true
is_empty (url ∷ urls) = false

-- With no URL left at any stage the publishing ends there.
unfoldable pub publish_chained :
    {M : Type 0}
    → Publisher M
    → Turn
    → State M
    → String
    → List String
    → TargetType
    → ℕ
    → State M × Outcome
publish_chained p turn s crawler_name urls type timeout =
    let passed = gated p.gate (normalized p.normalizer urls) in
    let (s', left) = acquired p turn s type passed in
    if is_empty passed
    then (s, nothing_left)
    else if is_empty left
    then (s', nothing_left)
    else (s', send p.producer (build_job_messages p turn 0 crawler_name left type timeout))
