-- ===== src/Precheck/Laws.antt =====
-- The precheck chain (internal/processor/precheck/precheck.go) and its blacklist (blacklist.go).
use issue_tracker.Prelude.{
  ◌∙◌, sym, ◌≡◌, ◌↔◌, refl, ap, ap₂, true, false, Option, none, some, String, List, [], ◌∷◌, ◌++◌,
  map, All, arith, Option-cases, inl, inr, ◌==◌, if◌then◌else◌,
}
use issue_tracker.Prelude.Keys.{string_eq}
use issue_tracker.Precheck.{
  Verdict, allow, drop, extract_links_only, is_allow, Decision, Source, new, labelled,
  allow_decision, check_url, check_urls, check_batched, check_each, BlacklistMode, no_mode,
  mode_drop, mode_extract_links_only, new_blacklist_source, blacklist_check, blacklist_check_batch,
  blacklist_decision, mode_to_decision,
}

-- The sources before the first one that refuses have no say: a chain decides as its tail does, with
-- the first refusing source's verdict and reason, and with its name where the refusal has none.
check_url_first :
    (before : List Source) (s : Source) (after : List Source) (url : String)
    → All (λ (t : Source). is_allow (t.check url).verdict ≡ true) before
    → is_allow (s.check url).verdict ≡ false
    → let d = check_url (before ++ s ∷ after) url in
      (d.verdict ≡ (s.check url).verdict)
      × (d.reason ≡ (s.check url).reason)
      × (d.source ≡ (if (s.check url).source == "" then s.name else (s.check url).source))
unfolding check_url
check_url_first [] s after url h r = ground arith
check_url_first (t ∷ ts) s after url h r = ground (arith, check_url_first ts s after url)

-- A URL is allowed exactly if every source allows it.
check_url_allows_iff :
    (ss : List Source) (url : String)
    → (is_allow (check_url ss url).verdict ≡ true)
      ↔ All (λ (s : Source). is_allow (s.check url).verdict ≡ true) ss
unfolding check_url
check_url_allows_iff [] url = ((λ h. tt), (λ h. refl))
check_url_allows_iff (s ∷ ss) url = ground (arith, check_url_allows_iff ss url)

-- A source whose batch answers are its single answers.
abbrev pub BatchAgrees : Source → Type 0
BatchAgrees s =
    (batch : List String → List Decision)
    → s.check_batch ≡ some batch
    → (urls : List String) → batch urls ≡ map s.check urls

-- What a caller of an allowed URL may rely on: the verdict, and neither reason nor source.
pub forget_allowed : Decision → Decision
forget_allowed d = if is_allow d.verdict then allow_decision else d

forget-labelled :
    (s : Source) (url : String) → forget_allowed (labelled s (s.check url)) ≡ check_url (s ∷ []) url
unfolding labelled check_url forget_allowed
forget-labelled s url = ground arith

forget-check_url :
    (ss : List Source) (url : String) → forget_allowed (check_url ss url) ≡ check_url ss url
unfolding check_url forget_allowed
forget-check_url [] url = refl
forget-check_url (s ∷ ss) url = ground (arith, forget-check_url ss url)

map-forget-labelled :
    (s : Source) (urls : List String)
    → map forget_allowed (map (labelled s) (map s.check urls)) ≡ map (check_url (s ∷ [])) urls
map-forget-labelled s [] = refl
map-forget-labelled s (u ∷ us) = ap₂ ◌∷◌ (forget-labelled s u) (map-forget-labelled s us)

map-forget-check_url :
    (ss : List Source) (urls : List String)
    → map forget_allowed (map (check_url ss) urls) ≡ map (check_url ss) urls
map-forget-check_url ss [] = refl
map-forget-check_url ss (u ∷ us) = ap₂ ◌∷◌ (forget-check_url ss u) (map-forget-check_url ss us)

check_batched-eq :
    (ss : List Source) (urls : List String)
    → All BatchAgrees ss
    → map forget_allowed (check_batched ss urls) ≡ map (check_url ss) urls
unfolding check_batched check_each
check_batched-eq [] urls h = map-forget-check_url [] urls
check_batched-eq (s ∷ []) urls h = elim (Option-cases s.check_batch) [
  | inl e ↦ ground (arith, map-forget-check_url (s ∷ []) urls)
  | inr (batch, e) ↦ ground (arith, h.0 batch e urls, map-forget-labelled s urls)
]
check_batched-eq (s ∷ t ∷ ss) urls h = map-forget-check_url (s ∷ t ∷ ss) urls

-- Where batch answers agree with single ones, checking URLs together decides each as checking it
-- alone, in order, but for the reason and the source of an allowed URL.
pub check_urls-eq :
    (ss : List Source) (urls : List String)
    → All BatchAgrees ss
    → map forget_allowed (check_urls ss urls) ≡ map (check_url ss) urls
unfolding check_urls
check_urls-eq ss [] h = refl
check_urls-eq ss (u ∷ us) h = check_batched-eq ss (u ∷ us) h

check_batch-agrees :
    (matcher : String → Option BlacklistMode) (urls : List String)
    → blacklist_check_batch matcher urls ≡ map (blacklist_check matcher) urls
unfolding blacklist_check_batch
check_batch-agrees matcher [] = refl
check_batch-agrees matcher (u ∷ us) =
    ap (◌∷◌ (blacklist_check matcher u)) (check_batch-agrees matcher us)

unfoldable pub verdict_of : Option BlacklistMode → Verdict
verdict_of none = allow
verdict_of (some no_mode) = allow
verdict_of (some mode_drop) = drop
verdict_of (some mode_extract_links_only) = extract_links_only

blacklist : (String → Option BlacklistMode) → Source
blacklist matcher = record {
  name = "blacklist";
  check = blacklist_check matcher;
  check_batch = some (blacklist_check_batch matcher);
}

verdict-labelled :
    (matcher : String → Option BlacklistMode) (url : String)
    → (labelled (blacklist matcher) (blacklist_check matcher url)).verdict
      ≡ verdict_of (matcher url)
unfolding labelled blacklist blacklist_check blacklist_decision mode_to_decision verdict_of
verdict-labelled matcher url = ground arith

verdicts-batch :
    (matcher : String → Option BlacklistMode) (urls : List String)
    → map (λ d. d.verdict) (map (labelled (blacklist matcher)) (blacklist_check_batch matcher urls))
      ≡ map (λ url. verdict_of (matcher url)) urls
unfolding blacklist_check_batch
verdicts-batch matcher [] = refl
verdicts-batch matcher (u ∷ us) = ap₂ ◌∷◌ (verdict-labelled matcher u) (verdicts-batch matcher us)

-- With the blacklist alone, checked together or one by one: a URL in mode `drop` is dropped, one in
-- mode `extract_links_only` has its links taken, and one with no mode, or for which the matcher
-- failed, is allowed.
blacklist_verdicts :
    (matcher : String → Option BlacklistMode) (urls : List String)
    → map (λ d. d.verdict) (check_urls (new (new_blacklist_source (some matcher) ∷ [])) urls)
      ≡ map (λ url. verdict_of (matcher url)) urls
unfolding check_urls check_batched new new_blacklist_source blacklist
blacklist_verdicts matcher [] = refl
blacklist_verdicts matcher (u ∷ us) =
    ap₂ ◌∷◌ (verdict-labelled matcher u) (verdicts-batch matcher us)

-- The blacklist answers batches as it answers single URLs.
pub blacklist-BatchAgrees :
    (matcher : String → Option BlacklistMode)
    → BatchAgrees (record {
      name = "blacklist";
      check = blacklist_check matcher;
      check_batch = some (blacklist_check_batch matcher);
    })
blacklist-BatchAgrees matcher batch e urls =
    ap (answers urls) (sym e) ∙ check_batch-agrees matcher urls
  where
    answers : List String → Option (List String → List Decision) → List Decision
    answers urls none = []
    answers urls (some batch) = batch urls
