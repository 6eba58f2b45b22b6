-- ===== src/Fetcher/Worker/Trace.antt =====
-- The effects of handling a message (internal/processor/fetcher/worker/pool.go): which ones commit it
-- or hand it on, and what the loop over the fetched contents publishes.
use issue_tracker.Prelude.{
  ◌≡◌, ◌⊎◌, refl, sym, subst, Bool, true, false, ◌||◌, none, some, String, List, [], ◌∷◌, ◌++◌, All,
  arith, Option-cases, inl, inr, if◌then◌else◌,
}
use issue_tracker.Precheck.{Decision, drop}
use issue_tracker.Fetcher.Worker.Effects.{
  Job, Content, Effect, dead_lettered, requeued, normalized, committed, released,
}
use issue_tracker.Fetcher.Worker.{World, fetched, publish_normalized, forward_stored, publish_all}

unfoldable pub is_committed : Effect → Bool
is_committed (dead_lettered r) = false
is_committed (requeued j) = false
is_committed (normalized k i) = false
is_committed committed = true
is_committed released = false

unfoldable pub commits : List Effect → Bool
unfolding is_committed
commits [] = false
commits (e ∷ es) = let rest = commits es in if is_committed e then true else rest

unfoldable pub is_handed_on : Effect → Bool
is_handed_on (dead_lettered r) = true
is_handed_on (requeued j) = true
is_handed_on (normalized k i) = false
is_handed_on committed = false
is_handed_on released = false

unfoldable pub hands_on : List Effect → Bool
unfolding is_handed_on
hands_on [] = false
hands_on (e ∷ es) = let rest = hands_on es in if is_handed_on e then true else rest

abbrev pub Has : Effect → List Effect → Type 0
Has e [] = ⊥
Has e (x ∷ xs) = (e ≡ x) ⊎ Has e xs

-- Every content that was fetched has its message among the effects.
abbrev pub AllPublished : World → List Content → List Effect → Type 0
AllPublished w cs es = All (λ c. (e : Effect) × (publish_normalized w c ≡ some e) × Has e es) cs

abbrev pub Published : World → List Effect → Type 0
Published w es = (cs : List Content) × (w.handler ≡ fetched cs) × AllPublished w cs es

-- The URL guard refuses the URL, or a source of the precheck drops it.
abbrev pub Refused : World → Job → Type 0
Refused w j =
    ((allowed : String → Bool) × (w.url_gate ≡ some allowed) × (allowed j.url ≡ false))
    ⊎ ((check : String → Decision) × (w.precheck ≡ some check) × ((check j.url).verdict ≡ drop))

pub Has-append : (e : Effect) (xs ys : List Effect) → Has e xs → Has e (xs ++ ys)
Has-append e [] ys h = absurd h
Has-append e (x ∷ xs) ys (inl p) = inl p
Has-append e (x ∷ xs) ys (inr p) = inr (Has-append e xs ys p)

pub AllPublished-append :
    (w : World) (cs : List Content) (xs ys : List Effect)
    → AllPublished w cs xs
    → AllPublished w cs (xs ++ ys)
AllPublished-append w [] xs ys h = tt
AllPublished-append w (c ∷ cs) xs ys h =
    let (e, sent, has) = h.0 in
    ((e, sent, Has-append e xs ys has), AllPublished-append w cs xs ys h.1)

pub AllPublished-cons :
    (w : World) (cs : List Content) (x : Effect) (xs : List Effect)
    → AllPublished w cs xs
    → AllPublished w cs (x ∷ xs)
AllPublished-cons w [] x xs h = tt
AllPublished-cons w (c ∷ cs) x xs h =
    let (e, sent, has) = h.0 in ((e, sent, inr has), AllPublished-cons w cs x xs h.1)

pub publish_all-sent :
    (w : World) (c : Content) (cs : List Content) (e : Effect)
    → publish_normalized w c ≡ some e
    → publish_all w (c ∷ cs) ≡ (e ∷ (publish_all w cs).0, (publish_all w cs).1)
unfolding publish_all
publish_all-sent w c cs e h = rw (h, publish_all)

pub publish_all-stuck :
    (w : World) (c : Content) (cs : List Content)
    → publish_normalized w c ≡ none
    → publish_all w (c ∷ cs) ≡ ([], false)
unfolding publish_all
publish_all-stuck w c cs h = rw (h, publish_all)

pub publish_all-AllPublished :
    (w : World) (cs : List Content)
    → (publish_all w cs).1 ≡ true
    → AllPublished w cs (publish_all w cs).0
publish_all-AllPublished w [] h = tt
publish_all-AllPublished w (c ∷ cs) h = elim (Option-cases (publish_normalized w c)) [
  | inl p ↦ cc (publish_all-stuck w c cs p)
  | inr (e, p) ↦
      let sent = publish_all-sent w c cs e p in
      subst (λ (r : List Effect × Bool). AllPublished w (c ∷ cs) r.0) (sym sent)
        (
          (e, p, inl refl),
          AllPublished-cons w cs e (publish_all w cs).0
              (publish_all-AllPublished w cs (ground (arith, sent))),
        )
]

pub commits-append : (xs ys : List Effect) → commits (xs ++ ys) ≡ commits xs || commits ys
unfolding commits
commits-append [] ys = refl
commits-append (x ∷ xs) ys = ground (arith, commits-append xs ys)

pub hands_on-append : (xs ys : List Effect) → hands_on (xs ++ ys) ≡ hands_on xs || hands_on ys
unfolding hands_on
hands_on-append [] ys = refl
hands_on-append (x ∷ xs) ys = ground (arith, hands_on-append xs ys)

pub publish_normalized-keeps :
    (w : World) (c : Content) (e : Effect)
    → publish_normalized w c ≡ some e
    → is_committed e ≡ false
unfolding publish_normalized forward_stored is_committed
publish_normalized-keeps w c e h = ground arith

pub commits-publish_all : (w : World) (cs : List Content) → commits (publish_all w cs).0 ≡ false
unfolding publish_all commits
commits-publish_all w [] = refl
commits-publish_all w (c ∷ cs) = elim (Option-cases (publish_normalized w c)) [
  | inl p ↦ ground arith
  | inr (e, p) ↦ ground (arith, publish_normalized-keeps w c e p, commits-publish_all w cs)
]
