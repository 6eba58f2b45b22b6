-- ===== src/Llm/Chain/Select.antt =====
-- What the policies select, and what that means for a call (pkg/llm/policy, pkg/llm/chain/policy.go).
use mathlib.Core.List.Perm
use mathlib.Core.List.{Perm}
use issue_tracker.Prelude.{
  ℕ, ◌≡◌, ◌⊎◌, inl, inr, refl, sym, subst, Bool, true, false, Option, none, some, String, List, [],
  ◌∷◌, ◌++◌, if◌then◌else◌, arith, All, Bool-cases,
}
use issue_tracker.Prelude.Keys.{nat_eq, string_eq}
use issue_tracker.Llm.Errors.{Error}
use issue_tracker.Llm.Chain.{
  Provider, ordered, delegate, unless_over, with_policy, policy_generate, Capabilities,
  capability_for, cheaper, place, stable_sort, cheapest_first,
}
use issue_tracker.Llm.Chain.Walk.{Delegates, Course, generate-Course}

module _ (less : Provider → Provider → Bool) where
  -- No provider stands before one that is less.
  abbrev pub IsSorted : List Provider → Type 0
  IsSorted [] = Unit
  IsSorted (x ∷ xs) = All (λ (y : Provider). less y x ≡ false) xs × IsSorted xs

  place-Perm : (x : Provider) (ys : List Provider) → Perm (place less x ys) (x ∷ ys)
  unfolding place
  place-Perm x [] = Perm.refl (x ∷ [])
  place-Perm x (y ∷ ys) = elim (Bool-cases (less y x)) [
    | inl e ↦ rw (e, if◌then◌else◌) (Perm.trans (Perm.cons y (place-Perm x ys)) (Perm.swap x y ys))
    | inr e ↦ rw (e, if◌then◌else◌) (Perm.refl (x ∷ y ∷ ys))
  ]

  pub stable_sort-Perm : (xs : List Provider) → Perm (stable_sort less xs) xs
  unfolding stable_sort
  stable_sort-Perm [] = Perm.refl []
  stable_sort-Perm (x ∷ xs) =
      Perm.trans (place-Perm x (stable_sort less xs)) (Perm.cons x (stable_sort-Perm xs))

  All-place :
      (P : Provider → Type 0) (x : Provider) (ys : List Provider)
      → P x
      → All P ys
      → All P (place less x ys)
  unfolding place
  All-place P x [] p h = (p, tt)
  All-place P x (y ∷ ys) p (q, h) = elim (Bool-cases (less y x)) [
    | inl e ↦ rw (e, if◌then◌else◌) (q, All-place P x ys p h)
    | inr e ↦ rw (e, if◌then◌else◌) (p, (q, h))
  ]

  place-behind :
      (x y : Provider) (ys : List Provider)
      → less y x ≡ true
      → place less x (y ∷ ys) ≡ y ∷ place less x ys
  unfolding place
  place-behind x y ys e = rw (e, if◌then◌else◌) refl

  place-here :
      (x y : Provider) (ys : List Provider) → less y x ≡ false → place less x (y ∷ ys) ≡ x ∷ y ∷ ys
  unfolding place
  place-here x y ys e = rw (e, if◌then◌else◌) refl

  All-unplace :
      (P : Provider → Type 0) (x : Provider) (ys : List Provider)
      → All P (place less x ys)
      → All P (x ∷ ys)
  unfolding place
  All-unplace P x [] h = h
  All-unplace P x (y ∷ ys) h = elim (Bool-cases (less y x)) [
    | inl e ↦
        let (q, more) = subst (All P) (place-behind x y ys e) h in
        let (p, others) = All-unplace P x ys more in (p, (q, others))
    | inr e ↦ subst (All P) (place-here x y ys e) h
  ]

  -- What holds of all that were sorted holds of all that there were.
  pub All-unsort :
      (P : Provider → Type 0) (xs : List Provider) → All P (stable_sort less xs) → All P xs
  unfolding stable_sort
  All-unsort P [] h = tt
  All-unsort P (x ∷ xs) h =
      let (p, others) = All-unplace P x (stable_sort less xs) h in (p, All-unsort P xs others)

  pub record IsOrder : Type 0 where
    pub one_way : (x y : Provider) → less x y ≡ true → less y x ≡ false
    pub onward : (x y z : Provider) → less y x ≡ false → less z y ≡ false → less z x ≡ false

  module _ (order : IsOrder) where
    All-onward :
        (x y : Provider) (zs : List Provider)
        → less y x ≡ false
        → All (λ (z : Provider). less z y ≡ false) zs
        → All (λ (z : Provider). less z x ≡ false) zs
    All-onward x y [] e h = tt
    All-onward x y (z ∷ zs) e (l, h) = (order.onward x y z e l, All-onward x y zs e h)

    place-IsSorted : (x : Provider) (ys : List Provider) → IsSorted ys → IsSorted (place less x ys)
    unfolding place
    place-IsSorted x [] h = (tt, tt)
    place-IsSorted x (y ∷ ys) (low, h) = elim (Bool-cases (less y x)) [
      | inl e ↦
          rw (e, if◌then◌else◌)
            (
              All-place (λ (z : Provider). less z y ≡ false) x ys (order.one_way y x e) low,
              place-IsSorted x ys h,
            )
      | inr e ↦ rw (e, if◌then◌else◌) ((e, All-onward x y ys e low), (low, h))
    ]

    pub stable_sort-IsSorted : (xs : List Provider) → IsSorted (stable_sort less xs)
    unfolding stable_sort
    stable_sort-IsSorted [] = tt
    stable_sort-IsSorted (x ∷ xs) = place-IsSorted x (stable_sort less xs) (stable_sort-IsSorted xs)

  -- Behind a provider of a sorted list none is less.
  sorted-behind :
      (before : List Provider) (h : Provider) (after : List Provider)
      → IsSorted (before ++ h ∷ after)
      → All (λ (y : Provider). less y h ≡ false) after
  sorted-behind [] h after (low, s) = low
  sorted-behind (b ∷ before) h after (low, s) = sorted-behind before h after s

-- The price comparison of a policy.
abbrev pub less_of : Option (String → Option Capabilities) → Provider → Provider → Bool
less_of caps a b = cheaper (capability_for caps a) (capability_for caps b)

less_of-IsOrder : (caps : Option (String → Option Capabilities)) → IsOrder (less_of caps)
unfolding cheaper
less_of-IsOrder caps = record {
  one_way = λ x y e. ground (arith, e);
  onward = λ x y z e f. ground (arith, e, f);
}

-- A provider is as cheap as another.
abbrev pub AsCheap : Option (String → Option Capabilities) → Provider → Provider → Type 0
AsCheap caps h c = less_of caps c h ≡ false

less_of_self :
    (caps : Option (String → Option Capabilities)) (h : Provider) → less_of caps h h ≡ false
unfolding cheaper
less_of_self caps h = ground arith

AsCheap-All :
    (caps : Option (String → Option Capabilities)) (h : Provider) (after : List Provider)
    → All (AsCheap caps h) after
    → All (λ (c : Provider). Delegates c ⊎ AsCheap caps h c) after
AsCheap-All caps h [] low = tt
AsCheap-All caps h (c ∷ after) (l, low) = (inr l, AsCheap-All caps h after low)

place-filled :
    (less : Provider → Provider → Bool) (x : Provider) (ys : List Provider)
    → (h : Provider) × (hs : List Provider) × (place less x ys ≡ h ∷ hs)
unfolding place
place-filled less x [] = (x, [], refl)
place-filled less x (y ∷ ys) = elim (Bool-cases (less y x)) [
  | inl e ↦ (y, place less x ys, place-behind less x y ys e)
  | inr e ↦ (x, y ∷ ys, place-here less x y ys e)
]

delegate-Course :
    (cancelled : ℕ → Option Error) (h : Provider) (hs all : List Provider)
    → h ∷ hs ≡ all
    → cancelled 0 ≡ none
    → Course cancelled 0 all (delegate cancelled (ordered all))
unfolding delegate
delegate-Course cancelled h hs all e calm =
    subst (λ (l : List Provider). Course cancelled 0 l (delegate cancelled (ordered l))) e
      (generate-Course cancelled h hs calm)

cheapest-order :
    (caps : Option (String → Option Capabilities)) (before : List Provider) (h : Provider)
    (after : List Provider)
    → All Delegates before
    → IsSorted (less_of caps) (before ++ h ∷ after)
    → All (λ (c : Provider). Delegates c ⊎ AsCheap caps h c) (before ++ h ∷ after)
cheapest-order caps [] h after d (low, s) =
    (inr (less_of_self caps h), AsCheap-All caps h after low)
cheapest-order caps (b ∷ before) h after (here, d) (low, s) =
    (inl here, cheapest-order caps before h after d s)

-- A call under the policy of the cheapest first. Where candidates are given and the context is not over
-- before, the providers are tried in an order that holds every candidate once, by the price of the input and
-- then of the output; and no candidate is cheaper than the one at which the call ends, but those that
-- refused with an error that goes on.
pub policy_generate-cheapest :
    (cancelled : ℕ → Option Error) (caps : Option (String → Option Capabilities)) (c : Provider)
    (candidates : List Provider)
    → cancelled 0 ≡ none
    → let all = stable_sort (less_of caps) (c ∷ candidates) in
      Perm all (c ∷ candidates)
      × IsSorted (less_of caps) all
      × ((course : Course cancelled 0 all
            (policy_generate none cancelled (some (cheapest_first caps)) (c ∷ candidates)))
          × All (λ (x : Provider). Delegates x ⊎ AsCheap caps course.last x) (c ∷ candidates))
unfolding policy_generate cheapest_first with_policy unless_over stable_sort
policy_generate-cheapest cancelled caps c candidates calm =
    let less = less_of caps in
    let all = stable_sort less (c ∷ candidates) in
    let sorted = stable_sort-IsSorted less (less_of-IsOrder caps) (c ∷ candidates) in
    let (h, hs, e) = place-filled less c (stable_sort less candidates) in
    let course = delegate-Course cancelled h hs all (sym e) calm in
    (
      stable_sort-Perm less (c ∷ candidates),
      sorted,
      (
        course,
        All-unsort less (λ (x : Provider). Delegates x ⊎ AsCheap caps course.last x)
            (c ∷ candidates)
            (subst (All (λ (x : Provider). Delegates x ⊎ AsCheap caps course.last x))
              (sym course.order)
              (cheapest-order caps course.before course.last course.after course.delegated
                (subst (IsSorted less) course.order sorted))),
      ),
    )
