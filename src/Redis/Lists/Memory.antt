-- ===== src/Redis/Lists/Memory.antt =====
-- Lists in an association list: an implementation that meets the interface's laws.
use mathlib.Core.List.{append-nil, append_assoc}
use issue_tracker.Prelude.{
  ℕ, zero, suc, ◌≤◌, ◌≡◌, ◌⊎◌, inl, inr, refl, sym, ap, ◌∙◌, Option, none, some, String, List, [],
  ◌∷◌, ◌++◌, if◌then◌else◌, ◌==◌, ==_iff, ==_refl, arith, AssocList, lookup, insert, lookup-insert,
  length, onto, onto-append, Bool-cases,
}
use issue_tracker.Prelude.Keys.{string_eq}
use issue_tracker.Redis.Lists.{Lists, IsLists}

or_empty : Option (List String) → List String
or_empty none = []
or_empty (some l) = l

-- The last element and those before it.
unfoldable pub pop_last : String → List String → List String × String
pop_last x [] = ([], x)
pop_last x (y ∷ ys) = let (rest, end) = pop_last y ys in (x ∷ rest, end)

unfoldable pub pop_some : ℕ → List String → List String × List String
pop_some zero l = (l, [])
pop_some (suc n) [] = ([], [])
pop_some (suc n) (x ∷ l) =
    let (rest, end) = pop_last x l in let (left, more) = pop_some n rest in (left, end ∷ more)

take_first : ℕ → List String → List String
take_first zero l = []
take_first (suc n) [] = []
take_first (suc n) (x ∷ l) = x ∷ take_first n l

unfoldable pub items_of : AssocList String (List String) → String → List String
unfolding or_empty
items_of r k = or_empty (lookup k r)

unfoldable pub lists : Lists (AssocList String (List String))
unfolding take_first
lists = record {
  items = items_of;
  lpush = λ k vs r. insert k (onto vs (items_of r k)) r;
  ltrim = λ k n r. insert k (take_first n (items_of r k)) r;
  rpop = λ k n r. let (left, popped) = pop_some n (items_of r k) in (insert k left r, popped);
}

items_of-insert :
    (k j : String) (l : List String) (r : AssocList String (List String))
    → items_of (insert k l r) j ≡ (if k == j then l else items_of r j)
unfolding items_of or_empty
items_of-insert k j l r = elim (Bool-cases (k == j)) [
  | inl e ↦ rw (lookup-insert k j l r, e, if◌then◌else◌) refl
  | inr e ↦ rw (lookup-insert k j l r, e, if◌then◌else◌) refl
]

pop_last-append : (x : String) (l : List String) → x ∷ l ≡ (pop_last x l).0 ++ (pop_last x l).1 ∷ []
unfolding pop_last
pop_last-append x [] = refl
pop_last-append x (y ∷ ys) = ap (λ (l : List String). x ∷ l) (pop_last-append y ys)

pop_some-append : (n : ℕ) (l : List String) → l ≡ (pop_some n l).0 ++ onto (pop_some n l).1 []
unfolding pop_some
pop_some-append zero l = sym (append-nil l)
pop_some-append (suc n) [] = refl
pop_some-append (suc n) (x ∷ l) =
    let rest = (pop_last x l).0 in
    let end = (pop_last x l).1 in
    pop_last-append x l
    ∙ ap (λ (m : List String). m ++ end ∷ []) (pop_some-append n rest)
    ∙ append_assoc (pop_some n rest).0 (onto (pop_some n rest).1 []) (end ∷ [])
    ∙ ap (λ (m : List String). (pop_some n rest).0 ++ m)
        (sym (onto-append (pop_some n rest).1 [] (end ∷ [])))

pop_some-length : (n : ℕ) (l : List String) → length (pop_some n l).1 ≤ n
unfolding pop_some
pop_some-length zero l = omega arith
pop_some-length (suc n) [] = omega arith
pop_some-length (suc n) (x ∷ l) = omega (arith, pop_some-length n (pop_last x l).0)

pop_some-full : (n : ℕ) (l : List String) → (n ≤ length (pop_some n l).1) ⊎ ((pop_some n l).0 ≡ [])
unfolding pop_some
pop_some-full zero l = inl (omega arith)
pop_some-full (suc n) [] = inr refl
pop_some-full (suc n) (x ∷ l) = elim (pop_some-full n (pop_last x l).0) [
  | inl h ↦ inl (omega (arith, h))
  | inr e ↦ inr e
]

lpush-items :
    (k : String) (vs : List String) (r : AssocList String (List String)) (j : String)
    → items_of (insert k (onto vs (items_of r k)) r) j
      ≡ (if k == j then onto vs (items_of r j) else items_of r j)
lpush-items k vs r j = elim (Bool-cases (k == j)) [
  | inl e ↦
      rw (items_of-insert k j (onto vs (items_of r k)) r, e, if◌then◌else◌)
        (ap (λ (x : String). onto vs (items_of r x)) ((==_iff k j).0 e))
  | inr e ↦ rw (items_of-insert k j (onto vs (items_of r k)) r, e, if◌then◌else◌) refl
]

pub lists-IsLists : IsLists lists
unfolding lists
lists-IsLists = record {
  items_lpush = λ k vs r j. lpush-items k vs r j;
  popped = λ k n r.
      pop_some-append n (items_of r k)
      ∙ ap (λ (l : List String). l ++ onto (pop_some n (items_of r k)).1 [])
          (sym (ground (arith, items_of-insert k k (pop_some n (items_of r k)).0 r, ==_refl k)));
  at_most = λ k n r. pop_some-length n (items_of r k);
  all_or_full = λ k n r. elim (pop_some-full n (items_of r k)) [
    | inl h ↦ inl h
    | inr e ↦
        inr (ground (arith, e, items_of-insert k k (pop_some n (items_of r k)).0 r, ==_refl k))
  ];
}
