-- ===== src/Redis/Extreme.antt =====
-- The member of the first score in an association list, and the trimming of the last.
use issue_tracker.Prelude.{
  ℕ, zero, suc, ◌≤◌, ◌≡◌, ◌⊎◌, inl, inr, refl, subst, Bool-cases, ◌||◌, Bool, true, false, Option,
  none, some, [], ◌∷◌, length, ltb, leb, if◌then◌else◌, ◌==◌, ==_iff, arith, Comparable, AssocList,
  lookup, erase, lookup-erase, Option-cases,
}

abbrev pub later : ℕ → ℕ → Bool
later s t = ltb t s

-- A linear order of scores: `before` does not hold backwards.
pub record Orders (before : ℕ → ℕ → Bool) (Le : ℕ → ℕ → Type 0) : Type 0 where
  pub holds : (s t : ℕ) → before s t ≡ true → Le s t
  pub fails : (s t : ℕ) → before s t ≡ false → Le t s
  pub trans : (s t u : ℕ) → Le s t → Le t u → Le s u
  pub refl_le : (s : ℕ) → Le s s

pub least : Orders leb ◌≤◌
least = record {
  holds = λ s t h. ground arith;
  fails = λ s t h. ground arith;
  trans = λ s t u p q. omega arith;
  refl_le = λ s. omega arith;
}

pub greatest : Orders later (λ s t. t ≤ s)
greatest = record {
  holds = λ s t h. ground arith;
  fails = λ s t h. ground arith;
  trans = λ s t u p q. omega arith;
  refl_le = λ s. omega arith;
}

module _ {T : Type 0} ⦃c : Comparable T⦄ where
  better : (ℕ → ℕ → Bool) → T → Option ℕ → Option (T × ℕ) → Option (T × ℕ)
  better before k none best = best
  better before k (some s) none = some (k, s)
  better before k (some s) (some (j, t)) = if before s t then some (k, s) else some (j, t)

  -- The first member by an order of scores, among keys.
  unfoldable pub extreme : (ℕ → ℕ → Bool) → AssocList T ℕ → AssocList T ℕ → Option (T × ℕ)
  unfolding better
  extreme before m [] = none
  extreme before m ((k, s) ∷ rest) = better before k (lookup k m) (extreme before m rest)

  drop_of : AssocList T ℕ → Option (T × ℕ) → AssocList T ℕ
  drop_of m none = m
  drop_of m (some (k, s)) = erase k m

  unfoldable pub trim : ℕ → ℕ → AssocList T ℕ → AssocList T ℕ
  unfolding drop_of
  trim zero n m = m
  trim (suc rounds) n m =
      let rest = trim rounds n (drop_of m (extreme later m m)) in
      if leb (length m) n then m else rest

  -- The first of the listed members has its score.
  better-first :
      (before : ℕ → ℕ → Bool) (m : AssocList T ℕ) (k : T) (o : Option ℕ) (best : Option (T × ℕ))
      (j : T) (t : ℕ)
      → lookup k m ≡ o
      → ((i : T) (u : ℕ) → best ≡ some (i, u) → lookup i m ≡ some u)
      → better before k o best ≡ some (j, t)
      → lookup j m ≡ some t
  unfolding better
  better-first before m k none best j t p q e = q j t e
  better-first before m k (some s) none j t p q e = ground arith
  better-first before m k (some s) (some (i, u)) j t p q e = ground (arith, q i u refl)

  pub extreme-first :
      (before : ℕ → ℕ → Bool) (m l : AssocList T ℕ) (k : T) (s : ℕ)
      → extreme before m l ≡ some (k, s)
      → lookup k m ≡ some s
  unfolding extreme
  extreme-first before m [] k s e = ground arith
  extreme-first before m ((j, t) ∷ l) k s e =
      better-first before m j (lookup j m) (extreme before m l) k s refl
        (λ i u. extreme-first before m l i u) e

  unfoldable pub listed : T → AssocList T ℕ → Bool
  listed k [] = false
  listed k ((j, t) ∷ l) = (k == j) || listed k l

  pub lookup-listed : (m : AssocList T ℕ) (k : T) (s : ℕ) → lookup k m ≡ some s → listed k m ≡ true
  unfolding lookup listed
  lookup-listed [] k s e = ground arith
  lookup-listed ((j, t) ∷ m) k s e = ground (arith, lookup-listed m k s)

  module _ (before : ℕ → ℕ → Bool) (Le : ℕ → ℕ → Type 0) (order : Orders before Le)
      (m : AssocList T ℕ) where
    abbrev Least : AssocList T ℕ → Option (T × ℕ) → Type 0
    Least l none = (j : T) (t : ℕ) → listed j l ≡ true → lookup j m ≡ some t → ⊥
    Least l (some (k, s)) = (j : T) (t : ℕ) → listed j l ≡ true → lookup j m ≡ some t → Le s t

    better-Least :
        (k : T) (s : ℕ) (l : AssocList T ℕ) (o : Option ℕ) (best : Option (T × ℕ))
        → lookup k m ≡ o
        → Least l best
        → Least ((k, s) ∷ l) (better before k o best)
    unfolding better listed
    better-Least k s l none none p b = λ j t h e. ground (arith, b j t, ==_iff j k)
    better-Least k s l none (some (i, u)) p b = λ j t h e. ground (arith, b j t, ==_iff j k)
    better-Least k s l (some v) none p b =
        λ j t h e. ground (arith, b j t, ==_iff j k, order.refl_le v)
    better-Least k s l (some v) (some (i, u)) p b = elim (Bool-cases (before v u)) [
      | inl first ↦
          rw (first, if◌then◌else◌)
            (λ j t h e.
              ground (
                arith,
                b j t,
                ==_iff j k,
                order.holds v u first,
                order.trans v u t,
                order.refl_le v,
              ))
      | inr later ↦
          rw (later, if◌then◌else◌)
            (λ j t h e. ground (arith, b j t, ==_iff j k, order.fails v u later))
    ]

    extreme-Least : (l : AssocList T ℕ) → Least l (extreme before m l)
    unfolding extreme listed
    extreme-Least [] = λ j t h e. ground arith
    extreme-Least ((k, s) ∷ l) =
        better-Least k s l (lookup k m) (extreme before m l) refl (extreme-Least l)

  -- So no member of the store stands before the first.
  pub extreme-none :
      (before : ℕ → ℕ → Bool) (Le : ℕ → ℕ → Type 0) (order : Orders before Le) (m : AssocList T ℕ)
      → extreme before m m ≡ none
      → (j : T) → lookup j m ≡ none
  extreme-none before Le order m e j = elim (Option-cases (lookup j m)) [
    | inl p ↦ p
    | inr (t, p) ↦ absurd (
        subst (Least before Le order m m) e (extreme-Least before Le order m m) j t
          (lookup-listed m j t p) p)
  ]

  pub extreme-least :
      (before : ℕ → ℕ → Bool) (Le : ℕ → ℕ → Type 0) (order : Orders before Le) (m : AssocList T ℕ)
      (k : T) (s : ℕ)
      → extreme before m m ≡ some (k, s)
      → (j : T) (t : ℕ) → lookup j m ≡ some t
      → Le s t
  extreme-least before Le order m k s e j t p =
      subst (Least before Le order m m) e (extreme-Least before Le order m m) j t
        (lookup-listed m j t p) p

  -- What a trim may do to a member: leave it, or remove it while all that stay are as low.
  abbrev pub KeptOrHigh : AssocList T ℕ → AssocList T ℕ → T → Type 0
  KeptOrHigh m rest j =
      (lookup j rest ≡ lookup j m)
      ⊎ ((lookup j rest ≡ none)
          × ((s t : ℕ) (k : T) → lookup j m ≡ some s → lookup k rest ≡ some t → t ≤ s))

  module _ (m rest : AssocList T ℕ) (k : T) (s : ℕ) (first : extreme later m m ≡ some (k, s))
      (others : (i : T) → KeptOrHigh (erase k m) rest i) where
    rest-below : (i : T) (t : ℕ) → lookup i rest ≡ some t → t ≤ s
    rest-below i t e =
        extreme-least later (λ a b. b ≤ a) greatest m k s first i t
          (elim (others i) [
            | inl same ↦ ground (arith, e, same, lookup-erase k i m)
            | inr (gone, high) ↦ ground (arith, e, gone)
          ])

    dropped-KeptOrHigh : (j : T) → KeptOrHigh m rest j
    dropped-KeptOrHigh j = elim (Bool-cases (k == j)) [
      | inl here ↦
          let same : k ≡ j = (==_iff k j).0 here in
          let score : lookup j m ≡ some s =
            subst (λ (i : T). lookup i m ≡ some s) same (extreme-first later m m k s first) in
          inr (
            (elim (others j) [
              | inl e ↦ ground (arith, e, lookup-erase k j m, here)
              | inr (gone, high) ↦ gone
            ]),
            λ v t i e f. ground (arith, e, score, rest-below i t f),
          )
      | inr away ↦ elim (others j) [
        | inl e ↦ inl (ground (arith, e, lookup-erase k j m, away))
        | inr (gone, high) ↦
            inr (gone, λ v t i e f. high v t i (ground (arith, e, lookup-erase k j m, away)) f)
      ]
    ]

  pub trim-KeptOrHigh :
      (rounds n : ℕ) (m : AssocList T ℕ) (j : T) → KeptOrHigh m (trim rounds n m) j
  unfolding trim
  trim-KeptOrHigh zero n m j = inl refl
  trim-KeptOrHigh (suc rounds) n m j = elim (Bool-cases (leb (length m) n)) [
    | inl fits ↦ rw (fits, if◌then◌else◌) (inl refl)
    | inr over ↦ elim (Option-cases (extreme later m m)) [
      | inl e ↦ rw (over, e, if◌then◌else◌) (trim-KeptOrHigh rounds n m j)
      | inr ((k, s), e) ↦
          rw (over, e, if◌then◌else◌)
            (dropped-KeptOrHigh m (trim rounds n (erase k m)) k s e
              (trim-KeptOrHigh rounds n (erase k m)) j)
    ]
  ]
