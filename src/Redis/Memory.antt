-- ===== src/Redis/Memory.antt =====
-- The commands on association lists: an implementation that meets the interface's laws.
use issue_tracker.Prelude.{
  ℕ, zero, suc, ◌≤◌, ◌≡◌, ◌⊎◌, inl, inr, refl, sym, ap, subst, ◌∙◌, Bool-cases, Bool, true, false,
  Option, none, some, List, [], ◌∷◌, length, leb, if◌then◌else◌, ◌==◌, ==_iff, arith, Comparable,
  AssocList, lookup, insert, erase, lookup-insert, lookup-erase, Option-cases, All, elem,
}
use issue_tracker.Redis.{Redis, IsRedis, PopsMin, TrimsMax, RangesLow}
use issue_tracker.Redis.Extreme.{
  least, extreme, extreme-first, extreme-none, extreme-least, listed, lookup-listed, trim,
  trim-KeptOrHigh,
}

pub record Store (T V : Type 0) : Type 0 where
  pub strings : AssocList T V
  pub members : AssocList T ℕ

module _ {A : Type 0} where
  unfoldable pub take : ℕ → List A → List A
  take zero xs = []
  take (suc n) [] = []
  take (suc n) (x ∷ xs) = x ∷ take n xs

unfoldable pub at_most : ℕ → Option ℕ → Bool
at_most top none = false
at_most top (some s) = leb s top

module _ {T : Type 0} ⦃c : Comparable T⦄ where
  -- The members among some keys whose score is at most `top`.
  unfoldable pub due : ℕ → AssocList T ℕ → AssocList T ℕ → List T
  unfolding at_most
  due top m [] = []
  due top m ((k, s) ∷ rest) =
      let others = due top m rest in if at_most top (lookup k m) then k ∷ others else others

  abbrev Low : ℕ → AssocList T ℕ → T → Type 0
  Low top m k = (s : ℕ) × (lookup k m ≡ some s) × (s ≤ top)

  at_most-Low :
      (top : ℕ) (m : AssocList T ℕ) (k : T) → at_most top (lookup k m) ≡ true → Low top m k
  unfolding at_most
  at_most-Low top m k h = elim (Option-cases (lookup k m)) [
    | inl e ↦ ground (arith, e, h)
    | inr (s, e) ↦ (s, e, ground (arith, e, h))
  ]

  due-Low : (top : ℕ) (m l : AssocList T ℕ) → All (Low top m) (due top m l)
  unfolding due
  due-Low top m [] = tt
  due-Low top m ((k, s) ∷ l) = elim (Bool-cases (at_most top (lookup k m))) [
    | inl e ↦ rw (e, if◌then◌else◌) (at_most-Low top m k e, due-Low top m l)
    | inr e ↦ rw (e, if◌then◌else◌) (due-Low top m l)
  ]

  All-take : (P : T → Type 0) (n : ℕ) (xs : List T) → All P xs → All P (take n xs)
  unfolding take
  All-take P zero xs h = tt
  All-take P (suc n) [] h = tt
  All-take P (suc n) (x ∷ xs) (h, hs) = (h, All-take P n xs hs)

  due-listed :
      (top : ℕ) (m l : AssocList T ℕ) (k : T) (s : ℕ)
      → lookup k m ≡ some s
      → s ≤ top
      → listed k l ≡ true
      → elem k (due top m l) ≡ true
  unfolding due at_most listed
  due-listed top m [] k s e h i = ground arith
  due-listed top m ((j, t) ∷ l) k s e h i = elim (Bool-cases (k == j)) [
    | inl here ↦
        let same : k ≡ j = (==_iff k j).0 here in
        let score : lookup j m ≡ some s = subst (λ (x : T). lookup x m ≡ some s) same e in
        rw (score) (ground (arith, h, here))
    | inr away ↦ ground (arith, away, i, due-listed top m l k s e h)
  ]

  take-elem :
      (n : ℕ) (l : List T) (k : T)
      → elem k l ≡ true
      → (n ≤ length (take n l)) ⊎ (elem k (take n l) ≡ true)
  unfolding take
  take-elem zero l k h = inl (omega arith)
  take-elem (suc n) [] k h = ground arith
  take-elem (suc n) (x ∷ l) k h = elim (Bool-cases (k == x)) [
    | inl here ↦ inr (ground (arith, here))
    | inr away ↦ elim (take-elem n l k (ground (arith, h, away))) [
      | inl full ↦ inl (omega (arith, full))
      | inr there ↦ inr (ground (arith, there))
    ]
  ]

module _ {T V : Type 0} ⦃c : Comparable T⦄ where
  pop_of : Store T V → Option (T × ℕ) → Option (T × ℕ × Store T V)
  pop_of r none = none
  pop_of r (some (k, s)) = some (k, s, record r { members = erase k r.members })

  unfoldable pub memory : Redis T V (Store T V)
  unfolding pop_of
  memory = record {
    get = λ r k. lookup k r.strings;
    set = λ k v r. record r { strings = insert k v r.strings };
    del = λ k r. record r { strings = erase k r.strings };
    score = λ r m. lookup m r.members;
    zadd = λ m s r. record r { members = insert m s r.members };
    zrem = λ m r. record r { members = erase m r.members };
    zpopmin = λ r. pop_of r (extreme leb r.members r.members);
    zrange = λ top n r. take n (due top r.members r.members);
    ztrim = λ n r. record r { members = trim (length r.members) n r.members };
  }

  pub memory-IsRedis : IsRedis memory
  unfolding memory
  memory-IsRedis = record {
    get_set = λ k v r j. lookup-insert k j v r.strings;
    score_set = λ k v r m. refl;
    get_del = λ k r j. lookup-erase k j r.strings;
    score_del = λ k r m. refl;
    get_zadd = λ n s r j. refl;
    score_zadd = λ n s r m. lookup-insert n m s r.members;
    get_zrem = λ n r j. refl;
    score_zrem = λ n r m. lookup-erase n m r.members;
  }

  pop_of-none : (r : Store T V) (o : Option (T × ℕ)) → pop_of r o ≡ none → o ≡ none
  unfolding pop_of
  pop_of-none r none e = refl
  pop_of-none r (some (i, u)) e = ground arith

  pop_of-cases :
      (r : Store T V) (o : Option (T × ℕ)) (k : T) (s : ℕ) (r' : Store T V)
      → pop_of r o ≡ some (k, s, r')
      → (o ≡ some (k, s)) × (record r { members = erase k r.members } ≡ r')
  unfolding pop_of
  pop_of-cases r none k s r' e = ground arith
  pop_of-cases r (some (i, u)) k s r' e = (cc, cc)

  pub memory-PopsMin : PopsMin memory
  unfolding memory
  memory-PopsMin = record {
    popped = λ r m s r' e.
        let (first, rest) = pop_of-cases r (extreme leb r.members r.members) m s r' e in
        (
          extreme-first leb r.members r.members m s first,
          extreme-least leb ◌≤◌ least r.members m s first,
          (λ j. ap (λ (x : Store T V). lookup j x.members) (sym rest) ∙ lookup-erase m j r.members),
          (λ k. ap (λ (x : Store T V). lookup k x.strings) (sym rest)),
        );
    none_left = λ r e j.
        extreme-none leb ◌≤◌ least r.members (pop_of-none r (extreme leb r.members r.members) e) j;
  }

  pub memory-TrimsMax : TrimsMax memory
  unfolding memory
  memory-TrimsMax = record {
    get_ztrim = λ n r k. refl;
    kept_or_high = λ n r j. trim-KeptOrHigh (length r.members) n r.members j;
  }

  pub memory-RangesLow : RangesLow memory
  unfolding memory
  memory-RangesLow = record {
    low = λ top n r.
        All-take (Low top r.members) n (due top r.members r.members)
          (due-Low top r.members r.members);
    full_or_listed = λ top n r k s e h.
        take-elem n (due top r.members r.members) k
          (due-listed top r.members r.members k s e h (lookup-listed r.members k s e));
  }
