-- ===== src/Prelude/Lists.antt =====
-- Lists measured by native numbers, under the library's names.
use Prim.Native.Nat.{ℕ, zero, suc, ◌+◌}
use mathlib.Core.Path.{◌≡◌, refl}
use mathlib.Core.Logic.{◌⊎◌, inl, inr}
use mathlib.Core.List.{List, [], ◌∷◌, ◌++◌}
use native.Mathlib.Omega.{arith}

module _ {ℓ} {A : Type ℓ} where
  abbrev pub length : List A → ℕ
  length [] = 0
  length (x ∷ xs) = suc (length xs)

  abbrev pub replicate : ℕ → A → List A
  replicate zero a = []
  replicate (suc n) a = a ∷ replicate n a

  pub length-append : (xs ys : List A) → length (xs ++ ys) ≡ length xs + length ys
  length-append [] ys = omega arith
  length-append (x ∷ xs) ys = omega (arith, length-append xs ys)

  -- Every element has the property.
  abbrev pub All {κ} : (A → Type κ) → List A → Type κ
  All P [] = Unit
  All P (x ∷ xs) = P x × All P xs

module _ {ℓ κ} {A : Type ℓ} (P : A → Type κ) where
  pub All-append : (xs ys : List A) → All P xs → All P ys → All P (xs ++ ys)
  All-append [] ys none_left others = others
  All-append (x ∷ xs) ys (first, more) others = (first, All-append xs ys more others)

module _ {A : Type 0} where
  -- An element is in the list.
  abbrev pub Member : A → List A → Type 0
  Member a [] = ⊥
  Member a (x ∷ xs) = (a ≡ x) ⊎ Member a xs

  -- The elements pushed one by one on the front of a list.
  abbrev pub onto : List A → List A → List A
  onto [] ys = ys
  onto (x ∷ xs) ys = onto xs (x ∷ ys)

  pub onto-append : (xs ys zs : List A) → onto xs (ys ++ zs) ≡ onto xs ys ++ zs
  onto-append [] ys zs = refl
  onto-append (x ∷ xs) ys zs = onto-append xs (x ∷ ys) zs

  pub Member-onto : (a : A) (xs ys : List A) → Member a xs ⊎ Member a ys → Member a (onto xs ys)
  Member-onto a [] ys (inl h) = elim h [ ]
  Member-onto a [] ys (inr h) = h
  Member-onto a (x ∷ xs) ys (inl (inl e)) = Member-onto a xs (x ∷ ys) (inr (inl e))
  Member-onto a (x ∷ xs) ys (inl (inr h)) = Member-onto a xs (x ∷ ys) (inl h)
  Member-onto a (x ∷ xs) ys (inr h) = Member-onto a xs (x ∷ ys) (inr (inr h))

  pub Member-append : (a : A) (xs ys : List A) → Member a xs ⊎ Member a ys → Member a (xs ++ ys)
  Member-append a [] ys (inl h) = elim h [ ]
  Member-append a [] ys (inr h) = h
  Member-append a (x ∷ xs) ys (inl (inl e)) = inl e
  Member-append a (x ∷ xs) ys (inl (inr h)) = inr (Member-append a xs ys (inl h))
  Member-append a (x ∷ xs) ys (inr h) = inr (Member-append a xs ys (inr h))

  pub Member-of_append : (a : A) (xs ys : List A) → Member a (xs ++ ys) → Member a xs ⊎ Member a ys
  Member-of_append a [] ys h = inr h
  Member-of_append a (x ∷ xs) ys (inl e) = inl (inl e)
  Member-of_append a (x ∷ xs) ys (inr h) = elim (Member-of_append a xs ys h) [
    | inl left ↦ inl (inr left)
    | inr right ↦ inr right
  ]

  pub Member-of_onto : (a : A) (xs ys : List A) → Member a (onto xs ys) → Member a xs ⊎ Member a ys
  Member-of_onto a [] ys h = inr h
  Member-of_onto a (x ∷ xs) ys h = elim (Member-of_onto a xs (x ∷ ys) h) [
    | inl left ↦ inl (inr left)
    | inr (inl e) ↦ inl (inl e)
    | inr (inr right) ↦ inr right
  ]
