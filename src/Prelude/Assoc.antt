-- ===== src/Prelude/Assoc.antt =====
-- A Go map as an association list. `insert` is `m[k] = v` and `erase` is `delete(m, k)`.
use mathlib.Core.Path.{◌≡◌}
use mathlib.Core.List.{List, [], ◌∷◌}
use mathlib.Core.Bool.{Bool, false, ◌||◌}
use mathlib.Core.Option.{Option, none, some}
use native.Mathlib.Omega.{arith}
use issue_tracker.Prelude.Tests.{if◌then◌else◌}
use issue_tracker.Prelude.Keys.{Comparable, ◌==◌}

abbrev pub AssocList {ℓ κ} : Type ℓ → Type κ → Type (ℓ ⊔ κ)
AssocList K V = List (K × V)

module _ {ℓ κ} {K : Type ℓ} {V : Type κ} ⦃c : Comparable K⦄ where
  unfoldable pub lookup : K → AssocList K V → Option V
  lookup key [] = none
  lookup key ((k, value) ∷ rest) = if key == k then some value else lookup key rest

  unfoldable pub erase : K → AssocList K V → AssocList K V
  erase key [] = []
  erase key (entry ∷ rest) =
      let kept = erase key rest in if key == entry.0 then kept else entry ∷ kept

  unfoldable pub insert : K → V → AssocList K V → AssocList K V
  unfolding erase
  insert key value m = (key, value) ∷ erase key m

  pub lookup-erase :
      (gone key : K) (m : AssocList K V)
      → lookup key (erase gone m) ≡ (if gone == key then none else lookup key m)
  unfolding lookup erase
  lookup-erase gone key [] = ground arith
  lookup-erase gone key ((k, value) ∷ rest) = ground (
    arith,
    lookup-erase gone key rest,
    c.equal_iff gone k,
    c.equal_iff key k,
    c.equal_iff gone key,
  )

  pub lookup-insert :
      (new key : K) (value : V) (m : AssocList K V)
      → lookup key (insert new value m) ≡ (if new == key then some value else lookup key m)
  unfolding lookup insert
  lookup-insert new key value m =
      ground (arith, lookup-erase new key m, c.equal_iff new key, c.equal_iff key new)

module _ {ℓ} {K : Type ℓ} ⦃c : Comparable K⦄ where
  abbrev pub elem : K → List K → Bool
  elem k [] = false
  elem k (x ∷ xs) = (k == x) || elem k xs
