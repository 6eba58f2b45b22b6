-- ===== src/Prelude/Keys.antt =====
-- Equality of map keys as an interface, with the keys that the program uses.
use Prim.Native.Nat.{ℕ}
use Prim.Native.String.{String}
use mathlib.Core.Path.{◌≡◌, refl}
use mathlib.Core.Logic.{◌↔◌}
use mathlib.Core.Bool.{Bool, true, ◌&&◌}
use native.Mathlib.Omega.{arith}
use text.Mathlib.Text.{◌==◌ as text_equal}
use text.Mathlib.TextEquality.{eq_iff as text_equal_iff}
use issue_tracker.Prelude.Tests.{nat_beq, nat_beq_iff}

-- What a Go map needs of its keys, and `==` of the source's types.
pub record Comparable {ℓ} (K : Type ℓ) : Type ℓ where
  pub equal : K → K → Bool
  pub equal_iff : (j k : K) → (equal j k ≡ true) ↔ (j ≡ k)

module _ {ℓ} {K : Type ℓ} ⦃c : Comparable K⦄ where
  infix 50 ◌==◌
  abbrev pub ◌==◌ : K → K → Bool
  j == k = c.equal j k

  -- The interface's law about the operator, to be listed at two keys.
  pub ==_iff : (j k : K) → ((j == k) ≡ true) ↔ (j ≡ k)
  ==_iff j k = c.equal_iff j k

  pub ==_refl : (k : K) → (k == k) ≡ true
  ==_refl k = (c.equal_iff k k).1 refl

instance abbrev pub string_eq : Comparable String
string_eq = record { equal = text_equal; equal_iff = text_equal_iff }

instance abbrev pub nat_eq : Comparable ℕ
nat_eq = record { equal = nat_beq; equal_iff = nat_beq_iff }

module _ {ℓ κ} {K : Type ℓ} {L : Type κ} ⦃c : Comparable K⦄ ⦃d : Comparable L⦄ where
  abbrev pub pair_equal : K × L → K × L → Bool
  pair_equal (j, l) (k, m) = (j == k) && d.equal l m

  pub pair_equal_iff : (p q : K × L) → (pair_equal p q ≡ true) ↔ (p ≡ q)
  pair_equal_iff (j, l) (k, m) = ground (arith, c.equal_iff j k, d.equal_iff l m)

instance abbrev pub pair_eq {ℓ κ} :
    {K : Type ℓ} {L : Type κ} ⦃c : Comparable K⦄ ⦃d : Comparable L⦄ → Comparable (K × L)
pair_eq = record { equal = pair_equal; equal_iff = pair_equal_iff }
