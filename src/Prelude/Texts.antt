-- ===== src/Prelude/Texts.antt =====
-- Go strings and byte slices as lists of numbers, where a component looks into them.
use Prim.Native.Nat.{ℕ}
use mathlib.Core.Path.{◌≡◌}
use mathlib.Core.Logic.{◌↔◌, ◌≢◌}
use mathlib.Core.Bool.{Bool, true, false, ◌&&◌}
use mathlib.Core.List.{List, [], ◌∷◌, ◌++◌}
use native.Mathlib.Omega.{arith}
use issue_tracker.Prelude.Tests.{nat_beq, nat_beq_iff}
use issue_tracker.Prelude.Keys.{Comparable}

abbrev pub Bytes : Type 0
Bytes = List ℕ

abbrev pub bytes_equal : Bytes → Bytes → Bool
bytes_equal [] [] = true
bytes_equal [] (y ∷ ys) = false
bytes_equal (x ∷ xs) [] = false
bytes_equal (x ∷ xs) (y ∷ ys) = nat_beq x y && bytes_equal xs ys

pub bytes_equal_iff : (xs ys : Bytes) → (bytes_equal xs ys ≡ true) ↔ (xs ≡ ys)
bytes_equal_iff [] [] = ground arith
bytes_equal_iff [] (y ∷ ys) = ground arith
bytes_equal_iff (x ∷ xs) [] = ground arith
bytes_equal_iff (x ∷ xs) (y ∷ ys) = ground (arith, nat_beq_iff x y, bytes_equal_iff xs ys)

instance abbrev pub bytes_eq : Comparable Bytes
bytes_eq = record { equal = bytes_equal; equal_iff = bytes_equal_iff }

-- `strings.HasPrefix`.
unfoldable pub has_prefix : Bytes → Bytes → Bool
has_prefix xs [] = true
has_prefix [] (p ∷ ps) = false
has_prefix (x ∷ xs) (p ∷ ps) = nat_beq x p && has_prefix xs ps

-- Texts that begin with two prefixes of which neither begins with the other are different.
pub prefixes_apart :
    (p q xs ys : Bytes) → has_prefix p q ≡ false → has_prefix q p ≡ false → p ++ xs ≢ q ++ ys
unfolding has_prefix
prefixes_apart [] [] xs ys h k e = ground arith
prefixes_apart [] (b ∷ q) xs ys h k e = ground arith
prefixes_apart (a ∷ p) [] xs ys h k e = ground arith
prefixes_apart (a ∷ p) (b ∷ q) xs ys h k e =
    ground (arith, prefixes_apart p q xs ys, nat_beq_iff a b, nat_beq_iff b a)

pub append-inj : (p xs ys : Bytes) → p ++ xs ≡ p ++ ys → xs ≡ ys
append-inj [] xs ys e = e
append-inj (a ∷ p) xs ys e = append-inj p xs ys (cc)
