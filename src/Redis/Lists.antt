-- ===== src/Redis/Lists.antt =====
-- The commands of Redis on lists, as an interface: LPUSH, LTRIM from the head, and RPOP with a count. The
-- laws are what the documentation of the commands says.
pub mod Memory
use issue_tracker.Prelude.{
  ℕ, ◌≤◌, ◌≡◌, ◌⊎◌, String, List, [], ◌++◌, if◌then◌else◌, ◌==◌, length, onto,
}
use issue_tracker.Prelude.Keys.{string_eq}

pub record Lists (R : Type 0) : Type 0 where
  -- The elements of a key, the head first.
  pub items : R → String → List String
  -- The elements are pushed one by one.
  pub lpush : String → List String → R → R
  -- Elements are kept up to a number.
  pub ltrim : String → ℕ → R → R
  -- Up to a number of elements from the tail, the last first.
  pub rpop : String → ℕ → R → R × List String

pub record IsLists {R : Type 0} (x : Lists R) : Type 0 where
  pub items_lpush :
      (k : String) (vs : List String) (r : R) (j : String)
      → x.items (x.lpush k vs r) j ≡ (if k == j then onto vs (x.items r j) else x.items r j)
  pub popped :
      (k : String) (n : ℕ) (r : R)
      → x.items r k ≡ x.items (x.rpop k n r).0 k ++ onto (x.rpop k n r).1 []
  pub at_most : (k : String) (n : ℕ) (r : R) → length (x.rpop k n r).1 ≤ n
  pub all_or_full :
      (k : String) (n : ℕ) (r : R)
      → (n ≤ length (x.rpop k n r).1) ⊎ (x.items (x.rpop k n r).0 k ≡ [])
