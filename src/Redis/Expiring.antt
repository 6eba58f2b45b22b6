-- ===== src/Redis/Expiring.antt =====
-- The commands of Redis on keys that expire, as an interface: SET NX with a time to live, DEL and the passing
-- of time. The laws are what the documentation of the commands says.
pub mod Memory
use issue_tracker.Prelude.{
  ℕ, ◌-◌, ◌<◌, ltb, ◌≡◌, Bool, true, false, Option, none, some, if◌then◌else◌, ◌==◌, Bytes,
}
use issue_tracker.Prelude.Texts.{bytes_eq}

pub record Expiring (R : Type 0) : Type 0 where
  -- The value of a key and the time that it has left.
  pub get : R → Bytes → Option (Bytes × ℕ)
  pub set_nx : Bytes → Bytes → ℕ → R → R × Bool
  pub del : Bytes → R → R
  pub wait : ℕ → R → R

abbrev pub after : ℕ → Option (Bytes × ℕ) → Option (Bytes × ℕ)
after d none = none
after d (some (v, left)) = if ltb d left then some (v, left - d) else none

pub record IsExpiring {R : Type 0} (x : Expiring R) : Type 0 where
  pub free : (k v : Bytes) (ttl : ℕ) (r : R) → x.get r k ≡ none → (x.set_nx k v ttl r).1 ≡ true
  pub get_free :
      (k v : Bytes) (ttl : ℕ) (r : R) (j : Bytes)
      → 0 < ttl
      → x.get r k ≡ none
      → x.get (x.set_nx k v ttl r).0 j ≡ (if k == j then some (v, ttl) else x.get r j)
  pub taken :
      (k v : Bytes) (ttl : ℕ) (r : R) (e : Bytes × ℕ)
      → x.get r k ≡ some e
      → (x.set_nx k v ttl r).1 ≡ false
  pub get_taken :
      (k v : Bytes) (ttl : ℕ) (r : R) (e : Bytes × ℕ) (j : Bytes)
      → x.get r k ≡ some e
      → x.get (x.set_nx k v ttl r).0 j ≡ x.get r j
  pub get_del :
      (k : Bytes) (r : R) (j : Bytes) → x.get (x.del k r) j ≡ (if k == j then none else x.get r j)
  pub get_wait : (d : ℕ) (r : R) (k : Bytes) → x.get (x.wait d r) k ≡ after d (x.get r k)
