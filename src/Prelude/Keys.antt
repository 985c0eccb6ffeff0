-- ===== src/Prelude/Keys.antt =====
-- The template parameters `Hash` and `KeyEqual` of the hashed containers.
use Prim.Native.Nat.{ℕ}
use mathlib.Core.Bool.{Bool, true, false}
use mathlib.Core.Logic.{◌≢◌, ◌↔◌}
use mathlib.Core.Path.{◌≡◌}
use native.Mathlib.Omega.{arith}

-- `equal` is the equality of keys, as that of `std::equal_to`; nothing is asked of `hash`.
pub record Key {ℓ} (K : Type ℓ) : Type ℓ where
  pub hash : K → ℕ
  pub equal : K → K → Bool
  pub equal_iff : (a b : K) → (equal a b ≡ true) ↔ (a ≡ b)

module _ {ℓ} {K : Type ℓ} ⦃key : Key K⦄ where
  pub equal_self : (a : K) → key.equal a a ≡ true
  equal_self a = ground (arith, key.equal_iff a a)

  pub equal_ne : (a b : K) → a ≢ b → key.equal a b ≡ false
  equal_ne a b h = ground (arith, key.equal_iff a b)

  pub equal_symm : (a b : K) → key.equal a b ≡ key.equal b a
  equal_symm a b = ground (arith, key.equal_iff a b, key.equal_iff b a)
