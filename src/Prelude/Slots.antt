-- ===== src/Prelude/Slots.antt =====
-- Memory as a function from an address to what is stored there.
use Prim.Native.Nat.{ℕ}
use mathlib.Core.Path.{◌≡◌, fun_ext}
use mathlib.Core.Logic.{◌≢◌}
use native.Mathlib.Omega.{arith}
use cpp_systems_playground.Prelude.Tests.{◌==◌, if◌then◌else◌}

abbrev pub update {ℓ} : {A : Type ℓ} → (ℕ → A) → ℕ → A → ℕ → A
update f p v q = if p == q then v else f q

module _ {ℓ} {A : Type ℓ} (f : ℕ → A) (p : ℕ) (v : A) where
  pub update_self : update f p v p ≡ v
  update_self = ground arith

  pub update_ne : (q : ℕ) → p ≢ q → update f p v q ≡ f q
  update_ne q h = ground arith

  pub update_twice : (w : A) → update (update f p v) p w ≡ update f p w
  update_twice w = fun_ext (λ q. ground arith)
