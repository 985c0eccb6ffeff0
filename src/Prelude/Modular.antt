-- ===== src/Prelude/Modular.antt =====
-- Remainders by a variable modulus, as the circular indices use them.
use Prim.Native.Nat.{ℕ, ◌+◌, ◌-◌, ◌%◌, ◌≤◌, ◌<◌}
use mathlib.Core.Path.{◌≡◌, sym, ap, ◌∙◌}
use mathlib.Core.Logic.{◌≢◌}
use native.Mathlib.Nat.{mod-add-mod, mod-lt, mod-eq_of_lt, mod-eq-sub-mod, add-mod_right}
use native.Mathlib.Omega.{arith}
use native.Mathlib.Decide.{dec_lt, dec_le}

mod_shift : (n r d : ℕ) → r < n → d < n → (r + d) % n ≡ r → d ≡ 0
mod_shift n r d h k e = elim (dec_lt (r + d) n) [
  | yes below ↦ omega (arith, mod-eq_of_lt below)
  | no above ↦
      let wrap : (r + d) % n ≡ (r + d - n) % n = mod-eq-sub-mod (omega arith) in
      let back : (r + d - n) % n ≡ r + d - n = mod-eq_of_lt (omega arith) in omega arith
]

-- Two numbers less than one turn apart with the same remainder are equal.
pub mod_inj : (n a b : ℕ) → a ≤ b → b < a + n → a % n ≡ b % n → a ≡ b
mod_inj n a b h k e =
    let turn : (a % n + (b - a)) % n ≡ (a + (b - a)) % n = mod-add-mod a n (b - a) in
    let sum : a + (b - a) ≡ b = omega arith in
    let none_left : b - a ≡ 0 =
      mod_shift n (a % n) (b - a) (mod-lt a (omega arith)) (omega arith) (rw (turn, sum, e)) in
    omega arith

pub mod-suc-mod : (n a : ℕ) → (a % n + 1) % n ≡ (a + 1) % n
mod-suc-mod n a = mod-add-mod a n 1

-- One lap further the remainder is the same.
pub mod_lap : (n b : ℕ) → (b + n) % n ≡ b % n
mod_lap n b = add-mod_right b n

-- Offsets below the modulus from one base lead to different remainders.
pub offset_ne : (n b i j : ℕ) → i < n → j < n → i ≢ j → (b + i) % n ≢ (b + j) % n
offset_ne n b i j h k ne e = elim (dec_lt i j) [
  | yes p ↦ ne (omega (arith, mod_inj n (b + i) (b + j) (omega arith) (omega arith) e))
  | no p ↦ ne (omega (arith, mod_inj n (b + j) (b + i) (omega arith) (omega arith) (sym e)))
]

-- From any place one comes to every other one within a round.
pub offset_to : (n a x : ℕ) → a < n → x < n → (k : ℕ) × (k < n) × ((a + k) % n ≡ x)
offset_to n a x low low' = elim (dec_le a x) [
  | yes before ↦
      let sum : a + (x - a) ≡ x = omega arith in
      (x - a, omega arith, ap (λ y. y % n) sum ∙ mod-eq_of_lt low')
  | no after ↦
      let sum : a + (n + x - a) ≡ n + x = omega arith in
      let lap : n + x - n ≡ x = omega arith in
      (
        n + x - a,
        omega arith,
        ap (λ y. y % n) sum
            ∙ mod-eq-sub-mod (omega arith)
            ∙ ap (λ y. y % n) lap
            ∙ mod-eq_of_lt low',
      )
]
