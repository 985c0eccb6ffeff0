-- ===== src/Prelude/Totals.antt =====
-- The sum of a weight over the first values of a function.
use Prim.Native.Nat.{ℕ, zero, suc, ◌+◌, ◌≤◌, ◌<◌}
use mathlib.Core.Path.{◌≡◌, refl}
use native.Mathlib.Omega.{arith}
use native.Mathlib.Decide.{dec_lt}
use cpp_systems_playground.Prelude.Tests.{ltb, if◌then◌else◌}
use cpp_systems_playground.Prelude.Slots.{update}

unfoldable pub total {ℓ} : {A : Type ℓ} → (A → ℕ) → (ℕ → A) → ℕ → ℕ
total w f zero = 0
total w f (suc n) = w (f n) + total w f n

pub total-update {ℓ} :
    {A : Type ℓ} (w : A → ℕ) (f : ℕ → A) (i n : ℕ) (v : A)
    → total w (update f i v) n + (if ltb i n then w (f i) else 0)
      ≡ total w f n + (if ltb i n then w v else 0)
unfolding total
total-update w f i zero v = ground arith
total-update w f i (suc n) v = ground (arith, total-update w f i n v)

pub total-cong {ℓ} :
    {A : Type ℓ} (w : A → ℕ) (f g : ℕ → A) (n : ℕ)
    → ((i : ℕ) → w (f i) ≡ w (g i))
    → total w f n ≡ total w g n
unfolding total
total-cong w f g zero h = refl
total-cong w f g (suc n) h = omega (arith, h n, total-cong w f g n h)

pub total-zero {ℓ} : {A : Type ℓ} (w : A → ℕ) (a : A) (n : ℕ) → w a ≡ 0 → total w (λ i. a) n ≡ 0
unfolding total
total-zero w a zero h = refl
total-zero w a (suc n) h = omega (arith, h, total-zero w a n h)

pub total-eq-zero {ℓ} :
    {A : Type ℓ} (w : A → ℕ) (f : ℕ → A) (n : ℕ) → ((i : ℕ) → i < n → w (f i) ≡ 0) → total w f n ≡ 0
unfolding total
total-eq-zero w f zero h = refl
total-eq-zero w f (suc n) h =
    omega (arith, h n (omega arith), total-eq-zero w f n (λ i a. h i (omega arith)))

pub total-eq-length {ℓ} :
    {A : Type ℓ} (w : A → ℕ) (f : ℕ → A) (n : ℕ) → ((i : ℕ) → i < n → w (f i) ≡ 1) → total w f n ≡ n
unfolding total
total-eq-length w f zero h = refl
total-eq-length w f (suc n) h =
    omega (arith, h n (omega arith), total-eq-length w f n (λ i a. h i (omega arith)))

-- Each value weighs at most the sum.
pub le-total {ℓ} : {A : Type ℓ} (w : A → ℕ) (f : ℕ → A) (i n : ℕ) → i < n → w (f i) ≤ total w f n
unfolding total
le-total w f i zero h = elim h [ ]
le-total w f i (suc n) h = ground (arith, le-total w f i n)

pub total-le {ℓ} :
    {A : Type ℓ} (w : A → ℕ) (f : ℕ → A) (n : ℕ) → ((a : A) → w a ≤ 1) → total w f n ≤ n
unfolding total
total-le w f zero h = omega arith
total-le w f (suc n) h = omega (arith, h (f n), total-le w f n h)

pub total-add-one {ℓ} :
    {A : Type ℓ} (w : A → ℕ) (f : ℕ → A) (n : ℕ) → total w f (n + 1) ≡ w (f n) + total w f n
unfolding total
total-add-one w f n = let e : n + 1 ≡ suc n = omega arith in rw e refl

pub total-pos {ℓ} :
    {A : Type ℓ} (w : A → ℕ) (f : ℕ → A) (n : ℕ)
    → 0 < total w f n
    → (i : ℕ) × (i < n) × (0 < w (f i))
unfolding total
total-pos w f zero h = absurd (omega arith)
total-pos w f (suc n) h = elim (dec_lt 0 (w (f n))) [
  | yes here ↦ (n, omega arith, here)
  | no later ↦ let (i, low, pos) = total-pos w f n (omega arith) in (i, omega arith, pos)
]
