-- ===== src/Tests/Inputs.antt =====
-- Numbers as keys, whose hash is the identity, and fractions for floating-point numbers.
use cpp_systems_playground.Prelude.{
  ℕ, ◌^◌, ◌||◌, none, some, if◌then◌else◌, ◌*◌, ◌/◌, Key, ltb, leb, ◌==◌, ==_iff,
}
use cpp_systems_playground.HashMap.{Floats}

instance unfoldable pub number_key : Key ℕ
number_key = record { hash = λ k. k; equal = λ a b. a == b; equal_iff = ==_iff }

abbrev pub Fraction : Type 0
Fraction = ℕ × ℕ

instance unfoldable pub fractions : Floats Fraction
fractions = record {
  zero_load = (0, 1);
  three_quarters = (3, 4);
  ratio = λ a b. (a, b);
  gt = λ x y. ltb (y.0 * x.1) (x.0 * y.1);
  le = λ x y. leb (x.0 * y.1) (y.0 * x.1);
  quotient = λ n d. if d.0 == 0 || leb (2 ^ 64) (n * d.1 / d.0) then none else some (n * d.1 / d.0);
}
