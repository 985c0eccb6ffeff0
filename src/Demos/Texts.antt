-- ===== src/Demos/Texts.antt =====
-- The `std::string` and `int` keys of the demonstrations, with the hash of the standard library as a
-- parameter.
use cpp_systems_playground.Prelude.{ℕ, List, Key, ◌==◌, ==_iff}
use cpp_systems_playground.Linear.Text.{same, same_iff}

-- The bytes of a string.
abbrev pub Text : Type 0
Text = List ℕ

abbrev pub string_key : (Text → ℕ) → Key Text
string_key hash = record { hash = hash; equal = same; equal_iff = same_iff }

abbrev pub int_key : (ℕ → ℕ) → Key ℕ
int_key hash = record { hash = hash; equal = λ a b. a == b; equal_iff = ==_iff }
