-- ===== src/Tests/Demos.antt =====
-- The demonstration programs at concrete inputs, with decimal texts for `std::to_string`.
use native.Mathlib.Decide.{dec_lt}
use cpp_systems_playground.Prelude.{
  ℕ, zero, suc, ◌+◌, ◌-◌, ◌*◌, ◌/◌, ◌%◌, ◌^◌, ◌<◌, ◌≤◌, ◌≡◌, refl, sym, ap, ◌∙◌, true, some, none,
  ok, arith, [], ◌∷◌, ◌++◌, length, length-append, if◌then◌else◌, ltb,
}
use cpp_systems_playground.Linear.Text.{c_string, IsPlain, append-IsPlain}
use cpp_systems_playground.Demos.KvstoreLinear.{Text, second_value, main}
use cpp_systems_playground.Demos.KvstoreLinear.Checks.{IsDecimal, main-Report}

-- The decimal digits of a number, with fuel for them.
digits : ℕ → ℕ → Text
digits zero i = []
digits (suc fuel) i =
    let last : Text = (48 + i % 10) ∷ [] in if ltb i 10 then last else digits fuel (i / 10) ++ last

-- The number that digits stand for, after what stands before them.
value_from : ℕ → Text → ℕ
value_from n [] = n
value_from n (b ∷ l) = value_from (n * 10 + (b - 48)) l

value_from-append :
    (n : ℕ) (a : Text) (b : ℕ) → value_from n (a ++ b ∷ []) ≡ value_from n a * 10 + (b - 48)
unfolding value_from
value_from-append n [] b = refl
value_from-append n (x ∷ a) b = value_from-append (n * 10 + (x - 48)) a b

value_from-digits : (fuel i : ℕ) → i < 10 ^ fuel → value_from 0 (digits fuel i) ≡ i
unfolding digits value_from
value_from-digits zero i low = omega arith
value_from-digits (suc fuel) i low = elim (dec_lt i 10) [
  | yes small ↦ let t : ltb i 10 ≡ true = ground (arith, small) in rw t (omega arith)
  | no big ↦ ground (
    arith,
    big,
    value_from-append 0 (digits fuel (i / 10)) (48 + i % 10),
    value_from-digits fuel (i / 10) (omega (arith, low)),
  )
]

digits-IsPlain : (fuel i : ℕ) → IsPlain (digits fuel i)
unfolding digits c_string
digits-IsPlain zero i = refl
digits-IsPlain (suc fuel) i = ground (
  arith,
  append-IsPlain (digits fuel (i / 10)) ((48 + i % 10) ∷ []) (digits-IsPlain fuel (i / 10)),
)

length-digits : (fuel i : ℕ) → length (digits fuel i) ≤ fuel
unfolding digits
length-digits zero i = omega arith
length-digits (suc fuel) i =
    ground (
      arith,
      length-append (digits fuel (i / 10)) ((48 + i % 10) ∷ []),
      length-digits fuel (i / 10),
    )

abbrev decimal : ℕ → Text
decimal i = digits 20 i

decimal-IsDecimal : IsDecimal decimal
decimal-IsDecimal = record {
  plain = λ i low. digits-IsPlain 20 i;
  short = λ i low. length-digits 20 i;
  injective = λ i j low low' e.
      sym (value_from-digits 20 i (omega (arith, low)))
      ∙ ap (value_from 0) e
      ∙ value_from-digits 20 j (omega (arith, low'));
}

main-Report_example :
    main decimal 100000 50000
    ≡ ok (record {
      big_found = true;
      size = 50001;
      all_ok = true;
      after_overwrite = some second_value;
      erased = true;
      after_erase = none;
    })
main-Report_example =
    main-Report decimal decimal-IsDecimal 100000 50000 (omega arith) (omega arith) (omega arith)
