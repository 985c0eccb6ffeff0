-- ===== src/Tests/Maps.antt =====
-- `HashMap` from numbers to numbers, whose hash is the identity, with fractions for floating-point
-- numbers.
use cpp_systems_playground.Prelude.{
  ℕ, ◌^◌, ◌≡◌, ◌≢◌, ◌<◌, ◌⊎◌, refl, true, false, not, none, some, arith, length, ok, err, Fault,
  is_some,
}
use cpp_systems_playground.HashMap.{
  Map, new, insert_or_assign, index, overloaded, prepend, locate, maybe_rehash_located,
  rehash_located, refer, front,
}
use cpp_systems_playground.Tests.Inputs.{number_key, Fraction, fractions}
use cpp_systems_playground.HashMap.Bucket.{find}
use cpp_systems_playground.HashMap.Buckets.{home, home_bucket}
use cpp_systems_playground.HashMap.Refine.{IsValid, lookup, Writes}
use cpp_systems_playground.HashMap.Members.{insert_or_assign-Writes, index-cases}
use cpp_systems_playground.HashMap.Capacity.{Empty, new-Empty}
use cpp_systems_playground.Prelude.{List, [], ◌∷◌}
use cpp_systems_playground.Prelude.Maps.{nothing}
use mathlib.Core.Quot
use cpp_systems_playground.HashMap.Contents.{Contents, write, write-laws}
use cpp_systems_playground.HashMap.Histories.{Call, Spec, Holds, run, ideal_run, run-Follows}
use cpp_systems_playground.HashMap.Load.{IsExact, IsLight, insert_or_assign-IsLight}

fractions-IsExact : IsExact fractions
unfolding fractions
fractions-IsExact = record { within = λ a b pos few e. ground arith }

abbrev start : Map Fraction ℕ ℕ
start = new 1

start-Empty : Empty start
start-Empty = new-Empty 1

start-IsValid : IsValid start
start-IsValid = start-Empty.valid

start-IsLight : IsLight start
unfolding new
start-IsLight = record { factor = refl; load = omega arith }

few_buckets : length start.buckets < 2 ^ 50
unfolding new
few_buckets = omega arith

abbrev stored :
    (m' : Map Fraction ℕ ℕ) × (insert_or_assign start 5 50
      ≡ ok (not (is_some (lookup start 5)), m'))
    × Writes start m' 5 (some 50)
stored = insert_or_assign-Writes 5 50 start-IsValid

abbrev one_entry : Map Fraction ℕ ℕ
one_entry = stored.0

one_entry-IsValid : IsValid one_entry
one_entry-IsValid = stored.2.valid

index-cases_example :
    let grown = prepend start (home 5 start.buckets) (home_bucket 5 start.buckets) 5 0 in
    ((v : ℕ) × (lookup start 5 ≡ some v) × (index start 0 5 ≡ ok (v, start)))
    ⊎ ((lookup start 5 ≡ none)
        × (overloaded grown ≡ true)
        × (index start 0 5 ≡ err Fault.undefined))
    ⊎ ((lookup start 5 ≡ none)
        × (overloaded grown ≡ false)
        × (index start 0 5 ≡ ok (0, grown))
        × Writes start grown 5 (some 0))
index-cases_example = index-cases 0 5 start-IsValid

-- The reference that `operator[]` returns dangles here.
dangling : index start 0 5 ≡ err Fault.undefined
unfolding index new locate overloaded find maybe_rehash_located rehash_located refer front
    number_key fractions
dangling = refl

insert_or_assign-IsLight_example :
    (m' : Map Fraction ℕ ℕ) × (insert_or_assign start 5 50
      ≡ ok (not (is_some (lookup start 5)), m'))
    × IsLight m'
insert_or_assign-IsLight_example =
    insert_or_assign-IsLight 5 50 fractions-IsExact start-IsValid start-IsLight few_buckets

abbrev at_start : Spec Fraction ℕ ℕ
at_start = record { contents = nothing; factor = (3, 4) }

start-Holds : Holds start at_start
unfolding new fractions
start-Holds = record {
  valid = start-Empty.valid;
  reads = start-Empty.reads;
  number = start-Empty.size;
  factor = refl;
}

abbrev calls : List (Call Fraction ℕ ℕ)
calls =
    Call.insert_or_assign 5 50
    ∷ Call.insert_or_assign 9 90
    ∷ Call.insert_or_assign 5 51
    ∷ Call.erase 9
    ∷ Call.at 9
    ∷ Call.reserve 20
    ∷ Call.get 5
    ∷ Call.set_max_load_factor (0, 1)
    ∷ Call.size
    ∷ []

run-Follows_example :
    ((run start calls).0 ≡ (ideal_run at_start calls).0)
    × Holds (run start calls).1 (ideal_run at_start calls).1
run-Follows_example = run-Follows calls start-Holds

abbrev contents : Contents Fraction ℕ ℕ
contents = Quot.mk (one_entry, one_entry-IsValid)

differ : ◌≢◌ {A = ℕ} 5 9
differ = λ e. absurd (omega (arith, e))

write-laws_example :
    (write 5 (some 51) (write 9 none contents) ≡ write 9 none (write 5 (some 51) contents))
    × (write 5 none (write 5 (some 51) contents) ≡ write 5 none contents)
write-laws_example = write-laws 5 9 (some 51) none contents differ
