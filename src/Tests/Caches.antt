-- ===== src/Tests/Caches.antt =====
-- `LRUCache` of one entry.
use cpp_systems_playground.Prelude.{ℕ, ◌≡◌, refl, List, [], ◌∷◌, arith, ok}
use cpp_systems_playground.Tests.Inputs.{number_key, Fraction, fractions}
use cpp_systems_playground.HashMap
use cpp_systems_playground.HashMap.Capacity.{new-Empty}
use cpp_systems_playground.Lru.{Cache}
use cpp_systems_playground.Lru.Items.{nodes_with, keys_with, item_of}
use cpp_systems_playground.Lru.Valid.{IsValid, view}
use cpp_systems_playground.Lru.Histories.{Call, run, ideal_run, run-refines}

abbrev empty_cache : Cache Fraction ℕ ℕ
empty_cache = record { capacity = 1; items = []; map = HashMap.new 1; next = 0 }

empty_cache-IsValid : IsValid empty_cache
unfolding nodes_with keys_with item_of
empty_cache-IsValid =
    let empty = new-Empty {D = Fraction} {K = ℕ} {V = ℕ} 1 in
    record {
      map = empty.valid;
      agrees = λ q. empty.reads q;
      distinct = record { nodes = λ node. omega arith; keys = λ k. omega arith };
      fresh = λ node h. refl;
      positive = omega arith;
      bounded = omega arith;
    }

abbrev calls : List (Call ℕ ℕ)
calls = Call.put 5 50 ∷ Call.put 6 60 ∷ Call.get 5 ∷ Call.get 6 ∷ Call.erase 6 ∷ Call.clear ∷ []

run-refines_example :
    (c' : Cache Fraction ℕ ℕ) × (run empty_cache calls
      ≡ ok ((ideal_run 1 (view empty_cache) calls).0, c'))
    × IsValid c'
    × (c'.capacity ≡ 1)
    × (view c' ≡ (ideal_run 1 (view empty_cache) calls).1)
run-refines_example = run-refines calls empty_cache-IsValid
