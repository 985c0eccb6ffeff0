-- ===== src/Tests/Chains.antt =====
-- `InMemorykvstore_chaining` with one bucket and one block.
use cpp_systems_playground.Prelude.{
  ℕ, ◌≡◌, none, some, [], ◌∷◌, refl, arith, length, List, replicate,
}
use cpp_systems_playground.Tests.Inputs.{number_key}
use cpp_systems_playground.Chaining.{Store, clear_nodes}
use cpp_systems_playground.Chaining.Clear.{cleared, IsCleared, clear_nodes-IsCleared}
use cpp_systems_playground.Prelude.Maps.{nothing}
use cpp_systems_playground.Chaining.Histories.{Call, Holds, run, ideal_run, run-Holds}
use cpp_systems_playground.Pool.FreeList.{blocks}
use cpp_systems_playground.Pool.History.{Inv}

abbrev empty_store : Store ℕ ℕ
empty_store = record {
  buckets = replicate 1 [];
  pool = record { block_size = 24; capacity = 1; next = λ i. none; free_list = some 0 };
  size = 0;
}

one_block : Inv empty_store.pool [] (0 ∷ [])
unfolding blocks
one_block = record {
  sized = omega arith;
  chain = (refl, refl);
  shared = λ a. omega arith;
  total = omega arith;
}

empty_store-IsCleared : IsCleared empty_store
empty_store-IsCleared = cleared empty_store 1 (0 ∷ []) (omega arith) refl one_block refl

clear_nodes-IsCleared_example :
    IsCleared (clear_nodes empty_store)
    × (length (clear_nodes empty_store).buckets ≡ length empty_store.buckets)
    × ((clear_nodes empty_store).pool.capacity ≡ empty_store.pool.capacity)
clear_nodes-IsCleared_example = clear_nodes-IsCleared empty_store-IsCleared.valid

empty_Holds : Holds 1 empty_store nothing
empty_Holds = record {
  valid = empty_store-IsCleared.valid;
  capacity = refl;
  reads = empty_store-IsCleared.reads;
  number = refl;
}

abbrev calls : List (Call ℕ ℕ)
calls = Call.put 5 50 ∷ Call.put 6 60 ∷ Call.get 5 ∷ Call.erase 5 ∷ Call.put 6 60 ∷ Call.size ∷ []

run-Holds_example :
    ((run empty_store calls).0 ≡ (ideal_run 1 nothing calls).0)
    × Holds 1 (run empty_store calls).1 (ideal_run 1 nothing calls).1
run-Holds_example = run-Holds calls empty_Holds
