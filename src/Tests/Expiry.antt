-- ===== src/Tests/Expiry.antt =====
-- `KVStore` with one entry that expires.
use cpp_systems_playground.Prelude.{ok, true, ◌≡◌, refl, arith, none, some, [], ◌∷◌}
use cpp_systems_playground.Redis.{
  Text, Entry, Store, new, deadline, entry_of, take_version, clear_store, clear_heap, is_expired,
  same, find, prefix_get, assign, heap_push, remove, put_store, put_heap, put, sweep_entry,
  sweep_from, sweep,
}
use cpp_systems_playground.Redis.Prefix.{IsBytes, KeysBytes, limited, matching, prefix_get-matching}
use cpp_systems_playground.Redis.Order.{IsSorted}
use cpp_systems_playground.Redis.Sections.{Server, written, node_of, Step, Reach}
use cpp_systems_playground.Redis.Covered.{IsCovered, Reach-IsCovered}
use cpp_systems_playground.Redis.Sweeper.{clear-put_lost}

abbrev nothing : Store
nothing = record { store = []; heap = []; version_counter = 0 }

abbrev name : Text
name = 97 ∷ 98 ∷ []

abbrev word : Text
word = 120 ∷ []

abbrev held : Store
held = record {
  store = (name, record { value = word; expires = 15; version = 1; has_expiry = true }) ∷ [];
  heap = record { expires = 15; version = 1; key = name } ∷ [];
  version_counter = 1;
}

held_put : put nothing 10 name word 5 ≡ ok held
unfolding put deadline put_store put_heap assign heap_push entry_of take_version
held_put = refl

held-IsSorted : IsSorted held.store
held-IsSorted = (tt, tt)

abbrev swept : Store
swept = record nothing { version_counter = 1 }

expired : sweep held 15 ≡ some swept
unfolding sweep sweep_from sweep_entry find remove same
expired = refl

name-IsBytes : IsBytes name
name-IsBytes = (omega arith, (omega arith, tt))

held-KeysBytes : KeysBytes held.store
held-KeysBytes = (name-IsBytes, tt)

prefix_get-matching_example : prefix_get held 12 name 3 ≡ limited 3 (matching 12 name held.store)
prefix_get-matching_example =
    prefix_get-matching held 12 name 3 name-IsBytes held-KeysBytes held-IsSorted

-- One `put`, section by section.
abbrev entry : Entry
entry = entry_of 15 word 5 1

in_time : deadline 10 5 ≡ ok 15
unfolding deadline
in_time = refl

abbrev put_done : Server
put_done = record {
  kv = record {
    store = assign name entry [];
    heap = heap_push (node_of name entry) [];
    version_counter = 1;
  };
  writing = [];
  pushing = [];
  sweeping = none;
}

puts : Reach put_done
unfolding new take_version entry_of written
puts =
    Reach.next
      (Reach.next (Reach.next Reach.start (Step.begin 10 name word 5 15 in_time) tt)
        (Step.write [] [] name entry refl) tt)
      (Step.push [] [] (node_of name entry) refl) tt

Reach-IsCovered_example : IsCovered put_done
Reach-IsCovered_example = Reach-IsCovered puts

clear-put_lost_example :
    (s1 : Store) × (put (clear_store held) 20 name word 5 ≡ ok s1)
    × (sweep (clear_heap s1) 25 ≡ none)
    × ((e : Entry) × (find name (clear_heap s1).store ≡ some e) × (is_expired e 25 ≡ true))
clear-put_lost_example =
    clear-put_lost held 20 name word 5 25 (omega arith) (omega arith) (omega arith)
