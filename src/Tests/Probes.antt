-- ===== src/Tests/Probes.antt =====
-- `KVStoreOptimized` with four slots and two keys that share their first slot.
use cpp_systems_playground.Prelude.{
  ◌≡◌, ◌≢◌, refl, true, false, none, some, [], ◌∷◌, ◌++◌, arith, ok, update,
}
use cpp_systems_playground.Linear.Text.{
  View, c_string, hash, hash_from, sign_extend, IsTerminated, copy, drop, same, strcmp_equal,
}
use cpp_systems_playground.Linear.{
  Store, Probe, slot_at, probe, find_slot, matches, zeroed, new, insert, get, erase, write,
  write_entry,
}
use cpp_systems_playground.Linear.Reads.{probe_for, get-insert_self, get-erase_lost}
use cpp_systems_playground.Linear.Compact.{new-IsCompact}
use cpp_systems_playground.Prelude.{List}
use cpp_systems_playground.Prelude.Maps.{nothing}
use cpp_systems_playground.Linear.Matches.{Matches, new-Matches}
use cpp_systems_playground.Linear.Histories.{Call, AllAdmitted, run, ideal_run, run-Matches}
use cpp_systems_playground.Linear.Unterminated.{get-insert_unterminated}

abbrev first_key : View
first_key = record { bytes = 65 ∷ []; behind = 0 ∷ [] }

abbrev second_key : View
second_key = record { bytes = 69 ∷ []; behind = 0 ∷ [] }

-- The first byte of the text "AB".
abbrev open_key : View
open_key = record { bytes = 65 ∷ []; behind = 66 ∷ 0 ∷ [] }

abbrev word : View
word = record { bytes = 120 ∷ 121 ∷ []; behind = 0 ∷ [] }

abbrev fresh : Store
fresh = new 4

abbrev one_key : Store
one_key = record fresh { size = 1; entries = (write fresh 0 first_key word).entries }

abbrev two_keys : Store
two_keys = record one_key { size = 2; entries = (write one_key 1 second_key word).entries }

abbrev first_gone : Store
first_gone = record two_keys {
  size = 1;
  entries = update two_keys.entries 0 (record (two_keys.entries 0) { occupied = false });
}

abbrev open_stored : Store
open_stored = record fresh { size = 1; entries = (write fresh 0 open_key word).entries }

first_key-IsTerminated : IsTerminated first_key
unfolding c_string
first_key-IsTerminated = record { ends = refl }

word-IsTerminated : IsTerminated word
unfolding c_string
word-IsTerminated = record { ends = refl }

first_inserted : insert fresh first_key word ≡ ok (true, one_key)
unfolding insert find_slot probe slot_at hash hash_from sign_extend new zeroed
first_inserted = refl

second_inserted : insert one_key second_key word ≡ ok (true, two_keys)
unfolding insert find_slot probe slot_at hash hash_from sign_extend new zeroed write write_entry
    matches
second_inserted = refl

first_erased : erase two_keys first_key ≡ ok (true, first_gone)
unfolding erase find_slot probe slot_at hash hash_from sign_extend new zeroed write write_entry
    matches strcmp_equal same c_string copy drop
first_erased = refl

open_inserted : insert fresh open_key word ≡ ok (true, open_stored)
unfolding insert find_slot probe slot_at hash hash_from sign_extend new zeroed
open_inserted = refl

differ : c_string (second_key.bytes ++ second_key.behind) ≢ first_key.bytes
unfolding c_string
differ = λ e. absurd (ground arith)

runs_on : c_string (open_key.bytes ++ open_key.behind) ≢ open_key.bytes
unfolding c_string
runs_on = λ e. cc

plain : c_string open_key.bytes ≡ open_key.bytes
unfolding c_string
plain = refl

absent : get fresh open_key ≡ ok none
unfolding get find_slot probe slot_at hash hash_from sign_extend new zeroed
absent = refl

home : probe_for two_keys first_key ≡ Probe.hit (slot_at two_keys (hash second_key) 0)
unfolding probe slot_at hash hash_from sign_extend new zeroed write write_entry matches strcmp_equal
    same c_string copy drop
home = refl

-- The second key is there before the first one is erased.
second_found : get two_keys second_key ≡ ok (some (120 ∷ 121 ∷ []))
unfolding get find_slot probe slot_at hash hash_from sign_extend new zeroed write write_entry
    matches strcmp_equal same c_string copy drop
second_found = refl

get-insert_self_example : get one_key first_key ≡ ok (some word.bytes)
get-insert_self_example =
    get-insert_self fresh first_key word first_key-IsTerminated word-IsTerminated first_inserted

get-erase_lost_example : get first_gone second_key ≡ ok none
get-erase_lost_example = get-erase_lost two_keys first_key second_key first_erased home

get-insert_unterminated_example : get open_stored open_key ≡ ok none
get-insert_unterminated_example =
    get-insert_unterminated fresh open_key word (new-IsCompact 4) plain runs_on absent open_inserted

fresh-Matches : Matches 4 fresh nothing
fresh-Matches = new-Matches 4 (omega arith)

abbrev calls : List Call
calls =
    Call.insert (65 ∷ []) (120 ∷ [])
    ∷ Call.insert (69 ∷ []) (121 ∷ [])
    ∷ Call.insert (65 ∷ []) (122 ∷ [])
    ∷ Call.get (65 ∷ [])
    ∷ Call.size
    ∷ []

calls-AllAdmitted : AllAdmitted calls
unfolding c_string
calls-AllAdmitted = ((refl, refl), ((refl, refl), ((refl, refl), (refl, (tt, tt)))))

run-Matches_example :
    (s' : Store) × (run fresh calls ≡ ok ((ideal_run 4 nothing calls).0, s'))
    × Matches 4 s' (ideal_run 4 nothing calls).1
run-Matches_example = run-Matches calls fresh-Matches calls-AllAdmitted
