-- ===== src/Linear.antt =====
-- kv_store_linear/include/kv_store_linear/kvstore_linear.hpp: the open-addressing store
-- `KVStoreOptimized`.
pub mod Text
pub mod Probing
pub mod Reads
pub mod Compact
pub mod Unterminated
pub mod Full
pub mod Matches
pub mod Histories
use cpp_systems_playground.Prelude.{
  ℕ, zero, suc, ◌+◌, ◌-◌, ◌%◌, Bool, true, false, ◌&&◌, ◌||◌, not, Option, none, some, List, [],
  ◌∷◌, ◌++◌, length, replicate, Outcome, ok, err, Fault, ◌>>=◌, ltb, ◌==◌, if◌then◌else◌, update,
}
use Text.{View, c_string, strcmp_equal, copy, hash}

abbrev pub max_key : ℕ
max_key = 64

abbrev pub max_value : ℕ
max_value = 256

pub record Entry : Type 0 where
  pub hash : ℕ
  pub key : List ℕ
  pub value : List ℕ
  pub occupied : Bool

-- `entries[i]` for `i < cap`.
pub record Store : Type 0 where
  pub cap : ℕ
  pub size : ℕ
  pub entries : ℕ → Entry

-- An entry after the `memset` of the constructor.
unfoldable pub zeroed : Entry
zeroed = record {
  hash = 0;
  key = replicate (max_key + 1) 0;
  value = replicate (max_value + 1) 0;
  occupied = false;
}

unfoldable pub new : ℕ → Store
unfolding zeroed
new capacity = record { cap = capacity; size = 0; entries = λ i. zeroed }

unfoldable pub write_entry : Entry → ℕ → View → View → Entry
write_entry e h key value = record {
  hash = h;
  key = copy key.bytes e.key;
  value = copy value.bytes e.value;
  occupied = true;
}

-- `entries[slot].hash == h && strcmp(entries[slot].key, key.data()) == 0`
unfoldable pub matches : Entry → ℕ → View → Bool
matches e h key = e.hash == h && strcmp_equal e.key (key.bytes ++ key.behind)

-- Where a probe ends: at a slot that is not occupied, at a match, or after `cap` rounds.
pub data Probe : Type 0 where
  vacant : ℕ → Probe
  hit : ℕ → Probe
  exhausted : Probe

unfoldable pub slot_at : Store → ℕ → ℕ → ℕ
slot_at s h i = (h % s.cap + i) % s.cap

-- The loop that `insert`, `get` and `erase` share: the rounds left, and the counter `i`.
unfoldable pub probe : Store → ℕ → View → ℕ → ℕ → Probe
unfolding slot_at
probe s h key zero i = Probe.exhausted
probe s h key (suc rounds) i =
    let rest = probe s h key rounds (i + 1) in
    if not (s.entries (slot_at s h i)).occupied
    then Probe.vacant (slot_at s h i)
    else if matches (s.entries (slot_at s h i)) h key
    then Probe.hit (slot_at s h i)
    else rest

-- `h % cap` has no value in a store without slots.
unfoldable pub find_slot : Store → View → Outcome Probe
find_slot s key = if s.cap == 0 then err Fault.undefined else ok (probe s (hash key) key s.cap 0)

unfoldable pub write : Store → ℕ → View → View → Store
write s slot key value = record s {
  entries = update s.entries slot (write_entry (s.entries slot) (hash key) key value);
}

unfoldable pub insert : Store → View → View → Outcome (Bool × Store)
insert s key value =
    if ltb max_key (length key.bytes) || ltb max_value (length value.bytes)
    then ok (false, s)
    else do
      p ← find_slot s key
      elim p [
        | Probe.vacant slot ↦
            ok (true, record s { size = s.size + 1; entries = (write s slot key value).entries })
        | Probe.hit slot ↦ ok (true, write s slot key value)
        | Probe.exhausted ↦ ok (false, s)
      ]

-- The result is the C string in the value array.
unfoldable pub get : Store → View → Outcome (Option (List ℕ))
get s key = do
  p ← find_slot s key
  elim p [
    | Probe.vacant slot ↦ ok none
    | Probe.hit slot ↦ ok (some (c_string (s.entries slot).value))
    | Probe.exhausted ↦ ok none
  ]

unfoldable pub erase : Store → View → Outcome (Bool × Store)
erase s key = do
  p ← find_slot s key
  elim p [
    | Probe.vacant slot ↦ ok (false, s)
    | Probe.hit slot ↦ ok (
      true,
      record s {
        size = s.size - 1;
        entries = update s.entries slot (record (s.entries slot) { occupied = false });
      },
    )
    | Probe.exhausted ↦ ok (false, s)
  ]
