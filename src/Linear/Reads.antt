-- ===== src/Linear/Reads.antt =====
-- `insert`, `get` and `erase` of `KVStoreOptimized` at the key that was written or erased.
use cpp_systems_playground.Prelude.{
  ℕ, zero, suc, ◌+◌, ◌-◌, ◌<◌, ◌≡◌, refl, sym, ap, ◌∙◌, ◌⊎◌, inl, inr, Bool, true, false, Option,
  none, some, List, ◌++◌, arith, update, update_self, ok,
}
use cpp_systems_playground.Linear.Text.{
  View, c_string, hash, IsTerminated, c_string-copy, strcmp_equal_iff, copy,
}
use cpp_systems_playground.Linear.{
  Store, Entry, Probe, slot_at, probe, matches, find_slot, insert, get, erase, write, write_entry,
}
use cpp_systems_playground.Linear.Probing.{stop, probe-written_hit, probe-written_vacant}

-- The probe that a call for a key makes, in a store with slots.
abbrev pub probe_for : Store → View → Probe
probe_for s key = probe s (hash key) key s.cap 0

pub Probe-cases :
    (p : Probe)
    → (p ≡ Probe.exhausted) ⊎ ((x : ℕ) × (p ≡ Probe.vacant x)) ⊎ ((x : ℕ) × (p ≡ Probe.hit x))
Probe-cases (Probe.vacant x) = inr (inl (x, refl))
Probe-cases (Probe.hit x) = inr (inr (x, refl))
Probe-cases Probe.exhausted = inl refl

-- The three ways in which `insert` can succeed or not.
pub insert-cases :
    (s : Store) (key value : View) {r : Bool × Store}
    → insert s key value ≡ ok r
    → (r ≡ (false, s))
      ⊎ ((x : ℕ) × (0 < s.cap)
          × (probe_for s key ≡ Probe.vacant x)
          × (r ≡ (
            true,
            record s {
              size = s.size + 1;
              entries = update s.entries x (write_entry (s.entries x) (hash key) key value);
            },
          )))
      ⊎ ((x : ℕ) × (0 < s.cap)
          × (probe_for s key ≡ Probe.hit x)
          × (r ≡ (
            true,
            record s {
              entries = update s.entries x (write_entry (s.entries x) (hash key) key value);
            },
          )))
unfolding insert find_slot write
insert-cases s key value {r} e = ground arith

matches-written :
    (e : Entry) (key value : View)
    → IsTerminated key
    → matches (write_entry e (hash key) key value) (hash key) key ≡ true
unfolding matches write_entry
matches-written e key value t = ground (
  arith,
  strcmp_equal_iff (copy key.bytes e.key) (key.bytes ++ key.behind),
  c_string-copy key e.key t,
  t.ends,
)

-- The store after an `insert` that succeeded: the slot where its probe stopped is written.
pub insert-written :
    (s : Store) (key value : View) {s' : Store}
    → insert s key value ≡ ok (true, s')
    → (x : ℕ) × (size : ℕ) × (0 < s.cap)
      × (stop (probe_for s key) ≡ some x)
      × (s' ≡ record s {
        size = size;
        entries = update s.entries x (write_entry (s.entries x) (hash key) key value);
      })
insert-written s key value {s'} e = elim (insert-cases s key value e) [
  | inl same ↦ cc
  | inr (inl (x, pos, p, r)) ↦ (x, s.size + 1, pos, rw p, ap (λ (t : Bool × Store). t.1) r)
  | inr (inr (x, pos, p, r)) ↦ (x, s.size, pos, rw p, ap (λ (t : Bool × Store). t.1) r)
]

-- What `get` answers where a probe ends.
abbrev pub answer : Store → Probe → Option (List ℕ)
answer s (Probe.vacant x) = none
answer s (Probe.hit x) = some (c_string (s.entries x).value)
answer s Probe.exhausted = none

pub get-answer : (s : Store) (q : View) → 0 < s.cap → get s q ≡ ok (answer s (probe_for s q))
unfolding get find_slot
get-answer s q pos = ground arith

-- For a terminated key and value, a key that `insert` has stored reads as the value that was stored.
pub get-insert_self :
    (s : Store) (key value : View) {s' : Store}
    → IsTerminated key
    → IsTerminated value
    → insert s key value ≡ ok (true, s')
    → get s' key ≡ ok (some value.bytes)
get-insert_self s key value {s'} tk tv e =
    let (x, size, pos, p, w) = insert-written s key value e in
    let entry = write_entry (s.entries x) (hash key) key value in
    let found =
      probe-written_hit s x size entry (hash key) key s.cap 0 p (unfold write_entry in refl)
        (matches-written (s.entries x) key value tk) in
    rw w (
      get-answer _ key pos
      ∙ rw (found, update_self s.entries x entry)
          (unfold write_entry in
            ap (λ l. ok (some l)) (c_string-copy value (s.entries x).value tv)))

-- The store after an `erase` that succeeded: the match is marked as not occupied.
pub erase-cleared :
    (s : Store) (key : View) {s' : Store}
    → erase s key ≡ ok (true, s')
    → (x : ℕ) × (0 < s.cap)
      × (probe_for s key ≡ Probe.hit x)
      × (s' ≡ record s {
        size = s.size - 1;
        entries = update s.entries x (record (s.entries x) { occupied = false });
      })
unfolding erase find_slot
erase-cleared s key {s'} e = ground arith

-- A key that reads as a value is erased.
pub erase-found :
    (s : Store) (key : View) (v : List ℕ)
    → get s key ≡ ok (some v)
    → (s' : Store) × (erase s key ≡ ok (true, s'))
unfolding erase get find_slot
erase-found s key v e = elim (Probe-cases (probe_for s key)) [
  | inl p ↦ absurd (ground (arith, p))
  | inr (inl (x, p)) ↦ absurd (ground (arith, p))
  | inr (inr (x, p)) ↦ (
    record s {
      size = s.size - 1;
      entries = update s.entries x (record (s.entries x) { occupied = false });
    },
    ground (arith, p),
  )
]

-- A key that `erase` has removed is not found.
pub get-erase_self :
    (s : Store) (key : View) {s' : Store} → erase s key ≡ ok (true, s') → get s' key ≡ ok none
get-erase_self s key {s'} e =
    let (x, pos, p, w) = erase-cleared s key e in
    let cleared = record (s.entries x) { occupied = false } in
    let lost = probe-written_vacant s x (s.size - 1) cleared (hash key) key s.cap 0 (rw p) refl in
    rw w (get-answer _ key pos ∙ rw lost)

pub probe_at_home :
    (s : Store) (h : ℕ) (q : View) (n : ℕ)
    → 0 < n
    → (s.entries (slot_at s h 0)).occupied ≡ false
    → probe s h q n 0 ≡ Probe.vacant (slot_at s h 0)
unfolding probe
probe_at_home s h q zero pos e = elim pos [ ]
probe_at_home s h q (suc n) pos e = rw e

-- An `erase` makes every other key unreadable whose hash selects the slot that it frees, also a
-- key that is stored further on.
pub get-erase_lost :
    (s : Store) (key q : View) {s' : Store}
    → erase s key ≡ ok (true, s')
    → probe_for s key ≡ Probe.hit (slot_at s (hash q) 0)
    → get s' q ≡ ok none
get-erase_lost s key q {s'} e home =
    let (x, pos, p, w) = erase-cleared s key e in
    let here : x ≡ slot_at s (hash q) 0 = ground arith in
    let cleared = record (s.entries x) { occupied = false } in
    let after : Store = record s { size = s.size - 1; entries = update s.entries x cleared } in
    let free : (after.entries (slot_at s (hash q) 0)).occupied ≡ false =
      ap (λ (y : ℕ). (after.entries y).occupied) (sym here)
      ∙ ap (λ (t : Entry). t.occupied) (update_self s.entries x cleared) in
    rw w (
      get-answer after q pos
      ∙ rw (probe_at_home after (hash q) q s.cap pos (unfold slot_at in free)))
