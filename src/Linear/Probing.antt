-- ===== src/Linear/Probing.antt =====
-- The probe loop of `KVStoreOptimized` before and after a write to the slot where it stops.
use cpp_systems_playground.Prelude.{
  ℕ, zero, suc, ◌+◌, ◌≤◌, ◌<◌, ◌≡◌, sym, true, false, Option, none, some, arith, update,
}
use native.Mathlib.Decide.{ℕ_discrete}
use cpp_systems_playground.Linear.Text.{View}
use cpp_systems_playground.Linear.{Store, Entry, Probe, slot_at, probe, matches}

-- The slot where a probe stops.
abbrev pub stop : Probe → Option ℕ
stop (Probe.vacant x) = some x
stop (Probe.hit x) = some x
stop Probe.exhausted = none

module _ (s : Store) (x size : ℕ) (e : Entry) where
  abbrev pub written : Store
  written = record s { size = size; entries = update s.entries x e }

  -- A matching entry in that slot is found there.
  pub probe-written_hit :
      (h : ℕ) (key : View) (n i : ℕ)
      → stop (probe s h key n i) ≡ some x
      → e.occupied ≡ true
      → matches e h key ≡ true
      → probe written h key n i ≡ Probe.hit x
  unfolding probe
  probe-written_hit h key zero i p o m = cc
  probe-written_hit h key (suc n) i p o m = ground (arith, probe-written_hit h key n (i + 1))

  -- An entry in that slot that is not occupied ends the probe.
  pub probe-written_vacant :
      (h : ℕ) (key : View) (n i : ℕ)
      → stop (probe s h key n i) ≡ some x
      → e.occupied ≡ false
      → probe written h key n i ≡ Probe.vacant x
  unfolding probe
  probe-written_vacant h key zero i p o = cc
  probe-written_vacant h key (suc n) i p o = ground (arith, probe-written_vacant h key n (i + 1))

-- Where a probe stops at a slot, it has passed only occupied ones.
pub record Reached (s : Store) (h i x : ℕ) (rounds : ℕ) : Type 0 where
  pub steps : ℕ
  pub within : steps < i + rounds
  pub after : i ≤ steps
  pub at : x ≡ slot_at s h steps
  pub passed : (j : ℕ) → i ≤ j → j < steps → (s.entries (slot_at s h j)).occupied ≡ true

pub probe-Reached :
    (s : Store) (h : ℕ) (key : View) (n i x : ℕ)
    → stop (probe s h key n i) ≡ some x
    → Reached s h i x n
unfolding probe
probe-Reached s h key zero i x p = cc
probe-Reached s h key (suc n) i x p = elim (ℕ_discrete (slot_at s h i) x) [
  | yes here ↦ record {
    steps = i;
    within = omega arith;
    after = omega arith;
    at = sym here;
    passed = λ j a b. absurd (omega arith);
  }
  | no further ↦
      let r = probe-Reached s h key n (i + 1) x (ground arith) in
      let taken : (s.entries (slot_at s h i)).occupied ≡ true = ground arith in
      record {
        steps = r.steps;
        within = omega (arith, r.within);
        after = omega (arith, r.after);
        at = r.at;
        passed = λ j a b. elim (ℕ_discrete j i) [
          | yes first ↦ rw first taken
          | no later ↦ r.passed j (omega arith) b
        ];
      }
]

pub probe-vacant :
    (s : Store) (h : ℕ) (key : View) (n i x : ℕ)
    → probe s h key n i ≡ Probe.vacant x
    → (s.entries x).occupied ≡ false
unfolding probe
probe-vacant s h key zero i x p = cc
probe-vacant s h key (suc n) i x p = ground (arith, probe-vacant s h key n (i + 1) x)

pub probe-hit :
    (s : Store) (h : ℕ) (key : View) (n i x : ℕ)
    → probe s h key n i ≡ Probe.hit x
    → ((s.entries x).occupied ≡ true) × (matches (s.entries x) h key ≡ true)
unfolding probe
probe-hit s h key zero i x p = cc
probe-hit s h key (suc n) i x p = ground (arith, probe-hit s h key n (i + 1) x)
