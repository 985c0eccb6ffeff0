-- ===== src/Linear/Full.antt =====
-- When the probe of `KVStoreOptimized` goes through every slot.
use native.Mathlib.Nat.{mod-lt}
use cpp_systems_playground.Prelude.{
  ℕ, zero, suc, ◌+◌, ◌%◌, ◌≤◌, ◌<◌, ◌≡◌, refl, sym, ap, subst, true, arith, update, if◌then◌else◌,
  some,
}
use cpp_systems_playground.Prelude.Modular.{offset_to}
use cpp_systems_playground.Prelude.Totals.{total, total-update, total-le, total-eq-length}
use native.Mathlib.Decide.{ℕ_discrete}
use cpp_systems_playground.Linear.Text.{View, hash}
use cpp_systems_playground.Linear.{Store, Entry, Probe, slot_at, probe}
use cpp_systems_playground.Linear.Probing.{stop, probe-Reached, probe-vacant, probe-hit}
use cpp_systems_playground.Linear.Reads.{probe_for}

abbrev pub weight : Entry → ℕ
weight e = if e.occupied then 1 else 0

-- The number of occupied slots.
abbrev pub filled : Store → ℕ
filled s = total weight s.entries s.cap

filled-le : (s : Store) → filled s ≤ s.cap
filled-le s = total-le weight s.entries s.cap (λ e. ground arith)

probe-exhausted :
    (s : Store) (h : ℕ) (key : View) (n i j : ℕ)
    → probe s h key n i ≡ Probe.exhausted
    → i ≤ j
    → j < i + n
    → (s.entries (slot_at s h j)).occupied ≡ true
unfolding probe
probe-exhausted s h key zero i j e a b = absurd (omega arith)
probe-exhausted s h key (suc n) i j e a b = elim (ℕ_discrete i j) [
  | yes here ↦ subst (λ k. (s.entries (slot_at s h k)).occupied ≡ true) here (ground arith)
  | no later ↦ probe-exhausted s h key n (i + 1) j (ground arith) (omega arith) (omega arith)
]

-- A probe that finds neither a match nor a gap has seen every slot.
pub filled-exhausted :
    (s : Store) (key : View) → 0 < s.cap → probe_for s key ≡ Probe.exhausted → filled s ≡ s.cap
unfolding slot_at
filled-exhausted s key pos e = total-eq-length weight s.entries s.cap (λ x low.
    let (k, few, at) = offset_to s.cap (hash key % s.cap) x (mod-lt (hash key) pos) low in
    let there = probe-exhausted s (hash key) key s.cap 0 k e (omega arith) (omega (arith, few)) in
    ground (arith, at, there))

stop-lt : (s : Store) (key : View) (x : ℕ) → 0 < s.cap → stop (probe_for s key) ≡ some x → x < s.cap
unfolding slot_at
stop-lt s key x pos e =
    let r = probe-Reached s (hash key) key s.cap 0 x e in
    subst (λ y. y < s.cap) (sym r.at) (mod-lt (hash key % s.cap + r.steps) pos)

-- What a written entry adds.
pub filled-vacant :
    (s : Store) (key : View) (x size : ℕ) (e : Entry)
    → 0 < s.cap
    → probe_for s key ≡ Probe.vacant x
    → e.occupied ≡ true
    → filled (record s { size = size; entries = update s.entries x e }) ≡ filled s + 1
filled-vacant s key x size e pos p o =
    let low = stop-lt s key x pos (ap stop p) in
    let free = probe-vacant s (hash key) key s.cap 0 x p in
    ground (arith, total-update weight s.entries x s.cap e, low, free, o)

pub filled-hit :
    (s : Store) (key : View) (x size : ℕ) (e : Entry)
    → 0 < s.cap
    → probe_for s key ≡ Probe.hit x
    → e.occupied ≡ true
    → filled (record s { size = size; entries = update s.entries x e }) ≡ filled s
filled-hit s key x size e pos p o =
    let low = stop-lt s key x pos (ap stop p) in
    let full = (probe-hit s (hash key) key s.cap 0 x p).0 in
    ground (arith, total-update weight s.entries x s.cap e, low, full, o)

pub filled-lt :
    (s : Store) (key : View) (x : ℕ)
    → 0 < s.cap
    → probe_for s key ≡ Probe.vacant x
    → filled s < s.cap
filled-lt s key x pos p =
    let e : Entry = record (s.entries x) { occupied = true } in
    omega (
      arith,
      filled-vacant s key x s.size e pos p refl,
      filled-le (record s { entries = update s.entries x e }),
    )
