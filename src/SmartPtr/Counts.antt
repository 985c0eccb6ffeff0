-- ===== src/SmartPtr/Counts.antt =====
-- The counts of the control blocks, the objects and the pointers of a program.
use cpp_systems_playground.Prelude.{
  ℕ, ◌+◌, ◌^◌, ◌<◌, ◌≤◌, ◌≡◌, ◌⊎◌, inl, inr, refl, Option, none, some, ◌==◌, if◌then◌else◌, arith,
  Option-cases,
}
use cpp_systems_playground.Prelude.Totals.{total, total-zero, total-le, le-total}
use cpp_systems_playground.SmartPtr.Shared.{Heap, SharedPtr, ControlBlock, null}
use cpp_systems_playground.SmartPtr.Handles.{Program, start}

abbrev pub points : ℕ → Option ℕ → ℕ
points c none = 0
points c (some d) = if d == c then 1 else 0

abbrev pub points_shared : ℕ → SharedPtr → ℕ
points_shared c p = points c p.ctrl

pub points-le : (c : ℕ) (w : Option ℕ) → points c w ≤ 1
points-le c none = omega arith
points-le c (some d) = ground arith

-- Whether a control block holds an object.
abbrev pub holds : ℕ → Option ControlBlock → ℕ
holds o none = 0
holds o (some b) = points o b.ptr

-- A control block with its counts; it is there as long as something points to it.
abbrev pub Counted : Option ControlBlock → ℕ → ℕ → Type 0
Counted none strong weak = (strong ≡ 0) × (weak ≡ 0)
Counted (some b) strong weak =
    (b.strong_count ≡ strong) × (b.weak_count ≡ weak) × (0 < strong + weak)

-- It holds an object exactly while its strong count is positive.
abbrev pub Holding : Option ControlBlock → Type 0
Holding none = Unit
Holding (some b) =
    ((0 < b.strong_count) × ((o : ℕ) × (b.ptr ≡ some o))) ⊎ ((b.strong_count ≡ 0) × (b.ptr ≡ none))

-- What a pointer to a control block returns from `get`.
abbrev pub held : Heap → Option ℕ → Option ℕ
held h none = none
held h (some c) = elim (h.blocks c) [ none ↦ none | some b ↦ b.ptr ]

pub record IsValid (n : ℕ) (m : Program) : Type 0 where
  pub counts :
      (c : ℕ)
      → Counted (m.heap.blocks c) (total (points_shared c) m.shared n) (total (points c) m.weak n)
  pub holding : (c : ℕ) → Holding (m.heap.blocks c)
  pub fresh : (c : ℕ) → m.heap.next ≤ c → m.heap.blocks c ≡ none
  pub objects :
      (o : ℕ) → total (holds o) m.heap.blocks m.heap.next ≡ (if m.heap.alive o then 1 else 0)
  pub gets : (i : ℕ) → i < n → (m.shared i).ptr ≡ held m.heap (m.shared i).ctrl

pub start-IsValid : (n : ℕ) → IsValid n start
unfolding start null
start-IsValid n = record {
  counts = λ c. (total-zero (points_shared c) null n refl, total-zero (points c) none n refl);
  holding = λ c. tt;
  fresh = λ c h. refl;
  objects = λ o. unfold total in refl;
  gets = λ i h. refl;
}

module _ {n : ℕ} {m : Program} (v : IsValid n m) (few : n < 2 ^ 64) where
  -- A pointer that is not null points to a block that is there.
  pub pointed :
      (i c : ℕ)
      → i < n
      → (m.shared i).ctrl ≡ some c
      → (b : ControlBlock) × (m.heap.blocks c ≡ some b)
        × (0 < b.strong_count)
        × (b.strong_count < 2 ^ 64)
  pointed i c low e =
      let one : points_shared c (m.shared i) ≡ 1 = rw e (ground arith) in
      let most = total-le (points_shared c) m.shared n (λ p. points-le c p.ctrl) in
      elim (Option-cases (m.heap.blocks c)) [
        | inl gone ↦
            absurd (ground (arith, v.counts c, gone, le-total (points_shared c) m.shared i n low))
        | inr (b, there) ↦ (
          b,
          there,
          ground (arith, v.counts c, le-total (points_shared c) m.shared i n low),
          ground (arith, v.counts c, most),
        )
      ]
