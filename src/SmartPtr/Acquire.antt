-- ===== src/SmartPtr/Acquire.antt =====
-- What the constructors of a `SharedPtr`, and moves between two of them, do to a program.
use cpp_systems_playground.Prelude.{
  ℕ, ◌+◌, ◌^◌, ◌<◌, ◌≡◌, inl, inr, refl, ap, false, none, some, ok, update, arith, Option-cases,
}
use cpp_systems_playground.Prelude.Totals.{total-update, total-le, total-add-one}
use cpp_systems_playground.SmartPtr.Shared.{
  Heap, SharedPtr, ControlBlock, null, load, store, inc_strong, from_raw,
}
use cpp_systems_playground.SmartPtr.Handles.{Program, set_shared, new_object}
use cpp_systems_playground.SmartPtr.Counts.{points-le, points_shared, holds, held, IsValid, pointed}

-- A pointer that a program may copy: null, or to a block whose object is alive.
pub record Shares (m : Program) (p : SharedPtr) : Type 0 where
  pub gets : p.ptr ≡ held m.heap p.ctrl
  pub there :
      (c : ℕ)
      → p.ctrl ≡ some c
      → (b : ControlBlock) × (m.heap.blocks c ≡ some b) × (0 < b.strong_count)

module _ {n : ℕ} {m : Program} (i : ℕ) (v : IsValid n m) (few : n < 2 ^ 64) (low : i < n) where
  pub IsValid-Shares : Shares m (m.shared i)
  IsValid-Shares = record {
    gets = v.gets i low;
    there = λ c e. let (b, there, pos, bound) = pointed v few i c low e in (b, there, pos);
  }

  module _ (vacant : m.shared i ≡ null) where
    -- The count of a block that gets one more pointer.
    room : (c : ℕ) (b : ControlBlock) → m.heap.blocks c ≡ some b → b.strong_count + 1 < 2 ^ 64
    unfolding null
    room c b there = ground (
      arith,
      few,
      v.counts c,
      there,
      ap (points_shared c) vacant,
      total-update (points_shared c) m.shared i n (record { ctrl = some c; ptr = none }),
      total-le (points_shared c) (update m.shared i (record { ctrl = some c; ptr = none })) n
          (λ p. points-le c p.ctrl),
    )

    pub null-IsValid : IsValid n (set_shared m m.heap i null)
    unfolding set_shared null
    null-IsValid = record {
      counts = λ d. ground (
        arith,
        ap (points_shared d) vacant,
        v.counts d,
        total-update (points_shared d) m.shared i n null,
      );
      holding = v.holding;
      fresh = v.fresh;
      objects = v.objects;
      gets = λ k h. ground (arith, v.gets k);
    }

    -- The strong count of `c` goes up, and the pointer is `p`.
    counted_up :
        (p : SharedPtr) (c : ℕ) (b : ControlBlock)
        → p.ctrl ≡ some c
        → p.ptr ≡ b.ptr
        → m.heap.blocks c ≡ some b
        → 0 < b.strong_count
        → IsValid n (
            set_shared m
              (record (m.heap) {
                blocks =
                    update m.heap.blocks c (some (record b { strong_count = b.strong_count + 1 }));
              })
              i
              p)
    unfolding set_shared null
    counted_up p c b e same there pos = record {
      counts = λ d. ground (
        arith,
        e,
        ap (points_shared d) vacant,
        v.counts d,
        v.counts c,
        there,
        total-update (points_shared d) m.shared i n p,
      );
      holding = λ d. ground (arith, v.holding d, v.holding c, there);
      fresh = λ d h. ground (arith, v.fresh d, there);
      objects = λ o. ground (
        arith,
        v.objects o,
        v.fresh c,
        there,
        total-update (holds o) m.heap.blocks c m.heap.next
            (some (record b { strong_count = b.strong_count + 1 })),
      );
      gets = λ k h. ground (arith, v.gets k, there, e, same);
    }

    pub acquire-IsValid :
        (p : SharedPtr)
        → Shares m p
        → (h : Heap) × (inc_strong m.heap p.ctrl ≡ ok h) × IsValid n (set_shared m h i p)
    unfolding inc_strong load store null
    acquire-IsValid p s = elim (Option-cases p.ctrl) [
      | inl e ↦
          let is_null : p ≡ null = ground (arith, e, s.gets) in
          (m.heap, rw (e, inc_strong) refl, rw is_null null-IsValid)
      | inr (c, e) ↦
          let (b, there, pos) = s.there c e in
          let same : p.ptr ≡ b.ptr = ground (arith, s.gets, e, there) in
          (_, ground (arith, e, there, room c b there), counted_up p c b e same there pos)
    ]

    pub make-IsValid :
        (o : ℕ)
        → m.heap.alive o ≡ false
        → let (h, p) = from_raw (new_object m.heap o) (some o) in IsValid n (set_shared m h i p)
    unfolding from_raw new_object set_shared null
    make-IsValid o new =
        let c = m.heap.next in
        let b : ControlBlock = record { ptr = some o; strong_count = 1; weak_count = 0 } in
        let p : SharedPtr = record { ctrl = some c; ptr = some o } in
        record {
          counts = λ d. ground (
            arith,
            ap (points_shared d) vacant,
            v.counts d,
            v.fresh d,
            total-update (points_shared d) m.shared i n p,
          );
          holding = λ d. ground (arith, v.holding d);
          fresh = λ d h. ground (arith, v.fresh d);
          objects = λ q. ground (
            arith,
            v.objects q,
            v.objects o,
            new,
            v.fresh c,
            total-update (holds q) m.heap.blocks c c (some b),
            total-add-one (holds q) (update m.heap.blocks c (some b)) c,
          );
          gets = λ k h. elim (Option-cases (m.shared k).ctrl) [
            | inl e ↦ ground (arith, e, v.gets k)
            | inr (d, e) ↦
                let (x, there, pos, bound) = pointed v few k d h e in
                ground (arith, e, v.gets k, there, v.fresh c)
          ];
        }

  -- Two pointers exchanged, and a null one that takes over from another.
  pub swap-IsValid :
      (j : ℕ)
      → j < n
      → IsValid n (set_shared (set_shared m m.heap i (m.shared j)) m.heap j (m.shared i))
  unfolding set_shared
  swap-IsValid j low' = record {
    counts = λ d. ground (
      arith,
      v.counts d,
      total-update (points_shared d) m.shared i n (m.shared j),
      total-update (points_shared d) (update m.shared i (m.shared j)) j n (m.shared i),
    );
    holding = v.holding;
    fresh = v.fresh;
    objects = v.objects;
    gets = λ k h. ground (arith, v.gets k, v.gets i, v.gets j);
  }
