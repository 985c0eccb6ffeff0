-- ===== src/SmartPtr/Release.antt =====
-- What `release` of a `SharedPtr` does to a program.
use native.Mathlib.Decide.{ℕ_discrete}
use cpp_systems_playground.Prelude.{
  ℕ, ◌-◌, ◌^◌, ◌<◌, ◌≡◌, ◌≢◌, inl, inr, false, true, Bool, Option, none, some, ok, update, arith,
  Option-cases, subst,
}
use cpp_systems_playground.Prelude.Totals.{total-update, le-total}
use cpp_systems_playground.SmartPtr.Shared.{
  Heap, ControlBlock, null, load, store, free_block, delete_object, drop_last, release,
}
use cpp_systems_playground.SmartPtr.Handles.{Program, set_shared}
use cpp_systems_playground.SmartPtr.Counts.{points_shared, holds, Holding, held, IsValid, pointed}

module _ {n : ℕ} {m : Program} (v : IsValid n m) (i c : ℕ) (b : ControlBlock) (low : i < n)
    (e : (m.shared i).ctrl ≡ some c) (there : m.heap.blocks c ≡ some b) where
  -- The block and the object of `c` are replaced, and the pointer is null.
  abbrev replaced : Option ControlBlock → (ℕ → Bool) → Program
  replaced x alive = record m {
    heap = record (m.heap) { blocks = update m.heap.blocks c x; alive = alive };
    shared = update m.shared i null;
  }

  one : points_shared c (m.shared i) ≡ 1
  one = rw e (ground arith)

  kept-IsValid :
      1 < b.strong_count
      → IsValid n (replaced (some (record b { strong_count = b.strong_count - 1 })) m.heap.alive)
  unfolding null
  kept-IsValid more = record {
    counts = λ d.
        ground (
          arith,
          e,
          v.counts d,
          v.counts c,
          there,
          total-update (points_shared d) m.shared i n null,
        );
    holding = λ d. ground (arith, v.holding d, v.holding c, there);
    fresh = λ d h. ground (arith, v.fresh d, there);
    objects = λ o. ground (
      arith,
      v.objects o,
      v.fresh c,
      there,
      total-update (holds o) m.heap.blocks c m.heap.next
          (some (record b { strong_count = b.strong_count - 1 })),
    );
    gets = λ k h. ground (arith, v.gets k, there);
  }

  -- No other pointer points to a block whose strong count is 1.
  alone : b.strong_count ≡ 1 → (k : ℕ) → k < n → i ≢ k → points_shared c (m.shared k) ≡ 0
  unfolding null
  alone last k h ne = ground (
    arith,
    v.counts c,
    there,
    one,
    total-update (points_shared c) m.shared i n null,
    le-total (points_shared c) (update m.shared i null) k n h,
  )

  gets-elsewhere :
      (x : Option ControlBlock) (alive : ℕ → Bool)
      → b.strong_count ≡ 1
      → (k : ℕ) → k < n
      → ((replaced x alive).shared k).ptr
        ≡ held (replaced x alive).heap ((replaced x alive).shared k).ctrl
  unfolding null
  gets-elsewhere x alive last k h = ground (arith, v.gets k, alone last k h)

  module _ (o : ℕ) (last : b.strong_count ≡ 1) (owned : b.ptr ≡ some o) where
    lives : m.heap.alive o ≡ true
    lives = ground (
      arith,
      v.objects o,
      v.fresh c,
      le-total (holds o) m.heap.blocks c m.heap.next,
      there,
      owned,
    )

    freed-IsValid : b.weak_count ≡ 0 → IsValid n (replaced none (update m.heap.alive o false))
    unfolding null
    freed-IsValid unwatched = record {
      counts = λ d. ground (
        arith,
        e,
        v.counts d,
        v.counts c,
        there,
        total-update (points_shared d) m.shared i n null,
      );
      holding = λ d. ground (arith, v.holding d);
      fresh = λ d h. ground (arith, v.fresh d);
      objects = λ p. ground (
        arith,
        v.objects p,
        v.objects o,
        v.fresh c,
        there,
        owned,
        lives,
        total-update (holds p) m.heap.blocks c m.heap.next none,
      );
      gets = gets-elsewhere none (update m.heap.alive o false) last;
    }

    emptied : ControlBlock
    emptied = record b { strong_count = 0; ptr = none }

    emptied-IsValid :
        0 < b.weak_count → IsValid n (replaced (some emptied) (update m.heap.alive o false))
    unfolding null emptied
    emptied-IsValid watched = record {
      counts = λ d. ground (
        arith,
        e,
        v.counts d,
        v.counts c,
        there,
        total-update (points_shared d) m.shared i n null,
      );
      holding = λ d. ground (arith, v.holding d);
      fresh = λ d h. ground (arith, v.fresh d, there);
      objects = λ p. ground (
        arith,
        v.objects p,
        v.objects o,
        v.fresh c,
        there,
        owned,
        lives,
        total-update (holds p) m.heap.blocks c m.heap.next (some emptied),
      );
      gets = gets-elsewhere (some emptied) (update m.heap.alive o false) last;
    }

pub object_of :
    {n : ℕ} {m : Program} (v : IsValid n m) (c : ℕ) (b : ControlBlock)
    → m.heap.blocks c ≡ some b
    → 0 < b.strong_count
    → (o : ℕ) × (b.ptr ≡ some o)
object_of v c b there pos =
    let h : Holding (some b) = subst Holding there (v.holding c) in
    elim h [ inl own ↦ own.1 | inr none_left ↦ absurd (omega arith) ]

-- `release` of any pointer of a valid program is defined, leaves the pointer null, and keeps the
-- program valid.
pub release-IsValid :
    {n : ℕ} {m : Program} (i : ℕ)
    → IsValid n m
    → n < 2 ^ 64
    → i < n
    → (h : Heap) × (release m.heap (m.shared i) ≡ ok (h, null)) × IsValid n (set_shared m h i null)
unfolding release emptied drop_last delete_object load store free_block null set_shared
release-IsValid {n} {m} i v few low = elim (Option-cases (m.shared i).ctrl) [
  | inl e ↦ (
    m.heap,
    ground (arith, e, v.gets i low),
    record {
      counts = λ d. ground (arith, e, v.counts d, total-update (points_shared d) m.shared i n null);
      holding = v.holding;
      fresh = v.fresh;
      objects = v.objects;
      gets = λ k h. ground (arith, v.gets k);
    },
  )
  | inr (c, e) ↦
      let (b, there, pos, bound) = pointed v few i c low e in
      elim (ℕ_discrete b.strong_count 1) [
        | no more ↦ (_, ground (arith, e, there), kept-IsValid v i c b low e there (omega arith))
        | yes last ↦
            let (o, owned) = object_of v c b there pos in
            elim (ℕ_discrete b.weak_count 0) [
              | yes unwatched ↦ (
                _,
                ground (arith, e, there, owned, lives v i c b low e there o last owned),
                freed-IsValid v i c b low e there o last owned unwatched,
              )
              | no watched ↦ (
                _,
                ground (arith, e, there, owned, lives v i c b low e there o last owned),
                emptied-IsValid v i c b low e there o last owned (omega arith),
              )
            ]
      ]
]
