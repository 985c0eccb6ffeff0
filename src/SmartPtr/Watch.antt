-- ===== src/SmartPtr/Watch.antt =====
-- What the operations of a `WeakPtr` do to a program.
use native.Mathlib.Decide.{ℕ_discrete}
use cpp_systems_playground.Prelude.{
  ℕ, ◌+◌, ◌-◌, ◌^◌, ◌<◌, ◌≡◌, ◌≢◌, inl, inr, refl, Option, none, some, ok, update, ◌==◌, arith,
  Option-cases, Bool-cases, ◌&&◌,
}
use cpp_systems_playground.Prelude.Totals.{total-update, total-le, le-total}
use cpp_systems_playground.SmartPtr.Shared.{Heap, ControlBlock, load, store, free_block}
use cpp_systems_playground.SmartPtr.Weak
use cpp_systems_playground.SmartPtr.Handles.{Program, set_weak}
use cpp_systems_playground.SmartPtr.Counts.{points, points-le, holds, IsValid}

module _ {n : ℕ} {m : Program} (i : ℕ) (v : IsValid n m) (few : n < 2 ^ 64) (low : i < n) where
  -- A weak pointer that is not null points to a block that is there.
  pub watched :
      (c : ℕ)
      → m.weak i ≡ some c
      → (b : ControlBlock) × (m.heap.blocks c ≡ some b)
        × (0 < b.weak_count)
        × (b.weak_count < 2 ^ 64)
  watched c e =
      let one : points c (m.weak i) ≡ 1 = rw e (ground arith) in
      let most = total-le (points c) m.weak n (points-le c) in
      let least = le-total (points c) m.weak i n low in
      elim (Option-cases (m.heap.blocks c)) [
        | inl gone ↦ absurd (ground (arith, v.counts c, gone, least))
        | inr (b, there) ↦
            (b, there, ground (arith, v.counts c, least), ground (arith, v.counts c, most))
      ]

  null_weak-IsValid : m.weak i ≡ none → IsValid n (set_weak m m.heap i none)
  unfolding set_weak
  null_weak-IsValid vacant = record {
    counts = λ d. ground (arith, vacant, v.counts d, total-update (points d) m.weak i n none);
    holding = v.holding;
    fresh = v.fresh;
    objects = v.objects;
    gets = v.gets;
  }

  -- The weak count of `c` becomes `k`, and the weak pointer `w`.
  counted_weak :
      (w : Option ℕ) (c k : ℕ) (b : ControlBlock)
      → m.heap.blocks c ≡ some b
      → k + points c (m.weak i) ≡ b.weak_count + points c w
      → ((d : ℕ) → d ≢ c → points d (m.weak i) ≡ points d w)
      → 0 < b.strong_count + k
      → IsValid n (
          set_weak m
            (record (m.heap) {
              blocks = update m.heap.blocks c (some (record b { weak_count = k }));
            })
            i
            w)
  unfolding set_weak
  counted_weak w c k b there sum other pos = record {
    counts = λ d. elim (ℕ_discrete d c) [
      | yes here ↦ ground (arith, sum, v.counts c, there, total-update (points c) m.weak i n w)
      | no off ↦ ground (arith, other d off, v.counts d, total-update (points d) m.weak i n w)
    ];
    holding = λ d. ground (arith, v.holding d, v.holding c, there);
    fresh = λ d h. ground (arith, v.fresh d, there);
    objects = λ o. ground (
      arith,
      v.objects o,
      v.fresh c,
      there,
      total-update (holds o) m.heap.blocks c m.heap.next (some (record b { weak_count = k })),
    );
    gets = λ j h. ground (arith, v.gets j, there);
  }

  freed_weak :
      (c : ℕ) (b : ControlBlock)
      → m.weak i ≡ some c
      → m.heap.blocks c ≡ some b
      → b.weak_count ≡ 1
      → b.strong_count ≡ 0
      → IsValid n (set_weak m (record (m.heap) { blocks = update m.heap.blocks c none }) i none)
  unfolding set_weak
  freed_weak c b e there last gone = record {
    counts = λ d.
        ground (arith, e, v.counts c, v.counts d, there, total-update (points d) m.weak i n none);
    holding = λ d. ground (arith, v.holding d);
    fresh = λ d h. ground (arith, v.fresh d);
    objects = λ o. ground (
      arith,
      v.objects o,
      v.holding c,
      v.fresh c,
      there,
      total-update (holds o) m.heap.blocks c m.heap.next none,
    );
    gets = λ j h. ground (arith, v.gets j, v.counts c, v.holding c, there);
  }

  -- `release` of any weak pointer of a valid program is defined, leaves it null, and keeps the
  -- program valid.
  pub release_weak-IsValid :
      (h : Heap) × (Weak.release m.heap (m.weak i) ≡ ok (h, none)) × IsValid n (set_weak m h i none)
  unfolding Weak.release load store free_block
  release_weak-IsValid = elim (Option-cases (m.weak i)) [
    | inl e ↦ (m.heap, rw (e, Weak.release) refl, null_weak-IsValid e)
    | inr (c, e) ↦
        let (b, there, pos, bound) = watched c e in
        elim (Bool-cases (b.weak_count == 1 && b.strong_count == 0)) [
          | inl last ↦
              (_, ground (arith, e, there), freed_weak c b e there (ground arith) (ground arith))
          | inr more ↦ (
            _,
            ground (arith, e, there),
            counted_weak none c (b.weak_count - 1) b there (ground (arith, e))
                (λ d off. ground (arith, e)) (ground arith),
          )
        ]
  ]

  -- A null weak pointer gets a block that is there.
  pub watch-IsValid :
      m.weak i ≡ none
      → (w : Option ℕ) → ((c : ℕ) → w ≡ some c → (b : ControlBlock) × (m.heap.blocks c ≡ some b))
      → (h : Heap) × (Weak.inc_weak m.heap w ≡ ok h) × IsValid n (set_weak m h i w)
  unfolding Weak.inc_weak load store
  watch-IsValid vacant w known = elim (Option-cases w) [
    | inl e ↦ (m.heap, rw (e, Weak.inc_weak) refl, rw e (null_weak-IsValid vacant))
    | inr (c, e) ↦
        let (b, there) = known c e in
        let most = total-le (points c) (update m.weak i (some c)) n (points-le c) in
        let room : b.weak_count + 1 < 2 ^ 64 = ground (
          arith,
          few,
          v.counts c,
          there,
          vacant,
          most,
          total-update (points c) m.weak i n (some c),
        ) in
        (
          record (m.heap) {
            blocks = update m.heap.blocks c (some (record b { weak_count = b.weak_count + 1 }));
          },
          ground (arith, e, there, room),
          rw e (
              counted_weak (some c) c (b.weak_count + 1) b there (ground (arith, vacant))
                (λ d off. ground (arith, vacant)) (ground arith)),
        )
  ]

  pub swap_weak-IsValid :
      (j : ℕ) → j < n → IsValid n (set_weak (set_weak m m.heap i (m.weak j)) m.heap j (m.weak i))
  unfolding set_weak
  swap_weak-IsValid j low' = record {
    counts = λ d. ground (
      arith,
      v.counts d,
      total-update (points d) m.weak i n (m.weak j),
      total-update (points d) (update m.weak i (m.weak j)) j n (m.weak i),
    );
    holding = v.holding;
    fresh = v.fresh;
    objects = v.objects;
    gets = v.gets;
  }
