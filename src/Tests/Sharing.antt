-- ===== src/Tests/Sharing.antt =====
-- Two `SharedPtr`s and a `WeakPtr` to one object.
use cpp_systems_playground.Prelude.{◌+◌, ◌<◌, ◌≡◌, ◌⊎◌, refl, true, none, some, ok, arith, update}
use cpp_systems_playground.Prelude.Totals.{total}
use cpp_systems_playground.SmartPtr.Shared.{Heap, SharedPtr, ControlBlock, null}
use cpp_systems_playground.SmartPtr.Shared
use cpp_systems_playground.SmartPtr.Handles.{Program, Call, start, step, new_object, set_shared}
use cpp_systems_playground.SmartPtr.Counts.{points, points_shared}
use cpp_systems_playground.SmartPtr.Histories.{Reach, Reach-step, Reach-counts}

abbrev kept : SharedPtr
kept = record { ctrl = some 0; ptr = some 7 }

abbrev made : Program
made = record {
  heap = record {
    blocks =
        update (start.heap.blocks) 0
          (some (record { ptr = some 7; strong_count = 1; weak_count = 0 }));
    alive = update start.heap.alive 7 true;
    next = start.heap.next + 1;
  };
  shared = update start.shared 0 kept;
  weak = start.weak;
}

makes : Reach 2 made
unfolding start step new_object set_shared Shared.from_raw
makes = Reach.next (Call.make 0 7) Reach.begin (omega arith, refl, refl) refl

abbrev copied : Program
copied = record made {
  heap = record (made.heap) {
    blocks =
        update made.heap.blocks 0
          (some (record { ptr = some 7; strong_count = 2; weak_count = 0 }));
  };
  shared = update made.shared 1 kept;
}

copies : Reach 2 copied
unfolding start step set_shared Shared.copy Shared.inc_strong Shared.load Shared.store
copies =
    Reach.next (Call.copy 1 0) makes (omega arith, omega arith, (λ e. absurd (omega arith)), refl)
      refl

Reach-step_example : (m : Program) × (step copied (Call.watch 0 1) ≡ ok m)
unfolding start
Reach-step_example =
    Reach-step {n = 2} (Call.watch 0 1) (omega arith) copies (omega arith, omega arith, refl)

Reach-counts_example :
    let strong = total (points_shared 0) copied.shared 2 in
    let weak = total (points 0) copied.weak 2 in
    ((copied.heap.blocks 0 ≡ none) × (strong ≡ 0) × (weak ≡ 0))
    ⊎ ((b : ControlBlock) × (copied.heap.blocks 0 ≡ some b)
        × (0 < strong + weak)
        × (b.strong_count ≡ strong)
        × (b.weak_count ≡ weak))
Reach-counts_example = Reach-counts 0 (omega arith) copies
