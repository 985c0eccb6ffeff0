-- ===== src/Demos/SmartPointers/Runs.antt =====
-- What the demonstration of the smart pointers prints and leaves.
use cpp_systems_playground.Prelude.{ℕ, ◌≡◌, refl, true, false, none, some, ok, [], ◌∷◌}
use cpp_systems_playground.SmartPtr.Unique
use cpp_systems_playground.SmartPtr.Shared
use cpp_systems_playground.SmartPtr.Shared.{Heap}
use cpp_systems_playground.SmartPtr.Weak
use cpp_systems_playground.Demos.SmartPointers.{construct, demo_unique_ptr, demo_shared_ptr}

-- Whatever the object is, the move empties the first pointer, and the object is deleted once.
demo_unique_ptr_report :
    (foo : ℕ)
    → demo_unique_ptr foo
      ≡ record { held = true; held_after_move = false; pointee = some foo; deleted = foo ∷ [] }
unfolding demo_unique_ptr Unique.make_unique Unique.from_raw Unique.to_bool Unique.move Unique.get
    Unique.reset Unique.destroy Unique.differ Unique.deletion
demo_unique_ptr_report foo = refl

abbrev empty_heap : Heap
empty_heap = record { blocks = λ c. none; alive = λ o. false; next = 0 }

-- From an empty heap with two objects, the counts are 1, 2, 2, 1 and 1, the locked pointer points to
-- the first object, and the weak pointer to the second one has expired.
demo_shared_ptr_report :
    (h : Heap) × (demo_shared_ptr empty_heap 100 200
      ≡ ok (record { counts = 1 ∷ 2 ∷ 2 ∷ 1 ∷ 1 ∷ []; locked = some 100; expired = true }, h))
    × (h.alive 100 ≡ false)
    × (h.alive 200 ≡ false)
    × (h.blocks 0 ≡ none)
    × (h.blocks 1 ≡ none)
unfolding demo_shared_ptr construct Shared.make_shared Shared.from_raw Shared.use_count Shared.load
    Shared.store Shared.copy Shared.inc_strong Shared.release Shared.drop_last Shared.free_block
    Shared.delete_object Shared.destroy Shared.reset Shared.null Shared.get Shared.from_block
    Weak.copy Weak.inc_weak Weak.lock Weak.expired Weak.release Weak.destroy Weak.move_assign
demo_shared_ptr_report = (_, refl, refl, refl, refl, refl)
