-- ===== src/SmartPtr/Weak.antt =====
-- smart_pointers/include/smart_pointers/shared_ptr.hpp: `WeakPtr<T>`. A weak pointer is the address
-- of its control block, or `none`.
use cpp_systems_playground.Prelude.{
  ℕ, Bool, true, ◌&&◌, Option, none, some, Outcome, ok, ◌>>=◌, ◌==◌, if◌then◌else◌,
}
use cpp_systems_playground.SmartPtr.Shared.{
  Heap, SharedPtr, increment, decrement, load, store, free_block, from_block, null,
}

unfoldable pub inc_weak : Heap → Option ℕ → Outcome Heap
unfolding load store
inc_weak h none = ok h
inc_weak h (some c) = do
  b ← load h c
  ok (store h c (record b { weak_count = increment b.weak_count }))

-- `WeakPtr(const SharedPtr&)` and the copy constructor, from the control block that they share.
unfoldable pub copy : Heap → Option ℕ → Outcome (Heap × Option ℕ)
unfolding inc_weak
copy h ctrl = do h' ← inc_weak h ctrl; ok (h', ctrl)

-- `release`; the pointer itself is null afterwards.
unfoldable pub release : Heap → Option ℕ → Outcome (Heap × Option ℕ)
unfolding free_block load store
release h none = ok (h, none)
release h (some c) = do
  b ← load h c
  let less = record b { weak_count = decrement b.weak_count }
  ok (
    if decrement b.weak_count == 0 && b.strong_count == 0 then free_block h c else store h c less,
    none,
  )

-- The destructor, which returns the heap, and `reset()`.
unfoldable pub destroy : Heap → Option ℕ → Outcome Heap
unfolding release
destroy h this = do (h', _) ← release h this; ok h'

unfoldable pub reset : Heap → Option ℕ → Outcome (Heap × Option ℕ)
unfolding release
reset h this = release h this

-- The move constructor: the new pointer and what is left of `other`.
unfoldable pub move : Option ℕ → Option ℕ × Option ℕ
move other = (other, none)

-- Copy assignment from another object.
unfoldable pub copy_assign : Heap → Option ℕ → Option ℕ → Outcome (Heap × Option ℕ)
copy_assign h this other = do (h', _) ← release h this; h'' ← inc_weak h' other; ok (h'', other)

-- Move assignment from another object: `this` and `other` afterwards.
unfoldable pub move_assign : Heap → Option ℕ → Option ℕ → Outcome (Heap × Option ℕ × Option ℕ)
move_assign h this other = do (h', _) ← release h this; ok (h', other, none)

unfoldable pub expired : Heap → Option ℕ → Outcome Bool
unfolding load
expired h none = ok true
expired h (some c) = do b ← load h c; ok (b.strong_count == 0)

unfoldable pub lock : Heap → Option ℕ → Outcome (Heap × SharedPtr)
unfolding expired from_block null
lock h none = ok (h, null)
lock h (some c) = do gone ← expired h (some c); if gone then ok (h, null) else from_block h c
