-- ===== src/Demos/SmartPointers.antt =====
-- smart_pointers/src/main.cpp: `demo_unique_ptr` and `demo_shared_ptr`, with the objects as arguments. A
-- `Foo` is named by a number; a function returns what it prints and what it leaves.
pub mod Runs
use cpp_systems_playground.Prelude.{
  ℕ, Bool, true, Option, none, some, Outcome, ok, ◌>>=◌, List, [], ◌∷◌, ◌++◌, update,
}
use cpp_systems_playground.SmartPtr.Unique
use cpp_systems_playground.SmartPtr.Shared
use cpp_systems_playground.SmartPtr.Shared.{Heap}
use cpp_systems_playground.SmartPtr.Weak

-- Whether `up` holds an object before and after the move, what `up2` points to, and what the deleter
-- got, in order, from `reset` and from the destructors.
pub record UniqueReport : Type 0 where
  pub held : Bool
  pub held_after_move : Bool
  pub pointee : Option ℕ
  pub deleted : List ℕ

unfoldable pub demo_unique_ptr : ℕ → UniqueReport
unfolding Unique.make_unique Unique.to_bool Unique.move Unique.get Unique.reset Unique.destroy
demo_unique_ptr foo =
    let up : Unique.UniquePtr {0} Unit = Unique.make_unique foo tt in
    let (up2, up') = Unique.move up in
    let (up2', deleted) = Unique.reset up2 none in
    record {
      held = Unique.to_bool up;
      held_after_move = Unique.to_bool up';
      pointee = Unique.get up2;
      deleted = deleted ++ Unique.destroy up2' ++ Unique.destroy up';
    }

-- The counts that `demo_shared_ptr` prints, the object that `locked` points to, and whether `wp2` has
-- expired.
pub record SharedReport : Type 0 where
  pub counts : List ℕ
  pub locked : Option ℕ
  pub expired : Bool

-- `new Foo(...)`
unfoldable pub construct : Heap → ℕ → Heap
construct h o = record h { alive = update h.alive o true }

unfoldable pub demo_shared_ptr : Heap → ℕ → ℕ → Outcome (SharedReport × Heap)
unfolding construct Shared.make_shared Shared.get
demo_shared_ptr h foo1 foo2 = do
  let (h1, sp1) = Shared.make_shared (construct h foo1) foo1
  count1 ← Shared.use_count h1 sp1.ctrl
  (h2, sp2) ← Shared.copy h1 sp1
  count2 ← Shared.use_count h2 sp1.ctrl
  (h3, wp) ← Weak.copy h2 sp1.ctrl
  count3 ← Shared.use_count h3 wp
  (h4, locked) ← Weak.lock h3 wp
  h5 ← Shared.destroy h4 locked
  h6 ← Weak.destroy h5 wp
  h7 ← Shared.destroy h6 sp2
  count4 ← Shared.use_count h7 sp1.ctrl
  (h8, sp1') ← Shared.reset h7 sp1
  let (h9, sp3) = Shared.make_shared (construct h8 foo2) foo2
  (h10, temporary) ← Weak.copy h9 sp3.ctrl
  (h11, wp2, moved) ← Weak.move_assign h10 none temporary
  h12 ← Weak.destroy h11 moved
  count5 ← Shared.use_count h12 wp2
  h13 ← Shared.destroy h12 sp3
  expired ← Weak.expired h13 wp2
  h14 ← Weak.destroy h13 wp2
  h15 ← Shared.destroy h14 sp1'
  ok (
    record {
      counts = count1 ∷ count2 ∷ count3 ∷ count4 ∷ count5 ∷ [];
      locked = Shared.get locked;
      expired = expired;
    },
    h15,
  )
