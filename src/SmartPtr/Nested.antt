-- ===== src/SmartPtr/Nested.antt =====
-- `release` of `SharedPtr` (smart_pointers/include/smart_pointers/shared_ptr.hpp) with what the
-- destructor of `T` does to the heap, such as to the smart pointers that the object holds.
use cpp_systems_playground.Prelude.{
  ℕ, ◌≡◌, refl, ap, ◌==◌, if◌then◌else◌, true, false, Bool-cases, Option, Option-cases, none, some,
  Outcome, ok, err, Fault, ◌>>=◌, inl, inr, arith, update, update_self, update_twice, ◌∙◌,
}
use cpp_systems_playground.SmartPtr.Shared.{
  Heap, SharedPtr, ControlBlock, null, decrement, load, store, free_block, delete_object, drop_last,
  release,
}
use cpp_systems_playground.SmartPtr.Weak

-- `delete ctrl_->ptr`: the destructor runs, on an object if there is one.
unfoldable pub dispose : (ℕ → Heap → Outcome Heap) → Heap → Option ℕ → Outcome Heap
unfolding delete_object
dispose destructor h none = ok h
dispose destructor h (some o) = do h' ← destructor o h; delete_object h' (some o)

-- `ctrl_->ptr = nullptr`, and the test of `weak_count`.
unfoldable pub settle : Heap → ℕ → Outcome Heap
unfolding load store free_block
settle h c = do
  b ← load h c
  let emptied = store h c (record b { ptr = none })
  ok (if b.weak_count == 0 then free_block emptied c else emptied)

-- The last reference: the destructor runs before the control block is written.
unfoldable pub drop_last_running : (ℕ → Heap → Outcome Heap) → Heap → ℕ → Option ℕ → Outcome Heap
unfolding dispose settle
drop_last_running destructor h c ptr = do h' ← dispose destructor h ptr; settle h' c

unfoldable pub release_running :
    (ℕ → Heap → Outcome Heap) → Heap → SharedPtr → Outcome (Heap × SharedPtr)
unfolding drop_last_running load store null
release_running destructor h this = elim this.ctrl [
  | none ↦ ok (h, this)
  | some c ↦ do
    b ← load h c
    let less = record b { strong_count = decrement b.strong_count }
    let h1 = store h c less
    h' ← if decrement b.strong_count == 0 then drop_last_running destructor h1 c b.ptr else ok h1
    ok (h', null)
]

-- A destructor that touches no smart pointer.
abbrev quiet : ℕ → Heap → Outcome Heap
quiet o h = ok h

store_store : (h : Heap) (c : ℕ) (a b : ControlBlock) → store (store h c a) c b ≡ store h c b
unfolding store
store_store h c a b =
    ap (λ (blocks : ℕ → Option ControlBlock). record h { blocks = blocks })
      (update_twice h.blocks c (some a) (some b))

free_block-store :
    (h : Heap) (c : ℕ) (a : ControlBlock) → free_block (store h c a) c ≡ free_block h c
unfolding store free_block
free_block-store h c a =
    ap (λ (blocks : ℕ → Option ControlBlock). record h { blocks = blocks })
      (update_twice h.blocks c (some a) none)

load-store : (h : Heap) (c : ℕ) (b : ControlBlock) → load (store h c b) c ≡ ok b
unfolding load store
load-store h c b = rw (load, update_self h.blocks c (some b)) refl

settle-store :
    (h : Heap) (c : ℕ) (b : ControlBlock)
    → settle (store h c b) c
      ≡ ok (if b.weak_count == 0 then free_block h c else store h c (record b { ptr = none }))
unfolding settle
settle-store h c b =
    let emptied = record b { ptr = none } in
    rw
      (
        load-store h c b,
        ◌>>=◌,
        free_block-store (store h c b) c emptied,
        free_block-store h c b,
        store_store h c b emptied,
      )
      refl

-- The control block of an object without smart pointers is written and freed as `drop_last` says.
drop_last-quiet :
    (h : Heap) (c : ℕ) (b : ControlBlock)
    → drop_last_running quiet (store h c b) c b.ptr ≡ drop_last h c b
unfolding drop_last_running drop_last dispose delete_object
drop_last-quiet h c b = elim (Option-cases b.ptr) [
  | inl absent ↦ rw (absent, ◌>>=◌) (settle-store h c b)
  | inr (o, there) ↦ elim (Bool-cases (h.alive o)) [
    | inl lives ↦
        let alive : (store h c b).alive o ≡ true = unfold store in lives in
        let g : Heap = record h { alive = update h.alive o false } in
        let same : settle (record (store h c b) { alive = update h.alive o false }) c
            ≡ settle (store g c b) c =
          unfold store in refl in
        rw (there, alive, ◌>>=◌) (unfold store in same ∙ settle-store g c b)
    | inr gone ↦
        let dead : (store h c b).alive o ≡ false = unfold store in gone in
        rw (there, dead, ◌>>=◌) refl
  ]
]

-- For objects that hold no smart pointers `release` is the one with a destructor.
release-quiet : (h : Heap) (this : SharedPtr) → release_running quiet h this ≡ release h this
unfolding release_running release
release-quiet h this = elim (Option-cases this.ctrl) [
  | inl absent ↦ rw absent refl
  | inr (c, there) ↦ elim (Option-cases (h.blocks c)) [
    | inl freed ↦ rw (there, load, freed, ◌>>=◌) refl
    | inr (b, here) ↦
        let less = record b { strong_count = decrement b.strong_count } in
        rw (there, load, here, ◌>>=◌, drop_last-quiet h c less) refl
  ]
]

-- The destructor of an object that holds a `WeakPtr` to its own control block.
abbrev watching : ℕ → ℕ → Heap → Outcome Heap
watching c o h = Weak.destroy h (some c)

-- When the last `SharedPtr` to such an object goes, and no other `WeakPtr` is there, the destructor of
-- the object frees the control block, and `release` then writes to freed memory.
self_watching-undefined :
    (h : Heap) (this : SharedPtr) (c o : ℕ)
    → this.ctrl ≡ some c
    → h.blocks c ≡ some (record { ptr = some o; strong_count = 1; weak_count = 1 })
    → h.alive o ≡ true
    → release_running (watching c) h this ≡ err Fault.undefined
unfolding release_running drop_last_running dispose settle delete_object load store free_block
    Weak.destroy Weak.release
self_watching-undefined h this c o points here lives = ground (arith, points, here, lives)
