-- ===== src/Demos/ObjectPool.antt =====
-- memory_pool/src/object_pool_demo.cpp: `demo_basic_usage` and `demo_exhaustion`, with the packets as
-- arguments. A function returns what it prints.
pub mod Runs
use cpp_systems_playground.Prelude.{
  ℕ, Bool, true, false, none, some, Outcome, ok, err, Fault, ◌>>=◌, List, [], ◌∷◌,
}
use cpp_systems_playground.Pool.ObjectPool
use cpp_systems_playground.Pool.ObjectPool.{Pool, Allocation}

-- `Packet`; its payload is opaque.
pub record Packet (P : Type 0) : Type 0 where
  pub id : ℕ
  pub payload : P

-- The numbers of free slots that `demo_basic_usage` prints, and the packets that it reads.
pub record Usage (P : Type 0) : Type 0 where
  pub free : List ℕ
  pub seen : List (Packet P)

-- Whether the third allocation of `demo_exhaustion` threw `bad_alloc`, after how many free slots.
pub record Exhaustion : Type 0 where
  pub free_slots : ℕ
  pub caught : Bool

module _ {P : Type 0} where
  -- `make_unique` where nothing catches what it throws: the slot that the pointer owns.
  unfoldable pub owned : Pool (Packet P) → Packet P → Outcome (ℕ × Pool (Packet P))
  unfolding ObjectPool.make_unique
  owned pool packet =
      let (made, pool') = ObjectPool.make_unique pool (some packet) in
      elim made [
        | Allocation.constructed slot ↦ ok (slot, pool')
        | Allocation.rethrown ↦ err Fault.undefined
        | Allocation.bad_alloc ↦ err Fault.bad_alloc
      ]

  -- The object that a pointer points to.
  unfoldable pub pointee : Pool (Packet P) → ℕ → Outcome (Packet P)
  pointee pool slot = elim (pool.objects slot) [
    | none ↦ err Fault.undefined
    | some packet ↦ ok packet
  ]

  unfoldable pub demo_basic_usage :
      Packet P → Packet P → Packet P → Packet P → Outcome (Usage P × Pool (Packet P))
  unfolding ObjectPool.new ObjectPool.free_slots ObjectPool.deallocate owned pointee
  demo_basic_usage packet1 packet2 packet3 packet4 = do
    let pool0 = ObjectPool.new 3
    (p1, pool1) ← owned pool0 packet1
    (p2, pool2) ← owned pool1 packet2
    seen1 ← pointee pool2 p1
    seen2 ← pointee pool2 p2
    (p3, pool3) ← owned pool2 packet3
    seen3 ← pointee pool3 p3
    pool4 ← ObjectPool.deallocate pool3 (some p3)
    pool5 ← ObjectPool.deallocate pool4 (some p2)
    pool6 ← ObjectPool.deallocate pool5 (some p1)
    (p4, pool7) ← owned pool6 packet4
    seen4 ← pointee pool7 p4
    pool8 ← ObjectPool.deallocate pool7 (some p4)
    ok (
      record {
        free =
            ObjectPool.free_slots pool0
            ∷ ObjectPool.free_slots pool2
            ∷ ObjectPool.free_slots pool3
            ∷ ObjectPool.free_slots pool6
            ∷ ObjectPool.free_slots pool7
            ∷ [];
        seen = seen1 ∷ seen2 ∷ seen3 ∷ seen4 ∷ [];
      },
      pool8,
    )

  unfoldable pub demo_exhaustion :
      Packet P → Packet P → Packet P → Outcome (Exhaustion × Pool (Packet P))
  unfolding ObjectPool.new ObjectPool.free_slots ObjectPool.make_unique ObjectPool.deallocate owned
  demo_exhaustion packet1 packet2 packet3 = do
    (p1, pool1) ← owned (ObjectPool.new 2) packet1
    (p2, pool2) ← owned pool1 packet2
    let (made, pool3) = ObjectPool.make_unique pool2 (some packet3)
    pool4 ← elim made [
      | Allocation.constructed slot ↦ ObjectPool.deallocate pool3 (some slot)
      | Allocation.rethrown ↦ ok pool3
      | Allocation.bad_alloc ↦ ok pool3
    ]
    pool5 ← ObjectPool.deallocate pool4 (some p2)
    pool6 ← ObjectPool.deallocate pool5 (some p1)
    ok (
      record {
        free_slots = ObjectPool.free_slots pool2;
        caught = elim made [
          | Allocation.constructed slot ↦ false
          | Allocation.rethrown ↦ false
          | Allocation.bad_alloc ↦ true
        ];
      },
      pool6,
    )
