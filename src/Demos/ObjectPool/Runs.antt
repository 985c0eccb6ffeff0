-- ===== src/Demos/ObjectPool/Runs.antt =====
-- What the demonstration of `ObjectPool` prints.
use cpp_systems_playground.Prelude.{◌≡◌, refl, true, ok, [], ◌∷◌}
use cpp_systems_playground.Pool.ObjectPool
use cpp_systems_playground.Pool.ObjectPool.{Pool}
use cpp_systems_playground.Demos.ObjectPool.{
  Packet, owned, pointee, demo_basic_usage, demo_exhaustion,
}

module _ {P : Type 0} where
  -- Whatever the packets are, each pointer reads as its packet, the three packets of the inner scope
  -- go back to the pool with it, and the pool ends with all three slots free.
  demo_basic_usage_report :
      (packet1 packet2 packet3 packet4 : Packet P)
      → (pool : Pool (Packet P)) × (demo_basic_usage packet1 packet2 packet3 packet4
          ≡ ok (
            record {
              free = 3 ∷ 1 ∷ 0 ∷ 3 ∷ 2 ∷ [];
              seen = packet1 ∷ packet2 ∷ packet3 ∷ packet4 ∷ [];
            },
            pool,
          ))
        × (ObjectPool.free_slots pool ≡ 3)
  unfolding demo_basic_usage owned pointee ObjectPool.new ObjectPool.slots ObjectPool.free_slots
      ObjectPool.make_unique ObjectPool.allocate ObjectPool.allocate_from ObjectPool.deallocate
  demo_basic_usage_report packet1 packet2 packet3 packet4 = (_, refl, refl)

  -- Whatever the packets are, the third allocation of a pool of two throws `bad_alloc`.
  demo_exhaustion_report :
      (packet1 packet2 packet3 : Packet P)
      → (pool : Pool (Packet P)) × (demo_exhaustion packet1 packet2 packet3
          ≡ ok (record { free_slots = 0; caught = true }, pool))
        × (ObjectPool.free_slots pool ≡ 2)
  unfolding demo_exhaustion owned ObjectPool.new ObjectPool.slots ObjectPool.free_slots
      ObjectPool.make_unique ObjectPool.allocate ObjectPool.allocate_from ObjectPool.deallocate
  demo_exhaustion_report packet1 packet2 packet3 = (_, refl, refl)
