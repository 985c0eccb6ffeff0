-- ===== src/Tests/Blocks.antt =====
-- Pools of two blocks.
use cpp_systems_playground.Prelude.{
  ℕ, ◌*◌, ◌%◌, ◌^◌, ◌≡◌, ◌<◌, ◌⊎◌, refl, Option, none, some, [], ◌∷◌, arith, length, ok, err, Fault,
  occurs,
}
use cpp_systems_playground.Pool.FixedBlock.{
  Pool, align_block_size, link, link_from, new, allocate, deallocate,
}
use cpp_systems_playground.Pool.FreeList.{blocks, linked_from}
use cpp_systems_playground.Pool.History.{Reach, allocate-cases, allocate-deallocate}
use cpp_systems_playground.Pool.ObjectPool
use cpp_systems_playground.Pool.Objects.{IsValid, new-IsValid, Allocates, allocate-Allocates}

abbrev raw : ℕ → Option ℕ
raw = λ i. none

abbrev full_list : Pool
full_list = record {
  block_size = 8;
  capacity = 2;
  next = linked_from 8 2 raw 2 0;
  free_list = some 0;
}

abbrev one_taken : Pool
one_taken = record full_list { free_list = full_list.next 0 }

constructed : new raw 5 2 ≡ ok full_list
unfolding new link link_from linked_from align_block_size
constructed = refl

taken : allocate full_list ≡ ok (0, one_taken)
unfolding allocate
taken = refl

one_held : Reach raw 5 2 one_taken (0 ∷ [])
one_held = Reach.take (Reach.start constructed) taken

allocate-cases_example :
    ((length {A = ℕ} (0 ∷ []) ≡ 2) × (allocate one_taken ≡ err Fault.bad_alloc))
    ⊎ ((length {A = ℕ} (0 ∷ []) < 2)
        × ((b : ℕ) × (p' : Pool) × (allocate one_taken ≡ ok (b, p'))
            × (occurs b (0 ∷ []) ≡ 0)
            × (occurs b (blocks 8 0 2) ≡ 1)))
allocate-cases_example = allocate-cases (omega arith) (omega arith) one_held

allocate-deallocate_example :
    (p' : Pool) × (allocate (deallocate one_taken (some 0)) ≡ ok (0, p'))
    × (p'.free_list ≡ one_taken.free_list)
allocate-deallocate_example = allocate-deallocate one_taken 0

-- Sixteen bytes for each of 2^60 blocks are 2^64 bytes, which wrap to an empty buffer: the first
-- pointer is written outside of it.
overflow : link (align_block_size 16 * 2 ^ 60 % 2 ^ 64) 16 (2 ^ 60) raw 0 ≡ err Fault.undefined
unfolding link align_block_size
overflow = refl

abbrev two_slots : ObjectPool.Pool ℕ
two_slots = ObjectPool.new 2

two_slots-IsValid : IsValid 2 two_slots
two_slots-IsValid = (new-IsValid 2).0

allocate-Allocates_example : Allocates 2 two_slots (some 7) (ObjectPool.allocate two_slots (some 7))
allocate-Allocates_example = allocate-Allocates (some 7) two_slots-IsValid
