-- ===== src/Pool/FixedBlock.antt =====
-- memory_pool/include/memory_pool/fixed_block_memory_pool.hpp: `FixedBlockMemoryPool`, whose free
-- list runs through the free blocks themselves.
use cpp_systems_playground.Prelude.{
  ℕ, zero, suc, ◌+◌, ◌-◌, ◌*◌, ◌/◌, ◌%◌, ◌^◌, leb, ◌>>=◌, Option, none, some, Outcome, ok, err,
  Fault, ltb, ◌==◌, if◌then◌else◌, update,
}

-- `alignof(void*)`
abbrev pub align : ℕ
align = 8

-- `(sz + align - 1) & ~(align - 1)`: the sum wraps, and the low three bits are cleared.
unfoldable pub align_block_size : ℕ → ℕ
align_block_size sz = (sz + align - 1) % 2 ^ 64 / align * align

-- Addresses are byte offsets into `buffer_`, and `none` is the null pointer. `next p` is the
-- pointer that the first word of the block at `p` holds; while the client uses the block it is
-- whatever the client stored.
pub record Pool : Type 0 where
  pub block_size : ℕ
  pub capacity : ℕ
  pub next : ℕ → Option ℕ
  pub free_list : Option ℕ

-- One round of the constructor's loop, with the bytes of the buffer: a pointer written outside of it is
-- undefined. The offsets are computed in a `size_t`.
unfoldable pub link : ℕ → ℕ → ℕ → (ℕ → Option ℕ) → ℕ → Outcome (ℕ → Option ℕ)
link total_bytes block_size capacity next i =
    let offset = i * block_size % 2 ^ 64 in
    if leb (offset + align) total_bytes
    then ok (
        update next offset
          (if ltb (i + 1) capacity then some ((i + 1) * block_size % 2 ^ 64) else none))
    else err Fault.undefined

-- The rounds that are left, and the counter.
unfoldable pub link_from : ℕ → ℕ → ℕ → (ℕ → Option ℕ) → ℕ → ℕ → Outcome (ℕ → Option ℕ)
unfolding link
link_from total_bytes block_size capacity next zero i = ok next
link_from total_bytes block_size capacity next (suc rounds) i = do
  next' ← link total_bytes block_size capacity next i
  link_from total_bytes block_size capacity next' rounds (i + 1)

-- The constructor; `raw` is what the fresh buffer happens to hold. The number of its bytes wraps.
unfoldable pub new : (ℕ → Option ℕ) → ℕ → ℕ → Outcome Pool
unfolding align_block_size link_from
new raw block_size capacity =
    let size = align_block_size block_size in
    if capacity == 0 then err Fault.invalid_argument else do
      next ← link_from (size * capacity % 2 ^ 64) size capacity raw capacity 0
      ok (record { block_size = size; capacity = capacity; next = next; free_list = some 0 })

unfoldable pub allocate : Pool → Outcome (ℕ × Pool)
allocate p = elim p.free_list [
  | none ↦ err Fault.bad_alloc
  | some block ↦ ok (block, record p { free_list = p.next block })
]

unfoldable pub deallocate : Pool → Option ℕ → Pool
deallocate p none = p
deallocate p (some block) = record p {
  next = update p.next block p.free_list;
  free_list = some block;
}

-- The client writes the first word of a block that it was given.
unfoldable pub client_write : Pool → ℕ → Option ℕ → Pool
client_write p block word = record p { next = update p.next block word }
