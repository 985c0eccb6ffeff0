-- ===== src/Pool/History.antt =====
-- `FixedBlockMemoryPool` in every history of allocations, deallocations and writes of the client.
use cpp_systems_playground.Prelude.{
  ℕ, ◌^◌, sym, false, ◌==◌, ◌>>=◌, ok-injective, ◌+◌, ◌*◌, ◌%◌, ◌≤◌, ◌<◌, ◌≡◌, refl, ap, ◌∙◌, ◌⊎◌,
  inl, inr, Option, none, some, List, [], ◌∷◌, ◌++◌, arith, length, length-append, ok, err, Fault,
  ltb, if◌then◌else◌, occurs, occurs-append, update_self,
}
use native.Mathlib.Decide.{ℕ_discrete}
use native.Mathlib.Nat.{le-mul_of_pos_right, mul-le-mul_right}
use cpp_systems_playground.Pool.FixedBlock.{
  Pool, align_block_size, new, allocate, deallocate, client_write,
}
use cpp_systems_playground.Pool.FreeList.{
  Chain, blocks, length-blocks, occurs-blocks-le, update-Chain, linked_from, linked_from-Chain,
  link_from-linked,
}

-- `used` is what the client holds, `free` what the list holds: together every block once.
pub record Inv (p : Pool) (used free : List ℕ) : Type 0 where
  pub sized : 0 < p.block_size
  pub chain : Chain p.next p.free_list free
  pub shared : (b : ℕ) → occurs b free + occurs b used ≡ occurs b (blocks p.block_size 0 p.capacity)
  pub total : length free + length used ≡ p.capacity

-- The histories of a pool: the client gives back only what it holds, and writes only there.
pub data Reach (raw : ℕ → Option ℕ) (block_size capacity : ℕ) : Pool → List ℕ → Type 0 where
  start : {p : Pool} → new raw block_size capacity ≡ ok p → Reach raw block_size capacity p []
  take :
      {p p' : Pool} {used : List ℕ} {b : ℕ}
      → Reach raw block_size capacity p used
      → allocate p ≡ ok (b, p')
      → Reach raw block_size capacity p' (b ∷ used)
  give :
      {p : Pool} {used : List ℕ} (xs ys : List ℕ) (b : ℕ)
      → Reach raw block_size capacity p used
      → used ≡ xs ++ (b ∷ ys)
      → Reach raw block_size capacity (deallocate p (some b)) (xs ++ ys)
  write :
      {p : Pool} {used : List ℕ} (b : ℕ) (word : Option ℕ)
      → Reach raw block_size capacity p used
      → 0 < occurs b used
      → Reach raw block_size capacity (client_write p b word) used

-- The block size has room for a pointer, and wastes less than one.
align_block_size-bounds :
    (size : ℕ)
    → 0 < size
    → size + 7 < 2 ^ 64
    → (align_block_size size < size + 8) × (8 ≤ align_block_size size)
unfolding align_block_size
align_block_size-bounds size pos few =
    let same : (size + 7) % 2 ^ 64 ≡ size + 7 = omega (arith, few) in
    (omega (arith, same), omega (arith, same, pos))

-- Where the blocks fit in a `size_t`, the constructor makes a pool of at least one block.
pub new-linked :
    (raw : ℕ → Option ℕ) (block_size capacity : ℕ)
    → 0 < block_size
    → 0 < capacity
    → (block_size + 7) * capacity < 2 ^ 64
    → (0 < align_block_size block_size)
      × (new raw block_size capacity
          ≡ ok (record {
            block_size = align_block_size block_size;
            capacity = capacity;
            next = linked_from (align_block_size block_size) capacity raw capacity 0;
            free_list = some 0;
          }))
unfolding new
new-linked raw block_size capacity pos room fits =
    let size = align_block_size block_size in
    let few = le-mul_of_pos_right {m = capacity} (block_size + 7) room in
    let (most, least) = align_block_size-bounds block_size pos (omega (arith, few, fits)) in
    let bytes = mul-le-mul_right {m = size} {n = block_size + 7} capacity (omega (arith, most)) in
    let linked =
      link_from-linked size capacity (size * capacity % 2 ^ 64) raw capacity 0 least (omega arith)
        (omega (arith, bytes, fits)) (omega (arith, bytes, fits)) in
    let some_asked : (capacity == 0) ≡ false = ground (arith, room) in
    (omega (arith, least), rw (some_asked, linked, ◌>>=◌) refl)

new-ok :
    (raw : ℕ → Option ℕ) (block_size capacity : ℕ) {p : Pool}
    → 0 < block_size
    → (block_size + 7) * capacity < 2 ^ 64
    → new raw block_size capacity ≡ ok p
    → (0 < capacity)
      × (0 < align_block_size block_size)
      × (p ≡ record {
        block_size = align_block_size block_size;
        capacity = capacity;
        next = linked_from (align_block_size block_size) capacity raw capacity 0;
        free_list = some 0;
      })
unfolding new
new-ok raw block_size capacity {p} pos fits e = elim (ℕ_discrete capacity 0) [
  | yes nothing ↦
      let run : new raw block_size capacity ≡ err Fault.invalid_argument = rw nothing refl in
      absurd (ground (arith, run, e))
  | no asked ↦
      let room : 0 < capacity = omega (arith, asked) in
      let (sized, run) = new-linked raw block_size capacity pos room fits in
      (room, sized, sym (ok-injective (sym run ∙ e)))
]

pub new-Inv :
    (raw : ℕ → Option ℕ) (block_size capacity : ℕ) {p : Pool}
    → 0 < block_size
    → (block_size + 7) * capacity < 2 ^ 64
    → new raw block_size capacity ≡ ok p
    → Inv p [] (blocks p.block_size 0 p.capacity)
new-Inv raw block_size capacity {p} pos fits e =
    let size = align_block_size block_size in
    let (room, sized, w) = new-ok raw block_size capacity pos fits e in
    let c = linked_from-Chain size capacity raw capacity 0 sized (omega arith) in
    let first : (if ltb 0 capacity then some (0 * size) else none) ≡ some 0 = ground arith in
    rw w (record {
      sized = sized;
      chain = rw first at c;
      shared = λ b. omega arith;
      total = omega (arith, length-blocks size 0 capacity);
    })

allocate-ok :
    {p p' : Pool} {b f : ℕ}
    → p.free_list ≡ some f
    → allocate p ≡ ok (b, p')
    → (f ≡ b) × (p' ≡ record p { free_list = p.next b })
unfolding allocate
allocate-ok {p} {p'} {b} {f} h e = let run = rw h at e in ground arith

pub allocate-Inv :
    {p p' : Pool} {used free : List ℕ} {b : ℕ}
    → allocate p ≡ ok (b, p')
    → Inv p used free
    → (rest : List ℕ) × (free ≡ b ∷ rest) × Inv p' (b ∷ used) rest
unfolding allocate
allocate-Inv {p} {free = []} e i = let none_left = rw i.chain at e in cc
allocate-Inv {p} {p'} {used} {free = f ∷ rest} {b} e i =
    let (same, w) = allocate-ok i.chain.0 e in
    (
      rest,
      rw same,
      rw w (record {
        sized = i.sized;
        chain = rw same at (i.chain.1);
        shared = λ a. ground (arith, i.shared a);
        total = omega (arith, i.total);
      }),
    )

module _ {p : Pool} {used free : List ℕ} (i : Inv p used free) where
  -- A block that the client holds is not in the list.
  held_absent : (b : ℕ) → 0 < occurs b used → occurs b free ≡ 0
  held_absent b h = omega (arith, i.shared b, occurs-blocks-le p.block_size 0 p.capacity b i.sized)

  pub deallocate-Inv :
      (xs ys : List ℕ) (b : ℕ)
      → used ≡ xs ++ (b ∷ ys)
      → Inv (deallocate p (some b)) (xs ++ ys) (b ∷ free)
  unfolding deallocate
  deallocate-Inv xs ys b e =
      let parts : (a : ℕ) → occurs a used ≡ occurs a xs + occurs a (b ∷ ys) =
        λ a. ap (occurs a) e ∙ occurs-append a xs (b ∷ ys) in
      let held : 0 < occurs b used = ground (arith, parts b) in
      record {
        sized = i.sized;
        chain = (
          refl,
          rw (update_self p.next b p.free_list)
              (update-Chain p.next b p.free_list p.free_list free (held_absent b held) i.chain),
        );
        shared = λ a. omega (arith, i.shared a, parts a, occurs-append a xs ys);
        total = omega (arith, i.total, ap length e, length-append xs (b ∷ ys), length-append xs ys);
      }

  pub client_write-Inv :
      (b : ℕ) (word : Option ℕ) → 0 < occurs b used → Inv (client_write p b word) used free
  unfolding client_write
  client_write-Inv b word held = record {
    sized = i.sized;
    chain = update-Chain p.next b word p.free_list free (held_absent b held) i.chain;
    shared = i.shared;
    total = i.total;
  }

pub Reach-Inv :
    {raw : ℕ → Option ℕ} {block_size capacity : ℕ} {p : Pool} {used : List ℕ}
    → 0 < block_size
    → (block_size + 7) * capacity < 2 ^ 64
    → Reach raw block_size capacity p used
    → (free : List ℕ) × Inv p used free
Reach-Inv {raw} {block_size} {capacity} pos fits (Reach.start e) =
    (_, new-Inv raw block_size capacity pos fits e)
Reach-Inv pos fits (Reach.take r e) =
    let (free, i) = Reach-Inv pos fits r in let (rest, found, i') = allocate-Inv e i in (rest, i')
Reach-Inv pos fits (Reach.give xs ys b r e) =
    let (free, i) = Reach-Inv pos fits r in (b ∷ free, deallocate-Inv i xs ys b e)
Reach-Inv pos fits (Reach.write b word r held) =
    let (free, i) = Reach-Inv pos fits r in (free, client_write-Inv i b word held)

-- In every history of a pool of blocks that are not empty and whose bytes, with up to 7 more for the
-- alignment of each, a `size_t` can count, `allocate` throws exactly when the client holds `capacity`
-- blocks; otherwise it hands out a block of the pool that the client does not hold.
pub allocate-cases :
    {raw : ℕ → Option ℕ} {block_size capacity : ℕ} {p : Pool} {used : List ℕ}
    → 0 < block_size
    → (block_size + 7) * capacity < 2 ^ 64
    → Reach raw block_size capacity p used
    → ((length used ≡ p.capacity) × (allocate p ≡ err Fault.bad_alloc))
      ⊎ ((length used < p.capacity)
          × ((b : ℕ) × (p' : Pool) × (allocate p ≡ ok (b, p'))
              × (occurs b used ≡ 0)
              × (occurs b (blocks p.block_size 0 p.capacity) ≡ 1)))
unfolding allocate
allocate-cases {p = p} {used} pos fits r = go (Reach-Inv pos fits r).0 (Reach-Inv pos fits r).1
  where
    go :
        (free : List ℕ)
        → Inv p used free
        → ((length used ≡ p.capacity) × (allocate p ≡ err Fault.bad_alloc))
          ⊎ ((length used < p.capacity)
              × ((b : ℕ) × (p' : Pool) × (allocate p ≡ ok (b, p'))
                  × (occurs b used ≡ 0)
                  × (occurs b (blocks p.block_size 0 p.capacity) ≡ 1)))
    go [] i = inl (omega (arith, i.total), rw (i.chain))
    go (b ∷ free) i =
        let once = occurs-blocks-le p.block_size 0 p.capacity b i.sized in
        inr (
          omega (arith, i.total),
          (
            b,
            record p { free_list = p.next b },
            rw (i.chain.0),
            ground (arith, i.shared b),
            ground (arith, i.shared b),
          ),
        )

-- The last block given back is the first one handed out again.
pub allocate-deallocate :
    (p : Pool) (b : ℕ)
    → (p' : Pool) × (allocate (deallocate p (some b)) ≡ ok (b, p')) × (p'.free_list ≡ p.free_list)
unfolding allocate deallocate
allocate-deallocate p b = (_, refl, update_self p.next b p.free_list)
