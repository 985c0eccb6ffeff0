-- ===== src/Demos/MemoryPool/Runs.antt =====
-- What the linked list in a memory pool comes to, with room for its nodes and without.
use native.Mathlib.Decide.{dec_lt, dec_le}
use cpp_systems_playground.Prelude.{
  ℕ, ◌*◌, ◌^◌, zero, suc, ◌+◌, ◌<◌, ◌≤◌, ◌≡◌, ◌⊎◌, inl, inr, refl, sym, ap, ◌∙◌, subst, Option,
  none, some, ok, err, Fault, ◌>>=◌, List, [], ◌∷◌, length, arith,
}
use cpp_systems_playground.Pool.FixedBlock
use cpp_systems_playground.Pool.FixedBlock.{Pool}
use cpp_systems_playground.Pool.FreeList.{linked_from}
use cpp_systems_playground.Pool.History.{Inv, new-linked, new-Inv, deallocate-Inv}
use cpp_systems_playground.Demos.MemoryPool.{
  Node, State, node_size, allocate_nodes, contents, deallocate_nodes, main,
}
use cpp_systems_playground.Demos.MemoryPool.Lists.{countdown, Linked, Holds, full_pool, one_node}

allocate_nodes-Holds :
    (word : ℕ → Option ℕ) (n i : ℕ) {s : State}
    → Holds s i
    → i + n ≤ s.pool.capacity
    → (s' : State) × (allocate_nodes word n i s ≡ ok s')
      × (s'.pool.capacity ≡ s.pool.capacity)
      × Holds s' (i + n)
unfolding allocate_nodes FixedBlock.client_write
allocate_nodes-Holds word zero i {s} h room =
    let same : i ≡ i + 0 = omega arith in (s, refl, refl, subst (Holds s) same h)
allocate_nodes-Holds word (suc n) i {s} h room =
    let (raw, p, run, same, h1) = one_node (word i) h (omega arith) in
    let (s', e, same', h') = allocate_nodes-Holds word n (i + 1) h1 (omega (arith, room, same)) in
    let sum : i + 1 + n ≡ i + suc n = omega arith in
    (s', rw (run, ◌>>=◌) e, same' ∙ same, subst (Holds s') sum h')

allocate_nodes-full :
    (word : ℕ → Option ℕ) (n i : ℕ) {s : State}
    → Holds s i
    → s.pool.capacity < i + n
    → i ≤ s.pool.capacity
    → allocate_nodes word n i s ≡ err Fault.bad_alloc
unfolding allocate_nodes FixedBlock.client_write FixedBlock.allocate
allocate_nodes-full word zero i h over low = absurd (omega arith)
allocate_nodes-full word (suc n) i {s} h over low = elim (dec_lt i s.pool.capacity) [
  | yes room ↦
      let (raw, p, run, same, h1) = one_node (word i) h room in
      rw (run, ◌>>=◌)
        (allocate_nodes-full word n (i + 1) h1 (omega (arith, over, same))
          (omega (arith, room, same)))
  | no full ↦ rw (full_pool h.inv (omega (arith, full, h.count, low)), ◌>>=◌) refl
]

contents-countdown :
    (fuel : ℕ) (nodes : ℕ → Node) (start : Option ℕ) (bs : List ℕ) (n : ℕ)
    → Linked nodes start bs n
    → n ≤ fuel
    → contents fuel nodes start ≡ ok (countdown n)
unfolding contents
contents-countdown zero nodes start [] n l enough = rw (l.0, l.1) refl
contents-countdown (suc fuel) nodes start [] n l enough = rw (l.0, l.1) refl
contents-countdown zero nodes start (b ∷ bs) n l enough = absurd (omega (arith, l.1, enough))
contents-countdown (suc fuel) nodes start (b ∷ bs) n l enough =
    let below = (nodes b).value in
    let rest =
      contents-countdown fuel nodes (nodes b).next bs below l.2 (omega (arith, l.1, enough)) in
    let step : n ≡ suc below = omega (arith, l.1) in
    rw (l.0, rest, ◌>>=◌) (ap (λ k. ok (countdown k)) (sym step))

deallocate_nodes-Inv :
    (fuel : ℕ) (nodes : ℕ → Node) (p : Pool) (start : Option ℕ) (bs free : List ℕ) (n : ℕ)
    → Linked nodes start bs n
    → n ≤ fuel
    → Inv p bs free
    → (p' : Pool) × (free' : List ℕ) × (deallocate_nodes fuel nodes p start ≡ ok p')
      × (p'.capacity ≡ p.capacity)
      × Inv p' [] free'
unfolding deallocate_nodes FixedBlock.deallocate
deallocate_nodes-Inv zero nodes p start [] free n l enough i = (p, free, rw l.0 refl, refl, i)
deallocate_nodes-Inv (suc fuel) nodes p start [] free n l enough i = (p, free, rw l.0 refl, refl, i)
deallocate_nodes-Inv zero nodes p start (b ∷ bs) free n l enough i =
    absurd (omega (arith, l.1, enough))
deallocate_nodes-Inv (suc fuel) nodes p start (b ∷ bs) free n l enough i =
    let (p', free', e, same, i') =
      deallocate_nodes-Inv fuel nodes (FixedBlock.deallocate p (some b)) (nodes b).next bs
        (b ∷ free) (nodes b).value l.2 (omega (arith, l.1, enough))
        (deallocate-Inv i [] bs b refl) in
    (p', free', rw l.0 e, same, i')

new-Holds :
    (raw : ℕ → Option ℕ) (nodes : ℕ → Node) (capacity : ℕ)
    → 0 < capacity
    → (node_size + 7) * capacity < 2 ^ 64
    → (pool : Pool) × (FixedBlock.new raw node_size capacity ≡ ok pool)
      × (pool.capacity ≡ capacity)
      × Holds (record { pool = pool; nodes = nodes; head = none }) 0
new-Holds raw nodes capacity pos fits =
    let pool : Pool = record {
      block_size = FixedBlock.align_block_size node_size;
      capacity = capacity;
      next = linked_from (FixedBlock.align_block_size node_size) capacity raw capacity 0;
      free_list = some 0;
    } in
    let built : FixedBlock.new raw node_size capacity ≡ ok pool =
      (new-linked raw node_size capacity (omega arith) pos fits).1 in
    (
      pool,
      built,
      refl,
      record {
        used = [];
        free = _;
        inv = new-Inv raw node_size capacity (omega arith) fits built;
        linked = (refl, refl);
        count = refl;
      },
    )

-- `main` with a number of nodes and a pool of some blocks, no more than a `size_t` counts the bytes of,
-- whatever the fresh memory holds: where the
-- pool has room it prints the values from the last one down to zero and ends with every block free;
-- with more nodes than blocks it throws `bad_alloc`.
pub main-cases :
    (word raw : ℕ → Option ℕ) (nodes : ℕ → Node) (capacity count : ℕ)
    → 0 < capacity
    → (node_size + 7) * capacity < 2 ^ 64
    → ((count ≤ capacity)
        × ((p : Pool) × (free : List ℕ) × (main word raw nodes capacity count
              ≡ ok (countdown count, p))
            × (length free ≡ capacity)
            × Inv p [] free))
      ⊎ ((capacity < count) × (main word raw nodes capacity count ≡ err Fault.bad_alloc))
unfolding main
main-cases word raw nodes capacity count pos fits =
    let (pool, built, same, h) = new-Holds raw nodes capacity pos fits in
    elim (dec_le count capacity) [
      | yes fits ↦
          let (s, e, same', filled) =
            allocate_nodes-Holds word count 0 h (omega (arith, fits, same)) in
          let all : 0 + count ≡ count = omega arith in
          let h' = subst (Holds s) all filled in
          let l : Linked s.nodes s.head h'.used count = h'.linked in
          let shown = contents-countdown count s.nodes s.head h'.used count l (omega arith) in
          let (p', free, gone, same'', i) =
            deallocate_nodes-Inv count s.nodes s.pool s.head h'.used h'.free count l (omega arith)
              h'.inv in
          inl (
            fits,
            (
              p',
              free,
              rw (built, ◌>>=◌, e, shown, gone) refl,
              omega (arith, i.total, same, same', same''),
              i,
            ),
          )
      | no over ↦
          let thrown =
            allocate_nodes-full word count 0 h (omega (arith, over, same)) (omega arith) in
          inr (omega arith, rw (built, ◌>>=◌, thrown) refl)
    ]
