-- ===== src/Demos/MemoryPool/Lists.antt =====
-- The linked list in the blocks that the program holds, and one node more.
use cpp_systems_playground.Prelude.{
  ℕ, zero, suc, ◌+◌, ◌<◌, ◌≡◌, refl, Option, none, some, ok, err, Fault, List, [], ◌∷◌, length,
  arith, update, occurs, update_self, update_ne, ◌≢◌,
}
use cpp_systems_playground.Pool.FixedBlock
use cpp_systems_playground.Pool.FixedBlock.{Pool}
use cpp_systems_playground.Pool.FreeList.{occurs-blocks-le}
use cpp_systems_playground.Pool.History.{Inv, allocate-Inv, client_write-Inv}
use cpp_systems_playground.Demos.MemoryPool.{Node, State}

-- The numbers below a bound, the last one first.
abbrev pub countdown : ℕ → List ℕ
countdown zero = []
countdown (suc n) = n ∷ countdown n

-- The list from a pointer on: its blocks and their values.
abbrev pub Linked : (ℕ → Node) → Option ℕ → List ℕ → ℕ → Type 0
Linked nodes start [] n = (start ≡ none) × (n ≡ 0)
Linked nodes start (b ∷ bs) n =
    (start ≡ some b) × (n ≡ (nodes b).value + 1) × Linked nodes (nodes b).next bs (nodes b).value

-- A node in a block that is not in the list changes nothing there.
update-Linked :
    (nodes : ℕ → Node) (b : ℕ) (node : Node) (start : Option ℕ) (bs : List ℕ) (n : ℕ)
    → occurs b bs ≡ 0
    → Linked nodes start bs n
    → Linked (update nodes b node) start bs n
update-Linked nodes b node start [] n h l = l
update-Linked nodes b node start (c ∷ bs) n h l =
    let apart : b ≢ c = ground arith in
    rw (update_ne nodes b node c apart)
      (l.0, l.1, update-Linked nodes b node (nodes c).next bs (nodes c).value (ground arith) l.2)

-- The program holds the blocks of its list, and the pool the others.
pub record Holds (s : State) (i : ℕ) : Type 0 where
  pub used : List ℕ
  pub free : List ℕ
  pub inv : Inv s.pool used free
  pub linked : Linked s.nodes s.head used i
  pub count : length used ≡ i

-- A free block that the program does not hold.
pub free_block :
    {p : Pool} {used free : List ℕ}
    → Inv p used free
    → length used < p.capacity
    → (raw : ℕ) × (p' : Pool) × (rest : List ℕ) × (FixedBlock.allocate p ≡ ok (raw, p'))
      × (p'.capacity ≡ p.capacity)
      × (occurs raw used ≡ 0)
      × Inv p' (raw ∷ used) rest
unfolding FixedBlock.allocate
free_block {free = []} i room = absurd (omega (arith, i.total, room))
free_block {p} {used} {free = b ∷ free} i room =
    let run : FixedBlock.allocate p ≡ ok (b, record p { free_list = p.next b }) =
      rw i.chain.0 refl in
    let (rest, split, i') = allocate-Inv run i in
    let once = occurs-blocks-le p.block_size 0 p.capacity b i.sized in
    (b, record p { free_list = p.next b }, rest, run, refl, ground (arith, i.shared b, once), i')

pub full_pool :
    {p : Pool} {used free : List ℕ}
    → Inv p used free
    → length used ≡ p.capacity
    → FixedBlock.allocate p ≡ err Fault.bad_alloc
unfolding FixedBlock.allocate
full_pool {free = []} i full = rw i.chain refl
full_pool {free = b ∷ free} i full = absurd (omega (arith, i.total, full))

pub one_node :
    {s : State} {i : ℕ} (word : Option ℕ)
    → Holds s i
    → i < s.pool.capacity
    → (raw : ℕ) × (p : Pool) × (FixedBlock.allocate s.pool ≡ ok (raw, p))
      × (p.capacity ≡ s.pool.capacity)
      × Holds
          (record {
            pool = FixedBlock.client_write p raw word;
            nodes = update s.nodes raw (record { value = i; next = s.head });
            head = some raw;
          })
          (i + 1)
one_node {s} {i} word h room =
    let (raw, p, rest, run, same, apart, inv) = free_block h.inv (omega (arith, room, h.count)) in
    let node : Node = record { value = i; next = s.head } in
    (
      raw,
      p,
      run,
      same,
      record {
        used = raw ∷ h.used;
        free = rest;
        inv = client_write-Inv inv raw word (ground arith);
        linked =
            rw (update_self s.nodes raw node)
              (refl, refl, update-Linked s.nodes raw node s.head h.used i apart h.linked);
        count = omega (arith, h.count);
      },
    )
