-- ===== src/Demos/MemoryPool.antt =====
-- memory_pool/src/main.cpp and memory_pool_demo.cpp, the same `main` with 8 and with 98 nodes: a linked
-- list in the blocks of a `FixedBlockMemoryPool`. What it logs is left out, and so are the addresses
-- that it prints.
pub mod Lists
pub mod Runs
use cpp_systems_playground.Prelude.{
  ℕ, zero, suc, ◌+◌, Option, none, some, Outcome, ok, err, Fault, ◌>>=◌, List, [], ◌∷◌, update,
}
use cpp_systems_playground.Pool.FixedBlock
use cpp_systems_playground.Pool.FixedBlock.{Pool}

pub record Node : Type 0 where
  pub value : ℕ
  pub next : Option ℕ

-- `sizeof(Node)`
abbrev pub node_size : ℕ
node_size = 16

-- The pool, the nodes in the blocks that the program holds, and `head`.
pub record State : Type 0 where
  pub pool : Pool
  pub nodes : ℕ → Node
  pub head : Option ℕ

-- `word i` is what the first word of a node with the value `i` reads as, to the pool.
module _ (word : ℕ → Option ℕ) where
  -- The loop that allocates the nodes: those left, and the next value.
  unfoldable pub allocate_nodes : ℕ → ℕ → State → Outcome State
  allocate_nodes zero i s = ok s
  allocate_nodes (suc n) i s = do
    (raw, p) ← FixedBlock.allocate s.pool
    allocate_nodes n (i + 1) (record {
      pool = FixedBlock.client_write p raw (word i);
      nodes = update s.nodes raw (record { value = i; next = s.head });
      head = some raw;
    })

-- The values that the loop prints, from a pointer on, with fuel for the nodes.
unfoldable pub contents : ℕ → (ℕ → Node) → Option ℕ → Outcome (List ℕ)
contents zero nodes none = ok []
contents zero nodes (some cur) = err Fault.undefined
contents (suc fuel) nodes none = ok []
contents (suc fuel) nodes (some cur) = do
  rest ← contents fuel nodes (nodes cur).next
  ok ((nodes cur).value ∷ rest)

-- `while (head)`, with fuel for the nodes.
unfoldable pub deallocate_nodes : ℕ → (ℕ → Node) → Pool → Option ℕ → Outcome Pool
deallocate_nodes zero nodes p none = ok p
deallocate_nodes zero nodes p (some head) = err Fault.undefined
deallocate_nodes (suc fuel) nodes p none = ok p
deallocate_nodes (suc fuel) nodes p (some head) =
    let next = (nodes head).next in
    deallocate_nodes fuel nodes (FixedBlock.deallocate p (some head)) next

-- `main` with the number of nodes as an argument: the values that it prints, and the pool at the end.
-- `raw` is what the buffer of the pool holds at first, and `nodes` the nodes that the blocks do.
unfoldable pub main : (ℕ → Option ℕ) → (ℕ → Option ℕ) → (ℕ → Node) → ℕ → ℕ → Outcome (List ℕ × Pool)
unfolding allocate_nodes contents deallocate_nodes
main word raw nodes capacity count = do
  pool ← FixedBlock.new raw node_size capacity
  s ← allocate_nodes word count 0 (record { pool = pool; nodes = nodes; head = none })
  values ← contents count s.nodes s.head
  pool' ← deallocate_nodes count s.nodes s.pool s.head
  ok (values, pool')
