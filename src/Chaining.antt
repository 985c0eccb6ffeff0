-- ===== src/Chaining.antt =====
-- kv_store_chaining: `InMemorykvstore_chaining`. A node lives in a block of the memory pool, and a
-- bucket is the list of the nodes that its `next` pointers chain, each with its block. Every member
-- holds the lock for its whole length, so the calls come one after another. Texts are opaque.
pub mod Reads
pub mod Nodes
pub mod Refine
pub mod Calls
pub mod Clear
pub mod Histories
use cpp_systems_playground.Prelude.{
  ℕ, ◌+◌, ◌-◌, ◌%◌, Bool, true, false, Option, none, some, List, [], ◌∷◌, length, get_or, set,
  replicate, Outcome, ok, err, Fault, ◌>>=◌, ◌==◌, if◌then◌else◌, is_some, Key,
}
use cpp_systems_playground.Pool.FixedBlock.{Pool}
use cpp_systems_playground.Pool.FixedBlock

-- A node, with the block that holds it.
pub record Node {ℓ} (K V : Type ℓ) : Type ℓ where
  pub key : K
  pub value : V
  pub block : ℕ

pub record Store {ℓ} (K V : Type ℓ) : Type ℓ where
  pub buckets : List (List (Node K V))
  pub pool : Pool
  pub size : ℕ

module _ {ℓ} {K V : Type ℓ} where
  -- The inner loop of `clear_nodes`.
  unfoldable pub free_nodes : Pool → List (Node K V) → Pool
  free_nodes p [] = p
  free_nodes p (n ∷ b) = free_nodes (FixedBlock.deallocate p (some n.block)) b

  -- The outer loop.
  unfoldable pub free_buckets : Pool → List (List (Node K V)) → Pool × List (List (Node K V))
  unfolding free_nodes
  free_buckets p [] = (p, [])
  free_buckets p (b ∷ bs) = let (q, cs) = free_buckets (free_nodes p b) bs in (q, [] ∷ cs)

module _ {ℓ} {K V : Type ℓ} ⦃key : Key K⦄ where
  -- The loop of `get`.
  unfoldable pub find : K → List (Node K V) → Option V
  find k [] = none
  find k (n ∷ b) = if key.equal n.key k then some n.value else find k b

  -- The loop of `put`, at a key that is there.
  unfoldable pub assign : K → V → List (Node K V) → List (Node K V)
  assign k v [] = []
  assign k v (n ∷ b) = if key.equal n.key k then record n { value = v } ∷ b else n ∷ assign k v b

  -- The loop of `erase`: the block of the node that is unlinked, and the chain without it.
  unfoldable pub unlink : K → List (Node K V) → Option (ℕ × List (Node K V))
  unlink k [] = none
  unlink k (n ∷ b) =
      let rest = unlink k b in
      if key.equal n.key k
      then some (n.block, b)
      else elim rest [ none ↦ none | some (block, b') ↦ some (block, n ∷ b') ]

module _ {ℓ} {K V : Type ℓ} ⦃key : Key K⦄ where
  -- The constructor: `pool_` is built before the body tests `num_buckets`, and throws first.
  -- `node_size` is `sizeof(Node)`.
  unfoldable pub new : (ℕ → Option ℕ) → ℕ → ℕ → ℕ → Outcome (Store K V)
  new raw node_size num_buckets max_items = do
    pool ← FixedBlock.new raw node_size max_items
    if num_buckets == 0
        then err Fault.invalid_argument
        else ok (record { buckets = replicate num_buckets []; pool = pool; size = 0 })

  unfoldable pub bucket_index : Store K V → K → ℕ
  bucket_index s k = key.hash k % length s.buckets

  unfoldable pub put : Store K V → K → V → Outcome (Store K V)
  unfolding bucket_index
  put s k v =
      let idx = bucket_index s k in
      let b = get_or s.buckets idx [] in
      elim (find k b) [
        | some old ↦ ok (record s { buckets = set s.buckets idx (assign k v b) })
        | none ↦ do
          (block, pool) ← FixedBlock.allocate s.pool
          ok (record s {
            buckets = set s.buckets idx (record { key = k; value = v; block = block } ∷ b);
            pool = pool;
            size = s.size + 1;
          })
      ]

  unfoldable pub get : Store K V → K → Option V
  unfolding bucket_index
  get s k = find k (get_or s.buckets (bucket_index s k) [])

  unfoldable pub erase : Store K V → K → Bool × Store K V
  unfolding bucket_index
  erase s k =
      let idx = bucket_index s k in
      elim (unlink k (get_or s.buckets idx [])) [
        | none ↦ (false, s)
        | some (block, b) ↦ (
          true,
          record s {
            buckets = set s.buckets idx b;
            pool = FixedBlock.deallocate s.pool (some block);
            size = s.size - 1;
          },
        )
      ]

  unfoldable pub contains : Store K V → K → Bool
  unfolding get
  contains s k = is_some (get s k)

  unfoldable pub clear_nodes : Store K V → Store K V
  unfolding free_buckets
  clear_nodes s =
      let (q, bs) = free_buckets s.pool s.buckets in record s { buckets = bs; pool = q; size = 0 }
