-- ===== src/Chaining/Refine.antt =====
-- `InMemorykvstore_chaining` on stores in which the chains and the memory pool agree.
use native.Mathlib.Decide.{ℕ_discrete}
use native.Mathlib.Nat.{mod-lt}
use cpp_systems_playground.Prelude.{
  ℕ, ◌+◌, ◌-◌, ◌<◌, ◌≤◌, ◌≡◌, refl, ap, none, some, List, [], ◌∷◌, arith, length, length-set,
  get_or, get_or-set_self, get_or-set_ne, set, occurs, if◌then◌else◌, ◌==◌, Key, ok,
}
use cpp_systems_playground.Pool.FixedBlock
use cpp_systems_playground.Pool.FixedBlock.{Pool}
use cpp_systems_playground.Pool.History.{Inv, allocate-Inv, deallocate-Inv}
use cpp_systems_playground.Chaining.{Node, Store, find, assign, bucket_index}
use cpp_systems_playground.Chaining.Nodes.{
  chain_blocks, all_blocks, occurs-set, all_blocks-set, keys_with, keys-eq-zero, blocks-assign,
  keys-assign, Unlinks,
}

-- The invariant of the pool asks how often a block is used, not where.
Inv-perm :
    {p : Pool} {used used' free : List ℕ}
    → ((a : ℕ) → occurs a used ≡ occurs a used')
    → length used ≡ length used'
    → Inv p used free
    → Inv p used' free
Inv-perm same size i = record {
  sized = i.sized;
  chain = i.chain;
  shared = λ a. omega (arith, i.shared a, same a);
  total = omega (arith, i.total, size);
}

module _ {ℓ} {K V : Type ℓ} ⦃key : Key K⦄ where
  -- There is a bucket; every node is in the bucket of its key, and no key is there twice; the blocks
  -- of the nodes are those that the memory pool has handed out, and `size_` counts the nodes.
  pub record IsValid (s : Store K V) : Type ℓ where
    pub nonempty : 0 < length s.buckets
    pub placed :
        (k : K) (i : ℕ)
        → keys_with k (get_or s.buckets i []) ≤ (if i == bucket_index s k then 1 else 0)
    pub free : List ℕ
    pub memory : Inv s.pool (all_blocks s.buckets) free
    pub counted : s.size ≡ length (all_blocks s.buckets)

  pub index-lt :
      (s : Store K V) (k : K) → 0 < length s.buckets → bucket_index s k < length s.buckets
  unfolding bucket_index
  index-lt s k pos = mod-lt (key.hash k) pos

  -- One chain is exchanged and the pool follows.
  exchanged-IsValid :
      {s : Store K V} (k : K) (b : List (Node K V)) (p : Pool) (free : List ℕ) (size : ℕ)
      → IsValid s
      → ((q : K) → keys_with q b ≤ (if bucket_index s k == bucket_index s q then 1 else 0))
      → Inv p (all_blocks (set s.buckets (bucket_index s k) b)) free
      → size ≡ length (all_blocks (set s.buckets (bucket_index s k) b))
      → IsValid (record s { buckets = set s.buckets (bucket_index s k) b; pool = p; size = size })
  unfolding bucket_index
  exchanged-IsValid {s} k b p free size v few inv counts =
      let i = bucket_index s k in
      record {
        nonempty = rw (length-set s.buckets i b) v.nonempty;
        placed = λ q j. elim (ℕ_discrete i j) [
          | yes here ↦
              rw
                (
                  length-set s.buckets i b,
                  ← here,
                  get_or-set_self s.buckets i b [] (index-lt s k v.nonempty),
                )
                (few q)
          | no other ↦
              rw (length-set s.buckets i b, get_or-set_ne s.buckets i j b [] other) (v.placed q j)
        ];
        free = free;
        memory = inv;
        counted = counts;
      }

  -- The blocks of an exchanged chain, beside those of the others.
  exchanged-blocks :
      (s : Store K V) (k : K) (b : List (Node K V)) (block : ℕ)
      → 0 < length s.buckets
      → chain_blocks b ≡ block ∷ chain_blocks (get_or s.buckets (bucket_index s k) [])
      → (a : ℕ)
      → occurs a (block ∷ all_blocks s.buckets)
        ≡ occurs a (all_blocks (set s.buckets (bucket_index s k) b))
  exchanged-blocks s k b block pos e a =
      omega (arith, occurs-set a s.buckets (bucket_index s k) b (index-lt s k pos), ap (occurs a) e)

  pub assigned-IsValid :
      {s : Store K V} (k : K) (w : V)
      → IsValid s
      → IsValid (record s {
        buckets =
            set s.buckets (bucket_index s k) (assign k w (get_or s.buckets (bucket_index s k) []));
      })
  assigned-IsValid {s} k w v =
      let b = get_or s.buckets (bucket_index s k) [] in
      let low = index-lt s k v.nonempty in
      let size = all_blocks-set s.buckets (bucket_index s k) (assign k w b) low in
      let same = ap length (blocks-assign k w b) in
      exchanged-IsValid k (assign k w b) s.pool v.free s.size v
        (λ q. ground (arith, keys-assign k q w b, v.placed q (bucket_index s k)))
        (Inv-perm
          (λ a. omega (
            arith,
            occurs-set a s.buckets (bucket_index s k) (assign k w b) low,
            ap (occurs a) (blocks-assign k w b),
          ))
          (omega (arith, size, same)) v.memory)
        (omega (arith, size, same, v.counted))

  pub pushed-IsValid :
      {s : Store K V} (k : K) (w : V) (block : ℕ) (p : Pool)
      → IsValid s
      → find k (get_or s.buckets (bucket_index s k) []) ≡ none
      → FixedBlock.allocate s.pool ≡ ok (block, p)
      → IsValid (record s {
        buckets =
            set s.buckets (bucket_index s k) (
              record { key = k; value = w; block = block }
              ∷ get_or s.buckets (bucket_index s k) []);
        pool = p;
        size = s.size + 1;
      })
  unfolding chain_blocks keys_with
  pushed-IsValid {s} k w block p v absent e =
      let b = get_or s.buckets (bucket_index s k) [] in
      let n : Node K V = record { key = k; value = w; block = block } in
      let (rest, found, inv) = allocate-Inv e v.memory in
      let size = all_blocks-set s.buckets (bucket_index s k) (n ∷ b) (index-lt s k v.nonempty) in
      exchanged-IsValid k (n ∷ b) p rest (s.size + 1) v
        (λ q.
          ground (arith, v.placed q (bucket_index s k), keys-eq-zero k b absent, key.equal_iff k q))
        (Inv-perm (exchanged-blocks s k (n ∷ b) block v.nonempty refl) (omega (arith, size)) inv)
        (omega (arith, size, v.counted))

  pub unlinked-IsValid :
      {s : Store K V} (k : K) (block : ℕ) (rest : List (Node K V))
      → IsValid s
      → Unlinks k (get_or s.buckets (bucket_index s k) []) block rest
      → IsValid (record s {
        buckets = set s.buckets (bucket_index s k) rest;
        pool = FixedBlock.deallocate s.pool (some block);
        size = s.size - 1;
      })
  unlinked-IsValid {s} k block rest v u =
      let low = index-lt s k v.nonempty in
      let others = all_blocks (set s.buckets (bucket_index s k) rest) in
      let size = all_blocks-set s.buckets (bucket_index s k) rest low in
      let held : Inv s.pool (block ∷ others) v.free =
        Inv-perm
          (λ a. omega (arith, occurs-set a s.buckets (bucket_index s k) rest low, u.blocks a))
          (omega (arith, size, u.size)) v.memory in
      exchanged-IsValid k rest (FixedBlock.deallocate s.pool (some block)) (block ∷ v.free)
        (s.size - 1) v (λ q. omega (arith, u.keys q, v.placed q (bucket_index s k)))
        (deallocate-Inv held [] others block refl) (omega (arith, size, u.size, v.counted))
