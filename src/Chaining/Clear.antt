-- ===== src/Chaining/Clear.antt =====
-- `clear_nodes` and the constructor of `InMemorykvstore_chaining`.
use native.Mathlib.Decide.{ℕ_discrete}
use cpp_systems_playground.Prelude.{
  ℕ, ◌+◌, ◌*◌, ◌^◌, zero, suc, ◌%◌, ◌<◌, ◌≡◌, ◌⊎◌, inl, inr, refl, ap, ◌∙◌, Option, none, some,
  List, [], ◌∷◌, ◌++◌, arith, length, get_or-replicate, length-replicate, replicate, Key, ok, err,
  Fault, ◌>>=◌, Outcome-cases,
}
use cpp_systems_playground.Pool.FixedBlock
use cpp_systems_playground.Pool.FixedBlock.{Pool}
use cpp_systems_playground.Pool.History.{Inv, new-Inv, deallocate-Inv}
use cpp_systems_playground.Chaining.{
  Node, Store, find, new, bucket_index, get, free_nodes, free_buckets, clear_nodes,
}
use cpp_systems_playground.Chaining.Nodes.{chain_blocks, all_blocks, keys_with}
use cpp_systems_playground.Chaining.Refine.{IsValid}

module _ {ℓ} {K V : Type ℓ} where
  free_nodes-Inv :
      {p : Pool} (b : List (Node K V)) (used free : List ℕ)
      → Inv p (chain_blocks b ++ used) free
      → (free' : List ℕ) × Inv (free_nodes p b) used free'
  unfolding chain_blocks free_nodes
  free_nodes-Inv [] used free i = (free, i)
  free_nodes-Inv {p = p} (n ∷ b) used free i =
      free_nodes-Inv {p = FixedBlock.deallocate p (some n.block)} b used (n.block ∷ free)
        (deallocate-Inv i [] (chain_blocks b ++ used) n.block refl)

  free_nodes-capacity : (p : Pool) (b : List (Node K V)) → (free_nodes p b).capacity ≡ p.capacity
  unfolding free_nodes FixedBlock.deallocate
  free_nodes-capacity p [] = refl
  free_nodes-capacity p (n ∷ b) = free_nodes-capacity (FixedBlock.deallocate p (some n.block)) b

  free_buckets-Inv :
      {p : Pool} (bs : List (List (Node K V))) (free : List ℕ)
      → Inv p (all_blocks bs) free
      → (free' : List ℕ) × Inv (free_buckets p bs).0 [] free'
  unfolding all_blocks free_buckets
  free_buckets-Inv [] free i = (free, i)
  free_buckets-Inv {p = p} (b ∷ bs) free i =
      let (free', i') = free_nodes-Inv b (all_blocks bs) free i in
      free_buckets-Inv {p = free_nodes p b} bs free' i'

  free_buckets-capacity :
      (p : Pool) (bs : List (List (Node K V))) → (free_buckets p bs).0.capacity ≡ p.capacity
  unfolding free_buckets
  free_buckets-capacity p [] = refl
  free_buckets-capacity p (b ∷ bs) =
      free_buckets-capacity (free_nodes p b) bs ∙ free_nodes-capacity p b

  free_buckets-empty :
      (p : Pool) (bs : List (List (Node K V))) → (free_buckets p bs).1 ≡ replicate (length bs) []
  unfolding free_buckets
  free_buckets-empty p [] = refl
  free_buckets-empty p (b ∷ bs) = ap (λ cs. [] ∷ cs) (free_buckets-empty (free_nodes p b) bs)

module _ {ℓ} (K V : Type ℓ) where
  blocks-empty : (n : ℕ) → all_blocks {K = K} {V = V} (replicate n []) ≡ []
  unfolding all_blocks chain_blocks
  blocks-empty zero = refl
  blocks-empty (suc n) = blocks-empty n

module _ {ℓ} {K V : Type ℓ} ⦃key : Key K⦄ where
  -- A store whose buckets are all empty.
  pub record IsCleared (s : Store K V) : Type ℓ where
    pub valid : IsValid s
    pub reads : (q : K) → get s q ≡ none
    pub size : s.size ≡ 0

  pub cleared :
      (s : Store K V) (n : ℕ) (free : List ℕ)
      → 0 < n
      → s.buckets ≡ replicate n []
      → Inv s.pool [] free
      → s.size ≡ 0
      → IsCleared s
  unfolding get find keys_with bucket_index
  cleared s n free pos e i counts = record {
    valid = record {
      nonempty = rw (e, length-replicate {A = List (Node K V)} n []) pos;
      placed = λ k j. rw (e, get_or-replicate {A = List (Node K V)} n j []) (omega arith);
      free = free;
      memory = rw (e, blocks-empty K V n) i;
      counted = rw (e, blocks-empty K V n) counts;
    };
    reads = λ q.
        rw
          (
            e,
            length-replicate {A = List (Node K V)} n [],
            get_or-replicate {A = List (Node K V)} n (key.hash q % n) [],
          )
          refl;
    size = counts;
  }

  -- `clear_nodes` on a valid store: every block goes back to the memory pool, no key reads as
  -- anything, and the store stays valid with its buckets and its capacity.
  pub clear_nodes-IsCleared :
      {s : Store K V}
      → IsValid s
      → IsCleared (clear_nodes s)
        × (length (clear_nodes s).buckets ≡ length s.buckets)
        × ((clear_nodes s).pool.capacity ≡ s.pool.capacity)
  unfolding clear_nodes
  clear_nodes-IsCleared {s} v =
      let (free, i) = free_buckets-Inv s.buckets v.free v.memory in
      let e = free_buckets-empty s.pool s.buckets in
      (
        cleared (clear_nodes s) (length s.buckets) free v.nonempty e i refl,
        ap length e ∙ length-replicate {A = List (Node K V)} (length s.buckets) [],
        free_buckets-capacity s.pool s.buckets,
      )

  -- The constructor on a positive node size, with no more bytes than a `size_t` counts, throws `bad_alloc` without memory, `invalid_argument`
  -- without buckets, and otherwise makes a valid empty store.
  pub new-cases :
      (raw : ℕ → Option ℕ) (node_size num_buckets max_items : ℕ)
      → 0 < node_size
      → (node_size + 7) * max_items < 2 ^ 64
      → ((f : Fault) × (new {K = K} {V = V} raw node_size num_buckets max_items ≡ err f)
          × ((num_buckets ≡ 0) ⊎ (FixedBlock.new raw node_size max_items ≡ err f)))
        ⊎ ((s : Store K V) × (0 < num_buckets)
            × (new raw node_size num_buckets max_items ≡ ok s)
            × IsCleared s)
  unfolding new
  new-cases raw node_size num_buckets max_items pos fits =
      elim (Outcome-cases (FixedBlock.new raw node_size max_items)) [
        | inr (f, e) ↦ inl (f, rw (e, ◌>>=◌) refl, inr e)
        | inl (p, e) ↦ elim (ℕ_discrete num_buckets 0) [
          | yes z ↦ inl (Fault.invalid_argument, rw (e, ◌>>=◌, z) refl, inl z)
          | no ne ↦
              let s : Store K V = record {
                buckets = replicate num_buckets [];
                pool = p;
                size = 0;
              } in
              inr (
                s,
                omega arith,
                rw (e, ◌>>=◌) (ground arith),
                cleared s num_buckets _ (omega arith) refl
                    (new-Inv raw node_size max_items pos fits e) refl,
              )
        ]
      ]
