-- ===== src/Chaining/Nodes.antt =====
-- The chains of `InMemorykvstore_chaining`: their keys, and the blocks that hold their nodes.
use cpp_systems_playground.Prelude.{
  ℕ, zero, suc, ◌+◌, ◌<◌, ◌≤◌, ◌≡◌, ◌⊎◌, inl, inr, refl, false, none, some, List, [], ◌∷◌, ◌++◌,
  arith, length, length-append, get_or, set, occurs, occurs-append, if◌then◌else◌, Key, Bool-cases,
}
use cpp_systems_playground.Chaining.{Node, find, assign, unlink}

module _ {ℓ} {K V : Type ℓ} where
  unfoldable pub chain_blocks : List (Node K V) → List ℕ
  chain_blocks [] = []
  chain_blocks (n ∷ b) = n.block ∷ chain_blocks b

  unfoldable pub all_blocks : List (List (Node K V)) → List ℕ
  unfolding chain_blocks
  all_blocks [] = []
  all_blocks (b ∷ bs) = chain_blocks b ++ all_blocks bs

  -- A chain is exchanged.
  pub occurs-set :
      (a : ℕ) (bs : List (List (Node K V))) (i : ℕ) (b : List (Node K V))
      → i < length bs
      → occurs a (all_blocks (set bs i b)) + occurs a (chain_blocks (get_or bs i []))
        ≡ occurs a (all_blocks bs) + occurs a (chain_blocks b)
  unfolding all_blocks
  occurs-set a [] i b h = absurd (omega arith)
  occurs-set a (c ∷ bs) zero b h = omega (
    arith,
    occurs-append a (chain_blocks b) (all_blocks bs),
    occurs-append a (chain_blocks c) (all_blocks bs),
  )
  occurs-set a (c ∷ bs) (suc i) b h = omega (
    arith,
    occurs-append a (chain_blocks c) (all_blocks bs),
    occurs-append a (chain_blocks c) (all_blocks (set bs i b)),
    occurs-set a bs i b (omega arith),
  )

  pub all_blocks-set :
      (bs : List (List (Node K V))) (i : ℕ) (b : List (Node K V))
      → i < length bs
      → length (all_blocks (set bs i b)) + length (chain_blocks (get_or bs i []))
        ≡ length (all_blocks bs) + length (chain_blocks b)
  unfolding all_blocks
  all_blocks-set [] i b h = absurd (omega arith)
  all_blocks-set (c ∷ bs) zero b h = omega (
    arith,
    length-append (chain_blocks b) (all_blocks bs),
    length-append (chain_blocks c) (all_blocks bs),
  )
  all_blocks-set (c ∷ bs) (suc i) b h = omega (
    arith,
    length-append (chain_blocks c) (all_blocks bs),
    length-append (chain_blocks c) (all_blocks (set bs i b)),
    all_blocks-set bs i b (omega arith),
  )

module _ {ℓ} {K V : Type ℓ} ⦃key : Key K⦄ where
  unfoldable pub keys_with : K → List (Node K V) → ℕ
  keys_with k [] = 0
  keys_with k (n ∷ b) = (if key.equal n.key k then 1 else 0) + keys_with k b

  pub keys-eq-zero : (k : K) (b : List (Node K V)) → find k b ≡ none → keys_with k b ≡ 0
  unfolding find keys_with
  keys-eq-zero k [] e = refl
  keys-eq-zero k (n ∷ b) e = ground (arith, keys-eq-zero k b)

  pub find-eq-none : (k : K) (b : List (Node K V)) → keys_with k b ≡ 0 → find k b ≡ none
  unfolding find keys_with
  find-eq-none k [] e = refl
  find-eq-none k (n ∷ b) e = ground (arith, find-eq-none k b)

  pub blocks-assign :
      (k : K) (v : V) (b : List (Node K V)) → chain_blocks (assign k v b) ≡ chain_blocks b
  unfolding chain_blocks assign
  blocks-assign k v [] = refl
  blocks-assign k v (n ∷ b) = ground (arith, blocks-assign k v b)

  pub keys-assign :
      (k q : K) (v : V) (b : List (Node K V)) → keys_with q (assign k v b) ≡ keys_with q b
  unfolding keys_with assign
  keys-assign k q v [] = refl
  keys-assign k q v (n ∷ b) = ground (arith, keys-assign k q v b)

  -- What the loop of `erase` finds and leaves.
  pub record Unlinks (k : K) (b : List (Node K V)) (block : ℕ) (rest : List (Node K V))
      : Type ℓ where
    pub blocks : (a : ℕ) → occurs a (chain_blocks b) ≡ occurs a (block ∷ chain_blocks rest)
    pub size : length (chain_blocks b) ≡ suc (length (chain_blocks rest))
    pub keys : (q : K) → keys_with q b ≡ (if key.equal k q then 1 else 0) + keys_with q rest
    pub reads : (q : K) → key.equal k q ≡ false → find q rest ≡ find q b

  pub find-rest :
      (k q : K) {b rest : List (Node K V)} {block : ℕ}
      → Unlinks k b block rest
      → keys_with q b ≤ 1
      → find q rest ≡ (if key.equal k q then none else find q b)
  find-rest k q {rest = rest} u few = elim (Bool-cases (key.equal k q)) [
    | inl here ↦ rw here (find-eq-none q rest (ground (arith, u.keys q, here)))
    | inr other ↦ rw other (u.reads q other)
  ]

  pub unlink-Unlinks :
      (k : K) (b : List (Node K V))
      → ((find k b ≡ none) × (unlink k b ≡ none))
        ⊎ ((v : V) × (block : ℕ) × (rest : List (Node K V)) × (find k b ≡ some v)
            × (unlink k b ≡ some (block, rest))
            × Unlinks k b block rest)
  unfolding find unlink chain_blocks keys_with
  unlink-Unlinks k [] = inl (refl, refl)
  unlink-Unlinks k (n ∷ b) = elim (Bool-cases (key.equal n.key k)) [
    | inl here ↦
        let same : n.key ≡ k = (key.equal_iff n.key k).0 here in
        inr (
          n.value,
          n.block,
          b,
          rw here refl,
          rw here refl,
          record {
            blocks = λ a. refl;
            size = refl;
            keys = λ q. rw same refl;
            reads = λ q h. ground (arith, same, h);
          },
        )
    | inr other ↦ elim (unlink-Unlinks k b) [
      | inl (absent, e) ↦ inl (rw other absent, ground (arith, other, e))
      | inr (v, block, rest, found, e, u) ↦ inr (
        v,
        block,
        n ∷ rest,
        rw other found,
        ground (arith, other, e),
        record {
          blocks = λ a. omega (arith, u.blocks a);
          size = omega (arith, u.size);
          keys = λ q. omega (arith, u.keys q);
          reads = λ q h. ground (arith, u.reads q h);
        },
      )
    ]
  ]
