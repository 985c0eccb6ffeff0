-- ===== src/Lru/Items.antt =====
-- The list of `LRUCache`, in which an iterator is the name of a node.
use cpp_systems_playground.Prelude.{
  ℕ, suc, ◌+◌, ◌≤◌, ◌<◌, ◌≡◌, refl, Option, none, some, ok, List, [], ◌∷◌, arith, length, Key,
  if◌then◌else◌, ◌==◌,
}
use cpp_systems_playground.Lru.{Item, at, unlink}

module _ {K V : Type 0} ⦃key : Key K⦄ where
  -- The item of a key, and how often a node and a key occur.
  unfoldable pub item_of : K → List (Item K V) → Option (Item K V)
  item_of k [] = none
  item_of k (x ∷ l) = if key.equal x.key k then some x else item_of k l

  unfoldable pub nodes_with : ℕ → List (Item K V) → ℕ
  nodes_with node [] = 0
  nodes_with node (x ∷ l) = (if x.node == node then 1 else 0) + nodes_with node l

  unfoldable pub keys_with : K → List (Item K V) → ℕ
  keys_with k [] = 0
  keys_with k (x ∷ l) = (if key.equal x.key k then 1 else 0) + keys_with k l

  -- No node and no key occurs twice.
  pub record IsDistinct (l : List (Item K V)) : Type 0 where
    pub nodes : (node : ℕ) → nodes_with node l ≤ 1
    pub keys : (k : K) → keys_with k l ≤ 1

  tail-IsDistinct : (x : Item K V) (l : List (Item K V)) → IsDistinct (x ∷ l) → IsDistinct l
  unfolding nodes_with keys_with
  tail-IsDistinct x l d = record {
    nodes = λ node. omega (arith, d.nodes node);
    keys = λ k. omega (arith, d.keys k);
  }

  pub item_of-key : (k : K) (l : List (Item K V)) {x : Item K V} → item_of k l ≡ some x → x.key ≡ k
  unfolding item_of
  item_of-key k [] e = cc
  item_of-key k (y ∷ l) {x} e = ground (arith, item_of-key k l {x = x}, key.equal_iff y.key k)

  pub item_of-node :
      (k : K) (l : List (Item K V)) {x : Item K V} → item_of k l ≡ some x → 0 < nodes_with x.node l
  unfolding item_of nodes_with
  item_of-node k [] e = cc
  item_of-node k (y ∷ l) {x} e = ground (arith, item_of-node k l {x = x})

  pub keys-eq-zero : (k : K) (l : List (Item K V)) → item_of k l ≡ none → keys_with k l ≡ 0
  unfolding item_of keys_with
  keys-eq-zero k [] e = refl
  keys-eq-zero k (y ∷ l) e = ground (arith, keys-eq-zero k l)

  pub item_of-none : (k : K) (l : List (Item K V)) → keys_with k l ≡ 0 → item_of k l ≡ none
  unfolding item_of keys_with
  item_of-none k [] e = refl
  item_of-none k (y ∷ l) e = ground (arith, item_of-none k l)

  module _ (k : K) (x : Item K V) where
    -- The iterator that the map holds for a key leads to the item of the key.
    pub at-item_of :
        (l : List (Item K V)) → IsDistinct l → item_of k l ≡ some x → at x.node l ≡ ok x
    unfolding at item_of nodes_with
    at-item_of [] d e = cc
    at-item_of (y ∷ l) d e =
        ground
          (arith, at-item_of l (tail-IsDistinct y l d), item_of-node k l {x = x}, d.nodes x.node)

    pub nodes-unlink :
        (l : List (Item K V)) (node : ℕ)
        → 0 < nodes_with x.node l
        → nodes_with node (unlink x.node l) + (if x.node == node then 1 else 0) ≡ nodes_with node l
    unfolding unlink nodes_with
    nodes-unlink [] node h = absurd (omega arith)
    nodes-unlink (y ∷ l) node h = ground (arith, nodes-unlink l node)

    pub keys-unlink :
        (l : List (Item K V)) (q : K)
        → IsDistinct l
        → item_of k l ≡ some x
        → keys_with q (unlink x.node l) + (if key.equal k q then 1 else 0) ≡ keys_with q l
    unfolding unlink keys_with item_of nodes_with
    keys-unlink [] q d e = cc
    keys-unlink (y ∷ l) q d e = ground (
      arith,
      keys-unlink l q (tail-IsDistinct y l d),
      item_of-node k l {x = x},
      d.nodes x.node,
      key.equal_iff y.key k,
      key.equal_iff y.key q,
      key.equal_iff k q,
    )

    pub item_of-unlink :
        (l : List (Item K V)) (q : K)
        → IsDistinct l
        → item_of k l ≡ some x
        → item_of q (unlink x.node l) ≡ (if key.equal k q then none else item_of q l)
    unfolding unlink item_of nodes_with keys_with
    item_of-unlink [] q d e = cc
    item_of-unlink (y ∷ l) q d e = ground (
      arith,
      item_of-unlink l q (tail-IsDistinct y l d),
      item_of-none k l,
      item_of-node k l {x = x},
      d.nodes x.node,
      d.keys k,
      key.equal_iff y.key k,
      key.equal_iff y.key q,
      key.equal_iff k q,
    )

    pub length-unlink :
        (l : List (Item K V)) → 0 < nodes_with x.node l → suc (length (unlink x.node l)) ≡ length l
    unfolding unlink nodes_with
    length-unlink [] h = absurd (omega arith)
    length-unlink (y ∷ l) h = ground (arith, length-unlink l)
