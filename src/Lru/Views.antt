-- ===== src/Lru/Views.antt =====
-- The entries of the list of `LRUCache`, without the nodes that hold them.
use cpp_systems_playground.Prelude.{
  ℕ, suc, ◌+◌, ◌≡◌, refl, ap, false, Option, none, some, ok, List, [], ◌∷◌, arith, length, Key,
  if◌then◌else◌, ◌==◌,
}
use cpp_systems_playground.Lru.{Item, at, unlink, assign, split_last, is_first, touch}
use cpp_systems_playground.Lru.Items.{
  IsDistinct, item_of, nodes_with, keys_with, item_of-none, item_of-node, keys-eq-zero,
}
use cpp_systems_playground.Lru.Recency.{find, without, but_last}

module _ {K V : Type 0} where
  unfoldable pub entries : List (Item K V) → List (K × V)
  entries [] = []
  entries (x ∷ l) = (x.key, x.value) ∷ entries l

  pub length-entries : (l : List (Item K V)) → length (entries l) ≡ length l
  unfolding entries
  length-entries [] = refl
  length-entries (x ∷ l) = ap suc (length-entries l)

  -- `touch` moves the item of an iterator to the front.
  pub touch-at :
      (node : ℕ) (l : List (Item K V)) {x : Item K V}
      → at node l ≡ ok x
      → touch node l ≡ ok (x ∷ unlink node l)
  unfolding touch at unlink is_first
  touch-at node [] e = cc
  touch-at node (y ∷ l) {x} e = ground arith

  pub at-assign :
      (node : ℕ) (v : V) (l : List (Item K V)) {x : Item K V}
      → at node l ≡ ok x
      → at node (assign node v l) ≡ ok (record x { value = v })
  unfolding at assign
  at-assign node v [] e = cc
  at-assign node v (y ∷ l) {x} e = ground (arith, at-assign node v l {x = x})

  pub unlink-assign :
      (node : ℕ) (v : V) (l : List (Item K V)) → unlink node (assign node v l) ≡ unlink node l
  unfolding unlink assign
  unlink-assign node v [] = refl
  unlink-assign node v (y ∷ l) = ground (arith, unlink-assign node v l)

module _ {K V : Type 0} ⦃key : Key K⦄ where
  -- The value of a key, where it has an item.
  abbrev pub value_of : Option (Item K V) → Option V
  value_of none = none
  value_of (some x) = some x.value

  pub find-entries : (k : K) (l : List (Item K V)) → find k (entries l) ≡ value_of (item_of k l)
  unfolding find entries item_of
  find-entries k [] = refl
  find-entries k (x ∷ l) = ground (arith, find-entries k l)

  pub without_absent :
      (k : K) (l : List (Item K V)) → item_of k l ≡ none → without k (entries l) ≡ entries l
  unfolding without entries item_of
  without_absent k [] e = refl
  without_absent k (x ∷ l) e = ground (arith, without_absent k l)

  pub entries-unlink :
      (k : K) (x : Item K V) (l : List (Item K V))
      → IsDistinct l
      → item_of k l ≡ some x
      → entries (unlink x.node l) ≡ without k (entries l)
  unfolding entries unlink without item_of nodes_with keys_with
  entries-unlink k x [] d e = cc
  entries-unlink k x (y ∷ l) d e =
      let d' : IsDistinct l = record {
        nodes = λ node. omega (arith, d.nodes node);
        keys = λ q. omega (arith, d.keys q);
      } in
      ground (arith, entries-unlink k x l d', item_of-node k l {x = x}, d.nodes x.node)

  -- What `evict_one` leaves.
  pub record Evicts (x : Item K V) (l : List (Item K V)) : Type 0 where
    pub entries : entries (split_last x l).1 ≡ but_last (entries (x ∷ l))
    pub nodes :
        (node : ℕ)
        → nodes_with node (split_last x l).1 + (if (split_last x l).0.node == node then 1 else 0)
          ≡ nodes_with node (x ∷ l)
    pub keys :
        (q : K)
        → keys_with q (split_last x l).1 + (if key.equal (split_last x l).0.key q then 1 else 0)
          ≡ keys_with q (x ∷ l)
    pub items :
        (q : K)
        → key.equal (split_last x l).0.key q ≡ false
        → item_of q (split_last x l).1 ≡ item_of q (x ∷ l)
    pub size : suc (length (split_last x l).1) ≡ length (x ∷ l)

  pub split_last-Evicts : (x : Item K V) (l : List (Item K V)) → Evicts x l
  unfolding split_last entries but_last nodes_with keys_with item_of
  split_last-Evicts x [] = record {
    entries = refl;
    nodes = λ node. ground arith;
    keys = λ q. ground arith;
    items = λ q h. rw h refl;
    size = refl;
  }
  split_last-Evicts x (y ∷ l) =
      let r = split_last-Evicts y l in
      record {
        entries = rw r.entries refl;
        nodes = λ node. omega (arith, r.nodes node);
        keys = λ q. omega (arith, r.keys q);
        items = λ q h. ground (arith, r.items q h);
        size = omega (arith, r.size);
      }

  -- The key of the last item has no other item.
  pub evicted_item :
      (x : Item K V) (l : List (Item K V)) (q : K)
      → IsDistinct (x ∷ l)
      → item_of q (split_last x l).1
        ≡ (if key.equal (split_last x l).0.key q then none else item_of q (x ∷ l))
  evicted_item x l q d =
      let r = split_last-Evicts x l in
      ground (arith, r.items q, r.keys q, d.keys q, item_of-none q (split_last x l).1)

  pub evicted_absent :
      (x : Item K V) (l : List (Item K V)) (q : K)
      → item_of q (x ∷ l) ≡ none
      → item_of q (split_last x l).1 ≡ none
  evicted_absent x l q absent =
      let r = split_last-Evicts x l in
      item_of-none q (split_last x l).1 (omega (arith, r.keys q, keys-eq-zero q (x ∷ l) absent))
