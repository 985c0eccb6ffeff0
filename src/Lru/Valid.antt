-- ===== src/Lru/Valid.antt =====
-- The invariant of an `LRUCache`, and what keeps it.
use cpp_systems_playground.Prelude.{
  ℕ, ◌+◌, ◌≤◌, ◌<◌, ◌≡◌, ap, ◌∙◌, subst, Option, none, some, ok, List, ◌∷◌, arith, length, Key,
}
use cpp_systems_playground.HashMap
use cpp_systems_playground.HashMap.{Map, Floats}
use cpp_systems_playground.HashMap.Refine
use cpp_systems_playground.HashMap.Refine.{lookup, Writes}
use cpp_systems_playground.HashMap.Members.{readers-lookup}
use cpp_systems_playground.Lru.{Item, Cache, unlink, split_last}
use cpp_systems_playground.Lru.Items.{
  IsDistinct, item_of, nodes_with, keys_with, item_of-key, item_of-node, keys-eq-zero, nodes-unlink,
  keys-unlink, item_of-unlink, length-unlink,
}
use cpp_systems_playground.Lru.Views.{entries, split_last-Evicts, evicted_item}

-- The iterator of a key, where it has an item.
abbrev pub node_of : {K V : Type 0} → Option (Item K V) → Option ℕ
node_of none = none
node_of (some x) = some x.node

module _ {D K V : Type 0} ⦃floats : Floats D⦄ ⦃key : Key K⦄ where
  -- The map is valid and holds the iterator of every key of the list and no other; no node and no
  -- key is twice in the list, new nodes are not in it, and the list fits the capacity.
  pub record IsValid (c : Cache D K V) : Type 0 where
    pub map : HashMap.Refine.IsValid c.map
    pub agrees : (q : K) → lookup c.map q ≡ node_of (item_of q c.items)
    pub distinct : IsDistinct c.items
    pub fresh : (node : ℕ) → c.next ≤ node → nodes_with node c.items ≡ 0
    pub positive : 0 < c.capacity
    pub bounded : length c.items ≤ c.capacity

  -- The entries of a cache, the latest used first.
  unfoldable pub view : Cache D K V → List (K × V)
  unfolding entries
  view c = entries c.items

  pub map-get :
      {c : Cache D K V} (k : K) → IsValid c → HashMap.get c.map k ≡ ok (node_of (item_of k c.items))
  map-get {c} k v = (readers-lookup k v.map).0 ∙ ap ok (v.agrees k)

  -- An item is used: it goes to the front, with any value.
  abbrev pub used : Cache D K V → Item K V → V → Cache D K V
  used c x w = record c { items = record x { value = w } ∷ unlink x.node c.items }

  pub used-IsValid :
      {c : Cache D K V} (k : K) (x : Item K V) (w : V)
      → IsValid c
      → item_of k c.items ≡ some x
      → IsValid (used c x w)
  unfolding item_of nodes_with keys_with
  used-IsValid {c} k x w v e =
      let here = item_of-node k c.items e in
      let same = item_of-key k c.items e in
      record {
        map = v.map;
        agrees = λ q. ground (
          arith,
          v.agrees q,
          item_of-unlink k x c.items q v.distinct e,
          same,
          ap (λ o. node_of o) e,
          key.equal_iff k q,
          key.equal_iff x.key q,
        );
        distinct = record {
          nodes = λ node. ground (arith, nodes-unlink k x c.items node here, v.distinct.nodes node);
          keys =
              λ q. ground (arith, keys-unlink k x c.items q v.distinct e, v.distinct.keys q, same);
        };
        fresh = λ node h. ground (arith, v.fresh node, nodes-unlink k x c.items node here);
        positive = v.positive;
        bounded = ground (arith, length-unlink k x c.items here, v.bounded);
      }

  pub erased-IsValid :
      {c : Cache D K V} (k : K) (x : Item K V) (map : Map D K ℕ)
      → IsValid c
      → item_of k c.items ≡ some x
      → Writes c.map map k none
      → IsValid (record c { items = unlink x.node c.items; map = map })
  erased-IsValid {c} k x map v e t =
      let here = item_of-node k c.items e in
      record {
        map = t.valid;
        agrees =
            λ q. ground (arith, v.agrees q, t.reads q, item_of-unlink k x c.items q v.distinct e);
        distinct = record {
          nodes = λ node. omega (arith, nodes-unlink k x c.items node here, v.distinct.nodes node);
          keys = λ q. omega (arith, keys-unlink k x c.items q v.distinct e, v.distinct.keys q);
        };
        fresh = λ node h. ground (arith, v.fresh node, nodes-unlink k x c.items node here);
        positive = v.positive;
        bounded = omega (arith, length-unlink k x c.items here, v.bounded);
      }

  -- A new key whose node is put to the front.
  abbrev pub pushed : Cache D K V → K → V → Map D K ℕ → Cache D K V
  pushed c k w map = record c {
    items = record { node = c.next; key = k; value = w } ∷ c.items;
    map = map;
    next = c.next + 1;
  }

  pub pushed-IsValid :
      {c : Cache D K V} (k : K) (w : V) (map : Map D K ℕ)
      → IsValid c
      → item_of k c.items ≡ none
      → length c.items < c.capacity
      → Writes c.map map k (some c.next)
      → IsValid (pushed c k w map)
  unfolding item_of nodes_with keys_with
  pushed-IsValid {c} k w map v absent room t = record {
    map = t.valid;
    agrees = λ q. ground (arith, v.agrees q, t.reads q);
    distinct = record {
      nodes = λ node. ground (arith, v.fresh node, v.distinct.nodes node);
      keys =
          λ q. ground (arith, keys-eq-zero k c.items absent, v.distinct.keys q, key.equal_iff k q);
    };
    fresh = λ node h. ground (arith, v.fresh node);
    positive = v.positive;
    bounded = omega (arith, room);
  }

  pub evicted-IsValid :
      {c : Cache D K V} (x : Item K V) (l : List (Item K V)) (map : Map D K ℕ)
      → IsValid c
      → c.items ≡ x ∷ l
      → Writes c.map map (split_last x l).0.key none
      → IsValid (record c { items = (split_last x l).1; map = map })
  evicted-IsValid {c} x l map v e t =
      let r = split_last-Evicts x l in
      let d : IsDistinct (x ∷ l) = subst IsDistinct e v.distinct in
      record {
        map = t.valid;
        agrees = λ q. ground (arith, t.reads q, v.agrees q, ap (item_of q) e, evicted_item x l q d);
        distinct = record {
          nodes = λ node. omega (arith, r.nodes node, d.nodes node);
          keys = λ q. omega (arith, r.keys q, d.keys q);
        };
        fresh = λ node h. omega (arith, r.nodes node, v.fresh node h, ap (nodes_with node) e);
        positive = v.positive;
        bounded = omega (arith, r.size, v.bounded, ap length e);
      }
