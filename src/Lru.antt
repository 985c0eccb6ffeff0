-- ===== src/Lru.antt =====
-- lru_cache/include/lru_cache/lru_cache.hpp: `LRUCache<Key, Value>` over the `HashMap` of this
-- repository. A node of the list is named by a number, which is what an iterator to it holds.
pub mod Items
pub mod Recency
pub mod Views
pub mod Valid
pub mod Refine
pub mod Histories
use cpp_systems_playground.Prelude.{
  ℕ, ◌+◌, Bool, true, false, Option, none, some, List, [], ◌∷◌, length, Outcome, ok, err, Fault,
  ◌>>=◌, ◌==◌, if◌then◌else◌, Key,
}
use cpp_systems_playground.HashMap
use cpp_systems_playground.HashMap.{Map, Floats}

pub record Item (K V : Type 0) : Type 0 where
  pub node : ℕ
  pub key : K
  pub value : V

-- `list_` from its front; new nodes take the names from `next` on. The map holds iterators.
pub record Cache (D K V : Type 0) : Type 0 where
  pub capacity : ℕ
  pub items : List (Item K V)
  pub map : Map D K ℕ
  pub next : ℕ

module _ {K V : Type 0} where
  -- A read through an iterator, undefined if its node is gone.
  unfoldable pub at : ℕ → List (Item K V) → Outcome (Item K V)
  at node [] = err Fault.undefined
  at node (x ∷ l) = if x.node == node then ok x else at node l

  -- The list without a node.
  unfoldable pub unlink : ℕ → List (Item K V) → List (Item K V)
  unlink node [] = []
  unlink node (x ∷ l) = if x.node == node then l else x ∷ unlink node l

  -- `nodeIt->second = value`
  unfoldable pub assign : ℕ → V → List (Item K V) → List (Item K V)
  assign node v [] = []
  assign node v (x ∷ l) = if x.node == node then record x { value = v } ∷ l else x ∷ assign node v l

  -- `std::prev(list_.end())` and `pop_back`: the last item and the items before it.
  unfoldable pub split_last : Item K V → List (Item K V) → Item K V × List (Item K V)
  split_last x [] = (x, [])
  split_last x (y ∷ l) = let (z, rest) = split_last y l in (z, x ∷ rest)

  -- `it == list_.begin()`
  unfoldable pub is_first : ℕ → List (Item K V) → Bool
  is_first node [] = false
  is_first node (x ∷ l) = x.node == node

  unfoldable pub touch : ℕ → List (Item K V) → Outcome (List (Item K V))
  unfolding is_first at unlink
  touch node l = if is_first node l then ok l else do x ← at node l; ok (x ∷ unlink node l)

module _ {D K V : Type 0} ⦃floats : Floats D⦄ ⦃key : Key K⦄ where
  -- The constructor throws at capacity 0; the map has its default size.
  unfoldable pub new : ℕ → Outcome (Cache D K V)
  new capacity =
      if capacity == 0
      then err Fault.invalid_argument
      else ok (record {
        capacity = capacity;
        items = [];
        map = HashMap.new HashMap.default_bucket_count;
        next = 0;
      })

  -- The move constructor: the new cache, and what is left of `other`.
  unfoldable pub move : Cache D K V → Cache D K V × Cache D K V
  move other =
      let (map, left) = HashMap.move other.map in
      (record other { map = map }, record other { items = []; map = left })

  -- Move assignment from another cache: the two caches afterwards.
  unfoldable pub move_assign : Cache D K V → Cache D K V → Cache D K V × Cache D K V
  move_assign c other =
      let (map, left) = HashMap.move_assign c.map other.map in
      (record other { map = map }, record other { items = []; map = left })

  unfoldable pub clear : Cache D K V → Cache D K V
  clear c = record c { items = []; map = HashMap.clear c.map }

  unfoldable pub size : Cache D K V → ℕ
  size c = length c.items

  unfoldable pub is_empty : Cache D K V → Bool
  unfolding size
  is_empty c = size c == 0

  unfoldable pub contains : Cache D K V → K → Outcome Bool
  contains c k = HashMap.contains c.map k

  unfoldable pub get : Cache D K V → K → Outcome (Option V × Cache D K V)
  get c k = do
    it_opt ← HashMap.get c.map k
    elim it_opt [
      | none ↦ ok (none, c)
      | some node ↦ do
        items ← touch node c.items
        x ← at node items
        ok (some x.value, record c { items = items })
    ]

  unfoldable pub erase : Cache D K V → K → Outcome (Bool × Cache D K V)
  erase c k = do
    it_opt ← HashMap.get c.map k
    elim it_opt [
      | none ↦ ok (false, c)
      | some node ↦ do
        x ← at node c.items
        (_, map) ← HashMap.erase c.map k
        ok (true, record c { items = unlink node c.items; map = map })
    ]

  unfoldable pub evict_from : Cache D K V → List (Item K V) → Outcome (Cache D K V)
  evict_from c [] = ok c
  evict_from c (x ∷ l) = do
    let (last, rest) = split_last x l
    (_, map) ← HashMap.erase c.map last.key
    ok (record c { items = rest; map = map })

  unfoldable pub evict_one : Cache D K V → Outcome (Cache D K V)
  unfolding evict_from
  evict_one c = evict_from c c.items

  -- The part of `do_put` after the eviction: a new node at the front.
  unfoldable pub push_new : Cache D K V → K → V → Outcome (Cache D K V)
  push_new c k v = do
    (_, map) ← HashMap.insert_or_assign c.map k c.next
    ok (record c {
      items = record { node = c.next; key = k; value = v } ∷ c.items;
      map = map;
      next = c.next + 1;
    })

  unfoldable pub do_put : Cache D K V → K → V → Outcome (Cache D K V)
  unfolding evict_one push_new
  do_put c k v = do
    it_opt ← HashMap.get c.map k
    elim it_opt [
      | some node ↦ do
        x ← at node c.items
        items ← touch node (assign node v c.items)
        ok (record c { items = items })
      | none ↦ do c' ← if length c.items == c.capacity then evict_one c else ok c; push_new c' k v
    ]

  unfoldable pub put : Cache D K V → K → V → Outcome (Cache D K V)
  unfolding do_put
  put c k v = do_put c k v
