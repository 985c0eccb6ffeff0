-- ===== src/Lru/Recency.antt =====
-- What an LRU cache promises: a list of entries in the order of their last use, the latest first,
-- with no word of nodes, iterators or a hash map. Equality of keys is that of the cache.
use cpp_systems_playground.Prelude.{
  ℕ, Option, none, some, List, [], ◌∷◌, length, Key, if◌then◌else◌, ◌==◌, is_some,
}

module _ {K V : Type 0} ⦃key : Key K⦄ where
  unfoldable pub find : K → List (K × V) → Option V
  find k [] = none
  find k ((j, v) ∷ l) = if key.equal j k then some v else find k l

  unfoldable pub without : K → List (K × V) → List (K × V)
  without k [] = []
  without k ((j, v) ∷ l) = if key.equal j k then l else (j, v) ∷ without k l

  -- All entries but the last.
  unfoldable pub but_last : List (K × V) → List (K × V)
  but_last [] = []
  but_last (e ∷ []) = []
  but_last (e ∷ f ∷ l) = e ∷ but_last (f ∷ l)

  -- A read is a use.
  unfoldable pub get : K → List (K × V) → List (K × V)
  unfolding find without
  get k l = elim (find k l) [ none ↦ l | some v ↦ (k, v) ∷ without k l ]

  -- A write is a use; a new key drops the least recently used entry of a full cache.
  unfoldable pub put : ℕ → K → V → List (K × V) → List (K × V)
  unfolding find without but_last
  put capacity k v l =
      (k, v)
      ∷ (if is_some (find k l) then without k l else if length l == capacity then but_last l else l)
