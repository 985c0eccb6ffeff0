-- ===== src/Lru/Refine.antt =====
-- `LRUCache` against the list of entries in the order of their use.
use native.Mathlib.Decide.{ℕ_discrete}
use cpp_systems_playground.Prelude.{
  ◌<◌, ◌≡◌, refl, sym, ap, ◌∙◌, none, ok, ◌>>=◌, ◌∷◌, arith, length, Key, Option-cases, List-cases,
  inl, inr, is_some,
}
use cpp_systems_playground.HashMap.{Floats}
use cpp_systems_playground.HashMap.Members.{insert_or_assign-Writes, erase-Writes}
use cpp_systems_playground.Lru.{
  Cache, at, unlink, assign, split_last, get, erase, evict_from, evict_one, push_new, do_put, put,
}
use cpp_systems_playground.Lru.Items.{item_of, item_of-key, at-item_of}
use cpp_systems_playground.Lru.Recency
use cpp_systems_playground.Lru.Views.{
  entries, find-entries, without_absent, length-entries, touch-at, at-assign, unlink-assign,
  entries-unlink, split_last-Evicts, evicted_absent,
}
use cpp_systems_playground.Lru.Valid.{
  IsValid, view, map-get, used, used-IsValid, erased-IsValid, pushed, pushed-IsValid,
  evicted-IsValid,
}

module _ {D K V : Type 0} ⦃floats : Floats D⦄ ⦃key : Key K⦄ where
  -- `get` on a valid cache returns the value of the key, if it has one, and makes it the latest used.
  pub get-refines :
      {c : Cache D K V} (k : K)
      → IsValid c
      → (c' : Cache D K V) × (get c k ≡ ok (Recency.find k (view c), c'))
        × IsValid c'
        × (c'.capacity ≡ c.capacity)
        × (view c' ≡ Recency.get k (view c))
  unfolding get view entries at Recency.get
  get-refines {c} k v = elim (Option-cases (item_of k c.items)) [
    | inl e ↦ (
      c,
      ground (arith, map-get k v, e, find-entries k c.items),
      v,
      refl,
      ground (arith, e, find-entries k c.items),
    )
    | inr (x, e) ↦
        let moved = touch-at x.node c.items (at-item_of k x c.items v.distinct e) in
        (
          used c x x.value,
          ground (arith, map-get k v, e, moved, find-entries k c.items),
          used-IsValid k x x.value v e,
          refl,
          ground (
            arith,
            e,
            find-entries k c.items,
            entries-unlink k x c.items v.distinct e,
            item_of-key k c.items e,
          ),
        )
  ]

  -- `erase` on a valid cache returns whether the key has a value, and removes its entry.
  pub erase-refines :
      {c : Cache D K V} (k : K)
      → IsValid c
      → (c' : Cache D K V) × (erase c k ≡ ok (is_some (Recency.find k (view c)), c'))
        × IsValid c'
        × (c'.capacity ≡ c.capacity)
        × (view c' ≡ Recency.without k (view c))
  unfolding erase view entries
  erase-refines {c} k v = elim (Option-cases (item_of k c.items)) [
    | inl e ↦ (
      c,
      ground (arith, map-get k v, e, find-entries k c.items),
      v,
      refl,
      sym (without_absent k c.items e),
    )
    | inr (x, e) ↦
        let (map, run, t) = erase-Writes k v.map in
        let found = at-item_of k x c.items v.distinct e in
        (
          record c { items = unlink x.node c.items; map = map },
          ground (arith, map-get k v, e, found, run, find-entries k c.items),
          erased-IsValid k x map v e t,
          refl,
          entries-unlink k x c.items v.distinct e,
        )
  ]

  push_new-refines :
      {c : Cache D K V} (k : K) (w : V)
      → IsValid c
      → item_of k c.items ≡ none
      → length c.items < c.capacity
      → (c' : Cache D K V) × (push_new c k w ≡ ok c')
        × IsValid c'
        × (c'.capacity ≡ c.capacity)
        × (view c' ≡ (k, w) ∷ view c)
  unfolding push_new view entries
  push_new-refines {c} k w v absent room =
      let (map, run, t) = insert_or_assign-Writes k c.next v.map in
      (pushed c k w map, rw (run, ◌>>=◌) refl, pushed-IsValid k w map v absent room t, refl, refl)

  -- A full cache without its last item.
  evict_one-refines :
      {c : Cache D K V}
      → IsValid c
      → length c.items ≡ c.capacity
      → (c' : Cache D K V) × (evict_one c ≡ ok c')
        × IsValid c'
        × (c'.capacity ≡ c.capacity)
        × (length c'.items < c'.capacity)
        × (view c' ≡ Recency.but_last (view c))
        × ((q : K) → item_of q c.items ≡ none → item_of q c'.items ≡ none)
  unfolding evict_one evict_from view entries
  evict_one-refines {c} v full = elim (List-cases c.items) [
    | inl e ↦ absurd (omega (arith, ap length e, v.positive))
    | inr (x, l, e) ↦
        let r = split_last-Evicts x l in
        let last = (split_last x l).0 in
        let rest = (split_last x l).1 in
        let (map, run, t) = erase-Writes last.key v.map in
        (
          record c { items = rest; map = map },
          ground (arith, e, run),
          evicted-IsValid x l map v e t,
          refl,
          omega (arith, r.size, ap length e, full),
          r.entries ∙ ap (λ i. Recency.but_last (entries i)) (sym e),
          λ q absent. evicted_absent x l q (sym (ap (item_of q) e) ∙ absent),
        )
  ]

  -- `put` on a valid cache stores the value and makes the key the latest used. A new key evicts the
  -- least recently used entry, if the cache is full, and nothing otherwise.
  pub put-refines :
      {c : Cache D K V} (k : K) (w : V)
      → IsValid c
      → (c' : Cache D K V) × (put c k w ≡ ok c')
        × IsValid c'
        × (c'.capacity ≡ c.capacity)
        × (view c' ≡ Recency.put c.capacity k w (view c))
  unfolding put do_put view entries Recency.put
  put-refines {c} k w v = elim (Option-cases (item_of k c.items)) [
    | inr (x, e) ↦
        let found = at-item_of k x c.items v.distinct e in
        let moved = touch-at x.node (assign x.node w c.items) (at-assign x.node w c.items found) in
        (
          used c x w,
          ground (arith, map-get k v, e, found, moved, unlink-assign x.node w c.items),
          used-IsValid k x w v e,
          refl,
          ground (
            arith,
            e,
            find-entries k c.items,
            entries-unlink k x c.items v.distinct e,
            item_of-key k c.items e,
          ),
        )
    | inl absent ↦ elim (ℕ_discrete (length c.items) c.capacity) [
      | no room ↦
          let (c', run, v', keeps, seen) =
            push_new-refines k w v absent (omega (arith, v.bounded)) in
          (
            c',
            ground (arith, map-get k v, absent, run),
            v',
            keeps,
            ground (arith, seen, find-entries k c.items, absent, room, length-entries c.items),
          )
      | yes full ↦
          let (c1, run1, v1, keeps1, less, seen1, still) = evict_one-refines v full in
          let (c', run, v', keeps, seen) = push_new-refines k w v1 (still k absent) less in
          (
            c',
            ground (arith, map-get k v, absent, run1, run),
            v',
            keeps ∙ keeps1,
            ground
                (arith, seen, seen1, find-entries k c.items, absent, full, length-entries c.items),
          )
    ]
  ]
