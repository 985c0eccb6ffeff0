-- ===== src/HashMap/Members.antt =====
-- The members of `HashMap` that change it, and those that read it, on valid maps.
use cpp_systems_playground.Prelude.{
  ◌+◌, ◌-◌, ◌<◌, ◌≡◌, refl, ◌∙◌, ◌⊎◌, true, false, not, Option, none, some, [], ◌∷◌, arith, set,
  get_or-set_self, Key, ok, err, Fault, ◌>>=◌, Option-cases, inl, inr, is_some, Bool-cases,
}
use cpp_systems_playground.HashMap.{
  Map, Floats, overloaded, prepend, maybe_rehash_located, rehash_located, refer, front,
  insert_or_assign, erase, get, contains, count as count_key, at, index,
}
use cpp_systems_playground.HashMap.Bucket.{
  Node, bit, find, assign, remove, count, count-eq-zero, find-assign, count-assign, length-assign,
  find-remove, count-remove-le, length-remove,
}
use cpp_systems_playground.HashMap.Buckets.{home, home_bucket, home-lt, total-set}
use cpp_systems_playground.HashMap.Refine.{
  IsValid, lookup, locate-home, Same, Writes, maybe_rehash-Same, exchange-Writes,
}

module _ {ℓ} {D : Type 0} {K V : Type ℓ} ⦃floats : Floats D⦄ ⦃key : Key K⦄ where
  assign-Writes :
      {m : Map D K V} (k : K) (v old : V)
      → IsValid m
      → lookup m k ≡ some old
      → Writes m
          (record m {
            buckets = set m.buckets (home k m.buckets) (assign k v (home_bucket k m.buckets));
          })
          k
          (some v)
  unfolding lookup
  assign-Writes {m} k v old valid e =
      let b = home_bucket k m.buckets in
      exchange-Writes k (some v) (assign k v b) m.size valid
        (λ q. rw (count-assign k q v b) (valid.placed q (home k m.buckets)))
        (λ q. find-assign k q v old b e) (omega (arith, length-assign k v b)) (rw e)

  pub prepend-Writes :
      {m : Map D K V} (k : K) (v : V)
      → IsValid m
      → lookup m k ≡ none
      → Writes m (prepend m (home k m.buckets) (home_bucket k m.buckets) k v) k (some v)
  unfolding lookup prepend
  prepend-Writes {m} k v valid e =
      let b = home_bucket k m.buckets in
      let n : Node K V = record { key = k; value = v } in
      exchange-Writes k (some v) (n ∷ b) (m.size + 1) valid
        (unfold count in
          λ q.
            ground (arith, valid.placed q (home k m.buckets), key.equal_iff k q, count-eq-zero k b))
        (unfold find in λ q. refl) (omega arith) (rw e (omega arith))

  remove-Writes :
      {m : Map D K V} (k : K) (old : V)
      → IsValid m
      → lookup m k ≡ some old
      → Writes m
          (record m {
            buckets = set m.buckets (home k m.buckets) (remove k (home_bucket k m.buckets));
            size = m.size - 1;
          })
          k
          none
  unfolding lookup
  remove-Writes {m} k old valid e =
      let b = home_bucket k m.buckets in
      let shorter = length-remove k old b e in
      let filled : 0 < m.size =
        omega
          (arith, total-set m.buckets _ [] (home-lt k m.buckets valid.nonempty), valid.counted) in
      exchange-Writes k none (remove k b) (m.size - 1) valid
        (λ q. omega (arith, count-remove-le k q b, valid.placed q (home k m.buckets)))
        (λ q. find-remove k q b (ground (arith, valid.placed q (home k m.buckets))))
        (omega (arith, valid.counted)) (rw e (omega arith))

  Writes-Same :
      {m m' m'' : Map D K V} (k : K) (w : Option V)
      → Writes m m' k w
      → Same m' m''
      → Writes m m'' k w
  Writes-Same k w t s = record {
    valid = s.valid;
    size = omega (arith, t.size, s.size);
    factor = s.factor ∙ t.factor;
    reads = λ q. s.reads q ∙ t.reads q;
  }

  -- `insert_or_assign` on a valid map returns true exactly if the key is new, and stores the value
  -- under the key: all other keys read as before, a new key is counted, and the map stays valid.
  pub insert_or_assign-Writes :
      {m : Map D K V} (k : K) (v : V)
      → IsValid m
      → (m' : Map D K V) × (insert_or_assign m k v ≡ ok (not (is_some (lookup m k)), m'))
        × Writes m m' k (some v)
  unfolding insert_or_assign
  insert_or_assign-Writes {m} k v valid = elim (Option-cases (lookup m k)) [
    | inr (old, e) ↦
        let e' : find k (home_bucket k m.buckets) ≡ some old = unfold lookup in e in
        (_, rw (locate-home k valid, ◌>>=◌, e, e'), assign-Writes k v old valid e)
    | inl e ↦
        let e' : find k (home_bucket k m.buckets) ≡ none = unfold lookup in e in
        let t = prepend-Writes k v valid e in
        (
          _,
          rw (locate-home k valid, ◌>>=◌, e, e'),
          Writes-Same k (some v) t (maybe_rehash-Same t.valid),
        )
  ]

  absent-Writes : {m : Map D K V} (k : K) → IsValid m → lookup m k ≡ none → Writes m m k none
  absent-Writes {m} k valid e = record {
    valid = valid;
    size = rw e;
    factor = refl;
    reads = λ q. ground (arith, key.equal_iff k q);
  }

  -- `erase` on a valid map returns true exactly if the key is there, and removes it: all other
  -- keys read as before, and the map stays valid.
  pub erase-Writes :
      {m : Map D K V} (k : K)
      → IsValid m
      → (m' : Map D K V) × (erase m k ≡ ok (is_some (lookup m k), m')) × Writes m m' k none
  unfolding erase
  erase-Writes {m} k valid = elim (Option-cases (lookup m k)) [
    | inr (old, e) ↦
        let e' : find k (home_bucket k m.buckets) ≡ some old = unfold lookup in e in
        (_, rw (locate-home k valid, ◌>>=◌, e, e'), remove-Writes k old valid e)
    | inl e ↦
        let e' : find k (home_bucket k m.buckets) ≡ none = unfold lookup in e in
        (m, rw (locate-home k valid, ◌>>=◌, e, e'), absent-Writes k valid e)
  ]

  -- The four readers of a valid map agree with what it stores: `at` throws exactly where `get`
  -- returns nothing.
  pub readers-lookup :
      {m : Map D K V} (k : K)
      → IsValid m
      → (get m k ≡ ok (lookup m k))
        × (contains m k ≡ ok (is_some (lookup m k)))
        × (count_key m k ≡ ok (bit (is_some (lookup m k))))
        × (at m k ≡ elim (lookup m k) [ some v ↦ ok v | none ↦ err Fault.out_of_range ])
  unfolding get contains count_key at lookup
  readers-lookup {m} k valid =
      let e = locate-home k valid in (rw e, rw e, rw e (ground arith), rw e)

  -- `operator[]` on a valid map returns the stored value, or inserts the default one; but when
  -- the insertion makes the map rehash, it reads through a reference to a bucket of the vector that the
  -- rehash has replaced, which is undefined.
  pub index-cases :
      {m : Map D K V} (default : V) (k : K)
      → IsValid m
      → let grown = prepend m (home k m.buckets) (home_bucket k m.buckets) k default in
        ((v : V) × (lookup m k ≡ some v) × (index m default k ≡ ok (v, m)))
        ⊎ ((lookup m k ≡ none)
            × (overloaded grown ≡ true)
            × (index m default k ≡ err Fault.undefined))
        ⊎ ((lookup m k ≡ none)
            × (overloaded grown ≡ false)
            × (index m default k ≡ ok (default, grown))
            × Writes m grown k (some default))
  unfolding index maybe_rehash_located rehash_located refer front prepend
  index-cases {m} default k valid =
      let grown = prepend m (home k m.buckets) (home_bucket k m.buckets) k default in
      elim (Option-cases (lookup m k)) [
        | inr (old, e) ↦
            let e' : find k (home_bucket k m.buckets) ≡ some old = unfold lookup in e in
            inl (old, e, rw (locate-home k valid, ◌>>=◌, e'))
        | inl e ↦
            let e' : find k (home_bucket k m.buckets) ≡ none = unfold lookup in e in
            let n : Node K V = record { key = k; value = default } in
            let front_set =
              get_or-set_self m.buckets (home k m.buckets) (n ∷ home_bucket k m.buckets) []
                (home-lt k m.buckets valid.nonempty) in
            elim (Bool-cases (overloaded grown)) [
              | inl over ↦ inr (inl (e, over, rw (locate-home k valid, ◌>>=◌, e', over)))
              | inr under ↦ inr (
                  inr (
                    e,
                    under,
                    rw (locate-home k valid, ◌>>=◌, e', under, front_set),
                    prepend-Writes k default valid e,
                  ))
            ]
      ]
