-- ===== src/Chaining/Calls.antt =====
-- The calls of `InMemorykvstore_chaining` on valid stores.
use native.Mathlib.Decide.{ℕ_discrete}
use cpp_systems_playground.Prelude.{
  ℕ, ◌+◌, ◌<◌, ◌≡◌, ◌⊎◌, inl, inr, refl, sym, ap, ◌∙◌, subst, true, false, none, some, List, [],
  ◌∷◌, arith, length, length-set, get_or, get_or-set_self, get_or-set_ne, set, if◌then◌else◌,
  is_some, Key, Option-cases, Bool-cases, equal_ne, ok, err, Fault, Outcome-cases,
}
use cpp_systems_playground.Pool.FixedBlock
use cpp_systems_playground.Pool.FixedBlock.{Pool}
use cpp_systems_playground.Pool.History.{Inv}
use cpp_systems_playground.Chaining.{Node, Store, find, assign, new, bucket_index, put, get, erase}
use cpp_systems_playground.Chaining.Nodes.{all_blocks-set, Unlinks, unlink-Unlinks, find-rest}
use cpp_systems_playground.Chaining.Reads.{Puts, put-Puts}
use cpp_systems_playground.Chaining.Refine.{
  IsValid, assigned-IsValid, pushed-IsValid, unlinked-IsValid, index-lt,
}

allocate-capacity :
    (p : Pool) {p' : Pool} {block : ℕ}
    → FixedBlock.allocate p ≡ ok (block, p')
    → p'.capacity ≡ p.capacity
unfolding FixedBlock.allocate
allocate-capacity p e = ground arith

-- A pool without a free block has handed out all.
exhausted :
    {p : Pool} {used : List ℕ} (free : List ℕ)
    → Inv p used free
    → p.free_list ≡ none
    → length used ≡ p.capacity
exhausted [] i e = omega (arith, i.total)
exhausted (b ∷ free) i e = absurd (ground (arith, i.chain))

module _ {ℓ} {K V : Type ℓ} ⦃key : Key K⦄ where
  pub put-IsValid :
      {s s' : Store K V} (k : K) (w : V)
      → IsValid s
      → put s k w ≡ ok s'
      → IsValid s' × (s'.pool.capacity ≡ s.pool.capacity)
  unfolding put
  put-IsValid {s} {s'} k w v e =
      let b = get_or s.buckets (bucket_index s k) [] in
      elim (Option-cases (find k b)) [
        | inr (old, there) ↦
            let same : record s { buckets = set s.buckets (bucket_index s k) (assign k w b) } ≡ s' =
              ground (arith, there) in
            (subst IsValid same (assigned-IsValid k w v), ground (arith, same))
        | inl absent ↦ elim (Outcome-cases (FixedBlock.allocate s.pool)) [
          | inl ((block, p), run) ↦
              let same : record s {
                buckets =
                    set s.buckets (bucket_index s k)
                      (record { key = k; value = w; block = block } ∷ b);
                pool = p;
                size = s.size + 1;
              }
                  ≡ s' =
                ground (arith, absent, run) in
              (
                subst IsValid same (pushed-IsValid k w block p v absent run),
                ap (λ (t : Store K V). t.pool.capacity) (sym same) ∙ allocate-capacity s.pool run,
              )
          | inr (f, run) ↦ absurd (ground (arith, absent, run))
        ]
      ]

  -- On a valid store `put` throws exactly if the key is new and the store holds as many items as the
  -- memory pool has blocks; otherwise the key reads as the value, every other key reads as before,
  -- a new key is counted, and the store stays valid.
  pub put-cases :
      {s : Store K V} (k : K) (w : V)
      → IsValid s
      → ((get s k ≡ none) × (s.size ≡ s.pool.capacity) × (put s k w ≡ err Fault.bad_alloc))
        ⊎ ((s' : Store K V) × ((is_some (get s k) ≡ true) ⊎ (s.size < s.pool.capacity))
            × (put s k w ≡ ok s')
            × IsValid s'
            × Puts s s' k w)
  put-cases {s} k w v = elim (put-Puts s k w v.nonempty) [
    | inl (absent, empty, e) ↦
        inl (absent, omega (arith, v.counted, exhausted v.free v.memory empty), e)
    | inr (s', e, puts) ↦
        let (v', same) = put-IsValid k w v e in
        (elim (Bool-cases (is_some (get s k))) [
          | inl there ↦ inr (s', inl there, e, v', puts)
          | inr new ↦ inr (
            s',
            inr (ground (arith, puts.size, new, same, v'.counted, v'.memory.total)),
            e,
            v',
            puts,
          )
        ])
  ]

  -- What an `erase` does: the key reads as nothing, every other key as before, and a key that was
  -- there is no longer counted.
  pub record Erases (s s' : Store K V) (k : K) : Type ℓ where
    pub reads : (q : K) → get s' q ≡ (if key.equal k q then none else get s q)
    pub size : s'.size + (if is_some (get s k) then 1 else 0) ≡ s.size

  erased-reads :
      (s s' : Store K V) (k q : K) (block : ℕ) (rest : List (Node K V))
      → IsValid s
      → Unlinks k (get_or s.buckets (bucket_index s k) []) block rest
      → s'.buckets ≡ set s.buckets (bucket_index s k) rest
      → get s' q ≡ (if key.equal k q then none else get s q)
  unfolding get bucket_index
  erased-reads s s' k q block rest v u e = elim (ℕ_discrete (bucket_index s k) (bucket_index s q)) [
    | yes same ↦
        rw
          (
            e,
            length-set s.buckets (bucket_index s k) rest,
            ← same,
            get_or-set_self s.buckets (bucket_index s k) rest [] (index-lt s k v.nonempty),
          )
          (find-rest k q u (ground (arith, v.placed q (bucket_index s k))))
    | no apart ↦
        let other : key.equal k q ≡ false =
          equal_ne k q (λ p. apart (ap (λ x. bucket_index s x) p)) in
        rw (
          e,
          length-set s.buckets (bucket_index s k) rest,
          get_or-set_ne s.buckets (bucket_index s k) (bucket_index s q) rest [] apart,
          other,
        )
  ]

  pub erase-capacity : (s : Store K V) (k : K) → (erase s k).1.pool.capacity ≡ s.pool.capacity
  unfolding erase FixedBlock.deallocate
  erase-capacity s k = ground arith

  -- `erase` on a valid store returns whether the key is there, removes it, and gives its block back;
  -- the store stays valid.
  pub erase-Erases :
      {s : Store K V} (k : K)
      → IsValid s
      → ((erase s k).0 ≡ is_some (get s k)) × IsValid (erase s k).1 × Erases s (erase s k).1 k
  unfolding erase
  erase-Erases {s} k v = elim (unlink-Unlinks k (get_or s.buckets (bucket_index s k) [])) [
    | inl (absent, e) ↦
        let e' : get s k ≡ none = unfold get in absent in
        rw (e, erase)
          (
            rw e' refl,
            v,
            record {
              reads = λ q. ground (arith, e', key.equal_iff k q);
              size = rw e' (omega arith);
            },
          )
    | inr (w, block, rest, there, e, u) ↦
        let e' : get s k ≡ some w = unfold get in there in
        let size = all_blocks-set s.buckets (bucket_index s k) rest (index-lt s k v.nonempty) in
        rw (e, erase)
          (
            rw e' refl,
            unlinked-IsValid k block rest v u,
            record {
              reads = λ q. erased-reads s _ k q block rest v u refl;
              size = rw e' (omega (arith, v.counted, size, u.size));
            },
          )
  ]
