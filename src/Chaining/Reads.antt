-- ===== src/Chaining/Reads.antt =====
-- What `get` of `InMemorykvstore_chaining` reads after a `put`.
use native.Mathlib.Decide.{ℕ_discrete}
use native.Mathlib.Nat.{mod-lt}
use cpp_systems_playground.Prelude.{
  ◌+◌, ◌<◌, ◌≡◌, ◌⊎◌, inl, inr, refl, ap, false, none, some, List, [], ◌∷◌, arith, length,
  length-set, get_or, get_or-set_self, get_or-set_ne, set, ok, err, Fault, ◌>>=◌, if◌then◌else◌,
  is_some, Key, Option-cases, equal_ne,
}
use cpp_systems_playground.Pool.FixedBlock
use cpp_systems_playground.Chaining.{Node, Store, find, assign, bucket_index, put, get}

module _ {ℓ} {K V : Type ℓ} ⦃key : Key K⦄ where
  find-assign :
      (k q : K) (v old : V) (b : List (Node K V))
      → find k b ≡ some old
      → find q (assign k v b) ≡ (if key.equal k q then some v else find q b)
  unfolding find assign
  find-assign k q v old [] e = cc
  find-assign k q v old (n ∷ b) e = ground (
    arith,
    find-assign k q v old b,
    key.equal_iff k q,
    key.equal_iff n.key k,
    key.equal_iff n.key q,
  )

  find-prepend :
      (q : K) (n : Node K V) (b : List (Node K V))
      → find q (n ∷ b) ≡ (if key.equal n.key q then some n.value else find q b)
  unfolding find
  find-prepend q n b = refl

  -- The bucket of a key is exchanged.
  pub get-exchanged :
      (s s' : Store K V) (k q : K) (v : V) (b : List (Node K V))
      → 0 < length s.buckets
      → s'.buckets ≡ set s.buckets (bucket_index s k) b
      → ((p : K)
          → find p b
            ≡ (if key.equal k p then some v else find p (get_or s.buckets (bucket_index s k) [])))
      → get s' q ≡ (if key.equal k q then some v else get s q)
  unfolding get bucket_index
  get-exchanged s s' k q v b pos e writes =
      elim (ℕ_discrete (bucket_index s k) (bucket_index s q)) [
        | yes same ↦
            rw
              (
                e,
                length-set s.buckets (bucket_index s k) b,
                ← same,
                get_or-set_self s.buckets (bucket_index s k) b [] (mod-lt (key.hash k) pos),
              )
              (writes q)
        | no apart ↦
            let other : key.equal k q ≡ false =
              equal_ne k q (λ p. apart (ap (λ x. bucket_index s x) p)) in
            rw (
              e,
              length-set s.buckets (bucket_index s k) b,
              get_or-set_ne s.buckets (bucket_index s k) (bucket_index s q) b [] apart,
              other,
            )
      ]

  -- What a `put` that returns does: the key reads as the value, every other key as before, and a
  -- new key is counted.
  pub record Puts (s s' : Store K V) (k : K) (v : V) : Type ℓ where
    pub reads : (q : K) → get s' q ≡ (if key.equal k q then some v else get s q)
    pub size : s'.size ≡ (if is_some (get s k) then s.size else s.size + 1)

  -- On a store that has buckets, `put` throws only if the key is new and the memory pool has no
  -- block left; otherwise the key reads as the value, every other key reads as before, and a new
  -- key is counted.
  pub put-Puts :
      (s : Store K V) (k : K) (v : V)
      → 0 < length s.buckets
      → ((get s k ≡ none) × (s.pool.free_list ≡ none) × (put s k v ≡ err Fault.bad_alloc))
        ⊎ ((s' : Store K V) × (put s k v ≡ ok s') × Puts s s' k v)
  unfolding put FixedBlock.allocate
  put-Puts s k v pos =
      let b = get_or s.buckets (bucket_index s k) [] in
      elim (Option-cases (find k b)) [
        | inr (old, e) ↦
            let e' : get s k ≡ some old = unfold get in e in
            inr (
              record s { buckets = set s.buckets (bucket_index s k) (assign k v b) },
              rw (e, put) refl,
              record {
                reads = λ q.
                    get-exchanged s _ k q v (assign k v b) pos refl
                      (λ p. find-assign k p v old b e);
                size = rw e';
              },
            )
        | inl e ↦
            let e' : get s k ≡ none = unfold get in e in
            elim (Option-cases s.pool.free_list) [
              | inl empty ↦ inl (e', empty, rw (e, put, FixedBlock.allocate, empty, ◌>>=◌) refl)
              | inr (block, f) ↦ inr (
                record s {
                  buckets =
                      set s.buckets (bucket_index s k)
                        (record { key = k; value = v; block = block } ∷ b);
                  pool = record (s.pool) { free_list = s.pool.next block };
                  size = s.size + 1;
                },
                rw (e, put, FixedBlock.allocate, f, ◌>>=◌) refl,
                record {
                  reads = λ q.
                      get-exchanged s _ k q v _ pos refl
                        (λ p. find-prepend p (record { key = k; value = v; block = block }) b);
                  size = rw e';
                },
              )
            ]
      ]
