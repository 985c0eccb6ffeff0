-- ===== src/HashMap/Rehash.antt =====
-- `rehash` of hash_map/include/hash_map/hash_map.hpp as a whole.
use mathlib.Core.Option.{or_else}
use cpp_systems_playground.Prelude.{
  ℕ, zero, suc, ◌+◌, ◌≤◌, ◌<◌, ◌≡◌, refl, sym, ◌∙◌, none, List, [], ◌∷◌, ◌++◌, arith, length,
  get_or, replicate, length-replicate, get_or-replicate, Key,
}
use cpp_systems_playground.HashMap.Bucket.{Node, find, count, find-eq-none, count-eq-zero}
use cpp_systems_playground.HashMap.Buckets.{
  push_front, place, place_all, entries, total, home, home_bucket, IsPlaced, view,
}
use cpp_systems_playground.HashMap.Entries.{push_front-Pushes, entries-view, length-entries}

module _ {ℓ} {K V : Type ℓ} ⦃key : Key K⦄ where
  -- The nodes `b` moved into `fresh`.
  pub record Places (b : List (Node K V)) (fresh result : List (List (Node K V))) : Type ℓ where
    pub width : length result ≡ length fresh
    pub grown : total result ≡ total fresh + length b
    pub placed : IsPlaced result
    pub reads : (q : K) → view result q ≡ or_else (find q b) (view fresh q)

  pub place-Places :
      (b : List (Node K V)) (fresh : List (List (Node K V)))
      → 0 < length fresh
      → IsPlaced fresh
      → ((q : K) → count q b + count q (home_bucket q fresh) ≤ 1)
      → Places b fresh (place b fresh)
  unfolding place find count or_else
  place-Places [] fresh pos placed once = record {
    width = refl;
    grown = omega arith;
    placed = placed;
    reads = λ q. refl;
  }
  place-Places (n ∷ b) fresh pos placed once =
      let s =
        push_front-Pushes fresh n pos placed
          (ground (arith, once n.key, key.equal_iff n.key n.key)) in
      let t = place-Places b (push_front fresh n) (rw (s.width) pos) s.placed (λ q. ground (
        arith,
        once q,
        s.placed q (home q (push_front fresh n)),
        s.reads q,
        find-eq-none q (home_bucket q fresh),
        count-eq-zero q (home_bucket q (push_front fresh n)),
      )) in
      record {
        width = t.width ∙ s.width;
        grown = omega (arith, t.grown, s.grown);
        placed = t.placed;
        reads = λ q. ground (arith, t.reads q, s.reads q, once q, find-eq-none q b);
      }

  place-append :
      (a b : List (Node K V)) (fresh : List (List (Node K V)))
      → place (a ++ b) fresh ≡ place b (place a fresh)
  unfolding place
  place-append [] b fresh = refl
  place-append (n ∷ a) b fresh = place-append a b (push_front fresh n)

  -- The two nested loops are one loop over all the nodes.
  place_all-entries :
      (bs fresh : List (List (Node K V))) → place_all bs fresh ≡ place (entries bs) fresh
  unfolding place_all entries place
  place_all-entries [] fresh = refl
  place_all-entries (b ∷ bs) fresh =
      place_all-entries bs (place b fresh) ∙ sym (place-append b (entries bs) fresh)

-- A vector of empty buckets.
module _ {ℓ} (K V : Type ℓ) ⦃key : Key K⦄ where
  pub total-replicate : (n : ℕ) → total (replicate {A = List (Node K V)} n []) ≡ 0
  unfolding total
  total-replicate zero = refl
  total-replicate (suc n) = omega (arith, total-replicate n)

  count-replicate :
      (q : K) (n i : ℕ) → count q (get_or (replicate {A = List (Node K V)} n []) i []) ≡ 0
  unfolding count
  count-replicate q n i = rw (get_or-replicate {A = List (Node K V)} n i [])

  pub replicate-IsPlaced : (n : ℕ) → IsPlaced (replicate {A = List (Node K V)} n [])
  replicate-IsPlaced n q i = omega (arith, count-replicate q n i)

  pub replicate-view : (n : ℕ) (q : K) → view (replicate {A = List (Node K V)} n []) q ≡ none
  replicate-view n q = find-eq-none q _ (count-replicate q n _)

module _ {ℓ} {K V : Type ℓ} ⦃key : Key K⦄ where
  -- A new vector of `n` buckets takes every node over: as many nodes, each in its bucket, and the
  -- same value under every key.
  pub record Rehashed (n : ℕ) (bs result : List (List (Node K V))) : Type ℓ where
    pub width : length result ≡ n
    pub kept : total result ≡ total bs
    pub placed : IsPlaced result
    pub reads : (q : K) → view result q ≡ view bs q

  pub place_all-Rehashed :
      (n : ℕ) (bs : List (List (Node K V)))
      → 0 < n
      → IsPlaced bs
      → Rehashed n bs (place_all bs (replicate n []))
  unfolding or_else
  place_all-Rehashed n bs pos placed =
      let fresh = replicate {A = List (Node K V)} n [] in
      let wide : length fresh ≡ n = length-replicate {A = List (Node K V)} n [] in
      let t = place-Places (entries bs) fresh (rw wide pos) (replicate-IsPlaced K V n) (λ q.
        omega (arith, (entries-view q bs placed).0, count-replicate K V q n (home q fresh))) in
      rw (place_all-entries bs fresh) (record {
        width = t.width ∙ wide;
        kept = omega (arith, t.grown, total-replicate K V n, length-entries bs);
        placed = t.placed;
        reads =
            λ q. ground (arith, t.reads q, (entries-view q bs placed).1, replicate-view K V n q);
      })
