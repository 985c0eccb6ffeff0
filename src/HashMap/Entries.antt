-- ===== src/HashMap/Entries.antt =====
-- The entries of a bucket vector of hash_map/include/hash_map/hash_map.hpp, which `rehash` moves.
use cpp_systems_playground.Prelude.{
  ℕ, zero, suc, ◌+◌, ◌≤◌, ◌<◌, ◌≡◌, refl, ◌∙◌, ◌≢◌, some, List, [], ◌∷◌, arith, length,
  length-append, get_or, length-set, Key, if◌then◌else◌,
}
use cpp_systems_playground.HashMap.Bucket.{
  Node, find, count, count-append, find-append_left, find-append_right,
}
use cpp_systems_playground.HashMap.Buckets.{
  push_front, entries, total, home, home_bucket, home-lt, IsPlaced, total-set, set-IsPlaced, view,
  view-set,
}

module _ {ℓ} {K V : Type ℓ} ⦃key : Key K⦄ where
  entries_absent :
      (q : K) (bs : List (List (Node K V)))
      → ((i : ℕ) → count q (get_or bs i []) ≡ 0)
      → count q (entries bs) ≡ 0
  unfolding entries count
  entries_absent q [] h = refl
  entries_absent q (b ∷ bs) h =
      omega (arith, count-append q b (entries bs), h 0, entries_absent q bs (λ i. h (suc i)))

  -- A key that stands in one bucket alone is found there.
  entries_only :
      (q : K) (bs : List (List (Node K V))) (j : ℕ)
      → ((i : ℕ) → i ≢ j → count q (get_or bs i []) ≡ 0)
      → (count q (entries bs) ≡ count q (get_or bs j []))
        × (find q (entries bs) ≡ find q (get_or bs j []))
  unfolding entries
  entries_only q [] j h = (refl, refl)
  entries_only q (b ∷ bs) zero h =
      let rest = entries_absent q bs (λ i. h (suc i) (omega arith)) in
      (omega (arith, count-append q b (entries bs)), find-append_left q b (entries bs) rest)
  entries_only q (b ∷ bs) (suc j) h =
      let here = h 0 (omega arith) in
      let (counted, found) = entries_only q bs j (λ i ne. h (suc i) (omega arith)) in
      (
        omega (arith, count-append q b (entries bs)),
        find-append_right q b (entries bs) here ∙ found,
      )

  pub entries-view :
      (q : K) (bs : List (List (Node K V)))
      → IsPlaced bs
      → (count q (entries bs) ≤ 1) × (find q (entries bs) ≡ view bs q)
  entries-view q bs placed =
      let (counted, found) = entries_only q bs (home q bs) (λ i ne. ground (arith, placed q i)) in
      (ground (arith, placed q (home q bs)), found)

  pub length-entries : (bs : List (List (Node K V))) → length (entries bs) ≡ total bs
  unfolding entries total
  length-entries [] = refl
  length-entries (b ∷ bs) = omega (arith, length-append b (entries bs), length-entries bs)

  -- What `push_front` does with a node whose key is not there yet.
  pub record Pushes (bs bs' : List (List (Node K V))) (n : Node K V) : Type ℓ where
    pub width : length bs' ≡ length bs
    pub grown : total bs' ≡ total bs + 1
    pub placed : IsPlaced bs'
    pub reads : (q : K) → view bs' q ≡ (if key.equal n.key q then some n.value else view bs q)

  pub push_front-Pushes :
      (bs : List (List (Node K V))) (n : Node K V)
      → 0 < length bs
      → IsPlaced bs
      → count n.key (home_bucket n.key bs) ≡ 0
      → Pushes bs (push_front bs n) n
  unfolding push_front find count
  push_front-Pushes bs n pos placed absent =
      let b = home_bucket n.key bs in
      let room = home-lt n.key bs pos in
      record {
        width = length-set bs _ _;
        grown = omega (arith, total-set bs (home n.key bs) (n ∷ b) room);
        placed =
            set-IsPlaced bs _ (n ∷ b) room placed
              λ q. ground (arith, placed q (home n.key bs), key.equal_iff n.key q);
        reads = λ q. view-set bs n.key q (some n.value) (n ∷ b) pos (λ p. refl);
      }
