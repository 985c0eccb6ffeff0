-- ===== src/HashMap/Buckets.antt =====
-- The bucket vector of hash_map/include/hash_map/hash_map.hpp: the two loops of `rehash`, and where
-- the nodes of a vector stand.
use cpp_systems_playground.Prelude.{
  ℕ, zero, suc, ◌+◌, ◌%◌, ◌≤◌, ◌<◌, ◌≡◌, ap, false, Option, List, [], ◌∷◌, ◌++◌, arith, length,
  get_or, set, length-set, get_or-set_self, get_or-set_ne, Key, if◌then◌else◌, ◌==◌, equal_ne,
}
use native.Mathlib.Decide.{ℕ_discrete}
use native.Mathlib.Nat.{mod-lt}
use cpp_systems_playground.HashMap.Bucket.{Node, bit, find, count}

module _ {ℓ} {K V : Type ℓ} ⦃key : Key K⦄ where
  -- `new_buckets[idx].push_front(node)`
  unfoldable pub push_front : List (List (Node K V)) → Node K V → List (List (Node K V))
  push_front bs n = let i = key.hash n.key % length bs in set bs i (n ∷ get_or bs i [])

  -- The inner loop of `rehash`.
  unfoldable pub place : List (Node K V) → List (List (Node K V)) → List (List (Node K V))
  place [] fresh = fresh
  place (n ∷ b) fresh = place b (push_front fresh n)

  -- The outer loop of `rehash`.
  unfoldable pub place_all :
      List (List (Node K V)) → List (List (Node K V)) → List (List (Node K V))
  place_all [] fresh = fresh
  place_all (b ∷ bs) fresh = place_all bs (place b fresh)

  -- Every bucket is cleared; the vector keeps its size.
  unfoldable pub clear_buckets : List (List (Node K V)) → List (List (Node K V))
  clear_buckets [] = []
  clear_buckets (b ∷ bs) = [] ∷ clear_buckets bs

  -- All nodes, bucket after bucket, and how many there are.
  unfoldable pub entries : List (List (Node K V)) → List (Node K V)
  entries [] = []
  entries (b ∷ bs) = b ++ entries bs

  unfoldable pub total : List (List (Node K V)) → ℕ
  total [] = 0
  total (b ∷ bs) = length b + total bs

  abbrev pub home : K → List (List (Node K V)) → ℕ
  home q bs = key.hash q % length bs

  abbrev pub home_bucket : K → List (List (Node K V)) → List (Node K V)
  home_bucket q bs = get_or bs (home q bs) []

  -- A key occurs in no bucket but the one that it hashes to, and there at most once.
  abbrev pub IsPlaced : List (List (Node K V)) → Type ℓ
  IsPlaced bs = (q : K) (i : ℕ) → count q (get_or bs i []) ≤ bit (home q bs == i)

  pub home-lt : (q : K) (bs : List (List (Node K V))) → 0 < length bs → home q bs < length bs
  home-lt q bs h = mod-lt (key.hash q) h

  -- One bucket is exchanged.
  pub total-set :
      (bs : List (List (Node K V))) (i : ℕ) (b : List (Node K V))
      → i < length bs
      → total (set bs i b) + length (get_or bs i []) ≡ total bs + length b
  unfolding total
  total-set [] i b h = absurd (omega arith)
  total-set (c ∷ bs) zero b h = omega arith
  total-set (c ∷ bs) (suc i) b h = omega (arith, total-set bs i b)

  pub set-IsPlaced :
      (bs : List (List (Node K V))) (i : ℕ) (b : List (Node K V))
      → i < length bs
      → IsPlaced bs
      → ((q : K) → count q b ≤ bit (home q bs == i))
      → IsPlaced (set bs i b)
  set-IsPlaced bs i b room placed few q j = elim (ℕ_discrete i j) [
    | yes e ↦ rw (length-set bs i b, ← e, get_or-set_self bs i b [] room) (few q)
    | no e ↦ rw (length-set bs i b, get_or-set_ne bs i j b [] e) (placed q j)
  ]

  -- What the vector stores under a key.
  abbrev pub view : List (List (Node K V)) → K → Option V
  view bs q = find q (home_bucket q bs)

  -- A bucket that is exchanged for one that stores `w` under `k` changes the view at `k` alone.
  pub view-set :
      (bs : List (List (Node K V))) (k q : K) (w : Option V) (b : List (Node K V))
      → 0 < length bs
      → ((p : K) → find p b ≡ (if key.equal k p then w else find p (home_bucket k bs)))
      → view (set bs (home k bs) b) q ≡ (if key.equal k q then w else view bs q)
  view-set bs k q w b pos writes = elim (ℕ_discrete (home k bs) (home q bs)) [
    | yes e ↦
        rw
          (length-set bs (home k bs) b, ← e, get_or-set_self bs (home k bs) b [] (home-lt k bs pos))
          (writes q)
    | no e ↦
        let other : key.equal k q ≡ false = equal_ne k q (λ p. e (ap (λ x. home x bs) p)) in
        rw (length-set bs (home k bs) b, get_or-set_ne bs (home k bs) (home q bs) b [] e, other)
  ]
