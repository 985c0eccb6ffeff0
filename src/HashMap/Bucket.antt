-- ===== src/HashMap/Bucket.antt =====
-- One bucket of hash_map/include/hash_map/hash_map.hpp: a `std::list<Node>` and the loops over it.
use cpp_systems_playground.Prelude.{
  ℕ, ◌+◌, ◌≤◌, ◌≡◌, refl, Bool, true, false, Option, none, some, List, [], ◌∷◌, ◌++◌, arith, length,
  Key, if◌then◌else◌,
}

pub record Node {ℓ} (K V : Type ℓ) : Type ℓ where
  pub key : K
  pub value : V

abbrev pub Bucket {ℓ} : Type ℓ → Type ℓ → Type ℓ
Bucket K V = List (Node K V)

abbrev pub bit : Bool → ℕ
bit true = 1
bit false = 0

module _ {ℓ} {K V : Type ℓ} ⦃key : Key K⦄ where
  -- The value of the first node with an equal key: the loop of `get`, `at` and `contains`.
  unfoldable pub find : K → Bucket K V → Option V
  find k [] = none
  find k (n ∷ b) = if key.equal n.key k then some n.value else find k b

  -- `node.value = value` at the first node with an equal key.
  unfoldable pub assign : K → V → Bucket K V → Bucket K V
  assign k v [] = []
  assign k v (n ∷ b) = if key.equal n.key k then record n { value = v } ∷ b else n ∷ assign k v b

  -- `bucket.erase(it)` at the first node with an equal key.
  unfoldable pub remove : K → Bucket K V → Bucket K V
  remove k [] = []
  remove k (n ∷ b) = if key.equal n.key k then b else n ∷ remove k b

  -- How often a key occurs.
  unfoldable pub count : K → Bucket K V → ℕ
  count q [] = 0
  count q (n ∷ b) = bit (key.equal n.key q) + count q b

  pub find-eq-none : (q : K) (b : Bucket K V) → count q b ≡ 0 → find q b ≡ none
  unfolding find count
  find-eq-none q [] h = refl
  find-eq-none q (n ∷ b) h = ground (arith, find-eq-none q b)

  pub count-eq-zero : (q : K) (b : Bucket K V) → find q b ≡ none → count q b ≡ 0
  unfolding find count
  count-eq-zero q [] h = refl
  count-eq-zero q (n ∷ b) h = ground (arith, count-eq-zero q b)

  pub find-assign :
      (k q : K) (v old : V) (b : Bucket K V)
      → find k b ≡ some old
      → find q (assign k v b) ≡ (if key.equal k q then some v else find q b)
  unfolding find assign
  find-assign k q v old [] h = cc
  find-assign k q v old (n ∷ b) h = ground (
    arith,
    find-assign k q v old b,
    key.equal_iff n.key k,
    key.equal_iff n.key q,
    key.equal_iff k q,
  )

  pub count-assign : (k q : K) (v : V) (b : Bucket K V) → count q (assign k v b) ≡ count q b
  unfolding count assign
  count-assign k q v [] = refl
  count-assign k q v (n ∷ b) = ground (arith, count-assign k q v b)

  pub length-assign : (k : K) (v : V) (b : Bucket K V) → length (assign k v b) ≡ length b
  unfolding assign
  length-assign k v [] = refl
  length-assign k v (n ∷ b) = ground (arith, length-assign k v b)

  pub find-remove :
      (k q : K) (b : Bucket K V)
      → count q b ≤ 1
      → find q (remove k b) ≡ (if key.equal k q then none else find q b)
  unfolding find remove count
  find-remove k q [] h = ground arith
  find-remove k q (n ∷ b) h = ground (
    arith,
    find-remove k q b,
    find-eq-none q b,
    key.equal_iff n.key k,
    key.equal_iff n.key q,
    key.equal_iff k q,
  )

  pub count-remove-le : (k q : K) (b : Bucket K V) → count q (remove k b) ≤ count q b
  unfolding count remove
  count-remove-le k q [] = omega arith
  count-remove-le k q (n ∷ b) = ground (arith, count-remove-le k q b)

  pub length-remove :
      (k : K) (old : V) (b : Bucket K V) → find k b ≡ some old → length (remove k b) + 1 ≡ length b
  unfolding find remove
  length-remove k old [] h = cc
  length-remove k old (n ∷ b) h = ground (arith, length-remove k old b)

  pub count-append : (q : K) (a b : Bucket K V) → count q (a ++ b) ≡ count q a + count q b
  unfolding count
  count-append q [] b = omega arith
  count-append q (n ∷ a) b = omega (arith, count-append q a b)

  pub find-append_left : (q : K) (a b : Bucket K V) → count q b ≡ 0 → find q (a ++ b) ≡ find q a
  unfolding find
  find-append_left q [] b h = find-eq-none q b h
  find-append_left q (n ∷ a) b h = ground (arith, find-append_left q a b)

  pub find-append_right : (q : K) (a b : Bucket K V) → count q a ≡ 0 → find q (a ++ b) ≡ find q b
  unfolding find count
  find-append_right q [] b h = refl
  find-append_right q (n ∷ a) b h = ground (arith, find-append_right q a b)
