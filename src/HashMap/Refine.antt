-- ===== src/HashMap/Refine.antt =====
-- Every member of `HashMap` against the partial function from keys to values that it stands for.
use cpp_systems_playground.Prelude.{
  ℕ, ◌+◌, ◌≤◌, ◌<◌, ◌≡◌, refl, sym, ◌∙◌, Option, List, arith, length, set, length-set, Key,
  if◌then◌else◌, ◌==◌, ltb, ok, inl, inr, is_some, Bool-cases, ==_ne,
}
use cpp_systems_playground.HashMap.{Map, Floats, locate, rehash, maybe_rehash, overloaded}
use cpp_systems_playground.HashMap.Bucket.{Node, bit, find, count}
use cpp_systems_playground.HashMap.Buckets.{
  total, home, home_bucket, home-lt, IsPlaced, total-set, set-IsPlaced, view, view-set,
}
use cpp_systems_playground.HashMap.Rehash.{place_all-Rehashed}

module _ {ℓ} {D : Type 0} {K V : Type ℓ} where
  -- There is a bucket, every node is where its hash says and no key is there twice, and `size_`
  -- counts the nodes.
  pub record IsValid ⦃key : Key K⦄ (m : Map D K V) : Type ℓ where
    pub nonempty : 0 < length m.buckets
    pub placed : IsPlaced m.buckets
    pub counted : m.size ≡ total m.buckets

module _ {ℓ} {D : Type 0} {K V : Type ℓ} ⦃floats : Floats D⦄ ⦃key : Key K⦄ where
  -- The value stored under a key.
  unfoldable pub lookup : Map D K V → K → Option V
  lookup m q = view m.buckets q

  pub locate-home :
      {m : Map D K V} (k : K)
      → IsValid m
      → locate m k ≡ ok (home k m.buckets, home_bucket k m.buckets)
  unfolding locate
  locate-home {m} k v = rw (==_ne (length m.buckets) 0 (λ e. absurd (omega (arith, v.nonempty))))

  -- `m'` is valid and stores what `m` does.
  pub record Same (m m' : Map D K V) : Type ℓ where
    pub valid : IsValid m'
    pub size : m'.size ≡ m.size
    pub factor : m'.max_load_factor ≡ m.max_load_factor
    pub reads : (q : K) → lookup m' q ≡ lookup m q

  pub rehash-Same : {m : Map D K V} (n : ℕ) → IsValid m → Same m (rehash m n)
  unfolding rehash lookup
  rehash-Same {m} n v =
      let count = if ltb n 1 then 1 else n in
      let t = place_all-Rehashed count m.buckets (ground arith) v.placed in
      record {
        valid = record {
          nonempty = rw t.width (ground arith);
          placed = t.placed;
          counted = v.counted ∙ sym t.kept;
        };
        size = refl;
        factor = refl;
        reads = t.reads;
      }

  pub maybe_rehash-Same : {m : Map D K V} → IsValid m → Same m (maybe_rehash m)
  unfolding maybe_rehash lookup
  maybe_rehash-Same {m} v = elim (Bool-cases (overloaded m)) [
    | inl over ↦ rw over (rehash-Same _ v)
    | inr under ↦ rw under (record { valid = v; size = refl; factor = refl; reads = λ q. refl })
  ]

  -- What a write of `w` under `k` makes of `m`: the other keys keep their values, and the map its
  -- maximal load factor.
  pub record Writes (m m' : Map D K V) (k : K) (w : Option V) : Type ℓ where
    pub valid : IsValid m'
    pub size : m'.size + bit (is_some (lookup m k)) ≡ m.size + bit (is_some w)
    pub factor : m'.max_load_factor ≡ m.max_load_factor
    pub reads : (q : K) → lookup m' q ≡ (if key.equal k q then w else lookup m q)

  -- An exchanged home bucket.
  pub exchange-Writes :
      {m : Map D K V} (k : K) (w : Option V) (b : List (Node K V)) (size : ℕ)
      → IsValid m
      → ((q : K) → count q b ≤ bit (home q m.buckets == home k m.buckets))
      → ((q : K) → find q b ≡ (if key.equal k q then w else find q (home_bucket k m.buckets)))
      → size + length (home_bucket k m.buckets) ≡ m.size + length b
      → size + bit (is_some (lookup m k)) ≡ m.size + bit (is_some w)
      → Writes m (record m { buckets = set m.buckets (home k m.buckets) b; size = size }) k w
  unfolding lookup
  exchange-Writes {m} k w b size v few reads sum counts =
      let room = home-lt k m.buckets v.nonempty in
      record {
        valid = record {
          nonempty = rw (length-set m.buckets _ b) (v.nonempty);
          placed = set-IsPlaced m.buckets _ b room v.placed few;
          counted = omega (arith, total-set m.buckets _ b room, v.counted);
        };
        size = counts;
        factor = refl;
        reads = λ q. view-set m.buckets k q w b v.nonempty reads;
      }
