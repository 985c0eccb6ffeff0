-- ===== src/HashMap/Capacity.antt =====
-- Construction, `clear`, moves and the load factor of `HashMap`.
use cpp_systems_playground.Prelude.{
  ℕ, ◌%◌, ◌^◌, some, Option-cases, ◌+◌, ◌<◌, ◌≡◌, refl, sym, ap, ◌⊎◌, true, false, none, List, [],
  ◌∷◌, arith, length, Key, if◌then◌else◌, ok, err, Fault, inl, inr, Bool-cases, ltb, ◌==◌,
  replicate, length-replicate,
}
use cpp_systems_playground.HashMap.{
  Map, Floats, locate, new, insert_or_assign, erase, get, contains, index, reserve, rehash,
  set_max_load_factor, clear, move, default_bucket_count,
}
use cpp_systems_playground.HashMap.Bucket.{Node}
use cpp_systems_playground.HashMap.Buckets.{clear_buckets}
use cpp_systems_playground.HashMap.Refine.{IsValid, lookup, Same, maybe_rehash-Same, rehash-Same}
use cpp_systems_playground.HashMap.Rehash.{total-replicate, replicate-IsPlaced, replicate-view}

module _ {ℓ} {K V : Type ℓ} ⦃key : Key K⦄ where
  clear_buckets-replicate :
      (bs : List (List (Node K V))) → clear_buckets bs ≡ replicate (length bs) []
  unfolding clear_buckets
  clear_buckets-replicate [] = refl
  clear_buckets-replicate (b ∷ bs) = ap (◌∷◌ []) (clear_buckets-replicate bs)

module _ {ℓ} {D : Type 0} {K V : Type ℓ} ⦃floats : Floats D⦄ ⦃key : Key K⦄ where
  -- A valid map without an entry.
  pub record Empty (m : Map D K V) : Type ℓ where
    pub valid : IsValid m
    pub size : m.size ≡ 0
    pub reads : (q : K) → lookup m q ≡ none

  Empty-map :
      (n : ℕ) (d : D)
      → 0 < n
      → Empty (record { buckets = replicate n []; size = 0; max_load_factor = d })
  unfolding lookup
  Empty-map n d pos = record {
    valid = record {
      nonempty = rw (length-replicate {A = List (Node K V)} n []) pos;
      placed = replicate-IsPlaced K V n;
      counted = sym (total-replicate K V n);
    };
    size = refl;
    reads = replicate-view K V n;
  }

  -- The constructor takes any bucket count, 0 included, to a valid empty map.
  pub new-Empty : (n : ℕ) → Empty (new {D = D} {K = K} {V = V} n)
  unfolding new
  new-Empty n =
      Empty-map (if n == 0 then default_bucket_count else n) floats.three_quarters (ground arith)

  -- `clear` empties a valid map and keeps its buckets.
  pub clear-Empty :
      {m : Map D K V} → IsValid m → Empty (clear m) × (length (clear m).buckets ≡ length m.buckets)
  unfolding clear
  clear-Empty {m} v = rw (clear_buckets-replicate m.buckets) (
    Empty-map (length m.buckets) m.max_load_factor v.nonempty,
    length-replicate {A = List (Node K V)} (length m.buckets) [],
  )

  -- Whether or not a map rehashes.
  grown-Same :
      {m : Map D K V} (required : ℕ)
      → IsValid m
      → Same m (if ltb (length m.buckets) required then rehash m required else m)
  unfolding lookup
  grown-Same {m} required v = elim (Bool-cases (ltb (length m.buckets) required)) [
    | inl more ↦ rw more (rehash-Same _ v)
    | inr enough ↦ rw enough (record { valid = v; size = refl; factor = refl; reads = λ q. refl })
  ]

  -- `reserve` on a valid map leaves a valid map with the same entries, or is undefined, exactly if a
  -- `size_type` cannot represent the quotient.
  pub reserve-cases :
      {m : Map D K V} (n : ℕ)
      → IsValid m
      → ((floats.quotient n m.max_load_factor ≡ none) × (reserve m n ≡ err Fault.undefined))
        ⊎ ((q : ℕ) × (m' : Map D K V) × (floats.quotient n m.max_load_factor ≡ some q)
            × (reserve m n ≡ ok m')
            × Same m m')
  unfolding reserve
  reserve-cases {m} n v = elim (Option-cases (floats.quotient n m.max_load_factor)) [
    | inl outside ↦ inl (outside, rw (reserve, outside) refl)
    | inr (q, e) ↦
        let required = (q + 1) % 2 ^ 64 in
        inr (
          q,
          (if ltb (length m.buckets) required then rehash m required else m),
          e,
          rw (reserve, e) refl,
          grown-Same required v,
        )
  ]

  -- On a valid map, setting the maximal load factor throws exactly if the factor is not positive;
  -- otherwise the map is valid afterwards and has the same entries.
  pub set_max_load_factor-cases :
      {m : Map D K V} (lf : D)
      → IsValid m
      → ((floats.le lf floats.zero_load ≡ true)
          × (set_max_load_factor m lf ≡ err Fault.invalid_argument))
        ⊎ ((m' : Map D K V) × (floats.le lf floats.zero_load ≡ false)
            × (set_max_load_factor m lf ≡ ok m')
            × Same (record m { max_load_factor = lf }) m')
  unfolding set_max_load_factor
  set_max_load_factor-cases {m} lf v = elim (Bool-cases (floats.le lf floats.zero_load)) [
    | inl low ↦ inl (low, rw low)
    | inr fine ↦ inr (
      _,
      fine,
      rw fine,
      maybe_rehash-Same (record { nonempty = v.nonempty; placed = v.placed; counted = v.counted }),
    )
  ]

  -- A map that was moved from answers no call that looks for a key.
  pub moved-undefined :
      (m : Map D K V) (k : K) (v : V)
      → let left = (move m).1 in
        (get left k ≡ err Fault.undefined)
        × (contains left k ≡ err Fault.undefined)
        × (erase left k ≡ err Fault.undefined)
        × (insert_or_assign left k v ≡ err Fault.undefined)
        × (index left v k ≡ err Fault.undefined)
  unfolding move get contains erase insert_or_assign index locate
  moved-undefined m k v = (refl, refl, refl, refl, refl)
