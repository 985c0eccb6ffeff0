-- ===== src/HashMap/Load.antt =====
-- The load factor of `HashMap` under insertions.
use cpp_systems_playground.Prelude.{
  ℕ, ◌*◌, ◌^◌, ◌≤◌, ◌<◌, ◌≡◌, sym, ap, ◌∙◌, false, not, none, some, ◌∷◌, arith, length, set, Key,
  if◌then◌else◌, ok, ◌>>=◌, inl, inr, is_some, Bool-cases, ltb, ◌==◌, length-set, ==_ne,
  Option-cases,
}
use cpp_systems_playground.HashMap.{
  Map, Floats, maybe_rehash, rehash, overloaded, prepend, insert_or_assign, load_factor,
  default_bucket_count,
}
use cpp_systems_playground.HashMap.Bucket.{find, assign}
use cpp_systems_playground.HashMap.Buckets.{home, home_bucket}
use cpp_systems_playground.HashMap.Refine.{IsValid, lookup, locate-home}
use cpp_systems_playground.HashMap.Rehash.{place_all-Rehashed}
use cpp_systems_playground.HashMap.Members.{prepend-Writes}

-- What the comparison of a load with 0.75 says about whole numbers that a `double` holds exactly,
-- rounding included.
pub record IsExact {D : Type 0} (floats : Floats D) : Type 0 where
  pub within :
      (a b : ℕ)
      → 0 < b
      → b < 2 ^ 50
      → floats.gt (floats.ratio a b) floats.three_quarters ≡ false
      → 4 * a ≤ 3 * b

module _ {ℓ} {D : Type 0} {K V : Type ℓ} ⦃floats : Floats D⦄ ⦃key : Key K⦄ where
  -- At most three quarters full, with the load factor that the constructor sets.
  pub record IsLight (m : Map D K V) : Type 0 where
    pub factor : m.max_load_factor ≡ floats.three_quarters
    pub load : 4 * m.size ≤ 3 * length m.buckets

  load-ratio : {m : Map D K V} → IsValid m → load_factor m ≡ floats.ratio m.size (length m.buckets)
  unfolding load_factor
  load-ratio {m} v = rw (==_ne (length m.buckets) 0 (λ e. absurd (omega (arith, v.nonempty))))

  maybe_rehash-IsLight :
      {m : Map D K V}
      → IsExact floats
      → IsValid m
      → m.max_load_factor ≡ floats.three_quarters
      → 4 * m.size ≤ 6 * length m.buckets
      → length m.buckets < 2 ^ 50
      → IsLight (maybe_rehash m)
  unfolding maybe_rehash rehash overloaded load_factor
  maybe_rehash-IsLight {m} exact v f few few_buckets = elim (Bool-cases (overloaded m)) [
    | inl over ↦
        let n = length m.buckets * 2 in
        let count = if n == 0 then default_bucket_count else n in
        let t =
          place_all-Rehashed (if ltb count 1 then 1 else count) m.buckets (ground arith) v.placed in
        rw over (record { factor = f; load = rw t.width (ground (arith, v.nonempty)) })
    | inr under ↦
        let low : floats.gt (floats.ratio m.size (length m.buckets)) floats.three_quarters ≡ false =
          ap (λ d. floats.gt d floats.three_quarters) (sym (load-ratio v))
          ∙ ap (floats.gt (load_factor m)) (sym f)
          ∙ under in
        rw under (record {
          factor = f;
          load = exact.within m.size (length m.buckets) v.nonempty few_buckets low;
        })
  ]

  -- On a valid map of fewer than 2^50 buckets that is at most three quarters full, and whose limit
  -- is 0.75, `insert_or_assign` leaves a map that is at most three quarters full and has this limit,
  -- for floating-point numbers that compare loads exactly below that size.
  pub insert_or_assign-IsLight :
      {m : Map D K V} (k : K) (v : V)
      → IsExact floats
      → IsValid m
      → IsLight m
      → length m.buckets < 2 ^ 50
      → (m' : Map D K V) × (insert_or_assign m k v ≡ ok (not (is_some (lookup m k)), m'))
        × IsLight m'
  unfolding insert_or_assign
  insert_or_assign-IsLight {m} k v exact valid light few = elim (Option-cases (lookup m k)) [
    | inr (old, e) ↦
        let e' : find k (home_bucket k m.buckets) ≡ some old = unfold lookup in e in
        (
          record m {
            buckets = set m.buckets (home k m.buckets) (assign k v (home_bucket k m.buckets));
          },
          rw (locate-home k valid, ◌>>=◌, e, e'),
          record {
            factor = light.factor;
            load =
                rw (length-set m.buckets (home k m.buckets) (assign k v (home_bucket k m.buckets)))
                  light.load;
          },
        )
    | inl e ↦
        let e' : find k (home_bucket k m.buckets) ≡ none = unfold lookup in e in
        let t = prepend-Writes k v valid e in
        (
          maybe_rehash (prepend m (home k m.buckets) (home_bucket k m.buckets) k v),
          rw (locate-home k valid, ◌>>=◌, e, e'),
          maybe_rehash-IsLight exact t.valid (unfold prepend in light.factor)
              (unfold prepend in
                (omega (
                  arith,
                  length-set m.buckets (home k m.buckets)
                      (record { key = k; value = v } ∷ home_bucket k m.buckets),
                  valid.nonempty,
                  light.load,
                )))
              (unfold prepend in
                (rw
                  (length-set m.buckets (home k m.buckets)
                    (record { key = k; value = v } ∷ home_bucket k m.buckets))
                  few)),
        )
  ]
