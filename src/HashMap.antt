-- ===== src/HashMap.antt =====
-- hash_map/include/hash_map/hash_map.hpp: `HashMap<Key, T, Hash, KeyEqual>`, with the members as
-- functions from the map before a call to the map after it.
pub mod Bucket
pub mod Buckets
pub mod Refine
pub mod Entries
pub mod Rehash
pub mod Members
pub mod Capacity
pub mod Load
pub mod Histories
pub mod Contents
use cpp_systems_playground.Prelude.{
  ℕ, zero, suc, ◌+◌, ◌-◌, ◌*◌, ◌%◌, ◌^◌, Bool, true, false, Option, none, some, List, [], ◌∷◌,
  length, get_or, set, replicate, Outcome, ok, err, Fault, ◌>>=◌, Key, ltb, ◌==◌, if◌then◌else◌,
  is_some,
}
use Bucket.{Node, find, assign, remove}
use Buckets.{place_all, clear_buckets}

-- The floating-point numbers of the load factor, which the language provides.
pub record Floats (D : Type 0) : Type 0 where
  -- `0.0`
  pub zero_load : D
  -- `0.75`
  pub three_quarters : D
  -- `static_cast<double>(a) / static_cast<double>(b)`
  pub ratio : ℕ → ℕ → D
  -- `a > b`
  pub gt : D → D → Bool
  -- `a <= b`
  pub le : D → D → Bool
  -- `static_cast<size_type>(static_cast<float>(n) / d)`, where the conversion is defined: where a
  -- `size_type` can represent the quotient without its fraction.
  pub quotient : ℕ → D → Option ℕ

pub record Map {ℓ} (D : Type 0) (K V : Type ℓ) : Type ℓ where
  pub buckets : List (List (Node K V))
  pub size : ℕ
  pub max_load_factor : D

-- A map with the name of the memory that its vector of buckets has.
pub record Located {ℓ} (D : Type 0) (K V : Type ℓ) : Type ℓ where
  pub map : Map D K V
  pub memory : ℕ

-- A reference to a bucket: the memory that it points into, and the index.
pub record Reference : Type 0 where
  pub memory : ℕ
  pub index : ℕ

-- `bucket.front()`
unfoldable pub front {ℓ} : {A : Type ℓ} → List A → Outcome A
front [] = err Fault.undefined
front (x ∷ b) = ok x

-- `kDefaultBucketCount`
abbrev pub default_bucket_count : ℕ
default_bucket_count = 16

module _ {ℓ} {D : Type 0} {K V : Type ℓ} ⦃floats : Floats D⦄ ⦃key : Key K⦄ where
  abbrev pub bucket_count : Map D K V → ℕ
  bucket_count m = length m.buckets

  abbrev pub is_empty : Map D K V → Bool
  is_empty m = m.size == 0

  unfoldable pub new : ℕ → Map D K V
  new count = record {
    buckets = replicate (if count == 0 then default_bucket_count else count) [];
    size = 0;
    max_load_factor = floats.three_quarters;
  }

  -- The move constructor: the new map, and what is left of `other`, whose vector is empty.
  unfoldable pub move : Map D K V → Map D K V × Map D K V
  move other = (other, record other { buckets = []; size = 0 })

  -- Move assignment from another map: the two maps afterwards. What `m` held is gone.
  unfoldable pub move_assign : Map D K V → Map D K V → Map D K V × Map D K V
  move_assign m other = (other, record other { buckets = []; size = 0 })

  unfoldable pub load_factor : Map D K V → D
  load_factor m =
      if bucket_count m == 0 then floats.zero_load else floats.ratio m.size (bucket_count m)

  -- `hash_(key) % buckets_.size()`, which is undefined on a map that was moved from.
  unfoldable pub bucket_index : Map D K V → K → Outcome ℕ
  bucket_index m k =
      if bucket_count m == 0 then err Fault.undefined else ok (key.hash k % bucket_count m)

  -- The bucket of a key, as its index and its contents.
  unfoldable pub locate : Map D K V → K → Outcome (ℕ × List (Node K V))
  unfolding bucket_index
  locate m k = do i ← bucket_index m k; ok (i, get_or m.buckets i [])

  unfoldable pub rehash : Map D K V → ℕ → Map D K V
  rehash m count = record m {
    buckets = place_all m.buckets (replicate (if ltb count 1 then 1 else count) []);
  }

  -- The test of `maybe_rehash`.
  unfoldable pub overloaded : Map D K V → Bool
  unfolding load_factor
  overloaded m = floats.gt (load_factor m) m.max_load_factor

  unfoldable pub maybe_rehash : Map D K V → Map D K V
  maybe_rehash m =
      let count = bucket_count m * 2 in
      if overloaded m then rehash m (if count == 0 then default_bucket_count else count) else m

  unfoldable pub set_max_load_factor : Map D K V → D → Outcome (Map D K V)
  set_max_load_factor m lf =
      if floats.le lf floats.zero_load
      then err Fault.invalid_argument
      else ok (maybe_rehash (record m { max_load_factor = lf }))

  -- `required_buckets`, where the quotient is defined; the 1 is added in a `size_type`.
  unfoldable pub reserve : Map D K V → ℕ → Outcome (Map D K V)
  reserve m new_capacity = elim (floats.quotient new_capacity m.max_load_factor) [
    | none ↦ err Fault.undefined
    | some q ↦
        let required = (q + 1) % 2 ^ 64 in
        ok (if ltb (bucket_count m) required then rehash m required else m)
  ]

  -- `bucket.push_front(Node{key, value}); ++size_;`
  unfoldable pub prepend : Map D K V → ℕ → List (Node K V) → K → V → Map D K V
  prepend m i b k v = record m {
    buckets = set m.buckets i (record { key = k; value = v } ∷ b);
    size = m.size + 1;
  }

  -- `do_insert_or_assign`: true if inserted, false if updated.
  unfoldable pub insert_or_assign : Map D K V → K → V → Outcome (Bool × Map D K V)
  unfolding prepend
  insert_or_assign m k v = do
    (i, b) ← locate m k
    elim (find k b) [
      | some _ ↦ ok (false, record m { buckets = set m.buckets i (assign k v b) })
      | none ↦ ok (true, maybe_rehash (prepend m i b k v))
    ]

  unfoldable pub erase : Map D K V → K → Outcome (Bool × Map D K V)
  erase m k = do
    (i, b) ← locate m k
    elim (find k b) [
      | some _ ↦ ok (true, record m { buckets = set m.buckets i (remove k b); size = m.size - 1 })
      | none ↦ ok (false, m)
    ]

  unfoldable pub clear : Map D K V → Map D K V
  clear m = record m { buckets = clear_buckets m.buckets; size = 0 }

  unfoldable pub get : Map D K V → K → Outcome (Option V)
  get m k = do (_, b) ← locate m k; ok (find k b)

  unfoldable pub contains : Map D K V → K → Outcome Bool
  contains m k = do (_, b) ← locate m k; ok (is_some (find k b))

  unfoldable pub count : Map D K V → K → Outcome ℕ
  count m k = do found ← contains m k; ok (if found then 1 else 0)

  unfoldable pub at : Map D K V → K → Outcome V
  at m k = do (_, b) ← locate m k; elim (find k b) [ some v ↦ ok v | none ↦ err Fault.out_of_range ]

  -- `rehash` assigns a new vector to `buckets_`, which has memory of its own; that of the old vector
  -- is freed.
  unfoldable pub rehash_located : Located D K V → ℕ → Located D K V
  rehash_located m count = record { map = rehash m.map count; memory = m.memory + 1 }

  unfoldable pub maybe_rehash_located : Located D K V → Located D K V
  unfolding rehash_located
  maybe_rehash_located m =
      let count = bucket_count m.map * 2 in
      if overloaded m.map
      then rehash_located m (if count == 0 then default_bucket_count else count)
      else m

  -- The bucket that a reference refers to: undefined if its memory is not that of the vector.
  unfoldable pub refer : Located D K V → Reference → Outcome (List (Node K V))
  refer m r =
      if r.memory == m.memory then ok (get_or m.map.buckets r.index []) else err Fault.undefined

  -- `operator[]`, with the value that the reference it returns reads. `bucket` is a reference that is
  -- made before `maybe_rehash` and used after it.
  unfoldable pub index : Map D K V → V → K → Outcome (V × Map D K V)
  unfolding prepend maybe_rehash_located refer front
  index m default k = do
    (i, b) ← locate m k
    let bucket : Reference = record { memory = 0; index = i }
    elim (find k b) [
      | some v ↦ ok (v, m)
      | none ↦
          let m' = maybe_rehash_located (record { map = prepend m i b k default; memory = 0 }) in
          do b' ← refer m' bucket; n ← front b'; ok (n.value, m'.map)
    ]
