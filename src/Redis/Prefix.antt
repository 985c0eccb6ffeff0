-- ===== src/Redis/Prefix.antt =====
-- `nextPrefix` and `prefix_get` of `KVStore` against the keys that start with the prefix.
use cpp_systems_playground.Prelude.{
  ℕ, zero, suc, ◌+◌, ◌-◌, ◌<◌, ◌⊎◌, ◌≡◌, refl, Bool, true, false, not, ◌&&◌, ◌||◌, List, [], ◌∷◌,
  arith, ◌==◌, if◌then◌else◌, Bool-cases, inl, inr,
}
use cpp_systems_playground.Redis.{
  Text, Entry, Store, less, is_expired, bump, next_prefix, lower_bound, is_empty, collect,
  prefix_get,
}
use cpp_systems_playground.Redis.Order.{Above, IsSorted, less_trans}

unfoldable pub starts_with : Text → Text → Bool
starts_with [] k = true
starts_with (a ∷ p) [] = false
starts_with (a ∷ p) (b ∷ k) = a == b && starts_with p k

-- A text is made of bytes.
abbrev pub IsBytes : Text → Type 0
IsBytes [] = Unit
IsBytes (b ∷ l) = (b < 256) × IsBytes l

-- The tests that `prefix_get` makes of a key.
abbrev pub in_range : Text → Text → Bool
in_range p k = not (less k p) && (is_empty (next_prefix p) || less k (next_prefix p))

-- For a prefix and a key made of bytes, the key is not before the prefix, and before what
-- `nextPrefix` returns unless that is empty, exactly if it starts with the prefix.
in_range-starts_with : (p k : Text) → IsBytes p → IsBytes k → in_range p k ≡ starts_with p k
unfolding less next_prefix bump is_empty starts_with
in_range-starts_with [] [] a b = refl
in_range-starts_with [] (y ∷ k) a b = refl
in_range-starts_with (x ∷ p) [] a b = refl
in_range-starts_with (x ∷ p) (y ∷ k) a b = ground (arith, in_range-starts_with p k a.1 b.1)

-- Every key of a map is made of bytes.
abbrev pub KeysBytes : List (Text × Entry) → Type 0
KeysBytes [] = Unit
KeysBytes ((j, e) ∷ m) = IsBytes j × KeysBytes m

-- The entries that start with a prefix and have not expired, in their order.
unfoldable pub matching : ℕ → Text → List (Text × Entry) → List (Text × Text)
matching now p [] = []
matching now p ((j, e) ∷ m) =
    let rest = matching now p m in
    if starts_with p j && not (is_expired e now) then (j, e.value) ∷ rest else rest

unfoldable pub take {ℓ} : {A : Type ℓ} → ℕ → List A → List A
take zero l = []
take (suc n) [] = []
take (suc n) (x ∷ l) = x ∷ take n l

-- The first results, all of them for a limit of 0.
abbrev pub limited : ℕ → List (Text × Text) → List (Text × Text)
limited limit l = if limit == 0 then l else take limit l

-- No key comes before a text.
abbrev NotBefore : Text → List (Text × Entry) → Type 0
NotBefore p [] = Unit
NotBefore p ((j, e) ∷ m) = (less j p ≡ false) × NotBefore p m

Above-NotBefore :
    (p j : Text) (m : List (Text × Entry)) → less j p ≡ false → Above j m → NotBefore p m
Above-NotBefore p j [] h s = tt
Above-NotBefore p j ((k, e) ∷ m) h s =
    (ground (arith, less_trans j k p s.0), Above-NotBefore p j m h s.1)

-- Behind the upper bound nothing starts with the prefix.
matching-beyond :
    (now : ℕ) (p : Text) (m : List (Text × Entry)) (j : Text)
    → IsBytes p
    → KeysBytes m
    → Above j m
    → (is_empty (next_prefix p) || less j (next_prefix p)) ≡ false
    → matching now p m ≡ []
unfolding matching
matching-beyond now p [] j a b s h = refl
matching-beyond now p ((k, e) ∷ m) j a b s h = ground (
  arith,
  matching-beyond now p m j a b.1 s.1 h,
  less_trans j k (next_prefix p) s.0,
  in_range-starts_with p k a b.0,
)

take-empty {ℓ} : {A : Type ℓ} (n : ℕ) → take {A = A} n [] ≡ []
unfolding take
take-empty zero = refl
take-empty (suc n) = refl

take-step {ℓ} :
    {A : Type ℓ} (n : ℕ) (x : A) (l : List A) → 0 < n → take n (x ∷ l) ≡ x ∷ take (n - 1) l
unfolding take
take-step zero x l h = absurd (omega arith)
take-step (suc n) x l h = let e : suc n - 1 ≡ n = omega arith in rw e refl

take-one {ℓ} : {A : Type ℓ} (n : ℕ) (x : A) (l : List A) → n ≡ 1 → take n (x ∷ l) ≡ x ∷ []
unfolding take
take-one n x l h = rw h refl

collect-matching :
    (now limit n : ℕ) (p : Text) (m : List (Text × Entry))
    → IsBytes p
    → KeysBytes m
    → IsSorted m
    → NotBefore p m
    → n < limit ⊎ (limit ≡ 0)
    → collect now (next_prefix p) limit n m
      ≡ (if limit == 0 then matching now p m else take (limit - n) (matching now p m))
unfolding collect matching
collect-matching now limit n p [] a b s low room =
    ground (arith, take-empty {A = Text × Text} (limit - n))
collect-matching now limit n p ((j, e) ∷ m) a b s low room =
    elim (Bool-cases (is_empty (next_prefix p) || less j (next_prefix p))) [
      | inl inside ↦ ground (
        arith,
        inside,
        take-step (limit - n) (j, e.value) (matching now p m),
        take-one (limit - n) (j, e.value) (matching now p m),
        collect-matching now limit n p m a b.1 s.1 low.1 room,
        collect-matching now limit (n + 1) p m a b.1 s.1 low.1,
        in_range-starts_with p j a b.0,
      )
      | inr beyond ↦ ground (
        arith,
        beyond,
        matching-beyond now p m j a b.1 s.0 beyond,
        take-empty {A = Text × Text} (limit - n),
        in_range-starts_with p j a b.0,
      )
    ]

-- What `lower_bound` drops does not start with the prefix.
lower_bound-matching :
    (now : ℕ) (p : Text) (m : List (Text × Entry))
    → IsBytes p
    → KeysBytes m
    → IsSorted m
    → (matching now p (lower_bound p m) ≡ matching now p m)
      × NotBefore p (lower_bound p m)
      × IsSorted (lower_bound p m)
      × KeysBytes (lower_bound p m)
unfolding lower_bound matching
lower_bound-matching now p [] a b s = (refl, tt, tt, tt)
lower_bound-matching now p ((j, e) ∷ m) a b s = elim (Bool-cases (less j p)) [
  | inl before ↦
      let (same, low, sorted, bytes) = lower_bound-matching now p m a b.1 s.1 in
      rw before (ground (arith, same, before, in_range-starts_with p j a b.0), low, sorted, bytes)
  | inr from ↦ rw from (refl, (from, Above-NotBefore p j m from s.0), s, b)
]

-- On a sorted store of byte strings `prefix_get` returns the entries that start with the prefix and
-- have not expired, in the order of their keys: all of them for a limit of 0, and otherwise as many
-- of them from the front as the limit allows.
pub prefix_get-matching :
    (s : Store) (now : ℕ) (prefix : Text) (limit : ℕ)
    → IsBytes prefix
    → KeysBytes s.store
    → IsSorted s.store
    → prefix_get s now prefix limit ≡ limited limit (matching now prefix s.store)
unfolding prefix_get
prefix_get-matching s now prefix limit a b sorted =
    let (same, low, sorted', bytes) = lower_bound-matching now prefix s.store a b sorted in
    let all : limit - 0 ≡ limit = omega arith in
    rw (all, same) at
      (collect-matching now limit 0 prefix (lower_bound prefix s.store) a bytes sorted' low
        (ground arith))
