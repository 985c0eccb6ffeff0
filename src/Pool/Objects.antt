-- ===== src/Pool/Objects.antt =====
-- The free slots of `ObjectPool` and the objects in the others.
use cpp_systems_playground.Prelude.{
  ℕ, zero, suc, ◌+◌, ◌<◌, ◌≡◌, refl, sym, ap, ◌⊎◌, inl, inr, Option, none, some, List, [], ◌∷◌,
  arith, length, ok, err, Fault, ltb, if◌then◌else◌, is_some, update, occurs, Option-cases,
}
use cpp_systems_playground.Pool.ObjectPool.{
  Pool, slots, Allocation, new, allocate_from, allocate, deallocate, free_slots,
}

-- What a number of constructed objects in the first slots comes to.
unfoldable pub live {ℓ} : {A : Type ℓ} → (ℕ → Option A) → ℕ → ℕ
live objects zero = 0
live objects (suc i) = (if is_some (objects i) then 1 else 0) + live objects i

-- A slot below `n` is in the free list once or holds an object, never both; no other slot occurs.
pub record IsValid {ℓ} {A : Type ℓ} (n : ℕ) (p : Pool A) : Type ℓ where
  pub shared :
      (i : ℕ)
      → occurs i p.freelist + (if is_some (p.objects i) then 1 else 0) ≡ (if ltb i n then 1 else 0)
  pub total : length p.freelist + live p.objects n ≡ n

slots-below : (n i : ℕ) → occurs i (slots n) ≡ (if ltb i n then 1 else 0)
unfolding slots
slots-below zero i = ground arith
slots-below (suc n) i = ground (arith, slots-below n i)

length-slots : (n : ℕ) → length (slots n) ≡ n
unfolding slots
length-slots zero = refl
length-slots (suc n) = ap suc (length-slots n)

live-none {ℓ} : (A : Type ℓ) (n : ℕ) → live {A = A} (λ i. none) n ≡ 0
unfolding live
live-none A zero = refl
live-none A (suc n) = omega (arith, live-none A n)

module _ {ℓ} {A : Type ℓ} where
  live-update :
      (objects : ℕ → Option A) (slot n : ℕ) (v : Option A)
      → live (update objects slot v) n
          + (if ltb slot n then (if is_some (objects slot) then 1 else 0) else 0)
        ≡ live objects n + (if ltb slot n then (if is_some v then 1 else 0) else 0)
  unfolding live
  live-update objects slot zero v = ground arith
  live-update objects slot (suc n) v = ground (arith, live-update objects slot n v)

  -- The constructor leaves every slot free.
  pub new-IsValid : (n : ℕ) → IsValid {A = A} n (new n) × (free_slots {A = A} (new n) ≡ n)
  unfolding new free_slots
  new-IsValid n = (
    record {
      shared = λ i. omega (arith, slots-below n i);
      total = omega (arith, length-slots n, live-none A n);
    },
    length-slots n,
  )

  -- What `allocate` does to a pool of `n` slots.
  pub data Allocates (n : ℕ) (p : Pool A) (made : Option A) : Allocation × Pool A → Type ℓ where
    full :
        (q : Pool A) → live p.objects n ≡ n → q ≡ p → Allocates n p made (Allocation.bad_alloc, q)
    threw :
        (q : Pool A)
        → made ≡ none
        → live p.objects n < n
        → q ≡ p
        → Allocates n p made (Allocation.rethrown, q)
    built :
        (slot : ℕ) (v : A) (q : Pool A)
        → made ≡ some v
        → slot < n
        → p.objects slot ≡ none
        → q.objects ≡ update p.objects slot (some v)
        → IsValid n q
        → Allocates n p made (Allocation.constructed slot, q)

  -- On a valid pool `allocate` throws `bad_alloc` only if all slots hold objects; a constructor
  -- that throws leaves the pool as it was; otherwise a free slot gets the object, no other slot
  -- changes, and the pool stays valid.
  pub allocate-Allocates :
      {n : ℕ} {p : Pool A} (made : Option A) → IsValid n p → Allocates n p made (allocate p made)
  unfolding allocate
  allocate-Allocates {n} {p} made v = go p.freelist refl made
    where
      go :
          (free : List ℕ)
          → p.freelist ≡ free
          → (m : Option A) → Allocates n p m (allocate_from p free m)
      go [] e m = full p (omega (arith, v.total, ap length e)) refl
      go (slot ∷ rest) e none =
          threw _ refl (omega (arith, v.total, ap length e))
            (ap (λ (l : List ℕ). record p { freelist = l }) (sym e))
      go (slot ∷ rest) e (some x) =
          let here = ap (occurs slot) e in
          let low : slot < n = ground (arith, v.shared slot) in
          let free : p.objects slot ≡ none = ground (arith, v.shared slot) in
          built slot x _ refl low free refl (record {
            shared = λ i. ground (arith, v.shared i, ap (occurs i) e);
            total = ground (arith, v.total, ap length e, live-update p.objects slot n (some x));
          })

  -- Giving back a slot that holds an object never fails and leaves the pool valid; giving back a
  -- slot that holds none, such as one given back before, is undefined.
  deallocate-cases :
      {n : ℕ} {p : Pool A} (slot : ℕ)
      → IsValid n p
      → ((p.objects slot ≡ none) × (deallocate p (some slot) ≡ err Fault.undefined))
        ⊎ ((x : A) × (q : Pool A) × (p.objects slot ≡ some x)
            × (deallocate p (some slot) ≡ ok q)
            × (q.objects ≡ update p.objects slot none)
            × IsValid n q)
  unfolding deallocate
  deallocate-cases {n} {p} slot v = elim (Option-cases (p.objects slot)) [
    | inl e ↦ inl (e, rw (e, deallocate))
    | inr (x, e) ↦
        let low : slot < n = ground (arith, v.shared slot) in
        inr (
          x,
          record p { objects = update p.objects slot none; freelist = slot ∷ p.freelist },
          e,
          rw (e, deallocate),
          refl,
          record {
            shared = λ i. ground (arith, v.shared i);
            total = ground (arith, v.total, live-update p.objects slot n none);
          },
        )
  ]
