-- ===== src/Pool/ObjectPool.antt =====
-- memory_pool/include/memory_pool/object_pool.hpp: `ObjectPool<T, N>` and its `Deleter`.
use cpp_systems_playground.Prelude.{
  ℕ, zero, suc, Option, none, some, List, [], ◌∷◌, length, Outcome, ok, err, Fault, ◌>>=◌, update,
}

-- A slot is named by its index. The head of the list is the back of the vector `freelist_`, and
-- `objects i` is `none` where no object is constructed.
pub record Pool {ℓ} (A : Type ℓ) : Type ℓ where
  pub objects : ℕ → Option A
  pub freelist : List ℕ

-- The slots that the constructor's loop pushes.
unfoldable pub slots : ℕ → List ℕ
slots zero = []
slots (suc i) = i ∷ slots i

-- What `allocate` comes to: a slot with its object, an exception of the constructor of `T`, or
-- `bad_alloc`.
pub data Allocation : Type 0 where
  constructed : ℕ → Allocation
  rethrown : Allocation
  bad_alloc : Allocation

module _ {ℓ} {A : Type ℓ} where
  unfoldable pub new : ℕ → Pool A
  unfolding slots
  new n = record { objects = λ i. none; freelist = slots n }

  -- `made` is the object that the constructor of `T` builds from the arguments, or `none` if it
  -- throws.
  unfoldable pub allocate_from : Pool A → List ℕ → Option A → Allocation × Pool A
  allocate_from p [] made = (Allocation.bad_alloc, p)
  allocate_from p (slot ∷ rest) none = (Allocation.rethrown, record p { freelist = slot ∷ rest })
  allocate_from p (slot ∷ rest) (some v) = (
    Allocation.constructed slot,
    record p { objects = update p.objects slot (some v); freelist = rest },
  )

  unfoldable pub allocate : Pool A → Option A → Allocation × Pool A
  unfolding allocate_from
  allocate p made = allocate_from p p.freelist made

  -- `destroy_at` of a slot without an object is undefined.
  unfoldable pub deallocate : Pool A → Option ℕ → Outcome (Pool A)
  deallocate p none = ok p
  deallocate p (some slot) = elim (p.objects slot) [
    | none ↦ err Fault.undefined
    | some v ↦ ok (record p { objects = update p.objects slot none; freelist = slot ∷ p.freelist })
  ]

  -- `Deleter{pool}(ptr)`; `none` is a deleter without a pool.
  unfoldable pub delete_by : Option (Pool A) → Option ℕ → Outcome (Option (Pool A))
  unfolding deallocate
  delete_by none ptr = ok none
  delete_by (some p) none = ok (some p)
  delete_by (some p) (some slot) = deallocate p (some slot) >>= λ q. ok (some q)

  unfoldable pub free_slots : Pool A → ℕ
  free_slots p = length p.freelist

  -- `make_unique`: the allocation; the pointer's deleter is `delete_by` of this pool.
  unfoldable pub make_unique : Pool A → Option A → Allocation × Pool A
  unfolding allocate
  make_unique p made = allocate p made
