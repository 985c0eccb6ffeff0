-- ===== src/SmartPtr/Unique.antt =====
-- smart_pointers/include/smart_pointers/unique_ptr.hpp: `UniquePtr<T, Deleter>`. An operation
-- returns, beside the pointers it leaves, the objects that it hands to a deleter, in that order.
use cpp_systems_playground.Prelude.{
  ℕ, Bool, true, false, not, Option, none, some, List, [], ◌∷◌, ◌==◌, if◌then◌else◌, is_some,
}

-- The null pointer is `none`; an object is named by a number.
pub record UniquePtr {ℓ} (D : Type ℓ) : Type ℓ where
  pub ptr : Option ℕ
  pub deleter : D

-- `ptr_ != new_ptr`
unfoldable pub differ : Option ℕ → Option ℕ → Bool
differ none none = false
differ none (some b) = true
differ (some a) none = true
differ (some a) (some b) = not (a == b)

-- `if (ptr_) deleter_(ptr_);`
unfoldable pub deletion : Option ℕ → List ℕ
deletion none = []
deletion (some a) = a ∷ []

module _ {ℓ} {D : Type ℓ} where
  unfoldable pub from_raw : Option ℕ → D → UniquePtr D
  from_raw ptr d = record { ptr = ptr; deleter = d }

  -- The move constructor: the new pointer and what is left of `other`.
  unfoldable pub move : UniquePtr D → UniquePtr D × UniquePtr D
  move other = (other, record other { ptr = none })

  unfoldable pub reset : UniquePtr D → Option ℕ → UniquePtr D × List ℕ
  unfolding differ deletion
  reset this new_ptr =
      if differ this.ptr new_ptr
      then (record this { ptr = new_ptr }, deletion this.ptr)
      else (this, [])

  -- Move assignment from another object: `this`, `other` and the deletions.
  unfoldable pub move_assign : UniquePtr D → UniquePtr D → UniquePtr D × UniquePtr D × List ℕ
  unfolding reset
  move_assign this other =
      let (_, deleted) = reset this none in (other, record other { ptr = none }, deleted)

  unfoldable pub destroy : UniquePtr D → List ℕ
  unfolding reset
  destroy this = (reset this none).1

  -- The pointer given up, and what is left.
  unfoldable pub release : UniquePtr D → Option ℕ × UniquePtr D
  release this = (this.ptr, record this { ptr = none })

  unfoldable pub swap : UniquePtr D → UniquePtr D → UniquePtr D × UniquePtr D
  swap this other = (other, this)

  unfoldable pub get : UniquePtr D → Option ℕ
  get this = this.ptr

  unfoldable pub to_bool : UniquePtr D → Bool
  to_bool this = is_some this.ptr

  -- `make_unique`, of an object that has just been made.
  unfoldable pub make_unique : ℕ → D → UniquePtr D
  unfolding from_raw
  make_unique o d = from_raw (some o) d
