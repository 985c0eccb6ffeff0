-- ===== src/SmartPtr/Ownership.antt =====
-- `UniquePtr` in every history of a program with several of them: who owns which object.
use cpp_systems_playground.Prelude.{
  ℕ, ◌+◌, ◌<◌, ◌≤◌, ◌≡◌, ◌≢◌, Option, none, some, List, [], ◌∷◌, ◌++◌, update, occurs,
  if◌then◌else◌, ◌==◌,
}
use cpp_systems_playground.SmartPtr.Unique.{UniquePtr, move_assign, reset, release, swap}
use cpp_systems_playground.Prelude.Totals.{total}

-- The pointers below `n`, the objects that the program has made and handed to a pointer, those that
-- a deleter got, and those that `release` gave back to the program.
pub record Program {ℓ} (D : Type ℓ) : Type ℓ where
  pub pointers : ℕ → UniquePtr D
  pub made : List ℕ
  pub deleted : List ℕ
  pub released : List ℕ

module _ {ℓ} {D : Type ℓ} (n : ℕ) (d : D) where
  -- `reset` gets objects that are new, or none: the latter is also what the destructor does, and a
  -- move construction is a move to a null pointer.
  pub data Reach : Program D → Type ℓ where
    start : Reach (record {
      pointers = λ i. record { ptr = none; deleter = d };
      made = [];
      deleted = [];
      released = [];
    })
    reset_new :
        {m : Program D} (i o : ℕ)
        → Reach m
        → i < n
        → occurs o m.made ≡ 0
        → Reach (record m {
          pointers = update m.pointers i (reset (m.pointers i) (some o)).0;
          made = o ∷ m.made;
          deleted = (reset (m.pointers i) (some o)).1 ++ m.deleted;
        })
    reset_null :
        {m : Program D} (i : ℕ)
        → Reach m
        → i < n
        → Reach (record m {
          pointers = update m.pointers i (reset (m.pointers i) none).0;
          deleted = (reset (m.pointers i) none).1 ++ m.deleted;
        })
    move :
        {m : Program D} (i j : ℕ)
        → Reach m
        → i < n
        → j < n
        → i ≢ j
        → Reach (record m {
          pointers =
              update
                (update m.pointers i (move_assign (m.pointers i) (m.pointers j)).0)
                j
                (move_assign (m.pointers i) (m.pointers j)).1;
          deleted = (move_assign (m.pointers i) (m.pointers j)).2 ++ m.deleted;
        })
    swap_with :
        {m : Program D} (i j : ℕ)
        → Reach m
        → i < n
        → j < n
        → i ≢ j
        → Reach (record m {
          pointers =
              update
                (update m.pointers i (swap (m.pointers i) (m.pointers j)).0)
                j
                (swap (m.pointers i) (m.pointers j)).1;
        })
    give_up :
        {m : Program D} (i o : ℕ)
        → Reach m
        → i < n
        → (release (m.pointers i)).0 ≡ some o
        → Reach (record m {
          pointers = update m.pointers i (release (m.pointers i)).1;
          released = o ∷ m.released;
        })

  module _ (t : ℕ) where
    -- Whether a pointer owns the object.
    abbrev pub holds : Option ℕ → ℕ
    holds none = 0
    holds (some o) = if o == t then 1 else 0

    abbrev pub owns : UniquePtr D → ℕ
    owns p = holds p.ptr

  -- Each object is deleted, given back or owned by one pointer, once, if it was made, and it was
  -- made once at most.
  pub record Accounted (m : Program D) : Type ℓ where
    pub balance :
        (t : ℕ)
        → occurs t m.made ≡ occurs t m.deleted + occurs t m.released + total (owns t) m.pointers n
    pub once : (t : ℕ) → occurs t m.made ≤ 1
