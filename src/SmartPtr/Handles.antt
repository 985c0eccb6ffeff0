-- ===== src/SmartPtr/Handles.antt =====
-- A program with several `SharedPtr`s and `WeakPtr`s of one type: the operations of
-- smart_pointers/include/smart_pointers/shared_ptr.hpp on its variables, named by numbers. A variable
-- that does not exist is null. The objects hold no such pointers.
use cpp_systems_playground.Prelude.{
  ℕ, ◌<◌, ◌≡◌, ◌≢◌, false, true, Option, none, some, Outcome, ok, ◌>>=◌, update, ◌==◌,
  if◌then◌else◌,
}
use cpp_systems_playground.SmartPtr.Shared.{Heap, SharedPtr, null}
use cpp_systems_playground.SmartPtr.Shared
use cpp_systems_playground.SmartPtr.Weak

pub record Program : Type 0 where
  pub heap : Heap
  pub shared : ℕ → SharedPtr
  pub weak : ℕ → Option ℕ

unfoldable pub start : Program
unfolding null
start = record {
  heap = record { blocks = λ c. none; alive = λ o. false; next = 0 };
  shared = λ i. null;
  weak = λ i. none;
}

-- An operation on the variable `i`, most of them from the variable `j`; `o` is a new object.
pub data Call : Type 0 where
  make copy lock move copy_assign move_assign swap reset_to watch : ℕ → ℕ → Call
  reset : ℕ → Call
  weak_copy weak_move weak_copy_assign weak_move_assign : ℕ → ℕ → Call
  weak_reset : ℕ → Call

-- `new T`
unfoldable pub new_object : Heap → ℕ → Heap
new_object h o = record h { alive = update h.alive o true }

unfoldable pub set_shared : Program → Heap → ℕ → SharedPtr → Program
set_shared m h i p = record m { heap = h; shared = update m.shared i p }

unfoldable pub set_weak : Program → Heap → ℕ → Option ℕ → Program
set_weak m h i w = record m { heap = h; weak = update m.weak i w }

unfoldable pub step : Program → Call → Outcome Program
unfolding new_object set_shared set_weak Shared.from_raw Shared.move Shared.swap Shared.reset
    Weak.reset Weak.move
step m (Call.make i o) =
    let (h, p) = Shared.from_raw (new_object m.heap o) (some o) in ok (set_shared m h i p)
step m (Call.copy i j) = do (h, p) ← Shared.copy m.heap (m.shared j); ok (set_shared m h i p)
step m (Call.lock i j) = do (h, p) ← Weak.lock m.heap (m.weak j); ok (set_shared m h i p)
step m (Call.move i j) =
    let (p, q) = Shared.move (m.shared j) in ok (set_shared (set_shared m m.heap i p) m.heap j q)
step m (Call.copy_assign i j) =
    if i == j
    then ok m
    else do (h, p) ← Shared.copy_assign m.heap (m.shared i) (m.shared j); ok (set_shared m h i p)
step m (Call.move_assign i j) = if i == j then ok m else do
  (h, p, q) ← Shared.move_assign m.heap (m.shared i) (m.shared j)
  ok (set_shared (set_shared m h i p) h j q)
step m (Call.swap i j) =
    let (p, q) = Shared.swap (m.shared i) (m.shared j) in
    ok (set_shared (set_shared m m.heap i p) m.heap j q)
step m (Call.reset_to i o) = do
  (h, p) ← Shared.reset_to (new_object m.heap o) (m.shared i) (some o)
  ok (set_shared m h i p)
step m (Call.reset i) = do (h, p) ← Shared.reset m.heap (m.shared i); ok (set_shared m h i p)
step m (Call.watch i j) = do (h, w) ← Weak.copy m.heap (m.shared j).ctrl; ok (set_weak m h i w)
step m (Call.weak_copy i j) = do (h, w) ← Weak.copy m.heap (m.weak j); ok (set_weak m h i w)
step m (Call.weak_move i j) =
    let (w, v) = Weak.move (m.weak j) in ok (set_weak (set_weak m m.heap i w) m.heap j v)
step m (Call.weak_copy_assign i j) =
    if i == j
    then ok m
    else do (h, w) ← Weak.copy_assign m.heap (m.weak i) (m.weak j); ok (set_weak m h i w)
step m (Call.weak_move_assign i j) = if i == j then ok m else do
  (h, w, v) ← Weak.move_assign m.heap (m.weak i) (m.weak j)
  ok (set_weak (set_weak m h i w) h j v)
step m (Call.weak_reset i) = do (h, w) ← Weak.reset m.heap (m.weak i); ok (set_weak m h i w)

-- What the calls ask of a program with `n` variables of either kind: a constructor makes a variable
-- that does not exist, and an object that a pointer gets is new.
abbrev pub Admits : ℕ → Program → Call → Type 0
Admits n m (Call.make i o) = (i < n) × (m.shared i ≡ null) × (m.heap.alive o ≡ false)
Admits n m (Call.copy i j) = (i < n) × (j < n) × (i ≢ j) × (m.shared i ≡ null)
Admits n m (Call.lock i j) = (i < n) × (j < n) × (m.shared i ≡ null)
Admits n m (Call.move i j) = (i < n) × (j < n) × (i ≢ j) × (m.shared i ≡ null)
Admits n m (Call.copy_assign i j) = (i < n) × (j < n)
Admits n m (Call.move_assign i j) = (i < n) × (j < n)
Admits n m (Call.swap i j) = (i < n) × (j < n)
Admits n m (Call.reset_to i o) = (i < n) × (m.heap.alive o ≡ false)
Admits n m (Call.reset i) = i < n
Admits n m (Call.watch i j) = (i < n) × (j < n) × (m.weak i ≡ none)
Admits n m (Call.weak_copy i j) = (i < n) × (j < n) × (i ≢ j) × (m.weak i ≡ none)
Admits n m (Call.weak_move i j) = (i < n) × (j < n) × (i ≢ j) × (m.weak i ≡ none)
Admits n m (Call.weak_copy_assign i j) = (i < n) × (j < n)
Admits n m (Call.weak_move_assign i j) = (i < n) × (j < n)
Admits n m (Call.weak_reset i) = i < n
