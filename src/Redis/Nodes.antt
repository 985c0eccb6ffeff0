-- ===== src/Redis/Nodes.antt =====
-- The nodes of `KVStore`: which are in a list, and that those of the heap are in rising order.
use cpp_systems_playground.Prelude.{
  ℕ, ◌≤◌, ◌≡◌, refl, true, false, Bool, ◌&&◌, ◌||◌, List, [], ◌∷◌, ◌++◌, arith, Bool-cases, inl,
  inr, ◌==◌,
}
use cpp_systems_playground.Redis.{Node, same, heap_push, greater}

unfoldable pub same_node : Node → Node → Bool
same_node a b = a.expires == b.expires && (a.version == b.version && same a.key b.key)

unfoldable pub has : Node → List Node → Bool
unfolding same_node
has n [] = false
has n (x ∷ l) = same_node x n || has n l

pub has-heap_push :
    (n m : Node) (h : List Node) → has n (heap_push m h) ≡ (same_node m n || has n h)
unfolding has heap_push
has-heap_push n m [] = refl
has-heap_push n m (x ∷ h) = ground (arith, has-heap_push n m h)

pub has_middle :
    (n m : Node) (xs ys : List Node) → has n (xs ++ (m ∷ ys)) ≡ (same_node m n || has n (xs ++ ys))
unfolding has
has_middle n m [] ys = refl
has_middle n m (x ∷ xs) ys = ground (arith, has_middle n m xs ys)

-- No node has a deadline before a time.
abbrev pub NoneBefore : ℕ → List Node → Type 0
NoneBefore t [] = Unit
NoneBefore t (n ∷ h) = (t ≤ n.expires) × NoneBefore t h

-- Every node comes before those behind it.
abbrev pub IsRising : List Node → Type 0
IsRising [] = Unit
IsRising (n ∷ h) = NoneBefore n.expires h × IsRising h

pub NoneBefore-le : {t u : ℕ} (h : List Node) → t ≤ u → NoneBefore u h → NoneBefore t h
NoneBefore-le [] l r = tt
NoneBefore-le (n ∷ h) l r = (omega (arith, r.0), NoneBefore-le h l r.1)

NoneBefore-heap_push :
    {t : ℕ} (n : Node) (h : List Node)
    → t ≤ n.expires
    → NoneBefore t h
    → NoneBefore t (heap_push n h)
unfolding heap_push
NoneBefore-heap_push n [] l r = (l, tt)
NoneBefore-heap_push n (x ∷ h) l r = elim (Bool-cases (greater n x)) [
  | inl behind ↦ rw behind (r.0, NoneBefore-heap_push n h l r.1)
  | inr before ↦ rw before (l, r)
]

pub heap_push-IsRising : (n : Node) (h : List Node) → IsRising h → IsRising (heap_push n h)
unfolding heap_push
heap_push-IsRising n [] r = (tt, tt)
heap_push-IsRising n (x ∷ h) r = elim (Bool-cases (greater n x)) [
  | inl behind ↦
      let after : x.expires ≤ n.expires = unfold greater in (ground (arith, behind)) in
      rw behind (NoneBefore-heap_push n h after r.0, heap_push-IsRising n h r.1)
  | inr before ↦
      let first : n.expires ≤ x.expires = unfold greater in (ground (arith, before)) in
      rw before ((first, NoneBefore-le h first r.0), r)
]

-- A node that is there is not before the time.
pub has-NoneBefore :
    {t : ℕ} (n : Node) (h : List Node) → NoneBefore t h → has n h ≡ true → t ≤ n.expires
unfolding has
has-NoneBefore n [] r e = absurd (ground arith)
has-NoneBefore n (x ∷ h) r e = ground (arith, has-NoneBefore n h r.1, r.0)
