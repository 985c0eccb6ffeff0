-- ===== src/SmartPtr/Histories.antt =====
-- What every history of a program keeps of its `SharedPtr`s and `WeakPtr`s.
use cpp_systems_playground.Prelude.{
  ℕ, ◌+◌, ◌^◌, ◌<◌, ◌≡◌, ◌⊎◌, inl, inr, sym, ◌∙◌, none, some, ok, arith, Option-cases, subst,
  ok-injective,
}
use cpp_systems_playground.Prelude.Totals.{total}
use cpp_systems_playground.SmartPtr.Shared.{ControlBlock}
use cpp_systems_playground.SmartPtr.Handles.{Program, Call, start, step, Admits}
use cpp_systems_playground.SmartPtr.Counts.{IsValid, points, points_shared, start-IsValid}
use cpp_systems_playground.SmartPtr.Lifetimes.{Admits-Steps}

-- The programs that admitted calls lead to, of `n` variables of either kind.
pub data Reach (n : ℕ) : Program → Type 0 where
  begin : Reach n start
  next :
      {m m' : Program} (call : Call)
      → Reach n m
      → Admits n m call
      → step m call ≡ ok m'
      → Reach n m'

pub Reach-IsValid : {n : ℕ} {m : Program} → n < 2 ^ 64 → Reach n m → IsValid n m
Reach-IsValid {n} few Reach.begin = start-IsValid n
Reach-IsValid {n} few (Reach.next call r a e) =
    let (m', e', v) = Admits-Steps (Reach-IsValid few r) few call a in
    let same : ok m' ≡ ok _ = sym e' ∙ e in subst (IsValid n) (ok-injective same) v

-- In every history of fewer than 2^64 variables of either kind, of objects that hold no `SharedPtr` and no
-- `WeakPtr` themselves, a call on variables that exist, with constructors only of variables that do
-- not, and with new objects only, never meets a null or freed control block or an object that is
-- gone.
pub Reach-step :
    {n : ℕ} {m : Program} (call : Call)
    → n < 2 ^ 64
    → Reach n m
    → Admits n m call
    → (m' : Program) × (step m call ≡ ok m')
Reach-step call few r a = let (m', e, v) = Admits-Steps (Reach-IsValid few r) few call a in (m', e)

-- In every history of fewer than 2^64 variables of either kind, of objects that hold no `SharedPtr` and no
-- `WeakPtr` themselves, a control block is there exactly as long as a pointer of either kind points to
-- it, and its counts are the numbers of these pointers.
pub Reach-counts :
    {n : ℕ} {m : Program} (c : ℕ)
    → n < 2 ^ 64
    → Reach n m
    → let strong = total (points_shared c) m.shared n in
      let weak = total (points c) m.weak n in
      ((m.heap.blocks c ≡ none) × (strong ≡ 0) × (weak ≡ 0))
      ⊎ ((b : ControlBlock) × (m.heap.blocks c ≡ some b)
          × (0 < strong + weak)
          × (b.strong_count ≡ strong)
          × (b.weak_count ≡ weak))
Reach-counts {n} {m} c few r =
    let v = Reach-IsValid few r in
    elim (Option-cases (m.heap.blocks c)) [
      | inl gone ↦ inl (gone, ground (arith, gone, v.counts c), ground (arith, gone, v.counts c))
      | inr (b, there) ↦ inr (
        b,
        there,
        ground (arith, there, v.counts c),
        ground (arith, there, v.counts c),
        ground (arith, there, v.counts c),
      )
    ]
