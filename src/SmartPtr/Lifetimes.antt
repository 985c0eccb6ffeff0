-- ===== src/SmartPtr/Lifetimes.antt =====
-- Every history of a program with `SharedPtr`s and `WeakPtr`s.
use native.Mathlib.Decide.{ℕ_discrete}
use cpp_systems_playground.Prelude.{
  ℕ, ◌^◌, ◌<◌, ◌≡◌, ◌≢◌, inl, inr, refl, Option, none, some, ok, ◌>>=◌, ◌==◌, arith, Option-cases,
  Bool-cases, ◌∙◌, update_self, update_ne, update_twice, ==_iff, ==_ne,
}
use cpp_systems_playground.SmartPtr.Shared.{Heap, SharedPtr, ControlBlock, null}
use cpp_systems_playground.SmartPtr.Shared
use cpp_systems_playground.SmartPtr.Weak
use cpp_systems_playground.SmartPtr.Handles.{
  Program, Call, set_shared, set_weak, step, Admits, new_object,
}
use cpp_systems_playground.SmartPtr.Counts.{IsValid}
use cpp_systems_playground.SmartPtr.Release.{release-IsValid}
use cpp_systems_playground.SmartPtr.Fresh.{release-new_object}
use cpp_systems_playground.SmartPtr.Acquire.{
  Shares, IsValid-Shares, acquire-IsValid, make-IsValid, swap-IsValid, null-IsValid,
}
use cpp_systems_playground.SmartPtr.Watch.{
  watched, release_weak-IsValid, watch-IsValid, swap_weak-IsValid,
}

-- A call that succeeds and leaves a valid program.
abbrev pub Steps : ℕ → Program → Call → Type 0
Steps n m call = (m' : Program) × (step m call ≡ ok m') × IsValid n m'

module _ {n : ℕ} {m : Program} (v : IsValid n m) (few : n < 2 ^ 64) where
  make-Steps : (i o : ℕ) → Admits n m (Call.make i o) → Steps n m (Call.make i o)
  unfolding step
  make-Steps i o (low, vacant, new) = (_, refl, make-IsValid i v few low vacant o new)

  copy-Steps : (i j : ℕ) → Admits n m (Call.copy i j) → Steps n m (Call.copy i j)
  unfolding step Shared.copy
  copy-Steps i j (low, low', ne, vacant) =
      let (h, e, v') =
        acquire-IsValid i v few low vacant (m.shared j) (IsValid-Shares j v few low') in
      (set_shared m h i (m.shared j), rw (e, ◌>>=◌) refl, v')

  move-Steps : (i j : ℕ) → Admits n m (Call.move i j) → Steps n m (Call.move i j)
  unfolding step Shared.move
  move-Steps i j (low, low', ne, vacant) = (_, refl, rw vacant at (swap-IsValid i v few low j low'))

  swap-Steps : (i j : ℕ) → Admits n m (Call.swap i j) → Steps n m (Call.swap i j)
  unfolding step Shared.swap
  swap-Steps i j (low, low') = (_, refl, swap-IsValid i v few low j low')

  reset-Steps : (i : ℕ) → Admits n m (Call.reset i) → Steps n m (Call.reset i)
  unfolding step Shared.reset
  reset-Steps i low =
      let (h, e, v') = release-IsValid i v few low in
      (set_shared m h i null, rw (e, ◌>>=◌) refl, v')

  -- After a `release` the other pointers are as before.
  module _ (i j : ℕ) (h : Heap) (ne : i ≢ j) where
    same_shared : (set_shared m h i null).shared j ≡ m.shared j
    unfolding set_shared
    same_shared = update_ne m.shared i null j ne

    same_weak : (set_weak m h i none).weak j ≡ m.weak j
    unfolding set_weak
    same_weak = update_ne m.weak i none j ne

  set_shared_twice :
      (i : ℕ) (h h' : Heap) (p q : SharedPtr)
      → set_shared (set_shared m h i p) h' i q ≡ set_shared m h' i q
  unfolding set_shared
  set_shared_twice i h h' p q = rw (update_twice m.shared i p q) refl

  set_weak_twice :
      (i : ℕ) (h h' : Heap) (p q : Option ℕ)
      → set_weak (set_weak m h i p) h' i q ≡ set_weak m h' i q
  unfolding set_weak
  set_weak_twice i h h' p q = rw (update_twice m.weak i p q) refl

  copy_assign-Steps :
      (i j : ℕ) → Admits n m (Call.copy_assign i j) → Steps n m (Call.copy_assign i j)
  unfolding step Shared.copy_assign set_shared
  copy_assign-Steps i j (low, low') = elim (ℕ_discrete i j) [
    | yes same ↦ (m, rw ((==_iff i j).1 same) refl, v)
    | no other ↦
        let (h, e, v') = release-IsValid i v few low in
        let p = m.shared j in
        let shares : Shares (set_shared m h i null) p =
          rw (same_shared i j h other) at (IsValid-Shares j v' few low') in
        let vacant : (set_shared m h i null).shared i ≡ null = update_self m.shared i null in
        let (h', e', v'') = acquire-IsValid i v' few low vacant p shares in
        (
          set_shared m h' i p,
          rw (==_ne i j other, e, e') refl,
          rw (set_shared_twice i h h' null p) at v'',
        )
  ]

  move_assign-Steps :
      (i j : ℕ) → Admits n m (Call.move_assign i j) → Steps n m (Call.move_assign i j)
  unfolding step Shared.move_assign set_shared
  move_assign-Steps i j (low, low') = elim (ℕ_discrete i j) [
    | yes same ↦ (m, rw ((==_iff i j).1 same) refl, v)
    | no other ↦
        let (h, e, v') = release-IsValid i v few low in
        let p = m.shared j in
        let v'' = swap-IsValid i v' few low j low' in
        (
          set_shared (set_shared m h i p) h j null,
          rw (==_ne i j other, e) refl,
          rw
              (
                update_ne m.shared i null j other,
                update_self m.shared i null,
                update_twice m.shared i null p,
              )
              at v'',
        )
  ]

  lock-Steps : (i j : ℕ) → Admits n m (Call.lock i j) → Steps n m (Call.lock i j)
  unfolding step Weak.lock Weak.expired Shared.from_block Shared.load
  lock-Steps i j (low, low', vacant) = elim (Option-cases (m.weak j)) [
    | inl e ↦ (set_shared m m.heap i null, rw (e, Weak.lock) refl, null-IsValid i v few low vacant)
    | inr (c, e) ↦
        let (b, there, pos, bound) = watched j v few low' c e in
        elim (Bool-cases (b.strong_count == 0)) [
          | inl gone ↦ (
            set_shared m m.heap i null,
            ground (arith, e, there, gone),
            null-IsValid i v few low vacant,
          )
          | inr lives ↦
              let p : SharedPtr = record { ctrl = some c; ptr = b.ptr } in
              let shares : Shares m p = record {
                gets = ground (arith, there);
                there = λ d same. (b, ground (arith, there), ground arith);
              } in
              let (h, e', v') = acquire-IsValid i v few low vacant p shares in
              (set_shared m h i p, ground (arith, e, there, lives, e'), v')
        ]
  ]

  watch-Steps : (i j : ℕ) → Admits n m (Call.watch i j) → Steps n m (Call.watch i j)
  unfolding step Weak.copy
  watch-Steps i j (low, low', vacant) =
      let known = (IsValid-Shares j v few low').there in
      let (h, e, v') =
        watch-IsValid i v few low vacant (m.shared j).ctrl
          (λ c e. let (b, there, pos) = known c e in (b, there)) in
      (set_weak m h i (m.shared j).ctrl, rw (e, ◌>>=◌) refl, v')

  weak_copy-Steps : (i j : ℕ) → Admits n m (Call.weak_copy i j) → Steps n m (Call.weak_copy i j)
  unfolding step Weak.copy
  weak_copy-Steps i j (low, low', ne, vacant) =
      let (h, e, v') =
        watch-IsValid i v few low vacant (m.weak j)
          (λ c e. let (b, there, pos, bound) = watched j v few low' c e in (b, there)) in
      (set_weak m h i (m.weak j), rw (e, ◌>>=◌) refl, v')

  weak_move-Steps : (i j : ℕ) → Admits n m (Call.weak_move i j) → Steps n m (Call.weak_move i j)
  unfolding step Weak.move
  weak_move-Steps i j (low, low', ne, vacant) =
      (_, refl, rw vacant at (swap_weak-IsValid i v few low j low'))

  weak_reset-Steps : (i : ℕ) → Admits n m (Call.weak_reset i) → Steps n m (Call.weak_reset i)
  unfolding step Weak.reset
  weak_reset-Steps i low =
      let (h, e, v') = release_weak-IsValid i v few low in
      (set_weak m h i none, rw (e, ◌>>=◌) refl, v')

  weak_copy_assign-Steps :
      (i j : ℕ) → Admits n m (Call.weak_copy_assign i j) → Steps n m (Call.weak_copy_assign i j)
  unfolding step Weak.copy_assign set_weak
  weak_copy_assign-Steps i j (low, low') = elim (ℕ_discrete i j) [
    | yes same ↦ (m, rw ((==_iff i j).1 same) refl, v)
    | no other ↦
        let (h, e, v') = release_weak-IsValid i v few low in
        let w = m.weak j in
        let (h', e', v'') = watch-IsValid i v' few low (update_self m.weak i none) w (λ c e''.
          let (b, there, pos, bound) =
            watched j v' few low' c (update_ne m.weak i none j other ∙ e'') in
          (b, there)) in
        (
          set_weak m h' i w,
          rw (==_ne i j other, e, e') refl,
          rw (set_weak_twice i h h' none w) at v'',
        )
  ]

  weak_move_assign-Steps :
      (i j : ℕ) → Admits n m (Call.weak_move_assign i j) → Steps n m (Call.weak_move_assign i j)
  unfolding step Weak.move_assign set_weak
  weak_move_assign-Steps i j (low, low') = elim (ℕ_discrete i j) [
    | yes same ↦ (m, rw ((==_iff i j).1 same) refl, v)
    | no other ↦
        let (h, e, v') = release_weak-IsValid i v few low in
        let w = m.weak j in
        let v'' = swap_weak-IsValid i v' few low j low' in
        (
          set_weak (set_weak m h i w) h j none,
          rw (==_ne i j other, e) refl,
          rw
              (
                update_ne m.weak i none j other,
                update_self m.weak i none,
                update_twice m.weak i none w,
              )
              at v'',
        )
  ]

  reset_to-Steps : (i o : ℕ) → Admits n m (Call.reset_to i o) → Steps n m (Call.reset_to i o)
  unfolding step Shared.reset_to set_shared
  reset_to-Steps i o (low, new) =
      let (h, e, v') = release-IsValid i v few low in
      let (e', new') = release-new_object o m.heap (m.shared i) new e in
      let (h', p) = Shared.from_raw (new_object h o) (some o) in
      let v'' = make-IsValid i v' few low (update_self m.shared i null) o new' in
      (set_shared m h' i p, rw (e', ◌>>=◌) refl, rw (set_shared_twice i h h' null p) at v'')

  -- On a valid program of fewer than 2^64 variables of either kind, every call that it admits is
  -- defined and leaves a valid program.
  pub Admits-Steps : (call : Call) → Admits n m call → Steps n m call
  Admits-Steps (Call.make i o) a = make-Steps i o a
  Admits-Steps (Call.copy i j) a = copy-Steps i j a
  Admits-Steps (Call.lock i j) a = lock-Steps i j a
  Admits-Steps (Call.move i j) a = move-Steps i j a
  Admits-Steps (Call.copy_assign i j) a = copy_assign-Steps i j a
  Admits-Steps (Call.move_assign i j) a = move_assign-Steps i j a
  Admits-Steps (Call.swap i j) a = swap-Steps i j a
  Admits-Steps (Call.reset_to i o) a = reset_to-Steps i o a
  Admits-Steps (Call.reset i) a = reset-Steps i a
  Admits-Steps (Call.watch i j) a = watch-Steps i j a
  Admits-Steps (Call.weak_copy i j) a = weak_copy-Steps i j a
  Admits-Steps (Call.weak_move i j) a = weak_move-Steps i j a
  Admits-Steps (Call.weak_copy_assign i j) a = weak_copy_assign-Steps i j a
  Admits-Steps (Call.weak_move_assign i j) a = weak_move_assign-Steps i j a
  Admits-Steps (Call.weak_reset i) a = weak_reset-Steps i a
