-- ===== src/SmartPtr/Fresh.antt =====
-- An object that no pointer has yet, beside the operations on those that have one.
use cpp_systems_playground.Prelude.{
  ℕ, ◌≡◌, false, true, Option, none, some, ok, update, ◌==◌, arith, Option-cases, Bool-cases,
  Outcome-cases, inl, inr, ◌≢◌,
}
use mathlib.Core.Path.{fun_ext}
use cpp_systems_playground.SmartPtr.Shared.{
  Heap, SharedPtr, ControlBlock, null, decrement, load, store, free_block, delete_object, drop_last,
  release,
}
use cpp_systems_playground.SmartPtr.Handles.{new_object}

update_swap {ℓ} :
    {A : Type ℓ} (f : ℕ → A) (o x : ℕ) (a b : A)
    → o ≢ x
    → update (update f o a) x b ≡ update (update f x b) o a
update_swap f o x a b ne = fun_ext (λ q. ground arith)

module _ (o : ℕ) where
  delete_object-new_object :
      (h : Heap) {h' : Heap} (w : Option ℕ)
      → h.alive o ≡ false
      → delete_object h w ≡ ok h'
      → (delete_object (new_object h o) w ≡ ok (new_object h' o)) × (h'.alive o ≡ false)
  unfolding delete_object new_object
  delete_object-new_object h {h'} none new e = ground arith
  delete_object-new_object h {h'} (some x) new e = elim (Bool-cases (h.alive x)) [
    | inl lives ↦
        let ne : o ≢ x = λ p. cc in ground (arith, lives, update_swap h.alive o x true false ne)
    | inr dead ↦ cc
  ]

  drop_last-new_object :
      (h : Heap) {h' : Heap} (c : ℕ) (b : ControlBlock)
      → h.alive o ≡ false
      → drop_last h c b ≡ ok h'
      → (drop_last (new_object h o) c b ≡ ok (new_object h' o)) × (h'.alive o ≡ false)
  unfolding drop_last free_block store new_object
  drop_last-new_object h {h'} c b new e = elim (Outcome-cases (delete_object h b.ptr)) [
    | inl (h1, d) ↦
        let (d', new') = delete_object-new_object h b.ptr new d in ground (arith, d, d', new')
    | inr (f, d) ↦ ground (arith, d)
  ]

  pub release-new_object :
      (h : Heap) {h' : Heap} (p : SharedPtr)
      → h.alive o ≡ false
      → release h p ≡ ok (h', null)
      → (release (new_object h o) p ≡ ok (new_object h' o, null)) × (h'.alive o ≡ false)
  unfolding release load store new_object
  release-new_object h {h'} p new e = elim (Option-cases p.ctrl) [
    | inl none_left ↦ ground (arith, none_left)
    | inr (c, there) ↦ elim (Option-cases (h.blocks c)) [
      | inl gone ↦ ground (arith, there, gone)
      | inr (b, found) ↦
          let less = record b { strong_count = decrement b.strong_count } in
          elim (Bool-cases (decrement b.strong_count == 0)) [
            | inr more ↦ ground (arith, there, found, more)
            | inl last ↦ elim (Outcome-cases (drop_last h c less)) [
              | inl (h1, d) ↦
                  let (d', new') = drop_last-new_object h c less new d in
                  ground (arith, there, found, last, d, d', new')
              | inr (f, d) ↦ ground (arith, there, found, last, d)
            ]
          ]
    ]
  ]
