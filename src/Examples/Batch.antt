-- ===== src/Examples/Batch.antt =====
-- Filling an `SPSCQueue` before anything empties it, and the batch of tasks.
use native.Mathlib.Decide.{dec_le}
use mathlib.Core.List.{append-nil, append_assoc}
use cpp_systems_playground.Prelude.{
  ℕ, zero, suc, ◌+◌, ◌<◌, ◌≤◌, ◌≡◌, ◌⊎◌, inl, inr, refl, sym, ap, ◌∙◌, subst, none, some, ok, List,
  [], ◌∷◌, ◌++◌, length, length-append, arith,
}
use cpp_systems_playground.Spsc
use cpp_systems_playground.Spsc.{Queue}
use cpp_systems_playground.Spsc.Refine.{Represents, new-Represents}
use cpp_systems_playground.Spsc.Ops.{push-refines, pop-refines}
use cpp_systems_playground.Examples.{
  Task, WorkItem, fill, execute_all, batch_processing, work_items, worker_pool_fill,
}

module _ {ℓ} {A : Type ℓ} (capacity : ℕ) where
  -- Items that do not fit are never all in the queue.
  fill-none :
      (fuel : ℕ) {q : Queue A} {done : List A} (xs : List A)
      → Represents capacity q done
      → capacity < length done + length xs
      → fill capacity fuel q xs ≡ none
  unfolding fill
  fill-none fuel [] r h = absurd (omega (arith, r.bounded))
  fill-none zero (x ∷ xs) r h = refl
  fill-none (suc fuel) {q} {done} (x ∷ xs) r h = elim (push-refines capacity x r) [
    | inl (room, in_queue, r') ↦
        rw in_queue (fill-none fuel xs r' (omega (arith, h, length-append done (x ∷ []))))
    | inr (full, e) ↦ rw e (fill-none fuel (x ∷ xs) r h)
  ]

  -- Items that fit are in the queue after one call of `push` for each.
  fill-Represents :
      (fuel : ℕ) {q : Queue A} {done : List A} (xs : List A)
      → Represents capacity q done
      → length done + length xs ≤ capacity
      → length xs ≤ fuel
      → (q' : Queue A) × (fill capacity fuel q xs ≡ some q') × Represents capacity q' (done ++ xs)
  unfolding fill
  fill-Represents fuel {q} {done} [] r h enough =
      (q, refl, subst (Represents capacity q) (sym (append-nil done)) r)
  fill-Represents zero (x ∷ xs) r h enough = absurd (omega arith)
  fill-Represents (suc fuel) {q} {done} (x ∷ xs) r h enough = elim (push-refines capacity x r) [
    | inl (room, in_queue, r') ↦
        let (q', e, r'') =
          fill-Represents fuel {q = (Spsc.push capacity q x).1} {done = done ++ x ∷ []} xs r'
            (omega (arith, h, length-append done (x ∷ []))) (omega (arith, enough)) in
        (q', rw in_queue e, subst (Represents capacity q') (append_assoc done (x ∷ []) xs) r'')
    | inr (full, e) ↦ absurd (omega arith)
  ]

  -- The loop that fills an empty queue which nobody empties: items that fit are in the queue, in their
  -- order, after one call of `push` for each; with more items than the capacity it never ends.
  pub fill-cases :
      (fuel : ℕ) (xs : List A)
      → length xs ≤ fuel
      → ((length xs ≤ capacity)
          × ((q : Queue A) × (fill capacity fuel Spsc.new xs ≡ some q) × Represents capacity q xs))
        ⊎ ((capacity < length xs) × ((rounds : ℕ) → fill capacity rounds Spsc.new xs ≡ none))
  fill-cases fuel xs enough = elim (dec_le (length xs) capacity) [
    | yes fits ↦ inl (
      fits,
      fill-Represents fuel xs (new-Represents {A = A} capacity) (omega (arith, fits)) enough,
    )
    | no over ↦
        inr (
          omega arith,
          λ rounds. fill-none rounds xs (new-Represents {A = A} capacity) (omega arith),
        )
  ]

  -- The queue is emptied in order.
  execute_all-append :
      (fuel : ℕ) {q : Queue A} {xs : List A} (done : List A)
      → Represents capacity q xs
      → length xs < fuel
      → (q' : Queue A) × (execute_all capacity fuel q done ≡ ok (done ++ xs, q'))
        × Represents capacity q' []
  unfolding execute_all
  execute_all-append zero done r h = absurd (omega arith)
  execute_all-append (suc fuel) {q} {xs} done r h = elim (pop-refines capacity r) [
    | inl (e, run) ↦ (
      q,
      rw run (ap (λ l. ok (l, q)) (sym (ap (λ l. done ++ l) e ∙ append-nil done))),
      subst (Represents capacity q) e r,
    )
    | inr (x, rest, q', e, run, r') ↦
        let (q'', go, r'') =
          execute_all-append fuel {q = q'} {xs = rest} (done ++ x ∷ []) r'
            (omega (arith, h, ap length e)) in
        (
          q'',
          rw run (
              go
              ∙ ap (λ l. ok (l, q''))
                  (append_assoc done (x ∷ []) rest ∙ ap (λ l. done ++ l) (sym e))),
          r'',
        )
  ]

-- `example_batch_processing` at any list of tasks: with at most as many tasks as the queue has room
-- for, and one call of `push` for each, the worker executes exactly the tasks, in their order; with
-- more, the loop that fills the queue never ends.
pub batch_processing-cases :
    {D : Type 0} (fuel : ℕ) (tasks : List (Task D))
    → length tasks ≤ fuel
    → ((length tasks ≤ 128)
        × ((q : Queue (Task D)) × (batch_processing fuel tasks ≡ some (ok (tasks, q)))
            × Represents 128 q []))
      ⊎ ((128 < length tasks) × ((rounds : ℕ) → batch_processing rounds tasks ≡ none))
unfolding batch_processing
batch_processing-cases {D} fuel tasks enough = elim (fill-cases 128 fuel tasks enough) [
  | inl (fits, (q, e, r)) ↦
      let (q', e', r') = execute_all-append 128 (suc (length tasks)) [] r (omega arith) in
      inl (fits, (q', rw (e, batch_processing) (ap some e'), r'))
  | inr (over, never) ↦ inr (over, λ rounds. rw (never rounds, batch_processing) refl)
]

length-work_items : (n i : ℕ) → length (work_items n i) ≡ n
unfolding work_items
length-work_items zero i = refl
length-work_items (suc n) i = ap suc (length-work_items n (i + 1))

-- `example_worker_pool` never gets to its first `submit`: its 100 items do not fit into the queue of 64
-- that nothing empties, and no number of calls of `push` puts them all there.
worker_pool_fill-none : (fuel : ℕ) → worker_pool_fill fuel ≡ none
unfolding worker_pool_fill
worker_pool_fill-none fuel =
    fill-none 64 fuel (work_items 100 0) (new-Represents {A = WorkItem} 64)
      (omega (arith, length-work_items 100 0))
