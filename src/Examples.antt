-- ===== src/Examples.antt =====
-- examples/thread_pool_lockfree_example.cpp: the parts in which one thread fills an `SPSCQueue` and
-- one task then empties it. The parts with several threads are in WaitFree and Pipeline.
pub mod Batch
pub mod WaitFree
pub mod Pipeline
use cpp_systems_playground.Prelude.{
  ℕ, zero, suc, ◌+◌, Option, none, some, Outcome, ok, err, Fault, ◌>>=◌, List, [], ◌∷◌, ◌++◌,
  if◌then◌else◌, length,
}
use cpp_systems_playground.Spsc
use cpp_systems_playground.Spsc.{Queue}

-- `Task`; its description is opaque.
pub record Task {ℓ} (D : Type ℓ) : Type ℓ where
  pub task_id : ℕ
  pub description : D
  pub complexity : ℕ

pub record WorkItem : Type 0 where
  pub id : ℕ
  pub value : ℕ

module _ {ℓ} {A : Type ℓ} (capacity : ℕ) where
  -- `for (t : tasks) while (!queue.push(t)) yield();` with fuel for the calls of `push`; `none` when it
  -- runs out.
  unfoldable pub fill : ℕ → Queue A → List A → Option (Queue A)
  unfolding Spsc.push
  fill fuel q [] = some q
  fill zero q (x ∷ xs) = none
  fill (suc fuel) q (x ∷ xs) =
      let (pushed, q') = Spsc.push capacity q x in
      let next = fill fuel q' xs in
      let again = fill fuel q' (x ∷ xs) in if pushed then next else again

  -- `while (queue.pop(t)) t.execute();` with fuel for the calls of `pop`, and what was executed so far.
  unfoldable pub execute_all : ℕ → Queue A → List A → Outcome (List A × Queue A)
  unfolding Spsc.pop
  execute_all zero q done = err Fault.undefined
  execute_all (suc fuel) q done = do
    (out, q') ← Spsc.pop capacity q
    elim out [ none ↦ ok (done, q') | some t ↦ execute_all fuel q' (done ++ t ∷ []) ]

-- `example_batch_processing` with its tasks as an argument: those that the worker executes, in
-- order. `none` when the fuel for filling the queue runs out.
unfoldable pub batch_processing {ℓ} :
    {D : Type ℓ} → ℕ → List (Task D) → Option (Outcome (List (Task D) × Queue (Task D)))
unfolding fill execute_all Spsc.new
batch_processing fuel tasks = elim (fill 128 fuel Spsc.new tasks) [
  | none ↦ none
  | some q ↦ some (execute_all 128 (suc (length tasks)) q [])
]

-- The items that `example_worker_pool` makes: the number of items left, and the next one.
unfoldable pub work_items : ℕ → ℕ → List WorkItem
work_items zero i = []
work_items (suc n) i = record { id = i; value = 1000 + i } ∷ work_items n (i + 1)

-- `example_worker_pool` up to the first `submit`.
unfoldable pub worker_pool_fill : ℕ → Option (Queue WorkItem)
unfolding fill work_items Spsc.new
worker_pool_fill fuel = fill 64 fuel Spsc.new (work_items 100 0)
