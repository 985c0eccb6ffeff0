-- ===== src/Tests/Batches.antt =====
-- The tasks of `example_batch_processing`, without their descriptions, and a queue of two slots.
use cpp_systems_playground.Prelude.{
  ℕ, ◌<◌, ◌≤◌, ◌≡◌, ◌⊎◌, none, some, ok, arith, List, [], ◌∷◌, length,
}
use cpp_systems_playground.Spsc
use cpp_systems_playground.Spsc.{Queue}
use cpp_systems_playground.Spsc.Refine.{Represents}
use cpp_systems_playground.Examples.{Task, fill, batch_processing}
use cpp_systems_playground.Examples.Batch.{fill-cases, batch_processing-cases}

abbrev task : ℕ → ℕ → Task ℕ
task id complexity = record { task_id = id; description = 0; complexity = complexity }

abbrev tasks : List (Task ℕ)
tasks = task 1 2 ∷ task 2 3 ∷ task 3 1 ∷ task 4 4 ∷ task 5 2 ∷ task 6 1 ∷ task 7 2 ∷ task 8 3 ∷ []

batch_processing-cases_example :
    ((length tasks ≤ 128)
      × ((q : Queue (Task ℕ)) × (batch_processing 8 tasks ≡ some (ok (tasks, q)))
          × Represents 128 q []))
    ⊎ ((128 < length tasks) × ((rounds : ℕ) → batch_processing rounds tasks ≡ none))
batch_processing-cases_example = batch_processing-cases 8 tasks (omega arith)

abbrev items : List ℕ
items = 1 ∷ 2 ∷ 3 ∷ []

fill-cases_example :
    ((length items ≤ 2)
      × ((q : Queue ℕ) × (fill 2 3 Spsc.new items ≡ some q) × Represents 2 q items))
    ⊎ ((2 < length items) × ((rounds : ℕ) → fill 2 rounds Spsc.new items ≡ none))
fill-cases_example = fill-cases 2 3 items (omega arith)
