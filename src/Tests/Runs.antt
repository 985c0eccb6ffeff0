-- ===== src/Tests/Runs.antt =====
-- The examples with two and three threads, on queues of two and three slots, and the memory pool
-- demonstration with 98 nodes.
use cpp_systems_playground.Prelude.{
  ℕ, ◌+◌, ◌<◌, ◌≤◌, ◌≡◌, ◌⊎◌, none, ok, err, Fault, Option, arith, List, [], ◌∷◌, ◌++◌, length, map,
}
use cpp_systems_playground.Spsc.Concurrent.{Producer, Produce}
use cpp_systems_playground.Spsc
use cpp_systems_playground.Examples.WaitFree
use cpp_systems_playground.Examples.WaitFree.{Push, Step, Steps}
use cpp_systems_playground.Examples.WaitFree.Safety.{numbers}
use cpp_systems_playground.Examples.WaitFree.Progress.{Finished, Steps-Finished}
use cpp_systems_playground.Examples.Pipeline
use cpp_systems_playground.Examples.Pipeline.{Turn, Worker, Collector}
use cpp_systems_playground.Examples.Pipeline.Ordered.{squares, double}
use cpp_systems_playground.Examples.Pipeline.Order.{run-in_order}
use cpp_systems_playground.Examples.Pipeline.Loss.{leaving, run-leaving}
use cpp_systems_playground.Pool.FixedBlock.{Pool}
use cpp_systems_playground.Pool.History.{Inv}
use cpp_systems_playground.Demos.SpscQueue
use cpp_systems_playground.Demos.SpscQueue.Order.{Steps-in_order}
use cpp_systems_playground.Demos.SpscQueue.Progress
use cpp_systems_playground.Demos.SpscQueue.Progress.{Steps-finish}
use cpp_systems_playground.Demos.MemoryPool.{Node, main}
use cpp_systems_playground.Demos.MemoryPool.Lists.{countdown}
use cpp_systems_playground.Demos.MemoryPool.Runs.{main-cases}

-- The producer is about to read the tail for its first number.
abbrev begun : WaitFree.State
begun = record (WaitFree.start) { producer = Producer.has_head 0 0 }

begun_steps : Steps 1000 500 WaitFree.start begun
unfolding WaitFree.start Spsc.new
begun_steps = Steps.step (Step.produce (Push.begin (omega arith) (Produce.load_head 0))) Steps.done

Steps-Finished_example : (s' : WaitFree.State) × Steps 1000 500 begun s' × Finished 1000 500 s'
Steps-Finished_example = Steps-Finished 1000 500 (omega arith) begun_steps

abbrev turns : List Turn
turns =
    Turn.generator ∷ Turn.generator ∷ Turn.stage2 ∷ Turn.stage2 ∷ Turn.stage3 ∷ Turn.generator ∷ []

run-in_order_example :
    (s : Pipeline.State) × (Pipeline.run 32 30 Pipeline.start turns ≡ ok s)
    × (s.count ≡ length s.processed)
    × ((rest : List ℕ) × (map double (squares s.i) ≡ s.processed ++ rest)
        × (length rest ≤ 32 + 32 + 1))
run-in_order_example = run-in_order 32 30 turns

run-leaving_example :
    (s : Pipeline.State) × (Pipeline.run 32 30 Pipeline.start (leaving 32 30 3) ≡ ok s)
    × (s.i ≡ 30)
    × (s.stage2_worker ≡ Worker.finished)
    × (s.stage3_worker ≡ Collector.finished)
    × (s.count ≡ 3)
run-leaving_example = run-leaving 32 30 3 (omega arith) (omega arith)

abbrev fresh_words : ℕ → Option ℕ
fresh_words a = none

abbrev fresh_nodes : ℕ → Node
fresh_nodes a = record { value = 0; next = none }

main-cases_example :
    ((98 ≤ 8)
      × ((p : Pool) × (free : List ℕ) × (main fresh_words fresh_words fresh_nodes 8 98
            ≡ ok (countdown 98, p))
          × (length free ≡ 8)
          × Inv p [] free))
    ⊎ ((8 < 98) × (main fresh_words fresh_words fresh_nodes 8 98 ≡ err Fault.bad_alloc))
main-cases_example = main-cases fresh_words fresh_words fresh_nodes 8 98 (omega arith) (omega arith)

abbrev spinning : SpscQueue.State
spinning = record (SpscQueue.start) { producer = Producer.has_head 0 0 }

spinning_steps : SpscQueue.Steps 1024 10000 SpscQueue.start spinning
unfolding SpscQueue.start Spsc.new
spinning_steps =
    SpscQueue.step (SpscQueue.produce (SpscQueue.Push.begin (omega arith) (Produce.load_head 0)))
      SpscQueue.done

Steps-in_order_example :
    (spinning.tally.out_of_order ≡ 0)
    × (spinning.tally.expected ≡ spinning.tally.count)
    × (spinning.tally.count ≡ length spinning.shared.received)
    × ((rest : List ℕ) × (numbers spinning.i ≡ spinning.shared.received ++ rest)
        × (length rest ≤ 1024))
Steps-in_order_example = Steps-in_order 1024 10000 spinning_steps

Steps-finish_example :
    (s' : SpscQueue.State) × SpscQueue.Steps 1024 10000 spinning s'
    × Progress.Finished 1024 10000 s'
Steps-finish_example = Steps-finish 1024 10000 (omega arith) spinning_steps
