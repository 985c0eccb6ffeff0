-- ===== src/Examples/Pipeline.antt =====
-- examples/thread_pool_lockfree_example.cpp: `example_pipeline`. A generator thread and two tasks on the
-- pool hand numbers on through two queues, each with one producer and one consumer. A call of `push`
-- or `pop` is one step, and a schedule says in which order the three take their steps.
pub mod Ordered
pub mod Order
pub mod Stages
pub mod Loss
use cpp_systems_playground.Prelude.{
  ℕ, ◌+◌, ◌*◌, none, some, Outcome, ok, ◌>>=◌, List, [], ◌∷◌, ◌++◌, ltb, if◌then◌else◌,
}
use cpp_systems_playground.Spsc
use cpp_systems_playground.Spsc.{Queue}

-- The loop of the stage-2 worker: about to pop, about to push what it made, or left.
pub data Worker : Type 0 where
  popping : Worker
  pushing : ℕ → Worker
  finished : Worker

-- The loop of the stage-3 worker.
pub data Collector : Type 0 where
  collecting : Collector
  finished : Collector

-- `i` is the generator's loop variable and `count` the stage-3 worker's; `taken` and `processed` are the
-- values that the two workers have popped so far.
pub record State : Type 0 where
  pub stage1_queue : Queue ℕ
  pub stage2_queue : Queue ℕ
  pub i : ℕ
  pub stage2_worker : Worker
  pub stage3_worker : Collector
  pub count : ℕ
  pub taken : List ℕ
  pub processed : List ℕ

pub data Turn : Type 0 where
  generator : Turn
  stage2 : Turn
  stage3 : Turn

unfoldable pub start : State
unfolding Spsc.new
start = record {
  stage1_queue = Spsc.new;
  stage2_queue = Spsc.new;
  i = 0;
  stage2_worker = Worker.popping;
  stage3_worker = Collector.collecting;
  count = 0;
  taken = [];
  processed = [];
}

module _ (pipeline_capacity : ℕ) where
  -- The next call of `pop` or `push` of the stage-2 worker.
  unfoldable pub process : State → Outcome State
  unfolding Spsc.push Spsc.pop
  process s = elim s.stage2_worker [
    | Worker.popping ↦ do
      (out, queue) ← Spsc.pop pipeline_capacity s.stage1_queue
      elim out [
        | none ↦ ok (record s { stage1_queue = queue; stage2_worker = Worker.finished })
        | some x ↦ ok (record s {
          stage1_queue = queue;
          stage2_worker = Worker.pushing (x * 2);
          taken = s.taken ++ x ∷ [];
        })
      ]
    | Worker.pushing processed ↦
        let (pushed, queue) = Spsc.push pipeline_capacity s.stage2_queue processed in
        if pushed
        then ok (record s { stage2_queue = queue; stage2_worker = Worker.popping })
        else ok (record s { stage2_queue = queue })
    | Worker.finished ↦ ok s
  ]

  -- The next call of `pop` of the stage-3 worker.
  unfoldable pub collect : State → Outcome State
  unfolding Spsc.pop
  collect s = elim s.stage3_worker [
    | Collector.collecting ↦ do
      (out, queue) ← Spsc.pop pipeline_capacity s.stage2_queue
      elim out [
        | none ↦ ok (record s { stage2_queue = queue; stage3_worker = Collector.finished })
        | some x ↦ ok (record s {
          stage2_queue = queue;
          count = s.count + 1;
          processed = s.processed ++ x ∷ [];
        })
      ]
    | Collector.finished ↦ ok s
  ]

  module _ (total : ℕ) where
    -- The next call of `push` of the generator, if its loop has not ended.
    unfoldable pub generate : State → State
    unfolding Spsc.push
    generate s =
        let square = s.i * s.i in
        let (pushed, queue) = Spsc.push pipeline_capacity s.stage1_queue square in
        if ltb s.i total
        then (if pushed
            then record s { stage1_queue = queue; i = s.i + 1 }
            else record s { stage1_queue = queue })
        else s

    -- The next call of a thread, as a whole.
    unfoldable pub take_turn : State → Turn → Outcome State
    unfolding generate process collect
    take_turn s (Turn.generator) = ok (generate s)
    take_turn s (Turn.stage2) = process s
    take_turn s (Turn.stage3) = collect s

    unfoldable pub run : State → List Turn → Outcome State
    unfolding take_turn
    run s [] = ok s
    run s (turn ∷ turns) = do s' ← take_turn s turn; run s' turns
