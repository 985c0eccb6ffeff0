-- ===== src/Examples/Pipeline/Order.antt =====
-- What `example_pipeline` has generated, taken and processed at any moment, in any schedule.
use mathlib.Core.List.{append_assoc}
use cpp_systems_playground.Prelude.{
  ℕ, suc, ◌+◌, ◌≤◌, ◌≡◌, refl, ap, ◌∙◌, ok, List, [], ◌∷◌, ◌++◌, map, length, length-append, arith,
}
use cpp_systems_playground.Spsc.Refine.{new-Represents}
use cpp_systems_playground.Examples.Pipeline.{State, Worker, Turn, start, take_turn, run}
use cpp_systems_playground.Examples.Pipeline.Ordered.{
  squares, double, map-append, held, Ordered, generate-Ordered, process-Ordered, collect-Ordered,
}

module _ (capacity total : ℕ) where
  take_turn-Ordered :
      (s : State) (turn : Turn)
      → Ordered capacity total s
      → (s' : State) × (take_turn capacity total s turn ≡ ok s') × Ordered capacity total s'
  unfolding take_turn
  take_turn-Ordered s (Turn.generator) k = (_, refl, generate-Ordered capacity total s k)
  take_turn-Ordered s (Turn.stage2) k = process-Ordered capacity total s k
  take_turn-Ordered s (Turn.stage3) k = collect-Ordered capacity total s k

  run-Ordered :
      (s : State) (turns : List Turn)
      → Ordered capacity total s
      → (s' : State) × (run capacity total s turns ≡ ok s') × Ordered capacity total s'
  unfolding run
  run-Ordered s [] k = (s, refl, k)
  run-Ordered s (turn ∷ turns) k =
      let (s', e, k') = take_turn-Ordered s turn k in
      let (s'', e', k'') = run-Ordered s' turns k' in (s'', rw e e', k'')

  start-Ordered : Ordered capacity total start
  unfolding start
  start-Ordered = record {
    waiting1 = [];
    waiting2 = [];
    queue1 = new-Represents {A = ℕ} capacity;
    queue2 = new-Represents {A = ℕ} capacity;
    generated = refl;
    doubled = refl;
    counted = refl;
    bounded = omega arith;
  }

  -- In every schedule of the three threads in which each whole call of `push` or `pop` is one step,
  -- `example_pipeline` never reads a slot without an object: the stage-3 worker has
  -- counted what it popped, which is the first part of the doubled squares generated so far, in
  -- order and without a gap, and at most twice the capacity and one more are on their way.
  pub run-in_order :
      (turns : List Turn)
      → (s : State) × (run capacity total start turns ≡ ok s)
        × (s.count ≡ length s.processed)
        × ((rest : List ℕ) × (map double (squares s.i) ≡ s.processed ++ rest)
            × (length rest ≤ capacity + capacity + 1))
  run-in_order turns =
      let (s, e, k) = run-Ordered start turns start-Ordered in
      let on_way = k.waiting2 ++ held s.stage2_worker in
      (
        s,
        e,
        k.counted,
        (
          on_way ++ map double k.waiting1,
          ap (map double) k.generated
              ∙ map-append s.taken k.waiting1
              ∙ ap (λ l. l ++ map double k.waiting1) k.doubled
              ∙ append_assoc s.processed on_way (map double k.waiting1),
          omega (
            arith,
            k.queue1.bounded,
            k.queue2.bounded,
            length-append on_way (map double k.waiting1),
            length-append k.waiting2 (held s.stage2_worker),
            length-doubled k.waiting1,
            one_at_most s.stage2_worker,
          ),
        ),
      )
    where
      length-doubled : (xs : List ℕ) → length (map double xs) ≡ length xs
      length-doubled [] = refl
      length-doubled (x ∷ xs) = ap suc (length-doubled xs)

      one_at_most : (w : Worker) → length (held w) ≤ 1
      one_at_most (Worker.popping) = omega arith
      one_at_most (Worker.pushing v) = omega arith
      one_at_most (Worker.finished) = omega arith
