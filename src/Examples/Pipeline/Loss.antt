-- ===== src/Examples/Pipeline/Loss.antt =====
-- How much of its input `example_pipeline` processes depends on the schedule.
use cpp_systems_playground.Prelude.{
  ℕ, ◌+◌, ◌-◌, ◌≤◌, ◌≡◌, refl, subst, ◌∙◌, ok, List, [], ◌∷◌, ◌++◌, length, arith,
}
use cpp_systems_playground.Spsc.{Queue}
use cpp_systems_playground.Spsc.Refine.{Represents, new-Represents}
use cpp_systems_playground.Examples.Pipeline.{State, Worker, Collector, Turn, start, run}
use cpp_systems_playground.Examples.Pipeline.Stages.{
  rounds, then, generates, processes, collects, stage2_leaves, stage3_leaves, empty_list,
}

module _ (capacity total : ℕ) where
  -- The generator makes some numbers, both workers pass them on and leave, then the generator goes on.
  abbrev pub leaving : ℕ → List Turn
  leaving n =
      rounds n (Turn.generator ∷ [])
      ++ (rounds n (Turn.stage2 ∷ Turn.stage2 ∷ [])
          ++ Turn.stage2
            ∷ (rounds n (Turn.stage3 ∷ [])
                ++ Turn.stage3 ∷ rounds (total - n) (Turn.generator ∷ [])))

  -- The generator and the stage-2 worker: the second queue has all that was generated.
  first_stages :
      (n : ℕ)
      → n ≤ total
      → n ≤ capacity
      → (q q' : Queue ℕ) × (ys taken : List ℕ) × Represents capacity q []
        × Represents capacity q' ys
        × (length ys ≡ n)
        × ((more : List Turn)
            → run capacity total start (
                rounds n (Turn.generator ∷ [])
                ++ (rounds n (Turn.stage2 ∷ Turn.stage2 ∷ []) ++ more))
              ≡ run capacity total
                  (record start {
                    stage1_queue = q;
                    stage2_queue = q';
                    i = start.i + n;
                    stage2_worker = Worker.popping;
                    taken = taken;
                  })
                  more)
  unfolding start
  first_stages n low fits =
      let (q1, xs, r1, long1, go1) =
        generates capacity total n start [] (new-Represents {A = ℕ} capacity) (omega (arith, fits))
          (omega (arith, low)) in
      let s1 = record start { stage1_queue = q1; i = start.i + n } in
      let (q, q', xs', ys, taken, r, r', short, long, go) =
        processes capacity total n s1 xs [] refl r1 (new-Represents {A = ℕ} capacity)
          (omega (arith, long1)) (omega (arith, fits)) in
      (
        q,
        q',
        ys,
        taken,
        subst (Represents capacity q) (empty_list xs' (omega (arith, short, long1))) r,
        r',
        omega (arith, long),
        λ more.
            then capacity total start (rounds n (Turn.generator ∷ [])) _ go1
            ∙ then capacity total s1 (rounds n (Turn.stage2 ∷ Turn.stage2 ∷ [])) more go,
      )

  -- Where both queues have room for the whole input, `example_pipeline` can end with any part of it
  -- processed: for each number up to the total there is a schedule that ends with all three loops
  -- left, every number generated and exactly that many processed.
  pub run-leaving :
      (n : ℕ)
      → n ≤ total
      → total ≤ capacity
      → (s : State) × (run capacity total start (leaving n) ≡ ok s)
        × (s.i ≡ total)
        × (s.stage2_worker ≡ Worker.finished)
        × (s.stage3_worker ≡ Collector.finished)
        × (s.count ≡ n)
  unfolding start
  run-leaving n low fits =
      let (q2, q2', ys, taken, empty2, r2, long, go) =
        first_stages n low (omega (arith, low, fits)) in
      let s2 = record start {
        stage1_queue = q2;
        stage2_queue = q2';
        i = start.i + n;
        stage2_worker = Worker.popping;
        taken = taken;
      } in
      let s3 = record s2 { stage2_worker = Worker.finished } in
      let (q4, ys4, processed, r4, short, go4) =
        collects capacity total n s3 ys refl r2 (omega (arith, long)) in
      let empty4 =
        subst (Represents capacity q4) (empty_list ys4 (omega (arith, short, long))) r4 in
      let s4 = record s3 {
        stage2_queue = q4;
        stage3_worker = Collector.collecting;
        count = s3.count + n;
        processed = processed;
      } in
      let s5 = record s4 { stage3_worker = Collector.finished } in
      let (q6, xs6, r6, long6, go6) =
        generates capacity total (total - n) s5 [] empty2 (omega (arith, low, fits))
          (omega (arith, low)) in
      (
        record s5 { stage1_queue = q6; i = s5.i + (total - n) },
        go _
            ∙ then capacity total s2 (Turn.stage2 ∷ []) _
                (stage2_leaves capacity total s2 refl empty2)
            ∙ then capacity total s3 (rounds n (Turn.stage3 ∷ [])) _ go4
            ∙ then capacity total s4 (Turn.stage3 ∷ []) _
                (stage3_leaves capacity total s4 refl empty4)
            ∙ go6,
        omega (arith, low),
        refl,
        refl,
        omega arith,
      )
