-- ===== src/Examples/Pipeline/Stages.antt =====
-- What each loop of `example_pipeline` does in a number of turns of its own.
use cpp_systems_playground.Prelude.{
  ℕ, zero, suc, ◌+◌, ◌*◌, ◌≤◌, ◌≡◌, true, refl, ap, ◌∙◌, inl, inr, ok, List, [], ◌∷◌, ◌++◌, length,
  length-append, arith, ltb, Outcome-cases, ◌>>=◌,
}
use cpp_systems_playground.Spsc
use cpp_systems_playground.Spsc.{Queue}
use cpp_systems_playground.Spsc.Refine.{Represents}
use cpp_systems_playground.Spsc.Ops.{push-refines, pop-refines}
use cpp_systems_playground.Examples.Pipeline.{
  State, Worker, Collector, Turn, generate, process, collect, take_turn, run,
}

-- A schedule that repeats some turns.
abbrev pub rounds : ℕ → List Turn → List Turn
rounds zero turns = []
rounds (suc n) turns = turns ++ rounds n turns

pub empty_list : (xs : List ℕ) → length xs ≡ 0 → xs ≡ []
empty_list [] e = refl
empty_list (x ∷ xs) e = absurd (omega (arith, e))

module _ (capacity total : ℕ) where
  run-append :
      (s : State) (turns : List Turn) (more : List Turn)
      → run capacity total s (turns ++ more)
        ≡ (run capacity total s turns >>= λ s'. run capacity total s' more)
  unfolding run
  run-append s [] more = refl
  run-append s (turn ∷ turns) more = elim (Outcome-cases (take_turn capacity total s turn)) [
    | inl (s', e) ↦ rw e (run-append s' turns more)
    | inr (f, e) ↦ rw e refl
  ]

  pub then :
      (s : State) {s' : State} (turns : List Turn) (more : List Turn)
      → run capacity total s turns ≡ ok s'
      → run capacity total s (turns ++ more) ≡ run capacity total s' more
  then s turns more e = run-append s turns more ∙ rw e refl

  pub generates :
      (n : ℕ) (s : State) (xs : List ℕ)
      → Represents capacity s.stage1_queue xs
      → length xs + n ≤ capacity
      → s.i + n ≤ total
      → (q : Queue ℕ) × (xs' : List ℕ) × Represents capacity q xs'
        × (length xs' ≡ length xs + n)
        × (run capacity total s (rounds n (Turn.generator ∷ []))
            ≡ ok (record s { stage1_queue = q; i = s.i + n }))
  unfolding run take_turn generate
  generates zero s xs r fits low =
      (s.stage1_queue, xs, r, omega arith, ap (λ j. ok (record s { i = j })) (omega arith))
  generates (suc n) s xs r fits low = elim (push-refines capacity (s.i * s.i) r) [
    | inr (full, e) ↦ absurd (omega arith)
    | inl (room, e, r') ↦
        let t : ltb s.i total ≡ true = ground (arith, low) in
        let longer = length-append xs ((s.i * s.i) ∷ []) in
        let q = (Spsc.push capacity s.stage1_queue (s.i * s.i)).1 in
        let (q', xs', r'', long, go) =
          generates n (record s { stage1_queue = q; i = s.i + 1 }) (xs ++ (s.i * s.i) ∷ []) r'
            (omega (arith, longer, fits)) (omega (arith, low)) in
        (
          q',
          xs',
          r'',
          omega (arith, long, longer),
          rw (t, e) (go ∙ ap (λ j. ok (record s { stage1_queue = q'; i = j })) (omega arith)),
        )
  ]

  -- What the stage-2 worker does with a number: a turn to pop it and a turn to push what it made.
  pub processes :
      (n : ℕ) (s : State) (xs ys : List ℕ)
      → s.stage2_worker ≡ Worker.popping
      → Represents capacity s.stage1_queue xs
      → Represents capacity s.stage2_queue ys
      → n ≤ length xs
      → length ys + n ≤ capacity
      → (q q' : Queue ℕ) × (xs' ys' taken' : List ℕ) × Represents capacity q xs'
        × Represents capacity q' ys'
        × (length xs' + n ≡ length xs)
        × (length ys' ≡ length ys + n)
        × (run capacity total s (rounds n (Turn.stage2 ∷ Turn.stage2 ∷ []))
            ≡ ok (record s {
              stage1_queue = q;
              stage2_queue = q';
              stage2_worker = Worker.popping;
              taken = taken';
            }))
  unfolding run take_turn process
  processes zero s xs ys w r1 r2 few room = (
    s.stage1_queue,
    s.stage2_queue,
    xs,
    ys,
    s.taken,
    r1,
    r2,
    omega arith,
    omega arith,
    ap (λ u. ok (record s { stage2_worker = u })) w,
  )
  processes (suc n) s xs ys w r1 r2 few room = elim (pop-refines capacity r1) [
    | inl (none_left, e) ↦ absurd (omega (arith, few, ap length none_left))
    | inr (x, rest, q, split, e, r1') ↦ elim (push-refines capacity (x * 2) r2) [
      | inr (full, e2) ↦ absurd (omega arith)
      | inl (free, e2, r2') ↦
          let longer = length-append ys ((x * 2) ∷ []) in
          let s' = record s {
            stage1_queue = q;
            stage2_queue = (Spsc.push capacity s.stage2_queue (x * 2)).1;
            stage2_worker = Worker.popping;
            taken = s.taken ++ x ∷ [];
          } in
          let (q1, q2, xs', ys', taken', r1'', r2'', short, long, go) =
            processes n s' rest (ys ++ (x * 2) ∷ []) refl r1' r2'
              (omega (arith, few, ap length split)) (omega (arith, longer, room)) in
          (
            q1,
            q2,
            xs',
            ys',
            taken',
            r1'',
            r2'',
            omega (arith, short, ap length split),
            omega (arith, long, longer),
            rw (w, e, e2) go,
          )
    ]
  ]

  pub collects :
      (n : ℕ) (s : State) (ys : List ℕ)
      → s.stage3_worker ≡ Collector.collecting
      → Represents capacity s.stage2_queue ys
      → n ≤ length ys
      → (q : Queue ℕ) × (ys' processed' : List ℕ) × Represents capacity q ys'
        × (length ys' + n ≡ length ys)
        × (run capacity total s (rounds n (Turn.stage3 ∷ []))
            ≡ ok (record s {
              stage2_queue = q;
              stage3_worker = Collector.collecting;
              count = s.count + n;
              processed = processed';
            }))
  unfolding run take_turn collect
  collects zero s ys w r few = (
    s.stage2_queue,
    ys,
    s.processed,
    r,
    omega arith,
    let none_more : s.count ≡ s.count + 0 = omega arith in
        ap (λ j. ok (record s { count = j })) none_more
        ∙ ap (λ u. ok (record s { stage3_worker = u; count = s.count + 0 })) w,
  )
  collects (suc n) s ys w r few = elim (pop-refines capacity r) [
    | inl (none_left, e) ↦ absurd (omega (arith, few, ap length none_left))
    | inr (x, rest, q, split, e, r') ↦
        let s' = record s {
          stage2_queue = q;
          stage3_worker = Collector.collecting;
          count = s.count + 1;
          processed = s.processed ++ x ∷ [];
        } in
        let (q', ys', processed', r'', short, go) =
          collects n s' rest refl r' (omega (arith, few, ap length split)) in
        (
          q',
          ys',
          processed',
          r'',
          omega (arith, short, ap length split),
          rw (w, e)
              (go
                ∙ ap
                    (λ j. ok (record s {
                      stage2_queue = q';
                      stage3_worker = Collector.collecting;
                      count = j;
                      processed = processed';
                    }))
                    (omega arith)),
        )
  ]

  -- A worker that finds its queue empty leaves its loop.
  pub stage2_leaves :
      (s : State)
      → s.stage2_worker ≡ Worker.popping
      → Represents capacity s.stage1_queue []
      → run capacity total s (Turn.stage2 ∷ []) ≡ ok (record s { stage2_worker = Worker.finished })
  unfolding run take_turn process
  stage2_leaves s w r = elim (pop-refines capacity r) [
    | inl (none_left, e) ↦ rw (w, e) refl
    | inr (x, rest, q, split, e, r') ↦ absurd (omega (arith, ap length split))
  ]

  pub stage3_leaves :
      (s : State)
      → s.stage3_worker ≡ Collector.collecting
      → Represents capacity s.stage2_queue []
      → run capacity total s (Turn.stage3 ∷ [])
        ≡ ok (record s { stage3_worker = Collector.finished })
  unfolding run take_turn collect
  stage3_leaves s w r = elim (pop-refines capacity r) [
    | inl (none_left, e) ↦ rw (w, e) refl
    | inr (x, rest, q, split, e, r') ↦ absurd (omega (arith, ap length split))
  ]
