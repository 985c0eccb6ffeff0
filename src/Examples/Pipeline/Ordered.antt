-- ===== src/Examples/Pipeline/Ordered.antt =====
-- Each turn of `example_pipeline` keeps the order of what is on its way.
use native.Mathlib.Decide.{dec_lt}
use mathlib.Core.List.{append-nil, append_assoc}
use cpp_systems_playground.Prelude.{
  ℕ, zero, suc, ◌+◌, ◌*◌, ◌≤◌, ◌≡◌, true, false, refl, sym, ap, ◌∙◌, inl, inr, ok, List, [], ◌∷◌,
  ◌++◌, map, length, length-append, arith, ltb,
}
use cpp_systems_playground.Spsc
use cpp_systems_playground.Spsc.Refine.{Represents}
use cpp_systems_playground.Spsc.Ops.{push-refines, pop-refines}
use cpp_systems_playground.Examples.Pipeline.{State, Worker, Collector, generate, process, collect}

-- What the generator makes, in order.
abbrev pub squares : ℕ → List ℕ
squares zero = []
squares (suc n) = squares n ++ (n * n) ∷ []

squares-next : (n : ℕ) → squares (n + 1) ≡ squares n ++ (n * n) ∷ []
squares-next n = let next : n + 1 ≡ suc n = omega arith in ap squares next

abbrev pub double : ℕ → ℕ
double n = n * 2

pub map-append : (xs ys : List ℕ) → map double (xs ++ ys) ≡ map double xs ++ map double ys
map-append [] ys = refl
map-append (x ∷ xs) ys = ap (λ l. double x ∷ l) (map-append xs ys)

-- Made by the stage-2 worker and not yet in the second queue.
abbrev pub held : Worker → List ℕ
held (Worker.popping) = []
held (Worker.pushing v) = v ∷ []
held (Worker.finished) = []

module _ (capacity total : ℕ) where
  -- Nothing is lost or changes places between the stages.
  pub record Ordered (s : State) : Type 0 where
    pub waiting1 : List ℕ
    pub waiting2 : List ℕ
    pub queue1 : Represents capacity s.stage1_queue waiting1
    pub queue2 : Represents capacity s.stage2_queue waiting2
    pub generated : squares s.i ≡ s.taken ++ waiting1
    pub doubled : map double s.taken ≡ s.processed ++ (waiting2 ++ held s.stage2_worker)
    pub counted : s.count ≡ length s.processed
    pub bounded : s.i ≤ total

  pub generate-Ordered : (s : State) → Ordered s → Ordered (generate capacity total s)
  unfolding generate
  generate-Ordered s k = elim (dec_lt s.i total) [
    | no over ↦ let t : ltb s.i total ≡ false = ground (arith, over) in rw t k
    | yes low ↦
        let t : ltb s.i total ≡ true = ground (arith, low) in
        elim (push-refines capacity (s.i * s.i) k.queue1) [
          | inr (full, e) ↦ rw (t, e) k
          | inl (room, e, r) ↦
              rw (t, e)
                (record {
                  waiting1 = k.waiting1 ++ (s.i * s.i) ∷ [];
                  waiting2 = k.waiting2;
                  queue1 = r;
                  queue2 = k.queue2;
                  generated =
                      squares-next s.i
                      ∙ rw k.generated (append_assoc s.taken k.waiting1 ((s.i * s.i) ∷ []));
                  doubled = k.doubled;
                  counted = k.counted;
                  bounded = omega (arith, low);
                })
        ]
  ]

  pub process-Ordered :
      (s : State) → Ordered s → (s' : State) × (process capacity s ≡ ok s') × Ordered s'
  unfolding process
  process-Ordered s k = by_worker s.stage2_worker refl
    where
      by_worker :
          (w : Worker)
          → s.stage2_worker ≡ w
          → (s' : State) × (process capacity s ≡ ok s') × Ordered s'
      by_worker (Worker.finished) w = (s, rw w refl, k)
      by_worker (Worker.pushing v) w = elim (push-refines capacity v k.queue2) [
        | inr (full, e) ↦ (s, rw (w, e) refl, k)
        | inl (room, e, r) ↦ (
          record s {
            stage2_queue = (Spsc.push capacity s.stage2_queue v).1;
            stage2_worker = Worker.popping;
          },
          rw (w, e) refl,
          record {
            waiting1 = k.waiting1;
            waiting2 = k.waiting2 ++ v ∷ [];
            queue1 = k.queue1;
            queue2 = r;
            generated = k.generated;
            doubled = k.doubled ∙ rw (w, append-nil (k.waiting2 ++ v ∷ [])) refl;
            counted = k.counted;
            bounded = k.bounded;
          },
        )
      ]
      by_worker (Worker.popping) w = elim (pop-refines capacity k.queue1) [
        | inl (none_left, e) ↦ (
          record s { stage2_worker = Worker.finished },
          rw (w, e) refl,
          record {
            waiting1 = k.waiting1;
            waiting2 = k.waiting2;
            queue1 = k.queue1;
            queue2 = k.queue2;
            generated = k.generated;
            doubled = k.doubled ∙ rw w refl;
            counted = k.counted;
            bounded = k.bounded;
          },
        )
        | inr (x, rest, queue, split, e, r) ↦ (
          record s {
            stage1_queue = queue;
            stage2_worker = Worker.pushing (x * 2);
            taken = s.taken ++ x ∷ [];
          },
          rw (w, e) refl,
          record {
            waiting1 = rest;
            waiting2 = k.waiting2;
            queue1 = r;
            queue2 = k.queue2;
            generated = k.generated ∙ rw split (sym (append_assoc s.taken (x ∷ []) rest));
            doubled =
                map-append s.taken (x ∷ [])
                ∙ ap (λ l. l ++ double x ∷ []) (rw (w, append-nil k.waiting2) at k.doubled)
                ∙ append_assoc s.processed k.waiting2 (double x ∷ []);
            counted = k.counted;
            bounded = k.bounded;
          },
        )
      ]

  pub collect-Ordered :
      (s : State) → Ordered s → (s' : State) × (collect capacity s ≡ ok s') × Ordered s'
  unfolding collect
  collect-Ordered s k = by_collector s.stage3_worker refl
    where
      by_collector :
          (w : Collector)
          → s.stage3_worker ≡ w
          → (s' : State) × (collect capacity s ≡ ok s') × Ordered s'
      by_collector (Collector.finished) w = (s, rw w refl, k)
      by_collector (Collector.collecting) w = elim (pop-refines capacity k.queue2) [
        | inl (none_left, e) ↦ (
          record s { stage3_worker = Collector.finished },
          rw (w, e) refl,
          record {
            waiting1 = k.waiting1;
            waiting2 = k.waiting2;
            queue1 = k.queue1;
            queue2 = k.queue2;
            generated = k.generated;
            doubled = k.doubled;
            counted = k.counted;
            bounded = k.bounded;
          },
        )
        | inr (x, rest, queue, split, e, r) ↦ (
          record s { stage2_queue = queue; count = s.count + 1; processed = s.processed ++ x ∷ [] },
          rw (w, e) refl,
          record {
            waiting1 = k.waiting1;
            waiting2 = rest;
            queue1 = k.queue1;
            queue2 = r;
            generated = k.generated;
            doubled =
                k.doubled
                ∙ rw split (sym (append_assoc s.processed (x ∷ []) (rest ++ held s.stage2_worker)));
            counted = omega (arith, k.counted, length-append s.processed (x ∷ []));
            bounded = k.bounded;
          },
        )
      ]
