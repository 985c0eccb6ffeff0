-- ===== src/Demos/SpscQueue/Order.antt =====
-- The consumer of `spsc_queue_demo.cpp` never finds a value out of order.
use native.Mathlib.Decide.{ℕ_discrete}
use mathlib.Core.Option.{some-injective}
use cpp_systems_playground.Prelude.{
  ℕ, zero, suc, ◌<◌, ◌≤◌, ◌≡◌, ◌==◌, refl, sym, ap, ◌∙◌, some, List, [], ◌∷◌, ◌++◌, length,
  length-append, get_elem?, get_elem?-append_last, get_elem?-append_ne, arith, true,
}
use cpp_systems_playground.Spsc.Concurrent.{Producer, Consumer, Shared, Produce, Consume, Reach}
use cpp_systems_playground.Spsc.Fifo.{Reach-Inv, Reach-fifo}
use cpp_systems_playground.Examples.WaitFree.Safety.{
  numbers, length-numbers, numbers-next, Carries, written, untouched,
}
use cpp_systems_playground.Demos.SpscQueue.{State, Tally, check, Push, Pop, Step, Steps, start}

numbers_at : (n j : ℕ) → j < n → get_elem? (numbers n) j ≡ some j
numbers_at zero j low = absurd (omega arith)
numbers_at (suc n) j low = elim (ℕ_discrete j (length (numbers n))) [
  | yes last ↦
      rw last (get_elem?-append_last (numbers n) n) ∙ ap some (sym (last ∙ length-numbers n))
  | no before ↦
      get_elem?-append_ne (numbers n) n j before
      ∙ numbers_at n j (omega (arith, low, before, length-numbers n))
]

middle :
    (xs : List ℕ) (x : ℕ) (rest : List ℕ) → get_elem? ((xs ++ x ∷ []) ++ rest) (length xs) ≡ some x
middle [] x rest = refl
middle (y ∷ xs) x rest = middle xs x rest

-- The value at a place of the numbers is the place.
numbers_value :
    (n : ℕ) (xs : List ℕ) (x : ℕ) (rest : List ℕ)
    → numbers n ≡ (xs ++ x ∷ []) ++ rest
    → x ≡ length xs
numbers_value n xs x rest e =
    let short : length xs < n = omega (
      arith,
      ap length e,
      length-numbers n,
      length-append (xs ++ x ∷ []) rest,
      length-append xs (x ∷ []),
    ) in
    some-injective x (length xs) (
      sym (middle xs x rest)
      ∙ ap (λ l. get_elem? l (length xs)) (sym e)
      ∙ numbers_at n (length xs) short)

module _ (capacity n : ℕ) where
  pub record Inv (s : State) : Type 0 where
    pub reach : Reach capacity s.shared s.producer s.consumer
    pub sent : s.shared.sent ≡ numbers s.i
    pub carries : Carries capacity n s.producer s.i
    pub expected : s.tally.expected ≡ length s.shared.received
    pub count : s.tally.count ≡ length s.shared.received
    pub in_order : s.tally.out_of_order ≡ 0

  -- The end of the reads of a call of `push`, and of one of `pop`.
  decides :
      {m m' : Shared ℕ} {v h t i : ℕ} {p : Producer ℕ} {c : Consumer ℕ} {y : Tally}
      → Produce capacity m (Producer.has_tail v h t) m' p
      → Inv (record {
        shared = m;
        producer = Producer.has_tail v h t;
        consumer = c;
        i = i;
        tally = y;
      })
      → Inv (record { shared = m'; producer = p; consumer = c; i = i; tally = y })
  decides {i = i} e k =
      let (same, same', next) = written capacity n {i = i} e k.carries in
      record {
        reach = Reach.produce k.reach e;
        sent = same ∙ k.sent;
        carries = next;
        expected = k.expected ∙ ap length (sym same');
        count = k.count ∙ ap length (sym same');
        in_order = k.in_order;
      }

  looks :
      {m m' : Shared ℕ} {t h i : ℕ} {p : Producer ℕ} {c : Consumer ℕ} {y : Tally}
      → Consume capacity m (Consumer.has_head t h) m' c
      → Inv
          (record { shared = m; producer = p; consumer = Consumer.has_head t h; i = i; tally = y })
      → Inv (record { shared = m'; producer = p; consumer = c; i = i; tally = y })
  looks e k =
      let (same, same') = untouched capacity n e in
      record {
        reach = Reach.consume k.reach e;
        sent = same ∙ k.sent;
        carries = k.carries;
        expected = k.expected ∙ ap length (sym same');
        count = k.count ∙ ap length (sym same');
        in_order = k.in_order;
      }

  Push-Inv :
      {m m' : Shared ℕ} {p p' : Producer ℕ} {c : Consumer ℕ} {i i' : ℕ} {y : Tally}
      → Push capacity n m p i m' p' i'
      → Inv (record { shared = m; producer = p; consumer = c; i = i; tally = y })
      → Inv (record { shared = m'; producer = p'; consumer = c; i = i'; tally = y })
  Push-Inv (Push.begin low (Produce.load_head v)) k = record {
    reach = Reach.produce k.reach (Produce.load_head v);
    sent = k.sent;
    carries = (refl, low);
    expected = k.expected;
    count = k.count;
    in_order = k.in_order;
  }
  Push-Inv (Push.read (Produce.load_tail)) k = record {
    reach = Reach.produce k.reach Produce.load_tail;
    sent = k.sent;
    carries = k.carries;
    expected = k.expected;
    count = k.count;
    in_order = k.in_order;
  }
  Push-Inv (Push.write e) k = decides e k
  Push-Inv {i = i} (Push.pushed (Produce.publish)) k = record {
    reach = Reach.produce k.reach Produce.publish;
    sent = rw (k.sent, k.carries.0) (sym (numbers-next i));
    carries = omega (arith, k.carries.1);
    expected = k.expected;
    count = k.count;
    in_order = k.in_order;
  }
  Push-Inv (Push.refused e) k = decides e k

  Pop-Inv :
      {m m' : Shared ℕ} {p : Producer ℕ} {c c' : Consumer ℕ} {i : ℕ} {y y' : Tally}
      → Pop capacity n m c y m' c' y'
      → Inv (record { shared = m; producer = p; consumer = c; i = i; tally = y })
      → Inv (record { shared = m'; producer = p; consumer = c'; i = i; tally = y' })
  unfolding check
  Pop-Inv (Pop.begin low (Consume.load_tail)) k = record {
    reach = Reach.consume k.reach Consume.load_tail;
    sent = k.sent;
    carries = k.carries;
    expected = k.expected;
    count = k.count;
    in_order = k.in_order;
  }
  Pop-Inv (Pop.read (Consume.load_head)) k = record {
    reach = Reach.consume k.reach Consume.load_head;
    sent = k.sent;
    carries = k.carries;
    expected = k.expected;
    count = k.count;
    in_order = k.in_order;
  }
  Pop-Inv (Pop.take e) k = looks e k
  Pop-Inv (Pop.missed e) k = looks e k
  Pop-Inv {m} {i = i} {y = y} (Pop.popped {x = x} (Consume.release)) k =
      let inv = Reach-Inv capacity k.reach in
      let place = numbers_value i m.received x inv.rest (sym k.sent ∙ inv.fifo) in
      let here : (x == y.expected) ≡ true = ground (arith, place, k.expected) in
      let longer = length-append m.received (x ∷ []) in
      record {
        reach = Reach.consume k.reach Consume.release;
        sent = k.sent;
        carries = k.carries;
        expected = omega (arith, k.expected, longer);
        count = omega (arith, k.count, longer);
        in_order = rw here k.in_order;
      }

  pub Step-Inv : {s s' : State} → Step capacity n s s' → Inv s → Inv s'
  Step-Inv (Step.produce e) k = Push-Inv e k
  Step-Inv (Step.consume e) k = Pop-Inv e k

  pub Steps-Inv : {s s' : State} → Steps capacity n s s' → Inv s → Inv s'
  Steps-Inv (Steps.done) k = k
  Steps-Inv (Steps.step e es) k = Steps-Inv es (Step-Inv e k)

  pub start-Inv : Inv start
  unfolding start
  start-Inv = record {
    reach = Reach.start;
    sent = refl;
    carries = omega arith;
    expected = refl;
    count = refl;
    in_order = refl;
  }

  -- In every interleaving, on a queue of any capacity, the consumer has printed no line "Out of order",
  -- its two counters agree, and what it has popped is the first part of the numbers pushed, in order.
  pub Steps-in_order :
      {s : State}
      → Steps capacity n start s
      → (s.tally.out_of_order ≡ 0)
        × (s.tally.expected ≡ s.tally.count)
        × (s.tally.count ≡ length s.shared.received)
        × ((rest : List ℕ) × (numbers s.i ≡ s.shared.received ++ rest) × (length rest ≤ capacity))
  Steps-in_order {s} es =
      let k = Steps-Inv es start-Inv in
      let (rest, split, few) = Reach-fifo capacity k.reach in
      (k.in_order, k.expected ∙ sym k.count, k.count, (rest, sym k.sent ∙ split, few))
