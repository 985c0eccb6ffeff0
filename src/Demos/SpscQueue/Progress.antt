-- ===== src/Demos/SpscQueue/Progress.antt =====
-- The two threads of `spsc_queue_demo.cpp` can go on to their end from wherever they are.
use native.Mathlib.Decide.{ℕ_discrete}
use cpp_systems_playground.Prelude.{
  ℕ, zero, suc, ◌+◌, ◌-◌, ◌<◌, ◌≤◌, ◌≡◌, refl, ap, ◌∙◌, length, length-append, arith,
}
use cpp_systems_playground.Spsc.Concurrent.{Producer, Consumer, Shared}
use cpp_systems_playground.Spsc.Fifo.{Reach-fifo}
use cpp_systems_playground.Examples.WaitFree.Safety.{numbers, length-numbers}
use cpp_systems_playground.Examples.WaitFree.Progress.{whole}
use cpp_systems_playground.Demos.SpscQueue.{State, Tally, check, Steps, start}
use cpp_systems_playground.Demos.SpscQueue.Loops.{
  at_point, Steps-append, reached, push_ends, pop_ends, pops_one, pushes_one,
}

module _ (capacity n : ℕ) where
  -- One value more is popped, after a `push` if the queue is empty.
  one_more :
      (m : Shared ℕ) (i : ℕ) (y : Tally)
      → 0 < capacity
      → Steps capacity n start (at_point m Producer.idle Consumer.idle i y)
      → y.count < n
      → (m' : Shared ℕ) × (i' : ℕ) × (y' : Tally) × (y'.count ≡ y.count + 1)
        × Steps capacity n
            (at_point m Producer.idle Consumer.idle i y)
            (at_point m' Producer.idle Consumer.idle i' y')
  unfolding check
  one_more m i y pos before low =
      let k = reached capacity n before in
      let (rest, split, few) = Reach-fifo capacity k.reach in
      let counted : length m.received ≤ length m.sent =
        omega (arith, ap length split, length-append m.received rest) in
      elim (ℕ_discrete (length m.received) (length m.sent)) [
        | no differ ↦
            let (m', x, es) =
              pops_one capacity n m i y k.reach (omega (arith, counted, differ)) low in
            (m', i, check y x, refl, es)
        | yes none_left ↦
            let more : i < n =
              omega (arith, k.count, none_left, low, ap length k.sent, length-numbers i) in
            let (m1, es) = pushes_one capacity n m i y k.reach none_left pos more in
            let k1 = reached capacity n (Steps-append capacity n before es) in
            let some_left : length m1.received < length m1.sent = omega (
              arith,
              k.count,
              k1.count,
              none_left,
              ap length k.sent,
              ap length k1.sent,
              length-numbers i,
              length-numbers (i + 1),
            ) in
            let (m', x, fs) = pops_one capacity n m1 (i + 1) y k1.reach some_left low in
            (m', i + 1, check y x, refl, Steps-append capacity n es fs)
      ]

  all_popped :
      (rounds : ℕ) (m : Shared ℕ) (i : ℕ) (y : Tally)
      → 0 < capacity
      → Steps capacity n start (at_point m Producer.idle Consumer.idle i y)
      → y.count + rounds ≡ n
      → (m' : Shared ℕ) × (i' : ℕ) × (y' : Tally) × (y'.count ≡ n)
        × Steps capacity n
            (at_point m Producer.idle Consumer.idle i y)
            (at_point m' Producer.idle Consumer.idle i' y')
  all_popped zero m i y pos before e = (m, i, y, omega (arith, e), Steps.done)
  all_popped (suc rounds) m i y pos before e =
      let (m1, i1, y1, grown, es) = one_more m i y pos before (omega (arith, e)) in
      let (m', i', y', all, fs) =
        all_popped rounds m1 i1 y1 pos (Steps-append capacity n before es)
          (omega (arith, e, grown)) in
      (m', i', y', all, Steps-append capacity n es fs)

  -- Both threads have left their loops, and nothing was out of order.
  pub record Finished (s : State) : Type 0 where
    pub producer_idle : s.producer ≡ Producer.idle
    pub consumer_idle : s.consumer ≡ Consumer.idle
    pub loop_done : s.i ≡ n
    pub popped_all : s.tally.count ≡ n
    pub in_order : s.tally.out_of_order ≡ 0
    pub received_all : s.shared.received ≡ numbers n

  ends-Finished :
      {m : Shared ℕ} {i : ℕ} {y : Tally}
      → Steps capacity n start (at_point m Producer.idle Consumer.idle i y)
      → y.count ≡ n
      → Finished (at_point m Producer.idle Consumer.idle i y)
  ends-Finished {m} {i} {y} before all =
      let k = reached capacity n before in
      let (rest, split, few) = Reach-fifo capacity k.reach in
      let low : i ≤ n = k.carries in
      let done : i ≡ n = omega (
        arith,
        low,
        all,
        k.count,
        ap length split,
        length-append m.received rest,
        ap length k.sent,
        length-numbers i,
      ) in
      let all_sent : m.sent ≡ numbers n = k.sent ∙ ap numbers done in
      record {
        producer_idle = refl;
        consumer_idle = refl;
        loop_done = done;
        popped_all = all;
        in_order = k.in_order;
        received_all =
            whole capacity n rest split
              (omega (arith, k.count, all, ap length all_sent, length-numbers n))
            ∙ all_sent;
      }

  popped_few :
      {m : Shared ℕ} {i : ℕ} {y : Tally}
      → Steps capacity n start (at_point m Producer.idle Consumer.idle i y)
      → y.count ≤ n
  popped_few {m} {i} before =
      let k = reached capacity n before in
      let (rest, split, few) = Reach-fifo capacity k.reach in
      let low : i ≤ n = k.carries in
      omega (
        arith,
        low,
        k.count,
        ap length split,
        length-append m.received rest,
        ap length k.sent,
        length-numbers i,
      )

  calls_end :
      {s : State}
      → Steps capacity n start s
      → (m : Shared ℕ) × (i : ℕ) × (y : Tally) × Steps capacity n s
          (at_point m Producer.idle Consumer.idle i y)
  calls_end {s} before =
      let (m, i, es) = push_ends capacity n s.shared s.producer s.consumer s.i s.tally in
      let k = reached capacity n (Steps-append capacity n before es) in
      let (m', y, fs) = pop_ends capacity n m Producer.idle s.consumer i s.tally k.reach in
      (m', i, y, Steps-append capacity n es fs)

  -- On a queue with room for an item the two threads can go on to their end from wherever an
  -- interleaving has brought them, and there the consumer has popped exactly the numbers below `n`, in
  -- order, also where they are more than the queue has room for.
  pub Steps-finish :
      {s : State}
      → 0 < capacity
      → Steps capacity n start s
      → (s' : State) × Steps capacity n s s' × Finished s'
  Steps-finish {s} pos before =
      let (m, i, y, es) = calls_end before in
      let then = Steps-append capacity n before es in
      let low = popped_few then in
      let (m', i', y', all, fs) = all_popped (n - y.count) m i y pos then (omega (arith, low)) in
      let both = Steps-append capacity n es fs in
      (_, both, ends-Finished (Steps-append capacity n before both) all)
