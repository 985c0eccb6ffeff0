-- ===== src/Examples/WaitFree/Progress.antt =====
-- The two threads of `example_wait_free_demo` can go on to their end from wherever they are.
use mathlib.Core.List.{append-nil}
use cpp_systems_playground.Prelude.{
  ℕ, ◌-◌, ◌≤◌, ◌≡◌, refl, sym, ap, ◌∙◌, List, [], ◌∷◌, ◌++◌, length, length-append, arith,
}
use cpp_systems_playground.Spsc.Concurrent.{Producer, Consumer, Shared}
use cpp_systems_playground.Spsc.Fifo.{Reach-fifo}
use cpp_systems_playground.Examples.WaitFree.{State, Steps, start}
use cpp_systems_playground.Examples.WaitFree.Safety.{numbers, length-numbers, reached, Steps-Inv}
use cpp_systems_playground.Examples.WaitFree.Loops.{
  at_point, after_call, Steps-append, push_ends, all_pushed, pop_ends, all_popped,
}

module _ (capacity count : ℕ) where
  -- A first part with all the numbers is all of them.
  pub whole : {xs ys : List ℕ} (rest : List ℕ) → ys ≡ xs ++ rest → length xs ≡ length ys → xs ≡ ys
  whole {xs} [] e same = sym (append-nil xs) ∙ sym e
  whole {xs} (x ∷ rest) e same =
      absurd (omega (arith, same, ap length e, length-append xs (x ∷ rest)))

  -- Both threads have left their loops.
  pub record Finished (s : State) : Type 0 where
    pub producer_idle : s.producer ≡ Producer.idle
    pub consumer_idle : s.consumer ≡ Consumer.idle
    pub loop_done : s.i ≡ count
    pub pushed_all : s.total_pushed ≡ count
    pub popped_all : s.total_popped ≡ count
    pub received_all : s.shared.received ≡ numbers count

  producer_done :
      {s : State}
      → count ≤ capacity
      → Steps capacity count start s
      → (m : Shared ℕ) × (a i : ℕ) × (i ≡ count)
        × Steps capacity count s (at_point m Producer.idle s.consumer i a s.total_popped)
  producer_done {s} fits before =
      let (m, a, es) =
        push_ends capacity count s.shared s.producer s.consumer s.i s.total_pushed s.total_popped in
      let i = after_call s.producer s.i in
      let k = Steps-Inv capacity count fits es (reached capacity count fits before) in
      let low : i ≤ count = k.carries in
      let (m', a', i', e, fs) =
        all_pushed capacity count (count - i) m s.consumer i a s.total_popped
          (omega (arith, low)) in
      (m', a', i', e, Steps-append capacity count es fs)

  popped_few :
      {m : Shared ℕ} {c : Consumer ℕ} {i a b : ℕ}
      → count ≤ capacity
      → Steps capacity count start (at_point m Producer.idle c i a b)
      → (rest : List ℕ) × (m.sent ≡ m.received ++ rest) × (b ≤ i)
  popped_few {m} {i = i} fits before =
      let k = reached capacity count fits before in
      let (rest, split, few) = Reach-fifo capacity k.reach in
      (
        rest,
        split,
        omega (
          arith,
          k.popped,
          ap length split,
          length-append m.received rest,
          ap length k.sent,
          length-numbers i,
        ),
      )

  consumer_done :
      {m : Shared ℕ} {c : Consumer ℕ} {i a b : ℕ}
      → count ≤ capacity
      → Steps capacity count start (at_point m Producer.idle c i a b)
      → i ≡ count
      → (m' : Shared ℕ) × (b' : ℕ) × (b' ≡ count)
        × Steps capacity count
            (at_point m Producer.idle c i a b)
            (at_point m' Producer.idle Consumer.idle i a b')
  consumer_done {m} {c} {i} {a} {b} fits before here =
      let k = reached capacity count fits before in
      let (m', b', es) = pop_ends capacity count m Producer.idle c i a b k.reach in
      let then = Steps-append capacity count before es in
      let (rest, split, few) = popped_few fits then in
      let (m'', b'', e, fs) =
        all_popped capacity count (count - b') m' i a b' fits then here
          (omega (arith, few, here)) in
      (m'', b'', e, Steps-append capacity count es fs)

  ends-Finished :
      {m : Shared ℕ} {i a b : ℕ}
      → count ≤ capacity
      → Steps capacity count start (at_point m Producer.idle Consumer.idle i a b)
      → i ≡ count
      → b ≡ count
      → Finished (at_point m Producer.idle Consumer.idle i a b)
  ends-Finished {m} {i} fits before here e =
      let k = reached capacity count fits before in
      let (rest, split, few) = popped_few fits before in
      let all_sent : m.sent ≡ numbers count = k.sent ∙ ap numbers here in
      let total : length m.received ≡ length m.sent =
        omega (arith, k.popped, e, ap length all_sent, length-numbers count) in
      record {
        producer_idle = refl;
        consumer_idle = refl;
        loop_done = here;
        pushed_all = k.pushed ∙ here;
        popped_all = e;
        received_all = whole rest split total ∙ all_sent;
      }

  -- Where the queue has room for all numbers, the two threads can go on to their end from wherever an
  -- interleaving has brought them, and there `total_pushed` and `total_popped` are both the bound and
  -- the consumer has popped exactly the numbers below it, in order.
  pub Steps-Finished :
      {s : State}
      → count ≤ capacity
      → Steps capacity count start s
      → (s' : State) × Steps capacity count s s' × Finished s'
  Steps-Finished {s} fits before =
      let (m, a, i, here, es) = producer_done fits before in
      let (m', b, e, fs) = consumer_done fits (Steps-append capacity count before es) here in
      let both = Steps-append capacity count es fs in
      (_, both, ends-Finished fits (Steps-append capacity count before both) here e)
