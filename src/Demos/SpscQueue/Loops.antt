-- ===== src/Demos/SpscQueue/Loops.antt =====
-- What each thread of `spsc_queue_demo.cpp` can do alone.
use native.Mathlib.Decide.{ℕ_discrete}
use cpp_systems_playground.Prelude.{ℕ, ◌+◌, ◌%◌, ◌<◌, ◌≡◌, ◌≢◌, sym, ap, ◌∙◌, length, arith}
use cpp_systems_playground.Prelude.Modular.{mod_inj, mod-suc-mod}
use cpp_systems_playground.Spsc.{next_index}
use cpp_systems_playground.Spsc.Concurrent.{Producer, Consumer, Shared, Produce, Consume, Reach}
use cpp_systems_playground.Spsc.Fifo.{Reach-Inv, Reach-move_out}
use cpp_systems_playground.Examples.WaitFree.Loops.{indices_apart}
use cpp_systems_playground.Demos.SpscQueue.{State, Tally, check, Push, Pop, Step, Steps, start}
use cpp_systems_playground.Demos.SpscQueue.Order
use cpp_systems_playground.Demos.SpscQueue.Order.{Steps-Inv, start-Inv}

abbrev pub at_point : Shared ℕ → Producer ℕ → Consumer ℕ → ℕ → Tally → State
at_point m p c i y = record { shared = m; producer = p; consumer = c; i = i; tally = y }

module _ (capacity n : ℕ) where
  pub Steps-append :
      {s s' s'' : State} → Steps capacity n s s' → Steps capacity n s' s'' → Steps capacity n s s''
  Steps-append (Steps.done) fs = fs
  Steps-append (Steps.step e es) fs = Steps.step e (Steps-append es fs)

  pub reached : {s : State} → Steps capacity n start s → Order.Inv capacity n s
  reached es = Steps-Inv capacity n es (start-Inv capacity n)

  push_decides :
      (m : Shared ℕ) (v h t : ℕ) (c : Consumer ℕ) (i : ℕ) (y : Tally)
      → (m' : Shared ℕ) × (i' : ℕ) × Steps capacity n
          (at_point m (Producer.has_tail v h t) c i y)
          (at_point m' Producer.idle c i' y)
  push_decides m v h t c i y = elim (ℕ_discrete (next_index capacity h) t) [
    | yes meet ↦ (_, _, Steps.step (Step.produce (Push.refused (Produce.refuse meet))) Steps.done)
    | no apart ↦ (
      _,
      _,
      Steps.step (Step.produce (Push.write (Produce.construct apart)))
          (Steps.step (Step.produce (Push.pushed Produce.publish)) Steps.done),
    )
  ]

  -- The producer alone ends its call of `push`.
  pub push_ends :
      (m : Shared ℕ) (p : Producer ℕ) (c : Consumer ℕ) (i : ℕ) (y : Tally)
      → (m' : Shared ℕ) × (i' : ℕ) × Steps capacity n
          (at_point m p c i y)
          (at_point m' Producer.idle c i' y)
  push_ends m (Producer.idle) c i y = (m, i, Steps.done)
  push_ends m (Producer.constructed v h) c i y =
      (_, _, Steps.step (Step.produce (Push.pushed Produce.publish)) Steps.done)
  push_ends m (Producer.has_tail v h t) c i y = push_decides m v h t c i y
  push_ends m (Producer.has_head v h) c i y =
      let (m', i', es) = push_decides m v h m.tail c i y in
      (m', i', Steps.step (Step.produce (Push.read Produce.load_tail)) es)

  -- A call of `pop` that has found the indices apart ends with a value.
  pop_takes :
      {m : Shared ℕ} {p : Producer ℕ} {t h : ℕ} (i : ℕ) (y : Tally)
      → Reach capacity m p (Consumer.has_head t h)
      → t ≢ h
      → (m' : Shared ℕ) × (x : ℕ) × Steps capacity n
          (at_point m p (Consumer.has_head t h) i y)
          (at_point m' p Consumer.idle i (check y x))
  pop_takes i y r apart =
      let (x, found) = Reach-move_out capacity r apart in
      (
        _,
        x,
        Steps.step (Step.consume (Pop.take (Consume.move_out apart found)))
            (Steps.step (Step.consume (Pop.popped Consume.release)) Steps.done),
      )

  pop_decides :
      {m : Shared ℕ} {p : Producer ℕ} {t h : ℕ} (i : ℕ) (y : Tally)
      → Reach capacity m p (Consumer.has_head t h)
      → (m' : Shared ℕ) × (y' : Tally) × Steps capacity n
          (at_point m p (Consumer.has_head t h) i y)
          (at_point m' p Consumer.idle i y')
  pop_decides {t = t} {h = h} i y r = elim (ℕ_discrete t h) [
    | yes meet ↦ (_, y, Steps.step (Step.consume (Pop.missed (Consume.refuse meet))) Steps.done)
    | no apart ↦ let (m', x, es) = pop_takes i y r apart in (m', check y x, es)
  ]

  -- The consumer alone ends its call of `pop`.
  pub pop_ends :
      (m : Shared ℕ) (p : Producer ℕ) (c : Consumer ℕ) (i : ℕ) (y : Tally)
      → Reach capacity m p c
      → (m' : Shared ℕ) × (y' : Tally) × Steps capacity n
          (at_point m p c i y)
          (at_point m' p Consumer.idle i y')
  pop_ends m p (Consumer.idle) i y r = (m, y, Steps.done)
  pop_ends m p (Consumer.moved x t) i y r =
      (_, _, Steps.step (Step.consume (Pop.popped Consume.release)) Steps.done)
  pop_ends m p (Consumer.has_head t h) i y r = pop_decides i y r
  pop_ends m p (Consumer.has_tail t) i y r =
      let (m', y', es) = pop_decides i y (Reach.consume r Consume.load_head) in
      (m', y', Steps.step (Step.consume (Pop.read Consume.load_head)) es)

  -- Between calls, a `pop` on a queue with values hands one out.
  pub pops_one :
      (m : Shared ℕ) (i : ℕ) (y : Tally)
      → Reach capacity m Producer.idle Consumer.idle
      → length m.received < length m.sent
      → y.count < n
      → (m' : Shared ℕ) × (x : ℕ) × Steps capacity n
          (at_point m Producer.idle Consumer.idle i y)
          (at_point m' Producer.idle Consumer.idle i (check y x))
  pops_one m i y r few low =
      let ready : Reach capacity m Producer.idle (Consumer.has_head m.tail m.head) =
        Reach.consume (Reach.consume r Consume.load_tail) Consume.load_head in
      let (m', x, es) = pop_takes i y ready (indices_apart capacity n r few) in
      (
        m',
        x,
        Steps.step (Step.consume (Pop.begin low Consume.load_tail))
            (Steps.step (Step.consume (Pop.read Consume.load_head)) es),
      )

  -- Between calls, a `push` on an empty queue with room for an item is accepted.
  pub pushes_one :
      (m : Shared ℕ) (i : ℕ) (y : Tally)
      → Reach capacity m Producer.idle Consumer.idle
      → length m.received ≡ length m.sent
      → 0 < capacity
      → i < n
      → (m' : Shared ℕ) × Steps capacity n
          (at_point m Producer.idle Consumer.idle i y)
          (at_point m' Producer.idle Consumer.idle (i + 1) y)
  unfolding next_index
  pushes_one m i y r none_left pos low =
      let k = Reach-Inv capacity r in
      let apart : next_index capacity m.head ≢ m.tail = λ meet.
        let turn =
          sym k.tail_at
          ∙ sym meet
          ∙ ap (λ x. (x + 1) % (capacity + 1)) k.head_at
          ∙ mod-suc-mod (capacity + 1) (length m.sent) in
        let same =
          mod_inj (capacity + 1) (length m.received) (length m.sent + 1) (omega (arith, none_left))
            (omega (arith, none_left, pos)) turn in
        absurd (omega (arith, same, none_left)) in
      (
        _,
        Steps.step (Step.produce (Push.begin low (Produce.load_head i))) (
            Steps.step (Step.produce (Push.read Produce.load_tail)) (
              Steps.step (Step.produce (Push.write (Produce.construct apart)))
                (Steps.step (Step.produce (Push.pushed Produce.publish)) Steps.done))),
      )
