-- ===== src/Examples/WaitFree/Loops.antt =====
-- What each thread of `example_wait_free_demo` can do alone.
use native.Mathlib.Decide.{ℕ_discrete}
use cpp_systems_playground.Prelude.{
  ℕ, zero, suc, ◌+◌, ◌<◌, ◌≤◌, ◌≡◌, ◌≢◌, sym, ap, ◌∙◌, length, length-append, arith,
}
use cpp_systems_playground.Prelude.Modular.{mod_inj}
use cpp_systems_playground.Spsc.{next_index}
use cpp_systems_playground.Spsc.Concurrent.{Producer, Consumer, Shared, Produce, Consume, Reach}
use cpp_systems_playground.Spsc.Fifo.{Reach-Inv, Reach-fifo, Reach-move_out}
use cpp_systems_playground.Examples.WaitFree.{State, Push, Pop, Step, Steps, start}
use cpp_systems_playground.Examples.WaitFree.Safety.{length-numbers, reached}

abbrev pub at_point : Shared ℕ → Producer ℕ → Consumer ℕ → ℕ → ℕ → ℕ → State
at_point m p c i a b = record {
  shared = m;
  producer = p;
  consumer = c;
  i = i;
  total_pushed = a;
  total_popped = b;
}

-- The loop variable when the call that runs has ended.
abbrev pub after_call : Producer ℕ → ℕ → ℕ
after_call (Producer.idle) i = i
after_call (Producer.has_head v h) i = i + 1
after_call (Producer.has_tail v h t) i = i + 1
after_call (Producer.constructed v h) i = i + 1

module _ (capacity count : ℕ) where
  pub Steps-append :
      {s s' s'' : State}
      → Steps capacity count s s'
      → Steps capacity count s' s''
      → Steps capacity count s s''
  Steps-append (Steps.done) fs = fs
  Steps-append (Steps.step e es) fs = Steps.step e (Steps-append es fs)

  -- A call of `push` that has read both indices ends.
  pub push_decides :
      (m : Shared ℕ) (v h t : ℕ) (c : Consumer ℕ) (i a b : ℕ)
      → (m' : Shared ℕ) × (a' : ℕ) × Steps capacity count
          (at_point m (Producer.has_tail v h t) c i a b)
          (at_point m' Producer.idle c (i + 1) a' b)
  push_decides m v h t c i a b = elim (ℕ_discrete (next_index capacity h) t) [
    | yes meet ↦ (_, _, Steps.step (Step.produce (Push.refused (Produce.refuse meet))) Steps.done)
    | no apart ↦ (
      _,
      _,
      Steps.step (Step.produce (Push.write (Produce.construct apart)))
          (Steps.step (Step.produce (Push.pushed Produce.publish)) Steps.done),
    )
  ]

  -- The producer alone ends its call of `push`.
  pub push_ends :
      (m : Shared ℕ) (p : Producer ℕ) (c : Consumer ℕ) (i a b : ℕ)
      → (m' : Shared ℕ) × (a' : ℕ) × Steps capacity count
          (at_point m p c i a b)
          (at_point m' Producer.idle c (after_call p i) a' b)
  push_ends m (Producer.idle) c i a b = (m, a, Steps.done)
  push_ends m (Producer.constructed v h) c i a b =
      (_, _, Steps.step (Step.produce (Push.pushed Produce.publish)) Steps.done)
  push_ends m (Producer.has_tail v h t) c i a b = push_decides m v h t c i a b
  push_ends m (Producer.has_head v h) c i a b =
      let (m', a', es) = push_decides m v h m.tail c i a b in
      (m', a', Steps.step (Step.produce (Push.read Produce.load_tail)) es)

  -- The producer alone runs its loop to the end.
  pub all_pushed :
      (n : ℕ) (m : Shared ℕ) (c : Consumer ℕ) (i a b : ℕ)
      → i + n ≡ count
      → (m' : Shared ℕ) × (a' i' : ℕ) × (i' ≡ count)
        × Steps capacity count
            (at_point m Producer.idle c i a b)
            (at_point m' Producer.idle c i' a' b)
  all_pushed zero m c i a b e = (m, a, i, omega (arith, e), Steps.done)
  all_pushed (suc n) m c i a b e =
      let (m', a', es) = push_ends m (Producer.has_head i m.head) c i a b in
      let (m'', a'', i'', e'', fs) = all_pushed n m' c (i + 1) a' b (omega (arith, e)) in
      (
        m'',
        a'',
        i'',
        e'',
        Steps.step (Step.produce (Push.begin (omega (arith, e)) (Produce.load_head i)))
            (Steps-append es fs),
      )

  -- A call of `pop` that has found the indices apart ends with a number.
  pub pop_takes :
      {m : Shared ℕ} {p : Producer ℕ} {t h : ℕ} (i a b : ℕ)
      → Reach capacity m p (Consumer.has_head t h)
      → t ≢ h
      → (m' : Shared ℕ) × Steps capacity count
          (at_point m p (Consumer.has_head t h) i a b)
          (at_point m' p Consumer.idle i a (b + 1))
  pop_takes i a b r apart =
      let (x, found) = Reach-move_out capacity r apart in
      (
        _,
        Steps.step (Step.consume (Pop.take (Consume.move_out apart found)))
            (Steps.step (Step.consume (Pop.popped Consume.release)) Steps.done),
      )

  -- A call of `pop` that has read both indices ends.
  pub pop_decides :
      {m : Shared ℕ} {p : Producer ℕ} {t h : ℕ} (i a b : ℕ)
      → Reach capacity m p (Consumer.has_head t h)
      → (m' : Shared ℕ) × (b' : ℕ) × Steps capacity count
          (at_point m p (Consumer.has_head t h) i a b)
          (at_point m' p Consumer.idle i a b')
  pop_decides {t = t} {h = h} i a b r = elim (ℕ_discrete t h) [
    | yes meet ↦ (_, _, Steps.step (Step.consume (Pop.missed (Consume.refuse meet))) Steps.done)
    | no apart ↦ let (m', es) = pop_takes i a b r apart in (m', b + 1, es)
  ]

  -- The consumer alone ends its call of `pop`.
  pub pop_ends :
      (m : Shared ℕ) (p : Producer ℕ) (c : Consumer ℕ) (i a b : ℕ)
      → Reach capacity m p c
      → (m' : Shared ℕ) × (b' : ℕ) × Steps capacity count
          (at_point m p c i a b)
          (at_point m' p Consumer.idle i a b')
  pop_ends m p (Consumer.idle) i a b r = (m, b, Steps.done)
  pop_ends m p (Consumer.moved x t) i a b r =
      (_, _, Steps.step (Step.consume (Pop.popped Consume.release)) Steps.done)
  pop_ends m p (Consumer.has_head t h) i a b r = pop_decides i a b r
  pop_ends m p (Consumer.has_tail t) i a b r =
      let (m', b', es) = pop_decides i a b (Reach.consume r Consume.load_head) in
      (m', b', Steps.step (Step.consume (Pop.read Consume.load_head)) es)

  -- Between calls, and with numbers still to come, the indices differ.
  pub indices_apart :
      {m : Shared ℕ}
      → Reach capacity m Producer.idle Consumer.idle
      → length m.received < length m.sent
      → m.tail ≢ m.head
  indices_apart {m} r few e =
      let k = Reach-Inv capacity r in
      let (rest, split, bound) = Reach-fifo capacity r in
      let close : length m.sent < length m.received + (capacity + 1) =
        omega (arith, bound, ap length split, length-append m.received rest) in
      let same =
        mod_inj (capacity + 1) (length m.received) (length m.sent) (omega (arith, few)) close
          (sym k.tail_at ∙ e ∙ k.head_at) in
      absurd (omega (arith, few, same))

  -- With the producer done, each further call of `pop` hands out a number.
  pub all_popped :
      (n : ℕ) (m : Shared ℕ) (i a b : ℕ)
      → count ≤ capacity
      → Steps capacity count start (at_point m Producer.idle Consumer.idle i a b)
      → i ≡ count
      → b + n ≡ count
      → (m' : Shared ℕ) × (b' : ℕ) × (b' ≡ count)
        × Steps capacity count
            (at_point m Producer.idle Consumer.idle i a b)
            (at_point m' Producer.idle Consumer.idle i a b')
  all_popped zero m i a b fits before here e = (m, b, omega (arith, e), Steps.done)
  all_popped (suc n) m i a b fits before here e =
      let k = reached capacity count fits before in
      let few : length m.received < length m.sent =
        omega (arith, here, e, k.popped, ap length k.sent, length-numbers i) in
      let apart = indices_apart k.reach few in
      let ready : Reach capacity m Producer.idle (Consumer.has_head m.tail m.head) =
        Reach.consume (Reach.consume k.reach Consume.load_tail) Consume.load_head in
      let (m', es) = pop_takes i a b ready apart in
      let call : Steps capacity count (at_point m Producer.idle Consumer.idle i a b)
          (at_point m' Producer.idle Consumer.idle i a (b + 1)) =
        Steps.step (Step.consume (Pop.begin (omega (arith, e)) Consume.load_tail))
          (Steps.step (Step.consume (Pop.read Consume.load_head)) es) in
      let (m'', b'', e'', fs) =
        all_popped n m' i a (b + 1) fits (Steps-append before call) here (omega (arith, e)) in
      (m'', b'', e'', Steps-append call fs)
