-- ===== src/Spsc/Fifo.antt =====
-- Every interleaving of the two threads of `SPSCQueue`: the order of the values, the slots that each
-- thread touches, and when a value is refused.
use native.Mathlib.Decide.{ℕ_discrete}
use mathlib.Core.List.{append_assoc}
use cpp_systems_playground.Prelude.{
  ℕ, ◌+◌, ◌%◌, ◌≤◌, ◌≡◌, ◌≢◌, refl, sym, ap, ◌∙◌, none, some, List, [], ◌++◌, arith, length,
  length-append, get_elem?-ge,
}
use cpp_systems_playground.Prelude.Modular.{mod-suc-mod, mod_inj}
use cpp_systems_playground.Spsc.{buffer_size, next_index, new}
use cpp_systems_playground.Spsc.Slots.{Stores-first}
use cpp_systems_playground.Spsc.Concurrent.{Producer, Consumer, Shared, Reach}
use cpp_systems_playground.Spsc.Invariant.{Inv, pending, taken, sent_count, room, nonempty}
use cpp_systems_playground.Spsc.Moves.{Produce-Inv, Consume-Inv}

module _ {ℓ} {A : Type ℓ} (capacity : ℕ) where
  start-Inv :
      Inv {A = A} capacity
        (record { queue = new; sent = []; received = [] })
        Producer.idle
        Consumer.idle
  unfolding new
  start-Inv = record {
    rest = [];
    fifo = refl;
    head_at = omega arith;
    tail_at = omega arith;
    bounded = omega arith;
    slots = λ i h. refl;
    producer = tt;
    consumer = tt;
  }

  pub Reach-Inv :
      {m : Shared A} {p : Producer A} {c : Consumer A} → Reach capacity m p c → Inv capacity m p c
  Reach-Inv (Reach.start) = start-Inv
  Reach-Inv (Reach.produce r s) = Produce-Inv capacity s (Reach-Inv r)
  Reach-Inv (Reach.consume r s) = Consume-Inv capacity s (Reach-Inv r)

  -- In every interleaving the values handed out are the first values accepted, in that order,
  -- each once; the others, at most `capacity` of them, are still to come.
  pub Reach-fifo :
      {m : Shared A} {p : Producer A} {c : Consumer A}
      → Reach capacity m p c
      → (rest : List A) × (m.sent ≡ m.received ++ rest) × (length rest ≤ capacity)
  Reach-fifo {m} {p} {c} r =
      let i = Reach-Inv r in
      (
        taken c ++ i.rest,
        i.fifo ∙ append_assoc m.received (taken c) i.rest,
        omega (arith, i.bounded, length-append (taken c) i.rest),
      )

  -- In every interleaving, a consumer that has found the indices apart finds an object in its slot.
  pub Reach-move_out :
      {m : Shared A} {p : Producer A} {t h : ℕ}
      → Reach capacity m p (Consumer.has_head t h)
      → t ≢ h
      → (x : A) × (m.buffer t ≡ some x)
  Reach-move_out {m} {p} {t} r ne =
      let i = Reach-Inv r in
      let (y, ys, found) = nonempty capacity ne i in
      let start : length m.received + 0 ≡ length m.received = omega arith in
      (
        y,
        ap m.buffer (i.consumer.0 ∙ i.tail_at)
            ∙ Stores-first (capacity + 1) m.buffer (length m.received) y (ys ++ pending p)
                (omega arith) (rw (start, found) at (i.slots)),
      )

  -- In every interleaving, a producer that has found room constructs into a slot without an object.
  Reach-construct :
      {m : Shared A} {v : A} {h t : ℕ} {c : Consumer A}
      → Reach capacity m (Producer.has_tail v h t) c
      → next_index capacity h ≢ t
      → m.buffer h ≡ none
  Reach-construct {m} {h = h} {c = c} r ne =
      let i = Reach-Inv r in
      let free = room capacity ne i in
      let base = length m.received + length (taken c) in
      ap m.buffer
        (i.producer.0 ∙ i.head_at ∙ ap (λ k. k % buffer_size capacity) (sent_count capacity i))
      ∙ i.slots (length i.rest) (omega arith)
      ∙ get_elem?-ge (i.rest ++ []) (length i.rest) (omega (arith, length-append i.rest []))

  -- In every interleaving, a producer that is about to refuse a value because its indices meet has read
  -- the tail when `capacity` of the values accepted by now had not been released.
  pub Reach-refuse :
      {m : Shared A} {v : A} {h t : ℕ} {c : Consumer A}
      → Reach capacity m (Producer.has_tail v h t) c
      → next_index capacity h ≡ t
      → (seen : ℕ) × (seen ≤ length m.received) × (length m.sent ≡ seen + capacity)
  unfolding next_index
  Reach-refuse {m} {v} {h} {t} {c} r meet =
      let i = Reach-Inv r in
      let (here, (seen, t_at, old, low)) = i.producer in
      let turn : (length m.sent + 1) % (capacity + 1) ≡ seen % (capacity + 1) =
        sym (mod-suc-mod (capacity + 1) (length m.sent))
        ∙ ap (λ x. (x + 1) % (capacity + 1)) (sym (here ∙ i.head_at))
        ∙ meet
        ∙ t_at in
      let few : length m.received ≤ length m.sent = omega (arith, sent_count capacity i) in
      elim (ℕ_discrete (length m.sent) (seen + capacity)) [
        | yes full ↦ (seen, old, full)
        | no other ↦
            let same =
              mod_inj (capacity + 1) seen (length m.sent + 1) (omega (arith, old))
                (omega (arith, low)) (sym turn) in
            absurd (omega (arith, same, old, few))
      ]
