-- ===== src/Spsc/Moves.antt =====
-- Each step of the two threads of `SPSCQueue` keeps the invariant.
use mathlib.Core.List.{append_assoc, append-nil}
use mathlib.Core.Option.{some-injective}
use cpp_systems_playground.Prelude.{
  ℕ, ◌+◌, ◌%◌, ◌<◌, ◌≡◌, refl, sym, ap, ◌∙◌, some, [], ◌∷◌, ◌++◌, arith, length, length-append,
}
use cpp_systems_playground.Prelude.Modular.{mod-suc-mod}
use cpp_systems_playground.Spsc.{buffer_size, next_index}
use cpp_systems_playground.Spsc.Slots.{Stores, construct-Stores, destroy-Stores, Stores-first}
use cpp_systems_playground.Spsc.Concurrent.{Producer, Consumer, Shared, Produce, Consume}
use cpp_systems_playground.Spsc.Invariant.{
  Inv, pending, taken, sent_count, room, nonempty, IsConsumer-publish, IsProducer-release,
}

module _ {ℓ} {A : Type ℓ} (capacity : ℕ) where
  pub Produce-Inv :
      {m m' : Shared A} {p p' : Producer A} {c : Consumer A}
      → Produce capacity m p m' p'
      → Inv capacity m p c
      → Inv capacity m' p' c
  unfolding next_index
  Produce-Inv (Produce.load_head v) i = record {
    rest = i.rest;
    fifo = i.fifo;
    head_at = i.head_at;
    tail_at = i.tail_at;
    bounded = i.bounded;
    slots = i.slots;
    producer = refl;
    consumer = i.consumer;
  }
  Produce-Inv {m} (Produce.load_tail) i = record {
    rest = i.rest;
    fifo = i.fifo;
    head_at = i.head_at;
    tail_at = i.tail_at;
    bounded = i.bounded;
    slots = i.slots;
    producer = (
      i.producer,
      (length m.received, i.tail_at, omega arith, omega (arith, sent_count capacity i)),
    );
    consumer = i.consumer;
  }
  Produce-Inv (Produce.refuse e) i = record {
    rest = i.rest;
    fifo = i.fifo;
    head_at = i.head_at;
    tail_at = i.tail_at;
    bounded = i.bounded;
    slots = i.slots;
    producer = tt;
    consumer = i.consumer;
  }
  Produce-Inv {m} {c = c} (Produce.construct {v = v} {h = h} ne) i =
      let free = room capacity ne i in
      let base = length m.received + length (taken c) in
      let at_end : h ≡ (base + length i.rest) % buffer_size capacity =
        i.producer.0 ∙ i.head_at ∙ ap (λ k. k % buffer_size capacity) (sent_count capacity i) in
      record {
        rest = i.rest;
        fifo = i.fifo;
        head_at = i.head_at;
        tail_at = i.tail_at;
        bounded = omega arith;
        slots = rw at_end (
            construct-Stores (capacity + 1) m.buffer base i.rest v (omega arith)
              (rw (append-nil i.rest) at (i.slots)));
        producer = rw (i.producer.0, i.head_at) (mod-suc-mod (capacity + 1) (length m.sent));
        consumer = i.consumer;
      }
  Produce-Inv {m} {c = c} (Produce.publish {v = v} {h = h}) i = record {
    rest = i.rest ++ v ∷ [];
    fifo = rw i.fifo (append_assoc (m.received ++ taken c) i.rest (v ∷ []));
    head_at = i.producer ∙ ap (λ k. k % buffer_size capacity) (sym (length-append m.sent (v ∷ [])));
    tail_at = i.tail_at;
    bounded = omega (arith, i.bounded, length-append i.rest (v ∷ []));
    slots = rw (append-nil (i.rest ++ v ∷ [])) i.slots;
    producer = tt;
    consumer = IsConsumer-publish capacity m v h c i.consumer;
  }

  pub Consume-Inv :
      {m m' : Shared A} {p : Producer A} {c c' : Consumer A}
      → Consume capacity m c m' c'
      → Inv capacity m p c
      → Inv capacity m' p c'
  unfolding next_index
  Consume-Inv (Consume.load_tail) i = record {
    rest = i.rest;
    fifo = i.fifo;
    head_at = i.head_at;
    tail_at = i.tail_at;
    bounded = i.bounded;
    slots = i.slots;
    producer = i.producer;
    consumer = refl;
  }
  Consume-Inv {m} (Consume.load_head) i = record {
    rest = i.rest;
    fifo = i.fifo;
    head_at = i.head_at;
    tail_at = i.tail_at;
    bounded = i.bounded;
    slots = i.slots;
    producer = i.producer;
    consumer =
        (i.consumer, (length m.sent, i.head_at, omega (arith, sent_count capacity i), omega arith));
  }
  Consume-Inv (Consume.refuse e) i = record {
    rest = i.rest;
    fifo = i.fifo;
    head_at = i.head_at;
    tail_at = i.tail_at;
    bounded = i.bounded;
    slots = i.slots;
    producer = i.producer;
    consumer = tt;
  }
  Consume-Inv {m} {p = p} (Consume.move_out {t = t} {x = x} ne e) i =
      let (y, ys, found) = nonempty capacity ne i in
      let start : length m.received + 0 ≡ length m.received = omega arith in
      let here : t ≡ length m.received % buffer_size capacity = i.consumer.0 ∙ i.tail_at in
      let stored : Stores (buffer_size capacity) m.buffer (length m.received)
          (y ∷ (ys ++ pending p)) =
        rw (start, found) at (i.slots) in
      let first : m.buffer t ≡ some y =
        ap m.buffer here
        ∙ Stores-first (capacity + 1) m.buffer (length m.received) y _ (omega arith) stored in
      let same : x ≡ y = some-injective x y (sym e ∙ first) in
      let few : length (ys ++ pending p) < capacity + 1 =
        omega (arith, i.bounded, ap length found, length-append ys (pending p)) in
      record {
        rest = ys;
        fifo =
            i.fifo
            ∙ rw (append-nil m.received, found, same) (sym (append_assoc m.received (y ∷ []) ys));
        head_at = i.head_at;
        tail_at = i.tail_at;
        bounded = omega (arith, i.bounded, ap length found);
        slots = rw here (destroy-Stores (capacity + 1) m.buffer (length m.received) y _ few stored);
        producer = i.producer;
        consumer = rw here (mod-suc-mod (capacity + 1) (length m.received));
      }
  Consume-Inv {m} {p = p} (Consume.release {x = x} {t = t}) i = record {
    rest = i.rest;
    fifo = i.fifo ∙ ap (λ l. l ++ i.rest) (sym (append-nil (m.received ++ x ∷ [])));
    head_at = i.head_at;
    tail_at =
        i.consumer ∙ ap (λ k. k % buffer_size capacity) (sym (length-append m.received (x ∷ [])));
    bounded = omega (arith, i.bounded);
    slots =
        let sum : length (m.received ++ x ∷ []) + 0 ≡ length m.received + 1 =
          omega (arith, length-append m.received (x ∷ [])) in
        rw sum i.slots;
    producer = IsProducer-release capacity m x t p i.producer;
    consumer = tt;
  }
