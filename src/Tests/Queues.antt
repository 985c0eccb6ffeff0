-- ===== src/Tests/Queues.antt =====
-- `SPSCQueue` with two slots for items.
use cpp_systems_playground.Prelude.{
  ℕ, ◌≡◌, ◌≢◌, ◌<◌, ◌≤◌, ◌⊎◌, inl, inr, true, false, some, List, [], ◌∷◌, ◌++◌, arith, length,
  update,
}
use cpp_systems_playground.Spsc.{Queue, next_index, new, push}
use cpp_systems_playground.Spsc.Refine.{Represents, new-Represents}
use cpp_systems_playground.Spsc.Ops.{push-refines, pop-refines, Pops}
use cpp_systems_playground.Spsc.Concurrent.{Producer, Consumer, Shared, Produce, Reach}
use cpp_systems_playground.Spsc.Fifo.{Reach-fifo}

abbrev no_items : Queue ℕ
no_items = new

abbrev one_item : Queue ℕ
one_item = (push 2 no_items 7).1

one_item-Represents : Represents 2 one_item (7 ∷ [])
one_item-Represents =
    elim (push-refines {A = ℕ} 2 {q = no_items} {xs = []} 7 (new-Represents {A = ℕ} 2)) [
      | inl (h, e, r) ↦ r
      | inr (h, e) ↦ absurd (omega arith)
    ]

push-refines_example :
    ((length {A = ℕ} (7 ∷ []) < 2)
      × ((push 2 one_item 8).0 ≡ true)
      × Represents 2 (push 2 one_item 8).1 (7 ∷ 8 ∷ []))
    ⊎ ((length {A = ℕ} (7 ∷ []) ≡ 2) × (push 2 one_item 8 ≡ (false, one_item)))
push-refines_example = push-refines 2 8 one_item-Represents

pop-refines_example : Pops 2 one_item (7 ∷ [])
pop-refines_example = pop-refines 2 one_item-Represents

abbrev nothing : Shared ℕ
nothing = record { queue = new; sent = []; received = [] }

abbrev published : Shared ℕ
published = record {
  queue = record (nothing.queue) {
    head = next_index 2 nothing.head;
    buffer = update nothing.buffer nothing.head (some 7);
  };
  sent = 7 ∷ [];
  received = [];
}

apart : next_index 2 nothing.head ≢ nothing.tail
unfolding next_index new
apart = λ e. absurd (omega arith)

has_room : Reach 2 nothing (Producer.has_tail 7 nothing.head nothing.tail) Consumer.idle
has_room = Reach.produce (Reach.produce Reach.start (Produce.load_head 7)) Produce.load_tail

one_sent : Reach 2 published Producer.idle Consumer.idle
one_sent = Reach.produce (Reach.produce has_room (Produce.construct apart)) Produce.publish

Reach-fifo_example :
    (rest : List ℕ) × (published.sent ≡ published.received ++ rest) × (length rest ≤ 2)
Reach-fifo_example = Reach-fifo 2 one_sent
