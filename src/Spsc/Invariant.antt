-- ===== src/Spsc/Invariant.antt =====
-- The invariant of `SPSCQueue` under one producer and one consumer thread.
use native.Mathlib.Decide.{ℕ_discrete}
use cpp_systems_playground.Prelude.{
  ℕ, ◌+◌, ◌%◌, ◌≤◌, ◌<◌, ◌≡◌, ◌≢◌, refl, sym, ap, ◌∙◌, List, [], ◌∷◌, ◌++◌, arith, length,
  length-append, List-cases, inl, inr,
}
use cpp_systems_playground.Prelude.Modular.{mod-suc-mod}
use cpp_systems_playground.Spsc.{buffer_size, next_index}
use cpp_systems_playground.Spsc.Slots.{Stores}
use cpp_systems_playground.Spsc.Refine.{full_lap}
use cpp_systems_playground.Spsc.Concurrent.{Producer, Consumer, Shared}

module _ {ℓ} {A : Type ℓ} where
  -- Constructed by the producer and not yet published.
  abbrev pub pending : Producer A → List A
  pending (Producer.constructed v h) = v ∷ []
  pending (Producer.idle) = []
  pending (Producer.has_head v h) = []
  pending (Producer.has_tail v h t) = []

  -- Moved out by the consumer and not yet released.
  abbrev pub taken : Consumer A → List A
  taken (Consumer.moved x t) = x ∷ []
  taken (Consumer.idle) = []
  taken (Consumer.has_tail t) = []
  taken (Consumer.has_head t h) = []

module _ {ℓ} {A : Type ℓ} (capacity : ℕ) where
  -- The locals of the producer: its snapshot of the tail may be old, never too new.
  abbrev pub IsProducer : Shared A → Producer A → Type 0
  IsProducer m (Producer.idle) = Unit
  IsProducer m (Producer.has_head v h) = h ≡ m.head
  IsProducer m (Producer.has_tail v h t) =
      (h ≡ m.head)
      × ((seen : ℕ) × (t ≡ seen % buffer_size capacity)
          × (seen ≤ length m.received)
          × (length m.sent ≤ seen + capacity))
  IsProducer m (Producer.constructed v h) = h ≡ (length m.sent + 1) % buffer_size capacity

  abbrev pub IsConsumer : Shared A → Consumer A → Type 0
  IsConsumer m (Consumer.idle) = Unit
  IsConsumer m (Consumer.has_tail t) = t ≡ m.tail
  IsConsumer m (Consumer.has_head t h) =
      (t ≡ m.tail)
      × ((seen : ℕ) × (h ≡ seen % buffer_size capacity)
          × (length m.received ≤ seen)
          × (seen ≤ length m.sent))
  IsConsumer m (Consumer.moved x t) = t ≡ (length m.received + 1) % buffer_size capacity

  -- `rest` is in the buffer, published and not yet taken.
  pub record Inv (m : Shared A) (p : Producer A) (c : Consumer A) : Type ℓ where
    pub rest : List A
    pub fifo : m.sent ≡ (m.received ++ taken c) ++ rest
    pub head_at : m.head ≡ length m.sent % buffer_size capacity
    pub tail_at : m.tail ≡ length m.received % buffer_size capacity
    pub bounded : length (taken c) + (length rest + length (pending p)) ≤ capacity
    pub slots :
        Stores
          (buffer_size capacity)
          m.buffer
          (length m.received + length (taken c))
          (rest ++ pending p)
    pub producer : IsProducer m p
    pub consumer : IsConsumer m c

  pub sent_count :
      {m : Shared A} {p : Producer A} {c : Consumer A} (i : Inv m p c)
      → length m.sent ≡ length m.received + length (taken c) + length i.rest
  sent_count {m} {p} {c} i = omega (
    arith,
    ap length i.fifo,
    length-append (m.received ++ taken c) i.rest,
    length-append m.received (taken c),
  )

  -- The producer constructs only where there is room.
  pub room :
      {m : Shared A} {v : A} {h t : ℕ} {c : Consumer A}
      → next_index capacity h ≢ t
      → (i : Inv m (Producer.has_tail v h t) c) → length (taken c) + length i.rest < capacity
  unfolding next_index
  room {m} {v} {h} {t} {c} ne i =
      let (here, (seen, t_at, old, low)) = i.producer in
      elim (ℕ_discrete (length m.sent) (seen + capacity)) [
        | yes p ↦ absurd (
            ne (
              rw (here, i.head_at, t_at, p)
                (mod-suc-mod (capacity + 1) (seen + capacity)
                  ∙ full_lap capacity seen capacity refl)))
        | no p ↦ omega (arith, sent_count i)
      ]

  -- A snapshot of the head that the consumer holds stays good when the producer publishes.
  pub IsConsumer-publish :
      (m : Shared A) (v : A) (h : ℕ) (c : Consumer A)
      → IsConsumer m c
      → IsConsumer (record m { queue = record (m.queue) { head = h }; sent = m.sent ++ v ∷ [] }) c
  IsConsumer-publish m v h (Consumer.idle) k = tt
  IsConsumer-publish m v h (Consumer.has_tail t) k = k
  IsConsumer-publish m v h (Consumer.has_head t g) (k, (seen, g_at, low, high)) =
      (k, (seen, g_at, low, omega (arith, length-append m.sent (v ∷ []))))
  IsConsumer-publish m v h (Consumer.moved x t) k = k

  -- A snapshot of the tail that the producer holds stays good when the consumer releases.
  pub IsProducer-release :
      (m : Shared A) (x : A) (t : ℕ) (p : Producer A)
      → IsProducer m p
      → IsProducer
          (record m { queue = record (m.queue) { tail = t }; received = m.received ++ x ∷ [] })
          p
  IsProducer-release m x t (Producer.idle) k = tt
  IsProducer-release m x t (Producer.has_head v h) k = k
  IsProducer-release m x t (Producer.has_tail v h g) (k, (seen, g_at, low, high)) =
      (k, (seen, g_at, omega (arith, length-append m.received (x ∷ [])), high))
  IsProducer-release m x t (Producer.constructed v h) k = k

  -- The consumer moves only out of a queue that has an item.
  pub nonempty :
      {m : Shared A} {p : Producer A} {t h : ℕ}
      → t ≢ h
      → (i : Inv m p (Consumer.has_head t h)) → (y : A) × (ys : List A) × (i.rest ≡ y ∷ ys)
  nonempty {m} {p} {t} {h} ne i =
      let (here, (seen, h_at, low, high)) = i.consumer in
      elim (List-cases i.rest) [
        | inr found ↦ found
        | inl e ↦
            let same : length m.received ≡ seen = omega (arith, sent_count i, ap length e) in
            absurd (ne (here ∙ i.tail_at ∙ rw same (sym h_at)))
      ]
