-- ===== src/Spsc/Concurrent.antt =====
-- `SPSCQueue` under one producer and one consumer thread: each access to `head_`, `tail_` or a
-- slot is a step, and the steps of the two threads interleave in any order. The acquire loads
-- and release stores of the code are taken to order these accesses as written.
use cpp_systems_playground.Prelude.{ℕ, ◌≡◌, ◌≢◌, none, some, List, [], ◌∷◌, ◌++◌, update}
use cpp_systems_playground.Spsc.{Queue, next_index, new}

-- Where the producer stands in `emplace_impl`, with its locals.
pub data Producer {ℓ} (A : Type ℓ) : Type ℓ where
  idle : Producer A
  has_head : A → ℕ → Producer A
  has_tail : A → ℕ → ℕ → Producer A
  constructed : A → ℕ → Producer A

-- Where the consumer stands in `pop`, with its locals.
pub data Consumer {ℓ} (A : Type ℓ) : Type ℓ where
  idle : Consumer A
  has_tail : ℕ → Consumer A
  has_head : ℕ → ℕ → Consumer A
  moved : A → ℕ → Consumer A

-- The queue, with the values that `push` has accepted and `pop` has handed out so far.
pub record Shared {ℓ} (A : Type ℓ) : Type ℓ where
  pub queue : Queue A
  pub open queue use *
  pub sent : List A
  pub received : List A

module _ {ℓ} {A : Type ℓ} (capacity : ℕ) where
  pub data Produce : Shared A → Producer A → Shared A → Producer A → Type ℓ where
    load_head : {m : Shared A} (v : A) → Produce m Producer.idle m (Producer.has_head v m.head)
    load_tail :
        {m : Shared A} {v : A} {h : ℕ}
        → Produce m (Producer.has_head v h) m (Producer.has_tail v h m.tail)
    refuse :
        {m : Shared A} {v : A} {h t : ℕ}
        → next_index capacity h ≡ t
        → Produce m (Producer.has_tail v h t) m Producer.idle
    construct :
        {m : Shared A} {v : A} {h t : ℕ}
        → next_index capacity h ≢ t
        → Produce m
            (Producer.has_tail v h t)
            (record m { queue = record (m.queue) { buffer = update m.buffer h (some v) } })
            (Producer.constructed v (next_index capacity h))
    publish :
        {m : Shared A} {v : A} {h : ℕ}
        → Produce m
            (Producer.constructed v h)
            (record m { queue = record (m.queue) { head = h }; sent = m.sent ++ v ∷ [] })
            Producer.idle

  pub data Consume : Shared A → Consumer A → Shared A → Consumer A → Type ℓ where
    load_tail : {m : Shared A} → Consume m Consumer.idle m (Consumer.has_tail m.tail)
    load_head :
        {m : Shared A} {t : ℕ} → Consume m (Consumer.has_tail t) m (Consumer.has_head t m.head)
    refuse : {m : Shared A} {t h : ℕ} → t ≡ h → Consume m (Consumer.has_head t h) m Consumer.idle
    move_out :
        {m : Shared A} {t h : ℕ} {x : A}
        → t ≢ h
        → m.buffer t ≡ some x
        → Consume m
            (Consumer.has_head t h)
            (record m { queue = record (m.queue) { buffer = update m.buffer t none } })
            (Consumer.moved x (next_index capacity t))
    release :
        {m : Shared A} {x : A} {t : ℕ}
        → Consume m
            (Consumer.moved x t)
            (record m { queue = record (m.queue) { tail = t }; received = m.received ++ x ∷ [] })
            Consumer.idle

  -- What the two threads reach together from an empty queue.
  pub data Reach : Shared A → Producer A → Consumer A → Type ℓ where
    start : Reach (record { queue = new; sent = []; received = [] }) Producer.idle Consumer.idle
    produce :
        {m m' : Shared A} {p p' : Producer A} {c : Consumer A}
        → Reach m p c
        → Produce m p m' p'
        → Reach m' p' c
    consume :
        {m m' : Shared A} {p : Producer A} {c c' : Consumer A}
        → Reach m p c
        → Consume m c m' c'
        → Reach m' p c'
