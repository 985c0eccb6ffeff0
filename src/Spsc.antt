-- ===== src/Spsc.antt =====
-- lock_free_queue/include/lock_free_queue/spsc_queue.hpp, one call at a time: the members of
-- `SPSCQueue<T, Capacity>` as functions on a queue that nobody else touches meanwhile.
pub mod Slots
pub mod Refine
pub mod Ops
pub mod Concurrent
pub mod Invariant
pub mod Moves
pub mod Fifo
use cpp_systems_playground.Prelude.{
  ℕ, zero, suc, ◌+◌, ◌-◌, ◌%◌, Bool, true, false, Option, none, some, Outcome, ok, err, Fault,
  ◌>>=◌, leb, ◌==◌, if◌then◌else◌, update,
}

-- `buffer_[i]` is `none` where the storage holds no object.
pub record Queue {ℓ} (A : Type ℓ) : Type ℓ where
  pub head : ℕ
  pub tail : ℕ
  pub buffer : ℕ → Option A

-- `BufferSize`: one slot more than the capacity.
abbrev pub buffer_size : ℕ → ℕ
buffer_size capacity = capacity + 1

unfoldable pub next_index : ℕ → ℕ → ℕ
next_index capacity i = (i + 1) % buffer_size capacity

module _ {ℓ} {A : Type ℓ} where
  unfoldable pub new : Queue A
  new = record { head = 0; tail = 0; buffer = λ i. none }

  -- `std::move(*elem)`: defined only where the slot holds an object.
  unfoldable pub take_object : Option A → Outcome A
  take_object none = err Fault.undefined
  take_object (some x) = ok x

  unfoldable pub empty : Queue A → Bool
  empty q = q.tail == q.head

  module _ (capacity : ℕ) where
    unfoldable pub emplace_impl : Queue A → A → Bool × Queue A
    emplace_impl q value =
        let next_head = next_index capacity q.head in
        if next_head == q.tail
        then (false, q)
        else (true, record q { head = next_head; buffer = update q.buffer q.head (some value) })

    unfoldable pub push : Queue A → A → Bool × Queue A
    unfolding emplace_impl
    push q value = emplace_impl q value

    unfoldable pub emplace : Queue A → A → Bool × Queue A
    unfolding emplace_impl
    emplace q value = emplace_impl q value

    -- The option is what reaches `out`; `none` goes with the result `false`.
    unfoldable pub pop : Queue A → Outcome (Option A × Queue A)
    unfolding take_object
    pop q = if q.tail == q.head then ok (none, q) else do
      x ← take_object (q.buffer q.tail)
      ok (
        some x,
        record q { tail = next_index capacity q.tail; buffer = update q.buffer q.tail none },
      )

    unfoldable pub full : Queue A → Bool
    full q = next_index capacity q.head == q.tail

    unfoldable pub size : Queue A → ℕ
    size q = if leb q.tail q.head then q.head - q.tail else buffer_size capacity - (q.tail - q.head)

    -- `while (pop(tmp)) {}` with fuel for the rounds; `undefined` when it runs out.
    unfoldable pub drain : ℕ → Queue A → Outcome (Queue A)
    drain zero q = err Fault.undefined
    drain (suc fuel) q = do (out, q') ← pop q; elim out [ none ↦ ok q' | some x ↦ drain fuel q' ]

    unfoldable pub clear : Queue A → Outcome (Queue A)
    clear q = drain (buffer_size capacity) q
