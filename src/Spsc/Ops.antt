-- ===== src/Spsc/Ops.antt =====
-- Each member of `SPSCQueue` against the first-in first-out list that the buffer represents.
use native.Mathlib.Decide.{ℕ_discrete, dec_lt}
use native.Mathlib.Nat.{mod-lt, mod-add-mod, mod-eq_of_lt, mod-eq-sub-mod}
use cpp_systems_playground.Prelude.{
  ℕ, zero, suc, ◌+◌, ◌-◌, ◌%◌, ◌<◌, ◌≡◌, refl, sym, ap, ◌∙◌, ◌↔◌, ◌⊎◌, true, false, none, some,
  List, [], ◌∷◌, ◌++◌, arith, length, ok, update, ==_iff, inl, inr, ==_ne, leb, if◌then◌else◌,
}
use cpp_systems_playground.Prelude.Modular.{mod-suc-mod}
use cpp_systems_playground.Spsc.{
  Queue, buffer_size, next_index, take_object, push, pop, empty, full, size, drain, clear,
}
use cpp_systems_playground.Spsc.Slots.{destroy-Stores, Stores-first}
use cpp_systems_playground.Spsc.Refine.{
  Represents, head-eq-tail, tail-eq-head, next-eq-tail, full_iff, pushed,
}

module _ {ℓ} {A : Type ℓ} (capacity : ℕ) where
  -- On a queue that represents a list, `push` returns true and appends the value below the capacity; at the capacity it returns
  -- false and changes nothing.
  pub push-refines :
      {q : Queue A} {xs : List A} (v : A)
      → Represents capacity q xs
      → ((length xs < capacity)
          × ((push capacity q v).0 ≡ true)
          × Represents capacity (push capacity q v).1 (xs ++ v ∷ []))
        ⊎ ((length xs ≡ capacity) × (push capacity q v ≡ (false, q)))
  unfolding push
  push-refines {q} {xs} v r = elim (ℕ_discrete (length xs) capacity) [
    | yes p ↦
        let hit = (==_iff (next_index capacity q.head) q.tail).1 ((next-eq-tail capacity r).1 p) in
        inr (p, rw hit)
    | no p ↦
        let miss =
          ==_ne (next_index capacity q.head) q.tail (λ e. p ((next-eq-tail capacity r).0 e)) in
        let room : length xs < capacity = omega (arith, r.bounded) in
        inl (room, rw miss, rw miss (pushed capacity v r room))
  ]

  popped :
      {q : Queue A} {x : A} {xs : List A} (r : Represents capacity q (x ∷ xs))
      → Represents capacity
          (record q { tail = next_index capacity q.tail; buffer = update q.buffer q.tail none })
          xs
  unfolding next_index
  popped {q} {x} {xs} r = record {
    base = r.base + 1;
    tail_at = rw r.tail_at (mod-suc-mod (capacity + 1) r.base);
    head_at =
        let sum : r.base + suc (length xs) ≡ r.base + 1 + length xs = omega arith in
        r.head_at ∙ ap (λ k. k % buffer_size capacity) sum;
    bounded = omega (arith, r.bounded);
    slots =
        rw r.tail_at
          (destroy-Stores (capacity + 1) q.buffer r.base x xs (omega (arith, r.bounded)) r.slots);
  }

  -- What `pop` does to a queue that represents `xs`.
  abbrev pub Pops : Queue A → List A → Type ℓ
  Pops q xs =
      ((xs ≡ []) × (pop capacity q ≡ ok (none, q)))
      ⊎ ((x : A) × (rest : List A) × (q' : Queue A) × (xs ≡ x ∷ rest)
          × (pop capacity q ≡ ok (some x, q'))
          × Represents capacity q' rest)

  -- On a queue that represents a list, `pop` never reads a slot without an object. On the empty queue it fails and changes nothing;
  -- on any other it hands out the oldest item and leaves the rest.
  pub pop-refines : {q : Queue A} {xs : List A} → Represents capacity q xs → Pops q xs
  unfolding pop take_object
  pop-refines {q} {xs = []} r =
      let hit = (==_iff q.tail q.head).1 (tail-eq-head capacity r refl) in inl (refl, rw hit)
  pop-refines {q} {xs = x ∷ rest} r =
      let miss = ==_ne q.tail q.head (λ e. absurd (omega (arith, head-eq-tail capacity r e))) in
      let here : q.buffer q.tail ≡ some x =
        ap q.buffer r.tail_at
        ∙ Stores-first (capacity + 1) q.buffer r.base x rest (omega arith) r.slots in
      inr (x, rest, _, refl, rw (miss, here), popped r)

  -- `size` is the number of items of a queue that represents a list, also where the indices have
  -- wrapped round.
  size-length : {q : Queue A} {xs : List A} → Represents capacity q xs → size capacity q ≡ length xs
  unfolding size
  size-length {q} {xs} r =
      wrapped q.tail q.head (length xs) (rw r.tail_at (mod-lt r.base (omega arith)))
        (omega (arith, r.bounded))
        (rw (r.tail_at, r.head_at) (sym (mod-add-mod r.base (capacity + 1) (length xs))))
    where
      wrapped :
          (t h k : ℕ)
          → t < capacity + 1
          → k < capacity + 1
          → h ≡ (t + k) % (capacity + 1)
          → (if leb t h then h - t else capacity + 1 - (t - h)) ≡ k
      wrapped t h k a b e = elim (dec_lt (t + k) (capacity + 1)) [
        | yes p ↦ ground (arith, mod-eq_of_lt p)
        | no p ↦
            let lap : (t + k) % (capacity + 1) ≡ (t + k - (capacity + 1)) % (capacity + 1) =
              mod-eq-sub-mod (omega arith) in
            let low : (t + k - (capacity + 1)) % (capacity + 1) ≡ t + k - (capacity + 1) =
              mod-eq_of_lt (omega arith) in
            ground arith
      ]

  -- On a queue that represents a list, `empty` is true exactly if the list has no item.
  empty_iff :
      {q : Queue A} {xs : List A} → Represents capacity q xs → (empty q ≡ true) ↔ (length xs ≡ 0)
  unfolding empty
  empty_iff {q} {xs} r =
      let t = ==_iff q.tail q.head in
      ((λ h. head-eq-tail capacity r (t.0 h)), (λ h. t.1 (tail-eq-head capacity r h)))

  -- On a queue that represents a list, `size` is the number of items, also where the indices have
  -- wrapped round, `empty` is true exactly if there is none, and `full` exactly if there are
  -- `capacity` of them.
  readers-length :
      {q : Queue A} {xs : List A}
      → Represents capacity q xs
      → (size capacity q ≡ length xs)
        × ((empty q ≡ true) ↔ (length xs ≡ 0))
        × ((full capacity q ≡ true) ↔ (length xs ≡ capacity))
  readers-length r = (size-length r, empty_iff r, full_iff capacity r)

  drain-empties :
      (fuel : ℕ) {q : Queue A} {xs : List A}
      → length xs < fuel
      → Represents capacity q xs
      → (q' : Queue A) × (drain capacity fuel q ≡ ok q') × Represents capacity q' []
  unfolding drain
  drain-empties zero h r = elim h [ ]
  drain-empties (suc fuel) {q} {xs} h r = elim (pop-refines r) [
    | inl (e, run) ↦ (q, rw run, rw e at r)
    | inr (x, rest, q', e, run, r') ↦
        rw run (drain-empties fuel {xs = rest} (omega (arith, ap length e)) r')
  ]

  -- `clear` of a queue that represents a list ends within its rounds and leaves the queue empty.
  clear-empties :
      {q : Queue A} {xs : List A}
      → Represents capacity q xs
      → (q' : Queue A) × (clear capacity q ≡ ok q') × Represents capacity q' []
  unfolding clear
  clear-empties r = drain-empties (capacity + 1) (omega (arith, r.bounded)) r
