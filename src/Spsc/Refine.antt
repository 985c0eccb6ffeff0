-- ===== src/Spsc/Refine.antt =====
-- The ring buffer of `SPSCQueue` and the bounded first-in first-out list that it represents.
use native.Mathlib.Decide.{ℕ_discrete}
use cpp_systems_playground.Prelude.{
  ℕ, ◌+◌, ◌%◌, ◌≤◌, ◌<◌, ◌≡◌, refl, sym, ap, ◌∙◌, ◌↔◌, true, some, List, [], ◌∷◌, ◌++◌, arith,
  length, length-append, update, ==_iff,
}
use cpp_systems_playground.Prelude.Modular.{mod_inj, mod-suc-mod, mod_lap}
use cpp_systems_playground.Spsc.Slots.{Stores, construct-Stores}
use cpp_systems_playground.Spsc.{Queue, buffer_size, next_index, new, full}

-- The queue holds the items `xs`, oldest first: `base` items were popped before them, the
-- indices are the counters modulo the buffer size, and the slots hold exactly these items.
pub record Represents {ℓ} {A : Type ℓ} (capacity : ℕ) (q : Queue A) (xs : List A) : Type ℓ where
  pub base : ℕ
  pub tail_at : q.tail ≡ base % buffer_size capacity
  pub head_at : q.head ≡ (base + length xs) % buffer_size capacity
  pub bounded : length xs ≤ capacity
  pub slots : Stores (buffer_size capacity) q.buffer base xs

-- `next_head == tail` for counters: only at a full buffer.
pub full_turn : (c b k : ℕ) → k ≤ c → (b + k + 1) % buffer_size c ≡ b % buffer_size c → k ≡ c
full_turn c b k h e = elim (ℕ_discrete k c) [
  | yes p ↦ p
  | no p ↦ omega (arith, mod_inj (c + 1) b (b + k + 1) (omega arith) (omega arith) (sym e))
]

pub full_lap : (c b k : ℕ) → k ≡ c → (b + k + 1) % buffer_size c ≡ b % buffer_size c
full_lap c b k e = let sum : b + k + 1 ≡ b + (c + 1) = omega arith in rw sum (mod_lap (c + 1) b)

module _ {ℓ} {A : Type ℓ} (capacity : ℕ) where
  next-head :
      {q : Queue A} {xs : List A} (r : Represents capacity q xs)
      → next_index capacity q.head ≡ (r.base + length xs + 1) % buffer_size capacity
  unfolding next_index
  next-head {q} {xs} r = rw r.head_at (mod-suc-mod (capacity + 1) (r.base + length xs))

  pub head-eq-tail :
      {q : Queue A} {xs : List A} → Represents capacity q xs → q.tail ≡ q.head → length xs ≡ 0
  head-eq-tail {q} {xs} r e = omega (
    arith,
    mod_inj (capacity + 1) r.base (r.base + length xs) (omega arith) (omega arith)
        (sym r.tail_at ∙ e ∙ r.head_at),
  )

  pub tail-eq-head :
      {q : Queue A} {xs : List A} → Represents capacity q xs → length xs ≡ 0 → q.tail ≡ q.head
  tail-eq-head {q} {xs} r e =
      let sum : r.base + length xs ≡ r.base = omega arith in rw (r.tail_at, r.head_at, sum)

  pub next-eq-tail :
      {q : Queue A} {xs : List A}
      → Represents capacity q xs
      → (next_index capacity q.head ≡ q.tail) ↔ (length xs ≡ capacity)
  next-eq-tail {q} {xs} r = (
    (λ e. full_turn capacity r.base (length xs) r.bounded (sym (next-head r) ∙ e ∙ r.tail_at)),
    (λ e. next-head r ∙ full_lap capacity r.base (length xs) e ∙ sym r.tail_at),
  )

  -- On a queue that represents a list, `full` is true exactly if the list has `capacity` items.
  pub full_iff :
      {q : Queue A} {xs : List A}
      → Represents capacity q xs
      → (full capacity q ≡ true) ↔ (length xs ≡ capacity)
  unfolding full
  full_iff {q} {xs} r =
      let t = ==_iff (next_index capacity q.head) q.tail in
      let e = next-eq-tail r in ((λ h. e.0 (t.0 h)), (λ h. t.1 (e.1 h)))

  pub new-Represents : Represents {A = A} capacity new []
  unfolding new
  new-Represents = record {
    base = 0;
    tail_at = omega arith;
    head_at = omega arith;
    bounded = omega arith;
    slots = λ i h. refl;
  }

  pub pushed :
      {q : Queue A} {xs : List A} (v : A) (r : Represents capacity q xs)
      → length xs < capacity
      → Represents capacity
          (record q { head = next_index capacity q.head; buffer = update q.buffer q.head (some v) })
          (xs ++ v ∷ [])
  pushed {q} {xs} v r h = record {
    base = r.base;
    tail_at = r.tail_at;
    head_at =
        let sum : r.base + length xs + 1 ≡ r.base + length (xs ++ v ∷ []) =
          omega (arith, length-append xs (v ∷ [])) in
        next-head r ∙ ap (λ k. k % buffer_size capacity) sum;
    bounded = omega (arith, length-append xs (v ∷ []));
    slots =
        rw r.head_at (construct-Stores (capacity + 1) q.buffer r.base xs v (omega arith) r.slots);
  }
