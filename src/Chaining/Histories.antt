-- ===== src/Chaining/Histories.antt =====
-- Every history of an `InMemorykvstore_chaining` against the same history of a bounded map.
use cpp_systems_playground.Prelude.{
  ℕ, ◌+◌, ◌≡◌, refl, sym, ap, ◌∙◌, Bool, true, false, Option, none, some, ok, err, Fault, List, [],
  ◌∷◌, arith, Key, if◌then◌else◌, is_some, Bool-cases, inl, inr, ltb,
}
use cpp_systems_playground.Prelude.Maps.{Ideal, assigned, removed}
use cpp_systems_playground.Chaining
use cpp_systems_playground.Chaining.{Store}
use cpp_systems_playground.Chaining.Refine.{IsValid}
use cpp_systems_playground.Chaining.Calls.{put-IsValid, put-cases, erase-capacity, erase-Erases}

pub data Call (K V : Type 0) : Type 0 where
  put : K → V → Call K V
  get : K → Call K V
  erase : K → Call K V
  contains : K → Call K V
  size : Call K V

-- What a call returns or throws.
pub data Answer (V : Type 0) : Type 0 where
  value : Option V → Answer V
  flag : Bool → Answer V
  number : ℕ → Answer V
  done : Answer V
  thrown : Fault → Answer V

module _ {K V : Type 0} ⦃key : Key K⦄ where
  -- A `put` that throws leaves the store.
  unfoldable pub step : Store K V → Call K V → Answer V × Store K V
  step s (Call.put k v) = elim (Chaining.put s k v) [
    | ok s' ↦ (Answer.done, s')
    | err f ↦ (Answer.thrown f, s)
  ]
  step s (Call.get k) = (Answer.value (Chaining.get s k), s)
  step s (Call.erase k) = (Answer.flag (Chaining.erase s k).0, (Chaining.erase s k).1)
  step s (Call.contains k) = (Answer.flag (Chaining.contains s k), s)
  step s Call.size = (Answer.number s.size, s)

  unfoldable pub run : Store K V → List (Call K V) → List (Answer V) × Store K V
  unfolding step
  run s [] = ([], s)
  run s (call ∷ calls) =
      let (answer, s') = step s call in let (answers, s'') = run s' calls in (answer ∷ answers, s'')

-- A map of at most `capacity` keys.
module _ {K V : Type 0} ⦃key : Key K⦄ where
  unfoldable pub ideal_step : ℕ → Ideal K V → Call K V → Answer V × Ideal K V
  ideal_step capacity m (Call.put k v) =
      if is_some (m.reads k)
      then (Answer.done, assigned m k v)
      else if ltb m.number capacity
      then (Answer.done, assigned m k v)
      else (Answer.thrown Fault.bad_alloc, m)
  ideal_step capacity m (Call.get k) = (Answer.value (m.reads k), m)
  ideal_step capacity m (Call.erase k) = (Answer.flag (is_some (m.reads k)), removed m k)
  ideal_step capacity m (Call.contains k) = (Answer.flag (is_some (m.reads k)), m)
  ideal_step capacity m Call.size = (Answer.number m.number, m)

  unfoldable pub ideal_run : ℕ → Ideal K V → List (Call K V) → List (Answer V) × Ideal K V
  unfolding ideal_step
  ideal_run capacity m [] = ([], m)
  ideal_run capacity m (call ∷ calls) =
      let (answer, m') = ideal_step capacity m call in
      let (answers, m'') = ideal_run capacity m' calls in (answer ∷ answers, m'')

  -- A valid store with a capacity, and the map that it holds.
  pub record Holds (n : ℕ) (s : Store K V) (m : Ideal K V) : Type 0 where
    pub valid : IsValid s
    pub capacity : s.pool.capacity ≡ n
    pub reads : (q : K) → Chaining.get s q ≡ m.reads q
    pub number : s.size ≡ m.number

  -- One call.
  abbrev Follows : ℕ → Answer V × Store K V → Answer V × Ideal K V → Type 0
  Follows n r r' = (r.0 ≡ r'.0) × Holds n r.1 r'.1

  step-Follows :
      {n : ℕ} {s : Store K V} {m : Ideal K V} (call : Call K V)
      → Holds n s m
      → Follows n (step s call) (ideal_step n m call)
  unfolding step ideal_step Chaining.contains
  step-Follows {n} {s} {m} (Call.get k) h = (ap Answer.value (h.reads k), h)
  step-Follows {n} {s} {m} (Call.contains k) h = (ap (λ o. Answer.flag (is_some o)) (h.reads k), h)
  step-Follows {n} {s} {m} Call.size h = (ap Answer.number h.number, h)
  step-Follows {n} {s} {m} (Call.erase k) h =
      let (e, v, w) = erase-Erases k h.valid in
      (
        rw (e, h.reads k) refl,
        record {
          valid = v;
          capacity = erase-capacity s k ∙ h.capacity;
          reads = λ q. w.reads q ∙ ap (λ o. if key.equal k q then none else o) (h.reads q);
          number = ground (arith, w.size, h.number, h.reads k);
        },
      )
  step-Follows {n} {s} {m} (Call.put k v) h = elim (put-cases k v h.valid) [
    | inl (absent, full, e) ↦
        let new : m.reads k ≡ none = sym (h.reads k) ∙ absent in
        let none_left : ltb m.number n ≡ false = ground (arith, full, h.number, h.capacity) in
        rw (e, step, new, none_left) (refl, h)
    | inr (s', room, e, v', puts) ↦
        let same : (q : K) → Chaining.get s' q ≡ (if key.equal k q then some v else m.reads q) =
          λ q. puts.reads q ∙ ap (λ o. if key.equal k q then some v else o) (h.reads q) in
        let counts : s'.size ≡ (if is_some (m.reads k) then m.number else m.number + 1) =
          ground (arith, puts.size, h.reads k, h.number) in
        let keeps : s'.pool.capacity ≡ n = (put-IsValid k v h.valid e).1 ∙ h.capacity in
        let low : (is_some (m.reads k) ≡ false) → ltb m.number n ≡ true =
          λ new. ground (arith, room, new, h.reads k, h.number, h.capacity) in
        elim (Bool-cases (is_some (m.reads k))) [
          | inl there ↦
              rw (e, step, there)
                (
                  refl,
                  record {
                    valid = v';
                    capacity = keeps;
                    reads = same;
                    number = counts ∙ rw there refl;
                  },
                )
          | inr new ↦
              rw (e, step, new, low new)
                (
                  refl,
                  record {
                    valid = v';
                    capacity = keeps;
                    reads = same;
                    number = counts ∙ rw new refl;
                  },
                )
        ]
  ]

  -- From a valid store and a map with the same contents, every history of calls returns and throws
  -- what the map of bounded size does, and leaves them with the same contents.
  pub run-Holds :
      {n : ℕ} {s : Store K V} {m : Ideal K V} (calls : List (Call K V))
      → Holds n s m
      → ((run s calls).0 ≡ (ideal_run n m calls).0)
        × Holds n (run s calls).1 (ideal_run n m calls).1
  unfolding run ideal_run
  run-Holds [] h = (refl, h)
  run-Holds {n} {s} {m} (call ∷ calls) h =
      let (e, h1) = step-Follows call h in
      let (e', h') =
        run-Holds {n = n} {s = (step s call).1} {m = (ideal_step n m call).1} calls h1 in
      (ap (λ a. a ∷ (run (step s call).1 calls).0) e ∙ ap (λ l. (ideal_step n m call).0 ∷ l) e', h')
