-- ===== src/HashMap/Histories.antt =====
-- Every history of a `HashMap` against the same history of a finite map and a maximal load factor.
use cpp_systems_playground.Prelude.{
  ℕ, ◌≡◌, refl, ap, ◌∙◌, Bool, not, Option, none, some, Outcome, ok, err, Fault, List, [], ◌∷◌,
  arith, Key, if◌then◌else◌, is_some, Option-cases, inl, inr, ◌==◌,
}
use cpp_systems_playground.Prelude.Maps.{Ideal, nothing, assigned, removed}
use cpp_systems_playground.HashMap
use cpp_systems_playground.HashMap.{Map, Floats}
use cpp_systems_playground.HashMap.Bucket.{bit}
use cpp_systems_playground.HashMap.Refine.{IsValid, lookup, Same, Writes}
use cpp_systems_playground.HashMap.Members.{insert_or_assign-Writes, erase-Writes, readers-lookup}
use cpp_systems_playground.HashMap.Capacity.{clear-Empty, reserve-cases, set_max_load_factor-cases}

-- The calls but `operator[]`, whose reference can dangle.
pub data Call (D K V : Type 0) : Type 0 where
  insert_or_assign : K → V → Call D K V
  erase get contains count at : K → Call D K V
  size is_empty clear : Call D K V
  reserve : ℕ → Call D K V
  set_max_load_factor : D → Call D K V

-- What a call returns or throws.
pub data Answer (V : Type 0) : Type 0 where
  value : Option V → Answer V
  reference : V → Answer V
  flag : Bool → Answer V
  number : ℕ → Answer V
  done : Answer V
  thrown : Fault → Answer V

module _ {V : Type 0} where
  -- The answer of a call that changes nothing, and of one that leaves the map where it throws.
  abbrev answered : {A : Type 0} → (A → Answer V) → Outcome A → Answer V
  answered f (ok a) = f a
  answered f (err e) = Answer.thrown e

  abbrev changed : {A S : Type 0} → S → (A → Answer V × S) → Outcome A → Answer V × S
  changed m f (ok a) = f a
  changed m f (err e) = (Answer.thrown e, m)

-- A finite map, and the maximal load factor, on which it depends where `reserve` is defined.
pub record Spec (D K V : Type 0) : Type 0 where
  pub contents : Ideal K V
  pub open contents use *
  pub factor : D

module _ {D K V : Type 0} ⦃floats : Floats D⦄ ⦃key : Key K⦄ where
  unfoldable pub step : Map D K V → Call D K V → Answer V × Map D K V
  step m (Call.insert_or_assign k v) =
      changed m (λ r. (Answer.flag r.0, r.1)) (HashMap.insert_or_assign m k v)
  step m (Call.erase k) = changed m (λ r. (Answer.flag r.0, r.1)) (HashMap.erase m k)
  step m (Call.get k) = (answered Answer.value (HashMap.get m k), m)
  step m (Call.contains k) = (answered Answer.flag (HashMap.contains m k), m)
  step m (Call.count k) = (answered Answer.number (HashMap.count m k), m)
  step m (Call.at k) = (answered Answer.reference (HashMap.at m k), m)
  step m Call.size = (Answer.number m.size, m)
  step m Call.is_empty = (Answer.flag (HashMap.is_empty m), m)
  step m Call.clear = (Answer.done, HashMap.clear m)
  step m (Call.reserve n) = changed m (λ m'. (Answer.done, m')) (HashMap.reserve m n)
  step m (Call.set_max_load_factor lf) =
      changed m (λ m'. (Answer.done, m')) (HashMap.set_max_load_factor m lf)

  unfoldable pub run : Map D K V → List (Call D K V) → List (Answer V) × Map D K V
  unfolding step
  run m [] = ([], m)
  run m (call ∷ calls) =
      let (answer, m') = step m call in let (answers, m'') = run m' calls in (answer ∷ answers, m'')

  unfoldable pub ideal_step : Spec D K V → Call D K V → Answer V × Spec D K V
  ideal_step m (Call.insert_or_assign k v) =
      (Answer.flag (not (is_some (m.reads k))), record m { contents = assigned m.contents k v })
  ideal_step m (Call.erase k) =
      (Answer.flag (is_some (m.reads k)), record m { contents = removed m.contents k })
  ideal_step m (Call.get k) = (Answer.value (m.reads k), m)
  ideal_step m (Call.contains k) = (Answer.flag (is_some (m.reads k)), m)
  ideal_step m (Call.count k) = (Answer.number (bit (is_some (m.reads k))), m)
  ideal_step m (Call.at k) = (
    elim (m.reads k) [ some v ↦ Answer.reference v | none ↦ Answer.thrown Fault.out_of_range ],
    m,
  )
  ideal_step m Call.size = (Answer.number m.number, m)
  ideal_step m Call.is_empty = (Answer.flag (m.number == 0), m)
  ideal_step m Call.clear = (Answer.done, record m { contents = nothing })
  ideal_step m (Call.reserve n) = (
    elim (floats.quotient n m.factor) [
      | none ↦ Answer.thrown Fault.undefined
      | some q ↦ Answer.done
    ],
    m,
  )
  ideal_step m (Call.set_max_load_factor lf) =
      if floats.le lf floats.zero_load
      then (Answer.thrown Fault.invalid_argument, m)
      else (Answer.done, record m { factor = lf })

  unfoldable pub ideal_run : Spec D K V → List (Call D K V) → List (Answer V) × Spec D K V
  unfolding ideal_step
  ideal_run m [] = ([], m)
  ideal_run m (call ∷ calls) =
      let (answer, m') = ideal_step m call in
      let (answers, m'') = ideal_run m' calls in (answer ∷ answers, m'')

  -- A valid map, and the finite map that it stores, with its maximal load factor.
  pub record Holds (s : Map D K V) (m : Spec D K V) : Type 0 where
    pub valid : IsValid s
    pub reads : (q : K) → lookup s q ≡ m.reads q
    pub number : s.size ≡ m.number
    pub factor : s.max_load_factor ≡ m.factor

  abbrev Follows : Answer V × Map D K V → Answer V × Spec D K V → Type 0
  Follows r r' = (r.0 ≡ r'.0) × Holds r.1 r'.1

  Writes-Holds :
      {s s' : Map D K V} {m : Spec D K V} (k : K) (v : V)
      → Holds s m
      → Writes s s' k (some v)
      → Holds s' (record m { contents = assigned m.contents k v })
  Writes-Holds {s} {s'} {m} k v h w = record {
    valid = w.valid;
    reads = λ q. w.reads q ∙ ap (λ o. if key.equal k q then some v else o) (h.reads q);
    number = ground (arith, w.size, h.reads k, h.number);
    factor = w.factor ∙ h.factor;
  }

  erases-Holds :
      {s s' : Map D K V} {m : Spec D K V} (k : K)
      → Holds s m
      → Writes s s' k none
      → Holds s' (record m { contents = removed m.contents k })
  erases-Holds {s} {s'} {m} k h w = record {
    valid = w.valid;
    reads = λ q. w.reads q ∙ ap (λ o. if key.equal k q then none else o) (h.reads q);
    number = ground (arith, w.size, h.reads k, h.number);
    factor = w.factor ∙ h.factor;
  }

  Same-Holds : {s s' : Map D K V} {m : Spec D K V} → Holds s m → Same s s' → Holds s' m
  Same-Holds h w = record {
    valid = w.valid;
    reads = λ q. w.reads q ∙ h.reads q;
    number = w.size ∙ h.number;
    factor = w.factor ∙ h.factor;
  }

  step-Follows :
      {s : Map D K V} {m : Spec D K V} (call : Call D K V)
      → Holds s m
      → Follows (step s call) (ideal_step m call)
  unfolding step ideal_step
  step-Follows {s} {m} (Call.insert_or_assign k v) h =
      let (s', e, w) = insert_or_assign-Writes k v h.valid in
      rw (e, h.reads k) (refl, Writes-Holds k v h w)
  step-Follows {s} {m} (Call.erase k) h =
      let (s', e, w) = erase-Writes k h.valid in rw (e, h.reads k) (refl, erases-Holds k h w)
  step-Follows {s} {m} (Call.get k) h = (rw ((readers-lookup k h.valid).0, h.reads k) refl, h)
  step-Follows {s} {m} (Call.contains k) h = (rw ((readers-lookup k h.valid).1, h.reads k) refl, h)
  step-Follows {s} {m} (Call.count k) h = (rw ((readers-lookup k h.valid).2, h.reads k) refl, h)
  step-Follows {s} {m} (Call.at k) h =
      (rw ((readers-lookup k h.valid).3, h.reads k) (ground (arith, Option-cases (m.reads k))), h)
  step-Follows {s} {m} Call.size h = (ap Answer.number h.number, h)
  step-Follows {s} {m} Call.is_empty h = (ap (λ n. Answer.flag (n == 0)) h.number, h)
  step-Follows {s} {m} Call.clear h =
      let c = (clear-Empty h.valid).0 in
      (
        refl,
        record {
          valid = c.valid;
          reads = c.reads;
          number = c.size;
          factor = unfold HashMap.clear in h.factor;
        },
      )
  step-Follows {s} {m} (Call.reserve n) h = elim (reserve-cases n h.valid) [
    | inl (outside, e) ↦ let there = rw (h.factor) at outside in rw (e, there) (refl, h)
    | inr (q, s', inside, e, same) ↦
        let there = rw (h.factor) at inside in rw (e, there) (refl, Same-Holds h same)
  ]
  step-Follows {s} {m} (Call.set_max_load_factor lf) h =
      elim (set_max_load_factor-cases lf h.valid) [
        | inl (low, e) ↦ rw (e, low) (refl, h)
        | inr (s', fine, e, same) ↦
            rw (e, fine)
              (
                refl,
                record {
                  valid = same.valid;
                  reads = λ q. same.reads q ∙ unfold lookup in (h.reads q);
                  number = same.size ∙ h.number;
                  factor = same.factor;
                },
              )
      ]

  -- From a valid map and a finite map with the same contents and maximal load factor, and memory for every
  -- bucket and node, every history of calls but `operator[]` returns and throws what the finite map does, and leaves them with the same
  -- contents and load factor; a call is undefined exactly if it is a `reserve` of which a `size_type`
  -- cannot represent the quotient by the load factor that is then set.
  pub run-Follows :
      {s : Map D K V} {m : Spec D K V} (calls : List (Call D K V))
      → Holds s m
      → ((run s calls).0 ≡ (ideal_run m calls).0) × Holds (run s calls).1 (ideal_run m calls).1
  unfolding run ideal_run
  run-Follows [] h = (refl, h)
  run-Follows {s} {m} (call ∷ calls) h =
      let (e, h1) = step-Follows call h in
      let (e', h') = run-Follows {s = (step s call).1} {m = (ideal_step m call).1} calls h1 in
      (ap (λ a. a ∷ (run (step s call).1 calls).0) e ∙ ap (λ l. (ideal_step m call).0 ∷ l) e', h')
