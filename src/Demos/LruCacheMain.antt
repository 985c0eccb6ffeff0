-- ===== src/Demos/LruCacheMain.antt =====
-- lru_cache/src/main.cpp: the calls of `main`, in order, with the texts that it stores as arguments. The
-- size and the capacity that it prints are left out.
use cpp_systems_playground.Prelude.{
  ℕ, ◌≡◌, ◌∙◌, refl, none, some, Outcome, ok, ◌>>=◌, List, [], ◌∷◌, Key, inl, inr, arith,
}
use cpp_systems_playground.HashMap.{Floats}
use cpp_systems_playground.Lru
use cpp_systems_playground.Lru.{Cache}
use cpp_systems_playground.Lru.Recency
use cpp_systems_playground.Lru.Histories.{
  Call, Answer, run, ideal_run, ideal_step, new-cases, run-refines,
}
use cpp_systems_playground.Demos.Texts.{int_key}

module _ {V : Type 0} (one two three four five : V) where
  abbrev calls : List (Call ℕ V)
  calls =
      Call.put 1 one
      ∷ Call.put 2 two
      ∷ Call.put 3 three
      ∷ Call.get 1
      ∷ Call.get 2
      ∷ Call.put 4 four
      ∷ Call.get 3
      ∷ Call.get 4
      ∷ Call.put 5 five
      ∷ Call.get 1
      ∷ Call.get 2
      ∷ Call.get 4
      ∷ Call.get 5
      ∷ []

  module _ (D : Type 0) ⦃floats : Floats D⦄ ⦃key : Key ℕ⦄ where
    -- What the calls return, on a cache of three entries.
    unfoldable main : Outcome (List (Answer V))
    unfolding run
    main = do cache ← Lru.new {D = D} {K = ℕ} {V = V} 3; (answers, _) ← run cache calls; ok answers

  module _ (D : Type 0) ⦃floats : Floats D⦄ (hash : ℕ → ℕ) where
    main_follows : main D ⦃key = int_key hash⦄ ≡ ok (ideal_run ⦃key = int_key hash⦄ 3 [] calls).0
    unfolding main
    main_follows = elim (new-cases {D = D} {K = ℕ} {V = V} ⦃key = int_key hash⦄ 3) [
      | inl (z, e) ↦ absurd (omega (arith, z))
      | inr (cache, pos, e, three_entries, valid, nothing_yet) ↦
          let (cache', go, valid', keeps, seen) = run-refines ⦃key = int_key hash⦄ calls valid in
          rw (e, ◌>>=◌, go, nothing_yet, three_entries) refl
    ]

    -- Whatever the hash and the floating-point numbers do, key 3 is evicted by key 4 and key 1 by key 5,
    -- and the other keys read as what was stored.
    main_report :
        main D ⦃key = int_key hash⦄
        ≡ ok (
            Answer.done
            ∷ Answer.done
            ∷ Answer.done
            ∷ Answer.value (some one)
            ∷ Answer.value (some two)
            ∷ Answer.done
            ∷ Answer.value none
            ∷ Answer.value (some four)
            ∷ Answer.done
            ∷ Answer.value none
            ∷ Answer.value (some two)
            ∷ Answer.value (some four)
            ∷ Answer.value (some five)
            ∷ [])
    unfolding ideal_run ideal_step Recency.get Recency.put Recency.without Recency.find
    main_report = main_follows ∙ refl
