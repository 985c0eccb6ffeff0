-- ===== src/Demos/HashMapMain.antt =====
-- hash_map/src/main.cpp: the calls of `main`, in order. The bucket counts and load factors that it
-- prints are left out.
use cpp_systems_playground.Prelude.{ℕ, ◌≡◌, ◌∙◌, refl, true, false, some, List, [], ◌∷◌, Key}
use cpp_systems_playground.Prelude.Maps.{nothing}
use cpp_systems_playground.Linear.Text.{same}
use cpp_systems_playground.HashMap
use cpp_systems_playground.HashMap.{Floats, Map}
use cpp_systems_playground.HashMap.Capacity.{new-Empty}
use cpp_systems_playground.HashMap.Histories.{
  Call, Answer, run, ideal_run, ideal_step, Holds, run-Follows,
}
use cpp_systems_playground.Demos.Texts.{Text, string_key}

-- "alice", "bob" and "carol"
abbrev alice : Text
alice = 97 ∷ 108 ∷ 105 ∷ 99 ∷ 101 ∷ []

abbrev bob : Text
bob = 98 ∷ 111 ∷ 98 ∷ []

abbrev carol : Text
carol = 99 ∷ 97 ∷ 114 ∷ 111 ∷ 108 ∷ []

module _ {D : Type 0} where
  abbrev calls : List (Call D Text ℕ)
  calls =
      Call.insert_or_assign alice 10
      ∷ Call.insert_or_assign bob 20
      ∷ Call.insert_or_assign carol 30
      ∷ Call.insert_or_assign alice 42
      ∷ Call.get alice
      ∷ Call.contains bob
      ∷ Call.erase bob
      ∷ Call.contains bob
      ∷ Call.size
      ∷ Call.reserve 100
      ∷ []

module _ (D : Type 0) ⦃floats : Floats D⦄ ⦃key : Key Text⦄ where
  -- What the calls return.
  unfoldable main : List (Answer ℕ)
  unfolding run
  main = (run (HashMap.new {D = D} HashMap.default_bucket_count) calls).0

module _ (D : Type 0) ⦃floats : Floats D⦄ (hash : Text → ℕ) where
  -- Whatever the hash and the floating-point numbers do, as long as 100 by the default load factor is
  -- in the range of a `size_type`: the second value of a key is read, a key that
  -- was erased is gone, and two keys are left.
  main_report :
      (q : ℕ)
      → floats.quotient 100 floats.three_quarters ≡ some q
      → main D ⦃key = string_key hash⦄
        ≡ Answer.flag true
          ∷ Answer.flag true
          ∷ Answer.flag true
          ∷ Answer.flag false
          ∷ Answer.value (some 42)
          ∷ Answer.flag true
          ∷ Answer.flag true
          ∷ Answer.flag false
          ∷ Answer.number 2
          ∷ Answer.done
          ∷ []
  unfolding main ideal_run ideal_step same
  main_report q inside =
      let e = new-Empty {D = D} {K = Text} {V = ℕ} ⦃key = string_key hash⦄ 16 in
      let h : Holds ⦃key = string_key hash⦄
          (HashMap.new {D = D} ⦃key = string_key hash⦄ HashMap.default_bucket_count)
          (record { contents = nothing; factor = floats.three_quarters }) =
        record {
          valid = e.valid;
          reads = e.reads;
          number = e.size;
          factor = unfold HashMap.new in refl;
        } in
      (run-Follows ⦃key = string_key hash⦄ calls h).0 ∙ rw inside refl
