-- ===== src/Demos/ChainingMain.antt =====
-- kv_store_chaining/src/kv_store_chaining_demo.cpp: the calls of `main`, in order, with the texts that it
-- stores as arguments.
use cpp_systems_playground.Prelude.{
  ℕ, ◌+◌, ◌*◌, ◌^◌, subst, replicate, ◌∙◌, ◌<◌, ◌≡◌, refl, sym, ap, true, none, some, Option,
  Outcome, ok, ok-injective, ◌>>=◌, List, [], ◌∷◌, Key, inl, inr, arith,
}
use cpp_systems_playground.Prelude.Maps.{nothing}
use cpp_systems_playground.Linear.Text.{same}
use cpp_systems_playground.Pool.FixedBlock.{Pool}
use cpp_systems_playground.Pool.History.{new-linked}
use cpp_systems_playground.Chaining
use cpp_systems_playground.Chaining.{Store}
use cpp_systems_playground.Chaining.Clear.{new-cases}
use cpp_systems_playground.Chaining.Histories.{
  Call, Answer, run, ideal_run, ideal_step, Holds, run-Holds,
}
use cpp_systems_playground.Demos.Texts.{Text, string_key}

-- "user:1", "user:2", "user:3" and "session:abc"
abbrev user1 : Text
user1 = 117 ∷ 115 ∷ 101 ∷ 114 ∷ 58 ∷ 49 ∷ []

abbrev user2 : Text
user2 = 117 ∷ 115 ∷ 101 ∷ 114 ∷ 58 ∷ 50 ∷ []

abbrev user3 : Text
user3 = 117 ∷ 115 ∷ 101 ∷ 114 ∷ 58 ∷ 51 ∷ []

abbrev session : Text
session = 115 ∷ 101 ∷ 115 ∷ 115 ∷ 105 ∷ 111 ∷ 110 ∷ 58 ∷ 97 ∷ 98 ∷ 99 ∷ []

module _ {V : Type 0} (name1 name2 active : V) where
  abbrev calls : List (Call Text V)
  calls =
      Call.put user1 name1
      ∷ Call.put user2 name2
      ∷ Call.put session active
      ∷ Call.get user1
      ∷ Call.get user2
      ∷ Call.get user3
      ∷ Call.get session
      ∷ Call.erase user2
      ∷ Call.get user2
      ∷ Call.size
      ∷ []

  -- What the calls return; `raw` is what the buffer of the pool holds at first, and `node_size` the size
  -- of a node.
  unfoldable main : ⦃key : Key Text⦄ → (ℕ → Option ℕ) → ℕ → Outcome (List (Answer V))
  unfolding run
  main raw node_size = do
    store ← Chaining.new {K = Text} {V = V} raw node_size 16 32
    ok (run store calls).0

  new_ok :
      ⦃key : Key Text⦄ (raw : ℕ → Option ℕ) (node_size : ℕ)
      → 0 < node_size
      → (node_size + 7) * 32 < 2 ^ 64
      → (s : Store Text V) × (Chaining.new raw node_size 16 32 ≡ ok s) × (s.pool.capacity ≡ 32)
  unfolding Chaining.new
  new_ok raw node_size pos fits =
      let made = (new-linked raw node_size 32 pos (omega arith) fits).1 in
      (
        _,
        ap
            (λ (o : Outcome Pool). do
              pool ← o
              ok (record { buckets = replicate 16 []; pool = pool; size = 0 }))
            made,
        refl,
      )

  -- Whatever the hash does and the fresh memory holds, the keys that were stored are read, the one that
  -- was not and the one that was erased are not, and two keys are left.
  main_report :
      (hash : Text → ℕ) (raw : ℕ → Option ℕ) (node_size : ℕ)
      → 0 < node_size
      → (node_size + 7) * 32 < 2 ^ 64
      → main ⦃key = string_key hash⦄ raw node_size
        ≡ ok (
            Answer.done
            ∷ Answer.done
            ∷ Answer.done
            ∷ Answer.value (some name1)
            ∷ Answer.value (some name2)
            ∷ Answer.value none
            ∷ Answer.value (some active)
            ∷ Answer.flag true
            ∷ Answer.value none
            ∷ Answer.number 2
            ∷ [])
  unfolding main ideal_run ideal_step same
  main_report hash raw node_size pos fits =
      elim (new-cases {K = Text} {V = V} ⦃key = string_key hash⦄ raw node_size 16 32 pos fits) [
        | inl (f, e, why) ↦
            let (store, made, same) = new_ok ⦃key = string_key hash⦄ raw node_size pos fits in
            absurd (ground (arith, e, made))
        | inr (store, some_buckets, e, clear) ↦
            let (store', made, same) = new_ok ⦃key = string_key hash⦄ raw node_size pos fits in
            let here : store' ≡ store = ok-injective (sym made ∙ e) in
            let h : Holds ⦃key = string_key hash⦄ 32 store nothing = record {
              valid = clear.valid;
              capacity = subst (λ (s : Store Text V). s.pool.capacity ≡ 32) here same;
              reads = clear.reads;
              number = clear.size;
            } in
            rw (e, ◌>>=◌) (ap ok ((run-Holds ⦃key = string_key hash⦄ calls h).0))
      ]
