-- ===== src/Linear/Histories.antt =====
-- Every history of `insert` and `get` of a `KVStoreOptimized` against the same history of a bounded map.
use cpp_systems_playground.Prelude.{
  ◌&&◌, ℕ, ◌≡◌, inl, inr, refl, ap, Bool, true, false, ◌||◌, Option, Outcome, ok, ◌>>=◌, List, [],
  ◌∷◌, arith, if◌then◌else◌, is_some, Bool-cases, ltb,
}
use cpp_systems_playground.Prelude.Maps.{Ideal, assigned}
use cpp_systems_playground.Linear
use cpp_systems_playground.Linear.{Store, Probe, max_key, max_value, find_slot, write, write_entry}
use cpp_systems_playground.Linear.Text.{view_of, IsPlain}
use cpp_systems_playground.Linear.Reads.{answer}
use cpp_systems_playground.Linear.Matches.{
  text_key, fits, Matches, insert-Inserts, inserted-Matches,
}

pub data Call : Type 0 where
  insert : List ℕ → List ℕ → Call
  get : List ℕ → Call
  size : Call

pub data Answer : Type 0 where
  value : Option (List ℕ) → Answer
  flag : Bool → Answer
  number : ℕ → Answer

unfoldable pub step : Store → Call → Outcome (Answer × Store)
step s (Call.insert k v) = do
  (b, s') ← Linear.insert s (view_of k) (view_of v)
  ok (Answer.flag b, s')
step s (Call.get k) = do o ← Linear.get s (view_of k); ok (Answer.value o, s)
step s Call.size = ok (Answer.number s.size, s)

unfoldable pub run : Store → List Call → Outcome (List Answer × Store)
unfolding step
run s [] = ok ([], s)
run s (call ∷ calls) = do
  (answer, s') ← step s call
  (answers, s'') ← run s' calls
  ok (answer ∷ answers, s'')

unfoldable pub ideal_step : ℕ → Ideal (List ℕ) (List ℕ) → Call → Answer × Ideal (List ℕ) (List ℕ)
ideal_step n m (Call.insert k v) =
    if fits k v && (is_some (m.reads k) || ltb m.number n)
    then (Answer.flag true, assigned m k v)
    else (Answer.flag false, m)
ideal_step n m (Call.get k) = (Answer.value (m.reads k), m)
ideal_step n m Call.size = (Answer.number m.number, m)

unfoldable pub ideal_run :
    ℕ → Ideal (List ℕ) (List ℕ) → List Call → List Answer × Ideal (List ℕ) (List ℕ)
unfolding ideal_step
ideal_run n m [] = ([], m)
ideal_run n m (call ∷ calls) =
    let (answer, m') = ideal_step n m call in
    let (answers, m'') = ideal_run n m' calls in (answer ∷ answers, m'')

-- The texts of a call have no zero byte.
abbrev pub Admits : Call → Type 0
Admits (Call.insert k v) = IsPlain k × IsPlain v
Admits (Call.get k) = IsPlain k
Admits Call.size = Unit

abbrev pub AllAdmitted : List Call → Type 0
AllAdmitted [] = Unit
AllAdmitted (call ∷ calls) = Admits call × AllAdmitted calls

-- One call succeeds, answers as the map does, and leaves a store that holds what the map holds.
abbrev Follows : ℕ → Store → Ideal (List ℕ) (List ℕ) → Call → Type 0
Follows n s m call =
    (s' : Store) × (step s call ≡ ok ((ideal_step n m call).0, s'))
    × Matches n s' (ideal_step n m call).1

insert-Follows :
    {n : ℕ} {s : Store} {m : Ideal (List ℕ) (List ℕ)} (k v : List ℕ)
    → Matches n s m
    → IsPlain k
    → IsPlain v
    → Follows n s m (Call.insert k v)
unfolding step ideal_step
insert-Follows {n} {s} {m} k v h pk pv = elim (Bool-cases (fits k v)) [
  | inr over ↦
      let refused : Linear.insert s (view_of k) (view_of v) ≡ ok (false, s) =
        unfold Linear.insert in (ground (arith, over)) in
      rw over (s, rw (refused, ◌>>=◌) refl, h)
  | inl fit ↦ elim (insert-Inserts k v h pk fit) [
    | inl (absent, full, e) ↦
        let no_room : ltb m.number n ≡ false = ground (arith, full) in
        rw (fit, absent, no_room) (s, rw (e, ◌>>=◌) refl, h)
    | inr i ↦
        let room : is_some (m.reads k) || ltb m.number n ≡ true = ground (arith, i.room) in
        rw (fit, room) (i.after, rw (i.run, ◌>>=◌) refl, inserted-Matches k v h pk pv i)
  ]
]

step-Follows :
    {n : ℕ} {s : Store} {m : Ideal (List ℕ) (List ℕ)} (call : Call)
    → Matches n s m
    → Admits call
    → Follows n s m call
unfolding step ideal_step
step-Follows (Call.insert k v) h a = insert-Follows k v h a.0 a.1
step-Follows {s = s} (Call.get k) h a = (s, rw (h.reads k a, ◌>>=◌) refl, h)
step-Follows {s = s} Call.size h a = (s, ap (λ x. ok (Answer.number x, s)) h.number, h)

-- From a compact store that holds what a map of at most `n` keys holds, every history of `insert` and
-- `get` whose texts have no zero byte, and are each followed by one in memory, succeeds: it answers as the map does, where an `insert` is
-- refused exactly if its texts are too long or its key is new and `n` keys are there, and leaves a
-- store that holds what the map holds.
pub run-Matches :
    {n : ℕ} {s : Store} {m : Ideal (List ℕ) (List ℕ)} (calls : List Call)
    → Matches n s m
    → AllAdmitted calls
    → (s' : Store) × (run s calls ≡ ok ((ideal_run n m calls).0, s'))
      × Matches n s' (ideal_run n m calls).1
unfolding run ideal_run
run-Matches {s = s} [] h a = (s, refl, h)
run-Matches {n} {s} {m} (call ∷ calls) h a =
    let (s1, e, h1) = step-Follows call h a.0 in
    let (s', e', h') = run-Matches {n = n} {s = s1} {m = (ideal_step n m call).1} calls h1 a.1 in
    (s', rw (e, ◌>>=◌, e') refl, h')
