-- ===== src/Lru/Histories.antt =====
-- Every history of an `LRUCache` against the same history of the list of its entries.
use native.Mathlib.Decide.{ℕ_discrete}
use cpp_systems_playground.Prelude.{
  ℕ, ◌<◌, ◌≡◌, ◌⊎◌, refl, ◌∙◌, Bool, Option, Outcome, ok, err, Fault, ◌>>=◌, List, [], ◌∷◌, arith,
  Key, is_some, inl, inr, Option-cases,
}
use cpp_systems_playground.HashMap
use cpp_systems_playground.HashMap.{Floats}
use cpp_systems_playground.HashMap.Members.{readers-lookup}
use cpp_systems_playground.HashMap.Capacity.{new-Empty, clear-Empty}
use cpp_systems_playground.Lru
use cpp_systems_playground.Lru.{Cache}
use cpp_systems_playground.Lru.Items.{item_of, nodes_with, keys_with}
use cpp_systems_playground.Lru.Recency
use cpp_systems_playground.Lru.Views.{entries, find-entries}
use cpp_systems_playground.Lru.Valid.{IsValid, view}
use cpp_systems_playground.Lru.Refine.{get-refines, erase-refines, put-refines}

pub data Call (K V : Type 0) : Type 0 where
  get : K → Call K V
  put : K → V → Call K V
  erase : K → Call K V
  contains : K → Call K V
  clear : Call K V

pub data Answer (V : Type 0) : Type 0 where
  value : Option V → Answer V
  flag : Bool → Answer V
  done : Answer V

module _ {D K V : Type 0} ⦃floats : Floats D⦄ ⦃key : Key K⦄ where
  unfoldable pub step : Cache D K V → Call K V → Outcome (Answer V × Cache D K V)
  step c (Call.get k) = do (o, c') ← Lru.get c k; ok (Answer.value o, c')
  step c (Call.put k v) = do c' ← Lru.put c k v; ok (Answer.done, c')
  step c (Call.erase k) = do (b, c') ← Lru.erase c k; ok (Answer.flag b, c')
  step c (Call.contains k) = do b ← Lru.contains c k; ok (Answer.flag b, c)
  step c Call.clear = ok (Answer.done, Lru.clear c)

  unfoldable pub run : Cache D K V → List (Call K V) → Outcome (List (Answer V) × Cache D K V)
  unfolding step
  run c [] = ok ([], c)
  run c (call ∷ calls) = do
    (answer, c') ← step c call
    (answers, c'') ← run c' calls
    ok (answer ∷ answers, c'')

module _ {K V : Type 0} ⦃key : Key K⦄ where
  -- The same calls on the list of entries.
  unfoldable pub ideal_step : ℕ → List (K × V) → Call K V → Answer V × List (K × V)
  unfolding Recency.get Recency.put Recency.without Recency.find
  ideal_step capacity l (Call.get k) = (Answer.value (Recency.find k l), Recency.get k l)
  ideal_step capacity l (Call.put k v) = (Answer.done, Recency.put capacity k v l)
  ideal_step capacity l (Call.erase k) =
      (Answer.flag (is_some (Recency.find k l)), Recency.without k l)
  ideal_step capacity l (Call.contains k) = (Answer.flag (is_some (Recency.find k l)), l)
  ideal_step capacity l Call.clear = (Answer.done, [])

  unfoldable pub ideal_run : ℕ → List (K × V) → List (Call K V) → List (Answer V) × List (K × V)
  unfolding ideal_step
  ideal_run capacity l [] = ([], l)
  ideal_run capacity l (call ∷ calls) =
      let (answer, l') = ideal_step capacity l call in
      let (answers, l'') = ideal_run capacity l' calls in (answer ∷ answers, l'')

module _ {D K V : Type 0} ⦃floats : Floats D⦄ ⦃key : Key K⦄ where
  -- The constructor throws exactly for the capacity 0, and otherwise makes a valid empty cache.
  pub new-cases :
      (capacity : ℕ)
      → ((capacity ≡ 0) × (Lru.new {D = D} {K = K} {V = V} capacity ≡ err Fault.invalid_argument))
        ⊎ ((c : Cache D K V) × (0 < capacity)
            × (Lru.new capacity ≡ ok c)
            × (c.capacity ≡ capacity)
            × IsValid c
            × (view c ≡ []))
  unfolding Lru.new view entries item_of nodes_with keys_with
  new-cases capacity = elim (ℕ_discrete capacity 0) [
    | yes e ↦ inl (e, ground (arith, e))
    | no ne ↦
        let empty = new-Empty {D = D} {K = K} {V = ℕ} HashMap.default_bucket_count in
        inr (
          record {
            capacity = capacity;
            items = [];
            map = HashMap.new HashMap.default_bucket_count;
            next = 0;
          },
          omega arith,
          ground arith,
          refl,
          record {
            map = empty.valid;
            agrees = λ q. empty.reads q;
            distinct = record { nodes = λ node. omega arith; keys = λ k. omega arith };
            fresh = λ node h. refl;
            positive = omega arith;
            bounded = omega arith;
          },
          refl,
        )
  ]

  clear-IsValid : {c : Cache D K V} → IsValid c → IsValid (Lru.clear c)
  unfolding Lru.clear item_of nodes_with keys_with
  clear-IsValid {c} v =
      let empty = (clear-Empty v.map).0 in
      record {
        map = empty.valid;
        agrees = λ q. empty.reads q;
        distinct = record { nodes = λ node. omega arith; keys = λ k. omega arith };
        fresh = λ node h. refl;
        positive = v.positive;
        bounded = omega arith;
      }

  contains-find :
      {c : Cache D K V} (k : K)
      → IsValid c
      → Lru.contains c k ≡ ok (is_some (Recency.find k (view c)))
  unfolding Lru.contains view
  contains-find {c} k v = ground (
    arith,
    (readers-lookup k v.map).1,
    v.agrees k,
    find-entries k c.items,
    Option-cases (item_of k c.items),
  )

  -- One call does to a valid cache what it does to the list of its entries.
  abbrev Refines : Cache D K V → Call K V → Type 0
  Refines c call =
      (c' : Cache D K V) × (step c call ≡ ok ((ideal_step c.capacity (view c) call).0, c'))
      × IsValid c'
      × (c'.capacity ≡ c.capacity)
      × (view c' ≡ (ideal_step c.capacity (view c) call).1)

  step-Refines : {c : Cache D K V} (call : Call K V) → IsValid c → Refines c call
  unfolding step ideal_step Lru.clear view entries
  step-Refines {c} (Call.get k) v =
      let (c', e, v', keeps, seen) = get-refines k v in (c', rw (e, ◌>>=◌) refl, v', keeps, seen)
  step-Refines {c} (Call.put k w) v =
      let (c', e, v', keeps, seen) = put-refines k w v in (c', rw (e, ◌>>=◌) refl, v', keeps, seen)
  step-Refines {c} (Call.erase k) v =
      let (c', e, v', keeps, seen) = erase-refines k v in (c', rw (e, ◌>>=◌) refl, v', keeps, seen)
  step-Refines {c} (Call.contains k) v = (c, rw (contains-find k v, ◌>>=◌) refl, v, refl, refl)
  step-Refines {c} Call.clear v = (Lru.clear c, refl, clear-IsValid v, refl, refl)

  -- From any valid cache, every history of calls succeeds, gives the answers that the list of
  -- entries gives, and leaves a valid cache whose entries are those of the list.
  pub run-refines :
      {c : Cache D K V} (calls : List (Call K V))
      → IsValid c
      → (c' : Cache D K V) × (run c calls ≡ ok ((ideal_run c.capacity (view c) calls).0, c'))
        × IsValid c'
        × (c'.capacity ≡ c.capacity)
        × (view c' ≡ (ideal_run c.capacity (view c) calls).1)
  unfolding run ideal_run
  run-refines {c} [] v = (c, refl, v, refl, refl)
  run-refines {c} (call ∷ calls) v =
      let (c1, e, v1, keeps, seen) = step-Refines call v in
      let (c', e', v', keeps', seen') = run-refines {c = c1} calls v1 in
      (c', rw (e, ◌>>=◌, e', keeps, seen) refl, v', keeps' ∙ keeps, seen' ∙ rw (keeps, seen) refl)
