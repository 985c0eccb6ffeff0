-- ===== src/Redis/Covers.antt =====
-- Nodes that cover the entries of `KVStore` with a deadline, and what keeps them so.
use cpp_systems_playground.Prelude.{
  ℕ, ◌≤◌, ◌≡◌, subst, true, Bool, ◌&&◌, ◌||◌, some, List, arith, Bool-cases, Option-cases, inl, inr,
  leb, ◌==◌,
}
use cpp_systems_playground.Redis.{
  Text, Entry, Node, Store, same, find, assign, remove, is_expired, erase_if_expired, sweep_entry,
}
use cpp_systems_playground.Redis.Order.{
  IsSorted, find-assign, find-remove, remove-IsSorted, same_iff,
}
use cpp_systems_playground.Redis.Nodes.{same_node}
use cpp_systems_playground.Redis.Sections.{node_of}

-- Every entry with a deadline has its node among the nodes.
abbrev pub Covers : (Node → Bool) → List (Text × Entry) → Type 0
Covers nodes store =
    (k : Text) (e : Entry)
    → find k store ≡ some e
    → e.has_expiry ≡ true
    → nodes (node_of k e) ≡ true

pub Covers-remove :
    (nodes : Node → Bool) (k : Text) (store : List (Text × Entry))
    → IsSorted store
    → Covers nodes store
    → Covers nodes (remove k store)
Covers-remove nodes k store s c q e =
    λ there has_deadline. c q e (ground (arith, find-remove k q store s, there)) has_deadline

pub erase_if_expired-Covers :
    (nodes : Node → Bool) (s : Store) (now : ℕ) (k : Text)
    → IsSorted s.store
    → Covers nodes s.store
    → IsSorted (erase_if_expired s now k).store × Covers nodes (erase_if_expired s now k).store
unfolding erase_if_expired
erase_if_expired-Covers nodes s now k sorted c = elim (Option-cases (find k s.store)) [
  | inl absent ↦ rw (absent, erase_if_expired) (sorted, c)
  | inr (e, found) ↦ elim (Bool-cases (is_expired e now)) [
    | inl gone ↦
        rw (found, erase_if_expired, gone)
          (remove-IsSorted k s.store sorted, Covers-remove nodes k s.store sorted c)
    | inr fresh ↦ rw (found, erase_if_expired, fresh) (sorted, c)
  ]
]

pub erase_if_expired-heap :
    (s : Store) (now : ℕ) (k : Text) → (erase_if_expired s now k).heap ≡ s.heap
unfolding erase_if_expired
erase_if_expired-heap s now k = ground arith

pub sweep_entry-heap : (s : Store) (now : ℕ) (n : Node) → (sweep_entry s now n).heap ≡ s.heap
unfolding sweep_entry
sweep_entry-heap s now n = ground arith

-- An entry is written with its node.
pub written-Covers :
    (nodes nodes' : Node → Bool) (k : Text) (e : Entry) (store : List (Text × Entry))
    → ((n : Node) → nodes n ≡ true → nodes' n ≡ true)
    → (e.has_expiry ≡ true → nodes' (node_of k e) ≡ true)
    → Covers nodes store
    → Covers nodes' (assign k e store)
written-Covers nodes nodes' k e store more new c q f found late = elim (Bool-cases (same k q)) [
  | inl here ↦
      let at : k ≡ q = (same_iff k q).0 here in
      let put : some e ≡ some f = ground (arith, find-assign k q e store, found, here) in
      let what : e ≡ f = ground arith in
      let has_deadline : e.has_expiry ≡ true = ground (arith, what, late) in
      subst (λ (x : Text × Entry). nodes' (node_of x.0 x.1) ≡ true) (λ i. (at i, what i))
        (new has_deadline)
  | inr other ↦
      more (node_of q f) (c q f (ground (arith, find-assign k q e store, found, other)) late)
]

-- The sweeper removes the entry of the node that it has popped, if there is one.
pub sweep_entry-Covers :
    (rest : Node → Bool) (s : Store) (now : ℕ) (n : Node)
    → IsSorted s.store
    → n.expires ≤ now
    → Covers (λ x. rest x || same_node n x) s.store
    → IsSorted (sweep_entry s now n).store × Covers rest (sweep_entry s now n).store
unfolding sweep_entry same_node
sweep_entry-Covers rest s now n sorted late c = elim (Option-cases (find n.key s.store)) [
  | inl absent ↦
      rw (absent, sweep_entry)
        (
          sorted,
          λ k e there has_deadline. ground (arith, c k e there has_deadline, same_iff n.key k),
        )
  | inr (e0, found) ↦
      elim (Bool-cases (e0.has_expiry && (leb e0.expires now && e0.version == n.version))) [
        | inl gone ↦
            rw (found, sweep_entry, gone)
              (
                remove-IsSorted n.key s.store sorted,
                λ k e there has_deadline. ground (arith, c k e, find-remove n.key k s.store sorted),
              )
        | inr stays ↦
            rw (found, sweep_entry, stays)
              (
                sorted,
                λ k e there has_deadline.
                    ground (arith, c k e there has_deadline, same_iff n.key k),
              )
      ]
]
