-- ===== src/Redis/Covered.antt =====
-- The nodes that `KVStore` keeps for the entries with a deadline, in every interleaving.
use cpp_systems_playground.Prelude.{
  ℕ, ◌≤◌, ◌≡◌, refl, sym, subst, false, Bool, ◌||◌, Option, none, some, List, [], ◌∷◌, ◌++◌, arith,
}
use cpp_systems_playground.Redis
use cpp_systems_playground.Redis.{
  Text, Entry, Node, Store, same, find, assign, remove, heap_push, entry_of, take_version,
  is_expired, erase_if_expired, sweep_entry,
}
use cpp_systems_playground.Redis.Order.{IsSorted, assign-IsSorted, remove-IsSorted, same_iff}
use cpp_systems_playground.Redis.Nodes.{
  same_node, has, has-heap_push, has_middle, IsRising, heap_push-IsRising,
}
use cpp_systems_playground.Redis.Sections.{node_of, Server, written, Step, Undisturbed, Reach}
use cpp_systems_playground.Redis.Covers.{
  Covers, Covers-remove, erase_if_expired-Covers, erase_if_expired-heap, written-Covers,
  sweep_entry-Covers, sweep_entry-heap,
}

abbrev pub popped : Node → Option (ℕ × Node) → Bool
popped n none = false
popped n (some (now, x)) = same_node x n

abbrev pub Due : Option (ℕ × Node) → Type 0
Due none = Unit
Due (some (now, n)) = n.expires ≤ now

abbrev pub kept : Server → Node → Bool
kept m n = has n m.kv.heap || (has n m.pushing || popped n m.sweeping)

-- The entries are in order and the heap too; the sweeper has popped only what is due; every entry with
-- a deadline has its node in the heap, or a `put` is about to push it, or the sweeper has popped it.
pub record IsCovered (m : Server) : Type 0 where
  pub sorted : IsSorted m.kv.store
  pub rising : IsRising m.kv.heap
  pub late : Due m.sweeping
  pub nodes : Covers (kept m) m.kv.store

module _ {m : Server} (c : IsCovered m) where
  write-IsCovered :
      (k : Text) (e : Entry) (rest : List (Text × Entry)) → IsCovered (written m k e rest)
  unfolding written has same_node
  write-IsCovered k e rest = record {
    sorted = assign-IsSorted k e m.kv.store c.sorted;
    rising = c.rising;
    late = c.late;
    nodes =
        written-Covers (kept m) (kept (written m k e rest)) k e m.kv.store
          (λ n h. ground (arith, h)) (λ h. ground (arith, h, same_iff k k)) c.nodes;
  }

  push-IsCovered :
      (xs ys : List Node) (n : Node)
      → m.pushing ≡ xs ++ (n ∷ ys)
      → IsCovered
          (record m { kv = record (m.kv) { heap = heap_push n m.kv.heap }; pushing = xs ++ ys })
  push-IsCovered xs ys n e = record {
    sorted = c.sorted;
    rising = heap_push-IsRising n m.kv.heap c.rising;
    late = c.late;
    nodes = λ k f there late. ground (
      arith,
      c.nodes k f there late,
      e,
      has-heap_push (node_of k f) n m.kv.heap,
      has_middle (node_of k f) n xs ys,
    );
  }

  pop-IsCovered :
      (now : ℕ) (n : Node) (h : List Node)
      → m.sweeping ≡ none
      → m.kv.heap ≡ n ∷ h
      → n.expires ≤ now
      → IsCovered (record m { kv = record (m.kv) { heap = h }; sweeping = some (now, n) })
  unfolding has
  pop-IsCovered now n h idle top passed = record {
    sorted = c.sorted;
    rising = (subst IsRising top c.rising).1;
    late = passed;
    nodes = λ k f there late. ground (arith, c.nodes k f there late, idle, top);
  }

  sweep-IsCovered :
      (now : ℕ) (n : Node)
      → m.sweeping ≡ some (now, n)
      → IsCovered (record m { kv = sweep_entry m.kv now n; sweeping = none })
  sweep-IsCovered now n e =
      let passed : n.expires ≤ now = subst Due e c.late in
      let rest : Node → Bool = λ x. has x m.kv.heap || has x m.pushing in
      let r =
        sweep_entry-Covers rest m.kv now n c.sorted passed
          (λ k f there late. ground (arith, c.nodes k f there late, e)) in
      record {
        sorted = r.0;
        rising = subst IsRising (sym (sweep_entry-heap m.kv now n)) c.rising;
        late = tt;
        nodes = λ k f there late. ground (arith, r.1 k f there late, sweep_entry-heap m.kv now n);
      }

  lazy_erase-IsCovered :
      (now : ℕ) (k : Text) → IsCovered (record m { kv = erase_if_expired m.kv now k })
  lazy_erase-IsCovered now k =
      let r = erase_if_expired-Covers (kept m) m.kv now k c.sorted c.nodes in
      record {
        sorted = r.0;
        rising = subst IsRising (sym (erase_if_expired-heap m.kv now k)) c.rising;
        late = c.late;
        nodes =
            λ q f there late. ground (arith, r.1 q f there late, erase_if_expired-heap m.kv now k);
      }

  erase-IsCovered : (k : Text) → IsCovered (record m { kv = Redis.erase m.kv k })
  unfolding Redis.erase
  erase-IsCovered k = record {
    sorted = remove-IsSorted k m.kv.store c.sorted;
    rising = c.rising;
    late = c.late;
    nodes = Covers-remove (kept m) k m.kv.store c.sorted c.nodes;
  }

-- No entry, no node.
emptied-IsCovered :
    {m : Server} → m.kv.store ≡ [] → IsRising m.kv.heap → Due m.sweeping → IsCovered m
unfolding find
emptied-IsCovered {m} e rising late = record {
  sorted = subst IsSorted (sym e) tt;
  rising = rising;
  late = late;
  nodes = λ k f there deadline. absurd (ground (arith, there, e));
}

Step-IsCovered : {m m' : Server} → IsCovered m → (s : Step m m') → Undisturbed s → IsCovered m'
unfolding take_version Redis.clear_store Redis.clear_heap
Step-IsCovered {m} c (Step.begin now k value ttl exp e) u = record {
  sorted = c.sorted;
  rising = c.rising;
  late = c.late;
  nodes = c.nodes;
}
Step-IsCovered {m} c (Step.write xs ys k e w) u = write-IsCovered c k e (xs ++ ys)
Step-IsCovered {m} c (Step.push xs ys n w) u = push-IsCovered c xs ys n w
Step-IsCovered {m} c (Step.lazy_erase now k) u = lazy_erase-IsCovered c now k
Step-IsCovered {m} c (Step.erase k) u = erase-IsCovered c k
Step-IsCovered {m} c Step.clear_store u = emptied-IsCovered refl c.rising c.late
Step-IsCovered {m} c Step.clear_heap e = emptied-IsCovered e tt c.late
Step-IsCovered {m} c (Step.pop now n h idle top passed) u = pop-IsCovered c now n h idle top passed
Step-IsCovered {m} c (Step.sweep now n e) u = sweep-IsCovered c now n e

-- However the critical sections of the clients and of the sweeper interleave, except for an entry
-- written between the two sections of a `clear`: the entries and the heap are in order, the sweeper has
-- popped only a node that is due, and every entry with a deadline has its node in the heap, or a `put`
-- is about to push it, or the sweeper has popped it.
pub Reach-IsCovered : {m : Server} → Reach m → IsCovered m
unfolding Redis.new
Reach-IsCovered Reach.start = emptied-IsCovered refl tt tt
Reach-IsCovered (Reach.next r s u) = Step-IsCovered (Reach-IsCovered r) s u
