-- ===== src/Redis/Sections.antt =====
-- The critical sections of `KVStore` as steps, which the clients and the sweeper interleave.
use cpp_systems_playground.Prelude.{
  ℕ, ok, ◌≤◌, ◌≡◌, Option, none, some, List, [], ◌∷◌, ◌++◌, if◌then◌else◌,
}
use cpp_systems_playground.Redis
use cpp_systems_playground.Redis.{
  Text, Entry, Node, Store, new, assign, heap_push, deadline, entry_of, take_version,
  erase_if_expired, sweep_entry,
}

-- The node that `put` pushes for an entry.
abbrev pub node_of : Text → Entry → Node
node_of k e = record { expires = e.expires; version = e.version; key = k }

-- The data, the entries of the calls of `put` before their first critical section, the nodes of
-- those before their second one, and the node that the sweeper has popped, with the time that it read.
pub record Server : Type 0 where
  pub kv : Store
  pub writing : List (Text × Entry)
  pub pushing : List Node
  pub sweeping : Option (ℕ × Node)

unfoldable pub written : Server → Text → Entry → List (Text × Entry) → Server
written m k e rest = record m {
  kv = record (m.kv) { store = assign k e m.kv.store };
  writing = rest;
  pushing = if e.has_expiry then node_of k e ∷ m.pushing else m.pushing;
}

pub data Step (m : Server) : Server → Type 0 where
  begin :
      (now : ℕ) (k value : Text) (ttl exp : ℕ)
      → deadline now ttl ≡ ok exp
      → Step m (record m {
        kv = take_version m.kv;
        writing = (k, entry_of exp value ttl (take_version m.kv).version_counter) ∷ m.writing;
      })
  write :
      (xs ys : List (Text × Entry)) (k : Text) (e : Entry)
      → m.writing ≡ xs ++ ((k, e) ∷ ys)
      → Step m (written m k e (xs ++ ys))
  push :
      (xs ys : List Node) (n : Node)
      → m.pushing ≡ xs ++ (n ∷ ys)
      → Step m
          (record m { kv = record (m.kv) { heap = heap_push n m.kv.heap }; pushing = xs ++ ys })
  -- The second critical section of a `get` that found an expired entry.
  lazy_erase : (now : ℕ) (k : Text) → Step m (record m { kv = erase_if_expired m.kv now k })
  erase : (k : Text) → Step m (record m { kv = Redis.erase m.kv k })
  clear_store : Step m (record m { kv = Redis.clear_store m.kv })
  clear_heap : Step m (record m { kv = Redis.clear_heap m.kv })
  pop :
      (now : ℕ) (n : Node) (h : List Node)
      → m.sweeping ≡ none
      → m.kv.heap ≡ n ∷ h
      → n.expires ≤ now
      → Step m (record m { kv = record (m.kv) { heap = h }; sweeping = some (now, n) })
  sweep :
      (now : ℕ) (n : Node)
      → m.sweeping ≡ some (now, n)
      → Step m (record m { kv = sweep_entry m.kv now n; sweeping = none })

-- No entry has been written since the first section of a `clear`, at its second one.
abbrev pub Undisturbed : {m m' : Server} → Step m m' → Type 0
Undisturbed {m} (Step.clear_heap) = m.kv.store ≡ []
Undisturbed (Step.begin now k value ttl exp e) = Unit
Undisturbed (Step.write xs ys k e w) = Unit
Undisturbed (Step.push xs ys n w) = Unit
Undisturbed (Step.lazy_erase now k) = Unit
Undisturbed (Step.erase k) = Unit
Undisturbed (Step.clear_store) = Unit
Undisturbed (Step.pop now n h idle top passed) = Unit
Undisturbed (Step.sweep now n e) = Unit

-- The interleavings in which no entry is written between the two sections of a `clear`.
pub data Reach : Server → Type 0 where
  start : Reach (record { kv = new; writing = []; pushing = []; sweeping = none })
  next : {m m' : Server} → Reach m → (s : Step m m') → Undisturbed s → Reach m'
