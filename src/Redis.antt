-- ===== src/Redis.antt =====
-- in_memory_redis/src/redis.cpp and its header: `KVStore`, one critical section at a time. The time
-- that `Clock::now()` returned is an argument; a text is the list of its bytes.
pub mod Order
pub mod Visible
pub mod Prefix
pub mod Sections
pub mod Nodes
pub mod Covers
pub mod Covered
pub mod Sweeper
use cpp_systems_playground.Prelude.{
  ℕ, Outcome, ok, err, Fault, ◌>>=◌, zero, suc, ◌+◌, ◌-◌, ◌%◌, ◌^◌, Bool, true, false, ◌&&◌, ◌||◌,
  not, Option, none, some, List, [], ◌∷◌, ◌++◌, length, ltb, leb, ◌==◌, if◌then◌else◌,
}

abbrev pub Text : Type 0
Text = List ℕ

pub record Entry : Type 0 where
  pub value : Text
  pub expires : ℕ
  pub version : ℕ
  pub has_expiry : Bool

pub record Node : Type 0 where
  pub expires : ℕ
  pub version : ℕ
  pub key : Text

-- `store_` in the order of its keys, and `heap_` from its top: `std::priority_queue` with
-- `std::greater` hands out its nodes in rising order.
pub record Store : Type 0 where
  pub store : List (Text × Entry)
  pub heap : List Node
  pub version_counter : ℕ

-- The constructor.
unfoldable pub new : Store
new = record { store = []; heap = []; version_counter = 0 }

-- `operator<` and `operator==` on `std::string`.
unfoldable pub less : Text → Text → Bool
less k [] = false
less [] (b ∷ l) = true
less (a ∷ k) (b ∷ l) = ltb a b || (a == b && less k l)

unfoldable pub same : Text → Text → Bool
same [] [] = true
same [] (b ∷ l) = false
same (a ∷ k) [] = false
same (a ∷ k) (b ∷ l) = a == b && same k l

unfoldable pub find : Text → List (Text × Entry) → Option Entry
unfolding same
find k [] = none
find k ((j, e) ∷ m) = if same j k then some e else find k m

-- `store_[key]` with all four fields assigned.
unfoldable pub assign : Text → Entry → List (Text × Entry) → List (Text × Entry)
unfolding same less
assign k e [] = (k, e) ∷ []
assign k e ((j, f) ∷ m) =
    if same j k then (j, e) ∷ m else if less k j then (k, e) ∷ (j, f) ∷ m else (j, f) ∷ assign k e m

unfoldable pub remove : Text → List (Text × Entry) → List (Text × Entry)
unfolding same
remove k [] = []
remove k ((j, e) ∷ m) = if same j k then m else (j, e) ∷ remove k m

-- `Node::operator>`
unfoldable pub greater : Node → Node → Bool
greater a b = if a.expires == b.expires then ltb b.version a.version else ltb b.expires a.expires

unfoldable pub heap_push : Node → List Node → List Node
unfolding greater
heap_push n [] = n ∷ []
heap_push n (x ∷ h) = if greater n x then x ∷ heap_push n h else n ∷ x ∷ h

unfoldable pub is_expired : Entry → ℕ → Bool
is_expired e now = e.has_expiry && leb e.expires now

-- The deadline that `put` computes. A `ttl` that is not positive is 0. Times are ticks of the clock,
-- which counts them in a signed word of 64 bits: a sum beyond it is undefined.
unfoldable pub deadline : ℕ → ℕ → Outcome ℕ
deadline now ttl =
    if ltb 0 ttl
    then if ltb (now + ttl) (2 ^ 63) then ok (now + ttl) else err Fault.undefined
    else ok 0

-- What `put` stores.
unfoldable pub entry_of : ℕ → Text → ℕ → ℕ → Entry
entry_of exp value ttl version =
    let has_ttl = ltb 0 ttl in
    record { value = value; expires = exp; version = version; has_expiry = has_ttl }

-- The step of the version counter.
unfoldable pub take_version : Store → Store
take_version s = record s { version_counter = (s.version_counter + 1) % 2 ^ 64 }

-- `put` from the step of the version counter up to the end of its first critical section.
unfoldable pub put_store : Store → ℕ → Text → Text → ℕ → Store
unfolding assign entry_of take_version
put_store s exp key value ttl =
    let s' = take_version s in
    record s' { store = assign key (entry_of exp value ttl s'.version_counter) s'.store }

-- The second one, for the version that the first one took.
unfoldable pub put_heap : Store → ℕ → Text → ℕ → ℕ → Store
unfolding heap_push
put_heap s exp key ttl version =
    if ltb 0 ttl
    then record s {
      heap = heap_push (record { expires = exp; version = version; key = key }) s.heap;
    }
    else s

-- `put` with nothing in between.
unfoldable pub put : Store → ℕ → Text → Text → ℕ → Outcome Store
unfolding deadline put_store put_heap
put s now key value ttl = do
  exp ← deadline now ttl
  let s' = put_store s exp key value ttl
  ok (put_heap s' exp key ttl s'.version_counter)

unfoldable pub erase_if_expired : Store → ℕ → Text → Store
unfolding find is_expired remove
erase_if_expired s now key = elim (find key s.store) [
  | none ↦ s
  | some e ↦ if is_expired e now then record s { store = remove key s.store } else s
]

-- An expired entry is erased; the answer is then nothing.
unfoldable pub get : Store → ℕ → Text → Option Text × Store
unfolding find is_expired erase_if_expired
get s now key = elim (find key s.store) [
  | none ↦ (none, s)
  | some e ↦ if is_expired e now then (none, erase_if_expired s now key) else (some e.value, s)
]

unfoldable pub erase : Store → Text → Store
unfolding remove
erase s key = record s { store = remove key s.store }

unfoldable pub size : Store → ℕ
size s = length s.store

-- The two critical sections of `clear`.
unfoldable pub clear_store : Store → Store
clear_store s = record s { store = [] }

unfoldable pub clear_heap : Store → Store
clear_heap s = record s { heap = [] }

unfoldable pub clear : Store → Store
unfolding clear_store clear_heap
clear s = clear_heap (clear_store s)

-- The loop of `nextPrefix`, which runs from the back: the last byte that is not 0xFF
-- goes up by one, and the bytes behind it are dropped.
unfoldable pub bump : Text → Text
bump [] = []
bump (b ∷ l) = elim (bump l) [ [] ↦ if b == 0xff then [] else (b + 1) ∷ [] | c ∷ r ↦ b ∷ c ∷ r ]

unfoldable pub next_prefix : Text → Text
unfolding bump
next_prefix p = bump p

-- `store_.lower_bound(prefix)`
unfoldable pub lower_bound : Text → List (Text × Entry) → List (Text × Entry)
unfolding less
lower_bound p [] = []
lower_bound p ((j, e) ∷ m) = if less j p then lower_bound p m else (j, e) ∷ m

unfoldable pub is_empty : Text → Bool
is_empty [] = true
is_empty (b ∷ l) = false

-- The loop of `prefix_get`, with the number of results so far.
unfoldable pub collect : ℕ → Text → ℕ → ℕ → List (Text × Entry) → List (Text × Text)
unfolding less is_expired is_empty
collect now hi limit n [] = []
collect now hi limit n ((j, e) ∷ m) =
    let skipped = collect now hi limit n m in
    let more = collect now hi limit (n + 1) m in
    if is_empty hi || less j hi
    then if is_expired e now
      then skipped
      else if ltb 0 limit && leb limit (n + 1)
      then (j, e.value) ∷ []
      else (j, e.value) ∷ more
    else []

unfoldable pub prefix_get : Store → ℕ → Text → ℕ → List (Text × Text)
unfolding lower_bound next_prefix collect
prefix_get s now prefix limit =
    collect now (next_prefix prefix) limit 0 (lower_bound prefix s.store)

-- The erasure in `sweepLoop`: only an entry with a deadline that has passed, of the node's version.
unfoldable pub sweep_entry : Store → ℕ → Node → Store
unfolding find remove
sweep_entry s now n = elim (find n.key s.store) [
  | none ↦ s
  | some e ↦
      if e.has_expiry && (leb e.expires now && e.version == n.version)
      then record s { store = remove n.key s.store }
      else s
]

-- What a round of `sweepLoop` does before it waits: `none` if nothing is due.
unfoldable pub sweep_from : Store → ℕ → List Node → Option Store
unfolding sweep_entry
sweep_from s now [] = none
sweep_from s now (n ∷ h) =
    if leb n.expires now then some (sweep_entry (record s { heap = h }) now n) else none

unfoldable pub sweep : Store → ℕ → Option Store
unfolding sweep_from
sweep s now = sweep_from s now s.heap
