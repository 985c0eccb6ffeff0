-- ===== src/ThreadPool.antt =====
-- thread_pool/include/thread_pool/work_stealing_thread_pool.hpp: `WorkStealingThreadPool`. A task is
-- named by a number; the front of a deque is the head of its list.
pub mod Threads
pub mod Conservation
pub mod Wakeup
pub mod Takes
pub mod Shutdown
pub mod Awake
pub mod Mutex
pub mod Stealing
use cpp_systems_playground.Prelude.{
  ℕ, zero, suc, ◌+◌, ◌-◌, ◌%◌, ◌^◌, Bool, true, false, Option, none, some, List, [], ◌∷◌, ◌++◌, ltb,
  ◌==◌, if◌then◌else◌, update,
}

pub record Pool : Type 0 where
  pub workers : ℕ
  pub tasks : ℕ → List ℕ
  pub next_worker : ℕ
  pub stop : Bool

-- The constructor: at least one worker, each with an empty deque.
unfoldable pub new : ℕ → Pool
new thread_count = record {
  workers = if thread_count == 0 then 1 else thread_count;
  tasks = λ i. [];
  next_worker = 0;
  stop = false;
}

abbrev pub thread_count : Pool → ℕ
thread_count p = p.workers

-- The counter is a `std::size_t`, which wraps round.
unfoldable pub enqueue_task : Pool → ℕ → Pool
enqueue_task p task =
    let idx = p.next_worker % p.workers in
    record p {
      next_worker = (p.next_worker + 1) % 2 ^ 64;
      tasks = update p.tasks idx (p.tasks idx ++ task ∷ []);
    }

-- `submit`: the call is wrapped as a task; its future is the standard library's.
unfoldable pub submit : Pool → ℕ → Pool
unfolding enqueue_task
submit p task = enqueue_task p task

-- The last element and what stands before it.
unfoldable pub unsnoc : List ℕ → Option (ℕ × List ℕ)
unsnoc [] = none
unsnoc (x ∷ xs) = elim (unsnoc xs) [ none ↦ some (x, []) | some (y, rest) ↦ some (y, x ∷ rest) ]

unfoldable pub try_pop_local : Pool → ℕ → Option (ℕ × Pool)
unfolding unsnoc
try_pop_local p index = elim (unsnoc (p.tasks index)) [
  | none ↦ none
  | some (task, rest) ↦ some (task, record p { tasks = update p.tasks index rest })
]

unfoldable pub uncons : List ℕ → Option (ℕ × List ℕ)
uncons [] = none
uncons (x ∷ xs) = some (x, xs)

-- One round of the loop of `try_steal`, at one victim.
unfoldable pub steal_from : Pool → ℕ → Option (ℕ × Pool)
unfolding uncons
steal_from p victim = elim (uncons (p.tasks victim)) [
  | none ↦ none
  | some (task, rest) ↦ some (task, record p { tasks = update p.tasks victim rest })
]

-- The loop of `try_steal`: the rounds left, and the offset.
unfoldable pub steal_loop : Pool → ℕ → ℕ → ℕ → Option (ℕ × Pool)
unfolding steal_from
steal_loop p self zero offset = none
steal_loop p self (suc rounds) offset =
    let rest = steal_loop p self rounds (offset + 1) in
    elim (steal_from p ((self + offset) % p.workers)) [ some r ↦ some r | none ↦ rest ]

unfoldable pub try_steal : Pool → ℕ → Option (ℕ × Pool)
unfolding steal_loop
try_steal p self = steal_loop p self (p.workers - 1) 1

-- The search at the top of `worker_loop`.
unfoldable pub find_task : Pool → ℕ → Option (ℕ × Pool)
unfolding try_pop_local try_steal
find_task p index = elim (try_pop_local p index) [ some r ↦ some r | none ↦ try_steal p index ]

unfoldable pub is_empty : List ℕ → Bool
is_empty [] = true
is_empty (x ∷ xs) = false

-- The loop of `has_work`: the rounds left, and the index.
unfoldable pub work_from : Pool → ℕ → ℕ → Bool
unfolding is_empty
work_from p zero i = false
work_from p (suc rounds) i =
    let rest = work_from p rounds (i + 1) in if is_empty (p.tasks i) then rest else true

unfoldable pub has_work : Pool → Bool
unfolding work_from
has_work p = work_from p p.workers 0
