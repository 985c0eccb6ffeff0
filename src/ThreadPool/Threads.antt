-- ===== src/ThreadPool/Threads.antt =====
-- The threads of `WorkStealingThreadPool`: `worker_loop`, `submit` and the destructor as steps. Each
-- critical section of a deque's mutex is one step, so the loops of `try_steal` and `has_work`, which
-- lock one deque after another, interleave with everything else. A worker holds `global_mutex_` while
-- it evaluates the predicate of its wait and from there until it leaves the rest of the round, and
-- gives it up while it is blocked; the destructor sets `stop_` while nobody holds it.
use cpp_systems_playground.Prelude.{
  ℕ, ◌+◌, ◌%◌, ◌≤◌, ◌<◌, ◌≡◌, ◌≢◌, Bool, true, false, none, some, List, [], ◌∷◌, update,
}
use cpp_systems_playground.ThreadPool.{Pool, new, enqueue_task, try_pop_local, steal_from, is_empty}

-- Where a worker stands in `worker_loop`.
pub data Phase : Type 0 where
  -- Before `try_pop_local`.
  top : Phase
  -- In the loop of `try_steal`, at an offset.
  steal : ℕ → Phase
  -- In `task()`.
  run : ℕ → Phase
  -- About to lock `global_mutex_`, before the wait or, woken up, inside it.
  lock : Phase
  -- In the predicate of the wait, at an index of the loop of `has_work`.
  scan : ℕ → Phase
  -- The predicate was false; the wait is about to block.
  decided : Phase
  -- Blocked.
  waiting : Phase
  -- Past the wait.
  woken : Phase
  -- In the second `has_work`, after `stop_` was seen.
  final : ℕ → Phase
  exited : Phase

-- The pool, the tasks that were submitted and executed so far, and the number of calls of
-- `enqueue_task` that have not reached `notify_one` yet.
pub record Shared : Type 0 where
  pub pool : Pool
  pub open pool use *
  pub submitted : List ℕ
  pub executed : List ℕ
  pub notifications : ℕ

-- A step of worker `i`.
pub data Work (i : ℕ) : Shared → Phase → Shared → Phase → Type 0 where
  pop_hit :
      {m : Shared} {task : ℕ} {p : Pool}
      → try_pop_local m.pool i ≡ some (task, p)
      → Work i m Phase.top (record m { pool = p }) (Phase.run task)
  pop_miss : {m : Shared} → try_pop_local m.pool i ≡ none → Work i m Phase.top m (Phase.steal 1)
  steal_hit :
      {m : Shared} {offset task : ℕ} {p : Pool}
      → offset < m.workers
      → steal_from m.pool ((i + offset) % m.workers) ≡ some (task, p)
      → Work i m (Phase.steal offset) (record m { pool = p }) (Phase.run task)
  steal_miss :
      {m : Shared} {offset : ℕ}
      → offset < m.workers
      → steal_from m.pool ((i + offset) % m.workers) ≡ none
      → Work i m (Phase.steal offset) m (Phase.steal (offset + 1))
  steal_end :
      {m : Shared} {offset : ℕ} → m.workers ≤ offset → Work i m (Phase.steal offset) m Phase.lock
  -- The mutex is locked and `stop_`, which is set only with the mutex, is read.
  acquire : {m : Shared} → m.stop ≡ false → Work i m Phase.lock m (Phase.scan 0)
  acquire_stop : {m : Shared} → m.stop ≡ true → Work i m Phase.lock m Phase.woken
  finish :
      {m : Shared} {task : ℕ}
      → Work i m (Phase.run task) (record m { executed = task ∷ m.executed }) Phase.top
  scan_hit :
      {m : Shared} {j : ℕ}
      → j < m.workers
      → is_empty (m.tasks j) ≡ false
      → Work i m (Phase.scan j) m Phase.woken
  scan_next :
      {m : Shared} {j : ℕ}
      → j < m.workers
      → is_empty (m.tasks j) ≡ true
      → Work i m (Phase.scan j) m (Phase.scan (j + 1))
  scan_end : {m : Shared} {j : ℕ} → m.workers ≤ j → Work i m (Phase.scan j) m Phase.decided
  block : {m : Shared} → Work i m Phase.decided m Phase.waiting
  -- A spurious wake-up.
  wake : {m : Shared} → Work i m Phase.waiting m Phase.lock
  resume : {m : Shared} → m.stop ≡ false → Work i m Phase.woken m Phase.top
  resume_stop : {m : Shared} → m.stop ≡ true → Work i m Phase.woken m (Phase.final 0)
  final_hit :
      {m : Shared} {j : ℕ}
      → j < m.workers
      → is_empty (m.tasks j) ≡ false
      → Work i m (Phase.final j) m Phase.top
  final_next :
      {m : Shared} {j : ℕ}
      → j < m.workers
      → is_empty (m.tasks j) ≡ true
      → Work i m (Phase.final j) m (Phase.final (j + 1))
  final_end : {m : Shared} {j : ℕ} → m.workers ≤ j → Work i m (Phase.final j) m Phase.exited

-- Whether a worker holds `global_mutex_`.
abbrev pub holds : Phase → Bool
holds (Phase.scan j) = true
holds Phase.decided = true
holds Phase.woken = true
holds (Phase.final j) = true
holds Phase.top = false
holds (Phase.steal k) = false
holds (Phase.run t) = false
holds Phase.lock = false
holds Phase.waiting = false
holds Phase.exited = false

-- No worker holds it.
abbrev pub IsFree : ℕ → (ℕ → Phase) → Type 0
IsFree workers phase = (j : ℕ) → j < workers → holds (phase j) ≡ false

-- `notify_all`
abbrev pub wake_up : Phase → Phase
wake_up Phase.waiting = Phase.lock
wake_up Phase.lock = Phase.lock
wake_up Phase.top = Phase.top
wake_up (Phase.steal k) = Phase.steal k
wake_up (Phase.run t) = Phase.run t
wake_up (Phase.scan j) = Phase.scan j
wake_up Phase.decided = Phase.decided
wake_up Phase.woken = Phase.woken
wake_up (Phase.final j) = Phase.final j
wake_up Phase.exited = Phase.exited

-- `enqueue_task` is two steps: the task, then `notify_one`, which wakes one blocked worker if there
-- is one. The destructor sets `stop_` and then calls `notify_all`.
pub data Reach (thread_count : ℕ) : Shared → (ℕ → Phase) → Type 0 where
  start :
      Reach thread_count
        (record { pool = new thread_count; submitted = []; executed = []; notifications = 0 })
        (λ i. Phase.top)
  work :
      {m m' : Shared} {phase : ℕ → Phase} {f : Phase} (i : ℕ)
      → Reach thread_count m phase
      → i < m.workers
      → (phase i ≡ Phase.lock → IsFree m.workers phase)
      → Work i m (phase i) m' f
      → Reach thread_count m' (update phase i f)
  push :
      {m : Shared} {phase : ℕ → Phase} (task : ℕ)
      → Reach thread_count m phase
      → Reach thread_count
          (record m {
            pool = enqueue_task m.pool task;
            submitted = task ∷ m.submitted;
            notifications = m.notifications + 1;
          })
          phase
  notify :
      {m : Shared} {phase : ℕ → Phase} (i n : ℕ)
      → Reach thread_count m phase
      → m.notifications ≡ n + 1
      → i < m.workers
      → phase i ≡ Phase.waiting
      → Reach thread_count (record m { notifications = n }) (update phase i Phase.lock)
  notify_nobody :
      {m : Shared} {phase : ℕ → Phase} (n : ℕ)
      → Reach thread_count m phase
      → m.notifications ≡ n + 1
      → ((i : ℕ) → i < m.workers → phase i ≢ Phase.waiting)
      → Reach thread_count (record m { notifications = n }) phase
  set_stop :
      {m : Shared} {phase : ℕ → Phase}
      → Reach thread_count m phase
      → IsFree m.workers phase
      → Reach thread_count (record m { pool = record (m.pool) { stop = true } }) phase
  notify_all :
      {m : Shared} {phase : ℕ → Phase}
      → Reach thread_count m phase
      → m.stop ≡ true
      → Reach thread_count m (λ i. wake_up (phase i))
