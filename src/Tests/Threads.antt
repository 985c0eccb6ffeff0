-- ===== src/Tests/Threads.antt =====
-- `WorkStealingThreadPool` with one worker.
use cpp_systems_playground.Prelude.{
  ◌⊎◌, none, some, false, ℕ, ◌∷◌, occurs, ◌≡◌, ◌≢◌, ◌<◌, refl, Bool, true, [], arith, update,
}
use cpp_systems_playground.ThreadPool.{
  find_task, Pool, new, enqueue_task, has_work, try_pop_local, unsnoc, is_empty,
}
use cpp_systems_playground.ThreadPool.Threads.{Phase, Shared, Work, Reach}
use cpp_systems_playground.ThreadPool.Conservation.{Accounted, Reach-Accounted}
use cpp_systems_playground.ThreadPool.Stealing.{Found, find_task-cases}
use cpp_systems_playground.ThreadPool.Wakeup.{lost_wakeup}
use cpp_systems_playground.ThreadPool.Shutdown.{Shut, Shut-executed}

abbrev quiet : Shared
quiet = record { pool = new 1; submitted = []; executed = []; notifications = 0 }

abbrev at_start : ℕ → Phase
at_start = λ i. Phase.top

abbrev deciding : ℕ → Phase
deciding =
    update
      (update (update (update (update at_start 0 (Phase.steal 1)) 0 Phase.lock) 0 (Phase.scan 0)) 0
        (Phase.scan 1))
      0 Phase.decided

abbrev is_lock : Phase → Bool
is_lock Phase.lock = true
is_lock Phase.top = false
is_lock (Phase.steal k) = false
is_lock (Phase.run t) = false
is_lock (Phase.scan j) = false
is_lock Phase.decided = false
is_lock Phase.waiting = false
is_lock Phase.woken = false
is_lock (Phase.final j) = false
is_lock Phase.exited = false

-- A worker that is not about to lock needs nobody's leave.
unlocked : {f : Phase} {A : Type 0} → is_lock f ≡ false → f ≡ Phase.lock → A
unlocked h e = absurd (cc)

decides : Reach 1 quiet deciding
unfolding new try_pop_local unsnoc is_empty
decides =
    Reach.work 0
      (Reach.work 0
        (Reach.work 0
          (Reach.work 0
            (Reach.work 0 Reach.start (omega arith) (unlocked refl) (Work.pop_miss refl))
            (omega arith) (unlocked refl) (Work.steal_end (omega arith)))
          (omega arith) (λ e j low. ground arith) (Work.acquire refl))
        (omega arith) (unlocked refl) (Work.scan_next (omega arith) refl))
      (omega arith) (unlocked refl) (Work.scan_end (omega arith))

nobody : (j : ℕ) → j < quiet.workers → deciding j ≢ Phase.waiting
unfolding new
nobody j low = ground arith

Reach-Accounted_example : Accounted 7 quiet deciding
Reach-Accounted_example = Reach-Accounted 7 decides

one_worker : 0 < quiet.workers
unfolding new
one_worker = omega arith

lost_wakeup_example :
    (m' : Shared) × (phase' : ℕ → Phase) × Reach 1 m' phase'
    × (phase' 0 ≡ Phase.waiting)
    × (has_work m'.pool ≡ true)
    × (m'.notifications ≡ 0)
lost_wakeup_example = lost_wakeup 0 7 decides one_worker one_worker refl nobody refl

-- One task is submitted and executed, and the worker goes back to its wait.
abbrev queued_one : Shared
queued_one = record quiet {
  pool = enqueue_task quiet.pool 5;
  submitted = 5 ∷ [];
  notifications = 0;
}

abbrev emptied : Pool
emptied = record (queued_one.pool) { tasks = update queued_one.pool.tasks 0 [] }

abbrev worked : Shared
worked = record queued_one { pool = emptied; executed = 5 ∷ [] }

abbrev scanning : ℕ → Phase
scanning =
    update (update (update (update at_start 0 (Phase.run 5)) 0 Phase.top) 0 (Phase.steal 1)) 0
      Phase.lock

awake : (j : ℕ) → j < quiet.workers → at_start j ≢ Phase.waiting
awake j low = ground arith

works : Reach 1 worked scanning
unfolding new enqueue_task try_pop_local unsnoc is_empty
works =
    Reach.work 0
      (Reach.work 0
        (Reach.work 0
          (Reach.work 0 (Reach.notify_nobody 0 (Reach.push 5 Reach.start) refl awake) (omega arith)
            (unlocked refl) (Work.pop_hit refl))
          (omega arith) (unlocked refl) Work.finish)
        (omega arith) (unlocked refl) (Work.pop_miss refl))
      (omega arith) (unlocked refl) (Work.steal_end (omega arith))

abbrev stopped : Shared
stopped = record worked { pool = record emptied { stop = true } }

abbrev gone : ℕ → Phase
gone =
    update (update (update (update scanning 0 Phase.woken) 0 (Phase.final 0)) 0 (Phase.final 1)) 0
      Phase.exited

shuts : Shut 1 stopped gone
unfolding new enqueue_task is_empty
shuts =
    Shut.work 0
      (Shut.work 0
        (Shut.work 0
          (Shut.work 0 (Shut.set_stop works refl (λ j low. ground arith)) (omega arith)
            (λ e j low. ground arith) (Work.acquire_stop refl))
          (omega arith) (unlocked refl) (Work.resume_stop refl))
        (omega arith) (unlocked refl) (Work.final_next (omega arith) refl))
      (omega arith) (unlocked refl) (Work.final_end (omega arith))

joined : (i : ℕ) → i < stopped.workers → gone i ≡ Phase.exited
unfolding new enqueue_task
joined i low = ground arith

Shut-executed_example : occurs 5 (5 ∷ []) ≡ occurs 5 (5 ∷ [])
Shut-executed_example = Shut-executed 5 shuts joined

-- Two workers, with a task in the deque of the first.
abbrev two_workers : Pool
two_workers = enqueue_task (new 2) 5

second : 1 < two_workers.workers
unfolding new enqueue_task
second = omega arith

find_task-cases_example :
    ((find_task two_workers 1 ≡ none) × (has_work two_workers ≡ false))
    ⊎ ((task : ℕ) × (q : Pool) × (find_task two_workers 1 ≡ some (task, q))
        × Found two_workers task q)
find_task-cases_example = find_task-cases two_workers 1 second
