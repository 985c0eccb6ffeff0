-- ===== src/ThreadPool/Wakeup.antt =====
-- The call of `notify_one` in `enqueue_task`, which does not hold the global mutex, and the wait of a
-- worker.
use cpp_systems_playground.Prelude.{
  ℕ, zero, suc, ◌+◌, ◌%◌, ◌≤◌, ◌<◌, ◌≡◌, refl, ap, ◌∙◌, ◌≢◌, true, false, List, [], ◌∷◌, ◌++◌,
  arith, update, update_self,
}
use native.Mathlib.Decide.{ℕ_discrete}
use native.Mathlib.Nat.{mod-lt}
use cpp_systems_playground.ThreadPool.{Pool, enqueue_task, is_empty, work_from, has_work}
use cpp_systems_playground.ThreadPool.Threads.{Phase, Shared, Work, Reach}

-- The loop of `has_work` finds a deque that is not empty.
pub work_from-nonempty :
    (p : Pool) (n i j : ℕ)
    → i ≤ j
    → j < i + n
    → is_empty (p.tasks j) ≡ false
    → work_from p n i ≡ true
unfolding work_from
work_from-nonempty p zero i j a b e = absurd (omega arith)
work_from-nonempty p (suc n) i j a b e = elim (ℕ_discrete i j) [
  | yes here ↦ ground arith
  | no later ↦ ground (arith, work_from-nonempty p n (i + 1) j)
]

append-nonempty : (l : List ℕ) (x : ℕ) → is_empty (l ++ x ∷ []) ≡ false
unfolding is_empty
append-nonempty [] x = refl
append-nonempty (y ∷ l) x = refl

-- A submitted task is work.
pub has_work-enqueue_task :
    (p : Pool) (task : ℕ) → 0 < p.workers → has_work (enqueue_task p task) ≡ true
unfolding has_work enqueue_task
has_work-enqueue_task p task pos =
    let i = p.next_worker % p.workers in
    let added = p.tasks i ++ task ∷ [] in
    work_from-nonempty (enqueue_task p task) p.workers 0 i (omega arith)
      (omega (arith, mod-lt p.next_worker pos))
      (ap is_empty (update_self p.tasks i added) ∙ append-nonempty (p.tasks i) task)

-- From every reachable state in which worker `i`, holding the mutex, has seen no work and is about to block, while no
-- worker is blocked and no notification is on its way, a `submit` can lead to a state in which the
-- worker is blocked, a task is queued, and no notification is on its way.
pub lost_wakeup :
    {n : ℕ} {m : Shared} {phase : ℕ → Phase} (i task : ℕ)
    → Reach n m phase
    → 0 < m.workers
    → i < m.workers
    → phase i ≡ Phase.decided
    → ((j : ℕ) → j < m.workers → phase j ≢ Phase.waiting)
    → m.notifications ≡ 0
    → (m' : Shared) × (phase' : ℕ → Phase) × Reach n m' phase'
      × (phase' i ≡ Phase.waiting)
      × (has_work m'.pool ≡ true)
      × (m'.notifications ≡ 0)
lost_wakeup {n} {m} {phase} i task r pos low about nobody quiet =
    let after : Shared = record m {
      pool = enqueue_task m.pool task;
      submitted = task ∷ m.submitted;
      notifications = 0;
    } in
    let silent : Reach n after phase =
      Reach.notify_nobody 0 (Reach.push task r) (omega arith) (unfold enqueue_task in nobody) in
    let block : Work i after (phase i) after Phase.waiting = rw about Work.block in
    (
      after,
      update phase i Phase.waiting,
      Reach.work i silent (unfold enqueue_task in low) (λ e. absurd (ground (arith, about, e)))
          block,
      update_self phase i Phase.waiting,
      has_work-enqueue_task m.pool task pos,
      refl,
    )
