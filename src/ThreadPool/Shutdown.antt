-- ===== src/ThreadPool/Shutdown.antt =====
-- The destructor of `WorkStealingThreadPool` and the tasks that are queued when it starts.
use native.Mathlib.Decide.{ℕ_discrete}
use cpp_systems_playground.Prelude.{
  ℕ, zero, suc, ◌+◌, ◌<◌, ◌≡◌, ◌≢◌, refl, subst, sym, ◌∙◌, ap, true, false, List, [], ◌∷◌, arith,
  update, update_self, update_ne, Bool-cases, occurs, inl, inr,
}
use cpp_systems_playground.Prelude.Totals.{total-eq-zero}
use cpp_systems_playground.ThreadPool.{Pool, enqueue_task, is_empty, work_from, has_work}
use cpp_systems_playground.ThreadPool.Threads.{Phase, Shared, Work, IsFree, Reach, wake_up}
use cpp_systems_playground.ThreadPool.Takes.{
  seen, seen-wake_up, Sees, Shrinks, closing, open-Sees, Work-Works, closing-wake_up,
}
use cpp_systems_playground.ThreadPool.Conservation.{runs, Reach-Accounted}

-- The histories in which no task is submitted once `stop_` is set.
pub data Shut (n : ℕ) : Shared → (ℕ → Phase) → Type 0 where
  set_stop :
      {m : Shared} {phase : ℕ → Phase}
      → Reach n m phase
      → m.stop ≡ false
      → IsFree m.workers phase
      → Shut n (record m { pool = record (m.pool) { stop = true } }) phase
  work :
      {m m' : Shared} {phase : ℕ → Phase} {f : Phase} (i : ℕ)
      → Shut n m phase
      → i < m.workers
      → (phase i ≡ Phase.lock → IsFree m.workers phase)
      → Work i m (phase i) m' f
      → Shut n m' (update phase i f)
  notify :
      {m : Shared} {phase : ℕ → Phase} (i k : ℕ)
      → Shut n m phase
      → m.notifications ≡ k + 1
      → i < m.workers
      → phase i ≡ Phase.waiting
      → Shut n (record m { notifications = k }) (update phase i Phase.lock)
  notify_nobody :
      {m : Shared} {phase : ℕ → Phase} (k : ℕ)
      → Shut n m phase
      → m.notifications ≡ k + 1
      → ((i : ℕ) → i < m.workers → phase i ≢ Phase.waiting)
      → Shut n (record m { notifications = k }) phase
  notify_all : {m : Shared} {phase : ℕ → Phase} → Shut n m phase → Shut n m (λ i. wake_up (phase i))

-- Only a pool that stops has workers that close.
Reach-closing :
    {n : ℕ} {m : Shared} {phase : ℕ → Phase}
    → Reach n m phase
    → (i : ℕ) → closing (phase i) ≡ true
    → m.stop ≡ true
unfolding enqueue_task
Reach-closing (Reach.start) i e = absurd (ground arith)
Reach-closing (Reach.work {phase = phase} {f = f} j r low turn w) i e =
    let works = Work-Works w in
    elim (ℕ_discrete j i) [
      | yes here ↦ elim (works.closes (ground arith)) [
        | inl stops ↦ works.shrinks.stop ∙ stops
        | inr closed ↦ works.shrinks.stop ∙ Reach-closing r j closed
      ]
      | no other ↦ works.shrinks.stop ∙ Reach-closing r i (ground arith)
    ]
Reach-closing (Reach.push task r) i e = Reach-closing r i e
Reach-closing (Reach.notify j k r a low asleep) i e = Reach-closing r i (ground arith)
Reach-closing (Reach.notify_nobody k r a nobody) i e = Reach-closing r i e
Reach-closing (Reach.set_stop r free) i e = refl
Reach-closing (Reach.notify_all {phase = phase} r a) i e =
    Reach-closing r i (sym (closing-wake_up (phase i)) ∙ e)

pub Shut-stop : {n : ℕ} {m : Shared} {phase : ℕ → Phase} → Shut n m phase → m.stop ≡ true
Shut-stop (Shut.set_stop r e free) = refl
Shut-stop (Shut.work i r low turn w) = (Work-Works w).shrinks.stop ∙ Shut-stop r
Shut-stop (Shut.notify i k r a low asleep) = Shut-stop r
Shut-stop (Shut.notify_nobody k r a nobody) = Shut-stop r
Shut-stop (Shut.notify_all r) = Shut-stop r

Shut-Reach : {n : ℕ} {m : Shared} {phase : ℕ → Phase} → Shut n m phase → Reach n m phase
Shut-Reach (Shut.set_stop r e free) = Reach.set_stop r free
Shut-Reach (Shut.work i r low turn w) = Reach.work i (Shut-Reach r) low turn w
Shut-Reach (Shut.notify i k r a low asleep) = Reach.notify i k (Shut-Reach r) a low asleep
Shut-Reach (Shut.notify_nobody k r a nobody) = Reach.notify_nobody k (Shut-Reach r) a nobody
Shut-Reach (Shut.notify_all r) = Reach.notify_all (Shut-Reach r) (Shut-stop r)

Shrinks-Sees : {p q : Pool} (f : Phase) → Shrinks p q → Sees p f → Sees q f
Shrinks-Sees {p} {q} f s see k a b =
    s.empty k (see k (subst (λ w. k < seen w f) s.workers a) (subst (λ w. k < w) s.workers b))

Shut-Sees :
    {n : ℕ} {m : Shared} {phase : ℕ → Phase} → Shut n m phase → (i : ℕ) → Sees m.pool (phase i)
Shut-Sees (Shut.set_stop {m = m} {phase = phase} r running free) i =
    open-Sees (record (m.pool) { stop = true }) (phase i)
      (elim (Bool-cases (closing (phase i))) [
        | inl closed ↦ absurd (ground (arith, running, Reach-closing r i closed))
        | inr other ↦ other
      ])
Shut-Sees (Shut.work {m' = m'} {phase = phase} {f = f} j r low turn w) i =
    let works = Work-Works w in
    elim (ℕ_discrete j i) [
      | yes here ↦
          subst (λ x. Sees m'.pool (update phase j f x)) here
            (subst (Sees m'.pool) (sym (update_self phase j f)) (works.sees (Shut-Sees r j)))
      | no other ↦
          subst (Sees m'.pool) (sym (update_ne phase j f i other))
            (Shrinks-Sees (phase i) works.shrinks (Shut-Sees r i))
    ]
Shut-Sees (Shut.notify {m = m} {phase = phase} j k r a low asleep) i = elim (ℕ_discrete j i) [
  | yes here ↦
      subst (λ x. Sees m.pool (update phase j Phase.lock x)) here
        (subst (Sees m.pool) (sym (update_self phase j Phase.lock))
          (open-Sees m.pool Phase.lock refl))
  | no other ↦ subst (Sees m.pool) (sym (update_ne phase j Phase.lock i other)) (Shut-Sees r i)
]
Shut-Sees (Shut.notify_nobody k r a nobody) i = Shut-Sees r i
Shut-Sees (Shut.notify_all {m = m} {phase = phase} r) i =
    λ k a b. Shut-Sees r i k (subst (λ x. k < x) (seen-wake_up m.workers (phase i)) a) b

pub all_empty :
    (p : Pool) (n i : ℕ)
    → ((k : ℕ) → k < i + n → is_empty (p.tasks k) ≡ true)
    → work_from p n i ≡ false
unfolding work_from
all_empty p zero i h = refl
all_empty p (suc n) i h = rw (h i (omega arith)) (all_empty p n (i + 1) (λ k a. h k (omega arith)))

-- If no task is submitted once `stop_` is set, then a worker exits only when every deque is empty,
-- and no deque is filled again.
pub Shut-has_work :
    {n : ℕ} {m : Shared} {phase : ℕ → Phase} (i : ℕ)
    → Shut n m phase
    → phase i ≡ Phase.exited
    → has_work m.pool ≡ false
unfolding has_work
Shut-has_work {n} {m} {phase} i r e =
    all_empty m.pool m.workers 0
      (λ k a. subst (Sees m.pool) e (Shut-Sees r i) k (omega arith) (omega arith))

occurs-is_empty : (t : ℕ) (l : List ℕ) → is_empty l ≡ true → occurs t l ≡ 0
unfolding is_empty
occurs-is_empty t [] e = refl
occurs-is_empty t (x ∷ l) e = cc

-- If no task is submitted once `stop_` is set, then after the threads are joined every task that was
-- submitted has been executed, exactly as often as it was submitted.
pub Shut-executed :
    {n : ℕ} {m : Shared} {phase : ℕ → Phase} (t : ℕ)
    → Shut n m phase
    → ((i : ℕ) → i < m.workers → phase i ≡ Phase.exited)
    → occurs t m.submitted ≡ occurs t m.executed
Shut-executed {n} {m} {phase} t r joined =
    let a = Reach-Accounted t (Shut-Reach r) in
    let empty : (k : ℕ) → k < m.workers → occurs t (m.tasks k) ≡ 0 = λ k low.
      occurs-is_empty t (m.tasks k)
        (subst (Sees m.pool) (joined k low) (Shut-Sees r k) k low low) in
    let idle : (k : ℕ) → k < m.workers → runs t (phase k) ≡ 0 =
      λ k low. ap (runs t) (joined k low) in
    omega (
      arith,
      a.balance,
      total-eq-zero (occurs t) m.tasks m.workers empty,
      total-eq-zero (runs t) phase m.workers idle,
    )
