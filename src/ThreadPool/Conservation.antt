-- ===== src/ThreadPool/Conservation.antt =====
-- Where the tasks of `WorkStealingThreadPool` are: queued, running or executed.
use cpp_systems_playground.Prelude.{
  ℕ, ◌+◌, ◌%◌, ◌<◌, ◌≡◌, refl, ap, none, some, List, [], ◌∷◌, ◌++◌, arith, occurs, occurs-append,
  if◌then◌else◌, ◌==◌, Option-cases, inl, inr,
}
use cpp_systems_playground.Prelude.Totals.{total, total-update, total-cong, total-zero}
use native.Mathlib.Nat.{mod-lt}
use cpp_systems_playground.ThreadPool.{
  Pool, new, enqueue_task, unsnoc, uncons, try_pop_local, steal_from,
}
use cpp_systems_playground.ThreadPool.Threads.{Phase, Shared, Work, Reach, wake_up}

module _ (t : ℕ) where
  -- Whether a worker runs the task.
  abbrev pub runs : Phase → ℕ
  runs (Phase.run task) = if task == t then 1 else 0
  runs Phase.top = 0
  runs (Phase.steal k) = 0
  runs (Phase.scan j) = 0
  runs Phase.decided = 0
  runs Phase.waiting = 0
  runs Phase.lock = 0
  runs Phase.woken = 0
  runs (Phase.final j) = 0
  runs Phase.exited = 0

  abbrev pub queued : Pool → ℕ
  queued p = total (occurs t) p.tasks p.workers

  unsnoc-none : (l : List ℕ) → unsnoc l ≡ none → occurs t l ≡ 0
  unfolding unsnoc
  unsnoc-none [] e = refl
  unsnoc-none (y ∷ l) e = elim (Option-cases (unsnoc l)) [
    | inl h ↦ ground (arith, h)
    | inr (p, h) ↦ ground (arith, h)
  ]

  unsnoc-occurs :
      (l : List ℕ) (x : ℕ) (rest : List ℕ)
      → unsnoc l ≡ some (x, rest)
      → occurs t l ≡ occurs t rest + (if x == t then 1 else 0)
  unfolding unsnoc
  unsnoc-occurs [] x rest e = cc
  unsnoc-occurs (y ∷ l) x rest e = elim (Option-cases (unsnoc l)) [
    | inl h ↦ ground (arith, h, unsnoc-none l h)
    | inr ((z, r), h) ↦ ground (arith, unsnoc-occurs l z r h)
  ]

  pub pop-queued :
      (p q : Pool) (i task : ℕ)
      → i < p.workers
      → try_pop_local p i ≡ some (task, q)
      → (q.workers ≡ p.workers) × (queued p ≡ queued q + (if task == t then 1 else 0))
  unfolding try_pop_local
  pop-queued p q i task low e = elim (Option-cases (unsnoc (p.tasks i))) [
    | inl h ↦ ground (arith, h)
    | inr ((z, r), h) ↦
        ground
          (arith, h, unsnoc-occurs (p.tasks i) z r h, total-update (occurs t) p.tasks i p.workers r)
  ]

  uncons-occurs :
      (l : List ℕ) (x : ℕ) (rest : List ℕ)
      → uncons l ≡ some (x, rest)
      → occurs t l ≡ occurs t rest + (if x == t then 1 else 0)
  unfolding uncons
  uncons-occurs [] x rest e = cc
  uncons-occurs (y ∷ l) x rest e = ground arith

  pub steal-queued :
      (p q : Pool) (i task : ℕ)
      → i < p.workers
      → steal_from p i ≡ some (task, q)
      → (q.workers ≡ p.workers) × (queued p ≡ queued q + (if task == t then 1 else 0))
  unfolding steal_from
  steal-queued p q i task low e = elim (Option-cases (uncons (p.tasks i))) [
    | inl h ↦ ground (arith, h)
    | inr ((z, r), h) ↦
        ground
          (arith, h, uncons-occurs (p.tasks i) z r h, total-update (occurs t) p.tasks i p.workers r)
  ]

  enqueue-queued :
      (p : Pool) (task : ℕ)
      → 0 < p.workers
      → ((enqueue_task p task).workers ≡ p.workers)
        × (queued (enqueue_task p task) ≡ queued p + (if task == t then 1 else 0))
  unfolding enqueue_task
  enqueue-queued p task pos =
      let i = p.next_worker % p.workers in
      let low : i < p.workers = mod-lt p.next_worker pos in
      (
        refl,
        ground (
          arith,
          low,
          total-update (occurs t) p.tasks i p.workers (p.tasks i ++ task ∷ []),
          occurs-append t (p.tasks i) (task ∷ []),
        ),
      )

  -- What a step of a worker does to the task.
  Work-counts :
      {i : ℕ} {m m' : Shared} {f f' : Phase}
      → Work i m f m' f'
      → 0 < m.workers
      → i < m.workers
      → (m'.workers ≡ m.workers)
        × (m'.submitted ≡ m.submitted)
        × (occurs t m.executed + queued m.pool + runs f
            ≡ occurs t m'.executed + queued m'.pool + runs f')
  Work-counts {i} {m} (Work.pop_hit {task = task} {p = p} e) pos low =
      ground (arith, pop-queued m.pool p i task low e)
  Work-counts {i} {m} (Work.steal_hit {offset = k} {task = task} {p = p} h e) pos low =
      ground (arith, steal-queued m.pool p ((i + k) % m.workers) task (mod-lt (i + k) pos) e)
  Work-counts (Work.finish) pos low = (refl, refl, omega arith)
  Work-counts (Work.pop_miss e) pos low = (refl, refl, refl)
  Work-counts (Work.steal_miss h e) pos low = (refl, refl, refl)
  Work-counts (Work.steal_end h) pos low = (refl, refl, refl)
  Work-counts (Work.acquire_stop h) pos low = (refl, refl, refl)
  Work-counts (Work.scan_hit h e) pos low = (refl, refl, refl)
  Work-counts (Work.scan_next h e) pos low = (refl, refl, refl)
  Work-counts (Work.scan_end h) pos low = (refl, refl, refl)
  Work-counts (Work.acquire h) pos low = (refl, refl, refl)
  Work-counts (Work.block) pos low = (refl, refl, refl)
  Work-counts (Work.wake) pos low = (refl, refl, refl)
  Work-counts (Work.resume h) pos low = (refl, refl, refl)
  Work-counts (Work.resume_stop h) pos low = (refl, refl, refl)
  Work-counts (Work.final_hit h e) pos low = (refl, refl, refl)
  Work-counts (Work.final_next h e) pos low = (refl, refl, refl)
  Work-counts (Work.final_end h) pos low = (refl, refl, refl)

  -- Where the submitted copies of the task are.
  pub record Accounted (m : Shared) (phase : ℕ → Phase) : Type 0 where
    pub nonempty : 0 < m.workers
    pub balance :
        occurs t m.submitted ≡ occurs t m.executed + queued m.pool + total runs phase m.workers

  runs-wake_up : (f : Phase) → runs f ≡ runs (wake_up f)
  runs-wake_up (Phase.waiting) = refl
  runs-wake_up (Phase.lock) = refl
  runs-wake_up (Phase.top) = refl
  runs-wake_up (Phase.steal k) = refl
  runs-wake_up (Phase.run task) = refl
  runs-wake_up (Phase.scan j) = refl
  runs-wake_up (Phase.decided) = refl
  runs-wake_up (Phase.woken) = refl
  runs-wake_up (Phase.final j) = refl
  runs-wake_up (Phase.exited) = refl

  -- In every interleaving of the workers, of any number of submitting threads and of the
  -- destructor, a task has been submitted exactly as often as it is executed, running or queued.
  pub Reach-Accounted :
      {n : ℕ} {m : Shared} {phase : ℕ → Phase} → Reach n m phase → Accounted m phase
  unfolding new
  Reach-Accounted {n} (Reach.start) = record {
    nonempty = ground arith;
    balance = ground (
      arith,
      total-zero (occurs t) [] (new n).workers refl,
      total-zero runs Phase.top (new n).workers refl,
    );
  }
  Reach-Accounted (Reach.work {m = m} {m' = m'} {phase = phase} {f = f} i r low turn w) =
      let a = Reach-Accounted r in
      let (same, sub, counts) = Work-counts w a.nonempty low in
      record {
        nonempty = rw same a.nonempty;
        balance =
            rw (same, sub)
              (ground (arith, a.balance, counts, low, total-update runs phase i m.workers f));
      }
  Reach-Accounted (Reach.push {m = m} {phase = phase} task r) =
      let a = Reach-Accounted r in
      let (same, counts) = enqueue-queued m.pool task a.nonempty in
      record {
        nonempty = rw same a.nonempty;
        balance = ground (arith, a.balance, counts, ap (total runs phase) same);
      }
  Reach-Accounted (Reach.notify {m = m} {phase = phase} i n r e low asleep) =
      let a = Reach-Accounted r in
      record {
        nonempty = a.nonempty;
        balance =
            ground (
              arith,
              a.balance,
              low,
              ap runs asleep,
              total-update runs phase i m.workers Phase.lock,
            );
      }
  Reach-Accounted (Reach.notify_nobody n r e nobody) =
      let a = Reach-Accounted r in record { nonempty = a.nonempty; balance = a.balance }
  Reach-Accounted (Reach.set_stop r free) =
      let a = Reach-Accounted r in record { nonempty = a.nonempty; balance = a.balance }
  Reach-Accounted (Reach.notify_all {m = m} {phase = phase} r e) =
      let a = Reach-Accounted r in
      record {
        nonempty = a.nonempty;
        balance = omega (
          arith,
          a.balance,
          total-cong runs phase (λ i. wake_up (phase i)) m.workers (λ i. runs-wake_up (phase i)),
        );
      }
