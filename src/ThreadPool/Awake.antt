-- ===== src/ThreadPool/Awake.antt =====
-- The destructor of `WorkStealingThreadPool`, which sets `stop_` with `global_mutex_` held, and the wait
-- of the workers.
use native.Mathlib.Decide.{ℕ_discrete}
use cpp_systems_playground.Prelude.{
  ℕ, ◌<◌, ◌≡◌, ◌≢◌, refl, subst, ◌∙◌, ap, Bool, true, false, arith,
}
use cpp_systems_playground.ThreadPool.Threads.{Phase, Shared, Work, holds, wake_up}
use cpp_systems_playground.ThreadPool.Takes.{Work-Works}
use cpp_systems_playground.ThreadPool.Shutdown.{Shut, Shut-stop}

-- In the predicate of the wait, with `stop_` read as false, or about to block.
abbrev drowsy : Phase → Bool
drowsy (Phase.scan j) = true
drowsy Phase.decided = true
drowsy Phase.top = false
drowsy (Phase.steal k) = false
drowsy (Phase.run t) = false
drowsy Phase.lock = false
drowsy Phase.waiting = false
drowsy Phase.woken = false
drowsy (Phase.final j) = false
drowsy Phase.exited = false

drowsy-holds : (f : Phase) → holds f ≡ false → drowsy f ≡ false
drowsy-holds Phase.top h = refl
drowsy-holds (Phase.steal k) h = refl
drowsy-holds (Phase.run t) h = refl
drowsy-holds Phase.lock h = refl
drowsy-holds (Phase.scan j) h = absurd (cc)
drowsy-holds Phase.decided h = absurd (cc)
drowsy-holds Phase.waiting h = refl
drowsy-holds Phase.woken h = refl
drowsy-holds (Phase.final j) h = refl
drowsy-holds Phase.exited h = refl

drowsy-wake_up : (f : Phase) → drowsy (wake_up f) ≡ drowsy f
drowsy-wake_up Phase.waiting = refl
drowsy-wake_up Phase.top = refl
drowsy-wake_up (Phase.steal k) = refl
drowsy-wake_up (Phase.run t) = refl
drowsy-wake_up Phase.lock = refl
drowsy-wake_up (Phase.scan j) = refl
drowsy-wake_up Phase.decided = refl
drowsy-wake_up Phase.woken = refl
drowsy-wake_up (Phase.final j) = refl
drowsy-wake_up Phase.exited = refl

Work-drowsy :
    {i : ℕ} {m m' : Shared} {f f' : Phase}
    → Work i m f m' f'
    → m.stop ≡ true
    → drowsy f ≡ false
    → drowsy f' ≡ false
Work-drowsy (Work.pop_hit e) s a = refl
Work-drowsy (Work.pop_miss e) s a = refl
Work-drowsy (Work.steal_hit h e) s a = refl
Work-drowsy (Work.steal_miss h e) s a = refl
Work-drowsy (Work.steal_end h) s a = refl
Work-drowsy (Work.acquire h) s a = absurd (ground (arith, h, s))
Work-drowsy (Work.acquire_stop h) s a = refl
Work-drowsy (Work.finish) s a = refl
Work-drowsy (Work.scan_hit h e) s a = refl
Work-drowsy (Work.scan_next h e) s a = absurd (ground (arith, a))
Work-drowsy (Work.scan_end h) s a = absurd (ground (arith, a))
Work-drowsy (Work.block) s a = refl
Work-drowsy (Work.wake) s a = refl
Work-drowsy (Work.resume h) s a = refl
Work-drowsy (Work.resume_stop h) s a = refl
Work-drowsy (Work.final_hit h e) s a = refl
Work-drowsy (Work.final_next h e) s a = refl
Work-drowsy (Work.final_end h) s a = refl

Shut-drowsy :
    {n : ℕ} {m : Shared} {phase : ℕ → Phase}
    → Shut n m phase
    → (i : ℕ) → i < m.workers
    → drowsy (phase i) ≡ false
Shut-drowsy (Shut.set_stop {phase = phase} r e free) i low = drowsy-holds (phase i) (free i low)
Shut-drowsy (Shut.work {phase = phase} {f = f} j r low turn w) i small =
    let works = Work-Works w in
    let below = subst (λ x. i < x) works.shrinks.workers small in
    elim (ℕ_discrete j i) [
      | yes here ↦ ground (arith, Work-drowsy w (Shut-stop r) (Shut-drowsy r j low))
      | no other ↦ ground (arith, Shut-drowsy r i below)
    ]
Shut-drowsy (Shut.notify {phase = phase} j k r a low asleep) i small = elim (ℕ_discrete j i) [
  | yes here ↦ ground arith
  | no other ↦ ground (arith, Shut-drowsy r i small)
]
Shut-drowsy (Shut.notify_nobody k r a nobody) i small = Shut-drowsy r i small
Shut-drowsy (Shut.notify_all {phase = phase} r) i small =
    drowsy-wake_up (phase i) ∙ Shut-drowsy r i small

wake_up-awake : (f : Phase) → wake_up f ≢ Phase.waiting
wake_up-awake Phase.waiting e = absurd (ground arith)
wake_up-awake Phase.top e = absurd (ground arith)
wake_up-awake (Phase.steal k) e = absurd (ground arith)
wake_up-awake (Phase.run t) e = absurd (ground arith)
wake_up-awake Phase.lock e = absurd (ground arith)
wake_up-awake (Phase.scan j) e = absurd (ground arith)
wake_up-awake Phase.decided e = absurd (ground arith)
wake_up-awake Phase.woken e = absurd (ground arith)
wake_up-awake (Phase.final j) e = absurd (ground arith)
wake_up-awake Phase.exited e = absurd (ground arith)

-- The destructor loses no wake-up: once `stop_` is set no worker is about to block, so that
-- `notify_all` wakes every worker that sleeps, and none sleeps afterwards.
Shut-awake :
    {n : ℕ} {m : Shared} {phase : ℕ → Phase}
    → Shut n m phase
    → (i : ℕ) → i < m.workers
    → (phase i ≢ Phase.decided) × (wake_up (phase i) ≢ Phase.waiting)
Shut-awake {phase = phase} r i low =
    (λ e. absurd (ground (arith, Shut-drowsy r i low, ap drowsy e)), wake_up-awake (phase i))
