-- ===== src/ThreadPool/Mutex.antt =====
-- `global_mutex_` of `WorkStealingThreadPool`, which a worker holds from where it evaluates the predicate
-- of its wait.
use native.Mathlib.Decide.{ℕ_discrete}
use cpp_systems_playground.Prelude.{ℕ, ◌<◌, ◌≡◌, ◌⊎◌, inl, inr, refl, sym, subst, ◌∙◌, true, arith}
use cpp_systems_playground.ThreadPool.{enqueue_task}
use cpp_systems_playground.ThreadPool.Threads.{Phase, Shared, Work, Reach, holds, wake_up}
use cpp_systems_playground.ThreadPool.Takes.{Work-Works}

-- A worker that holds the mutex after its step held it before, or has just locked it.
Work-holds :
    {i : ℕ} {m m' : Shared} {f f' : Phase}
    → Work i m f m' f'
    → holds f' ≡ true
    → (holds f ≡ true) ⊎ (f ≡ Phase.lock)
Work-holds (Work.acquire h) e = inr refl
Work-holds (Work.acquire_stop h) e = inr refl
Work-holds (Work.scan_hit h a) e = inl refl
Work-holds (Work.scan_next h a) e = inl refl
Work-holds (Work.scan_end h) e = inl refl
Work-holds (Work.resume_stop h) e = inl refl
Work-holds (Work.final_next h a) e = inl refl
Work-holds (Work.pop_hit a) e = absurd (ground (arith, e))
Work-holds (Work.pop_miss a) e = absurd (ground (arith, e))
Work-holds (Work.steal_hit h a) e = absurd (ground (arith, e))
Work-holds (Work.steal_miss h a) e = absurd (ground (arith, e))
Work-holds (Work.steal_end h) e = absurd (ground (arith, e))
Work-holds (Work.finish) e = absurd (ground (arith, e))
Work-holds (Work.block) e = absurd (ground (arith, e))
Work-holds (Work.wake) e = absurd (ground (arith, e))
Work-holds (Work.resume h) e = absurd (ground (arith, e))
Work-holds (Work.final_hit h a) e = absurd (ground (arith, e))
Work-holds (Work.final_end h) e = absurd (ground (arith, e))

holds-wake_up : (f : Phase) → holds (wake_up f) ≡ holds f
holds-wake_up Phase.waiting = refl
holds-wake_up Phase.top = refl
holds-wake_up (Phase.steal k) = refl
holds-wake_up (Phase.run t) = refl
holds-wake_up Phase.lock = refl
holds-wake_up (Phase.scan j) = refl
holds-wake_up Phase.decided = refl
holds-wake_up Phase.woken = refl
holds-wake_up (Phase.final j) = refl
holds-wake_up Phase.exited = refl

-- At most one worker holds the mutex.
Reach-mutex :
    {n : ℕ} {m : Shared} {phase : ℕ → Phase}
    → Reach n m phase
    → (i j : ℕ) → i < m.workers
    → j < m.workers
    → holds (phase i) ≡ true
    → holds (phase j) ≡ true
    → i ≡ j
unfolding enqueue_task
Reach-mutex (Reach.start) i j a b e e' = absurd (ground (arith, e))
Reach-mutex (Reach.work {phase = phase} {f = f} k r low turn w) i j a b e e' =
    let works = Work-Works w in
    let a' = subst (λ x. i < x) works.shrinks.workers a in
    let b' = subst (λ x. j < x) works.shrinks.workers b in
    elim (ℕ_discrete k i) [
      | yes here ↦ elim (ℕ_discrete k j) [
        | yes there ↦ sym here ∙ there
        | no away ↦ elim (Work-holds w (ground (arith, here, e))) [
          | inl held ↦ absurd (away (Reach-mutex r k j low b' held (ground (arith, away, e'))))
          | inr locking ↦ absurd (ground (arith, turn locking j b', away, e'))
        ]
      ]
      | no off ↦ elim (ℕ_discrete k j) [
        | yes there ↦ elim (Work-holds w (ground (arith, there, e'))) [
          | inl held ↦ absurd (off (Reach-mutex r k i low a' held (ground (arith, off, e))))
          | inr locking ↦ absurd (ground (arith, turn locking i a', off, e))
        ]
        | no away ↦ Reach-mutex r i j a' b' (ground (arith, off, e)) (ground (arith, away, e'))
      ]
    ]
Reach-mutex (Reach.push task r) i j a b e e' = Reach-mutex r i j a b e e'
Reach-mutex (Reach.notify {phase = phase} k t r q low asleep) i j a b e e' =
    Reach-mutex r i j a b (ground (arith, e)) (ground (arith, e'))
Reach-mutex (Reach.notify_nobody t r q nobody) i j a b e e' = Reach-mutex r i j a b e e'
Reach-mutex (Reach.set_stop r free) i j a b e e' = Reach-mutex r i j a b e e'
Reach-mutex (Reach.notify_all {phase = phase} r q) i j a b e e' =
    Reach-mutex r i j a b (sym (holds-wake_up (phase i)) ∙ e) (sym (holds-wake_up (phase j)) ∙ e')
