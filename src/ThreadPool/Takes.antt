-- ===== src/ThreadPool/Takes.antt =====
-- What the steps of the workers of `WorkStealingThreadPool` do to the deques, and what a worker has
-- seen of them once `stop_` is set.
use native.Mathlib.Decide.{ℕ_discrete}
use cpp_systems_playground.Prelude.{
  ℕ, ◌+◌, ◌%◌, ◌<◌, ◌≡◌, ◌⊎◌, refl, subst, true, false, Bool, some, List, arith, update,
  Option-cases, inl, inr,
}
use cpp_systems_playground.ThreadPool.{Pool, unsnoc, uncons, try_pop_local, steal_from, is_empty}
use cpp_systems_playground.ThreadPool.Threads.{Phase, Shared, Work, wake_up}

-- How many of the first deques a worker has seen to be empty since `stop_` was set.
abbrev pub seen : ℕ → Phase → ℕ
seen w (Phase.final j) = j
seen w Phase.exited = w
seen w Phase.top = 0
seen w (Phase.steal k) = 0
seen w (Phase.run t) = 0
seen w (Phase.scan j) = 0
seen w Phase.decided = 0
seen w Phase.waiting = 0
seen w Phase.lock = 0
seen w Phase.woken = 0

pub seen-wake_up : (w : ℕ) (f : Phase) → seen w (wake_up f) ≡ seen w f
seen-wake_up w (Phase.waiting) = refl
seen-wake_up w (Phase.lock) = refl
seen-wake_up w (Phase.top) = refl
seen-wake_up w (Phase.steal k) = refl
seen-wake_up w (Phase.run task) = refl
seen-wake_up w (Phase.scan j) = refl
seen-wake_up w (Phase.decided) = refl
seen-wake_up w (Phase.woken) = refl
seen-wake_up w (Phase.final j) = refl
seen-wake_up w (Phase.exited) = refl

-- What the worker at a phase has seen is still so.
abbrev pub Sees : Pool → Phase → Type 0
Sees p f = (k : ℕ) → k < seen p.workers f → k < p.workers → is_empty (p.tasks k) ≡ true

-- Workers only take.
pub record Shrinks (p q : Pool) : Type 0 where
  pub workers : q.workers ≡ p.workers
  pub stop : q.stop ≡ p.stop
  pub empty : (k : ℕ) → is_empty (p.tasks k) ≡ true → is_empty (q.tasks k) ≡ true

taken-Shrinks :
    (p : Pool) (i : ℕ) (rest : List ℕ)
    → is_empty (p.tasks i) ≡ false
    → Shrinks p (record p { tasks = update p.tasks i rest })
taken-Shrinks p i rest e = record {
  workers = refl;
  stop = refl;
  empty = λ k h. ground (arith, e, h);
}

try_pop_local-Shrinks :
    (p : Pool) (i : ℕ) {task : ℕ} {q : Pool} → try_pop_local p i ≡ some (task, q) → Shrinks p q
unfolding try_pop_local unsnoc is_empty
try_pop_local-Shrinks p i {task} {q} e = elim (Option-cases (unsnoc (p.tasks i))) [
  | inl h ↦ absurd (ground (arith, h))
  | inr ((x, rest), h) ↦
      let same : record p { tasks = update p.tasks i rest } ≡ q = ground (arith, h) in
      subst (Shrinks p) same (taken-Shrinks p i rest (ground (arith, h)))
]

steal_from-Shrinks :
    (p : Pool) (i : ℕ) {task : ℕ} {q : Pool} → steal_from p i ≡ some (task, q) → Shrinks p q
unfolding steal_from uncons is_empty
steal_from-Shrinks p i {task} {q} e = elim (Option-cases (uncons (p.tasks i))) [
  | inl h ↦ absurd (ground (arith, h))
  | inr ((x, rest), h) ↦
      let same : record p { tasks = update p.tasks i rest } ≡ q = ground (arith, h) in
      subst (Shrinks p) same (taken-Shrinks p i rest (ground (arith, h)))
]

kept-Shrinks : (p : Pool) → Shrinks p p
kept-Shrinks p = record { workers = refl; stop = refl; empty = λ k h. h }

-- The phases that a worker takes only after it has seen `stop_`.
abbrev pub closing : Phase → Bool
closing (Phase.final j) = true
closing Phase.exited = true
closing Phase.top = false
closing (Phase.steal k) = false
closing (Phase.run t) = false
closing (Phase.scan j) = false
closing Phase.decided = false
closing Phase.waiting = false
closing Phase.lock = false
closing Phase.woken = false

pub open-Sees : (p : Pool) (f : Phase) → closing f ≡ false → Sees p f
open-Sees p f e = λ k a b. absurd (ground (arith, a, e))

-- What a step of a worker does, as far as shutting down goes.
pub record Works (m : Shared) (f : Phase) (m' : Shared) (f' : Phase) : Type 0 where
  pub shrinks : Shrinks m.pool m'.pool
  pub closes : closing f' ≡ true → (m.stop ≡ true) ⊎ (closing f ≡ true)
  pub sees : Sees m.pool f → Sees m'.pool f'

module _ {m m' : Shared} {f f' : Phase} where
  open-Works : Shrinks m.pool m'.pool → closing f' ≡ false → Works m f m' f'
  open-Works s e = record {
    shrinks = s;
    closes = λ h. absurd (ground (arith, h, e));
    sees = λ h. open-Sees m'.pool f' e;
  }

pub Work-Works : {i : ℕ} {m m' : Shared} {f f' : Phase} → Work i m f m' f' → Works m f m' f'
Work-Works {i} {m} (Work.pop_hit e) = open-Works (try_pop_local-Shrinks m.pool i e) refl
Work-Works {i} {m} (Work.steal_hit {offset = k} h e) =
    open-Works (steal_from-Shrinks m.pool ((i + k) % m.workers) e) refl
Work-Works {m = m} (Work.finish) = open-Works (kept-Shrinks m.pool) refl
Work-Works {m = m} (Work.pop_miss e) = open-Works (kept-Shrinks m.pool) refl
Work-Works {m = m} (Work.steal_miss h e) = open-Works (kept-Shrinks m.pool) refl
Work-Works {m = m} (Work.steal_end h) = open-Works (kept-Shrinks m.pool) refl
Work-Works {m = m} (Work.acquire_stop h) = open-Works (kept-Shrinks m.pool) refl
Work-Works {m = m} (Work.scan_hit h e) = open-Works (kept-Shrinks m.pool) refl
Work-Works {m = m} (Work.scan_next h e) = open-Works (kept-Shrinks m.pool) refl
Work-Works {m = m} (Work.scan_end h) = open-Works (kept-Shrinks m.pool) refl
Work-Works {m = m} (Work.acquire h) = open-Works (kept-Shrinks m.pool) refl
Work-Works {m = m} (Work.block) = open-Works (kept-Shrinks m.pool) refl
Work-Works {m = m} (Work.wake) = open-Works (kept-Shrinks m.pool) refl
Work-Works {m = m} (Work.resume h) = open-Works (kept-Shrinks m.pool) refl
Work-Works {m = m} (Work.final_hit h e) = open-Works (kept-Shrinks m.pool) refl
Work-Works {m = m} (Work.resume_stop h) = record {
  shrinks = kept-Shrinks m.pool;
  closes = λ e. inl h;
  sees = λ s k a b. absurd (omega arith);
}
Work-Works {m = m} (Work.final_next {j = j} h e) = record {
  shrinks = kept-Shrinks m.pool;
  closes = λ e. inr refl;
  sees = λ s k a b. elim (ℕ_discrete j k) [
    | yes here ↦ subst (λ x. is_empty (m.tasks x) ≡ true) here e
    | no other ↦ s k (omega arith) b
  ];
}
Work-Works {m = m} (Work.final_end h) = record {
  shrinks = kept-Shrinks m.pool;
  closes = λ e. inr refl;
  sees = λ s k a b. s k (omega arith) b;
}

pub closing-wake_up : (f : Phase) → closing (wake_up f) ≡ closing f
closing-wake_up (Phase.waiting) = refl
closing-wake_up (Phase.lock) = refl
closing-wake_up (Phase.top) = refl
closing-wake_up (Phase.steal k) = refl
closing-wake_up (Phase.run task) = refl
closing-wake_up (Phase.scan j) = refl
closing-wake_up (Phase.decided) = refl
closing-wake_up (Phase.woken) = refl
closing-wake_up (Phase.final j) = refl
closing-wake_up (Phase.exited) = refl
