-- ===== src/ThreadPool/Stealing.antt =====
-- `worker_loop` of `WorkStealingThreadPool` in a pool that nobody else touches meanwhile: the search for a
-- task in the own deque and then in the others, against `has_work`.
use native.Mathlib.Decide.{ℕ_discrete}
use native.Mathlib.Nat.{mod-lt, mod-eq_of_lt}
use cpp_systems_playground.Prelude.{
  sym, ℕ, zero, suc, ◌+◌, ◌-◌, ◌%◌, ◌≤◌, ◌<◌, ◌≡◌, ◌≢◌, ◌⊎◌, inl, inr, refl, ap, subst, ◌∙◌, true,
  false, none, some, List, [], ◌∷◌, arith, Option-cases, if◌then◌else◌, ◌==◌,
}
use cpp_systems_playground.Prelude.Modular.{offset_to}
use cpp_systems_playground.ThreadPool.Conservation.{queued, pop-queued, steal-queued}
use cpp_systems_playground.ThreadPool.Wakeup.{work_from-nonempty}
use cpp_systems_playground.ThreadPool.Shutdown.{all_empty}
use cpp_systems_playground.ThreadPool.{
  Pool, unsnoc, try_pop_local, uncons, steal_from, steal_loop, try_steal, find_task, is_empty,
  has_work,
}

unsnoc-none : (l : List ℕ) → unsnoc l ≡ none → is_empty l ≡ true
unfolding unsnoc is_empty
unsnoc-none [] e = refl
unsnoc-none (x ∷ l) e = absurd (ground (arith, Option-cases (unsnoc l)))

pop-none : (p : Pool) (i : ℕ) → try_pop_local p i ≡ none → is_empty (p.tasks i) ≡ true
unfolding try_pop_local
pop-none p i e = elim (Option-cases (unsnoc (p.tasks i))) [
  | inl h ↦ unsnoc-none (p.tasks i) h
  | inr (x, h) ↦ absurd (ground (arith, h))
]

steal-none : (p : Pool) (i : ℕ) → steal_from p i ≡ none → is_empty (p.tasks i) ≡ true
unfolding steal_from uncons is_empty
steal-none p i e = ground arith

-- A loop that finds nothing has passed empty deques only.
steal_loop-none :
    (p : Pool) (self rounds offset k : ℕ)
    → steal_loop p self rounds offset ≡ none
    → offset ≤ k
    → k < offset + rounds
    → is_empty (p.tasks ((self + k) % p.workers)) ≡ true
unfolding steal_loop
steal_loop-none p self zero offset k e a b = absurd (omega arith)
steal_loop-none p self (suc rounds) offset k e a b =
    let v = (self + offset) % p.workers in
    elim (Option-cases (steal_from p v)) [
      | inl miss ↦ elim (ℕ_discrete offset k) [
        | yes here ↦
            subst (λ j. is_empty (p.tasks ((self + j) % p.workers)) ≡ true) here
              (steal-none p v miss)
        | no later ↦
            steal_loop-none p self rounds (offset + 1) k (ground (arith, miss)) (omega arith)
              (omega arith)
      ]
      | inr (r, hit) ↦ absurd (ground (arith, hit))
    ]

-- A loop that finds a task has taken it from one of the deques.
steal_loop-some :
    (p : Pool) (self rounds offset : ℕ) {r : ℕ × Pool}
    → 0 < p.workers
    → steal_loop p self rounds offset ≡ some r
    → (j : ℕ) × (j < p.workers) × (steal_from p j ≡ some r)
unfolding steal_loop
steal_loop-some p self zero offset pos e = cc
steal_loop-some p self (suc rounds) offset {r} pos e =
    let v = (self + offset) % p.workers in
    elim (Option-cases (steal_from p v)) [
      | inl miss ↦ steal_loop-some p self rounds (offset + 1) pos (ground (arith, miss))
      | inr (r', hit) ↦ (v, mod-lt (self + offset) pos, ground (arith, hit))
    ]

-- Every other worker is a victim.
victim :
    (n self j : ℕ)
    → self < n
    → j < n
    → self ≢ j
    → (k : ℕ) × (1 ≤ k) × (k < n) × ((self + k) % n ≡ j)
victim n self j low low' ne =
    let (k, few, at) = offset_to n self j low low' in
    let here : self + 0 ≡ self = omega arith in
    elim (ℕ_discrete k 0) [
      | yes zero_offset ↦ absurd (
          ne (
            sym (mod-eq_of_lt low)
            ∙ ap (λ x. x % n) (sym here)
            ∙ ap (λ i. (self + i) % n) (sym zero_offset)
            ∙ at))
      | no more ↦ (k, omega arith, few, at)
    ]

-- Nobody has a task for a worker that finds none.
find_task-none :
    (p : Pool) (i : ℕ)
    → i < p.workers
    → find_task p i ≡ none
    → (j : ℕ) → j < p.workers
    → is_empty (p.tasks j) ≡ true
unfolding find_task try_steal
find_task-none p i low e j low' = elim (Option-cases (try_pop_local p i)) [
  | inr (r, hit) ↦ absurd (ground (arith, hit))
  | inl miss ↦ elim (ℕ_discrete i j) [
    | yes here ↦ subst (λ x. is_empty (p.tasks x) ≡ true) here (pop-none p i miss)
    | no apart ↦
        let (k, first, last, at) = victim p.workers i j low low' apart in
        subst (λ x. is_empty (p.tasks x) ≡ true) at
          (steal_loop-none p i (p.workers - 1) 1 k (ground (arith, miss, e)) first (omega arith))
  ]
]

-- The task that a search has found was in a deque, and only it is gone.
pub record Found (p : Pool) (task : ℕ) (q : Pool) : Type 0 where
  pub workers : q.workers ≡ p.workers
  pub work : has_work p ≡ true
  pub taken : (t : ℕ) → queued t p ≡ queued t q + (if task == t then 1 else 0)

nonempty_work :
    (p : Pool) (j : ℕ) → j < p.workers → is_empty (p.tasks j) ≡ false → has_work p ≡ true
unfolding has_work
nonempty_work p j low e = work_from-nonempty p p.workers 0 j (omega arith) (omega (arith, low)) e

pop-Found :
    (p : Pool) (i : ℕ) {task : ℕ} {q : Pool}
    → i < p.workers
    → try_pop_local p i ≡ some (task, q)
    → Found p task q
pop-Found p i {task} {q} low e = record {
  workers = (pop-queued 0 p q i task low e).0;
  work = nonempty_work p i low (unfold try_pop_local unsnoc is_empty in (ground (arith, e)));
  taken = λ t. (pop-queued t p q i task low e).1;
}

steal-Found :
    (p : Pool) (j : ℕ) {task : ℕ} {q : Pool}
    → j < p.workers
    → steal_from p j ≡ some (task, q)
    → Found p task q
steal-Found p j {task} {q} low e = record {
  workers = (steal-queued 0 p q j task low e).0;
  work = nonempty_work p j low (unfold steal_from uncons is_empty in (ground (arith, e)));
  taken = λ t. (steal-queued t p q j task low e).1;
}

find_task-Found :
    (p : Pool) (i : ℕ) {task : ℕ} {q : Pool}
    → i < p.workers
    → find_task p i ≡ some (task, q)
    → Found p task q
unfolding find_task try_steal
find_task-Found p i {task} {q} low e = elim (Option-cases (try_pop_local p i)) [
  | inr (r, hit) ↦ pop-Found p i low (ground (arith, hit, e))
  | inl miss ↦
      let (j, low', from) =
        steal_loop-some p i (p.workers - 1) 1 (omega arith) (ground (arith, miss, e)) in
      steal-Found p j low' from
]

-- A worker that searches while nobody else touches the deques finds no task exactly if `has_work` is
-- false; otherwise it takes one task out of one deque, and every other task stays.
pub find_task-cases :
    (p : Pool) (i : ℕ)
    → i < p.workers
    → ((find_task p i ≡ none) × (has_work p ≡ false))
      ⊎ ((task : ℕ) × (q : Pool) × (find_task p i ≡ some (task, q)) × Found p task q)
find_task-cases p i low = elim (Option-cases (find_task p i)) [
  | inl none_found ↦ inl (
    none_found,
    unfold has_work in
        (all_empty p p.workers 0 (λ j a. find_task-none p i low none_found j (omega arith))),
  )
  | inr ((task, q), found) ↦ inr (task, q, found, find_task-Found p i low found)
]
