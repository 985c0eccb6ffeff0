-- ===== src/Examples/WaitFree/Safety.antt =====
-- What the two threads of `example_wait_free_demo` have pushed and popped at any moment.
use cpp_systems_playground.Prelude.{
  ℕ, zero, suc, ◌+◌, ◌<◌, ◌≤◌, ◌≡◌, refl, sym, ap, ◌∙◌, List, [], ◌∷◌, ◌++◌, length, length-append,
  arith,
}
use cpp_systems_playground.Spsc.{next_index}
use cpp_systems_playground.Spsc.Concurrent.{Producer, Consumer, Shared, Produce, Consume, Reach}
use cpp_systems_playground.Spsc.Fifo.{Reach-fifo, Reach-refuse}
use cpp_systems_playground.Examples.WaitFree.{State, Push, Pop, Step, Steps, start}

-- The numbers below a bound, in order.
abbrev pub numbers : ℕ → List ℕ
numbers zero = []
numbers (suc n) = numbers n ++ n ∷ []

pub length-numbers : (n : ℕ) → length (numbers n) ≡ n
length-numbers zero = refl
length-numbers (suc n) = omega (arith, length-append (numbers n) (n ∷ []), length-numbers n)

pub numbers-next : (n : ℕ) → numbers (n + 1) ≡ numbers n ++ n ∷ []
numbers-next n = let next : n + 1 ≡ suc n = omega arith in ap numbers next

module _ (capacity count : ℕ) where
  -- While a call of `push` runs, the producer carries the number `i`.
  abbrev pub Carries : Producer ℕ → ℕ → Type 0
  Carries (Producer.idle) i = i ≤ count
  Carries (Producer.has_head v h) i = (v ≡ i) × (i < count)
  Carries (Producer.has_tail v h t) i = (v ≡ i) × (i < count)
  Carries (Producer.constructed v h) i = (v ≡ i) × (i < count)

  pub record Inv (s : State) : Type 0 where
    pub reach : Reach capacity s.shared s.producer s.consumer
    pub pushed : s.total_pushed ≡ s.i
    pub sent : s.shared.sent ≡ numbers s.i
    pub popped : s.total_popped ≡ length s.shared.received
    pub carries : Carries s.producer s.i

  pub written :
      {m : Shared ℕ} {v h t i : ℕ} {p : Producer ℕ} {m' : Shared ℕ}
      → Produce capacity m (Producer.has_tail v h t) m' p
      → Carries (Producer.has_tail v h t) i
      → (m'.sent ≡ m.sent) × (m'.received ≡ m.received) × Carries p i
  written (Produce.construct ne) low = (refl, refl, low)
  written (Produce.refuse meet) low = (refl, refl, omega (arith, low.1))

  -- Why a call of `push` that has read both indices ends.
  abbrev Refused : Producer ℕ → ℕ → ℕ → Type 0
  Refused (Producer.idle) h t = next_index capacity h ≡ t
  Refused (Producer.has_head v h') h t = Unit
  Refused (Producer.has_tail v h' t') h t = Unit
  Refused (Producer.constructed v h') h t = Unit

  refused :
      {m : Shared ℕ} {v h t : ℕ} {p : Producer ℕ} {m' : Shared ℕ}
      → Produce capacity m (Producer.has_tail v h t) m' p
      → Refused p h t
  refused (Produce.construct ne) = tt
  refused (Produce.refuse meet) = meet

  Push-Inv :
      {m m' : Shared ℕ} {p p' : Producer ℕ} {c : Consumer ℕ} {i i' a a' b : ℕ}
      → count ≤ capacity
      → Push capacity count m p i a m' p' i' a'
      → Inv (record {
        shared = m;
        producer = p;
        consumer = c;
        i = i;
        total_pushed = a;
        total_popped = b;
      })
      → Inv (record {
        shared = m';
        producer = p';
        consumer = c;
        i = i';
        total_pushed = a';
        total_popped = b;
      })
  Push-Inv fits (Push.begin low (Produce.load_head v)) k = record {
    reach = Reach.produce k.reach (Produce.load_head v);
    pushed = k.pushed;
    sent = k.sent;
    popped = k.popped;
    carries = (refl, low);
  }
  Push-Inv fits (Push.read (Produce.load_tail)) k = record {
    reach = Reach.produce k.reach Produce.load_tail;
    pushed = k.pushed;
    sent = k.sent;
    popped = k.popped;
    carries = k.carries;
  }
  Push-Inv {m} {i = i} fits (Push.write {v = v} {h = h} {t = t} e) k =
      let (same, same', next) = written e k.carries in
      record {
        reach = Reach.produce k.reach e;
        pushed = k.pushed;
        sent = same ∙ k.sent;
        popped = k.popped ∙ ap length (sym same');
        carries = next;
      }
  Push-Inv {i = i} fits (Push.pushed (Produce.publish)) k = record {
    reach = Reach.produce k.reach Produce.publish;
    pushed = omega (arith, k.pushed);
    sent = rw (k.sent, k.carries.0) (sym (numbers-next i));
    popped = k.popped;
    carries = omega (arith, k.carries.1);
  }
  Push-Inv {i = i} fits (Push.refused e) k =
      let (seen, old, full) = Reach-refuse capacity k.reach (refused e) in
      absurd (omega (arith, full, fits, k.carries.1, ap length k.sent, length-numbers i))

  pub untouched :
      {m : Shared ℕ} {t h : ℕ} {c : Consumer ℕ} {m' : Shared ℕ}
      → Consume capacity m (Consumer.has_head t h) m' c
      → (m'.sent ≡ m.sent) × (m'.received ≡ m.received)
  untouched (Consume.move_out ne e) = (refl, refl)
  untouched (Consume.refuse meet) = (refl, refl)

  Pop-Inv :
      {m m' : Shared ℕ} {p : Producer ℕ} {c c' : Consumer ℕ} {i a b b' : ℕ}
      → Pop capacity count m c b m' c' b'
      → Inv (record {
        shared = m;
        producer = p;
        consumer = c;
        i = i;
        total_pushed = a;
        total_popped = b;
      })
      → Inv (record {
        shared = m';
        producer = p;
        consumer = c';
        i = i;
        total_pushed = a;
        total_popped = b';
      })
  Pop-Inv (Pop.begin low (Consume.load_tail)) k = record {
    reach = Reach.consume k.reach Consume.load_tail;
    pushed = k.pushed;
    sent = k.sent;
    popped = k.popped;
    carries = k.carries;
  }
  Pop-Inv (Pop.read (Consume.load_head)) k = record {
    reach = Reach.consume k.reach Consume.load_head;
    pushed = k.pushed;
    sent = k.sent;
    popped = k.popped;
    carries = k.carries;
  }
  Pop-Inv (Pop.take e) k =
      let (same, same') = untouched e in
      record {
        reach = Reach.consume k.reach e;
        pushed = k.pushed;
        sent = same ∙ k.sent;
        popped = k.popped ∙ ap length (sym same');
        carries = k.carries;
      }
  Pop-Inv {m} (Pop.popped {x = x} (Consume.release)) k = record {
    reach = Reach.consume k.reach Consume.release;
    pushed = k.pushed;
    sent = k.sent;
    popped = omega (arith, k.popped, length-append m.received (x ∷ []));
    carries = k.carries;
  }
  Pop-Inv (Pop.missed e) k =
      let (same, same') = untouched e in
      record {
        reach = Reach.consume k.reach e;
        pushed = k.pushed;
        sent = same ∙ k.sent;
        popped = k.popped ∙ ap length (sym same');
        carries = k.carries;
      }

  pub Step-Inv : {s s' : State} → count ≤ capacity → Step capacity count s s' → Inv s → Inv s'
  Step-Inv fits (Step.produce e) k = Push-Inv fits e k
  Step-Inv fits (Step.consume e) k = Pop-Inv e k

  pub Steps-Inv : {s s' : State} → count ≤ capacity → Steps capacity count s s' → Inv s → Inv s'
  Steps-Inv fits (Steps.done) k = k
  Steps-Inv fits (Steps.step e es) k = Steps-Inv fits es (Step-Inv fits e k)

  start-Inv : Inv start
  unfolding start
  start-Inv = record {
    reach = Reach.start;
    pushed = refl;
    sent = refl;
    popped = refl;
    carries = omega arith;
  }

  pub reached : {s : State} → count ≤ capacity → Steps capacity count start s → Inv s
  reached fits es = Steps-Inv fits es start-Inv

  -- Where the queue has room for all numbers, no call of `push` fails in any interleaving: at every moment
  -- the numbers pushed are those below `i`, in order, `total_pushed` counts them, and what the
  -- consumer has popped is the first `total_popped` of them.
  Steps-totals :
      {s : State}
      → count ≤ capacity
      → Steps capacity count start s
      → (s.total_pushed ≡ s.i)
        × (s.i ≤ count)
        × (s.total_popped ≡ length s.shared.received)
        × ((rest : List ℕ) × (numbers s.i ≡ s.shared.received ++ rest))
  Steps-totals {s} fits es =
      let k = reached fits es in
      let (rest, split, few) = Reach-fifo capacity k.reach in
      (k.pushed, below s.producer k.carries, k.popped, (rest, sym k.sent ∙ split))
    where
      below : (p : Producer ℕ) {i : ℕ} → Carries p i → i ≤ count
      below (Producer.idle) h = h
      below (Producer.has_head v t) h = omega (arith, h.1)
      below (Producer.has_tail v t u) h = omega (arith, h.1)
      below (Producer.constructed v t) h = omega (arith, h.1)
