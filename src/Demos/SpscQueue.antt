-- ===== src/Demos/SpscQueue.antt =====
-- lock_free_queue/src/spsc_queue_demo.cpp: `main`, with the capacity and `N` as arguments. A producer
-- pushes the numbers below `N`, each until it is accepted, and a consumer checks the order of what it
-- pops. The accesses inside `push` and `pop` are the steps of Spsc/Concurrent; a thread's own variables
-- change in the step in which its call ends.
pub mod Order
pub mod Loops
pub mod Progress
use cpp_systems_playground.Prelude.{ℕ, ◌+◌, ◌<◌, [], ◌==◌, if◌then◌else◌}
use cpp_systems_playground.Spsc
use cpp_systems_playground.Spsc.Concurrent.{Producer, Consumer, Shared, Produce, Consume}

-- The variables of the consumer, with the number of lines "Out of order" that it has printed.
pub record Tally : Type 0 where
  pub expected : ℕ
  pub count : ℕ
  pub out_of_order : ℕ

-- What the consumer does with a value.
unfoldable pub check : Tally → ℕ → Tally
check t value = record {
  expected = t.expected + 1;
  count = t.count + 1;
  out_of_order = if value == t.expected then t.out_of_order else t.out_of_order + 1;
}

-- Both threads and what they share. `i` is the loop variable of the producer.
pub record State : Type 0 where
  pub shared : Shared ℕ
  pub producer : Producer ℕ
  pub consumer : Consumer ℕ
  pub i : ℕ
  pub tally : Tally

module _ (capacity n : ℕ) where
  -- A step of the producer, with `i` before and after.
  pub data Push : Shared ℕ → Producer ℕ → ℕ → Shared ℕ → Producer ℕ → ℕ → Type 0 where
    begin :
        {m m' : Shared ℕ} {h i : ℕ}
        → i < n
        → Produce capacity m Producer.idle m' (Producer.has_head i h)
        → Push m Producer.idle i m' (Producer.has_head i h) i
    read :
        {m m' : Shared ℕ} {v v' h h' t i : ℕ}
        → Produce capacity m (Producer.has_head v h) m' (Producer.has_tail v' h' t)
        → Push m (Producer.has_head v h) i m' (Producer.has_tail v' h' t) i
    write :
        {m m' : Shared ℕ} {v v' h h' t i : ℕ}
        → Produce capacity m (Producer.has_tail v h t) m' (Producer.constructed v' h')
        → Push m (Producer.has_tail v h t) i m' (Producer.constructed v' h') i
    pushed :
        {m m' : Shared ℕ} {v h i : ℕ}
        → Produce capacity m (Producer.constructed v h) m' Producer.idle
        → Push m (Producer.constructed v h) i m' Producer.idle (i + 1)
    refused :
        {m m' : Shared ℕ} {v h t i : ℕ}
        → Produce capacity m (Producer.has_tail v h t) m' Producer.idle
        → Push m (Producer.has_tail v h t) i m' Producer.idle i

  -- A step of the consumer, with its variables before and after.
  pub data Pop : Shared ℕ → Consumer ℕ → Tally → Shared ℕ → Consumer ℕ → Tally → Type 0 where
    begin :
        {m m' : Shared ℕ} {t : ℕ} {y : Tally}
        → y.count < n
        → Consume capacity m Consumer.idle m' (Consumer.has_tail t)
        → Pop m Consumer.idle y m' (Consumer.has_tail t) y
    read :
        {m m' : Shared ℕ} {t t' h : ℕ} {y : Tally}
        → Consume capacity m (Consumer.has_tail t) m' (Consumer.has_head t' h)
        → Pop m (Consumer.has_tail t) y m' (Consumer.has_head t' h) y
    take :
        {m m' : Shared ℕ} {t t' h x : ℕ} {y : Tally}
        → Consume capacity m (Consumer.has_head t h) m' (Consumer.moved x t')
        → Pop m (Consumer.has_head t h) y m' (Consumer.moved x t') y
    popped :
        {m m' : Shared ℕ} {t x : ℕ} {y : Tally}
        → Consume capacity m (Consumer.moved x t) m' Consumer.idle
        → Pop m (Consumer.moved x t) y m' Consumer.idle (check y x)
    missed :
        {m m' : Shared ℕ} {t h : ℕ} {y : Tally}
        → Consume capacity m (Consumer.has_head t h) m' Consumer.idle
        → Pop m (Consumer.has_head t h) y m' Consumer.idle y

  pub data Step : State → State → Type 0 where
    produce :
        {s : State} {m : Shared ℕ} {p : Producer ℕ} {i : ℕ}
        → Push s.shared s.producer s.i m p i
        → Step s (record s { shared = m; producer = p; i = i })
    consume :
        {s : State} {m : Shared ℕ} {c : Consumer ℕ} {y : Tally}
        → Pop s.shared s.consumer s.tally m c y
        → Step s (record s { shared = m; consumer = c; tally = y })

  -- What the two threads do from one state to another, in any interleaving.
  pub data Steps : State → State → Type 0 where
    done : {s : State} → Steps s s
    step : {s s' s'' : State} → Step s s' → Steps s' s'' → Steps s s''

unfoldable pub start : State
unfolding Spsc.new
start = record {
  shared = record { queue = Spsc.new; sent = []; received = [] };
  producer = Producer.idle;
  consumer = Consumer.idle;
  i = 0;
  tally = record { expected = 0; count = 0; out_of_order = 0 };
}
