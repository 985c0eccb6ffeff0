-- ===== src/Examples/WaitFree.antt =====
-- examples/thread_pool_lockfree_example.cpp: `example_wait_free_demo`. A producer thread pushes the numbers
-- below a bound once each, and a consumer thread pops until it has counted that many, both on one
-- `SPSCQueue`. The accesses inside `push` and `pop` are the steps of Spsc/Concurrent; a thread's own
-- counter goes up in the step in which its call ends.
pub mod Safety
pub mod Loops
pub mod Progress
use cpp_systems_playground.Prelude.{ℕ, ◌+◌, ◌<◌, [], ◌∷◌}
use cpp_systems_playground.Spsc
use cpp_systems_playground.Spsc.Concurrent.{Producer, Consumer, Shared, Produce, Consume}

-- Both threads and what they share. `i` is the loop variable of the producer.
pub record State : Type 0 where
  pub shared : Shared ℕ
  pub producer : Producer ℕ
  pub consumer : Consumer ℕ
  pub i : ℕ
  pub total_pushed : ℕ
  pub total_popped : ℕ

module _ (capacity count : ℕ) where
  -- A step of the producer, with `i` and `total_pushed` before and after.
  pub data Push : Shared ℕ → Producer ℕ → ℕ → ℕ → Shared ℕ → Producer ℕ → ℕ → ℕ → Type 0 where
    begin :
        {m m' : Shared ℕ} {h i a : ℕ}
        → i < count
        → Produce capacity m Producer.idle m' (Producer.has_head i h)
        → Push m Producer.idle i a m' (Producer.has_head i h) i a
    read :
        {m m' : Shared ℕ} {v v' h h' t i a : ℕ}
        → Produce capacity m (Producer.has_head v h) m' (Producer.has_tail v' h' t)
        → Push m (Producer.has_head v h) i a m' (Producer.has_tail v' h' t) i a
    write :
        {m m' : Shared ℕ} {v v' h h' t i a : ℕ}
        → Produce capacity m (Producer.has_tail v h t) m' (Producer.constructed v' h')
        → Push m (Producer.has_tail v h t) i a m' (Producer.constructed v' h') i a
    pushed :
        {m m' : Shared ℕ} {v h i a : ℕ}
        → Produce capacity m (Producer.constructed v h) m' Producer.idle
        → Push m (Producer.constructed v h) i a m' Producer.idle (i + 1) (a + 1)
    refused :
        {m m' : Shared ℕ} {v h t i a : ℕ}
        → Produce capacity m (Producer.has_tail v h t) m' Producer.idle
        → Push m (Producer.has_tail v h t) i a m' Producer.idle (i + 1) a

  -- A step of the consumer, with `total_popped` before and after.
  pub data Pop : Shared ℕ → Consumer ℕ → ℕ → Shared ℕ → Consumer ℕ → ℕ → Type 0 where
    begin :
        {m m' : Shared ℕ} {t b : ℕ}
        → b < count
        → Consume capacity m Consumer.idle m' (Consumer.has_tail t)
        → Pop m Consumer.idle b m' (Consumer.has_tail t) b
    read :
        {m m' : Shared ℕ} {t t' h b : ℕ}
        → Consume capacity m (Consumer.has_tail t) m' (Consumer.has_head t' h)
        → Pop m (Consumer.has_tail t) b m' (Consumer.has_head t' h) b
    take :
        {m m' : Shared ℕ} {t t' h x b : ℕ}
        → Consume capacity m (Consumer.has_head t h) m' (Consumer.moved x t')
        → Pop m (Consumer.has_head t h) b m' (Consumer.moved x t') b
    popped :
        {m m' : Shared ℕ} {t x b : ℕ}
        → Consume capacity m (Consumer.moved x t) m' Consumer.idle
        → Pop m (Consumer.moved x t) b m' Consumer.idle (b + 1)
    missed :
        {m m' : Shared ℕ} {t h b : ℕ}
        → Consume capacity m (Consumer.has_head t h) m' Consumer.idle
        → Pop m (Consumer.has_head t h) b m' Consumer.idle b

  pub data Step : State → State → Type 0 where
    produce :
        {s : State} {m : Shared ℕ} {p : Producer ℕ} {i a : ℕ}
        → Push s.shared s.producer s.i s.total_pushed m p i a
        → Step s (record s { shared = m; producer = p; i = i; total_pushed = a })
    consume :
        {s : State} {m : Shared ℕ} {c : Consumer ℕ} {b : ℕ}
        → Pop s.shared s.consumer s.total_popped m c b
        → Step s (record s { shared = m; consumer = c; total_popped = b })

  -- What the two threads do from one state to another, in any interleaving.
  pub data Steps : State → State → Type 0 where
    done : {s : State} → Steps s s
    step : {s s' s'' : State} → Step s s' → Steps s' s'' → Steps s s''

-- The two threads have been created and the queue is empty.
unfoldable pub start : State
unfolding Spsc.new
start = record {
  shared = record { queue = Spsc.new; sent = []; received = [] };
  producer = Producer.idle;
  consumer = Consumer.idle;
  i = 0;
  total_pushed = 0;
  total_popped = 0;
}
