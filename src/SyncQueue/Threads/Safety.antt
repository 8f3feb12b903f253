-- ===== src/SyncQueue/Threads/Safety.antt =====
-- What the threads of a SyncQueue may rely on, whatever the order of their steps.
use hector_core.Prelude.{
  ℕ, zero, suc, false, some, List, [], ◌++◌, ◌≡◌, refl, ℤ, get_elem?, All, All-get, sum, arith,
}
use hector_core.SyncQueue.Simple.{SimpleQueue, is_space_for}
use hector_core.SyncQueue.Order.{contents}
use hector_core.SyncQueue.Valid.{IsValid}
use hector_core.SyncQueue.{SyncQueue, find}
use hector_core.SyncQueue.Threads.{reading, writing, System, Event, initial, idle_threads, run}
use hector_core.SyncQueue.Threads.Invariant.{reads, writes, Parked, Inv}
use hector_core.SyncQueue.Threads.Steps.{run-Inv}

module _ {A : Type 0} (size : A → ℕ) where
  -- A queue that was just built: empty, with no thread waiting.
  pub record IsFresh (sq : SyncQueue A) : Type 0 where
    pub valid : IsValid size sq
    pub readers : sq.waiting_readers ≡ 0
    pub writers : sq.waiting_writers ≡ 0
    pub empty : (p : ℤ) → contents p sq.queues ≡ []

  idle-Parked : (sq : SyncQueue A) (n : ℕ) → All (Parked size sq.queues) (idle_threads A n)
  idle-Parked sq zero = tt
  idle-Parked sq (suc n) = (tt, idle-Parked sq n)

  idle_counts : (n : ℕ) → (sum reads (idle_threads A n) ≡ 0) × (sum writes (idle_threads A n) ≡ 0)
  idle_counts zero = (refl, refl)
  idle_counts (suc n) = omega (arith, idle_counts n)

  pub initial-Inv : (sq : SyncQueue A) (n : ℕ) → IsFresh sq → Inv size (initial sq n)
  unfolding initial
  initial-Inv sq n f = record {
    valid = f.valid;
    readers = omega (arith, idle_counts n, f.readers);
    writers = omega (arith, idle_counts n, f.writers);
    fifo = λ p. ground (arith, f.empty p);
    parked = idle-Parked sq n;
  }

  module _ (sq : SyncQueue A) (n : ℕ) (es : List (Event A)) (t : System A) (fresh : IsFresh sq)
      (ran : run size (initial sq n) es ≡ some t) where
    inv : Inv size t
    inv = run-Inv size es (initial sq n) t (initial-Inv sq n fresh) ran

    -- After any steps of any number of threads on a fresh queue, the items of each priority that
    -- `PutItem` accepted are those that left, followed by those that are queued, in the same order: no
    -- item is lost, made up or overtaken by another of its priority.
    pub fifo_always : (p : ℤ) → t.accepted p ≡ t.gone p ++ contents p t.queue.queues
    fifo_always = inv.fifo

    -- No wake-up is lost: a thread that waits and was not signalled since has nothing to do. While a
    -- reader stands so, no sub-queue has an item; while a writer does, its item does not fit.
    pub no_lost_wakeup :
        (i : ℕ)
        → (get_elem? t.threads i ≡ some (reading false) → (p : ℤ) → contents p t.queue.queues ≡ [])
          × ((r : A) (p : ℤ)
              → get_elem? t.threads i ≡ some (writing r p false)
              → (q : SimpleQueue A) × (find p t.queue.queues ≡ some q)
                × (is_space_for q (size r) ≡ false))
    no_lost_wakeup i = (
      (λ e. All-get (Parked size t.queue.queues) t.threads i (reading false) inv.parked e),
      λ r p e. All-get (Parked size t.queue.queues) t.threads i (writing r p false) inv.parked e,
    )

    -- The counters of the code are the numbers of threads that wait; the sub-queues stand in falling
    -- order of priority, within their limits.
    pub counters_and_limits :
        (sum reads t.threads ≡ t.queue.waiting_readers)
        × (sum writes t.threads ≡ t.queue.waiting_writers)
        × IsValid size t.queue
    counters_and_limits = (inv.readers, inv.writers, inv.valid)
