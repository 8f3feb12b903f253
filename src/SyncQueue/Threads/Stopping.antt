-- ===== src/SyncQueue/Threads/Stopping.antt =====
-- `Stop` of lib/SyncQueue.h: its waiting loops end, and what it leaves behind.
use hector_core.Prelude.{
  ℕ, ◌+◌, ◌-◌, Bool, true, false, Option, none, some, List, [], ◌∷◌, ◌≡◌, refl, ℤ, get_elem?, set,
  sum-set, arith, ◌≢◌, length,
}
use hector_core.SyncQueue.{put_item_enter, put_item_resume, get_item_enter, get_item_resume}
use hector_core.SyncQueue.Order.{contents}
use hector_core.SyncQueue.Threads.Invariant.{reads, writes, Inv}
use hector_core.SyncQueue.Threads.Signalled.{waiting, IsSignalled}
use hector_core.SyncQueue.Threads.{
  Thread, idle, putting, getting, reading, writing, System, Phase, no_stop, drain_readers,
  drain_writers, Event, put, get, enter, wake, stop, stop_turn, starts, pauses, resumes, after_put,
  after_get, writers_turn, readers_turn, turn, begin_stop, call, enters, wakes, step,
}

module _ {A : Type 0} where
  -- A wake-up, and any other event but `starts`.
  abbrev pub wakeups : Event A → ℕ
  wakeups (wake i timed_out) = 1
  wakeups _ = 0

module _ {A : Type 0} (size : A → ℕ) where
  enters-cancel :
      (s : System A) (i : ℕ) (t : Option (Thread A)) {s' : System A}
      → s.queue.cancel ≡ true
      → enters size s i t ≡ some s'
      → (s'.queue.cancel ≡ true) × (waiting s' ≡ waiting s)
  unfolding enters put_item_enter get_item_enter
  enters-cancel s i none c e = cc
  enters-cancel s i (some idle) c e = cc
  enters-cancel s i (some (putting r p w)) c e = ground arith
  enters-cancel s i (some (getting w)) c e = ground arith
  enters-cancel s i (some (writing r p b)) c e = cc
  enters-cancel s i (some (reading b)) c e = cc

  -- With `cancel` set, a thread that wakes stops waiting, and its call returns.
  wake_writer :
      (s : System A) (i : ℕ) (timed_out : Bool) (r : A) (p : ℤ) (b : Bool)
      → s.queue.cancel ≡ true
      → wakes size s i timed_out (some (writing r p b))
        ≡ some (record s {
          queue = record (s.queue) { waiting_writers = s.queue.waiting_writers - 1 };
          threads = set s.threads i idle;
        })
  unfolding wakes put_item_resume after_put
  wake_writer s i timed_out r p b c = ground arith

  wake_reader :
      (s : System A) (i : ℕ) (timed_out b : Bool)
      → s.queue.cancel ≡ true
      → wakes size s i timed_out (some (reading b))
        ≡ some (record s {
          queue = record (s.queue) { waiting_readers = s.queue.waiting_readers - 1 };
          threads = set s.threads i idle;
        })
  unfolding wakes get_item_resume after_get
  wake_reader s i timed_out b c = ground arith

  wakes-cancel :
      (s : System A) (i : ℕ) (timed_out : Bool) (t : Option (Thread A)) {s' : System A}
      → Inv size s
      → get_elem? s.threads i ≡ t
      → s.queue.cancel ≡ true
      → wakes size s i timed_out t ≡ some s'
      → (s'.queue.cancel ≡ true) × (waiting s' + 1 ≡ waiting s)
  unfolding wakes
  wakes-cancel s i timed_out none v h c e = cc
  wakes-cancel s i timed_out (some idle) v h c e = cc
  wakes-cancel s i timed_out (some (putting r p w)) v h c e = cc
  wakes-cancel s i timed_out (some (getting w)) v h c e = cc
  wakes-cancel s i timed_out (some (writing r p b)) v h c e = ground (
    arith,
    wake_writer s i timed_out r p b c,
    sum-set writes s.threads i (writing r p b) idle h,
    v.writers,
  )
  wakes-cancel s i timed_out (some (reading b)) v h c e = ground (
    arith,
    wake_reader s i timed_out b c,
    sum-set reads s.threads i (reading b) idle h,
    v.readers,
  )

  call-cancel :
      (s : System A) (i : ℕ) (t : Thread A) (o : Option (Thread A)) {s' : System A}
      → call s i t o ≡ some s'
      → s'.queue ≡ s.queue
  unfolding call
  call-cancel s i t none e = cc
  call-cancel s i t (some idle) e = ground arith
  call-cancel s i t (some (putting r p w)) e = cc
  call-cancel s i t (some (getting w)) e = cc
  call-cancel s i t (some (writing r p b)) e = cc
  call-cancel s i t (some (reading b)) e = cc

  -- What a turn of `Stop` changes besides the items.
  abbrev Turned : System A → System A → Type 0
  Turned s s' =
      (s'.queue.cancel ≡ s.queue.cancel)
      × (s'.queue.waiting_readers ≡ s.queue.waiting_readers)
      × (s'.queue.waiting_writers ≡ s.queue.waiting_writers)

  readers_turn-Turned : (s : System A) → Turned s (readers_turn s)
  unfolding readers_turn
  readers_turn-Turned s = ground arith

  writers_turn-Turned : (s : System A) → Turned s (writers_turn s)
  unfolding writers_turn
  writers_turn-Turned s = ground arith

  turn-Turned :
      (s : System A) (phase : Phase) {s' : System A} → turn s phase ≡ some s' → Turned s s'
  unfolding turn
  turn-Turned s no_stop e = cc
  turn-Turned s drain_readers e = ground (arith, readers_turn-Turned s)
  turn-Turned s drain_writers e = ground (arith, writers_turn-Turned s)

  begin_stop-waiting :
      (s : System A) (phase : Phase) {s' : System A}
      → begin_stop s phase ≡ some s'
      → (s'.queue.cancel ≡ true) × (waiting s' ≡ waiting s)
  unfolding begin_stop
  begin_stop-waiting s no_stop e = ground (
    arith,
    readers_turn-Turned
        (record s { queue = record (s.queue) { cancel = true }; phase = drain_readers }),
  )
  begin_stop-waiting s drain_readers e = cc
  begin_stop-waiting s drain_writers e = cc

  -- While `cancel` is set and `Start` is not called, no step adds a thread that waits, and each
  -- wake-up takes one away: the loops of `Stop` run as long as threads have not woken, and no longer.
  pub draining :
      (s t : System A) (e : Event A)
      → Inv size s
      → s.queue.cancel ≡ true
      → e ≢ starts
      → step size s e ≡ some t
      → (t.queue.cancel ≡ true) × (waiting t + wakeups e ≡ waiting s)
  unfolding step
  draining s t (put i r p w) v c n e =
      ground (arith, call-cancel s i (putting r p w) (get_elem? s.threads i) e)
  draining s t (get i w) v c n e =
      ground (arith, call-cancel s i (getting w) (get_elem? s.threads i) e)
  draining s t (enter i) v c n e = ground (arith, enters-cancel s i (get_elem? s.threads i) c e)
  draining s t (wake i timed_out) v c n e =
      wakes-cancel s i timed_out (get_elem? s.threads i) v refl c e
  draining s t stop v c n e = ground (arith, begin_stop-waiting s s.phase e)
  draining s t stop_turn v c n e = ground (arith, turn-Turned s s.phase e)
  draining s t starts v c n e = absurd (n refl)
  draining s t pauses v c n e = ground arith
  draining s t resumes v c n e = ground arith

  -- Turns of `Stop`, behind each but the last of which a thread wakes that was signalled.
  abbrev pub Drains : List ℕ → System A → System A → Type 0
  Drains [] s t = step size s stop_turn ≡ some t
  Drains (i ∷ is) s t =
      (u : System A) × (v : System A) × (th : Thread A) × (step size s stop_turn ≡ some u)
      × (get_elem? u.threads i ≡ some th)
      × IsSignalled th
      × (step size u (wake i false) ≡ some v)
      × Drains is v t

  -- How `Stop` may end from a state in which `k` threads wait.
  abbrev pub Completes : ℕ → System A → Type 0
  Completes k s =
      (is : List ℕ) × (t : System A) × (length is ≡ k)
      × Drains is s t
      × (t.phase ≡ no_stop)
      × (waiting t ≡ 0)
      × ((p : ℤ) → contents p t.queue.queues ≡ [])
