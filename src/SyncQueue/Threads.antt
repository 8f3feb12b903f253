-- ===== src/SyncQueue/Threads.antt =====
-- Threads that share a SyncQueue of lib/SyncQueue.h. A step is one critical section of one thread, or
-- the passage of `pauseLock` before it; any thread that can move may move next. A thread that waits on
-- a condition may wake at any time, as POSIX allows; the flag says that it was signalled.
pub mod Invariant
pub mod Sections
pub mod Steps
pub mod Safety
pub mod Signalled
pub mod Stopping
use hector_core.Prelude.{
  ℕ, zero, suc, Bool, true, false, Option, none, some, List, [], ◌∷◌, ◌++◌, ℤ, eqb_ℤ, if◌then◌else◌,
  map, ltb, get_elem?, set,
}
use hector_core.SyncQueue.Simple.{SimpleQueue}
use hector_core.SyncQueue.Order.{contents}
use hector_core.SyncQueue.{
  SyncQueue, Outcome, returns, waits, first_non_empty, put_item_enter, put_item_resume,
  get_item_enter, get_item_resume, delete_items, start, pause, resume,
}

-- Where a thread stands, with the arguments of its call. The Boolean of `putting` and `getting` says
-- that the timeout is not NULL; that of `writing` and `reading` that the condition was signalled.
pub data Thread (A : Type 0) : Type 0 where
  idle : Thread A
  putting : A → ℤ → Bool → Thread A
  getting : Bool → Thread A
  writing : A → ℤ → Bool → Thread A
  reading : Bool → Thread A

-- Where `Stop` stands: not called, in its loop for the readers, in its loop for the writers.
pub data Phase : Type 0 where
  no_stop drain_readers drain_writers : Phase

-- `accepted` and `gone` record, for each priority, the items that calls of `PutItem` accepted, and
-- those that calls of `GetItem` returned or that `Stop` deleted. The code has no such fields.
pub record System (A : Type 0) : Type 0 where
  pub queue : SyncQueue A
  pub threads : List (Thread A)
  pub phase : Phase
  pub accepted : ℤ → List A
  pub gone : ℤ → List A

pub data Event (A : Type 0) : Type 0 where
  put : ℕ → A → ℤ → Bool → Event A
  get : ℕ → Bool → Event A
  enter : ℕ → Event A
  wake : ℕ → Bool → Event A
  stop stop_turn starts pauses resumes : Event A

module _ {A : Type 0} where
  -- The broadcasts `SignalRecv` and `SignalSend`.
  unfoldable pub signal_recv : Thread A → Thread A
  signal_recv (reading b) = reading true
  signal_recv t = t

  unfoldable pub signal_send : Thread A → Thread A
  signal_send (writing r p b) = writing r p true
  signal_send t = t

  abbrev pub log : (ℤ → List A) → ℤ → A → ℤ → List A
  log f p r p' = if eqb_ℤ p p' then f p' ++ r ∷ [] else f p'

  -- The priority that `GetItem` takes from.
  unfoldable pub first_priority : List (SimpleQueue A) → ℤ
  first_priority [] = ℤ.pos 0
  first_priority (q ∷ qs) = elim q.queue [ [] ↦ first_priority qs | _ ∷ _ ↦ q.priority ]

  -- How a section of `PutItem` leaves the system; `none` is a failed assertion.
  unfoldable pub after_put :
      System A → ℕ → A → ℤ → Option (Outcome Bool × SyncQueue A) → Option (System A)
  unfolding signal_recv
  after_put s i r p none = none
  after_put s i r p (some (waits, sq)) =
      some (record s { queue = sq; threads = set s.threads i (writing r p false) })
  after_put s i r p (some (returns false, sq)) =
      some (record s { queue = sq; threads = set s.threads i idle })
  after_put s i r p (some (returns true, sq)) = some (record s {
    queue = sq;
    threads = map signal_recv (set s.threads i idle);
    accepted = log s.accepted p r;
  })

  -- How a section of `GetItem` leaves it. `SignalSend` is called only where an item is returned.
  unfoldable pub after_get : System A → ℕ → Outcome (Option A) × SyncQueue A → System A
  unfolding signal_send first_priority
  after_get s i (waits, sq) = record s { queue = sq; threads = set s.threads i (reading false) }
  after_get s i (returns none, sq) = record s { queue = sq; threads = set s.threads i idle }
  after_get s i (returns (some r), sq) = record s {
    queue = sq;
    threads = map signal_send (set s.threads i idle);
    gone = log s.gone (first_priority s.queue.queues) r;
  }

  -- `Stop` deletes the items only in the turn that finds no thread waiting.
  unfoldable pub finish_stop : System A → System A
  unfolding delete_items
  finish_stop s = record s {
    queue = delete_items s.queue;
    phase = no_stop;
    gone = λ p. s.gone p ++ contents p s.queue.queues;
  }

  unfoldable pub writers_turn : System A → System A
  unfolding finish_stop signal_send
  writers_turn s =
      if ltb 0 s.queue.waiting_writers
      then record s { threads = map signal_send s.threads; phase = drain_writers }
      else finish_stop s

  unfoldable pub readers_turn : System A → System A
  unfolding writers_turn signal_recv
  readers_turn s =
      if ltb 0 s.queue.waiting_readers
      then record s { threads = map signal_recv s.threads }
      else writers_turn s

  unfoldable pub turn : System A → Phase → Option (System A)
  unfolding readers_turn
  turn s no_stop = none
  turn s drain_readers = some (readers_turn s)
  turn s drain_writers = some (writers_turn s)

  -- `Stop` sets `cancel` and makes its first turn without giving up the lock. One thread at a time is in
  -- `Stop`.
  unfoldable pub begin_stop : System A → Phase → Option (System A)
  unfolding readers_turn
  begin_stop s no_stop = some (
      readers_turn (record s { queue = record (s.queue) { cancel = true }; phase = drain_readers }))
  begin_stop s _ = none

  -- A call takes and gives back `pauseLock` first.
  unfoldable pub call : System A → ℕ → Thread A → Option (Thread A) → Option (System A)
  call s i t (some idle) =
      if s.queue.paused then none else some (record s { threads = set s.threads i t })
  call s i t _ = none

module _ {A : Type 0} (size : A → ℕ) where
  unfoldable pub enters : System A → ℕ → Option (Thread A) → Option (System A)
  unfolding after_put after_get put_item_enter get_item_enter
  enters s i (some (putting r p w)) = after_put s i r p (put_item_enter size s.queue r p w)
  enters s i (some (getting w)) = some (after_get s i (get_item_enter size s.queue w))
  enters s i _ = none

  unfoldable pub wakes : System A → ℕ → Bool → Option (Thread A) → Option (System A)
  unfolding after_put after_get put_item_resume get_item_resume
  wakes s i timed_out (some (writing r p b)) =
      after_put s i r p (put_item_resume size s.queue r p timed_out)
  wakes s i timed_out (some (reading b)) =
      some (after_get s i (get_item_resume size s.queue timed_out))
  wakes s i timed_out _ = none

  -- `none`: the step cannot be taken now, or an assertion fails.
  unfoldable pub step : System A → Event A → Option (System A)
  unfolding call enters wakes begin_stop turn start pause resume
  step s (put i r p w) = call s i (putting r p w) (get_elem? s.threads i)
  step s (get i w) = call s i (getting w) (get_elem? s.threads i)
  step s (enter i) = enters s i (get_elem? s.threads i)
  step s (wake i timed_out) = wakes s i timed_out (get_elem? s.threads i)
  step s stop = begin_stop s s.phase
  step s stop_turn = turn s s.phase
  step s starts = some (record s { queue = start s.queue })
  step s pauses = if s.queue.paused then none else some (record s { queue = pause s.queue })
  step s resumes = if s.queue.paused then some (record s { queue = resume s.queue }) else none

  unfoldable pub run : System A → List (Event A) → Option (System A)
  unfolding step
  run s [] = some s
  run s (e ∷ es) = elim (step s e) [ none ↦ none | some t ↦ run t es ]

-- `n` threads over a queue on which no call was made yet.
abbrev idle_threads : (A : Type 0) → ℕ → List (Thread A)
idle_threads A zero = []
idle_threads A (suc n) = idle ∷ idle_threads A n

unfoldable pub initial : {A : Type 0} → SyncQueue A → ℕ → System A
initial {A} sq n = record {
  queue = sq;
  threads = idle_threads A n;
  phase = no_stop;
  accepted = λ p. [];
  gone = λ p. [];
}
