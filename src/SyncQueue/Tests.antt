-- ===== src/SyncQueue/Tests.antt =====
-- Runs of a small SyncQueue, and the theorems at concrete inputs. An item is its own size.
use hector_core.Prelude.{
  sum, get_elem?, ℕ, true, false, none, some, List, [], ◌∷◌, ◌++◌, ◌≡◌, refl, ℤ, arith, Option,
}
use hector_core.SyncQueue.Simple.{SimpleQueue, comp, is_space_for, put_item}
use hector_core.SyncQueue.Order.{contents, IsOrdered}
use hector_core.SyncQueue.Take.{Gets, Puts, get_loop_lem, put_loop_lem}
use hector_core.SyncQueue.Valid.{IsValid}
use hector_core.SyncQueue.Batch.{
  drain_all, take_many, drain_all-take_many, put_all, put_items_enter,
}
use hector_core.SyncQueue.Threads.Invariant.{reads, writes}
use hector_core.SyncQueue.Threads.{
  System, Event, put, get, enter, wake, initial, run, idle, reading, writing, drain_readers, step,
}
use hector_core.SyncQueue.Threads.Safety.{IsFresh, fifo_always, no_lost_wakeup, counters_and_limits}
use hector_core.SyncQueue.{
  SyncQueue, returns, sort, insert, replace, find, empty, add_queue, put_loop, get_loop,
}

abbrev size : ℕ → ℕ
size r = r

-- Priority 5 with at most two items, then priority 0 with a total size of at most 10.
abbrev urgent : SimpleQueue ℕ
urgent = record { priority = ℤ.pos 5; max_items = 2; max_size = 0; queue_size = 0; queue = [] }

abbrev normal : SimpleQueue ℕ
normal = record { priority = ℤ.pos 0; max_items = 0; max_size = 10; queue_size = 0; queue = [] }

abbrev two_queues : SyncQueue ℕ
two_queues = record {
  waiting_readers = 0;
  waiting_writers = 0;
  cancel = false;
  paused = false;
  queues = urgent ∷ normal ∷ [];
}

abbrev filled : SyncQueue ℕ
filled = record two_queues {
  queues =
      record urgent { queue = 3 ∷ []; queue_size = 3 }
      ∷ record normal { queue = 4 ∷ 6 ∷ []; queue_size = 10 }
      ∷ [];
}

built : add_queue empty (ℤ.pos 0) 0 10 ≡ some (record two_queues { queues = normal ∷ [] })
unfolding add_queue empty find sort insert comp
built = refl

built_both : add_queue (record two_queues { queues = normal ∷ [] }) (ℤ.pos 5) 2 0 ≡ some two_queues
unfolding add_queue find sort insert comp
built_both = refl

two_queues-IsOrdered : IsOrdered two_queues.queues
two_queues-IsOrdered = omega arith

get_loop_lem_example : Gets size filled true (get_loop size filled true)
get_loop_lem_example = get_loop_lem size filled true (omega arith)

put_loop_lem_example :
    Puts size filled 2
      (ℤ.pos 5)
      (record urgent { queue = 3 ∷ []; queue_size = 3 })
      true
      (put_loop size filled (record urgent { queue = 3 ∷ []; queue_size = 3 }) 2 true)
unfolding find
put_loop_lem_example =
    put_loop_lem size filled 2 (ℤ.pos 5) (record urgent { queue = 3 ∷ []; queue_size = 3 }) true
      refl

filled-IsValid : IsValid size filled
filled-IsValid = record { ordered = omega arith; within = omega arith }

fresh-contents : (p : ℤ) → contents p two_queues.queues ≡ []
unfolding contents find
fresh-contents p = ground arith

two_queues-IsFresh : IsFresh size two_queues
two_queues-IsFresh = record {
  valid = record { ordered = omega arith; within = omega arith };
  readers = refl;
  writers = refl;
  empty = fresh-contents;
}

-- Thread 0 waits for an item, thread 1 puts one, and thread 0 wakes and takes it. Thread 1 then puts
-- two items of which the second does not fit, and waits.
abbrev events : List (Event ℕ)
events =
    get 0 true
    ∷ enter 0
    ∷ put 1 7 (ℤ.pos 0) true
    ∷ enter 1
    ∷ wake 0 false
    ∷ put 1 8 (ℤ.pos 0) true
    ∷ enter 1
    ∷ put 1 4 (ℤ.pos 0) true
    ∷ enter 1
    ∷ []

abbrev or_initial : Option (System ℕ) → System ℕ
or_initial none = initial two_queues 2
or_initial (some t) = t

abbrev final : System ℕ
final = or_initial (run size (initial two_queues 2) events)

ran : run size (initial two_queues 2) events ≡ some final
unfolding run initial find replace is_space_for put_item contents
ran = refl

final_state :
    (final.threads ≡ idle ∷ writing 4 (ℤ.pos 0) false ∷ [])
    × (final.gone (ℤ.pos 0) ≡ 7 ∷ [])
    × (final.accepted (ℤ.pos 0) ≡ 7 ∷ 8 ∷ [])
unfolding run initial find replace is_space_for put_item
final_state = (refl, refl, refl)

fifo_always_example :
    final.accepted (ℤ.pos 0) ≡ final.gone (ℤ.pos 0) ++ contents (ℤ.pos 0) final.queue.queues
fifo_always_example = fifo_always size two_queues 2 events final two_queues-IsFresh ran (ℤ.pos 0)

no_lost_wakeup_example :
    (get_elem? final.threads 1 ≡ some (reading false)
      → (p : ℤ) → contents p final.queue.queues ≡ [])
    × ((r : ℕ) (p : ℤ)
        → get_elem? final.threads 1 ≡ some (writing r p false)
        → (q : SimpleQueue ℕ) × (find p final.queue.queues ≡ some q)
          × (is_space_for q (size r) ≡ false))
no_lost_wakeup_example = no_lost_wakeup size two_queues 2 events final two_queues-IsFresh ran 1

counters_and_limits_example :
    (sum reads final.threads ≡ final.queue.waiting_readers)
    × (sum writes final.threads ≡ final.queue.waiting_writers)
    × IsValid size final.queue
counters_and_limits_example =
    counters_and_limits size two_queues 2 events final two_queues-IsFresh ran

-- `Stop` is in its first loop while thread 1 still waits.
abbrev stopping : System ℕ
stopping = record final { queue = record (final.queue) { cancel = true }; phase = drain_readers }

woken : System ℕ
unfolding run initial find replace is_space_for put_item
woken = or_initial (step size stopping (wake 1 false))

stopping_wakes : step size stopping (wake 1 false) ≡ some woken
unfolding woken step run initial find replace is_space_for put_item
stopping_wakes = refl

drain_all-take_many_example : drain_all size 2 filled.queues ≡ take_many size 2 filled.queues
drain_all-take_many_example = drain_all-take_many size 2 filled.queues

drain_all_runs : (drain_all size 2 filled.queues).0 ≡ some 3 ∷ some 4 ∷ []
unfolding drain_all
drain_all_runs = refl

put_all_runs : (put_all size 2 (5 ∷ 6 ∷ []) normal).0 ≡ 1
unfolding put_all
put_all_runs = refl

refused : put_items_enter size two_queues (1 ∷ 2 ∷ []) (ℤ.pos 5) true ≡ some (returns 0, two_queues)
unfolding put_items_enter find replace
refused = refl
