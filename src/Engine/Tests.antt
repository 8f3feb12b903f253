-- ===== src/Engine/Tests.antt =====
-- Runs of a small processing engine, and the theorems at concrete inputs.
use hector_core.Prelude.{
  sum, ◌+◌, ℕ, true, false, List, [], ◌∷◌, ◌++◌, ◌≡◌, ◌↔◌, ◌⊎◌, refl, pos, negsuc,
}
use hector_core.Processor.{Resource}
use hector_core.Engine.Sleep.{
  Section, count, processor_sleeps, check, new_engine, run, step, check_sleeping, update_count,
  processor_sleeping, processor_wakeup, sleeps-when-idle, Engine, Report, report_sleeping,
  report_wakeup,
}
use hector_core.Engine.Sleep
use hector_core.Engine.Threads
use hector_core.Engine.Delivery.{
  Event, section, tells, Delivery, nothing_told, act, act_all, remove,
}
use hector_core.Engine.Reports.{
  one, sleep_reports, wakeup_reports, reports_balanced, sleep_notices, wakeup_notices,
  processor_reports,
}
use hector_core.Engine.Control
use hector_core.Engine.Collect.{
  get_processed_resources_ordered, Collector, collect_ordered, take_finished, absorb, lookup, erase,
}
use hector_core.Engine.Collect.Unordered.{
  collect_set, collect_waiting, absorb_set, absorb_one, has_id, erase_id, scan,
}
use hector_core.Engine.Collect.Unordered.Whole
use hector_core.Engine.Collect.Order.{get_processed_resources_ordered-in_order, Collects}

abbrev sections : List Section
sections = count (pos 1) ∷ processor_sleeps ∷ check ∷ count (negsuc 0) ∷ []

-- The engine falls asleep and wakes up, and the server is told of the second change first.
abbrev late : List (Event Section)
late =
    section (count (pos 1))
    ∷ section processor_sleeps
    ∷ section (count (negsuc 0))
    ∷ section check
    ∷ section (count (pos 1))
    ∷ section check
    ∷ tells 1
    ∷ []

abbrev informed : Delivery Engine Report
informed = act_all Sleep.step late (nothing_told (new_engine 1))

told_late : (informed.told ≡ report_wakeup ∷ []) × (informed.pending ≡ report_sleeping ∷ [])
unfolding act_all act remove Sleep.step check_sleeping update_count processor_sleeping
    processor_wakeup new_engine
told_late = (refl, refl)

reports_balanced_example :
    sum sleep_reports informed.told + sum sleep_reports informed.pending
    ≡ sum wakeup_reports informed.told
      + sum wakeup_reports informed.pending
      + one informed.state.sleeping
reports_balanced_example = reports_balanced 1 late informed refl

sleeps-when-idle_example : ((run (sections ++ check ∷ []) (new_engine 1)).0.sleeping ≡ true) ↔ (
    ((run (sections ++ check ∷ []) (new_engine 1)).0.processors_sleeping
      ≡ pos (run (sections ++ check ∷ []) (new_engine 1)).0.processors)
    × ((run (sections ++ check ∷ []) (new_engine 1)).0.resource_count ≡ pos 0))
unfolding run step check_sleeping update_count processor_sleeping processor_wakeup new_engine
sleeps-when-idle_example = sleeps-when-idle sections (new_engine 1) refl

asleep : (run (sections ++ check ∷ []) (new_engine 1)).0.sleeping ≡ true
unfolding run step check_sleeping update_count processor_sleeping processor_wakeup new_engine
asleep = refl

abbrev no_threads : Threads.Threads
no_threads = record { running_threads = pos 0; sleeping_threads = pos 0; sleeping = false }

-- Two threads start and one goes to sleep; nothing is reported yet.
abbrev history : List (Event Threads.Move)
history = section Threads.starts ∷ section Threads.starts ∷ section Threads.falls ∷ []

abbrev notified : Delivery Threads.Threads Threads.Notice
notified = act_all Threads.move history (nothing_told no_threads)

processor_reports_example :
    (sum sleep_notices notified.told + sum sleep_notices notified.pending
      ≡ sum wakeup_notices notified.told
        + sum wakeup_notices notified.pending
        + one notified.state.sleeping)
    × (((Threads.move Threads.falls notified.state).0.sleeping ≡ true) ↔ (
        (Threads.move Threads.falls notified.state).0.sleeping_threads
        ≡ (Threads.move Threads.falls notified.state).0.running_threads))
unfolding act_all act Threads.move Threads.fall_asleep Threads.thread_starts Threads.report
processor_reports_example =
    processor_reports history Threads.falls no_threads notified refl refl (λ e. cc) refl

abbrev running : Control.Control
running = record {
  has_queue = true;
  processors = 2;
  prop_run = true;
  prop_pause = false;
  cancel = false;
  pause_locks = pos 0;
  resource_count = pos 0;
  orders = [];
}

run-IsLocked_example :
    Control.IsLocked (
      Control.run
        (Control.sets_pause (49 ∷ []) ∷ Control.stop_begins ∷ Control.pauses ∷ [])
        running)
run-IsLocked_example =
    Control.run-IsLocked (Control.sets_pause (49 ∷ []) ∷ Control.stop_begins ∷ Control.pauses ∷ [])
      running refl

abbrev page : ℕ → Resource ℕ
page id = record {
  id = id;
  type_id = 1;
  status = pos 0;
  skip = false;
  deleted = false;
  content = 100;
}

abbrev waiting : Collector ℕ
waiting = record { finished = (2, page 2) ∷ []; output = [] }

-- The resource 5 is another thread's.
abbrev collected : Collector ℕ
collected = record { finished = (5, page 5) ∷ []; output = page 1 ∷ page 2 ∷ page 3 ∷ [] }

-- The same resources in the order in which they came.
abbrev collected_set : Collector ℕ
collected_set = record { finished = (5, page 5) ∷ []; output = page 1 ∷ page 2 ∷ page 3 ∷ [] }

get_processed_resources_ordered-in_order_example :
    Collects (1 ∷ 2 ∷ 3 ∷ []) waiting [] collected
    × ((true ≡ true) × (true ≡ true) → ◌≡◌ {A = List ℕ} [] [])
    × (true ≡ false → (true ≡ false) ⊎ (true ≡ true))
unfolding get_processed_resources_ordered collect_ordered take_finished absorb lookup erase
get_processed_resources_ordered-in_order_example =
    get_processed_resources_ordered-in_order true
      (record { first = page 5; others = page 1 ∷ [] }
        ∷ record { first = page 3; others = [] }
        ∷ [])
      true (1 ∷ 2 ∷ 3 ∷ []) [] waiting collected true (refl, tt) refl

-- The resource 4 is not there in time.
collect_set-Ends_example :
    Whole.Ends true (1 ∷ 2 ∷ 4 ∷ 3 ∷ []) waiting (false, 4 ∷ [], collected_set)
unfolding collect_set collect_waiting absorb_set absorb_one has_id erase_id scan take_finished
    lookup erase
collect_set-Ends_example =
    Whole.collect_set-Ends
      (record { first = page 5; others = page 1 ∷ [] }
        ∷ record { first = page 3; others = [] }
        ∷ [])
      true (1 ∷ 2 ∷ 4 ∷ 3 ∷ []) waiting (refl, tt)
