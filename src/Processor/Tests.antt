-- ===== src/Processor/Tests.antt =====
-- Runs of a small processor, and the theorems at concrete inputs.
use hector_core.Prelude.{
  ℕ, suc, ◌+◌, true, false, Option, none, some, List, [], ◌∷◌, ◌++◌, ◌≡◌, ◌≢◌, refl, pos, length,
}
use hector_core.SyncQueue.Simple.{SimpleQueue, is_space_for, put_item}
use hector_core.SyncQueue.{SyncQueue, find, replace, put_item_enter, put_loop, put_found}
use hector_core.Processor.{Resource, count_up, count_down}
use hector_core.Processor.Apply.{
  ModuleType, input, simple, multi, check_modules, check_from, check_module, State, apply_modules,
  read_input, after_input, after_simple,
}
use hector_core.Processor.Apply.Checked.{checked_modules_apply, first_resource}
use hector_core.Processor.Apply.Balance.{apply_modules-Accounts, Accounts}
use hector_core.Processor.Route.{OutputFilter, Routing, discard_deleted, after_discard}
use hector_core.Processor.Route.Discard.{discard_deleted-Discards, Discards}
use hector_core.Processor.Route.Connect.{
  NamedFilter, Target, to_processor, to_engine, Network, connect, queue_of, output_queue,
  connect-puts,
}
use hector_core.Objects.Maps.{equal}
use hector_core.Prelude.{All}
use hector_core.SyncQueue.{has_queue, add_queue, empty, sort, insert}
use hector_core.SyncQueue.Simple.{new}
use hector_core.Processor.Route.Store.{store_queues, put_into}

abbrev pub page : Resource ℕ
page = record { id = 7; type_id = 1; status = pos 0; skip = false; deleted = false; content = 100 }

abbrev pub gone_page : Resource ℕ
gone_page = record page { deleted = true }

-- A module that keeps what it is given, and counts.
abbrev pub passes : ℕ → Resource ℕ → ℕ → Option (Resource ℕ) × ℕ
passes i r w = (some r, w + 1)

abbrev pub start : State ℕ ℕ
start = record {
  coming = some page ∷ [];
  world = 0;
  deleted_resources = [];
  released = [];
  calls = [];
}

abbrev modules : List ModuleType
modules = input ∷ simple ∷ multi ∷ simple ∷ []

checked_modules_apply_example :
    (apply_modules passes passes modules 0 (first_resource passes passes modules page) start ≢ none)
    × ((pre post : List ModuleType) (m : ModuleType)
        → modules ≡ pre ++ m ∷ post
        → apply_modules passes passes post (suc (length pre)) (some page) start ≢ none)
unfolding check_modules check_from check_module
checked_modules_apply_example = checked_modules_apply passes passes 0 2 modules page start refl

abbrev applied : State ℕ ℕ
applied = record start { coming = []; world = 1; calls = count_up ∷ [] }

pub passes-some : (i : ℕ) (r : Resource ℕ) (w : ℕ) → (passes i r w).0 ≢ none
passes-some i r w e = cc

apply_modules-Accounts_example : Accounts none start (some page, false, applied)
unfolding apply_modules read_input after_input after_simple
apply_modules-Accounts_example =
    apply_modules-Accounts passes passes passes-some modules 0 none start
      (some page, false, applied) (refl, tt) refl

abbrev pub size : Resource ℕ → ℕ
size r = 1

abbrev pub sub_queue : List (Resource ℕ) → SimpleQueue (Resource ℕ)
sub_queue rs = record {
  priority = pos 0;
  max_items = 2;
  max_size = 0;
  queue_size = length rs;
  queue = rs;
}

abbrev pub holding : List (Resource ℕ) → SyncQueue (Resource ℕ)
holding rs = record {
  waiting_readers = 0;
  waiting_writers = 0;
  cancel = false;
  paused = false;
  queues = sub_queue rs ∷ [];
}

-- The place 0 is the queue of another processor, the place 1 the engine's output queue.
abbrev two_queues : Routing ℕ (List (SyncQueue (Resource ℕ)))
two_queues = record { queues = holding [] ∷ holding [] ∷ []; released = []; calls = [] }

abbrev filters : List OutputFilter
filters =
    record { filter = some (pos 0); priority = pos 0; copy = true; queue = 0 }
    ∷ record { filter = some (pos 4); priority = pos 0; copy = false; queue = 0 }
    ∷ record { filter = none; priority = pos 0; copy = false; queue = 1 }
    ∷ []

abbrev pub clone : Resource ℕ → Resource ℕ
clone r = record r { id = 8 }

abbrev routed : Routing ℕ (List (SyncQueue (Resource ℕ)))
routed = record {
  queues = holding (clone page ∷ []) ∷ holding (page ∷ []) ∷ [];
  released = [];
  calls = count_up ∷ count_down ∷ [];
}

discard_deleted-Discards_example :
    Discards
      (store_queues size)
      clone
      (some 1)
      (gone_page ∷ gone_page ∷ gone_page ∷ [])
      two_queues
      (gone_page ∷ [])
      (record two_queues {
        queues = holding [] ∷ holding (gone_page ∷ gone_page ∷ []) ∷ [];
        calls = count_down ∷ count_down ∷ [];
      })
unfolding discard_deleted after_discard store_queues put_into put_item_enter put_found put_loop find
    replace is_space_for put_item
discard_deleted-Discards_example =
    discard_deleted-Discards (store_queues size) clone (some 1)
      (gone_page ∷ gone_page ∷ gone_page ∷ []) (gone_page ∷ []) two_queues
      (record two_queues {
        queues = holding [] ∷ holding (gone_page ∷ gone_page ∷ []) ∷ [];
        calls = count_down ∷ count_down ∷ [];
      })
      refl

-- "p" is a processor, "e" an engine without an output queue yet.
abbrev objects : List (List ℕ × Target)
objects = (112 ∷ [], to_processor 0) ∷ (101 ∷ [], to_engine 0) ∷ []

abbrev named_filters : List NamedFilter
named_filters =
    record { filter = some (pos 0); priority = pos 0; copy = true; processor = 112 ∷ [] }
    ∷ record { filter = none; priority = pos 0; copy = false; processor = 101 ∷ [] }
    ∷ []

abbrev network : Network ℕ
network = record { store = holding [] ∷ []; outputs = none ∷ [] }

abbrev unlimited : SyncQueue (Resource ℕ)
unlimited = record {
  waiting_readers = 0;
  waiting_writers = 0;
  cancel = false;
  paused = false;
  queues = record (sub_queue []) { max_items = 0 } ∷ [];
}

abbrev connected : Network ℕ
connected = record { store = holding [] ∷ unlimited ∷ []; outputs = some 1 ∷ [] }

abbrev connected_filters : List OutputFilter
connected_filters =
    record { filter = some (pos 0); priority = pos 0; copy = true; queue = 0 }
    ∷ record { filter = none; priority = pos 0; copy = false; queue = 1 }
    ∷ []

connect-puts_example :
    All
      (λ f. (r : Resource ℕ) → put_into size f.queue f.priority r connected.store ≢ none)
      connected_filters
    × ((more : List (SyncQueue (Resource ℕ))) × (connected.store ≡ network.store ++ more))
unfolding connect queue_of output_queue equal has_queue add_queue empty find sort insert new
connect-puts_example =
    connect-puts size objects named_filters network connected connected_filters refl
