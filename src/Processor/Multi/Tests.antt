-- ===== src/Processor/Multi/Tests.antt =====
-- Rounds of a small processor, and the theorems at concrete inputs.
use hector_core.Prelude.{
  ℕ, zero, suc, Bool, true, false, Option, none, some, List, [], ◌∷◌, ◌≡◌, refl, ℤ, pos, arith,
}
use hector_core.SyncQueue.Simple.{is_space_for, put_item}
use hector_core.SyncQueue.{SyncQueue, find, replace, put_item_enter, put_loop, put_found}
use hector_core.Processor.{Resource}
use hector_core.Processor.Tests.{page, gone_page, passes, passes-some, start, size, holding, clone}
use hector_core.Processor.Apply.{ModuleType, simple, multi, apply_modules, after_simple, next_multi}
use hector_core.Processor.Route.{
  queue_resource, queue_loop, queue_end, accepts, after_put, is_output,
}
use hector_core.Processor.Route.Store.{store_queues, put_into}
use hector_core.Processor.Multi
use hector_core.Processor.Multi.{
  Multi, Setting, Round, goes_on, forward, queue_resource_of, queue_out, pass_on, after_own,
  after_applied, drain, less_n, after_multi, call_multi, after_drain, after_call, then_next,
  run_multis, routing, called,
}
use hector_core.Processor.Multi.Emptied.{SameBelow, Emptied, run_multis-Emptied}
use hector_core.Processor.Multi.Accounts.{MovedOn, drain-MovedOn}
use hector_core.Processor.Multi.Lost.{Lost, waiting-Lost}
use hector_core.Processor.Read.{
  Reading, Read, over, cancelled, stuck, reads_module, after_queue, pass_gate, deliver, after_apply,
  after_item, at_gate, read_loop,
}
use hector_core.Processor.Read.Limit.{given, Ends, read_loop-Ends}

abbrev Queues : Type 0
Queues = List (SyncQueue (Resource ℕ))

abbrev nothing : Multi ℕ
nothing = record { inputs = []; outputs = []; processing = 0 }

-- A multi module that returns at once what it is given.
abbrev at_once : ℕ → Multi ℕ → ℕ → Bool × ℤ × Multi ℕ × ℕ
at_once i m w = (false, pos 10, record m { inputs = []; outputs = m.inputs }, w)

abbrev setting : Setting ℕ ℕ Queues
setting = record {
  store = store_queues size;
  clone = clone;
  engine_output = some 1;
  filters = record { filter = none; priority = pos 0; copy = false; queue = 0 } ∷ [];
  process_simple = passes;
  process_output = passes;
  process_multi = at_once;
}

-- The multi module 0 has one resource, and the queue behind the processor is empty.
abbrev one_page : ℕ → Multi ℕ
one_page zero = record nothing { inputs = page ∷ [] }
one_page (suc i) = nothing

abbrev round : Round ℕ ℕ Queues
round = record {
  applied = record start { coming = [] };
  queues = holding [] ∷ [];
  multis = one_page;
  waiting = none;
  filter_index = 0;
  block = true;
  min_n = pos 1000000;
  resources_queued = 0;
}

abbrev modules : List ModuleType
modules = multi ∷ simple ∷ multi ∷ []

drain-MovedOn_example : MovedOn 2 2 round (
  [],
  record round {
    applied = record round.applied { world = 1; deleted_resources = gone_page ∷ [] };
    multis = Multi.update one_page 2 (record nothing { inputs = page ∷ [] });
  },
)
unfolding drain after_applied pass_on forward apply_modules after_simple
drain-MovedOn_example =
    drain-MovedOn setting passes-some (simple ∷ multi ∷ []) 1 2 (page ∷ gone_page ∷ []) round
      (
        [],
        record round {
          applied = record round.applied { world = 1; deleted_resources = gone_page ∷ [] };
          multis = Multi.update one_page 2 (record nothing { inputs = page ∷ [] });
        },
      )
      tt refl

-- The round that a loop on the multi modules ends with.
abbrev last_round : Option (Multi.Turn ℕ ℕ Queues) → Round ℕ ℕ Queues
last_round none = round
last_round (some Multi.returned) = round
last_round (some (goes_on s)) = s

abbrev finished : Round ℕ ℕ Queues
unfolding run_multis then_next after_call after_drain drain after_applied pass_on forward queue_out
    after_own call_multi after_multi less_n Multi.size apply_modules after_simple next_multi
    queue_resource queue_loop queue_end accepts after_put is_output store_queues put_into
    put_item_enter put_found put_loop find replace is_space_for put_item
finished = last_round (run_multis setting modules 0 round)

run_multis-Emptied_example : SameBelow 0 round finished × Emptied modules 0 finished.multis
unfolding run_multis then_next after_call after_drain drain after_applied pass_on forward queue_out
    after_own call_multi after_multi less_n Multi.size apply_modules after_simple next_multi
    queue_resource queue_loop queue_end accepts after_put is_output store_queues put_into
    put_item_enter put_found put_loop find replace is_space_for put_item
run_multis-Emptied_example = run_multis-Emptied setting modules 0 round finished refl

-- One resource waits for the queue, which is full.
abbrev full_round : Round ℕ ℕ Queues
full_round = record round { queues = holding (page ∷ page ∷ []) ∷ []; waiting = some page }

waiting-Lost_example :
    (s' : Round ℕ ℕ Queues) × (run_multis setting (multi ∷ []) 0 full_round ≡ some (goes_on s'))
    × Lost setting full_round.queues 0 (record nothing { outputs = page ∷ [] }) page full_round s'
unfolding less_n Multi.size queue_resource queue_loop queue_end accepts after_put is_output
    store_queues put_into put_item_enter put_found put_loop find replace is_space_for put_item
waiting-Lost_example =
    waiting-Lost setting 0 page page (record nothing { outputs = page ∷ [] }) full_round
      (routing full_round) false (pos 10) 0 refl refl refl (omega arith) refl refl

-- Three resources arrive, and the multi module behind the simple one can take two.
abbrev arrived : Reading ℕ ℕ Queues
arrived = record {
  round = record round { multis = λ i. nothing };
  arriving = some page ∷ some page ∷ some page ∷ [];
  gates = [];
  resources_read = 0;
}

abbrev last_reading : Read ℕ ℕ Queues → Reading ℕ ℕ Queues
last_reading none = arrived
last_reading (some (over x)) = x
last_reading (some cancelled) = arrived
last_reading (some stuck) = arrived

abbrev taken : Reading ℕ ℕ Queues
unfolding read_loop after_item at_gate reads_module pass_gate after_apply deliver after_queue
    apply_modules after_simple next_multi
taken = last_reading (read_loop setting (simple ∷ multi ∷ []) true 2 (pos 2) arrived)

read_loop-Ends_example : Ends 2 1 arrived (over taken)
unfolding read_loop after_item at_gate reads_module pass_gate after_apply deliver after_queue
    apply_modules after_simple next_multi
read_loop-Ends_example =
    read_loop-Ends setting (simple ∷ multi ∷ []) true 2 1 refl 2 arrived (over taken) (omega arith)
      refl

-- The code counts a resource from a queue twice: one of them is taken, not two.
takes_half : given 1 taken ≡ 1
unfolding taken
takes_half = refl
