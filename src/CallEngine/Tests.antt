-- ===== src/CallEngine/Tests.antt =====
-- A call of `Process` over a small engine.
use hector_core.Prelude.{ℕ, true, false, none, some, [], ◌∷◌, ◌≡◌, refl, pos}
use hector_core.Processor.{Resource}
use hector_core.Engine.Collect.{lookup, erase, take_finished}
use hector_core.Engine.Collect.Unordered.{
  collect_set, get_processed_resources, collect_waiting, absorb_set, absorb_one, has_id, erase_id,
  scan,
}
use hector_core.CallEngine.{
  Caller, Calling, ends, process, poll, read_write, inputs_loop, submit, collect, add_id, is_empty,
}
use hector_core.CallEngine.Served.{Served, served, process_resource, get_processed}

abbrev page : ℕ → Resource ℕ
page id = record {
  id = id;
  type_id = 1;
  status = pos 0;
  skip = false;
  deleted = false;
  content = 100;
}

abbrev caller : Caller ℕ (Served ℕ)
caller = record {
  max_requests = 2;
  ordered = true;
  prepare = λ r. some r;
  finish = λ r. r;
  target = served;
}

-- The input queue of the engine takes two resources. The call that blocks finds both of them ready.
abbrev engine : Served ℕ
engine = record {
  has_input = true;
  has_output = true;
  accepts = true ∷ true ∷ [];
  batches = [] ∷ [] ∷ (record { first = page 8; others = page 7 ∷ [] } ∷ []) ∷ [];
  finished = [];
}

abbrev calling : Calling ℕ (Served ℕ)
calling = record {
  tmp = none;
  running = 0;
  ids = [];
  inputs = page 7 ∷ page 8 ∷ page 9 ∷ [];
  outputs = [];
  engine = engine;
}

-- The third resource is stored, since the input queue has become full.
process_run :
    process caller 12 calling
    ≡ ends (
      0,
      1,
      record {
        tmp = some (page 9);
        running = 0;
        ids = [];
        inputs = [];
        outputs = page 8 ∷ page 7 ∷ [];
        engine = record {
          has_input = true;
          has_output = true;
          accepts = [];
          batches = [];
          finished = [];
        };
      },
    )
unfolding process poll read_write inputs_loop submit collect add_id is_empty collect_set
    get_processed_resources collect_waiting absorb_set absorb_one has_id erase_id scan lookup erase
    take_finished process_resource get_processed
process_run = refl
