-- ===== src/Processor/Multi.antt =====
-- The multi modules in RunThread of lib/processing_engine/Processor.cc: the second half of a round, from
-- the modules that take many resources to the queues of the next processors.
pub mod Emptied
pub mod Accounts
pub mod Lost
mod Tests
use hector_core.Prelude.{
  ℕ, zero, suc, ◌+◌, ◌-◌, Bool, true, false, ◌&&◌, Option, none, some, List, [], ◌∷◌, ◌++◌,
  if◌then◌else◌, length, ◌==◌, ltb, ltb_ℤ, ℤ, pos, negsuc, ◌+ℤ◌, sub_ℕ, arith, ◌≡◌, ◌≢◌,
}
use hector_core.Processor.{Resource, Call, count_up}
use hector_core.Processor.Apply.{
  ModuleType, invalid, input, output, simple, multi, State, Applied, apply_modules, next_multi,
}
use hector_core.Processor.Route.{OutputFilter, Queues, Routing, queue_resource, discard_deleted}

-- The queues of a multi module, and the number of resources that it works on.
pub record Multi (B : Type 0) : Type 0 where
  pub inputs : List (Resource B)
  pub outputs : List (Resource B)
  pub processing : ℕ

-- What a thread keeps in a round: what `ApplyModules` changes, the queues of the next processors, the
-- multi modules by their index, `outputFilterResource` and `outputFilterIndex`, `block`, `minN` and
-- `resourcesQueued`.
pub record Round (B W Q : Type 0) : Type 0 where
  pub applied : State B W
  pub queues : Q
  pub multis : ℕ → Multi B
  pub waiting : Option (Resource B)
  pub filter_index : ℕ
  pub block : Bool
  pub min_n : ℤ
  pub resources_queued : ℕ

-- What is left in `outputResources` when the loop on them ends, where `none` is a failed assertion.
abbrev pub Drained : Type 0 → Type 0 → Type 0 → Type 0
Drained B W Q = Option (List (Resource B) × Round B W Q)

abbrev pub Onward : Type 0 → Type 0 → Type 0 → Type 0
Onward B W Q = Round B W Q → Drained B W Q

-- The round goes on, or `RunThread` returns.
pub data Turn (B W Q : Type 0) : Type 0 where
  returned : Turn B W Q
  goes_on : Round B W Q → Turn B W Q

abbrev pub update : {B : Type 0} → (ℕ → Multi B) → ℕ → Multi B → ℕ → Multi B
update ms k m j = if j == k then m else ms j

pub update_other :
    {B : Type 0} (ms : ℕ → Multi B) (k : ℕ) (m : Multi B) (j : ℕ) → j ≢ k → update ms k m j ≡ ms j
update_other ms k m j h = ground arith

pub update_same : {B : Type 0} (ms : ℕ → Multi B) (k : ℕ) (m : Multi B) → update ms k m k ≡ m
update_same ms k m = ground arith

abbrev pub counted_up : ℕ → List Call
counted_up zero = []
counted_up (suc n) = count_up ∷ counted_up n

unfoldable pub size : {B : Type 0} → Multi B → ℕ
size m = length m.inputs + length m.outputs + m.processing

-- A resource moves to the next multi module, past it where it is marked to be skipped.
unfoldable pub forward : {B : Type 0} → Resource B → Multi B → Multi B
forward r m =
    if r.skip
    then record m { outputs = m.outputs ++ r ∷ [] }
    else record m { inputs = m.inputs ++ r ∷ [] }

-- `n -= inputResources->size()` and `if (n < minN) minN = n`.
unfoldable pub less_n : {B : Type 0} → ℤ → ℤ → Multi B → ℤ
less_n min n m = let room = n +ℤ sub_ℕ 0 (length m.inputs) in if ltb_ℤ room min then room else min

module _ {B W Q : Type 0} where
  abbrev pub routing : Round B W Q → Routing B Q
  routing s = record { queues = s.queues; released = s.applied.released; calls = s.applied.calls }

  abbrev pub routed : Routing B Q → Round B W Q → Round B W Q
  routed ro s = record s {
    queues = ro.queues;
    applied = record s.applied { released = ro.released; calls = ro.calls };
  }

  -- The end of `QueueResource` for the resource that was just taken, and for the one that waited.
  unfoldable pub after_own :
      Onward B W Q
      → List (Resource B)
      → Resource B
      → Round B W Q
      → Option (Bool × Routing B Q)
      → Drained B W Q
  after_own rest rs r s none = none
  after_own rest rs r s (some (false, ro)) = some (rs, record (routed ro s) { waiting = some r })
  after_own rest rs r s (some (true, ro)) =
      rest (record (routed ro s) { resources_queued = s.resources_queued + 1 })

  unfoldable pub after_waiting :
      Onward B W Q → List (Resource B) → Round B W Q → Option (Bool × Routing B Q) → Drained B W Q
  after_waiting rest rs s none = none
  after_waiting rest rs s (some (false, ro)) = some (rs, routed ro s)
  after_waiting rest rs s (some (true, ro)) = rest (record (routed ro s) {
    waiting = none;
    filter_index = 0;
    resources_queued = s.resources_queued + 1;
  })

  -- The resources that `ProcessMulti` added are counted by one call of `UpdateResourceCount`.
  abbrev pub called : ℕ → Multi B → Round B W Q → Bool × ℤ × Multi B × W → Round B W Q
  called index m s (busy, n, m', w) = record s {
    multis = update s.multis index m';
    min_n = less_n s.min_n n m';
    block = if busy then false else s.block;
    applied = record s.applied {
      world = w;
      calls = s.applied.calls ++ counted_up (size m' - size m);
    };
  }

  unfoldable pub after_multi :
      ℕ → Multi B → Round B W Q → Bool × ℤ × Multi B × W → Option (Round B W Q)
  unfolding size less_n
  after_multi index m s (busy, n, m', w) =
      if ltb (size m') (size m) then none else some (called index m s (busy, n, m', w))

  -- What follows the loop on `outputResources`: where some are left, the thread returns, or the assertion
  -- on `multiIndex`, which is the index of this module, fails.
  unfoldable pub after_drain : ℕ → Drained B W Q → Option (Turn B W Q)
  after_drain index none = none
  after_drain index (some ([], s)) = some (
      goes_on
        (record s { multis = update s.multis index (record (s.multis index) { outputs = [] }) }))
  after_drain index (some (r ∷ rs, s)) =
      if s.block && s.resources_queued == 0 then some returned else none

  unfoldable pub then_next :
      (Round B W Q → Option (Turn B W Q)) → Option (Turn B W Q) → Option (Turn B W Q)
  then_next rest none = none
  then_next rest (some returned) = some returned
  then_next rest (some (goes_on s)) = rest s

-- What a processor is set up with: the queues and filters behind it, `Clone`, the engine's output queue,
-- and its modules. `ProcessMulti` of the module at an index returns whether it is busy, what it stores at
-- `expectResources`, and its queues.
pub record Setting (B W Q : Type 0) : Type 0 where
  pub store : Queues B Q
  pub clone : Resource B → Resource B
  pub engine_output : Option ℕ
  pub filters : List OutputFilter
  pub process_simple : ℕ → Resource B → W → Option (Resource B) × W
  pub process_output : ℕ → Resource B → W → Option (Resource B) × W
  pub process_multi : ℕ → Multi B → W → Bool × ℤ × Multi B × W

module _ {B W Q : Type 0} (p : Setting B W Q) where
  abbrev pub queue_resource_of : Resource B → ℕ → Routing B Q → Option (Bool × Routing B Q)
  queue_resource_of = queue_resource p.store p.clone p.engine_output p.filters

  abbrev pub apply_modules_of : List ModuleType → ℕ → Option (Resource B) → State B W → Applied B W
  apply_modules_of = apply_modules p.process_simple p.process_output

  abbrev pub queue_own : Onward B W Q → List (Resource B) → Resource B → Onward B W Q
  queue_own rest rs r s = after_own rest rs r s (queue_resource_of r s.filter_index (routing s))

  unfoldable pub queue_out :
      Option (Resource B) → Onward B W Q → List (Resource B) → Resource B → Onward B W Q
  unfolding after_own after_waiting
  queue_out none rest rs r s = queue_own rest rs r s
  queue_out (some w) rest rs r s =
      after_waiting (queue_own rest rs r) rs s (queue_resource_of w s.filter_index (routing s))

  -- `next` is the index of the next multi module.
  unfoldable pub pass_on : Option ℕ → Onward B W Q → List (Resource B) → Resource B → Onward B W Q
  unfolding queue_out forward
  pass_on none rest rs r s = queue_out s.waiting rest rs r s
  pass_on (some k) rest rs r s =
      rest (record s { multis = update s.multis k (forward r (s.multis k)) })

  unfoldable pub after_applied :
      Option ℕ → Onward B W Q → List (Resource B) → Round B W Q → Applied B W → Drained B W Q
  unfolding pass_on
  after_applied next rest rs s none = none
  after_applied next rest rs s (some (none, stop, st)) = rest (record s { applied = st })
  after_applied next rest rs s (some (some r, stop, st)) =
      pass_on next rest rs r (record s { applied = st })

  -- The loop on `outputResources` of a multi module. `ms` are the modules behind it, from `index` on.
  unfoldable pub drain : List ModuleType → ℕ → Option ℕ → List (Resource B) → Onward B W Q
  unfolding after_applied
  drain ms index next [] s = some ([], s)
  drain ms index next (r ∷ rs) s =
      let rest = drain ms index next rs in
      if r.deleted
      then rest (record s {
        applied = record s.applied { deleted_resources = s.applied.deleted_resources ++ r ∷ [] };
      })
      else after_applied next rest rs s (apply_modules_of ms index (some r) s.applied)

  -- The call of `ProcessMulti`: a module that has fewer resources than before fails the assertion.
  unfoldable pub call_multi : ℕ → Multi B → Round B W Q → Option (Round B W Q)
  unfolding after_multi
  call_multi index m s = after_multi index m s (p.process_multi index m s.applied.world)

  unfoldable pub after_call : List ModuleType → ℕ → Option (Round B W Q) → Option (Turn B W Q)
  unfolding after_drain drain next_multi
  after_call ms index none = none
  after_call ms index (some s) = after_drain index (
      drain ms (suc index) (next_multi ms (suc index)) ((s.multis index).outputs)
        (record s { resources_queued = 0 }))

  -- The loop on the multi modules, from the module at `index` on.
  unfoldable pub run_multis : List ModuleType → ℕ → Round B W Q → Option (Turn B W Q)
  unfolding call_multi after_call then_next
  run_multis [] index s = some (goes_on s)
  run_multis (multi ∷ ms) index s =
      then_next (run_multis ms (suc index))
        (after_call ms index (call_multi index (s.multis index) s))
  run_multis (invalid ∷ ms) index s = run_multis ms (suc index) s
  run_multis (input ∷ ms) index s = run_multis ms (suc index) s
  run_multis (output ∷ ms) index s = run_multis ms (suc index) s
  run_multis (simple ∷ ms) index s = run_multis ms (suc index) s
