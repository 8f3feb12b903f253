-- ===== src/Processor/Read.antt =====
-- The reading in RunThread of lib/processing_engine/Processor.cc: the first half of a round, which takes
-- resources from the input queue or from the input module up to the first multi module. The calls of
-- UpdateSleeping around GetItem are in Engine/Threads.
pub mod Limit
use hector_core.Prelude.{
  ℕ, zero, suc, ◌+◌, Bool, true, false, ◌&&◌, Option, none, some, List, [], ◌∷◌, ◌++◌,
  if◌then◌else◌, ◌==◌, ltb_ℤ, ℤ, pos,
}
use hector_core.Processor.{Resource, count_up}
use hector_core.Processor.Apply.{
  ModuleType, input, output, simple, multi, invalid, Applied, next_multi,
}
use hector_core.Processor.Route.{Routing}
use hector_core.Processor.Multi.{
  Multi, Setting, Round, apply_modules_of, queue_resource_of, update, routing, routed,
}

-- What the test of `pauseInput` finds: it is not set, it is cleared after a while, or it is set until
-- the processor is stopped.
pub data Gate : Type 0 where
  unpaused : Gate
  continued : Gate
  stopped : Gate

-- `arriving` is what `GetItem` of the input queue is going to return, where `none` is NULL, `gates` what
-- the tests of `pauseInput` find.
pub record Reading (B W Q : Type 0) : Type 0 where
  pub round : Round B W Q
  pub arriving : List (Option (Resource B))
  pub gates : List Gate
  pub resources_read : ℕ

-- The loop ends, or `RunThread` returns. `stuck` is no end of the code: the fuel ran out.
pub data Ended (B W Q : Type 0) : Type 0 where
  over : Reading B W Q → Ended B W Q
  cancelled : Ended B W Q
  stuck : Ended B W Q

-- `none` is a failed assertion.
abbrev pub Read : Type 0 → Type 0 → Type 0 → Type 0
Read B W Q = Option (Ended B W Q)

abbrev pub More : Type 0 → Type 0 → Type 0 → Type 0
More B W Q = Reading B W Q → Read B W Q

unfoldable pub reads_module : List ModuleType → Bool
reads_module [] = false
reads_module (input ∷ ms) = true
reads_module (output ∷ ms) = false
reads_module (simple ∷ ms) = false
reads_module (multi ∷ ms) = false
reads_module (invalid ∷ ms) = false

abbrev pub push_input : {B : Type 0} → Resource B → Multi B → Multi B
push_input r m = record m { inputs = m.inputs ++ r ∷ [] }

module _ {B W Q : Type 0} where
  abbrev pub waits : Reading B W Q → Bool
  waits x = x.round.block && x.resources_read == 0

  abbrev pub is_read : Round B W Q → Reading B W Q → Reading B W Q
  is_read s x = record x { round = s; resources_read = x.resources_read + 1 }

  -- The end of `QueueResource`.
  unfoldable pub after_queue : More B W Q → Reading B W Q → Option (Bool × Routing B Q) → Read B W Q
  after_queue rest x none = none
  after_queue rest x (some (false, ro)) = some cancelled
  after_queue rest x (some (true, ro)) =
      rest (is_read (record (routed ro x.round) { filter_index = 0 }) x)

  unfoldable pub pass_gate : More B W Q → Reading B W Q → Gate → Read B W Q
  pass_gate rest x unpaused = rest x
  pass_gate rest x continued = if x.round.block then rest x else some (over x)
  pass_gate rest x stopped = if x.round.block then some cancelled else some (over x)

-- `counts`: the input queue is the engine's.
module _ {B W Q : Type 0} (p : Setting B W Q) (ms : List ModuleType) (counts : Bool) where
  -- A resource that has passed the modules goes to the first multi module, or to the next processors.
  unfoldable pub deliver : Option ℕ → More B W Q → Reading B W Q → Resource B → Read B W Q
  unfolding after_queue
  deliver (some k) rest x r = rest (
      is_read
        (record x.round { multis = update x.round.multis k (push_input r (x.round.multis k)) }) x)
  deliver none rest x r = after_queue rest x (queue_resource_of p r 0 (routing x.round))

  unfoldable pub after_apply : More B W Q → Reading B W Q → Applied B W → Read B W Q
  unfolding deliver next_multi
  after_apply rest x none = none
  after_apply rest x (some (none, stop, st)) =
      if waits x && stop
      then some cancelled
      else some (over (record x { round = record x.round { applied = st } }))
  after_apply rest x (some (some r, stop, st)) =
      deliver (next_multi ms 0) rest (record x { round = record x.round { applied = st } }) r

  abbrev pub apply_to : More B W Q → Option (Resource B) → Reading B W Q → Read B W Q
  apply_to rest o x = after_apply rest x (apply_modules_of p ms 0 o x.round.applied)

  abbrev pub counted : Reading B W Q → Reading B W Q
  counted x =
      is_read
        (record x.round {
          applied = record x.round.applied {
            calls = x.round.applied.calls ++ (if counts then count_up ∷ [] else []);
          };
        })
        x

  -- One resource from the input queue.
  unfoldable pub after_item : More B W Q → Reading B W Q → List (Option (Resource B)) → Read B W Q
  unfolding after_apply
  after_item rest x [] = if waits x then some cancelled else some (over x)
  after_item rest x (none ∷ l) =
      if waits x then some cancelled else some (over (record x { arriving = l }))
  after_item rest x (some r ∷ l) = apply_to rest (some r) (counted (record x { arriving = l }))

  unfoldable pub at_gate : More B W Q → Reading B W Q → List Gate → Read B W Q
  unfolding pass_gate after_apply
  at_gate rest x [] = apply_to rest none x
  at_gate rest x (g ∷ gs) = pass_gate (apply_to rest none) (record x { gates = gs }) g

  abbrev pub read_one : More B W Q → More B W Q
  read_one rest x = if reads_module ms then at_gate rest x x.gates else after_item rest x x.arriving

  -- The loop while `resourcesRead < readMax`.
  unfoldable pub read_loop : ℕ → ℤ → More B W Q
  unfolding after_item at_gate reads_module
  read_loop zero read_max x =
      if ltb_ℤ (pos x.resources_read) read_max then some stuck else some (over x)
  read_loop (suc fuel) read_max x =
      let one = read_one (read_loop fuel read_max) x in
      if ltb_ℤ (pos x.resources_read) read_max then one else some (over x)
