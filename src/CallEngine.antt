-- ===== src/CallEngine.antt =====
-- CallProcessingEngine of lib/processing_engine/CallProcessingEngine.cc: a module hands its resources to
-- another engine. The engine is an interface; `CallEngine.Served` is an engine that fills it.
pub mod Steady
pub mod Rounds
pub mod Whole
pub mod Served
mod Tests
use hector_core.Prelude.{
  ℕ, zero, suc, ◌-◌, Bool, true, false, Option, none, some, List, [], ◌∷◌, ◌++◌, map, length,
  if◌then◌else◌, ◌==◌, ltb, leb, ◌&&◌, ◌||◌, not,
}
use hector_core.Processor.{Resource}
use hector_core.Engine.Collect.Unordered.{has_id}

-- What the code calls of an engine, with the state `E`. The Boolean says that a timeout is given. The
-- two collecting operations give the ids that are left, the resources put out, and the state;
-- `none` is the read behind the end of the ids.
pub record Target (B E : Type 0) : Type 0 where
  pub process_resource : Resource B → Bool → E → Bool × E
  pub get_processed : Bool → List ℕ → E → List ℕ × List (Resource B) × E
  pub get_processed_ordered : Bool → List ℕ → E → Option (List ℕ × List (Resource B) × E)

-- What does not change in an object: the derived class overrides `prepare` and `finish`.
pub record Caller (B E : Type 0) : Type 0 where
  pub max_requests : ℕ
  pub ordered : Bool
  pub prepare : Resource B → Option (Resource B)
  pub finish : Resource B → Resource B
  pub target : Target B E

-- The state, with the queues of the call. `ids` is `runningSet` where `ordered` is set and
-- `runningVector` where it is not; the other one stays empty.
pub record Calling (B E : Type 0) : Type 0 where
  pub tmp : Option (Resource B)
  pub running : ℕ
  pub ids : List ℕ
  pub inputs : List (Resource B)
  pub outputs : List (Resource B)
  pub engine : E

-- A loop on fuel: it has not ended, the engine read behind its ids, or it ends.
pub data Outcome (A : Type 0) : Type 0 where
  ran_out : Outcome A
  overrun : Outcome A
  ends : A → Outcome A

unfoldable pub add_id : Bool → ℕ → List ℕ → List ℕ
add_id true k ids = if has_id k ids then ids else k ∷ ids
add_id false k ids = ids ++ k ∷ []

unfoldable pub is_empty : {A : Type 0} → List A → Bool
is_empty [] = true
is_empty (x ∷ xs) = false

abbrev pub stored : {A : Type 0} → Option A → ℕ
stored none = 0
stored (some x) = 1

-- `processInput`, `changed` and the state.
abbrev pub Progress : Type 0 → Type 0 → Type 0
Progress B E = Bool × Bool × Calling B E

module _ {B E : Type 0} (c : Caller B E) where
  abbrev pub submitted :
      Resource B → List (Resource B) → Bool → Calling B E → Bool × E → Progress B E
  submitted r ins changed s (true, e) = (
    true,
    true,
    record s {
      tmp = none;
      running = suc s.running;
      ids = add_id c.ordered r.id s.ids;
      inputs = ins;
      engine = e;
    },
  )
  submitted r ins changed s (false, e) =
      (false, changed, record s { tmp = some r; inputs = ins; engine = e })

  -- `ins` is what the input queue holds afterwards.
  unfoldable pub submit : Bool → Resource B → List (Resource B) → Bool → Calling B E → Progress B E
  submit tv r ins changed s =
      submitted r ins changed s (c.target.process_resource r (tv && s.running == 0) s.engine)

  abbrev pub retry : Bool → Calling B E → Option (Resource B) → Progress B E
  retry tv s none = (true, false, s)
  retry tv s (some r) =
      if leb s.running c.max_requests then submit tv r s.inputs false s else (true, false, s)

  abbrev pub one_input :
      Bool
      → Resource B
      → List (Resource B)
      → Bool
      → Calling B E
      → Option (Resource B)
      → Progress B E
  one_input tv src ins changed s none =
      (true, changed, record s { tmp = none; inputs = ins; outputs = s.outputs ++ src ∷ [] })
  one_input tv src ins changed s (some r) = submit tv r ins changed s

  -- The first argument is the input queue of the state.
  unfoldable pub inputs_loop : Bool → List (Resource B) → Progress B E → Progress B E
  inputs_loop tv [] p = p
  inputs_loop tv (src ∷ ins) (go, changed, s) =
      if go && ltb s.running c.max_requests
      then inputs_loop tv ins (one_input tv src ins changed s (c.prepare src))
      else (go, changed, s)

  abbrev pub collected :
      Bool → Calling B E → Option (List ℕ × List (Resource B) × E) → Option (Bool × Calling B E)
  collected changed s none = none
  collected changed s (some (left, finished, e)) = some (
    changed || not (is_empty finished),
    record s {
      running = length left;
      ids = left;
      outputs = s.outputs ++ map c.finish finished;
      engine = e;
    },
  )

  abbrev pub ask : Bool → Calling B E → Option (List ℕ × List (Resource B) × E)
  ask tv s =
      if c.ordered
      then some (c.target.get_processed tv s.ids s.engine)
      else c.target.get_processed_ordered tv s.ids s.engine

  unfoldable pub collect : Bool → Bool → Calling B E → Option (Bool × Calling B E)
  collect tv changed s =
      if s.running == 0 then some (changed, s) else collected changed s (ask tv s)

  abbrev pub after_inputs : Bool → Progress B E → Option (Bool × Calling B E)
  after_inputs tv (go, changed, s) = collect tv changed s

  -- `ReadWrite` with an output queue. The result is `changed`.
  unfoldable pub read_write : Bool → Calling B E → Option (Bool × Calling B E)
  read_write tv s = let p = retry tv s s.tmp in after_inputs tv (inputs_loop tv p.2.inputs p)

  abbrev pub polled :
      (Calling B E → Outcome (Calling B E)) → Option (Bool × Calling B E) → Outcome (Calling B E)
  polled rest none = overrun
  polled rest (some (true, s)) = rest s
  polled rest (some (false, s)) = ends s

  -- The loop that does not block.
  unfoldable pub poll : ℕ → Calling B E → Outcome (Calling B E)
  poll zero s = ran_out
  poll (suc n) s = let rest = poll n in polled rest (read_write false s)

  abbrev pub report : Outcome (Calling B E) → Outcome (ℕ × ℕ × Calling B E)
  report ran_out = ran_out
  report overrun = overrun
  report (ends s) = ends (s.running, c.max_requests - s.running - stored s.tmp, s)

  abbrev pub after_block : ℕ → Option (Bool × Calling B E) → Outcome (Calling B E)
  after_block n none = overrun
  after_block n (some (changed, s)) = poll n s

  abbrev pub after_poll : ℕ → Outcome (Calling B E) → Outcome (ℕ × ℕ × Calling B E)
  after_poll n ran_out = ran_out
  after_poll n overrun = overrun
  after_poll n (ends s) =
      if s.running == 0
      then ends (0, c.max_requests - stored s.tmp, s)
      else report (after_block n (read_write true s))

  -- `Process`: its result, `expectingResources`, and the state. Each loop has the fuel `n`.
  unfoldable pub process : ℕ → Calling B E → Outcome (ℕ × ℕ × Calling B E)
  process n s = after_poll n (poll n s)
