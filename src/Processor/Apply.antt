-- ===== src/Processor/Apply.antt =====
-- ApplyModules and the check of the modules in Init of lib/processing_engine/Processor.cc, over the
-- module types of lib/processing_engine/Module.h.
pub mod Checked
pub mod Balance
use hector_core.Prelude.{
  ℕ, zero, suc, ◌+◌, ◌-◌, Bool, true, false, ◌&&◌, ◌||◌, not, Option, none, some, List, [], ◌∷◌,
  ◌++◌, if◌then◌else◌, length, ◌==◌, ltb, arith, ◌≡◌,
}
use hector_core.Processor.{Resource, Call, count_up, count_down}

-- `Module::Type`.
pub data ModuleType : Type 0 where
  invalid : ModuleType
  input : ModuleType
  output : ModuleType
  simple : ModuleType
  multi : ModuleType

-- The test of one module in `Init`: `queues` and `filters` are the numbers of input queues and of
-- output filters, `n` the number of modules and `i` the index of this one.
unfoldable pub check_module : ℕ → ℕ → ℕ → ℕ → ModuleType → Bool
check_module queues filters n i invalid = true
check_module queues filters n i input = i == 0 && not (ltb 0 queues)
check_module queues filters n i output = i == n - 1 && not (ltb 0 filters)
check_module queues filters n i simple =
    not (i == 0 && queues == 0) && not (i == n - 1 && filters == 0)
check_module queues filters n i multi =
    not (i == 0 && queues == 0) && not (i == n - 1 && filters == 0)

unfoldable pub check_from : ℕ → ℕ → ℕ → ℕ → List ModuleType → Bool
unfolding check_module
check_from queues filters n i [] = true
check_from queues filters n i (m ∷ ms) =
    if check_module queues filters n i m then check_from queues filters n (suc i) ms else false

unfoldable pub check_modules : ℕ → ℕ → List ModuleType → Bool
unfolding check_from
check_modules queues filters ms = check_from queues filters (length ms) 0 ms

-- What `ApplyModules` changes: `coming` is what the input module is going to return (`none` is NULL,
-- and NULL it is behind the last), `world` the state of the other modules.
pub record State (B W : Type 0) : Type 0 where
  pub coming : List (Option (Resource B))
  pub world : W
  pub deleted_resources : List (Resource B)
  pub released : List (Resource B)
  pub calls : List Call

-- `ReleaseResource`, which ignores NULL.
unfoldable pub release : {B : Type 0} → Option (Resource B) → List (Resource B) → List (Resource B)
release none released = released
release (some r) released = released ++ r ∷ []

-- What is returned and whether `stop` was set. `none` stands for a failed assertion, and for the use
-- of a NULL resource.
abbrev pub Applied : Type 0 → Type 0 → Type 0
Applied B W = Option (Option (Resource B) × Bool × State B W)

abbrev pub Rest : Type 0 → Type 0 → Type 0
Rest B W = Option (Resource B) → State B W → Applied B W

module _ {B W : Type 0} where
  -- The loop on `ProcessInput`.
  unfoldable pub read_input :
      List (Option (Resource B)) → State B W → Option (Resource B) × State B W
  read_input [] s = (none, record s { coming = [] })
  read_input (none ∷ rest) s = (none, record s { coming = rest })
  read_input (some r ∷ rest) s =
      if r.deleted
      then read_input rest (record s { deleted_resources = s.deleted_resources ++ r ∷ [] })
      else (some r, record s { coming = rest })

  unfoldable pub after_input : Rest B W → Option (Resource B) × State B W → Applied B W
  after_input rest (none, s) = some (none, true, s)
  after_input rest (some r, s) = rest (some r) (record s { calls = s.calls ++ count_up ∷ [] })

  unfoldable pub after_output : Rest B W → State B W → Option (Resource B) × W → Applied B W
  unfolding release
  after_output rest s (r, w) =
      rest none (record s {
        world = w;
        released = release r s.released;
        calls = s.calls ++ count_down ∷ [];
      })

  unfoldable pub after_simple : Rest B W → State B W → Option (Resource B) × W → Applied B W
  after_simple rest s (none, w) = some (none, false, record s { world = w })
  after_simple rest s (some r, w) =
      if r.deleted
      then some
          (none, false, record s { world = w; deleted_resources = s.deleted_resources ++ r ∷ [] })
      else rest (some r) (record s { world = w })

-- `ProcessSimple` and `ProcessOutput` of the module at an index.
module _ {B W : Type 0}
    (process_simple process_output : ℕ → Resource B → W → Option (Resource B) × W) where
  abbrev pub run_simple : ℕ → Resource B → W → Option (Resource B) × W
  run_simple index r w = if r.skip then (some r, w) else process_simple index r w

  -- The modules from `index` on, up to the first multi module.
  unfoldable pub apply_modules : List ModuleType → ℕ → Option (Resource B) → State B W → Applied B W
  unfolding read_input after_input after_output after_simple
  apply_modules [] index r s = some (r, false, s)
  apply_modules (multi ∷ ms) index r s = some (r, false, s)
  apply_modules (invalid ∷ ms) index r s = apply_modules ms (suc index) r s
  apply_modules (input ∷ ms) index (some r) s = none
  apply_modules (input ∷ ms) index none s =
      after_input (apply_modules ms (suc index)) (read_input s.coming s)
  apply_modules (output ∷ ms) index none s = none
  apply_modules (output ∷ ms) index (some r) s =
      after_output (apply_modules ms (suc index)) s (process_output index r s.world)
  apply_modules (simple ∷ ms) index none s = none
  apply_modules (simple ∷ ms) index (some r) s =
      after_simple (apply_modules ms (suc index)) s (run_simple index r s.world)

-- `NextMultiModuleIndex` from `index`, where `none` is -1.
unfoldable pub next_multi : List ModuleType → ℕ → Option ℕ
next_multi [] index = none
next_multi (multi ∷ ms) index = some index
next_multi (input ∷ ms) index = next_multi ms (suc index)
next_multi (output ∷ ms) index = next_multi ms (suc index)
next_multi (simple ∷ ms) index = next_multi ms (suc index)
next_multi (invalid ∷ ms) index = next_multi ms (suc index)
