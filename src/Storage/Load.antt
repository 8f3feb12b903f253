-- ===== src/Storage/Load.antt =====
-- ProcessInputSync and ProcessMultiSync of lib/processing_engine/module/Load.cc. Where the code waits for
-- another file, its critical section ends; after the wake-up it does what a call with the same sleep does.
use hector_core.Prelude.{
  ℕ, zero, suc, ◌%◌, Bool, true, false, ◌&&◌, ◌||◌, not, Option, none, some, List, [], ◌∷◌, ◌++◌,
  if◌then◌else◌, ◌==◌, leb,
}

-- What the module returns: a resource of the file, or its MarkerResource with the value of `mark`.
pub data Item (A : Type 0) : Type 0 where
  resource : A → Item A
  marker : ℕ → Item A

-- The fields of the module. `mark` is -1, here `none`, where no marker is wanted; no stream is the NULL.
pub record Load (S : Type 0) : Type 0 where
  pub items : ℕ
  pub max_items : ℕ
  pub skip_items : ℕ
  pub wait : Bool
  pub mark : Option ℕ
  pub mark_emitted : Bool
  pub mark_read : Bool
  pub stream : Option S

pub data Outcome (A S : Type 0) : Type 0 where
  returns : Option (Item A) → Load S → Outcome A S
  waits : Load S → Outcome A S

-- `DeserializeResource` on the stream is a parameter.
module _ {A S : Type 0} (deserialize : S → Option A × S) where
  unfoldable pub read_one : Option S → Option A × Option S
  read_one none = (none, none)
  read_one (some s) = let (r, s') = deserialize s in (r, some s')

  -- The marker, once, and NULL afterwards.
  unfoldable pub emit : Option ℕ → Load S → Outcome A S
  emit none l = returns none l
  emit (some m) l =
      if l.mark_emitted
      then returns none l
      else returns (some (marker m)) (record l { mark_emitted = true })

  unfoldable pub after_read : Bool → Load S → Option A × Option S → Outcome A S
  unfolding emit
  after_read sleep l (some r, s) =
      returns (some (resource r)) (record l { items = suc l.items; stream = s })
  after_read sleep l (none, s) =
      if sleep && l.wait
      then waits (record l { stream = s })
      else emit l.mark (record l { stream = s })

  -- The loop on `skipItems`, and what follows it.
  unfoldable pub after_skip :
      (Load S → Outcome A S) → Bool → ℕ → Load S → Option A × Option S → Outcome A S
  after_skip rest sleep n l (some r, s) = rest (record l { skip_items = n; stream = s })
  after_skip rest sleep n l (none, s) =
      if sleep && l.wait
      then waits (record l { stream = s })
      else returns none (record l { stream = s })

  unfoldable pub skip_loop : Bool → ℕ → Load S → Outcome A S
  unfolding after_skip after_read read_one
  skip_loop sleep zero l = after_read sleep l (read_one l.stream)
  skip_loop sleep (suc n) l = after_skip (skip_loop sleep n) sleep n l (read_one l.stream)

  unfoldable pub process_input : Bool → Load S → Outcome A S
  unfolding skip_loop emit
  process_input sleep l =
      if not (l.max_items == 0) && leb l.max_items l.items
      then emit l.mark l
      else skip_loop sleep l.skip_items l

  -- The loop of `ProcessMultiSync` on the file: what it appends to the outputs, whether the file is at
  -- its end, and the module. `late` is what the test of the time says after as many resources. A call
  -- that waits does not come: it is made without sleep.
  abbrev pub FileRead : Type 0
  FileRead = List (Item A) × Bool × Load S

  abbrev pub put_first : Item A → FileRead → FileRead
  put_first i (is, ended, l) = (i ∷ is, ended, l)

  unfoldable pub after_item : (Load S → FileRead) → Bool → Outcome A S → FileRead
  after_item rest stop (waits l) = ([], true, l)
  after_item rest stop (returns none l) = ([], true, l)
  after_item rest stop (returns (some i) l) =
      if stop then (i ∷ [], false, l) else put_first i (rest l)

  -- The clock is looked at after each thousand.
  abbrev stops : (ℕ → Bool) → ℕ → Bool
  stops late n = n % 1000 == 0 && late n

  unfoldable pub file_loop : (ℕ → Bool) → ℕ → ℕ → Load S → FileRead
  unfolding after_item process_input
  file_loop late zero done l = ([], false, l)
  file_loop late (suc left) done l =
      after_item (file_loop late left (suc done)) (stops late (suc done)) (process_input false l)

  abbrev pub max_resources : ℕ
  max_resources = 10000

  -- What follows the copying, where `r` is what the loop on the file gives.
  unfoldable pub after_copy : List (Item A) → Load S → FileRead → List (Item A) × Bool × Load S
  after_copy copied l r =
      if l.mark_read then (copied ++ r.0, not (r.1), r.2) else (copied, false, l)

  abbrev pub is_marker : Item A → Bool
  is_marker (resource r) = false
  is_marker (marker m) = true

  abbrev pub has_marker : List (Item A) → Bool
  has_marker [] = false
  has_marker (i ∷ is) = is_marker i || has_marker is

  -- The resources that come in are passed on; from the first marker on, the file is read.
  unfoldable pub process_multi :
      (ℕ → Bool) → List (Item A) → List (Item A) → Load S → List (Item A) × Bool × Load S
  unfolding after_copy
  process_multi late inputs outputs l =
      let marked = record l { mark_read = l.mark_read || has_marker inputs } in
      after_copy (outputs ++ inputs) marked (file_loop late max_resources 0 marked)
