-- ===== src/Engine/Collect.antt =====
-- GetProcessedResourcesOrdered of lib/processing_engine/ProcessingEngine.cc, when one thread collects.
pub mod Order
pub mod Unordered
use hector_core.Prelude.{
  ℕ, zero, suc, Bool, true, false, not, Option, none, some, List, [], ◌∷◌, ◌++◌, map, ◌≡◌, refl,
  sym, ap, subst, ◌∙◌, if◌then◌else◌, ◌==◌, ==_iff, arith, append-nil, append_assoc, All, inl, inr,
  Bool-cases, Option-cases,
}
use hector_core.Processor.{Resource}

module _ {B : Type 0} where
  -- `finishedResources`, a map from ids.
  unfoldable pub lookup : ℕ → List (ℕ × Resource B) → Option (Resource B)
  lookup id [] = none
  lookup id ((k, r) ∷ m) = if k == id then some r else lookup id m

  unfoldable pub erase : ℕ → List (ℕ × Resource B) → List (ℕ × Resource B)
  erase id [] = []
  erase id ((k, r) ∷ m) = if k == id then erase id m else (k, r) ∷ erase id m

-- The resources waiting for consumption, and the output so far.
pub record Collector (B : Type 0) : Type 0 where
  pub finished : List (ℕ × Resource B)
  pub output : List (Resource B)

-- What the output queue yields to one `GetItem` with a timeout, and then to those with NULL until it is
-- empty.
pub record Batch (B : Type 0) : Type 0 where
  pub first : Resource B
  pub others : List (Resource B)

-- The result, the ids from `index` on, and the state. `none` is a read behind the end of `ids`.
abbrev pub Collected : Type 0 → Type 0
Collected B = Option (Bool × List ℕ × Collector B)

module _ {B : Type 0} where
  abbrev pub found :
      (Collector B → List ℕ × Collector B)
      → ℕ
      → List ℕ
      → Collector B
      → Option (Resource B)
      → List ℕ × Collector B
  found rest id ids s none = (id ∷ ids, s)
  found rest id ids s (some r) =
      rest (record { finished = erase id s.finished; output = s.output ++ r ∷ [] })

  -- The rounds of the loop that find their id in `finishedResources`, up to the first that does not.
  unfoldable pub take_finished : List ℕ → Collector B → List ℕ × Collector B
  take_finished [] s = ([], s)
  take_finished (id ∷ ids) s = found (take_finished ids) id ids s (lookup id s.finished)

  -- The loop on `r`. It reads `ids[index]` without a test that there is one.
  unfoldable pub absorb : List (Resource B) → List ℕ → Collector B → Option (List ℕ × Collector B)
  absorb [] ids s = some (ids, s)
  absorb (r ∷ rs) [] s = none
  absorb (r ∷ rs) (id ∷ ids) s =
      if id == r.id
      then absorb rs ids (record s { output = s.output ++ r ∷ [] })
      else absorb rs (id ∷ ids) (record s { finished = (r.id, r) ∷ erase r.id s.finished })

  abbrev pub finish : Bool → List ℕ × Collector B → Collected B
  finish wait ([], s) = some (true, [], s)
  finish wait (id ∷ ids, s) = some (not wait, id ∷ ids, s)

  abbrev pub collect_next :
      (List ℕ → Collector B → Collected B) → Option (List ℕ × Collector B) → Collected B
  collect_next rest none = none
  collect_next rest (some (ids, s)) = rest ids s

  abbrev pub collect_round :
      (List ℕ → Collector B → Collected B) → Bool → Batch B → List ℕ × Collector B → Collected B
  collect_round rest wait b ([], s) = some (true, [], s)
  collect_round rest wait b (id ∷ ids, s) =
      if wait
      then collect_next rest (absorb (b.first ∷ b.others) (id ∷ ids) s)
      else some (true, id ∷ ids, s)

  -- `wait` says that the timeout is not NULL. Behind the last batch, `GetItem` is cancelled or times out.
  unfoldable pub collect_ordered : List (Batch B) → Bool → List ℕ → Collector B → Collected B
  collect_ordered [] wait ids s = finish wait (take_finished ids s)
  collect_ordered (b ∷ bs) wait ids s =
      let rest = collect_ordered bs wait in collect_round rest wait b (take_finished ids s)

  -- The whole call; `has_queue` says that the engine has an output queue.
  unfoldable pub get_processed_resources_ordered :
      Bool → List (Batch B) → Bool → List ℕ → Collector B → Collected B
  get_processed_resources_ordered has_queue bs wait ids s =
      if has_queue then collect_ordered bs wait ids s else some (false, ids, s)
