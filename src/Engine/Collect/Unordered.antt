-- ===== src/Engine/Collect/Unordered.antt =====
-- GetProcessedResources of lib/processing_engine/ProcessingEngine.cc, when one thread collects.
pub mod Accounts
pub mod Whole
use hector_core.Prelude.{
  ℕ, Bool, true, false, Option, none, some, List, [], ◌∷◌, ◌++◌, if◌then◌else◌, ◌==◌, ◌||◌,
}
use hector_core.Processor.{Resource}
use hector_core.Engine.Collect.{lookup, erase, Collector, Batch, take_finished}

-- `ids` is a set: its elements in the order of its iterators, each of them once.
unfoldable pub has_id : ℕ → List ℕ → Bool
has_id k [] = false
has_id k (id ∷ ids) = k == id || has_id k ids

unfoldable pub erase_id : ℕ → List ℕ → List ℕ
erase_id k [] = []
erase_id k (id ∷ ids) = if k == id then ids else id ∷ erase_id k ids

-- The result, the ids left in the set, and the state.
abbrev pub CollectedSet : Type 0 → Type 0
CollectedSet B = Bool × List ℕ × Collector B

module _ {B : Type 0} where
  -- One resource from the output queue.
  unfoldable pub absorb_one : Resource B → List ℕ × Collector B → List ℕ × Collector B
  absorb_one r (ids, s) =
      if has_id r.id ids
      then (erase_id r.id ids, record s { output = s.output ++ r ∷ [] })
      else (ids, record s { finished = (r.id, r) ∷ erase r.id s.finished })

  unfoldable pub absorb_set : List (Resource B) → List ℕ × Collector B → List ℕ × Collector B
  absorb_set [] p = p
  absorb_set (r ∷ rs) p = absorb_set rs (absorb_one r p)

  abbrev pub scanned :
      (Collector B → List ℕ × Collector B)
      → ℕ
      → Collector B
      → Option (Resource B)
      → List ℕ × Collector B
  scanned rest id s none = (id ∷ (rest s).0, (rest s).1)
  scanned rest id s (some r) =
      rest (record { finished = erase id s.finished; output = s.output ++ r ∷ [] })

  -- The loop from `begin()` on with a timeout of NULL, which passes over an id that is not finished.
  unfoldable pub scan : List ℕ → Collector B → List ℕ × Collector B
  scan [] s = ([], s)
  scan (id ∷ ids) s = scanned (scan ids) id s (lookup id s.finished)

  -- The call is cancelled or runs out of time.
  abbrev pub give_up : List ℕ × Collector B → CollectedSet B
  give_up ([], s) = (true, [], s)
  give_up (id ∷ ids, s) = (false, (scan (id ∷ ids) s).0, (scan (id ∷ ids) s).1)

  abbrev pub set_round :
      (List ℕ × Collector B → CollectedSet B) → Batch B → List ℕ × Collector B → CollectedSet B
  set_round rest b ([], s) = (true, [], s)
  set_round rest b (id ∷ ids, s) = rest (absorb_set (b.first ∷ b.others) (id ∷ ids, s))

  -- With a timeout. The ids before `iter` are gone from the set, so that `iter` is its beginning. Behind
  -- the last batch, `GetItem` is cancelled or times out.
  unfoldable pub collect_waiting : List (Batch B) → List ℕ × Collector B → CollectedSet B
  collect_waiting [] (ids, s) = give_up (take_finished ids s)
  collect_waiting (b ∷ bs) (ids, s) = set_round (collect_waiting bs) b (take_finished ids s)

  -- `wait` says that the timeout is not NULL.
  unfoldable pub collect_set : List (Batch B) → Bool → List ℕ → Collector B → CollectedSet B
  collect_set bs wait ids s =
      if wait then collect_waiting bs (ids, s) else (true, (scan ids s).0, (scan ids s).1)

  -- The whole call; `has_queue` says that the engine has an output queue.
  unfoldable pub get_processed_resources :
      Bool → List (Batch B) → Bool → List ℕ → Collector B → CollectedSet B
  get_processed_resources has_queue bs wait ids s =
      if has_queue then collect_set bs wait ids s else (false, ids, s)
