-- ===== src/Engine/Collect/Unordered/Whole.antt =====
-- A call of GetProcessedResources of lib/processing_engine/ProcessingEngine.cc as a whole.
use hector_core.Prelude.{
  ℕ, Bool, true, false, Option, none, some, List, [], ◌∷◌, ◌++◌, ◌≡◌, refl, arith, All,
}
use hector_core.Processor.{Resource}
use hector_core.Engine.Collect.{lookup, erase, Collector, Batch, take_finished}
use hector_core.Engine.Collect.Order.{IsKeyed}
use hector_core.Engine.Collect.Unordered.{
  CollectedSet, absorb_set, scanned, scan, give_up, set_round, collect_waiting, collect_set,
  get_processed_resources,
}
use hector_core.Engine.Collect.Unordered.Accounts.{
  Accounts, same, join, take_finished-Accounts, scan-Accounts, absorb_set-Absorbs,
}

module _ {B : Type 0} where
  -- No resource with one of the ids waits for consumption.
  abbrev pub IsMissing : List ℕ → Collector B → Type 0
  IsMissing ids s = All (λ k. lookup k s.finished ≡ none) ids

  erase-none :
      (k id : ℕ) (m : List (ℕ × Resource B)) → lookup k m ≡ none → lookup k (erase id m) ≡ none
  unfolding lookup erase
  erase-none k id [] h = refl
  erase-none k id ((j, x) ∷ m) h = ground (arith, erase-none k id m)

  -- A scan puts nothing into the map.
  scan-none :
      (k : ℕ) (ids : List ℕ) (s : Collector B)
      → lookup k s.finished ≡ none
      → lookup k (scan ids s).1.finished ≡ none
  unfolding scan
  scan-none k [] s h = h
  scan-none k (id ∷ ids) s h = go (scan-none k ids) (lookup id s.finished)
    where
      go :
          ((t : Collector B) → lookup k t.finished ≡ none → lookup k (scan ids t).1.finished ≡ none)
          → (o : Option (Resource B)) → lookup k (scanned (scan ids) id s o).1.finished ≡ none
      go ih none = ih s h
      go ih (some r) =
          ih (record { finished = erase id s.finished; output = s.output ++ r ∷ [] })
            (erase-none k id s.finished h)

  scan-IsMissing : (ids : List ℕ) (s : Collector B) → IsMissing (scan ids s).0 (scan ids s).1
  unfolding scan
  scan-IsMissing [] s = tt
  scan-IsMissing (id ∷ ids) s = go (scan-IsMissing ids) (lookup id s.finished) refl
    where
      go :
          ((t : Collector B) → IsMissing (scan ids t).0 (scan ids t).1)
          → (o : Option (Resource B)) → lookup id s.finished ≡ o
          → IsMissing (scanned (scan ids) id s o).0 (scanned (scan ids) id s o).1
      go ih none e = (scan-none id ids s e, ih s)
      go ih (some r) e = ih (record { finished = erase id s.finished; output = s.output ++ r ∷ [] })

  -- What the call has done when it ends.
  abbrev pub Ends : Bool → List ℕ → Collector B → CollectedSet B → Type 0
  Ends wait ids s (result, rest, s') =
      Accounts ids s rest s'
      × IsMissing rest s'
      × ((result ≡ true) × (wait ≡ true) → rest ≡ [])
      × (result ≡ false → wait ≡ true)

  give_up-Ends :
      (ids mid : List ℕ) (s t : Collector B)
      → Accounts ids s mid t
      → Ends true ids s (give_up (mid, t))
  give_up-Ends ids [] s t c = (c, tt, λ h. refl, λ h. refl)
  give_up-Ends ids (id ∷ mid) s t c = (
    join ids (id ∷ mid) (scan (id ∷ mid) t).0 s t (scan (id ∷ mid) t).1 c
        (scan-Accounts (id ∷ mid) t c.keyed),
    scan-IsMissing (id ∷ mid) t,
    λ (h, k). ground arith,
    λ h. refl,
  )

  abbrev Continues : (List ℕ × Collector B → CollectedSet B) → Type 0
  Continues rest =
      (ids : List ℕ) (s : Collector B) → IsKeyed s.finished → Ends true ids s (rest (ids, s))

  Ends-join :
      (ids mid : List ℕ) (s t : Collector B) (o : CollectedSet B)
      → Accounts ids s mid t
      → Ends true mid t o
      → Ends true ids s o
  Ends-join ids mid s t (result, rest, s') c (d, m, e, f) = (join ids mid rest s t s' c d, m, e, f)

  set_round-Ends :
      (rest : List ℕ × Collector B → CollectedSet B) (b : Batch B) (ids mid : List ℕ)
      (s t : Collector B)
      → Continues rest
      → Accounts ids s mid t
      → Ends true ids s (set_round rest b (mid, t))
  set_round-Ends rest b ids [] s t ih c = (c, tt, λ h. refl, λ h. refl)
  set_round-Ends rest b ids (id ∷ mid) s t ih c =
      Ends-join ids next.0 s next.1 (rest next) (join ids (id ∷ mid) next.0 s t next.1 c absorbed)
        (ih next.0 next.1 absorbed.keyed)
    where
      next : List ℕ × Collector B
      next = absorb_set (b.first ∷ b.others) (id ∷ mid, t)

      absorbed : Accounts (id ∷ mid) t next.0 next.1
      absorbed = absorb_set-Absorbs (b.first ∷ b.others) (id ∷ mid) t c.keyed

  collect_waiting-Ends : (bs : List (Batch B)) → Continues (collect_waiting bs)
  unfolding collect_waiting
  collect_waiting-Ends [] ids s h =
      give_up-Ends ids (take_finished ids s).0 s (take_finished ids s).1
        (take_finished-Accounts ids s h)
  collect_waiting-Ends (b ∷ bs) ids s h =
      set_round-Ends (collect_waiting bs) b ids (take_finished ids s).0 s (take_finished ids s).1
        (collect_waiting-Ends bs) (take_finished-Accounts ids s h)

  -- Whatever the output queue yields, the call puts out one resource for each id that leaves the set,
  -- with this id, and no other: the output and the set weigh together what they weighed before, however
  -- ids are weighed. No resource with an id that is left waits for consumption. The set is empty where
  -- the call may wait and returns true, and it returns false only where it may wait. Each resource that
  -- waits for consumption must stand under its own id before; it does after.
  pub collect_set-Ends :
      (bs : List (Batch B)) (wait : Bool) (ids : List ℕ) (s : Collector B)
      → IsKeyed s.finished
      → Ends wait ids s (collect_set bs wait ids s)
  unfolding collect_set
  collect_set-Ends bs true ids s h = collect_waiting-Ends bs ids s h
  collect_set-Ends bs false ids s h =
      (scan-Accounts ids s h, scan-IsMissing ids s, λ (e, f). ground arith, λ e. ground arith)

  pub get_processed_resources-Accounts :
      (has_queue : Bool) (bs : List (Batch B)) (wait : Bool) (ids : List ℕ) (s : Collector B)
      → IsKeyed s.finished
      → Accounts ids s
          (get_processed_resources has_queue bs wait ids s).1
          (get_processed_resources has_queue bs wait ids s).2
  unfolding get_processed_resources
  get_processed_resources-Accounts true bs wait ids s h = (collect_set-Ends bs wait ids s h).0
  get_processed_resources-Accounts false bs wait ids s h = same ids s h
