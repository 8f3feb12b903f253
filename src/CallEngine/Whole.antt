-- ===== src/CallEngine/Whole.antt =====
-- `Process` of lib/processing_engine/CallProcessingEngine.cc.
use hector_core.Prelude.{ℕ, ◌+◌, ◌≤◌, ◌<◌, false, ◌≡◌}
use hector_core.CallEngine.{Caller, Calling, Outcome, ran_out, overrun, ends, stored}
use hector_core.CallEngine.Steady.{load, weight, IsSteady, IsEngine, Moved}
use hector_core.CallEngine.Rounds.{Rounds}

module _ {B E : Type 0} (c : Caller B E) (Valid : E → Type 0) (law : IsEngine c.target Valid) where
  abbrev Polls : ℕ → ℕ → Outcome (Calling B E) → Type 0
  Polls w l ran_out = ⊥
  Polls w l overrun = c.ordered ≡ false
  Polls w l (ends s) = Moved c Valid law w l false s

  abbrev Continues : ℕ → (Calling B E → Outcome (Calling B E)) → Type 0
  Continues n rest =
      (s : Calling B E)
      → weight s < n
      → IsSteady c s
      → Valid s.engine
      → Polls (weight s) (load s) (rest s)

  -- What `Process` has done when it returns from `s`.
  abbrev pub Returns : Calling B E → Outcome (ℕ × ℕ × Calling B E) → Type 0
  Returns s ran_out = ⊥
  Returns s overrun = c.ordered ≡ false
  Returns s (ends (result, expecting, t)) =
      (result ≡ t.running)
      × (expecting + t.running + stored t.tmp ≡ c.max_requests)
      × IsSteady c t
      × (load t ≤ load s)
      × (c.ordered ≡ false → load t ≡ load s)
