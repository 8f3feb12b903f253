-- ===== src/Processor/Route/Queueing.antt =====
-- What QueueResource of lib/processing_engine/Processor.cc does, and what it returns.
use hector_core.Prelude.{
  ℕ, ◌+◌, Bool, true, false, Option, none, some, List, [], ◌∷◌, ◌++◌, ◌≡◌, sym, ap, subst, ◌∙◌,
  if◌then◌else◌, drop, length, arith, append-nil,
}
use hector_core.Processor.{Resource, count_down, ups, downs}
use hector_core.Processor.Apply.Balance.{ups-append, downs-append}
use hector_core.Processor.Route.{
  OutputFilter, Queues, Routing, LoopEnd, refused, over, queue_loop, queue_end, queue_resource,
}
use hector_core.Processor.Route.Delivery.{
  Delivery, counted, original, deliveries, Delivers, LoopDone, queue_loop-LoopDone,
}

module _ {B Q : Type 0} (qs : Queues B Q) (clone : Resource B → Resource B)
    (engine_output : Option ℕ) where
  -- What `QueueResource` did, from the filter at `start` on.
  abbrev pub Queued : List OutputFilter → Resource B → Routing B Q → Bool × Routing B Q → Type 0
  Queued fs r s (false, s') =
      (pre post : List (Delivery B)) × (d : Delivery B) × (deliveries qs clone engine_output fs r
        ≡ pre ++ d ∷ post)
      × Delivers qs clone engine_output pre s s'
      × (s'.released ≡ s.released)
      × (ups s'.calls ≡ ups s.calls + length pre)
      × (downs s'.calls ≡ downs s.calls)
  Queued fs r s (true, s') =
      Delivers qs clone engine_output (deliveries qs clone engine_output fs r) s s'
      × (s'.released
          ≡ s.released
            ++ (if original (deliveries qs clone engine_output fs r) then [] else r ∷ []))
      × (ups s'.calls + downs s.calls + 1
          ≡ ups s.calls
            + downs s'.calls
            + counted engine_output (deliveries qs clone engine_output fs r))

  abbrev QueueDone :
      List OutputFilter → Resource B → Routing B Q → Option (Bool × Routing B Q) → Type 0
  QueueDone fs r s none = Unit {0}
  QueueDone fs r s (some out) = Queued fs r s out

  queue_end-QueueDone :
      (fs : List OutputFilter) (r : Resource B) (s : Routing B Q)
      (o : Option (LoopEnd × Routing B Q))
      → LoopDone qs clone engine_output fs r s o
      → QueueDone fs r s (queue_end qs clone engine_output r o)
  unfolding queue_end
  queue_end-QueueDone fs r s none h = tt
  queue_end-QueueDone fs r s (some (refused, s')) h = h
  queue_end-QueueDone fs r s (some (over true, s')) (del, o, rel, n) =
      (del, rw o (rel ∙ sym (append-nil s.released)), n)
  queue_end-QueueDone fs r s (some (over false, s')) (del, o, rel, n) = (
    record { contents = del.contents },
    rw o (ap (λ l. l ++ r ∷ []) rel),
    omega
        (arith, n, ups-append s'.calls (count_down ∷ []), downs-append s'.calls (count_down ∷ [])),
  )

  pub queue_resource-Queued :
      (filters : List OutputFilter) (r : Resource B) (start : ℕ) (s : Routing B Q)
      (out : Bool × Routing B Q)
      → queue_resource qs clone engine_output filters r start s ≡ some out
      → Queued (drop start filters) r s out
  unfolding queue_resource
  queue_resource-Queued filters r start s out e = subst (QueueDone (drop start filters) r s) e (
      queue_end-QueueDone (drop start filters) r s
        (queue_loop qs clone engine_output (drop start filters) r s)
        (queue_loop-LoopDone qs clone engine_output (drop start filters) r s))
