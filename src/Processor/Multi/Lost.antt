-- ===== src/Processor/Multi/Lost.antt =====
-- What RunThread does with a resource behind one that still waits for space in the queue.
use hector_core.Prelude.{
  ℕ, zero, suc, ◌-◌, ◌≤◌, Bool, false, none, some, [], ◌∷◌, arith, ◌≡◌, ◌≢◌, refl, ap, ◌∙◌, ltb, ℤ,
  if◌then◌else◌,
}
use hector_core.Processor.{Resource, downs}
use hector_core.Processor.Apply.{multi, apply_modules, next_multi}
use hector_core.Processor.Apply.Balance.{downs-append}
use hector_core.Processor.Route.{Routing}
use hector_core.Processor.Route.Queueing.{queue_resource-Queued}
use hector_core.Processor.Multi.{
  Multi, Setting, Round, goes_on, queue_resource_of, update, update_same, update_other, counted_up,
  size, routing, routed, after_waiting, queue_out, pass_on, after_applied, drain, called,
  after_multi, call_multi, after_drain, after_call, then_next, run_multis,
}

downs-counted_up : (n : ℕ) → downs (counted_up n) ≡ 0
downs-counted_up zero = refl
downs-counted_up (suc n) = downs-counted_up n

module _ {B W Q : Type 0} (p : Setting B W Q) where
  -- The resource `r` is in none of the places where a thread keeps resources, and was not released or
  -- counted down. The other multi modules are as they were, and the queues of the processors are `q`.
  abbrev pub Lost : Q → ℕ → Multi B → Resource B → Round B W Q → Round B W Q → Type 0
  Lost q i m w s s' =
      (s'.waiting ≡ some w)
      × ((s'.multis i).inputs ≡ m.inputs)
      × ((s'.multis i).outputs ≡ [])
      × (s'.applied.deleted_resources ≡ s.applied.deleted_resources)
      × (s'.applied.released ≡ s.applied.released)
      × (downs s'.applied.calls ≡ downs s.applied.calls)
      × (s'.queues ≡ q)
      × ((k : ℕ) → k ≢ i → s'.multis k ≡ s.multis k)

  drain-lost :
      (i : ℕ) (r w : Resource B) (s : Round B W Q) (ro : Routing B Q)
      → r.deleted ≡ false
      → s.waiting ≡ some w
      → queue_resource_of p w s.filter_index (routing s) ≡ some (false, ro)
      → drain p [] (suc i) none (r ∷ []) s ≡ some ([], routed ro s)
  unfolding drain after_applied pass_on queue_out after_waiting apply_modules
  drain-lost i r w s ro d e q = simp (d, e, q)

  abbrev OwnDowns : Bool × Routing B Q → Routing B Q → Type 0
  OwnDowns (b, ro) s = (ro.released ≡ s.released) × (downs ro.calls ≡ downs s.calls)

  refused_routing :
      (w : Resource B) (start : ℕ) (s ro : Routing B Q)
      → queue_resource_of p w start s ≡ some (false, ro)
      → OwnDowns (false, ro) s
  refused_routing w start s ro e =
      let (pre, post, d, split, sent, rel, up, down) =
        queue_resource-Queued p.store p.clone p.engine_output p.filters w start s (false, ro) e in
      (rel, down)

  -- The round behind the loop that ended with the refusal `ro`.
  abbrev refused_round : ℕ → Routing B Q → Round B W Q → Round B W Q
  refused_round i ro s = record (routed ro s) {
    resources_queued = 0;
    multis = update s.multis i (record (s.multis i) { outputs = [] });
  }

  after_call-lost :
      (i : ℕ) (r w : Resource B) (s : Round B W Q) (ro : Routing B Q)
      → (s.multis i).outputs ≡ r ∷ []
      → r.deleted ≡ false
      → s.waiting ≡ some w
      → queue_resource_of p w s.filter_index (routing s) ≡ some (false, ro)
      → after_call p [] i (some s) ≡ some (goes_on (refused_round i ro s))
  unfolding after_call after_drain next_multi
  after_call-lost i r w s ro out d e q =
      ap (λ l. after_drain i (drain p [] (suc i) none l (record s { resources_queued = 0 }))) out
      ∙ ap (after_drain i) (drain-lost i r w (record s { resources_queued = 0 }) ro d e q)

  call_multi-called :
      (i : ℕ) (m m' : Multi B) (s : Round B W Q) (busy : Bool) (n : ℤ) (world : W)
      → p.process_multi i m s.applied.world ≡ (busy, n, m', world)
      → size m ≤ size m'
      → call_multi p i m s ≡ some (called i m s (busy, n, m', world))
  unfolding call_multi after_multi
  call_multi-called i m m' s busy n world e z = ap (after_multi i m s) e ∙ kept (size m) (size m') z
    where
      kept :
          (a b : ℕ)
          → a ≤ b
          → (if ltb b a then none else some (called i m s (busy, n, m', world)))
            ≡ some (called i m s (busy, n, m', world))
      kept a b h = ground (arith, h)

  -- A resource that finds another one still waiting for space in the queues, which refuse that one
  -- again, is lost: the thread has taken it from the output queue of the last multi module, the round
  -- goes on, and the resource neither waits, nor is queued, released or counted down: the queues are those
  -- that the other one has left, and no other multi module gets it.
  pub waiting-Lost :
      (i : ℕ) (r w : Resource B) (m : Multi B) (s : Round B W Q) (ro : Routing B Q) (busy : Bool)
      (n : ℤ) (world : W)
      → p.process_multi i (s.multis i) s.applied.world ≡ (busy, n, m, world)
      → m.outputs ≡ r ∷ []
      → r.deleted ≡ false
      → size (s.multis i) ≤ size m
      → s.waiting ≡ some w
      → queue_resource_of p w s.filter_index (routing (called i (s.multis i) s (busy, n, m, world)))
        ≡ some (false, ro)
      → (s' : Round B W Q) × (run_multis p (multi ∷ []) i s ≡ some (goes_on s'))
        × Lost ro.queues i m w s s'
  unfolding run_multis then_next
  waiting-Lost i r w m s ro busy n world pm out d z e q = (
    refused_round i ro s₁,
    ap (λ o. then_next (λ x. some (goes_on x)) (after_call p [] i o))
          (call_multi-called i (s.multis i) m s busy n world pm z)
        ∙ ap (then_next (λ x. some (goes_on x)))
            (after_call-lost i r w s₁ ro (ap (λ x. x.outputs) same ∙ out) d e q),
    (
      e,
      ap (λ x. x.inputs) (update_same s₁.multis i _) ∙ ap (λ x. x.inputs) same,
      ap (λ x. x.outputs) (update_same s₁.multis i _),
      refl,
      (refused_routing w s.filter_index (routing s₁) ro q).0,
      (refused_routing w s.filter_index (routing s₁) ro q).1
          ∙ omega (
            arith,
            downs-append s.applied.calls (counted_up (size m - size (s.multis i))),
            downs-counted_up (size m - size (s.multis i)),
          ),
      refl,
      λ k n. update_other s₁.multis i _ k n ∙ update_other s.multis i m k n,
    ),
  )
    where
      s₁ : Round B W Q
      s₁ = called i (s.multis i) s (busy, n, m, world)

      same : s₁.multis i ≡ m
      same = update_same s.multis i m
