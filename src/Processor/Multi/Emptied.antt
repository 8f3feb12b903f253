-- ===== src/Processor/Multi/Emptied.antt =====
-- The output queues of the multi modules after the loop on them in RunThread.
use hector_core.Prelude.{
  ℕ, suc, ◌<◌, ◌≤◌, ◌++◌, ◌&&◌, if_both, ltb, Bool, true, false, Option, none, some, List, [], ◌∷◌,
  arith, ◌≡◌, refl, ap, subst, ◌∙◌, ◌==◌,
}
use hector_core.Processor.{Resource}
use hector_core.Processor.Apply.{
  ModuleType, invalid, input, output, simple, multi, Applied, next_multi,
}
use hector_core.Processor.Route.{Routing}
use hector_core.Processor.Multi.{
  Multi, Setting, apply_modules_of, Round, Drained, Onward, Turn, returned, goes_on, forward,
  update, update_same, update_other, routing, after_own, after_waiting, queue_own,
  queue_resource_of, queue_out, pass_on, after_applied, drain, call_multi, after_multi, called,
  size, after_drain, after_call, then_next, run_multis,
}

-- The multi modules of a list of modules, from an index on, have nothing in their output queues.
abbrev pub Emptied : {B : Type 0} → List ModuleType → ℕ → (ℕ → Multi B) → Type 0
Emptied [] i ms = Unit {0}
Emptied (multi ∷ ts) i ms = ((ms i).outputs ≡ []) × Emptied ts (suc i) ms
Emptied (invalid ∷ ts) i ms = Emptied ts (suc i) ms
Emptied (input ∷ ts) i ms = Emptied ts (suc i) ms
Emptied (output ∷ ts) i ms = Emptied ts (suc i) ms
Emptied (simple ∷ ts) i ms = Emptied ts (suc i) ms

-- The next multi module, if there is one, stands at `i` or behind.
abbrev IsFrom : ℕ → Option ℕ → Type 0
IsFrom i none = Unit {0}
IsFrom i (some k) = i ≤ k

IsFrom-suc : (i : ℕ) (o : Option ℕ) → IsFrom (suc i) o → IsFrom i o
IsFrom-suc i none h = tt
IsFrom-suc i (some k) h = omega (arith, h)

next_multi-IsFrom : (ms : List ModuleType) (i : ℕ) → IsFrom i (next_multi ms i)
unfolding next_multi
next_multi-IsFrom [] i = tt
next_multi-IsFrom (multi ∷ ms) i = omega arith
next_multi-IsFrom (invalid ∷ ms) i = IsFrom-suc i _ (next_multi-IsFrom ms (suc i))
next_multi-IsFrom (input ∷ ms) i = IsFrom-suc i _ (next_multi-IsFrom ms (suc i))
next_multi-IsFrom (output ∷ ms) i = IsFrom-suc i _ (next_multi-IsFrom ms (suc i))
next_multi-IsFrom (simple ∷ ms) i = IsFrom-suc i _ (next_multi-IsFrom ms (suc i))

module _ {B W Q : Type 0} where
  -- The modules before `i` are as they were.
  abbrev pub SameBelow : ℕ → Round B W Q → Round B W Q → Type 0
  SameBelow i s s' = (k : ℕ) → k < i → s'.multis k ≡ s.multis k

  abbrev Kept : ℕ → Round B W Q → Drained B W Q → Type 0
  Kept i s none = Unit {0}
  Kept i s (some (left, s')) = SameBelow i s s'

  Kept-before :
      (i : ℕ) (s s' : Round B W Q) (out : Drained B W Q)
      → SameBelow i s s'
      → Kept i s' out
      → Kept i s out
  Kept-before i s s' none h k = tt
  Kept-before i s s' (some out) h k = λ j l. k j l ∙ h j l

  abbrev Keeps : ℕ → Onward B W Q → Type 0
  Keeps i rest = (s : Round B W Q) → Kept i s (rest s)

  after_own-Kept :
      (i : ℕ) (rest : Onward B W Q) (rs : List (Resource B)) (r : Resource B) (s : Round B W Q)
      (o : Option (Bool × Routing B Q))
      → Keeps i rest
      → Kept i s (after_own rest rs r s o)
  unfolding after_own
  after_own-Kept i rest rs r s none h = tt
  after_own-Kept i rest rs r s (some (false, ro)) h = λ k l. refl
  after_own-Kept i rest rs r s (some (true, ro)) h = h _

  after_waiting-Kept :
      (i : ℕ) (rest : Onward B W Q) (rs : List (Resource B)) (s : Round B W Q)
      (o : Option (Bool × Routing B Q))
      → Keeps i rest
      → Kept i s (after_waiting rest rs s o)
  unfolding after_waiting
  after_waiting-Kept i rest rs s none h = tt
  after_waiting-Kept i rest rs s (some (false, ro)) h = λ k l. refl
  after_waiting-Kept i rest rs s (some (true, ro)) h = h _

module _ {B W Q : Type 0} (p : Setting B W Q) where
  queue_out-Kept :
      (i : ℕ) (w : Option (Resource B)) (rest : Onward B W Q) (rs : List (Resource B))
      (r : Resource B) (s : Round B W Q)
      → Keeps i rest
      → Kept i s (queue_out p w rest rs r s)
  unfolding queue_out
  queue_out-Kept i none rest rs r s h = after_own-Kept i rest rs r s _ h
  queue_out-Kept i (some w) rest rs r s h =
      after_waiting-Kept i (queue_own p rest rs r) rs s
        (queue_resource_of p w s.filter_index (routing s))
        (λ s'. after_own-Kept i rest rs r s' (queue_resource_of p r s'.filter_index (routing s')) h)

  pass_on-Kept :
      (i : ℕ) (next : Option ℕ) (rest : Onward B W Q) (rs : List (Resource B)) (r : Resource B)
      (s : Round B W Q)
      → IsFrom i next
      → Keeps i rest
      → Kept i s (pass_on p next rest rs r s)
  unfolding pass_on
  pass_on-Kept i none rest rs r s f h = queue_out-Kept i s.waiting rest rs r s h
  pass_on-Kept i (some k) rest rs r s f h =
      Kept-before i s s' (rest s') (λ j l. update_other s.multis k _ j (omega (arith, l, f))) (h s')
    where
      s' : Round B W Q
      s' = record s { multis = update s.multis k (forward r (s.multis k)) }

  after_applied-Kept :
      (i : ℕ) (next : Option ℕ) (rest : Onward B W Q) (rs : List (Resource B)) (s : Round B W Q)
      (o : Applied B W)
      → IsFrom i next
      → Keeps i rest
      → Kept i s (after_applied p next rest rs s o)
  unfolding after_applied
  after_applied-Kept i next rest rs s none f h = tt
  after_applied-Kept i next rest rs s (some (none, stop, st)) f h = h (record s { applied = st })
  after_applied-Kept i next rest rs s (some (some r, stop, st)) f h =
      pass_on-Kept i next rest rs r (record s { applied = st }) f h

  drain-Kept :
      (ms : List ModuleType) (index i : ℕ) (next : Option ℕ) (rs : List (Resource B))
      → IsFrom i next
      → Keeps i (drain p ms index next rs)
  unfolding drain
  drain-Kept ms index i next [] f s = λ k l. refl
  drain-Kept ms index i next (r ∷ rs) f s =
      if_both (Kept i s) r.deleted _ _
        (drain-Kept ms index i next rs f (record s {
          applied = record s.applied { deleted_resources = s.applied.deleted_resources ++ r ∷ [] };
        }))
        (after_applied-Kept i next (drain p ms index next rs) rs s
          (apply_modules_of p ms index (some r) s.applied) f (drain-Kept ms index i next rs f))

  -- A call of `ProcessMulti` with the loop on the outputs, where the round goes on.
  abbrev StageDone : ℕ → Round B W Q → Option (Turn B W Q) → Type 0
  StageDone i s none = Unit {0}
  StageDone i s (some returned) = Unit {0}
  StageDone i s (some (goes_on s')) = SameBelow i s s' × ((s'.multis i).outputs ≡ [])

  after_drain-StageDone :
      (i : ℕ) (s : Round B W Q) (o : Drained B W Q)
      → Kept (suc i) s o
      → StageDone i s (after_drain i o)
  unfolding after_drain
  after_drain-StageDone i s none h = tt
  after_drain-StageDone i s (some ([], s')) h = (
    λ k l. update_other s'.multis i _ k (omega (arith, l)) ∙ h k (omega (arith, l)),
    ap (λ m. m.outputs) (update_same s'.multis i _),
  )
  after_drain-StageDone i s (some (r ∷ rs, s')) h =
      if_both (StageDone i s) (s'.block && s'.resources_queued == 0) (some returned) none tt tt

  abbrev Called : ℕ → Round B W Q → Option (Round B W Q) → Type 0
  Called i s none = Unit {0}
  Called i s (some s') = SameBelow i s s'

  call_multi-Called : (i : ℕ) (m : Multi B) (s : Round B W Q) → Called i s (call_multi p i m s)
  unfolding call_multi after_multi
  call_multi-Called i m s =
      if_both (Called i s) (ltb (size (p.process_multi i m s.applied.world).2) (size m)) none
        (some (called i m s (p.process_multi i m s.applied.world))) tt
        (λ k l. update_other s.multis i _ k (omega (arith, l)))

  StageDone-before :
      (i : ℕ) (s s' : Round B W Q) (o : Option (Turn B W Q))
      → SameBelow i s s'
      → StageDone i s' o
      → StageDone i s o
  StageDone-before i s s' none h k = tt
  StageDone-before i s s' (some returned) h k = tt
  StageDone-before i s s' (some (goes_on t)) h (k, e) = (λ j l. k j l ∙ h j l, e)

  after_call-StageDone :
      (ms : List ModuleType) (i : ℕ) (s : Round B W Q) (o : Option (Round B W Q))
      → Called i s o
      → StageDone i s (after_call p ms i o)
  unfolding after_call
  after_call-StageDone ms i s none h = tt
  after_call-StageDone ms i s (some s') h = StageDone-before i s s₀ (after_drain i out) h (
      after_drain-StageDone i s₀ out (
        drain-Kept ms (suc i) (suc i) (next_multi ms (suc i)) ((s'.multis i).outputs)
          (next_multi-IsFrom ms (suc i)) s₀))
    where
      s₀ : Round B W Q
      s₀ = record s' { resources_queued = 0 }

      out : Drained B W Q
      out =
          drain p ms (suc i) (next_multi ms (suc i)) ((s'.multis i).outputs)
            (record s' { resources_queued = 0 })

  abbrev RunDone : List ModuleType → ℕ → Round B W Q → Option (Turn B W Q) → Type 0
  RunDone ms i s none = Unit {0}
  RunDone ms i s (some returned) = Unit {0}
  RunDone ms i s (some (goes_on s')) = SameBelow i s s' × Emptied ms i s'.multis

  then_next-RunDone :
      (ms : List ModuleType) (i : ℕ) (s : Round B W Q) (o : Option (Turn B W Q))
      (rest : Round B W Q → Option (Turn B W Q))
      → StageDone i s o
      → ((s' : Round B W Q) → RunDone ms (suc i) s' (rest s'))
      → RunDone (multi ∷ ms) i s (then_next rest o)
  unfolding then_next
  then_next-RunDone ms i s none rest h k = tt
  then_next-RunDone ms i s (some returned) rest h k = tt
  then_next-RunDone ms i s (some (goes_on s')) rest h k = go (rest s') (k s')
    where
      go : (o : Option (Turn B W Q)) → RunDone ms (suc i) s' o → RunDone (multi ∷ ms) i s o
      go none d = tt
      go (some returned) d = tt
      go (some (goes_on t)) d = (
        λ j l. d.0 j (omega (arith, l)) ∙ h.0 j l,
        (ap (λ m. m.outputs) (d.0 i (omega arith)) ∙ h.1, d.1),
      )

  RunDone-skip :
      (ms : List ModuleType) (i : ℕ) (s : Round B W Q) (o : Option (Turn B W Q))
      → RunDone ms (suc i) s o
      → RunDone (invalid ∷ ms) i s o
  RunDone-skip ms i s none h = tt
  RunDone-skip ms i s (some returned) h = tt
  RunDone-skip ms i s (some (goes_on t)) h = (λ j l. h.0 j (omega (arith, l)), h.1)

  run_multis-RunDone :
      (ms : List ModuleType) (i : ℕ) (s : Round B W Q) → RunDone ms i s (run_multis p ms i s)
  unfolding run_multis
  run_multis-RunDone [] i s = (λ k l. refl, tt)
  run_multis-RunDone (multi ∷ ms) i s =
      then_next-RunDone ms i s (after_call p ms i (call_multi p i (s.multis i) s))
        (run_multis p ms (suc i))
        (after_call-StageDone ms i s (call_multi p i (s.multis i) s)
          (call_multi-Called i (s.multis i) s))
        (run_multis-RunDone ms (suc i))
  run_multis-RunDone (invalid ∷ ms) i s = RunDone-skip ms i s _ (run_multis-RunDone ms (suc i) s)
  run_multis-RunDone (input ∷ ms) i s = RunDone-skip ms i s _ (run_multis-RunDone ms (suc i) s)
  run_multis-RunDone (output ∷ ms) i s = RunDone-skip ms i s _ (run_multis-RunDone ms (suc i) s)
  run_multis-RunDone (simple ∷ ms) i s = RunDone-skip ms i s _ (run_multis-RunDone ms (suc i) s)

  -- When the loop on the multi modules comes to its end, no multi module has a resource left in its
  -- output queue, and the modules before the first one are as they were.
  pub run_multis-Emptied :
      (ms : List ModuleType) (i : ℕ) (s s' : Round B W Q)
      → run_multis p ms i s ≡ some (goes_on s')
      → SameBelow i s s' × Emptied ms i s'.multis
  run_multis-Emptied ms i s s' e = subst (RunDone ms i s) e (run_multis-RunDone ms i s)
