-- ===== src/Processor/Multi/Accounts.antt =====
-- The resources that pass from one multi module to the next in RunThread, and the engine's count.
use hector_core.Prelude.{
  ℕ, suc, ◌+◌, Option, none, some, List, [], ◌∷◌, ◌++◌, length, length-append, arith, ◌≡◌, ◌≢◌,
  refl, ap, subst, ◌∙◌, All, inl, inr, Bool-cases, if◌then◌else◌, if_both,
}
use hector_core.Processor.{Resource, ups, downs}
use hector_core.Processor.Apply.{
  ModuleType, invalid, input, output, simple, multi, State, Applied, Rest, apply_modules,
  read_input, after_input, after_output, after_simple,
}
use hector_core.Processor.Apply.Balance.{IsKept, Accounts, apply_modules-Accounts}
use hector_core.Processor.Multi.{
  Multi, Setting, Round, Drained, Onward, apply_modules_of, forward, update, update_same, pass_on,
  after_applied, drain,
}

module _ {B W : Type 0} where
  -- What `ApplyModules` did with one resource is accounted for.
  abbrev Counted : Resource B → State B W → Applied B W → Type 0
  Counted r s none = Unit {0}
  Counted r s (some out) = Accounts (some r) s out × All IsKept out.2.coming

  -- What the input module is going to return stays free of deleted resources.
  abbrev StaysKept : Applied B W → Type 0
  StaysKept none = Unit {0}
  StaysKept (some (o, stop, s)) = All IsKept s.coming

  abbrev KeptRest : Rest B W → Type 0
  KeptRest rest =
      (o : Option (Resource B)) (s : State B W) → All IsKept s.coming → StaysKept (rest o s)

  read_input-kept :
      (rest : Rest B W) (l : List (Option (Resource B))) (s : State B W)
      → All IsKept l
      → KeptRest rest
      → StaysKept (after_input rest (read_input l s))
  unfolding read_input after_input
  read_input-kept rest [] s k h = tt
  read_input-kept rest (none ∷ l) s k h = k.1
  read_input-kept rest (some r ∷ l) s k h = simp (k.0) (h _ _ k.1)

  after_simple-kept :
      (rest : Rest B W) (s : State B W) (out : Option (Resource B) × W)
      → All IsKept s.coming
      → KeptRest rest
      → StaysKept (after_simple rest s out)
  unfolding after_simple
  after_simple-kept rest s (none, w) k h = k
  after_simple-kept rest s (some r, w) k h = if_both StaysKept r.deleted _ _ k (h _ _ k)

  after_output-kept :
      (rest : Rest B W) (s : State B W) (out : Option (Resource B) × W)
      → All IsKept s.coming
      → KeptRest rest
      → StaysKept (after_output rest s out)
  unfolding after_output
  after_output-kept rest s (o, w) k h = h _ _ k

module _ {B W Q : Type 0} (p : Setting B W Q) where
  apply-kept : (ms : List ModuleType) (i : ℕ) → KeptRest (apply_modules_of p ms i)
  unfolding apply_modules
  apply-kept [] i o s k = k
  apply-kept (multi ∷ ms) i o s k = k
  apply-kept (invalid ∷ ms) i o s k = apply-kept ms (suc i) o s k
  apply-kept (input ∷ ms) i (some r) s k = tt
  apply-kept (input ∷ ms) i none s k =
      read_input-kept (apply_modules_of p ms (suc i)) s.coming s k (apply-kept ms (suc i))
  apply-kept (output ∷ ms) i none s k = tt
  apply-kept (output ∷ ms) i (some r) s k =
      after_output-kept (apply_modules_of p ms (suc i)) s (p.process_output i r s.world) k
        (apply-kept ms (suc i))
  apply-kept (simple ∷ ms) i none s k = tt
  apply-kept (simple ∷ ms) i (some r) s k =
      after_simple-kept (apply_modules_of p ms (suc i)) s
        (if r.skip then (some r, s.world) else p.process_simple i r s.world) k
        (apply-kept ms (suc i))

size-forward :
    {B : Type 0} (r : Resource B) (m : Multi B)
    → length (forward r m).inputs + length (forward r m).outputs
      ≡ suc (length m.inputs + length m.outputs)
unfolding forward
size-forward r m = elim (Bool-cases r.skip) [
  | inl e ↦ simp e (omega (arith, length-append m.outputs (r ∷ [])))
  | inr e ↦ simp e (omega (arith, length-append m.inputs (r ∷ [])))
]

module _ {B W Q : Type 0} where
  -- The resources at the multi module `k`, and those that wait for their deletion.
  abbrev pub inside : ℕ → Round B W Q → ℕ
  inside k s =
      length (s.multis k).inputs + length (s.multis k).outputs + length s.applied.deleted_resources

  -- `n` resources moved on to the module `k` or to their deletion, as far as the engine counts them,
  -- and nothing was queued.
  abbrev pub MovedOn : ℕ → ℕ → Round B W Q → List (Resource B) × Round B W Q → Type 0
  MovedOn k n s (left, s') =
      (left ≡ [])
      × (inside k s' + ups s.applied.calls + downs s'.applied.calls
          ≡ inside k s + n + ups s'.applied.calls + downs s.applied.calls)
      × (s'.waiting ≡ s.waiting)
      × (s'.queues ≡ s.queues)

  abbrev MovesOn : ℕ → ℕ → Round B W Q → Drained B W Q → Type 0
  MovesOn k n s none = Unit {0}
  MovesOn k n s (some out) = MovedOn k n s out

  -- A step before, that moved one resource on.
  abbrev Step : ℕ → Round B W Q → Round B W Q → Type 0
  Step k s s' =
      (inside k s' + ups s.applied.calls + downs s'.applied.calls
        ≡ suc (inside k s + ups s'.applied.calls + downs s.applied.calls))
      × (s'.waiting ≡ s.waiting)
      × (s'.queues ≡ s.queues)

  MovesOn-before :
      (k n : ℕ) (s s' : Round B W Q) (out : Drained B W Q)
      → Step k s s'
      → MovesOn k n s' out
      → MovesOn k (suc n) s out
  MovesOn-before k n s s' none h m = tt
  MovesOn-before k n s s' (some (left, t)) (e, w, q) (l, e', w', q') =
      (l, omega (arith, e, e'), w' ∙ w, q' ∙ q)

  abbrev MoveOn : ℕ → ℕ → Onward B W Q → Type 0
  MoveOn k n rest = (s : Round B W Q) → All IsKept s.applied.coming → MovesOn k n s (rest s)

module _ {B W Q : Type 0} (p : Setting B W Q) where
  after_applied-MovesOn :
      (k : ℕ) (rest : Onward B W Q) (rs : List (Resource B)) (r : Resource B) (s : Round B W Q)
      (o : Applied B W)
      → MoveOn k (length rs) rest
      → Counted r s.applied o
      → MovesOn k (suc (length rs)) s (after_applied p (some k) rest rs s o)
  unfolding after_applied pass_on
  after_applied-MovesOn k rest rs r s none h c = tt
  after_applied-MovesOn k rest rs r s (some (none, stop, st)) h (c, g) =
      MovesOn-before k (length rs) s (record s { applied = st }) _ (omega (arith, c), refl, refl)
        (h (record s { applied = st }) g)
  after_applied-MovesOn k rest rs r s (some (some r', stop, st)) h (c, g) =
      MovesOn-before k (length rs) s s' (rest s')
        (omega (arith, c, size-forward r' (s.multis k), moved), refl, refl) (h s' g)
    where
      s' : Round B W Q
      s' = record s { applied = st; multis = update s.multis k (forward r' (s.multis k)) }

      moved :
          inside k s'
          ≡ length (forward r' (s.multis k)).inputs
            + length (forward r' (s.multis k)).outputs
            + length st.deleted_resources
      moved =
          ap (λ m. length m.inputs + length m.outputs + length st.deleted_resources)
            (update_same s.multis k (forward r' (s.multis k)))

  module _ (returns : (i : ℕ) (r : Resource B) (w : W) → (p.process_simple i r w).0 ≢ none) where
    applied-Counted :
        (ms : List ModuleType) (i : ℕ) (r : Resource B) (s : State B W)
        → All IsKept s.coming
        → Counted r s (apply_modules_of p ms i (some r) s)
    applied-Counted ms i r s k =
        go (apply_modules_of p ms i (some r) s) refl (apply-kept p ms i (some r) s k)
      where
        go :
            (o : Applied B W) → apply_modules_of p ms i (some r) s ≡ o → StaysKept o → Counted r s o
        go none e g = tt
        go (some out) e g = (
          apply_modules-Accounts p.process_simple p.process_output returns ms i (some r) s out k e,
          g,
        )

    drain-MovesOn :
        (ms : List ModuleType) (index k : ℕ) (rs : List (Resource B))
        → MoveOn k (length rs) (drain p ms index (some k) rs)
    unfolding drain
    drain-MovesOn ms index k [] s g = (refl, omega arith, refl, refl)
    drain-MovesOn ms index k (r ∷ rs) s g =
        if_both (MovesOn k (suc (length rs)) s) r.deleted _ _
          (MovesOn-before k (length rs) s s' (drain p ms index (some k) rs s')
            (omega (arith, length-append s.applied.deleted_resources (r ∷ [])), refl, refl)
            (drain-MovesOn ms index k rs s' g))
          (after_applied-MovesOn k (drain p ms index (some k) rs) rs r s
            (apply_modules_of p ms index (some r) s.applied) (drain-MovesOn ms index k rs)
            (applied-Counted ms index r s.applied g))
      where
        s' : Round B W Q
        s' = record s {
          applied = record s.applied { deleted_resources = s.applied.deleted_resources ++ r ∷ [] };
        }

    -- Between two multi modules nothing is lost: every resource that the first one returned goes to the
    -- queues of the next one, to the resources that wait for their deletion, or out through a module that
    -- counts it down, and the engine's count moves with their number. No queue of another processor is
    -- touched. This holds while no simple module returns NULL and the input module returns no deleted
    -- resource.
    pub drain-MovedOn :
        (ms : List ModuleType) (index k : ℕ) (rs : List (Resource B)) (s : Round B W Q)
        (out : List (Resource B) × Round B W Q)
        → All IsKept s.applied.coming
        → drain p ms index (some k) rs s ≡ some out
        → MovedOn k (length rs) s out
    drain-MovedOn ms index k rs s out g e =
        subst (MovesOn k (length rs) s) e (drain-MovesOn ms index k rs s g)
