-- ===== src/Processor/Apply/Balance.antt =====
-- The resources that the engine counts, and those that ApplyModules still holds.
use hector_core.Prelude.{
  ℕ, suc, ◌+◌, Bool, true, false, Option, none, some, List, [], ◌∷◌, ◌++◌, length, arith, ◌≡◌, ◌≢◌,
  refl, sym, ap, subst, ◌∙◌, map, All, length-append, append_assoc, append-nil, inl, inr,
  Bool-cases,
}
use hector_core.Processor.{Resource, Call, count_up, count_down, ups, downs}
use hector_core.Processor.Apply.{
  ModuleType, invalid, input, output, simple, multi, State, Applied, Rest, read_input, after_input,
  after_output, after_simple, apply_modules, run_simple, release,
}

pub ups-append : (a b : List Call) → ups (a ++ b) ≡ ups a + ups b
ups-append [] b = omega arith
ups-append (count_up ∷ a) b = omega (arith, ups-append a b)
ups-append (count_down ∷ a) b = ups-append a b

pub downs-append : (a b : List Call) → downs (a ++ b) ≡ downs a + downs b
downs-append [] b = omega arith
downs-append (count_down ∷ a) b = omega (arith, downs-append a b)
downs-append (count_up ∷ a) b = downs-append a b

abbrev pub held : {B : Type 0} → Option (Resource B) → ℕ
held none = 0
held (some r) = 1

-- The input module returns no resource that is marked deleted.
abbrev pub IsKept : {B : Type 0} → Option (Resource B) → Type 0
IsKept none = Unit {0}
IsKept (some r) = r.deleted ≡ false

module _ {B W : Type 0} where
  -- The count of the engine moved as did the number of the resources held and waiting for deletion.
  abbrev pub Accounts :
      Option (Resource B) → State B W → Option (Resource B) × Bool × State B W → Type 0
  Accounts o s (o', stop, s') =
      held o' + length s'.deleted_resources + ups s.calls + downs s'.calls
      ≡ held o + length s.deleted_resources + ups s'.calls + downs s.calls

  abbrev Balanced : Option (Resource B) → State B W → Applied B W → Type 0
  Balanced o s none = Unit {0}
  Balanced o s (some out) = Accounts o s out

  abbrev BalancedRest : Rest B W → Type 0
  BalancedRest rest =
      (o : Option (Resource B)) (s : State B W) → All IsKept s.coming → Balanced o s (rest o s)

  -- A step that leaves the account as it is may come before.
  Balanced-before :
      (o o' : Option (Resource B)) (s s' : State B W) (out : Applied B W)
      → Accounts o s (o', false, s')
      → Balanced o' s' out
      → Balanced o s out
  Balanced-before o o' s s' none h b = tt
  Balanced-before o o' s s' (some out) h b = omega (arith, h, b)

  after_simple-Balanced :
      (rest : Rest B W) (r : Resource B) (s : State B W) (out : Option (Resource B) × W)
      → out.0 ≢ none
      → All IsKept s.coming
      → BalancedRest rest
      → Balanced (some r) s (after_simple rest s out)
  unfolding after_simple
  after_simple-Balanced rest r s (none, w) n k h = absurd (n refl)
  after_simple-Balanced rest r s (some r', w) n k h = elim (Bool-cases r'.deleted) [
    | inl d ↦ simp d (omega (arith, length-append s.deleted_resources (r' ∷ [])))
    | inr d ↦ simp d (
        Balanced-before (some r) (some r') s (record s { world = w }) _ refl
          (h (some r') (record s { world = w }) k))
  ]

  after_output-Balanced :
      (rest : Rest B W) (r : Resource B) (s : State B W) (out : Option (Resource B) × W)
      → All IsKept s.coming
      → BalancedRest rest
      → Balanced (some r) s (after_output rest s out)
  unfolding after_output
  after_output-Balanced rest r s (o, w) k h =
      Balanced-before (some r) none s next (rest none next)
        (omega
          (arith, ups-append s.calls (count_down ∷ []), downs-append s.calls (count_down ∷ [])))
        (h none next k)
    where
      next : State B W
      next = record s {
        world = w;
        released = release o s.released;
        calls = s.calls ++ count_down ∷ [];
      }

  after_input-Balanced :
      (rest : Rest B W) (s : State B W) (coming : List (Option (Resource B)))
      → All IsKept coming
      → BalancedRest rest
      → Balanced none s (after_input rest (read_input coming s))
  unfolding after_input read_input
  after_input-Balanced rest s [] k h = refl
  after_input-Balanced rest s (none ∷ coming) k h = refl
  after_input-Balanced rest s (some r ∷ coming) k h = simp (k.0) (
      Balanced-before none (some r) s next (rest (some r) next)
        (omega (arith, ups-append s.calls (count_up ∷ []), downs-append s.calls (count_up ∷ [])))
        (h (some r) next k.1))
    where
      next : State B W
      next = record s { coming = coming; calls = s.calls ++ count_up ∷ [] }

read_input-deleted :
    {B W : Type 0} (ds : List (Resource B)) (r : Resource B) (rest : List (Option (Resource B)))
    (s : State B W)
    → All (λ d. d.deleted ≡ true) ds
    → r.deleted ≡ false
    → read_input (map some ds ++ some r ∷ rest) s
      ≡ (some r, record s { coming = rest; deleted_resources = s.deleted_resources ++ ds })
unfolding read_input
read_input-deleted [] r rest s a k = simp k (
    ap (λ l. (some r, record s { coming = rest; deleted_resources = l }))
      (sym (append-nil s.deleted_resources)))
read_input-deleted (d ∷ ds) r rest s a k = simp (a.0) (
    read_input-deleted ds r rest (record s { deleted_resources = s.deleted_resources ++ d ∷ [] })
      a.1 k
    ∙ ap (λ l. (some r, record s { coming = rest; deleted_resources = l }))
        (append_assoc s.deleted_resources (d ∷ []) ds))

module _ {B W : Type 0}
    (process_simple process_output : ℕ → Resource B → W → Option (Resource B) × W) where
  run_simple-some :
      (i : ℕ) (r : Resource B) (w : W)
      → (process_simple i r w).0 ≢ none
      → (run_simple process_simple process_output i r w).0 ≢ none
  run_simple-some i r w h = elim (Bool-cases r.skip) [ inl d ↦ simp d (λ e. cc) | inr d ↦ simp d h ]

  module _ (returns : (i : ℕ) (r : Resource B) (w : W) → (process_simple i r w).0 ≢ none) where
    apply-Balanced :
        (ms : List ModuleType) (i : ℕ)
        → BalancedRest (apply_modules process_simple process_output ms i)
    unfolding apply_modules
    apply-Balanced [] i o s k = refl
    apply-Balanced (multi ∷ ms) i o s k = refl
    apply-Balanced (invalid ∷ ms) i o s k = apply-Balanced ms (suc i) o s k
    apply-Balanced (input ∷ ms) i (some r) s k = tt
    apply-Balanced (input ∷ ms) i none s k =
        after_input-Balanced (apply_modules process_simple process_output ms (suc i)) s s.coming k
          (apply-Balanced ms (suc i))
    apply-Balanced (output ∷ ms) i none s k = tt
    apply-Balanced (output ∷ ms) i (some r) s k =
        after_output-Balanced (apply_modules process_simple process_output ms (suc i)) r s
          (process_output i r s.world) k (apply-Balanced ms (suc i))
    apply-Balanced (simple ∷ ms) i none s k = tt
    apply-Balanced (simple ∷ ms) i (some r) s k =
        after_simple-Balanced (apply_modules process_simple process_output ms (suc i)) r s
          (run_simple process_simple process_output i r s.world)
          (run_simple-some i r s.world (returns i r s.world)) k (apply-Balanced ms (suc i))

    -- While no simple module returns NULL and the input module returns no deleted resource,
    -- `ApplyModules` moves the engine's count as much as the resources that it returns and those that
    -- wait for their deletion grow in number: none is lost or counted twice.
    pub apply_modules-Accounts :
        (ms : List ModuleType) (i : ℕ) (o : Option (Resource B)) (s : State B W)
        (out : Option (Resource B) × Bool × State B W)
        → All IsKept s.coming
        → apply_modules process_simple process_output ms i o s ≡ some out
        → Accounts o s out
    apply_modules-Accounts ms i o s out k e = subst (Balanced o s) e (apply-Balanced ms i o s k)

  -- The resources that the input module returns marked deleted are kept for their deletion, but not
  -- counted: the engine is told of one resource, however many wait for deletion.
  pub deleted_input-uncounted :
      (ds : List (Resource B)) (r : Resource B) (rest : List (Option (Resource B))) (s : State B W)
      → All (λ d. d.deleted ≡ true) ds
      → r.deleted ≡ false
      → s.coming ≡ map some ds ++ some r ∷ rest
      → apply_modules process_simple process_output (input ∷ []) 0 none s
        ≡ some (
          some r,
          false,
          record s {
            coming = rest;
            deleted_resources = s.deleted_resources ++ ds;
            calls = s.calls ++ count_up ∷ [];
          },
        )
  unfolding apply_modules
  deleted_input-uncounted ds r rest s a k e =
      simp (e, read_input-deleted ds r rest s a k, after_input)
