-- ===== src/Processor/Apply/Checked.antt =====
-- The modules that Init accepts are those that ApplyModules can run.
use hector_core.Prelude.{
  ℕ, suc, ◌+◌, ◌-◌, true, Option, none, some, List, [], ◌∷◌, ◌++◌, length, arith, ◌≡◌, ◌≢◌, refl,
  ap, length-append, subst, inl, inr, Bool-cases,
}
use hector_core.Processor.{Resource}
use hector_core.Processor.Apply.{
  ModuleType, invalid, input, output, simple, multi, check_module, check_from, check_modules, State,
  Rest, read_input, after_input, after_output, after_simple, apply_modules, run_simple,
}

check_head :
    (q f n i : ℕ) (m : ModuleType) (ms : List ModuleType)
    → check_from q f n i (m ∷ ms) ≡ true
    → (check_module q f n i m ≡ true) × (check_from q f n (suc i) ms ≡ true)
unfolding check_from
check_head q f n i m ms h = ground arith

check_later :
    (q f n i : ℕ) (pre post : List ModuleType)
    → check_from q f n i (pre ++ post) ≡ true
    → check_from q f n (length pre + i) post ≡ true
check_later q f n i [] post h = subst (λ k. check_from q f n k post ≡ true) (omega arith) h
check_later q f n i (m ∷ pre) post h =
    subst (λ k. check_from q f n k post ≡ true) (omega arith)
      (check_later q f n (suc i) pre post (check_head q f n i m (pre ++ post) h).1)

output_last : (q f n i : ℕ) → check_module q f n i output ≡ true → i ≡ n - 1
unfolding check_module
output_last q f n i h = ground arith

input_first : (q f n i : ℕ) → check_module q f n i input ≡ true → i ≡ 0
unfolding check_module
input_first q f n i h = ground arith

module _ {B W : Type 0}
    (process_simple process_output : ℕ → Resource B → W → Option (Resource B) × W) where
  abbrev Safe : Rest B W → Type 0
  Safe rest = (r : Resource B) (s : State B W) → rest (some r) s ≢ none

  after_simple-Safe :
      (rest : Rest B W) (s : State B W) (o : Option (Resource B) × W)
      → Safe rest
      → after_simple rest s o ≢ none
  unfolding after_simple
  after_simple-Safe rest s (none, w) h = λ e. cc
  after_simple-Safe rest s (some r, w) h = elim (Bool-cases r.deleted) [
    | inl d ↦ simp d (λ e. cc)
    | inr d ↦ simp d (h r (record s { world = w }))
  ]

  after_input-Safe :
      (rest : Rest B W) (o : Option (Resource B) × State B W)
      → Safe rest
      → after_input rest o ≢ none
  unfolding after_input
  after_input-Safe rest (none, s) h = λ e. cc
  after_input-Safe rest (some r, s) h = h r _

  after_output-Safe :
      (rest : Rest B W) (s : State B W) (o : Option (Resource B) × W)
      → ((t : State B W) → rest none t ≢ none)
      → after_output rest s o ≢ none
  unfolding after_output
  after_output-Safe rest s (r, w) h = h _

  abbrev simple_result : ℕ → Resource B → W → Option (Resource B) × W
  simple_result = run_simple process_simple process_output

  abbrev apply : List ModuleType → ℕ → Rest B W
  apply = apply_modules process_simple process_output

  -- Behind the last module nothing is left to apply.
  apply-nil : (i : ℕ) (r : Option (Resource B)) (s : State B W) → apply [] i r s ≢ none
  unfolding apply_modules
  apply-nil i r s e = cc

  later-Safe :
      (q f n i : ℕ) (ms : List ModuleType)
      → check_from q f n (suc i) ms ≡ true
      → suc i + length ms ≡ n
      → Safe (apply ms (suc i))
  unfolding apply_modules
  later-Safe q f n i [] h l r s = apply-nil (suc i) (some r) s
  later-Safe q f n i (multi ∷ ms) h l r s = λ e. cc
  later-Safe q f n i (invalid ∷ ms) h l r s =
      later-Safe q f n (suc i) ms (check_head q f n (suc i) invalid ms h).1 (omega arith) r s
  later-Safe q f n i (input ∷ ms) h l r s =
      absurd (omega (arith, input_first q f n (suc i) (check_head q f n (suc i) input ms h).0))
  later-Safe q f n i (output ∷ []) h l r s =
      after_output-Safe (apply [] (suc (suc i))) s (process_output (suc i) r s.world)
        (λ t. apply-nil (suc (suc i)) none t)
  later-Safe q f n i (output ∷ m ∷ ms) h l r s =
      absurd
        (omega (arith, output_last q f n (suc i) (check_head q f n (suc i) output (m ∷ ms) h).0))
  later-Safe q f n i (simple ∷ ms) h l r s =
      after_simple-Safe (apply ms (suc (suc i))) s (simple_result (suc i) r s.world)
        (later-Safe q f n (suc i) ms (check_head q f n (suc i) simple ms h).1 (omega arith))

  -- What `RunThread` hands to the first module: NULL to an input module, else a resource.
  abbrev pub first_resource : List ModuleType → Resource B → Option (Resource B)
  first_resource [] r = some r
  first_resource (input ∷ ms) r = none
  first_resource (output ∷ ms) r = some r
  first_resource (simple ∷ ms) r = some r
  first_resource (multi ∷ ms) r = some r
  first_resource (invalid ∷ ms) r = some r

  first-Safe :
      (q f n : ℕ) (ms : List ModuleType) (r : Resource B) (s : State B W)
      → check_from q f n 0 ms ≡ true
      → length ms ≡ n
      → apply ms 0 (first_resource ms r) s ≢ none
  unfolding apply_modules
  first-Safe q f n [] r s h l = apply-nil 0 (some r) s
  first-Safe q f n (multi ∷ ms) r s h l = λ e. cc
  first-Safe q f n (invalid ∷ ms) r s h l =
      later-Safe q f n 0 ms (check_head q f n 0 invalid ms h).1 (omega arith) r s
  first-Safe q f n (input ∷ ms) r s h l =
      after_input-Safe (apply ms 1) (read_input s.coming s)
        (later-Safe q f n 0 ms (check_head q f n 0 input ms h).1 (omega arith))
  first-Safe q f n (output ∷ []) r s h l =
      after_output-Safe (apply [] 1) s (process_output 0 r s.world) (λ t. apply-nil 1 none t)
  first-Safe q f n (output ∷ m ∷ ms) r s h l =
      absurd (omega (arith, output_last q f n 0 (check_head q f n 0 output (m ∷ ms) h).0))
  first-Safe q f n (simple ∷ ms) r s h l =
      after_simple-Safe (apply ms 1) s (simple_result 0 r s.world)
        (later-Safe q f n 0 ms (check_head q f n 0 simple ms h).1 (omega arith))

  -- On modules that the check of `Init` accepts, `ApplyModules` fails no assertion and uses no NULL
  -- resource, whatever the modules do: neither from the first module on, nor with a resource behind
  -- any module, as after a multi module.
  pub checked_modules_apply :
      (queues filters : ℕ) (ms : List ModuleType) (r : Resource B) (s : State B W)
      → check_modules queues filters ms ≡ true
      → (apply_modules process_simple process_output ms 0 (first_resource ms r) s ≢ none)
        × ((pre post : List ModuleType) (m : ModuleType)
            → ms ≡ pre ++ m ∷ post
            → apply_modules process_simple process_output post (suc (length pre)) (some r) s ≢ none)
  unfolding check_modules
  checked_modules_apply queues filters ms r s h = (
    first-Safe queues filters (length ms) ms r s h refl,
    λ pre post m e.
        later-Safe queues filters (length ms) (length pre) post
          (check_head _ _ _ _ m post (
            subst (λ k. check_from queues filters (length ms) k (m ∷ post) ≡ true) (omega arith)
              (check_later queues filters (length ms) 0 pre (m ∷ post)
                (subst (λ l. check_from queues filters (length ms) 0 l ≡ true) e h)))).1
          (omega (arith, ap length e, length-append pre (m ∷ post))) r s,
  )
