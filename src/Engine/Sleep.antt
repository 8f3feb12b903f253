-- ===== src/Engine/Sleep.antt =====
-- When a processing engine sleeps: CheckSleeping, UpdateResourceCount, ProcessorSleeping and
-- ProcessorWakeup of lib/processing_engine/ProcessingEngine.cc and .h, and UpdateSleeping and
-- ThreadFinished of lib/processing_engine/Processor.cc.
use hector_core.Prelude.{
  ℕ, Bool, true, false, ◌&&◌, ◌||◌, not, List, [], ◌∷◌, ◌++◌, ◌≡◌, ◌↔◌, refl, sym, subst, eqb_ℤ_iff,
  if◌then◌else◌, ℤ, pos, negsuc, ◌+ℤ◌, eqb_ℤ, ltb_ℤ, arith,
}

-- A call of the server: `ProcessingEngineSleeping` or `ProcessingEngineWakeup`.
pub data Report : Type 0 where
  report_sleeping : Report
  report_wakeup : Report

pub record Engine : Type 0 where
  pub processors : ℕ
  pub processors_sleeping : ℤ
  pub resource_count : ℤ
  pub sleeping : Bool

unfoldable pub new_engine : ℕ → Engine
new_engine n = record {
  processors = n;
  processors_sleeping = pos 0;
  resource_count = pos 0;
  sleeping = false;
}

-- The first sections of `UpdateResourceCount`, `ProcessorSleeping` and `ProcessorWakeup`; each call then
-- runs `check_sleeping` (the first one in batch mode only).
unfoldable pub update_count : ℤ → Engine → Engine
update_count n e = record e { resource_count = e.resource_count +ℤ n }

unfoldable pub processor_sleeping : Engine → Engine
processor_sleeping e = record e { processors_sleeping = e.processors_sleeping +ℤ pos 1 }

unfoldable pub processor_wakeup : Engine → Engine
processor_wakeup e = record e { processors_sleeping = e.processors_sleeping +ℤ negsuc 0 }

abbrev pub all_asleep : Engine → Bool
all_asleep e = eqb_ℤ e.processors_sleeping (pos e.processors)

-- What `CheckSleeping` does while it holds the lock, and the calls of the server that it makes when it has
-- given it up: `Delivery` says how they arrive.
unfoldable pub check_sleeping : Engine → Engine × List Report
check_sleeping e =
    if not e.sleeping
    then if all_asleep e && eqb_ℤ e.resource_count (pos 0)
      then (record e { sleeping = true }, report_sleeping ∷ [])
      else (e, [])
    else if not (all_asleep e) || ltb_ℤ (pos 0) e.resource_count
    then (record e { sleeping = false }, report_wakeup ∷ [])
    else (e, [])

-- The sections, in the order in which the threads take the lock.
pub data Section : Type 0 where
  count : ℤ → Section
  processor_sleeps : Section
  processor_wakes : Section
  check : Section

unfoldable pub step : Section → Engine → Engine × List Report
unfolding update_count processor_sleeping processor_wakeup check_sleeping
step (count n) e = (update_count n e, [])
step processor_sleeps e = (processor_sleeping e, [])
step processor_wakes e = (processor_wakeup e, [])
step check e = check_sleeping e

abbrev after : List Report → Engine × List Report → Engine × List Report
after rs (e, more) = (e, rs ++ more)

unfoldable pub run : List Section → Engine → Engine × List Report
unfolding step
run [] e = (e, [])
run (s ∷ ss) e = after (step s e).1 (run ss (step s e).0)

-- The reports are in turns, from the state `b` to the state `b'` of `sleeping`.
abbrev pub Turns : Bool → List Report → Bool → Type 0
Turns b [] b' = b ≡ b'
Turns b (report_sleeping ∷ rs) b' = (b ≡ false) × Turns true rs b'
Turns b (report_wakeup ∷ rs) b' = (b ≡ true) × Turns false rs b'

check-Turns : (e : Engine) → Turns e.sleeping (check_sleeping e).1 (check_sleeping e).0.sleeping
unfolding check_sleeping
check-Turns e = ground arith

pub step-Turns : (s : Section) (e : Engine) → Turns e.sleeping (step s e).1 (step s e).0.sleeping
unfolding step update_count processor_sleeping processor_wakeup
step-Turns (count n) e = refl
step-Turns processor_sleeps e = refl
step-Turns processor_wakes e = refl
step-Turns check e = check-Turns e

-- The count is not negative.
abbrev pub IsCounted : Engine → Type 0
IsCounted e = ltb_ℤ e.resource_count (pos 0) ≡ false

check-decides :
    (e : Engine)
    → IsCounted (check_sleeping e).0
    → ((check_sleeping e).0.sleeping ≡ true) ↔ (
        (all_asleep (check_sleeping e).0 ≡ true)
        × (eqb_ℤ (check_sleeping e).0.resource_count (pos 0) ≡ true))
unfolding check_sleeping
check-decides e h = ground arith

run-last :
    (ss : List Section) (e : Engine)
    → (run (ss ++ check ∷ []) e).0 ≡ (check_sleeping (run ss e).0).0
unfolding run step
run-last [] e = refl
run-last (s ∷ ss) e = run-last ss (step s e).0

-- Once every change of the count and of the processors is followed by its check, the engine sleeps
-- exactly when all its processors sleep and it holds no resource, whatever the order of the sections, if
-- the count is not negative.
pub sleeps-when-idle :
    (ss : List Section) (e : Engine)
    → IsCounted (run (ss ++ check ∷ []) e).0
    → ((run (ss ++ check ∷ []) e).0.sleeping ≡ true) ↔ (
        ((run (ss ++ check ∷ []) e).0.processors_sleeping
          ≡ pos (run (ss ++ check ∷ []) e).0.processors)
        × ((run (ss ++ check ∷ []) e).0.resource_count ≡ pos 0))
sleeps-when-idle ss e h =
    subst
      (λ x.
        IsCounted x
        → (x.sleeping ≡ true)
          ↔ ((x.processors_sleeping ≡ pos x.processors) × (x.resource_count ≡ pos 0)))
      (sym (run-last ss e)) (last (run ss e).0) h
  where
    last :
        (d : Engine)
        → IsCounted (check_sleeping d).0
        → ((check_sleeping d).0.sleeping ≡ true) ↔ (
            ((check_sleeping d).0.processors_sleeping ≡ pos (check_sleeping d).0.processors)
            × ((check_sleeping d).0.resource_count ≡ pos 0))
    last d k = (
      λ t. let (a, b) = (check-decides d k).0 t in ((eqb_ℤ_iff _ _).0 a, (eqb_ℤ_iff _ _).0 b),
      λ (a, b). (check-decides d k).1 ((eqb_ℤ_iff _ _).1 a, (eqb_ℤ_iff _ _).1 b),
    )
