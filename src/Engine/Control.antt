-- ===== src/Engine/Control.antt =====
-- Starting, stopping, pausing and resuming: StartSync, StopSync, PauseSync, ResumeSync, DoPause,
-- DoResume, SetRun and SetPause of lib/processing_engine/ProcessingEngine.cc.
use hector_core.Prelude.{
  ℕ, zero, suc, Bool, true, false, ◌&&◌, not, none, some, List, [], ◌∷◌, ◌++◌, ◌≡◌, if◌then◌else◌,
  ℤ, pos, negsuc, ◌+ℤ◌, arith, inl, inr, Bool-cases,
}
use hector_core.Common.Values.{str2bool}

pub data Action : Type 0 where
  start : Action
  stop : Action
  pause : Action
  resume : Action

-- A call that the engine makes: of its output queue, or of one of its processors.
pub data Order : Type 0 where
  queue : Action → Order
  processor : ℕ → Action → Order

-- `pause_locks` says how often `pauseLock` was locked more than unlocked: below 0, it was given up while
-- it was free.
pub record Control : Type 0 where
  pub has_queue : Bool
  pub processors : ℕ
  pub prop_run : Bool
  pub prop_pause : Bool
  pub cancel : Bool
  pub pause_locks : ℤ
  pub resource_count : ℤ
  pub orders : List Order

abbrev to_processors : ℕ → ℕ → Action → List Order
to_processors zero i a = []
to_processors (suc n) i a = processor i a ∷ to_processors n (suc i) a

abbrev pub to_all : Control → Action → List Order
to_all c a = (if c.has_queue then queue a ∷ [] else []) ++ to_processors c.processors 0 a

unfoldable pub do_pause : Control → Control
do_pause c = record c { pause_locks = c.pause_locks +ℤ pos 1; orders = c.orders ++ to_all c pause }

unfoldable pub do_resume : Control → Control
do_resume c = record c {
  pause_locks = c.pause_locks +ℤ negsuc 0;
  orders = c.orders ++ to_all c resume;
}

unfoldable pub start_sync : Control → Control
start_sync c =
    if not c.prop_run
    then record c {
      cancel = false;
      resource_count = pos 0;
      orders = c.orders ++ to_all c start;
      prop_run = true;
    }
    else c

unfoldable pub pause_sync : Control → Control
unfolding do_pause
pause_sync c =
    if c.prop_run && not c.prop_pause then record (do_pause c) { prop_pause = true } else c

unfoldable pub resume_sync : Control → Control
unfolding do_resume
resume_sync c = if c.prop_pause then record (do_resume c) { prop_pause = false } else c

-- `StopSync` up to where it gives up the object's lock, when no reader waits any more.
unfoldable pub stop_begin : Control → Control
unfolding resume_sync
stop_begin c = if c.prop_run then record (resume_sync c) { cancel = true } else c

-- `StopSync` from there on, when it was running; the processors are stopped without the lock.
unfoldable pub stop_end : Control → Control
stop_end c = record c { orders = c.orders ++ to_all c stop; prop_run = false }

-- The whole of `StopSync`, with no other thread in between.
unfoldable pub stop_sync : Control → Control
stop_sync c = if c.prop_run then stop_end (stop_begin c) else c

-- A value that is no truth value is only logged.
unfoldable pub set_run : List ℕ → Control → Control
set_run value c = elim (str2bool value) [
  | none ↦ c
  | some b ↦ if b then start_sync c else stop_sync c
]

unfoldable pub set_pause : List ℕ → Control → Control
set_pause value c = elim (str2bool value) [
  | none ↦ c
  | some b ↦ if b then pause_sync c else resume_sync c
]

-- What the threads do while they hold the object's lock.
pub data Section : Type 0 where
  starts : Section
  pauses : Section
  resumes : Section
  stop_begins : Section
  stop_ends : Section
  sets_run : List ℕ → Section
  sets_pause : List ℕ → Section

unfoldable pub step : Section → Control → Control
step starts c = start_sync c
step pauses c = pause_sync c
step resumes c = resume_sync c
step stop_begins c = stop_begin c
step stop_ends c = stop_end c
step (sets_run value) c = set_run value c
step (sets_pause value) c = set_pause value c

unfoldable pub run : List Section → Control → Control
unfolding step
run [] c = c
run (s ∷ ss) c = run ss (step s c)

-- `pauseLock` is held exactly while the engine is paused.
abbrev pub IsLocked : Control → Type 0
IsLocked c = c.pause_locks ≡ pos (if c.prop_pause then 1 else 0)

module _ (c : Control) (h : IsLocked c) where
  start-IsLocked : IsLocked (start_sync c)
  unfolding start_sync
  start-IsLocked = ground arith

  pause-IsLocked : IsLocked (pause_sync c)
  unfolding pause_sync do_pause
  pause-IsLocked = ground arith

  resume-IsLocked : IsLocked (resume_sync c)
  unfolding resume_sync do_resume
  resume-IsLocked = ground arith

  stop_begin-IsLocked : IsLocked (stop_begin c)
  unfolding stop_begin resume_sync do_resume
  stop_begin-IsLocked = ground arith

  stop_end-IsLocked : IsLocked (stop_end c)
  unfolding stop_end
  stop_end-IsLocked = h

stop-IsLocked : (c : Control) → IsLocked c → IsLocked (stop_sync c)
unfolding stop_sync
stop-IsLocked c h = elim (Bool-cases c.prop_run) [
  | inl e ↦ simp e (stop_end-IsLocked (stop_begin c) (stop_begin-IsLocked c h))
  | inr e ↦ simp e h
]

set_run-IsLocked : (value : List ℕ) (c : Control) → IsLocked c → IsLocked (set_run value c)
unfolding set_run
set_run-IsLocked value c h = ground (arith, start-IsLocked c h, stop-IsLocked c h)

set_pause-IsLocked : (value : List ℕ) (c : Control) → IsLocked c → IsLocked (set_pause value c)
unfolding set_pause
set_pause-IsLocked value c h = ground (arith, pause-IsLocked c h, resume-IsLocked c h)

step-IsLocked : (s : Section) (c : Control) → IsLocked c → IsLocked (step s c)
unfolding step
step-IsLocked starts c h = start-IsLocked c h
step-IsLocked pauses c h = pause-IsLocked c h
step-IsLocked resumes c h = resume-IsLocked c h
step-IsLocked stop_begins c h = stop_begin-IsLocked c h
step-IsLocked stop_ends c h = stop_end-IsLocked c h
step-IsLocked (sets_run value) c h = set_run-IsLocked value c h
step-IsLocked (sets_pause value) c h = set_pause-IsLocked value c h

-- In whatever order the sections of the threads run, `pauseLock` is held once while the engine is
-- paused and not at all otherwise: it is never taken twice nor given up when it is free.
pub run-IsLocked : (ss : List Section) (c : Control) → IsLocked c → IsLocked (run ss c)
unfolding run
run-IsLocked [] c h = h
run-IsLocked (s ∷ ss) c h = run-IsLocked ss (step s c) (step-IsLocked s c h)

-- A pause that comes while the engine is being stopped outlives the stop: the engine does not run, and
-- yet is paused, with `pauseLock` held.
pub paused_while_stopping :
    (c : Control)
    → IsLocked c
    → c.prop_run ≡ true
    → (stop_end (pause_sync (stop_begin c))).prop_run ≡ false
      × ((stop_end (pause_sync (stop_begin c))).prop_pause ≡ true)
      × ((stop_end (pause_sync (stop_begin c))).pause_locks ≡ pos 1)
unfolding stop_end pause_sync do_pause stop_begin resume_sync do_resume
paused_while_stopping c h r = ground arith
