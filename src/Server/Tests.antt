-- ===== src/Server/Tests.antt =====
-- Batch runs of small servers, and the theorems at concrete inputs.
use hector_core.Prelude.{true, false, some, List, [], ◌∷◌, ◌≡◌, refl, pos, ltb_ℤ}
use hector_core.Server.{
  outside, yielding, finished, released, starting, waiting, Server, Section, sleeps, locks, signals,
  wakes, waits, step, run, new_server, all_outside, count_sleeping, lock_using, decide,
}
use hector_core.Server.Finish.{decides-when-asleep}
use hector_core.Server.Deadlock.{IsStuck, relapsed, relapsed-StuckForever}

-- Both engines fall asleep, and the second thread is about to decide.
abbrev asleep : List Section
asleep = waits ∷ sleeps 0 ∷ sleeps 1 ∷ locks 1 ∷ []

abbrev at_decision : Server
at_decision = record {
  engines = 2;
  sleeping = pos 2;
  woken_up = false;
  object = false;
  using = true;
  threads = outside ∷ yielding ∷ [];
  main = waiting;
}

abbrev decided : Server
decided = record at_decision { using = false; threads = outside ∷ finished ∷ [] }

decides-when-asleep_example :
    (ltb_ℤ at_decision.sleeping (pos at_decision.engines) ≡ false)
    × (decided.sleeping ≡ at_decision.sleeping)
unfolding run step new_server all_outside count_sleeping lock_using decide
decides-when-asleep_example = decides-when-asleep 2 2 asleep 1 at_decision decided refl refl refl

-- `Start` goes on after the signal.
goes_on :
    step (signals 1) decided
    ≡ some (record decided { threads = outside ∷ outside ∷ []; main = released })
unfolding step
goes_on = refl

-- A signal that comes before `Start` waits is lost.
lost :
    run (signals 1 ∷ waits ∷ []) (record decided { main = starting })
    ≡ some (record decided { threads = outside ∷ outside ∷ []; main = waiting })
unfolding run step
lost = refl

relapsed-StuckForever_example :
    (run (wakes 0 ∷ sleeps 0 ∷ []) at_decision ≡ some (relapsed 0 at_decision))
    × IsStuck (pos 2) (relapsed 0 at_decision)
unfolding run step count_sleeping
relapsed-StuckForever_example =
    relapsed-StuckForever 0 [] at_decision (relapsed 0 at_decision) refl refl refl refl refl
