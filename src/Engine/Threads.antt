-- ===== src/Engine/Threads.antt =====
-- UpdateSleeping, ThreadFinished and the start of RunThread of lib/processing_engine/Processor.cc: how a
-- processor in batch mode counts its threads and reports to its engine.
use hector_core.Prelude.{
  Bool, true, false, List, [], ◌∷◌, ◌≡◌, ◌↔◌, ◌≢◌, refl, if◌then◌else◌, arith, ℤ, pos, negsuc, ◌+ℤ◌,
  ltb_ℤ, eqb_ℤ,
}

-- A call of the engine: `ProcessorSleeping` or `ProcessorWakeup`.
pub data Notice : Type 0 where
  sleeps : Notice
  wakes : Notice

pub record Threads : Type 0 where
  pub running_threads : ℤ
  pub sleeping_threads : ℤ
  pub sleeping : Bool

-- `UpdateSleeping` with the new number of sleeping threads, and the call that it makes when it has given up
-- the lock: `Delivery` says how the calls arrive.
unfoldable pub report : Threads → Threads × List Notice
report t =
    if t.sleeping
    then if ltb_ℤ t.sleeping_threads t.running_threads
      then (record t { sleeping = false }, wakes ∷ [])
      else (t, [])
    else if eqb_ℤ t.sleeping_threads t.running_threads
    then (record t { sleeping = true }, sleeps ∷ [])
    else (t, [])

-- `UpdateSleeping(1)`, before `GetItem`.
unfoldable pub fall_asleep : Threads → Threads × List Notice
unfolding report
fall_asleep t = report (record t { sleeping_threads = t.sleeping_threads +ℤ pos 1 })

-- `UpdateSleeping(-1)`, behind `GetItem`.
unfoldable pub wake_up : Threads → Threads × List Notice
unfolding report
wake_up t = report (record t { sleeping_threads = t.sleeping_threads +ℤ negsuc 0 })

-- The first lines of `RunThread`.
unfoldable pub thread_starts : Threads → Threads × List Notice
thread_starts t = (record t { running_threads = t.running_threads +ℤ pos 1 }, [])

-- `ThreadFinished`.
unfoldable pub thread_finished : Threads → Threads × List Notice
thread_finished t =
    let t' = record t { running_threads = t.running_threads +ℤ negsuc 0 } in
    (t', if eqb_ℤ t'.running_threads (pos 0) then sleeps ∷ [] else [])

pub data Move : Type 0 where
  starts : Move
  falls : Move
  wakes_up : Move

unfoldable pub move : Move → Threads → Threads × List Notice
unfolding thread_starts fall_asleep wake_up
move starts t = thread_starts t
move falls t = fall_asleep t
move wakes_up t = wake_up t

-- The notices are in turns, from the state `b` to the state `b'` of `sleeping`.
abbrev pub Turns : Bool → List Notice → Bool → Type 0
Turns b [] b' = b ≡ b'
Turns b (sleeps ∷ ns) b' = (b ≡ false) × Turns true ns b'
Turns b (wakes ∷ ns) b' = (b ≡ true) × Turns false ns b'

pub move-Turns : (m : Move) (t : Threads) → Turns t.sleeping (move m t).1 (move m t).0.sleeping
unfolding move thread_starts fall_asleep wake_up report
move-Turns starts t = refl
move-Turns falls t = ground arith
move-Turns wakes_up t = ground arith

report_exact :
    (t : Threads)
    → ltb_ℤ (report t).0.running_threads (report t).0.sleeping_threads ≡ false
    → ((report t).0.sleeping ≡ true)
      ↔ ((report t).0.sleeping_threads ≡ (report t).0.running_threads)
unfolding report
report_exact t h = ground arith

pub move_exact :
    (m : Move) (t : Threads)
    → m ≢ starts
    → ltb_ℤ (move m t).0.running_threads (move m t).0.sleeping_threads ≡ false
    → ((move m t).0.sleeping ≡ true)
      ↔ ((move m t).0.sleeping_threads ≡ (move m t).0.running_threads)
unfolding move fall_asleep wake_up
move_exact starts t n h = absurd (n refl)
move_exact falls t n h =
    report_exact (record t { sleeping_threads = t.sleeping_threads +ℤ pos 1 }) h
move_exact wakes_up t n h =
    report_exact (record t { sleeping_threads = t.sleeping_threads +ℤ negsuc 0 }) h
