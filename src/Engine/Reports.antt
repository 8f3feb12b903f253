-- ===== src/Engine/Reports.antt =====
-- What the server and the engine are told by CheckSleeping of lib/processing_engine/ProcessingEngine.cc and
-- by UpdateSleeping of lib/processing_engine/Processor.cc, in whatever order the calls arrive.
use hector_core.Prelude.{
  ℕ, ◌+◌, Bool, true, false, List, [], ◌∷◌, ◌≡◌, ◌≢◌, ◌↔◌, refl, ap, subst, if◌then◌else◌, sum,
  arith, ltb_ℤ,
}
use hector_core.Engine.Sleep.{Report, report_sleeping, report_wakeup, Engine, new_engine}
use hector_core.Engine.Sleep
use hector_core.Engine.Threads
use hector_core.Engine.Delivery.{Event, Delivery, nothing_told, act_all, act_all-IsBalanced}

abbrev pub one : Bool → ℕ
one b = if b then 1 else 0

abbrev pub sleep_reports : Report → ℕ
sleep_reports report_sleeping = 1
sleep_reports report_wakeup = 0

abbrev pub wakeup_reports : Report → ℕ
wakeup_reports report_sleeping = 0
wakeup_reports report_wakeup = 1

Turns-balance :
    (b c : Bool) (rs : List Report)
    → Sleep.Turns b rs c
    → sum sleep_reports rs + one b ≡ sum wakeup_reports rs + one c
Turns-balance b c [] h = omega (arith, ap one h)
Turns-balance b c (report_sleeping ∷ rs) (h, k) = omega (arith, ap one h, Turns-balance true c rs k)
Turns-balance b c (report_wakeup ∷ rs) (h, k) = omega (arith, ap one h, Turns-balance false c rs k)

-- However the sections of the threads and the calls that follow them interleave, the calls that the server
-- got and those that threads are about to make are together one more that the engine sleeps than that it
-- woke up while `sleeping` is set, and as many while it is not.
pub reports_balanced :
    (n : ℕ) (es : List (Event Sleep.Section)) (d : Delivery Engine Report)
    → act_all Sleep.step es (nothing_told (new_engine n)) ≡ d
    → sum sleep_reports d.told + sum sleep_reports d.pending
      ≡ sum wakeup_reports d.told + sum wakeup_reports d.pending + one d.state.sleeping
unfolding new_engine
reports_balanced n es d e =
    subst
      (λ d.
        sum sleep_reports d.told + sum sleep_reports d.pending
        ≡ sum wakeup_reports d.told + sum wakeup_reports d.pending + one d.state.sleeping)
      e
      (act_all-IsBalanced Sleep.step sleep_reports wakeup_reports (λ s. one s.sleeping)
        (λ x s.
          Turns-balance s.sleeping (Sleep.step x s).0.sleeping (Sleep.step x s).1
            (Sleep.step-Turns x s))
        es (nothing_told (new_engine n)) refl)

abbrev pub sleep_notices : Threads.Notice → ℕ
sleep_notices Threads.sleeps = 1
sleep_notices Threads.wakes = 0

abbrev pub wakeup_notices : Threads.Notice → ℕ
wakeup_notices Threads.sleeps = 0
wakeup_notices Threads.wakes = 1

notices-balance :
    (b c : Bool) (ns : List Threads.Notice)
    → Threads.Turns b ns c
    → sum sleep_notices ns + one b ≡ sum wakeup_notices ns + one c
notices-balance b c [] h = omega (arith, ap one h)
notices-balance b c (Threads.sleeps ∷ ns) (h, k) =
    omega (arith, ap one h, notices-balance true c ns k)
notices-balance b c (Threads.wakes ∷ ns) (h, k) =
    omega (arith, ap one h, notices-balance false c ns k)

-- While the threads of a processor that is not asleep start, go to sleep and wake up in any order, and
-- their calls of the engine arrive in any order, these and those that they are about to make are together
-- one more that the processor sleeps than that it woke up while it counts as asleep, and as many while it
-- does not; and when a thread has gone to sleep or woken up, and no more threads sleep than run, it counts
-- as asleep exactly when all its running threads sleep.
pub processor_reports :
    (es : List (Event Threads.Move)) (m : Threads.Move) (t : Threads.Threads)
    (d : Delivery Threads.Threads Threads.Notice)
    → t.sleeping ≡ false
    → act_all Threads.move es (nothing_told t) ≡ d
    → m ≢ Threads.starts
    → ltb_ℤ (Threads.move m d.state).0.running_threads (Threads.move m d.state).0.sleeping_threads
      ≡ false
    → (sum sleep_notices d.told + sum sleep_notices d.pending
        ≡ sum wakeup_notices d.told + sum wakeup_notices d.pending + one d.state.sleeping)
      × (((Threads.move m d.state).0.sleeping ≡ true) ↔ (
          (Threads.move m d.state).0.sleeping_threads ≡ (Threads.move m d.state).0.running_threads))
processor_reports es m t d a e n h = (
  subst
      (λ d.
        sum sleep_notices d.told + sum sleep_notices d.pending
        ≡ sum wakeup_notices d.told + sum wakeup_notices d.pending + one d.state.sleeping)
      e
      (act_all-IsBalanced Threads.move sleep_notices wakeup_notices (λ s. one s.sleeping)
        (λ x s.
          notices-balance s.sleeping (Threads.move x s).0.sleeping (Threads.move x s).1
            (Threads.move-Turns x s))
        es (nothing_told t) (omega (arith, ap one a))),
  Threads.move_exact m d.state n h,
)
