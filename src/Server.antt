-- ===== src/Server.antt =====
-- The end of a batch run in lib/processing_engine/Server.cc: the engines report that they sleep and that
-- they woke up, and the last one to fall asleep lets `Start` go on.
pub mod Finish
pub mod Deadlock
mod Tests
use hector_core.Prelude.{
  ℕ, zero, suc, Bool, true, false, Option, none, some, List, [], ◌∷◌, ◌≡◌, ℤ, pos, negsuc, ◌+ℤ◌,
  eqb_ℤ, get_elem?, set, if◌then◌else◌,
}

-- A thread of an engine in a report: outside, with the object's lock in front of `usingWokenUp`, with
-- `usingWokenUp` in front of the object's lock, and past both with `finished` set.
pub data Phase : Type 0 where
  outside counted yielding finished : Phase

-- The thread in `Start`: before it waits, waiting for `batchSleep`, and past the wait.
pub data Main : Type 0 where
  starting waiting released : Main

-- `object` and `using` say that the object's lock and `usingWokenUp` are taken.
pub record Server : Type 0 where
  pub engines : ℕ
  pub sleeping : ℤ
  pub woken_up : Bool
  pub object : Bool
  pub using : Bool
  pub threads : List Phase
  pub main : Main

-- The section of a thread, by its index, or of `Start`.
pub data Section : Type 0 where
  sleeps locks decides signals wakes : ℕ → Section
  waits : Section

unfoldable pub count_sleeping : ℕ → Server → Server
count_sleeping i s =
    let n = s.sleeping +ℤ pos 1 in
    if eqb_ℤ n (pos s.engines)
    then record s { sleeping = n; object = true; threads = set s.threads i counted }
    else record s { sleeping = n }

unfoldable pub lock_using : ℕ → Server → Server
lock_using i s = record s {
  woken_up = false;
  using = true;
  object = false;
  threads = set s.threads i yielding;
}

unfoldable pub decide : ℕ → Server → Server
decide i s = record s {
  using = false;
  threads = set s.threads i (if s.woken_up then outside else finished);
}

-- `SignalRecv`: a signal that nobody waits for is lost.
abbrev pub released_by_signal : Main → Main
released_by_signal starting = starting
released_by_signal waiting = released
released_by_signal released = released

abbrev pub signal : ℕ → Server → Server
signal i s = record s { threads = set s.threads i outside; main = released_by_signal s.main }

abbrev pub count_awake : Server → Server
count_awake s = record s { sleeping = s.sleeping +ℤ negsuc 0; woken_up = true }

abbrev pub wait : Main → Server → Option Server
wait starting s = some (record s { main = waiting })
wait waiting s = none
wait released s = none

-- A section that needs a lock which is taken cannot be entered.
abbrev pub when_free : Bool → Server → Option Server
when_free true s = none
when_free false s = some s

abbrev pub sleeping_section : ℕ → Server → Option Phase → Option Server
sleeping_section i s (some outside) = when_free s.object (count_sleeping i s)
sleeping_section i s o = none

abbrev pub locking_section : ℕ → Server → Option Phase → Option Server
locking_section i s (some counted) = when_free s.using (lock_using i s)
locking_section i s o = none

abbrev pub deciding_section : ℕ → Server → Option Phase → Option Server
deciding_section i s (some yielding) = when_free s.object (decide i s)
deciding_section i s o = none

abbrev pub signalling_section : ℕ → Server → Option Phase → Option Server
signalling_section i s (some finished) = some (signal i s)
signalling_section i s o = none

abbrev pub waking_section : Server → Option Phase → Option Server
waking_section s (some outside) = when_free s.object (count_awake s)
waking_section s o = none

unfoldable pub step : Section → Server → Option Server
step (sleeps i) s = sleeping_section i s (get_elem? s.threads i)
step (locks i) s = locking_section i s (get_elem? s.threads i)
step (decides i) s = deciding_section i s (get_elem? s.threads i)
step (signals i) s = signalling_section i s (get_elem? s.threads i)
step (wakes i) s = waking_section s (get_elem? s.threads i)
step waits s = wait s.main s

abbrev pub and_then : (Server → Option Server) → Option Server → Option Server
and_then rest none = none
and_then rest (some s) = rest s

-- The sections one after the other, as the threads interleave; `none` if one cannot be entered.
unfoldable pub run : List Section → Server → Option Server
run [] s = some s
run (e ∷ es) s = and_then (run es) (step e s)

unfoldable pub all_outside : ℕ → List Phase
all_outside zero = []
all_outside (suc n) = outside ∷ all_outside n

unfoldable pub new_server : ℕ → ℕ → Server
new_server engines threads = record {
  engines = engines;
  sleeping = pos 0;
  woken_up = false;
  object = false;
  using = false;
  threads = all_outside threads;
  main = starting;
}
