-- ===== src/Server/Deadlock.antt =====
-- Two reports of lib/processing_engine/Server.cc that wait for each other.
use hector_core.Prelude.{
  ℕ, zero, suc, Bool, true, false, Option, none, some, List, [], ◌∷◌, ◌≡◌, refl, sym, subst, ◌∙◌, ℤ,
  pos, negsuc, ◌+ℤ◌, eqb_ℤ, eqb_ℤ_iff, get_elem?, set, if_split, arith,
}
use hector_core.Server.{
  Phase, outside, counted, yielding, finished, Main, starting, waiting, released, Server, Section,
  sleeps, locks, decides, signals, wakes, waits, count_sleeping, lock_using, decide, count_awake,
  wait, when_free, sleeping_section, locking_section, deciding_section, signalling_section,
  waking_section, step, and_then, run,
}

-- Both locks are taken by threads of which each needs the other one.
abbrev pub IsStuck : ℤ → Server → Type 0
IsStuck n s = (s.object ≡ true) × (s.using ≡ true) × (s.sleeping ≡ n)

abbrev StuckIf : ℤ → Option Server → Type 0
StuckIf n none = Unit {0}
StuckIf n (some s) = IsStuck n s

refused : (n : ℤ) (b : Bool) (s : Server) → b ≡ true → StuckIf n (when_free b s)
refused n true s h = tt
refused n false s h = ground (arith, h)

sleeping-StuckIf :
    (n : ℤ) (i : ℕ) (s : Server) (o : Option Phase)
    → IsStuck n s
    → StuckIf n (sleeping_section i s o)
sleeping-StuckIf n i s none h = tt
sleeping-StuckIf n i s (some outside) h = refused n s.object (count_sleeping i s) h.0
sleeping-StuckIf n i s (some counted) h = tt
sleeping-StuckIf n i s (some yielding) h = tt
sleeping-StuckIf n i s (some finished) h = tt

locking-StuckIf :
    (n : ℤ) (i : ℕ) (s : Server) (o : Option Phase)
    → IsStuck n s
    → StuckIf n (locking_section i s o)
locking-StuckIf n i s none h = tt
locking-StuckIf n i s (some outside) h = tt
locking-StuckIf n i s (some counted) h = refused n s.using (lock_using i s) h.1
locking-StuckIf n i s (some yielding) h = tt
locking-StuckIf n i s (some finished) h = tt

deciding-StuckIf :
    (n : ℤ) (i : ℕ) (s : Server) (o : Option Phase)
    → IsStuck n s
    → StuckIf n (deciding_section i s o)
deciding-StuckIf n i s none h = tt
deciding-StuckIf n i s (some outside) h = tt
deciding-StuckIf n i s (some counted) h = tt
deciding-StuckIf n i s (some yielding) h = refused n s.object (decide i s) h.0
deciding-StuckIf n i s (some finished) h = tt

signalling-StuckIf :
    (n : ℤ) (i : ℕ) (s : Server) (o : Option Phase)
    → IsStuck n s
    → StuckIf n (signalling_section i s o)
signalling-StuckIf n i s none h = tt
signalling-StuckIf n i s (some outside) h = tt
signalling-StuckIf n i s (some counted) h = tt
signalling-StuckIf n i s (some yielding) h = tt
signalling-StuckIf n i s (some finished) h = h

waking-StuckIf :
    (n : ℤ) (s : Server) (o : Option Phase) → IsStuck n s → StuckIf n (waking_section s o)
waking-StuckIf n s none h = tt
waking-StuckIf n s (some outside) h = refused n s.object (count_awake s) h.0
waking-StuckIf n s (some counted) h = tt
waking-StuckIf n s (some yielding) h = tt
waking-StuckIf n s (some finished) h = tt

wait-StuckIf : (n : ℤ) (m : Main) (s : Server) → IsStuck n s → StuckIf n (wait m s)
wait-StuckIf n starting s h = h
wait-StuckIf n waiting s h = tt
wait-StuckIf n released s h = tt

step-StuckIf : (n : ℤ) (e : Section) (s : Server) → IsStuck n s → StuckIf n (step e s)
unfolding step
step-StuckIf n (sleeps i) s h = sleeping-StuckIf n i s (get_elem? s.threads i) h
step-StuckIf n (locks i) s h = locking-StuckIf n i s (get_elem? s.threads i) h
step-StuckIf n (decides i) s h = deciding-StuckIf n i s (get_elem? s.threads i) h
step-StuckIf n (signals i) s h = signalling-StuckIf n i s (get_elem? s.threads i) h
step-StuckIf n (wakes i) s h = waking-StuckIf n s (get_elem? s.threads i) h
step-StuckIf n waits s h = wait-StuckIf n s.main s h

run-StuckIf : (n : ℤ) (es : List Section) (s : Server) → IsStuck n s → StuckIf n (run es s)
unfolding run
run-StuckIf n [] s h = h
run-StuckIf n (e ∷ es) s h = go (run-StuckIf n es) (step e s) (step-StuckIf n e s h)
  where
    go :
        ((s : Server) → IsStuck n s → StuckIf n (run es s))
        → (o : Option Server) → StuckIf n o
        → StuckIf n (and_then (run es) o)
    go ih none h = tt
    go ih (some s) h = ih s h

back : (n : ℤ) → n +ℤ negsuc 0 +ℤ pos 1 ≡ n
back (pos zero) = refl
back (pos (suc n)) = ground arith
back (negsuc n) = ground arith

-- The state after the engine of the thread has woken up and fallen asleep again.
abbrev pub relapsed : ℕ → Server → Server
relapsed i s = count_sleeping i (count_awake s)

relapses :
    (i : ℕ) (s : Server) (es : List Section)
    → s.object ≡ false
    → get_elem? s.threads i ≡ some outside
    → run (wakes i ∷ sleeps i ∷ es) s ≡ run es (relapsed i s)
unfolding run step
relapses i s es f e = simp (e, f)

relapsed-IsStuck :
    (i : ℕ) (s : Server)
    → s.using ≡ true
    → s.sleeping ≡ pos s.engines
    → IsStuck (pos s.engines) (relapsed i s)
unfolding count_sleeping
relapsed-IsStuck i s u a =
    if_split (IsStuck (pos s.engines)) (eqb_ℤ n (pos s.engines))
      (record (count_awake s) { sleeping = n; object = true; threads = set s.threads i counted })
      (record (count_awake s) { sleeping = n }) (λ t. (refl, u, back s.sleeping ∙ a))
      (λ t. absurd (ne (sym t ∙ (eqb_ℤ_iff n (pos s.engines)).1 (back s.sleeping ∙ a))))
  where
    n : ℤ
    n = s.sleeping +ℤ negsuc 0 +ℤ pos 1

    ne : false ≡ true → ⊥
    ne e = cc

-- While a thread yields with all engines counted as asleep and the object's lock free, let an engine of
-- a thread outside a report wake up and fall asleep again: both sections can be entered, and whatever
-- sections follow, the object's lock and `usingWokenUp` stay taken and the count stays as it is.
pub relapsed-StuckForever :
    (i : ℕ) (es : List Section) (s t : Server)
    → s.object ≡ false
    → s.using ≡ true
    → s.sleeping ≡ pos s.engines
    → get_elem? s.threads i ≡ some outside
    → run (wakes i ∷ sleeps i ∷ es) s ≡ some t
    → (run (wakes i ∷ sleeps i ∷ []) s ≡ some (relapsed i s)) × IsStuck (pos s.engines) t
unfolding run
relapsed-StuckForever i es s t f u a e ran = (
  relapses i s [] f e,
  subst (StuckIf (pos s.engines)) (sym (relapses i s es f e) ∙ ran)
      (run-StuckIf (pos s.engines) es (relapsed i s) (relapsed-IsStuck i s u a)),
)
