-- ===== src/Server/Finish.antt =====
-- When a server of lib/processing_engine/Server.cc takes its batch run for finished.
use hector_core.Prelude.{
  ℕ, zero, suc, ◌≤◌, Bool, true, false, Option, none, some, List, [], ◌∷◌, ◌≡◌, refl, sym, subst,
  ap, ◌∙◌, ℤ, pos, ◌+ℤ◌, eqb_ℤ, ltb_ℤ, get_elem?, set, sum, sum-set, if_split, if◌then◌else◌, arith,
}
use hector_core.Server.{
  Phase, outside, counted, yielding, finished, Main, starting, waiting, released, Server, Section,
  sleeps, locks, decides, signals, wakes, waits, count_sleeping, lock_using, decide, signal,
  count_awake, wait, when_free, sleeping_section, locking_section, deciding_section,
  signalling_section, waking_section, step, and_then, run, all_outside, new_server,
}

abbrev is_counted : Phase → ℕ
is_counted outside = 0
is_counted counted = 1
is_counted yielding = 0
is_counted finished = 0

abbrev is_yielding : Phase → ℕ
is_yielding outside = 0
is_yielding counted = 0
is_yielding yielding = 1
is_yielding finished = 0

abbrev taken : Bool → ℕ
taken true = 1
taken false = 0

more : (a b : ℤ) → ltb_ℤ a b ≡ false → ltb_ℤ (a +ℤ pos 1) b ≡ false
more a b h = ground (arith, h)

equal : (a b : ℤ) → eqb_ℤ a b ≡ true → ltb_ℤ a b ≡ false
equal a b h = ground (arith, h)

-- Each lock is taken by the one thread that is between its sections. While the object's lock is kept in a
-- report, all engines are counted; while a thread yields and none has woken up, no fewer are.
record Inv (s : Server) : Type 0 where
  object : sum is_counted s.threads ≡ taken s.object
  using : sum is_yielding s.threads ≡ taken s.using
  exact : s.object ≡ true → eqb_ℤ s.sleeping (pos s.engines) ≡ true
  asleep : s.using ≡ true → s.woken_up ≡ false → ltb_ℤ s.sleeping (pos s.engines) ≡ false

abbrev InvIf : Option Server → Type 0
InvIf none = Unit {0}
InvIf (some s) = Inv s

count_sleeping-Inv :
    (i : ℕ) (s : Server)
    → get_elem? s.threads i ≡ some outside
    → s.object ≡ false
    → Inv s
    → Inv (count_sleeping i s)
unfolding count_sleeping
count_sleeping-Inv i s e f v =
    if_split Inv (eqb_ℤ n (pos s.engines))
      (record s { sleeping = n; object = true; threads = set s.threads i counted })
      (record s { sleeping = n })
      (λ t. record {
        object =
            omega (arith, sum-set is_counted s.threads i outside counted e, v.object, ap taken f);
        using = omega (arith, sum-set is_yielding s.threads i outside counted e, v.using);
        exact = λ h. t;
        asleep = λ u w. equal n (pos s.engines) t;
      })
      (λ t. record {
        object = v.object;
        using = v.using;
        exact = λ h. ground (arith, h, f);
        asleep = λ u w. more s.sleeping (pos s.engines) (v.asleep u w);
      })
  where
    n : ℤ
    n = s.sleeping +ℤ pos 1

lock_using-Inv :
    (i : ℕ) (s : Server)
    → get_elem? s.threads i ≡ some counted
    → s.using ≡ false
    → Inv s
    → Inv (lock_using i s)
unfolding lock_using
lock_using-Inv i s e f v = record {
  object = omega (arith, sum-set is_counted s.threads i counted yielding e, v.object, held);
  using = omega (arith, sum-set is_yielding s.threads i counted yielding e, v.using, ap taken f);
  exact = λ h. ground (arith, h);
  asleep = λ u w. equal s.sleeping (pos s.engines) (v.exact (object_held s.object held));
}
  where
    one_at_most : (b : Bool) → 1 ≤ taken b → taken b ≡ 1
    one_at_most true h = refl
    one_at_most false h = ground (arith, h)

    held : taken s.object ≡ 1
    held =
        one_at_most s.object
          (omega (arith, sum-set is_counted s.threads i counted yielding e, v.object))

    object_held : (b : Bool) → taken b ≡ 1 → b ≡ true
    object_held true h = refl
    object_held false h = ground (arith, h)

yielding_phase :
    (b : Bool)
    → (is_counted (if b then outside else finished) ≡ 0)
      × (is_yielding (if b then outside else finished) ≡ 0)
yielding_phase true = (refl, refl)
yielding_phase false = (refl, refl)

-- A thread that yields has taken `usingWokenUp`.
yields : (i : ℕ) (s : Server) → get_elem? s.threads i ≡ some yielding → Inv s → s.using ≡ true
yields i s e v =
    go s.using (omega (arith, sum-set is_yielding s.threads i yielding outside e, v.using))
  where
    go : (b : Bool) → 1 ≤ taken b → b ≡ true
    go true h = refl
    go false h = ground (arith, h)

decide-Inv : (i : ℕ) (s : Server) → get_elem? s.threads i ≡ some yielding → Inv s → Inv (decide i s)
unfolding decide
decide-Inv i s e v = record {
  object = omega (
    arith,
    sum-set is_counted s.threads i yielding next e,
    v.object,
    (yielding_phase s.woken_up).0,
  );
  using = omega (
    arith,
    sum-set is_yielding s.threads i yielding next e,
    v.using,
    (yielding_phase s.woken_up).1,
    ap taken (yields i s e v),
  );
  exact = v.exact;
  asleep = λ u w. ground (arith, u);
}
  where
    next : Phase
    next = if s.woken_up then outside else finished

signal-Inv : (i : ℕ) (s : Server) → get_elem? s.threads i ≡ some finished → Inv s → Inv (signal i s)
signal-Inv i s e v = record {
  object = omega (arith, sum-set is_counted s.threads i finished outside e, v.object);
  using = omega (arith, sum-set is_yielding s.threads i finished outside e, v.using);
  exact = v.exact;
  asleep = v.asleep;
}

count_awake-Inv : (s : Server) → s.object ≡ false → Inv s → Inv (count_awake s)
count_awake-Inv s f v = record {
  object = v.object;
  using = v.using;
  exact = λ h. ground (arith, h, f);
  asleep = λ u w. ground (arith, w);
}

when_free-Inv : (b : Bool) (s : Server) → (b ≡ false → Inv s) → InvIf (when_free b s)
when_free-Inv true s h = tt
when_free-Inv false s h = h refl

sleeping-Inv :
    (i : ℕ) (s : Server) (o : Option Phase)
    → get_elem? s.threads i ≡ o
    → Inv s
    → InvIf (sleeping_section i s o)
sleeping-Inv i s none e v = tt
sleeping-Inv i s (some outside) e v =
    when_free-Inv s.object (count_sleeping i s) (λ f. count_sleeping-Inv i s e f v)
sleeping-Inv i s (some counted) e v = tt
sleeping-Inv i s (some yielding) e v = tt
sleeping-Inv i s (some finished) e v = tt

locking-Inv :
    (i : ℕ) (s : Server) (o : Option Phase)
    → get_elem? s.threads i ≡ o
    → Inv s
    → InvIf (locking_section i s o)
locking-Inv i s none e v = tt
locking-Inv i s (some outside) e v = tt
locking-Inv i s (some counted) e v =
    when_free-Inv s.using (lock_using i s) (λ f. lock_using-Inv i s e f v)
locking-Inv i s (some yielding) e v = tt
locking-Inv i s (some finished) e v = tt

deciding-Inv :
    (i : ℕ) (s : Server) (o : Option Phase)
    → get_elem? s.threads i ≡ o
    → Inv s
    → InvIf (deciding_section i s o)
deciding-Inv i s none e v = tt
deciding-Inv i s (some outside) e v = tt
deciding-Inv i s (some counted) e v = tt
deciding-Inv i s (some yielding) e v = when_free-Inv s.object (decide i s) (λ f. decide-Inv i s e v)
deciding-Inv i s (some finished) e v = tt

signalling-Inv :
    (i : ℕ) (s : Server) (o : Option Phase)
    → get_elem? s.threads i ≡ o
    → Inv s
    → InvIf (signalling_section i s o)
signalling-Inv i s none e v = tt
signalling-Inv i s (some outside) e v = tt
signalling-Inv i s (some counted) e v = tt
signalling-Inv i s (some yielding) e v = tt
signalling-Inv i s (some finished) e v = signal-Inv i s e v

waking-Inv : (s : Server) (o : Option Phase) → Inv s → InvIf (waking_section s o)
waking-Inv s none v = tt
waking-Inv s (some outside) v = when_free-Inv s.object (count_awake s) (λ f. count_awake-Inv s f v)
waking-Inv s (some counted) v = tt
waking-Inv s (some yielding) v = tt
waking-Inv s (some finished) v = tt

wait-Inv : (m : Main) (s : Server) → Inv s → InvIf (wait m s)
wait-Inv starting s v = record {
  object = v.object;
  using = v.using;
  exact = v.exact;
  asleep = v.asleep;
}
wait-Inv waiting s v = tt
wait-Inv released s v = tt

step-Inv : (e : Section) (s : Server) → Inv s → InvIf (step e s)
unfolding step
step-Inv (sleeps i) s v = sleeping-Inv i s (get_elem? s.threads i) refl v
step-Inv (locks i) s v = locking-Inv i s (get_elem? s.threads i) refl v
step-Inv (decides i) s v = deciding-Inv i s (get_elem? s.threads i) refl v
step-Inv (signals i) s v = signalling-Inv i s (get_elem? s.threads i) refl v
step-Inv (wakes i) s v = waking-Inv s (get_elem? s.threads i) v
step-Inv waits s v = wait-Inv s.main s v

run-InvIf : (es : List Section) (s : Server) → Inv s → InvIf (run es s)
unfolding run
run-InvIf [] s v = v
run-InvIf (e ∷ es) s v = go (run-InvIf es) (step e s) (step-Inv e s v)
  where
    go :
        ((s : Server) → Inv s → InvIf (run es s))
        → (o : Option Server) → InvIf o
        → InvIf (and_then (run es) o)
    go ih none v = tt
    go ih (some s) v = ih s v

outside_counts :
    (n : ℕ) → (sum is_counted (all_outside n) ≡ 0) × (sum is_yielding (all_outside n) ≡ 0)
unfolding all_outside
outside_counts zero = (refl, refl)
outside_counts (suc n) = omega (arith, outside_counts n)

new_server-Inv : (engines threads : ℕ) → Inv (new_server engines threads)
unfolding new_server
new_server-Inv engines threads = record {
  object = (outside_counts threads).0;
  using = (outside_counts threads).1;
  exact = λ h. ground (arith, h);
  asleep = λ u w. ground (arith, u);
}

get_elem-set :
    (xs : List Phase) (i : ℕ) (a b : Phase)
    → get_elem? xs i ≡ some a
    → get_elem? (set xs i b) i ≡ some b
get_elem-set [] i a b e = ground arith
get_elem-set (x ∷ xs) zero a b e = refl
get_elem-set (x ∷ xs) (suc i) a b e = get_elem-set xs i a b e

-- What is known when the thread has set `finished`.
abbrev Decided : ℕ → Server → Option Server → Type 0
Decided i s none = Unit {0}
Decided i s (some t) =
    get_elem? t.threads i ≡ some finished
    → (ltb_ℤ s.sleeping (pos s.engines) ≡ false) × (t.sleeping ≡ s.sleeping)

decide-Decided :
    (i : ℕ) (s : Server)
    → get_elem? s.threads i ≡ some yielding
    → Inv s
    → Decided i s (some (decide i s))
unfolding decide
decide-Decided i s e v f = (v.asleep (yields i s e v) (go s.woken_up (sym set_to ∙ f)), refl)
  where
    set_to :
        get_elem? (set s.threads i (if s.woken_up then outside else finished)) i
        ≡ some (if s.woken_up then outside else finished)
    set_to = get_elem-set s.threads i yielding (if s.woken_up then outside else finished) e

    go : (b : Bool) → some (if b then outside else finished) ≡ some finished → b ≡ false
    go true h = cc
    go false h = refl

deciding-Decided :
    (i : ℕ) (s : Server) (o : Option Phase)
    → get_elem? s.threads i ≡ o
    → Inv s
    → Decided i s (deciding_section i s o)
deciding-Decided i s none e v = tt
deciding-Decided i s (some outside) e v = tt
deciding-Decided i s (some counted) e v = tt
deciding-Decided i s (some yielding) e v = go s.object
  where
    go : (b : Bool) → Decided i s (when_free b (decide i s))
    go true = tt
    go false = decide-Decided i s e v
deciding-Decided i s (some finished) e v = tt

-- However the reports of the engines interleave from the start, a thread that sets `finished` does so
-- while no fewer engines are counted as asleep than there are.
pub decides-when-asleep :
    (engines threads : ℕ) (es : List Section) (i : ℕ) (s t : Server)
    → run es (new_server engines threads) ≡ some s
    → step (decides i) s ≡ some t
    → get_elem? t.threads i ≡ some finished
    → (ltb_ℤ s.sleeping (pos s.engines) ≡ false) × (t.sleeping ≡ s.sleeping)
unfolding step
decides-when-asleep engines threads es i s t ran e = subst (Decided i s) e (
    deciding-Decided i s (get_elem? s.threads i) refl (
      subst InvIf ran (run-InvIf es (new_server engines threads) (new_server-Inv engines threads))))
