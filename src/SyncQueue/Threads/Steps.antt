-- ===== src/SyncQueue/Threads/Steps.antt =====
-- Every step of the threads keeps the invariant.
use hector_core.Prelude.{
  ℕ, ◌+◌, ◌-◌, Bool, true, false, ◌||◌, Option, none, some, List, [], ◌∷◌, ◌++◌, ◌≡◌, refl, ℤ, map,
  get_elem?, All, All-set, All-map, sum, sum-set, arith, Bool-cases, inl, inr, ltb, append-nil, sym,
  subst, ◌∙◌, ap,
}
use hector_core.SyncQueue.Simple.{SimpleQueue, delete_all_items}
use hector_core.SyncQueue.Order.{contents}
use hector_core.SyncQueue.Valid.{delete_items-IsValid}
use hector_core.SyncQueue.{
  find, put_item_enter, put_item_resume, get_item_enter, get_item_resume, delete_items, start,
  pause, resume,
}
use hector_core.SyncQueue.Threads.{
  Thread, idle, putting, getting, writing, reading, System, Phase, no_stop, drain_readers,
  drain_writers, Event, put, get, enter, wake, stop, stop_turn, starts, pauses, resumes,
  signal_recv, signal_send, finish_stop, writers_turn, readers_turn, turn, begin_stop, call, enters,
  wakes, step, run,
}
use hector_core.SyncQueue.Threads.Invariant.{
  reads, writes, Parked, Inv, reads-signal_recv, writes-signal_recv, reads-signal_send,
  writes-signal_send,
}
use hector_core.SyncQueue.Threads.Sections.{
  KeepsInv, returned, put_found-Inv, got_none, get_loop-Inv,
}

module _ {A : Type 0} where
  pub contents-delete :
      (p : ℤ) (qs : List (SimpleQueue A)) → contents p (map delete_all_items qs) ≡ []
  unfolding contents find delete_all_items
  contents-delete p [] = refl
  contents-delete p (q ∷ qs) = ground (arith, contents-delete p qs)

module _ {A : Type 0} (size : A → ℕ) where
  enters-Inv :
      (s : System A) (i : ℕ) (t : Option (Thread A))
      → get_elem? s.threads i ≡ t
      → Inv size s
      → KeepsInv size (enters size s i t)
  unfolding enters put_item_enter get_item_enter
  enters-Inv s i none e v = tt
  enters-Inv s i (some idle) e v = tt
  enters-Inv s i (some (writing r p b)) e v = tt
  enters-Inv s i (some (reading b)) e v = tt
  enters-Inv s i (some (putting r p w)) e v = elim (Bool-cases s.queue.cancel) [
    | inl c ↦
        simp (c, put_item_enter)
          (returned size s i r p s.queue.waiting_writers (putting r p w) v e refl (omega arith))
    | inr c ↦
        simp (c, put_item_enter)
          (put_found-Inv size s i r p s.queue.waiting_writers (putting r p w) v e refl (omega arith)
            w (find p s.queue.queues) refl)
  ]
  enters-Inv s i (some (getting w)) e v = elim (Bool-cases s.queue.cancel) [
    | inl c ↦
        simp (c, get_item_enter)
          (got_none size s i s.queue.waiting_readers (getting w) v e refl (omega arith))
    | inr c ↦
        simp (c, get_item_enter)
          (get_loop-Inv size s i s.queue.waiting_readers (getting w) v e refl (omega arith) w)
  ]

  -- A thread that waits is counted, so the code's subtraction does not go below 0.
  some_writer :
      (s : System A) (i : ℕ) (r : A) (p : ℤ) (b : Bool)
      → get_elem? s.threads i ≡ some (writing r p b)
      → Inv size s
      → s.queue.waiting_writers - 1 + 1 ≡ s.queue.waiting_writers
  some_writer s i r p b e v =
      omega (arith, sum-set writes s.threads i (writing r p b) idle e, v.writers)

  some_reader :
      (s : System A) (i : ℕ) (b : Bool)
      → get_elem? s.threads i ≡ some (reading b)
      → Inv size s
      → s.queue.waiting_readers - 1 + 1 ≡ s.queue.waiting_readers
  some_reader s i b e v = omega (arith, sum-set reads s.threads i (reading b) idle e, v.readers)

  wakes-Inv :
      (s : System A) (i : ℕ) (timed_out : Bool) (t : Option (Thread A))
      → get_elem? s.threads i ≡ t
      → Inv size s
      → KeepsInv size (wakes size s i timed_out t)
  unfolding wakes put_item_resume get_item_resume
  wakes-Inv s i timed_out none e v = tt
  wakes-Inv s i timed_out (some idle) e v = tt
  wakes-Inv s i timed_out (some (putting r p w)) e v = tt
  wakes-Inv s i timed_out (some (getting w)) e v = tt
  wakes-Inv s i timed_out (some (writing r p b)) e v =
      elim (Bool-cases (s.queue.cancel || timed_out)) [
        | inl c ↦
            rw (c, put_item_resume)
              (returned size s i r p (s.queue.waiting_writers - 1) (writing r p b) v e refl
                (some_writer s i r p b e v))
        | inr c ↦
            rw (c, put_item_resume)
              (put_found-Inv size s i r p (s.queue.waiting_writers - 1) (writing r p b) v e refl
                (some_writer s i r p b e v) true (find p s.queue.queues) refl)
      ]
  wakes-Inv s i timed_out (some (reading b)) e v = elim (Bool-cases (s.queue.cancel || timed_out)) [
    | inl c ↦
        rw (c, get_item_resume)
          (got_none size s i (s.queue.waiting_readers - 1) (reading b) v e refl
            (some_reader s i b e v))
    | inr c ↦
        rw (c, get_item_resume)
          (get_loop-Inv size s i (s.queue.waiting_readers - 1) (reading b) v e refl
            (some_reader s i b e v) true)
  ]

  -- With no writer waiting, the deletion of the items leaves no thread with something to do.
  deleted-Parked :
      (qs : List (SimpleQueue A)) (ts : List (Thread A))
      → sum writes ts ≡ 0
      → All (Parked size (map delete_all_items qs)) ts
  deleted-Parked qs [] h = tt
  deleted-Parked qs (idle ∷ ts) h = (tt, deleted-Parked qs ts (omega arith))
  deleted-Parked qs (putting r p w ∷ ts) h = (tt, deleted-Parked qs ts (omega arith))
  deleted-Parked qs (getting w ∷ ts) h = (tt, deleted-Parked qs ts (omega arith))
  deleted-Parked qs (writing r p b ∷ ts) h = absurd (omega arith)
  deleted-Parked qs (reading true ∷ ts) h = (tt, deleted-Parked qs ts (omega arith))
  deleted-Parked qs (reading false ∷ ts) h =
      ((λ p. contents-delete p qs), deleted-Parked qs ts (omega arith))

  finish_stop-Inv :
      (s : System A) → Inv size s → s.queue.waiting_writers ≡ 0 → Inv size (finish_stop s)
  unfolding finish_stop delete_items
  finish_stop-Inv s v h = record {
    valid = delete_items-IsValid size s.queue v.valid;
    readers = v.readers;
    writers = v.writers;
    fifo = λ p.
        v.fifo p
        ∙ sym (
            ap (λ l. (s.gone p ++ contents p s.queue.queues) ++ l)
              (contents-delete p s.queue.queues)
            ∙ append-nil _);
    parked = deleted-Parked s.queue.queues s.threads (omega (arith, v.writers));
  }

  signalled_recv :
      (s : System A) (phase : Phase)
      → Inv size s
      → Inv size (record s { threads = map signal_recv s.threads; phase = phase })
  unfolding signal_recv
  signalled_recv s phase v = record {
    valid = v.valid;
    readers = omega (arith, reads-signal_recv s.threads, v.readers);
    writers = omega (arith, writes-signal_recv s.threads, v.writers);
    fifo = v.fifo;
    parked = All-map (Parked size s.queue.queues) _ signal_recv s.threads stay v.parked;
  }
    where
      stay :
          (t : Thread A) → Parked size s.queue.queues t → Parked size s.queue.queues (signal_recv t)
      stay (reading b) h = tt
      stay idle h = tt
      stay t h = h

  signalled_send :
      (s : System A) (phase : Phase)
      → Inv size s
      → Inv size (record s { threads = map signal_send s.threads; phase = phase })
  unfolding signal_send
  signalled_send s phase v = record {
    valid = v.valid;
    readers = omega (arith, reads-signal_send s.threads, v.readers);
    writers = omega (arith, writes-signal_send s.threads, v.writers);
    fifo = v.fifo;
    parked = All-map (Parked size s.queue.queues) _ signal_send s.threads stay v.parked;
  }
    where
      stay :
          (t : Thread A) → Parked size s.queue.queues t → Parked size s.queue.queues (signal_send t)
      stay (writing r p b) h = tt
      stay idle h = tt
      stay t h = h

  writers_turn-Inv : (s : System A) → Inv size s → Inv size (writers_turn s)
  unfolding writers_turn
  writers_turn-Inv s v = elim (Bool-cases (ltb 0 s.queue.waiting_writers)) [
    | inl h ↦ rw (h, writers_turn) (signalled_send s drain_writers v)
    | inr h ↦ rw (h, writers_turn) (finish_stop-Inv s v (ground arith))
  ]

  readers_turn-Inv : (s : System A) → Inv size s → Inv size (readers_turn s)
  unfolding readers_turn
  readers_turn-Inv s v = elim (Bool-cases (ltb 0 s.queue.waiting_readers)) [
    | inl h ↦ rw (h, readers_turn) (signalled_recv s s.phase v)
    | inr h ↦ rw (h, readers_turn) (writers_turn-Inv s v)
  ]

  turn-Inv : (s : System A) (phase : Phase) → Inv size s → KeepsInv size (turn s phase)
  unfolding turn
  turn-Inv s no_stop v = tt
  turn-Inv s drain_readers v = readers_turn-Inv s v
  turn-Inv s drain_writers v = writers_turn-Inv s v

  -- A change of the flags or of the phase only.
  flags-Inv :
      (s : System A) (cancel paused : Bool) (phase : Phase)
      → Inv size s
      → Inv size (record s {
        queue = record (s.queue) { cancel = cancel; paused = paused };
        phase = phase;
      })
  flags-Inv s cancel paused phase v = record {
    valid = record { ordered = v.valid.ordered; within = v.valid.within };
    readers = v.readers;
    writers = v.writers;
    fifo = v.fifo;
    parked = v.parked;
  }

  begin_stop-Inv : (s : System A) (phase : Phase) → Inv size s → KeepsInv size (begin_stop s phase)
  unfolding begin_stop
  begin_stop-Inv s no_stop v = readers_turn-Inv _ (flags-Inv s true s.queue.paused drain_readers v)
  begin_stop-Inv s drain_readers v = tt
  begin_stop-Inv s drain_writers v = tt

  call-Inv :
      (s : System A) (i : ℕ) (t : Thread A) (o : Option (Thread A))
      → get_elem? s.threads i ≡ o
      → reads t ≡ 0
      → writes t ≡ 0
      → Parked size s.queue.queues t
      → Inv size s
      → KeepsInv size (call s i t o)
  unfolding call
  call-Inv s i t none e hr hw hp v = tt
  call-Inv s i t (some (putting r p w)) e hr hw hp v = tt
  call-Inv s i t (some (getting w)) e hr hw hp v = tt
  call-Inv s i t (some (writing r p b)) e hr hw hp v = tt
  call-Inv s i t (some (reading b)) e hr hw hp v = tt
  call-Inv s i t (some idle) e hr hw hp v = elim (Bool-cases s.queue.paused) [
    | inl c ↦ simp c tt
    | inr c ↦ simp c (record {
      valid = v.valid;
      readers = omega (arith, sum-set reads s.threads i idle t e, v.readers);
      writers = omega (arith, sum-set writes s.threads i idle t e, v.writers);
      fifo = v.fifo;
      parked = All-set (Parked size s.queue.queues) s.threads i t v.parked hp;
    })
  ]

  pub step-Inv : (s : System A) (e : Event A) → Inv size s → KeepsInv size (step size s e)
  unfolding step start pause resume
  step-Inv s (put i r p w) v =
      call-Inv s i (putting r p w) (get_elem? s.threads i) refl refl refl tt v
  step-Inv s (get i w) v = call-Inv s i (getting w) (get_elem? s.threads i) refl refl refl tt v
  step-Inv s (enter i) v = enters-Inv s i (get_elem? s.threads i) refl v
  step-Inv s (wake i timed_out) v = wakes-Inv s i timed_out (get_elem? s.threads i) refl v
  step-Inv s stop v = begin_stop-Inv s s.phase v
  step-Inv s stop_turn v = turn-Inv s s.phase v
  step-Inv s starts v = flags-Inv s false s.queue.paused s.phase v
  step-Inv s pauses v = elim (Bool-cases s.queue.paused) [
    | inl c ↦ simp c tt
    | inr c ↦ simp c (flags-Inv s s.queue.cancel true s.phase v)
  ]
  step-Inv s resumes v = elim (Bool-cases s.queue.paused) [
    | inl c ↦ simp c (flags-Inv s s.queue.cancel false s.phase v)
    | inr c ↦ simp c tt
  ]

  run-KeepsInv : (es : List (Event A)) (s : System A) → Inv size s → KeepsInv size (run size s es)
  unfolding run
  run-KeepsInv [] s v = v
  run-KeepsInv (e ∷ es) s v = go (step size s e) (step-Inv s e v) (run-KeepsInv es)
    where
      go :
          (o : Option (System A))
          → KeepsInv size o
          → ((t : System A) → Inv size t → KeepsInv size (run size t es))
          → KeepsInv size (elim o [ none ↦ none | some t ↦ run size t es ])
      go none k next = tt
      go (some t) k next = next t k

  -- The invariant holds after every sequence of steps.
  pub run-Inv :
      (es : List (Event A)) (s t : System A) → Inv size s → run size s es ≡ some t → Inv size t
  run-Inv es s t v e = subst (KeepsInv size) e (run-KeepsInv es s v)
