-- ===== src/SyncQueue/Threads/Signalled.antt =====
-- The signals that `Stop` of lib/SyncQueue.h sends: behind each of its turns a thread is signalled.
use hector_core.Prelude.{
  ℕ, zero, suc, ◌+◌, ◌<◌, Bool, true, some, List, [], ◌∷◌, ◌≡◌, refl, ℤ, get_elem?, map, sum, arith,
  ◌≢◌, ◌∙◌, ap, ltb, Bool-cases, inl, inr, if◌then◌else◌,
}
use hector_core.SyncQueue.Threads.Invariant.{reads, writes, Inv}
use hector_core.SyncQueue.Threads.{
  Thread, idle, putting, getting, reading, writing, System, Phase, no_stop, drain_readers,
  drain_writers, writers_turn, readers_turn, turn, signal_recv, signal_send,
}

module _ {A : Type 0} where
  -- How many threads wait on a condition.
  abbrev pub waiting : System A → ℕ
  waiting s = s.queue.waiting_readers + s.queue.waiting_writers

  find_reader :
      (ts : List (Thread A))
      → 0 < sum reads ts
      → (i : ℕ) × (b : Bool) × (get_elem? ts i ≡ some (reading b))
  find_reader [] h = absurd (omega arith)
  find_reader (reading b ∷ ts) h = (0, b, refl)
  find_reader (writing r p b ∷ ts) h = let (i, c, e) = find_reader ts (omega arith) in (suc i, c, e)
  find_reader (idle ∷ ts) h = let (i, c, e) = find_reader ts (omega arith) in (suc i, c, e)
  find_reader (putting r p w ∷ ts) h = let (i, c, e) = find_reader ts (omega arith) in (suc i, c, e)
  find_reader (getting w ∷ ts) h = let (i, c, e) = find_reader ts (omega arith) in (suc i, c, e)

  find_writer :
      (ts : List (Thread A))
      → 0 < sum writes ts
      → (i : ℕ) × (r : A) × (p : ℤ) × (b : Bool) × (get_elem? ts i ≡ some (writing r p b))
  find_writer [] h = absurd (omega arith)
  find_writer (writing r p b ∷ ts) h = (0, r, p, b, refl)
  find_writer (reading b ∷ ts) h =
      let (i, x, y, c, e) = find_writer ts (omega arith) in (suc i, x, y, c, e)
  find_writer (idle ∷ ts) h =
      let (i, x, y, c, e) = find_writer ts (omega arith) in (suc i, x, y, c, e)
  find_writer (putting r p w ∷ ts) h =
      let (i, x, y, c, e) = find_writer ts (omega arith) in (suc i, x, y, c, e)
  find_writer (getting w ∷ ts) h =
      let (i, x, y, c, e) = find_writer ts (omega arith) in (suc i, x, y, c, e)

  get_elem-map :
      (f : Thread A → Thread A) (ts : List (Thread A)) (i : ℕ) (t : Thread A)
      → get_elem? ts i ≡ some t
      → get_elem? (map f ts) i ≡ some (f t)
  get_elem-map f [] i t e = ground (arith, e)
  get_elem-map f (x ∷ ts) zero t e = ground (arith, e)
  get_elem-map f (x ∷ ts) (suc i) t e = get_elem-map f ts i t e

  -- A thread that waits and was signalled.
  abbrev pub IsSignalled : Thread A → Type 0
  IsSignalled (reading b) = b ≡ true
  IsSignalled (writing r p b) = b ≡ true
  IsSignalled _ = ⊥

  pub signalled_waits : (t : Thread A) → IsSignalled t → 0 < reads t + writes t
  signalled_waits (reading b) h = omega arith
  signalled_waits (writing r p b) h = omega arith
  signalled_waits idle h = absurd h
  signalled_waits (putting r p w) h = absurd h
  signalled_waits (getting w) h = absurd h

  -- Once `Stop` waits for the writers, no reader waits.
  abbrev pub IsInOrder : System A → Type 0
  IsInOrder s = s.phase ≡ drain_writers → s.queue.waiting_readers ≡ 0

  -- After a turn of `Stop`, a thread that waits is signalled.
  pub record Signals (s u : System A) : Type 0 where
    pub turned : turn s s.phase ≡ some u
    pub index : ℕ
    pub thread : Thread A
    pub stands : get_elem? u.threads index ≡ some thread
    pub signalled : IsSignalled thread
    pub goes_on : u.phase ≢ no_stop
    pub in_order : IsInOrder u

module _ {A : Type 0} (size : A → ℕ) where
  writers-Signals :
      (s : System A)
      → Inv size s
      → 0 < s.queue.waiting_writers
      → s.queue.waiting_readers ≡ 0
      → turn s s.phase ≡ some (writers_turn s)
      → (u : System A) × Signals s u
  unfolding writers_turn signal_send
  writers-Signals s v w n e =
      let (i, r, p, b, f) = find_writer s.threads (omega (arith, w, v.writers)) in
      (
        record s { threads = map signal_send s.threads; phase = drain_writers },
        record {
          turned = e ∙ ap some (ground (arith, w));
          index = i;
          thread = writing r p true;
          stands = get_elem-map signal_send s.threads i (writing r p b) f;
          signalled = refl;
          goes_on = λ q. cc;
          in_order = λ q. n;
        },
      )

  readers-Signals :
      (s : System A)
      → Inv size s
      → 0 < s.queue.waiting_readers
      → s.phase ≡ drain_readers
      → (u : System A) × Signals s u
  unfolding turn readers_turn signal_recv
  readers-Signals s v w ph =
      let (i, b, f) = find_reader s.threads (omega (arith, w, v.readers)) in
      (
        record s { threads = map signal_recv s.threads },
        record {
          turned = ap (turn s) ph ∙ ap some (ground (arith, w));
          index = i;
          thread = reading true;
          stands = get_elem-map signal_recv s.threads i (reading b) f;
          signalled = refl;
          goes_on = λ q. cc;
          in_order = λ q. cc;
        },
      )

  pub turn-Signals :
      (s : System A) (phase : Phase)
      → s.phase ≡ phase
      → Inv size s
      → phase ≢ no_stop
      → IsInOrder s
      → 0 < waiting s
      → (u : System A) × Signals s u
  unfolding turn readers_turn
  turn-Signals s no_stop ph v n o w = absurd (n refl)
  turn-Signals s drain_writers ph v n o w =
      writers-Signals s v (omega (arith, w, o ph)) (o ph) (ap (turn s) ph)
  turn-Signals s drain_readers ph v n o w = elim (Bool-cases (ltb 0 s.queue.waiting_readers)) [
    | inl e ↦ readers-Signals s v (ground (arith, e)) ph
    | inr e ↦ writers-Signals s v (ground (arith, e, w)) (ground (arith, e)) (
        ap (turn s) ph
        ∙ ap some (
            ap (λ b. if b then record s { threads = map signal_recv s.threads } else writers_turn s)
              e))
  ]
