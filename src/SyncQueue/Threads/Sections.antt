-- ===== src/SyncQueue/Threads/Sections.antt =====
-- One critical section of `PutItem` or `GetItem` keeps the invariant of the threads.
use hector_core.Prelude.{
  ℕ, ◌+◌, Bool, false, Option, none, some, List, [], ◌∷◌, ◌++◌, ◌≡◌, refl, ℤ, eqb_ℤ, if◌then◌else◌,
  map, get_elem?, set, All-set, All-map, sum, sum-set, arith, Bool-cases, eqb_ℤ_iff, inl, inr, ◌<ℤ◌,
  append_assoc, sym, subst,
}
use hector_core.SyncQueue.Simple.{SimpleQueue, is_space_for, put_item}
use hector_core.SyncQueue.Order.{IsOrdered, contents, find-Below, find_above, find_priority}
use hector_core.SyncQueue.Take.{IsFirst, get_loop_lem}
use hector_core.SyncQueue.Valid.{IsValid, put_found-IsValid, get_loop-IsValid}
use hector_core.SyncQueue.{SyncQueue, find, replace, put_loop, put_found, get_loop}
use hector_core.SyncQueue.Threads.{
  Thread, idle, writing, reading, System, signal_recv, signal_send, after_put, after_get,
  first_priority, log,
}
use hector_core.SyncQueue.Threads.Invariant.{
  reads, writes, Parked, Inv, reads-signal_recv, writes-signal_recv, reads-signal_send,
  writes-signal_send, found-put, put-Parked, get-Parked,
}

module _ {A : Type 0} (size : A → ℕ) where
  first_priority_lem :
      (qs : List (SimpleQueue A)) (p : ℤ) (r : A) (rest : List A)
      → IsOrdered qs
      → contents p qs ≡ r ∷ rest
      → ((p' : ℤ) → p <ℤ p' → contents p' qs ≡ [])
      → first_priority qs ≡ p
  unfolding first_priority contents find
  first_priority_lem [] p r rest o h above = cc
  first_priority_lem (q ∷ qs) p r rest o h above =
      go q.queue refl (first_priority_lem qs p r rest o.1)
    where
      go :
          (xs : List A)
          → q.queue ≡ xs
          → (contents p qs ≡ r ∷ rest
              → ((p' : ℤ) → p <ℤ p' → contents p' qs ≡ [])
              → first_priority qs ≡ p)
          → first_priority (q ∷ qs) ≡ p
      go [] e next = ground (
        arith,
        next (ground (arith, find-Below q.priority qs o.0))
            (λ p' l. ground (arith, above p' l, find-Below q.priority qs o.0)),
      )
      go (x ∷ xs) e next =
          ground (arith, above q.priority, find_above p q.priority qs, eqb_ℤ_iff q.priority p)

  -- A thread whose place is taken by another value.
  set-counts :
      (ts : List (Thread A)) (i : ℕ) (t t' : Thread A)
      → get_elem? ts i ≡ some t
      → (sum reads (set ts i t') + reads t ≡ sum reads ts + reads t')
        × (sum writes (set ts i t') + writes t ≡ sum writes ts + writes t')
  set-counts ts i t t' e = (sum-set reads ts i t t' e, sum-set writes ts i t t' e)

  abbrev pub KeepsInv : Option (System A) → Type 0
  KeepsInv none = Unit {0}
  KeepsInv (some s) = Inv size s

  -- A section of `PutItem` by a thread that stood at `t`, with `n` other writers waiting.
  module _ (s : System A) (i : ℕ) (r : A) (p : ℤ) (n : ℕ) (t : Thread A) (v : Inv size s)
      (here : get_elem? s.threads i ≡ some t) (reader : reads t ≡ 0)
      (others : n + writes t ≡ s.queue.waiting_writers) where
    abbrev before : SyncQueue A
    before = record (s.queue) { waiting_writers = n }

    before-IsValid : IsValid size before
    before-IsValid = record { ordered = v.valid.ordered; within = v.valid.within }

    pub returned : Inv size (record s { queue = before; threads = set s.threads i idle })
    returned = record {
      valid = before-IsValid;
      readers = omega (arith, set-counts s.threads i t idle here, v.readers);
      writers = omega (arith, set-counts s.threads i t idle here, v.writers);
      fifo = v.fifo;
      parked = All-set (Parked size s.queue.queues) s.threads i idle v.parked tt;
    }

    waiting :
        (q : SimpleQueue A)
        → find p s.queue.queues ≡ some q
        → is_space_for q (size r) ≡ false
        → Inv size (record s {
          queue = record (s.queue) { waiting_writers = n + 1 };
          threads = set s.threads i (writing r p false);
        })
    waiting q f full = record {
      valid = record { ordered = v.valid.ordered; within = v.valid.within };
      readers = omega (arith, set-counts s.threads i t (writing r p false) here, v.readers);
      writers = omega (arith, set-counts s.threads i t (writing r p false) here, v.writers);
      fifo = v.fifo;
      parked =
          All-set (Parked size s.queue.queues) s.threads i (writing r p false) v.parked
            (q, f, full);
    }

    stored :
        (q : SimpleQueue A)
        → find p s.queue.queues ≡ some q
        → IsValid size (record before { queues = replace (put_item size q r) s.queue.queues })
        → Inv size (record s {
          queue = record before { queues = replace (put_item size q r) s.queue.queues };
          threads = map signal_recv (set s.threads i idle);
          accepted = log s.accepted p r;
        })
    unfolding contents put_item
    stored q f valid = record {
      valid = valid;
      readers = omega (
        arith,
        set-counts s.threads i t idle here,
        v.readers,
        reads-signal_recv (set s.threads i idle),
      );
      writers = omega (
        arith,
        set-counts s.threads i t idle here,
        v.writers,
        writes-signal_recv (set s.threads i idle),
      );
      fifo = λ p'. ground (
        arith,
        v.fifo p',
        e,
        at p',
        append_assoc (s.gone p') (contents p' s.queue.queues) (r ∷ []),
      );
      parked =
          All-map (Parked size s.queue.queues) _ signal_recv (set s.threads i idle)
            (put-Parked size s.queue.queues q r at_self)
            (All-set (Parked size s.queue.queues) s.threads i idle v.parked tt);
    }
      where
        e : q.priority ≡ p
        e = find_priority p q s.queue.queues f

        at_self : find q.priority s.queue.queues ≡ some q
        at_self = subst (λ k. find k s.queue.queues ≡ some q) (sym e) f

        at :
            (p' : ℤ)
            → find p' (replace (put_item size q r) s.queue.queues)
              ≡ (if eqb_ℤ q.priority p' then some (put_item size q r) else find p' s.queue.queues)
        at p' = found-put size s.queue.queues q r p' at_self

    pub put_found-Inv :
        (can_wait : Bool) (o : Option (SimpleQueue A))
        → find p s.queue.queues ≡ o
        → KeepsInv (after_put s i r p (put_found size before r can_wait o))
    unfolding after_put put_found
    put_found-Inv can_wait none f = tt
    put_found-Inv can_wait (some q) f = elim (Bool-cases (is_space_for q (size r))) [
      | inl h ↦
          let valid = put_found-IsValid size before r can_wait p (some q) f before-IsValid in
          rw (h, put_loop) (stored q f (rw (h, put_found, put_loop) at valid))
      | inr h ↦ elim (Bool-cases can_wait) [
        | inl w ↦ rw (h, w, put_loop) (waiting q f h)
        | inr w ↦ rw (h, w, put_loop) returned
      ]
    ]

  -- A section of `GetItem` by a thread that stood at `t`, with `n` other readers waiting.
  module _ (s : System A) (i n : ℕ) (t : Thread A) (v : Inv size s)
      (here : get_elem? s.threads i ≡ some t) (writer : writes t ≡ 0)
      (others : n + reads t ≡ s.queue.waiting_readers) where
    abbrev first : SyncQueue A
    first = record (s.queue) { waiting_readers = n }

    abbrev taken : List (SimpleQueue A) → SyncQueue A
    taken qs = record first { queues = qs }

    pub got_none : Inv size (record s { queue = first; threads = set s.threads i idle })
    got_none = record {
      valid = record { ordered = v.valid.ordered; within = v.valid.within };
      readers = omega (arith, set-counts s.threads i t idle here, v.readers);
      writers = omega (arith, set-counts s.threads i t idle here, v.writers);
      fifo = v.fifo;
      parked = All-set (Parked size s.queue.queues) s.threads i idle v.parked tt;
    }

    got_nothing_yet :
        ((p : ℤ) → contents p s.queue.queues ≡ [])
        → Inv size (record s {
          queue = record (s.queue) { waiting_readers = n + 1 };
          threads = set s.threads i (reading false);
        })
    got_nothing_yet empty = record {
      valid = record { ordered = v.valid.ordered; within = v.valid.within };
      readers = omega (arith, set-counts s.threads i t (reading false) here, v.readers);
      writers = omega (arith, set-counts s.threads i t (reading false) here, v.writers);
      fifo = v.fifo;
      parked = All-set (Parked size s.queue.queues) s.threads i (reading false) v.parked empty;
    }

    got :
        (p : ℤ) (r : A) (qs : List (SimpleQueue A))
        → IsFirst s.queue.queues p r qs
        → IsValid size (taken qs)
        → Inv size (record s {
          queue = taken qs;
          threads = map signal_send (set s.threads i idle);
          gone = log s.gone (first_priority s.queue.queues) r;
        })
    got p r qs f valid = record {
      valid = valid;
      readers = omega (
        arith,
        set-counts s.threads i t idle here,
        v.readers,
        reads-signal_send (set s.threads i idle),
      );
      writers = omega (
        arith,
        set-counts s.threads i t idle here,
        v.writers,
        writes-signal_send (set s.threads i idle),
      );
      fifo = λ p'. order p';
      parked =
          All-map (Parked size s.queue.queues) _ signal_send (set s.threads i idle)
            (get-Parked size s.queue.queues qs p r f)
            (All-set (Parked size s.queue.queues) s.threads i idle v.parked tt);
    }
      where
        e : first_priority s.queue.queues ≡ p
        e = first_priority_lem s.queue.queues p r (contents p qs) v.valid.ordered f.taken f.above

        order :
            (p' : ℤ)
            → s.accepted p' ≡ log s.gone (first_priority s.queue.queues) r p' ++ contents p' qs
        order p' = elim (Bool-cases (eqb_ℤ p p')) [
          | inl same ↦ ground (
            arith,
            e,
            v.fifo p',
            f.taken,
            eqb_ℤ_iff p p',
            append_assoc (s.gone p') (r ∷ []) (contents p' qs),
          )
          | inr other ↦ ground (arith, e, v.fifo p', f.others p', eqb_ℤ_iff p p')
        ]

    pub get_loop-Inv : (can_wait : Bool) → Inv size (after_get s i (get_loop size first can_wait))
    unfolding after_get
    get_loop-Inv can_wait = elim (get_loop_lem size first can_wait v.valid.ordered) [
      | inl (empty, out) ↦ elim (Bool-cases can_wait) [
        | inl w ↦ rw (out, w) (got_nothing_yet empty)
        | inr w ↦ rw (out, w) got_none
      ]
      | inr (p, r, qs, f, out) ↦ rw out (
          got p r qs f (
            rw out at (
              get_loop-IsValid size first can_wait
                (record { ordered = v.valid.ordered; within = v.valid.within }))))
    ]
