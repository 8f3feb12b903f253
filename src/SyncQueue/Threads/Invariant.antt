-- ===== src/SyncQueue/Threads/Invariant.antt =====
-- What holds of a SyncQueue and its threads between any two steps.
use hector_core.Prelude.{
  ℕ, true, false, some, List, [], ◌∷◌, ◌++◌, ◌≡◌, refl, ℤ, eqb_ℤ, if◌then◌else◌, map, All, sum,
  arith, length-append, Bool-cases, eqb_ℤ_iff, inl, inr,
}
use hector_core.SyncQueue.Simple.{SimpleQueue, is_space_for, put_item}
use hector_core.SyncQueue.Order.{contents, find-replace}
use hector_core.SyncQueue.Take.{IsFirst}
use hector_core.SyncQueue.Valid.{IsValid}
use hector_core.SyncQueue.{find, replace}
use hector_core.SyncQueue.Threads.{Thread, idle, writing, reading, System, signal_recv, signal_send}

module _ {A : Type 0} where
  abbrev pub reads : Thread A → ℕ
  reads (reading b) = 1
  reads _ = 0

  abbrev pub writes : Thread A → ℕ
  writes (writing r p b) = 1
  writes _ = 0

  pub reads-signal_recv : (ts : List (Thread A)) → sum reads (map signal_recv ts) ≡ sum reads ts
  unfolding signal_recv
  reads-signal_recv [] = refl
  reads-signal_recv (t ∷ ts) = ground (arith, reads-signal_recv ts)

  pub writes-signal_recv : (ts : List (Thread A)) → sum writes (map signal_recv ts) ≡ sum writes ts
  unfolding signal_recv
  writes-signal_recv [] = refl
  writes-signal_recv (t ∷ ts) = ground (arith, writes-signal_recv ts)

  pub reads-signal_send : (ts : List (Thread A)) → sum reads (map signal_send ts) ≡ sum reads ts
  unfolding signal_send
  reads-signal_send [] = refl
  reads-signal_send (t ∷ ts) = ground (arith, reads-signal_send ts)

  pub writes-signal_send : (ts : List (Thread A)) → sum writes (map signal_send ts) ≡ sum writes ts
  unfolding signal_send
  writes-signal_send [] = refl
  writes-signal_send (t ∷ ts) = ground (arith, writes-signal_send ts)

module _ {A : Type 0} (size : A → ℕ) where
  -- A thread that waits and was not signalled has nothing to do: a reader finds no item, a writer no
  -- space in its sub-queue.
  abbrev pub Parked : List (SimpleQueue A) → Thread A → Type 0
  Parked qs (reading false) = (p : ℤ) → contents p qs ≡ []
  Parked qs (writing r p false) =
      (q : SimpleQueue A) × (find p qs ≡ some q) × (is_space_for q (size r) ≡ false)
  Parked qs _ = Unit

  pub record Inv (s : System A) : Type 0 where
    pub valid : IsValid size s.queue
    pub readers : sum reads s.threads ≡ s.queue.waiting_readers
    pub writers : sum writes s.threads ≡ s.queue.waiting_writers
    pub fifo : (p : ℤ) → s.accepted p ≡ s.gone p ++ contents p s.queue.queues
    pub parked : All (Parked s.queue.queues) s.threads

  put_item_no_space :
      (q : SimpleQueue A) (r : A) (n : ℕ)
      → is_space_for q n ≡ false
      → is_space_for (put_item size q r) n ≡ false
  unfolding is_space_for put_item
  put_item_no_space q r n h = ground (arith, length-append q.queue (r ∷ []))

  pub found-put :
      (qs : List (SimpleQueue A)) (q : SimpleQueue A) (r : A) (p : ℤ)
      → find q.priority qs ≡ some q
      → find p (replace (put_item size q r) qs)
        ≡ (if eqb_ℤ q.priority p then some (put_item size q r) else find p qs)
  unfolding put_item
  found-put qs q r p f = find-replace p q (put_item size q r) qs f

  -- A broadcast to the readers is enough after a put: no writer gains space by it.
  pub put-Parked :
      (qs : List (SimpleQueue A)) (q : SimpleQueue A) (r : A)
      → find q.priority qs ≡ some q
      → (t : Thread A) → Parked qs t
      → Parked (replace (put_item size q r) qs) (signal_recv t)
  unfolding signal_recv
  put-Parked qs q r f idle h = tt
  put-Parked qs q r f (reading b) h = tt
  put-Parked qs q r f (writing r' p true) h = tt
  put-Parked qs q r f (writing r' p false) (q', f', n) = elim (Bool-cases (eqb_ℤ q.priority p)) [
    | inl e ↦ (
      put_item size q r,
      ground (arith, at p, e),
      put_item_no_space q r (size r') (ground (arith, same, n)),
    )
    | inr e ↦ (q', ground (arith, at p, e), n)
  ]
    where
      at :
          (p' : ℤ)
          → find p' (replace (put_item size q r) qs)
            ≡ (if eqb_ℤ q.priority p' then some (put_item size q r) else find p' qs)
      at p' = found-put qs q r p' f

      same : eqb_ℤ q.priority p ≡ true → q ≡ q'
      same e = ground (arith, eqb_ℤ_iff q.priority p)
  put-Parked qs q r f _ h = tt

  -- A broadcast to the writers is enough after a get: no reader waited, since there was an item.
  pub get-Parked :
      (qs qs' : List (SimpleQueue A)) (p : ℤ) (r : A)
      → IsFirst qs p r qs'
      → (t : Thread A) → Parked qs t
      → Parked qs' (signal_send t)
  unfolding signal_send
  get-Parked qs qs' p r f (reading false) h = absurd (ground (arith, h p, f.taken))
  get-Parked qs qs' p r f idle h = tt
  get-Parked qs qs' p r f (reading true) h = tt
  get-Parked qs qs' p r f _ h = tt
