-- ===== src/SyncQueue/Batch.antt =====
-- PutItems and GetItems of lib/SyncQueue.h, which move several items under one lock.
use hector_core.Prelude.{
  ℕ, zero, suc, ◌+◌, ◌-◌, ◌≤◌, ◌<◌, Bool, true, ◌&&◌, ◌||◌, Option, none, some, List, [], ◌∷◌, ◌++◌,
  ◌≡◌, refl, arith, if◌then◌else◌, ltb, leb, ◌==◌, ◌⊎◌, inl, inr, length, Option-cases, Bool-cases,
  take, append-nil, append_assoc, ℤ, ◌∙◌,
}
use hector_core.SyncQueue.Simple.{SimpleQueue, get_item, put_item, get_current_items, pop_front}
use hector_core.SyncQueue.{
  SyncQueue, Outcome, returns, waits, first_non_empty, take_at, replace, find,
}

module _ {A : Type 0} (size : A → ℕ) where
  -- The inner loop of `GetItems`, with `n` places left in the caller's array: what it stores there,
  -- the places left after it, and the sub-queue.
  unfoldable pub drain_queue : ℕ → SimpleQueue A → List (Option A) × ℕ × SimpleQueue A
  unfolding get_item get_current_items
  drain_queue zero q = ([], 0, q)
  drain_queue (suc n) q =
      let (r, q') = get_item size q in
      let rest = drain_queue n q' in
      if ltb 0 (get_current_items q) then (r ∷ rest.0, rest.1, rest.2) else ([], suc n, q)

  -- The outer loop. With no place left it leaves the sub-queues that follow as they are.
  unfoldable pub drain_all : ℕ → List (SimpleQueue A) → List (Option A) × List (SimpleQueue A)
  unfolding drain_queue
  drain_all n [] = ([], [])
  drain_all n (q ∷ qs) =
      let (rs, left, q') = drain_queue n q in
      let (rs', qs') = drain_all left qs in (rs ++ rs', q' ∷ qs')

  abbrev drain_or_wait : SyncQueue A → ℕ → Bool → Option ℕ → Outcome (List (Option A)) × SyncQueue A
  drain_or_wait s n can_wait (some i) =
      let (rs, qs) = drain_all n s.queues in (returns rs, record s { queues = qs })
  drain_or_wait s n can_wait none =
      if can_wait
      then (waits, record s { waiting_readers = s.waiting_readers + 1 })
      else (returns [], s)

  unfoldable pub get_items_enter : SyncQueue A → ℕ → Bool → Outcome (List (Option A)) × SyncQueue A
  unfolding drain_all first_non_empty
  get_items_enter s n can_wait =
      if s.cancel then (returns [], s) else drain_or_wait s n can_wait (first_non_empty s.queues)

  unfoldable pub get_items_resume : SyncQueue A → ℕ → Bool → Outcome (List (Option A)) × SyncQueue A
  unfolding drain_all first_non_empty
  get_items_resume s n timed_out =
      let s' = record s { waiting_readers = s.waiting_readers - 1 } in
      if s.cancel || timed_out
      then (returns [], s')
      else drain_or_wait s' n true (first_non_empty s.queues)

  -- `n` calls of `GetItem` one after the other, none of which may wait.
  unfoldable pub take_many : ℕ → List (SimpleQueue A) → List (Option A) × List (SimpleQueue A)
  unfolding first_non_empty take_at
  take_many zero qs = ([], qs)
  take_many (suc n) qs = elim (first_non_empty qs) [
    | none ↦ ([], qs)
    | some i ↦
        let (r, qs') = take_at size qs i in let (rs, qs'') = take_many n qs' in (r ∷ rs, qs'')
  ]

  take_many-skip :
      (n : ℕ) (q : SimpleQueue A) (qs : List (SimpleQueue A))
      → q.queue ≡ []
      → take_many n (q ∷ qs) ≡ ((take_many n qs).0, q ∷ (take_many n qs).1)
  unfolding take_many
  take_many-skip zero q qs e = refl
  take_many-skip (suc n) q qs e = elim (Option-cases (first_non_empty qs)) [
    | inl h ↦ ground arith
    | inr (i, h) ↦ ground (arith, take_many-skip n q (take_at size qs i).1 e)
  ]

  drain_all-cons :
      (n : ℕ) (q : SimpleQueue A) (qs : List (SimpleQueue A))
      → ((m : ℕ) → drain_all m qs ≡ take_many m qs)
      → drain_all n (q ∷ qs) ≡ take_many n (q ∷ qs)
  unfolding drain_all take_many
  drain_all-cons zero q qs ih = ground (arith, ih 0)
  drain_all-cons (suc n) q qs ih = go q.queue refl (λ q'. drain_all-cons n q' qs ih)
    where
      go :
          (xs : List A)
          → q.queue ≡ xs
          → ((q' : SimpleQueue A) → drain_all n (q' ∷ qs) ≡ take_many n (q' ∷ qs))
          → drain_all (suc n) (q ∷ qs) ≡ take_many (suc n) (q ∷ qs)
      go [] e next = ground (arith, ih (suc n), take_many-skip (suc n) q qs e)
      go (x ∷ xs) e next = ground (arith, next (pop_front size q (x ∷ xs)).1)

  -- `GetItems` takes what that many calls of `GetItem` would take, in the same order, and leaves the
  -- same sub-queues.
  pub drain_all-take_many : (n : ℕ) (qs : List (SimpleQueue A)) → drain_all n qs ≡ take_many n qs
  unfolding drain_all take_many
  drain_all-take_many zero [] = refl
  drain_all-take_many (suc n) [] = refl
  drain_all-take_many n (q ∷ qs) = drain_all-cons n q qs (λ m. drain_all-take_many m qs)

-- The loop of `PutItems`, over the items that are left, with `n` of them allowed.
module _ {A : Type 0} (size : A → ℕ) where
  unfoldable pub put_all : ℕ → List A → SimpleQueue A → ℕ × SimpleQueue A
  unfolding put_item
  put_all zero rs q = (0, q)
  put_all (suc n) [] q = (0, q)
  put_all (suc n) (r ∷ rs) q =
      let rest = put_all n rs (put_item size q r) in
      if leb (q.queue_size + size r) q.max_size then (suc rest.0, rest.1) else (0, q)

  abbrev put_limit : SimpleQueue A → ℕ
  put_limit q = if ltb 0 q.max_items then q.max_items - length q.queue else 0

  -- `max` of the code, for `n` items.
  unfoldable pub put_max : SimpleQueue A → ℕ → ℕ
  put_max q n = if put_limit q == 0 || ltb n (put_limit q) then n else put_limit q

  -- The test of the waiting loop, for the size of the first item.
  unfoldable pub is_full : SimpleQueue A → ℕ → Bool
  is_full q item_size =
      (ltb 0 q.max_items && (length q.queue == q.max_items))
      || (ltb 0 q.max_size && ltb q.max_size (q.queue_size + item_size))

  -- `none`: the assertion fails, or there is no first item to measure.
  unfoldable pub put_items_found :
      SyncQueue A → List A → Bool → Option (SimpleQueue A) → Option (Outcome ℕ × SyncQueue A)
  unfolding put_all put_max is_full
  put_items_found s rs can_wait none = none
  put_items_found s [] can_wait (some q) = none
  put_items_found s (r ∷ rs) can_wait (some q) =
      let (k, q') = put_all (put_max q (length (r ∷ rs))) (r ∷ rs) q in
      if is_full q (size r)
      then (if can_wait
          then some (waits, record s { waiting_writers = s.waiting_writers + 1 })
          else some (returns 0, s))
      else some (returns k, record s { queues = replace q' s.queues })

  unfoldable pub put_items_enter :
      SyncQueue A → List A → ℤ → Bool → Option (Outcome ℕ × SyncQueue A)
  unfolding put_items_found
  put_items_enter s rs priority can_wait =
      if s.cancel
      then some (returns 0, s)
      else put_items_found s rs can_wait (find priority s.queues)

  unfoldable pub put_items_resume :
      SyncQueue A → List A → ℤ → Bool → Option (Outcome ℕ × SyncQueue A)
  unfolding put_items_found
  put_items_resume s rs priority timed_out =
      let s' = record s { waiting_writers = s.waiting_writers - 1 } in
      if s.cancel || timed_out
      then some (returns 0, s')
      else put_items_found s' rs true (find priority s.queues)

  -- The loop of `PutItems` appends a prefix of the items, as long as the count that it returns, and
  -- the sub-queue stays within a size limit that it was within.
  pub put_all-take :
      (n : ℕ) (rs : List A) (q : SimpleQueue A)
      → ((put_all n rs q).1.queue ≡ q.queue ++ take (put_all n rs q).0 rs)
        × ((put_all n rs q).0 ≤ n)
        × (q.queue_size ≤ q.max_size → (put_all n rs q).1.queue_size ≤ q.max_size)
  unfolding put_all
  put_all-take zero rs q = (rw append-nil, omega arith, λ h. h)
  put_all-take (suc n) [] q = (rw append-nil, omega arith, λ h. h)
  put_all-take (suc n) (r ∷ rs) q =
      let (e, b, l) = put_all-take n rs (put_item size q r) in
      elim (Bool-cases (leb (q.queue_size + size r) q.max_size)) [
        | inl h ↦ (
          rw (h, put_all)
              (e ∙ append_assoc q.queue (r ∷ []) (take (put_all n rs (put_item size q r)).0 rs)),
          ground (arith, b),
          ground (arith, l),
        )
        | inr h ↦ (rw (h, put_all) (rw append-nil), ground arith, ground arith)
      ]

  -- A sub-queue without a size limit takes no item from `PutItems`: whatever it is given, if the first
  -- item has a size, the call returns 0 when it returns.
  pub put_items_unlimited :
      (s t : SyncQueue A) (r : A) (rs : List A) (p : ℤ) (b : Bool) (q : SimpleQueue A) (k : ℕ)
      → find p s.queues ≡ some q
      → q.max_size ≡ 0
      → 0 < size r
      → (put_items_enter s (r ∷ rs) p b ≡ some (returns k, t))
        ⊎ (put_items_resume s (r ∷ rs) p b ≡ some (returns k, t))
      → k ≡ 0
  unfolding put_items_enter put_items_resume
  put_items_unlimited s t r rs p b q k f m h (inl e) =
      ground (arith, none_put (put_max q (length (r ∷ rs))))
    where
      none_put : (n : ℕ) → (put_all n (r ∷ rs) q).0 ≡ 0
      none_put zero = refl
      none_put (suc n) = ground arith
  put_items_unlimited s t r rs p b q k f m h (inr e) =
      ground (arith, none_put (put_max q (length (r ∷ rs))))
    where
      none_put : (n : ℕ) → (put_all n (r ∷ rs) q).0 ≡ 0
      none_put zero = refl
      none_put (suc n) = ground arith
