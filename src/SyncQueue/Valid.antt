-- ===== src/SyncQueue/Valid.antt =====
-- The well-formed states of a SyncQueue, which every operation of it keeps.
use hector_core.Prelude.{
  ℕ, zero, suc, ◌-◌, ◌≤◌, Bool, true, Option, none, some, List, [], ◌∷◌, ◌≡◌, refl, map, ℤ, arith,
  inl, inr, ◌≢◌, Bool-cases, Option-cases, length, length-append, All, sum, sum-append,
}
use hector_core.SyncQueue.Simple.{
  SimpleQueue, new, delete_all_items, put_item, get_item, pop_front, is_space_for,
}
use hector_core.SyncQueue.Order.{Below, IsOrdered, replace-IsOrdered, add_queue-IsOrdered}
use hector_core.SyncQueue.{
  SyncQueue, Outcome, find, replace, insert, sort, add_queue, delete_items, take_at,
  first_non_empty, put_loop, put_found, put_item_enter, put_item_resume, get_loop, get_item_enter,
  get_item_resume,
}

module _ {A : Type 0} (size : A → ℕ) where
  -- A sub-queue is within its limits, and its running size covers the items that it holds.
  pub record IsWithin (q : SimpleQueue A) : Type 0 where
    pub items : q.max_items ≢ 0 → length q.queue ≤ q.max_items
    pub sizes : q.max_size ≢ 0 → q.queue_size ≤ q.max_size
    pub covers : sum size q.queue ≤ q.queue_size

  pub record IsValid (s : SyncQueue A) : Type 0 where
    pub ordered : IsOrdered s.queues
    pub within : All IsWithin s.queues

  put_item-IsWithin :
      (q : SimpleQueue A) (r : A)
      → is_space_for q (size r) ≡ true
      → IsWithin q
      → IsWithin (put_item size q r)
  unfolding put_item is_space_for
  put_item-IsWithin q r h w = record {
    items = λ n. ground (arith, w.items n, length-append q.queue (r ∷ []));
    sizes = λ n. ground (arith, w.sizes n);
    covers = omega (arith, sum-append size q.queue (r ∷ []), w.covers);
  }

  pop_front-IsWithin :
      (q : SimpleQueue A) (xs : List A)
      → q.queue ≡ xs
      → IsWithin q
      → IsWithin (pop_front size q xs).1
  pop_front-IsWithin q [] e w = w
  pop_front-IsWithin q (x ∷ xs) e w = record {
    items = λ n. ground (arith, w.items n);
    sizes = λ n. ground (arith, w.sizes n);
    covers = ground (arith, w.covers);
  }

  replace-IsWithin :
      (q : SimpleQueue A) (qs : List (SimpleQueue A))
      → IsWithin q
      → All IsWithin qs
      → All IsWithin (replace q qs)
  unfolding replace
  replace-IsWithin q [] w ws = tt
  replace-IsWithin q (x ∷ xs) w ws = ground (arith, replace-IsWithin q xs w ws.1)

  insert-IsWithin :
      (q : SimpleQueue A) (qs : List (SimpleQueue A))
      → IsWithin q
      → All IsWithin qs
      → All IsWithin (insert q qs)
  unfolding insert
  insert-IsWithin q [] w ws = (w, tt)
  insert-IsWithin q (x ∷ xs) w ws = ground (arith, insert-IsWithin q xs w ws.1)

  sort-IsWithin : (qs : List (SimpleQueue A)) → All IsWithin qs → All IsWithin (sort qs)
  unfolding sort
  sort-IsWithin [] ws = tt
  sort-IsWithin (q ∷ qs) ws = insert-IsWithin q (sort qs) ws.0 (sort-IsWithin qs ws.1)

  find-IsWithin :
      (p : ℤ) (q : SimpleQueue A) (qs : List (SimpleQueue A))
      → find p qs ≡ some q
      → All IsWithin qs
      → IsWithin q
  unfolding find
  find-IsWithin p q [] h ws = cc
  find-IsWithin p q (x ∷ xs) h ws = ground (arith, find-IsWithin p q xs, ws.0)

  take_at-IsWithin :
      (qs : List (SimpleQueue A)) (i : ℕ) → All IsWithin qs → All IsWithin (take_at size qs i).1
  unfolding take_at get_item
  take_at-IsWithin [] i ws = tt
  take_at-IsWithin (q ∷ qs) zero ws = (pop_front-IsWithin q q.queue refl ws.0, ws.1)
  take_at-IsWithin (q ∷ qs) (suc i) ws = (ws.0, take_at-IsWithin qs i ws.1)

  pop_front_priority :
      (q : SimpleQueue A) (xs : List A) → (pop_front size q xs).1.priority ≡ q.priority
  pop_front_priority q [] = refl
  pop_front_priority q (x ∷ xs) = refl

  take_at-Below :
      (p : ℤ) (qs : List (SimpleQueue A)) (i : ℕ) → Below p qs → Below p (take_at size qs i).1
  unfolding take_at get_item
  take_at-Below p [] i b = tt
  take_at-Below p (q ∷ qs) zero b = ground (arith, pop_front_priority q q.queue)
  take_at-Below p (q ∷ qs) (suc i) b = (b.0, take_at-Below p qs i b.1)

  take_at-IsOrdered :
      (qs : List (SimpleQueue A)) (i : ℕ) → IsOrdered qs → IsOrdered (take_at size qs i).1
  unfolding take_at get_item
  take_at-IsOrdered [] i o = tt
  take_at-IsOrdered (q ∷ qs) zero o = rw (pop_front_priority q q.queue) o
  take_at-IsOrdered (q ∷ qs) (suc i) o =
      (take_at-Below q.priority qs i o.0, take_at-IsOrdered qs i o.1)

  delete-IsWithin :
      (qs : List (SimpleQueue A)) → All IsWithin qs → All IsWithin (map delete_all_items qs)
  unfolding delete_all_items
  delete-IsWithin [] ws = tt
  delete-IsWithin (q ∷ qs) ws = (
    record { items = λ n. omega arith; sizes = ws.0.sizes; covers = omega arith },
    delete-IsWithin qs ws.1,
  )

  delete-Below :
      (p : ℤ) (qs : List (SimpleQueue A)) → Below p qs → Below p (map delete_all_items qs)
  unfolding delete_all_items
  delete-Below p [] b = tt
  delete-Below p (q ∷ qs) b = (b.0, delete-Below p qs b.1)

  delete-IsOrdered :
      (qs : List (SimpleQueue A)) → IsOrdered qs → IsOrdered (map delete_all_items qs)
  unfolding delete_all_items
  delete-IsOrdered [] o = tt
  delete-IsOrdered (q ∷ qs) o = (delete-Below q.priority qs o.0, delete-IsOrdered qs o.1)

  abbrev pub Keeps : {R : Type 0} → Option (Outcome R × SyncQueue A) → Type 0
  Keeps none = Unit {0}
  Keeps (some out) = IsValid out.1

  pub put_found-IsValid :
      (s : SyncQueue A) (r : A) (can_wait : Bool) (p : ℤ) (o : Option (SimpleQueue A))
      → find p s.queues ≡ o
      → IsValid s
      → Keeps (put_found size s r can_wait o)
  unfolding put_found
  put_found-IsValid s r can_wait p none e v = tt
  put_found-IsValid s r can_wait p (some q) e v =
      let w : IsWithin q = find-IsWithin p q s.queues e v.within in
      elim (Bool-cases (is_space_for q (size r))) [
        | inl h ↦
            rw (h, put_loop)
              (record {
                ordered = replace-IsOrdered (put_item size q r) s.queues v.ordered;
                within =
                    replace-IsWithin (put_item size q r) s.queues (put_item-IsWithin q r h w)
                      v.within;
              })
        | inr h ↦ rw (h, put_loop) (ground (arith, v.ordered, v.within))
      ]

  pub get_loop-IsValid :
      (s : SyncQueue A) (can_wait : Bool) → IsValid s → IsValid (get_loop size s can_wait).1
  unfolding get_loop
  get_loop-IsValid s can_wait v = elim (Option-cases (first_non_empty s.queues)) [
    | inl e ↦ rw e (ground (arith, v.ordered, v.within))
    | inr (i, e) ↦ rw e (record {
      ordered = take_at-IsOrdered s.queues i v.ordered;
      within = take_at-IsWithin s.queues i v.within;
    })
  ]

  -- Each critical section of `PutItem` and `GetItem`, on every branch, keeps the sub-queues in order
  -- and within their limits.
  pub sections-IsValid :
      (s : SyncQueue A) (r : A) (p : ℤ) (b : Bool)
      → IsValid s
      → Keeps (put_item_enter size s r p b)
        × Keeps (put_item_resume size s r p b)
        × IsValid (get_item_enter size s b).1
        × IsValid (get_item_resume size s b).1
  unfolding put_item_enter put_item_resume get_item_enter get_item_resume
  sections-IsValid s r p b v = (
    ground (arith, v, put_found-IsValid s r b p (find p s.queues) refl v),
    ground (arith, v, put_found-IsValid s₁ r true p (find p s.queues) refl v₁),
    ground (arith, v, get_loop-IsValid s b v),
    ground (arith, v, get_loop-IsValid s₂ true v₂),
  )
    where
      s₁ : SyncQueue A
      s₁ = record s { waiting_writers = s.waiting_writers - 1 }

      v₁ : IsValid s₁
      v₁ = record { ordered = v.ordered; within = v.within }

      s₂ : SyncQueue A
      s₂ = record s { waiting_readers = s.waiting_readers - 1 }

      v₂ : IsValid s₂
      v₂ = record { ordered = v.ordered; within = v.within }

  -- So do `addQueue`, where its assertion holds, and the deletion in `Stop`.
  pub add_queue-IsValid :
      (s t : SyncQueue A) (p : ℤ) (max_items max_size : ℕ)
      → IsValid s
      → add_queue s p max_items max_size ≡ some t
      → IsValid t
  unfolding add_queue new
  add_queue-IsValid s t p max_items max_size v h = record {
    ordered = (add_queue-IsOrdered s t p max_items max_size v.ordered h).0;
    within = ground (arith, sort-IsWithin (new p max_items max_size ∷ s.queues) (fresh, v.within));
  }
    where
      fresh : IsWithin (new p max_items max_size)
      fresh = record { items = λ n. omega arith; sizes = λ n. omega arith; covers = omega arith }

  pub delete_items-IsValid : (s : SyncQueue A) → IsValid s → IsValid (delete_items s)
  unfolding delete_items
  delete_items-IsValid s v = record {
    ordered = delete-IsOrdered s.queues v.ordered;
    within = delete-IsWithin s.queues v.within;
  }
