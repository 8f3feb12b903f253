-- ===== src/SyncQueue/Take.antt =====
-- What `PutItem` and `GetItem` do to the contents, seen as one list of items for each priority.
use hector_core.Prelude.{
  ℕ, suc, ◌+◌, Bool, true, false, Option, none, some, List, [], ◌∷◌, ◌++◌, ◌≡◌, refl, sym, subst, ℤ,
  eqb_ℤ, ◌<ℤ◌, arith, if◌then◌else◌, ◌⊎◌, inl, inr, ◌≢◌, Bool-cases,
}
use hector_core.SyncQueue.Simple.{SimpleQueue, put_item, get_item, get_current_items, is_space_for}
use hector_core.SyncQueue.Order.{
  IsOrdered, contents, find-Below, find_above, find-replace, find_priority,
}
use hector_core.SyncQueue.{
  SyncQueue, Outcome, returns, waits, find, replace, first_non_empty, take_at, put_loop, get_loop,
}

-- `r` is the oldest item of the highest priority that has items, and `qs'` is `qs` without it.
pub record IsFirst {A : Type 0} (qs : List (SimpleQueue A)) (p : ℤ) (r : A)
    (qs' : List (SimpleQueue A)) : Type 0 where
  pub taken : contents p qs ≡ r ∷ contents p qs'
  pub above : (p' : ℤ) → p <ℤ p' → contents p' qs ≡ []
  pub others : (p' : ℤ) → p' ≢ p → contents p' qs' ≡ contents p' qs

module _ {A : Type 0} (size : A → ℕ) where
  -- The pair that `take_at` returns, described.
  abbrev pub Takes : List (SimpleQueue A) → Option A × List (SimpleQueue A) → Type 0
  Takes qs out = (p : ℤ) × (r : A) × (out.0 ≡ some r) × IsFirst qs p r out.1

  take_here :
      (q : SimpleQueue A) (qs : List (SimpleQueue A)) (r : A) (rest : List A)
      → q.queue ≡ r ∷ rest
      → IsOrdered (q ∷ qs)
      → Takes (q ∷ qs) (take_at size (q ∷ qs) 0)
  unfolding take_at contents find get_item
  take_here q qs r rest e o = (
    q.priority,
    r,
    ground arith,
    record {
      taken = ground arith;
      above = λ p' h. ground (arith, find_above p' q.priority qs h o.0);
      others = λ p' h. ground arith;
    },
  )

  take_later :
      (q : SimpleQueue A) (qs : List (SimpleQueue A)) (i : ℕ)
      → q.queue ≡ []
      → IsOrdered (q ∷ qs)
      → Takes qs (take_at size qs i)
      → Takes (q ∷ qs) (take_at size (q ∷ qs) (suc i))
  unfolding take_at contents find
  take_later q qs i e o (p, r, f, t) = (
    p,
    r,
    f,
    record {
      taken = ground (arith, t.taken, find-Below q.priority qs o.0);
      above = λ p' h. ground (arith, t.above p' h);
      others = λ p' h. ground (arith, t.others p' h);
    },
  )

  -- Either nothing is queued, or the index found is that of the oldest item of the first priority.
  first_cases :
      (qs : List (SimpleQueue A))
      → IsOrdered qs
      → ((first_non_empty qs ≡ none) × ((p : ℤ) → contents p qs ≡ []))
        ⊎ ((i : ℕ) × (first_non_empty qs ≡ some i) × Takes qs (take_at size qs i))
  unfolding first_non_empty contents find get_current_items
  first_cases [] o = inl (refl, λ p. refl)
  first_cases (q ∷ qs) o = go q.queue refl (first_cases qs o.1)
    where
      go :
          (xs : List A)
          → q.queue ≡ xs
          → ((first_non_empty qs ≡ none) × ((p : ℤ) → contents p qs ≡ []))
            ⊎ ((i : ℕ) × (first_non_empty qs ≡ some i) × Takes qs (take_at size qs i))
          → ((first_non_empty (q ∷ qs) ≡ none) × ((p : ℤ) → contents p (q ∷ qs) ≡ []))
            ⊎ ((i : ℕ) × (first_non_empty (q ∷ qs) ≡ some i)
                × Takes (q ∷ qs) (take_at size (q ∷ qs) i))
      go (x ∷ xs) e rest = inr (0, ground arith, take_here q qs x xs e o)
      go [] e (inl (h, all)) = inl (ground arith, λ p. ground (arith, all p))
      go [] e (inr (i, h, t)) = inr (suc i, ground arith, take_later q qs i e o t)

  -- What the test of the loop of `GetItem` leads to, in each case.
  abbrev pub Gets : SyncQueue A → Bool → Outcome (Option A) × SyncQueue A → Type 0
  Gets s can_wait out =
      (((p : ℤ) → contents p s.queues ≡ [])
        × (out ≡ (
            if can_wait
            then (waits, record s { waiting_readers = s.waiting_readers + 1 })
            else (returns none, s))))
      ⊎ ((p : ℤ) × (r : A) × (qs : List (SimpleQueue A)) × IsFirst s.queues p r qs
          × (out ≡ (returns (some r), record s { queues = qs })))

  -- The test that the loop of `GetItem` makes in each round, which a call reaches only if it is not
  -- cancelled and has not timed out: while any item is queued, it returns the oldest item of the highest
  -- priority that has one, takes it off that priority and leaves the others as they were. It waits, or
  -- returns NULL where it may not wait, exactly when nothing is queued.
  pub get_loop_lem :
      (s : SyncQueue A) (can_wait : Bool)
      → IsOrdered s.queues
      → Gets s can_wait (get_loop size s can_wait)
  unfolding get_loop
  get_loop_lem s can_wait o = elim (first_cases s.queues o) [
    | inl (h, all) ↦ inl (all, rw h)
    | inr (i, h, (p, r, e, t)) ↦ inr (p, r, (take_at size s.queues i).1, t, rw h (ground arith))
  ]

  -- What the test of the loop of `PutItem` leads to, in each case.
  abbrev pub Puts : SyncQueue A → A → ℤ → SimpleQueue A → Bool → Outcome Bool × SyncQueue A → Type 0
  Puts s r p q can_wait (out, t) =
      ((is_space_for q (size r) ≡ true)
        × (out ≡ returns true)
        × (contents p t.queues ≡ contents p s.queues ++ r ∷ [])
        × ((p' : ℤ) → p' ≢ p → contents p' t.queues ≡ contents p' s.queues))
      ⊎ ((is_space_for q (size r) ≡ false)
          × (out ≡ (if can_wait then waits else returns false))
          × (t.queues ≡ s.queues))

  -- The test that the loop of `PutItem` makes in each round, which a call reaches only if it is not
  -- cancelled and has not timed out: where there is space in the sub-queue of its priority, it puts the
  -- item behind the others of that priority and leaves the other priorities as they were. Where there is
  -- none it waits, or returns false where it may not wait, and changes no sub-queue.
  pub put_loop_lem :
      (s : SyncQueue A) (r : A) (p : ℤ) (q : SimpleQueue A) (can_wait : Bool)
      → find p s.queues ≡ some q
      → Puts s r p q can_wait (put_loop size s q r can_wait)
  unfolding put_loop contents put_item
  put_loop_lem s r p q can_wait f = elim (Bool-cases (is_space_for q (size r))) [
    | inl h ↦
        rw (h, put_loop)
          (inl (refl, refl, ground (arith, e, found p), λ p' n. ground (arith, e, found p')))
    | inr h ↦ rw (h, put_loop) (inr (refl, ground arith, ground arith))
  ]
    where
      e : q.priority ≡ p
      e = find_priority p q s.queues f

      found :
          (p' : ℤ)
          → find p' (replace (put_item size q r) s.queues)
            ≡ (if eqb_ℤ q.priority p' then some (put_item size q r) else find p' s.queues)
      found p' =
          find-replace p' q (put_item size q r) s.queues
            (subst (λ k. find k s.queues ≡ some q) (sym e) f)
