-- ===== src/SyncQueue/Order.antt =====
-- The sub-queues stand in falling order of priority, and each priority has one sub-queue.
use hector_core.Prelude.{
  ℕ, Option, none, some, List, [], ◌∷◌, ◌≡◌, refl, ℤ, eqb_ℤ, eqb_ℤ_iff, ◌<ℤ◌, arith, if◌then◌else◌,
  inl, inr, Option-cases,
}
use hector_core.SyncQueue.Simple.{SimpleQueue, new, comp}
use hector_core.SyncQueue.{SyncQueue, find, replace, insert, sort, add_queue}

module _ {A : Type 0} where
  -- All priorities lie below `p`.
  abbrev pub Below : ℤ → List (SimpleQueue A) → Type 0
  Below p [] = Unit {0}
  Below p (q ∷ qs) = (q.priority <ℤ p) × Below p qs

  abbrev pub IsOrdered : List (SimpleQueue A) → Type 0
  IsOrdered [] = Unit {0}
  IsOrdered (q ∷ qs) = Below q.priority qs × IsOrdered qs

  -- The items of one priority, the oldest first.
  abbrev items_of : Option (SimpleQueue A) → List A
  items_of none = []
  items_of (some q) = q.queue

  unfoldable pub contents : ℤ → List (SimpleQueue A) → List A
  contents p qs = items_of (find p qs)

  pub find-Below : (p : ℤ) (qs : List (SimpleQueue A)) → Below p qs → find p qs ≡ none
  unfolding find
  find-Below p [] b = refl
  find-Below p (q ∷ qs) b = ground (arith, find-Below p qs b.1)

  pub find_priority :
      (p : ℤ) (q : SimpleQueue A) (qs : List (SimpleQueue A)) → find p qs ≡ some q → q.priority ≡ p
  unfolding find
  find_priority p q [] h = ground arith
  find_priority p q (x ∷ xs) h = ground (arith, find_priority p q xs, eqb_ℤ_iff x.priority p)

  Below-mono : (p p' : ℤ) (qs : List (SimpleQueue A)) → p <ℤ p' → Below p qs → Below p' qs
  Below-mono p p' [] h b = tt
  Below-mono p p' (q ∷ qs) h b = (ground arith, Below-mono p p' qs h b.1)

  pub find_above : (p p' : ℤ) (qs : List (SimpleQueue A)) → p' <ℤ p → Below p' qs → find p qs ≡ none
  find_above p p' qs h b = find-Below p qs (Below-mono p' p qs h b)

  Below-insert :
      (p : ℤ) (q : SimpleQueue A) (qs : List (SimpleQueue A))
      → q.priority <ℤ p
      → Below p qs
      → Below p (insert q qs)
  unfolding insert comp
  Below-insert p q [] h b = (h, tt)
  Below-insert p q (x ∷ xs) h b = ground (arith, Below-insert p q xs h b.1)

  insert-IsOrdered :
      (q : SimpleQueue A) (qs : List (SimpleQueue A))
      → IsOrdered qs
      → find q.priority qs ≡ none
      → IsOrdered (insert q qs)
  unfolding insert find comp
  insert-IsOrdered q [] o h = (tt, tt)
  insert-IsOrdered q (x ∷ xs) o h = ground (
    arith,
    Below-mono x.priority q.priority xs,
    Below-insert x.priority q xs,
    insert-IsOrdered q xs o.1,
  )

  insert-Below :
      (q : SimpleQueue A) (qs : List (SimpleQueue A)) → Below q.priority qs → insert q qs ≡ q ∷ qs
  unfolding insert comp
  insert-Below q [] b = refl
  insert-Below q (x ∷ xs) b = ground arith

  sort-IsOrdered : (qs : List (SimpleQueue A)) → IsOrdered qs → sort qs ≡ qs
  unfolding sort
  sort-IsOrdered [] o = refl
  sort-IsOrdered (q ∷ qs) o = ground (arith, sort-IsOrdered qs o.1, insert-Below q qs o.0)

  find-insert :
      (p : ℤ) (q : SimpleQueue A) (qs : List (SimpleQueue A))
      → find q.priority qs ≡ none
      → find p (insert q qs) ≡ (if eqb_ℤ q.priority p then some q else find p qs)
  unfolding insert find comp
  find-insert p q [] h = refl
  find-insert p q (x ∷ xs) h = ground (arith, find-insert p q xs)

  pub find-replace :
      (p : ℤ) (q q' : SimpleQueue A) (qs : List (SimpleQueue A))
      → find q'.priority qs ≡ some q
      → find p (replace q' qs) ≡ (if eqb_ℤ q'.priority p then some q' else find p qs)
  unfolding replace find
  find-replace p q q' [] h = ground arith
  find-replace p q q' (x ∷ xs) h = ground (arith, find-replace p q q' xs)

  Below-replace :
      (p : ℤ) (q : SimpleQueue A) (qs : List (SimpleQueue A)) → Below p qs → Below p (replace q qs)
  unfolding replace
  Below-replace p q [] b = tt
  Below-replace p q (x ∷ xs) b = ground (arith, Below-replace p q xs b.1)

  pub replace-IsOrdered :
      (q : SimpleQueue A) (qs : List (SimpleQueue A)) → IsOrdered qs → IsOrdered (replace q qs)
  unfolding replace
  replace-IsOrdered q [] o = tt
  replace-IsOrdered q (x ∷ xs) o =
      ground (arith, Below-replace x.priority q xs, replace-IsOrdered q xs o.1)

  -- A new sub-queue takes its place in the order, and is the only one of its priority.
  pub add_queue-IsOrdered :
      (s t : SyncQueue A) (p : ℤ) (max_items max_size : ℕ)
      → IsOrdered s.queues
      → add_queue s p max_items max_size ≡ some t
      → IsOrdered t.queues
        × ((p' : ℤ)
            → find p' t.queues
              ≡ (if eqb_ℤ p p' then some (new p max_items max_size) else find p' s.queues))
  unfolding add_queue sort
  add_queue-IsOrdered s t p max_items max_size o h = elim (Option-cases (find p s.queues)) [
    | inr (q, e) ↦ absurd (ground arith)
    | inl e ↦ (
      ground (arith, sort-IsOrdered s.queues o, insert-IsOrdered q s.queues o),
      λ p'. ground (arith, sort-IsOrdered s.queues o, find-insert p' q s.queues),
    )
  ]
    where
      q : SimpleQueue A
      q = new p max_items max_size
