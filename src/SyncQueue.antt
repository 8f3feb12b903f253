-- ===== src/SyncQueue.antt =====
-- SyncQueue of lib/SyncQueue.h: sub-queues by priority under one lock, with blocking reads and writes.
-- Each critical section, from taking `queueLock` to giving it up, is one function; where the code
-- waits on a condition, it returns `waits`, and `…_resume` is the section that runs on waking.
pub mod Simple
pub mod Order
pub mod Take
pub mod Valid
pub mod Batch
pub mod Threads
pub mod Restart
mod Tests
use hector_core.Prelude.{
  ℕ, zero, suc, ◌+◌, ◌-◌, Bool, true, false, ◌||◌, Option, none, some, List, [], ◌∷◌, map, ℤ, eqb_ℤ,
  if◌then◌else◌, length, get_elem?, set, ltb,
}
use Simple.{
  SimpleQueue, new, delete_all_items, is_space_for, get_current_items, comp, put_item, get_item,
}

-- `priority2queue` holds the objects that `queues` holds, so it is a search in `queues`.
pub record SyncQueue (A : Type 0) : Type 0 where
  pub waiting_readers : ℕ
  pub waiting_writers : ℕ
  pub cancel : Bool
  pub paused : Bool
  pub queues : List (SimpleQueue A)

-- How a critical section ends: the call returns, or the thread waits on the condition.
pub data Outcome (R : Type 0) : Type 0 where
  returns : R → Outcome R
  waits : Outcome R

-- `none` is the code's -1.
abbrev shift : Option ℕ → Option ℕ
shift none = none
shift (some i) = some (suc i)

module _ {A : Type 0} where
  unfoldable pub find : ℤ → List (SimpleQueue A) → Option (SimpleQueue A)
  find p [] = none
  find p (q ∷ qs) = if eqb_ℤ q.priority p then some q else find p qs

  -- The write through the pointer that `find` returned.
  unfoldable pub replace : SimpleQueue A → List (SimpleQueue A) → List (SimpleQueue A)
  replace q' [] = []
  replace q' (q ∷ qs) = if eqb_ℤ q.priority q'.priority then q' ∷ qs else q ∷ replace q' qs

  -- `std::sort` by `comp`.
  unfoldable pub insert : SimpleQueue A → List (SimpleQueue A) → List (SimpleQueue A)
  insert q [] = q ∷ []
  insert q (x ∷ xs) = if comp q x then q ∷ x ∷ xs else x ∷ insert q xs

  unfoldable pub sort : List (SimpleQueue A) → List (SimpleQueue A)
  sort [] = []
  sort (q ∷ qs) = insert q (sort qs)

  unfoldable pub empty : SyncQueue A
  empty = record {
    waiting_readers = 0;
    waiting_writers = 0;
    cancel = false;
    paused = false;
    queues = [];
  }

  -- `none` is a failed assertion. `push_back` and the sort are one insertion into the new vector.
  unfoldable pub add_queue : SyncQueue A → ℤ → ℕ → ℕ → Option (SyncQueue A)
  unfolding new
  add_queue s priority max_items max_size = elim (find priority s.queues) [
    | some _ ↦ none
    | none ↦ some (record s { queues = sort (new priority max_items max_size ∷ s.queues) })
  ]

  unfoldable pub has_queue : SyncQueue A → ℤ → Bool
  has_queue s priority = elim (find priority s.queues) [ some _ ↦ true | none ↦ false ]

  unfoldable pub get_queues_count : SyncQueue A → ℕ
  get_queues_count s = length s.queues

  unfoldable pub start : SyncQueue A → SyncQueue A
  start s = record s { cancel = false }

  unfoldable pub pause : SyncQueue A → SyncQueue A
  pause s = record s { paused = true }

  unfoldable pub resume : SyncQueue A → SyncQueue A
  resume s = record s { paused = false }

  -- `Stop` after its two waiting loops: the items are deleted.
  unfoldable pub delete_items : SyncQueue A → SyncQueue A
  delete_items s = record s { queues = map delete_all_items s.queues }

  unfoldable pub queue_items : SyncQueue A → ℤ → Option ℕ
  unfolding get_current_items
  queue_items s priority = elim (find priority s.queues) [
    | none ↦ none
    | some q ↦ some (get_current_items q)
  ]

  unfoldable pub first_non_empty : List (SimpleQueue A) → Option ℕ
  unfolding get_current_items
  first_non_empty [] = none
  first_non_empty (q ∷ qs) =
      if ltb 0 (get_current_items q) then some 0 else shift (first_non_empty qs)

  unfoldable pub is_ready : SyncQueue A → Bool
  is_ready s = elim (first_non_empty s.queues) [ some _ ↦ true | none ↦ false ]

-- The blocking calls, over `GetSize`. `can_wait` says that the timeout is not NULL.
module _ {A : Type 0} (size : A → ℕ) where
  -- The test of the `while` of `PutItem`, and what follows it. The queue `q` was found before.
  unfoldable pub put_loop : SyncQueue A → SimpleQueue A → A → Bool → Outcome Bool × SyncQueue A
  put_loop s q r can_wait =
      if is_space_for q (size r)
      then (returns true, record s { queues = replace (put_item size q r) s.queues })
      else if can_wait
      then (waits, record s { waiting_writers = s.waiting_writers + 1 })
      else (returns false, s)

  -- `none` is a failed assertion: there is no queue of that priority.
  unfoldable pub put_found :
      SyncQueue A → A → Bool → Option (SimpleQueue A) → Option (Outcome Bool × SyncQueue A)
  unfolding put_loop
  put_found s r can_wait none = none
  put_found s r can_wait (some q) = some (put_loop s q r can_wait)

  unfoldable pub put_item_enter : SyncQueue A → A → ℤ → Bool → Option (Outcome Bool × SyncQueue A)
  unfolding put_found
  put_item_enter s r priority can_wait =
      if s.cancel then some (returns false, s) else put_found s r can_wait (find priority s.queues)

  -- On waking. `timed_out` is the result of `WaitSend`, negated.
  unfoldable pub put_item_resume : SyncQueue A → A → ℤ → Bool → Option (Outcome Bool × SyncQueue A)
  unfolding put_found
  put_item_resume s r priority timed_out =
      let s' = record s { waiting_writers = s.waiting_writers - 1 } in
      if s.cancel || timed_out
      then some (returns false, s')
      else put_found s' r true (find priority s.queues)

  -- `queues[i]->GetItem()`.
  unfoldable pub take_at : List (SimpleQueue A) → ℕ → Option A × List (SimpleQueue A)
  unfolding get_item
  take_at [] i = (none, [])
  take_at (q ∷ qs) zero = let (r, q') = get_item size q in (r, q' ∷ qs)
  take_at (q ∷ qs) (suc i) = let (r, qs') = take_at qs i in (r, q ∷ qs')

  abbrev get_at : SyncQueue A → Bool → Option ℕ → Outcome (Option A) × SyncQueue A
  get_at s can_wait (some i) =
      let (r, qs) = take_at s.queues i in (returns r, record s { queues = qs })
  get_at s can_wait none =
      if can_wait
      then (waits, record s { waiting_readers = s.waiting_readers + 1 })
      else (returns none, s)

  -- The test of the `while` of `GetItem`, and what follows it. `none` is NULL.
  unfoldable pub get_loop : SyncQueue A → Bool → Outcome (Option A) × SyncQueue A
  unfolding take_at first_non_empty
  get_loop s can_wait = get_at s can_wait (first_non_empty s.queues)

  unfoldable pub get_item_enter : SyncQueue A → Bool → Outcome (Option A) × SyncQueue A
  unfolding get_loop
  get_item_enter s can_wait = if s.cancel then (returns none, s) else get_loop s can_wait

  unfoldable pub get_item_resume : SyncQueue A → Bool → Outcome (Option A) × SyncQueue A
  unfolding get_loop
  get_item_resume s timed_out =
      let s' = record s { waiting_readers = s.waiting_readers - 1 } in
      if s.cancel || timed_out then (returns none, s') else get_loop s' true
