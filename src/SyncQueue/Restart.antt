-- ===== src/SyncQueue/Restart.antt =====
-- A SyncQueue of lib/SyncQueue.h that is started again after `Stop`.
use hector_core.Prelude.{ℕ, ◌+◌, ◌<◌, false, some, List, [], ◌∷◌, ◌≡◌, ◌≢◌, ℤ, map, arith}
use hector_core.SyncQueue.Simple.{SimpleQueue, delete_all_items, is_space_for}
use hector_core.SyncQueue.Order.{contents}
use hector_core.SyncQueue.{SyncQueue, returns, find, start, delete_items, put_item_enter}

module _ {A : Type 0} where
  find-delete :
      (p : ℤ) (q : SimpleQueue A) (qs : List (SimpleQueue A))
      → find p qs ≡ some q
      → find p (map delete_all_items qs) ≡ some (delete_all_items q)
  unfolding find delete_all_items
  find-delete p q [] e = cc
  find-delete p q (x ∷ xs) e = ground (arith, find-delete p q xs)

-- The items that `Stop` deletes still count: a sub-queue in which an item did not fit for its size is
-- empty after `Stop` and `Start`, and yet `PutItem` refuses that item as before.
pub stopped_items_count :
    {A : Type 0} (size : A → ℕ) (s : SyncQueue A) (p : ℤ) (q : SimpleQueue A) (r : A)
    → find p s.queues ≡ some q
    → q.max_size ≢ 0
    → q.max_size < q.queue_size + size r
    → (contents p (start (delete_items s)).queues ≡ [])
      × (put_item_enter size (start (delete_items s)) r p false
          ≡ some (returns false, start (delete_items s)))
unfolding put_item_enter start delete_items contents delete_all_items is_space_for
stopped_items_count size s p q r f m h =
    (ground (arith, find-delete p q s.queues f), ground (arith, find-delete p q s.queues f))
