-- ===== src/SyncQueue/Simple.antt =====
-- SimpleQueue of lib/SyncQueue.h: one sub-queue, with its limits and its running size.
use hector_core.Prelude.{
  ℕ, ◌+◌, ◌-◌, Bool, ◌&&◌, ◌||◌, Option, none, some, List, [], ◌∷◌, ◌++◌, ℤ, length, ltb, leb,
  ltb_ℤ, ◌==◌,
}

-- The deque of item pointers is a list, its front first. 0 stands for no limit.
pub record SimpleQueue (A : Type 0) : Type 0 where
  pub priority : ℤ
  pub max_items : ℕ
  pub max_size : ℕ
  pub queue_size : ℕ
  pub queue : List A

module _ {A : Type 0} where
  unfoldable pub new : ℤ → ℕ → ℕ → SimpleQueue A
  new priority max_items max_size = record {
    priority = priority;
    max_items = max_items;
    max_size = max_size;
    queue_size = 0;
    queue = [];
  }

  unfoldable pub delete_all_items : SimpleQueue A → SimpleQueue A
  delete_all_items q = record q { queue = [] }

  unfoldable pub is_space_for : SimpleQueue A → ℕ → Bool
  is_space_for q item_size =
      (q.max_items == 0 || ltb (length q.queue) q.max_items)
      && (q.max_size == 0 || leb (q.queue_size + item_size) q.max_size)

  unfoldable pub is_ready : SimpleQueue A → Bool
  is_ready q = ltb 0 (length q.queue)

  unfoldable pub get_current_items : SimpleQueue A → ℕ
  get_current_items q = length q.queue

  -- `SimpleQueue::comp`: the order of `std::sort`, the higher priority first.
  unfoldable pub comp : SimpleQueue A → SimpleQueue A → Bool
  comp a b = ltb_ℤ b.priority a.priority

-- `GetSize` of the items.
module _ {A : Type 0} (size : A → ℕ) where
  unfoldable pub put_item : SimpleQueue A → A → SimpleQueue A
  put_item q r = record q { queue = q.queue ++ r ∷ []; queue_size = q.queue_size + size r }

  abbrev pub pop_front : SimpleQueue A → List A → Option A × SimpleQueue A
  pop_front q [] = (none, q)
  pop_front q (r ∷ rest) = (some r, record q { queue = rest; queue_size = q.queue_size - size r })

  unfoldable pub get_item : SimpleQueue A → Option A × SimpleQueue A
  get_item q = pop_front q q.queue
