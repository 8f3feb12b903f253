-- ===== src/Processor/Route.antt =====
-- QueueResource and the discarding of deleted resources in RunThread of
-- lib/processing_engine/Processor.cc, over lib/processing_engine/OutputFilter.h.
pub mod Delivery
pub mod Queueing
pub mod Discard
pub mod Store
pub mod Connect
use hector_core.Prelude.{
  ℕ, zero, suc, ◌+◌, Bool, true, false, ◌&&◌, ◌||◌, Option, none, some, List, [], ◌∷◌, ◌++◌, ◌≡◌,
  if◌then◌else◌, ◌==◌, ℤ, pos, eqb_ℤ, drop,
}
use hector_core.Processor.{Resource, Call, count_up, count_down}

-- A filter of `nextProcessor`. `queue` is the queue that `Connect` set, by its place in the store; no
-- status is the empty filter.
pub record OutputFilter : Type 0 where
  pub filter : Option ℤ
  pub priority : ℤ
  pub copy : Bool
  pub queue : ℕ

-- The queues that filters put to: `PutItem` from its call to its end, on the queue at a place, where
-- `none` is a failed assertion, and what is queued there with a priority.
pub record Queues (B Q : Type 0) : Type 0 where
  pub put : ℕ → ℤ → Resource B → Q → Option (Bool × Q)
  pub contents : ℕ → ℤ → Q → List (Resource B)
  pub put-true :
      (k : ℕ) (p : ℤ) (r : Resource B) (q q' : Q)
      → put k p r q ≡ some (true, q')
      → (k' : ℕ) (p' : ℤ)
      → contents k' p' q' ≡ contents k' p' q ++ (if k' == k && eqb_ℤ p p' then r ∷ [] else [])
  pub put-false :
      (k : ℕ) (p : ℤ) (r : Resource B) (q q' : Q)
      → put k p r q ≡ some (false, q')
      → (k' : ℕ) (p' : ℤ) → contents k' p' q' ≡ contents k' p' q

-- What queueing changes.
pub record Routing (B Q : Type 0) : Type 0 where
  pub queues : Q
  pub released : List (Resource B)
  pub calls : List Call

-- How the loop on the filters ends: a `PutItem` was refused, or the loop is over, with the resource
-- appended itself or not.
pub data LoopEnd : Type 0 where
  refused : LoopEnd
  over : Bool → LoopEnd

-- `IsEmptyFilter() || GetFilter() == status`.
unfoldable pub accepts : OutputFilter → ℤ → Bool
accepts f status = elim f.filter [ none ↦ true | some wanted ↦ eqb_ℤ wanted status ]

-- `GetQueue() == engineOutputQueue`.
unfoldable pub is_output : Option ℕ → ℕ → Bool
is_output none k = false
is_output (some e) k = k == e

-- `Clone` of the resource, and the engine's output queue, if there is one.
module _ {B Q : Type 0} (qs : Queues B Q) (clone : Resource B → Resource B)
    (engine_output : Option ℕ) where
  abbrev pub Step : Type 0
  Step = Option (LoopEnd × Routing B Q)

  abbrev pub sent : OutputFilter → Resource B → Resource B
  sent f r = if f.copy then clone r else r

  unfoldable pub after_put :
      OutputFilter → (Routing B Q → Step) → Routing B Q → Option (Bool × Q) → Step
  unfolding is_output
  after_put f rest s none = none
  after_put f rest s (some (false, q)) = some (refused, record s { queues = q })
  after_put f rest s (some (true, q)) =
      if f.copy
      then rest (record s { queues = q; calls = s.calls ++ count_up ∷ [] })
      else some (
        over true,
        record s {
          queues = q;
          calls = s.calls ++ (if is_output engine_output f.queue then count_down ∷ [] else []);
        },
      )

  unfoldable pub queue_loop : List OutputFilter → Resource B → Routing B Q → Step
  unfolding accepts after_put
  queue_loop [] r s = some (over false, s)
  queue_loop (f ∷ fs) r s =
      let rest = queue_loop fs r in
      if accepts f r.status
      then after_put f rest s (qs.put f.queue f.priority (sent f r) s.queues)
      else rest s

  -- What follows the loop.
  unfoldable pub queue_end : Resource B → Step → Option (Bool × Routing B Q)
  queue_end r none = none
  queue_end r (some (refused, s)) = some (false, s)
  queue_end r (some (over true, s)) = some (true, s)
  queue_end r (some (over false, s)) =
      some (true, record s { released = s.released ++ r ∷ []; calls = s.calls ++ count_down ∷ [] })

  -- `start` is the value at `filterIndex`, 0 for NULL. `*filterIndex++` moves the pointer, so the value
  -- stays as it was.
  unfoldable pub queue_resource :
      List OutputFilter → Resource B → ℕ → Routing B Q → Option (Bool × Routing B Q)
  unfolding queue_loop queue_end
  queue_resource filters r start s = queue_end r (queue_loop (drop start filters) r s)

  abbrev pub Discarded : Type 0
  Discarded = Option (List (Resource B) × Routing B Q)

  unfoldable pub after_discard :
      Resource B
      → List (Resource B)
      → (Routing B Q → Discarded)
      → Routing B Q
      → Option (Bool × Q)
      → Discarded
  after_discard r rs rest s none = none
  after_discard r rs rest s (some (false, q)) = some (r ∷ rs, record s { queues = q })
  after_discard r rs rest s (some (true, q)) =
      rest (record s { queues = q; calls = s.calls ++ count_down ∷ [] })

  -- The loop on `deletedResources` at the end of a round of `RunThread`. It returns those that are left;
  -- `readMax` becomes 0 where there are some.
  unfoldable pub discard_deleted : List (Resource B) → Routing B Q → Discarded
  unfolding after_discard
  discard_deleted [] s = some ([], s)
  discard_deleted (r ∷ rs) s =
      let rest = discard_deleted rs in
      elim engine_output [
        | some k ↦ after_discard r rs rest s (qs.put k (pos 0) r s.queues)
        | none ↦
            rest (record s { released = s.released ++ r ∷ []; calls = s.calls ++ count_down ∷ [] })
      ]
