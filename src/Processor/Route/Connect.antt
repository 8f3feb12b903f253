-- ===== src/Processor/Route/Connect.antt =====
-- Connect of lib/processing_engine/Processor.cc: the queues of the output filters.
use hector_core.Prelude.{
  ℕ, zero, suc, Bool, true, false, Option, none, some, List, [], ◌∷◌, ◌++◌, ◌≡◌, ◌≢◌, refl, sym, ap,
  subst, ◌∙◌, if◌then◌else◌, ℤ, pos, get_elem?, set, All, length, inl, inr, Bool-cases, append-nil,
  append_assoc,
}
use hector_core.SyncQueue.{
  SyncQueue, find, empty, add_queue, has_queue, put_item_enter, put_found, put_loop,
}
use hector_core.SyncQueue.Simple.{SimpleQueue, is_space_for}
use hector_core.Objects.Maps.{lookup}
use hector_core.Processor.{Resource}
use hector_core.Processor.Route.{OutputFilter}
use hector_core.Processor.Route.Store.{put_into, put_at, stored}

-- A filter as the configuration gives it, with the name of a processor or of an engine.
pub record NamedFilter : Type 0 where
  pub filter : Option ℤ
  pub priority : ℤ
  pub copy : Bool
  pub processor : List ℕ

-- What a name stands for: a processor, by the place of its input queue, or an engine, by its number.
pub data Target : Type 0 where
  to_processor : ℕ → Target
  to_engine : ℕ → Target

-- All queues, and the place of the output queue of each engine that has one.
pub record Network (B : Type 0) : Type 0 where
  pub store : List (SyncQueue (Resource B))
  pub outputs : List (Option ℕ)

abbrev with_queue : NamedFilter → ℕ → OutputFilter
with_queue f k = record { filter = f.filter; priority = f.priority; copy = f.copy; queue = k }

module _ {B : Type 0} where
  -- `CreateOutputQueue`, where the engine has none: a queue of priority 0 without limits.
  unfoldable pub output_queue : SyncQueue (Resource B)
  output_queue = elim (add_queue empty (pos 0) 0 0) [ none ↦ empty | some q ↦ q ]

  abbrev output_at : ℕ → Network B → Option (Option ℕ) → Option ℕ × Network B
  output_at e net (some (some k)) = (some k, net)
  output_at e net (some none) = (
    some (length net.store),
    record net {
      store = net.store ++ output_queue ∷ [];
      outputs = set net.outputs e (some (length net.store));
    },
  )
  output_at e net none = (none, net)

  -- The place of the queue that a name stands for.
  unfoldable pub queue_of : Option Target → Network B → Option ℕ × Network B
  queue_of none net = (none, net)
  queue_of (some (to_processor k)) net = (some k, net)
  queue_of (some (to_engine e)) net = output_at e net (get_elem? net.outputs e)

  abbrev has_queue_at : ℤ → Option (SyncQueue (Resource B)) → Bool
  has_queue_at priority none = false
  has_queue_at priority (some q) = has_queue q priority

  abbrev cons_filter :
      OutputFilter → Option (List OutputFilter) × Network B → Option (List OutputFilter) × Network B
  cons_filter f (none, net) = (none, net)
  cons_filter f (some fs, net) = (some (f ∷ fs), net)

  -- One round of the loop, on the queue found: the test for its priority, and `SetQueue`.
  abbrev connect_to :
      (Network B → Option (List OutputFilter) × Network B)
      → NamedFilter
      → Option ℕ × Network B
      → Option (List OutputFilter) × Network B
  connect_to rest f (none, net) = (none, net)
  connect_to rest f (some k, net) =
      if has_queue_at f.priority (get_elem? net.store k)
      then cons_filter (with_queue f k) (rest net)
      else (none, net)

  -- The filters with their queues, where `none` is false.
  unfoldable pub connect :
      List (List ℕ × Target) → List NamedFilter → Network B → Option (List OutputFilter) × Network B
  connect objects [] net = (some [], net)
  connect objects (f ∷ fs) net =
      connect_to (connect objects fs) f (queue_of (lookup f.processor objects) net)

  -- The filter has a queue, with a sub-queue of its priority.
  abbrev pub HasQueue : List (SyncQueue (Resource B)) → OutputFilter → Type 0
  HasQueue store f = has_queue_at f.priority (get_elem? store f.queue) ≡ true

  -- The store only grows at its end.
  abbrev Extends : List (SyncQueue (Resource B)) → List (SyncQueue (Resource B)) → Type 0
  Extends store store' = (more : List (SyncQueue (Resource B))) × (store' ≡ store ++ more)

  get-append :
      (xs ys : List (SyncQueue (Resource B))) (k : ℕ) (q : SyncQueue (Resource B))
      → get_elem? xs k ≡ some q
      → get_elem? (xs ++ ys) k ≡ some q
  get-append [] ys k q e = cc
  get-append (x ∷ xs) ys zero q e = e
  get-append (x ∷ xs) ys (suc k) q e = get-append xs ys k q e

  HasQueue-Extends :
      (f : OutputFilter) (store store' : List (SyncQueue (Resource B)))
      → Extends store store'
      → HasQueue store f
      → HasQueue store' f
  HasQueue-Extends f store store' (more, e) h = go (get_elem? store f.queue) refl h
    where
      go :
          (o : Option (SyncQueue (Resource B)))
          → get_elem? store f.queue ≡ o
          → has_queue_at f.priority o ≡ true
          → HasQueue store' f
      go none g k = cc
      go (some q) g k =
          ap (has_queue_at f.priority)
            (ap (λ l. get_elem? l f.queue) e ∙ get-append store more f.queue q g)
          ∙ k

  same_store : (store : List (SyncQueue (Resource B))) → Extends store store
  same_store store = ([], sym (append-nil store))

  Extends-trans : (a b c : List (SyncQueue (Resource B))) → Extends a b → Extends b c → Extends a c
  Extends-trans a b c (m, e) (n, f) = (m ++ n, f ∙ ap (λ l. l ++ n) e ∙ append_assoc a m n)

  queue_of-Extends :
      (o : Option Target) (net : Network B) → Extends net.store (queue_of o net).1.store
  unfolding queue_of
  queue_of-Extends none net = same_store net.store
  queue_of-Extends (some (to_processor k)) net = same_store net.store
  queue_of-Extends (some (to_engine e)) net = go (get_elem? net.outputs e)
    where
      go : (o : Option (Option ℕ)) → Extends net.store (output_at e net o).1.store
      go none = same_store net.store
      go (some none) = (output_queue ∷ [], refl)
      go (some (some k)) = same_store net.store

  -- What `Connect` leaves: a longer store, and where it succeeds a queue for each filter.
  abbrev Connects : List (SyncQueue (Resource B)) → Option (List OutputFilter) × Network B → Type 0
  Connects store (none, net) = Extends store net.store
  Connects store (some fs, net) = Extends store net.store × All (HasQueue net.store) fs

  later :
      (a b : List (SyncQueue (Resource B))) (out : Option (List OutputFilter) × Network B)
      → Extends a b
      → Connects b out
      → Connects a out
  later a b (none, net) e c = Extends-trans a b net.store e c
  later a b (some fs, net) e (c, h) = (Extends-trans a b net.store e c, h)

  cons-Connects :
      (f : OutputFilter) (store : List (SyncQueue (Resource B)))
      (out : Option (List OutputFilter) × Network B)
      → HasQueue store f
      → Connects store out
      → Connects store (cons_filter f out)
  cons-Connects f store (none, net) h c = c
  cons-Connects f store (some fs, net) h (c, hs) = (c, (HasQueue-Extends f store net.store c h, hs))

  connect_to-Connects :
      (rest : Network B → Option (List OutputFilter) × Network B) (f : NamedFilter)
      (store : List (SyncQueue (Resource B))) (o : Option ℕ × Network B)
      → Extends store o.1.store
      → ((net : Network B) → Connects net.store (rest net))
      → Connects store (connect_to rest f o)
  connect_to-Connects rest f store (none, net) e ih = e
  connect_to-Connects rest f store (some k, net) e ih =
      go (has_queue_at f.priority (get_elem? net.store k)) refl
    where
      go :
          (b : Bool)
          → has_queue_at f.priority (get_elem? net.store k) ≡ b
          → Connects store (if b then cons_filter (with_queue f k) (rest net) else (none, net))
      go false h = e
      go true h =
          later store net.store (cons_filter (with_queue f k) (rest net)) e
            (cons-Connects (with_queue f k) net.store (rest net) h (ih net))

  connect-Connects :
      (objects : List (List ℕ × Target)) (fs : List NamedFilter) (net : Network B)
      → Connects net.store (connect objects fs net)
  unfolding connect
  connect-Connects objects [] net = (same_store net.store, tt)
  connect-Connects objects (f ∷ fs) net =
      connect_to-Connects (connect objects fs) f net.store
        (queue_of (lookup f.processor objects) net)
        (queue_of-Extends (lookup f.processor objects) net) (connect-Connects objects fs)

  module _ (size : Resource B → ℕ) where
    loop_put :
        (q : SyncQueue (Resource B)) (r : Resource B) (p : ℤ) (k : ℕ)
        (store : List (SyncQueue (Resource B))) (o : Option (SimpleQueue (Resource B)))
        → o ≢ none
        → stored size store k (put_found size q r false o) ≢ none
    unfolding put_found put_loop
    loop_put q r p k store none h = absurd (h refl)
    loop_put q r p k store (some f) h = elim (Bool-cases (is_space_for f (size r))) [
      | inl e ↦ simp e (λ n. cc)
      | inr e ↦ simp e (λ n. cc)
    ]

    found_queue :
        (q : SyncQueue (Resource B)) (p : ℤ) → has_queue q p ≡ true → find p q.queues ≢ none
    unfolding has_queue
    found_queue q p h e = go (find p q.queues) e h
      where
        go :
            (o : Option (SimpleQueue (Resource B)))
            → o ≡ none
            → elim o as (λ _. Bool) [ some _ ↦ true | none ↦ false ] ≡ true
            → ⊥
        go none e h = cc
        go (some f) e h = cc

    put-some :
        (q : SyncQueue (Resource B)) (r : Resource B) (p : ℤ) (k : ℕ)
        (store : List (SyncQueue (Resource B)))
        → has_queue q p ≡ true
        → stored size store k (put_item_enter size q r p false) ≢ none
    unfolding put_item_enter
    put-some q r p k store h = elim (Bool-cases q.cancel) [
      | inl c ↦ simp c (λ n. cc)
      | inr c ↦ simp c (loop_put q r p k store (find p q.queues) (found_queue q p h))
    ]

    put_into-some :
        (f : OutputFilter) (r : Resource B) (store : List (SyncQueue (Resource B)))
        → HasQueue store f
        → put_into size f.queue f.priority r store ≢ none
    unfolding put_into
    put_into-some f r store h = go (get_elem? store f.queue) h
      where
        go :
            (o : Option (SyncQueue (Resource B)))
            → has_queue_at f.priority o ≡ true
            → put_at size f.queue f.priority r store o ≢ none
        go none h = absurd (false-ne h)
          where
            false-ne : false ≡ true → ⊥
            false-ne e = cc
        go (some q) h = put-some q r f.priority f.queue store h

    All-puts :
        (fs : List OutputFilter) (store : List (SyncQueue (Resource B)))
        → All (HasQueue store) fs
        → All (λ f. (r : Resource B) → put_into size f.queue f.priority r store ≢ none) fs
    All-puts [] store h = tt
    All-puts (f ∷ fs) store h = ((λ r. put_into-some f r store h.0), All-puts fs store h.1)

    -- After `Connect` succeeded, no filter can fail the assertion of `PutItem`: each has a queue, with a
    -- sub-queue of the priority that it puts with. The queues that there were before are as they were.
    pub connect-puts :
        (objects : List (List ℕ × Target)) (named : List NamedFilter) (net net' : Network B)
        (fs : List OutputFilter)
        → connect objects named net ≡ (some fs, net')
        → All (λ f. (r : Resource B) → put_into size f.queue f.priority r net'.store ≢ none) fs
          × ((more : List (SyncQueue (Resource B))) × (net'.store ≡ net.store ++ more))
    connect-puts objects named net net' fs e =
        let (x, h) = subst (Connects net.store) e (connect-Connects objects named net) in
        (All-puts fs net'.store h, x)
