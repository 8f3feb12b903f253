-- ===== src/Processor/Route/Store.antt =====
-- The queues of a processing engine as the queues that Route puts to: a list of SyncQueues of
-- lib/SyncQueue.h, on which PutItem is called with the timeout NULL.
use hector_core.Prelude.{
  ℕ, zero, suc, Bool, true, false, ◌&&◌, Option, none, some, List, [], ◌∷◌, ◌++◌, ◌≡◌, refl, sym,
  ap, subst, ◌∙◌, if◌then◌else◌, ◌==◌, ℤ, eqb_ℤ, get_elem?, set, arith, append-nil, inl, inr,
  Bool-cases, eqb_ℤ_iff, ==_iff,
}
use hector_core.SyncQueue.{
  SyncQueue, Outcome, returns, waits, find, put_item_enter, put_loop, put_found,
}
use hector_core.SyncQueue.Order.{contents}
use hector_core.SyncQueue.Take.{put_loop_lem, Puts}
use hector_core.SyncQueue.Simple.{SimpleQueue}
use hector_core.Processor.{Resource}
use hector_core.Processor.Route.{Queues}

module _ {B : Type 0} (size : Resource B → ℕ) where
  abbrev pub Store : Type 0
  Store = List (SyncQueue (Resource B))

  abbrev pub stored :
      Store → ℕ → Option (Outcome Bool × SyncQueue (Resource B)) → Option (Bool × Store)
  stored store k none = none
  stored store k (some (waits, q)) = none
  stored store k (some (returns b, q)) = some (b, set store k q)

  abbrev pub put_at :
      ℕ → ℤ → Resource B → Store → Option (SyncQueue (Resource B)) → Option (Bool × Store)
  put_at k p r store none = none
  put_at k p r store (some q) = stored store k (put_item_enter size q r p false)

  unfoldable pub put_into : ℕ → ℤ → Resource B → Store → Option (Bool × Store)
  put_into k p r store = put_at k p r store (get_elem? store k)

  abbrev content : ℤ → Option (SyncQueue (Resource B)) → List (Resource B)
  content p none = []
  content p (some q) = contents p q.queues

  abbrev pub contents_of : ℕ → ℤ → Store → List (Resource B)
  contents_of k p store = content p (get_elem? store k)

  -- What `PutItem` did to one queue, when it may not wait.
  abbrev Put :
      ℤ
      → Resource B
      → SyncQueue (Resource B)
      → Option (Outcome Bool × SyncQueue (Resource B))
      → Type 0
  Put p r q none = Unit {0}
  Put p r q (some (waits, q')) = Unit {0}
  Put p r q (some (returns b, q')) =
      (p' : ℤ)
      → contents p' q'.queues ≡ contents p' q.queues ++ (if b && eqb_ℤ p p' then r ∷ [] else [])

  same-queues :
      (p' : ℤ) (q t : SyncQueue (Resource B))
      → t.queues ≡ q.queues
      → contents p' t.queues ≡ contents p' q.queues ++ []
  same-queues p' q t e = ap (contents p') e ∙ sym (append-nil (contents p' q.queues))

  from_Puts :
      (p : ℤ) (r : Resource B) (q t : SyncQueue (Resource B)) (f : SimpleQueue (Resource B))
      (o : Outcome Bool)
      → Puts size q r p f false (o, t)
      → Put p r q (some (o, t))
  from_Puts p r q t f waits h = tt
  from_Puts p r q t f (returns true) (inr (h, e, k)) = absurd (cc)
  from_Puts p r q t f (returns false) (inl (h, e, same, others)) = absurd (cc)
  from_Puts p r q t f (returns false) (inr (h, e, k)) = λ p'. same-queues p' q t k
  from_Puts p r q t f (returns true) (inl (h, e, same, others)) = λ p'.
      elim (Bool-cases (eqb_ℤ p p')) [
        | inl d ↦
            subst
              (λ x. contents x t.queues ≡ contents x q.queues ++ (if eqb_ℤ p x then r ∷ [] else []))
              ((eqb_ℤ_iff p p').0 d) (simp ((eqb_ℤ_iff p p).1 refl) same)
        | inr d ↦ simp d (
            others p' (λ g. cc_false (sym d ∙ (eqb_ℤ_iff p p').1 (sym g)))
            ∙ sym (append-nil (contents p' q.queues)))
      ]
    where
      cc_false : false ≡ true → ⊥
      cc_false e = cc

  put_found-Put :
      (p : ℤ) (r : Resource B) (q : SyncQueue (Resource B)) (o : Option (SimpleQueue (Resource B)))
      → find p q.queues ≡ o
      → Put p r q (put_found size q r false o)
  unfolding put_found
  put_found-Put p r q none e = tt
  put_found-Put p r q (some f) e =
      from_Puts p r q (put_loop size q f r false).1 f (put_loop size q f r false).0
        (put_loop_lem size q r p f false e)

  put_item_enter-Put :
      (p : ℤ) (r : Resource B) (q : SyncQueue (Resource B))
      → Put p r q (put_item_enter size q r p false)
  unfolding put_item_enter
  put_item_enter-Put p r q = elim (Bool-cases q.cancel) [
    | inl c ↦ simp c (λ p'. same-queues p' q q refl)
    | inr c ↦ simp c (put_found-Put p r q (find p q.queues) refl)
  ]

  get-set :
      (store : Store) (k : ℕ) (q q' : SyncQueue (Resource B)) (p : ℤ) (k' : ℕ)
      → get_elem? store k ≡ some q
      → contents_of k' p (set store k q')
        ≡ (if k' == k then contents p q'.queues else contents_of k' p store)
  get-set [] k q q' p k' e = cc
  get-set (x ∷ xs) zero q q' p zero e = refl
  get-set (x ∷ xs) zero q q' p (suc k') e = ground arith
  get-set (x ∷ xs) (suc k) q q' p zero e = ground arith
  get-set (x ∷ xs) (suc k) q q' p (suc k') e = ground (arith, get-set xs k q q' p k' e)

  -- What is added to a queue by an item put into the queue `k` with the priority `p`.
  abbrev pub added : Bool → ℕ → ℤ → Resource B → ℕ → ℤ → List (Resource B)
  added b k p r k' p' = if k' == k && (b && eqb_ℤ p p') then r ∷ [] else []

  set-added :
      (b : Bool) (k : ℕ) (p : ℤ) (r : Resource B) (store : Store) (q t : SyncQueue (Resource B))
      → get_elem? store k ≡ some q
      → Put p r q (some (returns b, t))
      → (k' : ℕ) (p' : ℤ)
      → contents_of k' p' (set store k t) ≡ contents_of k' p' store ++ added b k p r k' p'
  set-added b k p r store q t e h k' p' =
      get-set store k q t p' k' e ∙ elim (Bool-cases (k' == k)) [
        | inl d ↦ simp d (
            h p'
            ∙ ap (λ l. l ++ (if b && eqb_ℤ p p' then r ∷ [] else []))
                (sym (
                  subst (λ x. contents_of x p' store ≡ contents p' q.queues)
                    (sym ((==_iff k' k).0 d)) (ap (content p') e))))
        | inr d ↦ simp d (sym (append-nil (contents_of k' p' store)))
      ]

  stored-added :
      (b : Bool) (k : ℕ) (p : ℤ) (r : Resource B) (store store' : Store)
      (q : SyncQueue (Resource B)) (o : Option (Outcome Bool × SyncQueue (Resource B)))
      → get_elem? store k ≡ some q
      → Put p r q o
      → stored store k o ≡ some (b, store')
      → (k' : ℕ) (p' : ℤ)
      → contents_of k' p' store' ≡ contents_of k' p' store ++ added b k p r k' p'
  stored-added b k p r store store' q none e h f k' p' = cc
  stored-added b k p r store store' q (some (waits, t)) e h f k' p' = cc
  stored-added b k p r store store' q (some (returns c, t)) e h f k' p' =
      let (g, m) = parts f in
      subst (λ x. contents_of k' p' x ≡ contents_of k' p' store ++ added b k p r k' p') m
        (subst
          (λ x. contents_of k' p' (set store k t) ≡ contents_of k' p' store ++ added x k p r k' p')
          g (set-added c k p r store q t e h k' p'))
    where
      parts :
          {c b : Bool} {x y : Store}
          → ◌≡◌ {A = Option (Bool × Store)} (some (c, x)) (some (b, y))
          → (c ≡ b) × (x ≡ y)
      parts f = (ground arith, ground arith)

  pub put_into-added :
      (b : Bool) (k : ℕ) (p : ℤ) (r : Resource B) (store store' : Store)
      → put_into k p r store ≡ some (b, store')
      → (k' : ℕ) (p' : ℤ)
      → contents_of k' p' store' ≡ contents_of k' p' store ++ added b k p r k' p'
  unfolding put_into
  put_into-added b k p r store store' f k' p' = go (get_elem? store k) refl f
    where
      go :
          (o : Option (SyncQueue (Resource B)))
          → get_elem? store k ≡ o
          → put_at k p r store o ≡ some (b, store')
          → contents_of k' p' store' ≡ contents_of k' p' store ++ added b k p r k' p'
      go none e h = cc
      go (some q) e h =
          stored-added b k p r store store' q (put_item_enter size q r p false) e
            (put_item_enter-Put p r q) h k' p'

  pub added-nothing :
      (k : ℕ) (p : ℤ) (r : Resource B) (k' : ℕ) (p' : ℤ) → added false k p r k' p' ≡ []
  added-nothing k p r k' p' = elim (Bool-cases (k' == k)) [ inl d ↦ simp d | inr d ↦ simp d ]

  -- The queues of the engine meet what `QueueResource` relies on.
  unfoldable pub store_queues : Queues B (List (SyncQueue (Resource B)))
  store_queues = record {
    put = put_into;
    contents = contents_of;
    put-true = λ k p r q q' e. put_into-added true k p r q q' e;
    put-false = λ k p r q q' e k' p'.
        put_into-added false k p r q q' e k' p'
        ∙ ap (λ l. contents_of k' p' q ++ l) (added-nothing k p r k' p')
        ∙ append-nil (contents_of k' p' q);
  }
