-- ===== src/Processor/Route/Delivery.antt =====
-- Where QueueResource puts a resource and its copies, and what the engine counts of it.
use hector_core.Prelude.{
  ℕ, ◌+◌, Bool, true, false, ◌&&◌, Option, none, some, List, [], ◌∷◌, ◌++◌, ◌≡◌, refl, sym, ap,
  subst, ◌∙◌, if◌then◌else◌, ◌==◌, ℤ, eqb_ℤ, length, arith, append_assoc, append-nil, inl, inr,
  Bool-cases,
}
use hector_core.Processor.{Resource, count_up, count_down, ups, downs}
use hector_core.Processor.Apply.Balance.{ups-append, downs-append}
use hector_core.Processor.Route.{
  OutputFilter, Queues, Routing, LoopEnd, refused, over, accepts, is_output, sent, after_put,
  queue_loop,
}

-- One resource for one queue.
pub record Delivery (B : Type 0) : Type 0 where
  pub queue : ℕ
  pub priority : ℤ
  pub copied : Bool
  pub resource : Resource B

module _ {B : Type 0} where
  -- What a list of deliveries leaves in a queue with a priority.
  abbrev pub delivered : ℕ → ℤ → List (Delivery B) → List (Resource B)
  delivered k p [] = []
  delivered k p (d ∷ ds) =
      (if k == d.queue && eqb_ℤ d.priority p then d.resource ∷ [] else []) ++ delivered k p ds

  -- A copy counts, and the resource itself where its queue is not the engine's output.
  abbrev pub counted : Option ℕ → List (Delivery B) → ℕ
  counted e [] = 0
  counted e (d ∷ ds) = (if d.copied then 1 else if is_output e d.queue then 0 else 1) + counted e ds

  -- The resource itself is among the deliveries.
  abbrev pub original : List (Delivery B) → Bool
  original [] = false
  original (d ∷ ds) = if d.copied then original ds else true

module _ {B Q : Type 0} (qs : Queues B Q) (clone : Resource B → Resource B)
    (engine_output : Option ℕ) where
  abbrev copy_of : OutputFilter → Resource B → Delivery B
  copy_of f r = record { queue = f.queue; priority = f.priority; copied = true; resource = clone r }

  abbrev self_of : OutputFilter → Resource B → Delivery B
  self_of f r = record { queue = f.queue; priority = f.priority; copied = false; resource = r }

  -- A copy for every filter with `copy` that accepts the status, up to the first one without, which gets
  -- the resource itself.
  abbrev pub deliveries : List OutputFilter → Resource B → List (Delivery B)
  deliveries [] r = []
  deliveries (f ∷ fs) r =
      let more = deliveries fs r in
      if accepts f r.status then (if f.copy then copy_of f r ∷ more else self_of f r ∷ []) else more

  -- The deliveries `pre` were made between the two states.
  pub record Delivers (pre : List (Delivery B)) (s s' : Routing B Q) : Type 0 where
    pub contents :
        (k : ℕ) (p : ℤ) → qs.contents k p s'.queues ≡ qs.contents k p s.queues ++ delivered k p pre

  abbrev pub LoopDelivers :
      List OutputFilter → Resource B → Routing B Q → LoopEnd × Routing B Q → Type 0
  LoopDelivers fs r s (refused, s') =
      (pre post : List (Delivery B)) × (d : Delivery B) × (deliveries fs r ≡ pre ++ d ∷ post)
      × Delivers pre s s'
      × (s'.released ≡ s.released)
      × (ups s'.calls ≡ ups s.calls + length pre)
      × (downs s'.calls ≡ downs s.calls)
  LoopDelivers fs r s (over b, s') =
      Delivers (deliveries fs r) s s'
      × (original (deliveries fs r) ≡ b)
      × (s'.released ≡ s.released)
      × (ups s'.calls + downs s.calls + (if b then 1 else 0)
          ≡ ups s.calls + downs s'.calls + counted engine_output (deliveries fs r))

  deliver :
      (d : Delivery B) (pre : List (Delivery B)) (s s' : Routing B Q) (q : Q)
      → qs.put d.queue d.priority d.resource s.queues ≡ some (true, q)
      → ((k : ℕ) (p : ℤ) → qs.contents k p s'.queues ≡ qs.contents k p q ++ delivered k p pre)
      → Delivers (d ∷ pre) s s'
  deliver d pre s s' q e h = record {
    contents = λ k p.
        h k p
        ∙ ap (λ l. l ++ delivered k p pre)
            (qs.put-true d.queue d.priority d.resource s.queues q e k p)
        ∙ append_assoc (qs.contents k p s.queues)
            (if k == d.queue && eqb_ℤ d.priority p then d.resource ∷ [] else [])
            (delivered k p pre);
  }

  deliveries-copy :
      (fs : List OutputFilter) (f : OutputFilter) (r : Resource B)
      → accepts f r.status ≡ true
      → f.copy ≡ true
      → deliveries (f ∷ fs) r ≡ copy_of f r ∷ deliveries fs r
  deliveries-copy fs f r a c = simp (a, c)

  deliveries_self :
      (fs : List OutputFilter) (f : OutputFilter) (r : Resource B)
      → accepts f r.status ≡ true
      → f.copy ≡ false
      → deliveries (f ∷ fs) r ≡ self_of f r ∷ []
  deliveries_self fs f r a c = simp (a, c)

  after_copy :
      (fs : List OutputFilter) (f : OutputFilter) (r : Resource B) (s : Routing B Q) (q : Q)
      (out : LoopEnd × Routing B Q)
      → accepts f r.status ≡ true
      → f.copy ≡ true
      → qs.put f.queue f.priority (clone r) s.queues ≡ some (true, q)
      → LoopDelivers fs r (record s { queues = q; calls = s.calls ++ count_up ∷ [] }) out
      → LoopDelivers (f ∷ fs) r s out
  after_copy fs f r s q (refused, s') a c e (pre, post, d, eq, del, rel, u, w) = (
    copy_of f r ∷ pre,
    post,
    d,
    deliveries-copy fs f r a c ∙ ap (λ l. copy_of f r ∷ l) eq,
    deliver (copy_of f r) pre s s' q e del.contents,
    rel,
    omega (arith, u, ups-append s.calls (count_up ∷ [])),
    omega (arith, w, downs-append s.calls (count_up ∷ [])),
  )
  after_copy fs f r s q (over b, s') a c e (del, o, rel, n) =
      subst
        (λ l.
          Delivers l s s'
          × (original l ≡ b)
          × (s'.released ≡ s.released)
          × (ups s'.calls + downs s.calls + (if b then 1 else 0)
              ≡ ups s.calls + downs s'.calls + counted engine_output l))
        (sym (deliveries-copy fs f r a c))
        (
          deliver (copy_of f r) (deliveries fs r) s s' q e del.contents,
          o,
          rel,
          omega
              (arith, n, ups-append s.calls (count_up ∷ []), downs-append s.calls (count_up ∷ [])),
        )

  abbrev pub LoopDone :
      List OutputFilter → Resource B → Routing B Q → Option (LoopEnd × Routing B Q) → Type 0
  LoopDone fs r s none = Unit {0}
  LoopDone fs r s (some out) = LoopDelivers fs r s out

  after_self :
      (fs : List OutputFilter) (f : OutputFilter) (r : Resource B) (s : Routing B Q) (q : Q)
      → accepts f r.status ≡ true
      → f.copy ≡ false
      → qs.put f.queue f.priority r s.queues ≡ some (true, q)
      → LoopDelivers (f ∷ fs) r s (
        over true,
        record s {
          queues = q;
          calls = s.calls ++ (if is_output engine_output f.queue then count_down ∷ [] else []);
        },
      )
  after_self fs f r s q a c e =
      subst
        (λ l.
          Delivers l s s'
          × (original l ≡ true)
          × (s.released ≡ s.released)
          × (ups s'.calls + downs s.calls + 1
              ≡ ups s.calls + downs s'.calls + counted engine_output l))
        (sym (deliveries_self fs f r a c))
        (
          deliver (self_of f r) [] s s' q e (λ k p. sym (append-nil (qs.contents k p q))),
          refl,
          refl,
          elim (Bool-cases (is_output engine_output f.queue)) [
            | inl h ↦ simp h (
                omega (
                  arith,
                  ups-append s.calls (count_down ∷ []),
                  downs-append s.calls (count_down ∷ []),
                ))
            | inr h ↦ simp h (omega (arith, ups-append s.calls [], downs-append s.calls []))
          ],
        )
    where
      s' : Routing B Q
      s' = record s {
        queues = q;
        calls = s.calls ++ (if is_output engine_output f.queue then count_down ∷ [] else []);
      }

  refused_put :
      (fs : List OutputFilter) (f : OutputFilter) (r : Resource B) (s : Routing B Q) (q : Q)
      → accepts f r.status ≡ true
      → qs.put f.queue f.priority (sent qs clone engine_output f r) s.queues ≡ some (false, q)
      → LoopDelivers (f ∷ fs) r s (refused, record s { queues = q })
  refused_put fs f r s q a e = elim (Bool-cases f.copy) [
    | inl c ↦ (
      [],
      deliveries fs r,
      copy_of f r,
      deliveries-copy fs f r a c,
      nothing,
      refl,
      omega arith,
      refl,
    )
    | inr c ↦ ([], [], self_of f r, deliveries_self fs f r a c, nothing, refl, omega arith, refl)
  ]
    where
      nothing : Delivers [] s (record s { queues = q })
      nothing = record {
        contents = λ k p.
            qs.put-false f.queue f.priority (sent qs clone engine_output f r) s.queues q e k p
            ∙ sym (append-nil (qs.contents k p s.queues));
      }

  module _ (f : OutputFilter) (rest : Routing B Q → Option (LoopEnd × Routing B Q))
      (s : Routing B Q) (q : Q) where
    after_put-copy :
        f.copy ≡ true
        → after_put qs clone engine_output f rest s (some (true, q))
          ≡ rest (record s { queues = q; calls = s.calls ++ count_up ∷ [] })
    unfolding after_put
    after_put-copy c = simp c

    after_put_self :
        f.copy ≡ false
        → after_put qs clone engine_output f rest s (some (true, q))
          ≡ some (
            over true,
            record s {
              queues = q;
              calls = s.calls ++ (if is_output engine_output f.queue then count_down ∷ [] else []);
            },
          )
    unfolding after_put
    after_put_self c = simp c

  after_put-LoopDone :
      (fs : List OutputFilter) (f : OutputFilter) (r : Resource B) (s : Routing B Q)
      (o : Option (Bool × Q))
      → accepts f r.status ≡ true
      → qs.put f.queue f.priority (sent qs clone engine_output f r) s.queues ≡ o
      → ((t : Routing B Q) → LoopDone fs r t (queue_loop qs clone engine_output fs r t))
      → LoopDone
          (f ∷ fs)
          r
          s
          (after_put qs clone engine_output f (queue_loop qs clone engine_output fs r) s o)
  unfolding after_put
  after_put-LoopDone fs f r s none a e ih = tt
  after_put-LoopDone fs f r s (some (false, q)) a e ih = refused_put fs f r s q a e
  after_put-LoopDone fs f r s (some (true, q)) a e ih = elim (Bool-cases f.copy) [
    | inl c ↦
        subst (LoopDone (f ∷ fs) r s)
          (sym (after_put-copy f (queue_loop qs clone engine_output fs r) s q c))
          (copied (queue_loop qs clone engine_output fs r next) (ih next) c (simp c at e))
    | inr c ↦
        subst (LoopDone (f ∷ fs) r s)
          (sym (after_put_self f (queue_loop qs clone engine_output fs r) s q c))
          (after_self fs f r s q a c (simp c at e))
  ]
    where
      next : Routing B Q
      next = record s { queues = q; calls = s.calls ++ count_up ∷ [] }

      copied :
          (o : Option (LoopEnd × Routing B Q))
          → LoopDone fs r (record s { queues = q; calls = s.calls ++ count_up ∷ [] }) o
          → f.copy ≡ true
          → qs.put f.queue f.priority (clone r) s.queues ≡ some (true, q)
          → LoopDone (f ∷ fs) r s o
      copied none h c g = tt
      copied (some out) h c g = after_copy fs f r s q out a c g h

  skipped :
      (fs : List OutputFilter) (f : OutputFilter) (r : Resource B) (s : Routing B Q)
      (o : Option (LoopEnd × Routing B Q))
      → accepts f r.status ≡ false
      → LoopDone fs r s o
      → LoopDone (f ∷ fs) r s o
  skipped fs f r s none a h = tt
  skipped fs f r s (some (refused, s')) a h = simp a h
  skipped fs f r s (some (over b, s')) a h = simp a h

  pub queue_loop-LoopDone :
      (fs : List OutputFilter) (r : Resource B) (s : Routing B Q)
      → LoopDone fs r s (queue_loop qs clone engine_output fs r s)
  unfolding queue_loop
  queue_loop-LoopDone [] r s = (
    record { contents = λ k p. sym (append-nil (qs.contents k p s.queues)) },
    refl,
    refl,
    omega arith,
  )
  queue_loop-LoopDone (f ∷ fs) r s = elim (Bool-cases (accepts f r.status)) [
    | inl a ↦ simp a (
        after_put-LoopDone fs f r s
          (qs.put f.queue f.priority (sent qs clone engine_output f r) s.queues) a refl
          (queue_loop-LoopDone fs r))
    | inr a ↦
        simp a (
          skipped fs f r s (queue_loop qs clone engine_output fs r s) a
            (queue_loop-LoopDone fs r s))
  ]
