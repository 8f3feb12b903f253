-- ===== src/Processor/Route/Discard.antt =====
-- The loop on the deleted resources in RunThread of lib/processing_engine/Processor.cc.
use hector_core.Prelude.{
  ℕ, ◌+◌, Bool, true, false, ◌&&◌, Option, none, some, List, [], ◌∷◌, ◌++◌, ◌≡◌, refl, sym, ap,
  subst, ◌∙◌, if◌then◌else◌, ◌==◌, ℤ, pos, eqb_ℤ, length, arith, append_assoc, append-nil,
}
use hector_core.Processor.{Resource, count_down, ups, downs}
use hector_core.Processor.Apply.Balance.{ups-append, downs-append}
use hector_core.Processor.Route.{Queues, Routing, after_discard, discard_deleted}

module _ {B Q : Type 0} (qs : Queues B Q) (clone : Resource B → Resource B) where
  -- The resources `done` left for the engine's output queue, or were released if it has none.
  abbrev pub Leaves : Option ℕ → List (Resource B) → Routing B Q → Routing B Q → Type 0
  Leaves none done s s' = (s'.released ≡ s.released ++ done) × (s'.queues ≡ s.queues)
  Leaves (some e) done s s' =
      (s'.released ≡ s.released)
      × ((k : ℕ) (p : ℤ)
          → qs.contents k p s'.queues
            ≡ qs.contents k p s.queues ++ (if k == e && eqb_ℤ (pos 0) p then done else []))

  -- The loop has stopped: nothing is left, or the output queue has refused the first one that is.
  abbrev pub Stopped : Option ℕ → List (Resource B) → Routing B Q → Type 0
  Stopped none left s = left ≡ []
  Stopped (some e) [] s = Unit {0}
  Stopped (some e) (r ∷ left) s =
      (q : Q) × (qs.put e (pos 0) r q ≡ some (false, s.queues))
      × ((k : ℕ) (p : ℤ) → qs.contents k p s.queues ≡ qs.contents k p q)

  -- `left` stay where the output queue refuses. The others left, each counted down.
  pub record Discards (e : Option ℕ) (rs : List (Resource B)) (s : Routing B Q)
      (left : List (Resource B)) (s' : Routing B Q) : Type 0 where
    pub done : List (Resource B)
    pub split : rs ≡ done ++ left
    pub leaves : Leaves e done s s'
    pub stopped : Stopped e left s'
    pub counted : (downs s'.calls ≡ downs s.calls + length done) × (ups s'.calls ≡ ups s.calls)

  abbrev Discarding :
      Option ℕ → List (Resource B) → Routing B Q → Option (List (Resource B) × Routing B Q) → Type 0
  Discarding e rs s none = Unit {0}
  Discarding e rs s (some (left, s')) = Discards e rs s left s'

  released-one :
      (r : Resource B) (rs : List (Resource B)) (s : Routing B Q)
      (o : Option (List (Resource B) × Routing B Q))
      → Discarding none rs
          (record s { released = s.released ++ r ∷ []; calls = s.calls ++ count_down ∷ [] })
          o
      → Discarding none (r ∷ rs) s o
  released-one r rs s none h = tt
  released-one r rs s (some (left, s')) h = record {
    done = r ∷ h.done;
    split = ap (λ l. r ∷ l) h.split;
    leaves = (h.leaves.0 ∙ append_assoc s.released (r ∷ []) h.done, h.leaves.1);
    stopped = h.stopped;
    counted = omega (
      arith,
      h.counted,
      ups-append s.calls (count_down ∷ []),
      downs-append s.calls (count_down ∷ []),
    );
  }

  if-append :
      (b : Bool) (r : Resource B) (l done : List (Resource B))
      → (l ++ (if b then r ∷ [] else [])) ++ (if b then done else [])
        ≡ l ++ (if b then r ∷ done else [])
  if-append true r l done = append_assoc l (r ∷ []) done
  if-append false r l done = append-nil (l ++ [])

  output-one :
      (e : ℕ) (r : Resource B) (rs : List (Resource B)) (s : Routing B Q) (q : Q)
      (o : Option (List (Resource B) × Routing B Q))
      → qs.put e (pos 0) r s.queues ≡ some (true, q)
      → Discarding (some e) rs (record s { queues = q; calls = s.calls ++ count_down ∷ [] }) o
      → Discarding (some e) (r ∷ rs) s o
  output-one e r rs s q none f h = tt
  output-one e r rs s q (some (left, s')) f h = record {
    done = r ∷ h.done;
    split = ap (λ l. r ∷ l) h.split;
    leaves = (
      h.leaves.0,
      λ k p.
          h.leaves.1 k p
          ∙ ap (λ l. l ++ (if k == e && eqb_ℤ (pos 0) p then h.done else []))
              (qs.put-true e (pos 0) r s.queues q f k p)
          ∙ if-append (k == e && eqb_ℤ (pos 0) p) r (qs.contents k p s.queues) h.done,
    );
    stopped = h.stopped;
    counted = omega (
      arith,
      h.counted,
      ups-append s.calls (count_down ∷ []),
      downs-append s.calls (count_down ∷ []),
    );
  }

  if-nil : (b : Bool) → ◌≡◌ {A = List (Resource B)} (if b then [] else []) []
  if-nil true = refl
  if-nil false = refl

  after_discard-Discarding :
      (e : ℕ) (r : Resource B) (rs : List (Resource B)) (s : Routing B Q) (o : Option (Bool × Q))
      → qs.put e (pos 0) r s.queues ≡ o
      → ((t : Routing B Q) → Discarding (some e) rs t (discard_deleted qs clone (some e) rs t))
      → Discarding
          (some e)
          (r ∷ rs)
          s
          (after_discard qs clone (some e) r rs (discard_deleted qs clone (some e) rs) s o)
  unfolding after_discard
  after_discard-Discarding e r rs s none f h = tt
  after_discard-Discarding e r rs s (some (false, q)) f h = record {
    done = [];
    split = refl;
    leaves = (
      refl,
      λ k p.
          qs.put-false e (pos 0) r s.queues q f k p
          ∙ sym (append-nil (qs.contents k p s.queues))
          ∙ ap (λ l. qs.contents k p s.queues ++ l) (sym (if-nil (k == e && eqb_ℤ (pos 0) p))),
    );
    stopped = (s.queues, f, qs.put-false e (pos 0) r s.queues q f);
    counted = omega arith;
  }
  after_discard-Discarding e r rs s (some (true, q)) f h =
      output-one e r rs s q
        (discard_deleted qs clone (some e) rs
          (record s { queues = q; calls = s.calls ++ count_down ∷ [] }))
        f (h (record s { queues = q; calls = s.calls ++ count_down ∷ [] }))

  discard_deleted-Discarding :
      (e : Option ℕ) (rs : List (Resource B)) (s : Routing B Q)
      → Discarding e rs s (discard_deleted qs clone e rs s)
  unfolding discard_deleted
  discard_deleted-Discarding none [] s = record {
    done = [];
    split = refl;
    leaves = (sym (append-nil s.released), refl);
    stopped = refl;
    counted = omega arith;
  }
  discard_deleted-Discarding (some e) [] s = record {
    done = [];
    split = refl;
    leaves = (
      refl,
      λ k p.
          sym (append-nil (qs.contents k p s.queues))
          ∙ ap (λ l. qs.contents k p s.queues ++ l) (sym (if-nil (k == e && eqb_ℤ (pos 0) p))),
    );
    stopped = tt;
    counted = omega arith;
  }
  discard_deleted-Discarding none (r ∷ rs) s =
      released-one r rs s
        (discard_deleted qs clone none rs
          (record s { released = s.released ++ r ∷ []; calls = s.calls ++ count_down ∷ [] }))
        (discard_deleted-Discarding none rs
          (record s { released = s.released ++ r ∷ []; calls = s.calls ++ count_down ∷ [] }))
  discard_deleted-Discarding (some e) (r ∷ rs) s =
      after_discard-Discarding e r rs s (qs.put e (pos 0) r s.queues) refl
        (discard_deleted-Discarding (some e) rs)

  -- The deleted resources leave in their order, each counted down once: they are released if the engine
  -- has no output queue, and else put into it with priority 0 until it refuses one. Those that are left
  -- are the one that it has refused and those behind it; there are none without an output queue.
  pub discard_deleted-Discards :
      (e : Option ℕ) (rs left : List (Resource B)) (s s' : Routing B Q)
      → discard_deleted qs clone e rs s ≡ some (left, s')
      → Discards e rs s left s'
  discard_deleted-Discards e rs left s s' f =
      subst (Discarding e rs s) f (discard_deleted-Discarding e rs s)
