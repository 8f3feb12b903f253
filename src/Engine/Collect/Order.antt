-- ===== src/Engine/Collect/Order.antt =====
-- What GetProcessedResourcesOrdered of lib/processing_engine/ProcessingEngine.cc puts out.
use hector_core.Prelude.{
  ℕ, Bool, true, false, Option, none, some, List, [], ◌∷◌, ◌++◌, map, ◌≡◌, refl, sym, ap, subst,
  ◌∙◌, ◌==◌, ==_iff, arith, append-nil, append_assoc, All, ◌⊎◌, inl, inr, Bool-cases,
}
use hector_core.Processor.{Resource}
use hector_core.Engine.Collect.{
  lookup, erase, Collector, Batch, Collected, found, take_finished, absorb, finish, collect_next,
  collect_round, collect_ordered, get_processed_resources_ordered,
}

module _ {B : Type 0} where
  -- Each resource waiting for consumption stands under its own id.
  abbrev pub IsKeyed : List (ℕ × Resource B) → Type 0
  IsKeyed = All (λ (k, r). k ≡ r.id)

  pub lookup-IsKeyed :
      (id : ℕ) (m : List (ℕ × Resource B)) (r : Resource B)
      → IsKeyed m
      → lookup id m ≡ some r
      → r.id ≡ id
  unfolding lookup
  lookup-IsKeyed id [] r h e = cc
  lookup-IsKeyed id ((k, x) ∷ m) r h e = ground (arith, h.0, lookup-IsKeyed id m r h.1)

  pub erase-IsKeyed : (id : ℕ) (m : List (ℕ × Resource B)) → IsKeyed m → IsKeyed (erase id m)
  unfolding erase
  erase-IsKeyed id [] h = tt
  erase-IsKeyed id ((k, x) ∷ m) h = ground (arith, h.0, erase-IsKeyed id m h.1)

  -- Between `s` and `s'` the resources of `ids` before `rest` were put out, in the order of `ids`.
  pub record Collects (ids : List ℕ) (s : Collector B) (rest : List ℕ) (s' : Collector B)
      : Type 0 where
    pub new : List (Resource B)
    pub output : s'.output ≡ s.output ++ new
    pub in_order : ids ≡ map (λ r. r.id) new ++ rest
    pub keyed : IsKeyed s'.finished

  nothing : (ids : List ℕ) (s : Collector B) → IsKeyed s.finished → Collects ids s ids s
  nothing ids s h = record {
    new = [];
    output = sym (append-nil s.output);
    in_order = refl;
    keyed = h;
  }

  one :
      (id : ℕ) (r : Resource B) (ids rest : List ℕ) (s t s' : Collector B)
      → id ≡ r.id
      → t.output ≡ s.output ++ r ∷ []
      → Collects ids t rest s'
      → Collects (id ∷ ids) s rest s'
  one id r ids rest s t s' e o c = record {
    new = r ∷ c.new;
    output = c.output ∙ ap (λ l. l ++ c.new) o ∙ append_assoc s.output (r ∷ []) c.new;
    in_order = ap (λ l. id ∷ l) c.in_order ∙ ap (λ x. x ∷ map (λ r. r.id) c.new ++ rest) e;
    keyed = c.keyed;
  }

  -- A step that puts nothing out may come before.
  same_output :
      (ids rest : List ℕ) (s t s' : Collector B)
      → t.output ≡ s.output
      → Collects ids t rest s'
      → Collects ids s rest s'
  same_output ids rest s t s' o c = record {
    new = c.new;
    output = c.output ∙ ap (λ l. l ++ c.new) o;
    in_order = c.in_order;
    keyed = c.keyed;
  }

  join :
      (ids mid rest : List ℕ) (s t s' : Collector B)
      → Collects ids s mid t
      → Collects mid t rest s'
      → Collects ids s rest s'
  join ids mid rest s t s' c d = record {
    new = c.new ++ d.new;
    output = d.output ∙ ap (λ l. l ++ d.new) c.output ∙ append_assoc s.output c.new d.new;
    in_order =
        c.in_order
        ∙ ap (λ l. map (λ r. r.id) c.new ++ l) d.in_order
        ∙ sym (append_assoc (map (λ r. r.id) c.new) (map (λ r. r.id) d.new) rest)
        ∙ ap (λ l. l ++ rest) (sym (map-append c.new d.new));
    keyed = d.keyed;
  }
    where
      map-append :
          (xs ys : List (Resource B))
          → map (λ r. r.id) (xs ++ ys) ≡ map (λ r. r.id) xs ++ map (λ r. r.id) ys
      map-append [] ys = refl
      map-append (x ∷ xs) ys = ap (λ l. x.id ∷ l) (map-append xs ys)

  found-Collects :
      (id : ℕ) (ids : List ℕ) (s : Collector B) (o : Option (Resource B))
      → IsKeyed s.finished
      → lookup id s.finished ≡ o
      → ((t : Collector B)
          → IsKeyed t.finished
          → Collects ids t (take_finished ids t).0 (take_finished ids t).1)
      → Collects
          (id ∷ ids)
          s
          (found (take_finished ids) id ids s o).0
          (found (take_finished ids) id ids s o).1
  found-Collects id ids s none h e ih = nothing (id ∷ ids) s h
  found-Collects id ids s (some r) h e ih =
      one id r ids (take_finished ids next).0 s next (take_finished ids next).1
        (sym (lookup-IsKeyed id s.finished r h e)) refl (ih next (erase-IsKeyed id s.finished h))
    where
      next : Collector B
      next = record { finished = erase id s.finished; output = s.output ++ r ∷ [] }

  take_finished-Collects :
      (ids : List ℕ) (s : Collector B)
      → IsKeyed s.finished
      → Collects ids s (take_finished ids s).0 (take_finished ids s).1
  unfolding take_finished
  take_finished-Collects [] s h = nothing [] s h
  take_finished-Collects (id ∷ ids) s h =
      found-Collects id ids s (lookup id s.finished) h refl (take_finished-Collects ids)

  abbrev Absorbed : List ℕ → Collector B → Option (List ℕ × Collector B) → Type 0
  Absorbed ids s none = Unit {0}
  Absorbed ids s (some (rest, s')) = Collects ids s rest s'

  Absorbed-one :
      (id : ℕ) (r : Resource B) (ids : List ℕ) (s t : Collector B)
      (o : Option (List ℕ × Collector B))
      → id ≡ r.id
      → t.output ≡ s.output ++ r ∷ []
      → Absorbed ids t o
      → Absorbed (id ∷ ids) s o
  Absorbed-one id r ids s t none e o a = tt
  Absorbed-one id r ids s t (some (rest, s')) e o a = one id r ids rest s t s' e o a

  Absorbed-foreign :
      (ids : List ℕ) (s t : Collector B) (o : Option (List ℕ × Collector B))
      → t.output ≡ s.output
      → Absorbed ids t o
      → Absorbed ids s o
  Absorbed-foreign ids s t none o a = tt
  Absorbed-foreign ids s t (some (rest, s')) o a = same_output ids rest s t s' o a

  absorb-Absorbed :
      (rs : List (Resource B)) (ids : List ℕ) (s : Collector B)
      → IsKeyed s.finished
      → Absorbed ids s (absorb rs ids s)
  unfolding absorb
  absorb-Absorbed [] ids s h = nothing ids s h
  absorb-Absorbed (r ∷ rs) [] s h = tt
  absorb-Absorbed (r ∷ rs) (id ∷ ids) s h = elim (Bool-cases (id == r.id)) [
    | inl e ↦ simp e (
        Absorbed-one id r ids s (record s { output = s.output ++ r ∷ [] })
          (absorb rs ids (record s { output = s.output ++ r ∷ [] })) ((==_iff id r.id).0 e) refl
          (absorb-Absorbed rs ids (record s { output = s.output ++ r ∷ [] }) h))
    | inr e ↦ simp e (
        Absorbed-foreign (id ∷ ids) s (put r) (absorb rs (id ∷ ids) (put r)) refl
          (absorb-Absorbed rs (id ∷ ids) (put r) (refl, erase-IsKeyed r.id s.finished h)))
  ]
    where
      put : Resource B → Collector B
      put r = record s { finished = (r.id, r) ∷ erase r.id s.finished }

  -- What the call has done when it ends.
  abbrev pub Ends : Bool → List ℕ → Collector B → Collected B → Type 0
  Ends wait ids s none = Unit {0}
  Ends wait ids s (some (result, rest, s')) =
      Collects ids s rest s'
      × ((result ≡ true) × (wait ≡ true) → rest ≡ [])
      × (result ≡ false → wait ≡ true)

  finish-Ends :
      (wait : Bool) (ids mid : List ℕ) (s t : Collector B)
      → Collects ids s mid t
      → Ends wait ids s (finish wait (mid, t))
  finish-Ends wait ids [] s t c = (c, λ h. refl, λ h. ground arith)
  finish-Ends true ids (id ∷ mid) s t c = (c, λ (h, k). ground arith, λ h. refl)
  finish-Ends false ids (id ∷ mid) s t c = (c, λ (h, k). ground arith, λ h. ground arith)

  Ends-join :
      (wait : Bool) (ids mid : List ℕ) (s t : Collector B) (o : Collected B)
      → Collects ids s mid t
      → Ends wait mid t o
      → Ends wait ids s o
  Ends-join wait ids mid s t none c e = tt
  Ends-join wait ids mid s t (some (result, rest, s')) c (d, f, g) =
      (join ids mid rest s t s' c d, f, g)

  abbrev Continues : Bool → (List ℕ → Collector B → Collected B) → Type 0
  Continues wait rest =
      (ids : List ℕ) (s : Collector B) → IsKeyed s.finished → Ends wait ids s (rest ids s)

  collect_next-Ends :
      (wait : Bool) (rest : List ℕ → Collector B → Collected B) (ids : List ℕ) (s : Collector B)
      (o : Option (List ℕ × Collector B))
      → Continues wait rest
      → Absorbed ids s o
      → Ends wait ids s (collect_next rest o)
  collect_next-Ends wait rest ids s none ih a = tt
  collect_next-Ends wait rest ids s (some (mid, t)) ih a =
      Ends-join wait ids mid s t (rest mid t) a (ih mid t a.keyed)

  collect_round-Ends :
      (wait : Bool) (rest : List ℕ → Collector B → Collected B) (b : Batch B) (ids mid : List ℕ)
      (s t : Collector B)
      → Continues wait rest
      → Collects ids s mid t
      → Ends wait ids s (collect_round rest wait b (mid, t))
  collect_round-Ends wait rest b ids [] s t ih c = finish-Ends wait ids [] s t c
  collect_round-Ends false rest b ids (id ∷ mid) s t ih c = finish-Ends false ids (id ∷ mid) s t c
  collect_round-Ends true rest b ids (id ∷ mid) s t ih c =
      Ends-join true ids (id ∷ mid) s t
        (collect_next rest (absorb (b.first ∷ b.others) (id ∷ mid) t)) c
        (collect_next-Ends true rest (id ∷ mid) t (absorb (b.first ∷ b.others) (id ∷ mid) t) ih
          (absorb-Absorbed (b.first ∷ b.others) (id ∷ mid) t c.keyed))

  collect_ordered-Ends :
      (bs : List (Batch B)) (wait : Bool) → Continues wait (collect_ordered bs wait)
  unfolding collect_ordered
  collect_ordered-Ends [] wait ids s h =
      finish-Ends wait ids (take_finished ids s).0 s (take_finished ids s).1
        (take_finished-Collects ids s h)
  collect_ordered-Ends (b ∷ bs) wait ids s h =
      collect_round-Ends wait (collect_ordered bs wait) b ids (take_finished ids s).0 s
        (take_finished ids s).1 (collect_ordered-Ends bs wait) (take_finished-Collects ids s h)

  -- What the whole call has done when it ends.
  abbrev pub CallEnds : Bool → Bool → List ℕ → Collector B → Collected B → Type 0
  CallEnds has_queue wait ids s none = Unit {0}
  CallEnds has_queue wait ids s (some (result, rest, s')) =
      Collects ids s rest s'
      × ((result ≡ true) × (wait ≡ true) → rest ≡ [])
      × (result ≡ false → (has_queue ≡ false) ⊎ (wait ≡ true))

  with_queue :
      (wait : Bool) (ids : List ℕ) (s : Collector B) (o : Collected B)
      → Ends wait ids s o
      → CallEnds true wait ids s o
  with_queue wait ids s none h = tt
  with_queue wait ids s (some (result, rest, s')) (c, f, g) = (c, f, λ e. inr (g e))

  pub call-CallEnds :
      (has_queue : Bool) (bs : List (Batch B)) (wait : Bool) (ids : List ℕ) (s : Collector B)
      → IsKeyed s.finished
      → CallEnds has_queue wait ids s (get_processed_resources_ordered has_queue bs wait ids s)
  unfolding get_processed_resources_ordered
  call-CallEnds true bs wait ids s h =
      with_queue wait ids s (collect_ordered bs wait ids s) (collect_ordered-Ends bs wait ids s h)
  call-CallEnds false bs wait ids s h =
      (nothing ids s h, λ (e, f). ground (arith, e), λ e. inl refl)

  -- When the call ends, it has put out resources with the ids asked for, in the order of the ids, up to
  -- some id: all of them if it returns true and may wait. It returns false only where there is no output
  -- queue or it may wait.
  pub get_processed_resources_ordered-in_order :
      (has_queue : Bool) (bs : List (Batch B)) (wait : Bool) (ids rest : List ℕ)
      (s s' : Collector B) (result : Bool)
      → IsKeyed s.finished
      → get_processed_resources_ordered has_queue bs wait ids s ≡ some (result, rest, s')
      → Collects ids s rest s'
        × ((result ≡ true) × (wait ≡ true) → rest ≡ [])
        × (result ≡ false → (has_queue ≡ false) ⊎ (wait ≡ true))
  get_processed_resources_ordered-in_order has_queue bs wait ids rest s s' result h e =
      subst (CallEnds has_queue wait ids s) e (call-CallEnds has_queue bs wait ids s h)

  -- Where the queue yields another resource together with the last one that is wanted, the call reads
  -- behind the end of the ids.
  pub collect_ordered-overrun :
      (b : Batch B) (bs : List (Batch B)) (x : Resource B) (xs : List (Resource B)) (id : ℕ)
      (s : Collector B)
      → lookup id s.finished ≡ none
      → b.first.id ≡ id
      → b.others ≡ x ∷ xs
      → collect_ordered (b ∷ bs) true (id ∷ []) s ≡ none
  unfolding collect_ordered take_finished absorb
  collect_ordered-overrun b bs x xs id s h e f = simp (h, e, f, (==_iff id id).1 refl)
