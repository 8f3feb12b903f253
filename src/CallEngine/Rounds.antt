-- ===== src/CallEngine/Rounds.antt =====
-- `ReadWrite` of lib/processing_engine/CallProcessingEngine.cc, part by part.
use hector_core.Prelude.{
  ℕ, suc, ◌+◌, ◌≤◌, Bool, true, false, Option, none, some, List, [], ◌∷◌, ◌++◌, map, length, ◌==◌,
  ltb, leb, ◌&&◌, ◌||◌, not, ◌≡◌, refl, ap, ◌∙◌, arith, length-append, if_split,
}
use hector_core.Processor.{Resource}
use hector_core.CallEngine.{
  Caller, Calling, is_empty, stored, Progress, submit, retry, one_input, inputs_loop, submitted,
  collected, ask, collect, read_write,
}
use hector_core.CallEngine.Steady.{
  one, load, weight, IsSteady, Answers, IsEngine, Moved, Goes, start, unmoved,
}

length-map : {A B : Type 0} (f : A → B) (xs : List A) → length (map f xs) ≡ length xs
length-map f [] = refl
length-map f (x ∷ xs) = ap suc (length-map f xs)

-- A round that puts a resource out has changed something.
one-is_empty :
    {A : Type 0} (changed : Bool) (xs : List A)
    → one (changed || not (is_empty xs)) ≤ one changed + length xs
unfolding is_empty
one-is_empty true xs = omega arith
one-is_empty false [] = omega arith
one-is_empty false (x ∷ xs) = omega arith

module _ {B E : Type 0} (c : Caller B E) (Valid : E → Type 0) (law : IsEngine c.target Valid) where
  retry-Goes :
      (tv : Bool) (s : Calling B E) (o : Option (Resource B))
      → s.tmp ≡ o
      → IsSteady c s
      → Valid s.engine
      → Goes c Valid law (weight s) (load s) (retry c tv s o)
  retry-Goes tv s none e h v = record { moved = unmoved c Valid law s h v; free = λ g. ap stored e }
  retry-Goes tv s (some r) e h v =
      if_split (Goes c Valid law (weight s) (load s)) (leb s.running c.max_requests)
        (submit c tv r s.inputs false s) (true, false, s)
        (λ t.
          start c Valid law (weight s) (load s) tv r s.inputs false s (omega (arith, ap stored e))
            (omega (arith, ap stored e)) (λ o. omega (arith, ap stored e))
            (omega (arith, ap stored e, h.bounded)) h v)
        (λ t. record {
          moved = unmoved c Valid law s h v;
          free = λ g. ground (arith, ap stored e, h.bounded);
        })

  -- One round of the loop, from a state that has moved and is free.
  one_input-Goes :
      (w l : ℕ) (tv : Bool) (src : Resource B) (ins : List (Resource B)) (changed : Bool)
      (s : Calling B E) (o : Option (Resource B))
      → s.inputs ≡ src ∷ ins
      → suc s.running ≤ c.max_requests
      → stored s.tmp ≡ 0
      → Moved c Valid law w l changed s
      → Goes c Valid law w l (one_input c tv src ins changed s o)
  one_input-Goes w l tv src ins changed s none i b f m = record {
    moved = record {
      weighs = omega (arith, m.weighs, ap length i);
      loads = omega (arith, m.loads, ap length i, f, length-append s.outputs (src ∷ []));
      exact = λ o. omega (arith, m.exact o, ap length i, f, length-append s.outputs (src ∷ []));
      steady = record {
        bounded = omega (arith, b);
        known = m.steady.known;
        all_known = m.steady.all_known;
      };
      valid = m.valid;
    };
    free = λ g. refl;
  }
  one_input-Goes w l tv src ins changed s (some r) i b f m =
      start c Valid law w l tv r ins changed s (omega (arith, m.weighs, ap length i))
        (omega (arith, m.loads, ap length i, f)) (λ o. omega (arith, m.exact o, ap length i, f)) b
        m.steady m.valid

  one_input-inputs :
      (tv : Bool) (src : Resource B) (ins : List (Resource B)) (changed : Bool) (s : Calling B E)
      (o : Option (Resource B))
      → (one_input c tv src ins changed s o).2.inputs ≡ ins
  unfolding submit
  one_input-inputs tv src ins changed s none = refl
  one_input-inputs tv src ins changed s (some r) =
      go (c.target.process_resource r (tv && s.running == 0) s.engine)
    where
      go : (a : Bool × E) → (submitted c r ins changed s a).2.inputs ≡ ins
      go (true, e) = refl
      go (false, e) = refl

  inputs_loop-Goes :
      (w l : ℕ) (tv : Bool) (ins : List (Resource B)) (p : Progress B E)
      → p.2.inputs ≡ ins
      → Goes c Valid law w l p
      → Goes c Valid law w l (inputs_loop c tv ins p)
  unfolding inputs_loop
  inputs_loop-Goes w l tv [] p i g = g
  inputs_loop-Goes w l tv (src ∷ ins) (go, changed, s) i g =
      if_split (Goes c Valid law w l) (go && ltb s.running c.max_requests)
        (inputs_loop c tv ins (one_input c tv src ins changed s (c.prepare src))) (go, changed, s)
        (λ t.
          inputs_loop-Goes w l tv ins (one_input c tv src ins changed s (c.prepare src))
            (one_input-inputs tv src ins changed s (c.prepare src))
            (one_input-Goes w l tv src ins changed s (c.prepare src) i (room go s t)
              (g.free (goes go s t)) g.moved))
        (λ t. g)
    where
      room :
          (go : Bool) (s : Calling B E)
          → (go && ltb s.running c.max_requests) ≡ true
          → suc s.running ≤ c.max_requests
      room true s t = ground arith
      room false s t = ground arith

      goes : (go : Bool) (s : Calling B E) → (go && ltb s.running c.max_requests) ≡ true → go ≡ true
      goes true s t = refl
      goes false s t = t

  -- The result of a round.
  abbrev pub Rounds : ℕ → ℕ → Option (Bool × Calling B E) → Type 0
  Rounds w l none = c.ordered ≡ false
  Rounds w l (some (changed, s)) = Moved c Valid law w l changed s

  collected-Rounds :
      (w l : ℕ) (changed : Bool) (s : Calling B E) (o : Option (List ℕ × List (Resource B) × E))
      → Moved c Valid law w l changed s
      → (o ≡ none → c.ordered ≡ false)
      → Answers Valid s.ids o
      → Rounds w l (collected c changed s o)
  collected-Rounds w l changed s none m n a = n refl
  collected-Rounds w l changed s (some (left, finished, e)) m n (count, v) = record {
    weighs = omega (arith, m.weighs, count, m.steady.known, one-is_empty changed finished);
    loads = omega (arith, m.loads, count, m.steady.known, outputs);
    exact = λ o. omega (arith, m.exact o, count, m.steady.all_known o, outputs);
    steady = record {
      bounded = omega (arith, m.steady.bounded, count, m.steady.known);
      known = omega arith;
      all_known = λ o. refl;
    };
    valid = v;
  }
    where
      outputs : length (s.outputs ++ map c.finish finished) ≡ length s.outputs + length finished
      outputs =
          length-append s.outputs (map c.finish finished)
          ∙ ap (λ n. length s.outputs + n) (length-map c.finish finished)

  ask-Answers :
      (tv : Bool) (s : Calling B E) (b : Bool)
      → c.ordered ≡ b
      → Valid s.engine
      → (ask c tv s ≡ none → c.ordered ≡ false) × Answers Valid s.ids (ask c tv s)
  ask-Answers tv s true e v = simp e (λ h. cc, law.answers tv s.ids s.engine v)
  ask-Answers tv s false e v = simp e (λ h. refl, law.answers_ordered tv s.ids s.engine v)

  collect-Rounds :
      (w l : ℕ) (tv changed : Bool) (s : Calling B E)
      → Moved c Valid law w l changed s
      → Rounds w l (collect c tv changed s)
  unfolding collect
  collect-Rounds w l tv changed s m =
      if_split (Rounds w l) (s.running == 0) (some (changed, s))
        (collected c changed s (ask c tv s)) (λ t. m)
        (λ t. collected-Rounds w l changed s (ask c tv s) m answers.0 answers.1)
    where
      answers : (ask c tv s ≡ none → c.ordered ≡ false) × Answers Valid s.ids (ask c tv s)
      answers = ask-Answers tv s c.ordered refl m.valid

  pub read_write-Rounds :
      (tv : Bool) (s : Calling B E)
      → IsSteady c s
      → Valid s.engine
      → Rounds (weight s) (load s) (read_write c tv s)
  unfolding read_write
  read_write-Rounds tv s h v =
      collect-Rounds (weight s) (load s) tv p.1 p.2
        (inputs_loop-Goes (weight s) (load s) tv first.2.inputs first refl
          (retry-Goes tv s s.tmp refl h v)).moved
    where
      first : Progress B E
      first = retry c tv s s.tmp

      p : Progress B E
      p = inputs_loop c tv first.2.inputs first
