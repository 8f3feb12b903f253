-- ===== src/CallEngine/Steady.antt =====
-- What one `ReadWrite` of lib/processing_engine/CallProcessingEngine.cc does with the resources it holds.
use hector_core.Prelude.{
  ℕ, suc, ◌+◌, ◌*◌, ◌≤◌, Bool, true, false, Option, none, some, List, [], ◌∷◌, length, ◌==◌, ◌&&◌,
  ◌≡◌, refl, arith, length-append, if_split,
}
use hector_core.Processor.{Resource}
use hector_core.Engine.Collect.Unordered.{has_id}
use hector_core.CallEngine.{Target, Caller, Calling, add_id, stored, Progress, submitted, submit}

add_id-length : (o : Bool) (k : ℕ) (ids : List ℕ) → length (add_id o k ids) ≤ suc (length ids)
unfolding add_id
add_id-length true k ids =
    if_split (λ l. length l ≤ suc (length ids)) (has_id k ids) ids (k ∷ ids) (λ e. omega arith)
      (λ e. omega arith)
add_id-length false k ids = omega (arith, length-append ids (k ∷ []))

add_id-length_vector :
    (o : Bool) (k : ℕ) (ids : List ℕ) → o ≡ false → length (add_id o k ids) ≡ suc (length ids)
unfolding add_id
add_id-length_vector true k ids e = ground arith
add_id-length_vector false k ids e = omega (arith, length-append ids (k ∷ []))

abbrev pub one : Bool → ℕ
one true = 1
one false = 0

module _ {B E : Type 0} where
  -- The number of resources in the two queues, in the object and in the engine.
  abbrev pub load : Calling B E → ℕ
  load s = length s.inputs + stored s.tmp + s.running + length s.outputs

  -- What a round with `changed` uses up.
  abbrev pub weight : Calling B E → ℕ
  weight s = 3 * length s.inputs + 2 * stored s.tmp + s.running

  -- The object asks for no more than it said, and counts the ids.
  pub record IsSteady (c : Caller B E) (s : Calling B E) : Type 0 where
    pub bounded : stored s.tmp + s.running ≤ c.max_requests
    pub known : length s.ids ≤ s.running
    pub all_known : c.ordered ≡ false → length s.ids ≡ s.running

  -- The call of a collecting operation leaves an id or puts a resource out for it, and keeps `Valid`.
  abbrev pub Answers : (E → Type 0) → List ℕ → Option (List ℕ × List (Resource B) × E) → Type 0
  Answers Valid ids none = Unit {0}
  Answers Valid ids (some (left, finished, e)) =
      (length left + length finished ≡ length ids) × Valid e

  -- The contract of the engine.
  pub record IsEngine (t : Target B E) (Valid : E → Type 0) : Type 0 where
    pub takes : (r : Resource B) (tv : Bool) (e : E) → Valid e → Valid (t.process_resource r tv e).1
    pub answers :
        (tv : Bool) (ids : List ℕ) (e : E)
        → Valid e
        → Answers Valid ids (some (t.get_processed tv ids e))
    pub answers_ordered :
        (tv : Bool) (ids : List ℕ) (e : E)
        → Valid e
        → Answers Valid ids (t.get_processed_ordered tv ids e)

module _ {B E : Type 0} (c : Caller B E) (Valid : E → Type 0) (law : IsEngine c.target Valid) where
  -- From a state of the weight `w` and the load `l` to `s`, with `changed`.
  pub record Moved (w l : ℕ) (changed : Bool) (s : Calling B E) : Type 0 where
    pub weighs : weight s + one changed ≤ w
    pub loads : load s ≤ l
    pub exact : c.ordered ≡ false → load s ≡ l
    pub steady : IsSteady c s
    pub valid : Valid s.engine

  -- Where `processInput` is set and there is room, no resource is stored.
  pub record Goes (w l : ℕ) (p : Progress B E) : Type 0 where
    pub moved : Moved w l p.1 p.2
    pub free : p.0 ≡ true → stored p.2.tmp ≡ 0

  submitted-Goes :
      (w l : ℕ) (r : Resource B) (ins : List (Resource B)) (changed : Bool) (s : Calling B E)
      (a : Bool × E)
      → 3 * length ins + 2 + s.running + one changed ≤ w
      → length ins + 1 + s.running + length s.outputs ≤ l
      → (c.ordered ≡ false → length ins + 1 + s.running + length s.outputs ≡ l)
      → suc s.running ≤ c.max_requests
      → length s.ids ≤ s.running
      → (c.ordered ≡ false → length s.ids ≡ s.running)
      → Valid a.1
      → Goes w l (submitted c r ins changed s a)
  submitted-Goes w l r ins changed s (true, e) hw hl hx hb hk ha hv = record {
    moved = record {
      weighs = omega (arith, hw);
      loads = omega (arith, hl);
      exact = λ o. omega (arith, hx o);
      steady = record {
        bounded = omega (arith, hb);
        known = omega (arith, hk, add_id-length c.ordered r.id s.ids);
        all_known = λ o. omega (arith, ha o, add_id-length_vector c.ordered r.id s.ids o);
      };
      valid = hv;
    };
    free = λ g. refl;
  }
  submitted-Goes w l r ins changed s (false, e) hw hl hx hb hk ha hv = record {
    moved = record {
      weighs = omega (arith, hw);
      loads = omega (arith, hl);
      exact = λ o. omega (arith, hx o);
      steady = record { bounded = omega (arith, hb); known = hk; all_known = ha };
      valid = hv;
    };
    free = λ g. ground arith;
  }

  pub start :
      (w l : ℕ) (tv : Bool) (r : Resource B) (ins : List (Resource B)) (changed : Bool)
      (s : Calling B E)
      → 3 * length ins + 2 + s.running + one changed ≤ w
      → length ins + 1 + s.running + length s.outputs ≤ l
      → (c.ordered ≡ false → length ins + 1 + s.running + length s.outputs ≡ l)
      → suc s.running ≤ c.max_requests
      → IsSteady c s
      → Valid s.engine
      → Goes w l (submit c tv r ins changed s)
  unfolding submit
  start w l tv r ins changed s hw hl hx hb h v =
      submitted-Goes w l r ins changed s
        (c.target.process_resource r (tv && s.running == 0) s.engine) hw hl hx hb h.known
        h.all_known (law.takes r (tv && s.running == 0) s.engine v)

  -- A steady state has not moved.
  pub unmoved :
      (s : Calling B E) → IsSteady c s → Valid s.engine → Moved (weight s) (load s) false s
  unmoved s h v = record {
    weighs = omega arith;
    loads = omega arith;
    exact = λ o. refl;
    steady = h;
    valid = v;
  }
