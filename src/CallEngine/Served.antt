-- ===== src/CallEngine/Served.antt =====
-- The engine of lib/processing_engine/ProcessingEngine.cc behind the calls of CallProcessingEngine.cc,
-- where no other thread collects.
use hector_core.Prelude.{
  ℕ, suc, ◌+◌, Bool, false, Option, none, some, List, [], ◌∷◌, map, length, ◌≡◌, refl, ap, arith,
  length-append, if_both, if◌then◌else◌,
}
use hector_core.Processor.{Resource}
use hector_core.Engine.Collect.{Collector, Batch, Collected, get_processed_resources_ordered}
use hector_core.Engine.Collect.Order.{IsKeyed, CallEnds, call-CallEnds}
use hector_core.Engine.Collect.Unordered.{get_processed_resources}
use hector_core.Engine.Collect.Unordered.Accounts.{total, put_out, Accounts}
use hector_core.Engine.Collect.Unordered.Whole.{get_processed_resources-Accounts}
use hector_core.CallEngine.{Target}
use hector_core.CallEngine.Steady.{Answers, IsEngine}

-- `has_input` and `has_output` say whether the engine has the queues. `accepts` says what `PutItem` of the input queue answers, `batches` what the output queue yields to
-- each call that collects. Behind their ends the input queue is full and the output queue is empty.
pub record Served (B : Type 0) : Type 0 where
  pub has_input : Bool
  pub has_output : Bool
  pub accepts : List Bool
  pub batches : List (List (Batch B))
  pub finished : List (ℕ × Resource B)

total-one : (ids : List ℕ) → total (λ k. 1) ids ≡ length ids
unfolding total
total-one [] = refl
total-one (id ∷ ids) = omega (arith, total-one ids)

abbrev first : {A : Type 0} → A → List A → A
first a [] = a
first a (x ∷ xs) = x

abbrev others : {A : Type 0} → List A → List A
others [] = []
others (x ∷ xs) = xs

module _ {B : Type 0} where
  unfoldable pub process_resource : Resource B → Bool → Served B → Bool × Served B
  process_resource r tv e =
      if e.has_input
      then (first false e.accepts, record e { accepts = others e.accepts })
      else (false, e)

  -- The vector of a call is empty at first.
  abbrev pub begin : Served B → Collector B
  begin e = record { finished = e.finished; output = [] }

  abbrev pub next : Collector B → Served B → Served B
  next s e = record e { batches = others e.batches; finished = s.finished }

  unfoldable pub get_processed : Bool → List ℕ → Served B → List ℕ × List (Resource B) × Served B
  get_processed wait ids e =
      let r = get_processed_resources e.has_output (first [] e.batches) wait ids (begin e) in
      (r.1, r.2.output, next r.2 e)

  abbrev pub answered : Served B → Collected B → Option (List ℕ × List (Resource B) × Served B)
  answered e none = none
  answered e (some (result, left, s)) = some (left, s.output, next s e)

  unfoldable pub get_processed_ordered :
      Bool → List ℕ → Served B → Option (List ℕ × List (Resource B) × Served B)
  get_processed_ordered wait ids e =
      answered e
        (get_processed_resources_ordered e.has_output (first [] e.batches) wait ids (begin e))

  abbrev pub served : Target B (Served B)
  served = record {
    process_resource = process_resource;
    get_processed = get_processed;
    get_processed_ordered = get_processed_ordered;
  }

  abbrev pub Keyed : Served B → Type 0
  Keyed e = IsKeyed e.finished

  put_out-one : (rs : List (Resource B)) → put_out (λ k. 1) rs ≡ length rs
  unfolding put_out
  put_out-one [] = refl
  put_out-one (r ∷ rs) = omega (arith, put_out-one rs)

  length-ids : (rs : List (Resource B)) → length (map (λ r. r.id) rs) ≡ length rs
  length-ids [] = refl
  length-ids (r ∷ rs) = ap suc (length-ids rs)

  get_processed-Answers :
      (wait : Bool) (ids : List ℕ) (e : Served B)
      → Keyed e
      → Answers Keyed ids (some (get_processed wait ids e))
  unfolding get_processed put_out
  get_processed-Answers wait ids e h =
      go (get_processed_resources-Accounts e.has_output (first [] e.batches) wait ids (begin e) h)
    where
      go :
          {rest : List ℕ} {s : Collector B}
          → Accounts ids (begin e) rest s
          → (length rest + length s.output ≡ length ids) × IsKeyed s.finished
      go {rest} {s} a = (
        omega (arith, a.balance (λ k. 1), put_out-one s.output, total-one rest, total-one ids),
        a.keyed,
      )

  answered-Answers :
      (wait : Bool) (ids : List ℕ) (e : Served B) (o : Collected B)
      → CallEnds e.has_output wait ids (begin e) o
      → Answers Keyed ids (answered e o)
  answered-Answers wait ids e none h = tt
  answered-Answers wait ids e (some (result, left, s)) (c, f, g) = (
    omega (
      arith,
      ap length c.in_order,
      length-append (map (λ r. r.id) c.new) left,
      length-ids c.new,
      ap length c.output,
    ),
    c.keyed,
  )

  get_processed_ordered-Answers :
      (wait : Bool) (ids : List ℕ) (e : Served B)
      → Keyed e
      → Answers Keyed ids (get_processed_ordered wait ids e)
  unfolding get_processed_ordered
  get_processed_ordered-Answers wait ids e h =
      answered-Answers wait ids e
        (get_processed_resources_ordered e.has_output (first [] e.batches) wait ids (begin e))
        (call-CallEnds e.has_output (first [] e.batches) wait ids (begin e) h)

  -- The engine fills the contract that CallProcessingEngine relies on: each of its collecting calls
  -- leaves an id or puts a resource out for it, and all its calls keep the resources that wait for
  -- consumption under their own ids.
  pub served-IsEngine : IsEngine served Keyed
  unfolding process_resource
  served-IsEngine = record {
    takes = λ r tv e h.
        if_both (λ (x : Bool × Served B). Keyed x.1) e.has_input
          (first false e.accepts, record e { accepts = others e.accepts }) (false, e) h h;
    answers = get_processed-Answers;
    answers_ordered = get_processed_ordered-Answers;
  }
