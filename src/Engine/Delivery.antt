-- ===== src/Engine/Delivery.antt =====
-- How the reports that CheckSleeping of lib/processing_engine/ProcessingEngine.cc and UpdateSleeping of
-- lib/processing_engine/Processor.cc decide on reach the server and the engine: each thread makes its call
-- when it has given up the lock, so that calls of several threads may come in another order.
use hector_core.Prelude.{
  ℕ, zero, suc, ◌+◌, Option, none, some, List, [], ◌∷◌, ◌++◌, ◌≡◌, refl, get_elem?, sum, sum-append,
  arith,
}

pub data Event (X : Type 0) : Type 0 where
  section : X → Event X
  tells : ℕ → Event X

-- `pending` are the calls that threads are about to make, `told` those that were made, in their order.
pub record Delivery (S R : Type 0) : Type 0 where
  pub state : S
  pub pending : List R
  pub told : List R

unfoldable pub remove : {R : Type 0} → ℕ → List R → List R
remove i [] = []
remove zero (x ∷ xs) = xs
remove (suc i) (x ∷ xs) = x ∷ remove i xs

abbrev pub tell : {S R : Type 0} → ℕ → Delivery S R → Option R → Delivery S R
tell i d none = d
tell i d (some x) = record d { pending = remove i d.pending; told = d.told ++ x ∷ [] }

abbrev pub nothing_told : {S R : Type 0} → S → Delivery S R
nothing_told s = record { state = s; pending = []; told = [] }

module _ {X S R : Type 0} (step : X → S → S × List R) where
  unfoldable pub act : Event X → Delivery S R → Delivery S R
  act (section x) d = record d {
    state = (step x d.state).0;
    pending = d.pending ++ (step x d.state).1;
  }
  act (tells i) d = tell i d (get_elem? d.pending i)

  unfoldable pub act_all : List (Event X) → Delivery S R → Delivery S R
  act_all [] d = d
  act_all (e ∷ es) d = act_all es (act e d)

sum-remove :
    {R : Type 0} (w : R → ℕ) (i : ℕ) (x : R) (xs : List R)
    → get_elem? xs i ≡ some x
    → sum w (remove i xs) + w x ≡ sum w xs
unfolding remove
sum-remove w i x [] e = ground (arith, e)
sum-remove w zero x (y ∷ xs) e = ground (arith, e)
sum-remove w (suc i) x (y ∷ xs) e = omega (arith, sum-remove w i x xs e)

module _ {X S R : Type 0} (step : X → S → S × List R) (up down : R → ℕ) (asleep : S → ℕ)
    (balance : (x : X) (s : S)
      → sum up (step x s).1 + asleep s ≡ sum down (step x s).1 + asleep (step x s).0) where
  -- What was told or is pending goes up once more than down while the state is asleep.
  abbrev pub IsBalanced : Delivery S R → Type 0
  IsBalanced d =
      sum up d.told + sum up d.pending ≡ sum down d.told + sum down d.pending + asleep d.state

  tell-IsBalanced :
      (i : ℕ) (d : Delivery S R) (o : Option R)
      → get_elem? d.pending i ≡ o
      → IsBalanced d
      → IsBalanced (tell i d o)
  tell-IsBalanced i d none e h = h
  tell-IsBalanced i d (some x) e h = omega (
    arith,
    h,
    sum-remove up i x d.pending e,
    sum-remove down i x d.pending e,
    sum-append up d.told (x ∷ []),
    sum-append down d.told (x ∷ []),
  )

  act-IsBalanced : (e : Event X) (d : Delivery S R) → IsBalanced d → IsBalanced (act step e d)
  unfolding act
  act-IsBalanced (section x) d h = omega (
    arith,
    h,
    balance x d.state,
    sum-append up d.pending (step x d.state).1,
    sum-append down d.pending (step x d.state).1,
  )
  act-IsBalanced (tells i) d h = tell-IsBalanced i d (get_elem? d.pending i) refl h

  pub act_all-IsBalanced :
      (es : List (Event X)) (d : Delivery S R) → IsBalanced d → IsBalanced (act_all step es d)
  unfolding act_all
  act_all-IsBalanced [] d h = h
  act_all-IsBalanced (e ∷ es) d h = act_all-IsBalanced es (act step e d) (act-IsBalanced e d h)
