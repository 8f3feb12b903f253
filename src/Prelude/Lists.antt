-- ===== src/Prelude/Lists.antt =====
-- Lists measured and indexed by native numbers, under the library's names.
use Prim.Native.Nat.{ℕ, zero, suc, ◌+◌, ◌-◌}
use mathlib.Core.Path.{◌≡◌, refl, ap, subst}
use mathlib.Core.List.{List, [], ◌∷◌, ◌++◌, map}
use mathlib.Core.Option.{Option, none, some}
use native.Mathlib.Omega.{arith}

module _ {ℓ} {A : Type ℓ} where
  abbrev pub length : List A → ℕ
  length [] = 0
  length (x ∷ xs) = suc (length xs)

  abbrev pub get_elem? : List A → ℕ → Option A
  get_elem? [] i = none
  get_elem? (x ∷ xs) zero = some x
  get_elem? (x ∷ xs) (suc i) = get_elem? xs i

  -- A write out of bounds changes nothing.
  abbrev pub set : List A → ℕ → A → List A
  set [] i v = []
  set (x ∷ xs) zero v = v ∷ xs
  set (x ∷ xs) (suc i) v = x ∷ set xs i v

  abbrev pub take : ℕ → List A → List A
  take zero xs = []
  take (suc n) [] = []
  take (suc n) (x ∷ xs) = x ∷ take n xs

  abbrev pub drop : ℕ → List A → List A
  drop zero xs = xs
  drop (suc n) [] = []
  drop (suc n) (x ∷ xs) = drop n xs

  pub length-append : (xs ys : List A) → length (xs ++ ys) ≡ length xs + length ys
  length-append [] ys = omega arith
  length-append (x ∷ xs) ys = omega (arith, length-append xs ys)

  pub length-set : (xs : List A) (i : ℕ) (v : A) → length (set xs i v) ≡ length xs
  length-set [] i v = refl
  length-set (x ∷ xs) zero v = refl
  length-set (x ∷ xs) (suc i) v = ap suc (length-set xs i v)

  pub length-drop : (n : ℕ) (xs : List A) → length (drop n xs) ≡ length xs - n
  length-drop zero xs = omega arith
  length-drop (suc n) [] = omega arith
  length-drop (suc n) (x ∷ xs) = omega (arith, length-drop n xs)

-- A predicate that every element has.
abbrev pub All {ℓ κ} : {A : Type ℓ} → (A → Type κ) → List A → Type κ
All P [] = Unit
All P (x ∷ xs) = P x × All P xs

-- `All` under a write, and under a map.
pub All-set {ℓ κ} :
    {B : Type ℓ} (P : B → Type κ) (xs : List B) (i : ℕ) (v : B)
    → All P xs
    → P v
    → All P (set xs i v)
All-set P [] i v ps h = tt
All-set P (x ∷ xs) zero v ps h = (h, ps.1)
All-set P (x ∷ xs) (suc i) v ps h = (ps.0, All-set P xs i v ps.1 h)

pub All-map {ℓ κ} :
    {B : Type ℓ} (P Q : B → Type κ) (f : B → B) (xs : List B)
    → ((b : B) → P b → Q (f b))
    → All P xs
    → All Q (map f xs)
All-map P Q f [] h ps = tt
All-map P Q f (x ∷ xs) h ps = (h x ps.0, All-map P Q f xs h ps.1)

pub All-get {ℓ κ} :
    {B : Type ℓ} (P : B → Type κ) (xs : List B) (i : ℕ) (b : B)
    → All P xs
    → get_elem? xs i ≡ some b
    → P b
All-get P [] i b ps e = cc
All-get P (x ∷ xs) zero b ps e = subst P (cc) ps.0
All-get P (x ∷ xs) (suc i) b ps e = All-get P xs i b ps.1 e

-- The sum of a weight over a list.
abbrev pub sum {ℓ} : {A : Type ℓ} → (A → ℕ) → List A → ℕ
sum w [] = 0
sum w (x ∷ xs) = w x + sum w xs

module _ {ℓ} {A : Type ℓ} (w : A → ℕ) where
  pub sum-append : (xs ys : List A) → sum w (xs ++ ys) ≡ sum w xs + sum w ys
  sum-append [] ys = omega arith
  sum-append (x ∷ xs) ys = omega (arith, sum-append xs ys)

  -- What one write adds and takes away.
  pub sum-set :
      (xs : List A) (i : ℕ) (a b : A)
      → get_elem? xs i ≡ some a
      → sum w (set xs i b) + w a ≡ sum w xs + w b
  sum-set [] i a b e = ground arith
  sum-set (x ∷ xs) zero a b e = ground arith
  sum-set (x ∷ xs) (suc i) a b e = omega (arith, sum-set xs i a b e)
