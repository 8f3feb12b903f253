-- ===== src/Objects/Maps.antt =====
-- The unordered maps from strings that lib keeps its objects in, as association lists without order.
use hector_core.Prelude.{
  ℕ, Bool, true, false, ◌&&◌, Option, none, some, List, [], ◌∷◌, ◌≡◌, refl, sym, ap, ◌∙◌,
  if◌then◌else◌, ◌==◌, arith, inl, inr, Bool-cases,
}

-- Strings are the lists of their bytes.
unfoldable pub equal : List ℕ → List ℕ → Bool
equal [] [] = true
equal [] (y ∷ t) = false
equal (x ∷ s) [] = false
equal (x ∷ s) (y ∷ t) = x == y && equal s t

pub equal_refl : (s : List ℕ) → equal s s ≡ true
unfolding equal
equal_refl [] = refl
equal_refl (x ∷ s) = ground (arith, equal_refl s)

pub equal→eq : (s t : List ℕ) → equal s t ≡ true → s ≡ t
unfolding equal
equal→eq [] [] e = refl
equal→eq [] (y ∷ t) e = cc
equal→eq (x ∷ s) [] e = cc
equal→eq (x ∷ s) (y ∷ t) e = ground (arith, equal→eq s t)

-- Equal strings are equal to the same strings.
equal-same : (x k k' : List ℕ) → equal x k ≡ true → equal x k' ≡ equal k k'
equal-same x k k' e = ap (λ s. equal s k') (equal→eq x k e)

equal-other : (x k k' : List ℕ) → equal x k ≡ false → equal k k' ≡ true → equal x k' ≡ false
equal-other x k k' e f = ap (equal x) (sym (equal→eq k k' f)) ∙ e

module _ {V : Type 0} where
  abbrev pub lookup : List ℕ → List (List ℕ × V) → Option V
  lookup k [] = none
  lookup k ((x, v) ∷ m) = if equal x k then some v else lookup k m

  -- `m[k] = v`.
  abbrev pub insert : List ℕ → V → List (List ℕ × V) → List (List ℕ × V)
  insert k v [] = (k, v) ∷ []
  insert k v ((x, w) ∷ m) = if equal x k then (k, v) ∷ m else (x, w) ∷ insert k v m

  abbrev pub erase : List ℕ → List (List ℕ × V) → List (List ℕ × V)
  erase k [] = []
  erase k ((x, w) ∷ m) = if equal x k then erase k m else (x, w) ∷ erase k m

  abbrev pub keys : List (List ℕ × V) → List (List ℕ)
  keys [] = []
  keys ((x, w) ∷ m) = x ∷ keys m

  pub lookup-insert :
      (k k' : List ℕ) (v : V) (m : List (List ℕ × V))
      → lookup k' (insert k v m) ≡ (if equal k k' then some v else lookup k' m)
  lookup-insert k k' v [] = refl
  lookup-insert k k' v ((x, w) ∷ m) = elim (Bool-cases (equal x k)) [
    | inl e ↦ ground (arith, equal-same x k k' e)
    | inr e ↦ ground (arith, lookup-insert k k' v m, equal-other x k k' e)
  ]

  pub lookup-insert_same :
      (k : List ℕ) (v : V) (m : List (List ℕ × V)) → lookup k (insert k v m) ≡ some v
  lookup-insert_same k v m =
      lookup-insert k k v m ∙ ap (λ b. if b then some v else lookup k m) (equal_refl k)

  pub lookup-insert_other :
      (k k' : List ℕ) (v : V) (m : List (List ℕ × V))
      → equal k k' ≡ false
      → lookup k' (insert k v m) ≡ lookup k' m
  lookup-insert_other k k' v m e =
      lookup-insert k k' v m ∙ ap (λ b. if b then some v else lookup k' m) e

  pub lookup-erase :
      (k k' : List ℕ) (m : List (List ℕ × V))
      → lookup k' (erase k m) ≡ (if equal k k' then none else lookup k' m)
  lookup-erase k k' [] = ground arith
  lookup-erase k k' ((x, w) ∷ m) = elim (Bool-cases (equal x k)) [
    | inl e ↦ ground (arith, lookup-erase k k' m, equal-same x k k' e)
    | inr e ↦ ground (arith, lookup-erase k k' m, equal-other x k k' e)
  ]
