-- ===== src/Common/Replace.antt =====
-- replace_all of lib/common.h.
use hector_core.Prelude.{
  ℕ, zero, suc, ◌<◌, Option, none, some, List, [], ◌∷◌, ◌++◌, ◌≡◌, refl, sym, ap, ◌∙◌, arith,
  if◌then◌else◌, ◌==◌, ◌&&◌, inl, inr, length, Bool-cases, Option-cases, append_assoc,
}

-- What is left of `s` behind `sub`, if `s` starts with it.
unfoldable pub strip_prefix : List ℕ → List ℕ → Option (List ℕ)
strip_prefix [] s = some s
strip_prefix (c ∷ sub) [] = none
strip_prefix (c ∷ sub) (x ∷ s) = if x == c then strip_prefix sub s else none

abbrev prepend : ℕ → Option (List ℕ × List ℕ) → Option (List ℕ × List ℕ)
prepend x none = none
prepend x (some (pre, post)) = some (x ∷ pre, post)

abbrev or_later : Option (List ℕ) → Option (List ℕ × List ℕ) → Option (List ℕ × List ℕ)
or_later (some post) later = some ([], post)
or_later none later = later

-- `std::string::find` from an offset: the first place of `sub` in the bytes behind the offset, given as
-- the bytes before it and those behind it; `none` is npos.
unfoldable pub find : List ℕ → List ℕ → Option (List ℕ × List ℕ)
unfolding strip_prefix
find sub [] = or_later (strip_prefix sub []) none
find sub (x ∷ s) = or_later (strip_prefix sub (x ∷ s)) (prepend x (find sub s))

-- The loop: `done` are the bytes before `offset`, `rest` those from it on. `none`: out of fuel.
unfoldable pub replace_loop : ℕ → List ℕ → List ℕ → List ℕ → List ℕ → Option (List ℕ)
replace_loop zero sub other done rest = none
replace_loop (suc fuel) sub other done rest = elim (find sub rest) [
  | none ↦ some (done ++ rest)
  | some (pre, post) ↦ replace_loop fuel sub other (done ++ (pre ++ other)) post
]

-- Each round takes at least a byte off the rest, if `sub` is not empty.
unfoldable pub replace_all : List ℕ → List ℕ → List ℕ → Option (List ℕ)
unfolding replace_loop
replace_all s sub other = replace_loop (suc (length s)) sub other [] s

-- A description of the result by the first place of `sub`, which `rep` has to meet.
pub record IsReplaced (sub other : List ℕ) (rep : List ℕ → List ℕ) : Type 0 where
  pub nowhere : (s : List ℕ) → find sub s ≡ none → rep s ≡ s
  pub first :
      (s pre post : List ℕ)
      → find sub s ≡ some (pre, post)
      → (rep s ≡ pre ++ (other ++ rep post)) × (length post < length s)

replace_loop-IsReplaced :
    (sub other : List ℕ) (rep : List ℕ → List ℕ)
    → IsReplaced sub other rep
    → (fuel : ℕ) (done rest : List ℕ) → length rest < fuel
    → replace_loop fuel sub other done rest ≡ some (done ++ rep rest)
unfolding replace_loop
replace_loop-IsReplaced sub other rep d zero done rest h = absurd (omega arith)
replace_loop-IsReplaced sub other rep d (suc fuel) done rest h =
    elim (Option-cases (find sub rest)) [
      | inl e ↦ rw (e, replace_loop) (ap (λ t. some (done ++ t)) (sym (d.nowhere rest e)))
      | inr ((pre, post), e) ↦
          let (f, l) = d.first rest pre post e in
          rw (e, replace_loop, f)
            (replace_loop-IsReplaced sub other rep d fuel (done ++ (pre ++ other)) post
                (omega arith)
              ∙ ap some (
                  append_assoc done (pre ++ other) (rep post)
                  ∙ ap (λ t. done ++ t) (append_assoc pre other (rep post))))
    ]

-- `replace_all` ends, and yields what such a description says.
pub replace_all-IsReplaced :
    (sub other s : List ℕ) (rep : List ℕ → List ℕ)
    → IsReplaced sub other rep
    → replace_all s sub other ≡ some (rep s)
unfolding replace_all
replace_all-IsReplaced sub other s rep d =
    replace_loop-IsReplaced sub other rep d (suc (length s)) [] s (omega arith)

-- A single byte, wherever it stands.
abbrev pub replace_byte : ℕ → List ℕ → List ℕ → List ℕ
replace_byte b other [] = []
replace_byte b other (x ∷ s) =
    if x == b then other ++ replace_byte b other s else x ∷ replace_byte b other s

module _ (b : ℕ) (other : List ℕ) where
  byte-nowhere : (s : List ℕ) → find (b ∷ []) s ≡ none → replace_byte b other s ≡ s
  unfolding find
  byte-nowhere [] e = refl
  byte-nowhere (x ∷ s) e = ground (arith, byte-nowhere s)

  byte-first :
      (s pre post : List ℕ)
      → find (b ∷ []) s ≡ some (pre, post)
      → (replace_byte b other s ≡ pre ++ (other ++ replace_byte b other post))
        × (length post < length s)
  unfolding find
  byte-first [] pre post e = cc
  byte-first (x ∷ s) [] post e = ground arith
  byte-first (x ∷ s) (y ∷ pre) post e = ground (arith, byte-first s pre post)

  pub replace_byte-IsReplaced : IsReplaced (b ∷ []) other (replace_byte b other)
  replace_byte-IsReplaced = record { nowhere = byte-nowhere; first = byte-first }

-- Two bytes one behind the other, wherever they stand.
abbrev pub replace_pair : ℕ → ℕ → List ℕ → List ℕ → List ℕ
replace_pair a b other [] = []
replace_pair a b other (x ∷ []) = x ∷ []
replace_pair a b other (x ∷ y ∷ s) =
    let hit = other ++ replace_pair a b other s in
    let miss = x ∷ replace_pair a b other (y ∷ s) in if x == a && y == b then hit else miss

find-cons :
    (sub : List ℕ) (x : ℕ) (s : List ℕ)
    → find sub (x ∷ s) ≡ or_later (strip_prefix sub (x ∷ s)) (prepend x (find sub s))
unfolding find
find-cons sub x s = refl

prepend-none : (x : ℕ) (o : Option (List ℕ × List ℕ)) → prepend x o ≡ none → o ≡ none
prepend-none x none e = refl
prepend-none x (some (pre, post)) e = cc

prepend-some :
    (x : ℕ) (o : Option (List ℕ × List ℕ)) (pre post : List ℕ)
    → prepend x o ≡ some (pre, post)
    → (pre' : List ℕ) × (o ≡ some (pre', post)) × (pre ≡ x ∷ pre')
prepend-some x none pre post e = cc
prepend-some x (some (pre', post')) pre post e = (pre', ground arith, ground arith)

pair-parts :
    (s pre post : List ℕ)
    → ◌≡◌ {A = Option (List ℕ × List ℕ)} (some ([], s)) (some (pre, post))
    → (pre ≡ []) × (post ≡ s)
pair-parts s pre post e = (ground arith, ground arith)

none-ne : {A : Type 0} {a : A} → some a ≡ none → ⊥
none-ne e = cc

module _ (a b : ℕ) (other : List ℕ) where
  strip-pair :
      (x y : ℕ) (s : List ℕ)
      → strip_prefix (a ∷ b ∷ []) (x ∷ y ∷ s) ≡ (if x == a && y == b then some s else none)
  unfolding strip_prefix
  strip-pair x y s = ground arith

  find-pair :
      (x y : ℕ) (s : List ℕ)
      → find (a ∷ b ∷ []) (x ∷ y ∷ s)
        ≡ (if x == a && y == b then some ([], s) else prepend x (find (a ∷ b ∷ []) (y ∷ s)))
  find-pair x y s = elim (Bool-cases (x == a && y == b)) [
    | inl h ↦ simp (find-cons, strip-pair, h)
    | inr h ↦ simp (find-cons (a ∷ b ∷ []) x (y ∷ s), strip-pair, h)
  ]

  find-empty : {pre post : List ℕ} → find (a ∷ b ∷ []) [] ≡ some (pre, post) → ⊥
  unfolding find
  find-empty e = cc

  find-short : (x : ℕ) {pre post : List ℕ} → find (a ∷ b ∷ []) (x ∷ []) ≡ some (pre, post) → ⊥
  unfolding find
  find-short x e = ground arith

  pair-cons :
      (x y : ℕ) (s : List ℕ)
      → replace_pair a b other (x ∷ y ∷ s) ≡ (
          if x == a && y == b
          then other ++ replace_pair a b other s
          else x ∷ replace_pair a b other (y ∷ s))
  pair-cons x y s = refl

  pair-nowhere : (s : List ℕ) → find (a ∷ b ∷ []) s ≡ none → replace_pair a b other s ≡ s
  pair-nowhere [] e = refl
  pair-nowhere (x ∷ []) e = refl
  pair-nowhere (x ∷ y ∷ s) e = elim (Bool-cases (x == a && y == b)) [
    | inl h ↦ absurd (none-ne (rw (find-pair, h) at e))
    | inr h ↦
        rw (pair-cons, h)
          (ap (λ t. x ∷ t) (pair-nowhere (y ∷ s) (prepend-none x _ (rw (find-pair, h) at e))))
  ]

  pair-first :
      (s pre post : List ℕ)
      → find (a ∷ b ∷ []) s ≡ some (pre, post)
      → (replace_pair a b other s ≡ pre ++ (other ++ replace_pair a b other post))
        × (length post < length s)
  pair-first [] pre post e = absurd (find-empty e)
  pair-first (x ∷ []) pre post e = absurd (find-short x e)
  pair-first (x ∷ y ∷ s) pre post e = elim (Bool-cases (x == a && y == b)) [
    | inl h ↦
        let (f, g) = pair-parts s pre post (rw (find-pair, h) at e) in
        rw (pair-cons, h, f, g) (refl, omega arith)
    | inr h ↦
        let (pre', f, g) = prepend-some x _ pre post (rw (find-pair, h) at e) in
        let (k, l) = pair-first (y ∷ s) pre' post f in
        rw (pair-cons, h, g) (ap (λ t. x ∷ t) k, omega arith)
  ]

  pub replace_pair-IsReplaced : IsReplaced (a ∷ b ∷ []) other (replace_pair a b other)
  replace_pair-IsReplaced = record { nowhere = pair-nowhere; first = pair-first }
