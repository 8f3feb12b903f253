-- ===== src/Common/Trim.antt =====
-- skipWs and chomp of lib/common.cc.
use hector_core.Prelude.{
  ℕ, suc, Bool, true, false, ◌||◌, Option, none, some, List, [], ◌∷◌, ◌++◌, ◌≡◌, refl, sym, ap,
  arith, if◌then◌else◌, ◌==◌, ◌⊎◌, inl, inr, All, take, drop, Option-cases, Bool-cases,
}

-- The set " \t\n\r".
unfoldable pub is_ws : ℕ → Bool
is_ws c = c == b' ' || c == 9 || c == 10 || c == 13

-- `find_first_not_of` and `find_last_not_of` of the standard library; `none` is npos.
abbrev shift : Option ℕ → Option ℕ
shift none = none
shift (some i) = some (suc i)

unfoldable pub find_first_not_ws : List ℕ → Option ℕ
unfolding is_ws
find_first_not_ws [] = none
find_first_not_ws (c ∷ s) = if is_ws c then shift (find_first_not_ws s) else some 0

abbrev last_or : ℕ → Option ℕ → Option ℕ
last_or c none = if is_ws c then none else some 0
last_or c (some i) = some (suc i)

unfoldable pub find_last_not_ws : List ℕ → Option ℕ
unfolding is_ws
find_last_not_ws [] = none
find_last_not_ws (c ∷ s) = last_or c (find_last_not_ws s)

abbrev drop_at : Option ℕ → List ℕ → List ℕ
drop_at none s = []
drop_at (some i) s = drop i s

unfoldable pub skip_ws : List ℕ → List ℕ
unfolding find_first_not_ws
skip_ws s = drop_at (find_first_not_ws s) s

abbrev take_to : Option ℕ → List ℕ → List ℕ
take_to none s = []
take_to (some i) s = take (suc i) s

unfoldable pub chomp : List ℕ → List ℕ
unfolding find_last_not_ws
chomp s = take_to (find_last_not_ws s) s

abbrev pub IsWs : ℕ → Type 0
IsWs c = is_ws c ≡ true

-- Neither end is white space.
abbrev pub StartsClean : List ℕ → Type 0
StartsClean [] = Unit
StartsClean (c ∷ s) = is_ws c ≡ false

abbrev pub EndsClean : List ℕ → Type 0
EndsClean [] = Unit
EndsClean (c ∷ []) = is_ws c ≡ false
EndsClean (c ∷ d ∷ s) = EndsClean (d ∷ s)

skip_ws-nil : skip_ws [] ≡ []
unfolding skip_ws
skip_ws-nil = refl

chomp-nil : chomp [] ≡ []
unfolding chomp
chomp-nil = refl

skip_ws-cons : (c : ℕ) (s : List ℕ) → skip_ws (c ∷ s) ≡ (if is_ws c then skip_ws s else c ∷ s)
unfolding skip_ws
skip_ws-cons c s = elim (Option-cases (find_first_not_ws s)) [
  | inl e ↦ ground arith
  | inr (i, e) ↦ ground arith
]

-- `skipWs` takes off white space at the front, all of it and nothing else.
pub skip_ws_lem :
    (s : List ℕ) → (w : List ℕ) × (s ≡ w ++ skip_ws s) × All IsWs w × StartsClean (skip_ws s)
skip_ws_lem [] = ([], sym skip_ws-nil, tt, rw skip_ws-nil tt)
skip_ws_lem (c ∷ s) =
    let (w, e, a, b) = skip_ws_lem s in
    elim (Bool-cases (is_ws c)) [
      | inl h ↦
          (c ∷ w, simp (skip_ws-cons, h) (ap (λ t. c ∷ t) e), (h, a), simp (skip_ws-cons, h) b)
      | inr h ↦ ([], simp (skip_ws-cons, h), tt, simp (skip_ws-cons, h))
    ]

last_not_ws :
    (s : List ℕ)
    → ((find_last_not_ws s ≡ none) × (chomp s ≡ []))
      ⊎ ((i : ℕ) × (c : ℕ) × (t : List ℕ) × (find_last_not_ws s ≡ some i) × (chomp s ≡ c ∷ t))
unfolding chomp
last_not_ws [] = inl (refl, refl)
last_not_ws (c ∷ s) = elim (Option-cases (find_last_not_ws (c ∷ s))) [
  | inl e ↦ inl (e, rw (e, take_to))
  | inr (i, e) ↦ inr (i, c, take i s, e, rw (e, take_to))
]

chomp-cons :
    (c : ℕ) (s : List ℕ)
    → ((chomp s ≡ []) × (chomp (c ∷ s) ≡ (if is_ws c then [] else c ∷ [])))
      ⊎ ((d : ℕ) × (t : List ℕ) × (chomp s ≡ d ∷ t) × (chomp (c ∷ s) ≡ c ∷ chomp s))
unfolding chomp
chomp-cons c s = elim (last_not_ws s) [
  | inl (e, h) ↦ inl (h, ground arith)
  | inr (i, d, t, e, h) ↦ inr (d, t, h, ground arith)
]

-- `chomp` takes off white space at the end, all of it and nothing else.
pub chomp_lem : (s : List ℕ) → (w : List ℕ) × (s ≡ chomp s ++ w) × All IsWs w × EndsClean (chomp s)
chomp_lem [] = ([], rw chomp-nil, tt, rw chomp-nil tt)
chomp_lem (c ∷ s) =
    let (w, e, a, b) = chomp_lem s in
    elim (chomp-cons c s) [
      | inr (d, t, h, k) ↦ (w, rw k (ap (λ u. c ∷ u) e), a, rw (k, h) (rw h at b))
      | inl (h, k) ↦ elim (Bool-cases (is_ws c)) [
        | inl y ↦ (c ∷ w, simp (k, y) (ap (λ u. c ∷ u) (rw h at e)), (y, a), simp (k, y) tt)
        | inr n ↦ (w, simp (k, n) (ap (λ u. c ∷ u) (rw h at e)), a, simp (k, n))
      ]
    ]
