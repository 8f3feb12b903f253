-- ===== src/Common/Split.antt =====
-- split and join of lib/common.cc.
use hector_core.Prelude.{
  ℕ, Bool, true, false, List, [], ◌∷◌, ◌++◌, ◌≡◌, ◌≢◌, refl, sym, ap, ◌∙◌, arith, if◌then◌else◌,
  ◌==◌, ◌⊎◌, inl, inr, All, Bool-cases, append-nil, append_assoc, ==_iff, ap₂,
}

abbrev push_rest : List ℕ → List (List ℕ)
push_rest [] = []
push_rest (c ∷ piece) = (c ∷ piece) ∷ []

-- The loop over the bytes that are left; `piece` holds those from `b` up to here.
unfoldable pub split_loop : ℕ → List ℕ → List ℕ → List (List ℕ)
split_loop sep [] piece = push_rest piece
split_loop sep (c ∷ s) piece =
    let done = piece ∷ split_loop sep s [] in
    let more = split_loop sep s (piece ++ c ∷ []) in if c == sep then done else more

unfoldable pub split : ℕ → List ℕ → List (List ℕ)
unfolding split_loop
split sep s = split_loop sep s []

unfoldable pub join_loop : List ℕ → Bool → List (List ℕ) → List ℕ → List ℕ
join_loop glue first [] result = result
join_loop glue first (x ∷ xs) result =
    join_loop glue false xs ((if first then result else result ++ glue) ++ x)

-- Both overloads of `join`: the one for a `char` has a glue of one byte.
unfoldable pub join : List ℕ → List (List ℕ) → List ℕ
unfolding join_loop
join glue xs = join_loop glue true xs []

glued : List ℕ → List (List ℕ) → List ℕ
glued glue [] = []
glued glue (x ∷ xs) = glue ++ (x ++ glued glue xs)

join_loop-glued :
    (glue : List ℕ) (xs : List (List ℕ)) (result : List ℕ)
    → join_loop glue false xs result ≡ result ++ glued glue xs
unfolding join_loop glued
join_loop-glued glue [] result = rw append-nil
join_loop-glued glue (x ∷ xs) result =
    join_loop-glued glue xs ((result ++ glue) ++ x) ∙ simp append_assoc

join-cons : (glue x : List ℕ) (xs : List (List ℕ)) → join glue (x ∷ xs) ≡ x ++ glued glue xs
unfolding join
join-cons glue x xs = join_loop-glued glue xs x

join-cons-cons :
    (glue x y : List ℕ) (xs : List (List ℕ))
    → join glue (x ∷ y ∷ xs) ≡ x ++ (glue ++ join glue (y ∷ xs))
unfolding glued
join-cons-cons glue x y xs =
    join-cons glue x (y ∷ xs) ∙ ap (λ t. x ++ (glue ++ t)) (sym (join-cons glue y xs))

split_loop-cons :
    (sep c : ℕ) (s piece : List ℕ)
    → split_loop sep (c ∷ s) piece
      ≡ (if c == sep then piece ∷ split_loop sep s [] else split_loop sep s (piece ++ c ∷ []))
unfolding split_loop
split_loop-cons sep c s piece = refl

-- The loop yields a piece, unless it has no byte in hand and none left.
split_loop-ne :
    (sep : ℕ) (s piece : List ℕ)
    → ((s ≡ []) × (piece ≡ []))
      ⊎ ((x : List ℕ) × (xs : List (List ℕ)) × (split_loop sep s piece ≡ x ∷ xs))
unfolding split_loop
split_loop-ne sep [] [] = inl (refl, refl)
split_loop-ne sep [] (c ∷ piece) = inr (c ∷ piece, [], refl)
split_loop-ne sep (c ∷ s) piece = elim (Bool-cases (c == sep)) [
  | inl h ↦ inr (piece, split_loop sep s [], rw h)
  | inr h ↦ elim (split_loop-ne sep s (piece ++ c ∷ [])) [
    | inl (e, f) ↦ absurd (ground (arith, append-ne piece c f))
    | inr (x, xs, e) ↦ inr (x, xs, rw h e)
  ]
]
  where
    append-ne : (p : List ℕ) (d : ℕ) → p ++ d ∷ [] ≡ [] → ⊥
    append-ne [] d e = cc
    append-ne (x ∷ p) d e = cc

-- Whether the last byte is the separator.
abbrev pub ends_in : ℕ → List ℕ → Bool
ends_in sep [] = false
ends_in sep (c ∷ []) = c == sep
ends_in sep (c ∷ d ∷ s) = ends_in sep (d ∷ s)

abbrev pub trailing : ℕ → List ℕ → List ℕ
trailing sep s = if ends_in sep s then sep ∷ [] else []

join-push_rest : (glue piece : List ℕ) → join glue (push_rest piece) ≡ piece
unfolding join
join-push_rest glue [] = refl
join-push_rest glue (c ∷ piece) = refl

split_loop-nil : (sep : ℕ) (piece : List ℕ) → split_loop sep [] piece ≡ push_rest piece
unfolding split_loop
split_loop-nil sep piece = refl

join-nil : (glue : List ℕ) → join glue [] ≡ []
unfolding join
join-nil glue = refl

join-single : (glue x : List ℕ) → join glue (x ∷ []) ≡ x
unfolding join
join-single glue x = refl

-- A piece before those of a string that is not empty.
join-split-cons :
    (sep d : ℕ) (s piece : List ℕ)
    → join (sep ∷ []) (piece ∷ split_loop sep (d ∷ s) [])
      ≡ piece ++ (sep ∷ join (sep ∷ []) (split_loop sep (d ∷ s) []))
join-split-cons sep d s piece = elim (split_loop-ne sep (d ∷ s) []) [
  | inl (e, _) ↦ absurd (ground arith)
  | inr (x, xs, e) ↦ rw e (join-cons-cons (sep ∷ []) piece x xs)
]

join-split_loop :
    (sep : ℕ) (s piece : List ℕ)
    → join (sep ∷ []) (split_loop sep s piece) ++ trailing sep s ≡ piece ++ s
join-split_loop sep [] piece = simp (split_loop-nil, append-nil, join-push_rest)
join-split_loop sep (c ∷ []) piece = elim (Bool-cases (c == sep)) [
  | inl h ↦
      let e : c ≡ sep = (==_iff c sep).0 h in
      simp (split_loop-cons, h, split_loop-nil, join-single) (ap (λ k. piece ++ k ∷ []) (sym e))
  | inr h ↦ simp (split_loop-cons, h, split_loop-nil, join-push_rest, append-nil)
]
join-split_loop sep (c ∷ d ∷ s) piece = elim (Bool-cases (c == sep)) [
  | inl h ↦
      let e : c ≡ sep = (==_iff c sep).0 h in
      rw (split_loop-cons, h, join-split-cons)
        (append_assoc piece (sep ∷ join (sep ∷ []) (split_loop sep (d ∷ s) []))
            (trailing sep (d ∷ s))
          ∙ ap₂ (λ k t. piece ++ k ∷ t) (sym e) (join-split_loop sep (d ∷ s) []))
  | inr h ↦
      rw (split_loop-cons, h)
        (join-split_loop sep (d ∷ s) (piece ++ c ∷ []) ∙ append_assoc piece (c ∷ []) (d ∷ s))
]

-- `join` on what `split` yields gives back the string, but for a separator at its very end, which
-- `split` drops.
pub join-split : (sep : ℕ) (s : List ℕ) → join (sep ∷ []) (split sep s) ++ trailing sep s ≡ s
unfolding split
join-split sep s = join-split_loop sep s []

-- No byte is the separator.
abbrev pub Without : ℕ → List ℕ → Type 0
Without sep = All (λ c. (c == sep) ≡ false)

-- The last of the pieces is not empty.
abbrev pub LastNonEmpty : List (List ℕ) → Type 0
LastNonEmpty [] = Unit {0}
LastNonEmpty (x ∷ []) = x ≢ []
LastNonEmpty (x ∷ y ∷ xs) = LastNonEmpty (y ∷ xs)

split_loop-Without :
    (sep : ℕ) (x rest piece : List ℕ)
    → Without sep x
    → split_loop sep (x ++ rest) piece ≡ split_loop sep rest (piece ++ x)
split_loop-Without sep [] rest piece w = rw append-nil
split_loop-Without sep (c ∷ x) rest piece (h, w) =
    rw (split_loop-cons, h)
      (split_loop-Without sep x rest (piece ++ c ∷ []) w
        ∙ ap (split_loop sep rest) (append_assoc piece (c ∷ []) x))

push_rest-ne : (x : List ℕ) → x ≢ [] → push_rest x ≡ x ∷ []
push_rest-ne [] n = absurd (n refl)
push_rest-ne (c ∷ x) n = refl

-- `split` on what `join` yields gives back the pieces, if no piece holds the separator and the last
-- is not empty.
pub split-join :
    (sep : ℕ) (xs : List (List ℕ))
    → All (Without sep) xs
    → LastNonEmpty xs
    → split sep (join (sep ∷ []) xs) ≡ xs
unfolding split
split-join sep [] w n = ap (λ t. split_loop sep t []) (join-nil (sep ∷ [])) ∙ split_loop-nil sep []
split-join sep (x ∷ []) (h, _) n =
    ap (λ t. split_loop sep t []) (join-single (sep ∷ []) x ∙ sym (append-nil x))
    ∙ split_loop-Without sep x [] [] h
    ∙ split_loop-nil sep x
    ∙ push_rest-ne x n
split-join sep (x ∷ y ∷ xs) (h, w) n =
    ap (λ t. split_loop sep t []) (join-cons-cons (sep ∷ []) x y xs)
    ∙ split_loop-Without sep x (sep ∷ join (sep ∷ []) (y ∷ xs)) [] h
    ∙ rw (split_loop-cons, (==_iff sep sep).1 refl) (ap (λ l. x ∷ l) (split-join sep (y ∷ xs) w n))
