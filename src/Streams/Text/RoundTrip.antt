-- ===== src/Streams/Text/RoundTrip.antt =====
-- What ReadString of lib/processing_engine/ResourceInputStreamText.h makes of the lines that WriteString
-- of lib/processing_engine/ResourceOutputStreamText.h writes.
use hector_core.Prelude.{
  ◌>>=◌, ℕ, Bool, true, false, Option, some, List, [], ◌∷◌, ◌++◌, ◌≡◌, ◌≢◌, ◌↔◌, refl, sym, ap, ◌∙◌,
  arith, if◌then◌else◌, ◌==◌, ◌&&◌, ◌||◌, inl, inr, Bool-cases, append-nil, append_assoc, ==_iff,
  subst,
}
use hector_core.Common.Replace.{
  replace_byte, replace_pair, replace_all-IsReplaced, replace_byte-IsReplaced,
  replace_pair-IsReplaced,
}
use hector_core.Streams.Text.{write_string, read_string, getline, backslash, newline, letter_n}

-- A string with each `n` that follows a backslash replaced by a newline.
abbrev pub damage : List ℕ → List ℕ
damage [] = []
damage (c ∷ []) = c ∷ []
damage (c ∷ d ∷ s) =
    let hit = c ∷ newline ∷ damage s in
    let miss = c ∷ damage (d ∷ s) in if c == backslash && d == letter_n then hit else miss

-- The line that `WriteString` writes, in one pass.
escape : List ℕ → List ℕ
escape [] = []
escape (c ∷ s) =
    if c == backslash
    then backslash ∷ backslash ∷ escape s
    else if c == newline
    then backslash ∷ letter_n ∷ escape s
    else c ∷ escape s

escape_lem :
    (s : List ℕ)
    → replace_byte newline
        (backslash ∷ letter_n ∷ [])
        (replace_byte backslash (backslash ∷ backslash ∷ []) s)
      ≡ escape s
unfolding escape
escape_lem [] = refl
escape_lem (c ∷ s) = ground (arith, escape_lem s)

write_string-escape : (s : List ℕ) → write_string s ≡ some (escape s ++ newline ∷ [])
unfolding write_string
write_string-escape s =
    rw
      (
        replace_all-IsReplaced (backslash ∷ []) (backslash ∷ backslash ∷ []) s _
            (replace_byte-IsReplaced backslash (backslash ∷ backslash ∷ [])),
        replace_all-IsReplaced (newline ∷ []) (backslash ∷ letter_n ∷ []) _ _
            (replace_byte-IsReplaced newline (backslash ∷ letter_n ∷ [])),
        escape_lem s,
      )
      refl

getline-escape : (s rest : List ℕ) → getline (escape s ++ newline ∷ rest) ≡ (escape s, rest)
unfolding getline escape
getline-escape [] rest = refl
getline-escape (c ∷ s) rest = ground (arith, getline-escape s rest)

-- The two replacements of `ReadString`.
abbrev restore : List ℕ → List ℕ
restore s =
    replace_pair backslash backslash (backslash ∷ [])
      (replace_pair backslash letter_n (newline ∷ []) s)

-- A byte that starts no pair stays.
pair-skip :
    (a b c : ℕ) (other s : List ℕ)
    → (c == a) ≡ false
    → replace_pair a b other (c ∷ s) ≡ c ∷ replace_pair a b other s
pair-skip a b c other [] h = refl
pair-skip a b c other (d ∷ s) h = ground arith

abbrev newlines : List ℕ → List ℕ
newlines = replace_pair backslash letter_n (newline ∷ [])

restore-byte : (c : ℕ) (t : List ℕ) → (c == backslash) ≡ false → restore (c ∷ t) ≡ c ∷ restore t
restore-byte c t h =
    ap (replace_pair backslash backslash (backslash ∷ []))
      (pair-skip backslash letter_n c (newline ∷ []) t h)
    ∙ pair-skip backslash backslash c (backslash ∷ []) (newlines t) h

restore-newline : (t : List ℕ) → restore (backslash ∷ letter_n ∷ t) ≡ newline ∷ restore t
restore-newline t = pair-skip backslash backslash newline (backslash ∷ []) (newlines t) refl

restore-damaged :
    (t : List ℕ) → restore (backslash ∷ backslash ∷ letter_n ∷ t) ≡ backslash ∷ newline ∷ restore t
restore-damaged t =
    ap (λ u. backslash ∷ u)
      (pair-skip backslash backslash newline (backslash ∷ []) (newlines t) refl)

restore-backslash :
    (e : ℕ) (t : List ℕ)
    → (e == letter_n) ≡ false
    → restore (backslash ∷ backslash ∷ e ∷ t) ≡ backslash ∷ restore (e ∷ t)
restore-backslash e t h =
    ap (λ u. replace_pair backslash backslash (backslash ∷ []) (backslash ∷ u)) (kept e t h)
  where
    kept :
        (d : ℕ) (u : List ℕ)
        → (d == letter_n) ≡ false
        → newlines (backslash ∷ d ∷ u) ≡ backslash ∷ newlines (d ∷ u)
    kept d u k = rw k refl

escape-head :
    (d : ℕ) (s : List ℕ)
    → (d == letter_n) ≡ false
    → (e : ℕ) × (t : List ℕ) × (escape (d ∷ s) ≡ e ∷ t) × ((e == letter_n) ≡ false)
unfolding escape
escape-head d s h = elim (Bool-cases (d == backslash)) [
  | inl k ↦ (backslash, backslash ∷ escape s, rw k, refl)
  | inr k ↦ elim (Bool-cases (d == newline)) [
    | inl m ↦ (backslash, letter_n ∷ escape s, rw (k, m), refl)
    | inr m ↦ (d, escape s, rw (k, m), h)
  ]
]

escape-backslash :
    (c : ℕ) (s : List ℕ)
    → (c == backslash) ≡ true
    → escape (c ∷ s) ≡ backslash ∷ backslash ∷ escape s
unfolding escape
escape-backslash c s h = rw h

escape-other :
    (c : ℕ) (s : List ℕ)
    → (c == backslash) ≡ false
    → restore (escape (c ∷ s)) ≡ c ∷ restore (escape s)
unfolding escape
escape-other c s h = elim (Bool-cases (c == newline)) [
  | inl m ↦
      let e : c ≡ newline = (==_iff c newline).0 m in
      simp (h, m) (restore-newline (escape s) ∙ ap (λ k. k ∷ restore (escape s)) (sym e))
  | inr m ↦ simp (h, m) (restore-byte c (escape s) h)
]

damage-cons :
    (c d : ℕ) (s : List ℕ)
    → damage (c ∷ d ∷ s)
      ≡ (if c == backslash && d == letter_n then c ∷ newline ∷ damage s else c ∷ damage (d ∷ s))
damage-cons c d s = refl

damage-kept :
    (d : ℕ) (s : List ℕ)
    → (d == letter_n) ≡ false
    → damage (backslash ∷ d ∷ s) ≡ backslash ∷ damage (d ∷ s)
damage-kept d s k = rw k refl

escape-empty : restore (escape []) ≡ []
unfolding escape
escape-empty = refl

restore-single : restore (escape (backslash ∷ [])) ≡ backslash ∷ []
unfolding escape
restore-single = refl

restore-hit :
    (s : List ℕ)
    → restore (escape s) ≡ damage s
    → restore (escape (backslash ∷ letter_n ∷ s)) ≡ damage (backslash ∷ letter_n ∷ s)
unfolding escape
restore-hit s ih = restore-damaged (escape s) ∙ ap (λ t. backslash ∷ newline ∷ t) ih

restore-miss :
    (d : ℕ) (s : List ℕ)
    → (d == letter_n) ≡ false
    → restore (escape (d ∷ s)) ≡ damage (d ∷ s)
    → restore (escape (backslash ∷ d ∷ s)) ≡ damage (backslash ∷ d ∷ s)
restore-miss d s k ih =
    let (e, t, f, n) = escape-head d s k in
    ap restore (escape-backslash backslash (d ∷ s) refl ∙ ap (λ u. backslash ∷ backslash ∷ u) f)
    ∙ restore-backslash e t n
    ∙ ap (λ u. backslash ∷ restore u) (sym f)
    ∙ ap (λ u. backslash ∷ u) ih
    ∙ sym (damage-kept d s k)

-- What `ReadString` makes of the line of a string.
restore-escape : (s : List ℕ) → restore (escape s) ≡ damage s
restore-escape [] = escape-empty
restore-escape (c ∷ []) = elim (Bool-cases (c == backslash)) [
  | inl h ↦
      subst (λ k. restore (escape (k ∷ [])) ≡ damage (k ∷ [])) (sym ((==_iff c backslash).0 h))
        restore-single
  | inr h ↦ escape-other c [] h ∙ ap (λ t. c ∷ t) escape-empty
]
restore-escape (c ∷ d ∷ s) = elim (Bool-cases (c == backslash)) [
  | inr h ↦
      rw (damage-cons, h) (escape-other c (d ∷ s) h ∙ ap (λ t. c ∷ t) (restore-escape (d ∷ s)))
  | inl h ↦
      subst (λ k. restore (escape (k ∷ d ∷ s)) ≡ damage (k ∷ d ∷ s))
        (sym ((==_iff c backslash).0 h))
        (elim (Bool-cases (d == letter_n)) [
          | inl k ↦
              subst (λ m. restore (escape (backslash ∷ m ∷ s)) ≡ damage (backslash ∷ m ∷ s))
                (sym ((==_iff d letter_n).0 k)) (restore-hit s (restore-escape s))
          | inr k ↦ restore-miss d s k (restore-escape (d ∷ s))
        ])
]

read_string-cons :
    (c : ℕ) (s line rest : List ℕ)
    → getline (c ∷ s) ≡ (line, rest)
    → read_string (c ∷ s) ≡ some (restore line, rest)
unfolding read_string
read_string-cons c s line rest e =
    rw
      (
        e,
        replace_all-IsReplaced (backslash ∷ letter_n ∷ []) (newline ∷ []) line _
            (replace_pair-IsReplaced backslash letter_n (newline ∷ [])),
        replace_all-IsReplaced (backslash ∷ backslash ∷ []) (backslash ∷ []) _ _
            (replace_pair-IsReplaced backslash backslash (backslash ∷ [])),
      )
      refl

read_string-restore :
    (line rest : List ℕ)
    → getline (line ++ newline ∷ rest) ≡ (line, rest)
    → read_string (line ++ newline ∷ rest) ≡ some (restore line, rest)
read_string-restore [] rest e = read_string-cons newline rest [] rest e
read_string-restore (c ∷ line) rest e =
    read_string-cons c (line ++ newline ∷ rest) (c ∷ line) rest e

-- What is written for a string is read back, whatever follows, as that string with each `n` that
-- follows a backslash turned into a newline.
pub write_string-read_string :
    (s rest : List ℕ)
    → (w : List ℕ) × (write_string s ≡ some w) × (read_string (w ++ rest) ≡ some (damage s, rest))
write_string-read_string s rest = (
  escape s ++ newline ∷ [],
  write_string-escape s,
  ap read_string (append_assoc (escape s) (newline ∷ []) rest)
      ∙ read_string-restore (escape s) rest (getline-escape s rest)
      ∙ ap (λ t. some (t, rest)) (restore-escape s),
)

-- A string in which an `n` follows a backslash.
abbrev pub has_pair : List ℕ → Bool
has_pair [] = false
has_pair (c ∷ []) = false
has_pair (c ∷ d ∷ s) = let later = has_pair (d ∷ s) in (c == backslash && d == letter_n) || later

damage-id : (s : List ℕ) → has_pair s ≡ false → damage s ≡ s
damage-id [] h = refl
damage-id (c ∷ []) h = refl
damage-id (c ∷ d ∷ s) h = ground (arith, damage-id (d ∷ s))

damage-changes : (s : List ℕ) → has_pair s ≡ true → damage s ≢ s
damage-changes [] h e = cc
damage-changes (c ∷ []) h e = cc
damage-changes (c ∷ d ∷ s) h e = ground (arith, damage-changes (d ∷ s))

pair-first :
    {s t : List ℕ} → ◌≡◌ {A = Option (List ℕ × List ℕ)} (some (s, [])) (some (t, [])) → s ≡ t
pair-first e = ground arith

abbrev pub read_back : List ℕ → Option (List ℕ × List ℕ)
read_back s = do w ← write_string s; read_string w

read_back-damage : (s : List ℕ) → read_back s ≡ some (damage s, [])
read_back-damage s =
    let (w, e, f) = write_string-read_string s [] in rw e (ap read_string (sym (append-nil w)) ∙ f)

-- Writing a string and reading it back yields the string itself exactly where no `n` follows a
-- backslash in it.
pub read_back-exact : (s : List ℕ) → (read_back s ≡ some (s, [])) ↔ (has_pair s ≡ false)
read_back-exact s = (
  λ e. elim (Bool-cases (has_pair s)) [
    | inl h ↦ absurd (damage-changes s h (pair-first (sym (read_back-damage s) ∙ e)))
    | inr h ↦ h
  ],
  λ h. read_back-damage s ∙ ap (λ t. some (t, [])) (damage-id s h),
)
