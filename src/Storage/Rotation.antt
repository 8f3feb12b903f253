-- ===== src/Storage/Rotation.antt =====
-- How Save of lib/processing_engine/module/Save.cc divides the resources among the values of `fileId`. In the
-- text format these do not stand for different files: the code opens, and empties, the same one each time.
use hector_core.Prelude.{
  ℕ, suc, ◌+◌, ◌≤◌, ◌<◌, Bool, true, false, Option, none, some, List, [], ◌∷◌, ◌++◌, arith, ==_iff,
  ◌≡◌, ◌≢◌, refl, ap, ap₂, ◌∙◌, sym, subst, if◌then◌else◌, if_both, ◌==◌, sum, sum-append,
  append_assoc, append-nil, Bool-cases, inl, inr, length, length-append, ◌⊎◌,
}
use hector_core.Storage.Save.{
  Save, counted_size, is_full, next_file, write, process_output, then_output, process_outputs,
}

module _ {A : Type 0} where
  -- The resources that went to the stream of one value of `fileId`, and to all.
  abbrev pub file : ℕ → List (ℕ × A) → List A
  file k [] = []
  file k ((i, r) ∷ l) = (if i == k then r ∷ [] else []) ++ file k l

  abbrev pub resources : List (ℕ × A) → List A
  resources [] = []
  resources ((i, r) ∷ l) = r ∷ resources l

  file-append : (k : ℕ) (l m : List (ℕ × A)) → file k (l ++ m) ≡ file k l ++ file k m
  file-append k [] m = refl
  file-append k ((i, r) ∷ l) m =
      ap (λ t. (if i == k then r ∷ [] else []) ++ t) (file-append k l m)
      ∙ sym (append_assoc (if i == k then r ∷ [] else []) (file k l) (file k m))

  pub resources-append : (l m : List (ℕ × A)) → resources (l ++ m) ≡ resources l ++ resources m
  resources-append [] m = refl
  resources-append ((i, r) ∷ l) m = ap (λ t. r ∷ t) (resources-append l m)

  -- One more resource in the file `i`.
  file-same : (i : ℕ) (w : List (ℕ × A)) (r : A) → file i (w ++ (i, r) ∷ []) ≡ file i w ++ r ∷ []
  file-same i w r =
      file-append i w ((i, r) ∷ []) ∙ ap (λ t. file i w ++ t) (here (i == i) (ground arith))
    where
      here : (b : Bool) → b ≡ true → (if b then r ∷ [] else []) ++ [] ≡ r ∷ []
      here b e = ground arith

  file-other : (i k : ℕ) (w : List (ℕ × A)) (r : A) → i ≢ k → file k (w ++ (i, r) ∷ []) ≡ file k w
  file-other i k w r d =
      file-append k w ((i, r) ∷ [])
      ∙ ap (λ t. file k w ++ t) (there (i == k) (ground arith))
      ∙ append-nil (file k w)
    where
      there : (b : Bool) → b ≡ false → (if b then r ∷ [] else []) ++ [] ≡ []
      there b e = ground arith

module _ {A : Type 0} (size : A → ℕ) (serializes : A → Bool) where
  -- No stream is over a limit; a single resource may be larger than the limit. The counters are those of
  -- the stream that is written.
  pub record IsRotated (s : Save A) : Type 0 where
    pub items_limit : (k : ℕ) → 0 < s.max_items → length (file k s.written) ≤ s.max_items
    pub size_limit :
        (k : ℕ)
        → 0 < s.max_size
        → length (file k s.written) ≤ 1 ⊎ sum size (file k s.written) ≤ s.max_size
    pub items_counted : s.saved_items ≡ length (file s.file_id s.written)
    pub size_counted : 0 < s.max_size → s.saved_size ≡ sum size (file s.file_id s.written)
    pub unused : (k : ℕ) → s.file_id < k → file k s.written ≡ []

  -- The file may take one more resource of the size `n`.
  abbrev Room : Save A → ℕ → Type 0
  Room s n =
      (0 < s.max_items → s.saved_items < s.max_items)
      × (0 < s.max_size → s.saved_items ≡ 0 ⊎ s.saved_size + n ≤ s.max_size)

  next_file-IsRotated :
      (s : Save A)
      → IsRotated s
      → IsRotated (record s { file_id = suc s.file_id; saved_items = 0; saved_size = 0 })
  next_file-IsRotated s h = record {
    items_limit = h.items_limit;
    size_limit = h.size_limit;
    items_counted = ap length (sym (h.unused (suc s.file_id) (omega arith)));
    size_counted = λ g. ap (sum size) (sym (h.unused (suc s.file_id) (omega arith)));
    unused = λ k l. h.unused k (omega (arith, l));
  }

  -- A resource that the file may take is written.
  abbrev written_to : A → ℕ → Save A → Save A
  written_to r n s = record s {
    items = suc s.items;
    saved_items = suc s.saved_items;
    saved_size = s.saved_size + n;
    written = s.written ++ (s.file_id, r) ∷ [];
  }

  longer :
      (s : Save A) (r : A)
      → length (file s.file_id (s.written ++ (s.file_id, r) ∷ []))
        ≡ suc (length (file s.file_id s.written))
  longer s r =
      ap length (file-same s.file_id s.written r)
      ∙ omega (arith, length-append (file s.file_id s.written) (r ∷ []))

  larger :
      (s : Save A) (r : A)
      → sum size (file s.file_id (s.written ++ (s.file_id, r) ∷ []))
        ≡ sum size (file s.file_id s.written) + size r
  larger s r =
      ap (sum size) (file-same s.file_id s.written r)
      ∙ omega (arith, sum-append size (file s.file_id s.written) (r ∷ []))

  write-IsRotated :
      (s : Save A) (r : A) (n : ℕ)
      → (0 < s.max_size → n ≡ size r)
      → Room s n
      → IsRotated s
      → IsRotated (written_to r n s)
  write-IsRotated s r n e (ri, rs) h = record {
    items_limit = λ k g. elim (Bool-cases (s.file_id == k)) [
      | inl q ↦
          subst (λ i. length (file i (s.written ++ (s.file_id, r) ∷ [])) ≤ s.max_items)
            ((==_iff s.file_id k).0 q) (omega (arith, longer s r, ri g, h.items_counted))
      | inr q ↦
          subst (λ l. length l ≤ s.max_items)
            (sym (file-other s.file_id k s.written r (ground (arith, q)))) (h.items_limit k g)
    ];
    size_limit = λ k g. elim (Bool-cases (s.file_id == k)) [
      | inl q ↦
          subst
            (λ i.
              length (file i (s.written ++ (s.file_id, r) ∷ [])) ≤ 1
              ⊎ sum size (file i (s.written ++ (s.file_id, r) ∷ [])) ≤ s.max_size)
            ((==_iff s.file_id k).0 q)
            (ground (arith, longer s r, larger s r, rs g, h.items_counted, h.size_counted g, e g))
      | inr q ↦
          subst (λ l. length l ≤ 1 ⊎ sum size l ≤ s.max_size)
            (sym (file-other s.file_id k s.written r (ground (arith, q)))) (h.size_limit k g)
    ];
    items_counted = omega (arith, longer s r, h.items_counted);
    size_counted = λ g. omega (arith, larger s r, h.size_counted g, e g);
    unused = λ k l. file-other s.file_id k s.written r (omega (arith, l)) ∙ h.unused k l;
  }

  -- The resources that are written while the file is open.
  abbrev pub kept : List A → List A
  kept [] = []
  kept (r ∷ rs) = (if serializes r then r ∷ [] else []) ++ kept rs

  -- What some resources did to the module.
  abbrev pub Stored : List A → Save A → Save A → Type 0
  Stored rs s s' =
      IsRotated s'
      × (s'.opened ≡ s.opened)
      × (resources s'.written ≡ resources s.written ++ (if s.opened then kept rs else []))

  abbrev StoredIf : List A → Save A → Option (Save A) → Type 0
  StoredIf rs s none = Unit {0}
  StoredIf rs s (some s') = Stored rs s s'

  -- A file that may take the resource, in the place of the one before.
  write-Stored :
      (s t : Save A) (r : A) (n : ℕ)
      → (0 < t.max_size → n ≡ size r)
      → Room t n
      → IsRotated t
      → s.opened ≡ true
      → t.opened ≡ s.opened
      → t.written ≡ s.written
      → StoredIf (r ∷ []) s (write size serializes r n (some t))
  unfolding write
  write-Stored s t r n e room h o p w = elim (Bool-cases (serializes r)) [
    | inl k ↦
        simp (k, o)
          (
            write-IsRotated t r n e room h,
            p ∙ o,
            ap (λ l. resources (l ++ (t.file_id, r) ∷ [])) w
                ∙ resources-append s.written ((t.file_id, r) ∷ []),
          )
    | inr k ↦ simp (k, o) (h, p ∙ o, ap resources w ∙ sym (append-nil (resources s.written)))
  ]

  not_full : (s : Save A) (n : ℕ) → is_full size serializes s n ≡ false → IsRotated s → Room s n
  unfolding is_full
  not_full s n e h = (
    λ g. ground (arith, e, h.items_limit s.file_id g, h.items_counted),
    λ g. inr (ground (arith, e)),
  )

  at_limit :
      (reopens b : Bool) (r : A) (s : Save A)
      → IsRotated s
      → s.opened ≡ true
      → is_full size serializes s (counted_size size serializes s r) ≡ b
      → StoredIf (r ∷ []) s (
          write size serializes r
            (counted_size size serializes s r)
            (if b then next_file size serializes reopens s else some s))
  unfolding next_file counted_size write
  at_limit false true r s h o e = tt
  at_limit true true r s h o e =
      write-Stored s (record s { file_id = suc s.file_id; saved_items = 0; saved_size = 0 }) r
        (counted_size size serializes s r) (λ g. ground (arith, g)) (λ g. g, λ g. inl refl)
        (next_file-IsRotated s h) o refl refl
  at_limit reopens false r s h o e =
      write-Stored s s r (counted_size size serializes s r) (λ g. ground (arith, g))
        (not_full s (counted_size size serializes s r) e h) h o refl refl

  process_output-Stored :
      (reopens : Bool) (r : A) (s : Save A)
      → IsRotated s
      → StoredIf (r ∷ []) s (process_output size serializes reopens r s)
  unfolding process_output
  process_output-Stored reopens r s h = elim (Bool-cases s.opened) [
    | inl o ↦
        subst
          (λ t. StoredIf (r ∷ []) s (
            if t
            then write size serializes r (counted_size size serializes s r) (
                if is_full size serializes s (counted_size size serializes s r)
                then next_file size serializes reopens s
                else some s)
            else some s))
          (sym o)
          (at_limit reopens (is_full size serializes s (counted_size size serializes s r)) r s h o
            refl)
    | inr o ↦ simp o (h, refl, sym (append-nil (resources s.written)))
  ]

  kept-step :
      (b : Bool) (l x m : List A)
      → (l ++ (if b then x ++ [] else [])) ++ (if b then m else [])
        ≡ l ++ (if b then x ++ m else [])
  kept-step true l x m = ap (λ t. (l ++ t) ++ m) (append-nil x) ∙ append_assoc l x m
  kept-step false l x m = append-nil (l ++ [])

  Stored-step :
      (r : A) (rs : List A) (s t : Save A) (o : Option (Save A))
      → Stored (r ∷ []) s t
      → StoredIf rs t o
      → StoredIf (r ∷ rs) s o
  Stored-step r rs s t none h k = tt
  Stored-step r rs s t (some s') (i, p, e) (j, q, f) = (
    j,
    q ∙ p,
    f
        ∙ ap₂ (λ l b. l ++ (if b then kept rs else [])) e p
        ∙ kept-step s.opened (resources s.written) (if serializes r then r ∷ [] else []) (kept rs),
  )

  then_output-Stored :
      (reopens : Bool) (r : A) (rs : List A) (s : Save A) (o : Option (Save A))
      → StoredIf (r ∷ []) s o
      → ((t : Save A) → IsRotated t → StoredIf rs t (process_outputs size serializes reopens rs t))
      → StoredIf
          (r ∷ rs)
          s
          (then_output size serializes (process_outputs size serializes reopens rs) o)
  unfolding then_output
  then_output-Stored reopens r rs s none h k = tt
  then_output-Stored reopens r rs s (some t) h k =
      Stored-step r rs s t (process_outputs size serializes reopens rs t) h (k t h.0)

  process_outputs-StoredIf :
      (reopens : Bool) (rs : List A) (s : Save A)
      → IsRotated s
      → StoredIf rs s (process_outputs size serializes reopens rs s)
  unfolding process_outputs
  process_outputs-StoredIf reopens [] s h = (
    h,
    refl,
    sym (
        if_both (λ l. resources s.written ++ l ≡ resources s.written) s.opened [] []
          (append-nil (resources s.written)) (append-nil (resources s.written))),
  )
  process_outputs-StoredIf reopens (r ∷ rs) s h =
      then_output-Stored reopens r rs s (process_output size serializes reopens r s)
        (process_output-Stored reopens r s h) (process_outputs-StoredIf reopens rs)

  -- As an output module with an open stream, Save hands all resources that can be serialised to the
  -- stream, in their order. To the stream that is opened for one value of `fileId` it hands no more of
  -- them than the limit on the items, and of the sizes that `GetSize` gives no more together than the
  -- limit on the size, but for a single resource that may be larger. This holds as long as the streams
  -- can be opened.
  pub process_outputs-Stored :
      (reopens : Bool) (rs : List A) (s s' : Save A)
      → IsRotated s
      → process_outputs size serializes reopens rs s ≡ some s'
      → Stored rs s s'
  process_outputs-Stored reopens rs s s' h e =
      subst (StoredIf rs s) e (process_outputs-StoredIf reopens rs s h)
