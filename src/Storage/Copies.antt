-- ===== src/Storage/Copies.antt =====
-- Load and Save of lib/processing_engine/module as multi modules: what comes in goes out.
use hector_core.Prelude.{
  ℕ, zero, suc, ◌≤◌, Bool, true, false, ◌&&◌, ◌||◌, not, Option, none, some, List, [], ◌∷◌, ◌++◌,
  arith, ◌≡◌, refl, ap, ap₂, ◌∙◌, sym, subst, if◌then◌else◌, if_both, length, append_assoc,
  append-nil, ltb, ◌==◌, ◌%◌,
}
use hector_core.Storage.Load
use hector_core.Storage.Load.{
  Item, Load, Outcome, returns, waits, FileRead, put_first, after_item, file_loop, after_copy,
  has_marker, process_input, max_resources,
}
use hector_core.Storage.Save
use hector_core.Storage.Save.{Save, rotate, save_one, then_multi}
use hector_core.Storage.Rotation.{resources, resources-append, kept}

module _ {A S : Type 0} (deserialize : S → Option A × S) where
  abbrev AtMost : ℕ → FileRead deserialize → Type 0
  AtMost n (is, ended, l) = length is ≤ n

  after_item-AtMost :
      (n : ℕ) (rest : Load S → FileRead deserialize) (stop : Bool) (o : Outcome A S)
      → ((l : Load S) → AtMost n (rest l))
      → AtMost (suc n) (after_item deserialize rest stop o)
  unfolding after_item
  after_item-AtMost n rest stop (waits l) h = omega arith
  after_item-AtMost n rest stop (returns none l) h = omega arith
  after_item-AtMost n rest stop (returns (some i) l) h =
      if_both (AtMost (suc n)) stop (i ∷ [], false, l) (put_first deserialize i (rest l))
        (omega arith) (go (rest l) (h l))
    where
      go : (r : FileRead deserialize) → AtMost n r → AtMost (suc n) (put_first deserialize i r)
      go (is, ended, l) k = omega (arith, k)

  file_loop-AtMost :
      (late : ℕ → Bool) (left done : ℕ) (l : Load S)
      → AtMost left (file_loop deserialize late left done l)
  unfolding file_loop
  file_loop-AtMost late zero done l = omega arith
  file_loop-AtMost late (suc left) done l =
      after_item-AtMost left (file_loop deserialize late left (suc done)) _
        (process_input deserialize false l) (file_loop-AtMost late left (suc done))

  -- What a call of `ProcessMulti` returns, over what it has copied.
  abbrev pub Appends : List (Item A) → Bool → Load S → List (Item A) × Bool × Load S → Type 0
  Appends copied marked l (out, busy, l') =
      (is : List (Item A)) × (out ≡ copied ++ is)
      × (length is ≤ max_resources deserialize)
      × (marked ≡ false → (is ≡ []) × (busy ≡ false) × (l'.stream ≡ l.stream))

  copy_or_read :
      (copied : List (Item A)) (b : Bool) (l marked : Load S) (r : FileRead deserialize)
      → AtMost (max_resources deserialize) r
      → marked.stream ≡ l.stream
      → Appends copied b l (if b then (copied ++ r.0, not (r.1), r.2) else (copied, false, marked))
  copy_or_read copied true l m r h e₁ = (r.0, refl, h, λ e. cc)
  copy_or_read copied false l m r h e₁ =
      ([], sym (append-nil copied), omega arith, λ e. (refl, refl, e₁))

  -- Load as a multi module passes on what came in, in its order, and appends no more than 10000 items of
  -- the file. Before a marker has come in, it appends nothing, leaves the file as it is, and is not busy.
  pub process_multi-Appends :
      (late : ℕ → Bool) (inputs outputs : List (Item A)) (l : Load S)
      → Appends
          (outputs ++ inputs)
          (l.mark_read || has_marker deserialize inputs)
          l
          (Load.process_multi deserialize late inputs outputs l)
  unfolding Load.process_multi after_copy
  process_multi-Appends late inputs outputs l =
      copy_or_read (outputs ++ inputs) (l.mark_read || has_marker deserialize inputs) l marked
        (file_loop deserialize late (max_resources deserialize) 0 marked)
        (file_loop-AtMost late (max_resources deserialize) 0 marked) refl
    where
      marked : Load S
      marked = record l { mark_read = l.mark_read || has_marker deserialize inputs }

module _ {A : Type 0} (size : A → ℕ) (serializes : A → Bool) where
  abbrev pub only : (A → Bool) → List A → List A
  only wanted [] = []
  only wanted (r ∷ rs) = (if wanted r then r ∷ [] else []) ++ only wanted rs

  -- What Save did with some resources as a multi module.
  abbrev pub Copied : (A → Bool) → List A → List A → Save A → List A × Save A → Type 0
  Copied wanted rs outputs s (out, s') =
      (out ≡ outputs ++ rs)
      × (s'.opened ≡ s.opened)
      × (resources s'.written
          ≡ resources s.written ++ (if s.opened then kept size serializes (only wanted rs) else []))

  abbrev CopiedIf : (A → Bool) → List A → List A → Save A → Option (List A × Save A) → Type 0
  CopiedIf wanted rs outputs s none = Unit {0}
  CopiedIf wanted rs outputs s (some out) = Copied wanted rs outputs s out

  abbrev SavedIf : List A → Save A → Option (Save A) → Type 0
  SavedIf l s none = Unit {0}
  SavedIf l s (some t) =
      (t.opened ≡ s.opened)
      × (resources t.written
          ≡ resources s.written ++ (if s.opened then kept size serializes l else []))

  rotate-SavedIf :
      (reopens : Bool) (l : List A) (s t : Save A)
      → SavedIf l s (some t)
      → SavedIf l s (rotate size serializes reopens t)
  unfolding rotate
  rotate-SavedIf reopens l s t h =
      if_both (SavedIf l s) (ltb 0 t.max_items && t.items % t.max_items == 0) _ (some t)
        (if_both (SavedIf l s) reopens (some (record t { file_id = suc t.file_id })) none h tt) h

  one_kept :
      (a b t : Bool) (r : A)
      → (a && b) ≡ t
      → (if t then r ∷ [] else []) ≡ (if a then (if b then r ∷ [] else []) ++ [] else [])
  one_kept true true true r e = refl
  one_kept true true false r e = cc
  one_kept true false true r e = cc
  one_kept true false false r e = refl
  one_kept false b true r e = cc
  one_kept false b false r e = refl

  save_one-SavedIf :
      (reopens : Bool) (r : A) (s : Save A)
      → SavedIf (r ∷ []) s (save_one size serializes reopens r s)
  unfolding save_one
  save_one-SavedIf reopens r s = go (s.opened && serializes r) refl
    where
      saved : Save A
      saved = record s { items = suc s.items; written = s.written ++ (s.file_id, r) ∷ [] }

      go :
          (b : Bool)
          → (s.opened && serializes r) ≡ b
          → SavedIf (r ∷ []) s (if b then rotate size serializes reopens saved else some s)
      go true e = rotate-SavedIf reopens (r ∷ []) s saved (
        refl,
        resources-append s.written ((s.file_id, r) ∷ [])
            ∙ ap (λ l. resources s.written ++ l) (one_kept s.opened (serializes r) true r e),
      )
      go false e = (
        refl,
        sym (append-nil (resources s.written))
            ∙ ap (λ l. resources s.written ++ l) (one_kept s.opened (serializes r) false r e),
      )

  -- A filter before.
  only_wanted :
      (w reopens : Bool) (r : A) (s : Save A)
      → SavedIf
          (if w then r ∷ [] else [])
          s
          (if w then save_one size serializes reopens r s else some s)
  only_wanted true reopens r s = save_one-SavedIf reopens r s
  only_wanted false reopens r s = (
    refl,
    sym (
        if_both (λ l. resources s.written ++ l ≡ resources s.written) s.opened [] []
          (append-nil (resources s.written)) (append-nil (resources s.written))),
  )

  kept-append :
      (l m : List A)
      → kept size serializes (l ++ m) ≡ kept size serializes l ++ kept size serializes m
  kept-append [] m = refl
  kept-append (r ∷ l) m =
      ap (λ t. (if serializes r then r ∷ [] else []) ++ t) (kept-append l m)
      ∙ sym (
          append_assoc (if serializes r then r ∷ [] else []) (kept size serializes l)
            (kept size serializes m))

  join_if :
      (b : Bool) (l x y z : List A)
      → z ≡ x ++ y
      → (l ++ (if b then x else [])) ++ (if b then y else []) ≡ l ++ (if b then z else [])
  join_if true l x y z e = append_assoc l x y ∙ ap (λ t. l ++ t) (sym e)
  join_if false l x y z e = append-nil (l ++ [])

  Copied-step :
      (wanted : A → Bool) (r : A) (rs outputs : List A) (s t : Save A)
      (o : Option (List A × Save A))
      → SavedIf (if wanted r then r ∷ [] else []) s (some t)
      → CopiedIf wanted rs (outputs ++ r ∷ []) t o
      → CopiedIf wanted (r ∷ rs) outputs s o
  Copied-step wanted r rs outputs s t none h k = tt
  Copied-step wanted r rs outputs s t (some (out, s')) (p, e) (q, p', f) = (
    q ∙ append_assoc outputs (r ∷ []) rs,
    p' ∙ p,
    f
        ∙ ap₂ (λ l b. l ++ (if b then kept size serializes (only wanted rs) else [])) e p
        ∙ join_if s.opened (resources s.written) _ (kept size serializes (only wanted rs)) _
            (kept-append (if wanted r then r ∷ [] else []) (only wanted rs)),
  )

  then_multi-CopiedIf :
      (reopens : Bool) (wanted : A → Bool) (r : A) (rs outputs : List A) (s : Save A)
      (o : Option (Save A))
      → SavedIf (if wanted r then r ∷ [] else []) s o
      → ((out : List A) (t : Save A)
          → CopiedIf wanted rs out t (Save.process_multi size serializes reopens wanted rs out t))
      → CopiedIf wanted (r ∷ rs) outputs s (
          then_multi size serializes r
            (Save.process_multi size serializes reopens wanted rs)
            outputs
            o)
  unfolding then_multi
  then_multi-CopiedIf reopens wanted r rs outputs s none h k = tt
  then_multi-CopiedIf reopens wanted r rs outputs s (some t) h k =
      Copied-step wanted r rs outputs s t _ h (k (outputs ++ r ∷ []) t)

  process_multi-CopiedIf :
      (reopens : Bool) (wanted : A → Bool) (rs outputs : List A) (s : Save A)
      → CopiedIf wanted rs outputs s
          (Save.process_multi size serializes reopens wanted rs outputs s)
  unfolding Save.process_multi
  process_multi-CopiedIf reopens wanted [] outputs s = (
    sym (append-nil outputs),
    refl,
    sym (
        if_both (λ l. resources s.written ++ l ≡ resources s.written) s.opened [] []
          (append-nil (resources s.written)) (append-nil (resources s.written))),
  )
  process_multi-CopiedIf reopens wanted (r ∷ rs) outputs s =
      then_multi-CopiedIf reopens wanted r rs outputs s _ (only_wanted (wanted r) reopens r s)
        (process_multi-CopiedIf reopens wanted rs)

  -- Save as a multi module passes on all resources in their order, and writes those of them that its
  -- filter wants and that can be serialised, in their order too, as long as the files can be opened.
  pub process_multi-Copied :
      (reopens : Bool) (wanted : A → Bool) (rs outputs : List A) (s : Save A)
      (out : List A × Save A)
      → Save.process_multi size serializes reopens wanted rs outputs s ≡ some out
      → Copied wanted rs outputs s out
  process_multi-Copied reopens wanted rs outputs s out e =
      subst (CopiedIf wanted rs outputs s) e (process_multi-CopiedIf reopens wanted rs outputs s)
