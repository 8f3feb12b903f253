-- ===== src/Storage/Loaded.antt =====
-- What Load of lib/processing_engine/module/Load.cc returns for a file, call after call.
use hector_core.Prelude.{
  ℕ, zero, suc, ◌+◌, ◌-◌, ◌≤◌, Bool, true, false, ◌&&◌, not, Option, none, some, List, [], ◌∷◌,
  ◌++◌, map, arith, ◌≡◌, refl, ap, ◌∙◌, sym, if◌then◌else◌, if_both, ◌==◌, leb, take, drop, length,
  length-drop, Bool-cases, inl, inr,
}
use hector_core.Storage.Load.{
  Item, resource, marker, Load, Outcome, returns, waits, read_one, emit, after_read, after_skip,
  skip_loop, process_input,
}

-- The calls up to the one that returns NULL, which are no more than the fuel.
abbrev keep_on : {A S : Type 0} → (Load S → List (Item A)) → Outcome A S → List (Item A)
keep_on rest (returns none l) = []
keep_on rest (returns (some i) l) = i ∷ rest l
keep_on rest (waits l) = []

module _ {A S : Type 0} (deserialize : S → Option A × S) where
  unfoldable pub collect : ℕ → Load S → List (Item A)
  collect zero l = []
  collect (suc fuel) l = keep_on (collect fuel) (process_input deserialize false l)

  -- A stream that gives some resources, and then NULL again and again.
  abbrev pub Reads : List A → S → Type 0
  Reads [] s = deserialize s ≡ (none, s)
  Reads (x ∷ xs) s = (s' : S) × (deserialize s ≡ (some x, s')) × Reads xs s'

  -- A module that reads a stream and has returned `items` resources.
  abbrev pub loading : ℕ → ℕ → ℕ → Bool → Option ℕ → Bool → Bool → S → Load S
  loading items max_items skip wait mark emitted mark_read s = record {
    items = items;
    max_items = max_items;
    skip_items = skip;
    wait = wait;
    mark = mark;
    mark_emitted = emitted;
    mark_read = mark_read;
    stream = some s;
  }

  -- As many as `maxItems` allows, where 0 is no limit.
  abbrev pub limited : ℕ → ℕ → List A → List A
  limited max items xs = if max == 0 then xs else take (max - items) xs

  abbrev pub marks : Option ℕ → List (Item A)
  marks none = []
  marks (some m) = marker m ∷ []

  -- The limit on the number of resources is reached.
  abbrev is_over : ℕ → ℕ → Bool
  is_over items max = not (max == 0) && leb max items

  read_some :
      (s s' : S) (o : Option A)
      → deserialize s ≡ (o, s')
      → read_one deserialize (some s) ≡ (o, some s')
  unfolding read_one
  read_some s s' o e = ap (λ r. (r.0, some (r.1))) e

  module _ (max : ℕ) (wait : Bool) (mark : Option ℕ) (mark_read : Bool) where
    abbrev at : ℕ → Bool → S → Load S
    at items emitted s = loading items max 0 wait mark emitted mark_read s

    over_lem :
        (items : ℕ) (emitted : Bool) (s : S)
        → is_over items max ≡ true
        → process_input deserialize false (at items emitted s)
          ≡ emit deserialize mark (at items emitted s)
    unfolding process_input
    over_lem items emitted s e =
        ap
          (λ b.
            if b
            then emit deserialize mark (at items emitted s)
            else skip_loop deserialize false 0 (at items emitted s))
          e

    under_lem :
        (items : ℕ) (emitted : Bool) (s s' : S) (o : Option A)
        → is_over items max ≡ false
        → deserialize s ≡ (o, s')
        → process_input deserialize false (at items emitted s)
          ≡ after_read deserialize false (at items emitted s) (o, some s')
    unfolding process_input skip_loop
    under_lem items emitted s s' o e h =
        ap
          (λ b.
            if b
            then emit deserialize mark (at items emitted s)
            else skip_loop deserialize false 0 (at items emitted s))
          e
        ∙ ap (after_read deserialize false (at items emitted s)) (read_some s s' o h)

    take_none : (k : ℕ) (x : A) (xs : List A) → take k (x ∷ xs) ≡ [] → k ≡ 0
    take_none zero x xs e = refl
    take_none (suc k) x xs e = cc

    limited_none :
        (items : ℕ) (x : A) (xs : List A)
        → limited max items (x ∷ xs) ≡ []
        → is_over items max ≡ true
    limited_none items x xs e = ground (arith, e, take_none (max - items) x xs)

    -- A call behind the last resource.
    ended :
        (items : ℕ) (emitted : Bool) (s : S) (xs : List A)
        → Reads xs s
        → limited max items xs ≡ []
        → process_input deserialize false (at items emitted s)
          ≡ emit deserialize mark (at items emitted s)
    unfolding after_read
    ended items emitted s [] h e = elim (Bool-cases (is_over items max)) [
      | inl o ↦ over_lem items emitted s o
      | inr u ↦ under_lem items emitted s s none u h
    ]
    ended items emitted s (x ∷ xs) h e = over_lem items emitted s (limited_none items x xs e)

  -- The marker, if one is wanted, is the last item.
  collect-ended :
      (max : ℕ) (wait : Bool) (mark : Option ℕ) (mark_read : Bool) (fuel items : ℕ) (s : S)
      (xs : List A)
      → Reads xs s
      → limited max items xs ≡ []
      → collect (suc (suc fuel)) (loading items max 0 wait mark false mark_read s) ≡ marks mark
  unfolding collect emit
  collect-ended max wait none mark_read fuel items s xs h e =
      ap (keep_on (collect (suc fuel))) (ended max wait none mark_read items false s xs h e)
  collect-ended max wait (some m) mark_read fuel items s xs h e =
      ap (keep_on (collect (suc fuel))) (ended max wait (some m) mark_read items false s xs h e)
      ∙ ap (λ o. marker m ∷ keep_on (collect fuel) o)
          (ended max wait (some m) mark_read items true s xs h e)

  take-suc : (k j : ℕ) (x : A) (xs : List A) → k ≡ suc j → take k (x ∷ xs) ≡ x ∷ take j xs
  take-suc k j x xs e = ap (λ n. take n (x ∷ xs)) e

  take_zero : (k : ℕ) (xs : List A) → k ≡ 0 → take k xs ≡ []
  take_zero k xs e = ap (λ n. take n xs) e

  limited_nil : (max items : ℕ) → limited max items [] ≡ []
  limited_nil max items =
      if_both (λ l. l ≡ []) (max == 0) [] (take (max - items) []) refl (nil (max - items))
    where
      nil : (k : ℕ) → take {A = A} k [] ≡ []
      nil zero = refl
      nil (suc k) = refl

  limited_under :
      (max items : ℕ) (x : A) (xs : List A)
      → is_over items max ≡ false
      → limited max items (x ∷ xs) ≡ x ∷ limited max (suc items) xs
  limited_under max items x xs e = ground (arith, e, take-suc (max - items) (max - suc items) x xs)

  limited_over :
      (max items : ℕ) (xs : List A) → is_over items max ≡ true → limited max items xs ≡ []
  limited_over max items xs e = ground (arith, e, take_zero (max - items) xs)

  -- All calls behind the skipped resources.
  collect-loading :
      (max : ℕ) (wait : Bool) (mark : Option ℕ) (mark_read : Bool) (xs : List A) (fuel items : ℕ)
      (s : S)
      → Reads xs s
      → length xs + 2 ≤ fuel
      → collect fuel (loading items max 0 wait mark false mark_read s)
        ≡ map resource (limited max items xs) ++ marks mark
  unfolding collect after_read
  collect-loading max wait mark mark_read xs zero items s h f = absurd (omega arith)
  collect-loading max wait mark mark_read xs (suc zero) items s h f = absurd (omega arith)
  collect-loading max wait mark mark_read [] (suc (suc fuel)) items s h f =
      collect-ended max wait mark mark_read fuel items s [] h (limited_nil max items)
      ∙ ap (λ l. map resource l ++ marks mark) (sym (limited_nil max items))
  collect-loading max wait mark mark_read (x ∷ xs) (suc (suc fuel)) items s (s', e, h) f =
      elim (Bool-cases (is_over items max)) [
        | inl o ↦
            collect-ended max wait mark mark_read fuel items s (x ∷ xs) (s', e, h)
              (limited_over max items (x ∷ xs) o)
            ∙ ap (λ l. map resource l ++ marks mark) (sym (limited_over max items (x ∷ xs) o))
        | inr u ↦
            ap (keep_on (collect (suc fuel)))
              (under_lem max wait mark mark_read items false s s' (some x) u e)
            ∙ ap (λ l. resource x ∷ l)
                (collect-loading max wait mark mark_read xs (suc fuel) (suc items) s' h
                  (omega (arith, f)))
            ∙ ap (λ l. map resource l ++ marks mark) (sym (limited_under max items x xs u))
      ]

  -- The calls up to the last skipped resource.
  skip_lem :
      (max : ℕ) (wait : Bool) (mark : Option ℕ) (mark_read : Bool) (n : ℕ) (xs : List A) (s : S)
      → Reads xs s
      → n ≤ length xs
      → (s' : S) × Reads (drop n xs) s'
        × (skip_loop deserialize false n (loading 0 max n wait mark false mark_read s)
            ≡ skip_loop deserialize false 0 (loading 0 max 0 wait mark false mark_read s'))
  unfolding skip_loop after_skip
  skip_lem max wait mark mark_read zero xs s h l = (s, h, refl)
  skip_lem max wait mark mark_read (suc n) [] s h l = absurd (omega arith)
  skip_lem max wait mark mark_read (suc n) (x ∷ xs) s (t, e, h) l =
      let (s', r, q) = skip_lem max wait mark mark_read n xs t h (omega arith) in
      (
        s',
        r,
        ap
              (after_skip deserialize (skip_loop deserialize false n) false n
                (loading 0 max (suc n) wait mark false mark_read s))
              (read_some s t (some x) e)
            ∙ q,
      )

  -- The first call.
  first_lem :
      (max : ℕ) (wait : Bool) (mark : Option ℕ) (mark_read : Bool) (n : ℕ) (s : S)
      → process_input deserialize false (loading 0 max n wait mark false mark_read s)
        ≡ skip_loop deserialize false n (loading 0 max n wait mark false mark_read s)
  unfolding process_input
  first_lem max wait mark mark_read n s =
      ap
        (λ b.
          if b
          then emit deserialize mark (loading 0 max n wait mark false mark_read s)
          else skip_loop deserialize false n (loading 0 max n wait mark false mark_read s))
        (none_yet max)
    where
      none_yet : (m : ℕ) → is_over 0 m ≡ false
      none_yet m = ground arith

  -- Load returns the resources of its file in their order, without the first `skipItems` and no more than
  -- `maxItems`, then its marker, once, if it is to return one, and NULL at last. The file has as many
  -- resources as are to be skipped.
  pub collect_all :
      (max skip : ℕ) (wait : Bool) (mark : Option ℕ) (mark_read : Bool) (xs : List A) (s : S)
      → Reads xs s
      → skip ≤ length xs
      → collect (length xs + 2) (loading 0 max skip wait mark false mark_read s)
        ≡ map resource (limited max 0 (drop skip xs)) ++ marks mark
  unfolding collect process_input
  collect_all max skip wait mark mark_read xs s h l =
      let (s', r, q) = skip_lem max wait mark mark_read skip xs s h l in
      ap (λ n. collect n (loading 0 max skip wait mark false mark_read s)) {y = suc (length xs + 1)}
        (omega arith)
      ∙ ap (keep_on (collect (length xs + 1))) (
          first_lem max wait mark mark_read skip s
          ∙ q
          ∙ sym (first_lem max wait mark mark_read 0 s'))
      ∙ collect-loading max wait mark mark_read (drop skip xs) (suc (length xs + 1)) 0 s' r
          (omega (arith, length-drop skip xs))
