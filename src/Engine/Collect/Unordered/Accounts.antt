-- ===== src/Engine/Collect/Unordered/Accounts.antt =====
-- What GetProcessedResources of lib/processing_engine/ProcessingEngine.cc puts out and leaves.
use hector_core.Prelude.{
  ℕ, true, Option, none, some, List, [], ◌∷◌, ◌++◌, ◌+◌, ◌≡◌, refl, sym, ap, ◌∙◌, ◌==◌, ==_iff,
  arith, inl, inr, Bool-cases, ◌||◌, if_split,
}
use hector_core.Processor.{Resource}
use hector_core.Engine.Collect.{lookup, erase, Collector, take_finished, found}
use hector_core.Engine.Collect.Order.{IsKeyed, lookup-IsKeyed, erase-IsKeyed}
use hector_core.Engine.Collect.Unordered.{has_id, erase_id, absorb_one, absorb_set, scanned, scan}

-- The weight of a list of ids.
unfoldable pub total : (ℕ → ℕ) → List ℕ → ℕ
total w [] = 0
total w (id ∷ ids) = w id + total w ids

-- An id in the list stands there once more than in the list without it.
total-erase_id :
    (w : ℕ → ℕ) (k : ℕ) (ids : List ℕ)
    → has_id k ids ≡ true
    → w k + total w (erase_id k ids) ≡ total w ids
unfolding total erase_id has_id
total-erase_id w k [] h = ground arith
total-erase_id w k (id ∷ ids) h = elim (Bool-cases (k == id)) [
  | inl e ↦ simp e (ap (λ x. w x + total w ids) ((==_iff k id).0 e))
  | inr e ↦ simp e (omega (arith, total-erase_id w k ids (sym (ap (λ b. b || has_id k ids) e) ∙ h)))
]

module _ {B : Type 0} where
  -- The weight of the output.
  unfoldable pub put_out : (ℕ → ℕ) → List (Resource B) → ℕ
  put_out w [] = 0
  put_out w (r ∷ rs) = w r.id + put_out w rs

  put_out-append :
      (w : ℕ → ℕ) (rs : List (Resource B)) (r : Resource B)
      → put_out w (rs ++ r ∷ []) ≡ put_out w rs + w r.id
  unfolding put_out
  put_out-append w [] r = omega arith
  put_out-append w (x ∷ rs) r = omega (arith, put_out-append w rs r)

  -- From `ids` and `s` to `rest` and `s'`: what is gone from the set is in the output, whatever an id
  -- weighs; the resources that wait stay under their ids.
  pub record Accounts (ids : List ℕ) (s : Collector B) (rest : List ℕ) (s' : Collector B)
      : Type 0 where
    pub balance :
        (w : ℕ → ℕ) → put_out w s'.output + total w rest ≡ put_out w s.output + total w ids
    pub keyed : IsKeyed s'.finished

  pub same : (ids : List ℕ) (s : Collector B) → IsKeyed s.finished → Accounts ids s ids s
  same ids s h = record { balance = λ w. refl; keyed = h }

  pub join :
      (ids mid rest : List ℕ) (s t s' : Collector B)
      → Accounts ids s mid t
      → Accounts mid t rest s'
      → Accounts ids s rest s'
  join ids mid rest s t s' c d = record {
    balance = λ w. d.balance w ∙ c.balance w;
    keyed = d.keyed;
  }

  -- One resource with the first id.
  took :
      (id : ℕ) (r : Resource B) (ids : List ℕ) (s : Collector B)
      → IsKeyed s.finished
      → lookup id s.finished ≡ some r
      → Accounts
          (id ∷ ids)
          s
          ids
          (record { finished = erase id s.finished; output = s.output ++ r ∷ [] })
  unfolding total
  took id r ids s h e = record {
    balance =
        λ w. omega (arith, put_out-append w s.output r, ap w (lookup-IsKeyed id s.finished r h e));
    keyed = erase-IsKeyed id s.finished h;
  }

  kept :
      (id : ℕ) (ids rest : List ℕ) (s s' : Collector B)
      → Accounts ids s rest s'
      → Accounts (id ∷ ids) s (id ∷ rest) s'
  unfolding total
  kept id ids rest s s' c = record { balance = λ w. omega (arith, c.balance w); keyed = c.keyed }

  found-Accounts :
      (id : ℕ) (ids : List ℕ) (s : Collector B) (o : Option (Resource B))
      → IsKeyed s.finished
      → lookup id s.finished ≡ o
      → ((t : Collector B)
          → IsKeyed t.finished
          → Accounts ids t (take_finished ids t).0 (take_finished ids t).1)
      → Accounts
          (id ∷ ids)
          s
          (found (take_finished ids) id ids s o).0
          (found (take_finished ids) id ids s o).1
  found-Accounts id ids s none h e ih = same (id ∷ ids) s h
  found-Accounts id ids s (some r) h e ih =
      join (id ∷ ids) ids (take_finished ids next).0 s next (take_finished ids next).1
        (took id r ids s h e) (ih next (erase-IsKeyed id s.finished h))
    where
      next : Collector B
      next = record { finished = erase id s.finished; output = s.output ++ r ∷ [] }

  pub take_finished-Accounts :
      (ids : List ℕ) (s : Collector B)
      → IsKeyed s.finished
      → Accounts ids s (take_finished ids s).0 (take_finished ids s).1
  unfolding take_finished
  take_finished-Accounts [] s h = same [] s h
  take_finished-Accounts (id ∷ ids) s h =
      found-Accounts id ids s (lookup id s.finished) h refl (take_finished-Accounts ids)

  scanned-Accounts :
      (id : ℕ) (ids : List ℕ) (s : Collector B) (o : Option (Resource B))
      → IsKeyed s.finished
      → lookup id s.finished ≡ o
      → ((t : Collector B) → IsKeyed t.finished → Accounts ids t (scan ids t).0 (scan ids t).1)
      → Accounts (id ∷ ids) s (scanned (scan ids) id s o).0 (scanned (scan ids) id s o).1
  scanned-Accounts id ids s none h e ih = kept id ids (scan ids s).0 s (scan ids s).1 (ih s h)
  scanned-Accounts id ids s (some r) h e ih =
      join (id ∷ ids) ids (scan ids next).0 s next (scan ids next).1 (took id r ids s h e)
        (ih next (erase-IsKeyed id s.finished h))
    where
      next : Collector B
      next = record { finished = erase id s.finished; output = s.output ++ r ∷ [] }

  pub scan-Accounts :
      (ids : List ℕ) (s : Collector B)
      → IsKeyed s.finished
      → Accounts ids s (scan ids s).0 (scan ids s).1
  unfolding scan
  scan-Accounts [] s h = same [] s h
  scan-Accounts (id ∷ ids) s h =
      scanned-Accounts id ids s (lookup id s.finished) h refl (scan-Accounts ids)

  abbrev Absorbs : List ℕ → Collector B → List ℕ × Collector B → Type 0
  Absorbs ids s p = Accounts ids s p.0 p.1

  absorb_one-Absorbs :
      (r : Resource B) (ids : List ℕ) (s : Collector B)
      → IsKeyed s.finished
      → Absorbs ids s (absorb_one r (ids, s))
  unfolding absorb_one
  absorb_one-Absorbs r ids s h =
      if_split (Absorbs ids s) (has_id r.id ids)
        (erase_id r.id ids, record s { output = s.output ++ r ∷ [] })
        (ids, record s { finished = (r.id, r) ∷ erase r.id s.finished })
        (λ e. record {
          balance = λ w. omega (arith, put_out-append w s.output r, total-erase_id w r.id ids e);
          keyed = h;
        })
        (λ e. record { balance = λ w. refl; keyed = (refl, erase-IsKeyed r.id s.finished h) })

  pub absorb_set-Absorbs :
      (rs : List (Resource B)) (ids : List ℕ) (s : Collector B)
      → IsKeyed s.finished
      → Absorbs ids s (absorb_set rs (ids, s))
  unfolding absorb_set
  absorb_set-Absorbs [] ids s h = same ids s h
  absorb_set-Absorbs (r ∷ rs) ids s h =
      join ids next.0 (absorb_set rs next).0 s next.1 (absorb_set rs next).1 one
        (absorb_set-Absorbs rs next.0 next.1 one.keyed)
    where
      next : List ℕ × Collector B
      next = absorb_one r (ids, s)

      one : Absorbs ids s next
      one = absorb_one-Absorbs r ids s h
