-- ===== src/Processor/Read/Limit.antt =====
-- How much RunThread reads in a round.
use hector_core.Prelude.{
  ℕ, zero, suc, ◌+◌, ◌≤◌, ◌<◌, Bool, true, false, Option, none, some, List, [], ◌∷◌, length,
  length-append, arith, ◌≡◌, refl, sym, ap, ◌∙◌, subst, if◌then◌else◌, if_both, leb, ltb_ℤ, pos,
  ◌&&◌,
}
use hector_core.Processor.{Resource}
use hector_core.Processor.Apply.{ModuleType, Applied, next_multi}
use hector_core.Processor.Multi.{Setting, apply_modules_of, update, update_same}
use hector_core.Processor.Read.{
  Gate, unpaused, continued, stopped, Reading, Read, Ended, More, over, cancelled, stuck,
  reads_module, waits, is_read, push_input, pass_gate, deliver, after_apply, apply_to, counted,
  after_item, at_gate, read_one, read_loop,
}

-- A number is the limit, or larger already.
abbrev pub limit : ℕ → ℕ → ℕ
limit n r = if leb r n then n else r

module _ {B W Q : Type 0} where
  -- The resources at the first multi module, which is the module `k`.
  abbrev pub given : ℕ → Reading B W Q → ℕ
  given k x = length (x.round.multis k).inputs

  -- The loop comes to its end, and gives the module no more than the limit.
  abbrev pub Ends : ℕ → ℕ → Reading B W Q → Ended B W Q → Type 0
  Ends n k b (over x) = given k x + b.resources_read ≤ given k b + limit n b.resources_read
  Ends n k b cancelled = Unit {0}
  Ends n k b stuck = ⊥

  abbrev Fits : ℕ → ℕ → Reading B W Q → Read B W Q → Type 0
  Fits n k b none = Unit {0}
  Fits n k b (some e) = Ends n k b e

  abbrev AllFit : ℕ → ℕ → ℕ → More B W Q → Type 0
  AllFit n k fuel rest = (x : Reading B W Q) → n ≤ fuel + x.resources_read → Fits n k x (rest x)

  -- A round below the limit, before and after a resource was taken from the queue.
  abbrev Below : ℕ → ℕ → ℕ → Reading B W Q → Reading B W Q → Type 0
  Below n k fuel b x =
      (given k x ≡ given k b)
      × (b.resources_read ≤ x.resources_read)
      × (x.resources_read ≤ b.resources_read + 1)
      × (b.resources_read < n)
      × (n ≤ suc fuel + b.resources_read)

  Fits-before :
      (n k fuel : ℕ) (b x y : Reading B W Q) (out : Read B W Q)
      → Below n k fuel b x
      → given k y ≡ given k x + 1
      → y.resources_read ≡ x.resources_read + 1
      → Fits n k y out
      → Fits n k b out
  Fits-before n k fuel b x y none l g r h = tt
  Fits-before n k fuel b x y (some cancelled) l g r h = tt
  Fits-before n k fuel b x y (some stuck) l g r h = h
  Fits-before n k fuel b x y (some (over z)) (e, m, u, l, f) g r h = ground arith

  Fits-over : (n k fuel : ℕ) (b x : Reading B W Q) → Below n k fuel b x → Fits n k b (some (over x))
  Fits-over n k fuel b x (e, m, u, l, f) = ground arith

  at_start :
      (n k fuel : ℕ) (x : Reading B W Q)
      → n ≤ suc fuel + x.resources_read
      → x.resources_read < n
      → Below n k fuel x x
  at_start n k fuel x f l = (refl, omega arith, omega arith, l, f)

module _ {B W Q : Type 0} (p : Setting B W Q) (ms : List ModuleType) (counts : Bool) (n k : ℕ)
    (first : next_multi ms 0 ≡ some k) where
  deliver-Fits :
      (fuel : ℕ) (rest : More B W Q) (b x : Reading B W Q) (r : Resource B)
      → AllFit n k fuel rest
      → Below n k fuel b x
      → Fits n k b (deliver p ms counts (some k) rest x r)
  unfolding deliver
  deliver-Fits fuel rest b x r h l =
      Fits-before n k fuel b x y (rest y) l more refl (h y (omega (arith, l.1, l.4)))
    where
      y : Reading B W Q
      y =
          is_read
            (record x.round { multis = update x.round.multis k (push_input r (x.round.multis k)) })
            x

      more : given k y ≡ given k x + 1
      more =
          ap (λ m. length m.inputs) (update_same x.round.multis k (push_input r (x.round.multis k)))
          ∙ length-append (x.round.multis k).inputs (r ∷ [])

  after_apply-Fits :
      (fuel : ℕ) (rest : More B W Q) (b x : Reading B W Q) (o : Applied B W)
      → AllFit n k fuel rest
      → Below n k fuel b x
      → Fits n k b (after_apply p ms counts rest x o)
  unfolding after_apply
  after_apply-Fits fuel rest b x none h l = tt
  after_apply-Fits fuel rest b x (some (none, stop, st)) h l =
      if_both (Fits n k b) (waits x && stop) (some cancelled)
        (some (over (record x { round = record x.round { applied = st } }))) tt
        (Fits-over n k fuel b (record x { round = record x.round { applied = st } }) l)
  after_apply-Fits fuel rest b x (some (some r, stop, st)) h l =
      subst
        (λ o.
          Fits n k b
            (deliver p ms counts o rest (record x { round = record x.round { applied = st } }) r))
        (sym first)
        (deliver-Fits fuel rest b (record x { round = record x.round { applied = st } }) r h l)

  apply_to-Fits :
      (fuel : ℕ) (rest : More B W Q) (b x : Reading B W Q) (o : Option (Resource B))
      → AllFit n k fuel rest
      → Below n k fuel b x
      → Fits n k b (apply_to p ms counts rest o x)
  apply_to-Fits fuel rest b x o h l =
      after_apply-Fits fuel rest b x (apply_modules_of p ms 0 o x.round.applied) h l

  after_item-Fits :
      (fuel : ℕ) (rest : More B W Q) (x : Reading B W Q) (l : List (Option (Resource B)))
      → AllFit n k fuel rest
      → n ≤ suc fuel + x.resources_read
      → x.resources_read < n
      → Fits n k x (after_item p ms counts rest x l)
  unfolding after_item
  after_item-Fits fuel rest x [] h f l =
      if_both (Fits n k x) (waits x) (some cancelled) (some (over x)) tt
        (Fits-over n k fuel x x (at_start n k fuel x f l))
  after_item-Fits fuel rest x (none ∷ t) h f l =
      if_both (Fits n k x) (waits x) (some cancelled) (some (over (record x { arriving = t }))) tt
        (Fits-over n k fuel x (record x { arriving = t }) (at_start n k fuel x f l))
  after_item-Fits fuel rest x (some r ∷ t) h f l =
      apply_to-Fits fuel rest x (counted p ms counts (record x { arriving = t })) (some r) h
        (refl, omega arith, omega arith, l, f)

  at_gate-Fits :
      (fuel : ℕ) (rest : More B W Q) (x : Reading B W Q) (l : List Gate)
      → AllFit n k fuel rest
      → n ≤ suc fuel + x.resources_read
      → x.resources_read < n
      → Fits n k x (at_gate p ms counts rest x l)
  unfolding at_gate pass_gate
  at_gate-Fits fuel rest x [] h f l = apply_to-Fits fuel rest x x none h (at_start n k fuel x f l)
  at_gate-Fits fuel rest x (unpaused ∷ t) h f l =
      apply_to-Fits fuel rest x (record x { gates = t }) none h (at_start n k fuel x f l)
  at_gate-Fits fuel rest x (continued ∷ t) h f l =
      if_both (Fits n k x) x.round.block (apply_to p ms counts rest none (record x { gates = t }))
        (some (over (record x { gates = t })))
        (apply_to-Fits fuel rest x (record x { gates = t }) none h (at_start n k fuel x f l))
        (Fits-over n k fuel x (record x { gates = t }) (at_start n k fuel x f l))
  at_gate-Fits fuel rest x (stopped ∷ t) h f l =
      if_both (Fits n k x) x.round.block (some cancelled) (some (over (record x { gates = t }))) tt
        (Fits-over n k fuel x (record x { gates = t }) (at_start n k fuel x f l))

  read_one-Fits :
      (fuel : ℕ) (rest : More B W Q) (x : Reading B W Q)
      → AllFit n k fuel rest
      → n ≤ suc fuel + x.resources_read
      → x.resources_read < n
      → Fits n k x (read_one p ms counts rest x)
  read_one-Fits fuel rest x h f l =
      if_both (Fits n k x) (reads_module ms) (at_gate p ms counts rest x x.gates)
        (after_item p ms counts rest x x.arriving) (at_gate-Fits fuel rest x x.gates h f l)
        (after_item-Fits fuel rest x x.arriving h f l)

  read_loop-Fits : (fuel : ℕ) → AllFit n k fuel (read_loop p ms counts fuel (pos n))
  unfolding read_loop
  read_loop-Fits zero x f = go (ltb_ℤ (pos x.resources_read) (pos n)) refl
    where
      go :
          (t : Bool)
          → ltb_ℤ (pos x.resources_read) (pos n) ≡ t
          → Fits n k x (if t then some stuck else some (over x))
      go true e = ground arith
      go false e = ground arith
  read_loop-Fits (suc fuel) x f =
      go (ltb_ℤ (pos x.resources_read) (pos n)) refl
        (read_one-Fits fuel rest x (read_loop-Fits fuel) f)
    where
      rest : More B W Q
      rest = read_loop p ms counts fuel (pos n)

      go :
          (t : Bool)
          → ltb_ℤ (pos x.resources_read) (pos n) ≡ t
          → (x.resources_read < n → Fits n k x (read_one p ms counts rest x))
          → Fits n k x (if t then read_one p ms counts rest x else some (over x))
      go true e one = one (ground arith)
      go false e one = ground arith

  -- The loop that reads comes to its end after at most `readMax` rounds, and gives the first multi
  -- module no more resources than `readMax` allows: as many as the module said it could still take.
  pub read_loop-Ends :
      (fuel : ℕ) (x : Reading B W Q) (e : Ended B W Q)
      → n ≤ fuel + x.resources_read
      → read_loop p ms counts fuel (pos n) x ≡ some e
      → Ends n k x e
  read_loop-Ends fuel x e f eq = subst (Fits n k x) eq (read_loop-Fits fuel x f)
