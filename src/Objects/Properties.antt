-- ===== src/Objects/Properties.antt =====
-- ObjectProperties of lib/ObjectProperties.h: the properties of a module by name, with their getters and
-- setters.
use hector_core.Prelude.{
  ℕ, Bool, true, false, not, Option, none, some, List, [], ◌∷◌, ◌++◌, ◌≡◌, ◌≢◌, refl, sym, ap, ◌∙◌,
  if◌then◌else◌,
}
use hector_core.Objects.Maps.{equal, lookup, insert, keys, lookup-insert_same, lookup-insert_other}

-- `M` is the state of the module. A getter and a setter are given the name of the property.
module _ (M : Type 0) where
  abbrev pub Getter : Type 0
  Getter = List ℕ → M → List ℕ

  abbrev pub Setter : Type 0
  Setter = List ℕ → List ℕ → M → M

  pub record Properties : Type 0 where
    pub getters : List (List ℕ × Getter)
    pub setters : List (List ℕ × Setter)
    pub init_only : List (List ℕ × Setter)

-- A parameter of the configuration: a name and a value.
abbrev pub Param : Type 0
Param = List ℕ × List ℕ

module _ {M : Type 0} where
  -- `set` is NULL for a property that is only read.
  unfoldable pub add : List ℕ → Getter M → Option (Setter M) → Bool → Properties M → Properties M
  add name get none only ps = record ps { getters = insert name get ps.getters }
  add name get (some set) only ps =
      if not only
      then record ps { getters = insert name get ps.getters; setters = insert name set ps.setters }
      else record ps {
        getters = insert name get ps.getters;
        init_only = insert name set ps.init_only;
      }

  abbrev get_by : List ℕ → M → Option (Getter M) → Option (List ℕ)
  get_by name m none = none
  get_by name m (some get) = some (get name m)

  unfoldable pub get_property : List ℕ → Properties M → M → Option (List ℕ)
  get_property name ps m = get_by name m (lookup name ps.getters)

  abbrev set_by : List ℕ → List ℕ → M → Option (Setter M) → Bool × M
  set_by name value m none = (false, m)
  set_by name value m (some set) = (true, set name value m)

  unfoldable pub set_property : List ℕ → List ℕ → Properties M → M → Bool × M
  set_property name value ps m = set_by name value m (lookup name ps.setters)

  unfoldable pub list_properties : Properties M → List (List ℕ)
  list_properties ps = keys ps.getters

  abbrev or_else : Option (Setter M) → Option (Setter M) → Option (Setter M)
  or_else (some set) other = some set
  or_else none other = other

  -- The setter that initialisation uses: that of a property which can be set at any time, or else the
  -- one only for initialisation.
  unfoldable pub init_setter : List ℕ → Properties M → Option (Setter M)
  init_setter name ps = or_else (lookup name ps.setters) (lookup name ps.init_only)

  abbrev init_by :
      (List Param → M → Bool × M) → Bool → Param → List Param → M → Option (Setter M) → Bool × M
  init_by rest ignore (name, value) params m (some set) = rest params (set name value m)
  init_by rest ignore (name, value) params m none = if ignore then rest params m else (false, m)

  -- The loop of `InitProperties`.
  unfoldable pub init_properties : Bool → Properties M → List Param → M → Bool × M
  init_properties ignore ps [] m = (true, m)
  init_properties ignore ps (p ∷ params) m =
      init_by (λ _ m'. init_properties ignore ps params m') ignore p params m (init_setter p.0 ps)

  abbrev init_one : List ℕ → List ℕ → M → Option (Setter M) → Option (Bool × M)
  init_one name value m none = none
  init_one name value m (some set) = some (true, set name value m)

  -- `none`: for a name that is not known, the code reads the end of a map for its message, or ends
  -- without a result.
  unfoldable pub init_property : List ℕ → List ℕ → Properties M → M → Option (Bool × M)
  init_property name value ps m = init_one name value m (init_setter name ps)

  abbrev set_next : (M → M) → List ℕ → List ℕ → M → Option (Setter M) → M
  set_next rest name value m none = rest m
  set_next rest name value m (some set) = rest (set name value m)

  -- All parameters set one behind the other, those that are not known left out.
  abbrev pub set_all : Properties M → List Param → M → M
  set_all ps [] m = m
  set_all ps ((name, value) ∷ params) m =
      set_next (λ m'. set_all ps params m') name value m (init_setter name ps)

  -- Every name is known.
  abbrev pub AllKnown : Properties M → List Param → Type 0
  AllKnown ps [] = Unit {0}
  AllKnown ps (p ∷ params) = (init_setter p.0 ps ≢ none) × AllKnown ps params

  -- What `InitProperties` did: everything, or everything before the first name that is not known.
  abbrev pub Inits : Bool → Properties M → List Param → M → Bool × M → Type 0
  Inits ignore ps params m (ok, m') =
      (pre post : List Param) × (params ≡ pre ++ post)
      × (m' ≡ set_all ps pre m)
      × (ignore ≡ false → AllKnown ps pre)
      × (ok ≡ true → post ≡ [])
      × (ok ≡ false
          → (ignore ≡ false)
            × ((p : Param) × (later : List Param) × (post ≡ p ∷ later)
                × (init_setter p.0 ps ≡ none)))

  set_all-some :
      (ps : Properties M) (name value : List ℕ) (params : List Param) (m : M) (set : Setter M)
      → init_setter name ps ≡ some set
      → set_all ps ((name, value) ∷ params) m ≡ set_all ps params (set name value m)
  set_all-some ps name value params m set e = ap (set_next (set_all ps params) name value m) e

  set_all-none :
      (ps : Properties M) (name value : List ℕ) (params : List Param) (m : M)
      → init_setter name ps ≡ none
      → set_all ps ((name, value) ∷ params) m ≡ set_all ps params m
  set_all-none ps name value params m e = ap (set_next (set_all ps params) name value m) e

  Inits-more :
      (ignore : Bool) (ps : Properties M) (p : Param) (params : List Param) (m m' : M)
      (out : Bool × M)
      → ((pre : List Param) → set_all ps (p ∷ pre) m ≡ set_all ps pre m')
      → (ignore ≡ false → init_setter p.0 ps ≢ none)
      → Inits ignore ps params m' out
      → Inits ignore ps (p ∷ params) m out
  Inits-more ignore ps p params m m' (ok, r) s k (pre, post, e, f, g, h, i) =
      (p ∷ pre, post, ap (λ l. p ∷ l) e, f ∙ sym (s pre), λ n. (k n, g n), h, i)

  init_by-Inits :
      (ignore : Bool) (ps : Properties M) (p : Param) (params : List Param) (m : M)
      (o : Option (Setter M))
      → init_setter p.0 ps ≡ o
      → ((m' : M) → Inits ignore ps params m' (init_properties ignore ps params m'))
      → Inits ignore ps
          (p ∷ params)
          m
          (init_by (λ _ m'. init_properties ignore ps params m') ignore p params m o)
  init_by-Inits ignore ps (name, value) params m (some set) e ih =
      Inits-more ignore ps (name, value) params m (set name value m)
        (init_properties ignore ps params (set name value m))
        (λ pre. set_all-some ps name value pre m set e) (λ n f. none-ne (sym e ∙ f))
        (ih (set name value m))
    where
      none-ne : {s : Setter M} → some s ≡ none → ⊥
      none-ne e = cc
  init_by-Inits true ps (name, value) params m none e ih =
      Inits-more true ps (name, value) params m m (init_properties true ps params m)
        (λ pre. set_all-none ps name value pre m e) (λ n. cc) (ih m)
  init_by-Inits false ps (name, value) params m none e ih = (
    [],
    (name, value) ∷ params,
    refl,
    refl,
    λ n. tt,
    λ t. cc,
    λ f. (refl, ((name, value), params, refl, e)),
  )

  -- `InitProperties` sets the parameters in their order. It returns true when it has gone through them
  -- all, and false, without `ignoreUnknown`, at the first name that is not known: those before it stay
  -- set.
  pub init_properties-Inits :
      (ignore : Bool) (ps : Properties M) (params : List Param) (m : M)
      → Inits ignore ps params m (init_properties ignore ps params m)
  unfolding init_properties
  init_properties-Inits ignore ps [] m = ([], [], refl, refl, λ n. tt, λ t. refl, λ f. cc)
  init_properties-Inits ignore ps (p ∷ params) m =
      init_by-Inits ignore ps p params m (init_setter p.0 ps) refl
        (init_properties-Inits ignore ps params)

  -- A property that is added for initialisation only can be read and initialised by its name, but not
  -- set later, unless it has a setter already; other properties stay as they were.
  pub add_init_only :
      (name name' value : List ℕ) (get : Getter M) (set : Setter M) (ps : Properties M) (m : M)
      → lookup name ps.setters ≡ none
      → (get_property name (add name get (some set) true ps) m ≡ some (get name m))
        × (set_property name value (add name get (some set) true ps) m ≡ (false, m))
        × (init_property name value (add name get (some set) true ps) m
            ≡ some (true, set name value m))
        × (equal name name' ≡ false
            → (get_property name' (add name get (some set) true ps) m ≡ get_property name' ps m)
              × (set_property name' value (add name get (some set) true ps) m
                  ≡ set_property name' value ps m)
              × (init_property name' value (add name get (some set) true ps) m
                  ≡ init_property name' value ps m))
  unfolding add get_property set_property init_property init_setter
  add_init_only name name' value get set ps m h = (
    ap (get_by name m) (lookup-insert_same name get ps.getters),
    ap (set_by name value m) h,
    ap (init_one name value m) (
        ap (λ o. or_else o (lookup name (insert name set ps.init_only))) h
        ∙ lookup-insert_same name set ps.init_only),
    λ d. (
      ap (get_by name' m) (lookup-insert_other name name' get ps.getters d),
      refl,
      ap (λ o. init_one name' value m (or_else (lookup name' ps.setters) o))
          (lookup-insert_other name name' set ps.init_only d),
    ),
  )
