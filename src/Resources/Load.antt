-- ===== src/Resources/Load.antt =====
-- What LoadResourceLibrary of lib/processing_engine/ResourceRegistry.cc finds.
use hector_core.Prelude.{
  ℕ, Bool, true, false, ◌||◌, not, Option, none, some, List, [], ◌∷◌, ◌≡◌, refl, sym, ap, subst,
  ◌∙◌, if◌then◌else◌, ◌==◌, inl, inr, Bool-cases,
}
use hector_core.Processor.{Resource}
use hector_core.Resources.{
  ResourceRegistryInfo, ResourceRegistry, Probe, usable, unusable, no_interpreter, Loaded,
  find_info, enter, enter_as, is_wanted, load_perl, load_native, load_resource_library, entered,
  try_native, try_perl, or_perl, has_name,
}

module _ {B : Type 0} where
  -- The files that are left.
  abbrev pub SameFiles : ResourceRegistry B → ResourceRegistry B → Type 0
  SameFiles reg reg' =
      (reg'.native_filenames ≡ reg.native_filenames) × (reg'.perl_filenames ≡ reg.perl_filenames)

  enter_as-SameFiles :
      (perl : Bool) (file : List ℕ) (r : Resource B) (name : List ℕ) (reg : ResourceRegistry B)
      (o : Option (ResourceRegistryInfo B))
      → SameFiles reg (enter_as perl file r name reg o).1
  enter_as-SameFiles perl file r name reg none = (refl, refl)
  enter_as-SameFiles perl file r name reg (some i) = (refl, refl)

  pub enter-SameFiles :
      (perl : Bool) (file : List ℕ) (r : Resource B) (name : List ℕ) (reg : ResourceRegistry B)
      → SameFiles reg (enter perl file r name reg).1
  unfolding enter
  enter-SameFiles perl file r name reg =
      enter_as-SameFiles perl file r name reg (find_info r.type_id reg.infos)

  -- The info found is one that was asked for; where none is found, no Perl file is left, and `natives` are
  -- the native ones.
  abbrev pub Searched : Option (List ℕ) → ℕ → List (List ℕ) → Loaded B → Type 0
  Searched name id natives (some i, reg) = is_wanted name id i ≡ true
  Searched name id natives (none, reg) =
      (reg.perl_filenames ≡ []) × (reg.native_filenames ≡ natives)

module _ {B : Type 0} (probe_native probe_perl : List ℕ → Probe B) (create : ℕ → Resource B)
    (create_perl : List ℕ → Option (Resource B)) (clear : Resource B → Resource B)
    (name : Option (List ℕ)) (id : ℕ) where
  abbrev Rest : Type 0
  Rest = ResourceRegistry B → Loaded B

  abbrev entered_at : Rest → ResourceRegistryInfo B × ResourceRegistry B → Loaded B
  entered_at rest = entered probe_native probe_perl create create_perl clear rest name id

  abbrev perls : List (List ℕ) → Rest
  perls fs = load_perl probe_native probe_perl create create_perl clear name id fs

  abbrev natives : List (List ℕ) → Rest
  natives fs = load_native probe_native probe_perl create create_perl clear name id fs

  entered-Searched :
      (P : Loaded B → Type 0) (rest : Rest) (i : ResourceRegistryInfo B) (reg : ResourceRegistry B)
      → (is_wanted name id i ≡ true → P (some i, reg))
      → P (rest reg)
      → P (entered_at rest (i, reg))
  entered-Searched P rest i reg h k = elim (Bool-cases (is_wanted name id i)) [
    | inl e ↦ subst P (ap (λ b. if b then (some i, reg) else rest reg) (sym e)) (h e)
    | inr e ↦ subst P (ap (λ b. if b then (some i, reg) else rest reg) (sym e)) k
  ]

  try_perl-Searched :
      (ns fs : List (List ℕ)) (f : List ℕ) (reg : ResourceRegistry B) (p : Probe B)
      → reg.native_filenames ≡ ns
      → reg.perl_filenames ≡ fs
      → ((reg' : ResourceRegistry B)
          → reg'.native_filenames ≡ ns
          → reg'.perl_filenames ≡ fs
          → Searched name id ns (perls fs reg'))
      → Searched name id ns
          (try_perl probe_native probe_perl create create_perl clear (perls fs) name id f reg p)
  try_perl-Searched ns fs f reg (usable r str) e g ih =
      let (h, k) = enter-SameFiles true f r str reg in
      entered-Searched (Searched name id ns) (perls fs) (enter true f r str reg).0
        (enter true f r str reg).1 (λ w. w) (ih (enter true f r str reg).1 (h ∙ e) (k ∙ g))
  try_perl-Searched ns fs f reg unusable e g ih = ih reg e g
  try_perl-Searched ns fs f reg no_interpreter e g ih = (refl, e)

  perls-Searched :
      (ns fs : List (List ℕ)) (reg : ResourceRegistry B)
      → reg.native_filenames ≡ ns
      → reg.perl_filenames ≡ fs
      → Searched name id ns (perls fs reg)
  unfolding load_perl
  perls-Searched ns [] reg e g = (g, e)
  perls-Searched ns (f ∷ fs) reg e g =
      try_perl-Searched ns fs f (record reg { perl_filenames = fs }) (probe_perl f) e refl
        (perls-Searched ns fs)

  -- After the native files: the info wanted, or no native file left.
  abbrev Tried : Loaded B → Type 0
  Tried (some i, reg) = is_wanted name id i ≡ true
  Tried (none, reg) = reg.native_filenames ≡ []

  try_native-Tried :
      (fs : List (List ℕ)) (f : List ℕ) (reg : ResourceRegistry B) (p : Probe B)
      → reg.native_filenames ≡ fs
      → ((reg' : ResourceRegistry B) → reg'.native_filenames ≡ fs → Tried (natives fs reg'))
      → Tried
          (try_native probe_native probe_perl create create_perl clear (natives fs) name id f reg p)
  try_native-Tried fs f reg (usable r str) e ih =
      entered-Searched Tried (natives fs) (enter false f r str reg).0 (enter false f r str reg).1
        (λ w. w) (ih (enter false f r str reg).1 ((enter-SameFiles false f r str reg).0 ∙ e))
  try_native-Tried fs f reg unusable e ih = ih reg e
  try_native-Tried fs f reg no_interpreter e ih = ih reg e

  natives-Tried :
      (fs : List (List ℕ)) (reg : ResourceRegistry B)
      → reg.native_filenames ≡ fs
      → Tried (natives fs reg)
  unfolding load_native
  natives-Tried [] reg e = e
  natives-Tried (f ∷ fs) reg e =
      try_native-Tried fs f (record reg { native_filenames = fs }) (probe_native f) refl
        (natives-Tried fs)

  or_perl-Searched :
      (out : Loaded B)
      → Tried out
      → Searched name id [] (or_perl probe_native probe_perl create create_perl clear name id out)
  or_perl-Searched (some i, reg) t = t
  or_perl-Searched (none, reg) t = perls-Searched [] reg.perl_filenames reg t refl

  -- `LoadResourceLibrary` yields the info of a type that was asked for, by its name or its id, or it has
  -- tried all files.
  pub load_resource_library-Searched :
      (reg : ResourceRegistry B) (out : Loaded B)
      → load_resource_library probe_native probe_perl create create_perl clear name id reg
        ≡ some out
      → Searched name id [] out
  unfolding load_resource_library
  load_resource_library-Searched reg out e =
      go (has_name probe_native probe_perl create create_perl clear name || not (id == 0)) e
    where
      go :
          (b : Bool)
          → (if b
              then some (
                  or_perl probe_native probe_perl create create_perl clear name id
                    (natives reg.native_filenames reg))
              else none)
            ≡ some out
          → Searched name id [] out
      go false f = cc
      go true f = subst (Searched name id []) (inside f) (
          or_perl-Searched (natives reg.native_filenames reg)
            (natives-Tried reg.native_filenames reg refl))
        where
          inside : {x y : Loaded B} → ◌≡◌ {A = Option (Loaded B)} (some x) (some y) → x ≡ y
          inside f = cc
