-- ===== src/Resources/Missed.antt =====
-- What GetInfo of lib/processing_engine/ResourceRegistry.cc finds, and what it has tried where it finds
-- nothing.
use hector_core.Prelude.{
  ℕ, Bool, true, false, ◌&&◌, not, Option, none, some, List, [], ◌∷◌, ◌≡◌, ◌≢◌, refl, subst, ◌∙◌,
  if◌then◌else◌, ◌==◌, arith, All, if_split,
}
use hector_core.Processor.{Resource}
use hector_core.Resources.{
  ResourceRegistryInfo, ResourceRegistry, Probe, usable, unusable, no_interpreter, Loaded,
  find_info, enter, enter_as, is_wanted, load_perl, load_native, load_resource_library, get_info,
  entered, try_native, try_perl, or_perl, info_or_load,
}
use hector_core.Resources.Pool.{find_type}
use hector_core.Resources.Load.{enter-SameFiles, Searched, load_resource_library-Searched}

module _ {B : Type 0} where
  enter_as-type :
      (perl : Bool) (file : List ℕ) (r : Resource B) (name : List ℕ) (reg : ResourceRegistry B)
      (o : Option (ResourceRegistryInfo B))
      → find_info r.type_id reg.infos ≡ o
      → (enter_as perl file r name reg o).0.type_id ≡ r.type_id
  enter_as-type perl file r name reg none e = refl
  enter_as-type perl file r name reg (some i) e = find_type r.type_id i reg.infos e

  enter-type :
      (perl : Bool) (file : List ℕ) (r : Resource B) (name : List ℕ) (reg : ResourceRegistry B)
      → (enter perl file r name reg).0.type_id ≡ r.type_id
  unfolding enter
  enter-type perl file r name reg =
      enter_as-type perl file r name reg (find_info r.type_id reg.infos) refl

  -- A file holds no resource of the type `id`.
  abbrev pub Misses : ℕ → Probe B → Type 0
  Misses id (usable r str) = r.type_id ≢ id
  Misses id unusable = Unit {0}
  Misses id no_interpreter = Unit {0}

  abbrev pub MissesAt : ℕ → Probe B → Type 0 → Type 0
  MissesAt id (usable r str) rest = (r.type_id ≢ id) × rest
  MissesAt id unusable rest = rest
  MissesAt id no_interpreter rest = Unit {0}

  -- The Perl files hold none, up to one for which there is no interpreter.
  abbrev pub PerlMisses : (List ℕ → Probe B) → ℕ → List (List ℕ) → Type 0
  PerlMisses probe id [] = Unit {0}
  PerlMisses probe id (f ∷ fs) = MissesAt id (probe f) (PerlMisses probe id fs)

module _ {B : Type 0} (probe_native probe_perl : List ℕ → Probe B) (create : ℕ → Resource B)
    (create_perl : List ℕ → Option (Resource B)) (clear : Resource B → Resource B) where
  module _ (id : ℕ) (valid : not (id == 0) ≡ true) where
    entered-missed :
        (P : Loaded B → Type 0) (rest : ResourceRegistry B → Loaded B) (perl : Bool) (f : List ℕ)
        (r : Resource B) (str : List ℕ) (reg : ResourceRegistry B)
        → P (some (enter perl f r str reg).0, (enter perl f r str reg).1)
        → (r.type_id ≢ id → P (rest (enter perl f r str reg).1))
        → P (
            entered probe_native probe_perl create create_perl clear rest none id
              (enter perl f r str reg))
    unfolding is_wanted
    entered-missed P rest perl f r str reg h k =
        if_split P (is_wanted none id (enter perl f r str reg).0)
          (some (enter perl f r str reg).0, (enter perl f r str reg).1)
          (rest (enter perl f r str reg).1) (λ w. h)
          (λ w. k (other (enter perl f r str reg).0.type_id (enter-type perl f r str reg) w))
      where
        other : (t : ℕ) → t ≡ r.type_id → (not (id == 0) && t == id) ≡ false → r.type_id ≢ id
        other t e w = λ q. ground (arith, e, w, valid, q)

    abbrev perls : List (List ℕ) → ResourceRegistry B → Loaded B
    perls fs = load_perl probe_native probe_perl create create_perl clear none id fs

    abbrev natives : List (List ℕ) → ResourceRegistry B → Loaded B
    natives fs = load_native probe_native probe_perl create create_perl clear none id fs

    abbrev NoPerl : List (List ℕ) → Loaded B → Type 0
    NoPerl fs (some i, reg) = Unit {0}
    NoPerl fs (none, reg) = PerlMisses probe_perl id fs

    abbrev NoPerlAt : Probe B → List (List ℕ) → Loaded B → Type 0
    NoPerlAt p fs (some i, reg) = Unit {0}
    NoPerlAt p fs (none, reg) = MissesAt id p (PerlMisses probe_perl id fs)

    next_perl :
        (p : Probe B) (fs : List (List ℕ)) (out : Loaded B)
        → (PerlMisses probe_perl id fs → MissesAt id p (PerlMisses probe_perl id fs))
        → NoPerl fs out
        → NoPerlAt p fs out
    next_perl p fs (some i, reg) k h = tt
    next_perl p fs (none, reg) k h = k h

    try_perl-NoPerl :
        (fs : List (List ℕ)) (f : List ℕ) (reg : ResourceRegistry B) (p : Probe B)
        → ((reg' : ResourceRegistry B) → NoPerl fs (perls fs reg'))
        → NoPerlAt p fs
            (try_perl probe_native probe_perl create create_perl clear (perls fs) none id f reg p)
    try_perl-NoPerl fs f reg (usable r str) ih =
        entered-missed (NoPerlAt (usable r str) fs) (perls fs) true f r str reg tt (λ n.
          next_perl (usable r str) fs (perls fs (enter true f r str reg).1) (λ h. (n, h))
            (ih (enter true f r str reg).1))
    try_perl-NoPerl fs f reg unusable ih = next_perl unusable fs (perls fs reg) (λ h. h) (ih reg)
    try_perl-NoPerl fs f reg no_interpreter ih = tt

    perls-NoPerl : (fs : List (List ℕ)) (reg : ResourceRegistry B) → NoPerl fs (perls fs reg)
    unfolding load_perl
    perls-NoPerl [] reg = tt
    perls-NoPerl (f ∷ fs) reg =
        same (perls (f ∷ fs) reg) (
          try_perl-NoPerl fs f (record reg { perl_filenames = fs }) (probe_perl f)
            (perls-NoPerl fs))
      where
        same : (out : Loaded B) → NoPerlAt (probe_perl f) fs out → NoPerl (f ∷ fs) out
        same (some i, reg) h = tt
        same (none, reg) h = h

    -- The native files, with the Perl ones as they were.
    abbrev NoNative : List (List ℕ) → List (List ℕ) → Loaded B → Type 0
    NoNative ps fs (some i, reg) = Unit {0}
    NoNative ps fs (none, reg) =
        All (λ f. Misses id (probe_native f)) fs × (reg.perl_filenames ≡ ps)

    abbrev NoNativeAt : List (List ℕ) → Probe B → List (List ℕ) → Loaded B → Type 0
    NoNativeAt ps p fs (some i, reg) = Unit {0}
    NoNativeAt ps p fs (none, reg) =
        (Misses id p × All (λ f. Misses id (probe_native f)) fs) × (reg.perl_filenames ≡ ps)

    next_native :
        (ps : List (List ℕ)) (p : Probe B) (fs : List (List ℕ)) (out : Loaded B)
        → Misses id p
        → NoNative ps fs out
        → NoNativeAt ps p fs out
    next_native ps p fs (some i, reg) m h = tt
    next_native ps p fs (none, reg) m (h, e) = ((m, h), e)

    try_native-NoNative :
        (ps fs : List (List ℕ)) (f : List ℕ) (reg : ResourceRegistry B) (p : Probe B)
        → reg.perl_filenames ≡ ps
        → ((reg' : ResourceRegistry B)
            → reg'.perl_filenames ≡ ps
            → NoNative ps fs (natives fs reg'))
        → NoNativeAt ps p fs (
            try_native probe_native probe_perl create create_perl clear
              (natives fs)
              none
              id
              f
              reg
              p)
    try_native-NoNative ps fs f reg (usable r str) e ih =
        entered-missed (NoNativeAt ps (usable r str) fs) (natives fs) false f r str reg tt (λ n.
          next_native ps (usable r str) fs (natives fs (enter false f r str reg).1) n
            (ih (enter false f r str reg).1 ((enter-SameFiles false f r str reg).1 ∙ e)))
    try_native-NoNative ps fs f reg unusable e ih =
        next_native ps unusable fs (natives fs reg) tt (ih reg e)
    try_native-NoNative ps fs f reg no_interpreter e ih =
        next_native ps no_interpreter fs (natives fs reg) tt (ih reg e)

    natives-NoNative :
        (ps fs : List (List ℕ)) (reg : ResourceRegistry B)
        → reg.perl_filenames ≡ ps
        → NoNative ps fs (natives fs reg)
    unfolding load_native
    natives-NoNative ps [] reg e = (tt, e)
    natives-NoNative ps (f ∷ fs) reg e = same (natives (f ∷ fs) reg) (
        try_native-NoNative ps fs f (record reg { native_filenames = fs }) (probe_native f) e
          (natives-NoNative ps fs))
      where
        same : (out : Loaded B) → NoNativeAt ps (probe_native f) fs out → NoNative ps (f ∷ fs) out
        same (some i, reg) h = tt
        same (none, reg) h = h

    abbrev Missed : List (List ℕ) → List (List ℕ) → Loaded B → Type 0
    Missed ps fs (some i, reg) = Unit {0}
    Missed ps fs (none, reg) =
        All (λ f. Misses id (probe_native f)) fs × PerlMisses probe_perl id ps

    or_perl-Missed :
        (ps fs : List (List ℕ)) (out : Loaded B)
        → NoNative ps fs out
        → Missed ps fs (or_perl probe_native probe_perl create create_perl clear none id out)
    or_perl-Missed ps fs (some i, reg) h = tt
    or_perl-Missed ps fs (none, reg) (h, e) = go (perls reg.perl_filenames reg) (
        subst (λ q. NoPerl q (perls reg.perl_filenames reg)) e
          (perls-NoPerl reg.perl_filenames reg))
      where
        go : (out : Loaded B) → NoPerl ps out → Missed ps fs out
        go (some i, reg) k = tt
        go (none, reg) k = (h, k)

  -- What `GetInfo` found for an id in the registry `reg`.
  abbrev pub Gets : ℕ → ResourceRegistry B → Loaded B → Type 0
  Gets id reg (some i, reg') = i.type_id ≡ id
  Gets id reg (none, reg') =
      All (λ f. Misses id (probe_native f)) reg.native_filenames
      × PerlMisses probe_perl id reg.perl_filenames
      × (reg'.perl_filenames ≡ [])
      × (reg'.native_filenames ≡ [])

  wanted_type : (id : ℕ) (i : ResourceRegistryInfo B) → is_wanted none id i ≡ true → i.type_id ≡ id
  unfolding is_wanted
  wanted_type id i w = ground arith

  both-Gets :
      (id : ℕ) (valid : not (id == 0) ≡ true) (reg : ResourceRegistry B) (out : Loaded B)
      → Searched none id [] out
      → Missed id valid reg.perl_filenames reg.native_filenames out
      → Gets id reg out
  both-Gets id valid reg (some i, reg') w m = wanted_type id i w
  both-Gets id valid reg (none, reg') (p, n) (h, k) = (h, k, p, n)

  load-Gets :
      (id : ℕ) (reg : ResourceRegistry B) (out : Loaded B)
      → load_resource_library probe_native probe_perl create create_perl clear none id reg
        ≡ some out
      → Gets id reg out
  unfolding load_resource_library
  load-Gets id reg out e = go (not (id == 0)) refl e
    where
      searched : Loaded B
      searched = or_perl probe_native probe_perl create create_perl clear none id (
          load_native probe_native probe_perl create create_perl clear none id reg.native_filenames
            reg)

      inside : {x y : Loaded B} → ◌≡◌ {A = Option (Loaded B)} (some x) (some y) → x ≡ y
      inside f = cc

      go :
          (b : Bool)
          → not (id == 0) ≡ b
          → (if b then some searched else none) ≡ some out
          → Gets id reg out
      go false v f = cc
      go true v f =
          both-Gets id v reg out
            (load_resource_library-Searched probe_native probe_perl create create_perl clear none id
              reg out e)
            (subst (Missed id v reg.perl_filenames reg.native_filenames) (inside f) (
              or_perl-Missed id v reg.perl_filenames reg.native_filenames
                (load_native probe_native probe_perl create create_perl clear none id
                  reg.native_filenames reg)
                (natives-NoNative id v reg.perl_filenames reg.native_filenames reg refl)))

  -- `GetInfo` yields the info of the type that was asked for. Where it yields NULL, no native file held a
  -- resource of that type, nor did a Perl file, up to one for which there was no interpreter; no file is
  -- left to be tried.
  pub get_info-Gets :
      (id : ℕ) (reg : ResourceRegistry B) (out : Loaded B)
      → get_info probe_native probe_perl create create_perl clear id reg ≡ some out
      → Gets id reg out
  unfolding get_info
  get_info-Gets id reg out e = go (find_info id reg.infos) refl e
    where
      inside : {x y : Loaded B} → ◌≡◌ {A = Option (Loaded B)} (some x) (some y) → x ≡ y
      inside f = cc

      go :
          (o : Option (ResourceRegistryInfo B))
          → find_info id reg.infos ≡ o
          → info_or_load probe_native probe_perl create create_perl clear id reg o ≡ some out
          → Gets id reg out
      go (some i) f g = subst (Gets id reg) (inside g) (find_type id i reg.infos f)
      go none f g = load-Gets id reg out g
