-- ===== src/Resources.antt =====
-- ResourceRegistry of lib/processing_engine/ResourceRegistry.cc and .h: the resource types that libraries
-- define, and the resources kept for another use.
pub mod Pool
pub mod Load
pub mod Missed
mod Tests
use hector_core.Prelude.{
  ℕ, zero, suc, ◌+◌, Bool, true, false, ◌&&◌, ◌||◌, not, Option, none, some, List, [], ◌∷◌, ◌≡◌,
  if◌then◌else◌, ◌==◌, ltb, length, ℤ, pos, negsuc,
}
use hector_core.Processor.{Resource}
use hector_core.Objects.Maps.{equal}

-- `available` is the vector, its last element first.
pub record ResourceRegistryInfo (B : Type 0) : Type 0 where
  pub type_id : ℕ
  pub type_str : List ℕ
  pub perl : Bool
  pub library : List ℕ
  pub available : List (Resource B)

-- `id2info` and `name2id`; the files yet to be tested.
pub record ResourceRegistry (B : Type 0) : Type 0 where
  pub infos : List (ResourceRegistryInfo B)
  pub names : List (List ℕ × ℕ)
  pub native_filenames : List (List ℕ)
  pub perl_filenames : List (List ℕ)
  pub next_id : ℕ

-- What trying a file yields: a resource and the name of its type, nothing that can be used, or for a Perl
-- file no interpreter.
pub data Probe (B : Type 0) : Type 0 where
  usable : Resource B → List ℕ → Probe B
  unusable : Probe B
  no_interpreter : Probe B

abbrev pub available_size_max : ℕ
available_size_max = 10000

unfoldable pub find_name : List ℕ → List (List ℕ × ℕ) → Option ℕ
find_name name [] = none
find_name name ((k, id) ∷ m) = if equal k name then some id else find_name name m

-- The info that a search yields, and the registry behind it.
abbrev pub Loaded : Type 0 → Type 0
Loaded B = Option (ResourceRegistryInfo B) × ResourceRegistry B

-- The info of a type that was not known.
abbrev pub new_info : {B : Type 0} → Bool → List ℕ → Resource B → List ℕ → ResourceRegistryInfo B
new_info perl file r name = record {
  type_id = r.type_id;
  type_str = name;
  perl = perl;
  library = if perl then file else [];
  available = r ∷ [];
}

module _ {B : Type 0} where
  unfoldable pub find_info : ℕ → List (ResourceRegistryInfo B) → Option (ResourceRegistryInfo B)
  find_info id [] = none
  find_info id (i ∷ is) = if i.type_id == id then some i else find_info id is

  -- The write through the pointer to the info.
  unfoldable pub set_info :
      ResourceRegistryInfo B → List (ResourceRegistryInfo B) → List (ResourceRegistryInfo B)
  set_info i' [] = []
  set_info i' (i ∷ is) = if i.type_id == i'.type_id then i' ∷ is else i ∷ set_info i' is

  -- The info of a resource that was found in a file, and the registry with the resource in it.
  abbrev enter_as :
      Bool
      → List ℕ
      → Resource B
      → List ℕ
      → ResourceRegistry B
      → Option (ResourceRegistryInfo B)
      → ResourceRegistryInfo B × ResourceRegistry B
  enter_as perl file r name reg (some i) =
      let i' = record i { available = r ∷ i.available } in
      (i', record reg { infos = set_info i' reg.infos })
  enter_as perl file r name reg none = (
    new_info perl file r name,
    record reg {
      infos = new_info perl file r name ∷ reg.infos;
      names = (name, r.type_id) ∷ reg.names;
    },
  )

  unfoldable pub enter :
      Bool
      → List ℕ
      → Resource B
      → List ℕ
      → ResourceRegistry B
      → ResourceRegistryInfo B × ResourceRegistry B
  enter perl file r name reg = enter_as perl file r name reg (find_info r.type_id reg.infos)

  -- The test that ends the search.
  unfoldable pub is_wanted : Option (List ℕ) → ℕ → ResourceRegistryInfo B → Bool
  is_wanted none id i = not (id == 0) && i.type_id == id
  is_wanted (some name) id i = (not (id == 0) && i.type_id == id) || equal name i.type_str

-- What the files hold, and what creates a resource.
module _ {B : Type 0} (probe_native probe_perl : List ℕ → Probe B) (create : ℕ → Resource B)
    (create_perl : List ℕ → Option (Resource B)) (clear : Resource B → Resource B) where
  abbrev entered :
      (ResourceRegistry B → Loaded B)
      → Option (List ℕ)
      → ℕ
      → ResourceRegistryInfo B × ResourceRegistry B
      → Loaded B
  entered rest name id (i, reg) = if is_wanted name id i then (some i, reg) else rest reg

  abbrev try_native :
      (ResourceRegistry B → Loaded B)
      → Option (List ℕ)
      → ℕ
      → List ℕ
      → ResourceRegistry B
      → Probe B
      → Loaded B
  try_native rest name id file reg (usable r type_str) =
      entered rest name id (enter false file r type_str reg)
  try_native rest name id file reg unusable = rest reg
  try_native rest name id file reg no_interpreter = rest reg

  abbrev try_perl :
      (ResourceRegistry B → Loaded B)
      → Option (List ℕ)
      → ℕ
      → List ℕ
      → ResourceRegistry B
      → Probe B
      → Loaded B
  try_perl rest name id file reg (usable r type_str) =
      entered rest name id (enter true file r type_str reg)
  try_perl rest name id file reg unusable = rest reg
  try_perl rest name id file reg no_interpreter = (none, record reg { perl_filenames = [] })

  -- The two loops of `LoadResourceLibrary`, on the files that are left.
  unfoldable pub load_perl : Option (List ℕ) → ℕ → List (List ℕ) → ResourceRegistry B → Loaded B
  load_perl name id [] reg = (none, reg)
  load_perl name id (f ∷ fs) reg =
      let rest = load_perl name id fs in
      try_perl rest name id f (record reg { perl_filenames = fs }) (probe_perl f)

  abbrev or_perl : Option (List ℕ) → ℕ → Loaded B → Loaded B
  or_perl name id (some i, reg) = (some i, reg)
  or_perl name id (none, reg) = load_perl name id reg.perl_filenames reg

  unfoldable pub load_native : Option (List ℕ) → ℕ → List (List ℕ) → ResourceRegistry B → Loaded B
  load_native name id [] reg = (none, reg)
  load_native name id (f ∷ fs) reg =
      let rest = load_native name id fs in
      try_native rest name id f (record reg { native_filenames = fs }) (probe_native f)

  abbrev has_name : Option (List ℕ) → Bool
  has_name none = false
  has_name (some name) = true

  -- `none` is the failed assertion.
  unfoldable pub load_resource_library :
      Option (List ℕ) → ℕ → ResourceRegistry B → Option (Loaded B)
  load_resource_library name id reg =
      if has_name name || not (id == 0)
      then some (or_perl name id (load_native name id reg.native_filenames reg))
      else none

  abbrev info_or_load : ℕ → ResourceRegistry B → Option (ResourceRegistryInfo B) → Option (Loaded B)
  info_or_load id reg (some i) = some (some i, reg)
  info_or_load id reg none = load_resource_library none id reg

  unfoldable pub get_info : ℕ → ResourceRegistry B → Option (Loaded B)
  get_info id reg = info_or_load id reg (find_info id reg.infos)

  abbrev named : Option (Loaded B) → Option (ℤ × ResourceRegistry B)
  named none = none
  named (some (none, reg)) = some (negsuc 0, reg)
  named (some (some i, reg)) = some (pos i.type_id, reg)

  abbrev name_or_load : List ℕ → ResourceRegistry B → Option ℕ → Option (ℤ × ResourceRegistry B)
  name_or_load name reg (some id) = some (pos id, reg)
  name_or_load name reg none = named (load_resource_library (some name) 0 reg)

  unfoldable pub name_to_id : List ℕ → ResourceRegistry B → Option (ℤ × ResourceRegistry B)
  name_to_id name reg = name_or_load name reg (find_name name reg.names)

  -- A resource kept for another use gets a new id.
  abbrev take_available :
      ResourceRegistryInfo B
      → ResourceRegistry B
      → List (Resource B)
      → Option (Resource B) × ResourceRegistry B
  take_available i reg (r ∷ rest) = (
    some (record r { id = reg.next_id }),
    record reg {
      infos = set_info (record i { available = rest }) reg.infos;
      next_id = reg.next_id + 1;
    },
  )
  take_available i reg [] = (if i.perl then create_perl i.library else some (create i.type_id), reg)

  abbrev acquire_from : Option (Loaded B) → Option (Option (Resource B) × ResourceRegistry B)
  acquire_from none = none
  acquire_from (some (none, reg)) = some (none, reg)
  acquire_from (some (some i, reg)) = some (take_available i reg i.available)

  unfoldable pub acquire_resource :
      ℤ → ResourceRegistry B → Option (Option (Resource B) × ResourceRegistry B)
  acquire_resource (negsuc n) reg = some (none, reg)
  acquire_resource (pos id) reg = acquire_from (get_info id reg)

  -- Where there are enough already, the resource is deleted; of an unknown type, it is left alone.
  abbrev keep : Resource B → Option (Loaded B) → Option (ResourceRegistry B)
  keep r none = none
  keep r (some (none, reg)) = some reg
  keep r (some (some i, reg)) =
      if ltb (length i.available) available_size_max
      then some (record reg {
        infos = set_info (record i { available = clear r ∷ i.available }) reg.infos;
      })
      else some reg

  unfoldable pub release_resource :
      Option (Resource B) → ResourceRegistry B → Option (ResourceRegistry B)
  release_resource none reg = some reg
  release_resource (some r) reg = keep r (get_info r.type_id reg)
