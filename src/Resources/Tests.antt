-- ===== src/Resources/Tests.antt =====
-- Runs of a small registry of resource types, and the theorems at concrete inputs.
use hector_core.Prelude.{ℕ, false, Option, none, some, List, [], ◌∷◌, refl, pos}
use hector_core.Processor.{Resource}
use hector_core.Resources.{
  ResourceRegistryInfo, ResourceRegistry, Probe, usable, unusable, find_info, enter, is_wanted,
  load_native, load_resource_library, get_info,
}
use hector_core.Resources.Missed.{get_info-Gets, Gets}

abbrev made : ℕ → Resource ℕ
made type_id = record {
  id = 1;
  type_id = type_id;
  status = pos 0;
  skip = false;
  deleted = false;
  content = 0;
}

-- The file named by one byte holds the type of that number, and no other file holds one.
abbrev probe : List ℕ → Probe ℕ
probe [] = unusable
probe (c ∷ s) = usable (made c) (c ∷ s)

abbrev cleared : Resource ℕ → Resource ℕ
cleared r = record r { content = 0 }

abbrev no_perl : List ℕ → Option (Resource ℕ)
no_perl file = none

abbrev info : ResourceRegistryInfo ℕ
info = record { type_id = 3; type_str = 3 ∷ []; perl = false; library = []; available = [] }

abbrev registry : ResourceRegistry ℕ
registry = record {
  infos = info ∷ [];
  names = (3 ∷ [], 3) ∷ [];
  native_filenames = (4 ∷ []) ∷ [] ∷ (5 ∷ []) ∷ [];
  perl_filenames = [];
  next_id = 20;
}

abbrev loaded : ResourceRegistryInfo ℕ
loaded = record {
  type_id = 5;
  type_str = 5 ∷ [];
  perl = false;
  library = [];
  available = made 5 ∷ [];
}

abbrev loaded_4 : ResourceRegistryInfo ℕ
loaded_4 = record {
  type_id = 4;
  type_str = 4 ∷ [];
  perl = false;
  library = [];
  available = made 4 ∷ [];
}

abbrev registry_5 : ResourceRegistry ℕ
registry_5 = record registry {
  infos = loaded ∷ loaded_4 ∷ info ∷ [];
  names = (5 ∷ [], 5) ∷ (4 ∷ [], 4) ∷ (3 ∷ [], 3) ∷ [];
  native_filenames = [];
}

get_info-Gets_example : Gets probe probe made no_perl cleared 5 registry (some loaded, registry_5)
unfolding get_info find_info load_resource_library load_native enter is_wanted
get_info-Gets_example =
    get_info-Gets probe probe made no_perl cleared 5 registry (some loaded, registry_5) refl
