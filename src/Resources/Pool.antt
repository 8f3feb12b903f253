-- ===== src/Resources/Pool.antt =====
-- What AcquireResource, ReleaseResource and GetInfo of lib/processing_engine/ResourceRegistry.cc do.
use hector_core.Prelude.{
  ℕ, ◌+◌, ◌<◌, true, Option, none, some, List, [], ◌∷◌, ◌≡◌, refl, ap, ◌∙◌, ltb, length, pos, arith,
}
use hector_core.Processor.{Resource}
use hector_core.Resources.{
  ResourceRegistryInfo, ResourceRegistry, Probe, Loaded, available_size_max, find_info, set_info,
  load_resource_library, get_info, acquire_resource, release_resource, info_or_load, keep,
  acquire_from,
}

module _ {B : Type 0} where
  pub find_type :
      (id : ℕ) (i : ResourceRegistryInfo B) (is : List (ResourceRegistryInfo B))
      → find_info id is ≡ some i
      → i.type_id ≡ id
  unfolding find_info
  find_type id i [] e = cc
  find_type id i (x ∷ xs) e = ground (arith, find_type id i xs)

  find-set :
      (id : ℕ) (i i' : ResourceRegistryInfo B) (is : List (ResourceRegistryInfo B))
      → find_info id is ≡ some i
      → i'.type_id ≡ id
      → find_info id (set_info i' is) ≡ some i'
  unfolding find_info set_info
  find-set id i i' [] e t = cc
  find-set id i i' (x ∷ xs) e t = ground (arith, find-set id i i' xs)

  set-set :
      (id : ℕ) (i i' : ResourceRegistryInfo B) (is : List (ResourceRegistryInfo B))
      → find_info id is ≡ some i
      → i'.type_id ≡ id
      → set_info i (set_info i' is) ≡ is
  unfolding find_info set_info
  set-set id i i' [] e t = refl
  set-set id i i' (x ∷ xs) e t = ground (arith, set-set id i i' xs, find_type id i xs)

module _ {B : Type 0} (probe_native probe_perl : List ℕ → Probe B) (create : ℕ → Resource B)
    (create_perl : List ℕ → Option (Resource B)) (clear : Resource B → Resource B) where
  -- A resource that is released, of a known type with fewer than 10000 kept, is the next one of its type
  -- that is acquired: cleared, and with a new id. Nothing else changes.
  pub release-acquire :
      (r : Resource B) (i : ResourceRegistryInfo B) (reg : ResourceRegistry B)
      → find_info r.type_id reg.infos ≡ some i
      → length i.available < available_size_max
      → (reg' : ResourceRegistry B) × (release_resource probe_native probe_perl create create_perl
            clear
            (some r)
            reg
          ≡ some reg')
        × (acquire_resource probe_native probe_perl create create_perl clear (pos r.type_id) reg'
            ≡ some (
              some (record (clear r) { id = reg.next_id }),
              record reg { next_id = reg.next_id + 1 },
            ))
  unfolding release_resource acquire_resource get_info
  release-acquire r i reg f h = (
    record reg { infos = set_info kept reg.infos },
    ap (λ o. keep_ r (info_or_load_ r.type_id reg o)) f ∙ simp (is_less (length i.available) h),
    ap
          (λ o.
            acquire_from_
              (info_or_load_ r.type_id (record reg { infos = set_info kept reg.infos }) o))
          (find-set r.type_id i kept reg.infos f (find_type r.type_id i reg.infos f))
        ∙ ap
            (λ l. some (
              some (record (clear r) { id = reg.next_id }),
              record reg { infos = l; next_id = reg.next_id + 1 },
            ))
            (set-set r.type_id i kept reg.infos f (find_type r.type_id i reg.infos f)),
  )
    where
      kept : ResourceRegistryInfo B
      kept = record i { available = clear r ∷ i.available }

      keep_ : Resource B → Option (Loaded B) → Option (ResourceRegistry B)
      keep_ = keep probe_native probe_perl create create_perl clear

      info_or_load_ : ℕ → ResourceRegistry B → Option (ResourceRegistryInfo B) → Option (Loaded B)
      info_or_load_ = info_or_load probe_native probe_perl create create_perl clear

      acquire_from_ : Option (Loaded B) → Option (Option (Resource B) × ResourceRegistry B)
      acquire_from_ = acquire_from probe_native probe_perl create create_perl clear

      is_less : (n : ℕ) → n < available_size_max → ltb n available_size_max ≡ true
      is_less n l = ground arith

  -- To acquire a resource of the type 0 fails the assertion of `LoadResourceLibrary`, unless a library
  -- has defined that type.
  pub acquire-zero :
      (reg : ResourceRegistry B)
      → find_info 0 reg.infos ≡ none
      → acquire_resource probe_native probe_perl create create_perl clear (pos 0) reg ≡ none
  unfolding acquire_resource get_info load_resource_library
  acquire-zero reg e = simp e
