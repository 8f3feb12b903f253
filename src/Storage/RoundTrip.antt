-- ===== src/Storage/RoundTrip.antt =====
-- Save and Load of lib/processing_engine/module over the frames of Resource.cc: what is saved with type, id
-- and status is loaded again.
use hector_core.Prelude.{
  ℕ, ◌+◌, ◌<◌, Bool, true, false, Option, none, some, List, [], ◌∷◌, ◌++◌, map, All, arith, ◌≡◌,
  refl, ap, ◌∙◌, sym, subst, if◌then◌else◌, length,
}
use hector_core.Processor.{Resource}
use hector_core.Streams.Frame.{
  IsInt, serialize_resource, deserialize_resource, serialize-deserialize,
}
use hector_core.Storage.Load.{resource}
use hector_core.Storage.Loaded.{Reads, collect, loading, collect_all, limited, marks}
use hector_core.Storage.Save.{Save, process_outputs}
use hector_core.Storage.Rotation.{IsRotated, kept, resources, process_outputs-Stored}

module _ {B : Type 0} (serialize : Resource B → Option (List ℕ))
    (deserialize : Resource B → List ℕ → Option (Resource B × List ℕ))
    (acquire : ℕ → Option (Resource B)) (fresh : ℕ → Resource B) where
  abbrev read_end : List ℕ → Option (Resource B × List ℕ) → Option (Resource B) × List ℕ
  read_end s none = (none, s)
  read_end s (some (r, s')) = (some r, s')

  -- One resource of a stream of numbers.
  unfoldable pub read_frame : List ℕ → Option (Resource B) × List ℕ
  read_frame s = read_end s (deserialize_resource serialize deserialize acquire s 0)

  unfoldable pub frame_of : Resource B → List ℕ
  frame_of r = (serialize_resource serialize deserialize acquire r true true).1

  abbrev pub frames : List (Resource B) → List ℕ
  frames [] = []
  frames (r ∷ rs) = frame_of r ++ frames rs

  -- What is loaded of a resource.
  abbrev pub back : Resource B → Resource B
  back r = record (fresh r.type_id) { id = r.id; status = r.status; content = r.content }

  -- A resource whose class reads what it writes, with a type, an id and a status in their ranges.
  pub record IsSound (r : Resource B) : Type 0 where
    pub payload : List ℕ
    pub small_type : r.type_id < 128
    pub small_id : r.id < 2147483648
    pub int_status : IsInt r.status
    pub acquired : acquire r.type_id ≡ some (fresh r.type_id)
    pub serialized : serialize r ≡ some payload
    pub reads_back :
        (x : Resource B) (rest : List ℕ)
        → deserialize x (payload ++ rest) ≡ some (record x { content = r.content }, rest)

  read-frame_of :
      (r : Resource B) (rest : List ℕ)
      → IsSound r
      → read_frame (frame_of r ++ rest) ≡ (some (back r), rest)
  unfolding read_frame frame_of
  read-frame_of r rest h =
      let (w, s, d) =
        serialize-deserialize serialize deserialize acquire r (fresh r.type_id) h.payload rest
          h.small_type h.small_id h.int_status h.acquired h.serialized (λ x. h.reads_back x rest) in
      ap
        (λ f.
          read_end (f.1 ++ rest)
            (deserialize_resource serialize deserialize acquire (f.1 ++ rest) 0))
        s
      ∙ ap (read_end (w ++ rest)) d

  frames-Reads :
      (rs : List (Resource B)) → All IsSound rs → Reads read_frame (map back rs) (frames rs)
  unfolding read_frame deserialize_resource
  frames-Reads [] h = refl
  frames-Reads (r ∷ rs) h = (frames rs, read-frame_of r (frames rs) h.0, frames-Reads rs h.1)

  is_some : Option (List ℕ) → Bool
  is_some none = false
  is_some (some w) = true

  -- `SerializeResource` succeeds when the class does.
  unfoldable pub serializes : Resource B → Bool
  unfolding is_some
  serializes r = is_some (serialize r)

  kept_sound :
      (size : Resource B → ℕ) (rs : List (Resource B))
      → All IsSound rs
      → kept size serializes rs ≡ rs
  unfolding serializes
  kept_sound size [] h = refl
  kept_sound size (r ∷ rs) h =
      ap (λ o. (if is_some o then r ∷ [] else []) ++ kept size serializes rs) h.0.serialized
      ∙ ap (λ l. r ∷ l) (kept_sound size rs h.1)

  -- What Save writes with types, ids and statuses into its files is what Load returns for these files,
  -- one behind the other: the resources with their types, ids, statuses and contents in their order, up to
  -- `maxItems`, and the marker. The resources are sound, and nothing was written before.
  pub save-load :
      (size : Resource B → ℕ) (reopens : Bool) (rs : List (Resource B)) (s s' : Save (Resource B))
      (max : ℕ) (mark : Option ℕ)
      → IsRotated size serializes s
      → s.opened ≡ true
      → resources s.written ≡ []
      → All IsSound rs
      → process_outputs size serializes reopens rs s ≡ some s'
      → collect read_frame
          (length (map back rs) + 2)
          (loading read_frame 0 max 0 false mark false false (frames (resources s'.written)))
        ≡ map resource (limited read_frame max 0 (map back rs)) ++ marks read_frame mark
  save-load size reopens rs s s' max mark i o e h p =
      collect_all read_frame max 0 false mark false (map back rs) (frames (resources s'.written))
        (subst (λ l. Reads read_frame (map back rs) (frames l)) (sym stored_lem)
          (frames-Reads rs h))
        (omega arith)
    where
      stored_lem : resources s'.written ≡ rs
      stored_lem =
          (process_outputs-Stored size serializes reopens rs s s' i p).2
          ∙ ap (λ b. resources s.written ++ (if b then kept size serializes rs else [])) o
          ∙ ap (λ l. l ++ kept size serializes rs) e
          ∙ kept_sound size rs h
