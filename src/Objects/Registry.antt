-- ===== src/Objects/Registry.antt =====
-- ObjectRegistry of lib/ObjectRegistry.cc.
use hector_core.Prelude.{
  ℕ, Bool, true, false, Option, none, some, List, [], ◌∷◌, ◌≡◌, refl, ap, ap₂, fun_ext, ◌∙◌,
  if◌then◌else◌,
}
use hector_core.Objects.Maps.{equal, lookup, insert, erase, keys, lookup-insert, lookup-erase}

-- The objects by their ids. `GetProperty` and `SetProperty` of an object are the virtual methods of its
-- class.
module _ {O : Type 0} (get_property : List ℕ → O → Option (List ℕ))
    (set_property : List ℕ → List ℕ → O → Bool × O) where
  abbrev Objects : Type 0
  Objects = List (List ℕ × O)

  abbrev register_found : List ℕ → O → Objects → Option O → Bool × Objects
  register_found id o objects none = (true, insert id o objects)
  register_found id o objects (some _) = (false, objects)

  unfoldable pub register_object : List ℕ → O → Objects → Bool × Objects
  register_object id o objects = register_found id o objects (lookup id objects)

  abbrev unregister_found : List ℕ → Objects → Option O → Bool × Objects
  unregister_found id objects none = (false, objects)
  unregister_found id objects (some _) = (true, erase id objects)

  unfoldable pub unregister_object : List ℕ → Objects → Bool × Objects
  unregister_object id objects = unregister_found id objects (lookup id objects)

  unfoldable pub get_object : List ℕ → Objects → Option O
  get_object id objects = lookup id objects

  unfoldable pub get_ids : Objects → List (List ℕ)
  get_ids objects = keys objects

  unfoldable pub get_object_property : List ℕ → List ℕ → Objects → Option (List ℕ)
  get_object_property id name objects = elim (lookup id objects) [
    | some o ↦ get_property name o
    | none ↦ none
  ]

  -- The object is changed in its place.
  abbrev set_found : List ℕ → List ℕ → List ℕ → Objects → Option O → Bool × Objects
  set_found id name value objects none = (false, objects)
  set_found id name value objects (some o) =
      let (ok, o') = set_property name value o in (ok, insert id o' objects)

  unfoldable pub set_object_property : List ℕ → List ℕ → List ℕ → Objects → Bool × Objects
  set_object_property id name value objects = set_found id name value objects (lookup id objects)

  pub data Command : Type 0 where
    register : List ℕ → O → Command
    unregister : List ℕ → Command
    set_value : List ℕ → List ℕ → List ℕ → Command

  unfoldable pub perform : Command → Objects → Bool × Objects
  perform (register id o) objects = register_object id o objects
  perform (unregister id) objects = unregister_object id objects
  perform (set_value id name value) objects = set_object_property id name value objects

  unfoldable pub perform_all : List Command → Objects → List Bool × Objects
  perform_all [] objects = ([], objects)
  perform_all (c ∷ cs) objects =
      let (b, objects') = perform c objects in
      let (bs, last) = perform_all cs objects' in (b ∷ bs, last)

  -- The registry as it is meant: a partial function from ids.
  abbrev pub Table : Type 0
  Table = List ℕ → Option O

  abbrev update : List ℕ → Option O → Table → Table
  update id v table id' = if equal id id' then v else table id'

  abbrev register_at : List ℕ → O → Table → Option O → Bool × Table
  register_at id o table none = (true, update id (some o) table)
  register_at id o table (some _) = (false, table)

  abbrev unregister_at : List ℕ → Table → Option O → Bool × Table
  unregister_at id table none = (false, table)
  unregister_at id table (some _) = (true, update id none table)

  abbrev set_at : List ℕ → List ℕ → List ℕ → Table → Option O → Bool × Table
  set_at id name value table none = (false, table)
  set_at id name value table (some o) =
      let (ok, o') = set_property name value o in (ok, update id (some o') table)

  abbrev pub meant : Command → Table → Bool × Table
  meant (register id o) table = register_at id o table (table id)
  meant (unregister id) table = unregister_at id table (table id)
  meant (set_value id name value) table = set_at id name value table (table id)

  abbrev pub meant_all : List Command → Table → List Bool × Table
  meant_all [] table = ([], table)
  meant_all (c ∷ cs) table =
      let (b, table') = meant c table in let (bs, last) = meant_all cs table' in (b ∷ bs, last)

  -- What the map holds, read as a partial function.
  abbrev pub view : Objects → Table
  view objects id = lookup id objects

  view-insert :
      (id : List ℕ) (o : O) (objects : Objects)
      → view (insert id o objects) ≡ update id (some o) (view objects)
  view-insert id o objects = fun_ext (λ k. lookup-insert id k o objects)

  view-erase :
      (id : List ℕ) (objects : Objects) → view (erase id objects) ≡ update id none (view objects)
  view-erase id objects = fun_ext (λ k. lookup-erase id k objects)

  register-meant :
      (id : List ℕ) (o : O) (objects : Objects) (found : Option O)
      → ((register_found id o objects found).0 ≡ (register_at id o (view objects) found).0)
        × (view (register_found id o objects found).1 ≡ (register_at id o (view objects) found).1)
  register-meant id o objects none = (refl, view-insert id o objects)
  register-meant id o objects (some _) = (refl, refl)

  unregister-meant :
      (id : List ℕ) (objects : Objects) (found : Option O)
      → ((unregister_found id objects found).0 ≡ (unregister_at id (view objects) found).0)
        × (view (unregister_found id objects found).1 ≡ (unregister_at id (view objects) found).1)
  unregister-meant id objects none = (refl, refl)
  unregister-meant id objects (some _) = (refl, view-erase id objects)

  set-meant :
      (id name value : List ℕ) (objects : Objects) (found : Option O)
      → ((set_found id name value objects found).0 ≡ (set_at id name value (view objects) found).0)
        × (view (set_found id name value objects found).1
            ≡ (set_at id name value (view objects) found).1)
  set-meant id name value objects none = (refl, refl)
  set-meant id name value objects (some o) =
      (refl, view-insert id (set_property name value o).1 objects)

  perform-meant :
      (c : Command) (objects : Objects)
      → ((perform c objects).0 ≡ (meant c (view objects)).0)
        × (view (perform c objects).1 ≡ (meant c (view objects)).1)
  unfolding perform register_object unregister_object set_object_property
  perform-meant (register id o) objects = register-meant id o objects (lookup id objects)
  perform-meant (unregister id) objects = unregister-meant id objects (lookup id objects)
  perform-meant (set_value id name value) objects =
      set-meant id name value objects (lookup id objects)

  -- Whatever objects are registered, unregistered and changed, the registry answers each call as the
  -- partial function from ids to objects that it stands for, and then holds the objects which that holds.
  pub perform_all-meant :
      (cs : List Command) (objects : Objects)
      → ((perform_all cs objects).0 ≡ (meant_all cs (view objects)).0)
        × ((id : List ℕ)
            → get_object id (perform_all cs objects).1 ≡ (meant_all cs (view objects)).1 id)
  unfolding perform_all get_object
  perform_all-meant [] objects = (refl, λ id. refl)
  perform_all-meant (c ∷ cs) objects =
      let (e, f) = perform-meant c objects in
      let (g, h) = perform_all-meant cs (perform c objects).1 in
      (
        ap₂ (λ b bs. b ∷ bs) e (g ∙ ap (λ t. (meant_all cs t).0) f),
        λ id. h id ∙ ap (λ t. (meant_all cs t).1 id) f,
      )
