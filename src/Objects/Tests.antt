-- ===== src/Objects/Tests.antt =====
-- Runs of the helper classes of lib, and the theorems at concrete inputs.
use hector_core.Prelude.{ℕ, ◌<◌, Bool, true, Option, some, List, [], ◌∷◌, ◌≡◌, arith}
use hector_core.Objects.Pool.{Address, new_pool, alloc, alloc_many, Fresh, alloc_many-Fresh}
use hector_core.Objects.Registry.{
  Command, register, unregister, set_value, perform_all, meant_all, view, get_object,
  perform_all-meant,
}

alloc_many-Fresh_example :
    (a : Address) × ((alloc (new_pool 2)).0 ≡ some a)
    × (a.index < 2)
    × Fresh 2 a (alloc_many 5 (alloc (new_pool 2)).1)
alloc_many-Fresh_example = alloc_many-Fresh 5 2 (omega arith)

-- An object that is one value: "v" is its only property.
abbrev value_of : List ℕ → List ℕ → Option (List ℕ)
value_of name o = some o

abbrev with_value : List ℕ → List ℕ → List ℕ → Bool × List ℕ
with_value name value o = (true, value)

abbrev commands : List (Command value_of with_value)
commands =
    register (97 ∷ []) (49 ∷ [])
    ∷ register (97 ∷ []) (50 ∷ [])
    ∷ set_value (97 ∷ []) (118 ∷ []) (51 ∷ [])
    ∷ unregister (98 ∷ [])
    ∷ []

perform_all-meant_example :
    ((perform_all value_of with_value commands []).0
      ≡ (meant_all value_of with_value commands (view value_of with_value [])).0)
    × ((id : List ℕ)
        → get_object value_of with_value id (perform_all value_of with_value commands []).1
          ≡ (meant_all value_of with_value commands (view value_of with_value [])).1 id)
perform_all-meant_example = perform_all-meant value_of with_value commands []
