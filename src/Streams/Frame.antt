-- ===== src/Streams/Frame.antt =====
-- SerializeResource and DeserializeResource of lib/processing_engine/Resource.cc: the frame of a
-- serialised resource.
use hector_core.Prelude.{
  ◌>>=◌, ℕ, ◌+◌, ◌-◌, ◌/◌, ◌%◌, ◌^◌, ◌<◌, Bool, true, false, Option, none, some, List, [], ◌∷◌,
  ◌++◌, ◌≡◌, ap, ap₂, ◌∙◌, if◌then◌else◌, ◌==◌, ltb, ℤ, pos, negsuc, arith,
}
use hector_core.Processor.{Resource}

-- A C `int` as the `uint32_t` that it is converted to, and back.
unfoldable pub to_u32 : ℤ → ℕ
to_u32 (pos n) = n % 2 ^ 32
to_u32 (negsuc n) = 2 ^ 32 - 1 - n % 2 ^ 32

unfoldable pub from_u32 : ℕ → ℤ
from_u32 n = if ltb n (2 ^ 31) then pos n else negsuc (2 ^ 32 - 1 - n)

-- The values of a C `int`.
abbrev pub IsInt : ℤ → Type 0
IsInt (pos n) = n < 2147483648
IsInt (negsuc n) = n < 2147483648

-- An `int` that is written as a `uint32_t` is read as itself.
pub from_u32-to_u32 : (z : ℤ) → IsInt z → from_u32 (to_u32 z) ≡ z
unfolding from_u32 to_u32
from_u32-to_u32 (pos n) h = ground arith
from_u32-to_u32 (negsuc n) h = ground arith

-- `type | 0x80`, `type & 0x80` and `type & 0x7f`.
unfoldable pub set_flag : ℕ → ℕ
set_flag t = if (t / 128) % 2 == 1 then t else t + 128

unfoldable pub has_flag : ℕ → Bool
has_flag t = (t / 128) % 2 == 1

unfoldable pub without_flag : ℕ → ℕ
without_flag t = t % 128

-- A stream is the list of the numbers in it; its byte count, which only measures, is left out. The
-- virtual methods `Serialize` and `Deserialize` of the class of a resource, and the registry, are
-- parameters: `none` is false, or NULL.
module _ {B : Type 0} (serialize : Resource B → Option (List ℕ))
    (deserialize : Resource B → List ℕ → Option (Resource B × List ℕ))
    (acquire : ℕ → Option (Resource B)) where
  abbrev head : Resource B → Bool → Bool → List ℕ
  head r save_type save_id_status =
      if save_type
      then if save_id_status
        then set_flag r.type_id ∷ r.id % 2 ^ 32 ∷ to_u32 r.status ∷ []
        else r.type_id ∷ []
      else []

  -- What is written, and whether it is complete.
  abbrev written : List ℕ → Option (List ℕ) → Bool × List ℕ
  written before none = (false, before)
  written before (some payload) = (true, before ++ payload)

  unfoldable pub serialize_resource : Resource B → Bool → Bool → Bool × List ℕ
  serialize_resource r save_type save_id_status =
      written (head r save_type save_id_status) (serialize r)

  abbrev read : List ℕ → Option (ℕ × List ℕ)
  read [] = none
  read (n ∷ s) = some (n, s)

  abbrev typed : Option (ℕ × List ℕ) → Option (ℕ × Bool × List ℕ)
  typed none = none
  typed (some (t, s)) = some (without_flag t, has_flag t, s)

  -- The type, whether id and status follow, and the rest.
  abbrev read_type : ℕ → List ℕ → Option (ℕ × Bool × List ℕ)
  read_type resource_type s =
      if resource_type == 0 then typed (read s) else some (resource_type, false, s)

  abbrev read_id_status : Bool → Resource B → List ℕ → Option (Resource B × List ℕ)
  read_id_status false r s = some (r, s)
  read_id_status true r s = do
    (id, s₁) ← read s
    (status, s₂) ← read s₁
    some (record r { id = id; status = from_u32 status }, s₂)

  abbrev read_body : Option (ℕ × Bool × List ℕ) → Option (Resource B × List ℕ)
  read_body none = none
  read_body (some (t, follows, s)) = do
    r ← acquire t
    (r₁, s₁) ← read_id_status follows r s
    deserialize r₁ s₁

  unfoldable pub deserialize_resource : List ℕ → ℕ → Option (Resource B × List ℕ)
  deserialize_resource s resource_type = read_body (read_type resource_type s)

  flag-small : (t : ℕ) → t < 128 → (has_flag (set_flag t) ≡ true) × (without_flag (set_flag t) ≡ t)
  unfolding has_flag set_flag without_flag
  flag-small t h = ground arith

  -- A resource that is written with its type, id and status is read back as a resource of that type
  -- with the same id, status and content, and with all that follows it left in the stream, if the type
  -- id is below 128 and the class reads what it wrote.
  pub serialize-deserialize :
      (r fresh : Resource B) (payload rest : List ℕ)
      → r.type_id < 128
      → r.id < 2147483648
      → IsInt r.status
      → acquire r.type_id ≡ some fresh
      → serialize r ≡ some payload
      → ((x : Resource B)
          → deserialize x (payload ++ rest) ≡ some (record x { content = r.content }, rest))
      → (w : List ℕ) × (serialize_resource r true true ≡ (true, w))
        × (deserialize_resource (w ++ rest) 0
            ≡ some (record fresh { id = r.id; status = r.status; content = r.content }, rest))
  unfolding serialize_resource deserialize_resource
  serialize-deserialize r fresh payload rest t i s a e d = (
    set_flag r.type_id ∷ r.id % 2 ^ 32 ∷ to_u32 r.status ∷ payload,
    ap (written (head r true true)) e,
    ap₂ (λ n b. read_body (some (n, b, r.id % 2 ^ 32 ∷ to_u32 r.status ∷ payload ++ rest)))
          (flag-small r.type_id t).1 (flag-small r.type_id t).0
        ∙ rw a (
            rw (small r.id i, from_u32-to_u32 r.status s)
              (d (record fresh { id = r.id; status = r.status }))),
  )
    where
      small : (n : ℕ) → n < 2147483648 → n % 2 ^ 32 ≡ n
      small n h = omega arith
