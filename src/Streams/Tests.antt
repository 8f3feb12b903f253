-- ===== src/Streams/Tests.antt =====
-- The round trip of the text streams at concrete strings.
use hector_core.Prelude.{ℕ, false, some, List, [], ◌∷◌, ◌++◌, ◌≡◌, ◌↔◌, refl}
use hector_core.Prelude.{true, Option, none, ℤ, arith}
use hector_core.Processor.{Resource}
use hector_core.Streams.Frame.{serialize_resource, deserialize_resource, serialize-deserialize}
use hector_core.Streams.Text.RoundTrip.{damage, read_back, has_pair, read_back-exact}

-- "a\b", a newline, "c".
abbrev text : List ℕ
text = 97 ∷ 92 ∷ 98 ∷ 10 ∷ 99 ∷ []

read_back-exact_example : (read_back text ≡ some (text, [])) ↔ (has_pair text ≡ false)
read_back-exact_example = read_back-exact text

-- A backslash before an `n`.
damaged : damage (92 ∷ 110 ∷ []) ≡ 92 ∷ 10 ∷ []
damaged = refl

abbrev page : Resource ℕ
page = record {
  id = 70000;
  type_id = 5;
  status = ℤ.negsuc 2;
  skip = false;
  deleted = false;
  content = 9;
}

abbrev blank : Resource ℕ
blank = record page { id = 1; status = ℤ.pos 0; content = 0 }

-- A class whose content is one number.
abbrev put_content : Resource ℕ → Option (List ℕ)
put_content r = some (r.content ∷ [])

abbrev get_content : Resource ℕ → List ℕ → Option (Resource ℕ × List ℕ)
get_content r [] = none
get_content r (c ∷ s) = some (record r { content = c }, s)

abbrev acquire_blank : ℕ → Option (Resource ℕ)
acquire_blank t = some (record blank { type_id = t })

serialize-deserialize_example :
    (w : List ℕ) × (serialize_resource put_content get_content acquire_blank page true true
      ≡ (true, w))
    × (deserialize_resource put_content get_content acquire_blank (w ++ 3 ∷ []) 0
        ≡ some (record blank { id = 70000; status = ℤ.negsuc 2; content = 9 }, 3 ∷ []))
serialize-deserialize_example =
    serialize-deserialize put_content get_content acquire_blank page blank (9 ∷ []) (3 ∷ [])
      (omega arith) (omega arith) (omega arith) refl refl (λ x. refl)
