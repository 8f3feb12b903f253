-- ===== src/Http/Fields.antt =====
-- The header fields of a request, as ParseRequestHeader of lib/server/SimpleHTTPConn.cc reads them.
use hector_core.Prelude.{
  ℕ, zero, suc, ◌+◌, ◌-◌, ◌≤◌, Option, none, some, List, [], ◌∷◌, ◌++◌, All, arith, ◌≡◌, ◌≢◌, refl,
  ap, ap₂, ◌∙◌, length, length-append, if◌then◌else◌, if_both, ltb, drop,
}
use hector_core.Common.Replace.{find, strip_prefix}
use hector_core.Objects.Maps.{insert}
use hector_core.Http.Header.{
  newline, colon_space, drop_cr, Map, Next, Loop, out_of_fuel, no_newline, fields, store, blanks,
  new_field, one_field, one_line, fields_loop, named,
}
use hector_core.Http.Line.{Lacks, Lacks-append, find-byte, drop_cr-line}

-- The loop ended.
abbrev pub HasEnded : Loop → Type 0
HasEnded out_of_fuel = ⊥
HasEnded (no_newline m) = Unit {0}
HasEnded (fields m) = Unit {0}

abbrev Ends : Next → Type 0
Ends next = (var val : List ℕ) (m : Map) → HasEnded (next var val m)

one_field-HasEnded :
    (next : Next) (field var val : List ℕ) (m : Map)
    → Ends next
    → HasEnded (one_field next field var val m)
unfolding one_field
one_field-HasEnded next [] var val m h = tt
one_field-HasEnded next (c ∷ field) var val m h =
    if_both HasEnded (ltb 0 (blanks (c ∷ field))) _ _ (h _ _ _) (h _ _ _)

one_line-HasEnded :
    (next : ℕ → List ℕ → Next) (left : ℕ) (var val : List ℕ) (m : Map)
    (o : Option (List ℕ × List ℕ))
    → ((l : ℕ) (rest : List ℕ) → suc l ≤ left → Ends (next l rest))
    → 0 ≢ left
    → HasEnded (one_line next left var val m o)
unfolding one_line
one_line-HasEnded next left var val m none h z = tt
one_line-HasEnded next left var val m (some (line, rest)) h z =
    one_field-HasEnded (next (left - suc (length line)) rest) (drop_cr line) var val m
      (h (left - suc (length line)) rest (omega (arith, z)))

-- A byte of the header for each round is enough.
pub fields_loop-HasEnded :
    (fuel left : ℕ) (rest var val : List ℕ) (m : Map)
    → left ≤ fuel
    → HasEnded (fields_loop fuel left rest var val m)
unfolding fields_loop
fields_loop-HasEnded fuel zero rest var val m h = tt
fields_loop-HasEnded zero (suc left) rest var val m h = absurd (omega arith)
fields_loop-HasEnded (suc fuel) (suc left) rest var val m h =
    one_line-HasEnded (fields_loop fuel) (suc left) var val m (find newline rest)
      (λ l r k v w n. fields_loop-HasEnded fuel l r v w n (omega (arith, h, k))) (omega arith)

-- "name: value"
abbrev pub field_line : List ℕ → List ℕ → List ℕ
field_line name value = name ++ 58 ∷ 32 ∷ value

-- The header fields as they are sent, with the empty line that ends them, before the body.
abbrev pub header_text : Map → List ℕ → List ℕ
header_text [] body = 13 ∷ 10 ∷ body
header_text ((name, value) ∷ fs) body =
    (field_line name value ++ 13 ∷ []) ++ 10 ∷ header_text fs body

abbrev pub header_length : Map → ℕ
header_length [] = 2
header_length ((name, value) ∷ fs) = length (field_line name value) + 2 + header_length fs

-- A name without colon that does not start with a blank, and no line ends.
abbrev pub IsField : List ℕ × List ℕ → Type 0
IsField ([], value) = ⊥
IsField (c ∷ name, value) =
    (c ≢ 32)
    × (c ≢ 9)
    × Lacks 58 (c ∷ name)
    × Lacks 10 (c ∷ name)
    × Lacks 10 value
    × Lacks 13 (c ∷ name)
    × Lacks 13 value

-- What a map is after all assignments.
abbrev pub stored : Map → Map → Map
stored [] m = m
stored ((name, value) ∷ fs) m = stored fs (insert name value m)

new_field-field_line :
    (name value : List ℕ)
    → Lacks 58 name
    → find colon_space (field_line name value) ≡ some (name, value)
unfolding find strip_prefix
new_field-field_line [] value h = refl
new_field-field_line (c ∷ name) value h = ground (arith, new_field-field_line name value h.1, h.0)

field_line-Lacks :
    (name value : List ℕ) → Lacks 10 name → Lacks 10 value → Lacks 10 (field_line name value)
field_line-Lacks name value n v =
    Lacks-append 10 name (58 ∷ 32 ∷ value) n (omega arith, (omega arith, v))

blanks-none : (c : ℕ) (s : List ℕ) → c ≢ 32 → c ≢ 9 → blanks (c ∷ s) ≡ 0
unfolding blanks
blanks-none c s h t = ground arith

-- One whole line.
one_field-field_line :
    (next : Next) (c : ℕ) (name value var val : List ℕ) (m : Map)
    → IsField (c ∷ name, value)
    → one_field next (field_line (c ∷ name) value) var val m
      ≡ next (c ∷ name) value (store var val m)
unfolding one_field new_field
one_field-field_line next c name value var val m (s, t, h, r, u, v, w) =
    ap₂
      (λ b (nv : List ℕ × List ℕ).
        if ltb 0 b
        then next var (val ++ drop (b - 1) (field_line (c ∷ name) value)) m
        else next (nv.0) (nv.1) (store var val m))
      (blanks-none c (name ++ 58 ∷ 32 ∷ value) s t)
      (ap named (new_field-field_line (c ∷ name) value h))

pub header_length-pos : (fs : Map) → 2 ≤ header_length fs
header_length-pos [] = omega arith
header_length-pos ((name, value) ∷ fs) = omega arith

-- The loop on well-formed fields.
pub fields_loop-header_text :
    (fuel left : ℕ) (fs : Map) (body var val : List ℕ) (m : Map)
    → All IsField fs
    → left ≡ header_length fs
    → left ≤ fuel
    → fields_loop fuel left (header_text fs body) var val m ≡ fields (stored fs (store var val m))
unfolding fields_loop one_line store drop_cr
fields_loop-header_text fuel zero fs body var val m h e l =
    absurd (omega (arith, e, header_length-pos fs))
fields_loop-header_text zero (suc left) fs body var val m h e l = absurd (omega arith)
fields_loop-header_text (suc fuel) (suc left) [] body var val m h e l =
    ap (one_line (fields_loop fuel) (suc left) var val m)
      (find-byte 10 (13 ∷ []) body (omega arith, tt))
fields_loop-header_text (suc fuel) (suc left) (([], value) ∷ fs) body var val m h e l = absurd (h.0)
fields_loop-header_text (suc fuel) (suc left) ((c ∷ name, value) ∷ fs) body var val m h e l =
    ap (one_line (fields_loop fuel) (suc left) var val m) (
      find-byte 10 (field_line (c ∷ name) value ++ 13 ∷ []) (header_text fs body) (
        Lacks-append 10 (field_line (c ∷ name) value) (13 ∷ [])
          (field_line-Lacks (c ∷ name) value h.0.3 h.0.4) (omega arith, tt)))
    ∙ ap
        (λ t.
          one_field
            (fields_loop fuel (suc left - suc (length (field_line (c ∷ name) value ++ 13 ∷ [])))
              (header_text fs body))
            t var val m)
        (drop_cr-line (field_line (c ∷ name) value))
    ∙ one_field-field_line
        (fields_loop fuel (suc left - suc (length (field_line (c ∷ name) value ++ 13 ∷ [])))
          (header_text fs body))
        c name value var val m h.0
    ∙ fields_loop-header_text fuel
        (suc left - suc (length (field_line (c ∷ name) value ++ 13 ∷ []))) fs body (c ∷ name) value
        (store var val m) h.1
        (omega (arith, e, length-append (field_line (c ∷ name) value) (13 ∷ [])))
        (omega (arith, e, l, length-append (field_line (c ∷ name) value) (13 ∷ [])))
