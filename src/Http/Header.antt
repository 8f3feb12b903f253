-- ===== src/Http/Header.antt =====
-- ParseRequestHeader of lib/server/SimpleHTTPConn.cc. `find` of a string gives the bytes before the
-- place and those behind it.
use hector_core.Prelude.{
  ℕ, zero, suc, ◌+◌, ◌-◌, ◌*◌, Bool, true, false, ◌&&◌, ◌||◌, not, Option, none, some, List, [],
  ◌∷◌, ◌++◌, if◌then◌else◌, ◌==◌, ltb, leb, length, map, drop, ℤ, pos, negsuc, sub_ℕ,
}
use hector_core.Objects.Maps.{equal, insert, lookup, erase}
use hector_core.Common.Replace.{find}
use hector_core.Streams.Frame.{to_u32, from_u32}
use hector_core.Http.{Conn, Ready, incomplete, parsed, failed, stuck}

abbrev pub newline : List ℕ
newline = 10 ∷ []

abbrev pub space : List ℕ
space = 32 ∷ []

-- "\r\n\r\n" and "\n\n"
abbrev pub crlf_crlf : List ℕ
crlf_crlf = 13 ∷ 10 ∷ 13 ∷ 10 ∷ []

abbrev pub lf_lf : List ℕ
lf_lf = 10 ∷ 10 ∷ []

-- ": "
abbrev pub colon_space : List ℕ
colon_space = 58 ∷ 32 ∷ []

-- "Content-Length", "Connection" and "keep-alive"
abbrev pub content_length : List ℕ
content_length = 67 ∷ 111 ∷ 110 ∷ 116 ∷ 101 ∷ 110 ∷ 116 ∷ 45 ∷ 76 ∷ 101 ∷ 110 ∷ 103 ∷ 116 ∷ 104 ∷ []

abbrev pub connection : List ℕ
connection = 67 ∷ 111 ∷ 110 ∷ 110 ∷ 101 ∷ 99 ∷ 116 ∷ 105 ∷ 111 ∷ 110 ∷ []

abbrev pub keep_alive_text : List ℕ
keep_alive_text = 107 ∷ 101 ∷ 101 ∷ 112 ∷ 45 ∷ 97 ∷ 108 ∷ 105 ∷ 118 ∷ 101 ∷ []

-- A line without the '\r' before its end.
unfoldable pub drop_cr : List ℕ → List ℕ
drop_cr [] = []
drop_cr (c ∷ []) = if c == 13 then [] else c ∷ []
drop_cr (c ∷ d ∷ s) = c ∷ drop_cr (d ∷ s)

-- The first line, which its first two spaces divide: method, arguments and protocol.
abbrev args_of : List ℕ → List ℕ → Option (List ℕ × List ℕ) → List ℕ × List ℕ × List ℕ
args_of method rest none = (method, rest, [])
args_of method rest (some (args, protocol)) = (method, args, protocol)

abbrev words_of : List ℕ → Option (List ℕ × List ℕ) → List ℕ × List ℕ × List ℕ
words_of line none = (line, [], [])
words_of line (some (method, rest)) = args_of method rest (find space rest)

unfoldable pub first_line : List ℕ → List ℕ × List ℕ × List ℕ
unfolding find
first_line line = words_of line (find space line)

-- Where the body starts. An offset below zero is the largest `size_t`, behind every byte.
abbrev body_after : ℕ → ℕ → Option (List ℕ × List ℕ) → Option ℕ
body_after offset gap none = none
body_after offset gap (some (pre, post)) = some (offset + length pre + gap)

abbrev or_else : Option ℕ → Option ℕ → Option ℕ
or_else none o = o
or_else (some n) o = some n

unfoldable pub body_offset : List ℕ → ℕ → Option ℕ
unfolding find
body_offset buffer header_offset =
    or_else
      (if ltb header_offset 2
        then none
        else body_after (header_offset - 2) 4 (find crlf_crlf (drop (header_offset - 2) buffer)))
      (body_after (header_offset - 1) 2 (find lf_lf (drop (header_offset - 1) buffer)))

-- The loop on the header fields.
abbrev pub Map : Type 0
Map = List (List ℕ × List ℕ)

pub data Loop : Type 0 where
  out_of_fuel : Loop
  no_newline : Map → Loop
  fields : Map → Loop

-- `if (!var.empty()) (*header_fields)[var] = val`.
unfoldable pub store : List ℕ → List ℕ → Map → Map
store [] val m = m
store (c ∷ var) val m = insert (c ∷ var) val m

-- How many spaces and tabs a line starts with.
unfoldable pub blanks : List ℕ → ℕ
blanks [] = 0
blanks (c ∷ s) = let more = suc (blanks s) in if c == 32 || c == 9 then more else 0

abbrev pub named : Option (List ℕ × List ℕ) → List ℕ × List ℕ
named none = ([], [])
named (some (var, val)) = (var, val)

-- A line with a name: it ends the field before.
unfoldable pub new_field : List ℕ → List ℕ × List ℕ
unfolding find
new_field field = named (find colon_space field)

-- One line of the header, where `next` is the rest of the loop.
abbrev pub Next : Type 0
Next = List ℕ → List ℕ → Map → Loop

unfoldable pub one_field : Next → List ℕ → List ℕ → List ℕ → Map → Loop
unfolding blanks new_field store
one_field next [] var val m = fields (store var val m)
one_field next (c ∷ field) var val m =
    let (name, value) = new_field (c ∷ field) in
    if ltb 0 (blanks (c ∷ field))
    then next var (val ++ drop (blanks (c ∷ field) - 1) (c ∷ field)) m
    else next name value (store var val m)

unfoldable pub one_line :
    (ℕ → List ℕ → Next) → ℕ → List ℕ → List ℕ → Map → Option (List ℕ × List ℕ) → Loop
unfolding one_field drop_cr
one_line next left var val m none = no_newline m
one_line next left var val m (some (line, rest)) =
    one_field (next (left - suc (length line)) rest) (drop_cr line) var val m

-- `left` is `request_body_offset - offset`, `rest` the bytes from `offset` on.
unfoldable pub fields_loop : ℕ → ℕ → List ℕ → Next
unfolding store one_line find
fields_loop fuel zero rest var val m = fields (store var val m)
fields_loop zero (suc left) rest var val m = out_of_fuel
fields_loop (suc fuel) (suc left) rest var val m =
    one_line (fields_loop fuel) (suc left) var val m (find newline rest)

-- `atol`, and its conversion to `int`. The digits are not so many that a `long` overflows.
abbrev is_space : ℕ → Bool
is_space c = c == 32 || (leb 9 c && leb c 13)

unfoldable pub digits : ℕ → List ℕ → ℕ
digits n [] = n
digits n (c ∷ s) =
    let more = digits (n * 10 + (c - 48)) s in if leb 48 c && leb c 57 then more else n

abbrev signed : List ℕ → ℤ
signed [] = pos 0
signed (c ∷ s) =
    if c == 45
    then sub_ℕ 0 (digits 0 s)
    else if c == 43
    then pos (digits 0 s)
    else pos (digits 0 (c ∷ s))

unfoldable pub atol : List ℕ → ℤ
unfolding digits
atol [] = pos 0
atol (c ∷ s) = let more = atol s in if is_space c then more else signed (c ∷ s)

unfoldable pub to_int : ℤ → ℤ
unfolding to_u32 from_u32
to_int z = from_u32 (to_u32 z)

-- `strcasecmp` with "keep-alive".
abbrev to_lower : ℕ → ℕ
to_lower c = if leb 65 c && leb c 90 then c + 32 else c

abbrev is_keep_alive : Option (List ℕ) → Bool
is_keep_alive none = false
is_keep_alive (some v) = equal (map to_lower v) keep_alive_text

abbrev is_known : ℤ → Bool
is_known (pos n) = true
is_known (negsuc n) = false

abbrev pub body_length : Option (List ℕ) → ℤ → ℤ
body_length none old = old
body_length (some v) old = to_int (atol v)

-- What follows the loop: the length of the body, and whether the connection is kept alive.
unfoldable pub after_fields : Conn → Map → Conn
unfolding atol to_int equal
after_fields c m =
    let n = body_length (lookup content_length m) c.request_body_length in
    let wants = is_keep_alive (lookup connection m) in
    record c {
      request_body_length = n;
      keep_alive = if wants && is_known n then true else c.keep_alive;
      header_fields = some (if wants && not (is_known n) then erase connection m else m);
    }

abbrev pub after_loop : Conn → Loop → Ready × Conn
after_loop c out_of_fuel = (stuck, c)
after_loop c (no_newline m) = (failed, record c { header_fields = some m })
after_loop c (fields m) = (parsed, after_fields c m)

abbrev pub with_body : Conn → ℕ → Option ℕ → Ready × Conn
with_body c h none = (incomplete, c)
with_body c h (some b) =
    after_loop (record c { request_body_offset = some b })
      (fields_loop (b - h) (b - h) (drop h c.request_buffer) [] [] [])

unfoldable pub parse_rest : Conn → ℕ → Ready × Conn
unfolding body_offset fields_loop after_fields
parse_rest c h = with_body c h (body_offset c.request_buffer h)

abbrev pub parse_line : Conn → Option (List ℕ × List ℕ) → Ready × Conn
parse_line c none = (incomplete, c)
parse_line c (some (line, rest)) =
    let (method, args, protocol) = first_line (drop_cr line) in
    parse_rest
      (record c {
        request_header_offset = some (suc (length line));
        request_method = method;
        request_args = args;
        request_protocol = protocol;
      })
      (suc (length line))

abbrev pub parse_from : Conn → Option ℕ → Ready × Conn
parse_from c none = parse_line c (find newline c.request_buffer)
parse_from c (some h) = parse_rest c h

abbrev pub parse_new : Conn → Option Map → Ready × Conn
parse_new c none = parse_from c c.request_header_offset
parse_new c (some m) = (parsed, c)

unfoldable pub parse_request_header : Conn → Ready × Conn
unfolding parse_rest first_line drop_cr find
parse_request_header c = parse_new c c.header_fields
