-- ===== src/Http/Line.antt =====
-- The first line of a request, as ParseRequestHeader of lib/server/SimpleHTTPConn.cc reads it.
use hector_core.Prelude.{
  ℕ, suc, Option, none, some, List, [], ◌∷◌, ◌++◌, All, arith, ◌≡◌, ◌≢◌, refl, ap, subst, ◌∙◌, sym,
  length,
}
use hector_core.Common.Replace.{find, strip_prefix}
use hector_core.Http.{Conn, Ready}
use hector_core.Http.Header.{
  newline, drop_cr, first_line, parse_rest, parse_request_header, Loop, out_of_fuel, no_newline,
  fields, after_fields, body_offset, after_loop, with_body, parse_line, parse_new, parse_from,
}

-- A byte is not in a string.
abbrev pub Lacks : ℕ → List ℕ → Type 0
Lacks c s = All (λ x. x ≢ c) s

pub find-byte :
    (c : ℕ) (s rest : List ℕ) → Lacks c s → find (c ∷ []) (s ++ c ∷ rest) ≡ some (s, rest)
unfolding find strip_prefix
find-byte c [] rest h = ground arith
find-byte c (x ∷ s) rest h = ground (arith, find-byte c s rest h.1, h.0)

pub drop_cr-line : (s : List ℕ) → drop_cr (s ++ 13 ∷ []) ≡ s
unfolding drop_cr
drop_cr-line [] = refl
drop_cr-line (c ∷ []) = refl
drop_cr-line (c ∷ d ∷ s) = ap (λ t. c ∷ t) (drop_cr-line (d ∷ s))

pub find-byte_none : (c : ℕ) (s : List ℕ) → Lacks c s → find (c ∷ []) s ≡ none
unfolding find strip_prefix
find-byte_none c [] h = refl
find-byte_none c (x ∷ s) h = ground (arith, find-byte_none c s h.1, h.0)

pub Lacks-append : (c : ℕ) (s t : List ℕ) → Lacks c s → Lacks c t → Lacks c (s ++ t)
Lacks-append c [] t h k = k
Lacks-append c (x ∷ s) t h k = (h.0, Lacks-append c s t h.1 k)

-- Method, arguments and protocol with the spaces between them.
abbrev pub line_of : List ℕ → List ℕ → List ℕ → List ℕ
line_of method args protocol = method ++ 32 ∷ (args ++ 32 ∷ protocol)

pub first_line-line_of :
    (method args protocol : List ℕ)
    → Lacks 32 method
    → Lacks 32 args
    → first_line (line_of method args protocol) ≡ (method, args, protocol)
unfolding first_line
first_line-line_of method args protocol m a =
    rw (find-byte 32 method (args ++ 32 ∷ protocol) m) (rw (find-byte 32 args protocol a) refl)

-- What the rest of the parsing leaves as it is.
abbrev pub Keeps : Conn → Ready × Conn → Type 0
Keeps c (r, c') =
    (c'.request_method ≡ c.request_method)
    × (c'.request_args ≡ c.request_args)
    × (c'.request_protocol ≡ c.request_protocol)
    × (c'.request_buffer ≡ c.request_buffer)

after_loop-Keeps : (c : Conn) (l : Loop) → Keeps c (after_loop c l)
unfolding after_fields
after_loop-Keeps c out_of_fuel = (refl, refl, refl, refl)
after_loop-Keeps c (no_newline m) = (refl, refl, refl, refl)
after_loop-Keeps c (fields m) = (refl, refl, refl, refl)

with_body-Keeps : (c : Conn) (h : ℕ) (o : Option ℕ) → Keeps c (with_body c h o)
with_body-Keeps c h none = (refl, refl, refl, refl)
with_body-Keeps c h (some b) = after_loop-Keeps (record c { request_body_offset = some b }) _

pub parse_rest-Keeps : (c : Conn) (h : ℕ) → Keeps c (parse_rest c h)
unfolding parse_rest
parse_rest-Keeps c h = with_body-Keeps c h (body_offset c.request_buffer h)

abbrev Reads : List ℕ → List ℕ → List ℕ → Ready × Conn → Type 0
Reads method args protocol (r, c) =
    (c.request_method ≡ method) × (c.request_args ≡ args) × (c.request_protocol ≡ protocol)

-- The first request of a connection whose first line is complete is read as it was meant: the method,
-- the arguments and the protocol are the three words of the line, whatever of the request follows, if the
-- first two hold no space and none holds a line end.
pub parse_request_header-line_of :
    (c : Conn) (method args protocol rest : List ℕ)
    → Lacks 32 method
    → Lacks 32 args
    → Lacks 10 method
    → Lacks 10 args
    → Lacks 10 protocol
    → c.header_fields ≡ none
    → c.request_header_offset ≡ none
    → c.request_buffer ≡ (line_of method args protocol ++ 13 ∷ []) ++ 10 ∷ rest
    → ((parse_request_header c).1.request_method ≡ method)
      × ((parse_request_header c).1.request_args ≡ args)
      × ((parse_request_header c).1.request_protocol ≡ protocol)
unfolding parse_request_header
parse_request_header-line_of c method args protocol rest ms ma mn an pn f h e =
    subst (Reads method args protocol) (sym parsed_lem)
      (k.0 ∙ ap (λ w. w.0) words, k.1 ∙ ap (λ w. w.1) words, k.2 ∙ ap (λ w. w.2) words)
  where
    line : List ℕ
    line = line_of method args protocol ++ 13 ∷ []

    words : first_line (drop_cr line) ≡ (method, args, protocol)
    words =
        ap first_line (drop_cr-line (line_of method args protocol))
        ∙ first_line-line_of method args protocol ms ma

    lacks : Lacks 10 line
    lacks =
        Lacks-append 10 (line_of method args protocol) (13 ∷ [])
          (Lacks-append 10 method (32 ∷ (args ++ 32 ∷ protocol)) mn
            (omega arith, Lacks-append 10 args (32 ∷ protocol) an (omega arith, pn)))
          (omega arith, tt)

    parsed_lem : parse_request_header c ≡ parse_line c (some (line, rest))
    parsed_lem =
        ap (parse_new c) f
        ∙ ap (parse_from c) h
        ∙ ap (parse_line c) (ap (find newline) e ∙ find-byte 10 line rest lacks)

    started : Conn
    started = record c {
      request_header_offset = some (suc (length line));
      request_method = (first_line (drop_cr line)).0;
      request_args = (first_line (drop_cr line)).1;
      request_protocol = (first_line (drop_cr line)).2;
    }

    k : Keeps started (parse_rest started (suc (length line)))
    k = parse_rest-Keeps started (suc (length line))
