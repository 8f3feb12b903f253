-- ===== src/Http/Whole.antt =====
-- A whole request that arrives at SimpleHTTPConn of lib/server.
use hector_core.Prelude.{
  ℕ, suc, ◌+◌, ◌-◌, ◌≤◌, false, none, some, List, [], ◌∷◌, ◌++◌, All, arith, ◌≡◌, ◌≢◌, refl, ap,
  ap₂, ◌∙◌, sym, subst, length, length-append, append_assoc, ltb, drop,
}
use hector_core.Common.Replace.{find, strip_prefix}
use hector_core.Http.{Conn, parsed}
use hector_core.Http.Header.{
  crlf_crlf, newline, drop_cr, first_line, Map, fields_loop, body_offset, after_fields, after_loop,
  with_body, parse_rest, parse_line, parse_new, parse_from, parse_request_header,
}
use hector_core.Http.Line.{
  Lacks, Lacks-append, line_of, find-byte, drop_cr-line, first_line-line_of,
}
use hector_core.Http.Fields.{
  IsField, field_line, header_text, header_length, stored, fields_loop-header_text,
}

-- Where a blank line is found, behind bytes that are no '\r'.
abbrev FoundAt : List ℕ → ℕ → List ℕ → Type 0
FoundAt s n post = (pre : List ℕ) × (find crlf_crlf s ≡ some (pre, post)) × (length pre ≡ n)

FoundAt-byte :
    (x : ℕ) (s : List ℕ) (n : ℕ) (post : List ℕ)
    → x ≢ 13
    → FoundAt s n post
    → FoundAt (x ∷ s) (suc n) post
unfolding find strip_prefix
FoundAt-byte x s n post h (pre, e, l) = (x ∷ pre, ground (arith, h, e), ap suc l)

FoundAt-append :
    (s t : List ℕ) (n : ℕ) (post : List ℕ)
    → Lacks 13 s
    → FoundAt t n post
    → FoundAt (s ++ t) (length s + n) post
FoundAt-append [] t n post h f = subst (λ k. FoundAt t k post) (omega arith) f
FoundAt-append (x ∷ s) t n post h f =
    subst (λ k. FoundAt (x ∷ s ++ t) k post) (omega arith)
      (FoundAt-byte x (s ++ t) (length s + n) post h.0 (FoundAt-append s t n post h.1 f))

-- Past a line end that no other one follows.
FoundAt-line_end :
    (c : ℕ) (s : List ℕ) (n : ℕ) (post : List ℕ)
    → c ≢ 13
    → FoundAt (c ∷ s) n post
    → FoundAt (13 ∷ 10 ∷ c ∷ s) (n + 2) post
unfolding find strip_prefix
FoundAt-line_end c s n post h (pre, e, l) = (13 ∷ 10 ∷ pre, ground (arith, h, e), omega (arith, l))

-- The blank line of a header.
blank_line :
    (fs : Map) (body : List ℕ)
    → All IsField fs
    → (n : ℕ) × (n + 4 ≡ header_length fs + 2) × FoundAt (13 ∷ 10 ∷ header_text fs body) n body
unfolding find strip_prefix
blank_line [] body h = (0, refl, ([], refl, refl))
blank_line (([], value) ∷ fs) body h = absurd (h.0)
blank_line ((c ∷ name, value) ∷ fs) body (f, h) =
    let (n, e, found) = blank_line fs body h in
    let line = field_line (c ∷ name) value in
    let after = header_text fs body in
    (
      length line + n + 2,
      omega (arith, e),
      FoundAt-line_end c (((name ++ 58 ∷ 32 ∷ value) ++ 13 ∷ []) ++ 10 ∷ after) (length line + n)
          body (f.5.0)
          (subst (λ s. FoundAt s (length line + n) body)
            (sym (append_assoc line (13 ∷ []) (10 ∷ after)))
            (FoundAt-append line (13 ∷ 10 ∷ after) n body
              (Lacks-append 13 (c ∷ name) (58 ∷ 32 ∷ value) f.5 (omega arith, (omega arith, f.6)))
              found)),
    )

pub drop-length : (s t : List ℕ) → drop (length s) (s ++ t) ≡ t
drop-length [] t = refl
drop-length (x ∷ s) t = drop-length s t

-- The bytes of a request up to its body.
abbrev pub request_text : List ℕ → Map → List ℕ → List ℕ
request_text line fs body = (line ++ 13 ∷ []) ++ 10 ∷ header_text fs body

-- The offset of the header, and of the body.
abbrev pub header_at : List ℕ → ℕ
header_at line = suc (length (line ++ 13 ∷ []))

pub drop_header :
    (line : List ℕ) (fs : Map) (body : List ℕ)
    → drop (header_at line) (request_text line fs body) ≡ header_text fs body
drop_header line fs body = go (line ++ 13 ∷ [])
  where
    go : (s : List ℕ) → drop (suc (length s)) (s ++ 10 ∷ header_text fs body) ≡ header_text fs body
    go [] = refl
    go (x ∷ s) = go s

drop_blank :
    (line : List ℕ) (fs : Map) (body : List ℕ)
    → drop (header_at line - 2) (request_text line fs body) ≡ 13 ∷ 10 ∷ header_text fs body
drop_blank line fs body =
    ap (drop (header_at line - 2)) (append_assoc line (13 ∷ []) (10 ∷ header_text fs body))
    ∙ ap (λ n. drop n (line ++ 13 ∷ 10 ∷ header_text fs body))
        (omega (arith, length-append line (13 ∷ [])))
    ∙ drop-length line (13 ∷ 10 ∷ header_text fs body)

body_offset-crlf :
    (buffer : List ℕ) (h : ℕ) (pre post : List ℕ)
    → 2 ≤ h
    → find crlf_crlf (drop (h - 2) buffer) ≡ some (pre, post)
    → body_offset buffer h ≡ some (h - 2 + length pre + 4)
unfolding body_offset
body_offset-crlf buffer h pre post g e = simp (e, not_small h g) refl
  where
    not_small : (n : ℕ) → 2 ≤ n → ltb n 2 ≡ false
    not_small n k = ground arith

body_offset-text :
    (line : List ℕ) (fs : Map) (body : List ℕ)
    → All IsField fs
    → body_offset (request_text line fs body) (header_at line)
      ≡ some (header_at line + header_length fs)
body_offset-text line fs body h =
    let (n, e, (pre, found, l)) = blank_line fs body h in
    body_offset-crlf (request_text line fs body) (header_at line) pre body
      (omega (arith, length-append line (13 ∷ [])))
      (ap (find crlf_crlf) (drop_blank line fs body) ∙ found)
    ∙ ap some (omega (arith, e, l, length-append line (13 ∷ [])))

-- The connection before the loop on the fields of a request that is read as it was meant, and behind it.
abbrev pub started : Conn → List ℕ → List ℕ → List ℕ → Map → Conn
started c method args protocol fs = record c {
  request_header_offset = some (header_at (line_of method args protocol));
  request_method = method;
  request_args = args;
  request_protocol = protocol;
  request_body_offset = some (header_at (line_of method args protocol) + header_length fs);
}

abbrev pub whole : Conn → List ℕ → List ℕ → List ℕ → Map → Conn
whole c method args protocol fs = after_fields (started c method args protocol fs) (stored fs [])

parse_rest-text :
    (c : Conn) (line : List ℕ) (fs : Map) (body : List ℕ)
    → All IsField fs
    → c.request_buffer ≡ request_text line fs body
    → parse_rest c (header_at line) ≡ (
      parsed,
      after_fields
          (record c { request_body_offset = some (header_at line + header_length fs) })
          (stored fs []),
    )
unfolding parse_rest
parse_rest-text c line fs body h e =
    ap (with_body c (header_at line))
      (ap (λ b. body_offset b (header_at line)) e ∙ body_offset-text line fs body h)
    ∙ ap (after_loop (record c { request_body_offset = some (header_at line + header_length fs) }))
        (ap₂ (λ n t. fields_loop n n t [] [] []) left
            (ap (drop (header_at line)) e ∙ drop_header line fs body)
          ∙ fields_loop-header_text (header_length fs) (header_length fs) fs body [] [] [] h refl
              (omega arith))
  where
    left : header_at line + header_length fs - header_at line ≡ header_length fs
    left = omega arith

pub parse_text :
    (c : Conn) (method args protocol : List ℕ) (fs : Map) (body : List ℕ)
    → Lacks 32 method
    → Lacks 32 args
    → Lacks 10 (line_of method args protocol)
    → All IsField fs
    → c.header_fields ≡ none
    → c.request_header_offset ≡ none
    → c.request_buffer ≡ request_text (line_of method args protocol) fs body
    → parse_request_header c ≡ (parsed, whole c method args protocol fs)
unfolding parse_request_header
parse_text c method args protocol fs body ms ma n h f o e =
    ap (parse_new c) f
    ∙ ap (parse_from c) o
    ∙ ap (parse_line c) (
        ap (find newline) e
        ∙ find-byte 10 (line ++ 13 ∷ []) (header_text fs body)
            (Lacks-append 10 line (13 ∷ []) n (omega arith, tt)))
    ∙ ap
        (λ w.
          parse_rest
            (record c {
              request_header_offset = some (header_at line);
              request_method = w.0;
              request_args = w.1;
              request_protocol = w.2;
            })
            (header_at line))
        words
    ∙ parse_rest-text
        (record c {
          request_header_offset = some (header_at line);
          request_method = method;
          request_args = args;
          request_protocol = protocol;
        })
        line fs body h e
  where
    line : List ℕ
    line = line_of method args protocol

    words : first_line (drop_cr (line ++ 13 ∷ [])) ≡ (method, args, protocol)
    words = ap first_line (drop_cr-line line) ∙ first_line-line_of method args protocol ms ma
