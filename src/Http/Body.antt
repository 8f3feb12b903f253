-- ===== src/Http/Body.antt =====
-- The body of a request that SimpleHTTPConn of lib/server has read.
use hector_core.Prelude.{
  ℕ, suc, ◌+◌, true, false, some, List, [], ◌∷◌, ◌++◌, All, arith, ◌≡◌, refl, ap, ap₂, ◌∙◌, length,
  length-append, if◌then◌else◌, if_both, ltb_ℤ, drop, take, pos, sub_ℕ, ◌||◌,
}
use hector_core.Objects.Maps.{lookup}
use hector_core.Http.{Conn, incomplete, parsed, new_conn}
use hector_core.Http.Header.{
  Map, atol, to_int, after_fields, body_length, content_length, parse_request_header,
}
use hector_core.Http.Request.{
  Arrival, bytes, append, enough, after_ready, request_ready, read_request, get_request_body,
  after_parse, is_set, body_bytes, body_at, bytes_from,
}
use hector_core.Http.Line.{Lacks, line_of}
use hector_core.Http.Fields.{IsField, field_line, header_text, header_length, stored}
use hector_core.Http.Whole.{request_text, header_at, started, whole, parse_text}

length-header_text :
    (fs : Map) (body : List ℕ) → length (header_text fs body) ≡ header_length fs + length body
length-header_text [] body = omega arith
length-header_text ((name, value) ∷ fs) body = omega (
  arith,
  length-header_text fs body,
  length-append (field_line name value) (13 ∷ []),
  length-append (field_line name value ++ 13 ∷ []) (10 ∷ header_text fs body),
)

drop-prefix : (s t : List ℕ) (n : ℕ) → drop (length s + n) (s ++ t) ≡ drop n t
drop-prefix [] t n = ap (λ k. drop k t) (omega arith)
drop-prefix (x ∷ s) t n =
    ap (λ k. drop k (x ∷ s ++ t)) {x = suc (length s) + n} {y = suc (length s + n)} (omega arith)
    ∙ drop-prefix s t n

drop-line : (s t : List ℕ) (n k : ℕ) → k ≡ length s + suc n → drop k (s ++ 10 ∷ t) ≡ drop n t
drop-line s t n k e = ap (λ i. drop i (s ++ 10 ∷ t)) e ∙ drop-prefix s (10 ∷ t) (suc n)

drop-header_text : (fs : Map) (body : List ℕ) → drop (header_length fs) (header_text fs body) ≡ body
drop-header_text [] body = refl
drop-header_text ((name, value) ∷ fs) body =
    drop-line (field_line name value ++ 13 ∷ []) (header_text fs body) (header_length fs)
      (length (field_line name value) + 2 + header_length fs)
      (omega (arith, length-append (field_line name value) (13 ∷ [])))
    ∙ drop-header_text fs body

-- The body of the text, and its length.
drop-text :
    (line : List ℕ) (fs : Map) (body : List ℕ)
    → drop (header_at line + header_length fs) (request_text line fs body) ≡ body
drop-text line fs body =
    drop-line (line ++ 13 ∷ []) (header_text fs body) (header_length fs)
      (header_at line + header_length fs) (omega arith)
    ∙ drop-header_text fs body

length-text :
    (line : List ℕ) (fs : Map) (body : List ℕ)
    → length (request_text line fs body) ≡ header_at line + header_length fs + length body
length-text line fs body =
    omega (
      arith,
      length-append (line ++ 13 ∷ []) (10 ∷ header_text fs body),
      length-header_text fs body,
    )

take-length : (s : List ℕ) → take (length s) s ≡ s
take-length [] = refl
take-length (x ∷ s) = ap (λ t. x ∷ t) (take-length s)

-- Enough bytes are there when the body is.
enough_lem :
    (c : Conn) (b n : ℕ)
    → c.request_body_offset ≡ some b
    → c.request_body_length ≡ pos n
    → length c.request_buffer ≡ b + n
    → (enough c ≡ (parsed, c)) × (get_request_body c ≡ some (take n (drop b c.request_buffer)))
unfolding enough get_request_body
enough_lem c b n ob len e = (
  if_both (λ r. r ≡ (parsed, c)) (c.keep_alive || is_set c.request_body_length) _ (parsed, c)
      (ap (λ t. if t then (incomplete, c) else (parsed, c)) there) refl,
  ap₂ (λ o z. body_at o z c.request_buffer) ob len,
)
  where
    none_missing : (m k l : ℕ) → l ≡ m + k → ltb_ℤ (sub_ℕ l m) (pos k) ≡ false
    none_missing m k l h = ground arith

    there : ltb_ℤ (body_bytes c) c.request_body_length ≡ false
    there =
        ap₂ ltb_ℤ (ap (λ o. bytes_from o c.request_buffer) ob) len
        ∙ none_missing b n (length c.request_buffer) e

after_fields-length :
    (c : Conn) (m : Map) (v : List ℕ) (n : ℕ)
    → lookup content_length m ≡ some v
    → to_int (atol v) ≡ pos n
    → (after_fields c m).request_body_length ≡ pos n
unfolding after_fields
after_fields-length c m v n e h = ap (λ o. body_length o c.request_body_length) e ∙ h

-- What is known of a request that was read.
pub record WasRead (c : Conn) (method args protocol body : List ℕ) : Type 0 where
  pub method_read : c.request_method ≡ method
  pub args_read : c.request_args ≡ args
  pub protocol_read : c.request_protocol ≡ protocol
  pub body_read : get_request_body c ≡ some body

-- A well-formed request that arrives in one piece is read as it was meant: ReadRequest returns true, the
-- method, the arguments and the protocol are the words of its first line, and the body is the whole of
-- what follows the header, if its length is that of the last field Content-Length.
pub read_request-whole :
    (method args protocol : List ℕ) (fs : Map) (body v : List ℕ) (more : List Arrival)
    → Lacks 32 method
    → Lacks 32 args
    → Lacks 10 (line_of method args protocol)
    → All IsField fs
    → lookup content_length (stored fs []) ≡ some v
    → to_int (atol v) ≡ pos (length body)
    → (c : Conn) × (read_request
          (bytes (request_text (line_of method args protocol) fs body) ∷ more)
          new_conn
        ≡ some (true, c, more))
      × WasRead c method args protocol body
unfolding read_request new_conn after_ready request_ready after_fields
read_request-whole method args protocol fs body v more ms ma n h l e = (
  c,
  ap (after_ready (read_request more) more) (ap after_parse parsed_lem ∙ done.0),
  record {
    method_read = refl;
    args_read = refl;
    protocol_read = refl;
    body_read =
        done.1 ∙ ap some (ap (take (length body)) (drop-text line fs body) ∙ take-length body);
  },
)
  where
    line : List ℕ
    line = line_of method args protocol

    arrived : Conn
    arrived = append (request_text line fs body) new_conn

    c : Conn
    c = whole arrived method args protocol fs

    parsed_lem : parse_request_header arrived ≡ (parsed, c)
    parsed_lem = parse_text arrived method args protocol fs body ms ma n h refl refl refl

    done :
        (enough c ≡ (parsed, c))
        × (get_request_body c
            ≡ some (
                take
                  (length body)
                  (drop (header_at line + header_length fs) (request_text line fs body))))
    done =
        enough_lem c (header_at line + header_length fs) (length body) refl
          (after_fields-length (started arrived method args protocol fs) (stored fs []) v
            (length body) l e)
          (length-text line fs body)
