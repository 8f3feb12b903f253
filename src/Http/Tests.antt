-- ===== src/Http/Tests.antt =====
-- Small requests and responses, and the theorems at concrete inputs.
use hector_core.Prelude.{
  ℕ, true, map, Bool, some, take, drop, List, [], ◌∷◌, ◌++◌, ◌≡◌, ◌≢◌, refl, length, pos, arith,
}
use hector_core.Objects.Maps.{equal}
use hector_core.Streams.Frame.{to_u32, from_u32}
use hector_core.Http.{Conn, stuck, new_conn}
use hector_core.Http.Header.{
  parse_request_header, parse_rest, after_fields, fields_loop, one_line, one_field, new_field,
  blanks, store, first_line, body_offset, drop_cr, content_length, connection, keep_alive_text,
  atol, digits, to_int,
}
use hector_core.Http.Request.{
  after_ready, enough, timeout, Arrival, ReadEnd, clear, bytes, read_request, request_ready,
}
use hector_core.Http.Response.{
  Write, wrote, send_loop, send_response, response_text, prefixes, total, send_response-prefixes,
}
use hector_core.Http.Line.{line_of}
use hector_core.Http.Whole.{request_text}
use hector_core.Http.Body.{WasRead, read_request-whole}
use hector_core.Http.Serve.{Reply, serve, IsAlone, serve-each}
use hector_core.Http.Ends.{request_ready-ne-stuck}

-- "GET", "/a" and "X"
abbrev method : List ℕ
method = b'G' ∷ b'E' ∷ b'T' ∷ []

abbrev args : List ℕ
args = b'/' ∷ b'a' ∷ []

abbrev protocol : List ℕ
protocol = b'X' ∷ []

abbrev body : List ℕ
body = b'h' ∷ b'i' ∷ []

abbrev field_list : List (List ℕ × List ℕ)
field_list = (b'A' ∷ [], b'b' ∷ []) ∷ (content_length, b'2' ∷ []) ∷ []

abbrev first_bytes : Conn
first_bytes = record new_conn {
  request_buffer = (line_of method args protocol ++ 13 ∷ []) ++ 10 ∷ b'A' ∷ [];
}

read_request-whole_example :
    (c : Conn) × (read_request
        (bytes (request_text (line_of method args protocol) field_list body) ∷ [])
        new_conn
      ≡ some (true, c, []))
    × WasRead c method args protocol body
unfolding equal atol digits to_int to_u32 from_u32
read_request-whole_example =
    read_request-whole method args protocol field_list body (b'2' ∷ []) [] (ground arith)
      (ground arith) (ground arith) (ground arith) refl refl

request_ready-ne-stuck_example : (request_ready first_bytes).0 ≢ stuck
request_ready-ne-stuck_example = request_ready-ne-stuck first_bytes

-- The response is sent in two writes.
send_response-prefixes_example :
    (ns : List ℕ) × (more : List Write) × (wrote 3 ∷ wrote 35 ∷ [] ≡ map wrote ns ++ more)
    × (prefixes (3 ∷ 35 ∷ []) (response_text new_conn) ≡ prefixes ns (response_text new_conn))
    × (total ns ≡ length (response_text new_conn))
unfolding send_response send_loop response_text new_conn
send_response-prefixes_example =
    send_response-prefixes (wrote 3 ∷ wrote 35 ∷ []) new_conn
      (prefixes (3 ∷ 35 ∷ []) (response_text new_conn)) (omega arith, (omega arith, tt)) refl

-- A request of four bytes is answered, and two bytes of the next one are there.
abbrev answered : Conn
answered = record new_conn {
  request_buffer = 10 ∷ 10 ∷ b'h' ∷ b'i' ∷ b'G' ∷ b'E' ∷ [];
  request_body_offset = some 2;
  request_body_length = pos 2;
}

-- Clear drops as many bytes as it should keep.
kept : (clear answered).request_buffer ≡ b'h' ∷ b'i' ∷ b'G' ∷ b'E' ∷ []
unfolding clear
kept = refl

-- A request with a body of two bytes that keeps the connection.
abbrev keeping : Arrival
keeping = bytes (
    request_text (line_of method args protocol)
      ((connection, keep_alive_text) ∷ (content_length, b'2' ∷ []) ∷ []) body)

abbrev keeping_read : ReadEnd
keeping_read = read_request (keeping ∷ []) new_conn

abbrev kept_conn : Conn
kept_conn = record new_conn {
  keep_alive = true;
  request_body_length = pos 2;
  request_method = method;
  request_args = args;
  request_protocol = protocol;
  request_buffer =
      request_text (line_of method args protocol)
        ((connection, keep_alive_text) ∷ (content_length, b'2' ∷ []) ∷ []) body;
  request_body_offset = some 55;
  request_header_offset = some 10;
  header_fields = some ((connection, keep_alive_text) ∷ (content_length, b'2' ∷ []) ∷ []);
}

keeping-IsAlone : IsAlone keeping kept_conn
unfolding read_request after_ready request_ready enough parse_request_header parse_rest after_fields
    fields_loop one_line one_field new_field blanks store first_line body_offset drop_cr atol digits
    to_int equal to_u32 from_u32 new_conn
keeping-IsAlone = record { read = refl; whole = refl; kept = refl }

-- A handler that answers requests with their own body.
abbrev echoes : Conn → Bool × Reply
echoes c = (
  true,
  record {
    code = 200;
    str = b'O' ∷ b'K' ∷ [];
    header = [];
    body = take 2 (drop 55 c.request_buffer);
  },
)

serve-each_example :
    serve echoes (λ code str text. text) (λ s. s) 3 (keeping ∷ keeping ∷ timeout ∷ []) new_conn
    ≡ some
        (record kept_conn { response_body = body } ∷ record kept_conn { response_body = body } ∷ [])
unfolding new_conn
serve-each_example =
    serve-each echoes (λ code str text. text) (λ s. s)
      ((keeping, kept_conn) ∷ (keeping, kept_conn) ∷ []) (keeping-IsAlone, (keeping-IsAlone, tt))
