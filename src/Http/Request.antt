-- ===== src/Http/Request.antt =====
-- RequestReady, ReadRequest, GetRequestBody and Clear of lib/server/SimpleHTTPConn.cc.
use hector_core.Prelude.{
  ℕ, suc, ◌-◌, Bool, true, false, ◌||◌, Option, none, some, List, [], ◌∷◌, ◌++◌, if◌then◌else◌, ltb,
  ltb_ℤ, length, take, drop, ℤ, pos, negsuc, sub_ℕ,
}
use hector_core.Http.{Conn, Ready, incomplete, parsed, failed, stuck, ok_text}
use hector_core.Http.Header.{parse_request_header}

-- `request_buffer.length() - request_body_offset`.
abbrev pub bytes_from : Option ℕ → List ℕ → ℤ
bytes_from none buffer = pos (suc (length buffer))
bytes_from (some b) buffer = sub_ℕ (length buffer) b

abbrev pub body_bytes : Conn → ℤ
body_bytes c = bytes_from c.request_body_offset c.request_buffer

abbrev pub is_set : ℤ → Bool
is_set (pos n) = true
is_set (negsuc n) = false

-- The test that enough bytes are there.
unfoldable pub enough : Conn → Ready × Conn
enough c =
    if c.keep_alive || is_set c.request_body_length
    then if ltb_ℤ (body_bytes c) c.request_body_length then (incomplete, c) else (parsed, c)
    else (parsed, c)

abbrev pub after_parse : Ready × Conn → Ready × Conn
after_parse (incomplete, c) = (incomplete, c)
after_parse (failed, c) = (failed, c)
after_parse (stuck, c) = (stuck, c)
after_parse (parsed, c) = enough c

-- A header that is parsed already is returned as it is.
unfoldable pub request_ready : Conn → Ready × Conn
unfolding enough
request_ready c = after_parse (parse_request_header c)

-- What `select` and `read` give in a round of the loop. At the end of the stream it is no bytes.
pub data Arrival : Type 0 where
  select_failed : Arrival
  timeout : Arrival
  read_failed : Arrival
  bytes : List ℕ → Arrival

abbrev pub append : List ℕ → Conn → Conn
append s c = record c { request_buffer = c.request_buffer ++ s }

-- What is returned, with the arrivals that are left; `none` while the loop waits for more.
abbrev pub ReadEnd : Type 0
ReadEnd = Option (Bool × Conn × List Arrival)

unfoldable pub after_ready : (Conn → ReadEnd) → List Arrival → Ready × Conn → ReadEnd
after_ready rest more (incomplete, c) = rest c
after_ready rest more (parsed, c) = some (true, c, more)
after_ready rest more (failed, c) = some (false, c, more)
after_ready rest more (stuck, c) = none

unfoldable pub read_request : List Arrival → Conn → ReadEnd
unfolding after_ready request_ready
read_request [] c = none
read_request (select_failed ∷ more) c = some (false, c, more)
read_request (timeout ∷ more) c = some (false, c, more)
read_request (read_failed ∷ more) c = some (false, c, more)
read_request (bytes s ∷ more) c = after_ready (read_request more) more (request_ready (append s c))

-- `none` is NULL, with which the code makes a string.
abbrev pub body_at : Option ℕ → ℤ → List ℕ → Option (List ℕ)
body_at none n buffer = none
body_at (some b) (pos n) buffer = some (take n (drop b buffer))
body_at (some b) (negsuc n) buffer = some (drop b buffer)

unfoldable pub get_request_body : Conn → Option (List ℕ)
get_request_body c = body_at c.request_body_offset c.request_body_length c.request_buffer

-- The number of bytes behind the body.
abbrev pub bytes_behind : Option ℕ → ℤ → List ℕ → ℕ
bytes_behind none (pos n) buffer = suc (length buffer) - n
bytes_behind (some b) (pos n) buffer = length buffer - b - n
bytes_behind o (negsuc n) buffer = 0

abbrev pub preserve : Conn → ℕ
preserve c = bytes_behind c.request_body_offset c.request_body_length c.request_buffer

unfoldable pub clear : Conn → Conn
clear c = record {
  keep_alive = false;
  request_body_length = negsuc 0;
  request_method = [];
  request_args = [];
  request_protocol = [];
  request_buffer = if ltb 0 (preserve c) then drop (preserve c) c.request_buffer else [];
  request_body_offset = none;
  request_header_offset = none;
  header_fields = none;
  response_code = 200;
  response_str = ok_text;
  response_header = [];
  response_body = [];
}
