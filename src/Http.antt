-- ===== src/Http.antt =====
-- SimpleHTTPConn and SimpleHTTPServer of lib/server: requests that arrive in pieces over one
-- connection, and the responses. The names of the model are those of SimpleHTTPConn.h.
pub mod Header
pub mod Request
pub mod Response
pub mod Fields
pub mod Whole
pub mod Ends
pub mod Serve
mod Fuel
pub mod Line
pub mod Body
mod Tests
use hector_core.Prelude.{ℕ, ℤ, negsuc, Bool, false, Option, none, List, [], ◌∷◌}

-- What ParseRequestHeader and RequestReady return. `stuck` is no value of the code: the loop on the
-- header fields ran out of fuel.
pub data Ready : Type 0 where
  incomplete : Ready
  parsed : Ready
  failed : Ready
  stuck : Ready

-- The offsets are -1, here `none`, before they are known, `header_fields` is NULL, here `none`, before
-- the header is parsed.
pub record Conn : Type 0 where
  pub keep_alive : Bool
  pub request_body_length : ℤ
  pub request_method : List ℕ
  pub request_args : List ℕ
  pub request_protocol : List ℕ
  pub request_buffer : List ℕ
  pub request_body_offset : Option ℕ
  pub request_header_offset : Option ℕ
  pub header_fields : Option (List (List ℕ × List ℕ))
  pub response_code : ℕ
  pub response_str : List ℕ
  pub response_header : List ℕ
  pub response_body : List ℕ

-- "OK"
abbrev pub ok_text : List ℕ
ok_text = b'O' ∷ b'K' ∷ []

-- The constructor.
unfoldable pub new_conn : Conn
new_conn = record {
  keep_alive = false;
  request_body_length = negsuc 0;
  request_method = [];
  request_args = [];
  request_protocol = [];
  request_buffer = [];
  request_body_offset = none;
  request_header_offset = none;
  header_fields = none;
  response_code = 200;
  response_str = ok_text;
  response_header = [];
  response_body = [];
}
