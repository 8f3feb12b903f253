-- ===== src/Http/Serve.antt =====
-- `Request` of lib/server/SimpleHTTPServer.cc: the requests of one connection, one after the other.
use hector_core.Prelude.{
  ℕ, zero, suc, Bool, true, false, Option, none, some, List, [], ◌∷◌, ◌++◌, ◌≡◌, refl, ap, ◌∙◌,
  if◌then◌else◌, length, map, All, arith,
}
use hector_core.Http.{Conn, Ready, incomplete, parsed, failed, stuck, new_conn}
use hector_core.Http.Request.{
  Arrival, select_failed, timeout, read_failed, bytes, append, ReadEnd, after_ready, request_ready,
  read_request, preserve, clear,
}
use hector_core.Http.Response.{error_response, printed}

-- What `HandleRequest` of a derived class leaves in the response; its result says whether it knows the
-- method. It does not touch what was read of the request.
pub record Reply : Type 0 where
  pub code : ℕ
  pub str : List ℕ
  pub header : List ℕ
  pub body : List ℕ

-- "Not implemented".
abbrev not_implemented : List ℕ
not_implemented =
    b'N' ∷ b'o' ∷ b't' ∷ 32 ∷ b'i' ∷ b'm' ∷ b'p' ∷ b'l' ∷ b'e' ∷ b'm' ∷ b'e' ∷ b'n' ∷ b't' ∷ b'e'
    ∷ b'd' ∷ []

abbrev pub written : Conn → Reply → Conn
written c r = record c {
  response_code = r.code;
  response_str = r.str;
  response_header = r.header;
  response_body = r.body;
}

-- `handle` stands for HandleRequest, `page` for the text of an error page, and `missing` for the message
-- with the name of the method.
module _ (handle : Conn → Bool × Reply) (page : ℕ → List ℕ → List ℕ → List ℕ)
    (missing : List ℕ → List ℕ) where
  abbrev pub replied : Conn → Bool × Reply → Conn
  replied c (true, r) = written c r
  replied c (false, r) =
      error_response page 501 not_implemented (printed 1000 (missing c.request_method))
        (written c r)

  abbrev pub before : Conn → Option (List Conn) → Option (List Conn)
  before c none = none
  before c (some cs) = some (c ∷ cs)

  abbrev pub go_on :
      (List Arrival → Conn → Option (List Conn)) → Conn → List Arrival → Option (List Conn)
  go_on rest c more =
      let next = rest more (clear c) in if c.keep_alive then before c next else some (c ∷ [])

  abbrev pub after_read : (List Arrival → Conn → Option (List Conn)) → ReadEnd → Option (List Conn)
  after_read rest none = none
  after_read rest (some (false, c, more)) = some []
  after_read rest (some (true, c, more)) = go_on rest (replied c (handle c)) more

  -- The connection as it is when each response is sent; `none` while a request is waited for. Every round
  -- takes an arrival, so that one more than there are is fuel enough.
  unfoldable pub serve : ℕ → List Arrival → Conn → Option (List Conn)
  serve zero more c = none
  serve (suc n) more c = let rest = serve n in after_read rest (read_request more c)

read_request-more :
    (a : Arrival) (more : List Arrival) (c d : Conn)
    → read_request (a ∷ []) c ≡ some (true, d, [])
    → read_request (a ∷ more) c ≡ some (true, d, more)
unfolding read_request after_ready
read_request-more select_failed more c d e = ground (arith, e)
read_request-more timeout more c d e = ground (arith, e)
read_request-more read_failed more c d e = ground (arith, e)
read_request-more (bytes s) more c d e = go (request_ready (append s c)) e
  where
    go :
        (r : Ready × Conn)
        → after_ready (read_request []) [] r ≡ some (true, d, [])
        → after_ready (read_request more) more r ≡ some (true, d, more)
    go (incomplete, x) h = cc
    go (parsed, x) h = cc
    go (failed, x) h = cc
    go (stuck, x) h = cc

-- With no bytes behind the body, Clear leaves the connection as it was new.
clear-new_conn : (c : Conn) → preserve c ≡ 0 → clear c ≡ new_conn
unfolding clear new_conn
clear-new_conn c e = simp e

-- The arrival is a whole request with no bytes behind it, which keeps the connection; it is read as `c`.
pub record IsAlone (a : Arrival) (c : Conn) : Type 0 where
  pub read : read_request (a ∷ []) new_conn ≡ some (true, c, [])
  pub whole : preserve c ≡ 0
  pub kept : c.keep_alive ≡ true

module _ (handle : Conn → Bool × Reply) (page : ℕ → List ℕ → List ℕ → List ℕ)
    (missing : List ℕ → List ℕ) where
  abbrev answer : Conn → Conn
  answer c = replied handle page missing c (handle c)

  answer-same :
      (c : Conn) (o : Bool × Reply)
      → (preserve (replied handle page missing c o) ≡ preserve c)
        × ((replied handle page missing c o).keep_alive ≡ c.keep_alive)
  unfolding error_response
  answer-same c (false, r) = (refl, refl)
  answer-same c (true, r) = (refl, refl)

  one_round :
      (n : ℕ) (a : Arrival) (c : Conn) (more : List Arrival)
      → IsAlone a c
      → serve handle page missing (suc n) (a ∷ more) new_conn
        ≡ before handle page missing (answer c) (serve handle page missing n more new_conn)
  unfolding serve
  one_round n a c more h =
      ap (after_read handle page missing (serve handle page missing n))
        (read_request-more a more new_conn c h.read)
      ∙ ap
          (λ b.
            if b
            then before handle page missing (answer c)
                (serve handle page missing n more (clear (answer c)))
            else some (answer c ∷ []))
          ((answer-same c (handle c)).1 ∙ h.kept)
      ∙ ap (λ d. before handle page missing (answer c) (serve handle page missing n more d))
          (clear-new_conn (answer c) ((answer-same c (handle c)).0 ∙ h.whole))

  -- Requests that keep the connection and arrive one by one, each in a piece, are each answered as on a
  -- new connection, in their order, until the next one does not come in time.
  pub serve-each :
      (rs : List (Arrival × Conn))
      → All (λ (a, c). IsAlone a c) rs
      → serve handle page missing (suc (length rs)) (map (λ (a, c). a) rs ++ timeout ∷ []) new_conn
        ≡ some (map (λ (a, c). replied handle page missing c (handle c)) rs)
  unfolding serve read_request
  serve-each [] h = refl
  serve-each ((a, c) ∷ rs) h =
      one_round (suc (length rs)) a c (map (λ (a, c). a) rs ++ timeout ∷ []) h.0
      ∙ ap (before handle page missing (answer c)) (serve-each rs h.1)
