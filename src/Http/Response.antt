-- ===== src/Http/Response.antt =====
-- The response of lib/server/SimpleHTTPConn.cc: its text, and the loop that sends it.
use hector_core.Prelude.{
  ℕ, zero, suc, ◌+◌, ◌-◌, ◌/◌, ◌%◌, ◌≤◌, Bool, true, false, Option, none, some, List, [], ◌∷◌, ◌++◌,
  if◌then◌else◌, leb, ltb, length, map, refl, take, arith, ◌≡◌, sym, ap, ◌∙◌, append-nil,
  append_assoc, Bool-cases, inl, inr, subst,
}
use hector_core.Http.{Conn}

-- `%d` of a number that is not negative, with the last digits first, and enough fuel for it.
abbrev pub decimal_loop : ℕ → ℕ → List ℕ
decimal_loop zero n = []
decimal_loop (suc fuel) n =
    if ltb n 10 then (n + 48) ∷ [] else decimal_loop fuel (n / 10) ++ (n % 10 + 48) ∷ []

abbrev pub crlf : List ℕ
crlf = 13 ∷ 10 ∷ []

unfoldable pub set_response_code : ℕ → List ℕ → Conn → Conn
set_response_code code description c = record c { response_code = code; response_str = description }

unfoldable pub clear_response_header : Conn → Conn
clear_response_header c = record c { response_header = [] }

unfoldable pub append_response_header : List ℕ → Conn → Conn
append_response_header s c = record c { response_header = (c.response_header ++ s) ++ crlf }

unfoldable pub clear_response_body : Conn → Conn
clear_response_body c = record c { response_body = [] }

unfoldable pub append_response_body : List ℕ → Conn → Conn
append_response_body s c = record c { response_body = c.response_body ++ s }

-- What `snprintf` prints into a buffer of `n` bytes.
abbrev pub printed : ℕ → List ℕ → List ℕ
printed n s = take (n - 1) s

-- The text of the error page is a parameter, of the code, the description and the message.
unfoldable pub error_response : (ℕ → List ℕ → List ℕ → List ℕ) → ℕ → List ℕ → List ℕ → Conn → Conn
unfolding set_response_code clear_response_body append_response_body
error_response page code description message c =
    append_response_body (printed 1000 (page code description message))
      (clear_response_body (set_response_code code description c))

-- "HTTP/1.0 ", "Connection: keep-alive\r\n" and "Content-Length: ".
abbrev http_text : List ℕ
http_text = 72 ∷ 84 ∷ 84 ∷ 80 ∷ 47 ∷ 49 ∷ 46 ∷ 48 ∷ 32 ∷ []

abbrev keep_alive_line : List ℕ
keep_alive_line =
    67 ∷ 111 ∷ 110 ∷ 110 ∷ 101 ∷ 99 ∷ 116 ∷ 105 ∷ 111 ∷ 110 ∷ 58 ∷ 32 ∷ 107 ∷ 101 ∷ 101 ∷ 112 ∷ 45
    ∷ 97 ∷ 108 ∷ 105 ∷ 118 ∷ 101 ∷ 13 ∷ 10 ∷ []

abbrev length_text : List ℕ
length_text =
    67 ∷ 111 ∷ 110 ∷ 116 ∷ 101 ∷ 110 ∷ 116 ∷ 45 ∷ 76 ∷ 101 ∷ 110 ∷ 103 ∷ 116 ∷ 104 ∷ 58 ∷ 32 ∷ []

-- The response as one string.
unfoldable pub response_text : Conn → List ℕ
response_text c =
    printed 1024 (
      http_text
      ++ (decimal_loop (suc c.response_code) c.response_code ++ (32 ∷ (c.response_str ++ crlf))))
    ++ (c.response_header
        ++ ((if c.keep_alive then keep_alive_line else [])
            ++ (printed 1024 (
                  length_text
                  ++ (decimal_loop (suc (length c.response_body)) (length c.response_body)
                      ++ (crlf ++ crlf)))
                ++ c.response_body)))

-- What `select` and `write` give in a round of the loop.
pub data Write : Type 0 where
  select_failed : Write
  timeout : Write
  write_failed : Write
  wrote : ℕ → Write

-- The loop: every `write` is given the beginning of the response. It returns whether it finished, and the
-- bytes that were sent; `none` while it waits for more results.
unfoldable pub send_loop : List Write → List ℕ → ℕ → List ℕ → Option (Bool × List ℕ)
send_loop [] result send wire = none
send_loop (select_failed ∷ ws) result send wire = some (false, wire)
send_loop (timeout ∷ ws) result send wire = some (false, wire)
send_loop (write_failed ∷ ws) result send wire = some (false, wire)
send_loop (wrote w ∷ ws) result send wire =
    let rest = send_loop ws result (send + w) (wire ++ take w result) in
    if leb (length result) (send + w) then some (true, wire ++ take w result) else rest

unfoldable pub send_response : List Write → Conn → Option (Bool × List ℕ)
unfolding send_loop response_text
send_response ws c = send_loop ws (response_text c) 0 []

-- No `write` takes more bytes than it is asked to.
abbrev pub Asked : List Write → List ℕ → ℕ → Type 0
Asked [] result send = Unit {0}
Asked (select_failed ∷ ws) result send = Unit {0}
Asked (timeout ∷ ws) result send = Unit {0}
Asked (write_failed ∷ ws) result send = Unit {0}
Asked (wrote w ∷ ws) result send = (w ≤ length result - send) × Asked ws result (send + w)

-- Beginnings of a string, one behind the other.
abbrev pub prefixes : List ℕ → List ℕ → List ℕ
prefixes [] s = []
prefixes (n ∷ ns) s = take n s ++ prefixes ns s

abbrev pub total : List ℕ → ℕ
total [] = 0
total (n ∷ ns) = n + total ns

-- What is on the wire at the end of the loop.
abbrev SentFrom : List Write → List ℕ → ℕ → List ℕ → Bool × List ℕ → Type 0
SentFrom ws result send wire (false, out) = Unit {0}
SentFrom ws result send wire (true, out) =
    (ns : List ℕ) × (more : List Write) × (ws ≡ map wrote ns ++ more)
    × (out ≡ wire ++ prefixes ns result)
    × (send + total ns ≡ length result)

abbrev SentOrWaits : List Write → List ℕ → ℕ → List ℕ → Option (Bool × List ℕ) → Type 0
SentOrWaits ws result send wire none = Unit {0}
SentOrWaits ws result send wire (some out) = SentFrom ws result send wire out

Sent-before :
    (ws : List Write) (result : List ℕ) (send w : ℕ) (wire : List ℕ) (out : Option (Bool × List ℕ))
    → SentOrWaits ws result (send + w) (wire ++ take w result) out
    → SentOrWaits (wrote w ∷ ws) result send wire out
Sent-before ws result send w wire none h = tt
Sent-before ws result send w wire (some (false, out)) h = tt
Sent-before ws result send w wire (some (true, out)) (ns, more, made, e, n) = (
  w ∷ ns,
  more,
  ap (λ l. wrote w ∷ l) made,
  e ∙ append_assoc wire (take w result) (prefixes ns result),
  omega (arith, n),
)

send_loop-Sent :
    (ws : List Write) (result : List ℕ) (send : ℕ) (wire : List ℕ)
    → Asked ws result send
    → send ≤ length result
    → SentOrWaits ws result send wire (send_loop ws result send wire)
unfolding send_loop
send_loop-Sent [] result send wire a l = tt
send_loop-Sent (select_failed ∷ ws) result send wire a l = tt
send_loop-Sent (timeout ∷ ws) result send wire a l = tt
send_loop-Sent (write_failed ∷ ws) result send wire a l = tt
send_loop-Sent (wrote w ∷ ws) result send wire (a, rest) l =
    elim (Bool-cases (leb (length result) (send + w))) [
      | inl e ↦
          simp e
            (w ∷ [], ws, refl, ap (λ t. wire ++ t) (sym (append-nil (take w result))), ground arith)
      | inr e ↦ simp e (
          Sent-before ws result send w wire (send_loop ws result (send + w) (wire ++ take w result))
            (send_loop-Sent ws result (send + w) (wire ++ take w result) rest
              (omega (arith, a, l))))
    ]

-- When SendResponse finishes, the writes that it has made took together as many bytes as the response has,
-- but what is on the wire is one beginning of the response behind the other, each as long as the `write`
-- that sent it: after a `write` that takes a part, the beginning is sent again in place of the rest.
pub send_response-prefixes :
    (ws : List Write) (c : Conn) (out : List ℕ)
    → Asked ws (response_text c) 0
    → send_response ws c ≡ some (true, out)
    → (ns : List ℕ) × (more : List Write) × (ws ≡ map wrote ns ++ more)
      × (out ≡ prefixes ns (response_text c))
      × (total ns ≡ length (response_text c))
unfolding send_response
send_response-prefixes ws c out a e =
    let (ns, more, made, p, n) =
      subst (SentOrWaits ws (response_text c) 0 []) e
        (send_loop-Sent ws (response_text c) 0 [] a (omega arith)) in
    (ns, more, made, p, omega (arith, n))
