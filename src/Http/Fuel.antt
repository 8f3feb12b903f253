-- ===== src/Http/Fuel.antt =====
-- The fuel of the loop of lib/server/SimpleHTTPServer.cc.
use hector_core.Prelude.{
  ℕ, zero, suc, ◌≤◌, ◌<◌, Bool, true, false, Option, none, some, List, [], ◌∷◌, ◌≡◌, refl, length,
  arith,
}
use hector_core.Http.{Conn, Ready, incomplete, parsed, failed, stuck}
use hector_core.Http.Request.{
  Arrival, select_failed, timeout, read_failed, bytes, append, ReadEnd, after_ready, request_ready,
  read_request, clear,
}
use hector_core.Http.Serve.{Reply, replied, go_on, after_read, serve}

-- A request takes an arrival.
abbrev Takes : ℕ → ReadEnd → Type 0
Takes n none = Unit {0}
Takes n (some (b, c, more)) = length more < n

Takes-less : (n m : ℕ) (r : ReadEnd) → n ≤ m → Takes n r → Takes m r
Takes-less n m none h t = tt
Takes-less n m (some (b, c, more)) h t = omega (arith, h, t)

read_request-Takes : (more : List Arrival) (c : Conn) → Takes (length more) (read_request more c)
unfolding read_request after_ready
read_request-Takes [] c = tt
read_request-Takes (select_failed ∷ more) c = omega arith
read_request-Takes (timeout ∷ more) c = omega arith
read_request-Takes (read_failed ∷ more) c = omega arith
read_request-Takes (bytes s ∷ more) c =
    go (request_ready (append s c)) (λ d. read_request-Takes more d)
  where
    go :
        (r : Ready × Conn)
        → ((d : Conn) → Takes (length more) (read_request more d))
        → Takes (suc (length more)) (after_ready (read_request more) more r)
    go (incomplete, d) h =
        Takes-less (length more) (suc (length more)) (read_request more d) (omega arith) (h d)
    go (parsed, d) h = omega arith
    go (failed, d) h = omega arith
    go (stuck, d) h = tt

module _ (handle : Conn → Bool × Reply) (page : ℕ → List ℕ → List ℕ → List ℕ)
    (missing : List ℕ → List ℕ) where
  abbrev Loop : Type 0
  Loop = List Arrival → Conn → Option (List Conn)

  go_on-same :
      (f g : Loop) (b : Bool) (c d : Conn) (more : List Arrival)
      → f more (clear c) ≡ g more (clear c)
      → c.keep_alive ≡ b
      → go_on handle page missing f c more ≡ go_on handle page missing g c more
  go_on-same f g true c d more h e = simp (e, h)
  go_on-same f g false c d more h e = simp e

  after_read-same :
      (f g : Loop) (n : ℕ) (r : ReadEnd)
      → ((more : List Arrival) (c : Conn) → length more < n → f more c ≡ g more c)
      → Takes n r
      → after_read handle page missing f r ≡ after_read handle page missing g r
  after_read-same f g n none h t = refl
  after_read-same f g n (some (false, c, more)) h t = refl
  after_read-same f g n (some (true, c, more)) h t =
      go_on-same f g (replied handle page missing c (handle c)).keep_alive
        (replied handle page missing c (handle c)) c more
        (h more (clear (replied handle page missing c (handle c))) t) refl

  -- With more fuel than there are arrivals, the loop gives what it gives with any more.
  serve_fuel :
      (n m : ℕ) (more : List Arrival) (c : Conn)
      → length more < n
      → length more < m
      → serve handle page missing n more c ≡ serve handle page missing m more c
  unfolding serve
  serve_fuel zero m more c h k = ground (arith, h)
  serve_fuel (suc n) zero more c h k = ground (arith, k)
  serve_fuel (suc n) (suc m) more c h k =
      after_read-same (serve handle page missing n) (serve handle page missing m) (length more)
        (read_request more c)
        (λ less d t. serve_fuel n m less d (omega (arith, h, t)) (omega (arith, k, t)))
        (read_request-Takes more c)
