-- ===== src/Http/Ends.antt =====
-- How the reading of a request and the clearing of a connection of lib/server/SimpleHTTPConn.cc end.
use hector_core.Prelude.{
  ℕ, suc, ◌+◌, ◌-◌, ◌<◌, true, Option, none, some, List, [], ◌++◌, arith, ◌≡◌, ◌≢◌, refl, ap, ◌∙◌,
  sym, subst, length, length-append, length-drop, if◌then◌else◌, if_both, ltb, drop, pos, ◌||◌,
  ltb_ℤ,
}
use hector_core.Http.{Conn, Ready, incomplete, parsed, failed, stuck}
use hector_core.Http.Header.{
  Map, Loop, out_of_fuel, no_newline, fields, after_loop, with_body, parse_rest, parse_line,
  parse_from, parse_new, parse_request_header, body_offset, newline,
}
use hector_core.Http.Request.{
  enough, after_parse, request_ready, clear, preserve, is_set, body_bytes, bytes_behind,
}
use hector_core.Http.Fields.{HasEnded, fields_loop-HasEnded}
use hector_core.Common.Replace.{find}

abbrev Runs : Ready × Conn → Type 0
Runs (incomplete, c) = Unit {0}
Runs (parsed, c) = Unit {0}
Runs (failed, c) = Unit {0}
Runs (stuck, c) = ⊥

after_loop-Runs : (c : Conn) (l : Loop) → HasEnded l → Runs (after_loop c l)
after_loop-Runs c out_of_fuel h = h
after_loop-Runs c (no_newline m) h = tt
after_loop-Runs c (fields m) h = tt

with_body-Runs : (c : Conn) (h : ℕ) (o : Option ℕ) → Runs (with_body c h o)
with_body-Runs c h none = tt
with_body-Runs c h (some b) =
    after_loop-Runs (record c { request_body_offset = some b }) _
      (fields_loop-HasEnded (b - h) (b - h) (drop h c.request_buffer) [] [] [] (omega arith))

parse_rest-Runs : (c : Conn) (h : ℕ) → Runs (parse_rest c h)
unfolding parse_rest
parse_rest-Runs c h = with_body-Runs c h (body_offset c.request_buffer h)

parse_line-Runs : (c : Conn) (o : Option (List ℕ × List ℕ)) → Runs (parse_line c o)
parse_line-Runs c none = tt
parse_line-Runs c (some (line, rest)) = parse_rest-Runs _ (suc (length line))

parse_new-Runs :
    (c : Conn) (h : Option ℕ) (o : Option Map) → c.request_header_offset ≡ h → Runs (parse_new c o)
parse_new-Runs c h (some m) e = tt
parse_new-Runs c none none e =
    subst (λ o. Runs (parse_from c o)) (sym e) (parse_line-Runs c (find newline c.request_buffer))
parse_new-Runs c (some h) none e = subst (λ o. Runs (parse_from c o)) (sym e) (parse_rest-Runs c h)

parse-Runs : (c : Conn) → Runs (parse_request_header c)
unfolding parse_request_header
parse-Runs c = parse_new-Runs c c.request_header_offset c.header_fields refl

after_parse-Runs : (r : Ready × Conn) → Runs r → Runs (after_parse r)
unfolding enough
after_parse-Runs (incomplete, c) h = tt
after_parse-Runs (failed, c) h = tt
after_parse-Runs (stuck, c) h = h
after_parse-Runs (parsed, c) h =
    if_both Runs (c.keep_alive || is_set c.request_body_length) _ (parsed, c)
      (if_both Runs (ltb_ℤ (body_bytes c) c.request_body_length) (incomplete, c) (parsed, c) tt tt)
      tt

Runs-ne : (r : Ready × Conn) → Runs r → r.0 ≢ stuck
Runs-ne (incomplete, c) h e = cc
Runs-ne (parsed, c) h e = cc
Runs-ne (failed, c) h e = cc
Runs-ne (stuck, c) h e = h

-- RequestReady comes to its end whatever bytes have arrived: the loop on the header fields takes at
-- least one byte of the header in each round.
pub request_ready-ne-stuck : (c : Conn) → (request_ready c).0 ≢ stuck
unfolding request_ready
request_ready-ne-stuck c =
    Runs-ne (after_parse (parse_request_header c))
      (after_parse-Runs (parse_request_header c) (parse-Runs c))

-- Clear keeps as many bytes as the request had, in place of those that follow it: the beginning of the
-- next request survives only if it is as long as the one that was answered.
pub clear-ne-next :
    (c : Conn) (request next : List ℕ) (b n : ℕ)
    → c.request_buffer ≡ request ++ next
    → c.request_body_offset ≡ some b
    → c.request_body_length ≡ pos n
    → length request ≡ b + n
    → 0 < length next
    → length next ≢ length request
    → (length (clear c).request_buffer ≡ length request) × ((clear c).request_buffer ≢ next)
unfolding clear
clear-ne-next c request next b n e o z l g d = (kept, λ q. d (sym (ap length q) ∙ kept))
  where
    positive : (k : ℕ) → 0 < k → ltb 0 k ≡ true
    positive k h = ground arith

    behind : preserve c ≡ length next
    behind =
        ap (λ o. bytes_behind o c.request_body_length c.request_buffer) o
        ∙ ap (λ x. bytes_behind (some b) x c.request_buffer) z
        ∙ ap (λ s. length s - b - n) e
        ∙ omega (arith, length-append request next, l)

    kept : length (clear c).request_buffer ≡ length request
    kept =
        ap (λ t. length (if t then drop (preserve c) c.request_buffer else []))
          (positive (preserve c) (omega (arith, behind, g)))
        ∙ length-drop (preserve c) c.request_buffer
        ∙ omega (arith, ap length e, length-append request next, behind)
