-- ===== src/IpAddr.antt =====
-- IpAddr of lib/IpAddr.h and lib/IpAddr.cc: addresses, prefixes and the matching of networks. An address
-- is the 16 bytes of the union in their order in memory, which is the network's; one of IPv4 is in the
-- first four.
pub mod Network
mod Tests
use hector_core.Prelude.{
  ℕ, zero, suc, ◌+◌, ◌-◌, ◌*◌, ◌/◌, ◌%◌, Bool, true, false, ◌&&◌, ◌||◌, Option, none, some, List,
  [], ◌∷◌, ◌++◌, if◌then◌else◌, ◌==◌, leb, ltb, ℤ, pos, negsuc, take, drop,
}
use mathlib.Core.List.{reverse}
use hector_core.Objects.Maps.{equal}
use hector_core.Common.Replace.{find}
use hector_core.Http.Header.{atol, to_int}

pub record IpAddr : Type 0 where
  pub ip4_addr : Bool
  pub addr : List ℕ

abbrev pub zeros : ℕ → List ℕ
zeros zero = []
zeros (suc n) = 0 ∷ zeros n

unfoldable pub empty_ip_addr : IpAddr
empty_ip_addr = record { ip4_addr = true; addr = zeros 16 }

abbrev pub all_zero : List ℕ → Bool
all_zero [] = true
all_zero (b ∷ s) = b == 0 && all_zero s

unfoldable pub is_empty : IpAddr → Bool
is_empty a = if a.ip4_addr then all_zero (take 4 a.addr) else all_zero a.addr

unfoldable pub set_empty : IpAddr → IpAddr
set_empty a = record a { addr = if a.ip4_addr then zeros 4 ++ drop 4 a.addr else zeros 16 }

-- `ntohl` of the first four bytes, and `htonl` into them.
unfoldable pub ntohl : List ℕ → ℕ
ntohl [] = 0
ntohl (a ∷ []) = 0
ntohl (a ∷ b ∷ []) = 0
ntohl (a ∷ b ∷ c ∷ []) = 0
ntohl (a ∷ b ∷ c ∷ d ∷ s) = ((a * 256 + b) * 256 + c) * 256 + d

unfoldable pub htonl : ℕ → List ℕ
htonl n = n / 16777216 % 256 ∷ n / 65536 % 256 ∷ n / 256 % 256 ∷ n % 256 ∷ []

-- A number with its `k` lowest bits cleared: `x & (0xff… << k)`.
unfoldable pub clear_low : ℕ → ℕ → ℕ
clear_low x zero = x
clear_low x (suc k) = 2 * clear_low (x / 2) k

-- `x & (uint32_t)0xffffffff << (32 - prefix)`. A shift by 32 and more, and by less than 0, has no meaning,
-- which is `none`.
unfoldable pub mask : ℕ → ℤ → Option ℕ
mask x (pos p) = if leb 1 p && leb p 32 then some (clear_low x (32 - p)) else none
mask x (negsuc p) = none

-- The bytes are swapped where the host is little-endian.
unfoldable pub reverse_ip6_addr : Bool → List ℕ → List ℕ
reverse_ip6_addr little s = if little then reverse s else s

-- Keeps the first bits of a string of bytes.
unfoldable pub keep_bits : ℕ → List ℕ → List ℕ
unfolding clear_low
keep_bits p [] = []
keep_bits p (b ∷ s) =
    if leb 8 p then b ∷ keep_bits (p - 8) s else clear_low b (8 - p) ∷ keep_bits 0 s

abbrev pub masked : IpAddr → Option ℕ → Option IpAddr
masked a none = none
masked a (some n) = some (record a { addr = htonl n ++ drop 4 a.addr })

unfoldable pub apply_prefix6 : Bool → ℕ → List ℕ → List ℕ
unfolding keep_bits reverse_ip6_addr
apply_prefix6 little prefix s =
    reverse_ip6_addr little
      (keep_bits (if prefix == 0 then 128 else prefix) (reverse_ip6_addr little s))

-- A negative prefix of an IPv6 address, which indexes before the bytes, is `none`.
abbrev pub prefixed6 : Bool → ℤ → IpAddr → Option IpAddr
prefixed6 little (pos p) a = some (record a { addr = apply_prefix6 little p a.addr })
prefixed6 little (negsuc p) a = none

unfoldable pub apply_prefix : Bool → ℤ → IpAddr → Option IpAddr
unfolding mask apply_prefix6
apply_prefix little prefix a =
    if a.ip4_addr then masked a (mask (ntohl a.addr) prefix) else prefixed6 little prefix a

abbrev pub same : Option ℕ → Option ℕ → Option Bool
same none y = none
same (some x) none = none
same (some x) (some y) = some (x == y)

-- The bytes of two IPv6 addresses are compared whole. `other` is of the family of `a`: Match looks at that
-- before the call, and the code asserts it.
unfoldable pub compare : Bool → IpAddr → IpAddr → ℤ → Option Bool
unfolding mask reverse_ip6_addr equal
compare little a other prefix =
    if a.ip4_addr
    then same (mask (ntohl a.addr) prefix) (mask (ntohl other.addr) prefix)
    else some (equal (reverse_ip6_addr little a.addr) (reverse_ip6_addr little other.addr))

-- `inet_pton` for the two families, and what is in the memory of a new address.
module _ (pton4 pton6 : List ℕ → Option (List ℕ)) (garbage : List ℕ) (little : Bool) where
  abbrev pub parsed4 : IpAddr → Option (List ℕ) → Bool × IpAddr
  parsed4 a none = (false, set_empty a)
  parsed4 a (some s) = (true, record a { addr = s ++ drop 4 a.addr })

  unfoldable pub parse_ip4_addr : List ℕ → IpAddr → Bool × IpAddr
  unfolding set_empty
  parse_ip4_addr text a = parsed4 (record a { ip4_addr = true }) (pton4 text)

  abbrev pub parsed6 : IpAddr → Option (List ℕ) → Bool × IpAddr
  parsed6 a none = (false, set_empty a)
  parsed6 a (some s) = (true, record a { addr = s })

  unfoldable pub parse_ip6_addr : List ℕ → IpAddr → Bool × IpAddr
  unfolding set_empty
  parse_ip6_addr text a = parsed6 (record a { ip4_addr = false }) (pton6 text)

  -- The constructor from a text.
  unfoldable pub ip_addr_of : Bool → List ℕ → IpAddr
  unfolding parse_ip4_addr parse_ip6_addr
  ip_addr_of ip4 text =
      let new : IpAddr = record { ip4_addr = ip4; addr = garbage } in
      if ip4 then (parse_ip4_addr text new).1 else (parse_ip6_addr text new).1

  unfoldable pub match_prefix : IpAddr → List ℕ → ℤ → Option Bool
  unfolding compare ip_addr_of
  match_prefix a text prefix = compare little a (ip_addr_of a.ip4_addr text) prefix

  abbrev pub whole_prefix : Bool → ℤ
  whole_prefix ip4 = if ip4 then pos 32 else pos 128

  -- The text before the slash and that behind it.
  abbrev pub match_at : IpAddr → List ℕ → Option (List ℕ × List ℕ) → Option Bool
  match_at a text none = match_prefix a text (whole_prefix a.ip4_addr)
  match_at a text (some ([], rest)) = match_prefix a text (whole_prefix a.ip4_addr)
  match_at a text (some (c ∷ net, rest)) = match_prefix a (c ∷ net) (to_int (atol rest))

  unfoldable pub match_text : IpAddr → List ℕ → Option Bool
  unfolding match_prefix find
  match_text a text = match_at a text (find (b'/' ∷ []) text)
