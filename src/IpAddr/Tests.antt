-- ===== src/IpAddr/Tests.antt =====
-- Some addresses, and the theorems at concrete inputs.
use hector_core.Prelude.{◌*◌, ◌^◌, ℕ, true, Option, some, List, [], ◌∷◌, ◌≡◌, ◌↔◌, refl, arith, pos}
use hector_core.Common.Replace.{find, strip_prefix}
use hector_core.Http.Header.{atol, to_int, digits}
use hector_core.Streams.Frame.{to_u32, from_u32}
use hector_core.IpAddr.{
  IpAddr, zeros, ntohl, compare, apply_prefix, match_text, match_prefix, ip_addr_of, parse_ip4_addr,
  mask, clear_low,
}
use hector_core.IpAddr.Network.{shr, compare-SameNetwork, apply_prefix-Network}

-- 10.1.2.3 and 10.1.9.9
abbrev host : IpAddr
host = record { ip4_addr = true; addr = 10 ∷ 1 ∷ 2 ∷ 3 ∷ zeros 12 }

abbrev neighbour : IpAddr
neighbour = record { ip4_addr = true; addr = 10 ∷ 1 ∷ 9 ∷ 9 ∷ zeros 12 }

compare-SameNetwork_example :
    (compare true host neighbour (pos 16) ≡ some true)
    ↔ (shr (ntohl host.addr) 16 ≡ shr (ntohl neighbour.addr) 16)
compare-SameNetwork_example =
    compare-SameNetwork true host neighbour 16 refl (omega arith, omega arith)

apply_prefix-Network_example :
    (n : IpAddr) × (apply_prefix true (pos 20) host ≡ some n)
    × (ntohl n.addr ≡ shr (ntohl host.addr) 12 * 2 ^ 12)
    × ((b : IpAddr) → compare true n b (pos 20) ≡ compare true host b (pos 20))
    × (apply_prefix true (pos 20) n ≡ some n)
apply_prefix-Network_example =
    apply_prefix-Network true host 20 refl (omega arith, omega arith) (ground arith)

-- A parser that knows one address.
abbrev knows_host : List ℕ → Option (List ℕ)
knows_host text = some (10 ∷ 1 ∷ 0 ∷ 0 ∷ [])

matches_net :
    match_text knows_host knows_host (zeros 16) true host (b'n' ∷ b'/' ∷ b'1' ∷ b'6' ∷ [])
    ≡ some true
unfolding match_text match_prefix ip_addr_of parse_ip4_addr compare mask clear_low ntohl find
    strip_prefix atol digits to_int to_u32 from_u32
matches_net = refl
