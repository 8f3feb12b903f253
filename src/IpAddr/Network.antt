-- ===== src/IpAddr/Network.antt =====
-- What ApplyPrefix and Compare of lib/IpAddr.cc make of the bits of an address.
use hector_core.Prelude.{
  ℕ, zero, suc, ◌-◌, ◌*◌, ◌^◌, ◌/◌, ◌≤◌, ◌<◌, Bool, true, false, some, List, [], ◌∷◌, ◌++◌, All,
  arith, ◌≡◌, ◌↔◌, refl, ap, ap₂, ◌∙◌, sym, subst, if◌then◌else◌, ◌==◌, ==_iff, leb, length,
  length-append, drop, pos,
}
use mathlib.Core.List.{reverse, reverse-append, reverse-reverse}
use native.Mathlib.Nat.{mul_comm, mul_assoc, pow-suc}
use hector_core.Objects.Maps.{equal}
use hector_core.IpAddr.{
  IpAddr, zeros, ntohl, htonl, clear_low, mask, masked, keep_bits, reverse_ip6_addr, apply_prefix6,
  apply_prefix, same, compare, prefixed6,
}

-- A number without its `k` lowest bits.
abbrev pub shr : ℕ → ℕ → ℕ
shr x zero = x
shr x (suc k) = shr (x / 2) k

clear_low-le : (x k : ℕ) → clear_low x k ≤ x
unfolding clear_low
clear_low-le x zero = omega arith
clear_low-le x (suc k) = omega (arith, clear_low-le (x / 2) k)

clear_low_idem : (x k : ℕ) → clear_low (clear_low x k) k ≡ clear_low x k
unfolding clear_low
clear_low_idem x zero = refl
clear_low_idem x (suc k) =
    ap (λ n. 2 * clear_low n k) (omega arith) ∙ ap (λ n. 2 * n) (clear_low_idem (x / 2) k)

clear_low-shr : (x y k : ℕ) → (clear_low x k ≡ clear_low y k) ↔ (shr x k ≡ shr y k)
unfolding clear_low
clear_low-shr x y zero = (λ e. e, λ e. e)
clear_low-shr x y (suc k) = (
  λ e. (clear_low-shr (x / 2) (y / 2) k).0 (omega (arith, e)),
  λ e. ap (λ n. 2 * n) ((clear_low-shr (x / 2) (y / 2) k).1 e),
)

-- A prefix that leaves a shift of fewer than 32 places.
abbrev pub IsPrefix : ℕ → Type 0
IsPrefix p = (1 ≤ p) × (p ≤ 32)

mask-some : (x p : ℕ) → IsPrefix p → mask x (pos p) ≡ some (clear_low x (32 - p))
unfolding mask
mask-some x p (h, k) = ground arith

compare_lem :
    (little : Bool) (a b : IpAddr) (p : ℕ)
    → a.ip4_addr ≡ true
    → IsPrefix p
    → compare little a b (pos p)
      ≡ some (clear_low (ntohl a.addr) (32 - p) == clear_low (ntohl b.addr) (32 - p))
unfolding compare
compare_lem little a b p i h =
    ap
      (λ t.
        if t
        then same (mask (ntohl a.addr) (pos p)) (mask (ntohl b.addr) (pos p))
        else some (equal (reverse_ip6_addr little a.addr) (reverse_ip6_addr little b.addr)))
      i
    ∙ ap₂ same (mask-some (ntohl a.addr) p h) (mask-some (ntohl b.addr) p h)

-- Two IPv4 addresses match with a prefix between 1 and 32 exactly if the bits of the prefix are the same.
pub compare-SameNetwork :
    (little : Bool) (a b : IpAddr) (p : ℕ)
    → a.ip4_addr ≡ true
    → IsPrefix p
    → (compare little a b (pos p) ≡ some true)
      ↔ (shr (ntohl a.addr) (32 - p) ≡ shr (ntohl b.addr) (32 - p))
compare-SameNetwork little a b p i h = (
  λ e. bits.0 ((==_iff x y).0 (from_some (x == y) (sym (compare_lem little a b p i h) ∙ e))),
  λ e. compare_lem little a b p i h ∙ ap some ((==_iff x y).1 (bits.1 e)),
)
  where
    x : ℕ
    x = clear_low (ntohl a.addr) (32 - p)

    y : ℕ
    y = clear_low (ntohl b.addr) (32 - p)

    bits : (x ≡ y) ↔ (shr (ntohl a.addr) (32 - p) ≡ shr (ntohl b.addr) (32 - p))
    bits = clear_low-shr (ntohl a.addr) (ntohl b.addr) (32 - p)

    from_some : (t : Bool) → some t ≡ some true → t ≡ true
    from_some true e = refl
    from_some false e = cc

-- Bytes.
abbrev pub AreBytes : List ℕ → Type 0
AreBytes = All (λ b. b < 256)

ntohl-small : (s : List ℕ) → AreBytes s → ntohl s < 4294967296
unfolding ntohl
ntohl-small [] h = omega arith
ntohl-small (a ∷ []) h = omega arith
ntohl-small (a ∷ b ∷ []) h = omega arith
ntohl-small (a ∷ b ∷ c ∷ []) h = omega arith
ntohl-small (a ∷ b ∷ c ∷ d ∷ s) (ha, (hb, (hc, (hd, h)))) = omega (arith, ha, hb, hc, hd)

ntohl-htonl : (n : ℕ) (s : List ℕ) → n < 4294967296 → ntohl (htonl n ++ s) ≡ n
unfolding ntohl htonl
ntohl-htonl n s h = omega arith

-- The address with the bits behind the prefix cleared.
abbrev pub network : ℕ → IpAddr → IpAddr
network p a = record a { addr = htonl (clear_low (ntohl a.addr) (32 - p)) ++ drop 4 a.addr }

network_lem :
    (p : ℕ) (a : IpAddr)
    → AreBytes a.addr
    → ntohl (network p a).addr ≡ clear_low (ntohl a.addr) (32 - p)
network_lem p a h =
    ntohl-htonl (clear_low (ntohl a.addr) (32 - p)) (drop 4 a.addr)
      (omega (arith, clear_low-le (ntohl a.addr) (32 - p), ntohl-small a.addr h))

apply_prefix_lem :
    (little : Bool) (a : IpAddr) (p : ℕ)
    → a.ip4_addr ≡ true
    → IsPrefix p
    → apply_prefix little (pos p) a ≡ some (network p a)
unfolding apply_prefix
apply_prefix_lem little a p i h =
    ap (λ t. if t then masked a (mask (ntohl a.addr) (pos p)) else prefixed6 little (pos p) a) i
    ∙ ap (masked a) (mask-some (ntohl a.addr) p h)

clear_low-pow : (x k : ℕ) → clear_low x k ≡ shr x k * 2 ^ k
unfolding clear_low
clear_low-pow x zero = omega arith
clear_low-pow x (suc k) = ap (λ n. 2 * n) (clear_low-pow (x / 2) k) ∙ twice (shr (x / 2) k) k
  where
    twice : (y k : ℕ) → 2 * (y * 2 ^ k) ≡ y * 2 ^ suc k
    twice y k = mul_comm 2 (y * 2 ^ k) ∙ mul_assoc y (2 ^ k) 2 ∙ ap (λ n. y * n) (sym (pow-suc 2 k))

-- ApplyPrefix with a prefix between 1 and 32 turns an IPv4 address into that of its network: the bits of
-- the prefix stay, and those behind it are cleared. It matches with this prefix what the address matched,
-- and a second call changes nothing more.
pub apply_prefix-Network :
    (little : Bool) (a : IpAddr) (p : ℕ)
    → a.ip4_addr ≡ true
    → IsPrefix p
    → AreBytes a.addr
    → (n : IpAddr) × (apply_prefix little (pos p) a ≡ some n)
      × (ntohl n.addr ≡ shr (ntohl a.addr) (32 - p) * 2 ^ (32 - p))
      × ((b : IpAddr) → compare little n b (pos p) ≡ compare little a b (pos p))
      × (apply_prefix little (pos p) n ≡ some n)
unfolding htonl
apply_prefix-Network little a p i h k = (
  network p a,
  apply_prefix_lem little a p i h,
  network_lem p a k ∙ clear_low-pow (ntohl a.addr) (32 - p),
  λ b.
      compare_lem little (network p a) b p i h
      ∙ ap (λ n. some (n == clear_low (ntohl b.addr) (32 - p))) cleared
      ∙ sym (compare_lem little a b p i h),
  apply_prefix_lem little (network p a) p i h
      ∙ ap (λ n. some (record a { addr = htonl n ++ drop 4 a.addr })) cleared,
)
  where
    cleared : clear_low (ntohl (network p a).addr) (32 - p) ≡ clear_low (ntohl a.addr) (32 - p)
    cleared =
        ap (λ n. clear_low n (32 - p)) (network_lem p a k) ∙ clear_low_idem (ntohl a.addr) (32 - p)

-- A prefix of whole bytes.
clear_byte : (b : ℕ) → b < 256 → clear_low b 8 ≡ 0
unfolding clear_low
clear_byte b h = omega arith

keep_bits-zero : (s : List ℕ) → AreBytes s → keep_bits 0 s ≡ zeros (length s)
unfolding keep_bits
keep_bits-zero [] h = refl
keep_bits-zero (b ∷ s) h = ap₂ (λ x t. x ∷ t) (clear_byte b h.0) (keep_bits-zero s h.1)

keep_bits-bytes :
    (u v : List ℕ) → AreBytes v → keep_bits (8 * length u) (u ++ v) ≡ u ++ zeros (length v)
unfolding keep_bits
keep_bits-bytes [] v h = keep_bits-zero v h
keep_bits-bytes (b ∷ u) v h =
    one (8 * length (b ∷ u)) (8 * length u) (omega arith) (omega arith)
    ∙ ap (λ t. b ∷ t) (keep_bits-bytes u v h)
  where
    one :
        (p q : ℕ)
        → 8 ≤ p
        → p - 8 ≡ q
        → (if leb 8 p
            then b ∷ keep_bits (p - 8) (u ++ v)
            else clear_low b (8 - p) ∷ keep_bits 0 (u ++ v))
          ≡ b ∷ keep_bits q (u ++ v)
    one p q l e = ground arith

length-reverse : (s : List ℕ) → length (reverse s) ≡ length s
length-reverse [] = refl
length-reverse (x ∷ s) =
    ap length (reverse-append (x ∷ []) s)
    ∙ omega (arith, length-append (reverse s) (x ∷ []), length-reverse s)

zeros-snoc : (n : ℕ) → zeros n ++ 0 ∷ [] ≡ 0 ∷ zeros n
zeros-snoc zero = refl
zeros-snoc (suc n) = ap (λ t. 0 ∷ t) (zeros-snoc n)

reverse-zeros : (n : ℕ) → reverse (zeros n) ≡ zeros n
reverse-zeros zero = refl
reverse-zeros (suc n) =
    reverse-append (0 ∷ []) (zeros n) ∙ ap (λ t. t ++ 0 ∷ []) (reverse-zeros n) ∙ zeros-snoc n

AreBytes-append : (s t : List ℕ) → AreBytes s → AreBytes t → AreBytes (s ++ t)
AreBytes-append [] t h k = k
AreBytes-append (x ∷ s) t h k = (h.0, AreBytes-append s t h.1 k)

AreBytes-reverse : (s : List ℕ) → AreBytes s → AreBytes (reverse s)
AreBytes-reverse [] h = tt
AreBytes-reverse (x ∷ s) h =
    subst AreBytes (sym (reverse-append (x ∷ []) s))
      (AreBytes-append (reverse s) (x ∷ []) (AreBytes-reverse s h.1) (h.0, tt))

-- With a prefix of whole bytes, ApplyPrefix keeps the first bytes of an IPv6 address on a big-endian host.
-- On a little-endian host it keeps as many of the last bytes, and clears those of the network.
pub apply_prefix6-bytes :
    (u v : List ℕ)
    → AreBytes u
    → AreBytes v
    → 0 < length u
    → 0 < length v
    → (apply_prefix6 false (8 * length u) (u ++ v) ≡ u ++ zeros (length v))
      × (apply_prefix6 true (8 * length v) (u ++ v) ≡ zeros (length u) ++ v)
unfolding apply_prefix6 reverse_ip6_addr
apply_prefix6-bytes u v hu hv lu lv = (
  ap (λ p. keep_bits p (u ++ v)) (given (length u) lu) ∙ keep_bits-bytes u v hv,
  ap₂ (λ p s. reverse (keep_bits p s)) (given (length v) lv) (reverse-append u v)
      ∙ ap (λ n. reverse (keep_bits (8 * n) (reverse v ++ reverse u))) (sym (length-reverse v))
      ∙ ap reverse (keep_bits-bytes (reverse v) (reverse u) (AreBytes-reverse u hu))
      ∙ reverse-append (reverse v) (zeros (length (reverse u)))
      ∙ ap₂ (λ s t. s ++ t)
          (ap (λ n. reverse (zeros n)) (length-reverse u) ∙ reverse-zeros (length u))
          (reverse-reverse v),
)
  where
    given : (n : ℕ) → 0 < n → (if 8 * n == 0 then 128 else 8 * n) ≡ 8 * n
    given n h = ground arith
