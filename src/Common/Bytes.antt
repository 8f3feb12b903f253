-- ===== src/Common/Bytes.antt =====
-- WriteBytes and ReadBytes of lib/common.cc: the loops around the system calls.
use hector_core.Prelude.{
  ℕ, zero, suc, ◌+◌, ◌-◌, ◌≤◌, Option, none, some, List, [], ◌∷◌, ◌≡◌, if◌then◌else◌, ltb, ℤ, pos,
  negsuc, arith, ◌⊎◌, inr,
}

-- What a call of `write` or `read` returns: a number of bytes, -1 with EINTR, or -1 with another error.
pub data Result : Type 0 where
  moved : ℕ → Result
  interrupted : Result
  failed : Result

-- The results of the calls, in their order. `none`: the calls go on.
unfoldable pub write_bytes : List Result → ℕ → ℕ → Option ℤ
write_bytes [] size offset = if ltb 0 size then none else some (pos offset)
write_bytes (interrupted ∷ rs) size offset =
    let rest = write_bytes rs size offset in if ltb 0 size then rest else some (pos offset)
write_bytes (failed ∷ rs) size offset = if ltb 0 size then some (negsuc 0) else some (pos offset)
write_bytes (moved zero ∷ rs) size offset = if ltb 0 size then some (pos 0) else some (pos offset)
write_bytes (moved (suc n) ∷ rs) size offset =
    let rest = write_bytes rs (size - suc n) (offset + suc n) in
    if ltb 0 size then rest else some (pos offset)

unfoldable pub read_bytes : List Result → ℕ → ℕ → Option ℤ
read_bytes [] size offset = if ltb 0 size then none else some (pos offset)
read_bytes (interrupted ∷ rs) size offset =
    let rest = read_bytes rs size offset in if ltb 0 size then rest else some (pos offset)
read_bytes (failed ∷ rs) size offset = if ltb 0 size then some (negsuc 0) else some (pos offset)
read_bytes (moved zero ∷ rs) size offset = some (pos offset)
read_bytes (moved (suc n) ∷ rs) size offset =
    let rest = read_bytes rs (size - suc n) (offset + suc n) in
    if ltb 0 size then rest else some (pos offset)

-- No call moves more bytes than it is asked for.
abbrev pub Within : List Result → ℕ → Type 0
Within [] size = Unit {0}
Within (interrupted ∷ rs) size = Within rs size
Within (failed ∷ rs) size = Unit {0}
Within (moved n ∷ rs) size = (n ≤ size) × Within rs (size - n)

-- A call that moves nothing is among them.
abbrev pub Ended : List Result → Type 0
Ended [] = ⊥
Ended (interrupted ∷ rs) = Ended rs
Ended (failed ∷ rs) = ⊥
Ended (moved zero ∷ rs) = Unit {0}
Ended (moved (suc n) ∷ rs) = Ended rs

-- When `WriteBytes` ends, it has written all bytes and returns their number, or it returns -1, or 0
-- after a call that wrote nothing.
pub write_bytes_lem :
    (rs : List Result) (size offset : ℕ) (z : ℤ)
    → Within rs size
    → write_bytes rs size offset ≡ some z
    → (z ≡ pos (offset + size)) ⊎ ((z ≡ negsuc 0) ⊎ ((z ≡ pos 0) × Ended rs))
unfolding write_bytes
write_bytes_lem [] size offset z w e = ground arith
write_bytes_lem (interrupted ∷ rs) size offset z w e =
    ground (arith, write_bytes_lem rs size offset z w)
write_bytes_lem (failed ∷ rs) size offset z w e = ground arith
write_bytes_lem (moved zero ∷ rs) size offset z w e = ground arith
write_bytes_lem (moved (suc n) ∷ rs) size offset z w e =
    ground (arith, write_bytes_lem rs (size - suc n) (offset + suc n) z w.1)

-- When `ReadBytes` ends, it has read all bytes and returns their number, or it returns -1, or the number
-- of bytes before the end of the file, which is no larger.
pub read_bytes_lem :
    (rs : List Result) (size offset : ℕ) (z : ℤ)
    → Within rs size
    → read_bytes rs size offset ≡ some z
    → (z ≡ pos (offset + size))
      ⊎ ((z ≡ negsuc 0) ⊎ ((n : ℕ) × (z ≡ pos n) × (offset ≤ n) × (n ≤ offset + size) × Ended rs))
unfolding read_bytes
read_bytes_lem [] size offset z w e = ground arith
read_bytes_lem (interrupted ∷ rs) size offset z w e =
    ground (arith, read_bytes_lem rs size offset z w)
read_bytes_lem (failed ∷ rs) size offset z w e = ground arith
read_bytes_lem (moved zero ∷ rs) size offset z w e =
    inr (inr (offset, ground arith, omega arith, omega arith, tt))
read_bytes_lem (moved (suc n) ∷ rs) size offset z w e =
    ground (arith, read_bytes_lem rs (size - suc n) (offset + suc n) z w.1)
