-- ===== src/Objects/Pool.antt =====
-- MemoryPool of lib/MemoryPool.h.
use hector_core.Prelude.{
  ℕ, zero, suc, ◌+◌, ◌-◌, ◌<◌, true, Option, none, some, List, [], ◌∷◌, ◌≡◌, refl, subst,
  if◌then◌else◌, leb, arith, ◌⊎◌, inl, inr, Bool-cases, ◌==◌,
}

-- `chunks` counts the chunks allocated.
pub record Pool : Type 0 where
  pub chunk_size : ℕ
  pub chunks : ℕ
  pub used : ℕ

-- The address of an element: the chunk it stands in, and its place there.
pub record Address : Type 0 where
  pub chunk : ℕ
  pub index : ℕ

unfoldable pub new_pool : ℕ → Pool
new_pool chunk_size = record { chunk_size = chunk_size; chunks = 0; used = chunk_size }

-- `&chunks.back()[index]`, where `none` is `back` of no chunks.
abbrev pub element : Pool → ℕ → Option Address
element p index =
    if p.chunks == 0 then none else some (record { chunk = p.chunks - 1; index = index })

-- What `Alloc` does while it holds the lock: the index, and the pool.
unfoldable pub take_index : Pool → ℕ × Pool
take_index p =
    let p' = if leb p.chunk_size p.used then record p { chunks = p.chunks + 1; used = 0 } else p in
    (p'.used, record p' { used = p'.used + 1 })

-- `Alloc` with no other thread in between: the element is looked up behind the lock, in the chunk that is
-- the last one then.
unfoldable pub alloc : Pool → Option Address × Pool
unfolding take_index
alloc p = let (index, p') = take_index p in (element p' index, p')

-- `used` stays as it is.
unfoldable pub clear : Pool → Pool
clear p = record p { chunks = 0 }

-- Calls of `Alloc`, one behind the other; the first call comes first.
unfoldable pub alloc_many : ℕ → Pool → List (Option Address)
alloc_many zero p = []
alloc_many (suc n) p = (alloc p).0 ∷ alloc_many n (alloc p).1

-- The element at `a` lies before the one at `b`, in an older chunk or in the same one.
abbrev pub Before : Address → Address → Type 0
Before a b = (a.chunk < b.chunk) ⊎ ((a.chunk ≡ b.chunk) × (a.index < b.index))

-- Every element of the list exists, within its chunk and behind `a`, and before those that follow it.
abbrev pub Fresh : ℕ → Address → List (Option Address) → Type 0
Fresh size a [] = Unit {0}
Fresh size a (none ∷ rest) = ⊥
Fresh size a (some b ∷ rest) = Before a b × (b.index < size) × Fresh size b rest

-- The last element given out is `a`.
pub record IsLast (p : Pool) (a : Address) : Type 0 where
  pub chunk : a.chunk + 1 ≡ p.chunks
  pub index : a.index + 1 ≡ p.used

alloc-next :
    (p : Pool) (a : Address)
    → IsLast p a
    → 0 < p.chunk_size
    → (b : Address) × ((alloc p).0 ≡ some b)
      × Before a b
      × (b.index < p.chunk_size)
      × IsLast (alloc p).1 b
      × ((alloc p).1.chunk_size ≡ p.chunk_size)
unfolding alloc
alloc-next p a l h = elim (Bool-cases (leb p.chunk_size p.used)) [
  | inl e ↦ (
    record { chunk = p.chunks; index = 0 },
    ground arith,
    inl (omega (arith, l.chunk)),
    h,
    record { chunk = ground arith; index = ground arith },
    ground arith,
  )
  | inr e ↦ (
    record { chunk = p.chunks - 1; index = p.used },
    ground (arith, l.chunk),
    inr (omega (arith, l.chunk), omega (arith, l.index)),
    ground arith,
    record { chunk = ground (arith, l.chunk); index = ground arith },
    ground arith,
  )
]

abbrev first_address : Address
first_address = record { chunk = 0; index = 0 }

many-Fresh :
    (n : ℕ) (p : Pool) (a : Address)
    → IsLast p a
    → 0 < p.chunk_size
    → Fresh p.chunk_size a (alloc_many n p)
unfolding alloc_many
many-Fresh zero p a l h = tt
many-Fresh (suc n) p a l h =
    let (b, e, f, i, k, c) = alloc-next p a l h in
    rw e (
      f,
      i,
      subst (λ s. Fresh s b (alloc_many n (alloc p).1)) c (many-Fresh n (alloc p).1 b k (rw c h)),
    )

alloc-first :
    (chunk_size : ℕ)
    → alloc (new_pool chunk_size)
      ≡ (some first_address, record { chunk_size = chunk_size; chunks = 1; used = 1 })
unfolding new_pool alloc
alloc-first chunk_size = simp (leb-refl chunk_size)
  where
    leb-refl : (n : ℕ) → leb n n ≡ true
    leb-refl n = ground arith

-- While a new pool is used by one thread, all elements that it gives out exist, lie within their chunk,
-- and are different ones: each lies behind those before it.
pub alloc_many-Fresh :
    (n chunk_size : ℕ)
    → 0 < chunk_size
    → (a : Address) × ((alloc (new_pool chunk_size)).0 ≡ some a)
      × (a.index < chunk_size)
      × Fresh chunk_size a (alloc_many n (alloc (new_pool chunk_size)).1)
alloc_many-Fresh n chunk_size h = rw (alloc-first chunk_size) (
  first_address,
  refl,
  h,
  many-Fresh n (record { chunk_size = chunk_size; chunks = 1; used = 1 }) first_address
      (record { chunk = refl; index = refl }) h,
)

-- After `Clear`, a pool whose last chunk was not full gives out an element of a chunk that is not there.
pub clear-alloc : (p : Pool) → p.used < p.chunk_size → (alloc (clear p)).0 ≡ none
unfolding alloc clear
clear-alloc p h = ground arith

-- If another thread allocates the first element of a new chunk between the lock and the lookup, both get
-- the same element: here the index taken was 0, and the chunk has one element.
pub alloc-twice :
    (p : Pool)
    → p.chunk_size ≡ 1
    → p.used ≡ 1
    → element (take_index (take_index p).1).1 (take_index p).0
      ≡ element (take_index (take_index p).1).1 (take_index (take_index p).1).0
unfolding take_index
alloc-twice p h k = ground (arith, h, k)
