-- ===== src/Buffer/Growth.antt =====
-- `grow` of lib/pyroduct/src/format/vec_buf.rs: what it allocates, and when it panics.
use Prim.Native.Nat.{max}
use pyroduct.Base.{◌/◌, ℕ, ◌+◌, ◌*◌, ◌%◌, ◌^◌, ◌≤◌, ◌<◌, ◌≡◌, none, some, length, arith}
use pyroduct.Header.{header_len, header_size, align}
use pyroduct.Buffer.{PyroVec, grow, u32_mod}

-- A buffer whose header is whole, and whose payload fits behind the header in the allocation.
pub record IsValid (v : PyroVec) : Type 0 where
  pub whole : length v.header ≡ header_size
  pub fits : header_len v.header + header_size ≤ v.capacity
  pub bounded : v.capacity < u32_mod

-- Where twice the capacity, and the bytes then needed, both leave a `u32` the room to be rounded up,
-- `grow` does not panic: it keeps the header and the bytes, and allocates a multiple of the alignment,
-- at least twice the old capacity and enough for the bytes asked for.
pub grow_lem :
    (v : PyroVec) (additional : ℕ)
    → IsValid v
    → v.capacity * 2 + align ≤ u32_mod
    → header_len v.header + additional + header_size + align ≤ u32_mod
    → (cap : ℕ) × (grow v additional ≡ some (record v { capacity = cap }))
      × (cap % align ≡ 0)
      × (v.capacity * 2 ≤ cap)
      × (header_len v.header + additional + header_size ≤ cap)
      × (cap < u32_mod)
unfolding grow
grow_lem v additional h small room = (
  (max (v.capacity * 2) (header_len v.header + additional + header_size) + 15) / 16 * 16,
  ground arith,
  omega arith,
  omega arith,
  omega arith,
  omega arith,
)

-- From 2 GiB on `grow` always panics, whatever the bytes asked for: the doubled capacity saturates at
-- the largest `u32`, which cannot be rounded up to the alignment.
pub grow_panics : (v : PyroVec) (additional : ℕ) → 2 ^ 31 ≤ v.capacity → grow v additional ≡ none
unfolding grow
grow_panics v additional h = ground arith
