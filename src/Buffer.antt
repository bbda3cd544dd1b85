-- ===== src/Buffer.antt =====
-- lib/pyroduct/src/format/vec_buf.rs: `PyroVec`, a growable buffer behind a header.
-- The allocation is a capacity in bytes, which counts the header, and what is stored behind the header,
-- a function from positions to bytes; what was never written is whatever the allocator left (`mem`).
-- A panic (`expect`) is `none`.
pub mod Storage
pub mod Growth
pub mod Appending
pub mod Copies
mod Tests
use Prim.Native.Nat.{max}
use pyroduct.Base.{ℕ, ◌+◌, ◌-◌, ◌*◌, ◌%◌, ◌^◌, List, [], ◌∷◌, Option, none, some, length}
use pyroduct.Base.{ltb, leb, ◌==◌, if◌then◌else◌}
use pyroduct.Header.{
  Header, unit_bytes, header_size, align, header_len, status_u8, wire_format, fn_id, class_id,
  mux_id, set_len, set_status_u8, set_wire_format, set_fn_id, set_class_id, set_mux_id,
}
use pyroduct.Buffer.Storage.{Store, read, write}

pub record PyroVec : Type 0 where
  pub capacity : ℕ
  pub header : Header
  pub store : Store

infixl 5 ◌>>=◌
abbrev pub ◌>>=◌ : {A B : Type 0} → Option A → (A → Option B) → Option B
none >>= f = none
some a >>= f = f a

abbrev pub u32_mod : ℕ
u32_mod = 2 ^ 32

unfoldable pub checked_add : ℕ → ℕ → Option ℕ
checked_add a b = if ltb (a + b) u32_mod then some (a + b) else none

unfoldable pub saturating_mul : ℕ → ℕ → ℕ
saturating_mul a b = if ltb (a * b) u32_mod then a * b else u32_mod - 1

unfoldable pub with_capacity : Store → ℕ → PyroVec
with_capacity mem capacity = record {
  capacity = (capacity + header_size) % u32_mod;
  header = unit_bytes;
  store = mem;
}

-- `PyroVec::ok`: the unit header is written once more.
unfoldable pub ok_vec : Store → PyroVec
unfolding with_capacity
ok_vec mem = record (with_capacity mem 0) { header = unit_bytes }

unfoldable pub data_capacity : PyroVec → ℕ
data_capacity v = v.capacity - header_size

unfoldable pub as_slice : PyroVec → List ℕ
as_slice v = read v.store 0 (header_len v.header)

unfoldable pub clear : PyroVec → PyroVec
clear v = record v { header = set_len v.header 0 }

-- The rounding of `grow`: up to the next multiple of the alignment.
unfoldable pub align_up : ℕ → Option ℕ
unfolding checked_add
align_up cap =
    let remainder = cap % align in
    if remainder == 0 then some cap else checked_add cap (align - remainder)

unfoldable pub grow : PyroVec → ℕ → Option PyroVec
unfolding checked_add saturating_mul align_up
grow v additional = do
  c ← checked_add (header_len v.header) (additional % u32_mod)
  required_cap ← checked_add c header_size
  new_cap ← align_up (max (saturating_mul v.capacity 2) required_cap)
  some (record v { capacity = new_cap })

unfoldable pub push : PyroVec → ℕ → Option PyroVec
push v byte = do
  v' ← (if header_len v.header == v.capacity - header_size then grow v 1 else some v)
  some (record v' {
    store = write v'.store (header_len v.header) (byte ∷ []);
    header = set_len v'.header (header_len v.header + 1);
  })

unfoldable pub extend_from_slice : PyroVec → List ℕ → Option PyroVec
extend_from_slice v other = do
  let current_len = header_len v.header
  let required = length other
  v' ← (if ltb v.capacity (current_len + required + header_size) then grow v required else some v)
  some (record v' {
    store = write v'.store current_len other;
    header = set_len v'.header ((current_len + required) % u32_mod);
  })

-- `Clone::clone` sets each field of the new header but one.
unfoldable pub clone : Store → PyroVec → Option PyroVec
clone mem v = do
  let new_vec = with_capacity mem (length (as_slice v))
  new_vec ← extend_from_slice new_vec (as_slice v)
  some (record new_vec {
    header =
        set_mux_id
          (set_class_id
            (set_fn_id
              (set_wire_format (set_status_u8 new_vec.header (status_u8 v.header))
                (wire_format v.header))
              (fn_id v.header))
            (class_id v.header))
          (mux_id v.header);
  })

-- `clone_from_pyro` copies the whole header of its source.
unfoldable pub clone_from_pyro : Store → PyroVec → Option PyroVec
clone_from_pyro mem source = do
  let new_vec = with_capacity mem (length (as_slice source))
  new_vec ← extend_from_slice new_vec (as_slice source)
  some (record new_vec { header = source.header })
