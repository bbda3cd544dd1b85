-- ===== src/Header.antt =====
-- lib/pyroduct/src/format/header.rs: the 16-byte header in front of every buffer.
-- A `[u8; 16]` is a list of 16 bytes; a range of it is `slice`, `copy_from_slice` into one is `splice`.
-- Raw memory is a function from addresses to bytes, read little-endian.
pub mod Status
pub mod Fields
pub mod Check
mod Tests
use pyroduct.Base.{ℕ, ◌+◌, ◌%◌, List, [], ◌∷◌, ◌++◌, Bool, true, false}
use pyroduct.Base.{length, take, drop, get_or, set, ltb, ◌==◌, if◌then◌else◌}
use pyroduct.Base.Bytes.{to_le, of_le}
use pyroduct.Base.Outcome.{Result, ok, err}
use pyroduct.Header.Status
use pyroduct.Header.Status.{DataStatus, code, parse}

abbrev pub Header : Type 0
Header = List ℕ

abbrev pub slice : List ℕ → ℕ → ℕ → List ℕ
slice h off n = take n (drop off h)

abbrev pub splice : List ℕ → ℕ → List ℕ → List ℕ
splice h off bytes = take off h ++ (bytes ++ drop (off + length bytes) h)

abbrev pub protocol_version : ℕ
protocol_version = 1

-- The constants of `PyroParser`.
abbrev pub align : ℕ
align = 16

abbrev pub header_size : ℕ
header_size = 16

abbrev pub offset_len : ℕ
offset_len = 0

abbrev pub offset_client : ℕ
offset_client = 4

abbrev pub offset_wire : ℕ
offset_wire = 8

abbrev pub offset_status : ℕ
offset_status = 9

abbrev pub offset_class_id : ℕ
offset_class_id = 10

abbrev pub offset_fn_id : ℕ
offset_fn_id = 11

abbrev pub offset_mux_id : ℕ
offset_mux_id = 12

-- The readers of `PyroHeader`.
unfoldable pub header_len : Header → ℕ
header_len h = of_le (slice h offset_len 4)

unfoldable pub wire_format : Header → ℕ
wire_format h = get_or h offset_wire 0

unfoldable pub client_id : Header → ℕ
client_id h = of_le (slice h offset_client 4)

unfoldable pub fn_id : Header → ℕ
fn_id h = get_or h offset_fn_id 0

unfoldable pub class_id : Header → ℕ
class_id h = get_or h offset_class_id 0

unfoldable pub mux_id : Header → ℕ
mux_id h = of_le (slice h offset_mux_id 4)

unfoldable pub status_u8 : Header → ℕ
status_u8 h = get_or h offset_status 0

unfoldable pub status : Header → Result DataStatus ℕ
status h = parse (status_u8 h)

-- `self.status().map(f).unwrap_or(default)`
abbrev map_or : Result DataStatus ℕ → (DataStatus → Bool) → Bool → Bool
map_or (ok s) f default = f s
map_or (err b) f default = default

unfoldable pub is_ok : Header → Bool
is_ok h = map_or (status h) Status.is_ok false

unfoldable pub is_user_err : Header → Bool
is_user_err h = map_or (status h) Status.is_user_err false

unfoldable pub is_pyro_err : Header → Bool
is_pyro_err h = map_or (status h) Status.is_pyro_err true

-- The writers of `PyroHeaderMut`.
unfoldable pub set_len : Header → ℕ → Header
set_len h len = splice h offset_len (to_le 4 len)

unfoldable pub set_wire_format : Header → ℕ → Header
set_wire_format h wire_fmt = set h offset_wire wire_fmt

unfoldable pub set_client_id : Header → ℕ → Header
set_client_id h id = splice h offset_client (to_le 4 id)

unfoldable pub set_fn_id : Header → ℕ → Header
set_fn_id h id = set h offset_fn_id id

unfoldable pub set_class_id : Header → ℕ → Header
set_class_id h id = set h offset_class_id id

unfoldable pub set_mux_id : Header → ℕ → Header
set_mux_id h id = splice h offset_mux_id (to_le 4 id)

unfoldable pub set_status_u8 : Header → ℕ → Header
set_status_u8 h b = set h offset_status b

unfoldable pub set_status : Header → DataStatus → Header
unfolding set_status_u8
set_status h s = set_status_u8 h (code s)

-- `UNIT_BYTES`: version 1, and zero elsewhere.
abbrev pub unit_bytes : Header
unit_bytes = 0 ∷ 0 ∷ 0 ∷ 0 ∷ 0 ∷ 0 ∷ 0 ∷ 0 ∷ 1 ∷ 0 ∷ 0 ∷ 0 ∷ 0 ∷ 0 ∷ 0 ∷ 0 ∷ []

pub data ParseError : Type 0 where
  null_pointer slice_too_small misaligned_pointer invalid_magic : ParseError
  length_exceeds_capacity unsupported_wire_format : ParseError
  unknown_status : ℕ → ParseError

-- A borrowed slice: where it lies, and its bytes.
pub record Slice : Type 0 where
  pub addr : ℕ
  pub bytes : List ℕ

read_u32 : List ℕ → ℕ → ℕ
read_u32 bytes off = of_le (slice bytes off 4)

abbrev is_multiple_of : ℕ → ℕ → Bool
is_multiple_of n m = n % m == 0

unfoldable pub check : Slice → Result (Unit {0}) ParseError
unfolding read_u32
check s =
    if ltb (length s.bytes) header_size
    then err slice_too_small
    else if is_multiple_of s.addr align
    then (if ltb (length s.bytes) (read_u32 s.bytes offset_len)
        then err length_exceeds_capacity
        else ok tt)
    else err misaligned_pointer

abbrev pub Memory : Type 0
Memory = ℕ → ℕ

-- Address 0 is the null pointer.
unfoldable pub check_raw : ℕ → Result (Unit {0}) ParseError
check_raw ptr =
    if ptr == 0
    then err null_pointer
    else if is_multiple_of ptr align
    then ok tt
    else err misaligned_pointer

abbrev pub read_u32_raw : Memory → ℕ → ℕ
read_u32_raw m p = of_le (m p ∷ m (p + 1) ∷ m (p + 2) ∷ m (p + 3) ∷ [])

unfoldable pub check_strict_raw : Memory → ℕ → ℕ → Result (Unit {0}) ParseError
check_strict_raw m ptr capacity =
    if ptr == 0
    then err null_pointer
    else if is_multiple_of ptr align
    then (if ltb capacity (read_u32_raw m (ptr + offset_len))
        then err length_exceeds_capacity
        else if m (ptr + offset_wire) == protocol_version
        then ok tt
        else err unsupported_wire_format)
    else err misaligned_pointer
