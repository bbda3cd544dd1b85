-- ===== src/Wal/Ref.antt =====
-- `PyroRef::try_from_slice` and `get_ref` of lib/pyroduct/src/format/vec_buf.rs: a packet in a buffer.
use pyroduct.Base.{ℕ, zero, suc, ◌+◌, ◌%◌, ◌≤◌, ◌≡◌, ◌≢◌, refl, arith, List, [], ◌∷◌, ◌++◌}
use pyroduct.Base.{length, take, drop, ltb, ◌==◌, if◌then◌else◌, length-append, take-append}
use pyroduct.Base.Outcome.{Result, ok, err}
use pyroduct.Header.Check.{check_iff}
use pyroduct.Header.{
  Slice, ParseError, slice_too_small, misaligned_pointer, length_exceeds_capacity, check, check_raw,
  header_len, header_size, align,
}

-- The bytes from the header to the end of the payload.
abbrev pub PyroRef : Type 0
PyroRef = List ℕ

-- `PyroError::Header`, and `PyroError::HeaderFfi` with the parse error that its text quotes.
pub data RefError : Type 0 where
  header header_ffi : ParseError → RefError

narrowed : List ℕ → Result (Unit {0}) ParseError → Result PyroRef RefError
narrowed bytes (err e) = err (header_ffi e)
narrowed bytes (ok _) =
    if ltb (length bytes) (header_size + header_len bytes)
    then err (header length_exceeds_capacity)
    else ok (take (header_size + header_len bytes) bytes)

unfoldable pub try_from_slice : Slice → Result PyroRef RefError
unfolding narrowed
try_from_slice s =
    if ltb (length s.bytes) header_size
    then err (header slice_too_small)
    else narrowed s.bytes (check_raw s.addr)

unfoldable pub get_ref : Slice → ℕ → Result PyroRef RefError
unfolding narrowed
get_ref s offset =
    if ltb (length s.bytes) (offset + header_size)
    then err (header slice_too_small)
    else if offset % 16 == 0
    then narrowed (drop offset s.bytes)
        (check (record { addr = s.addr + offset; bytes = drop offset s.bytes }))
    else err (header misaligned_pointer)

-- A packet: its header is there, and gives the length of what follows.
abbrev pub IsPacket : PyroRef → Type 0
IsPacket r = length r ≡ header_size + header_len r

take-append_left : (n : ℕ) (xs ys : List ℕ) → n ≤ length xs → take n (xs ++ ys) ≡ take n xs
take-append_left zero xs ys h = refl
take-append_left (suc n) [] ys h = absurd (omega arith)
take-append_left (suc n) (x ∷ xs) ys h = rw (take-append_left n xs ys (omega arith)) refl

pub header_len-append :
    (r back : List ℕ) → header_size ≤ length r → header_len (r ++ back) ≡ header_len r
unfolding header_len
header_len-append r back h = rw (take-append_left 4 r back (omega arith)) refl

-- A packet at the front of an aligned slice is read as it is, whatever follows.
pub try_from_slice-packet :
    (addr : ℕ) (r back : List ℕ)
    → IsPacket r
    → addr % align ≡ 0
    → addr ≢ 0
    → try_from_slice (record { addr = addr; bytes = r ++ back }) ≡ ok r
unfolding try_from_slice narrowed check_raw
try_from_slice-packet addr r back p al nz = ground (
  arith,
  header_len-append r back,
  length-append r back,
  take-append r back (header_size + header_len r),
)

-- The same through `get_ref`, at an aligned offset behind a front.
pub get_ref-packet :
    (addr : ℕ) (bytes : List ℕ) (offset : ℕ) (r back : List ℕ)
    → drop offset bytes ≡ r ++ back
    → length bytes ≡ offset + (length r + length back)
    → IsPacket r
    → addr % align ≡ 0
    → offset % 16 ≡ 0
    → get_ref (record { addr = addr; bytes = bytes }) offset ≡ ok r
unfolding get_ref narrowed
get_ref-packet addr bytes offset r back d l p al off =
    let passed : check (record { addr = addr + offset; bytes = r ++ back }) ≡ ok tt =
      (check_iff (record { addr = addr + offset; bytes = r ++ back })).1 (
        omega (arith, length-append r back),
        omega (arith, al, off),
        omega (arith, length-append r back, header_len-append r back (omega arith)),
      ) in
    rw (d, passed)
      (ground (
        arith,
        header_len-append r back,
        length-append r back,
        take-append r back (header_size + header_len r),
      ))
