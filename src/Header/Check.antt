-- ===== src/Header/Check.antt =====
-- The entry checks of lib/pyroduct/src/format/header.rs: what they accept, and which error comes first.
use pyroduct.Base.{ℕ, ◌+◌, ◌%◌, ◌≤◌, ◌<◌, ◌≡◌, ◌≢◌, ◌↔◌, length, arith}
use pyroduct.Base.Outcome.{ok, err}
use pyroduct.Header.{
  Slice, Memory, ParseError, slice_too_small, misaligned_pointer, length_exceeds_capacity, check,
  check_raw, check_strict_raw, header_len, header_size, align, offset_wire, offset_len,
  protocol_version, read_u32_raw,
}

-- `check` accepts a slice exactly when it holds a header, lies on a 16-byte boundary, and the length
-- that its header gives is no more than the slice's.
pub check_iff :
    (s : Slice)
    → (check s ≡ ok tt) ↔ (
        (header_size ≤ length s.bytes)
        × (s.addr % align ≡ 0)
        × (header_len s.bytes ≤ length s.bytes))
unfolding check header_len
check_iff s = ground arith

-- The errors of `check` in their order: a short slice is reported whatever its address, a misaligned
-- one of sufficient size whatever its header, and a length too large only where the others pass.
pub check_errors :
    (s : Slice)
    → ((check s ≡ err slice_too_small) ↔ (length s.bytes < header_size))
      × ((check s ≡ err misaligned_pointer)
          ↔ ((header_size ≤ length s.bytes) × (s.addr % align ≢ 0)))
      × ((check s ≡ err length_exceeds_capacity) ↔ (
          (header_size ≤ length s.bytes)
          × (s.addr % align ≡ 0)
          × (length s.bytes < header_len s.bytes)))
unfolding check header_len
check_errors s = ground arith

-- `check_strict_raw` accepts exactly what `check_raw` accepts, provided that the length in memory fits
-- the capacity and the wire format is the protocol's version.
pub check_strict_raw_iff :
    (m : Memory) (ptr capacity : ℕ)
    → (check_strict_raw m ptr capacity ≡ ok tt) ↔ (
        (check_raw ptr ≡ ok tt)
        × (read_u32_raw m (ptr + offset_len) ≤ capacity)
        × (m (ptr + offset_wire) ≡ protocol_version))
unfolding check_strict_raw check_raw
check_strict_raw_iff m ptr capacity = ground arith

-- Where `check_raw` fails, `check_strict_raw` fails with the same error, and reads no memory for it.
pub check_strict_raw_errors :
    (m m' : Memory) (ptr capacity capacity' : ℕ) (e : ParseError)
    → check_raw ptr ≡ err e
    → (check_strict_raw m ptr capacity ≡ err e)
      × (check_strict_raw m ptr capacity ≡ check_strict_raw m' ptr capacity')
unfolding check_strict_raw check_raw
check_strict_raw_errors m m' ptr capacity capacity' e h = ground arith
