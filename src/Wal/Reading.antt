-- ===== src/Wal/Reading.antt =====
-- Frames of lib/pyroduct/src/format/wal.rs, read from a file of whole records and what follows them.
use pyroduct.Base.{
  ℕ, zero, suc, ◌+◌, ◌-◌, ◌%◌, ◌^◌, ◌≤◌, ◌<◌, ◌≡◌, ◌≢◌, refl, ap, ◌∙◌, arith, List, [], ◌∷◌, ◌++◌,
}
use pyroduct.Base.{length, take, drop, le→ltb_false, length-append, drop-append, append_assoc}
use pyroduct.Base.Bytes.{to_le, of_le, of_le-to_le_four}
use pyroduct.Base.Outcome.{ok}
use pyroduct.Header.{Slice, align}
use pyroduct.Wal.{align16, zeros, prefix, record_bytes, framed, frame, WalFrame, next, view_at}
use pyroduct.Wal.Ref.{PyroRef, IsPacket, try_from_slice, try_from_slice-packet, get_ref-packet}

abbrev pub Records : Type 0
Records = List (ℕ × PyroRef)

-- The records, one after the other.
unfoldable pub records_bytes : Records → List ℕ
records_bytes [] = []
records_bytes ((record_index, r) ∷ records) = record_bytes record_index r ++ records_bytes records

abbrev pub packet_frame : ℕ → ℕ → PyroRef → WalFrame
packet_frame offset record_index r = record {
  row_index = record_index % 2 ^ 32;
  packet = r;
  packet_offset = offset + 16;
}

-- The frames of records that begin at an offset.
unfoldable pub layout : ℕ → Records → List WalFrame
layout offset [] = []
layout offset ((record_index, r) ∷ records) =
    packet_frame offset record_index r ∷ layout (offset + (16 + align16 (length r))) records

abbrev pub PacketRecord : ℕ × PyroRef → Type 0
PacketRecord (_, r) = IsPacket r

pub length-zeros : (n : ℕ) → length (zeros n) ≡ n
length-zeros zero = refl
length-zeros (suc n) = rw (length-zeros n) refl

pub length-prefix : (n : ℕ) → length (prefix n) ≡ 16
unfolding prefix
length-prefix n = omega (arith, length-append (to_le 4 (n % 2 ^ 32)) (zeros 12))

pub align16_lem : (n : ℕ) → (n ≤ align16 n) × (align16 n % 16 ≡ 0) × (align16 n < n + 16)
unfolding align16
align16_lem n = (omega arith, omega arith, omega arith)

pub length-record_bytes :
    (i : ℕ) (r : PyroRef) → length (record_bytes i r) ≡ 16 + align16 (length r)
unfolding record_bytes
length-record_bytes i r = omega (
  arith,
  length-append r (zeros (align16 (length r) - length r)),
  length-zeros (align16 (length r) - length r),
  align16_lem (length r),
)

drop-front : (front xs : List ℕ) (n k : ℕ) → n ≡ length front + k → drop n (front ++ xs) ≡ drop k xs
drop-front [] xs n k e = ap (λ m. drop m xs) (omega arith)
drop-front (x ∷ front) xs zero k e = absurd (omega arith)
drop-front (x ∷ front) xs (suc n) k e = drop-front front xs n k (omega arith)

-- What stands behind a front and a prefix.
pub behind_prefix :
    (front : List ℕ) (i : ℕ) (rest : List ℕ)
    → drop (length front + 16) (front ++ (prefix i ++ rest)) ≡ rest
unfolding prefix
behind_prefix front i rest = drop-front front _ _ 16 refl

row_index_at :
    (front : List ℕ) (i : ℕ) (rest : List ℕ)
    → of_le (take 4 (drop (length front) (front ++ (prefix i ++ rest)))) ≡ i % 2 ^ 32
unfolding prefix
row_index_at front i rest =
    rw (drop-append front (prefix i ++ rest) (length front) refl)
      (of_le-to_le_four (i % 2 ^ 32) (omega arith))

pub length_parts :
    (front : List ℕ) (i : ℕ) (rest : List ℕ)
    → length (front ++ (prefix i ++ rest)) ≡ length front + (16 + length rest)
length_parts front i rest =
    omega (
      arith,
      length-append front (prefix i ++ rest),
      length-append (prefix i) rest,
      length-prefix i,
    )

pub record_parts :
    (i : ℕ) (r back : List ℕ)
    → record_bytes i r ++ back ≡ prefix i ++ (r ++ (zeros (align16 (length r) - length r) ++ back))
unfolding record_bytes
record_parts i r back =
    append_assoc (prefix i) (r ++ zeros (align16 (length r) - length r)) back
    ∙ ap (λ t. prefix i ++ t) (append_assoc r (zeros (align16 (length r) - length r)) back)

-- A file: a front, and what follows it.
abbrev pub file_at : ℕ → List ℕ → List ℕ → Slice
file_at addr front back = record { addr = addr; bytes = front ++ back }

-- Behind a prefix, `next` depends on what `try_from_slice` makes of the rest.
pub next-prefix :
    (addr : ℕ) (front : List ℕ) (i : ℕ) (rest : List ℕ)
    → next (file_at addr front (prefix i ++ rest)) (length front)
      ≡ framed
          (i % 2 ^ 32)
          (length front + 16)
          (try_from_slice (record { addr = addr + (length front + 16); bytes = rest }))
unfolding next
next-prefix addr front i rest =
    let long = length_parts front i rest in
    rw
      (
        le→ltb_false (length (front ++ (prefix i ++ rest))) (length front) (omega (arith, long)),
        le→ltb_false (length (front ++ (prefix i ++ rest)) - length front) 16 (omega (arith, long)),
        row_index_at front i rest,
        behind_prefix front i rest,
      )
      refl

module _ (addr : ℕ) (aligned : addr % align ≡ 0) (not_null : addr ≢ 0) where
  -- A packet is read whatever follows it.
  pub next-packet :
      (front : List ℕ) (i : ℕ) (r back : List ℕ)
      → length front % 16 ≡ 0
      → IsPacket r
      → next (file_at addr front (prefix i ++ (r ++ back))) (length front)
        ≡ frame (packet_frame (length front) i r) (length front + 16 + align16 (length r))
  unfolding framed
  next-packet front i r back al p =
      let read : try_from_slice (record { addr = addr + (length front + 16); bytes = r ++ back })
          ≡ ok r =
        try_from_slice-packet (addr + (length front + 16)) r back p (omega (arith, aligned, al))
          (ground (arith, not_null)) in
      next-prefix addr front i (r ++ back) ∙ ap (framed (i % 2 ^ 32) (length front + 16)) read

  pub next-record :
      (front : List ℕ) (i : ℕ) (r back : List ℕ)
      → length front % 16 ≡ 0
      → IsPacket r
      → next (file_at addr front (record_bytes i r ++ back)) (length front)
        ≡ frame (packet_frame (length front) i r) (length front + 16 + align16 (length r))
  next-record front i r back al p = rw (record_parts i r back) (next-packet front i r _ al p)

  pub view_at-record :
      (front : List ℕ) (i : ℕ) (r back : List ℕ)
      → length front % 16 ≡ 0
      → IsPacket r
      → view_at (file_at addr front (record_bytes i r ++ back)) (length front + 16) ≡ ok r
  unfolding view_at
  view_at-record front i r back al p =
      let rest = zeros (align16 (length r) - length r) ++ back in
      rw (record_parts i r back) (
        get_ref-packet addr (front ++ (prefix i ++ (r ++ rest))) (length front + 16) r rest
          (behind_prefix front i (r ++ rest))
          (omega (arith, length_parts front i (r ++ rest), length-append r rest)) p aligned
          (omega (arith, al)))
