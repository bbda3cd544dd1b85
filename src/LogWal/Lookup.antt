-- ===== src/LogWal/Lookup.antt =====
-- Reading one record through the index of its segment, in lib/pyroduct/src/format/log_wal.rs.
use pyroduct.Base.{ℕ, ◌+◌, ◌*◌, ◌%◌, ◌^◌, ◌≤◌, ◌≡◌, refl, ap, ◌∙◌, arith}
use pyroduct.Base.{none, some, List, ◌∷◌, ◌++◌, append_assoc}
use pyroduct.Base.{length, get_elem?, ==_refl, length-append}
use pyroduct.Base.Bytes.{IsU32, IsU64, to_le, of_le-to_le_four, of_le-to_le_eight}
use pyroduct.Base.Outcome.{ok}
use pyroduct.LogWal.Files.{Bytes, read_exact}
use pyroduct.LogWal.Crc.{crc32c, crc32c-IsU32}
use pyroduct.LogWal.Writer.{Serde, frame}
use pyroduct.LogWal.Reader.{decoded, read_record, lookup_record}
use pyroduct.LogWal.Frames.{
  frames, offsets, frames-append, length-offsets, read_exact-append, read_exact_short, split_at,
  offsets-split,
}

module _ (p : Bytes) (front back : Bytes) (fits : IsU32 (length p)) where
  -- The parts of a frame, wherever it stands.
  frame_parts : frame p ++ back ≡ to_le 4 (length p) ++ (to_le 4 (crc32c p) ++ (p ++ back))
  unfolding frame
  frame_parts = let e : length p % 2 ^ 32 ≡ length p = omega arith in rw e refl

  read_len : read_exact (front ++ (frame p ++ back)) (length front) 4 ≡ some (to_le 4 (length p))
  read_len = rw frame_parts (
      read_exact-append front (to_le 4 (length p)) (to_le 4 (crc32c p) ++ (p ++ back)) _ 4 refl
        refl)

  read_crc :
      read_exact (front ++ (frame p ++ back)) (length front + 4) 4 ≡ some (to_le 4 (crc32c p))
  read_crc =
      let head = to_le 4 (length p) in
      rw (frame_parts, ← append_assoc front head (to_le 4 (crc32c p) ++ (p ++ back)))
        (read_exact-append (front ++ head) (to_le 4 (crc32c p)) (p ++ back) _ 4
          (omega (arith, length-append front head)) refl)

  read_payload : read_exact (front ++ (frame p ++ back)) (length front + 8) (length p) ≡ some p
  read_payload =
      let head = to_le 4 (length p) ++ to_le 4 (crc32c p) in
      rw (frame_parts, ← append_assoc front head (p ++ back))
        (read_exact-append (front ++ head) p back _ _ (omega (arith, length-append front head))
          refl)

  -- A record reads back as the decoding of its payload.
  read_record-frame :
      (s : Serde)
      → read_record s (front ++ (frame p ++ back)) (length front) ≡ decoded (s.from_slice p)
  unfolding read_record
  read_record-frame s =
      rw (read_len, read_record)
        (rw read_crc (
          rw (of_le-to_le_four (length p) fits) (
            rw read_payload
              (rw (of_le-to_le_four (crc32c p) (crc32c-IsU32 p), ==_refl (crc32c p)) refl))))

module _ (s : Serde) (ps : List Bytes) (j : ℕ) where
  -- The index leads to the record.
  pub lookup_record-at :
      (p : Bytes)
      → get_elem? ps j ≡ some p
      → IsU32 (length p)
      → IsU64 (length (frames ps))
      → lookup_record s (some (frames ps)) (some (offsets 0 ps)) j ≡ decoded (s.from_slice p)
  unfolding lookup_record
  lookup_record-at p e fits bound =
      let (before, after, d, l) = split_at ps j p e in
      let log : frames ps ≡ frames before ++ (frame p ++ frames after) =
        ap frames d ∙ frames-append before (p ∷ after) ∙ unfold frames in refl in
      let start : IsU64 (length (frames before)) =
        omega
          (arith, bound, ap length log, length-append (frames before) (frame p ++ frames after)) in
      let idx : read_exact (offsets 0 ps) (j * 8) 8 ≡ some (to_le 8 (length (frames before))) =
        rw (d, offsets-split)
          (read_exact-append (offsets 0 before) (to_le 8 (length (frames before))) _ _ 8
            (omega (arith, length-offsets 0 before, l)) refl) in
      rw (idx, lookup_record)
        (rw (of_le-to_le_eight _ start, log)
          (read_record-frame p (frames before) (frames after) fits s))

  pub lookup_record_past :
      length ps ≤ j → lookup_record s (some (frames ps)) (some (offsets 0 ps)) j ≡ ok none
  unfolding lookup_record
  lookup_record_past h =
      rw
        (
          read_exact_short (offsets 0 ps) (j * 8) 8 (omega (arith, length-offsets 0 ps)),
          lookup_record,
        )
        refl
