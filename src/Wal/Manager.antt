-- ===== src/Wal/Manager.antt =====
-- `WalManager::get` of lib/pyroduct/src/format/wal.rs: a packet by its row index, by scanning the frames.
-- The file is the one that the manager's path names; `none` is a panic of the frame iterator.
use pyroduct.Base.{
  ℕ, ◌+◌, ◌%◌, ◌^◌, ◌≡◌, ◌≢◌, refl, sym, ◌∙◌, inl, inr, arith, Option, none, some, List, [], ◌∷◌,
  ◌++◌,
}
use pyroduct.Base.{
  length, ◌==◌, Bool-cases, if◌then◌else◌, All, length-append, append_assoc, append-nil,
}
use pyroduct.Base.Outcome.{Result, ok, err}
use pyroduct.Header.{Slice, align}
use pyroduct.Wal.{
  align16, record_bytes, new_writer, append_batch, WalFrame, Ending, ended, frames, view_at,
}
use pyroduct.Wal.Ref.{PyroRef, RefError}
use pyroduct.Wal.Reading.{
  Records, records_bytes, layout, PacketRecord, view_at-record, align16_lem, length-record_bytes,
}
use pyroduct.Wal.Recovery.{split_first, append_batch_lem, frames-written}

-- The owned copy of a view is the packet itself.
found : Result PyroRef RefError → Result (Option PyroRef) RefError
found (ok view) = ok (some view)
found (err e) = err e

-- The loop over the frames, which stops at the first with the index.
unfoldable pub scan_frames :
    Slice → ℕ → List WalFrame → Ending → Option (Result (Option PyroRef) RefError)
unfolding found
scan_frames s index [] ended = some (ok none)
scan_frames s index [] _ = none
scan_frames s index (f ∷ fs) e =
    let rest = scan_frames s index fs e in
    if f.row_index == index then some (found (view_at s f.packet_offset)) else rest

unfoldable pub manager_get : Slice → ℕ → Option (Result (Option PyroRef) RefError)
unfolding scan_frames
manager_get s index = let (fs, e) = frames s in scan_frames s index fs e

-- The first record whose index, cut to 32 bits, is the one asked for.
abbrev pub first_with : ℕ → Records → Option PyroRef
first_with index [] = none
first_with index ((i, r) ∷ rs) = if i % 2 ^ 32 == index then some r else first_with index rs

module _ (addr : ℕ) (aligned : addr % align ≡ 0) (not_null : addr ≢ 0) where
  scan_frames-layout :
      (index : ℕ) (rs : Records) (bytes front tail : List ℕ) (offset : ℕ)
      → bytes ≡ front ++ (records_bytes rs ++ tail)
      → offset ≡ length front
      → offset % 16 ≡ 0
      → All PacketRecord rs
      → scan_frames (record { addr = addr; bytes = bytes }) index (layout offset rs) ended
        ≡ some (ok (first_with index rs))
  unfolding scan_frames layout records_bytes
  scan_frames-layout index [] bytes front tail offset e o al ps = refl
  scan_frames-layout index ((i, r) ∷ rs) bytes front tail offset e o al ps =
      let here : view_at (record { addr = addr; bytes = bytes }) (offset + 16) ≡ ok r =
        rw (o, e, split_first front i r rs tail)
          (view_at-record addr aligned not_null front i r (records_bytes rs ++ tail)
            (omega (arith, al)) ps.0) in
      let more =
        scan_frames-layout index rs bytes (front ++ record_bytes i r) tail
          (offset + (16 + align16 (length r)))
          (e
            ∙ split_first front i r rs tail
            ∙ sym (append_assoc front (record_bytes i r) (records_bytes rs ++ tail)))
          (omega (arith, length-append front (record_bytes i r), length-record_bytes i r))
          (omega (arith, align16_lem (length r))) ps.1 in
      elim (Bool-cases (i % 2 ^ 32 == index)) [
        | inl this ↦ rw (this, here) refl
        | inr other ↦ rw other more
      ]

  -- On a file that a writer wrote, the manager finds the first record with the index asked for, where
  -- indices are cut to 32 bits, and nothing where there is none. Each record is a packet, and the buffer
  -- lies on a 16-byte boundary, not at address 0.
  pub manager_get-append_batch :
      (index : ℕ) (rs : Records)
      → All PacketRecord rs
      → manager_get (record { addr = addr; bytes = (append_batch new_writer rs).written }) index
        ≡ some (ok (first_with index rs))
  unfolding manager_get
  manager_get-append_batch index rs ps = rw (append_batch_lem new_writer rs).0 (
      rw (sym (append-nil (records_bytes rs)), frames-written addr aligned not_null rs ps)
        (scan_frames-layout index rs (records_bytes rs ++ []) [] [] 0 refl refl refl ps))
