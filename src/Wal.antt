-- ===== src/Wal.antt =====
-- lib/pyroduct/src/format/wal.rs: the `.pyrowal` file of packets, its writer and its readers; with
-- `PyroRef::try_from_slice` and `get_ref` of format/vec_buf.rs.
-- A `PyroRef` is the bytes it covers, header and payload; a buffer lies at an address. A view that counts
-- references is the reference it was made from. Writes succeed.
pub mod Ref
pub mod Reading
pub mod Recovery
pub mod Torn
pub mod Manager
mod Tests
use pyroduct.Base.{
  ℕ, zero, suc, ◌+◌, ◌-◌, ◌*◌, ◌/◌, ◌%◌, ◌^◌, Option, none, some, List, [], ◌∷◌, ◌++◌,
}
use pyroduct.Base.{length, take, drop, ltb, ◌==◌, if◌then◌else◌}
use pyroduct.Base.Bytes.{to_le, of_le}
use pyroduct.Base.Outcome.{Result, ok, err}
use pyroduct.Header.{Slice}
use pyroduct.Wal.Ref.{PyroRef, RefError, try_from_slice, get_ref}

-- `(n + 15) & !15`.
unfoldable pub align16 : ℕ → ℕ
align16 n = (n + 15) / 16 * 16

abbrev pub zeros : ℕ → List ℕ
zeros zero = []
zeros (suc n) = 0 ∷ zeros n

-- What was written to the file, and the count.
pub record WalWriter : Type 0 where
  pub written : List ℕ
  pub records_written : ℕ

abbrev pub new_writer : WalWriter
new_writer = record { written = []; records_written = 0 }

-- `row_index` is cut to a `u32`; 12 bytes of padding complete the prefix.
unfoldable pub prefix : ℕ → List ℕ
prefix record_index = to_le 4 (record_index % 2 ^ 32) ++ zeros 12

-- The three writes of one record: prefix, packet, padding.
unfoldable pub record_bytes : ℕ → PyroRef → List ℕ
unfolding prefix align16
record_bytes record_index r = prefix record_index ++ (r ++ zeros (align16 (length r) - length r))

unfoldable pub append : WalWriter → ℕ → PyroRef → WalWriter
unfolding record_bytes
append w record_index r = record {
  written = w.written ++ record_bytes record_index r;
  records_written = w.records_written + 1;
}

unfoldable pub write_batch : WalWriter → List (ℕ × PyroRef) → WalWriter
unfolding record_bytes
write_batch w [] = w
write_batch w ((record_index, r) ∷ records) =
    write_batch
      (record {
        written = w.written ++ record_bytes record_index r;
        records_written = w.records_written + 1;
      })
      records

-- An empty batch returns at once.
unfoldable pub append_batch : WalWriter → List (ℕ × PyroRef) → WalWriter
unfolding write_batch
append_batch w [] = w
append_batch w (r ∷ rs) = write_batch w (r ∷ rs)

pub record WalFrame : Type 0 where
  pub row_index : ℕ
  pub packet : PyroRef
  pub packet_offset : ℕ

-- What `next` comes to: `None`, a frame with the offset that it leaves, or a panic.
pub data Next : Type 0 where
  finished panicked : Next
  frame : WalFrame → ℕ → Next

unfoldable pub framed : ℕ → ℕ → Result PyroRef RefError → Next
unfolding align16
framed row_index packet_start (err e) = finished
framed row_index packet_start (ok packet) =
    frame (record { row_index = row_index; packet = packet; packet_offset = packet_start })
      (packet_start + align16 (length packet))

-- `WalFrameIter::next` at an offset. `data.len() - offset` is below zero where the offset lies past the
-- end: a panic there, or, unchecked, at the slice that follows.
unfoldable pub next : Slice → ℕ → Next
unfolding framed
next s offset =
    if ltb (length s.bytes) offset
    then panicked
    else if ltb (length s.bytes - offset) 16
    then finished
    else framed (of_le (take 4 (drop offset s.bytes))) (offset + 16) (
        try_from_slice
          (record { addr = s.addr + (offset + 16); bytes = drop (offset + 16) s.bytes }))

-- How a loop over the frames ends.
pub data Ending : Type 0 where
  ended panic out_of_fuel : Ending

abbrev pub with_frame : WalFrame → List WalFrame × Ending → List WalFrame × Ending
with_frame f (fs, e) = (f ∷ fs, e)

-- The loop over the iterator, on fuel.
unfoldable pub frames_from : ℕ → Slice → ℕ → List WalFrame × Ending
frames_from zero s offset = ([], out_of_fuel)
frames_from (suc fuel) s offset = elim (next s offset) [
  | finished ↦ ([], ended)
  | panicked ↦ ([], panic)
  | frame f offset' ↦ with_frame f (frames_from fuel s offset')
]

-- A frame takes 32 bytes or more, so the length is fuel enough.
unfoldable pub frames : Slice → List WalFrame × Ending
unfolding frames_from
frames s = frames_from (suc (length s.bytes)) s 0

unfoldable pub view_at : Slice → ℕ → Result PyroRef RefError
view_at s offset = get_ref s offset

-- `recover_all`: the views of the frames, those that fail left out.
unfoldable pub views : Slice → List WalFrame → List (ℕ × PyroRef)
unfolding view_at
views s [] = []
views s (f ∷ fs) =
    let rest = views s fs in
    elim (view_at s f.packet_offset) [ ok view ↦ (f.row_index, view) ∷ rest | err e ↦ rest ]

-- The second part tells whether the loop reached its end.
unfoldable pub recover_all : Slice → List (ℕ × PyroRef) × Ending
unfolding views
recover_all s = let (fs, e) = frames s in (views s fs, e)
