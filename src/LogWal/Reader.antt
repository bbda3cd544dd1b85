-- ===== src/LogWal/Reader.antt =====
-- `LogWalReader` of lib/pyroduct/src/format/log_wal.rs: random access by index, and reading in order.
use pyroduct.Base.{ℕ, zero, suc, ◌+◌, ◌*◌, ◌/◌, ◌%◌, Option, none, some, List, [], ◌∷◌}
use pyroduct.Base.{ltb, ◌==◌, if◌then◌else◌, ◌&&◌}
use pyroduct.Base.Bytes.{of_le}
use pyroduct.Base.Outcome.{Result, ok, err}
use pyroduct.LogWal.Files.{Bytes, Dir, file, listing, read_exact}
use pyroduct.LogWal.Crc.{crc32c}
use pyroduct.LogWal.Index.{ensure_index_file}
use pyroduct.LogWal.Writer.{
  LogEntry, Serde, IoError, decode_failed, crc_mismatch, unexpected_eof, split_exact, sort,
  first_or_zero,
}

abbrev pub decoded : Option LogEntry → Result (Option LogEntry) IoError
decoded none = err decode_failed
decoded (some entry) = ok (some entry)

module _ (s : Serde) where
  -- The checksum, then the JSON.
  unfoldable pub verify : ℕ → Bytes → Result (Option LogEntry) IoError
  verify expected_crc payload =
      if crc32c payload == expected_crc then decoded (s.from_slice payload) else err crc_mismatch

  -- The record at an offset of a segment: `Ok(None)` if not even its length can be read.
  unfoldable pub read_record : Bytes → ℕ → Result (Option LogEntry) IoError
  unfolding verify
  read_record log start = elim (read_exact log start 4) [
    | none ↦ ok none
    | some len_buf ↦ elim (read_exact log (start + 4) 4) [
      | none ↦ err unexpected_eof
      | some crc_buf ↦ elim (read_exact log (start + 8) (of_le len_buf)) [
        | none ↦ err unexpected_eof
        | some payload ↦ verify (of_le crc_buf) payload
      ]
    ]
  ]

  unfoldable pub lookup_record : Option Bytes → Option Bytes → ℕ → Result (Option LogEntry) IoError
  lookup_record (some log) (some idx) entry_index = elim (read_exact idx (entry_index * 8) 8) [
    | none ↦ ok none
    | some offset_buf ↦ read_record log (of_le offset_buf)
  ]
  lookup_record _ _ entry_index = ok none

  -- `LogWalReader::get`; it may rebuild the index file of the segment.
  unfoldable pub get : Dir → ℕ → ℕ → Dir × Result (Option LogEntry) IoError
  unfolding lookup_record read_record
  get dir index capacity =
      if capacity == 0
      then (dir, ok none)
      else let dir' = ensure_index_file dir (index / capacity) in
        (
          dir',
          lookup_record (file dir'.logs (index / capacity)) (file dir'.indices (index / capacity))
              (index % capacity),
        )

pub record LogWalReader : Type 0 where
  pub current_file_index : ℕ
  pub reader : Option Bytes

unfoldable pub open_reader : Dir → LogWalReader
open_reader dir = record {
  current_file_index = first_or_zero (sort (listing dir.logs));
  reader = none;
}

-- The least number of a segment above `index`.
unfoldable pub min_higher : ℕ → List ℕ → Option ℕ
min_higher index [] = none
min_higher index (idx ∷ rest) = elim (min_higher index rest) [
  | none ↦ if ltb index idx then some idx else none
  | some best ↦ if ltb index idx && ltb idx best then some idx else some best
]

module _ (s : Serde) where
  -- The rest of a record, behind its length.
  unfoldable pub next_record : ℕ → ℕ → Bytes → LogWalReader × Result (Option LogEntry) IoError
  next_record index len rest = elim (split_exact 4 rest) [
    | none ↦ (record { current_file_index = index; reader = some [] }, err unexpected_eof)
    | some (crc_buf, rest₁) ↦ elim (split_exact len rest₁) [
      | none ↦ (record { current_file_index = index; reader = some [] }, err unexpected_eof)
      | some (payload, rest₂) ↦ (
        record { current_file_index = index; reader = some rest₂ },
        verify s (of_le crc_buf) payload,
      )
    ]
  ]

  -- The loop of `next`, on fuel; `none` is no result of the code, only that the fuel ran out.
  unfoldable pub next_loop :
      ℕ → Dir → LogWalReader → Option (LogWalReader × Result (Option LogEntry) IoError)
  unfolding next_record
  next_loop zero dir r = none
  next_loop (suc fuel) dir r = elim r.reader [
    | none ↦ elim (file dir.logs r.current_file_index) [
      | none ↦ elim (min_higher r.current_file_index (listing dir.logs)) [
        | none ↦ some (r, ok none)
        | some higher ↦ next_loop fuel dir (record r { current_file_index = higher })
      ]
      | some log ↦ next_loop fuel dir (record r { reader = some log })
    ]
    | some bytes ↦ elim (split_exact 4 bytes) [
      | none ↦
          next_loop fuel dir
            (record { current_file_index = r.current_file_index + 1; reader = none })
      | some (len_buf, rest) ↦ some (next_record r.current_file_index (of_le len_buf) rest)
    ]
  ]
