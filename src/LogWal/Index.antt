-- ===== src/LogWal/Index.antt =====
-- `ensure_index_file` of lib/pyroduct/src/format/log_wal.rs: an index file lists, in 8 bytes each, the
-- offsets at which the records of its segment begin.
use pyroduct.Base.{ℕ, zero, suc, ◌+◌, ◌%◌, Option, none, some, [], ◌++◌}
use pyroduct.Base.{length, ltb, ◌==◌, if◌then◌else◌, Bool, true, not, ◌&&◌, ◌||◌}
use pyroduct.Base.Bytes.{to_le, of_le}
use pyroduct.LogWal.Files.{Bytes, Dir, file, put, read_exact}

-- The loop over the records of a segment, on fuel: each round moves on by eight bytes at least.
unfoldable pub scan : ℕ → Bytes → ℕ → Bytes
scan zero log offset = []
scan (suc fuel) log offset = elim (read_exact log offset 4) [
  | none ↦ []
  | some len_buf ↦ to_le 8 offset ++ scan fuel log (offset + (4 + 4 + of_le len_buf))
]

unfoldable pub rebuild : Bytes → Bytes
unfolding scan
rebuild log = scan (suc (length log)) log 0

unfoldable pub should_rebuild : Bytes → Option Bytes → Bool
should_rebuild log none = true
should_rebuild log (some idx) =
    not (length idx % 8 == 0) || (ltb 0 (length log) && (length idx == 0))

unfoldable pub ensure_index_file : Dir → ℕ → Dir
ensure_index_file dir file_index = elim (file dir.logs file_index) [
  | none ↦ dir
  | some log ↦
      if should_rebuild log (file dir.indices file_index)
      then record dir { indices = put file_index (rebuild log) dir.indices }
      else dir
]
