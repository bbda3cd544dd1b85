-- ===== src/LogWal/Tests.antt =====
-- Runs of lib/pyroduct/src/format/log_wal.rs on small logs, with a one-byte encoding in serde's place.
use pyroduct.Base.{ℕ, ◌+◌, ◌*◌, ◌≡◌, refl, arith}
use pyroduct.Base.{Option, none, some, List, [], ◌∷◌, get_elem?, ◌==◌, if◌then◌else◌}
use pyroduct.Base.Outcome.{ok}
use pyroduct.LogWal.Files.{Bytes, file, empty_dir}
use pyroduct.LogWal.Crc.{crc32c}
use pyroduct.LogWal.Writer.{
  LogEntry, Serde, LogWal, open_wal, append, append_batch, delete_older_than, oldest_log,
  youngest_log, write_record, frame,
}
use pyroduct.LogWal.Reader.{get}
use pyroduct.LogWal.Frames.{frames}
use pyroduct.LogWal.Holds.{payload_at, Segments}
use pyroduct.LogWal.Access.{answer, get-Holds, get-append}
use pyroduct.LogWal.Batch.{open_wal-Holds, append_batch-get, append_batch-Batch, Batch}
use pyroduct.LogWal.Purge.{purge_loses}

abbrev entry : ℕ → LogEntry
entry n = record { row_index = n; module_logs = []; capability_logs = []; failure = none }

abbrev read_byte : Bytes → Option LogEntry
read_byte [] = none
read_byte (b ∷ []) = some (entry b)
read_byte (b ∷ c ∷ bs) = none

abbrev tiny : Serde
tiny = record { to_vec = λ e. some (e.row_index ∷ []); from_slice = read_byte }

abbrev small_log : LogWal
small_log = open_wal empty_dir 2

-- The check value of CRC-32C: the digits from 1 to 9.
crc_check : crc32c (49 ∷ 50 ∷ 51 ∷ 52 ∷ 53 ∷ 54 ∷ 55 ∷ 56 ∷ 57 ∷ []) ≡ 3808858755
unfolding crc32c
crc_check = refl

abbrev three : List LogEntry
three = entry 5 ∷ entry 6 ∷ entry 7 ∷ []

abbrev bytes : List Bytes
bytes = (5 ∷ []) ∷ (6 ∷ []) ∷ (7 ∷ []) ∷ []

append_batch-get_example :
    ((append_batch tiny small_log three).1 ≡ ok tt)
    × ((append_batch tiny small_log three).0.total_entries ≡ 3)
    × ((i : ℕ)
        → (get tiny (append_batch tiny small_log three).0.dir i 2).1 ≡ ok (get_elem? three i))
unfolding frames frame
append_batch-get_example =
    append_batch-get tiny 2 three ((5 ∷ []) ∷ (6 ∷ []) ∷ (7 ∷ []) ∷ []) (omega arith)
      (refl, refl, omega arith, (refl, refl, omega arith, (refl, refl, omega arith, tt)))
      (omega arith)

get-append_example :
    ((append tiny small_log (entry 7)).1 ≡ ok tt)
    × ((append tiny small_log (entry 7)).0.total_entries ≡ small_log.total_entries + 1)
    × ((i : ℕ)
        → (get tiny
            (append tiny small_log (entry 7)).0.dir
            i
            (append tiny small_log (entry 7)).0.capacity).1
          ≡ (if i == small_log.total_entries
              then ok (some (entry 7))
              else (get tiny small_log.dir i small_log.capacity).1))
unfolding open_wal file
get-append_example =
    get-append tiny (entry 7) (7 ∷ []) (open_wal-Holds 2 (omega arith)) refl refl (omega arith)
      (omega arith)

get-Holds_example :
    get tiny small_log.dir 3 small_log.capacity
    ≡ (small_log.dir, answer tiny (payload_at (λ _. []) small_log.capacity 3))
get-Holds_example = get-Holds (open_wal-Holds 2 (omega arith)) tiny 3

-- Three entries in segments of two, so that the second segment is being written.
abbrev two_segments : LogWal
two_segments = (append_batch tiny small_log three).0

two_segments-Holds : (segs : Segments) × Batch small_log (λ _. []) bytes two_segments segs
unfolding frames frame open_wal file
two_segments-Holds =
    (append_batch-Batch tiny three bytes (open_wal-Holds 2 (omega arith))
      (refl, refl, omega arith, (refl, refl, omega arith, (refl, refl, omega arith, tt)))
      (omega arith)).1

purge_loses_example :
    (youngest_log (append tiny (delete_older_than two_segments 0).0 (entry 9)).0 ≡ some 0)
    × (oldest_log (append tiny (delete_older_than two_segments 0).0 (entry 9)).0
        ≡ some (two_segments.current_file_index * two_segments.capacity))
    × ((get tiny
          (append tiny (delete_older_than two_segments 0).0 (entry 9)).0.dir
          0
          two_segments.capacity).1
        ≡ ok none)
unfolding open_wal append_batch file write_record
purge_loses_example =
    purge_loses tiny (entry 9) (9 ∷ []) two_segments-Holds.1.holds (omega arith) refl
