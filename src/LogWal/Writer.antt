-- ===== src/LogWal/Writer.antt =====
-- `LogEntry` and `LogWal` of lib/pyroduct/src/format/log_wal.rs: open, rotate, append, retention.
-- serde_json is the parameter `Serde`. A handle that is open for appending is its file's number.
use pyroduct.Base.{ℕ, zero, suc, ◌+◌, ◌-◌, ◌*◌, ◌%◌, ◌^◌, String, Option, none, some}
use pyroduct.Base.{List, [], ◌∷◌, ◌++◌, length, take, drop, ltb, leb, ◌==◌, if◌then◌else◌}
use pyroduct.Base.{Bool, not, ◌&&◌}
use pyroduct.Base.Bytes.{to_le, of_le}
use pyroduct.Base.Outcome.{Result, ok, err}
use pyroduct.Captured.{CapturedError}
use pyroduct.LogWal.Files.{
  Bytes, Dir, file, put, remove_file, listing, contents, exists, touch, append_file,
}
use pyroduct.LogWal.Crc.{crc32c}
use pyroduct.LogWal.Index.{ensure_index_file}

-- The map from (capability, instance) to its lines is an association list.
pub record LogEntry : Type 0 where
  pub row_index : ℕ
  pub module_logs : List String
  pub capability_logs : List ((String × String) × List String)
  pub failure : Option (Result CapturedError String)

-- `serde_json::to_vec` and `serde_json::from_slice` at `LogEntry`.
pub record Serde : Type 0 where
  pub to_vec : LogEntry → Option Bytes
  pub from_slice : Bytes → Option LogEntry

pub data IoError : Type 0 where
  encode_failed decode_failed crc_mismatch unexpected_eof : IoError

pub record LogWal : Type 0 where
  pub dir : Dir
  pub capacity : ℕ
  pub current_file_index : ℕ
  pub oldest_file_index : ℕ
  pub current_entries : ℕ
  pub total_entries : ℕ
  pub current_offset : ℕ

insert_sorted : ℕ → List ℕ → List ℕ
insert_sorted n [] = n ∷ []
insert_sorted n (m ∷ ms) = if leb n m then n ∷ m ∷ ms else m ∷ insert_sorted n ms

-- `sort_unstable` on numbers.
unfoldable pub sort : List ℕ → List ℕ
unfolding insert_sorted
sort [] = []
sort (n ∷ ns) = insert_sorted n (sort ns)

-- `files.first().cloned().unwrap_or(0)`, and `last`.
abbrev pub first_or_zero : List ℕ → ℕ
first_or_zero [] = 0
first_or_zero (n ∷ ns) = n

abbrev pub last_or_zero : List ℕ → ℕ
last_or_zero [] = 0
last_or_zero (n ∷ []) = n
last_or_zero (n ∷ m ∷ ns) = last_or_zero (m ∷ ns)

-- `read_exact` on a stream: what it reads, and what is left; `none` is an unexpected end of file.
unfoldable pub split_exact : ℕ → Bytes → Option (Bytes × Bytes)
split_exact n bytes = if leb n (length bytes) then some (take n bytes, drop n bytes) else none

-- The loop of `open` that counts the whole records of a segment.
unfoldable pub count_records : ℕ → Bytes → ℕ
unfolding split_exact
count_records zero bytes = 0
count_records (suc fuel) bytes = elim (split_exact 4 bytes) [
  | none ↦ 0
  | some (len_buf, rest) ↦ elim (split_exact (4 + of_le len_buf) rest) [
    | none ↦ 0
    | some (skip_buf, rest') ↦ suc (count_records fuel rest')
  ]
]

-- `for idx in oldest..=last`, over the number of rounds.
ensure_from : ℕ → ℕ → Dir → Dir
ensure_from zero idx dir = dir
ensure_from (suc n) idx dir = ensure_from n (suc idx) (ensure_index_file dir idx)

-- The segment to write to, its record count, and the directory with that segment in it.
choose_segment : Dir → ℕ → ℕ → ℕ → ℕ × ℕ × Dir
choose_segment dir capacity index entries =
    if leb capacity entries
    then (index + 1, 0, record dir { logs = touch (index + 1) dir.logs })
    else (index, entries, record dir { logs = touch index dir.logs })

unfoldable pub open_wal : Dir → ℕ → LogWal
unfolding count_records choose_segment ensure_from
open_wal dir capacity =
    let files = sort (listing dir.logs) in
    let oldest = first_or_zero files in
    let index = last_or_zero files in
    let log = contents (file dir.logs index) in
    let (final_idx, final_entries, dir₁) =
      choose_segment dir capacity index (count_records (length log) log) in
    let dir₂ = ensure_from (suc final_idx - oldest) oldest dir₁ in
    record {
      dir = record dir₂ { indices = touch final_idx dir₂.indices };
      capacity = capacity;
      current_file_index = final_idx;
      oldest_file_index = oldest;
      current_entries = final_entries;
      total_entries =
          (if ltb 0 final_idx then final_idx * capacity + final_entries else final_entries);
      current_offset =
          (if ltb 0 final_entries then length (contents (file dir₂.logs index)) else 0);
    }

unfoldable pub rotate : LogWal → LogWal
rotate w =
    let next = w.current_file_index + 1 in
    record w {
      dir = record { logs = touch next w.dir.logs; indices = touch next w.dir.indices };
      current_file_index = next;
      current_entries = 0;
      current_offset = 0;
    }

-- Frame: [ len (4) | crc (4) | payload (n) ]
unfoldable pub frame : Bytes → Bytes
frame payload = to_le 4 (length payload % 2 ^ 32) ++ (to_le 4 (crc32c payload) ++ payload)

-- The writes of one record, and the counters after them.
unfoldable pub write_record : LogWal → Bytes → LogWal
unfolding frame
write_record w payload = record w {
  dir = record {
    logs = append_file w.current_file_index (frame payload) w.dir.logs;
    indices = append_file w.current_file_index (to_le 8 w.current_offset) w.dir.indices;
  };
  current_offset = w.current_offset + (4 + 4 + length payload);
  current_entries = w.current_entries + 1;
  total_entries = w.total_entries + 1;
}

unfoldable pub rotate_if_full : LogWal → LogWal
unfolding rotate
rotate_if_full w = if leb w.capacity w.current_entries then rotate w else w

write_encoded : LogWal → Option Bytes → LogWal × Result (Unit {0}) IoError
write_encoded w none = (w, err encode_failed)
write_encoded w (some payload) = (write_record w payload, ok tt)

module _ (s : Serde) where
  -- A segment that is full is rotated out before the entry is encoded.
  unfoldable pub append : LogWal → LogEntry → LogWal × Result (Unit {0}) IoError
  unfolding write_encoded rotate_if_full
  append w entry = write_encoded (rotate_if_full w) (s.to_vec entry)

  -- The loop stops at the first entry that fails.
  unfoldable pub append_batch : LogWal → List LogEntry → LogWal × Result (Unit {0}) IoError
  unfolding append
  append_batch w [] = (w, ok tt)
  append_batch w (entry ∷ entries) =
      let (w', r) = append w entry in
      let rest = append_batch w' entries in elim r [ ok _ ↦ rest | err e ↦ (w', err e) ]

unfoldable pub oldest_log : LogWal → Option ℕ
oldest_log w = if w.total_entries == 0 then none else some (w.oldest_file_index * w.capacity)

unfoldable pub youngest_log : LogWal → Option ℕ
youngest_log w = if w.total_entries == 0 then none else some (w.total_entries - 1)

-- A segment whose entries all lie below the cutoff, unless it is the one being written.
abbrev pub is_expired : LogWal → ℕ → ℕ → Bool
is_expired w cutoff idx = ltb idx w.current_file_index && leb ((idx + 1) * w.capacity) cutoff

unfoldable pub select_expired : LogWal → ℕ → List ℕ → List ℕ
select_expired w cutoff [] = []
select_expired w cutoff (idx ∷ rest) =
    let more = select_expired w cutoff rest in if is_expired w cutoff idx then idx ∷ more else more

remove_from : ℕ → Dir → Dir
remove_from idx dir = record {
  logs = remove_file idx dir.logs;
  indices = remove_file idx dir.indices;
}

-- Deletes the segments listed, and counts those that were there.
unfoldable pub delete_files : List ℕ → Dir → ℕ → Dir × ℕ
unfolding remove_from
delete_files [] dir count = (dir, count)
delete_files (idx ∷ rest) dir count =
    delete_files rest (remove_from idx dir)
      (if exists (file dir.logs idx) then count + 1 else count)

-- `keep_count == 0`: the segment being written is emptied, and the counters start again.
unfoldable pub purge : LogWal → LogWal
purge w = record w {
  dir = record {
    logs = put w.current_file_index [] w.dir.logs;
    indices = put w.current_file_index [] w.dir.indices;
  };
  current_entries = 0;
  total_entries = 0;
  current_offset = 0;
  oldest_file_index = w.current_file_index;
}

retain : LogWal → ℕ → Dir × ℕ → LogWal × ℕ
retain w keep_count (dir, deleted_count) =
    if keep_count == 0
    then (purge (record w { dir = dir }), deleted_count + 1)
    else if ltb 0 deleted_count
    then (
      record w { dir = dir; oldest_file_index = first_or_zero (sort (listing dir.logs)) },
      deleted_count,
    )
    else (record w { dir = dir }, deleted_count)

unfoldable pub delete_older_than : LogWal → ℕ → LogWal × ℕ
unfolding retain purge select_expired delete_files
delete_older_than w keep_count =
    let cutoff = w.total_entries - keep_count in
    if cutoff == 0 && not (keep_count == 0)
    then (w, 0)
    else retain w keep_count (delete_files (select_expired w cutoff (listing w.dir.logs)) w.dir 0)
