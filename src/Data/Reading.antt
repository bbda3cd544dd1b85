-- ===== src/Data/Reading.antt =====
-- lib/pyroduct/src/pipeline/data.rs: the number of rows, a record by its row index, and slices of all rows.
use Prim.Native.Nat.{min}
use pyroduct.Base.{
  ℕ, ◌+◌, ◌-◌, ◌%◌, ◌^◌, not, Option, none, some, List, [], ◌∷◌, ◌++◌, Bool, false, ◌&&◌, ◌==◌, ltb,
  leb, length, get_elem?, take, drop, if◌then◌else◌,
}
use pyroduct.Base.Outcome.{Result, ok, err, ◌>>=◌}
use pyroduct.Base.Maps.{entry}
use pyroduct.Value.{PyroRow}
use pyroduct.Data.{
  Env, DataError, not_found, read_failed, empty_file, concat_failed, query_failed, build_failed,
  WalPlace, CurrentData, DataManager, active_rows, or_zero,
}
use pyroduct.Data.Rollout.{is_nil, concat}

unfoldable pub sum_counts : List (ℕ × ℕ) → ℕ
sum_counts [] = 0
sum_counts ((id, n) ∷ counts) = n + sum_counts counts

unfoldable pub row_count : DataManager → ℕ
unfolding sum_counts
row_count s = s.total_parquet_rows + sum_counts s.ipc_row_counts + length (active_rows s)

abbrev pub row_of : List PyroRow → Option ℕ → Option PyroRow
row_of rows none = none
row_of rows (some i) = get_elem? rows i

-- The position of the row index, and the row there.
unfoldable pub in_memory : ℕ → Option CurrentData → Option PyroRow
unfolding entry
in_memory index none = none
in_memory index (some d) = row_of d.prebatch (entry index d.current_wal_rows)

abbrev pub at_most : ℕ → Option ℕ → Option ℕ
at_most n none = some n
at_most n (some m) = some (min n m)

-- `SELECT MIN(wal_index)` over the entries whose WAL meets the condition; null where there is none.
unfoldable pub min_wal_index : (ℕ → Bool) → List (ℕ × WalPlace) → Option ℕ
min_wal_index p [] = none
min_wal_index p ((row_index, place) ∷ table) =
    let rest = min_wal_index p table in
    if p place.wal_id then at_most place.wal_index rest else rest

unfoldable pub rolled_into : ℕ → List (ℕ × ℕ) → ℕ → Bool
unfolding entry
rolled_into parquet_id table wal_id = elim (entry wal_id table) [
  | none ↦ false
  | some id ↦ id == parquet_id
]

-- A row of a batch comes out as Arrow's columns hold it.
abbrev pub or_read_failed : Env → Option PyroRow → Result PyroRow DataError
or_read_failed env none = err read_failed
or_read_failed env (some row) = env.arrow_row row

abbrev pub row_at : Env → List PyroRow → ℕ → Result PyroRow DataError
row_at env rows i = or_read_failed env (get_elem? rows i)

-- The batches of a Parquet file, from an offset on.
unfoldable pub find_row : Env → List (List PyroRow) → ℕ → ℕ → Result PyroRow DataError
find_row env [] offset i = err not_found
find_row env (batch ∷ batches) offset i =
    let rest = find_row env batches (offset + length batch) i in
    if leb offset i && ltb i (offset + length batch) then row_at env batch (i - offset) else rest

unfoldable pub from_rollout : Env → ℕ → Option ℕ → Option (List PyroRow) → Result PyroRow DataError
unfolding find_row
from_rollout env wal_index least none = err not_found
from_rollout env wal_index none (some rows) = err query_failed
from_rollout env wal_index (some least) (some rows) =
    find_row env (env.chunks rows) 0 (wal_index - least)

unfoldable pub from_parquet : Env → DataManager → ℕ → Option ℕ → Result PyroRow DataError
unfolding from_rollout min_wal_index rolled_into entry
from_parquet env s wal_index none = err not_found
from_parquet env s wal_index (some parquet_id) =
    from_rollout env wal_index (min_wal_index (rolled_into parquet_id s.wal_to_parquet) s.wal_index)
      (entry parquet_id s.parquet_files)

unfoldable pub from_ipc : Env → List PyroRow → ℕ → Option ℕ → Result PyroRow DataError
from_ipc env rows wal_index none = err query_failed
from_ipc env rows wal_index (some least) = row_at env rows (wal_index - least)

-- The IPC file of the WAL, or the Parquet file where it was rolled out to.
unfoldable pub from_disk :
    Env → DataManager → ℕ → ℕ → Option (List PyroRow) → Result PyroRow DataError
unfolding from_ipc from_parquet min_wal_index
from_disk env s wal_id wal_index (some rows) =
    from_ipc env rows wal_index (min_wal_index (λ id. id == wal_id) s.wal_index)
from_disk env s wal_id wal_index none = from_parquet env s wal_index (entry wal_id s.wal_to_parquet)

unfoldable pub from_index : Env → DataManager → Option WalPlace → Result PyroRow DataError
unfolding from_disk
from_index env s none = err not_found
from_index env s (some place) =
    from_disk env s place.wal_id place.wal_index (entry place.wal_id s.arrow_files)

abbrev pub or_from : Option PyroRow → Result PyroRow DataError → Result PyroRow DataError
or_from none r = r
or_from (some row) r = ok row

unfoldable pub get_record : Env → DataManager → ℕ → Result PyroRow DataError
unfolding in_memory from_index entry
get_record env s index =
    or_from (in_memory index s.wal_manager) (from_index env s (entry index s.wal_index))

pub data DataSource : Type 0 where
  parquet ipc : ℕ → DataSource
  active : DataSource

abbrev pub counted : (ℕ → DataSource) → List (ℕ × ℕ) → List ℕ → List (DataSource × ℕ)
counted make counts [] = []
counted make counts (id ∷ ids) = (make id, or_zero (entry id counts)) ∷ counted make counts ids

unfoldable pub sources : DataManager → List (DataSource × ℕ)
sources s =
    counted parquet s.parquet_row_counts s.parquet_file_paths
    ++ (counted ipc s.ipc_row_counts s.ipc_file_paths
        ++ (if is_nil (active_rows s) then [] else (active, length (active_rows s)) ∷ []))

-- A file's batches are read, and concatenated under the schema as it is now.
abbrev pub read_parquet : Env → ℕ → Option (List PyroRow) → Result (List PyroRow) DataError
read_parquet env id none = err read_failed
read_parquet env id (some rows) =
    if not (env.read_parquet_ok id)
    then err read_failed
    else if is_nil (concat (env.chunks rows))
    then err empty_file
    else if env.concat_parquet_ok id
    then ok (concat (env.chunks rows))
    else err concat_failed

abbrev pub read_ipc : Env → ℕ → Option (List PyroRow) → Result (List PyroRow) DataError
read_ipc env id none = err read_failed
read_ipc env id (some rows) =
    if not (env.read_ipc_ok id)
    then err read_failed
    else if is_nil rows
    then err empty_file
    else if env.concat_ipc_ok id
    then ok rows
    else err concat_failed

-- Only a source that overlaps with the slice is read.
unfoldable pub read_source : Env → DataManager → DataSource → Result (List PyroRow) DataError
unfolding entry concat
read_source env s (parquet id) = read_parquet env id (entry id s.parquet_files)
read_source env s (ipc id) = read_ipc env id (entry id s.arrow_files)
read_source env s active =
    if is_nil (active_rows s)
    then err empty_file
    else if env.build_ok (active_rows s)
    then ok (active_rows s)
    else err build_failed

-- What a source adds to the slice from `offset` to `end_limit`, where it stands at `start`: nothing,
-- where it has no rows.
unfoldable pub slice_source :
    Env → DataManager → ℕ → ℕ → ℕ → DataSource × ℕ → Result (List PyroRow) DataError
unfolding read_source
slice_source env s offset end_limit start (source, row_count) =
    let local_offset = if ltb start offset then offset - start else 0 in
    let local_limit = min (row_count - local_offset) (end_limit - (start + local_offset)) in
    if ltb start end_limit && ltb offset (start + row_count) && ltb 0 local_limit
    then (read_source env s source >>= λ batch. ok (take local_limit (drop local_offset batch)))
    else ok []

unfoldable pub slice_sources :
    Env → DataManager → ℕ → ℕ → ℕ → List (DataSource × ℕ) → Result (List PyroRow) DataError
unfolding slice_source
slice_sources env s offset end_limit start [] = ok []
slice_sources env s offset end_limit start (source ∷ rest) = do
  rows ← slice_source env s offset end_limit start source
  more ← slice_sources env s offset end_limit (start + source.1) rest
  ok (rows ++ more)

abbrev pub or_none : List PyroRow → Option (List PyroRow)
or_none [] = none
or_none (r ∷ rs) = some (r ∷ rs)

abbrev pub concatenated : Env → List PyroRow → Result (Option (List PyroRow)) DataError
concatenated env [] = ok none
concatenated env (r ∷ rs) = if env.concat_slices_ok then ok (some (r ∷ rs)) else err concat_failed

-- The end of the slice wraps around at 64 bits.
unfoldable pub get_batch_slice :
    Env → DataManager → ℕ → ℕ → Result (Option (List PyroRow)) DataError
unfolding sources slice_sources
get_batch_slice env s offset limit = if limit == 0 then ok none else do
  rows ← slice_sources env s offset ((offset + limit) % 2 ^ 64) 0 (sources s)
  concatenated env rows
