-- ===== src/Data.antt =====
-- lib/pyroduct/src/pipeline/data.rs: `DataManager`, its state. A record batch is the list of the rows that
-- it was built from, a path the number in its file's name, a table of the index database and a directory
-- of numbered files a map from numbers. The lock of the state is held by each operation from its start to
-- its end.
pub mod Writing
pub mod Rollout
pub mod Reading
pub mod Files
pub mod Valid
pub mod Middle
pub mod Rolling
pub mod RolledOut
pub mod Flushing
pub mod Pushing
pub mod Slicing
pub mod Windows
pub mod Runs
pub mod Indexed
pub mod Lookup
pub mod Kept
pub mod Found
pub mod Lost
pub mod Located
mod Tests
use pyroduct.Base.{ℕ, Option, none, some, List, [], Bool, ◌∷◌, ◌++◌, length}
use pyroduct.Base.Exec.{Exec}
use pyroduct.Base.Outcome.{Result}
use pyroduct.Base.Maps.{entry}
use pyroduct.Spec.Types.{PyroFields}
use pyroduct.Value.{PyroRow, Time}
use pyroduct.Value.Repair.Scalars.{Std, ScalarRepairError}
use pyroduct.Base.{String}

pub data DataError : Type 0 where
  ship_failed send_failed open_failed build_failed rotate_failed write_failed : DataError
  push_failed : ScalarRepairError → DataError
  not_found read_failed empty_file concat_failed query_failed : DataError

-- What is outside: the standard library and the clock, whether a step on a file, a buffer or the WAL's
-- background task succeeds, whether the batches of a file, or the slices, can be concatenated under the
-- schema as it is now, and how a Parquet file's rows are cut into batches when it is read. `arrow_row` is what
-- is read of a row from Arrow's columns, which hold some values in another form, a time in 64 bits.
pub record Env : Type 0 where
  pub std : Std
  pub now : Time
  pub ship_ok : PyroRow → Bool
  pub send_ok : ℕ → Bool
  pub open_ok : ℕ → Bool
  pub build_ok : List PyroRow → Bool
  pub rotate_ok : ℕ → Bool
  pub write_ipc_ok : ℕ → Bool
  pub write_parquet_ok : ℕ → Bool
  pub read_ipc_ok : ℕ → Bool
  pub read_parquet_ok : ℕ → Bool
  pub concat_ipc_ok : ℕ → Bool
  pub concat_parquet_ok : ℕ → Bool
  pub concat_slices_ok : Bool
  pub chunks : List PyroRow → List (List PyroRow)
  pub arrow_row : PyroRow → Result PyroRow DataError

-- The rows of the active WAL, and the position of each row index among them.
pub record CurrentData : Type 0 where
  pub prebatch : List PyroRow
  pub current_wal_rows : List (ℕ × ℕ)

abbrev pub empty_data : CurrentData
empty_data = record { prebatch = []; current_wal_rows = [] }

-- A row of the table `wal_index`: the WAL of a row index, and the position in it.
pub record WalPlace : Type 0 where
  pub wal_id : ℕ
  pub wal_index : ℕ

pub record DataManagerSharedState : Type 0 where
  pub active_readers : List (ℕ × ℕ)
  pub pending_deletions : List ℕ

-- The state with its tables `wal_index` and `wal_to_parquet` and the files `batch_N.arrow` and
-- `rollout_N.parquet`. The tables `ipc_index` and `parquet_index` are only written.
pub record DataManager : Type 0 where
  pub schema : PyroFields
  pub wal_manager : Option CurrentData
  pub current_wal_id : ℕ
  pub ipc_files : List ℕ
  pub ipc_row_counts : List (ℕ × ℕ)
  pub total_parquet_rows : ℕ
  pub parquet_row_counts : List (ℕ × ℕ)
  pub wal_capacity : ℕ
  pub ipc_capacity : ℕ
  pub metadata_prefix : Option String
  pub ipc_file_paths : List ℕ
  pub parquet_file_paths : List ℕ
  pub shared_state : DataManagerSharedState
  pub wal_index : List (ℕ × WalPlace)
  pub wal_to_parquet : List (ℕ × ℕ)
  pub arrow_files : List (ℕ × List PyroRow)
  pub parquet_files : List (ℕ × List PyroRow)

abbrev pub Operation : Type 0 → Type 0
Operation A = Exec DataManager DataError A

abbrev pub new : PyroFields → ℕ → DataManager
new schema wal_capacity = record {
  schema = schema;
  wal_manager = none;
  current_wal_id = 0;
  ipc_files = [];
  ipc_row_counts = [];
  total_parquet_rows = 0;
  parquet_row_counts = [];
  wal_capacity = wal_capacity;
  ipc_capacity = 10;
  metadata_prefix = none;
  ipc_file_paths = [];
  parquet_file_paths = [];
  shared_state = record { active_readers = []; pending_deletions = [] };
  wal_index = [];
  wal_to_parquet = [];
  arrow_files = [];
  parquet_files = [];
}

abbrev pub rows_of_wal : Option CurrentData → List PyroRow
rows_of_wal none = []
rows_of_wal (some d) = d.prebatch

-- The rows in the active WAL's buffer.
abbrev pub active_rows : DataManager → List PyroRow
active_rows s = rows_of_wal s.wal_manager

abbrev pub or_nothing : Option (List PyroRow) → List PyroRow
or_nothing none = []
or_nothing (some rows) = rows

abbrev pub or_zero : Option ℕ → ℕ
or_zero none = 0
or_zero (some n) = n

-- The rows of the files, one file behind the other.
unfoldable pub rows_in : List (ℕ × List PyroRow) → List ℕ → List PyroRow
rows_in files [] = []
rows_in files (id ∷ ids) = or_nothing (entry id files) ++ rows_in files ids

-- The rows that the manager keeps: those rolled out, those flushed, and those in the active WAL.
unfoldable pub all_rows : DataManager → List PyroRow
unfolding rows_in
all_rows s =
    rows_in s.parquet_files s.parquet_file_paths
    ++ (rows_in s.arrow_files s.ipc_file_paths ++ active_rows s)
