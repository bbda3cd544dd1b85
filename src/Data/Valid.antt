-- ===== src/Data/Valid.antt =====
-- The invariant of `DataManager` in lib/pyroduct/src/pipeline/data.rs: the lists, counts and directories
-- agree on the pending and the rolled-out files.
use pyroduct.Base.{ℕ, ◌+◌, ◌<◌, List, ◌++◌, All, true, false, length, ◌≡◌, refl}
use pyroduct.Value.{PyroRow}
use pyroduct.Data.{Env, DataManager, active_rows, all_rows}
use pyroduct.Data.Rollout.{is_nil}
use pyroduct.Data.Files.{
  Files, keys, counts, contents, Holds, Absent, Distinct, Below, rows_in-Holds,
}

-- A deletion that was put off is of a file that is no longer pending.
abbrev pub PutOff : ℕ → Files → List ℕ → Type 0
PutOff next pending ids = All (λ id. (id < next) × Absent id (keys pending)) ids

-- A pending file is stuck where a rollout ended early before it: no later rollout takes it.
pub record Valid (s : DataManager) : Type 0 where
  pub pending : Files
  pub rolled : Files
  pub stuck : Files
  pub listed : Files
  pub pending_split : pending ≡ stuck ++ listed
  pub ipc_files : s.ipc_files ≡ keys listed
  pub ipc_paths : s.ipc_file_paths ≡ keys pending
  pub ipc_counts : s.ipc_row_counts ≡ counts pending
  pub ipc_held : Holds s.arrow_files pending
  pub ipc_distinct : Distinct (keys pending)
  pub ipc_below : Below s.current_wal_id (keys pending)
  pub parquet_paths : s.parquet_file_paths ≡ keys rolled
  pub parquet_counts : s.parquet_row_counts ≡ counts rolled
  pub parquet_total : s.total_parquet_rows ≡ length (contents rolled)
  pub parquet_held : Holds s.parquet_files rolled
  pub parquet_distinct : Distinct (keys rolled)
  pub parquet_below : Below (s.current_wal_id + 1) (keys rolled)
  pub parquet_before : is_nil listed ≡ false → Below s.current_wal_id (keys rolled)
  pub put_off : PutOff s.current_wal_id pending s.shared_state.pending_deletions

pub all_rows-Valid :
    (s : DataManager) (v : Valid s)
    → all_rows s ≡ contents v.rolled ++ (contents v.pending ++ active_rows s)
unfolding all_rows
all_rows-Valid s v =
    rw
      (
        v.parquet_paths,
        v.ipc_paths,
        rows_in-Holds s.parquet_files v.rolled v.parquet_held,
        rows_in-Holds s.arrow_files v.pending v.ipc_held,
      )
      refl

-- No step outside fails.
pub record AllOk (env : Env) : Type 0 where
  pub ship : (row : PyroRow) → env.ship_ok row ≡ true
  pub send : (i : ℕ) → env.send_ok i ≡ true
  pub open_file : (id : ℕ) → env.open_ok id ≡ true
  pub build : (rows : List PyroRow) → env.build_ok rows ≡ true
  pub rotate : (id : ℕ) → env.rotate_ok id ≡ true
  pub write_ipc : (id : ℕ) → env.write_ipc_ok id ≡ true
  pub reads_ipc : (id : ℕ) → env.read_ipc_ok id ≡ true
  pub write_parquet : (id : ℕ) → env.write_parquet_ok id ≡ true
