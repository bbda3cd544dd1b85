-- ===== src/Data/Writing.antt =====
-- lib/pyroduct/src/pipeline/data.rs and format/value/arrow/wal.rs: rows pushed to the active WAL, and the
-- WAL flushed to an IPC file.
use pyroduct.Base.{
  ℕ, ◌+◌, String, Option, none, some, List, [], ◌∷◌, ◌++◌, false, ◌||◌, length, leb, if◌then◌else◌,
}
use pyroduct.Base.Integers.{pos}
use pyroduct.Base.Exec.{pure, lift, gets, modify, ensure, ◌>>=◌, ◌>>◌}
use pyroduct.Base.Outcome.{Result, ok, err}
use pyroduct.Base.Maps.{set_entry}
use pyroduct.Spec.{PrimitiveDataType}
use pyroduct.Spec.Types.{PyroType, primitive_scalar, PyroField, field, PyroFields}
use pyroduct.Value.{PyroRow, empty, item, group, timestamp, u64, insert}
use pyroduct.Value.Repair.Scalars.{ScalarRepairError}
use pyroduct.Value.Repair.{project_repair}
use pyroduct.Data.{
  Env, DataError, ship_failed, send_failed, open_failed, build_failed, rotate_failed, write_failed,
  push_failed, WalPlace, CurrentData, empty_data, DataManager, Operation, active_rows,
}
use pyroduct.Data.Rollout.{is_nil, rollout_to_parquet_inner}

-- A new id is taken before the file is opened, and kept where that fails.
unfoldable pub opened : Env → Option CurrentData → Operation Unit
opened env (some d) s = (ok tt, s)
opened env none s =
    let id = s.current_wal_id + 1 in
    let s' = record s { current_wal_id = id } in
    if env.open_ok id
    then (ok tt, record s' { wal_manager = some empty_data })
    else (err open_failed, s')

unfoldable pub ensure_wal_manager : Env → Operation Unit
unfolding opened
ensure_wal_manager env s = opened env s.wal_manager s

unfoldable pub with_metadata : Env → Option String → ℕ → PyroRow → PyroRow
unfolding insert
with_metadata env none row_index row = row
with_metadata env (some prefix) row_index row =
    insert row prefix
      (group (item "index" (u64 (pos row_index)) (item "timestamp" (timestamp env.now) empty)))

unfoldable pub repaired : Result PyroRow ScalarRepairError → Result PyroRow DataError
repaired (ok row) = ok row
repaired (err e) = err (push_failed e)

-- A row in the buffer, under its row index.
unfoldable pub buffered : ℕ → PyroRow → CurrentData → CurrentData
unfolding set_entry
buffered row_index row d = record {
  prebatch = d.prebatch ++ row ∷ [];
  current_wal_rows = set_entry row_index (length d.prebatch) d.current_wal_rows;
}

unfoldable pub in_wal : (CurrentData → CurrentData) → Option CurrentData → Option CurrentData
in_wal f none = none
in_wal f (some d) = some (f d)

-- `PreBatch::push` repairs the row to the schema.
unfoldable pub push_row : Env → ℕ → PyroRow → Operation Unit
unfolding repaired buffered in_wal
push_row env row_index row = do
  schema ← gets (λ s. s.schema)
  row' ← lift (repaired (project_repair env.std schema row))
  modify (λ s. record s { wal_manager = in_wal (buffered row_index row') s.wal_manager })

unfoldable pub append_row : Env → ℕ → PyroRow → Operation Unit
unfolding push_row
append_row env row_index row = do
  ensure (env.ship_ok row) ship_failed
  push_row env row_index row
  ensure (env.send_ok row_index) send_failed

-- The rows of a WAL in the index; a row index that was there is written over.
unfoldable pub index_rows : ℕ → List (ℕ × ℕ) → List (ℕ × WalPlace) → List (ℕ × WalPlace)
unfolding set_entry
index_rows wal_id [] table = table
index_rows wal_id ((row_index, i) ∷ rows) table =
    set_entry row_index (record { wal_id = wal_id; wal_index = i }) (index_rows wal_id rows table)

-- The IPC file is written, and what follows it.
unfoldable pub flushed : ℕ → CurrentData → DataManager → DataManager
unfolding set_entry index_rows
flushed wal_id d s = record s {
  arrow_files = set_entry wal_id d.prebatch s.arrow_files;
  wal_index = index_rows wal_id d.current_wal_rows s.wal_index;
  current_wal_id = wal_id + 1;
  ipc_files = s.ipc_files ++ wal_id ∷ [];
  ipc_row_counts = set_entry wal_id (length d.prebatch) s.ipc_row_counts;
  ipc_file_paths = s.ipc_file_paths ++ wal_id ∷ [];
}

unfoldable pub rollout_if_full : Env → Operation Unit
unfolding rollout_to_parquet_inner
rollout_if_full env s =
    if leb s.ipc_capacity (length s.ipc_files) then rollout_to_parquet_inner env s else (ok tt, s)

-- `WalManager::rotate` empties the buffer before the WAL behind it is rotated.
unfoldable pub flush_data : Env → Option CurrentData → Operation Unit
unfolding flushed rollout_if_full
flush_data env none = pure tt
flush_data env (some d) = do
  wal_id ← gets (λ s. s.current_wal_id)
  ensure (env.open_ok (wal_id + 1)) open_failed
  ensure (is_nil d.prebatch || env.build_ok d.prebatch) build_failed
  modify (λ s. record s { wal_manager = some empty_data })
  ensure (env.rotate_ok wal_id) rotate_failed
  ensure (env.write_ipc_ok wal_id) write_failed
  modify (flushed wal_id d)
  rollout_if_full env

unfoldable pub flush_wal_inner : Env → Operation Unit
unfolding flush_data
flush_wal_inner env s = flush_data env s.wal_manager s

unfoldable pub flush_if_full : Env → Operation Unit
unfolding flush_wal_inner
flush_if_full env s =
    if leb s.wal_capacity (length (active_rows s)) then flush_wal_inner env s else (ok tt, s)

unfoldable pub push_record : Env → ℕ → PyroRow → Operation Unit
unfolding ensure_wal_manager with_metadata append_row flush_if_full
push_record env row_index record_ = do
  ensure_wal_manager env
  prefix ← gets (λ s. s.metadata_prefix)
  append_row env row_index (with_metadata env prefix row_index record_)
  flush_if_full env

unfoldable pub set_capacities : ℕ → ℕ → DataManager → DataManager
set_capacities wal_capacity ipc_capacity s = record s {
  wal_capacity = wal_capacity;
  ipc_capacity = ipc_capacity;
}

unfoldable pub append_field : PyroFields → PyroField → PyroFields
append_field PyroFields.nil f = PyroFields.cons f PyroFields.nil
append_field (PyroFields.cons g gs) f = PyroFields.cons g (append_field gs f)

metadata_field : String → PyroField
metadata_field prefix =
    field prefix none
      (PyroType.group (
        PyroFields.cons (field "index" none (primitive_scalar PrimitiveDataType.u64) false)
          (PyroFields.cons (field "timestamp" none PyroType.timestamp false) PyroFields.nil)))
      false

-- The buffer is replaced, the positions in it are kept.
unfoldable pub set_metadata_prefix : String → DataManager → DataManager
unfolding append_field metadata_field in_wal
set_metadata_prefix prefix s = record s {
  schema = append_field s.schema (metadata_field prefix);
  metadata_prefix = some prefix;
  wal_manager = in_wal (λ d. record d { prebatch = [] }) s.wal_manager;
}
