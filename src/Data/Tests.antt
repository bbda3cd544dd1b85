-- ===== src/Data/Tests.antt =====
-- A data manager with a field `id: i32`, over files that can all be written, or all but Parquet files.
use pyroduct.Base.{
  ℕ, none, List, [], ◌∷◌, ◌++◌, true, false, map, length, take, drop, ◌≡◌, refl, ap, arith,
}
use pyroduct.Base.Maps.{entry}
use pyroduct.Base.Texts.{str_discrete}
use pyroduct.Value.Repair.{project_repair}
use pyroduct.Data.Indexed.{place}
use pyroduct.Base.Outcome.{ok, err}
use pyroduct.Base.Integers.{pos}
use pyroduct.Spec.{i32}
use pyroduct.Spec.Types.{PyroFields, primitive_scalar}
use pyroduct.Value.{PyroValue, PyroRow, empty, item}
use pyroduct.Value.Repair.Sample.{std}
use pyroduct.Data.{Env, write_failed, read_failed, DataManager, new, all_rows, rows_in, active_rows}
use pyroduct.Data.Rollout.{concat, rollout_to_parquet_inner}
use pyroduct.Data.Writing.{push_record}
use pyroduct.Data.Reading.{
  row_count, get_record, get_batch_slice, or_none, min_wal_index, rolled_into, in_memory,
}
use pyroduct.Data.Valid.{Valid}
use pyroduct.Data.Slicing.{Documented, Joins}
use pyroduct.Data.Runs.{
  Op, push, flush, capacities, rollout, reader, no_reader, run, new-Valid, run-Valid, run_rows,
}
use pyroduct.Data.Found.{Push, push_all}
use pyroduct.Data.Lost.{rollout_write_failed}
use pyroduct.Data.Located.{get_record_rolled_out}

abbrev schema : PyroFields
schema =
    PyroFields.cons (pyroduct.Spec.Types.field "id" none (primitive_scalar i32) false)
      PyroFields.nil

abbrev row : ℕ → PyroRow
row n = item "id" (PyroValue.i32 (pos n)) empty

-- A Parquet reader that gives each row in a batch of its own.
abbrev env : Env
env = record {
  std = std;
  now = record { nanos = pos 0 };
  ship_ok = λ r. true;
  send_ok = λ i. true;
  open_ok = λ id. true;
  build_ok = λ rows. true;
  rotate_ok = λ id. true;
  write_ipc_ok = λ id. true;
  write_parquet_ok = λ id. true;
  read_ipc_ok = λ id. true;
  read_parquet_ok = λ id. true;
  concat_ipc_ok = λ id. true;
  concat_parquet_ok = λ id. true;
  concat_slices_ok = true;
  arrow_row = λ row. ok row;
  chunks = λ rows. map (λ r. r ∷ []) rows;
}

abbrev no_parquet : Env
no_parquet = record env { write_parquet_ok = λ id. false }

concat-singletons : (rows : List PyroRow) → concat (map (λ r. r ∷ []) rows) ≡ rows
unfolding concat
concat-singletons [] = refl
concat-singletons (r ∷ rs) = ap (λ t. r ∷ t) (concat-singletons rs)

documented : Documented env
documented = record { chunks_lem = concat-singletons }

joins : Joins env
joins = record {
  reads_ipc = λ id. refl;
  reads_parquet = λ id. refl;
  concat_ipc = λ id. refl;
  concat_parquet = λ id. refl;
  concat_slices = refl;
}

-- One row to a WAL, two WALs to a Parquet file.
abbrev ops : List (Env × Op)
ops =
    (env, capacities 1 2)
    ∷ (env, push 7 (row 1))
    ∷ (env, push 8 (row 2))
    ∷ (env, push 9 (row 3))
    ∷ []

abbrev after : DataManager
after = run ops (new schema 1)

rows_after : all_rows after ≡ row 1 ∷ row 2 ∷ row 3 ∷ []
unfolding all_rows run project_repair str_discrete
rows_after = refl

run_rows_example :
    (row_count after ≡ length (all_rows after))
    × (get_batch_slice env after 1 2 ≡ ok (or_none (take 2 (drop 1 (all_rows after)))))
run_rows_example = run_rows schema 1 ops env 1 2 documented joins refl (omega arith)

abbrev pushes : List Push
pushes =
    (record { index = 7; row = row 1; repaired_row = row 1 })
    ∷ (record { index = 3; row = row 2; repaired_row = row 2 })
    ∷ (record { index = 5; row = row 3; repaired_row = row 3 })
    ∷ []

-- Two rows to a WAL: the first two are in an IPC file, the third in the buffer.
abbrev pushed : DataManager
pushed = push_all env pushes (new schema 2)

-- The row pushed under 8 is the second of the Parquet file, and the first is read.
get_record_rolled_out_example : get_record env after 8 ≡ ok (row 1)
unfolding run project_repair str_discrete entry min_wal_index rolled_into in_memory
get_record_rolled_out_example =
    get_record_rolled_out env after 8 3 (place 2 0) (row 1 ∷ row 2 ∷ []) (row 1) documented refl
      refl refl refl refl refl refl

abbrev flush_ops : List (Env × Op)
flush_ops = (env, push 7 (row 1)) ∷ (env, flush) ∷ (env, push 8 (row 2)) ∷ []

abbrev flushed_once : DataManager
flushed_once = run flush_ops (new schema 5)

rollout_write_failed_example :
    ((rollout_to_parquet_inner no_parquet flushed_once).0 ≡ err write_failed)
    × (all_rows (rollout_to_parquet_inner no_parquet flushed_once).1
        ≡ rows_in flushed_once.parquet_files flushed_once.parquet_file_paths
          ++ active_rows flushed_once)
unfolding run project_repair str_discrete
rollout_write_failed_example =
    rollout_write_failed no_parquet flushed_once
      (run-Valid flush_ops (new schema 5) (new-Valid schema 5)) (refl, (refl, tt)) refl (λ id. refl)
      refl

-- A file that is read outlives its rollout until its last reader is gone.
kept_for_reader :
    ((run
        ((env, push 7 (row 1))
          ∷ (env, flush)
          ∷ (env, reader 1)
          ∷ (env, reader 1)
          ∷ (env, rollout)
          ∷ (env, no_reader 1)
          ∷ [])
        (new schema 5)).arrow_files
      ≡ (1, row 1 ∷ []) ∷ [])
    × ((run
          ((env, push 7 (row 1))
            ∷ (env, flush)
            ∷ (env, reader 1)
            ∷ (env, rollout)
            ∷ (env, no_reader 1)
            ∷ [])
          (new schema 5)).arrow_files
        ≡ [])
unfolding run project_repair str_discrete
kept_for_reader = (refl, refl)

-- An IPC file without rows, of an empty buffer that was flushed, ends the rollout: of the three files the
-- first is gone, with its row, and the others are pending and never rolled out.
empty_flush :
    let s =
      run ((env, capacities 1 3) ∷ (env, push 7 (row 1)) ∷ (env, flush) ∷ []) (new schema 1) in
    ((push_record env 8 (row 2) s).0 ≡ err read_failed)
    × (all_rows (push_record env 8 (row 2) s).1 ≡ row 2 ∷ [])
    × ((push_record env 8 (row 2) s).1.ipc_files ≡ [])
    × ((push_record env 8 (row 2) s).1.ipc_file_paths ≡ 2 ∷ 3 ∷ [])
unfolding run push_record all_rows project_repair str_discrete
empty_flush = (refl, refl, refl, refl)
