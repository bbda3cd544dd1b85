-- ===== src/Data/Rollout.antt =====
-- lib/pyroduct/src/pipeline/data.rs: pending IPC files rolled out to a Parquet file, and the readers
-- that put off their deletion.
use pyroduct.Base.{
  ℕ, ◌+◌, ◌-◌, Option, none, some, List, [], ◌∷◌, ◌++◌, Bool, true, false, not, ◌&&◌, ◌==◌,
  if◌then◌else◌,
}
use pyroduct.Base.Exec.{Exec, ◌>>◌}
use pyroduct.Base.Outcome.{Result, ok, err}
use pyroduct.Base.Maps.{set_entry, entry, drop_entry}
use pyroduct.Value.{PyroRow}
use pyroduct.Data.{Env, DataError, write_failed, read_failed, DataManager, Operation, or_zero}

abbrev pub is_some {ℓ} : {A : Type ℓ} → Option A → Bool
is_some none = false
is_some (some a) = true

abbrev pub is_nil {ℓ} : {A : Type ℓ} → List A → Bool
is_nil [] = true
is_nil (x ∷ xs) = false

unfoldable pub contains : List ℕ → ℕ → Bool
contains [] id = false
contains (x ∷ xs) id = let rest = contains xs id in if x == id then true else rest

-- Every occurrence goes, as with `retain`.
unfoldable pub without : ℕ → List ℕ → List ℕ
without id [] = []
without id (x ∷ xs) = let rest = without id xs in if x == id then rest else x ∷ rest

unfoldable pub concat : List (List PyroRow) → List PyroRow
concat [] = []
concat (b ∷ bs) = b ++ concat bs

-- A file that is read is left for its last reader to delete.
unfoldable pub deleted : ℕ → DataManager → DataManager
unfolding drop_entry
deleted id s =
    if is_some (entry id s.shared_state.active_readers)
    then record s {
      shared_state = record s.shared_state {
        pending_deletions = id ∷ s.shared_state.pending_deletions;
      };
    }
    else record s { arrow_files = drop_entry id s.arrow_files }

unfoldable pub released : ℕ → DataManager → DataManager
unfolding drop_entry without deleted
released id s = deleted id (record s {
  ipc_row_counts = drop_entry id s.ipc_row_counts;
  ipc_file_paths = without id s.ipc_file_paths;
})

-- The batches and the number of their rows, and the state.
abbrev pub Rolling : Type 0
Rolling = List (List PyroRow) × ℕ × DataManager

-- A file of the loop: its batch and its rows are added, where it exists. One that cannot be read, or that
-- has no rows, ends the loop.
unfoldable pub roll_file : Env → Option (List PyroRow) → ℕ → Exec Rolling DataError (Unit {0})
unfolding released
roll_file env none id x = (ok tt, x)
roll_file env (some rows) id (batches, count, s) =
    if env.read_ipc_ok id && not (is_nil rows)
    then (ok tt, (batches ++ rows ∷ [], count + or_zero (entry id s.ipc_row_counts), released id s))
    else (err read_failed, (batches, count, s))

unfoldable pub roll_files : Env → List ℕ → Exec Rolling DataError (Unit {0})
unfolding roll_file
roll_files env [] x = (ok tt, x)
roll_files env (id ∷ ids) x = (roll_file env (entry id x.2.arrow_files) id >> roll_files env ids) x

unfoldable pub map_to_parquet : ℕ → List ℕ → List (ℕ × ℕ) → List (ℕ × ℕ)
unfolding set_entry
map_to_parquet rollout_id [] table = table
map_to_parquet rollout_id (id ∷ ids) table =
    map_to_parquet rollout_id ids (set_entry id rollout_id table)

unfoldable pub write_rollout : Env → ℕ → List ℕ → List (List PyroRow) → ℕ → Operation Unit
unfolding concat map_to_parquet set_entry
write_rollout env rollout_id files batches count s =
    if is_nil batches
    then (ok tt, s)
    else if env.write_parquet_ok rollout_id
    then (
      ok tt,
      record s {
        parquet_files = set_entry rollout_id (concat batches) s.parquet_files;
        total_parquet_rows = s.total_parquet_rows + count;
        parquet_row_counts = set_entry rollout_id count s.parquet_row_counts;
        parquet_file_paths = s.parquet_file_paths ++ rollout_id ∷ [];
        wal_to_parquet = map_to_parquet rollout_id files s.wal_to_parquet;
      },
    )
    else (err write_failed, s)

-- What follows the loop, where it did not end early.
unfoldable pub rolled_files :
    Env
    → ℕ
    → List ℕ
    → Result (Unit {0}) DataError × Rolling
    → Result (Unit {0}) DataError × DataManager
unfolding write_rollout
rolled_files env rollout_id files (ok _, (batches, count, s)) =
    write_rollout env rollout_id files batches count s
rolled_files env rollout_id files (err e, (batches, count, s)) = (err e, s)

-- The body for the files that were pending.
unfoldable pub rollout_files : Env → List ℕ → Operation Unit
unfolding roll_files rolled_files
rollout_files env files s =
    let r = roll_files env files ([], 0, record s { ipc_files = [] }) in
    if is_nil files then (ok tt, s) else rolled_files env s.current_wal_id files r

unfoldable pub rollout_to_parquet_inner : Env → Operation Unit
unfolding rollout_files
rollout_to_parquet_inner env s = rollout_files env s.ipc_files s

unfoldable pub add_reader : ℕ → DataManager → DataManager
unfolding set_entry entry
add_reader id s = record s {
  shared_state = record s.shared_state {
    active_readers =
        set_entry id (or_zero (entry id s.shared_state.active_readers) + 1)
          s.shared_state.active_readers;
  };
}

-- The last reader of a file whose deletion was put off deletes it.
unfoldable pub last_reader : ℕ → DataManager → DataManager
unfolding contains without drop_entry
last_reader id s =
    let s' = record s {
      shared_state = record s.shared_state {
        active_readers = drop_entry id s.shared_state.active_readers;
      };
    } in
    if contains s.shared_state.pending_deletions id
    then record s' {
      arrow_files = drop_entry id s.arrow_files;
      shared_state = record s'.shared_state {
        pending_deletions = without id s.shared_state.pending_deletions;
      };
    }
    else s'

unfoldable pub read_by : Option ℕ → ℕ → DataManager → DataManager
unfolding last_reader set_entry
read_by none id s = s
read_by (some n) id s = if n - 1 == 0 then last_reader id s else record s {
  shared_state = record s.shared_state {
    active_readers = set_entry id (n - 1) s.shared_state.active_readers;
  };
}

unfoldable pub remove_reader : ℕ → DataManager → DataManager
unfolding read_by entry
remove_reader id s = read_by (entry id s.shared_state.active_readers) id s
