-- ===== src/Data/Runs.antt =====
-- All operations of `DataManager` in lib/pyroduct/src/pipeline/data.rs, in any order, whatever fails.
use pyroduct.Base.{
  ◌+◌, ◌<◌, ◌^◌, ℕ, ◌-◌, String, Option, none, some, List, [], ◌∷◌, Bool, true, Bool-cases, length,
  take, drop, ◌==◌, ◌≡◌, refl, arith, ◌⊎◌, inl, inr, if◌then◌else◌,
}
use pyroduct.Base.Maps.{set_entry, entry, drop_entry}
use pyroduct.Base.Outcome.{ok}
use pyroduct.Spec.Types.{PyroFields}
use pyroduct.Value.{PyroRow, empty}
use pyroduct.Data.{Env, DataManagerSharedState, DataManager, new, active_rows, all_rows}
use pyroduct.Data.Rollout.{
  contains, without, rollout_to_parquet_inner, add_reader, last_reader, read_by, remove_reader,
}
use pyroduct.Data.Writing.{flush_wal_inner, push_record, set_capacities, set_metadata_prefix}
use pyroduct.Data.Reading.{row_count, get_batch_slice, or_none}
use pyroduct.Data.Files.{Files, keys, Holds, Absent, Holds-drop_entry}
use pyroduct.Data.Valid.{Valid, PutOff}
use pyroduct.Data.RolledOut.{rollout-Done}
use pyroduct.Data.Flushing.{others-Valid, flush-Done}
use pyroduct.Data.Pushing.{push_record-Done}
use mathlib.Core.Path.{subst}
use pyroduct.Data.Slicing.{Documented, Joins, get_batch_slice_lem, row_count_lem}

pub data Op : Type 0 where
  push : ℕ → PyroRow → Op
  flush rollout : Op
  capacities : ℕ → ℕ → Op
  prefix : String → Op
  reader no_reader : ℕ → Op

-- The state after an operation, with what is outside at its time.
unfoldable pub apply : Env → Op → DataManager → DataManager
unfolding push_record flush_wal_inner rollout_to_parquet_inner set_capacities set_metadata_prefix
    add_reader remove_reader
apply env (push i row) s = (push_record env i row s).1
apply env flush s = (flush_wal_inner env s).1
apply env rollout s = (rollout_to_parquet_inner env s).1
apply env (capacities wal ipc) s = set_capacities wal ipc s
apply env (prefix p) s = set_metadata_prefix p s
apply env (reader id) s = add_reader id s
apply env (no_reader id) s = remove_reader id s

unfoldable pub run : List (Env × Op) → DataManager → DataManager
unfolding apply
run [] s = s
run ((env, op) ∷ ops) s = run ops (apply env op s)

pub new-Valid : (schema : PyroFields) (wal_capacity : ℕ) → Valid (new schema wal_capacity)
new-Valid schema wal_capacity = record {
  pending = [];
  rolled = [];
  stuck = [];
  listed = [];
  pending_split = refl;
  ipc_files = refl;
  ipc_paths = refl;
  ipc_counts = refl;
  ipc_held = tt;
  ipc_distinct = tt;
  ipc_below = tt;
  parquet_paths = refl;
  parquet_counts = refl;
  parquet_total = refl;
  parquet_held = tt;
  parquet_distinct = tt;
  parquet_below = tt;
  parquet_before = λ e. tt;
  put_off = tt;
}

-- Readers come and go: the deletions that are put off, and the files that are there.
shared-Valid :
    (s : DataManager) (dir : Files) (shared : DataManagerSharedState) (v : Valid s)
    → Holds dir v.pending
    → PutOff s.current_wal_id v.pending shared.pending_deletions
    → Valid (record s { arrow_files = dir; shared_state = shared })
shared-Valid s dir shared v h p = record {
  pending = v.pending;
  rolled = v.rolled;
  stuck = v.stuck;
  listed = v.listed;
  pending_split = v.pending_split;
  ipc_files = v.ipc_files;
  ipc_paths = v.ipc_paths;
  ipc_counts = v.ipc_counts;
  ipc_held = h;
  ipc_distinct = v.ipc_distinct;
  ipc_below = v.ipc_below;
  parquet_paths = v.parquet_paths;
  parquet_counts = v.parquet_counts;
  parquet_total = v.parquet_total;
  parquet_held = v.parquet_held;
  parquet_distinct = v.parquet_distinct;
  parquet_below = v.parquet_below;
  parquet_before = v.parquet_before;
  put_off = p;
}

found :
    (q id : ℕ) (rest : Bool) → (if q == id then true else rest) ≡ true → (q ≡ id) ⊎ (rest ≡ true)
found q id rest e = ground arith

PutOff-Absent :
    (next id : ℕ) (es : Files) (ids : List ℕ)
    → PutOff next es ids
    → contains ids id ≡ true
    → Absent id (keys es)
unfolding contains
PutOff-Absent next id es [] h e = absurd (cc e)
PutOff-Absent next id es (q ∷ ids) h e = elim (found q id (contains ids id) e) [
  | inl same ↦ subst (λ x. Absent x (keys es)) same h.0.1
  | inr later ↦ PutOff-Absent next id es ids h.1 later
]

PutOff-without :
    (next id : ℕ) (es : Files) (ids : List ℕ) → PutOff next es ids → PutOff next es (without id ids)
unfolding without
PutOff-without next id es [] h = tt
PutOff-without next id es (q ∷ ids) h = elim (Bool-cases (q == id)) [
  | inl e ↦ rw e (PutOff-without next id es ids h.1)
  | inr e ↦ rw e (h.0, PutOff-without next id es ids h.1)
]

last_reader-Valid : (id : ℕ) (s : DataManager) → Valid s → Valid (last_reader id s)
unfolding last_reader
last_reader-Valid id s v =
    let readers = drop_entry id s.shared_state.active_readers in
    elim (Bool-cases (contains s.shared_state.pending_deletions id)) [
      | inl e ↦ rw e (
          shared-Valid s (drop_entry id s.arrow_files)
            (record {
              active_readers = readers;
              pending_deletions = without id s.shared_state.pending_deletions;
            })
            v
            (Holds-drop_entry s.arrow_files v.pending id
              (PutOff-Absent s.current_wal_id id v.pending s.shared_state.pending_deletions
                v.put_off e)
              v.ipc_held)
            (PutOff-without s.current_wal_id id v.pending s.shared_state.pending_deletions
              v.put_off))
      | inr e ↦ rw e (
          shared-Valid s s.arrow_files (record s.shared_state { active_readers = readers }) v
            v.ipc_held v.put_off)
    ]

read_by-Valid : (r : Option ℕ) (id : ℕ) (s : DataManager) → Valid s → Valid (read_by r id s)
unfolding read_by
read_by-Valid none id s v = v
read_by-Valid (some n) id s v = elim (Bool-cases (n - 1 == 0)) [
  | inl e ↦ rw e (last_reader-Valid id s v)
  | inr e ↦ rw e (
      shared-Valid s s.arrow_files
        (record s.shared_state {
          active_readers = set_entry id (n - 1) s.shared_state.active_readers;
        })
        v v.ipc_held v.put_off)
]

pub apply-Valid : (env : Env) (op : Op) (s : DataManager) → Valid s → Valid (apply env op s)
unfolding apply set_capacities set_metadata_prefix add_reader remove_reader
apply-Valid env (push i row) s v = (push_record-Done env i row empty s v).0
apply-Valid env flush s v = (flush-Done env s v).0
apply-Valid env rollout s v = (rollout-Done env s v).0
apply-Valid env (capacities wal ipc) s v =
    others-Valid s s.schema s.wal_manager wal ipc s.metadata_prefix v
apply-Valid env (prefix p) s v = others-Valid s _ _ s.wal_capacity s.ipc_capacity (some p) v
apply-Valid env (reader id) s v =
    shared-Valid s s.arrow_files (add_reader id s).shared_state v v.ipc_held v.put_off
apply-Valid env (no_reader id) s v = read_by-Valid (entry id s.shared_state.active_readers) id s v

pub run-Valid : (ops : List (Env × Op)) (s : DataManager) → Valid s → Valid (run ops s)
unfolding run
run-Valid [] s v = v
run-Valid ((env, op) ∷ ops) s v = run-Valid ops (apply env op s) (apply-Valid env op s v)

-- Whatever operations a new manager has been through, in any order, and whatever failed, the number of
-- rows that it gives is that of the rows it keeps, and a slice is that slice of them, whichever files and
-- buffers it crosses, where every file can be read, the batches and the slices can be concatenated under
-- the schema as it is, the active rows make a record batch, and the end of the slice is below 2 ^ 64.
pub run_rows :
    (schema : PyroFields) (wal_capacity : ℕ) (ops : List (Env × Op)) (env : Env) (offset limit : ℕ)
    → Documented env
    → Joins env
    → env.build_ok (active_rows (run ops (new schema wal_capacity))) ≡ true
    → offset + limit < 2 ^ 64
    → let s = run ops (new schema wal_capacity) in
      (row_count s ≡ length (all_rows s))
      × (get_batch_slice env s offset limit ≡ ok (or_none (take limit (drop offset (all_rows s)))))
run_rows schema wal_capacity ops env offset limit doc joins b bound =
    let v = run-Valid ops (new schema wal_capacity) (new-Valid schema wal_capacity) in
    (row_count_lem _ v, get_batch_slice_lem env _ offset limit doc joins v b bound)
