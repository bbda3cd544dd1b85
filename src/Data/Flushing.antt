-- ===== src/Data/Flushing.antt =====
-- Flushing in lib/pyroduct/src/pipeline/data.rs: the invariant, and the rows that are kept.
use pyroduct.Base.{
  ◌==◌, All, ℕ, ◌+◌, String, Option, none, some, List, [], ◌∷◌, ◌++◌, Bool, true, false, ◌||◌,
  Bool-cases, length, leb, append_assoc, append-nil, ◌≡◌, ◌≢◌, refl, sym, ap, ◌∙◌, arith, inl, inr,
}
use pyroduct.Base.Maps.{entry, entry-set_entry, set_entry, entry-set_entry_self}
use pyroduct.Base.Exec.{ensure, ◌>>◌}
use pyroduct.Base.Outcome.{Result}
use pyroduct.Spec.Types.{PyroFields}
use pyroduct.Value.{PyroRow}
use pyroduct.Data.{
  Env, DataError, CurrentData, empty_data, DataManager, Operation, all_rows, or_nothing,
}
use pyroduct.Data.Rollout.{is_nil}
use pyroduct.Data.Writing.{flushed, rollout_if_full, flush_data, flush_wal_inner}
use pyroduct.Data.Files.{
  Files, keys, contents, Absent, Below, Below-wider, Below-Absent, Below-append, All-append,
  Distinct, Distinct-append, Holds-append, Holds-set_entry, set_entry-counts, contents-append,
  keys-append,
}
use pyroduct.Data.Valid.{Valid, PutOff, all_rows-Valid}
use pyroduct.Data.RolledOut.{Done, Clear, Smooth, rollout-Done}
use mathlib.Core.Path.{subst}

-- The invariant does not speak of these fields.
pub others-Valid :
    (s : DataManager) (schema : PyroFields) (wal : Option CurrentData)
    (wal_capacity ipc_capacity : ℕ) (prefix : Option String)
    → Valid s
    → Valid (record s {
      schema = schema;
      wal_manager = wal;
      wal_capacity = wal_capacity;
      ipc_capacity = ipc_capacity;
      metadata_prefix = prefix;
    })
others-Valid s schema wal wal_capacity ipc_capacity prefix v = record {
  pending = v.pending;
  rolled = v.rolled;
  stuck = v.stuck;
  listed = v.listed;
  pending_split = v.pending_split;
  ipc_files = v.ipc_files;
  ipc_paths = v.ipc_paths;
  ipc_counts = v.ipc_counts;
  ipc_held = v.ipc_held;
  ipc_distinct = v.ipc_distinct;
  ipc_below = v.ipc_below;
  parquet_paths = v.parquet_paths;
  parquet_counts = v.parquet_counts;
  parquet_total = v.parquet_total;
  parquet_held = v.parquet_held;
  parquet_distinct = v.parquet_distinct;
  parquet_below = v.parquet_below;
  parquet_before = v.parquet_before;
  put_off = v.put_off;
}

pub with_wal-Valid :
    (s : DataManager) (wal : Option CurrentData) → Valid s → Valid (record s { wal_manager = wal })
with_wal-Valid s wal v =
    others-Valid s s.schema wal s.wal_capacity s.ipc_capacity s.metadata_prefix v

pub Done-weaken :
    {P Q : Type 0} (rows : List PyroRow) (r : Result (Unit {0}) DataError × DataManager)
    → (P → Q)
    → Done Q rows r
    → Done P rows r
Done-weaken rows r f h = (h.0, λ p. h.1 (f p))

pub ensure-Done :
    (P : Type 0) (rows : List PyroRow) (b : Bool) (e : DataError) (m : Operation (Unit {0}))
    (s : DataManager)
    → Valid s
    → (P → b ≡ true)
    → Done P rows (m s)
    → Done P rows ((ensure b e >> m) s)
ensure-Done P rows true e m s v h k = k
ensure-Done P rows false e m s v h k = (v, λ p. absurd (cc (h p)))

PutOff-append :
    (next : ℕ) (es : Files) (r : List PyroRow) (ids : List ℕ)
    → PutOff next es ids
    → PutOff (next + 1) (es ++ (next, r) ∷ []) ids
PutOff-append next es r [] h = tt
PutOff-append next es r (q ∷ ids) h = (
  (
    omega (arith, h.0.0),
    subst (Absent q) (sym (keys-append es next r))
        (All-append (λ x. x ≢ q) (keys es) next h.0.1 (λ e. absurd (omega (arith, e, h.0.0)))),
  ),
  PutOff-append next es r ids h.1,
)

pub flushed-Valid :
    (s : DataManager) (d : CurrentData) → Valid s → Valid (flushed s.current_wal_id d s)
unfolding flushed
flushed-Valid s d v =
    let id = s.current_wal_id in
    let r = d.prebatch in
    let new_id = Below-Absent id (keys v.pending) v.ipc_below in
    let at_end = λ (ids : List ℕ) (es : Files) (e : ids ≡ keys es).
      ap (λ t. t ++ id ∷ []) e ∙ sym (keys-append es id r) in
    record {
      pending = v.pending ++ (id, r) ∷ [];
      rolled = v.rolled;
      stuck = v.stuck;
      listed = v.listed ++ (id, r) ∷ [];
      pending_split =
          ap (λ t. t ++ (id, r) ∷ []) v.pending_split
          ∙ append_assoc v.stuck v.listed ((id, r) ∷ []);
      ipc_files = at_end s.ipc_files v.listed v.ipc_files;
      ipc_paths = at_end s.ipc_file_paths v.pending v.ipc_paths;
      ipc_counts =
          ap (set_entry id (length r)) v.ipc_counts ∙ set_entry-counts v.pending id r new_id;
      ipc_held =
          Holds-append (set_entry id r s.arrow_files) v.pending id r
            (Holds-set_entry s.arrow_files v.pending id r new_id v.ipc_held)
            (entry-set_entry_self id r s.arrow_files);
      ipc_distinct =
          subst Distinct (sym (keys-append v.pending id r))
            (Distinct-append (keys v.pending) id v.ipc_distinct new_id);
      ipc_below = subst (Below (id + 1)) (sym (keys-append v.pending id r)) (
          Below-append (id + 1) id (keys v.pending)
            (Below-wider id (id + 1) (keys v.pending) (omega arith) v.ipc_below) (omega arith));
      parquet_paths = v.parquet_paths;
      parquet_counts = v.parquet_counts;
      parquet_total = v.parquet_total;
      parquet_held = v.parquet_held;
      parquet_distinct = v.parquet_distinct;
      parquet_below =
          Below-wider (id + 1) (id + 1 + 1) (keys v.rolled) (omega arith) v.parquet_below;
      parquet_before = λ e. v.parquet_below;
      put_off = PutOff-append id v.pending r s.shared_state.pending_deletions v.put_off;
    }

-- The rows of the buffer are those of the new file.
all_rows-flushed :
    (s : DataManager) (d : CurrentData)
    → Valid s
    → all_rows (flushed s.current_wal_id d (record s { wal_manager = some empty_data }))
      ≡ all_rows (record s { wal_manager = some d })
unfolding flushed flushed-Valid with_wal-Valid others-Valid
all_rows-flushed s d v =
    let s' = record s { wal_manager = some empty_data } in
    let v' = with_wal-Valid s (some empty_data) v in
    all_rows-Valid (flushed s.current_wal_id d s') (flushed-Valid s' d v')
    ∙ ap (λ t. contents v.rolled ++ t)
        (append-nil _ ∙ contents-append v.pending s.current_wal_id d.prebatch)
    ∙ sym (all_rows-Valid (record s { wal_manager = some d }) (with_wal-Valid s (some d) v))

rollout_if_full-Done :
    (env : Env) (s : DataManager)
    → Valid s
    → Done (Smooth env s) (all_rows s) (rollout_if_full env s)
unfolding rollout_if_full
rollout_if_full-Done env s v = elim (Bool-cases (leb s.ipc_capacity (length s.ipc_files))) [
  | inl full ↦ rw full (rollout-Done env s v)
  | inr not_full ↦ rw not_full (v, λ (all_ok, clear). (refl, refl, clear))
]

-- The buffer of the WAL, where there is one, has rows.
abbrev pub Filled : Option CurrentData → Type 0
Filled none = Unit
Filled (some d) = is_nil d.prebatch ≡ false

full_files :
    (id : ℕ) (rows : List PyroRow) (dir : Files) (ids : List ℕ)
    → Below id ids
    → is_nil rows ≡ false
    → All (λ j. is_nil (or_nothing (entry j dir)) ≡ false) ids
    → All (λ j. is_nil (or_nothing (entry j (set_entry id rows dir))) ≡ false) (ids ++ id ∷ [])
full_files id rows dir [] b full h = (rw (entry-set_entry_self id rows dir) full, tt)
full_files id rows dir (j ∷ ids) b full h =
    let other : (id == j) ≡ false = ground (arith, b.0) in
    ((rw (entry-set_entry j id rows dir, other) h.0), full_files id rows dir ids b.1 full h.1)

Below-behind : (n : ℕ) (st es : Files) → Below n (keys (st ++ es)) → Below n (keys es)
Below-behind n [] es b = b
Below-behind n ((id, r) ∷ st) es b = Below-behind n st es b.1

-- A flush leaves every file to the next rollout, and none is empty.
pub flushed-Clear :
    (s : DataManager) (d : CurrentData)
    → Valid s
    → is_nil d.prebatch ≡ false
    → Clear s
    → Clear (flushed s.current_wal_id d s)
unfolding flushed
flushed-Clear s d v full (same, h) =
    let id = s.current_wal_id in
    let below = subst (Below id) (sym v.ipc_files) (
      Below-behind id v.stuck v.listed
        (subst (λ es. Below id (keys es)) v.pending_split v.ipc_below)) in
    (
      ap (λ ids. ids ++ id ∷ []) same,
      full_files id d.prebatch s.arrow_files s.ipc_files below full h,
    )

flush_data-Done :
    (env : Env) (s : DataManager) (wal : Option CurrentData)
    → Valid s
    → Done
        (Smooth env s × Filled wal)
        (all_rows (record s { wal_manager = wal }))
        (flush_data env wal (record s { wal_manager = wal }))
unfolding flush_data
flush_data-Done env s none v =
    (with_wal-Valid s none v, λ ((all_ok, clear), full). (refl, refl, clear))
flush_data-Done env s (some d) v =
    let P = Smooth env s × Filled (some d) in
    let id = s.current_wal_id in
    let s' = record s { wal_manager = some empty_data } in
    let v' = with_wal-Valid s (some empty_data) v in
    let v'' = with_wal-Valid s (some d) v in
    let rows = all_rows (record s { wal_manager = some d }) in
    let rolled =
      Done-weaken {P = P} _ _ (λ p. (p.0.0, flushed-Clear s' d v' p.1 p.0.1))
        (rollout_if_full-Done env (flushed id d s') (flushed-Valid s' d v')) in
    ensure-Done P rows (env.open_ok (id + 1)) _ _ _ v'' (λ p. p.0.0.open_file _)
      (ensure-Done P rows (is_nil d.prebatch || env.build_ok d.prebatch) _ _ _ v''
        (λ p. ground (arith, p.0.0.build d.prebatch))
        (ensure-Done P rows (env.rotate_ok id) _ _ s' v' (λ p. p.0.0.rotate _)
          (ensure-Done P rows (env.write_ipc_ok id) _ _ s' v' (λ p. p.0.0.write_ipc _)
            (subst (λ t. Done P t (rollout_if_full env (flushed id d s'))) (all_rows-flushed s d v)
              rolled))))

pub flush-Done :
    (env : Env) (s : DataManager)
    → Valid s
    → Done (Smooth env s × Filled s.wal_manager) (all_rows s) (flush_wal_inner env s)
unfolding flush_wal_inner
flush-Done env s v = flush_data-Done env s s.wal_manager v
