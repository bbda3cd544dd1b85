-- ===== src/Data/Pushing.antt =====
-- `push_record` of lib/pyroduct/src/pipeline/data.rs: the invariant, and the row that it adds.
use pyroduct.Base.{
  false, ℕ, ◌+◌, Option, none, some, List, [], ◌∷◌, ◌++◌, Bool-cases, length, leb, append_assoc,
  ◌≡◌, refl, ap, ◌∙◌, arith, inl, inr,
}
use pyroduct.Base.Exec.{◌>>=◌}
use pyroduct.Base.Outcome.{Result, ok, err}
use pyroduct.Value.{PyroRow}
use pyroduct.Value.Repair.{project_repair}
use pyroduct.Value.Repair.Scalars.{ScalarRepairError}
use pyroduct.Data.{Env, CurrentData, empty_data, DataManager, active_rows, all_rows}
use pyroduct.Data.Writing.{
  opened, ensure_wal_manager, with_metadata, repaired, buffered, in_wal, push_row, append_row,
  flush_if_full, push_record,
}
use pyroduct.Data.Files.{keys, Below-wider}
use pyroduct.Data.Valid.{Valid, PutOff}
use pyroduct.Data.Rollout.{is_nil}
use pyroduct.Data.RolledOut.{Done, Smooth}
use pyroduct.Data.Flushing.{with_wal-Valid, Filled, flush-Done}

flush_if_full-Done :
    (env : Env) (s : DataManager)
    → Valid s
    → Done (Smooth env s × Filled s.wal_manager) (all_rows s) (flush_if_full env s)
unfolding flush_if_full
flush_if_full-Done env s v = elim (Bool-cases (leb s.wal_capacity (length (active_rows s)))) [
  | inl full ↦ rw full (flush-Done env s v)
  | inr not_full ↦ rw not_full (v, λ ((all_ok, clear), filled). (refl, refl, clear))
]

not_nil : (rows : List PyroRow) (row : PyroRow) → is_nil (rows ++ row ∷ []) ≡ false
not_nil [] row = refl
not_nil (r ∷ rows) row = refl

PutOff-next :
    (next : ℕ) (es : List (ℕ × List PyroRow)) (ids : List ℕ)
    → PutOff next es ids
    → PutOff (next + 1) es ids
PutOff-next next es [] h = tt
PutOff-next next es (q ∷ ids) h = ((omega (arith, h.0.0), h.0.1), PutOff-next next es ids h.1)

pub next_wal-Valid :
    (s : DataManager) → Valid s → Valid (record s { current_wal_id = s.current_wal_id + 1 })
next_wal-Valid s v =
    let id = s.current_wal_id in
    record {
      pending = v.pending;
      rolled = v.rolled;
      stuck = v.stuck;
      listed = v.listed;
      pending_split = v.pending_split;
      ipc_files = v.ipc_files;
      ipc_paths = v.ipc_paths;
      ipc_counts = v.ipc_counts;
      ipc_held = v.ipc_held;
      ipc_distinct = v.ipc_distinct;
      ipc_below = Below-wider id (id + 1) (keys v.pending) (omega arith) v.ipc_below;
      parquet_paths = v.parquet_paths;
      parquet_counts = v.parquet_counts;
      parquet_total = v.parquet_total;
      parquet_held = v.parquet_held;
      parquet_distinct = v.parquet_distinct;
      parquet_below =
          Below-wider (id + 1) (id + 1 + 1) (keys v.rolled) (omega arith) v.parquet_below;
      parquet_before = λ e. v.parquet_below;
      put_off = PutOff-next id v.pending s.shared_state.pending_deletions v.put_off;
    }

ok_inj : (a b : PyroRow) → Path (Result PyroRow ScalarRepairError) (ok a) (ok b) → a ≡ b
ok_inj a b e = cc e

all_rows-buffered :
    (i : ℕ) (row : PyroRow) (d : CurrentData) (s : DataManager)
    → all_rows (record s { wal_manager = some (buffered i row d) })
      ≡ all_rows (record s { wal_manager = some d }) ++ row ∷ []
unfolding all_rows buffered
all_rows-buffered i row d s = simp append_assoc

-- A row that is repaired is behind the others, also where it could not be sent to the WAL.
appended-Done :
    (env : Env) (i : ℕ) (row row' : PyroRow) (d : CurrentData) (s : DataManager)
    (r : Result PyroRow ScalarRepairError)
    → project_repair env.std s.schema row ≡ r
    → Valid s
    → Done
        (Smooth env s × (r ≡ ok row'))
        (all_rows (record s { wal_manager = some d }) ++ row' ∷ [])
        ((append_row env i row >>= λ _. flush_if_full env) (record s { wal_manager = some d }))
unfolding append_row push_row repaired in_wal buffered
appended-Done env i row row' d s (err x) e v = elim (Bool-cases (env.ship_ok row)) [
  | inl good ↦ rw (good, e) (with_wal-Valid s (some d) v, λ p. absurd (cc p.1))
  | inr bad ↦ rw bad (with_wal-Valid s (some d) v, λ p. absurd (cc (p.0.0.ship row, bad)))
]
appended-Done env i row row' d s (ok q) e v =
    let s' = record s { wal_manager = some (buffered i q d) } in
    let v' = with_wal-Valid s (some (buffered i q d)) v in
    let (valid, kept) = flush_if_full-Done env s' v' in
    let before = all_rows (record s { wal_manager = some d }) in
    elim (Bool-cases (env.ship_ok row)) [
      | inl good ↦ elim (Bool-cases (env.send_ok i)) [
        | inl sent ↦
            rw (good, e, sent)
              (
                valid,
                λ p.
                    let (done, rows, clear) = kept (p.0, not_nil d.prebatch q) in
                    (
                      done,
                      rows
                          ∙ all_rows-buffered i q d s
                          ∙ ap (λ t. before ++ t ∷ []) (ok_inj q row' p.1),
                      clear,
                    ),
              )
        | inr lost ↦ rw (good, e, lost) (v', λ p. absurd (cc (p.0.0.send i, lost)))
      ]
      | inr bad ↦ rw bad (with_wal-Valid s (some d) v, λ p. absurd (cc (p.0.0.ship row, bad)))
    ]

-- The condition on which a push adds a row: nothing outside fails, and the row is repaired to this one.
abbrev pub Pushes : Env → DataManager → ℕ → PyroRow → PyroRow → Type 0
Pushes env s i row row' =
    Smooth env s
    × (project_repair env.std s.schema (with_metadata env s.metadata_prefix i row) ≡ ok row')

pushed-Done :
    (env : Env) (i : ℕ) (row row' : PyroRow) (wal : Option CurrentData) (s : DataManager)
    → Valid s
    → Done
        (Pushes env s i row row')
        (all_rows (record s { wal_manager = wal }) ++ row' ∷ [])
        (push_record env i row (record s { wal_manager = wal }))
unfolding push_record ensure_wal_manager opened all_rows
pushed-Done env i row row' (some d) s v =
    appended-Done env i (with_metadata env s.metadata_prefix i row) row' d s _ refl v
pushed-Done env i row row' none s v =
    let s' = record s { current_wal_id = s.current_wal_id + 1 } in
    elim (Bool-cases (env.open_ok (s.current_wal_id + 1))) [
      | inl good ↦ rw good (
          appended-Done env i (with_metadata env s.metadata_prefix i row) row' empty_data s' _ refl
            (next_wal-Valid s v))
      | inr bad ↦ rw bad (
        with_wal-Valid s' none (next_wal-Valid s v),
        λ p. absurd (cc (p.0.0.open_file (s.current_wal_id + 1), bad)),
      )
    ]

pub push_record-Done :
    (env : Env) (i : ℕ) (row row' : PyroRow) (s : DataManager)
    → Valid s
    → Done (Pushes env s i row row') (all_rows s ++ row' ∷ []) (push_record env i row s)
push_record-Done env i row row' s v = pushed-Done env i row row' s.wal_manager s v
