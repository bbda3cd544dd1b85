-- ===== src/Data/RolledOut.antt =====
-- Rolling out in lib/pyroduct/src/pipeline/data.rs: the invariant, and the rows that are kept.
use pyroduct.Base.{
  ℕ, ◌+◌, List, [], ◌∷◌, ◌++◌, false, Bool-cases, length, length-append, append_assoc, ◌≡◌, refl,
  sym, ap, ◌∙◌, arith, inl, inr, All, true, append-nil,
}
use pyroduct.Base.Maps.{set_entry, entry, entry-set_entry_self}
use pyroduct.Base.Outcome.{Result, ok}
use pyroduct.Value.{PyroRow}
use pyroduct.Data.{
  Env, DataError, DataManagerSharedState, DataManager, active_rows, all_rows, or_nothing,
}
use pyroduct.Data.Rollout.{
  is_nil, concat, map_to_parquet, write_rollout, rolled_files, rollout_files,
  rollout_to_parquet_inner,
}
use pyroduct.Data.Files.{
  Files, keys, counts, batches, contents, Holds, Distinct, Below, concat-batches, Below-Absent,
  Below-append, Distinct-append, Holds-append, Holds-set_entry, set_entry-counts, contents-append,
  keys-append,
}
use pyroduct.Data.Valid.{Valid, AllOk, all_rows-Valid}
use mathlib.Core.Path.{subst}
use pyroduct.Data.Rolling.{with_ipc, Pending, readable, AllReadable, roll_files_lem}

pub is_nil-batches : (es : Files) → is_nil (batches es) ≡ is_nil (keys es)
is_nil-batches [] = refl
is_nil-batches ((id, r) ∷ es) = refl

is_nil-keys : (es : Files) → is_nil (keys es) ≡ is_nil es
is_nil-keys [] = refl
is_nil-keys ((id, r) ∷ es) = refl

-- The next rollout takes every pending IPC file, and none of them is empty.
abbrev pub Clear : DataManager → Type 0
Clear s =
    (s.ipc_file_paths ≡ s.ipc_files)
    × All (λ id. is_nil (or_nothing (entry id s.arrow_files)) ≡ false) s.ipc_files

length-keys : (es : Files) → length (keys es) ≡ length es
length-keys [] = refl
length-keys ((id, r) ∷ es) = omega (arith, length-keys es)

none_stuck : (st es : Files) → keys (st ++ es) ≡ keys es → st ≡ []
none_stuck [] es e = refl
none_stuck (x ∷ st) es e = absurd (
    omega
      (arith, sym (length-keys (x ∷ st ++ es)) ∙ ap length e ∙ length-keys es, length-append st es))

Holds-behind : (dir st es : Files) → Holds dir (st ++ es) → Holds dir es
Holds-behind dir [] es h = h
Holds-behind dir ((id, r) ∷ st) es h = Holds-behind dir st es h.1

nonempty_readable :
    (env : Env) (dir es : Files)
    → ((id : ℕ) → env.read_ipc_ok id ≡ true)
    → Holds dir es
    → All (λ id. is_nil (or_nothing (entry id dir)) ≡ false) (keys es)
    → AllReadable env es
nonempty_readable env dir [] reads h c = tt
nonempty_readable env dir ((id, r) ∷ es) reads h c = (
  rw (reads id, ap (λ t. is_nil (or_nothing t)) (sym h.0) ∙ c.0) refl,
  nonempty_readable env dir es reads h.1 c.1,
)

-- Where the next rollout takes every file, none is stuck, and each can be read.
pub Clear-Valid :
    (env : Env) (s : DataManager) (v : Valid s)
    → ((id : ℕ) → env.read_ipc_ok id ≡ true)
    → Clear s
    → (v.stuck ≡ []) × AllReadable env v.listed
Clear-Valid env s v reads (same, full) = (
  none_stuck v.stuck v.listed
      (sym (ap keys v.pending_split) ∙ sym v.ipc_paths ∙ same ∙ v.ipc_files),
  nonempty_readable env s.arrow_files v.listed reads
      (Holds-behind s.arrow_files v.stuck v.listed
        (subst (Holds s.arrow_files) v.pending_split v.ipc_held))
      (subst (All (λ id. is_nil (or_nothing (entry id s.arrow_files)) ≡ false)) v.ipc_files full),
)

-- The state behind the loop, and behind a Parquet file that was written.
abbrev pub emptied_state : DataManager → Files → Files → DataManagerSharedState → DataManager
emptied_state s p dir shared = with_ipc (record s { ipc_files = [] }) p dir shared

rolled_out : DataManager → Files → Files → Files → DataManagerSharedState → DataManager
rolled_out s es p dir shared = record (emptied_state s p dir shared) {
  parquet_files = set_entry s.current_wal_id (concat (batches es)) s.parquet_files;
  total_parquet_rows = s.total_parquet_rows + length (contents es);
  parquet_row_counts = set_entry s.current_wal_id (length (contents es)) s.parquet_row_counts;
  parquet_file_paths = s.parquet_file_paths ++ s.current_wal_id ∷ [];
  wal_to_parquet = map_to_parquet s.current_wal_id (keys es) s.wal_to_parquet;
}

module _ (s : DataManager) (v : Valid s) (p dir : Files) (shared : DataManagerSharedState)
    (h : Pending s.current_wal_id dir shared p) where
  pub emptied_state-Valid : Valid (emptied_state s p dir shared)
  emptied_state-Valid = record {
    pending = p;
    rolled = v.rolled;
    stuck = p;
    listed = [];
    pending_split = sym (append-nil p);
    ipc_files = refl;
    ipc_paths = refl;
    ipc_counts = refl;
    ipc_held = h.held;
    ipc_distinct = h.distinct;
    ipc_below = h.below;
    parquet_paths = v.parquet_paths;
    parquet_counts = v.parquet_counts;
    parquet_total = v.parquet_total;
    parquet_held = v.parquet_held;
    parquet_distinct = v.parquet_distinct;
    parquet_below = v.parquet_below;
    parquet_before = λ e. absurd (cc e);
    put_off = h.put_off;
  }

  rolled_out-Valid :
      Below s.current_wal_id (keys v.rolled) → Valid (rolled_out s v.listed p dir shared)
  unfolding rolled_out
  rolled_out-Valid before =
      let id = s.current_wal_id in
      let r = concat (batches v.listed) in
      let size : length r ≡ length (contents v.listed) = ap length (concat-batches v.listed) in
      let new_id = Below-Absent id (keys v.rolled) before in
      record {
        pending = p;
        stuck = p;
        listed = [];
        pending_split = sym (append-nil p);
        rolled = v.rolled ++ (id, r) ∷ [];
        ipc_files = refl;
        ipc_paths = refl;
        ipc_counts = refl;
        ipc_held = h.held;
        ipc_distinct = h.distinct;
        ipc_below = h.below;
        parquet_paths =
            ap (λ ids. ids ++ id ∷ []) v.parquet_paths ∙ sym (keys-append v.rolled id r);
        parquet_counts =
            ap (λ k. set_entry id k s.parquet_row_counts) (sym size)
            ∙ ap (set_entry id (length r)) v.parquet_counts
            ∙ set_entry-counts v.rolled id r new_id;
        parquet_total = omega (
          arith,
          v.parquet_total,
          size,
          ap length (contents-append v.rolled id r),
          length-append (contents v.rolled) r,
        );
        parquet_held =
            Holds-append (set_entry id r s.parquet_files) v.rolled id r
              (Holds-set_entry s.parquet_files v.rolled id r new_id v.parquet_held)
              (entry-set_entry_self id r s.parquet_files);
        parquet_distinct =
            subst Distinct (sym (keys-append v.rolled id r))
              (Distinct-append (keys v.rolled) id v.parquet_distinct new_id);
        parquet_below =
            subst (Below (id + 1)) (sym (keys-append v.rolled id r))
              (Below-append (id + 1) id (keys v.rolled) v.parquet_below (omega arith));
        parquet_before = λ e. absurd (cc e);
        put_off = h.put_off;
      }

  all_rows-rolled_out :
      Below s.current_wal_id (keys v.rolled)
      → v.stuck ≡ []
      → p ≡ []
      → all_rows (rolled_out s v.listed p dir shared) ≡ all_rows s
  unfolding rolled_out rolled_out-Valid
  all_rows-rolled_out before free none_left =
      let id = s.current_wal_id in
      let r = concat (batches v.listed) in
      let all_listed : v.listed ≡ v.pending =
        sym (v.pending_split ∙ ap (λ st. st ++ v.listed) free) in
      all_rows-Valid (rolled_out s v.listed p dir shared) (rolled_out-Valid before)
      ∙ ap (λ t. contents (v.rolled ++ (id, r) ∷ []) ++ (contents t ++ active_rows s)) none_left
      ∙ ap (λ t. t ++ active_rows s)
          (contents-append v.rolled id r
            ∙ ap (λ t. contents v.rolled ++ t) (concat-batches v.listed ∙ ap contents all_listed))
      ∙ append_assoc (contents v.rolled) (contents v.pending) (active_rows s)
      ∙ sym (all_rows-Valid s v)

-- What an operation leaves: a valid state, and on a condition these rows, without an error.
abbrev pub Done : Type 0 → List PyroRow → Result (Unit {0}) DataError × DataManager → Type 0
Done P rows r = Valid r.1 × (P → (r.0 ≡ ok tt) × (all_rows r.1 ≡ rows) × Clear r.1)

-- On which a rollout keeps the rows.
abbrev pub Smooth : Env → DataManager → Type 0
Smooth env s = AllOk env × Clear s

-- What writing the Parquet file comes to, where files were listed.
write_cases :
    (env : Env) (s : DataManager) (v : Valid s) (p dir : Files) (shared : DataManagerSharedState)
    → Pending s.current_wal_id dir shared p
    → Below s.current_wal_id (keys v.rolled)
    → is_nil (batches v.listed) ≡ false
    → (v.stuck ≡ [] → p ≡ [])
    → Done (Smooth env s) (all_rows s) (
        write_rollout env s.current_wal_id
          (keys v.listed)
          (batches v.listed)
          (length (contents v.listed))
          (emptied_state s p dir shared))
unfolding write_rollout rolled_out
write_cases env s v p dir shared h before some_files left =
    elim (Bool-cases (env.write_parquet_ok s.current_wal_id)) [
      | inl good ↦
          rw (some_files, good)
            (
              rolled_out-Valid s v p dir shared h before,
              λ (all_ok, clear).
                  let free = (Clear-Valid env s v all_ok.reads_ipc clear).0 in
                  (
                    refl,
                    all_rows-rolled_out s v p dir shared h before free (left free),
                    (ap keys (left free), tt),
                  ),
            )
      | inr bad ↦
          rw (some_files, bad)
            (
              emptied_state-Valid s v p dir shared h,
              λ (all_ok, clear). absurd (cc (all_ok.write_parquet s.current_wal_id, bad)),
            )
    ]

-- The loop over the files that are listed.
pub loop :
    (env : Env) (s : DataManager) (v : Valid s)
    → pyroduct.Data.Rolling.Loops env v.stuck v.listed s.current_wal_id [] 0
        (record s { ipc_files = [] })
loop env s v =
    roll_files_lem env v.stuck v.listed s.current_wal_id [] 0 (record s { ipc_files = [] })
      (v.ipc_counts ∙ ap counts v.pending_split) (v.ipc_paths ∙ ap keys v.pending_split)
      (subst (Pending s.current_wal_id s.arrow_files s.shared_state) v.pending_split (record {
        held = v.ipc_held;
        distinct = v.ipc_distinct;
        below = v.ipc_below;
        put_off = v.put_off;
      }))

rollout_step :
    (env : Env) (s : DataManager) (v : Valid s)
    → is_nil (keys v.listed) ≡ false
    → Done (Smooth env s) (all_rows s) (rollout_files env (keys v.listed) s)
unfolding rollout_files rolled_files
rollout_step env s v some_files =
    let (rest, dir, shared, h, ended) = loop env s v in
    let before = v.parquet_before (sym (is_nil-keys v.listed) ∙ some_files) in
    let from_zero : 0 + length (contents v.listed) ≡ length (contents v.listed) = omega arith in
    elim ended [
      | inl (none_left, e) ↦
          rw (some_files, e, from_zero)
            (write_cases env s v (v.stuck ++ rest) dir shared h before
              (is_nil-batches v.listed ∙ some_files)
              (λ free. ap (λ st. st ++ rest) free ∙ none_left))
      | inr (b, c, e, bad) ↦
          rw (some_files, e)
            (
              emptied_state-Valid s v (v.stuck ++ rest) dir shared h,
              λ (all_ok, clear). absurd (bad (Clear-Valid env s v all_ok.reads_ipc clear).1),
            )
    ]

pub rollout-Done :
    (env : Env) (s : DataManager)
    → Valid s
    → Done (Smooth env s) (all_rows s) (rollout_to_parquet_inner env s)
unfolding rollout_to_parquet_inner rollout_files
rollout-Done env s v =
    subst (λ ids. Done (Smooth env s) (all_rows s) (rollout_files env ids s)) (sym v.ipc_files)
      (elim (Bool-cases (is_nil (keys v.listed))) [
        | inl nothing ↦ rw nothing (v, λ (all_ok, clear). (refl, refl, clear))
        | inr some_files ↦ rollout_step env s v some_files
      ])

-- A rollout of pending files adds a Parquet file, where nothing fails.
pub rollout_paths :
    (env : Env) (s : DataManager)
    → Valid s
    → Smooth env s
    → is_nil s.ipc_files ≡ false
    → (rollout_to_parquet_inner env s).1.parquet_file_paths
      ≡ s.parquet_file_paths ++ s.current_wal_id ∷ []
unfolding rollout_to_parquet_inner rollout_files rolled_files write_rollout
rollout_paths env s v (all_ok, clear) h =
    let h' : is_nil (keys v.listed) ≡ false = subst (λ ids. is_nil ids ≡ false) v.ipc_files h in
    let (rest, dir, shared, _, ended) = loop env s v in
    subst
      (λ ids.
        (rollout_files env ids s).1.parquet_file_paths
        ≡ s.parquet_file_paths ++ s.current_wal_id ∷ [])
      (sym v.ipc_files)
      (elim ended [
        | inl (none_left, e) ↦
            rw (h', e, is_nil-batches v.listed ∙ h', all_ok.write_parquet s.current_wal_id) refl
        | inr (b, c, e, bad) ↦ absurd (bad (Clear-Valid env s v all_ok.reads_ipc clear).1)
      ])
