-- ===== src/Data/Lost.antt =====
-- A Parquet file of lib/pyroduct/src/pipeline/data.rs that cannot be written.
use pyroduct.Base.{ℕ, true, ap, inl, inr, ◌++◌, false, ◌≡◌, refl, sym, ◌∙◌}
use pyroduct.Base.Outcome.{err}
use pyroduct.Data.{Env, write_failed, DataManager, active_rows, rows_in, all_rows}
use pyroduct.Data.Rollout.{
  is_nil, write_rollout, rolled_files, rollout_files, rollout_to_parquet_inner,
}
use pyroduct.Data.Files.{keys}
use pyroduct.Data.Valid.{Valid}
use pyroduct.Data.RolledOut.{is_nil-batches, Clear, Clear-Valid, loop}
use mathlib.Core.Path.{subst}

-- In a valid state with pending IPC files, where the next rollout takes every one of them, each has rows
-- and can be read, and the Parquet file cannot be written, the rollout gives an error, and of the rows that
-- were kept only those of the Parquet files before and those in the active WAL are left: the rows of the
-- pending files are gone.
pub rollout_write_failed :
    (env : Env) (s : DataManager)
    → Valid s
    → Clear s
    → is_nil s.ipc_files ≡ false
    → ((id : ℕ) → env.read_ipc_ok id ≡ true)
    → env.write_parquet_ok s.current_wal_id ≡ false
    → ((rollout_to_parquet_inner env s).0 ≡ err write_failed)
      × (all_rows (rollout_to_parquet_inner env s).1
          ≡ rows_in s.parquet_files s.parquet_file_paths ++ active_rows s)
unfolding rollout_to_parquet_inner rollout_files rolled_files write_rollout all_rows rows_in
rollout_write_failed env s v clear h reads failed =
    let h' : is_nil (keys v.listed) ≡ false = subst (λ ids. is_nil ids ≡ false) v.ipc_files h in
    let (free, can_read) = Clear-Valid env s v reads clear in
    let (rest, dir, shared, _, ended) = loop env s v in
    subst
      (λ ids.
        ((rollout_files env ids s).0 ≡ err write_failed)
        × (all_rows (rollout_files env ids s).1
            ≡ rows_in s.parquet_files s.parquet_file_paths ++ active_rows s))
      (sym v.ipc_files)
      (elim ended [
        | inl (none_left, e) ↦
            rw (h', e, is_nil-batches v.listed ∙ h', failed)
              (
                refl,
                ap
                    (λ es.
                      rows_in s.parquet_files s.parquet_file_paths
                      ++ (rows_in dir (keys es) ++ active_rows s))
                    (ap (λ st. st ++ rest) free ∙ none_left),
              )
        | inr (b, c, e, bad) ↦ absurd (bad can_read)
      ])
