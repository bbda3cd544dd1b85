-- ===== src/Data/Found.antt =====
-- `get_record` of lib/pyroduct/src/pipeline/data.rs after any number of pushes.
use pyroduct.Base.{ℕ, List, [], ◌∷◌, All, ◌≡◌}
use pyroduct.Base.Maps.{entry}
use pyroduct.Base.Outcome.{ok}
use pyroduct.Value.{PyroRow}
use pyroduct.Value.Repair.{project_repair}
use pyroduct.Data.{Env, DataManager}
use pyroduct.Data.Writing.{with_metadata, push_record}
use pyroduct.Data.Reading.{get_record}
use pyroduct.Data.Files.{Absent, Distinct}
use pyroduct.Data.Valid.{Valid}
use pyroduct.Data.Lookup.{as_read, current_of}
use pyroduct.Data.Kept.{IndexedAt, StoredAt, Unused}

-- A row index, the row pushed under it, and what the row is repaired to.
pub record Push : Type 0 where
  pub index : ℕ
  pub row : PyroRow
  pub repaired_row : PyroRow

unfoldable pub push_all : Env → List Push → DataManager → DataManager
unfolding push_record
push_all env [] s = s
push_all env (p ∷ ps) s = push_all env ps (push_record env p.index p.row s).1

-- Each row can be repaired to the schema when it is pushed.
abbrev pub Repairs : Env → List Push → DataManager → Type 0
Repairs env [] s = Unit
Repairs env (p ∷ ps) s =
    (project_repair env.std s.schema (with_metadata env s.metadata_prefix p.index p.row)
      ≡ ok p.repaired_row)
    × Repairs env ps (push_record env p.index p.row s).1

abbrev pub indices : List Push → List ℕ
indices [] = []
indices (p ∷ ps) = p.index ∷ indices ps

abbrev AllUnused : DataManager → List ℕ → Type 0
AllUnused s ids = All (λ i. Unused s i) ids

abbrev Ran : DataManager → DataManager → List Push → Type 0
Ran s s' ps =
    s'.parquet_file_paths ≡ []
    → (s.parquet_file_paths ≡ [])
      × (IndexedAt s
          → Distinct (indices ps)
          → AllUnused s (indices ps)
          → IndexedAt s'
            × All (λ p. StoredAt s' p.index p.repaired_row) ps
            × ((j : ℕ) (row : PyroRow) → StoredAt s j row → StoredAt s' j row)
            × ((j : ℕ) → Absent j (indices ps) → Unused s j → Unused s' j))

-- The row of a push is found.
abbrev pub Reads : Env → DataManager → Push → Type 0
Reads env s p =
    get_record env s p.index ≡ as_read env (entry p.index (current_of s.wal_manager)) p.repaired_row
