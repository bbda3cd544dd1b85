-- ===== src/Data/Located.antt =====
-- `get_record` of lib/pyroduct/src/pipeline/data.rs for a record that was rolled out to Parquet.
use pyroduct.Base.{
  ℕ, zero, suc, ◌+◌, ◌-◌, ◌≤◌, none, some, List, [], ◌∷◌, ◌++◌, true, false, Bool-cases, length,
  get_elem?, get_elem?-append_left, leb, ltb, ◌≡◌, refl, sym, ap, ◌∙◌, arith, inl, inr,
}
use pyroduct.Base.Maps.{entry}
use pyroduct.Value.{PyroRow}
use pyroduct.Data.{Env, DataManager, WalPlace}
use pyroduct.Data.Rollout.{concat}
use pyroduct.Data.Reading.{
  in_memory, min_wal_index, rolled_into, find_row, from_rollout, from_parquet, from_disk,
  from_index, get_record,
}
use pyroduct.Data.Slicing.{Documented}
use mathlib.Core.Path.{subst}

get_elem?-append_right :
    (xs ys : List PyroRow) (k : ℕ)
    → length xs ≤ k
    → get_elem? (xs ++ ys) k ≡ get_elem? ys (k - length xs)
get_elem?-append_right [] ys k h = ap (get_elem? ys) (omega arith)
get_elem?-append_right (x ∷ xs) ys zero h = absurd (omega arith)
get_elem?-append_right (x ∷ xs) ys (suc k) h =
    get_elem?-append_right xs ys k (omega arith) ∙ ap (get_elem? ys) (omega arith)

-- The row at a position of a file is found in whichever batch it is read.
find_row_lem :
    (env : Env) (batches : List (List PyroRow)) (offset k : ℕ) (row : PyroRow)
    → get_elem? (concat batches) k ≡ some row
    → find_row env batches offset (offset + k) ≡ env.arrow_row row
unfolding find_row concat
find_row_lem env [] offset k row e = absurd (cc e)
find_row_lem env (b ∷ bs) offset k row e =
    let from : leb offset (offset + k) ≡ true = ground arith in
    elim (Bool-cases (ltb k (length b))) [
      | inl here ↦
          let before : ltb (offset + k) (offset + length b) ≡ true = ground (arith, here) in
          let at : offset + k - offset ≡ k = omega arith in
          rw
            (
              from,
              before,
              at,
              sym (get_elem?-append_left b (concat bs) k (ground (arith, here))) ∙ e,
            )
            refl
      | inr later ↦
          let behind : length b ≤ k = ground (arith, later) in
          let before : ltb (offset + k) (offset + length b) ≡ false = ground (arith, later) in
          let at : offset + length b + (k - length b) ≡ offset + k = omega (arith, behind) in
          let rest =
            find_row_lem env bs (offset + length b) (k - length b) row
              (sym (get_elem?-append_right b (concat bs) k behind) ∙ e) in
          rw (from, before)
            (subst (λ i. find_row env bs (offset + length b) i ≡ env.arrow_row row) at rest)
    ]

-- A record's WAL was rolled out: it is not in the buffer, its IPC file is gone, its place in the index has
-- the WAL and the position `k` in it, and the WAL is among those of a Parquet file, at least one of which
-- has a record at position 0. Where the Parquet file has a row at position `k`, `get_record` gives what
-- is read of that row from Arrow's columns, however the file is cut into batches: the position in the WAL
-- is used as the position in the whole file.
pub get_record_rolled_out :
    (env : Env) (s : DataManager) (index parquet_id : ℕ) (place : WalPlace) (rows : List PyroRow)
    (row : PyroRow)
    → Documented env
    → in_memory index s.wal_manager ≡ none
    → entry index s.wal_index ≡ some place
    → entry place.wal_id s.arrow_files ≡ none
    → entry place.wal_id s.wal_to_parquet ≡ some parquet_id
    → min_wal_index (rolled_into parquet_id s.wal_to_parquet) s.wal_index ≡ some 0
    → entry parquet_id s.parquet_files ≡ some rows
    → get_elem? rows place.wal_index ≡ some row
    → get_record env s index ≡ env.arrow_row row
unfolding get_record from_index from_disk from_parquet from_rollout
get_record_rolled_out env s index parquet_id place rows row doc not_here e gone into least file at =
    let from_zero : place.wal_index - 0 ≡ 0 + place.wal_index = omega arith in
    rw (not_here, e, gone, into, least, file, from_zero)
      (find_row_lem env (env.chunks rows) 0 place.wal_index row
        (ap (λ t. get_elem? t place.wal_index) (doc.chunks_lem rows) ∙ at))
