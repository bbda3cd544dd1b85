-- ===== src/Data/Slicing.antt =====
-- `get_batch_slice` of lib/pyroduct/src/pipeline/data.rs against slices of all rows.
use pyroduct.Base.{
  false, ℕ, ◌%◌, ◌^◌, ◌+◌, ◌-◌, ◌<◌, List, [], ◌∷◌, ◌++◌, All, true, Bool-cases, length, take, drop,
  length-append, append_assoc, append-nil, ◌==◌, ◌≡◌, refl, sym, ap, ◌∙◌, arith, inl, inr,
  if◌then◌else◌,
}
use pyroduct.Base.Maps.{entry}
use pyroduct.Base.Outcome.{ok}
use pyroduct.Value.{PyroRow}
use pyroduct.Data.{Env, DataManager, active_rows, all_rows}
use pyroduct.Data.Rollout.{is_nil, concat}
use pyroduct.Data.Reading.{
  concatenated, row_count, DataSource, parquet, ipc, active, counted, sources, read_source,
  get_batch_slice, or_none,
}
use pyroduct.Data.Files.{Files, keys, counts, contents, Holds, Absent, Distinct, sum_counts-counts}
use pyroduct.Data.Valid.{Valid, all_rows-Valid}
use pyroduct.Data.Windows.{window, Items, sized, items_rows, Readable, slice_sources-window}

-- What a Parquet reader documents: its batches are the rows of the file, in their order.
pub record Documented (env : Env) : Type 0 where
  pub chunks_lem : (rows : List PyroRow) → concat (env.chunks rows) ≡ rows

abbrev of_files : (ℕ → DataSource) → Files → Items
of_files make [] = []
of_files make ((id, rows) ∷ es) = (make id, rows) ∷ of_files make es

abbrev of_active : List PyroRow → Items
of_active [] = []
of_active (r ∷ rs) = (active, r ∷ rs) ∷ []

-- A count that is not asked for.
counted_fresh :
    (make : ℕ → DataSource) (id n : ℕ) (cs : List (ℕ × ℕ)) (ids : List ℕ)
    → Absent id ids
    → counted make ((id, n) ∷ cs) ids ≡ counted make cs ids
unfolding entry
counted_fresh make id n cs [] a = refl
counted_fresh make id n cs (j ∷ ids) a = ground (arith, counted_fresh make id n cs ids a.1, a.0)

counted-counts :
    (make : ℕ → DataSource) (es : Files)
    → Distinct (keys es)
    → counted make (counts es) (keys es) ≡ sized (of_files make es)
unfolding entry
counted-counts make [] d = refl
counted-counts make ((id, rows) ∷ es) d = ground (
  arith,
  counted_fresh make id (length rows) (counts es) (keys es) d.0,
  counted-counts make es d.1,
)

sized-append : (xs ys : Items) → sized xs ++ sized ys ≡ sized (xs ++ ys)
sized-append [] ys = refl
sized-append ((source, rows) ∷ xs) ys = ap (λ t. (source, length rows) ∷ t) (sized-append xs ys)

items_rows-append : (xs ys : Items) → items_rows (xs ++ ys) ≡ items_rows xs ++ items_rows ys
items_rows-append [] ys = refl
items_rows-append ((source, rows) ∷ xs) ys =
    ap (λ t. rows ++ t) (items_rows-append xs ys)
    ∙ sym (append_assoc rows (items_rows xs) (items_rows ys))

items_rows-of_files :
    (make : ℕ → DataSource) (es : Files) → items_rows (of_files make es) ≡ contents es
items_rows-of_files make [] = refl
items_rows-of_files make ((id, rows) ∷ es) = ap (λ t. rows ++ t) (items_rows-of_files make es)

items_rows-of_active : (rows : List PyroRow) → items_rows (of_active rows) ≡ rows
items_rows-of_active [] = refl
items_rows-of_active (r ∷ rs) = append-nil (r ∷ rs)

sized-of_active :
    (rows : List PyroRow)
    → (if is_nil rows then [] else (active, length rows) ∷ []) ≡ sized (of_active rows)
sized-of_active [] = refl
sized-of_active (r ∷ rs) = refl

abbrev items : (s : DataManager) → Valid s → Items
items s v = of_files parquet v.rolled ++ (of_files ipc v.pending ++ of_active (active_rows s))

sources-items : (s : DataManager) (v : Valid s) → sources s ≡ sized (items s v)
unfolding sources
sources-items s v =
    rw
      (
        v.parquet_counts,
        v.parquet_paths,
        v.ipc_counts,
        v.ipc_paths,
        counted-counts parquet v.rolled v.parquet_distinct,
        counted-counts ipc v.pending v.ipc_distinct,
        sized-of_active (active_rows s),
        sized-append (of_files ipc v.pending) (of_active (active_rows s)),
      )
      (sized-append (of_files parquet v.rolled)
        (of_files ipc v.pending ++ of_active (active_rows s)))

items_rows-items : (s : DataManager) (v : Valid s) → items_rows (items s v) ≡ all_rows s
items_rows-items s v =
    rw
      (
        items_rows-append (of_files parquet v.rolled)
            (of_files ipc v.pending ++ of_active (active_rows s)),
        items_rows-append (of_files ipc v.pending) (of_active (active_rows s)),
        items_rows-of_files parquet v.rolled,
        items_rows-of_files ipc v.pending,
        items_rows-of_active (active_rows s),
      )
      (sym (all_rows-Valid s v))

All-items :
    (P : DataSource × List PyroRow → Type 0) (xs ys : Items)
    → All P xs
    → All P ys
    → All P (xs ++ ys)
All-items P [] ys h k = k
All-items P (x ∷ xs) ys h k = (h.0, All-items P xs ys h.1 k)

-- Every file can be read, and its batches, and the slices, can be concatenated under the schema.
pub record Joins (env : Env) : Type 0 where
  pub reads_ipc : (id : ℕ) → env.read_ipc_ok id ≡ true
  pub reads_parquet : (id : ℕ) → env.read_parquet_ok id ≡ true
  pub concat_ipc : (id : ℕ) → env.concat_ipc_ok id ≡ true
  pub concat_parquet : (id : ℕ) → env.concat_parquet_ok id ≡ true
  pub concat_slices : env.concat_slices_ok ≡ true

is_nil-some : (rows : List PyroRow) → 0 < length rows → is_nil rows ≡ false
is_nil-some [] h = absurd (omega (arith, h))
is_nil-some (r ∷ rs) h = refl

Readable-parquet :
    (env : Env) (s : DataManager) (es : Files)
    → Documented env
    → Joins env
    → Holds s.parquet_files es
    → All (Readable env s) (of_files parquet es)
unfolding read_source
Readable-parquet env s [] doc joins h = tt
Readable-parquet env s ((id, rows) ∷ es) doc joins h = (
  λ k.
      rw
        (
          h.0,
          joins.reads_parquet id,
          doc.chunks_lem rows,
          is_nil-some rows k,
          joins.concat_parquet id,
        )
        refl,
  Readable-parquet env s es doc joins h.1,
)

Readable-ipc :
    (env : Env) (s : DataManager) (es : Files)
    → Joins env
    → Holds s.arrow_files es
    → All (Readable env s) (of_files ipc es)
unfolding read_source
Readable-ipc env s [] joins h = tt
Readable-ipc env s ((id, rows) ∷ es) joins h = (
  λ k. rw (h.0, joins.reads_ipc id, is_nil-some rows k, joins.concat_ipc id) refl,
  Readable-ipc env s es joins h.1,
)

concatenated_lem :
    (env : Env) (rows : List PyroRow)
    → env.concat_slices_ok ≡ true
    → concatenated env rows ≡ ok (or_none rows)
concatenated_lem env [] h = refl
concatenated_lem env (r ∷ rs) h = rw h refl

Readable-active :
    (env : Env) (s : DataManager) (rows : List PyroRow)
    → active_rows s ≡ rows
    → env.build_ok rows ≡ true
    → All (Readable env s) (of_active rows)
unfolding read_source
Readable-active env s [] e b = tt
Readable-active env s (r ∷ rs) e b = (λ k. rw (e, b) refl, tt)

sub_zero : (n : ℕ) → n - 0 ≡ n
sub_zero n = omega arith

==-eq : (n : ℕ) → (n == 0) ≡ true → n ≡ 0
==-eq n h = ground arith

start_limit : (offset limit : ℕ) → offset + limit - (0 + (offset - 0)) ≡ limit
start_limit offset limit = omega arith

-- Where the files can be read and joined, the active rows make a record batch and the end of the slice is
-- below 2 ^ 64, a slice of `limit` rows from `offset` on is that slice of all rows that the manager keeps,
-- none where it is empty: whether they are in Parquet files, in IPC files or in the active WAL, and
-- whichever of these the slice crosses.
pub get_batch_slice_lem :
    (env : Env) (s : DataManager) (offset limit : ℕ)
    → Documented env
    → Joins env
    → Valid s
    → env.build_ok (active_rows s) ≡ true
    → offset + limit < 2 ^ 64
    → get_batch_slice env s offset limit ≡ ok (or_none (take limit (drop offset (all_rows s))))
unfolding get_batch_slice
get_batch_slice_lem env s offset limit doc joins v b bound =
    let n = items s v in
    let parquet_read = Readable-parquet env s v.rolled doc joins v.parquet_held in
    let ipc_read = Readable-ipc env s v.pending joins v.ipc_held in
    let active_read = Readable-active env s (active_rows s) refl b in
    let all_read =
      All-items (Readable env s) (of_files parquet v.rolled) _ parquet_read
        (All-items (Readable env s) (of_files ipc v.pending) _ ipc_read active_read) in
    let fits : (offset + limit) % 2 ^ 64 ≡ offset + limit = omega (arith, bound) in
    elim (Bool-cases (limit == 0)) [
      | inl zero_limit ↦ rw (==-eq limit zero_limit) refl
      | inr h ↦
          rw
            (
              h,
              fits,
              sources-items s v,
              slice_sources-window env s offset (offset + limit) 0 n all_read,
            )
            (concatenated_lem env _ joins.concat_slices
              ∙ ap (λ t. ok (or_none t))
                  (ap (λ t. window offset (offset + limit) 0 t) (items_rows-items s v)
                    ∙ ap (λ k. take k (drop (offset - 0) (all_rows s))) (start_limit offset limit)
                    ∙ ap (λ k. take limit (drop k (all_rows s))) (sub_zero offset)))
    ]

-- The number of rows that the manager gives is that of the rows that it keeps.
pub row_count_lem : (s : DataManager) → Valid s → row_count s ≡ length (all_rows s)
unfolding row_count all_rows
row_count_lem s v =
    rw (v.parquet_total, v.ipc_counts, sum_counts-counts v.pending, all_rows-Valid s v)
      (omega (
        arith,
        length-append (contents v.rolled) (contents v.pending ++ active_rows s),
        length-append (contents v.pending) (active_rows s),
      ))
