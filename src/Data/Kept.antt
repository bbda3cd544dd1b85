-- ===== src/Data/Kept.antt =====
-- A push in lib/pyroduct/src/pipeline/data.rs: the index, and the rows that it finds.
use pyroduct.Base.{
  ℕ, ◌+◌, Option, none, some, List, [], ◌∷◌, ◌++◌, true, false, ◌||◌, Bool-cases, length,
  length-append, get_elem?-append_last, leb, ◌==◌, ◌≡◌, ◌≢◌, refl, sym, ◌∙◌, arith, inl, inr,
}
use pyroduct.Base.Maps.{entry, entry-set_entry, entry-set_entry_self}
use pyroduct.Value.{PyroRow}
use pyroduct.Data.{Env, CurrentData, WalPlace, empty_data, DataManager, active_rows}
use pyroduct.Data.Rollout.{is_nil}
use pyroduct.Data.Writing.{
  opened, ensure_wal_manager, with_metadata, repaired, in_wal, buffered, push_row, append_row,
  flushed, rollout_if_full, flush_data, flush_wal_inner, flush_if_full, push_record,
}
use pyroduct.Data.Valid.{Valid, AllOk}
use pyroduct.Data.RolledOut.{Smooth, rollout_paths}
use pyroduct.Data.Flushing.{with_wal-Valid, flushed-Valid, flushed-Clear}
use pyroduct.Data.Pushing.{next_wal-Valid, Pushes}
use mathlib.Core.Path.{subst}
use pyroduct.Data.Lookup.{current_of}
use pyroduct.Data.Indexed.{
  Indexed, Stored, memory, entry-index_rows, buffered-Indexed, flushed-Indexed, buffered-Stored,
  flushed-Stored,
}

abbrev pub IndexedAt : DataManager → Type 0
IndexedAt s =
    Indexed (length (active_rows s)) (current_of s.wal_manager) s.wal_index s.current_wal_id

abbrev pub StoredAt : DataManager → ℕ → PyroRow → Type 0
StoredAt s i row = Stored (active_rows s) (current_of s.wal_manager) s.wal_index s.arrow_files i row

abbrev pub Unused : DataManager → ℕ → Type 0
Unused s i = (entry i (current_of s.wal_manager) ≡ none) × (entry i s.wal_index ≡ none)

-- A step keeps the index, and what it finds and does not find.
abbrev Kept : DataManager → DataManager → Type 0
Kept s s' =
    IndexedAt s'
    × ((i : ℕ) (row : PyroRow) → StoredAt s i row → StoredAt s' i row)
    × ((i : ℕ) → Unused s i → Unused s' i)

flushed-Kept :
    (s : DataManager) (d : CurrentData)
    → IndexedAt (record s { wal_manager = some d })
    → Kept
        (record s { wal_manager = some d })
        (flushed s.current_wal_id d (record s { wal_manager = some empty_data }))
unfolding flushed entry
flushed-Kept s d x = (
  flushed-Indexed (length d.prebatch) s.current_wal_id d.current_wal_rows s.wal_index x,
  λ i row h.
      flushed-Stored i (length d.prebatch) s.current_wal_id d.prebatch d.current_wal_rows
        s.wal_index s.arrow_files row x h,
  λ i h. (refl, entry-index_rows i s.current_wal_id d.current_wal_rows s.wal_index ∙ (rw h.0 h.1)),
)

not_nil : {A : Type 0} (xs : List A) (x : A) → is_nil (xs ++ x ∷ []) ≡ false
not_nil [] x = refl
not_nil (y ∷ xs) x = refl

append_ne_nil : (ids : List ℕ) (x : ℕ) → ids ++ x ∷ [] ≡ [] → ⊥
append_ne_nil [] x e = cc e
append_ne_nil (y ∷ ids) x e = cc e

flush_eq :
    (env : Env) (s : DataManager) (d : CurrentData)
    → AllOk env
    → flush_data env (some d) (record s { wal_manager = some d })
      ≡ rollout_if_full env
          (flushed s.current_wal_id d (record s { wal_manager = some empty_data }))
unfolding flush_data
flush_eq env s d all_ok =
    let or_true : (is_nil d.prebatch || env.build_ok d.prebatch) ≡ true =
      ground (arith, all_ok.build d.prebatch) in
    rw
      (
        all_ok.open_file (s.current_wal_id + 1),
        or_true,
        all_ok.rotate s.current_wal_id,
        all_ok.write_ipc s.current_wal_id,
      )
      refl

-- Where no Parquet file is there at the end, nothing was rolled out, and the index is kept.
abbrev UnlessRolled : DataManager → DataManager → Type 0
UnlessRolled s s' =
    s'.parquet_file_paths ≡ [] → (s.parquet_file_paths ≡ []) × (IndexedAt s → Kept s s')

rollout_if_full-Kept :
    (env : Env) (s : DataManager) (d : CurrentData)
    → Valid s
    → Smooth env s
    → is_nil d.prebatch ≡ false
    → UnlessRolled
        (record s { wal_manager = some d })
        (rollout_if_full env
          (flushed s.current_wal_id d (record s { wal_manager = some empty_data }))).1
unfolding rollout_if_full flushed
rollout_if_full-Kept env s d v (all_ok, clear) filled =
    let s' = record s { wal_manager = some empty_data } in
    let s'' = flushed s.current_wal_id d s' in
    let v' = with_wal-Valid s (some empty_data) v in
    let v'' = flushed-Valid s' d v' in
    let smooth : Smooth env s'' = (all_ok, flushed-Clear s' d v' filled clear) in
    elim (Bool-cases (leb s.ipc_capacity (length s''.ipc_files))) [
      | inl full ↦ rw full (λ none_there. absurd (
          append_ne_nil _ _ (
            sym (rollout_paths env s'' v'' smooth (not_nil s.ipc_files s.current_wal_id))
            ∙ none_there)))
      | inr not_full ↦ rw not_full (λ none_there. (none_there, flushed-Kept s d))
    ]

flush_if_full-Kept :
    (env : Env) (s : DataManager) (d : CurrentData)
    → Valid s
    → Smooth env s
    → is_nil d.prebatch ≡ false
    → UnlessRolled
        (record s { wal_manager = some d })
        (flush_if_full env (record s { wal_manager = some d })).1
unfolding flush_if_full flush_wal_inner
flush_if_full-Kept env s d v smooth filled =
    elim (Bool-cases (leb s.wal_capacity (length d.prebatch))) [
      | inl full ↦
          rw (full, flush_eq env s d smooth.0) (rollout_if_full-Kept env s d v smooth filled)
      | inr not_full ↦ rw not_full (λ none_there. (none_there, λ x. (x, λ i row h. h, λ i h. h)))
    ]

-- A push where nothing fails, of a row index that is new.
abbrev pub Pushed : DataManager → DataManager → ℕ → PyroRow → Type 0
Pushed s s' i row' =
    s'.parquet_file_paths ≡ []
    → (s.parquet_file_paths ≡ [])
      × (IndexedAt s
          → Unused s i
          → IndexedAt s'
            × StoredAt s' i row'
            × ((j : ℕ) (row : PyroRow) → StoredAt s j row → StoredAt s' j row)
            × ((j : ℕ) → j ≢ i → Unused s j → Unused s' j))

==-ne : (i j : ℕ) → i ≢ j → (i == j) ≡ false
==-ne i j ne = ground (arith, ne)

push_eq :
    (env : Env) (i : ℕ) (row row' : PyroRow) (d : CurrentData) (s : DataManager)
    → Pushes env s i row row'
    → push_record env i row (record s { wal_manager = some d })
      ≡ flush_if_full env (record s { wal_manager = some (buffered i row' d) })
unfolding push_record ensure_wal_manager opened append_row push_row repaired in_wal
push_eq env i row row' d s ((all_ok, _), e) =
    rw (all_ok.ship (with_metadata env s.metadata_prefix i row), e, all_ok.send i) refl

Pushed-some :
    (env : Env) (i : ℕ) (row row' : PyroRow) (d : CurrentData) (s : DataManager)
    → Valid s
    → Pushes env s i row row'
    → Pushed
        (record s { wal_manager = some d })
        (push_record env i row (record s { wal_manager = some d })).1
        i
        row'
unfolding buffered
Pushed-some env i row row' d s v pushes =
    let n = length d.prebatch in
    let d' = buffered i row' d in
    let grown : n + 1 ≡ length (d.prebatch ++ row' ∷ []) =
      omega (arith, length-append d.prebatch (row' ∷ [])) in
    rw (push_eq env i row row' d s pushes) (λ none_there.
      let (none_before, keep) =
        flush_if_full-Kept env s d' v pushes.0 (not_nil d.prebatch row') none_there in
      (
        none_before,
        λ x (new_here, new_there).
            let x' =
              subst (λ m. Indexed m d'.current_wal_rows s.wal_index s.current_wal_id) grown
                (buffered-Indexed i n s.current_wal_id d.current_wal_rows s.wal_index new_here
                  new_there x) in
            let (indexed, stored, unused) = keep x' in
            (
              indexed,
              stored i row' (
                  memory (entry-set_entry_self i n d.current_wal_rows)
                    (get_elem?-append_last d.prebatch row' n refl)),
              λ j r h. stored j r (
                  buffered-Stored j i n s.current_wal_id d.prebatch d.current_wal_rows s.wal_index
                    s.arrow_files r row' refl new_here x h),
              λ j ne h. unused j (
                entry-set_entry j i n d.current_wal_rows ∙ (rw (==-ne i j (λ e. ne (sym e))) h.0),
                h.1,
              ),
            ),
      ))

Indexed-next :
    (n next : ℕ) (current : List (ℕ × ℕ)) (table : List (ℕ × WalPlace))
    → Indexed n current table next
    → Indexed n current table (next + 1)
Indexed-next n next current table x = record {
  fresh = x.fresh;
  within = x.within;
  first = x.first;
  below = λ j p e. omega (arith, x.below j p e);
  start = x.start;
}

push_first :
    (env : Env) (i : ℕ) (row : PyroRow) (s : DataManager)
    → AllOk env
    → push_record env i row (record s { wal_manager = none })
      ≡ push_record env i row
          (record s { current_wal_id = s.current_wal_id + 1; wal_manager = some empty_data })
unfolding push_record ensure_wal_manager opened
push_first env i row s all_ok = rw (all_ok.open_file (s.current_wal_id + 1)) refl

Pushed-from :
    (env : Env) (i : ℕ) (row row' : PyroRow) (wal : Option CurrentData) (s : DataManager)
    → Valid s
    → Pushes env s i row row'
    → Pushed
        (record s { wal_manager = wal })
        (push_record env i row (record s { wal_manager = wal })).1
        i
        row'
Pushed-from env i row row' (some d) s v pushes = Pushed-some env i row row' d s v pushes
Pushed-from env i row row' none s v pushes = rw (push_first env i row s pushes.0.0) (λ none_there.
    let (none_before, keep) =
      Pushed-some env i row row' empty_data (record s { current_wal_id = s.current_wal_id + 1 })
        (next_wal-Valid s v) pushes none_there in
    (none_before, λ x unused. keep (Indexed-next 0 s.current_wal_id [] s.wal_index x) unused))

pub push_record-Pushed :
    (env : Env) (i : ℕ) (row row' : PyroRow) (s : DataManager)
    → Valid s
    → Pushes env s i row row'
    → Pushed s (push_record env i row s).1 i row'
push_record-Pushed env i row row' s v pushes = Pushed-from env i row row' s.wal_manager s v pushes
