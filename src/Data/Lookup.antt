-- ===== src/Data/Lookup.antt =====
-- `get_record` of lib/pyroduct/src/pipeline/data.rs for a record that is stored, and for one that is not.
use pyroduct.Base.{
  ℕ, ◌-◌, Option, none, some, List, [], ◌∷◌, Bool, true, false, Bool-cases, ◌==◌, ◌≡◌, refl, sym,
  arith, ◌⊎◌, inl, inr, if◌then◌else◌,
}
use pyroduct.Base.Maps.{entry}
use pyroduct.Base.Outcome.{Result, ok, err}
use pyroduct.Value.{PyroRow}
use pyroduct.Data.{DataError, Env, not_found, CurrentData, WalPlace, DataManager, rows_of_wal}
use pyroduct.Data.Reading.{
  row_of, in_memory, min_wal_index, at_most, from_ipc, from_disk, from_index, get_record,
}
use mathlib.Core.Path.{subst}
use pyroduct.Data.Indexed.{place, Indexed, Stored, memory, disk, not_current, some_place}

at_most_zero : (o : Option ℕ) → at_most 0 o ≡ some 0
at_most_zero none = refl
at_most_zero (some m) = ground arith

least_zero : (b : Bool) (k : ℕ) → (if b then at_most k (some 0) else some 0) ≡ some 0
least_zero true k = ground arith
least_zero false k = refl

==-self : (w : ℕ) → (w == w) ≡ true
==-self w = ground arith

first_cases :
    (i j : ℕ) (q p : WalPlace) (table : List (ℕ × WalPlace))
    → entry j ((i, q) ∷ table) ≡ some p
    → (q ≡ p) ⊎ (entry j table ≡ some p)
unfolding entry
first_cases i j q p table e = elim (Bool-cases (i == j)) [
  | inl h ↦ inl (some_place q p (rw h at e))
  | inr h ↦ inr (rw h at e)
]

-- The least position of a WAL is 0, where one of its row indices has the position 0.
min_zero :
    (w j : ℕ) (table : List (ℕ × WalPlace))
    → entry j table ≡ some (place w 0)
    → min_wal_index (λ id. id == w) table ≡ some 0
unfolding min_wal_index entry
min_zero w j [] e = absurd (cc e)
min_zero w j ((i, q) ∷ table) e =
    let rest = min_wal_index (λ id. id == w) table in
    elim (first_cases i j q (place w 0) table e) [
      | inl same ↦
          subst
            (λ (z : WalPlace). (if z.wal_id == w then at_most z.wal_index rest else rest) ≡ some 0)
            (sym same) (rw (==-self w) (at_most_zero rest))
      | inr later ↦ rw (min_zero w j table later) (least_zero (q.wal_id == w) q.wal_index)
    ]

abbrev pub current_of : Option CurrentData → List (ℕ × ℕ)
current_of none = []
current_of (some d) = d.current_wal_rows

in_memory_lem :
    (i : ℕ) (wal : Option CurrentData)
    → in_memory i wal ≡ row_of (rows_of_wal wal) (entry i (current_of wal))
unfolding in_memory entry
in_memory_lem i none = refl
in_memory_lem i (some d) = refl

-- A row of the buffer comes as it is, of one of a file what is read from Arrow's columns.
abbrev pub as_read : Env → Option ℕ → PyroRow → Result PyroRow DataError
as_read env none row = env.arrow_row row
as_read env (some k) row = ok row

-- A record that is stored is found.
pub get_record-Stored :
    (env : Env) (s : DataManager) (i n next : ℕ) (row : PyroRow)
    → Indexed n (current_of s.wal_manager) s.wal_index next
    → Stored (rows_of_wal s.wal_manager) (current_of s.wal_manager) s.wal_index s.arrow_files i row
    → get_record env s i ≡ as_read env (entry i (current_of s.wal_manager)) row
unfolding get_record from_index from_disk from_ipc
get_record-Stored env s i n next row x (memory e at) =
    rw (in_memory_lem i s.wal_manager, e, at) refl
get_record-Stored env s i n next row x (disk {p = p} e f at) =
    let (j, first) = x.start i p e in
    let from_zero : p.wal_index - 0 ≡ p.wal_index = omega arith in
    rw
      (
        in_memory_lem i s.wal_manager,
        not_current i n next (current_of s.wal_manager) s.wal_index p x e,
        e,
        f,
        min_zero p.wal_id j s.wal_index first,
        from_zero,
        at,
      )
      refl

-- A row index that was never pushed is not found.
pub get_record-none :
    (env : Env) (s : DataManager) (i : ℕ)
    → entry i (current_of s.wal_manager) ≡ none
    → entry i s.wal_index ≡ none
    → get_record env s i ≡ err not_found
unfolding get_record from_index
get_record-none env s i c t = rw (in_memory_lem i s.wal_manager, c, t) refl
