-- ===== src/Data/Indexed.antt =====
-- The index of lib/pyroduct/src/pipeline/data.rs: where the record of a row index is.
use pyroduct.Base.{
  ℕ, zero, suc, ◌+◌, ◌<◌, Option, none, some, List, [], ◌∷◌, ◌++◌, true, Bool-cases, length,
  get_elem?, get_elem?-append_left, ◌==◌, ◌≡◌, refl, sym, ap, ◌∙◌, arith, ◌⊎◌, inl, inr,
}
use pyroduct.Base.Maps.{set_entry, entry, entry-set_entry, entry-set_entry_self}
use pyroduct.Value.{PyroRow}
use pyroduct.Data.{WalPlace}
use pyroduct.Data.Writing.{index_rows}
use pyroduct.Data.Files.{Files}
use mathlib.Core.Path.{subst}

abbrev pub place : ℕ → ℕ → WalPlace
place w k = record { wal_id = w; wal_index = k }

-- The row indices of the active WAL, of `n` rows, and those of the table, whose WALs came before `next`.
pub record Indexed (n : ℕ) (current : List (ℕ × ℕ)) (table : List (ℕ × WalPlace)) (next : ℕ)
    : Type 0 where
  pub fresh : (j k : ℕ) → entry j current ≡ some k → entry j table ≡ none
  pub within : (j k : ℕ) → entry j current ≡ some k → k < n
  pub first : 0 < n → (j : ℕ) × (entry j current ≡ some 0)
  pub below : (j : ℕ) (p : WalPlace) → entry j table ≡ some p → p.wal_id < next
  pub start :
      (j : ℕ) (p : WalPlace)
      → entry j table ≡ some p
      → (i : ℕ) × (entry i table ≡ some (place p.wal_id 0))

-- The row of a row index, in the buffer or in an IPC file.
pub data Stored (rows : List PyroRow) (current : List (ℕ × ℕ)) (table : List (ℕ × WalPlace))
    (dir : Files) (i : ℕ) (row : PyroRow) : Type 0 where
  memory :
      {k : ℕ}
      → entry i current ≡ some k
      → get_elem? rows k ≡ some row
      → Stored rows current table dir i row
  disk :
      {p : WalPlace} {file : List PyroRow}
      → entry i table ≡ some p
      → entry p.wal_id dir ≡ some file
      → get_elem? file p.wal_index ≡ some row
      → Stored rows current table dir i row

abbrev placed : ℕ → Option ℕ → Option WalPlace → Option WalPlace
placed w none o = o
placed w (some k) o = some (place w k)

pub entry-index_rows :
    (i w : ℕ) (current : List (ℕ × ℕ)) (table : List (ℕ × WalPlace))
    → entry i (index_rows w current table) ≡ placed w (entry i current) (entry i table)
unfolding index_rows entry
entry-index_rows i w [] table = refl
entry-index_rows i w ((j, k) ∷ current) table =
    entry-set_entry i j (place w k) (index_rows w current table) ∙ (elim (Bool-cases (j == i)) [
      | inl e ↦ rw e refl
      | inr e ↦ rw e (entry-index_rows i w current table)
    ])

pub some_place : (q p : WalPlace) → Path (Option WalPlace) (some q) (some p) → q ≡ p
some_place q p e = cc e

Option-cases {ℓ} : {A : Type ℓ} (o : Option A) → (o ≡ none) ⊎ ((a : A) × (o ≡ some a))
Option-cases none = inl refl
Option-cases (some a) = inr (a, refl)

placed_cases :
    (w : ℕ) (o : Option ℕ) (o' : Option WalPlace) (p : WalPlace)
    → placed w o o' ≡ some p
    → ((k : ℕ) × (o ≡ some k) × (place w k ≡ p)) ⊎ ((o ≡ none) × (o' ≡ some p))
placed_cases w none o' p e = inr (refl, e)
placed_cases w (some k) o' p e = inl (k, refl, cc e)

index_cases :
    (j w : ℕ) (current : List (ℕ × ℕ)) (table : List (ℕ × WalPlace)) (p : WalPlace)
    → entry j (index_rows w current table) ≡ some p
    → ((k : ℕ) × (entry j current ≡ some k) × (place w k ≡ p))
      ⊎ ((entry j current ≡ none) × (entry j table ≡ some p))
index_cases j w current table p e =
    placed_cases w (entry j current) (entry j table) p
      (sym (entry-index_rows j w current table) ∙ e)

set_cases :
    (i j a k : ℕ) (current : List (ℕ × ℕ))
    → entry i (set_entry j a current) ≡ some k
    → ((j ≡ i) × (a ≡ k)) ⊎ (entry i current ≡ some k)
set_cases i j a k current e = ground (arith, entry-set_entry i j a current, e)

==-eq : (j i : ℕ) → (j == i) ≡ true → j ≡ i
==-eq j i h = ground arith

-- What was there stays, where a key is new.
set_kept {ℓ} :
    {A : Type ℓ} (i j : ℕ) (a b : A) (es : List (ℕ × A))
    → entry j es ≡ none
    → entry i es ≡ some b
    → entry i (set_entry j a es) ≡ some b
set_kept i j a b es none_j some_i = elim (Bool-cases (j == i)) [
  | inl e ↦ absurd (cc (ap (λ z. entry z es) (==-eq j i e), none_j, some_i))
  | inr e ↦ entry-set_entry i j a es ∙ (rw e some_i)
]

zero_or_pos : (n : ℕ) → (n ≡ 0) ⊎ (0 < n)
zero_or_pos zero = inl refl
zero_or_pos (suc n) = inr (omega arith)

-- A row index that is new, in the buffer.
pub buffered-Indexed :
    (j n next : ℕ) (current : List (ℕ × ℕ)) (table : List (ℕ × WalPlace))
    → entry j current ≡ none
    → entry j table ≡ none
    → Indexed n current table next
    → Indexed (n + 1) (set_entry j n current) table next
buffered-Indexed j n next current table c t x = record {
  fresh = λ i k e. elim (set_cases i j n k current e) [
    | inl (same, _) ↦ subst (λ z. entry z table ≡ none) same t
    | inr old ↦ x.fresh i k old
  ];
  within = λ i k e. elim (set_cases i j n k current e) [
    | inl (_, at) ↦ omega (arith, at)
    | inr old ↦ omega (arith, x.within i k old)
  ];
  first = λ h. elim (zero_or_pos n) [
    | inl z ↦ (j, entry-set_entry_self j n current ∙ ap some z)
    | inr some_rows ↦ let (i, e) = x.first some_rows in (i, set_kept i j n 0 current c e)
  ];
  below = x.below;
  start = x.start;
}

-- A row index that the table has is not in the buffer.
pub not_current :
    (j n next : ℕ) (current : List (ℕ × ℕ)) (table : List (ℕ × WalPlace)) (p : WalPlace)
    → Indexed n current table next
    → entry j table ≡ some p
    → entry j current ≡ none
not_current j n next current table p x e = elim (Option-cases (entry j current)) [
  | inl h ↦ h
  | inr (k, h) ↦ absurd (cc (x.fresh j k h, e))
]

pub flushed-Indexed :
    (n next : ℕ) (current : List (ℕ × ℕ)) (table : List (ℕ × WalPlace))
    → Indexed n current table next
    → Indexed 0 [] (index_rows next current table) (next + 1)
unfolding entry
flushed-Indexed n next current table x = record {
  fresh = λ j k e. absurd (cc e);
  within = λ j k e. absurd (cc e);
  first = λ h. absurd (omega arith);
  below = λ j p e. elim (index_cases j next current table p e) [
    | inl (k, _, at) ↦ omega (arith, ap (λ q. q.wal_id) at)
    | inr (_, old) ↦ omega (arith, x.below j p old)
  ];
  start = λ j p e. elim (index_cases j next current table p e) [
    | inl (k, h, at) ↦
        let (i, e') = x.first (omega (arith, x.within j k h)) in
        (
          i,
          entry-index_rows i next current table
              ∙ (rw e' (ap (λ w. some (place w 0)) (ap (λ q. q.wal_id) at))),
        )
    | inr (_, old) ↦
        let (i, e') = x.start j p old in
        (
          i,
          entry-index_rows i next current table
              ∙ (rw (not_current i n next current table _ x e') e'),
        )
  ];
}

pub buffered-Stored :
    (i j n next : ℕ) (rows : List PyroRow) (current : List (ℕ × ℕ)) (table : List (ℕ × WalPlace))
    (dir : Files) (row row' : PyroRow)
    → n ≡ length rows
    → entry j current ≡ none
    → Indexed n current table next
    → Stored rows current table dir i row
    → Stored (rows ++ row' ∷ []) (set_entry j n current) table dir i row
buffered-Stored i j n next rows current table dir row row' size c x (memory {k = k} e at) =
    memory (set_kept i j n k current c e)
      (get_elem?-append_left rows (row' ∷ []) k (omega (arith, x.within i k e, size)) ∙ at)
buffered-Stored i j n next rows current table dir row row' size c x (disk e f at) = disk e f at

pub flushed-Stored :
    (i n next : ℕ) (rows : List PyroRow) (current : List (ℕ × ℕ)) (table : List (ℕ × WalPlace))
    (dir : Files) (row : PyroRow)
    → Indexed n current table next
    → Stored rows current table dir i row
    → Stored [] [] (index_rows next current table) (set_entry next rows dir) i row
flushed-Stored i n next rows current table dir row x (memory {k = k} e at) =
    disk (entry-index_rows i next current table ∙ (rw e refl)) (entry-set_entry_self next rows dir)
      at
flushed-Stored i n next rows current table dir row x (disk {p = p} {file = file} e f at) =
    disk (entry-index_rows i next current table ∙ (rw (not_current i n next current table p x e) e))
      (kept_file p.wal_id next rows file dir (x.below i p e) f) at
  where
    kept_file :
        (w next : ℕ) (rows file : List PyroRow) (dir : Files)
        → w < next
        → entry w dir ≡ some file
        → entry w (set_entry next rows dir) ≡ some file
    kept_file w next rows file dir lt f = entry-set_entry w next rows dir ∙ ground (arith, lt, f)
