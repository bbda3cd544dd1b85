-- ===== src/Data/Files.antt =====
-- Lists of numbered files and what a directory holds of them, for lib/pyroduct/src/pipeline/data.rs.
use pyroduct.Base.{
  ℕ, ◌≤◌, ◌<◌, some, List, [], ◌∷◌, ◌++◌, All, length, length-append, append_assoc, append-nil, ◌≡◌,
  ◌≢◌, refl, sym, ap, ◌∙◌, arith,
}
use pyroduct.Base.Maps.{set_entry, entry, drop_entry, entry-set_entry, entry-drop_entry}
use pyroduct.Value.{PyroRow}
use pyroduct.Data.{or_zero, rows_in}
use pyroduct.Data.Rollout.{concat, without}
use pyroduct.Data.Reading.{sum_counts}

abbrev pub Files : Type 0
Files = List (ℕ × List PyroRow)

abbrev pub keys : Files → List ℕ
keys [] = []
keys ((id, rows) ∷ es) = id ∷ keys es

abbrev pub counts : Files → List (ℕ × ℕ)
counts [] = []
counts ((id, rows) ∷ es) = (id, length rows) ∷ counts es

abbrev pub batches : Files → List (List PyroRow)
batches [] = []
batches ((id, rows) ∷ es) = rows ∷ batches es

abbrev pub contents : Files → List PyroRow
contents [] = []
contents ((id, rows) ∷ es) = rows ++ contents es

-- The directory holds each of the files.
abbrev pub Holds : Files → Files → Type 0
Holds dir [] = Unit
Holds dir ((id, rows) ∷ es) = (entry id dir ≡ some rows) × Holds dir es

abbrev pub Absent : ℕ → List ℕ → Type 0
Absent id ids = All (λ x. x ≢ id) ids

abbrev pub Distinct : List ℕ → Type 0
Distinct [] = Unit
Distinct (x ∷ xs) = Absent x xs × Distinct xs

abbrev pub Below : ℕ → List ℕ → Type 0
Below n ids = All (λ x. x < n) ids

pub Below-wider : (n m : ℕ) (ids : List ℕ) → n ≤ m → Below n ids → Below m ids
Below-wider n m [] h b = tt
Below-wider n m (x ∷ xs) h b = (omega arith, Below-wider n m xs h b.1)

pub Below-Absent : (n : ℕ) (ids : List ℕ) → Below n ids → Absent n ids
Below-Absent n [] b = tt
Below-Absent n (x ∷ xs) b = (λ e. absurd (omega arith), Below-Absent n xs b.1)

pub All-append : (P : ℕ → Type 0) (ids : List ℕ) (x : ℕ) → All P ids → P x → All P (ids ++ x ∷ [])
All-append P [] x h px = (px, tt)
All-append P (y ∷ ys) x h px = (h.0, All-append P ys x h.1 px)

pub Below-append : (n x : ℕ) (ids : List ℕ) → Below n ids → x < n → Below n (ids ++ x ∷ [])
Below-append n x ids b h = All-append (λ z. z < n) ids x b h

pub Distinct-append :
    (ids : List ℕ) (x : ℕ) → Distinct ids → Absent x ids → Distinct (ids ++ x ∷ [])
Distinct-append [] x d a = (tt, tt)
Distinct-append (y ∷ ys) x d a =
    (All-append (λ z. z ≢ y) ys x d.0 (λ e. a.0 (sym e)), Distinct-append ys x d.1 a.1)

pub keys-append :
    (es : Files) (id : ℕ) (r : List PyroRow) → keys (es ++ (id, r) ∷ []) ≡ keys es ++ id ∷ []
keys-append [] id r = refl
keys-append ((j, q) ∷ es) id r = ap (λ t. j ∷ t) (keys-append es id r)

pub contents-append :
    (es : Files) (id : ℕ) (r : List PyroRow) → contents (es ++ (id, r) ∷ []) ≡ contents es ++ r
contents-append [] id r = append-nil r
contents-append ((j, q) ∷ es) id r =
    ap (λ t. q ++ t) (contents-append es id r) ∙ sym (append_assoc q (contents es) r)

-- A new file's count stands behind those of the others.
pub set_entry-counts :
    (es : Files) (id : ℕ) (r : List PyroRow)
    → Absent id (keys es)
    → set_entry id (length r) (counts es) ≡ counts (es ++ (id, r) ∷ [])
unfolding set_entry
set_entry-counts [] id r a = refl
set_entry-counts ((j, q) ∷ es) id r a = ground (arith, set_entry-counts es id r a.1, a.0)

pub drop_entry-counts :
    (es : Files) (id : ℕ) → Absent id (keys es) → drop_entry id (counts es) ≡ counts es
unfolding drop_entry
drop_entry-counts [] id a = refl
drop_entry-counts ((j, q) ∷ es) id a = ground (arith, drop_entry-counts es id a.1, a.0)

pub without-Absent : (ids : List ℕ) (id : ℕ) → Absent id ids → without id ids ≡ ids
unfolding without
without-Absent [] id a = refl
without-Absent (j ∷ ids) id a = ground (arith, without-Absent ids id a.1, a.0)

pub Holds-set_entry :
    (dir es : Files) (id : ℕ) (r : List PyroRow)
    → Absent id (keys es)
    → Holds dir es
    → Holds (set_entry id r dir) es
Holds-set_entry dir [] id r a h = tt
Holds-set_entry dir ((j, q) ∷ es) id r a h =
    (ground (arith, entry-set_entry j id r dir, a.0), Holds-set_entry dir es id r a.1 h.1)

pub Holds-drop_entry :
    (dir es : Files) (id : ℕ) → Absent id (keys es) → Holds dir es → Holds (drop_entry id dir) es
Holds-drop_entry dir [] id a h = tt
Holds-drop_entry dir ((j, q) ∷ es) id a h =
    (ground (arith, entry-drop_entry j id dir, a.0), Holds-drop_entry dir es id a.1 h.1)

pub Holds-append :
    (dir es : Files) (id : ℕ) (r : List PyroRow)
    → Holds dir es
    → entry id dir ≡ some r
    → Holds dir (es ++ (id, r) ∷ [])
Holds-append dir [] id r h e = (e, tt)
Holds-append dir ((j, q) ∷ es) id r h e = (h.0, Holds-append dir es id r h.1 e)

pub rows_in-Holds : (dir es : Files) → Holds dir es → rows_in dir (keys es) ≡ contents es
unfolding rows_in
rows_in-Holds dir [] h = refl
rows_in-Holds dir ((id, r) ∷ es) h = rw (h.0, rows_in-Holds dir es h.1) refl

pub sum_counts-counts : (es : Files) → sum_counts (counts es) ≡ length (contents es)
unfolding sum_counts
sum_counts-counts [] = refl
sum_counts-counts ((id, r) ∷ es) =
    omega (arith, sum_counts-counts es, length-append r (contents es))

pub concat-batches : (es : Files) → concat (batches es) ≡ contents es
unfolding concat
concat-batches [] = refl
concat-batches ((id, r) ∷ es) = ap (λ t. r ++ t) (concat-batches es)

-- The first of the files, in its count and its path.
pub drop_entry-counts_head :
    (es : Files) (id : ℕ) (r : List PyroRow)
    → Absent id (keys es)
    → drop_entry id (counts ((id, r) ∷ es)) ≡ counts es
unfolding drop_entry
drop_entry-counts_head es id r a = ground (arith, drop_entry-counts es id a)

pub entry-counts_head :
    (es : Files) (id : ℕ) (r : List PyroRow) → or_zero (entry id (counts ((id, r) ∷ es))) ≡ length r
unfolding entry
entry-counts_head es id r = ground arith

pub without-head : (ids : List ℕ) (id : ℕ) → Absent id ids → without id (id ∷ ids) ≡ ids
unfolding without
without-head ids id a = ground (arith, without-Absent ids id a)
