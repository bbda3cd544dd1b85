-- ===== src/Data/Windows.antt =====
-- The sources of a slice in lib/pyroduct/src/pipeline/data.rs: each gives its part of the slice.
use Prim.Native.Nat.{min}
use pyroduct.Base.{
  ℕ, zero, suc, ◌+◌, ◌-◌, ◌<◌, List, [], ◌∷◌, ◌++◌, All, Bool, true, false, ◌&&◌, Bool-cases, ltb,
  length, take, drop, length-drop, take-append_left, drop-append_left, take-min, ◌≡◌, refl, sym, ap,
  ◌∙◌, arith, inl, inr, if◌then◌else◌,
}
use pyroduct.Base.Outcome.{ok}
use pyroduct.Value.{PyroRow}
use pyroduct.Data.{Env, DataManager}
use pyroduct.Data.Reading.{DataSource, read_source, slice_source, slice_sources}

-- The rows from `offset` to `end_limit` of rows that stand at `start`.
abbrev pub window : ℕ → ℕ → ℕ → List PyroRow → List PyroRow
window offset end_limit start rows =
    take (end_limit - (start + (offset - start))) (drop (offset - start) rows)

window_nil : (n m : ℕ) → ◌≡◌ {A = List PyroRow} [] (take m (drop n []))
window_nil zero zero = refl
window_nil zero (suc m) = refl
window_nil (suc n) zero = refl
window_nil (suc n) (suc m) = refl

next_offset : (offset start n : ℕ) → offset - start - n ≡ offset - (start + n)
next_offset offset start n = omega arith

next_limit :
    (offset end_limit start n : ℕ)
    → end_limit - (start + (offset - start)) - (n - (offset - start))
      ≡ end_limit - (start + n + (offset - (start + n)))
next_limit offset end_limit start n = omega arith

window-append :
    (offset end_limit start : ℕ) (xs ys : List PyroRow)
    → window offset end_limit start (xs ++ ys)
      ≡ window offset end_limit start xs ++ window offset end_limit (start + length xs) ys
window-append offset end_limit start xs ys =
    let n = offset - start in
    let m = end_limit - (start + n) in
    ap (take m) (drop-append_left n xs ys)
    ∙ take-append_left m (drop n xs) (drop (n - length xs) ys)
    ∙ ap (λ k. take m (drop n xs) ++ take (m - length (drop n xs)) (drop k ys))
        (next_offset offset start (length xs))
    ∙ ap (λ k. take m (drop n xs) ++ take k (drop (offset - (start + length xs)) ys))
        (ap (λ k. m - k) (length-drop n xs) ∙ next_limit offset end_limit start (length xs))

abbrev pub Items : Type 0
Items = List (DataSource × List PyroRow)

abbrev pub sized : Items → List (DataSource × ℕ)
sized [] = []
sized ((source, rows) ∷ items) = (source, length rows) ∷ sized items

abbrev pub items_rows : Items → List PyroRow
items_rows [] = []
items_rows ((source, rows) ∷ items) = rows ++ items_rows items

abbrev pub Readable : Env → DataManager → DataSource × List PyroRow → Type 0
Readable env s (source, rows) = 0 < length rows → read_source env s source ≡ ok rows

abbrev reads : ℕ → ℕ → ℕ → ℕ → Bool
reads offset end_limit start n =
    ltb start end_limit
    && ltb offset (start + n)
    && ltb 0 (min (n - (offset - start)) (end_limit - (start + (offset - start))))

reads_some : (offset end_limit start n : ℕ) → reads offset end_limit start n ≡ true → 0 < n
reads_some offset end_limit start n h = ground arith

reads_none :
    (offset end_limit start n : ℕ)
    → reads offset end_limit start n ≡ false
    → min (n - (offset - start)) (end_limit - (start + (offset - start))) ≡ 0
reads_none offset end_limit start n h = ground arith

local : (offset start : ℕ) → (if ltb start offset then offset - start else 0) ≡ offset - start
local offset start = ground arith

-- The source is read exactly where it has rows in the slice.
slice_source-window :
    (env : Env) (s : DataManager) (offset end_limit start : ℕ) (source : DataSource)
    (rows : List PyroRow)
    → Readable env s (source, rows)
    → slice_source env s offset end_limit start (source, length rows)
      ≡ ok (window offset end_limit start rows)
unfolding slice_source
slice_source-window env s offset end_limit start source rows read =
    let n = offset - start in
    let m = end_limit - (start + n) in
    let cut : take (min (length rows - n) m) (drop n rows) ≡ take m (drop n rows) =
      ap (λ k. take (min k m) (drop n rows)) (sym (length-drop n rows))
      ∙ take-min m (drop n rows) in
    rw (local offset start) (elim (Bool-cases (reads offset end_limit start (length rows))) [
      | inl h ↦ rw (h, read (reads_some offset end_limit start (length rows) h)) (ap ok cut)
      | inr h ↦ rw h (
          ap ok (
            sym (ap (λ k. take k (drop n rows)) (reads_none offset end_limit start (length rows) h))
            ∙ cut))
    ])

pub slice_sources-window :
    (env : Env) (s : DataManager) (offset end_limit start : ℕ) (items : Items)
    → All (Readable env s) items
    → slice_sources env s offset end_limit start (sized items)
      ≡ ok (window offset end_limit start (items_rows items))
unfolding slice_sources
slice_sources-window env s offset end_limit start [] h =
    ap ok (window_nil (offset - start) (end_limit - (start + (offset - start))))
slice_sources-window env s offset end_limit start ((source, rows) ∷ items) h =
    rw
      (
        slice_source-window env s offset end_limit start source rows h.0,
        slice_sources-window env s offset end_limit (start + length rows) items h.1,
      )
      (ap ok (sym (window-append offset end_limit start rows (items_rows items))))
