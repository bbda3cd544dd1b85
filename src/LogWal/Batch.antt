-- ===== src/LogWal/Batch.antt =====
-- `append_batch` of lib/pyroduct/src/format/log_wal.rs, and a fresh log: the log is a list of entries.
use pyroduct.Base.{
  ℕ, zero, suc, ◌+◌, ◌-◌, ◌/◌, ◌%◌, ◌≤◌, ◌<◌, ◌≡◌, refl, sym, ap, ◌∙◌, inl, inr, arith,
}
use pyroduct.Base.{Option, none, some, List, [], ◌∷◌, length, get_elem?}
use pyroduct.Base.{◌==◌, if◌then◌else◌, ltb, lt→leb_false, Bool-cases, get_elem?-ge, length-append}
use pyroduct.Base.Bytes.{IsU32, IsU64}
use pyroduct.Base.Outcome.{ok}
use pyroduct.LogWal.Files.{Bytes, file, empty_dir, touch, put, listing, read_exact}
use pyroduct.LogWal.Index.{ensure_index_file, should_rebuild, rebuild}
use pyroduct.LogWal.Writer.{LogEntry, Serde, LogWal, open_wal, sort, append_batch}
use pyroduct.LogWal.Reader.{get}
use pyroduct.LogWal.Frames.{frames, offsets, length-frame}
use pyroduct.LogWal.Writer.{frame}
use native.Mathlib.Nat.{div-add-mod', mod-lt, le-div_iff_mul-le}
use pyroduct.LogWal.Holds.{Segments, Holds, payload_at}
use pyroduct.LogWal.Append.{Grows, append-Grows}
use pyroduct.LogWal.Access.{answer, get-Holds}

-- The payloads that serde writes for some entries, and reads back as them, each below 4 GiB.
abbrev pub Stored : Serde → List LogEntry → List Bytes → Type 0
Stored s [] [] = Unit
Stored s (e ∷ es) (p ∷ ps) =
    (s.to_vec e ≡ some p) × (s.from_slice p ≡ some e) × IsU32 (length p) × Stored s es ps
Stored s _ _ = ⊥

abbrev batch_at : Segments → LogWal → List Bytes → ℕ → Option Bytes
batch_at segs w ps i =
    if ltb i w.total_entries
    then payload_at segs w.capacity i
    else get_elem? ps (i - w.total_entries)

cons_at :
    (p : Bytes) (ps : List Bytes) (n : ℕ)
    → get_elem? (p ∷ ps) n ≡ (if n == 0 then some p else get_elem? ps (n - 1))
cons_at p ps zero = refl
cons_at p ps (suc n) = ground arith

last_segment :
    {w : LogWal} {segs : Segments} (h : Holds w segs) (i : ℕ)
    → w.total_entries ≤ i
    → w.current_file_index ≤ i / w.capacity
last_segment {w} h i past = (le-div_iff_mul-le h.positive).1 (omega (arith, h.total))

-- There is nothing at or past the number of entries.
payload_at_past :
    {w : LogWal} {segs : Segments} (h : Holds w segs) (i : ℕ)
    → w.total_entries ≤ i
    → payload_at segs w.capacity i ≡ none
payload_at_past {w} {segs} h i past =
    elim (Bool-cases (ltb w.current_file_index (i / w.capacity))) [
      | inl later ↦ rw (h.no_payloads (i / w.capacity) (ground arith)) refl
      | inr here ↦ get_elem?-ge (segs (i / w.capacity)) (i % w.capacity) (
          ground (
            arith,
            h.entries,
            h.total,
            h.positive,
            div-add-mod' i w.capacity,
            mod-lt i h.positive,
            last_segment h i past,
          ))
    ]

-- A batch of payloads on a log: the log still holds, the batch stands at the next indices, and every
-- other index is as it was.
pub record Batch (w : LogWal) (segs : Segments) (ps : List Bytes) (w' : LogWal) (segs' : Segments)
    : Type 0 where
  pub holds : Holds w' segs'
  pub total : w'.total_entries ≡ w.total_entries + length ps
  pub capacity : w'.capacity ≡ w.capacity
  pub payloads : (i : ℕ) → payload_at segs' w.capacity i ≡ batch_at segs w ps i

no-Batch : {w : LogWal} {segs : Segments} (h : Holds w segs) → Batch w segs [] w segs
no-Batch {w} {segs} h = record {
  holds = h;
  total = omega arith;
  capacity = refl;
  payloads = λ i. ground (arith, payload_at_past h i);
}

cons-Batch :
    {w w₁ w₂ : LogWal} {segs segs₁ segs₂ : Segments} {p : Bytes} {ps : List Bytes}
    → Grows w segs p w₁ segs₁
    → Batch w₁ segs₁ ps w₂ segs₂
    → Batch w segs (p ∷ ps) w₂ segs₂
cons-Batch {w} {w₁} {segs = segs} {segs₁ = segs₁} {segs₂ = segs₂} {p = p} {ps = ps} g b = record {
  holds = b.holds;
  total = omega (arith, b.total, g.total);
  capacity = b.capacity ∙ g.capacity;
  payloads = λ i.
      ground (
        arith,
        g.capacity,
        b.payloads i,
        g.payloads i,
        g.total,
        cons_at p ps (i - w.total_entries),
      );
}

pub append_batch-Batch :
    (s : Serde) (es : List LogEntry) (ps : List Bytes) {w : LogWal} {segs : Segments}
    → Holds w segs
    → Stored s es ps
    → IsU64 (w.current_offset + length (frames ps))
    → ((append_batch s w es).1 ≡ ok tt)
      × ((segs' : Segments) × Batch w segs ps (append_batch s w es).0 segs')
unfolding append_batch frames
append_batch-Batch s [] [] {w} {segs} h st bound = (refl, (segs, no-Batch h))
append_batch-Batch s (e ∷ es) (p ∷ ps) {w} {segs} h (enc, dec, small, st) bound =
    let (done, (segs₁, g)) =
      append-Grows s e p h enc small
        (omega (arith, length-append (frame p) (frames ps), length-frame p)) in
    let (done₂, (segs₂, b)) =
      append_batch-Batch s es ps g.holds st
        (omega (arith, g.offset, length-append (frame p) (frames ps), length-frame p)) in
    rw (done, append_batch) (done₂, (segs₂, cons-Batch g b))
append_batch-Batch s [] (p ∷ ps) h st bound = absurd st
append_batch-Batch s (e ∷ es) [] h st bound = absurd st

abbrev fresh : ℕ → LogWal
fresh capacity = record {
  dir = record { logs = (0, []) ∷ []; indices = (0, []) ∷ [] };
  capacity = capacity;
  current_file_index = 0;
  oldest_file_index = 0;
  current_entries = 0;
  total_entries = 0;
  current_offset = 0;
}

open_wal-fresh : (capacity : ℕ) → 0 < capacity → open_wal empty_dir capacity ≡ fresh capacity
unfolding open_wal ensure_index_file should_rebuild rebuild touch put file listing sort read_exact
open_wal-fresh capacity pos = rw (lt→leb_false capacity 0 pos) refl

fresh-Holds : (capacity : ℕ) → 0 < capacity → Holds (fresh capacity) (λ _. [])
unfolding file frames offsets
fresh-Holds capacity pos = record {
  positive = pos;
  ordered = omega arith;
  logs = λ k. ground arith;
  indices = λ k. ground arith;
  no_payloads = λ k dead. refl;
  small = λ k. tt;
  bounded = λ k. omega arith;
  full = λ k lo hi. absurd (omega arith);
  entries = refl;
  room = omega arith;
  offset = refl;
  total = omega arith;
}

-- A log opened on an empty directory holds nothing.
pub open_wal-Holds : (capacity : ℕ) → 0 < capacity → Holds (open_wal empty_dir capacity) (λ _. [])
open_wal-Holds capacity pos = rw (open_wal-fresh capacity pos) (fresh-Holds capacity pos)

-- On an empty log only the batch is there.
payload_at-first :
    {w w' : LogWal} {segs : Segments} {ps : List Bytes} (capacity : ℕ)
    → w ≡ fresh capacity
    → Batch w (λ _. []) ps w' segs
    → (i : ℕ) → payload_at segs w'.capacity i ≡ get_elem? ps i
payload_at-first capacity e b i =
    ground (arith, b.payloads i, b.capacity, ap (λ w. w.total_entries) e)

get-first :
    (s : Serde) {w w' : LogWal} {segs : Segments} {ps : List Bytes} (capacity : ℕ)
    → w ≡ fresh capacity
    → Batch w (λ _. []) ps w' segs
    → (i : ℕ) → (get s w'.dir i capacity).1 ≡ answer s (get_elem? ps i)
get-first s {w' = w'} {segs = segs} {ps = ps} capacity e b i =
    rw
      (
        sym (b.capacity ∙ ap (λ w. w.capacity) e),
        get-Holds b.holds s i,
        payload_at-first capacity e b i,
      )
      refl

-- What serde reads back, by index.
answer-Stored :
    (s : Serde) (es : List LogEntry) (ps : List Bytes) (i : ℕ)
    → Stored s es ps
    → answer s (get_elem? ps i) ≡ ok (get_elem? es i)
answer-Stored s [] [] i st = refl
answer-Stored s (e ∷ es) (p ∷ ps) zero st = rw st.1 refl
answer-Stored s (e ∷ es) (p ∷ ps) (suc i) st = answer-Stored s es ps i st.3
answer-Stored s [] (p ∷ ps) i st = absurd st
answer-Stored s (e ∷ es) [] i st = absurd st

-- A batch appended to a log that was opened on an empty directory is written without an error, and from
-- then on `get` answers at every index, also past the end, with the entry of the batch at that index,
-- however many segments of the capacity, which is above 0, the batch fills. Each entry is one that serde reads back, of less than 4 GiB,
-- and the segments' lengths are below 2 ^ 64.
pub append_batch-get :
    (s : Serde) (capacity : ℕ) (es : List LogEntry) (ps : List Bytes)
    → 0 < capacity
    → Stored s es ps
    → IsU64 (length (frames ps))
    → ((append_batch s (open_wal empty_dir capacity) es).1 ≡ ok tt)
      × ((append_batch s (open_wal empty_dir capacity) es).0.total_entries ≡ length ps)
      × ((i : ℕ)
          → (get s (append_batch s (open_wal empty_dir capacity) es).0.dir i capacity).1
            ≡ ok (get_elem? es i))
append_batch-get s capacity es ps pos st bound =
    let (done, (segs, b)) =
      append_batch-Batch s es ps (open_wal-Holds capacity pos) st
        (rw (open_wal-fresh capacity pos) (omega (arith, bound))) in
    let start = open_wal-fresh capacity pos in
    (
      done,
      b.total ∙ rw start (omega arith),
      λ i. get-first s capacity start b i ∙ answer-Stored s es ps i st,
    )
