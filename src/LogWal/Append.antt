-- ===== src/LogWal/Append.antt =====
-- `append` of lib/pyroduct/src/format/log_wal.rs adds one payload at the end of the log.
use native.Mathlib.Nat.{
  mul-add-div_right, mul-add-mod_self_right, div-eq_of_lt, mod-eq_of_lt, div-add-mod',
}
use pyroduct.Base.{ℕ, zero, suc, ◌+◌, ◌*◌, ◌/◌, ◌%◌, ◌≤◌, ◌<◌, ◌≡◌, refl, ◌∙◌, inl, inr, arith}
use pyroduct.Base.{some, List, [], ◌∷◌, ◌++◌, length, get_elem?, All}
use pyroduct.Base.{◌==◌, if◌then◌else◌, length-append, leb→le, leb_false→lt, Bool-cases, leb}
use pyroduct.Base.Bytes.{IsU32, IsU64, to_le}
use pyroduct.Base.Outcome.{ok}
use pyroduct.LogWal.Files.{Bytes, file, file-append_file}
use pyroduct.LogWal.Writer.{LogEntry, Serde, LogWal, rotate, write_record, frame, append}
use pyroduct.LogWal.Frames.{frames, offsets, length-frame, frames-snoc, offsets-split}
use pyroduct.LogWal.Holds.{
  Segments, update, log_at, index_at, Holds, payload_at, All-snoc, rotate-Holds,
}

-- The segments after a payload was written behind the last.
abbrev pub extended : Segments → ℕ → Bytes → Segments
extended segs cur p = update segs cur (segs cur ++ p ∷ [])

module _ {w : LogWal} {segs : Segments} (h : Holds w segs) (p : Bytes)
    (slot : w.current_entries < w.capacity) (small : IsU32 (length p))
    (bound : IsU64 (w.current_offset + 8 + length p)) where
  after : Segments
  after = extended segs w.current_file_index p

  write-logs : (k : ℕ) → file (write_record w p).dir.logs k ≡ log_at (write_record w p) after k
  unfolding write_record after
  write-logs k = ground (
    arith,
    file-append_file w.current_file_index k (frame p) w.dir.logs,
    h.logs k,
    frames-snoc (segs w.current_file_index) p,
    h.ordered,
  )

  index-snoc :
      offsets 0 (segs w.current_file_index ++ p ∷ [])
      ≡ offsets 0 (segs w.current_file_index) ++ to_le 8 w.current_offset
  index-snoc = rw h.offset (offsets-split (segs w.current_file_index) [] p ∙ unfold offsets in refl)

  write-indices :
      (k : ℕ) → file (write_record w p).dir.indices k ≡ index_at (write_record w p) after k
  unfolding write_record after
  write-indices k = ground (
    arith,
    file-append_file w.current_file_index k (to_le 8 w.current_offset) w.dir.indices,
    h.indices k,
    index-snoc,
    h.ordered,
  )

  write-small : (k : ℕ) → All (λ p. IsU32 (length p)) (after k)
  unfolding after
  write-small k = elim (Bool-cases (w.current_file_index == k)) [
    | inl here ↦
        rw here (All-snoc _ (segs w.current_file_index) p (h.small w.current_file_index) small)
    | inr away ↦ rw away (h.small k)
  ]

  length-log :
      length (frames (segs w.current_file_index ++ p ∷ [])) ≡ w.current_offset + (4 + 4 + length p)
  length-log = rw frames-snoc (
      omega (
        arith,
        length-append (frames (segs w.current_file_index)) (frame p),
        length-frame p,
        h.offset,
      ))

  write-bounded : (k : ℕ) → IsU64 (length (frames (after k)))
  unfolding after
  write-bounded k = elim (Bool-cases (w.current_file_index == k)) [
    | inl here ↦ rw (here, length-log) (omega arith)
    | inr away ↦ rw away (h.bounded k)
  ]

  write-Holds : Holds (write_record w p) after
  unfolding write_record after
  write-Holds = record {
    positive = h.positive;
    ordered = h.ordered;
    logs = write-logs;
    indices = write-indices;
    no_payloads = λ k dead. ground (arith, h.no_payloads k dead, h.ordered);
    small = write-small;
    bounded = write-bounded;
    full = λ k lo hi. ground (arith, h.full k lo hi);
    entries = ground (arith, h.entries, length-append (segs w.current_file_index) (p ∷ []));
    room = omega arith;
    offset = ground (arith, length-log);
    total = omega (arith, h.total);
  }

-- A global index, by segment and place.
pub index_parts : (c q e : ℕ) → 0 < c → e < c → ((q * c + e) / c ≡ q) × ((q * c + e) % c ≡ e)
index_parts c q e pos lt = (
  omega (arith, mul-add-div_right pos q e, div-eq_of_lt lt),
  mul-add-mod_self_right q c e ∙ mod-eq_of_lt lt,
)

get_elem?-snoc :
    (xs : List Bytes) (p : Bytes) (r : ℕ)
    → get_elem? (xs ++ p ∷ []) r ≡ (if r == length xs then some p else get_elem? xs r)
get_elem?-snoc [] p zero = refl
get_elem?-snoc [] p (suc r) = ground arith
get_elem?-snoc (x ∷ xs) p zero = ground arith
get_elem?-snoc (x ∷ xs) p (suc r) = ground (arith, get_elem?-snoc xs p r)

module _ {w : LogWal} {segs : Segments} (h : Holds w segs) (p : Bytes)
    (slot : w.current_entries < w.capacity) where
  payload_at-extended :
      (i : ℕ)
      → payload_at (extended segs w.current_file_index p) w.capacity i
        ≡ (if i == w.total_entries then some p else payload_at segs w.capacity i)
  payload_at-extended i =
      let (q, r) = index_parts w.capacity w.current_file_index w.current_entries h.positive slot in
      ground (
        arith,
        q,
        r,
        h.total,
        h.entries,
        div-add-mod' i w.capacity,
        get_elem?-snoc (segs w.current_file_index) p (i % w.capacity),
      )

-- What an append of `p` does to a log: it still holds, one entry longer, with `p` at the next index and
-- every other index as it was.
pub record Grows (w : LogWal) (segs : Segments) (p : Bytes) (w' : LogWal) (segs' : Segments)
    : Type 0 where
  pub holds : Holds w' segs'
  pub total : w'.total_entries ≡ w.total_entries + 1
  pub capacity : w'.capacity ≡ w.capacity
  pub offset : w'.current_offset ≤ w.current_offset + (8 + length p)
  pub payloads :
      (i : ℕ)
      → payload_at segs' w.capacity i
        ≡ (if i == w.total_entries then some p else payload_at segs w.capacity i)

write-Grows :
    {w : LogWal} {segs : Segments} (h : Holds w segs) (p : Bytes)
    → w.current_entries < w.capacity
    → IsU32 (length p)
    → IsU64 (w.current_offset + 8 + length p)
    → Grows w segs p (write_record w p) (extended segs w.current_file_index p)
unfolding write_record
write-Grows {w} h p slot small bound = record {
  holds = unfold after in write-Holds h p slot small bound;
  total = refl;
  capacity = refl;
  offset = omega arith;
  payloads = payload_at-extended h p slot;
}

rotated :
    {w : LogWal} {segs : Segments} (h : Holds w segs) (p : Bytes)
    → w.current_entries ≡ w.capacity
    → IsU32 (length p)
    → IsU64 (8 + length p)
    → Grows w segs p (write_record (rotate w) p) (extended segs (w.current_file_index + 1) p)
unfolding rotate
rotated h p at_limit small bound =
    let g = write-Grows (rotate-Holds h at_limit) p h.positive small (omega arith) in
    record {
      holds = g.holds;
      total = g.total;
      capacity = g.capacity;
      offset = omega (arith, g.offset);
      payloads = g.payloads;
    }

-- An append of an entry that encodes to less than 4 GiB, to a segment below 2 ^ 64 bytes, succeeds, and
-- does that, after a rotation where the segment is full.
pub append-Grows :
    (s : Serde) {w : LogWal} {segs : Segments} (e : LogEntry) (p : Bytes)
    → Holds w segs
    → s.to_vec e ≡ some p
    → IsU32 (length p)
    → IsU64 (w.current_offset + 8 + length p)
    → ((append s w e).1 ≡ ok tt) × ((segs' : Segments) × Grows w segs p (append s w e).0 segs')
unfolding append
append-Grows s {w} {segs} e p h enc small bound =
    elim (Bool-cases (leb w.capacity w.current_entries)) [
      | inl full ↦
          let at_limit : w.current_entries ≡ w.capacity =
            omega (arith, leb→le w.capacity w.current_entries full, h.room) in
          rw (full, enc)
            (
              refl,
              (
                extended segs (w.current_file_index + 1) p,
                rotated h p at_limit small (omega arith),
              ),
            )
      | inr free ↦
          rw (free, enc)
            (
              refl,
              (
                extended segs w.current_file_index p,
                write-Grows h p (leb_false→lt w.capacity w.current_entries free) small bound,
              ),
            )
    ]
