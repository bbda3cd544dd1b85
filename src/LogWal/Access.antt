-- ===== src/LogWal/Access.antt =====
-- `get` of lib/pyroduct/src/format/log_wal.rs: any entry of the log by its global index.
use mathlib.Core.Option.{some-injective}
use pyroduct.Base.{ℕ, zero, suc, ◌+◌, ◌≡◌, refl, inl, inr, arith}
use pyroduct.Base.{Option, none, some, List, [], ◌∷◌, length, get_elem?, All, false}
use pyroduct.Base.{◌==◌, if◌then◌else◌, Bool-cases, Option-cases, ne→==_false, get_elem?-none}
use pyroduct.Base.Bytes.{IsU32, IsU64}
use pyroduct.Base.Outcome.{Result, ok}
use pyroduct.LogWal.Files.{Bytes, file}
use pyroduct.LogWal.Index.{should_rebuild, ensure_index_file}
use pyroduct.LogWal.Writer.{LogEntry, Serde, IoError, LogWal, append}
use pyroduct.LogWal.Reader.{decoded, get, lookup_record}
use pyroduct.LogWal.Frames.{frames, offsets, length-offsets}
use pyroduct.LogWal.Lookup.{lookup_record-at, lookup_record_past}
use pyroduct.LogWal.Holds.{Segments, is_live, Holds, payload_at}
use pyroduct.LogWal.Append.{append-Grows}

-- What `get` answers for the payload at an index.
abbrev pub answer : Serde → Option Bytes → Result (Option LogEntry) IoError
answer s none = ok none
answer s (some p) = decoded (s.from_slice p)

-- An index file that lists the offsets is left as it is.
no_rebuild : (ps : List Bytes) → should_rebuild (frames ps) (some (offsets 0 ps)) ≡ false
unfolding should_rebuild frames
no_rebuild [] = unfold offsets in refl
no_rebuild (p ∷ ps) = ground (arith, length-offsets 0 (p ∷ ps))

small_in :
    (ps : List Bytes) (j : ℕ) (p : Bytes)
    → All (λ q. IsU32 (length q)) ps
    → get_elem? ps j ≡ some p
    → IsU32 (length p)
small_in [] j p a e = absurd (cc)
small_in (q ∷ ps) zero p a e = let same : q ≡ p = some-injective q p e in rw same at (a.0)
small_in (q ∷ ps) (suc j) p a e = small_in ps j p a.1 e

-- The record that the index of a segment leads to.
lookup_record-segment :
    (s : Serde) (ps : List Bytes) (j : ℕ)
    → All (λ q. IsU32 (length q)) ps
    → IsU64 (length (frames ps))
    → lookup_record s (some (frames ps)) (some (offsets 0 ps)) j ≡ answer s (get_elem? ps j)
lookup_record-segment s ps j small bound = elim (Option-cases (get_elem? ps j)) [
  | inl past ↦ rw past (lookup_record_past s ps j (get_elem?-none ps j past))
  | inr (p, e) ↦ rw e (lookup_record-at s ps j p e (small_in ps j p small e) bound)
]

module _ {w : LogWal} {segs : Segments} (h : Holds w segs) where
  ensure_index_file-Holds : (k : ℕ) → ensure_index_file w.dir k ≡ w.dir
  unfolding ensure_index_file
  ensure_index_file-Holds k = ground (arith, h.logs k, h.indices k, no_rebuild (segs k))

  lookup_record-Holds :
      (s : Serde) (k j : ℕ)
      → lookup_record s (file w.dir.logs k) (file w.dir.indices k) j
        ≡ answer s (get_elem? (segs k) j)
  lookup_record-Holds s k j = elim (Bool-cases (is_live w k)) [
    | inl live ↦
        rw (h.logs k, h.indices k, live)
          (lookup_record-segment s (segs k) j (h.small k) (h.bounded k))
    | inr dead ↦
        rw (h.logs k, h.indices k, dead, h.no_payloads k dead) (unfold lookup_record in refl)
  ]

  -- On a log that holds its segments, `get` answers with the entry whose payload stands at the index,
  -- with nothing where there is none, and leaves the directory as it is.
  pub get-Holds :
      (s : Serde) (i : ℕ)
      → get s w.dir i w.capacity ≡ (w.dir, answer s (payload_at segs w.capacity i))
  unfolding get
  get-Holds s i =
      rw
        (
          ne→==_false w.capacity 0 (omega (arith, h.positive)),
          ensure_index_file-Holds,
          lookup_record-Holds,
        )
        refl

-- On a log that holds its segments an append succeeds, the entry is then found at the index that was the
-- number of entries, and at every other index `get` answers as before. The entry is one that serde reads back, of less than
-- 4 GiB, in a segment below 2 ^ 64 bytes.
pub get-append :
    (s : Serde) {w : LogWal} {segs : Segments} (e : LogEntry) (p : Bytes)
    → Holds w segs
    → s.to_vec e ≡ some p
    → s.from_slice p ≡ some e
    → IsU32 (length p)
    → IsU64 (w.current_offset + 8 + length p)
    → ((append s w e).1 ≡ ok tt)
      × ((append s w e).0.total_entries ≡ w.total_entries + 1)
      × ((i : ℕ)
          → (get s (append s w e).0.dir i (append s w e).0.capacity).1
            ≡ (if i == w.total_entries then ok (some e) else (get s w.dir i w.capacity).1))
get-append s {w} {segs} e p h enc dec small bound =
    let (done, grown) = append-Grows s e p h enc small bound in
    let g = grown.1 in
    (
      done,
      g.total,
      λ i.
          rw (get-Holds g.holds s i, g.capacity, g.payloads i, get-Holds h s i)
            (elim (Bool-cases (i == w.total_entries)) [
              | inl new ↦ rw (new, dec) refl
              | inr old ↦ rw old refl
            ]),
    )
