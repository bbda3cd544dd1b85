-- ===== src/LogWal/Purge.antt =====
-- `delete_older_than(0)` of lib/pyroduct/src/format/log_wal.rs, the full purge, and what follows it.
use native.Mathlib.Nat.{mul-le-mul_right, div-eq_of_lt}
use pyroduct.Base.{ℕ, ◌+◌, ◌-◌, ◌*◌, ◌≤◌, ◌<◌, ◌≡◌, refl, sym, ap, ◌∙◌, inl, inr, arith}
use pyroduct.Base.{none, some, List, [], ◌∷◌, Bool, true, false, ◌&&◌, ◌||◌}
use pyroduct.Base.{
  ◌==◌, if◌then◌else◌, ==_iff, ne→==_false, lt→ltb, le→leb, lt→leb_false, Bool-cases,
}
use pyroduct.Base.Outcome.{ok}
use pyroduct.LogWal.Files.{
  Bytes, Files, Dir, file, listing, file-put, file-remove_file, file-append_file, remove_file,
  exists,
}
use pyroduct.LogWal.Index.{ensure_index_file}
use pyroduct.LogWal.Writer.{
  LogEntry, Serde, LogWal, append, is_expired, select_expired, delete_files, purge,
  delete_older_than, frame, oldest_log, youngest_log, write_record, rotate_if_full,
}
use pyroduct.LogWal.Reader.{get, lookup_record}
use pyroduct.LogWal.Holds.{Segments, Holds}

elem : ℕ → List ℕ → Bool
elem k [] = false
elem k (j ∷ js) = (j == k) || elem k js

file-delete_files :
    (ks : List ℕ) (dir : Dir) (count k : ℕ)
    → file (delete_files ks dir count).0.logs k ≡ (if elem k ks then none else file dir.logs k)
unfolding delete_files elem
file-delete_files [] dir count k = refl
file-delete_files (j ∷ ks) dir count k = ground (
  arith,
  file-delete_files ks
      (record { logs = remove_file j dir.logs; indices = remove_file j dir.indices })
      (if exists (file dir.logs j) then count + 1 else count) k,
  file-remove_file j k dir.logs,
)

and_false : (b : Bool) → (b && false) ≡ false
and_false true = refl
and_false false = refl

elem-select_expired :
    (w : LogWal) (cutoff k : ℕ) (ks : List ℕ)
    → elem k (select_expired w cutoff ks) ≡ (elem k ks && is_expired w cutoff k)
unfolding select_expired elem
elem-select_expired w cutoff k [] = refl
elem-select_expired w cutoff k (j ∷ ks) = elim (Bool-cases (j == k)) [
  | inl same ↦
      let e : j ≡ k = (==_iff j k).0 same in
      elim (Bool-cases (is_expired w cutoff j)) [
        | inl old ↦ rw (old, same, (sym (ap (is_expired w cutoff) e) ∙ old)) refl
        | inr young ↦
            rw
              (
                young,
                same,
                elem-select_expired w cutoff k ks,
                (sym (ap (is_expired w cutoff) e) ∙ young),
              )
              (and_false (elem k ks))
      ]
  | inr other ↦ elim (Bool-cases (is_expired w cutoff j)) [
    | inl old ↦ rw (old, other) (elem-select_expired w cutoff k ks)
    | inr young ↦ rw (young, other) (elem-select_expired w cutoff k ks)
  ]
]

file-listing : (fs : Files) (k : ℕ) → elem k (listing fs) ≡ false → file fs k ≡ none
unfolding elem listing file
file-listing [] k e = refl
file-listing ((j, b) ∷ fs) k e = ground (arith, file-listing fs k)

purged_dir : LogWal → Dir
purged_dir w =
    (delete_files (select_expired w (w.total_entries - 0) (listing w.dir.logs)) w.dir 0).0

delete_older_than_zero :
    (w : LogWal) → (delete_older_than w 0).0 ≡ purge (record w { dir = purged_dir w })
unfolding delete_older_than purged_dir
delete_older_than_zero w = elim (Bool-cases (w.total_entries - 0 == 0)) [
  | inl nothing ↦ rw (nothing, delete_older_than) refl
  | inr something ↦ rw (something, delete_older_than) refl
]

-- A purge deletes the first segment, unless it is the one being written.
first_deleted :
    {w : LogWal} {segs : Segments}
    → Holds w segs
    → 0 < w.current_file_index
    → file (purged_dir w).logs 0 ≡ none
unfolding purged_dir
first_deleted {w} h pos =
    let whole : (0 + 1) * w.capacity ≤ w.total_entries - 0 =
      omega (arith, h.total, mul-le-mul_right {m = 1} {n = w.current_file_index} w.capacity pos) in
    let expired : is_expired w (w.total_entries - 0) 0 ≡ true =
      rw (lt→ltb 0 w.current_file_index pos)
        (le→leb ((0 + 1) * w.capacity) (w.total_entries - 0) whole) in
    let gone =
      file-delete_files (select_expired w (w.total_entries - 0) (listing w.dir.logs)) w.dir 0 0 in
    elim (Bool-cases (elem 0 (listing w.dir.logs))) [
      | inl listed ↦
          gone
          ∙ rw (elem-select_expired w (w.total_entries - 0) 0 (listing w.dir.logs), listed, expired)
              refl
      | inr missing ↦
          gone
          ∙ rw (elem-select_expired w (w.total_entries - 0) 0 (listing w.dir.logs), missing)
              (file-listing w.dir.logs 0 missing)
    ]

-- What a purge leaves of the first segment and the counters, and an append behind it.
record Purged (w w' : LogWal) (entries : ℕ) : Type 0 where
  current_file_index : w'.current_file_index ≡ w.current_file_index
  oldest_file_index : w'.oldest_file_index ≡ w.current_file_index
  current_entries : w'.current_entries ≡ entries
  total_entries : w'.total_entries ≡ entries
  capacity : w'.capacity ≡ w.capacity
  gone : file w'.dir.logs 0 ≡ none

purge-Purged :
    {w : LogWal} {segs : Segments}
    → Holds w segs
    → 0 < w.current_file_index
    → Purged w (purge (record w { dir = purged_dir w })) 0
unfolding purge
purge-Purged {w} h pos = record {
  current_file_index = refl;
  oldest_file_index = refl;
  current_entries = refl;
  total_entries = refl;
  capacity = refl;
  gone =
      ground (arith, file-put w.current_file_index 0 [] (purged_dir w).logs, first_deleted h pos);
}

append-Purged :
    (s : Serde) {w w' : LogWal} (e : LogEntry) (p : Bytes)
    → Purged w w' 0
    → 0 < w.current_file_index
    → 0 < w.capacity
    → s.to_vec e ≡ some p
    → Purged w (append s w' e).0 1
unfolding append rotate_if_full write_record
append-Purged s {w} {w'} e p h pos room enc =
    rw
      (
        enc,
        lt→leb_false w'.capacity w'.current_entries (omega (arith, h.current_entries, h.capacity)),
      )
      (record {
        current_file_index = h.current_file_index;
        oldest_file_index = h.oldest_file_index;
        current_entries = omega (arith, h.current_entries);
        total_entries = omega (arith, h.total_entries);
        capacity = h.capacity;
        gone = ground (
          arith,
          file-append_file w'.current_file_index 0 (frame p) w'.dir.logs,
          h.gone,
          h.current_file_index,
        );
      })

ensure_index_file_missing : (dir : Dir) → file dir.logs 0 ≡ none → ensure_index_file dir 0 ≡ dir
unfolding ensure_index_file
ensure_index_file_missing dir gone = ground (arith, gone)

get_missing :
    (s : Serde) (dir : Dir) (capacity : ℕ)
    → 0 < capacity
    → file dir.logs 0 ≡ none
    → (get s dir 0 capacity).1 ≡ ok none
unfolding get lookup_record
get_missing s dir capacity pos gone =
    rw
      (
        ne→==_false capacity 0 (omega arith),
        div-eq_of_lt pos,
        ensure_index_file_missing dir gone,
        gone,
      )
      refl

-- After a full purge of a log of more than one segment and the append of an entry that serde encodes, the
-- log counts one entry and calls index 0 the youngest, but `get` finds nothing at index 0, and the index
-- that the log calls the oldest is the first of its last segment, above the youngest.
pub purge_loses :
    (s : Serde) {w : LogWal} {segs : Segments} (e : LogEntry) (p : Bytes)
    → Holds w segs
    → 0 < w.current_file_index
    → s.to_vec e ≡ some p
    → (youngest_log (append s (delete_older_than w 0).0 e).0 ≡ some 0)
      × (oldest_log (append s (delete_older_than w 0).0 e).0
          ≡ some (w.current_file_index * w.capacity))
      × ((get s (append s (delete_older_than w 0).0 e).0.dir 0 w.capacity).1 ≡ ok none)
unfolding youngest_log oldest_log
purge_loses s {w} e p h pos enc =
    let before : Purged w (delete_older_than w 0).0 0 =
      rw (delete_older_than_zero w) (purge-Purged h pos) in
    let q = append-Purged s e p before pos h.positive enc in
    (
      rw q.total_entries refl,
      rw (q.total_entries, q.oldest_file_index, q.capacity) refl,
      get_missing s (append s (delete_older_than w 0).0 e).0.dir w.capacity h.positive q.gone,
    )
