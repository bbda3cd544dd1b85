-- ===== src/LogWal/Holds.antt =====
-- The invariant of `LogWal` in lib/pyroduct/src/format/log_wal.rs: the segment files on disk hold the
-- payloads that a function from segment numbers to lists gives, and the counters agree with them.
use pyroduct.Base.{ℕ, ◌+◌, ◌*◌, ◌/◌, ◌%◌, ◌≤◌, ◌<◌, ◌≡◌, sym, ap, arith}
use pyroduct.Base.{
  Option, none, some, List, [], ◌∷◌, ◌++◌, length, get_elem?, All, Bool, false, ◌&&◌,
}
use pyroduct.Base.{◌==◌, if◌then◌else◌, leb}
use pyroduct.Base.Bytes.{IsU32, IsU64}
use pyroduct.LogWal.Files.{Bytes, file, file-touch}
use pyroduct.LogWal.Writer.{LogWal, rotate}
use pyroduct.LogWal.Frames.{frames, offsets}

-- The payloads of each segment.
abbrev pub Segments : Type 0
Segments = ℕ → List Bytes

abbrev pub update : Segments → ℕ → List Bytes → Segments
update segs k ps j = if k == j then ps else segs j

-- Segment `k` lies between the oldest and the one being written.
abbrev pub is_live : LogWal → ℕ → Bool
is_live w k = leb w.oldest_file_index k && leb k w.current_file_index

abbrev pub log_at : LogWal → Segments → ℕ → Option Bytes
log_at w segs k = if is_live w k then some (frames (segs k)) else none

abbrev pub index_at : LogWal → Segments → ℕ → Option Bytes
index_at w segs k = if is_live w k then some (offsets 0 (segs k)) else none

pub record Holds (w : LogWal) (segs : Segments) : Type 0 where
  pub positive : 0 < w.capacity
  pub ordered : w.oldest_file_index ≤ w.current_file_index
  pub logs : (k : ℕ) → file w.dir.logs k ≡ log_at w segs k
  pub indices : (k : ℕ) → file w.dir.indices k ≡ index_at w segs k
  pub no_payloads : (k : ℕ) → is_live w k ≡ false → segs k ≡ []
  pub small : (k : ℕ) → All (λ p. IsU32 (length p)) (segs k)
  pub bounded : (k : ℕ) → IsU64 (length (frames (segs k)))
  pub full :
      (k : ℕ) → w.oldest_file_index ≤ k → k < w.current_file_index → length (segs k) ≡ w.capacity
  pub entries : length (segs w.current_file_index) ≡ w.current_entries
  pub room : w.current_entries ≤ w.capacity
  pub offset : w.current_offset ≡ length (frames (segs w.current_file_index))
  pub total : w.total_entries ≡ w.current_file_index * w.capacity + w.current_entries

-- The payload at a global index.
abbrev pub payload_at : Segments → ℕ → ℕ → Option Bytes
payload_at segs capacity i = get_elem? (segs (i / capacity)) (i % capacity)

pub All-snoc :
    {A : Type 0} (P : A → Type 0) (xs : List A) (x : A) → All P xs → P x → All P (xs ++ x ∷ [])
All-snoc P [] x h p = (p, tt)
All-snoc P (y ∷ xs) x h p = (h.0, All-snoc P xs x h.1 p)

-- Rotation starts an empty segment.
module _ {w : LogWal} {segs : Segments} (h : Holds w segs)
    (e : w.current_entries ≡ w.capacity) where
  empty_next : segs (w.current_file_index + 1) ≡ []
  empty_next = h.no_payloads (w.current_file_index + 1) (ground arith)

  rotate-logs : (k : ℕ) → file (rotate w).dir.logs k ≡ log_at (rotate w) segs k
  unfolding rotate frames
  rotate-logs k = ground (
    arith,
    file-touch (w.current_file_index + 1) k w.dir.logs,
    h.logs k,
    h.logs (w.current_file_index + 1),
    empty_next,
    h.ordered,
  )

  rotate-indices : (k : ℕ) → file (rotate w).dir.indices k ≡ index_at (rotate w) segs k
  unfolding rotate offsets
  rotate-indices k = ground (
    arith,
    file-touch (w.current_file_index + 1) k w.dir.indices,
    h.indices k,
    h.indices (w.current_file_index + 1),
    empty_next,
    h.ordered,
  )

  full_before :
      (k : ℕ)
      → w.oldest_file_index ≤ k
      → k < w.current_file_index + 1
      → length (segs k) ≡ w.capacity
  full_before k lo hi = ground (arith, h.full k lo, h.entries)

  pub rotate-Holds : Holds (rotate w) segs
  unfolding rotate
  rotate-Holds = record {
    positive = h.positive;
    ordered = omega (arith, h.ordered);
    logs = rotate-logs;
    indices = rotate-indices;
    no_payloads = λ k dead. h.no_payloads k (ground arith);
    small = h.small;
    bounded = h.bounded;
    full = full_before;
    entries = ap length empty_next;
    room = omega arith;
    offset = unfold frames in sym (ap (λ ps. length (frames ps)) empty_next);
    total = omega (arith, h.total);
  }
