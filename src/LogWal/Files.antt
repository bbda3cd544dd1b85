-- ===== src/LogWal/Files.antt =====
-- The directory of a log, as lib/pyroduct/src/format/log_wal.rs uses it: the files `{n}.pyrolog` and
-- `{n}.pyrolog.idx` with their bytes, by number, in the order in which `read_dir` lists them.
-- Operations of the file system succeed; what a `BufWriter` holds counts as in its file.
use pyroduct.Base.{ℕ, ◌+◌, ◌≡◌, refl, Option, none, some, List, [], ◌∷◌, ◌++◌, arith}
use pyroduct.Base.{length, take, drop, leb, ◌==◌, if◌then◌else◌, Bool, true, false}

abbrev pub Bytes : Type 0
Bytes = List ℕ

abbrev pub Files : Type 0
Files = List (ℕ × Bytes)

pub record Dir : Type 0 where
  pub logs : Files
  pub indices : Files

abbrev pub empty_dir : Dir
empty_dir = record { logs = []; indices = [] }

unfoldable pub file : Files → ℕ → Option Bytes
file [] k = none
file ((j, b) ∷ fs) k = if j == k then some b else file fs k

-- Replaces a file, or creates it.
unfoldable pub put : ℕ → Bytes → Files → Files
put k b [] = (k, b) ∷ []
put k b ((j, c) ∷ fs) = if j == k then (k, b) ∷ fs else (j, c) ∷ put k b fs

unfoldable pub remove_file : ℕ → Files → Files
remove_file k [] = []
remove_file k ((j, c) ∷ fs) = let rest = remove_file k fs in if j == k then rest else (j, c) ∷ rest

unfoldable pub listing : Files → List ℕ
listing [] = []
listing ((j, c) ∷ fs) = j ∷ listing fs

abbrev pub contents : Option Bytes → Bytes
contents none = []
contents (some b) = b

abbrev pub exists : Option Bytes → Bool
exists none = false
exists (some b) = true

-- `OpenOptions::new().create(true).append(true).open`.
unfoldable pub touch : ℕ → Files → Files
touch k fs = put k (contents (file fs k)) fs

-- A write through a handle that appends.
unfoldable pub append_file : ℕ → Bytes → Files → Files
append_file k bytes fs = put k (contents (file fs k) ++ bytes) fs

-- `seek` to an offset and `read_exact` of `n` bytes; `none` is an unexpected end of file.
unfoldable pub read_exact : Bytes → ℕ → ℕ → Option Bytes
read_exact bytes off n =
    if leb (off + n) (length bytes) then some (take n (drop off bytes)) else none

pub file-put :
    (k j : ℕ) (b : Bytes) (fs : Files)
    → file (put k b fs) j ≡ (if k == j then some b else file fs j)
unfolding file put
file-put k j b [] = refl
file-put k j b ((i, c) ∷ fs) = ground (arith, file-put k j b fs)

pub file-remove_file :
    (k j : ℕ) (fs : Files) → file (remove_file k fs) j ≡ (if k == j then none else file fs j)
unfolding file remove_file
file-remove_file k j [] = ground arith
file-remove_file k j ((i, c) ∷ fs) = ground (arith, file-remove_file k j fs)

pub file-touch :
    (k j : ℕ) (fs : Files)
    → file (touch k fs) j ≡ (if k == j then some (contents (file fs k)) else file fs j)
unfolding touch
file-touch k j fs = file-put k j _ fs

pub file-append_file :
    (k j : ℕ) (b : Bytes) (fs : Files)
    → file (append_file k b fs) j ≡ (if k == j then some (contents (file fs k) ++ b) else file fs j)
unfolding append_file
file-append_file k j b fs = file-put k j _ fs
