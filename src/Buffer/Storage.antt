-- ===== src/Buffer/Storage.antt =====
-- The bytes of an allocation, and reading and writing ranges of them (`from_raw_parts`,
-- `copy_nonoverlapping`).
use pyroduct.Base.{ℕ, zero, suc, ◌+◌, ◌-◌, ◌≤◌, ◌<◌, ◌≡◌, refl, ap, arith}
use pyroduct.Base.{List, [], ◌∷◌, ◌++◌, length, get_or, drop, ltb, leb, ◌&&◌, if◌then◌else◌}

abbrev pub Store : Type 0
Store = ℕ → ℕ

unfoldable pub read : Store → ℕ → ℕ → List ℕ
read s off zero = []
read s off (suc n) = s off ∷ read s (suc off) n

unfoldable pub write : Store → ℕ → List ℕ → Store
write s off bytes i =
    if leb off i && ltb i (off + length bytes) then get_or bytes (i - off) 0 else s i

pub length-read : (s : Store) (off n : ℕ) → length (read s off n) ≡ n
unfolding read
length-read s off zero = refl
length-read s off (suc n) = ap suc (length-read s (suc off) n)

pub read-add : (s : Store) (off n m : ℕ) → read s off (n + m) ≡ read s off n ++ read s (off + n) m
unfolding read
read-add s off zero m = ground arith
read-add s off (suc n) m =
    let e : suc n + m ≡ suc (n + m) = omega arith in
    let d : off + suc n ≡ suc off + n = omega arith in
    rw (e, d) (ap (λ t. s off ∷ t) (read-add s (suc off) n m))

-- What lies wholly before the written range is read as it was.
pub read-write_before :
    (s : Store) (off at n : ℕ) (bytes : List ℕ)
    → off + n ≤ at
    → read (write s at bytes) off n ≡ read s off n
unfolding read write
read-write_before s off at zero bytes h = refl
read-write_before s off at (suc n) bytes h =
    ground (arith, read-write_before s (suc off) at n bytes)

drop_cons :
    (k : ℕ) (bytes : List ℕ) (x : ℕ) (rest : List ℕ)
    → drop k bytes ≡ x ∷ rest
    → (get_or bytes k 0 ≡ x) × (drop (suc k) bytes ≡ rest) × (k < length bytes)
drop_cons zero [] x rest e = cc
drop_cons (suc k) [] x rest e = cc
drop_cons zero (y ∷ bytes) x rest e = ground arith
drop_cons (suc k) (y ∷ bytes) x rest e = ground (arith, drop_cons k bytes x rest e)

read-write_from :
    (s : Store) (off k at : ℕ) (bytes rest : List ℕ)
    → drop k bytes ≡ rest
    → at ≡ off + k
    → read (write s off bytes) at (length rest) ≡ rest
unfolding read write
read-write_from s off k at bytes [] e p = refl
read-write_from s off k at bytes (x ∷ rest) e p =
    ground (arith, drop_cons k bytes x rest e, read-write_from s off (suc k) (suc at) bytes rest)

-- The written range is read back.
pub read-write_self :
    (s : Store) (off : ℕ) (bytes : List ℕ) → read (write s off bytes) off (length bytes) ≡ bytes
read-write_self s off bytes = read-write_from s off 0 off bytes bytes refl (omega arith)
