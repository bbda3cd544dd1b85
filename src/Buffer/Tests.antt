-- ===== src/Buffer/Tests.antt =====
-- Runs of the buffer, and the theorems at concrete buffers.
use pyroduct.Base.{ℕ, ◌+◌, ◌*◌, ◌%◌, ◌≤◌, ◌<◌, ◌^◌, ◌≡◌, refl, none, some, [], ◌∷◌, arith}
use pyroduct.Header.{header_len, unit_bytes, header_size, align}
use pyroduct.Header.Fields.{view}
use pyroduct.Buffer.{PyroVec, as_slice, grow, extend_from_slice, clone, u32_mod}
use pyroduct.Buffer.Storage.{Store, read}
use pyroduct.Buffer.Growth.{IsValid, grow_lem, grow_panics}
use pyroduct.Buffer.Appending.{Appends, extend_from_slice-Appends}
use pyroduct.Buffer.Copies.{clone_lem}

abbrev blank : Store
blank i = 0

-- Two bytes behind a header, in an allocation of 32.
abbrev two : PyroVec
two = record {
  capacity = 32;
  header = 2 ∷ 0 ∷ 0 ∷ 0 ∷ 5 ∷ 0 ∷ 0 ∷ 0 ∷ 1 ∷ 2 ∷ 0 ∷ 0 ∷ 0 ∷ 0 ∷ 0 ∷ 0 ∷ [];
  store = λ i. i + 7;
}

two_slice : as_slice two ≡ 7 ∷ 8 ∷ []
unfolding as_slice header_len read
two_slice = refl

two-IsValid : IsValid two
unfolding header_len
two-IsValid = omega arith

two_len : header_len two.header ≡ 2
unfolding header_len
two_len = refl

grow_lem_example :
    (cap : ℕ) × (grow two 20 ≡ some (record two { capacity = cap }))
    × (cap % align ≡ 0)
    × (two.capacity * 2 ≤ cap)
    × (header_len two.header + 20 + header_size ≤ cap)
    × (cap < u32_mod)
grow_lem_example = grow_lem two 20 two-IsValid (omega arith) (omega (arith, two_len))

abbrev huge : PyroVec
huge = record { capacity = 2 ^ 31; header = unit_bytes; store = blank }

grow_panics_example : grow huge 1 ≡ none
grow_panics_example = grow_panics huge 1 (omega arith)

extend_from_slice-Appends_example :
    (v' : PyroVec) × (extend_from_slice two (1 ∷ 2 ∷ []) ≡ some v') × Appends two v' (1 ∷ 2 ∷ [])
extend_from_slice-Appends_example =
    extend_from_slice-Appends two (1 ∷ 2 ∷ []) two-IsValid (omega arith) (omega (arith, two_len))

clone_lem_example :
    (w : PyroVec) × (clone blank two ≡ some w)
    × (as_slice w ≡ as_slice two)
    × (view w.header ≡ record (view two.header) { client = 0 })
clone_lem_example = clone_lem blank two two-IsValid (omega arith) (omega (arith, two_len))
