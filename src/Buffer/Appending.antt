-- ===== src/Buffer/Appending.antt =====
-- Writing into a `PyroVec` of lib/pyroduct/src/format/vec_buf.rs: a list of bytes that grows at its end.
use mathlib.Core.Path.{ap₂}
use native.Mathlib.Nat.{zero-add}
use pyroduct.Base.{ℕ, ◌+◌, ◌*◌, ◌%◌, ◌≤◌, ◌<◌, ◌≡◌, refl, ap, ◌==◌, ◌-◌, some, arith}
use pyroduct.Base.{List, [], ◌∷◌, ◌++◌, length, ltb, Bool-cases, inl, inr}
use pyroduct.Header.{header_len, header_size, align, set_len}
use pyroduct.Header.Fields.{view, view-set_len, length-set_len}
use pyroduct.Buffer.{PyroVec, as_slice, push, extend_from_slice, with_capacity, clear, u32_mod}
use pyroduct.Buffer.Storage.{Store, read, write, read-add, read-write_before, read-write_self}
use pyroduct.Buffer.Growth.{IsValid, grow_lem}

-- A buffer after `bytes` were written behind its payload, in an allocation of `room` bytes.
abbrev appended : PyroVec → ℕ → List ℕ → PyroVec
appended v room bytes = record {
  capacity = room;
  header = set_len v.header (header_len v.header + length bytes);
  store = write v.store (header_len v.header) bytes;
}

module _ (v : PyroVec) (room : ℕ) (bytes : List ℕ) (whole : length v.header ≡ header_size)
    (enough : header_len v.header + length bytes + header_size ≤ room)
    (bound : room < u32_mod) where
  appended-view :
      view (appended v room bytes).header
      ≡ record (view v.header) { len = header_len v.header + length bytes }
  appended-view = view-set_len v.header _ whole (omega arith)

  appended-len : header_len (appended v room bytes).header ≡ header_len v.header + length bytes
  appended-len = ap (λ f. f.len) appended-view

  appended-IsValid : IsValid (appended v room bytes)
  appended-IsValid = record {
    whole = length-set_len v.header _ whole;
    fits = rw appended-len enough;
    bounded = bound;
  }

  appended-as_slice : as_slice (appended v room bytes) ≡ as_slice v ++ bytes
  unfolding as_slice
  appended-as_slice =
      rw (appended-len, read-add, zero-add)
        (ap₂ ◌++◌
          (read-write_before v.store 0 (header_len v.header) (header_len v.header) bytes
            (omega arith))
          (read-write_self v.store (header_len v.header) bytes))

-- What `extend_from_slice` and `push` promise: the bytes stand behind the old ones, the result is
-- valid, and the header says the same but for its length.
pub record Appends (v v' : PyroVec) (bytes : List ℕ) : Type 0 where
  pub slice : as_slice v' ≡ as_slice v ++ bytes
  pub valid : IsValid v'
  pub fields : view v'.header ≡ record (view v.header) { len = header_len v.header + length bytes }
  pub larger : v.capacity ≤ v'.capacity

Appends-appended :
    (v : PyroVec) (room : ℕ) (bytes : List ℕ)
    → IsValid v
    → header_len v.header + length bytes + header_size ≤ room
    → room < u32_mod
    → v.capacity ≤ room
    → Appends v (appended v room bytes) bytes
Appends-appended v room bytes h enough bound larger = record {
  slice = appended-as_slice v room bytes h.whole enough bound;
  valid = appended-IsValid v room bytes h.whole enough bound;
  fields = appended-view v room bytes h.whole enough bound;
  larger = larger;
}

no_wrap : (n : ℕ) → n < u32_mod → n % u32_mod ≡ n
no_wrap n h = omega arith

-- On a well-formed buffer `extend_from_slice` appends. It does not panic where twice the capacity, and the bytes to hold, leave
-- a `u32` the room to be rounded up.
pub extend_from_slice-Appends :
    (v : PyroVec) (other : List ℕ)
    → IsValid v
    → v.capacity * 2 + align ≤ u32_mod
    → header_len v.header + length other + header_size + align ≤ u32_mod
    → (v' : PyroVec) × (extend_from_slice v other ≡ some v') × Appends v v' other
unfolding extend_from_slice
extend_from_slice-Appends v other h small room =
    elim (Bool-cases (ltb v.capacity (header_len v.header + length other + header_size))) [
      | inl full ↦
          let (room', e, _, twice, enough, bound) = grow_lem v (length other) h small room in
          (
            appended v room' other,
            rw (full, e, no_wrap (header_len v.header + length other) (omega arith)) refl,
            Appends-appended v room' other h enough bound (omega arith),
          )
      | inr fits ↦ (
        appended v v.capacity other,
        rw (fits, no_wrap (header_len v.header + length other) (omega arith)) refl,
        Appends-appended v v.capacity other h (ground arith) h.bounded (omega arith),
      )
    ]

-- On a well-formed buffer `push` appends one byte. It does not panic where twice the capacity, and the
-- bytes to hold, leave a `u32` the room to be rounded up.
pub push-Appends :
    (v : PyroVec) (byte : ℕ)
    → IsValid v
    → v.capacity * 2 + align ≤ u32_mod
    → header_len v.header + 1 + header_size + align ≤ u32_mod
    → (v' : PyroVec) × (push v byte ≡ some v') × Appends v v' (byte ∷ [])
unfolding push
push-Appends v byte h small room =
    elim (Bool-cases (header_len v.header == v.capacity - header_size)) [
      | inl full ↦
          let (room', e, _, twice, enough, bound) = grow_lem v 1 h small room in
          (
            appended v room' (byte ∷ []),
            rw (full, e),
            Appends-appended v room' (byte ∷ []) h enough bound (omega arith),
          )
      | inr fits ↦ (
        appended v v.capacity (byte ∷ []),
        rw fits,
        Appends-appended v v.capacity (byte ∷ []) h (ground arith) h.bounded (omega arith),
      )
    ]

-- On a well-formed buffer `clear` empties it, and keeps its allocation and the other fields of its header.
pub clear_lem :
    (v : PyroVec)
    → IsValid v
    → (as_slice (clear v) ≡ [])
      × IsValid (clear v)
      × (view (clear v).header ≡ record (view v.header) { len = 0 })
      × ((clear v).capacity ≡ v.capacity)
unfolding clear as_slice
clear_lem v h =
    let e = view-set_len v.header 0 h.whole (omega arith) in
    (
      rw (ap (λ f. f.len) e) (unfold read in refl),
      record {
        whole = length-set_len v.header 0 h.whole;
        fits = rw (ap (λ f. f.len) e) (omega arith);
        bounded = h.bounded;
      },
      e,
      refl,
    )

-- A new buffer is valid and empty, for a capacity that a `u32` holds with the header.
pub with_capacity-IsValid :
    (mem : Store) (capacity : ℕ)
    → capacity + header_size < u32_mod
    → IsValid (with_capacity mem capacity) × (as_slice (with_capacity mem capacity) ≡ [])
unfolding with_capacity as_slice header_len
with_capacity-IsValid mem capacity h =
    (record { whole = refl; fits = omega arith; bounded = omega arith }, unfold read in refl)
