-- ===== src/Buffer/Copies.antt =====
-- The two copies of a `PyroVec` in lib/pyroduct/src/format/vec_buf.rs, and what each keeps of the header.
use native.Mathlib.Nat.{zero-add}
use pyroduct.Base.{◌+◌, ◌^◌, ◌<◌, ◌≡◌, refl, ap, sym, ◌∙◌, some, arith}
use pyroduct.Base.{length, All}
use pyroduct.Base.Bytes.{IsByte}
use pyroduct.Header.{Header, header_len, header_size, unit_bytes, client_id}
use pyroduct.Header.Fields.{view, copy_fields, view-copy_fields}
use pyroduct.Buffer.{PyroVec, as_slice, extend_from_slice, with_capacity, clone, clone_from_pyro}
use pyroduct.Buffer.Storage.{Store, length-read}
use pyroduct.Buffer.Growth.{IsValid}
use pyroduct.Buffer.Appending.{Appends, extend_from_slice-Appends, with_capacity-IsValid}

length-as_slice : (v : PyroVec) → length (as_slice v) ≡ header_len v.header
unfolding as_slice
length-as_slice v = length-read v.store 0 (header_len v.header)

-- The fresh buffer that both copies start from, with the payload written.
copied :
    (mem : Store) (v : PyroVec)
    → IsValid v
    → header_len v.header + header_size < 2 ^ 30
    → (w : PyroVec) × (extend_from_slice (with_capacity mem (length (as_slice v))) (as_slice v)
        ≡ some w)
      × Appends (with_capacity mem (length (as_slice v))) w (as_slice v)
copied mem v h small =
    let n = length (as_slice v) in
    let (fresh, _) = with_capacity-IsValid mem n (omega (arith, length-as_slice v)) in
    extend_from_slice-Appends (with_capacity mem n) (as_slice v) fresh
      (unfold with_capacity in omega (arith, length-as_slice v))
      (unfold with_capacity header_len in omega (arith, length-as_slice v))

module _ (mem : Store) (v : PyroVec) (h : IsValid v)
    (small : header_len v.header + header_size < 2 ^ 30) where
  fresh_slice :
      (w : PyroVec)
      → Appends (with_capacity mem (length (as_slice v))) w (as_slice v)
      → as_slice w ≡ as_slice v
  fresh_slice w a =
      a.slice
      ∙ rw ((with_capacity-IsValid mem (length (as_slice v)) (omega (arith, length-as_slice v))).1)
          refl

  -- A header that gives the same length shows the same bytes.
  slice_of_header :
      (w : PyroVec) (g : Header)
      → header_len g ≡ header_len w.header
      → as_slice (record w { header = g }) ≡ as_slice w
  unfolding as_slice
  slice_of_header w g e = rw e

  fresh_view :
      (w : PyroVec)
      → Appends (with_capacity mem (length (as_slice v))) w (as_slice v)
      → view w.header ≡ record (view unit_bytes) { len = header_len v.header }
  unfolding with_capacity
  fresh_view w a = a.fields ∙ rw length-as_slice (unfold header_len in rw zero-add refl)

-- A clone holds the same bytes, and its header says the same in every field but the client id, which
-- is 0 whatever the source's was. The payload is below 1 GiB, so that no capacity overflows.
pub clone_lem :
    (mem : Store) (v : PyroVec)
    → IsValid v
    → All IsByte v.header
    → header_len v.header + header_size < 2 ^ 30
    → (w : PyroVec) × (clone mem v ≡ some w)
      × (as_slice w ≡ as_slice v)
      × (view w.header ≡ record (view v.header) { client = 0 })
unfolding clone
clone_lem mem v h r small =
    let (w, e, a) = copied mem v h small in
    let g = copy_fields w.header v.header in
    let start = fresh_view mem v h small w a in
    let copy = view-copy_fields w.header v.header a.valid.whole h.whole r in
    let len : header_len w.header ≡ header_len v.header = ap (λ f. f.len) start in
    let client : client_id w.header ≡ 0 = unfold client_id in ap (λ f. f.client) start in
    let fields : view g ≡ record (view v.header) { client = 0 } = rw (len, client) at copy in
    (
      record w { header = g },
      rw e refl,
      slice_of_header mem v h small w g (ap (λ f. f.len) copy) ∙ fresh_slice mem v h small w a,
      fields,
    )

-- `clone_from_pyro` keeps the bytes and the whole header of a well-formed buffer. The payload is below
-- 1 GiB, so that no capacity overflows.
pub clone_from_pyro_lem :
    (mem : Store) (v : PyroVec)
    → IsValid v
    → All IsByte v.header
    → header_len v.header + header_size < 2 ^ 30
    → (w : PyroVec) × (clone_from_pyro mem v ≡ some w)
      × (as_slice w ≡ as_slice v)
      × (w.header ≡ v.header)
unfolding clone_from_pyro
clone_from_pyro_lem mem v h r small =
    let (w, e, a) = copied mem v h small in
    (
      record w { header = v.header },
      rw e refl,
      slice_of_header mem v h small w v.header
            (sym (ap (λ f. f.len) (fresh_view mem v h small w a)))
          ∙ fresh_slice mem v h small w a,
      refl,
    )
