-- ===== src/Value/Repair/Again.antt =====
-- What `repair` of lib/pyroduct/src/format/value/repair.rs does to a value that fits its type already.
use pyroduct.Base.{ℕ, String, Option, none, some, true, ◌≡◌, refl, arith}
use pyroduct.Base.Outcome.{ok}
use pyroduct.Spec.{PrimitiveDataType}
use pyroduct.Spec.Types.{PyroType, PyroField, field, PyroFields}
use pyroduct.Value.{
  PyroValue, null, bool, i8, i16, i32, i64, u8, u16, u32, u64, f32, f64, timestamp, primitive_list,
  str, group, list, map_internal, PyroRow, item, PyroValues, nil, cons, PyroPairs, no_pairs, pair,
  get,
}
use pyroduct.Value.Primitives.{PrimitiveValueList}
use pyroduct.Value.Repair.{name_of, unless_null, repair_pairs, absent, repair}
use pyroduct.Value.Repair.Scalars.{Std, Repaired, repair_scalar}
use pyroduct.Value.Repair.Lists.{repair_each, repair_list_of, repair_primitive_list}
use pyroduct.Value.Repair.Fits.{
  scalar_fits, list_fits, Fits, fits_null, fits_scalar, fits_str, fits_timestamp, fits_primitives,
  fits_fixed, fits_list, fits_group, fits_map, EachFits, each_nil, each_cons, RowFits, row_nil,
  row_item, PairsFit, pairs_nil, pairs_cons, IsMachine, Packable, Documented,
}
use pyroduct.Value.Repair.Rows.{Distinct}
use pyroduct.Value.Repair.Projected.{
  Unnamed, DistinctNames, found_or_absent, project_by_name, project_repair-project_by_name,
}
use pyroduct.Value.Repair.Fitting.{repair-Fits}

-- In each group of the type no name stands twice.
unfoldable mutual
  pub Named : PyroType → Type 0
  Named (PyroType.list t n) = Named t
  Named (PyroType.group fs) = DistinctNames fs × FieldsNamed fs
  Named (PyroType.map k t) = Named k × Named t
  Named _ = Unit

  pub FieldsNamed : PyroFields → Type 0
  FieldsNamed PyroFields.nil = Unit
  FieldsNamed (PyroFields.cons f fs) = FieldNamed f × FieldsNamed fs

  pub FieldNamed : PyroField → Type 0
  FieldNamed (field k d t n) = Named t

scalar_again :
    (std : Std) (p : PrimitiveDataType) (v : PyroValue)
    → scalar_fits p v ≡ true
    → unless_null v (repair_scalar std p v) ≡ ok v
unfolding scalar_fits repair_scalar
scalar_again std PrimitiveDataType.bool (bool b) h = refl
scalar_again std PrimitiveDataType.i8 (i8 v) h = refl
scalar_again std PrimitiveDataType.i16 (i16 v) h = refl
scalar_again std PrimitiveDataType.i32 (i32 v) h = refl
scalar_again std PrimitiveDataType.i64 (i64 v) h = refl
scalar_again std PrimitiveDataType.u8 (u8 v) h = refl
scalar_again std PrimitiveDataType.u16 (u16 v) h = refl
scalar_again std PrimitiveDataType.u32 (u32 v) h = refl
scalar_again std PrimitiveDataType.u64 (u64 v) h = refl
scalar_again std PrimitiveDataType.f32 (f32 v) h = refl
scalar_again std PrimitiveDataType.f64 (f64 v) h = refl
scalar_again std _ _ h = absurd (cc h)

list_again :
    (std : Std) (p : PrimitiveDataType) (c : PrimitiveValueList) (size : Option ℕ)
    → list_fits p c ≡ true
    → repair_list_of std c p size ≡ ok c
unfolding list_fits repair_list_of
list_again std PrimitiveDataType.bool (PrimitiveValueList.bool c) size h = refl
list_again std PrimitiveDataType.i8 (PrimitiveValueList.i8 c) size h = refl
list_again std PrimitiveDataType.i16 (PrimitiveValueList.i16 c) size h = refl
list_again std PrimitiveDataType.i32 (PrimitiveValueList.i32 c) size h = refl
list_again std PrimitiveDataType.i64 (PrimitiveValueList.i64 c) size h = refl
list_again std PrimitiveDataType.u8 (PrimitiveValueList.u8 c) size h = refl
list_again std PrimitiveDataType.u16 (PrimitiveValueList.u16 c) size h = refl
list_again std PrimitiveDataType.u32 (PrimitiveValueList.u32 c) size h = refl
list_again std PrimitiveDataType.u64 (PrimitiveValueList.u64 c) size h = refl
list_again std PrimitiveDataType.f32 (PrimitiveValueList.f32 c) size h = refl
list_again std PrimitiveDataType.f64 (PrimitiveValueList.f64 c) size h = refl
list_again std _ _ size h = absurd (cc h)

primitives_again :
    (std : Std) (p : PrimitiveDataType) (c : PrimitiveValueList) (size : Option ℕ)
    → list_fits p c ≡ true
    → repair_primitive_list std p size (primitive_list c) ≡ ok (primitive_list c)
unfolding repair_primitive_list
primitives_again std p c size h = rw (list_again std p c size h) refl

-- The row has each item of the other.
abbrev Has : PyroRow → PyroRow → Type 0
Has row target = (k : String) (v : PyroValue) → get target k ≡ some v → get row k ≡ some v

Unnamed-get :
    (k : String) (fs : PyroFields) (row : PyroRow)
    → RowFits fs row
    → Unnamed k fs
    → get row k ≡ none
unfolding get
Unnamed-get k PyroFields.nil row row_nil u = refl
Unnamed-get k (PyroFields.cons f fs) row (row_item {row = rest} h hs) u =
    ground (arith, Unnamed-get k fs rest hs u.1, u)

RowFits-Distinct :
    (fs : PyroFields) (row : PyroRow) → RowFits fs row → DistinctNames fs → Distinct row
RowFits-Distinct PyroFields.nil row row_nil d = tt
RowFits-Distinct (PyroFields.cons f fs) row (row_item {row = rest} h hs) d =
    (Unnamed-get (name_of f) fs rest hs d.0, RowFits-Distinct fs rest hs d.1)

each_again :
    (f : PyroValue → Repaired) (t : PyroType)
    → ((v : PyroValue) → Fits t v → f v ≡ ok v)
    → (vs : PyroValues) → EachFits t vs
    → repair_each f vs ≡ ok vs
unfolding repair_each
each_again f t again nil each_nil = refl
each_again f t again (cons v vs) (each_cons h hs) = rw (again v h, each_again f t again vs hs) refl

pairs_again :
    (f g : PyroValue → Repaired) (k t : PyroType)
    → ((v : PyroValue) → Fits k v → f v ≡ ok v)
    → ((v : PyroValue) → Fits t v → g v ≡ ok v)
    → (ps : PyroPairs) → PairsFit k t ps
    → repair_pairs f g ps ≡ ok ps
unfolding repair_pairs
pairs_again f g k t again again' no_pairs pairs_nil = refl
pairs_again f g k t again again' (pair a b ps) (pairs_cons ha hb h) =
    rw (again a ha, again' b hb, pairs_again f g k t again again' ps h) refl

module _ (std : Std) where
  -- Every field's value is one that repair leaves alone.
  abbrev FieldAgain : PyroField → Type 0
  FieldAgain (field k d t n) = (v : PyroValue) → Fits t v → repair std t v ≡ ok v

  abbrev FieldsAgain : PyroFields → Type 0
  FieldsAgain PyroFields.nil = Unit
  FieldsAgain (PyroFields.cons f fs) = FieldAgain f × FieldsAgain fs

  tail-Has :
      (k : String) (v : PyroValue) (rest row : PyroRow)
      → get rest k ≡ none
      → Has row (item k v rest)
      → Has row rest
  unfolding get
  tail-Has k v rest row absent h j u e = h j u (ground (arith, absent, e))

  head_get : (k : String) (v : PyroValue) (rest : PyroRow) → get (item k v rest) k ≡ some v
  unfolding get
  head_get k v rest = ground arith

  by_name_again :
      (fs : PyroFields) (target row : PyroRow)
      → FieldsAgain fs
      → DistinctNames fs
      → RowFits fs target
      → Has row target
      → project_by_name std fs row ≡ ok target
  unfolding project_by_name found_or_absent
  by_name_again PyroFields.nil target row again d row_nil has = refl
  by_name_again (PyroFields.cons (field k doc t n) fs) target row again d
        (row_item {v = v} {row = rest} h hs) has =
      rw
        (
          has k v (head_get k v rest),
          again.0 v h,
          by_name_again fs rest row again.1 d.1 hs
              (tail-Has k v rest row (Unnamed-get k fs rest hs d.0) has),
        )
        refl

  mutual
    unfolding repair Named

    again : (t : PyroType) → Named t → (v : PyroValue) → Fits t v → repair std t v ≡ ok v
    again PyroType.null d v fits_null = refl
    again t d null fits_null = refl
    again (PyroType.primitive_scalar p) d v (fits_scalar h) = scalar_again std p v h
    again PyroType.str d (str s) fits_str = refl
    again PyroType.timestamp d (timestamp t) fits_timestamp = refl
    again (PyroType.primitive_list p) d (primitive_list c) (fits_primitives h) =
        primitives_again std p c none h
    again (PyroType.primitive_fixed_list p n) d (primitive_list c) (fits_fixed h) =
        primitives_again std p c (some n) h
    again (PyroType.list t n) d (list vs) (fits_list h) =
        rw (each_again (repair std t) t (again t d) vs h) refl
    again (PyroType.group fs) d (group row) (fits_group h) =
        rw
          (
            project_repair-project_by_name std fs row d.0 (RowFits-Distinct fs row h d.0),
            by_name_again fs row row (fields_again fs d.1) d.0 h (λ k v e. e),
          )
          refl
    again (PyroType.map k t) d (map_internal ps) (fits_map h) =
        rw (pairs_again (repair std k) (repair std t) k t (again k d.0) (again t d.1) ps h) refl

    fields_again : (fs : PyroFields) → FieldsNamed fs → FieldsAgain fs
    fields_again PyroFields.nil d = tt
    fields_again (PyroFields.cons f fs) d = (field_again f d.0, fields_again fs d.1)

    field_again : (f : PyroField) → FieldNamed f → FieldAgain f
    field_again (field k doc t n) d = again t d

-- A value that was repaired is left alone when it is repaired to the same type again, where no group of the
-- type has two fields of one name, the primitive lists of the type are of element types that are packed,
-- the integers of the value are machine integers, and the standard library parses and casts to such.
pub repair_idempotent :
    (std : Std) (t : PyroType) (v w : PyroValue)
    → Documented std
    → Packable t
    → Named t
    → IsMachine v
    → repair std t v ≡ ok w
    → repair std t w ≡ ok w
repair_idempotent std t v w doc pk d m e = again std t d w (repair-Fits std doc t v w pk m e)
