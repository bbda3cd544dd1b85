-- ===== src/Value/Repair/Fits.antt =====
-- What it means that a value fits a type, for lib/pyroduct/src/format/value/repair.rs.
use pyroduct.Base.{ℕ, String, Option, Bool, true, false, ◌≡◌, ◌&&◌, List, [], ◌∷◌, some}
use pyroduct.Base.Integers.{ℤ}
use pyroduct.Spec.{PrimitiveDataType}
use pyroduct.Spec.Types.{PyroType, PyroField, field, PyroFields}
use pyroduct.Value.{
  PyroValue, null, bool, i8, i16, i32, i64, u8, u16, u32, u64, f32, f64, timestamp, Time,
  primitive_list, str, group, list, map_internal, PyroRow, empty, item, PyroValues, nil, cons,
  PyroPairs, no_pairs, pair,
}
use pyroduct.Value.Primitives.{PrimitiveValueList}
use pyroduct.Value.Repair.Scalars.{Std, in_range}
use pyroduct.Value.Repair.Exact.{is_integer}

-- A scalar of the type, in its range. There is no repair to 16-bit floats, so none counts.
unfoldable pub scalar_fits : PrimitiveDataType → PyroValue → Bool
unfolding in_range
scalar_fits PrimitiveDataType.bool (bool b) = true
scalar_fits PrimitiveDataType.i8 (i8 v) = in_range PrimitiveDataType.i8 v
scalar_fits PrimitiveDataType.i16 (i16 v) = in_range PrimitiveDataType.i16 v
scalar_fits PrimitiveDataType.i32 (i32 v) = in_range PrimitiveDataType.i32 v
scalar_fits PrimitiveDataType.i64 (i64 v) = in_range PrimitiveDataType.i64 v
scalar_fits PrimitiveDataType.u8 (u8 v) = in_range PrimitiveDataType.u8 v
scalar_fits PrimitiveDataType.u16 (u16 v) = in_range PrimitiveDataType.u16 v
scalar_fits PrimitiveDataType.u32 (u32 v) = in_range PrimitiveDataType.u32 v
scalar_fits PrimitiveDataType.u64 (u64 v) = in_range PrimitiveDataType.u64 v
scalar_fits PrimitiveDataType.f32 (f32 v) = true
scalar_fits PrimitiveDataType.f64 (f64 v) = true
scalar_fits _ _ = false

unfoldable pub all_in : {A : Type 0} → (A → Bool) → List A → Bool
all_in p [] = true
all_in p (x ∷ xs) = p x && all_in p xs

unfoldable pub list_fits : PrimitiveDataType → PrimitiveValueList → Bool
unfolding all_in in_range
list_fits PrimitiveDataType.bool (PrimitiveValueList.bool c) = true
list_fits PrimitiveDataType.i8 (PrimitiveValueList.i8 c) = all_in (in_range PrimitiveDataType.i8) c
list_fits PrimitiveDataType.i16 (PrimitiveValueList.i16 c) =
    all_in (in_range PrimitiveDataType.i16) c
list_fits PrimitiveDataType.i32 (PrimitiveValueList.i32 c) =
    all_in (in_range PrimitiveDataType.i32) c
list_fits PrimitiveDataType.i64 (PrimitiveValueList.i64 c) =
    all_in (in_range PrimitiveDataType.i64) c
list_fits PrimitiveDataType.u8 (PrimitiveValueList.u8 c) = all_in (in_range PrimitiveDataType.u8) c
list_fits PrimitiveDataType.u16 (PrimitiveValueList.u16 c) =
    all_in (in_range PrimitiveDataType.u16) c
list_fits PrimitiveDataType.u32 (PrimitiveValueList.u32 c) =
    all_in (in_range PrimitiveDataType.u32) c
list_fits PrimitiveDataType.u64 (PrimitiveValueList.u64 c) =
    all_in (in_range PrimitiveDataType.u64) c
list_fits PrimitiveDataType.f32 (PrimitiveValueList.f32 c) = true
list_fits PrimitiveDataType.f64 (PrimitiveValueList.f64 c) = true
list_fits _ _ = false

-- A value of the type; null is a value of every type, as `repair` never refuses it, and the length of
-- a list of fixed size is not looked at.
mutual
  pub data Fits : PyroType → PyroValue → Type 0 where
    fits_null : {t : PyroType} → Fits t null
    fits_scalar :
        {p : PrimitiveDataType} {v : PyroValue}
        → scalar_fits p v ≡ true
        → Fits (PyroType.primitive_scalar p) v
    fits_str : {s : String} → Fits PyroType.str (str s)
    fits_timestamp : {t : Time} → Fits PyroType.timestamp (timestamp t)
    fits_primitives :
        {p : PrimitiveDataType} {c : PrimitiveValueList}
        → list_fits p c ≡ true
        → Fits (PyroType.primitive_list p) (primitive_list c)
    fits_fixed :
        {p : PrimitiveDataType} {n : ℕ} {c : PrimitiveValueList}
        → list_fits p c ≡ true
        → Fits (PyroType.primitive_fixed_list p n) (primitive_list c)
    fits_list :
        {t : PyroType} {n : Bool} {vs : PyroValues}
        → EachFits t vs
        → Fits (PyroType.list t n) (list vs)
    fits_group :
        {fs : PyroFields} {row : PyroRow} → RowFits fs row → Fits (PyroType.group fs) (group row)
    fits_map :
        {k t : PyroType} {pairs : PyroPairs}
        → PairsFit k t pairs
        → Fits (PyroType.map k t) (map_internal pairs)

  pub data EachFits : PyroType → PyroValues → Type 0 where
    each_nil : {t : PyroType} → EachFits t nil
    each_cons :
        {t : PyroType} {v : PyroValue} {vs : PyroValues}
        → Fits t v
        → EachFits t vs
        → EachFits t (cons v vs)

  -- The items have the names of the fields, in their order.
  pub data RowFits : PyroFields → PyroRow → Type 0 where
    row_nil : RowFits PyroFields.nil empty
    row_item :
        {k : String} {d : Option String} {t : PyroType} {n : Bool} {fs : PyroFields} {v : PyroValue}
        {row : PyroRow}
        → Fits t v
        → RowFits fs row
        → RowFits (PyroFields.cons (field k d t n) fs) (item k v row)

  pub data PairsFit : PyroType → PyroType → PyroPairs → Type 0 where
    pairs_nil : {k t : PyroType} → PairsFit k t no_pairs
    pairs_cons :
        {k t : PyroType} {a b : PyroValue} {pairs : PyroPairs}
        → Fits k a
        → Fits t b
        → PairsFit k t pairs
        → PairsFit k t (pair a b pairs)

-- The integers of a primitive list are those of its type.
unfoldable pub list_machine : PrimitiveValueList → Bool
unfolding all_in in_range
list_machine (PrimitiveValueList.i8 c) = all_in (in_range PrimitiveDataType.i8) c
list_machine (PrimitiveValueList.i16 c) = all_in (in_range PrimitiveDataType.i16) c
list_machine (PrimitiveValueList.i32 c) = all_in (in_range PrimitiveDataType.i32) c
list_machine (PrimitiveValueList.i64 c) = all_in (in_range PrimitiveDataType.i64) c
list_machine (PrimitiveValueList.u8 c) = all_in (in_range PrimitiveDataType.u8) c
list_machine (PrimitiveValueList.u16 c) = all_in (in_range PrimitiveDataType.u16) c
list_machine (PrimitiveValueList.u32 c) = all_in (in_range PrimitiveDataType.u32) c
list_machine (PrimitiveValueList.u64 c) = all_in (in_range PrimitiveDataType.u64) c
list_machine _ = true

-- The integers that stand in a value are machine integers of their constructor's width.
unfoldable mutual
  unfolding list_machine in_range

  pub IsMachine : PyroValue → Type 0
  IsMachine (i8 v) = in_range PrimitiveDataType.i8 v ≡ true
  IsMachine (i16 v) = in_range PrimitiveDataType.i16 v ≡ true
  IsMachine (i32 v) = in_range PrimitiveDataType.i32 v ≡ true
  IsMachine (i64 v) = in_range PrimitiveDataType.i64 v ≡ true
  IsMachine (u8 v) = in_range PrimitiveDataType.u8 v ≡ true
  IsMachine (u16 v) = in_range PrimitiveDataType.u16 v ≡ true
  IsMachine (u32 v) = in_range PrimitiveDataType.u32 v ≡ true
  IsMachine (u64 v) = in_range PrimitiveDataType.u64 v ≡ true
  IsMachine (primitive_list c) = list_machine c ≡ true
  IsMachine (group row) = RowIsMachine row
  IsMachine (list vs) = AllMachine vs
  IsMachine (map_internal pairs) = PairsMachine pairs
  IsMachine _ = Unit

  pub RowIsMachine : PyroRow → Type 0
  RowIsMachine empty = Unit
  RowIsMachine (item k v row) = IsMachine v × RowIsMachine row

  pub AllMachine : PyroValues → Type 0
  AllMachine nil = Unit
  AllMachine (cons v vs) = IsMachine v × AllMachine vs

  pub PairsMachine : PyroPairs → Type 0
  PairsMachine no_pairs = Unit
  PairsMachine (pair a b pairs) = IsMachine a × IsMachine b × PairsMachine pairs

-- The element types that `pack_primitive_list` packs.
abbrev pub packs : PrimitiveDataType → Bool
packs PrimitiveDataType.i32 = true
packs PrimitiveDataType.i64 = true
packs PrimitiveDataType.f64 = true
packs PrimitiveDataType.f32 = true
packs PrimitiveDataType.bool = true
packs PrimitiveDataType.u8 = true
packs _ = false

-- The primitive lists in the type are of elements that are packed.
unfoldable mutual
  pub Packable : PyroType → Type 0
  Packable (PyroType.primitive_list p) = packs p ≡ true
  Packable (PyroType.primitive_fixed_list p n) = packs p ≡ true
  Packable (PyroType.list t n) = Packable t
  Packable (PyroType.group fs) = FieldsPackable fs
  Packable (PyroType.map k t) = Packable k × Packable t
  Packable _ = Unit

  pub FieldsPackable : PyroFields → Type 0
  FieldsPackable PyroFields.nil = Unit
  FieldsPackable (PyroFields.cons f fs) = FieldPackable f × FieldsPackable fs

  pub FieldPackable : PyroField → Type 0
  FieldPackable (field k d t n) = Packable t

-- What Rust documents of `parse` and of a float cast to an integer: a number of the target's type.
pub record Documented (std : Std) : Type 0 where
  pub parse_in_range :
      (t : PrimitiveDataType) (s : String) (v : ℤ)
      → is_integer t ≡ true
      → std.parse_int t s ≡ some v
      → in_range t v ≡ true
  pub float_as_int_in_range :
      (s t : PrimitiveDataType) (v : ℕ)
      → is_integer t ≡ true
      → in_range t (std.float_as_int s t v) ≡ true
