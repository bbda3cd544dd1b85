-- ===== src/Value/Repair/ScalarFits.antt =====
-- The scalars that lib/pyroduct/src/format/value/repair.rs repairs fit their types.
use pyroduct.Base.{
  String, Option, none, some, Bool, true, false, ◌≡◌, refl, ◌⊎◌, inl, inr, Bool-cases, Option-cases,
  if◌then◌else◌,
}
use pyroduct.Base.Outcome.{ok, err}
use pyroduct.Base.Integers.{ℤ, pos}
use pyroduct.Spec.{PrimitiveDataType}
use pyroduct.Value.{
  PyroValue, null, bool, i8, i16, i32, i64, u8, u16, u32, u64, f16, f32, f64, timestamp,
  primitive_list, str, group, list, map_internal,
}
use pyroduct.Value.Repair.Scalars.{
  Std, in_range, int_value, try_cast_numeric, int_arm, impl_int_repair, impl_float_repair,
  repair_to_bool, repair_scalar, Repaired, parsed, bool_of_word,
}
use pyroduct.Value.Repair.Exact.{is_integer, int_arm-eq}
use pyroduct.Value.Repair.Fits.{scalar_fits, IsMachine, Documented}

-- Null, or a scalar of the type.
abbrev pub NullOr : PrimitiveDataType → PyroValue → Type 0
NullOr p w = (w ≡ null) ⊎ (scalar_fits p w ≡ true)

-- What is returned, where anything is.
abbrev pub Returns : PrimitiveDataType → Repaired → Type 0
Returns p (ok w) = NullOr p w
Returns p (err x) = Unit

int_value_fits :
    (t : PrimitiveDataType) (v : ℤ) → in_range t v ≡ true → scalar_fits t (int_value t v) ≡ true
unfolding scalar_fits int_value in_range
int_value_fits PrimitiveDataType.bool v h = absurd (cc h)
int_value_fits PrimitiveDataType.f16 v h = absurd (cc h)
int_value_fits PrimitiveDataType.f32 v h = absurd (cc h)
int_value_fits PrimitiveDataType.f64 v h = absurd (cc h)
int_value_fits _ v h = h

try_cast-Returns :
    (std : Std) (t : PrimitiveDataType) (v : ℤ) → Returns t (try_cast_numeric std t v)
unfolding try_cast_numeric
try_cast-Returns std t v = elim (Bool-cases (in_range t v)) [
  | inl e ↦ rw e (inr (int_value_fits t v e))
  | inr e ↦ rw e tt
]

int_arm-Returns :
    (std : Std) (t s : PrimitiveDataType) (v : ℤ)
    → in_range s v ≡ true
    → Returns t (int_arm std t s v)
int_arm-Returns std t s v h = rw (int_arm-eq std s t v h) (try_cast-Returns std t v)

small_in_range :
    (t : PrimitiveDataType) (b : Bool)
    → is_integer t ≡ true
    → in_range t (pos (if b then 1 else 0)) ≡ true
unfolding in_range
small_in_range PrimitiveDataType.bool b h = absurd (cc h)
small_in_range PrimitiveDataType.f16 b h = absurd (cc h)
small_in_range PrimitiveDataType.f32 b h = absurd (cc h)
small_in_range PrimitiveDataType.f64 b h = absurd (cc h)
small_in_range _ true h = refl
small_in_range _ false h = refl

module _ (std : Std) (doc : Documented std) where
  parsed-Returns :
      (t : PrimitiveDataType) (s : String) (o : Option ℤ)
      → is_integer t ≡ true
      → std.parse_int t s ≡ o
      → Returns t (parsed (int_value t) s t o)
  unfolding parsed
  parsed-Returns t s none h e = tt
  parsed-Returns t s (some v) h e = inr (int_value_fits t v (doc.parse_in_range t s v h e))

  impl_int_repair-Returns :
      (t : PrimitiveDataType) (v : PyroValue)
      → is_integer t ≡ true
      → IsMachine v
      → Returns t (impl_int_repair std t v)
  unfolding impl_int_repair IsMachine
  impl_int_repair-Returns t null h m = inl refl
  impl_int_repair-Returns t (str s) h m = parsed-Returns t s (std.parse_int t s) h refl
  impl_int_repair-Returns t (i8 v) h m = int_arm-Returns std t PrimitiveDataType.i8 v m
  impl_int_repair-Returns t (i16 v) h m = int_arm-Returns std t PrimitiveDataType.i16 v m
  impl_int_repair-Returns t (i32 v) h m = int_arm-Returns std t PrimitiveDataType.i32 v m
  impl_int_repair-Returns t (i64 v) h m = int_arm-Returns std t PrimitiveDataType.i64 v m
  impl_int_repair-Returns t (u8 v) h m = int_arm-Returns std t PrimitiveDataType.u8 v m
  impl_int_repair-Returns t (u16 v) h m = int_arm-Returns std t PrimitiveDataType.u16 v m
  impl_int_repair-Returns t (u32 v) h m = int_arm-Returns std t PrimitiveDataType.u32 v m
  impl_int_repair-Returns t (u64 v) h m = int_arm-Returns std t PrimitiveDataType.u64 v m
  impl_int_repair-Returns t (f32 v) h m =
      inr (int_value_fits t _ (doc.float_as_int_in_range PrimitiveDataType.f32 t v h))
  impl_int_repair-Returns t (f64 v) h m =
      inr (int_value_fits t _ (doc.float_as_int_in_range PrimitiveDataType.f64 t v h))
  impl_int_repair-Returns t (bool b) h m = inr (int_value_fits t _ (small_in_range t b h))
  impl_int_repair-Returns t _ h m = tt

  f32-Returns :
      (v : PyroValue)
      → Returns PrimitiveDataType.f32 (impl_float_repair std PrimitiveDataType.f32 v)
  unfolding impl_float_repair scalar_fits
  f32-Returns null = inl refl
  f32-Returns (str s) = elim (Option-cases (std.parse_float PrimitiveDataType.f32 s)) [
    | inl e ↦ rw e tt
    | inr (v, e) ↦ rw e (inr refl)
  ]
  f32-Returns (group row) = tt
  f32-Returns (list vs) = tt
  f32-Returns (map_internal ps) = tt
  f32-Returns (timestamp t) = tt
  f32-Returns (primitive_list c) = tt
  f32-Returns (f16 v) = tt
  f32-Returns _ = inr refl

  f64-Returns :
      (v : PyroValue)
      → Returns PrimitiveDataType.f64 (impl_float_repair std PrimitiveDataType.f64 v)
  unfolding impl_float_repair scalar_fits
  f64-Returns null = inl refl
  f64-Returns (str s) = elim (Option-cases (std.parse_float PrimitiveDataType.f64 s)) [
    | inl e ↦ rw e tt
    | inr (v, e) ↦ rw e (inr refl)
  ]
  f64-Returns (group row) = tt
  f64-Returns (list vs) = tt
  f64-Returns (map_internal ps) = tt
  f64-Returns (timestamp t) = tt
  f64-Returns (primitive_list c) = tt
  f64-Returns (f16 v) = tt
  f64-Returns _ = inr refl

  bool-Returns : (v : PyroValue) → Returns PrimitiveDataType.bool (repair_to_bool std v)
  unfolding repair_to_bool scalar_fits
  bool-Returns null = inl refl
  bool-Returns (str s) = elim (Option-cases (bool_of_word (std.to_lowercase s))) [
    | inl e ↦ rw e tt
    | inr (v, e) ↦ rw e (inr refl)
  ]
  bool-Returns (bool b) = inr refl
  bool-Returns (i8 v) = inr refl
  bool-Returns (i32 v) = inr refl
  bool-Returns (i64 v) = inr refl
  bool-Returns _ = tt

  pub repair_scalar-Returns :
      (p : PrimitiveDataType) (v : PyroValue) → IsMachine v → Returns p (repair_scalar std p v)
  unfolding repair_scalar
  repair_scalar-Returns PrimitiveDataType.bool v m = bool-Returns v
  repair_scalar-Returns PrimitiveDataType.f16 v m = tt
  repair_scalar-Returns PrimitiveDataType.f32 v m = f32-Returns v
  repair_scalar-Returns PrimitiveDataType.f64 v m = f64-Returns v
  repair_scalar-Returns p v m = impl_int_repair-Returns p v refl m
