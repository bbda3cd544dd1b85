-- ===== src/Value/Coerce/Sizes.antt =====
-- Lists of fixed size in lib/pyroduct/src/format/value/coerce.rs.
use pyroduct.Base.{
  ℕ, suc, some, List, [], ◌∷◌, false, Bool-cases, length, map, ◌==◌, ◌≡◌, refl, ap, arith, inl, inr,
}
use pyroduct.Base.Outcome.{ok, err, ◌>>=◌}
use pyroduct.Base.Integers.{ℤ}
use pyroduct.Spec.{PrimitiveDataType, discriminant}
use pyroduct.Spec.Types.{primitive_fixed_list}
use pyroduct.Value.{PyroValue}
use pyroduct.Value.Primitives.{PrimitiveValueList, data_type, list_len}
use pyroduct.Value.Repair.Scalars.{Std, RepairResult}
use pyroduct.Value.Repair.Lists.{
  sized, ints_to_i32, ints_to_i64, floats_to_i32, floats_to_i64, ints_to_f32, ints_to_f64,
  cast_list, repair_list_of,
}
use pyroduct.Value.Coerce.{slice, prim_slice_try_coerce, try_coerce_to}

length-map : {A B : Type 0} (f : A → B) (xs : List A) → length (map f xs) ≡ length xs
length-map f [] = refl
length-map f (x ∷ xs) = ap suc (length-map f xs)

-- A list of this length, where there is one.
abbrev Long : ℕ → RepairResult PrimitiveValueList → Type 0
Long size (ok c) = list_len c ≡ size
Long size (err e) = Unit

sized-Long :
    (size n : ℕ) (c : PrimitiveValueList) → list_len c ≡ n → Long size (sized (some size) n c)
unfolding sized
sized-Long size n c h = elim (Bool-cases (n == size)) [
  | inl e ↦ rw e (ground (arith, h, e))
  | inr e ↦ rw e tt
]

module _ (std : Std) (size : ℕ) where
  ints_to_i32-Long : (c : List ℤ) → Long size (ints_to_i32 c (some size))
  unfolding ints_to_i32 list_len
  ints_to_i32-Long c = sized-Long size (length c) _ (length-map _ c)

  ints_to_i64-Long : (c : List ℤ) → Long size (ints_to_i64 c (some size))
  unfolding ints_to_i64 list_len
  ints_to_i64-Long c = sized-Long size (length c) _ (length-map _ c)

  floats_to_i32-Long :
      (s : PrimitiveDataType) (c : List ℕ) → Long size (floats_to_i32 std s c (some size))
  unfolding floats_to_i32 list_len
  floats_to_i32-Long s c = sized-Long size (length c) _ (length-map _ c)

  floats_to_i64-Long :
      (s : PrimitiveDataType) (c : List ℕ) → Long size (floats_to_i64 std s c (some size))
  unfolding floats_to_i64 list_len
  floats_to_i64-Long s c = sized-Long size (length c) _ (length-map _ c)

  ints_to_f32-Long : (c : List ℤ) → Long size (ints_to_f32 std c (some size))
  unfolding ints_to_f32 list_len
  ints_to_f32-Long c = sized-Long size (length c) _ (length-map _ c)

  ints_to_f64-Long : (c : List ℤ) → Long size (ints_to_f64 std c (some size))
  unfolding ints_to_f64 list_len
  ints_to_f64-Long c = sized-Long size (length c) _ (length-map _ c)

  cast_list-Long :
      (c : PrimitiveValueList) (p : PrimitiveDataType) → Long size (cast_list std c p (some size))
  unfolding cast_list list_len
  cast_list-Long (PrimitiveValueList.i64 c) PrimitiveDataType.i32 = ints_to_i32-Long c
  cast_list-Long (PrimitiveValueList.f64 c) PrimitiveDataType.i32 =
      floats_to_i32-Long PrimitiveDataType.f64 c
  cast_list-Long (PrimitiveValueList.f32 c) PrimitiveDataType.i32 =
      floats_to_i32-Long PrimitiveDataType.f32 c
  cast_list-Long (PrimitiveValueList.u8 c) PrimitiveDataType.i32 = ints_to_i32-Long c
  cast_list-Long (PrimitiveValueList.u16 c) PrimitiveDataType.i32 = ints_to_i32-Long c
  cast_list-Long (PrimitiveValueList.u32 c) PrimitiveDataType.i32 = ints_to_i32-Long c
  cast_list-Long (PrimitiveValueList.u64 c) PrimitiveDataType.i32 = ints_to_i32-Long c
  cast_list-Long (PrimitiveValueList.i8 c) PrimitiveDataType.i32 = ints_to_i32-Long c
  cast_list-Long (PrimitiveValueList.i16 c) PrimitiveDataType.i32 = ints_to_i32-Long c
  cast_list-Long (PrimitiveValueList.i32 c) PrimitiveDataType.i64 = ints_to_i64-Long c
  cast_list-Long (PrimitiveValueList.f64 c) PrimitiveDataType.i64 =
      floats_to_i64-Long PrimitiveDataType.f64 c
  cast_list-Long (PrimitiveValueList.f32 c) PrimitiveDataType.i64 =
      floats_to_i64-Long PrimitiveDataType.f32 c
  cast_list-Long (PrimitiveValueList.u8 c) PrimitiveDataType.i64 = ints_to_i64-Long c
  cast_list-Long (PrimitiveValueList.u16 c) PrimitiveDataType.i64 = ints_to_i64-Long c
  cast_list-Long (PrimitiveValueList.u32 c) PrimitiveDataType.i64 = ints_to_i64-Long c
  cast_list-Long (PrimitiveValueList.u64 c) PrimitiveDataType.i64 = ints_to_i64-Long c
  cast_list-Long (PrimitiveValueList.i8 c) PrimitiveDataType.i64 = ints_to_i64-Long c
  cast_list-Long (PrimitiveValueList.i16 c) PrimitiveDataType.i64 = ints_to_i64-Long c
  cast_list-Long (PrimitiveValueList.f64 c) PrimitiveDataType.f32 =
      sized-Long size (length c) _ (length-map _ c)
  cast_list-Long (PrimitiveValueList.i64 c) PrimitiveDataType.f32 = ints_to_f32-Long c
  cast_list-Long (PrimitiveValueList.i32 c) PrimitiveDataType.f32 = ints_to_f32-Long c
  cast_list-Long (PrimitiveValueList.f32 c) PrimitiveDataType.f64 =
      sized-Long size (length c) _ (length-map _ c)
  cast_list-Long (PrimitiveValueList.i64 c) PrimitiveDataType.f64 = ints_to_f64-Long c
  cast_list-Long (PrimitiveValueList.i32 c) PrimitiveDataType.f64 = ints_to_f64-Long c
  cast_list-Long _ _ = tt

  repair_list_of-Long :
      (c : PrimitiveValueList) (p : PrimitiveDataType)
      → (discriminant p == discriminant (data_type c)) ≡ false
      → Long size (repair_list_of std c p (some size))
  unfolding repair_list_of data_type discriminant
  repair_list_of-Long (PrimitiveValueList.i32 c) PrimitiveDataType.i32 h = absurd (cc h)
  repair_list_of-Long (PrimitiveValueList.i64 c) PrimitiveDataType.i64 h = absurd (cc h)
  repair_list_of-Long (PrimitiveValueList.f32 c) PrimitiveDataType.f32 h = absurd (cc h)
  repair_list_of-Long (PrimitiveValueList.f64 c) PrimitiveDataType.f64 h = absurd (cc h)
  repair_list_of-Long (PrimitiveValueList.u8 c) PrimitiveDataType.u8 h = absurd (cc h)
  repair_list_of-Long (PrimitiveValueList.u16 c) PrimitiveDataType.u16 h = absurd (cc h)
  repair_list_of-Long (PrimitiveValueList.u32 c) PrimitiveDataType.u32 h = absurd (cc h)
  repair_list_of-Long (PrimitiveValueList.u64 c) PrimitiveDataType.u64 h = absurd (cc h)
  repair_list_of-Long (PrimitiveValueList.i8 c) PrimitiveDataType.i8 h = absurd (cc h)
  repair_list_of-Long (PrimitiveValueList.i16 c) PrimitiveDataType.i16 h = absurd (cc h)
  repair_list_of-Long (PrimitiveValueList.bool c) PrimitiveDataType.bool h = absurd (cc h)
  repair_list_of-Long c p h = cast_list-Long c p

Sized : ℕ → PyroValue → Type 0
Sized size w = (c : PrimitiveValueList) × (w ≡ PyroValue.primitive_list c) × (list_len c ≡ size)

repaired-Sized :
    (size : ℕ) (r : RepairResult PrimitiveValueList) (w : PyroValue)
    → Long size r
    → (r >>= λ c. ok (PyroValue.primitive_list c)) ≡ ok w
    → Sized size w
unfolding Sized
repaired-Sized size (ok c) w h e = (c, cc e, h)
repaired-Sized size (err x) w h e = absurd (cc e)

-- A slice, vector or array of primitives that is coerced to a list of fixed size comes out as a list of
-- primitives of that size, also where its elements are cast to another type.
pub coerced_list_len :
    (std : Std) (c : PrimitiveValueList) (p : PrimitiveDataType) (size : ℕ) (w : PyroValue)
    → try_coerce_to std (slice c) (primitive_fixed_list p size) ≡ ok w
    → (c' : PrimitiveValueList) × (w ≡ PyroValue.primitive_list c') × (list_len c' ≡ size)
unfolding try_coerce_to prim_slice_try_coerce Sized
coerced_list_len std c p size w e =
    elim (Bool-cases (discriminant p == discriminant (data_type c))) [
      | inl same ↦ elim (Bool-cases (list_len c == size)) [
        | inl fit ↦ (c, cc (rw (same, fit) at e), ground (arith, fit))
        | inr unfit ↦ absurd (cc (rw (same, unfit) at e))
      ]
      | inr other ↦
          repaired-Sized size (repair_list_of std c p (some size)) w
            (repair_list_of-Long std size c p other) (rw other at e)
    ]
