-- ===== src/Value/Repair/ListFits.antt =====
-- The primitive lists that lib/pyroduct/src/format/value/repair.rs repairs fit their types.
use pyroduct.Base.{
  ℕ, Option, none, some, Bool, true, List, [], ◌∷◌, length, map, ◌≡◌, refl, arith, inl, inr,
  Bool-cases, ◌==◌,
}
use pyroduct.Base.Outcome.{ok, err}
use pyroduct.Base.Integers.{ℤ, pos, negsuc}
use pyroduct.Spec.{PrimitiveDataType}
use pyroduct.Value.Primitives.{PrimitiveValueList}
use pyroduct.Value.Repair.Scalars.{Std, in_range, RepairResult}
use pyroduct.Value.Repair.Lists.{
  cast_int, sized, ints_to_i32, ints_to_i64, floats_to_i32, floats_to_i64, ints_to_f32, ints_to_f64,
  cast_list, repair_list_of,
}
use pyroduct.Value.Repair.Fits.{all_in, list_fits, list_machine, Documented}

abbrev pub ListReturns : PrimitiveDataType → RepairResult PrimitiveValueList → Type 0
ListReturns p (ok c) = list_fits p c ≡ true
ListReturns p (err x) = Unit

cast_int-i32 : (v : ℤ) → in_range PrimitiveDataType.i32 (cast_int PrimitiveDataType.i32 v) ≡ true
unfolding in_range cast_int
cast_int-i32 (pos n) = ground arith
cast_int-i32 (negsuc n) = ground arith

cast_int-i64 : (v : ℤ) → in_range PrimitiveDataType.i64 (cast_int PrimitiveDataType.i64 v) ≡ true
unfolding in_range cast_int
cast_int-i64 (pos n) = ground arith
cast_int-i64 (negsuc n) = ground arith

all_in-map :
    {A B : Type 0} (p : B → Bool) (f : A → B) (xs : List A)
    → ((x : A) → p (f x) ≡ true)
    → all_in p (map f xs) ≡ true
unfolding all_in
all_in-map p f [] h = refl
all_in-map p f (x ∷ xs) h = ground (arith, h x, all_in-map p f xs h)

sized-Returns :
    (p : PrimitiveDataType) (size : Option ℕ) (n : ℕ) (c : PrimitiveValueList)
    → list_fits p c ≡ true
    → ListReturns p (sized size n c)
unfolding sized
sized-Returns p none n c h = h
sized-Returns p (some k) n c h = elim (Bool-cases (n == k)) [ inl e ↦ rw e h | inr e ↦ rw e tt ]

module _ (std : Std) (doc : Documented std) where
  ints-i32 : (c : List ℤ) (size : Option ℕ) → ListReturns PrimitiveDataType.i32 (ints_to_i32 c size)
  unfolding ints_to_i32 list_fits
  ints-i32 c size =
      sized-Returns PrimitiveDataType.i32 size (length c) _ (all_in-map _ _ c cast_int-i32)

  floats-i32 :
      (s : PrimitiveDataType) (c : List ℕ) (size : Option ℕ)
      → ListReturns PrimitiveDataType.i32 (floats_to_i32 std s c size)
  unfolding floats_to_i32 list_fits
  floats-i32 s c size =
      sized-Returns PrimitiveDataType.i32 size (length c) _
        (all_in-map _ _ c (λ v. doc.float_as_int_in_range s PrimitiveDataType.i32 v refl))

  ints-i64 : (c : List ℤ) (size : Option ℕ) → ListReturns PrimitiveDataType.i64 (ints_to_i64 c size)
  unfolding ints_to_i64 list_fits
  ints-i64 c size =
      sized-Returns PrimitiveDataType.i64 size (length c) _ (all_in-map _ _ c cast_int-i64)

  floats-i64 :
      (s : PrimitiveDataType) (c : List ℕ) (size : Option ℕ)
      → ListReturns PrimitiveDataType.i64 (floats_to_i64 std s c size)
  unfolding floats_to_i64 list_fits
  floats-i64 s c size =
      sized-Returns PrimitiveDataType.i64 size (length c) _
        (all_in-map _ _ c (λ v. doc.float_as_int_in_range s PrimitiveDataType.i64 v refl))

  cast_list-Returns :
      (c : PrimitiveValueList) (p : PrimitiveDataType) (size : Option ℕ)
      → ListReturns p (cast_list std c p size)
  unfolding cast_list ints_to_f32 ints_to_f64 list_fits
  cast_list-Returns (PrimitiveValueList.i64 c) PrimitiveDataType.i32 size = ints-i32 c size
  cast_list-Returns (PrimitiveValueList.u8 c) PrimitiveDataType.i32 size = ints-i32 c size
  cast_list-Returns (PrimitiveValueList.u16 c) PrimitiveDataType.i32 size = ints-i32 c size
  cast_list-Returns (PrimitiveValueList.u32 c) PrimitiveDataType.i32 size = ints-i32 c size
  cast_list-Returns (PrimitiveValueList.u64 c) PrimitiveDataType.i32 size = ints-i32 c size
  cast_list-Returns (PrimitiveValueList.i8 c) PrimitiveDataType.i32 size = ints-i32 c size
  cast_list-Returns (PrimitiveValueList.i16 c) PrimitiveDataType.i32 size = ints-i32 c size
  cast_list-Returns (PrimitiveValueList.f32 c) PrimitiveDataType.i32 size =
      floats-i32 PrimitiveDataType.f32 c size
  cast_list-Returns (PrimitiveValueList.f64 c) PrimitiveDataType.i32 size =
      floats-i32 PrimitiveDataType.f64 c size
  cast_list-Returns (PrimitiveValueList.i32 c) PrimitiveDataType.i64 size = ints-i64 c size
  cast_list-Returns (PrimitiveValueList.u8 c) PrimitiveDataType.i64 size = ints-i64 c size
  cast_list-Returns (PrimitiveValueList.u16 c) PrimitiveDataType.i64 size = ints-i64 c size
  cast_list-Returns (PrimitiveValueList.u32 c) PrimitiveDataType.i64 size = ints-i64 c size
  cast_list-Returns (PrimitiveValueList.u64 c) PrimitiveDataType.i64 size = ints-i64 c size
  cast_list-Returns (PrimitiveValueList.i8 c) PrimitiveDataType.i64 size = ints-i64 c size
  cast_list-Returns (PrimitiveValueList.i16 c) PrimitiveDataType.i64 size = ints-i64 c size
  cast_list-Returns (PrimitiveValueList.f32 c) PrimitiveDataType.i64 size =
      floats-i64 PrimitiveDataType.f32 c size
  cast_list-Returns (PrimitiveValueList.f64 c) PrimitiveDataType.i64 size =
      floats-i64 PrimitiveDataType.f64 c size
  cast_list-Returns (PrimitiveValueList.i64 c) PrimitiveDataType.f32 size =
      sized-Returns PrimitiveDataType.f32 size (length c) _ refl
  cast_list-Returns (PrimitiveValueList.i32 c) PrimitiveDataType.f32 size =
      sized-Returns PrimitiveDataType.f32 size (length c) _ refl
  cast_list-Returns (PrimitiveValueList.f64 c) PrimitiveDataType.f32 size =
      sized-Returns PrimitiveDataType.f32 size (length c) _ refl
  cast_list-Returns (PrimitiveValueList.i64 c) PrimitiveDataType.f64 size =
      sized-Returns PrimitiveDataType.f64 size (length c) _ refl
  cast_list-Returns (PrimitiveValueList.i32 c) PrimitiveDataType.f64 size =
      sized-Returns PrimitiveDataType.f64 size (length c) _ refl
  cast_list-Returns (PrimitiveValueList.f32 c) PrimitiveDataType.f64 size =
      sized-Returns PrimitiveDataType.f64 size (length c) _ refl
  cast_list-Returns _ _ size = tt

  pub repair_list_of-Returns :
      (c : PrimitiveValueList) (p : PrimitiveDataType) (size : Option ℕ)
      → list_machine c ≡ true
      → ListReturns p (repair_list_of std c p size)
  unfolding repair_list_of list_machine list_fits
  repair_list_of-Returns (PrimitiveValueList.i32 c) PrimitiveDataType.i32 size m = m
  repair_list_of-Returns (PrimitiveValueList.i64 c) PrimitiveDataType.i64 size m = m
  repair_list_of-Returns (PrimitiveValueList.u8 c) PrimitiveDataType.u8 size m = m
  repair_list_of-Returns (PrimitiveValueList.u16 c) PrimitiveDataType.u16 size m = m
  repair_list_of-Returns (PrimitiveValueList.u32 c) PrimitiveDataType.u32 size m = m
  repair_list_of-Returns (PrimitiveValueList.u64 c) PrimitiveDataType.u64 size m = m
  repair_list_of-Returns (PrimitiveValueList.i8 c) PrimitiveDataType.i8 size m = m
  repair_list_of-Returns (PrimitiveValueList.i16 c) PrimitiveDataType.i16 size m = m
  repair_list_of-Returns (PrimitiveValueList.f32 c) PrimitiveDataType.f32 size m = refl
  repair_list_of-Returns (PrimitiveValueList.f64 c) PrimitiveDataType.f64 size m = refl
  repair_list_of-Returns (PrimitiveValueList.bool c) PrimitiveDataType.bool size m = refl
  repair_list_of-Returns c p size m = cast_list-Returns c p size
