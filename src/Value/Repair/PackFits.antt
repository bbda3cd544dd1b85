-- ===== src/Value/Repair/PackFits.antt =====
-- What `pack_primitive_list` and `repair_primitive_list` of lib/pyroduct/src/format/value/repair.rs give.
use pyroduct.Base.{
  ℕ, Option, none, some, Bool, true, List, [], ◌∷◌, ◌≡◌, refl, arith, inl, inr, Bool-cases, ◌==◌,
}
use pyroduct.Base.Outcome.{ok, err, ◌>>=◌}
use pyroduct.Spec.{PrimitiveDataType}
use pyroduct.Value.{
  PyroValue, null, bool, i8, i16, i32, i64, u8, u16, u32, u64, f32, f64, primitive_list, list,
  PyroValues, nil, cons,
}
use pyroduct.Value.Primitives.{PrimitiveValueList}
use pyroduct.Value.Repair.Scalars.{
  Std, in_range, impl_int_repair, impl_float_repair, repair_to_bool, repair_scalar, RepairResult,
  Repaired,
}
use pyroduct.Value.Repair.Lists.{
  repair_list_of, push_found, pack, as_i32, as_i64, as_u8, as_f32, as_f64, as_bool, repair_item,
  pack_primitive_list, broadcast, count_values, repair_primitive_list,
}
use pyroduct.Value.Repair.Fits.{
  scalar_fits, all_in, list_fits, IsMachine, AllMachine, Documented, packs,
}
use pyroduct.Value.Repair.ScalarFits.{NullOr, Returns, repair_scalar-Returns}
use pyroduct.Value.Repair.ListFits.{ListReturns, repair_list_of-Returns}

abbrev Holds : {A : Type 0} → (A → Bool) → Option A → Type 0
Holds p none = Unit
Holds p (some x) = p x ≡ true

abbrev Pushes : {A : Type 0} → (A → Bool) → (PyroValue → Option A) → Repaired → Type 0
Pushes p take (ok w) = Holds p (take w)
Pushes p take (err x) = Unit

abbrev AllReturned : {A : Type 0} → (A → Bool) → RepairResult (List A) → Type 0
AllReturned p (ok c) = all_in p c ≡ true
AllReturned p (err x) = Unit

-- A primitive list of the type is what is returned.
abbrev pub Primitives : PrimitiveDataType → Repaired → Type 0
Primitives p (ok (primitive_list c)) = list_fits p c ≡ true
Primitives p (ok _) = ⊥
Primitives p (err x) = Unit

module _ {A : Type 0} (p : A → Bool) (take : PyroValue → Option A) where
  pushed :
      (r : Repaired) (rest : RepairResult (List A))
      → Pushes p take r
      → AllReturned p rest
      → AllReturned p (r >>= (λ w. rest >>= (λ xs. ok (push_found (take w) xs))))
  unfolding all_in push_found
  pushed (err x) rest h hs = tt
  pushed (ok w) (err x) h hs = tt
  pushed (ok w) (ok xs) h hs = added (take w) h
    where
      added : (o : Option A) → Holds p o → all_in p (push_found o xs) ≡ true
      added none h = hs
      added (some x) h = ground (arith, h, hs)

  pack-AllReturned :
      (f : PyroValue → Repaired)
      → ((v : PyroValue) → IsMachine v → Pushes p take (f v))
      → (vs : PyroValues) → AllMachine vs
      → AllReturned p (pack f take vs)
  unfolding pack all_in IsMachine
  pack-AllReturned f h nil m = refl
  pack-AllReturned f h (cons v vs) m =
      pushed (f v) (pack f take vs) (h v m.0) (pack-AllReturned f h vs m.1)

Pushes-i32 :
    (r : Repaired)
    → Returns PrimitiveDataType.i32 r
    → Pushes (in_range PrimitiveDataType.i32) as_i32 r
unfolding as_i32 scalar_fits
Pushes-i32 (err x) h = tt
Pushes-i32 (ok (i32 v)) h = ground (arith, h)
Pushes-i32 (ok _) h = tt

Pushes-i64 :
    (r : Repaired)
    → Returns PrimitiveDataType.i64 r
    → Pushes (in_range PrimitiveDataType.i64) as_i64 r
unfolding as_i64 scalar_fits
Pushes-i64 (err x) h = tt
Pushes-i64 (ok (i64 v)) h = ground (arith, h)
Pushes-i64 (ok _) h = tt

Pushes-u8 :
    (r : Repaired) → Returns PrimitiveDataType.u8 r → Pushes (in_range PrimitiveDataType.u8) as_u8 r
unfolding as_u8 scalar_fits
Pushes-u8 (err x) h = tt
Pushes-u8 (ok (u8 v)) h = ground (arith, h)
Pushes-u8 (ok _) h = tt

Pushes-f32 : (r : Repaired) → Returns PrimitiveDataType.f32 r → Pushes (λ x. true) as_f32 r
unfolding as_f32 scalar_fits
Pushes-f32 (err x) h = tt
Pushes-f32 (ok (f32 v)) h = refl
Pushes-f32 (ok _) h = tt

Pushes-f64 : (r : Repaired) → Returns PrimitiveDataType.f64 r → Pushes (λ x. true) as_f64 r
unfolding as_f64 scalar_fits
Pushes-f64 (err x) h = tt
Pushes-f64 (ok (f64 v)) h = refl
Pushes-f64 (ok _) h = tt

Pushes-bool : (r : Repaired) → Returns PrimitiveDataType.bool r → Pushes (λ x. true) as_bool r
unfolding as_bool scalar_fits
Pushes-bool (err x) h = tt
Pushes-bool (ok (bool v)) h = refl
Pushes-bool (ok _) h = tt

all_true : {A : Type 0} (c : List A) → all_in (λ x. true) c ≡ true
unfolding all_in
all_true [] = refl
all_true (x ∷ xs) = all_true xs

wrapped :
    {A : Type 0} (p : PrimitiveDataType) (P : A → Bool) (r : RepairResult (List A))
    (make : List A → PrimitiveValueList)
    → ((c : List A) → all_in P c ≡ true → list_fits p (make c) ≡ true)
    → AllReturned P r
    → Primitives p (r >>= (λ c. ok (primitive_list (make c))))
wrapped p P (err x) make fit h = tt
wrapped p P (ok c) make fit h = fit c h

scalar_fits-IsMachine :
    (p : PrimitiveDataType) (w : PyroValue) → scalar_fits p w ≡ true → IsMachine w
unfolding scalar_fits IsMachine
scalar_fits-IsMachine PrimitiveDataType.i8 (i8 v) h = h
scalar_fits-IsMachine PrimitiveDataType.i16 (i16 v) h = h
scalar_fits-IsMachine PrimitiveDataType.i32 (i32 v) h = h
scalar_fits-IsMachine PrimitiveDataType.i64 (i64 v) h = h
scalar_fits-IsMachine PrimitiveDataType.u8 (u8 v) h = h
scalar_fits-IsMachine PrimitiveDataType.u16 (u16 v) h = h
scalar_fits-IsMachine PrimitiveDataType.u32 (u32 v) h = h
scalar_fits-IsMachine PrimitiveDataType.u64 (u64 v) h = h
scalar_fits-IsMachine PrimitiveDataType.f32 (f32 v) h = tt
scalar_fits-IsMachine PrimitiveDataType.f64 (f64 v) h = tt
scalar_fits-IsMachine PrimitiveDataType.bool (bool v) h = tt
scalar_fits-IsMachine _ _ h = absurd (cc h)

NullOr-IsMachine : (p : PrimitiveDataType) (w : PyroValue) → NullOr p w → IsMachine w
unfolding IsMachine
NullOr-IsMachine p w (inl e) = rw e tt
NullOr-IsMachine p w (inr h) = scalar_fits-IsMachine p w h

module _ (std : Std) (doc : Documented std) where
  pack_primitive_list-Primitives :
      (p : PrimitiveDataType) (vs : PyroValues)
      → packs p ≡ true
      → AllMachine vs
      → Primitives p (pack_primitive_list std p vs)
  unfolding pack_primitive_list list_fits repair_scalar
  pack_primitive_list-Primitives PrimitiveDataType.i32 vs h m =
      wrapped PrimitiveDataType.i32 (in_range PrimitiveDataType.i32) _ PrimitiveValueList.i32
        (λ c h. h)
        (pack-AllReturned (in_range PrimitiveDataType.i32) as_i32
          (impl_int_repair std PrimitiveDataType.i32)
          (λ v mv. Pushes-i32 _ (repair_scalar-Returns std doc PrimitiveDataType.i32 v mv)) vs m)
  pack_primitive_list-Primitives PrimitiveDataType.i64 vs h m =
      wrapped PrimitiveDataType.i64 (in_range PrimitiveDataType.i64) _ PrimitiveValueList.i64
        (λ c h. h)
        (pack-AllReturned (in_range PrimitiveDataType.i64) as_i64
          (impl_int_repair std PrimitiveDataType.i64)
          (λ v mv. Pushes-i64 _ (repair_scalar-Returns std doc PrimitiveDataType.i64 v mv)) vs m)
  pack_primitive_list-Primitives PrimitiveDataType.u8 vs h m =
      wrapped PrimitiveDataType.u8 (in_range PrimitiveDataType.u8) _ PrimitiveValueList.u8
        (λ c h. h)
        (pack-AllReturned (in_range PrimitiveDataType.u8) as_u8
          (impl_int_repair std PrimitiveDataType.u8)
          (λ v mv. Pushes-u8 _ (repair_scalar-Returns std doc PrimitiveDataType.u8 v mv)) vs m)
  pack_primitive_list-Primitives PrimitiveDataType.f32 vs h m =
      wrapped PrimitiveDataType.f32 (λ x. true) _ PrimitiveValueList.f32 (λ c h. refl)
        (pack-AllReturned (λ x. true) as_f32 (impl_float_repair std PrimitiveDataType.f32)
          (λ v mv. Pushes-f32 _ (repair_scalar-Returns std doc PrimitiveDataType.f32 v mv)) vs m)
  pack_primitive_list-Primitives PrimitiveDataType.f64 vs h m =
      wrapped PrimitiveDataType.f64 (λ x. true) _ PrimitiveValueList.f64 (λ c h. refl)
        (pack-AllReturned (λ x. true) as_f64 (impl_float_repair std PrimitiveDataType.f64)
          (λ v mv. Pushes-f64 _ (repair_scalar-Returns std doc PrimitiveDataType.f64 v mv)) vs m)
  pack_primitive_list-Primitives PrimitiveDataType.bool vs h m =
      wrapped PrimitiveDataType.bool (λ x. true) _ PrimitiveValueList.bool (λ c h. refl)
        (pack-AllReturned (λ x. true) as_bool (repair_to_bool std)
          (λ v mv. Pushes-bool _ (repair_scalar-Returns std doc PrimitiveDataType.bool v mv)) vs m)
  pack_primitive_list-Primitives _ vs h m = absurd (cc h)

  repair_item-Returns :
      (p : PrimitiveDataType) (v : PyroValue) → IsMachine v → Returns p (repair_item std p v)
  unfolding repair_item
  repair_item-Returns p null m = inl refl
  repair_item-Returns p v m = repair_scalar-Returns std doc p v m

  packed_one :
      (p : PrimitiveDataType) (r : Repaired)
      → packs p ≡ true
      → Returns p r
      → Primitives p (r >>= (λ w. pack_primitive_list std p (cons w nil)))
  unfolding IsMachine
  packed_one p (err x) h ret = tt
  packed_one p (ok w) h ret =
      pack_primitive_list-Primitives p (cons w nil) h (NullOr-IsMachine p w ret, tt)

  broadcast-Primitives :
      (p : PrimitiveDataType) (v : PyroValue)
      → packs p ≡ true
      → IsMachine v
      → Primitives p (broadcast std p v)
  unfolding broadcast
  broadcast-Primitives p v h m = packed_one p (repair_item std p v) h (repair_item-Returns p v m)

  relisted :
      (p : PrimitiveDataType) (r : RepairResult PrimitiveValueList)
      → ListReturns p r
      → Primitives p (r >>= (λ c. ok (primitive_list c)))
  relisted p (ok c) h = h
  relisted p (err x) h = tt

  pub repair_primitive_list-Primitives :
      (p : PrimitiveDataType) (size : Option ℕ) (v : PyroValue)
      → packs p ≡ true
      → IsMachine v
      → Primitives p (repair_primitive_list std p size v)
  unfolding repair_primitive_list IsMachine
  repair_primitive_list-Primitives p size (primitive_list c) h m =
      relisted p (repair_list_of std c p size) (repair_list_of-Returns std doc c p size m)
  repair_primitive_list-Primitives p none (list vs) h m = pack_primitive_list-Primitives p vs h m
  repair_primitive_list-Primitives p (some n) (list vs) h m =
      elim (Bool-cases (count_values vs == n)) [
        | inl e ↦ rw e (pack_primitive_list-Primitives p vs h m)
        | inr e ↦ rw e tt
      ]
  repair_primitive_list-Primitives p none v h m = broadcast-Primitives p v h m
  repair_primitive_list-Primitives p (some n) v h m = elim (Bool-cases (n == 1)) [
    | inl e ↦ rw e (broadcast-Primitives p v h m)
    | inr e ↦ rw e tt
  ]
