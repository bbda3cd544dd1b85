-- ===== src/Value/Coerce/Tests.antt =====
-- Numbers, texts and slices coerced, over a standard library that parses no text.
use pyroduct.Base.{true, [], ◌∷◌, ◌≡◌, refl}
use pyroduct.Base.Outcome.{ok, err}
use pyroduct.Base.Integers.{pos}
use pyroduct.Spec.{PrimitiveDataType, i32, u8}
use pyroduct.Spec.Types.{primitive_scalar}
use pyroduct.Value.{PyroValue}
use pyroduct.Value.Primitives.{PrimitiveValueList, list_len}
use pyroduct.Value.Repair.{repair}
use pyroduct.Value.Repair.Scalars.{cast}
use pyroduct.Value.Repair.Sample.{std}
use pyroduct.Value.Coerce.{int, just, coerce, try_coerce_to}
use pyroduct.Value.Coerce.Agreement.{scalar, try_coerce_to-repair}
use pyroduct.Value.Coerce.Sizes.{coerced_list_len}

try_coerce_to-repair_example :
    try_coerce_to std (just (int i32 (pos 200))) (primitive_scalar u8) ≡ ok (PyroValue.u8 (pos 200))
unfolding repair coerce
try_coerce_to-repair_example =
    try_coerce_to-repair std (just (int i32 (pos 200))) (primitive_scalar u8)
      (PyroValue.u8 (pos 200)) refl scalar refl

coerced_list_len_example :
    (c : PrimitiveValueList) × (PyroValue.primitive_list
        (PrimitiveValueList.i32 (pos 3 ∷ pos 4 ∷ []))
      ≡ PyroValue.primitive_list c)
    × (list_len c ≡ 2)
unfolding try_coerce_to
coerced_list_len_example =
    coerced_list_len std (PrimitiveValueList.u8 (pos 3 ∷ pos 4 ∷ [])) i32 2
      (PyroValue.primitive_list (PrimitiveValueList.i32 (pos 3 ∷ pos 4 ∷ []))) refl

-- A number of 16 bits is coerced to a truth value, and is not repaired to one.
only_coerced :
    (try_coerce_to std (int PrimitiveDataType.i16 (pos 2)) (primitive_scalar PrimitiveDataType.bool)
      ≡ ok (PyroValue.bool true))
    × (repair std (primitive_scalar PrimitiveDataType.bool) (PyroValue.i16 (pos 2))
        ≡ err (cast (primitive_scalar PrimitiveDataType.bool)))
unfolding try_coerce_to repair
only_coerced = (refl, refl)
