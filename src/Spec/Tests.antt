-- ===== src/Spec/Tests.antt =====
-- Coercions of a few primitive types.
use pyroduct.Base.{true, ◌≡◌, refl}
use pyroduct.Spec.{PrimitiveDataType, u8, u16, coerce_primitive_types}
use pyroduct.Spec.Coercion.{widens, coerce_primitive_types_least}

coerce_primitive_types_least_example :
    (widens u8 u16 ≡ true)
    × (widens u16 u16 ≡ true)
    × ((d : PrimitiveDataType) → widens u8 d ≡ true → widens u16 d ≡ true → widens u16 d ≡ true)
unfolding coerce_primitive_types
coerce_primitive_types_least_example = coerce_primitive_types_least u8 u16 u16 refl
