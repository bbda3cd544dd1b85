-- ===== src/Spec.antt =====
-- lib/pyro-spec/src/lib.rs: the primitive types of the value system and their coercion.
pub mod Coercion
pub mod Types
mod Tests
use pyroduct.Base.{ℕ, Option, none, some, Bool, true, false, ◌==◌, if◌then◌else◌}

pub data PrimitiveDataType : Type 0 where
  bool u8 u16 u32 u64 i8 i16 i32 i64 f16 f32 f64 : PrimitiveDataType

-- The position in the declaration, which the derived equality compares.
unfoldable pub discriminant : PrimitiveDataType → ℕ
discriminant bool = 0
discriminant u8 = 1
discriminant u16 = 2
discriminant u32 = 3
discriminant u64 = 4
discriminant i8 = 5
discriminant i16 = 6
discriminant i32 = 7
discriminant i64 = 8
discriminant f16 = 9
discriminant f32 = 10
discriminant f64 = 11

-- The arms of the `match`, each `|` a clause.
coerce_arms : PrimitiveDataType → PrimitiveDataType → Option PrimitiveDataType
coerce_arms i8 i16 = some i16
coerce_arms i16 i8 = some i16
coerce_arms i8 i32 = some i32
coerce_arms i32 i8 = some i32
coerce_arms i8 i64 = some i64
coerce_arms i64 i8 = some i64
coerce_arms i16 i32 = some i32
coerce_arms i32 i16 = some i32
coerce_arms i16 i64 = some i64
coerce_arms i64 i16 = some i64
coerce_arms i32 i64 = some i64
coerce_arms i64 i32 = some i64
coerce_arms u8 u16 = some u16
coerce_arms u16 u8 = some u16
coerce_arms u8 u32 = some u32
coerce_arms u32 u8 = some u32
coerce_arms u8 u64 = some u64
coerce_arms u64 u8 = some u64
coerce_arms u16 u32 = some u32
coerce_arms u32 u16 = some u32
coerce_arms u16 u64 = some u64
coerce_arms u64 u16 = some u64
coerce_arms u32 u64 = some u64
coerce_arms u64 u32 = some u64
coerce_arms f16 f32 = some f32
coerce_arms f32 f16 = some f32
coerce_arms f16 f64 = some f64
coerce_arms f64 f16 = some f64
coerce_arms f32 f64 = some f64
coerce_arms f64 f32 = some f64
coerce_arms i8 f64 = some f64
coerce_arms f64 i8 = some f64
coerce_arms i16 f64 = some f64
coerce_arms f64 i16 = some f64
coerce_arms i32 f64 = some f64
coerce_arms f64 i32 = some f64
coerce_arms i64 f64 = some f64
coerce_arms f64 i64 = some f64
coerce_arms u8 f64 = some f64
coerce_arms f64 u8 = some f64
coerce_arms u16 f64 = some f64
coerce_arms f64 u16 = some f64
coerce_arms u32 f64 = some f64
coerce_arms f64 u32 = some f64
coerce_arms u64 f64 = some f64
coerce_arms f64 u64 = some f64
coerce_arms _ _ = none

unfoldable pub coerce_primitive_types :
    PrimitiveDataType → PrimitiveDataType → Option PrimitiveDataType
unfolding coerce_arms discriminant
coerce_primitive_types a b = if discriminant a == discriminant b then some a else coerce_arms a b
