-- ===== src/Value/Primitives.antt =====
-- `PrimitiveValueList` of lib/pyroduct/src/format/value/value.rs: slices of one primitive type.
use pyroduct.Base.{ℕ, List, Bool, length}
use pyroduct.Base.Integers.{ℤ}
use pyroduct.Spec.{PrimitiveDataType}

pub data PrimitiveValueList : Type 0 where
  bool : List Bool → PrimitiveValueList
  u8 u16 u32 u64 i8 i16 i32 i64 : List ℤ → PrimitiveValueList
  f16 f32 f64 : List ℕ → PrimitiveValueList

unfoldable pub data_type : PrimitiveValueList → PrimitiveDataType
data_type (bool v) = PrimitiveDataType.bool
data_type (u8 v) = PrimitiveDataType.u8
data_type (u16 v) = PrimitiveDataType.u16
data_type (u32 v) = PrimitiveDataType.u32
data_type (u64 v) = PrimitiveDataType.u64
data_type (i8 v) = PrimitiveDataType.i8
data_type (i16 v) = PrimitiveDataType.i16
data_type (i32 v) = PrimitiveDataType.i32
data_type (i64 v) = PrimitiveDataType.i64
data_type (f16 v) = PrimitiveDataType.f16
data_type (f32 v) = PrimitiveDataType.f32
data_type (f64 v) = PrimitiveDataType.f64

unfoldable pub list_len : PrimitiveValueList → ℕ
list_len (bool v) = length v
list_len (u8 v) = length v
list_len (u16 v) = length v
list_len (u32 v) = length v
list_len (u64 v) = length v
list_len (i8 v) = length v
list_len (i16 v) = length v
list_len (i32 v) = length v
list_len (i64 v) = length v
list_len (f16 v) = length v
list_len (f32 v) = length v
list_len (f64 v) = length v
