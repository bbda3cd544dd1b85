-- ===== src/Value/Inference.antt =====
-- lib/pyroduct/src/format/value/schema.rs: the type of a value, and the accumulator that finds the
-- type of a column from its values.
mod Tests
pub mod Observed
use pyroduct.Base.{String, Option, none, some, Bool, true, false, if◌then◌else◌}
use pyroduct.Base.Outcome.{Result, ok, err, ◌>>=◌}
use pyroduct.Spec.{PrimitiveDataType}
use pyroduct.Spec.Types.{
  PyroType, primitive_scalar, PyroField, field, PyroFields, PyroType-discrete, coerce_pyro_types,
}
use pyroduct.Value.{
  PyroValue, null, bool, i8, i16, i32, i64, u8, u16, u32, u64, f16, f32, f64, timestamp,
  primitive_list, str, group, list, map_internal, PyroRow, empty, item, PyroValues, nil, cons,
  PyroPairs, no_pairs, pair, is_null,
}
use pyroduct.Value.Primitives.{data_type}
use mathlib.Core.Logic.{ite}

coerced_or : PyroType → Option PyroType → PyroType
coerced_or t none = t
coerced_or t (some c) = c

-- The type of the items so far and that of one more; where the two have no common type, the
-- first is kept.
item_type : PyroType → PyroType → PyroType
unfolding PyroType-discrete coerce_pyro_types coerced_or
item_type inner t =
    ite (PyroType-discrete inner PyroType.null) t
      (ite (PyroType-discrete inner t) inner (coerced_or inner (coerce_pyro_types inner t)))

entry_type : PyroType → PyroType → PyroType
unfolding PyroType-discrete coerce_pyro_types coerced_or
entry_type inner t =
    ite (PyroType-discrete inner PyroType.null) t (coerced_or inner (coerce_pyro_types inner t))

default_key : PyroType → PyroType
unfolding PyroType-discrete
default_key t = ite (PyroType-discrete t PyroType.null) PyroType.str t

unfoldable mutual
  unfolding item_type entry_type default_key data_type

  pub value_data_type : PyroValue → PyroType
  value_data_type null = PyroType.null
  value_data_type (bool b) = primitive_scalar PrimitiveDataType.bool
  value_data_type (i8 v) = primitive_scalar PrimitiveDataType.i8
  value_data_type (i16 v) = primitive_scalar PrimitiveDataType.i16
  value_data_type (i32 v) = primitive_scalar PrimitiveDataType.i32
  value_data_type (i64 v) = primitive_scalar PrimitiveDataType.i64
  value_data_type (u8 v) = primitive_scalar PrimitiveDataType.u8
  value_data_type (u16 v) = primitive_scalar PrimitiveDataType.u16
  value_data_type (u32 v) = primitive_scalar PrimitiveDataType.u32
  value_data_type (u64 v) = primitive_scalar PrimitiveDataType.u64
  value_data_type (f16 v) = primitive_scalar PrimitiveDataType.f16
  value_data_type (f32 v) = primitive_scalar PrimitiveDataType.f32
  value_data_type (f64 v) = primitive_scalar PrimitiveDataType.f64
  value_data_type (str s) = PyroType.str
  value_data_type (timestamp t) = PyroType.timestamp
  value_data_type (primitive_list c) = PyroType.primitive_list (data_type c)
  value_data_type (list vs) = list_data_type vs PyroType.null false
  value_data_type (group row) = PyroType.group (row_fields row)
  value_data_type (map_internal pairs) = map_data_type pairs PyroType.null PyroType.null

  pub list_data_type : PyroValues → PyroType → Bool → PyroType
  list_data_type nil inner has_null = PyroType.list inner has_null
  list_data_type (cons v vs) inner has_null =
      list_data_type vs (if is_null v then inner else item_type inner (value_data_type v))
        (if is_null v then true else has_null)

  pub row_fields : PyroRow → PyroFields
  row_fields empty = PyroFields.nil
  row_fields (item k v rest) =
      PyroFields.cons (field k none (value_data_type v) true) (row_fields rest)

  pub map_data_type : PyroPairs → PyroType → PyroType → PyroType
  map_data_type no_pairs key_dt val_dt = PyroType.map (default_key key_dt) val_dt
  map_data_type (pair k v rest) key_dt val_dt =
      map_data_type rest (entry_type key_dt (value_data_type k))
        (entry_type val_dt (value_data_type v))

pub data ValueSchemaInferenceError : Type 0 where
  incompatible_types : String → PyroType → PyroType → ValueSchemaInferenceError
  empty_row : ValueSchemaInferenceError

pub record PyroFieldAccumulator : Type 0 where
  pub data_type : Option PyroType
  pub nullable : Bool

abbrev pub new : PyroFieldAccumulator
new = record { data_type = none; nullable = false }

unfoldable pub coerced_to :
    String → PyroType → PyroType → Option PyroType → Result PyroType ValueSchemaInferenceError
coerced_to name current observed none = err (incompatible_types name current observed)
coerced_to name current observed (some c) = ok c

-- The `match` on the accumulator's type.
unfoldable pub observed_type :
    String → Option PyroType → PyroType → Result PyroType ValueSchemaInferenceError
unfolding PyroType-discrete coerce_pyro_types coerced_to
observed_type name none observed = ok observed
observed_type name (some current) observed =
    ite (PyroType-discrete current observed) (ok current)
      (coerced_to name current observed (coerce_pyro_types current observed))

unfoldable pub observe :
    String
    → PyroValue
    → PyroFieldAccumulator
    → Result PyroFieldAccumulator ValueSchemaInferenceError
unfolding observed_type value_data_type
observe name value accum =
    let seen = (do
      t ← observed_type name accum.data_type (value_data_type value)
      ok (record accum { data_type = some t })) in
    if is_null value then ok (record accum { nullable = true }) else seen

unfoldable pub type_or_null : Option PyroType → PyroType
type_or_null none = PyroType.null
type_or_null (some t) = t

unfoldable pub build : String → PyroFieldAccumulator → PyroField
unfolding type_or_null
build name accum = field name none (type_or_null accum.data_type) accum.nullable
