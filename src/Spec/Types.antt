-- ===== src/Spec/Types.antt =====
-- `PyroType`, `PyroField` and `coerce_pyro_types` of lib/pyro-spec/src/lib.rs. A `Vec` of fields is a data
-- type of its own; the `BTreeMap` from names to fields is the fields in the order of their names.
pub mod Depth
pub mod Sorted
pub mod Entered
pub mod Merged
pub mod Order
mod Tests
use Prim.Native.Nat.{max}
use pyroduct.Base.{
  ℕ, zero, suc, String, Option, none, some, Bool, true, false, ◌||◌, ◌==◌, if◌then◌else◌,
}
use pyroduct.Base.Options.{◌>>=◌}
use pyroduct.Base.Texts.{Ordering, compare_str, str_discrete}
use pyroduct.Spec.{PrimitiveDataType, coerce_primitive_types}
use mathlib.Core.Logic.{ite}
use native.Mathlib.Decide.{ℕ_discrete}

mutual
  pub data PyroType : Type 0 where
    null str timestamp : PyroType
    primitive_scalar primitive_list : PrimitiveDataType → PyroType
    primitive_fixed_list : PrimitiveDataType → ℕ → PyroType
    list : PyroType → Bool → PyroType
    group : PyroFields → PyroType
    map : PyroType → PyroType → PyroType

  -- The name, the documentation, the type and whether it may be null.
  pub data PyroField : Type 0 where
    field : String → Option String → PyroType → Bool → PyroField

  pub data PyroFields : Type 0 where
    nil : PyroFields
    cons : PyroField → PyroFields → PyroFields

bool_discrete : Discrete Bool
bool_discrete = hlevel

PrimitiveDataType-discrete : Discrete PrimitiveDataType
PrimitiveDataType-discrete = hlevel

-- The derived equality.
unfoldable pub PyroType-discrete : Discrete PyroType
unfolding str_discrete ℕ_discrete bool_discrete PrimitiveDataType-discrete
PyroType-discrete = hlevel (str_discrete, ℕ_discrete, bool_discrete, PrimitiveDataType-discrete)

abbrev pub Coercion : Type 0
Coercion = PyroType → PyroType → Option PyroType

-- One turn of the loop over the fields of both groups, on the map from names to merged fields.
unfoldable pub merge_field : Coercion → PyroField → PyroFields → Option PyroFields
merge_field coerce (field name doc data_type nullable) nil =
    some (cons (field name none data_type true) nil)
merge_field coerce (field name doc data_type nullable) (cons (field k d t n) rest) =
    elim (compare_str name k) [
      | Ordering.lt ↦ some (cons (field name none data_type true) (cons (field k d t n) rest))
      | Ordering.eq ↦ do
        coerced ← coerce t data_type
        some (cons (field name none coerced (n || nullable)) rest)
      | Ordering.gt ↦ do
        rest' ← merge_field coerce (field name doc data_type nullable) rest
        some (cons (field k d t n) rest')
    ]

unfoldable pub merge_fields : Coercion → PyroFields → PyroFields → Option PyroFields
unfolding merge_field
merge_fields coerce nil merged = some merged
merge_fields coerce (cons f fs) merged = do
  merged' ← merge_field coerce f merged
  merge_fields coerce fs merged'

-- The arms of the `match`, the recursive calls left open.
unfoldable pub coerce_type_arms : Coercion → Coercion
unfolding merge_fields
coerce_type_arms coerce null b = some b
coerce_type_arms coerce a null = some a
coerce_type_arms coerce (primitive_scalar p) (primitive_scalar q) = do
  c ← coerce_primitive_types p q
  some (primitive_scalar c)
coerce_type_arms coerce (list a n) (list b m) = do c ← coerce a b; some (list c (n || m))
coerce_type_arms coerce (primitive_list p) (primitive_list q) = do
  c ← coerce_primitive_types p q
  some (primitive_list c)
coerce_type_arms coerce (primitive_fixed_list p s) (primitive_fixed_list q r) = do
  c ← coerce_primitive_types p q
  some (if s == r then primitive_fixed_list c s else primitive_list c)
coerce_type_arms coerce (primitive_fixed_list p s) (primitive_list q) = do
  c ← coerce_primitive_types p q
  some (primitive_list c)
coerce_type_arms coerce (primitive_list p) (primitive_fixed_list q r) = do
  c ← coerce_primitive_types p q
  some (primitive_list c)
coerce_type_arms coerce (group fs) (group gs) = do
  merged ← merge_fields coerce fs nil
  merged' ← merge_fields coerce gs merged
  some (group merged')
coerce_type_arms coerce (map k v) (map k' v') = do
  key ← coerce k k'
  value ← coerce v v'
  some (map key value)
coerce_type_arms coerce _ _ = none

unfoldable pub coerce_step : Coercion → Coercion
unfolding coerce_type_arms PyroType-discrete
coerce_step coerce a b = ite (PyroType-discrete a b) (some a) (coerce_type_arms coerce a b)

-- The recursion, as deep as the fuel.
unfoldable pub coerce_at : ℕ → Coercion
unfolding coerce_step
coerce_at zero a b = none
coerce_at (suc n) a b = coerce_step (coerce_at n) a b

unfoldable mutual
  pub depth : PyroType → ℕ
  depth (list t n) = suc (depth t)
  depth (group fs) = suc (depth_fields fs)
  depth (map k v) = suc (max (depth k) (depth v))
  depth _ = 0

  pub depth_fields : PyroFields → ℕ
  depth_fields nil = 0
  depth_fields (cons f fs) = max (depth_field f) (depth_fields fs)

  pub depth_field : PyroField → ℕ
  depth_field (field name doc t n) = depth t

-- The fuel is one more than the nesting of the deeper type.
unfoldable pub coerce_pyro_types : Coercion
unfolding coerce_at depth
coerce_pyro_types a b = coerce_at (suc (max (depth a) (depth b))) a b
