-- ===== src/Value/Coerce.antt =====
-- lib/pyroduct/src/format/value/coerce.rs: Rust's own values turned into values of a type. A macro is a
-- function of the type that it is given, and a `Vec`, a slice and an array are one.
pub mod Agreement
pub mod Sizes
mod Tests
use pyroduct.Base.{
  ℕ, ◌%◌, ◌^◌, String, Option, none, some, Bool, true, false, ◌==◌, if◌then◌else◌, not,
}
use pyroduct.Base.Outcome.{Result, ok, err, ◌>>=◌}
use pyroduct.Base.Integers.{ℤ, pos}
use pyroduct.Base.Texts.{append_str}
use pyroduct.Spec.{PrimitiveDataType, discriminant}
use pyroduct.Spec.Types.{PyroType, primitive_scalar, primitive_list, primitive_fixed_list}
use pyroduct.Value.{PyroValue, null}
use pyroduct.Value.Primitives.{PrimitiveValueList, data_type, list_len}
use pyroduct.Value.Repair.Scalars.{
  Std, ScalarRepairError, cast, out_of_bounds, unimplemented, RepairResult, Repaired, in_range,
  int_value, float_value, type_name, parsed, parsed_float, is_nonzero, bool_of_word, parsed_bool,
}
use pyroduct.Value.Repair.Lists.{repair_list_of}

-- The Rust types that are converted: integers with their type, floats by their bits, and options.
pub data Native : Type 0 where
  int : PrimitiveDataType → ℤ → Native
  f16 f32 f64 : ℕ → Native
  bool : Bool → Native
  string : String → Native
  nothing : Native
  just : Native → Native
  slice : PrimitiveValueList → Native

unfoldable pub coerce : Native → PyroValue
unfolding int_value
coerce (int source v) = int_value source v
coerce (f16 v) = PyroValue.f16 v
coerce (f32 v) = PyroValue.f32 v
coerce (f64 v) = PyroValue.f64 v
coerce (bool b) = PyroValue.bool b
coerce (string s) = PyroValue.str s
coerce nothing = null
coerce (just n) = coerce n
coerce (slice list) = PyroValue.primitive_list list

unfoldable pub try_int_cast : Std → PrimitiveDataType → PyroType → ℤ → Repaired
unfolding in_range int_value
try_int_cast std t target v =
    if in_range t v
    then ok (int_value t v)
    else err
        (out_of_bounds (append_str (std.int_to_string v) (append_str " -> " (type_name t))) target)

-- The arms for a scalar behind the identity.
unfoldable pub numeric_scalar : Std → PrimitiveDataType → ℤ → Repaired
unfolding try_int_cast float_value
numeric_scalar std PrimitiveDataType.f32 v =
    ok (PyroValue.f32 (std.int_as_float PrimitiveDataType.f32 v))
numeric_scalar std PrimitiveDataType.f64 v =
    ok (PyroValue.f64 (std.int_as_float PrimitiveDataType.f64 v))
numeric_scalar std PrimitiveDataType.bool v = ok (PyroValue.bool (is_nonzero v))
numeric_scalar std PrimitiveDataType.f16 v = err (unimplemented "f16 coerce")
numeric_scalar std t v = try_int_cast std t (primitive_scalar t) v

unfoldable pub numeric_try_coerce : Std → PrimitiveDataType → ℤ → PyroType → Repaired
unfolding numeric_scalar int_value discriminant
numeric_try_coerce std source v (primitive_scalar t) =
    if discriminant source == discriminant t
    then ok (int_value source v)
    else numeric_scalar std t v
numeric_try_coerce std source v PyroType.str = ok (PyroValue.str (std.int_to_string v))
numeric_try_coerce std source v PyroType.null = ok null
numeric_try_coerce std source v target = err (cast target)

-- A float is other than 0 where a bit other than its sign is set.
unfoldable pub float_nonzero : PrimitiveDataType → ℕ → Bool
float_nonzero PrimitiveDataType.f32 v = not (v % 2 ^ 31 == 0)
float_nonzero _ v = not (v % 2 ^ 63 == 0)

unfoldable pub float_scalar : Std → PrimitiveDataType → PrimitiveDataType → ℕ → Repaired
unfolding float_nonzero int_value
float_scalar std source PrimitiveDataType.f32 v =
    ok (PyroValue.f32 (std.float_as_float source PrimitiveDataType.f32 v))
float_scalar std source PrimitiveDataType.f64 v =
    ok (PyroValue.f64 (std.float_as_float source PrimitiveDataType.f64 v))
float_scalar std source PrimitiveDataType.bool v = ok (PyroValue.bool (float_nonzero source v))
float_scalar std source PrimitiveDataType.f16 v = err (unimplemented "f16 coerce")
float_scalar std source t v = ok (int_value t (std.float_as_int source t v))

unfoldable pub float_try_coerce : Std → PrimitiveDataType → ℕ → PyroType → Repaired
unfolding float_scalar float_value discriminant
float_try_coerce std source v (primitive_scalar t) =
    if discriminant source == discriminant t
    then ok (float_value source v)
    else float_scalar std source t v
float_try_coerce std source v PyroType.str = ok (PyroValue.str (std.float_to_string source v))
float_try_coerce std source v PyroType.null = ok null
float_try_coerce std source v target = err (cast target)

unfoldable pub bool_scalar : Std → PrimitiveDataType → Bool → Repaired
unfolding int_value
bool_scalar std PrimitiveDataType.bool b = ok (PyroValue.bool b)
bool_scalar std PrimitiveDataType.f32 b =
    ok (PyroValue.f32 (std.int_as_float PrimitiveDataType.f32 (pos (if b then 1 else 0))))
bool_scalar std PrimitiveDataType.f64 b =
    ok (PyroValue.f64 (std.int_as_float PrimitiveDataType.f64 (pos (if b then 1 else 0))))
bool_scalar std PrimitiveDataType.f16 b = err (unimplemented "f16 coerce")
bool_scalar std t b = ok (int_value t (pos (if b then 1 else 0)))

unfoldable pub bool_try_coerce : Std → Bool → PyroType → Repaired
unfolding bool_scalar
bool_try_coerce std b (primitive_scalar t) = bool_scalar std t b
bool_try_coerce std b PyroType.str = ok (PyroValue.str (if b then "true" else "false"))
bool_try_coerce std b PyroType.null = ok null
bool_try_coerce std b target = err (cast target)

unfoldable pub half_try_coerce : ℕ → PyroType → Repaired
half_try_coerce v (primitive_scalar PrimitiveDataType.f16) = ok (PyroValue.f16 v)
half_try_coerce v PyroType.null = ok null
half_try_coerce v _ = err (unimplemented "f16 coerce")

unfoldable pub str_scalar : Std → PrimitiveDataType → String → Repaired
unfolding parsed parsed_float int_value parsed_bool bool_of_word
str_scalar std PrimitiveDataType.bool s = parsed_bool s (bool_of_word (std.to_lowercase s))
str_scalar std PrimitiveDataType.f32 s =
    parsed_float PyroValue.f32 s PrimitiveDataType.f32 (std.parse_float PrimitiveDataType.f32 s)
str_scalar std PrimitiveDataType.f64 s =
    parsed_float PyroValue.f64 s PrimitiveDataType.f64 (std.parse_float PrimitiveDataType.f64 s)
str_scalar std PrimitiveDataType.f16 s = err (unimplemented "f16 parse")
str_scalar std t s = parsed (int_value t) s t (std.parse_int t s)

unfoldable pub str_try_coerce_to : Std → String → PyroType → Repaired
unfolding str_scalar
str_try_coerce_to std s PyroType.str = ok (PyroValue.str s)
str_try_coerce_to std s (primitive_scalar t) = str_scalar std t s
str_try_coerce_to std s PyroType.null = ok null
str_try_coerce_to std s target = err (cast target)

unfoldable pub prim_slice_try_coerce :
    Std → PrimitiveValueList → PrimitiveDataType → PyroType → Repaired
unfolding repair_list_of list_len discriminant
prim_slice_try_coerce std list src_prim (primitive_list t) =
    if discriminant t == discriminant src_prim
    then ok (PyroValue.primitive_list list)
    else (repair_list_of std list t none >>= λ list'. ok (PyroValue.primitive_list list'))
prim_slice_try_coerce std list src_prim (primitive_fixed_list t size) =
    if discriminant t == discriminant src_prim
    then if list_len list == size
      then ok (PyroValue.primitive_list list)
      else err (
          out_of_bounds
            (append_str "FixedSizeList len " (
              append_str (std.int_to_string (pos (list_len list)))
                (append_str " != " (std.int_to_string (pos size)))))
            (primitive_fixed_list t size))
    else (repair_list_of std list t (some size) >>= λ list'. ok (PyroValue.primitive_list list'))
prim_slice_try_coerce std list src_prim target = err (cast target)

unfoldable pub try_coerce_to : Std → Native → PyroType → Repaired
unfolding numeric_try_coerce float_try_coerce bool_try_coerce half_try_coerce str_try_coerce_to
    prim_slice_try_coerce data_type
try_coerce_to std (int source v) target = numeric_try_coerce std source v target
try_coerce_to std (f16 v) target = half_try_coerce v target
try_coerce_to std (f32 v) target = float_try_coerce std PrimitiveDataType.f32 v target
try_coerce_to std (f64 v) target = float_try_coerce std PrimitiveDataType.f64 v target
try_coerce_to std (bool b) target = bool_try_coerce std b target
try_coerce_to std (string s) target = str_try_coerce_to std s target
try_coerce_to std nothing target = ok null
try_coerce_to std (just n) target = try_coerce_to std n target
try_coerce_to std (slice list) target = prim_slice_try_coerce std list (data_type list) target
