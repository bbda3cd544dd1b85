-- ===== src/Value/Repair/Scalars.antt =====
-- The scalars of lib/pyroduct/src/format/value/repair.rs, and its errors.
use pyroduct.Base.{ℕ, String, Option, none, some, Bool, true, false, if◌then◌else◌, ◌==◌}
use pyroduct.Base.Outcome.{Result, ok, err}
use pyroduct.Base.Integers.{ℤ, pos, negsuc, in_unsigned, in_signed}
use pyroduct.Base.Texts.{append_str, str_discrete}
use pyroduct.Spec.{PrimitiveDataType, discriminant}
use pyroduct.Spec.Types.{PyroType, primitive_scalar}
use pyroduct.Value.{PyroValue, null, bool, i8, i16, i32, i64, u8, u16, u32, u64, f16, f32, f64, str}
use mathlib.Core.Logic.{ite}

-- Rust's `parse`, `to_lowercase`, `to_string` and the casts to and from floats, those by the source's
-- type and the target's; a float is its bits.
pub record Std : Type 0 where
  pub parse_int : PrimitiveDataType → String → Option ℤ
  pub parse_float : PrimitiveDataType → String → Option ℕ
  pub to_lowercase : String → String
  pub int_to_string : ℤ → String
  pub float_to_string : PrimitiveDataType → ℕ → String
  pub float_as_int : PrimitiveDataType → PrimitiveDataType → ℕ → ℤ
  pub int_as_float : PrimitiveDataType → ℤ → ℕ
  pub float_as_float : PrimitiveDataType → PrimitiveDataType → ℕ → ℕ

pub data ScalarRepairError : Type 0 where
  cast : PyroType → ScalarRepairError
  out_of_bounds : String → PyroType → ScalarRepairError
  missing : String → ScalarRepairError
  invalid_scalar : PyroValue → ScalarRepairError
  parse_error : String → PyroType → ScalarRepairError
  unimplemented : String → ScalarRepairError

abbrev pub RepairResult : Type 0 → Type 0
RepairResult A = Result A ScalarRepairError

abbrev pub Repaired : Type 0
Repaired = RepairResult PyroValue

-- The numbers of an integer type; what is no integer type has none.
unfoldable pub in_range : PrimitiveDataType → ℤ → Bool
in_range PrimitiveDataType.i8 v = in_signed 8 v
in_range PrimitiveDataType.i16 v = in_signed 16 v
in_range PrimitiveDataType.i32 v = in_signed 32 v
in_range PrimitiveDataType.i64 v = in_signed 64 v
in_range PrimitiveDataType.u8 v = in_unsigned 8 v
in_range PrimitiveDataType.u16 v = in_unsigned 16 v
in_range PrimitiveDataType.u32 v = in_unsigned 32 v
in_range PrimitiveDataType.u64 v = in_unsigned 64 v
in_range _ v = false

-- The macros' `PyroValue::$variant`, of integers and of floats.
unfoldable pub int_value : PrimitiveDataType → ℤ → PyroValue
int_value PrimitiveDataType.i8 v = i8 v
int_value PrimitiveDataType.i16 v = i16 v
int_value PrimitiveDataType.i32 v = i32 v
int_value PrimitiveDataType.i64 v = i64 v
int_value PrimitiveDataType.u8 v = u8 v
int_value PrimitiveDataType.u16 v = u16 v
int_value PrimitiveDataType.u32 v = u32 v
int_value PrimitiveDataType.u64 v = u64 v
int_value _ v = null

unfoldable pub float_value : PrimitiveDataType → ℕ → PyroValue
float_value PrimitiveDataType.f16 v = f16 v
float_value PrimitiveDataType.f32 v = f32 v
float_value PrimitiveDataType.f64 v = f64 v
float_value _ v = null

-- `stringify!($target_type)`
abbrev pub type_name : PrimitiveDataType → String
type_name PrimitiveDataType.i8 = "i8"
type_name PrimitiveDataType.i16 = "i16"
type_name PrimitiveDataType.i32 = "i32"
type_name PrimitiveDataType.i64 = "i64"
type_name PrimitiveDataType.u8 = "u8"
type_name PrimitiveDataType.u16 = "u16"
type_name PrimitiveDataType.u32 = "u32"
type_name PrimitiveDataType.u64 = "u64"
type_name _ = ""

unfoldable pub try_cast_numeric : Std → PrimitiveDataType → ℤ → Repaired
unfolding in_range int_value
try_cast_numeric std t v =
    if in_range t v
    then ok (int_value t v)
    else err (
        out_of_bounds (append_str (std.int_to_string v) (append_str " -> " (type_name t)))
          (primitive_scalar t))

unfoldable pub parsed : (ℤ → PyroValue) → String → PrimitiveDataType → Option ℤ → Repaired
parsed make s t (some v) = ok (make v)
parsed make s t none = err (parse_error s (primitive_scalar t))

unfoldable pub parsed_float : (ℕ → PyroValue) → String → PrimitiveDataType → Option ℕ → Repaired
parsed_float make s t (some v) = ok (make v)
parsed_float make s t none = err (parse_error s (primitive_scalar t))

-- An integer: the identity arm, which stands first, or the cast.
unfoldable pub int_arm : Std → PrimitiveDataType → PrimitiveDataType → ℤ → Repaired
unfolding discriminant try_cast_numeric int_value
int_arm std t source v =
    if discriminant source == discriminant t then ok (int_value t v) else try_cast_numeric std t v

unfoldable pub impl_int_repair : Std → PrimitiveDataType → PyroValue → Repaired
unfolding parsed int_arm int_value
impl_int_repair std t null = ok null
impl_int_repair std t (str s) = parsed (int_value t) s t (std.parse_int t s)
impl_int_repair std t (i8 v) = int_arm std t PrimitiveDataType.i8 v
impl_int_repair std t (i16 v) = int_arm std t PrimitiveDataType.i16 v
impl_int_repair std t (i32 v) = int_arm std t PrimitiveDataType.i32 v
impl_int_repair std t (i64 v) = int_arm std t PrimitiveDataType.i64 v
impl_int_repair std t (u8 v) = int_arm std t PrimitiveDataType.u8 v
impl_int_repair std t (u16 v) = int_arm std t PrimitiveDataType.u16 v
impl_int_repair std t (u32 v) = int_arm std t PrimitiveDataType.u32 v
impl_int_repair std t (u64 v) = int_arm std t PrimitiveDataType.u64 v
impl_int_repair std t (f32 v) = ok (int_value t (std.float_as_int PrimitiveDataType.f32 t v))
impl_int_repair std t (f64 v) = ok (int_value t (std.float_as_int PrimitiveDataType.f64 t v))
impl_int_repair std t (bool b) = ok (int_value t (pos (if b then 1 else 0)))
impl_int_repair std t _ = err (cast (primitive_scalar t))

-- A float: the identity arm, or the cast.
unfoldable pub float_arm : Std → PrimitiveDataType → PrimitiveDataType → ℕ → Repaired
unfolding discriminant float_value
float_arm std t source v =
    if discriminant source == discriminant t
    then ok (float_value t v)
    else ok (float_value t (std.float_as_float source t v))

unfoldable pub impl_float_repair : Std → PrimitiveDataType → PyroValue → Repaired
unfolding parsed_float float_arm float_value
impl_float_repair std t null = ok null
impl_float_repair std t (str s) = parsed_float (float_value t) s t (std.parse_float t s)
impl_float_repair std t (i8 v) = ok (float_value t (std.int_as_float t v))
impl_float_repair std t (i16 v) = ok (float_value t (std.int_as_float t v))
impl_float_repair std t (i32 v) = ok (float_value t (std.int_as_float t v))
impl_float_repair std t (i64 v) = ok (float_value t (std.int_as_float t v))
impl_float_repair std t (u8 v) = ok (float_value t (std.int_as_float t v))
impl_float_repair std t (u16 v) = ok (float_value t (std.int_as_float t v))
impl_float_repair std t (u32 v) = ok (float_value t (std.int_as_float t v))
impl_float_repair std t (u64 v) = ok (float_value t (std.int_as_float t v))
impl_float_repair std t (f32 v) = float_arm std t PrimitiveDataType.f32 v
impl_float_repair std t (f64 v) = float_arm std t PrimitiveDataType.f64 v
impl_float_repair std t (bool b) =
    ok (float_value t (std.int_as_float t (pos (if b then 1 else 0))))
impl_float_repair std t _ = err (cast (primitive_scalar t))

pub is_nonzero : ℤ → Bool
is_nonzero (pos n) = if n == 0 then false else true
is_nonzero (negsuc n) = true

-- The words that stand for truth values, in lower case.
unfoldable pub bool_of_word : String → Option Bool
bool_of_word w = ite (str_discrete w "true") (some true) (
    ite (str_discrete w "1") (some true) (
      ite (str_discrete w "yes") (some true) (
        ite (str_discrete w "false") (some false)
          (ite (str_discrete w "0") (some false) (ite (str_discrete w "no") (some false) none)))))

unfoldable pub parsed_bool : String → Option Bool → Repaired
parsed_bool s (some b) = ok (bool b)
parsed_bool s none = err (parse_error s (primitive_scalar PrimitiveDataType.bool))

unfoldable pub repair_to_bool : Std → PyroValue → Repaired
unfolding is_nonzero bool_of_word parsed_bool
repair_to_bool std (bool b) = ok (bool b)
repair_to_bool std null = ok null
repair_to_bool std (str s) = parsed_bool s (bool_of_word (std.to_lowercase s))
repair_to_bool std (i8 v) = ok (bool (is_nonzero v))
repair_to_bool std (i32 v) = ok (bool (is_nonzero v))
repair_to_bool std (i64 v) = ok (bool (is_nonzero v))
repair_to_bool std _ = err (cast (primitive_scalar PrimitiveDataType.bool))

unfoldable pub repair_to_utf8 : Std → PyroValue → Repaired
repair_to_utf8 std (str s) = ok (str s)
repair_to_utf8 std null = ok null
repair_to_utf8 std (bool b) = ok (str (if b then "true" else "false"))
repair_to_utf8 std (i8 v) = ok (str (std.int_to_string v))
repair_to_utf8 std (i16 v) = ok (str (std.int_to_string v))
repair_to_utf8 std (i32 v) = ok (str (std.int_to_string v))
repair_to_utf8 std (i64 v) = ok (str (std.int_to_string v))
repair_to_utf8 std (u8 v) = ok (str (std.int_to_string v))
repair_to_utf8 std (u16 v) = ok (str (std.int_to_string v))
repair_to_utf8 std (u32 v) = ok (str (std.int_to_string v))
repair_to_utf8 std (u64 v) = ok (str (std.int_to_string v))
repair_to_utf8 std (f32 v) = ok (str (std.float_to_string PrimitiveDataType.f32 v))
repair_to_utf8 std (f64 v) = ok (str (std.float_to_string PrimitiveDataType.f64 v))
repair_to_utf8 std _ = err (cast PyroType.str)

-- The `match` on the primitive type in `repair`.
unfoldable pub repair_scalar : Std → PrimitiveDataType → PyroValue → Repaired
unfolding repair_to_bool impl_int_repair impl_float_repair
repair_scalar std PrimitiveDataType.bool v = repair_to_bool std v
repair_scalar std PrimitiveDataType.f16 v = err (unimplemented "f16 repair")
repair_scalar std PrimitiveDataType.f32 v = impl_float_repair std PrimitiveDataType.f32 v
repair_scalar std PrimitiveDataType.f64 v = impl_float_repair std PrimitiveDataType.f64 v
repair_scalar std t v = impl_int_repair std t v
