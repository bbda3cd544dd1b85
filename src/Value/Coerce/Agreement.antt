-- ===== src/Value/Coerce/Agreement.antt =====
-- lib/pyroduct/src/format/value/coerce.rs against repair.rs: the two ways to a value of a scalar type.
use pyroduct.Base.{ℕ, String, Bool, true, ◌≡◌, refl, ◌∙◌}
use pyroduct.Base.Outcome.{ok, err}
use pyroduct.Base.Integers.{ℤ}
use pyroduct.Spec.{PrimitiveDataType, discriminant}
use pyroduct.Spec.Types.{PyroType, primitive_scalar}
use pyroduct.Value.{PyroValue, null}
use pyroduct.Value.Repair.{repair}
use pyroduct.Value.Repair.Scalars.{
  Std, Repaired, int_value, repair_scalar, repair_to_bool, repair_to_utf8, impl_int_repair,
  impl_float_repair, int_arm, try_cast_numeric, float_arm, float_value, parsed_float,
}
use pyroduct.Value.Repair.Exact.{is_integer}
use pyroduct.Value.Coerce.{
  Native, int, f16, f32, f64, bool, string, nothing, just, slice, coerce, try_int_cast,
  numeric_scalar, numeric_try_coerce, float_scalar, float_try_coerce, bool_scalar, bool_try_coerce,
  half_try_coerce, str_scalar, str_try_coerce_to, try_coerce_to,
}

-- The integers of a native value have integer types.
abbrev pub IsNative : Native → Type 0
IsNative (int source v) = is_integer source ≡ true
IsNative (just n) = IsNative n
IsNative _ = Unit

-- The types of scalars and of text.
pub data AsScalar : PyroType → Type 0 where
  scalar : {p : PrimitiveDataType} → AsScalar (primitive_scalar p)
  text : AsScalar PyroType.str

-- What the one gives, the other gives.
abbrev Gives : Repaired → Repaired → Type 0
Gives (ok w) r = r ≡ ok w
Gives (err e) r = Unit

Gives-self : (r : Repaired) → Gives r r
Gives-self (ok w) = refl
Gives-self (err e) = tt

int-Gives :
    (std : Std) (s t : PrimitiveDataType) (v : ℤ)
    → is_integer s ≡ true
    → Gives
        (repair std (primitive_scalar t) (int_value s v))
        (numeric_try_coerce std s v (primitive_scalar t))
unfolding repair repair_scalar repair_to_bool impl_int_repair impl_float_repair int_arm
    try_cast_numeric int_value float_value numeric_try_coerce numeric_scalar try_int_cast
    discriminant
int-Gives std PrimitiveDataType.bool t v h = absurd (cc h)
int-Gives std PrimitiveDataType.f16 t v h = absurd (cc h)
int-Gives std PrimitiveDataType.f32 t v h = absurd (cc h)
int-Gives std PrimitiveDataType.f64 t v h = absurd (cc h)
int-Gives std PrimitiveDataType.i8 PrimitiveDataType.bool v h = refl
int-Gives std PrimitiveDataType.i32 PrimitiveDataType.bool v h = refl
int-Gives std PrimitiveDataType.i64 PrimitiveDataType.bool v h = refl
int-Gives std _ PrimitiveDataType.bool v h = tt
int-Gives std _ PrimitiveDataType.f16 v h = tt
int-Gives std _ PrimitiveDataType.f32 v h = refl
int-Gives std _ PrimitiveDataType.f64 v h = refl
int-Gives std s t v h = Gives-self (repair std (primitive_scalar t) (int_value s v))

int_text-Gives :
    (std : Std) (s : PrimitiveDataType) (v : ℤ)
    → is_integer s ≡ true
    → Gives (repair std PyroType.str (int_value s v)) (numeric_try_coerce std s v PyroType.str)
unfolding repair repair_to_utf8 int_value numeric_try_coerce
int_text-Gives std PrimitiveDataType.bool v h = absurd (cc h)
int_text-Gives std PrimitiveDataType.f16 v h = absurd (cc h)
int_text-Gives std PrimitiveDataType.f32 v h = absurd (cc h)
int_text-Gives std PrimitiveDataType.f64 v h = absurd (cc h)
int_text-Gives std _ v h = refl

f32-Gives :
    (std : Std) (t : PrimitiveDataType) (v : ℕ)
    → Gives
        (repair std (primitive_scalar t) (PyroValue.f32 v))
        (float_try_coerce std PrimitiveDataType.f32 v (primitive_scalar t))
unfolding repair repair_scalar repair_to_bool impl_int_repair impl_float_repair float_arm
    float_value float_try_coerce float_scalar discriminant
f32-Gives std PrimitiveDataType.bool v = tt
f32-Gives std PrimitiveDataType.f16 v = tt
f32-Gives std _ v = refl

f64-Gives :
    (std : Std) (t : PrimitiveDataType) (v : ℕ)
    → Gives
        (repair std (primitive_scalar t) (PyroValue.f64 v))
        (float_try_coerce std PrimitiveDataType.f64 v (primitive_scalar t))
unfolding repair repair_scalar repair_to_bool impl_int_repair impl_float_repair float_arm
    float_value float_try_coerce float_scalar discriminant
f64-Gives std PrimitiveDataType.bool v = tt
f64-Gives std PrimitiveDataType.f16 v = tt
f64-Gives std _ v = refl

half-Gives :
    (std : Std) (t : PrimitiveDataType) (v : ℕ)
    → Gives
        (repair std (primitive_scalar t) (PyroValue.f16 v))
        (half_try_coerce v (primitive_scalar t))
unfolding repair repair_scalar repair_to_bool impl_int_repair impl_float_repair
half-Gives std PrimitiveDataType.f16 v = tt
half-Gives std _ v = tt

bool-Gives :
    (std : Std) (t : PrimitiveDataType) (b : Bool)
    → Gives
        (repair std (primitive_scalar t) (PyroValue.bool b))
        (bool_try_coerce std b (primitive_scalar t))
unfolding repair repair_scalar repair_to_bool impl_int_repair impl_float_repair float_value
    bool_try_coerce bool_scalar
bool-Gives std PrimitiveDataType.f16 b = tt
bool-Gives std _ b = refl

str-Gives :
    (std : Std) (t : PrimitiveDataType) (s : String)
    → Gives
        (repair std (primitive_scalar t) (PyroValue.str s))
        (str_try_coerce_to std s (primitive_scalar t))
unfolding repair repair_scalar repair_to_bool impl_int_repair impl_float_repair float_value
    str_try_coerce_to str_scalar parsed_float
str-Gives std PrimitiveDataType.f16 s = tt
str-Gives std PrimitiveDataType.f32 s =
    Gives-self
      (parsed_float PyroValue.f32 s PrimitiveDataType.f32 (std.parse_float PrimitiveDataType.f32 s))
str-Gives std PrimitiveDataType.f64 s =
    Gives-self
      (parsed_float PyroValue.f64 s PrimitiveDataType.f64 (std.parse_float PrimitiveDataType.f64 s))
str-Gives std _ s = Gives-self _

slice-Gives :
    (std : Std) (t : PrimitiveDataType) (r : Repaired)
    (c : pyroduct.Value.Primitives.PrimitiveValueList)
    → Gives (repair std (primitive_scalar t) (PyroValue.primitive_list c)) r
unfolding repair repair_scalar repair_to_bool impl_int_repair impl_float_repair
slice-Gives std PrimitiveDataType.f16 r c = tt
slice-Gives std _ r c = tt

scalar-Gives :
    (std : Std) (n : Native) (t : PrimitiveDataType)
    → IsNative n
    → Gives (repair std (primitive_scalar t) (coerce n)) (try_coerce_to std n (primitive_scalar t))
unfolding repair coerce try_coerce_to
scalar-Gives std (int s v) t h = int-Gives std s t v h
scalar-Gives std (f16 v) t h = half-Gives std t v
scalar-Gives std (f32 v) t h = f32-Gives std t v
scalar-Gives std (f64 v) t h = f64-Gives std t v
scalar-Gives std (bool b) t h = bool-Gives std t b
scalar-Gives std (string s) t h = str-Gives std t s
scalar-Gives std nothing t h = refl
scalar-Gives std (just n) t h = scalar-Gives std n t h
scalar-Gives std (slice c) t h = slice-Gives std t _ c

text-Gives :
    (std : Std) (n : Native)
    → IsNative n
    → Gives (repair std PyroType.str (coerce n)) (try_coerce_to std n PyroType.str)
unfolding repair repair_to_utf8 coerce try_coerce_to float_try_coerce bool_try_coerce
    str_try_coerce_to
text-Gives std (int s v) h = int_text-Gives std s v h
text-Gives std (f16 v) h = tt
text-Gives std (f32 v) h = refl
text-Gives std (f64 v) h = refl
text-Gives std (bool b) h = refl
text-Gives std (string s) h = refl
text-Gives std nothing h = refl
text-Gives std (just n) h = text-Gives std n h
text-Gives std (slice c) h = tt

native-Gives :
    (std : Std) (n : Native) {t : PyroType}
    → IsNative n
    → AsScalar t
    → Gives (repair std t (coerce n)) (try_coerce_to std n t)
native-Gives std n h (scalar {p = p}) = scalar-Gives std n p h
native-Gives std n h text = text-Gives std n h

given : (r r' : Repaired) (w : PyroValue) → Gives r r' → r ≡ ok w → r' ≡ ok w
given (ok x) r' w g e = g ∙ e
given (err x) r' w g e = absurd (cc e)

-- Where the target is a scalar type or text, and the value that a native value stands for can be repaired
-- to it, the native value is coerced to the same value, whatever the standard library does.
pub try_coerce_to-repair :
    (std : Std) (n : Native) (t : PyroType) (w : PyroValue)
    → IsNative n
    → AsScalar t
    → repair std t (coerce n) ≡ ok w
    → try_coerce_to std n t ≡ ok w
try_coerce_to-repair std n t w h a e =
    given (repair std t (coerce n)) (try_coerce_to std n t) w (native-Gives std n h a) e
