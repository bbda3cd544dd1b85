-- ===== src/Spec/Coercion.antt =====
-- `coerce_primitive_types` of lib/pyro-spec/src/lib.rs against the order of widening.
use pyroduct.Base.{
  ℕ, Option, none, some, Bool, true, not, ◌&&◌, ◌||◌, ◌==◌, leb, ◌≡◌, refl, sym, ap, ◌∙◌, arith,
}
use pyroduct.Spec.{
  PrimitiveDataType, bool, u8, u16, u32, u64, i8, i16, i32, i64, f16, f32, f64,
  coerce_primitive_types,
}

-- What a type holds, by kind (truth values, unsigned, signed, floating) and width.
abbrev pub kind_of : PrimitiveDataType → ℕ × ℕ
kind_of bool = (0, 1)
kind_of u8 = (1, 8)
kind_of u16 = (1, 16)
kind_of u32 = (1, 32)
kind_of u64 = (1, 64)
kind_of i8 = (2, 8)
kind_of i16 = (2, 16)
kind_of i32 = (2, 32)
kind_of i64 = (2, 64)
kind_of f16 = (3, 16)
kind_of f32 = (3, 32)
kind_of f64 = (3, 64)

-- One kind widens to itself at the same width or a larger one; a number widens to the 64-bit float.
abbrev pub widens_by : ℕ × ℕ → ℕ × ℕ → Bool
widens_by (k, w) (k', w') = ((k == k') && leb w w') || ((k' == 3) && (w' == 64) && not (k == 0))

abbrev pub widens : PrimitiveDataType → PrimitiveDataType → Bool
widens a b = widens_by (kind_of a) (kind_of b)

for_all : (PrimitiveDataType → Bool) → Bool
for_all p =
    p bool
    && (p u8
        && (p u16
            && (p u32
                && (p u64
                    && (p i8 && (p i16 && (p i32 && (p i64 && (p f16 && (p f32 && p f64))))))))))

for_all_lem :
    (p : PrimitiveDataType → Bool) → for_all p ≡ true → (a : PrimitiveDataType) → p a ≡ true
unfolding for_all
for_all_lem p h bool = ground (arith, h)
for_all_lem p h u8 = ground (arith, h)
for_all_lem p h u16 = ground (arith, h)
for_all_lem p h u32 = ground (arith, h)
for_all_lem p h u64 = ground (arith, h)
for_all_lem p h i8 = ground (arith, h)
for_all_lem p h i16 = ground (arith, h)
for_all_lem p h i32 = ground (arith, h)
for_all_lem p h i64 = ground (arith, h)
for_all_lem p h f16 = ground (arith, h)
for_all_lem p h f32 = ground (arith, h)
for_all_lem p h f64 = ground (arith, h)

-- What is claimed of a pair, as a test.
abbrev bounds :
    PrimitiveDataType → PrimitiveDataType → PrimitiveDataType → Option PrimitiveDataType → Bool
bounds a b d none = not (widens a d && widens b d) || ((kind_of d).0 == 3) && ((kind_of d).1 == 64)
bounds a b d (some c) = (widens a c && widens b c) && (not (widens a d && widens b d) || widens c d)

all_bounds :
    for_all (λ a. for_all (λ b. for_all (λ d. bounds a b d (coerce_primitive_types a b)))) ≡ true
unfolding for_all coerce_primitive_types
all_bounds = refl

bounds_at : (a b d : PrimitiveDataType) → bounds a b d (coerce_primitive_types a b) ≡ true
bounds_at a b d = for_all_lem _ (for_all_lem _ (for_all_lem _ all_bounds a) b) d

upper_left : (x y z : Bool) → ((x && y) && z) ≡ true → x ≡ true
upper_left x y z h = ground (arith, h)

upper_right : (x y z : Bool) → ((x && y) && z) ≡ true → y ≡ true
upper_right x y z h = ground (arith, h)

least_of : (u x y z : Bool) → x ≡ true → y ≡ true → (u && (not (x && y) || z)) ≡ true → z ≡ true
least_of u x y z l r h = ground (arith, h)

bound_of :
    (a b c d : PrimitiveDataType)
    → coerce_primitive_types a b ≡ some c
    → bounds a b d (some c) ≡ true
bound_of a b c d e = sym (ap (bounds a b d) e) ∙ bounds_at a b d

-- Two primitive types that coerce do so to their least upper bound in the order of widening.
pub coerce_primitive_types_least :
    (a b c : PrimitiveDataType)
    → coerce_primitive_types a b ≡ some c
    → (widens a c ≡ true)
      × (widens b c ≡ true)
      × ((d : PrimitiveDataType) → widens a d ≡ true → widens b d ≡ true → widens c d ≡ true)
coerce_primitive_types_least a b c e = (
  upper_left (widens a c) (widens b c) _ (bound_of a b c c e),
  upper_right (widens a c) (widens b c) _ (bound_of a b c c e),
  λ d l r.
      least_of (widens a c && widens b c) (widens a d) (widens b d) (widens c d) l r
        (bound_of a b c d e),
)

rest_of : (x y z : Bool) → x ≡ true → y ≡ true → (not (x && y) || z) ≡ true → z ≡ true
rest_of x y z l r h = ground (arith, h)

is_f64 : (d : PrimitiveDataType) → (((kind_of d).0 == 3) && ((kind_of d).1 == 64)) ≡ true → d ≡ f64
is_f64 f64 h = refl
is_f64 bool h = absurd (cc h)
is_f64 _ h = absurd (cc h)

-- Two primitive types are refused only where nothing but the 64-bit float lies above both.
pub coerce_primitive_types_refused :
    (a b d : PrimitiveDataType)
    → coerce_primitive_types a b ≡ none
    → widens a d ≡ true
    → widens b d ≡ true
    → d ≡ f64
coerce_primitive_types_refused a b d e l r =
    is_f64 d (rest_of (widens a d) (widens b d) _ l r (sym (ap (bounds a b d) e) ∙ bounds_at a b d))

-- The order in which two primitive types are coerced does not matter.
pub coerce_primitive_types_comm :
    (a b : PrimitiveDataType) → coerce_primitive_types a b ≡ coerce_primitive_types b a
unfolding coerce_primitive_types
coerce_primitive_types_comm bool bool = refl
coerce_primitive_types_comm bool _ = refl
coerce_primitive_types_comm u8 bool = refl
coerce_primitive_types_comm u8 _ = refl
coerce_primitive_types_comm u16 bool = refl
coerce_primitive_types_comm u16 _ = refl
coerce_primitive_types_comm u32 bool = refl
coerce_primitive_types_comm u32 _ = refl
coerce_primitive_types_comm u64 bool = refl
coerce_primitive_types_comm u64 _ = refl
coerce_primitive_types_comm i8 bool = refl
coerce_primitive_types_comm i8 _ = refl
coerce_primitive_types_comm i16 bool = refl
coerce_primitive_types_comm i16 _ = refl
coerce_primitive_types_comm i32 bool = refl
coerce_primitive_types_comm i32 _ = refl
coerce_primitive_types_comm i64 bool = refl
coerce_primitive_types_comm i64 _ = refl
coerce_primitive_types_comm f16 bool = refl
coerce_primitive_types_comm f16 _ = refl
coerce_primitive_types_comm f32 bool = refl
coerce_primitive_types_comm f32 _ = refl
coerce_primitive_types_comm f64 bool = refl
coerce_primitive_types_comm f64 _ = refl

all_trans :
    for_all (λ a. for_all (λ b. for_all (λ c. not (widens a b && widens b c) || widens a c))) ≡ true
unfolding for_all
all_trans = refl

pub widens_refl : (a : PrimitiveDataType) → widens a a ≡ true
widens_refl bool = refl
widens_refl _ = refl

pub widens_trans :
    (a b c : PrimitiveDataType) → widens a b ≡ true → widens b c ≡ true → widens a c ≡ true
widens_trans a b c l r =
    rest_of (widens a b) (widens b c) (widens a c) l r
      (for_all_lem _ (for_all_lem _ (for_all_lem _ all_trans a) b) c)
