-- ===== src/Value/Repair/Exact.antt =====
-- Integers repaired to integers by lib/pyroduct/src/format/value/repair.rs.
use pyroduct.Base.{Bool, true, false, ◌==◌, ◌≡◌, refl, sym, ap, ◌∙◌, inl, inr, Bool-cases, arith}
use pyroduct.Base.Outcome.{ok, err}
use pyroduct.Base.Integers.{ℤ}
use pyroduct.Base.Texts.{append_str}
use pyroduct.Spec.{PrimitiveDataType, bool, f16, f32, f64, discriminant}
use pyroduct.Spec.Types.{primitive_scalar}
use pyroduct.Value.Repair.{repair}
use pyroduct.Value.Repair.Scalars.{
  Std, out_of_bounds, in_range, int_value, type_name, try_cast_numeric, int_arm, impl_int_repair,
  repair_scalar,
}

abbrev pub is_integer : PrimitiveDataType → Bool
is_integer bool = false
is_integer f16 = false
is_integer f32 = false
is_integer f64 = false
is_integer _ = true

discriminant_inj : (a b : PrimitiveDataType) → (discriminant a == discriminant b) ≡ true → a ≡ b
unfolding discriminant
discriminant_inj bool b h = ground arith
discriminant_inj _ b h = ground arith

impl_int_repair-int_value :
    (std : Std) (s t : PrimitiveDataType) (v : ℤ)
    → is_integer s ≡ true
    → impl_int_repair std t (int_value s v) ≡ int_arm std t s v
unfolding impl_int_repair int_value
impl_int_repair-int_value std bool t v h = absurd (cc h)
impl_int_repair-int_value std f16 t v h = absurd (cc h)
impl_int_repair-int_value std f32 t v h = absurd (cc h)
impl_int_repair-int_value std f64 t v h = absurd (cc h)
impl_int_repair-int_value std _ t v h = refl

repair-repair_int :
    (std : Std) (s t : PrimitiveDataType) (v : ℤ)
    → is_integer s ≡ true
    → is_integer t ≡ true
    → repair std (primitive_scalar t) (int_value s v) ≡ impl_int_repair std t (int_value s v)
unfolding repair repair_scalar int_value
repair-repair_int std bool t v h h' = absurd (cc h)
repair-repair_int std f16 t v h h' = absurd (cc h)
repair-repair_int std f32 t v h h' = absurd (cc h)
repair-repair_int std f64 t v h h' = absurd (cc h)
repair-repair_int std s bool v h h' = absurd (cc h')
repair-repair_int std s f16 v h h' = absurd (cc h')
repair-repair_int std s f32 v h h' = absurd (cc h')
repair-repair_int std s f64 v h h' = absurd (cc h')
repair-repair_int std _ _ v h h' = refl

pub int_arm-eq :
    (std : Std) (s t : PrimitiveDataType) (v : ℤ)
    → in_range s v ≡ true
    → int_arm std t s v ≡ try_cast_numeric std t v
unfolding int_arm try_cast_numeric
int_arm-eq std s t v h = elim (Bool-cases (discriminant s == discriminant t)) [
  | inl e ↦ rw (e, ap (λ d. in_range d v) (sym (discriminant_inj s t e)) ∙ h) refl
  | inr e ↦ rw e refl
]

repair_int :
    (std : Std) (s t : PrimitiveDataType) (v : ℤ)
    → is_integer s ≡ true
    → is_integer t ≡ true
    → in_range s v ≡ true
    → repair std (primitive_scalar t) (int_value s v) ≡ try_cast_numeric std t v
repair_int std s t v hs ht h =
    repair-repair_int std s t v hs ht
    ∙ impl_int_repair-int_value std s t v hs
    ∙ int_arm-eq std s t v h

-- An integer of one machine type repaired to another integer type is the same number where that type
-- has it, and is refused as out of bounds where it has not: it never wraps.
pub repair_int_exact :
    (std : Std) (s t : PrimitiveDataType) (v : ℤ)
    → is_integer s ≡ true
    → is_integer t ≡ true
    → in_range s v ≡ true
    → (in_range t v ≡ true → repair std (primitive_scalar t) (int_value s v) ≡ ok (int_value t v))
      × (in_range t v ≡ false
          → repair std (primitive_scalar t) (int_value s v)
            ≡ err (
                out_of_bounds
                  (append_str (std.int_to_string v) (append_str " -> " (type_name t)))
                  (primitive_scalar t)))
unfolding try_cast_numeric
repair_int_exact std s t v hs ht h =
    (λ e. repair_int std s t v hs ht h ∙ rw e refl, λ e. repair_int std s t v hs ht h ∙ rw e refl)
