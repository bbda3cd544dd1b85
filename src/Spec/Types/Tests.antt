-- ===== src/Spec/Types/Tests.antt =====
-- Types coerced.
use pyroduct.Base.{ℕ, ◌<◌, none, some, true, false, ◌≡◌, ◌≢◌, refl}
use pyroduct.Spec.{i32, f64, u8, coerce_primitive_types}
use pyroduct.Spec.Types.{
  PyroFields, field, nil, cons, primitive_scalar, group, list, str, coerce_pyro_types, coerce_step,
  coerce_at, depth,
}
use pyroduct.Spec.Types.Depth.{coerce_pyro_types_terminates}
use pyroduct.Spec.Types.Order.{◌⊑◌}
use pyroduct.Spec.Types.Merged.{coerce_pyro_types_upper}
use pyroduct.Spec.Types.Sorted.{IsMap, coerce_pyro_types_merges}

abbrev older : PyroFields
older = cons (field "b" none str false) (cons (field "a" none (primitive_scalar i32) false) nil)

abbrev newer : PyroFields
newer =
    cons (field "a" none (primitive_scalar f64) false)
      (cons (field "c" none (list (primitive_scalar u8) false) true) nil)

abbrev merged : PyroFields
merged = cons (field "a" none (primitive_scalar f64) true) (
    cons (field "b" none str true)
      (cons (field "c" none (list (primitive_scalar u8) false) true) nil))

merges : coerce_pyro_types (group older) (group newer) ≡ some (group merged)
unfolding coerce_pyro_types coerce_primitive_types
merges = refl

refuses : coerce_pyro_types (group older) (primitive_scalar u8) ≡ none
unfolding coerce_pyro_types
refuses = refl

differ : group older ≢ group newer
differ = λ e. cc e

coerce_pyro_types_terminates_example :
    ((n : ℕ)
      → depth (group older) < n
      → depth (group newer) < n
      → coerce_at n (group older) (group newer) ≡ coerce_pyro_types (group older) (group newer))
    × (coerce_pyro_types (group older) (group newer)
        ≡ coerce_step coerce_pyro_types (group older) (group newer))
coerce_pyro_types_terminates_example = coerce_pyro_types_terminates (group older) (group newer)

coerce_pyro_types_upper_example : (group older ⊑ group merged) × (group newer ⊑ group merged)
coerce_pyro_types_upper_example =
    coerce_pyro_types_upper (group older) (group newer) (group merged) merges

coerce_pyro_types_merges_example : (hs : PyroFields) × (group merged ≡ group hs) × IsMap hs
coerce_pyro_types_merges_example = coerce_pyro_types_merges older newer (group merged) differ merges
