-- ===== src/Value/Inference/Tests.antt =====
-- Tests of lib/pyroduct/src/format/value/schema.rs on concrete values.
use pyroduct.Base.{some, true, [], ◌∷◌, ◌≡◌, refl}
use pyroduct.Base.Outcome.{ok, err}
use pyroduct.Base.Integers.{pos}
use pyroduct.Spec.{PrimitiveDataType, coerce_primitive_types}
use pyroduct.Spec.Types.{PyroType, primitive_scalar, coerce_pyro_types}
use pyroduct.Value.{null, i32, f64, str, list, map_internal, nil, cons, no_pairs, pair}
use pyroduct.Value.Inference.{value_data_type, PyroFieldAccumulator, new, incompatible_types, build}
use pyroduct.Value.Inference.Observed.{observe_all, Covers, observe_all-Covers}

value_data_type1 :
    value_data_type (list (cons (i32 (pos 1)) (cons null (cons (i32 (pos 3)) nil))))
    ≡ PyroType.list (primitive_scalar PrimitiveDataType.i32) true
unfolding value_data_type
value_data_type1 = refl

-- Integers and floats widen, and the key is a string where there is none.
value_data_type2 :
    value_data_type (map_internal (pair (str "a") (i32 (pos 10)) (pair (str "b") (f64 1) no_pairs)))
    ≡ PyroType.map PyroType.str (primitive_scalar PrimitiveDataType.f64)
unfolding value_data_type coerce_pyro_types coerce_primitive_types
value_data_type2 = refl

abbrev column : PyroFieldAccumulator
column = record { data_type = some (primitive_scalar PrimitiveDataType.f64); nullable = true }

observed : observe_all "x" (i32 (pos 10) ∷ null ∷ f64 1 ∷ []) new ≡ ok column
unfolding observe_all coerce_pyro_types coerce_primitive_types
observed = refl

refused :
    observe_all "x" (i32 (pos 10) ∷ str "a" ∷ []) new
    ≡ err (incompatible_types "x" (primitive_scalar PrimitiveDataType.i32) PyroType.str)
unfolding observe_all coerce_pyro_types
refused = refl

observe_all-Covers_example : Covers (build "x" column) (i32 (pos 10))
observe_all-Covers_example =
    observe_all-Covers "x" [] (i32 (pos 10)) (null ∷ f64 1 ∷ []) new column observed
