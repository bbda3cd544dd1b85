-- ===== src/Value/Repair/Tests.antt =====
-- Values repaired, over a standard library that parses no text and casts each float to 0.
use pyroduct.Base.{none, true, false, ◌≡◌, refl, [], ◌∷◌}
use pyroduct.Base.Outcome.{ok, err}
use pyroduct.Base.Integers.{pos}
use pyroduct.Base.Texts.{str_discrete, append_str, ne_of_lt, ne_of_gt}
use pyroduct.Spec.{PrimitiveDataType, i8, u8, i32, u64}
use pyroduct.Spec.Types.{PyroType, PyroFields, primitive_scalar, primitive_fixed_list}
use pyroduct.Value.{
  PyroValue, null, group, list, PyroRow, empty, item, nil, cons, primitive_list, get,
}
use pyroduct.Value.Primitives.{PrimitiveValueList}
use pyroduct.Value.Repair.{repair, project_repair}
use pyroduct.Value.Repair.Sample.{std}
use pyroduct.Value.Repair.Scalars.{out_of_bounds, in_range, int_value, type_name}
use pyroduct.Value.Repair.Exact.{is_integer, repair_int_exact}
use pyroduct.Value.Repair.Fits.{Fits, IsMachine, Packable, Documented}
use pyroduct.Value.Repair.Fitting.{repair-Fits}
use pyroduct.Value.Repair.Rows.{Distinct}
use pyroduct.Value.Repair.Projected.{DistinctNames, project_by_name, project_repair-project_by_name}
use pyroduct.Value.Repair.Again.{Named, repair_idempotent}

zero_in_range : (t : PrimitiveDataType) → is_integer t ≡ true → in_range t (pos 0) ≡ true
unfolding in_range
zero_in_range PrimitiveDataType.bool h = absurd (cc h)
zero_in_range PrimitiveDataType.f16 h = absurd (cc h)
zero_in_range PrimitiveDataType.f32 h = absurd (cc h)
zero_in_range PrimitiveDataType.f64 h = absurd (cc h)
zero_in_range _ h = refl

documented : Documented std
documented = record {
  parse_in_range = λ t s v h e. absurd (cc e);
  float_as_int_in_range = λ s t v h. zero_in_range t h;
}

-- `{ id: i32, tags: [u8; 2], note: str? }`
abbrev fields : PyroFields
fields = PyroFields.cons (pyroduct.Spec.Types.field "id" none (primitive_scalar i32) false) (
    PyroFields.cons (pyroduct.Spec.Types.field "tags" none (primitive_fixed_list u8 2) false)
      (PyroFields.cons (pyroduct.Spec.Types.field "note" none PyroType.str true) PyroFields.nil))

abbrev row : PyroRow
row =
    item "tags" (list (cons (PyroValue.i64 (pos 3)) (cons (PyroValue.u8 (pos 4)) nil)))
      (item "more" null (item "id" (PyroValue.u64 (pos 70000)) empty))

abbrev repaired_row : PyroRow
repaired_row = item "id" (PyroValue.i32 (pos 70000)) (
    item "tags" (primitive_list (PrimitiveValueList.u8 (pos 3 ∷ pos 4 ∷ [])))
      (item "note" null empty))

repairs_row : repair std (PyroType.group fields) (group row) ≡ ok (group repaired_row)
unfolding repair str_discrete
repairs_row = refl

-- The size of a fixed list is not looked at where the element type is right already.
fixed_size_ignored :
    repair std (primitive_fixed_list u8 2) (primitive_list (PrimitiveValueList.u8 (pos 3 ∷ [])))
    ≡ ok (primitive_list (PrimitiveValueList.u8 (pos 3 ∷ [])))
unfolding repair
fixed_size_ignored = refl

-- Nulls are left out after the size was looked at.
nulls_left_out :
    repair std (primitive_fixed_list u8 2) (list (cons (PyroValue.u8 (pos 3)) (cons null nil)))
    ≡ ok (primitive_list (PrimitiveValueList.u8 (pos 3 ∷ [])))
unfolding repair
nulls_left_out = refl

repair_int_exact_example :
    (in_range i8 (pos 70000) ≡ true
      → repair std (primitive_scalar i8) (int_value u64 (pos 70000))
        ≡ ok (int_value i8 (pos 70000)))
    × (in_range i8 (pos 70000) ≡ false
        → repair std (primitive_scalar i8) (int_value u64 (pos 70000))
          ≡ err (
              out_of_bounds
                (append_str (std.int_to_string (pos 70000)) (append_str " -> " (type_name i8)))
                (primitive_scalar i8)))
unfolding in_range
repair_int_exact_example = repair_int_exact std u64 i8 (pos 70000) refl refl refl

repair-Fits_example : Fits (PyroType.group fields) (group repaired_row)
unfolding Packable IsMachine in_range
repair-Fits_example =
    repair-Fits std documented (PyroType.group fields) (group row) (group repaired_row)
      (tt, (refl, (tt, tt))) ((refl, (refl, tt)), (tt, (refl, tt))) repairs_row

names_distinct : DistinctNames fields
names_distinct = (
  (ne_of_gt "tags" "id" refl, (ne_of_gt "note" "id" refl, tt)),
  ((ne_of_lt "note" "tags" refl, tt), (tt, tt)),
)

keys-Distinct : Distinct row
unfolding get str_discrete
keys-Distinct = (refl, (refl, (refl, tt)))

repair_idempotent_example :
    repair std (PyroType.group fields) (group repaired_row) ≡ ok (group repaired_row)
unfolding Packable IsMachine in_range Named
repair_idempotent_example =
    repair_idempotent std (PyroType.group fields) (group row) (group repaired_row) documented
      (tt, (refl, (tt, tt))) (names_distinct, (tt, (tt, (tt, tt))))
      ((refl, (refl, tt)), (tt, (refl, tt))) repairs_row

project_repair-project_by_name_example :
    project_repair std fields row ≡ project_by_name std fields row
project_repair-project_by_name_example =
    project_repair-project_by_name std fields row names_distinct keys-Distinct
