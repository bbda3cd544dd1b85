-- ===== src/Value/Repair/Lists.antt =====
-- The primitive lists of lib/pyroduct/src/format/value/repair.rs.
use pyroduct.Base.{
  ℕ, String, Option, none, some, Bool, true, false, List, [], ◌∷◌, length, map, ◌==◌, if◌then◌else◌,
}
use pyroduct.Base.Outcome.{ok, err, ◌>>=◌}
use pyroduct.Base.Integers.{ℤ, pos, wrap_signed}
use pyroduct.Base.Texts.{append_str}
use pyroduct.Spec.{PrimitiveDataType}
use pyroduct.Spec.Types.{PyroType, primitive_fixed_list}
use pyroduct.Value.{
  PyroValue, null, bool, i32, i64, u8, f32, f64, primitive_list, list, PyroValues, nil, cons,
}
use pyroduct.Value.Primitives.{PrimitiveValueList}
use pyroduct.Value.Repair.Scalars.{
  Std, cast, out_of_bounds, RepairResult, Repaired, repair_to_bool, impl_int_repair,
  impl_float_repair, repair_scalar,
}

-- Rust's `as` from one integer type to another: the bits that fit.
unfoldable pub cast_int : PrimitiveDataType → ℤ → ℤ
cast_int PrimitiveDataType.i32 v = wrap_signed 32 v
cast_int PrimitiveDataType.i64 v = wrap_signed 64 v
cast_int _ v = v

-- The check of `cast_slice!` on what it has built.
unfoldable pub sized : Option ℕ → ℕ → PrimitiveValueList → RepairResult PrimitiveValueList
sized none n pl = ok pl
sized (some sz) n pl =
    if n == sz then ok pl else err (out_of_bounds "FixedSizeList mismatch" PyroType.null)

unfoldable pub ints_to_i32 : List ℤ → Option ℕ → RepairResult PrimitiveValueList
unfolding sized cast_int
ints_to_i32 c size =
    sized size (length c) (PrimitiveValueList.i32 (map (cast_int PrimitiveDataType.i32) c))

unfoldable pub ints_to_i64 : List ℤ → Option ℕ → RepairResult PrimitiveValueList
unfolding sized cast_int
ints_to_i64 c size =
    sized size (length c) (PrimitiveValueList.i64 (map (cast_int PrimitiveDataType.i64) c))

unfoldable pub floats_to_i32 :
    Std → PrimitiveDataType → List ℕ → Option ℕ → RepairResult PrimitiveValueList
unfolding sized
floats_to_i32 std source c size =
    sized size (length c)
      (PrimitiveValueList.i32 (map (std.float_as_int source PrimitiveDataType.i32) c))

unfoldable pub floats_to_i64 :
    Std → PrimitiveDataType → List ℕ → Option ℕ → RepairResult PrimitiveValueList
unfolding sized
floats_to_i64 std source c size =
    sized size (length c)
      (PrimitiveValueList.i64 (map (std.float_as_int source PrimitiveDataType.i64) c))

unfoldable pub ints_to_f32 : Std → List ℤ → Option ℕ → RepairResult PrimitiveValueList
unfolding sized
ints_to_f32 std c size =
    sized size (length c) (PrimitiveValueList.f32 (map (std.int_as_float PrimitiveDataType.f32) c))

unfoldable pub ints_to_f64 : Std → List ℤ → Option ℕ → RepairResult PrimitiveValueList
unfolding sized
ints_to_f64 std c size =
    sized size (length c) (PrimitiveValueList.f64 (map (std.int_as_float PrimitiveDataType.f64) c))

-- The arms of `match_cast!`.
unfoldable pub cast_list :
    Std → PrimitiveValueList → PrimitiveDataType → Option ℕ → RepairResult PrimitiveValueList
unfolding ints_to_i32 ints_to_i64 floats_to_i32 floats_to_i64 ints_to_f32 ints_to_f64 sized
cast_list std (PrimitiveValueList.i64 c) PrimitiveDataType.i32 size = ints_to_i32 c size
cast_list std (PrimitiveValueList.f64 c) PrimitiveDataType.i32 size =
    floats_to_i32 std PrimitiveDataType.f64 c size
cast_list std (PrimitiveValueList.f32 c) PrimitiveDataType.i32 size =
    floats_to_i32 std PrimitiveDataType.f32 c size
cast_list std (PrimitiveValueList.u8 c) PrimitiveDataType.i32 size = ints_to_i32 c size
cast_list std (PrimitiveValueList.u16 c) PrimitiveDataType.i32 size = ints_to_i32 c size
cast_list std (PrimitiveValueList.u32 c) PrimitiveDataType.i32 size = ints_to_i32 c size
cast_list std (PrimitiveValueList.u64 c) PrimitiveDataType.i32 size = ints_to_i32 c size
cast_list std (PrimitiveValueList.i8 c) PrimitiveDataType.i32 size = ints_to_i32 c size
cast_list std (PrimitiveValueList.i16 c) PrimitiveDataType.i32 size = ints_to_i32 c size
cast_list std (PrimitiveValueList.i32 c) PrimitiveDataType.i64 size = ints_to_i64 c size
cast_list std (PrimitiveValueList.f64 c) PrimitiveDataType.i64 size =
    floats_to_i64 std PrimitiveDataType.f64 c size
cast_list std (PrimitiveValueList.f32 c) PrimitiveDataType.i64 size =
    floats_to_i64 std PrimitiveDataType.f32 c size
cast_list std (PrimitiveValueList.u8 c) PrimitiveDataType.i64 size = ints_to_i64 c size
cast_list std (PrimitiveValueList.u16 c) PrimitiveDataType.i64 size = ints_to_i64 c size
cast_list std (PrimitiveValueList.u32 c) PrimitiveDataType.i64 size = ints_to_i64 c size
cast_list std (PrimitiveValueList.u64 c) PrimitiveDataType.i64 size = ints_to_i64 c size
cast_list std (PrimitiveValueList.i8 c) PrimitiveDataType.i64 size = ints_to_i64 c size
cast_list std (PrimitiveValueList.i16 c) PrimitiveDataType.i64 size = ints_to_i64 c size
cast_list std (PrimitiveValueList.f64 c) PrimitiveDataType.f32 size = sized size (length c) (
    PrimitiveValueList.f32 (map (std.float_as_float PrimitiveDataType.f64 PrimitiveDataType.f32) c))
cast_list std (PrimitiveValueList.i64 c) PrimitiveDataType.f32 size = ints_to_f32 std c size
cast_list std (PrimitiveValueList.i32 c) PrimitiveDataType.f32 size = ints_to_f32 std c size
cast_list std (PrimitiveValueList.f32 c) PrimitiveDataType.f64 size = sized size (length c) (
    PrimitiveValueList.f64 (map (std.float_as_float PrimitiveDataType.f32 PrimitiveDataType.f64) c))
cast_list std (PrimitiveValueList.i64 c) PrimitiveDataType.f64 size = ints_to_f64 std c size
cast_list std (PrimitiveValueList.i32 c) PrimitiveDataType.f64 size = ints_to_f64 std c size
cast_list std _ t size = err (cast (PyroType.primitive_list t))

-- `PrimitiveValueList::repair`: the identities come first, and do not look at the size.
unfoldable pub repair_list_of :
    Std → PrimitiveValueList → PrimitiveDataType → Option ℕ → RepairResult PrimitiveValueList
unfolding cast_list
repair_list_of std (PrimitiveValueList.i32 c) PrimitiveDataType.i32 size =
    ok (PrimitiveValueList.i32 c)
repair_list_of std (PrimitiveValueList.i64 c) PrimitiveDataType.i64 size =
    ok (PrimitiveValueList.i64 c)
repair_list_of std (PrimitiveValueList.f32 c) PrimitiveDataType.f32 size =
    ok (PrimitiveValueList.f32 c)
repair_list_of std (PrimitiveValueList.f64 c) PrimitiveDataType.f64 size =
    ok (PrimitiveValueList.f64 c)
repair_list_of std (PrimitiveValueList.u8 c) PrimitiveDataType.u8 size =
    ok (PrimitiveValueList.u8 c)
repair_list_of std (PrimitiveValueList.u16 c) PrimitiveDataType.u16 size =
    ok (PrimitiveValueList.u16 c)
repair_list_of std (PrimitiveValueList.u32 c) PrimitiveDataType.u32 size =
    ok (PrimitiveValueList.u32 c)
repair_list_of std (PrimitiveValueList.u64 c) PrimitiveDataType.u64 size =
    ok (PrimitiveValueList.u64 c)
repair_list_of std (PrimitiveValueList.i8 c) PrimitiveDataType.i8 size =
    ok (PrimitiveValueList.i8 c)
repair_list_of std (PrimitiveValueList.i16 c) PrimitiveDataType.i16 size =
    ok (PrimitiveValueList.i16 c)
repair_list_of std (PrimitiveValueList.bool c) PrimitiveDataType.bool size =
    ok (PrimitiveValueList.bool c)
repair_list_of std pl t size = cast_list std pl t size

unfoldable pub push_found : {A : Type 0} → Option A → List A → List A
push_found none xs = xs
push_found (some x) xs = x ∷ xs

-- The loops of `pack_primitive_list`: what a value is repaired to is pushed where `take` finds it.
unfoldable pub pack :
    {A : Type 0}
    → (PyroValue → Repaired)
    → (PyroValue → Option A)
    → PyroValues
    → RepairResult (List A)
unfolding push_found
pack f take nil = ok []
pack f take (cons v vs) = do w ← f v; rest ← pack f take vs; ok (push_found (take w) rest)

unfoldable pub as_i32 : PyroValue → Option ℤ
as_i32 (i32 v) = some v
as_i32 _ = none

unfoldable pub as_i64 : PyroValue → Option ℤ
as_i64 (i64 v) = some v
as_i64 _ = none

unfoldable pub as_u8 : PyroValue → Option ℤ
as_u8 (u8 v) = some v
as_u8 _ = none

unfoldable pub as_f32 : PyroValue → Option ℕ
as_f32 (f32 v) = some v
as_f32 _ = none

unfoldable pub as_f64 : PyroValue → Option ℕ
as_f64 (f64 v) = some v
as_f64 _ = none

unfoldable pub as_bool : PyroValue → Option Bool
as_bool (bool v) = some v
as_bool _ = none

-- `repair` of the items to a primitive type.
unfoldable pub repair_each : (PyroValue → Repaired) → PyroValues → RepairResult PyroValues
repair_each f nil = ok nil
repair_each f (cons v vs) = do w ← f v; ws ← repair_each f vs; ok (cons w ws)

unfoldable pub repair_item : Std → PrimitiveDataType → PyroValue → Repaired
unfolding repair_scalar
repair_item std t null = ok null
repair_item std t v = repair_scalar std t v

unfoldable pub pack_primitive_list : Std → PrimitiveDataType → PyroValues → Repaired
unfolding pack repair_each repair_item as_i32 as_i64 as_u8 as_f32 as_f64 as_bool
pack_primitive_list std PrimitiveDataType.i32 vs = do
  c ← pack (impl_int_repair std PrimitiveDataType.i32) as_i32 vs
  ok (primitive_list (PrimitiveValueList.i32 c))
pack_primitive_list std PrimitiveDataType.i64 vs = do
  c ← pack (impl_int_repair std PrimitiveDataType.i64) as_i64 vs
  ok (primitive_list (PrimitiveValueList.i64 c))
pack_primitive_list std PrimitiveDataType.f64 vs = do
  c ← pack (impl_float_repair std PrimitiveDataType.f64) as_f64 vs
  ok (primitive_list (PrimitiveValueList.f64 c))
pack_primitive_list std PrimitiveDataType.f32 vs = do
  c ← pack (impl_float_repair std PrimitiveDataType.f32) as_f32 vs
  ok (primitive_list (PrimitiveValueList.f32 c))
pack_primitive_list std PrimitiveDataType.bool vs = do
  c ← pack (repair_to_bool std) as_bool vs
  ok (primitive_list (PrimitiveValueList.bool c))
pack_primitive_list std PrimitiveDataType.u8 vs = do
  c ← pack (impl_int_repair std PrimitiveDataType.u8) as_u8 vs
  ok (primitive_list (PrimitiveValueList.u8 c))
pack_primitive_list std t vs = do ws ← repair_each (repair_item std t) vs; ok (list ws)

unfoldable pub count_values : PyroValues → ℕ
count_values nil = 0
count_values (cons v vs) = pyroduct.Base.suc (count_values vs)

-- A scalar in place of a list.
unfoldable pub broadcast : Std → PrimitiveDataType → PyroValue → Repaired
unfolding repair_item pack_primitive_list
broadcast std t v = do w ← repair_item std t v; pack_primitive_list std t (cons w nil)

unfoldable pub repair_primitive_list : Std → PrimitiveDataType → Option ℕ → PyroValue → Repaired
unfolding repair_list_of pack_primitive_list broadcast count_values
repair_primitive_list std t size (primitive_list pl) = do
  pl' ← repair_list_of std pl t size
  ok (primitive_list pl')
repair_primitive_list std t none (list vs) = pack_primitive_list std t vs
repair_primitive_list std t (some size) (list vs) =
    if count_values vs == size
    then pack_primitive_list std t vs
    else err (
        out_of_bounds
          (append_str "FixedSizeList len " (
            append_str (std.int_to_string (pos (count_values vs)))
              (append_str " != " (std.int_to_string (pos size)))))
          (primitive_fixed_list t size))
repair_primitive_list std t none v = broadcast std t v
repair_primitive_list std t (some n) v =
    if n == 1 then broadcast std t v else err (cast (PyroType.primitive_list t))
