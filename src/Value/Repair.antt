-- ===== src/Value/Repair.antt =====
-- lib/pyroduct/src/format/value/repair.rs: a value made to fit a type.
-- The parsing, printing and casting of Rust's standard library is a record, `Std`; Rust's `as` between
-- integers is `cast_int`. A macro is a function of the type that it is given.
pub mod Scalars
pub mod Lists
pub mod Sample
mod Tests
pub mod Again
pub mod Parts
pub mod Fitting
pub mod PackFits
pub mod ListFits
pub mod ScalarFits
pub mod Fits
pub mod Projected
pub mod Rows
pub mod Exact
use pyroduct.Base.{
  ℕ, String, Option, none, some, Bool, true, false, List, length, ◌==◌, if◌then◌else◌, not, ◌&&◌,
}
use pyroduct.Base.Outcome.{Result, ok, err, ◌>>=◌}
use pyroduct.Base.Integers.{pos}
use pyroduct.Base.Texts.{append_str, str_discrete}
use pyroduct.Spec.{PrimitiveDataType}
use pyroduct.Spec.Types.{
  PyroType, primitive_scalar, primitive_fixed_list, PyroField, field, PyroFields,
}
use pyroduct.Value.{
  PyroValue, null, timestamp, primitive_list, list, group, map_internal, PyroRow, empty, item,
  PyroValues, nil, cons, PyroPairs, no_pairs, pair, is_null,
}
use pyroduct.Value.Repair.Scalars.{
  Std, ScalarRepairError, cast, out_of_bounds, missing, RepairResult, Repaired, repair_scalar,
  repair_to_utf8,
}
use pyroduct.Value.Repair.Lists.{repair_each, repair_primitive_list}
use mathlib.Core.Logic.{ite}

-- The guard at the head of `repair`.
abbrev pub unless_null : PyroValue → Repaired → Repaired
unless_null null r = ok null
unless_null _ r = r

unfoldable pub repair_timestamp : PyroValue → Repaired
repair_timestamp (timestamp t) = ok (timestamp t)
repair_timestamp _ = err (cast PyroType.timestamp)

unfoldable pub repair_pairs :
    (PyroValue → Repaired) → (PyroValue → Repaired) → PyroPairs → RepairResult PyroPairs
repair_pairs f g no_pairs = ok no_pairs
repair_pairs f g (pair k v rest) = do
  rk ← f k
  rv ← g v
  rest' ← repair_pairs f g rest
  ok (pair rk rv rest')

-- A value that is no list is broadcast to a list of one.
unfoldable pub repair_list : (PyroValue → Repaired) → PyroValue → Repaired
unfolding repair_each
repair_list f (list vs) = do ws ← repair_each f vs; ok (list ws)
repair_list f v = do w ← f v; ok (list (cons w nil))

unfoldable pub repair_group : PyroFields → (PyroRow → RepairResult PyroRow) → PyroValue → Repaired
repair_group fields project (group row) = do row' ← project row; ok (group row')
repair_group fields project _ = err (cast (PyroType.group fields))

unfoldable pub repair_map :
    PyroType → PyroType → (PyroValue → Repaired) → (PyroValue → Repaired) → PyroValue → Repaired
unfolding repair_pairs
repair_map k w f g (map_internal pairs) = do
  pairs' ← repair_pairs f g pairs
  ok (map_internal pairs')
repair_map k w f g _ = err (cast (PyroType.map k w))

-- The last item, and the items before it.
last_item : String → PyroValue → PyroRow → String × PyroValue
last_item k v empty = (k, v)
last_item k v (item k' v' rest) = last_item k' v' rest

all_but_last : String → PyroValue → PyroRow → PyroRow
all_but_last k v empty = empty
all_but_last k v (item k' v' rest) = item k v (all_but_last k' v' rest)

-- What `swap_remove` leaves from the removed item on: the last item comes into its place.
fill_gap : PyroRow → PyroRow
unfolding last_item all_but_last
fill_gap empty = empty
fill_gap (item k v rest) =
    item (last_item k v rest).0 (last_item k v rest).1 (all_but_last k v rest)

-- An item that was passed over stays in front.
unfoldable pub behind :
    String → PyroValue → Option (PyroValue × PyroRow) → Option (PyroValue × PyroRow)
behind k v none = none
behind k v (some (w, rest')) = some (w, item k v rest')

-- `position` of the key and `swap_remove` there: the value, and the row without its item.
unfoldable pub take_item : String → PyroRow → Option (PyroValue × PyroRow)
unfolding fill_gap behind
take_item name empty = none
take_item name (item k v rest) =
    ite (str_discrete k name) (some (v, fill_gap rest)) (behind k v (take_item name rest))

-- A field that the row lacks is null, or an error.
unfoldable pub absent : String → Bool → Repaired
absent name true = ok null
absent name false = err (missing name)

-- The value of the field, repaired, and what is left of the row. The special case for a group in a
-- field of groups is what `repair` does of it.
unfoldable pub repair_field :
    (PyroValue → Repaired)
    → String
    → Bool
    → PyroRow
    → Option (PyroValue × PyroRow)
    → RepairResult (PyroValue × PyroRow)
unfolding absent
repair_field f name nullable row none = do w ← absent name nullable; ok (w, row)
repair_field f name nullable row (some (v, row')) = do w ← f v; ok (w, row')

abbrev pub name_of : PyroField → String
name_of (field name doc t nullable) = name

unfoldable mutual
  unfolding repair_timestamp repair_list repair_group repair_map take_item repair_field
      repair_scalar repair_to_utf8 repair_primitive_list

  pub repair : Std → PyroType → PyroValue → Repaired
  repair std PyroType.null v = ok null
  repair std (PyroType.primitive_scalar p) v = unless_null v (repair_scalar std p v)
  repair std PyroType.str v = unless_null v (repair_to_utf8 std v)
  repair std PyroType.timestamp v = unless_null v (repair_timestamp v)
  repair std (PyroType.primitive_list p) v = unless_null v (repair_primitive_list std p none v)
  repair std (PyroType.primitive_fixed_list p n) v =
      unless_null v (repair_primitive_list std p (some n) v)
  repair std (PyroType.list t n) v = unless_null v (repair_list (repair std t) v)
  repair std (PyroType.group fields) v =
      unless_null v (repair_group fields (project_repair std fields) v)
  repair std (PyroType.map k w) v = unless_null v (repair_map k w (repair std k) (repair std w) v)

  pub project_repair : Std → PyroFields → PyroRow → RepairResult PyroRow
  project_repair std PyroFields.nil row = ok empty
  project_repair std (PyroFields.cons f fs) row = do
    (w, row') ← repair_at std f row
    rest ← project_repair std fs row'
    ok (item (name_of f) w rest)

  pub repair_at : Std → PyroField → PyroRow → RepairResult (PyroValue × PyroRow)
  repair_at std (field name doc t nullable) row =
      repair_field (repair std t) name nullable row (take_item name row)
