-- ===== src/Value.antt =====
-- lib/pyroduct/src/format/value/value.rs: the values, rows and primitive lists. Borrowed and owned
-- data are one; an integer is its number, whatever its width, and a float its bits; `Vec`s of values,
-- of row items and of pairs are data types of their own.
pub mod Primitives
pub mod Repair
pub mod Inference
pub mod Coerce
use pyroduct.Base.{ℕ, String, Option, none, some, Bool, true, false}
use pyroduct.Base.Integers.{ℤ}
use pyroduct.Base.Texts.{str_discrete}
use mathlib.Core.Logic.{ite}
use pyroduct.Value.Primitives.{PrimitiveValueList}

pub record Time : Type 0 where
  pub nanos : ℤ

mutual
  pub data PyroValue : Type 0 where
    null : PyroValue
    bool : Bool → PyroValue
    i8 i16 i32 i64 u8 u16 u32 u64 : ℤ → PyroValue
    f16 f32 f64 : ℕ → PyroValue
    timestamp : Time → PyroValue
    primitive_list : PrimitiveValueList → PyroValue
    str : String → PyroValue
    group : PyroRow → PyroValue
    list : PyroValues → PyroValue
    map_internal : PyroPairs → PyroValue

  pub data PyroRow : Type 0 where
    empty : PyroRow
    item : String → PyroValue → PyroRow → PyroRow

  pub data PyroValues : Type 0 where
    nil : PyroValues
    cons : PyroValue → PyroValues → PyroValues

  pub data PyroPairs : Type 0 where
    no_pairs : PyroPairs
    pair : PyroValue → PyroValue → PyroPairs → PyroPairs

abbrev pub is_null : PyroValue → Bool
is_null null = true
is_null _ = false

unfoldable pub get : PyroRow → String → Option PyroValue
get empty key = none
get (item k v rest) key = ite (str_discrete k key) (some v) (get rest key)

-- The item of the key is written over where it stands, or a new one behind all.
unfoldable pub insert : PyroRow → String → PyroValue → PyroRow
insert empty key value = item key value empty
insert (item k v rest) key value =
    let rest' = insert rest key value in
    ite (str_discrete k key) (item key value rest) (item k v rest')

unfoldable pub append_row : PyroRow → PyroRow → PyroRow
append_row empty other = other
append_row (item k v rest) other = item k v (append_row rest other)

-- An item whose key is there already is a panic.
unfoldable pub extend : PyroRow → PyroRow → Option PyroRow
unfolding get append_row
extend row empty = some row
extend row (item k v rest) = extended (get row k) (extend (append_row row (item k v empty)) rest)
  where
    extended : Option PyroValue → Option PyroRow → Option PyroRow
    extended (some _) more = none
    extended none more = more
