-- ===== src/Value/Repair/Fitting.antt =====
-- `repair` of lib/pyroduct/src/format/value/repair.rs gives values of the type asked for.
use pyroduct.Base.{String, Option, none, some, Bool, true, false, ◌≡◌}
use pyroduct.Base.Outcome.{ok}
use pyroduct.Base.Texts.{str_discrete}
use pyroduct.Spec.Types.{PyroType, PyroField, field, PyroFields}
use pyroduct.Value.{PyroValue, group, PyroRow, empty, item}
use pyroduct.Value.Repair.{
  repair_group, last_item, all_but_last, fill_gap, behind, take_item, absent, repair_field, repair,
  project_repair, repair_at,
}
use pyroduct.Value.Repair.Scalars.{Std, RepairResult, Repaired}
use pyroduct.Value.Repair.Fits.{
  Fits, fits_null, fits_group, RowFits, row_nil, row_item, IsMachine, RowIsMachine, Packable,
  FieldsPackable, FieldPackable, Documented,
}
use pyroduct.Value.Repair.ScalarFits.{repair_scalar-Returns}
use pyroduct.Value.Repair.PackFits.{repair_primitive_list-Primitives}
use mathlib.Core.Logic.{ite}
use mathlib.Core.Path.{subst}
use pyroduct.Value.Repair.Parts.{
  Each, bind-Each, guarded, scalar-Fits, Primitives-Fits, fixed-Fits, utf8-Fits, timestamp-Fits, To,
  list-Fits, map-Fits,
}

-- What `take_item` takes, and the row it leaves.
abbrev Taken : Option (PyroValue × PyroRow) → Type 0
Taken none = Unit
Taken (some (w, row)) = IsMachine w × RowIsMachine row

last_item-IsMachine :
    (k : String) (v : PyroValue) (rest : PyroRow)
    → IsMachine v
    → RowIsMachine rest
    → IsMachine (last_item k v rest).1
unfolding last_item IsMachine
last_item-IsMachine k v empty m ms = m
last_item-IsMachine k v (item k' v' rest) m ms = last_item-IsMachine k' v' rest ms.0 ms.1

all_but_last-RowIsMachine :
    (k : String) (v : PyroValue) (rest : PyroRow)
    → IsMachine v
    → RowIsMachine rest
    → RowIsMachine (all_but_last k v rest)
unfolding all_but_last IsMachine
all_but_last-RowIsMachine k v empty m ms = tt
all_but_last-RowIsMachine k v (item k' v' rest) m ms =
    (m, all_but_last-RowIsMachine k' v' rest ms.0 ms.1)

fill_gap-RowIsMachine : (row : PyroRow) → RowIsMachine row → RowIsMachine (fill_gap row)
unfolding fill_gap IsMachine
fill_gap-RowIsMachine empty m = tt
fill_gap-RowIsMachine (item k v rest) m =
    (last_item-IsMachine k v rest m.0 m.1, all_but_last-RowIsMachine k v rest m.0 m.1)

behind-Taken :
    (k : String) (v : PyroValue) (o : Option (PyroValue × PyroRow))
    → IsMachine v
    → Taken o
    → Taken (behind k v o)
unfolding behind IsMachine
behind-Taken k v none m h = tt
behind-Taken k v (some (w, row)) m h = (h.0, (m, h.1))

take_item-Taken : (name : String) (row : PyroRow) → RowIsMachine row → Taken (take_item name row)
unfolding take_item IsMachine
take_item-Taken name empty m = tt
take_item-Taken name (item k v rest) m =
    elim (str_discrete k name)
      as (λ d. Taken (ite d (some (v, fill_gap rest)) (behind k v (take_item name rest)))) [
        | yes p ↦ (m.0, fill_gap-RowIsMachine rest m.1)
        | no ne ↦ behind-Taken k v (take_item name rest) m.0 (take_item-Taken name rest m.1)
      ]

-- The value of a field and the row that is left.
abbrev FieldDone : PyroType → PyroValue × PyroRow → Type 0
FieldDone t (w, row) = Fits t w × RowIsMachine row

field-Fits :
    (t : PyroType) (f : PyroValue → Repaired) (name : String) (nullable : Bool) (row : PyroRow)
    (o : Option (PyroValue × PyroRow))
    → To t f
    → RowIsMachine row
    → Taken o
    → Each (FieldDone t) (repair_field f name nullable row o)
unfolding repair_field absent
field-Fits t f name true row none to m h = (fits_null, m)
field-Fits t f name false row none to m h = tt
field-Fits t f name nullable row (some (v, row')) to m h =
    bind-Each (Fits t) (FieldDone t) (f v) _ (to v h.0) (λ w hw. (hw, h.1))

group-Fits :
    (fs : PyroFields) (project : PyroRow → RepairResult PyroRow)
    → ((row : PyroRow) → RowIsMachine row → Each (RowFits fs) (project row))
    → (v : PyroValue) → IsMachine v
    → Each (Fits (PyroType.group fs)) (repair_group fs project v)
unfolding repair_group IsMachine
group-Fits fs project h (group row) m =
    bind-Each (RowFits fs) _ (project row) _ (h row m) (λ row' hr. fits_group hr)
group-Fits fs project h _ m = tt

module _ (std : Std) (doc : Documented std) where
  mutual
    unfolding repair Packable

    repaired : (t : PyroType) → Packable t → To t (repair std t)
    repaired PyroType.null pk v m = fits_null
    repaired (PyroType.primitive_scalar p) pk v m =
        guarded _ v _ (scalar-Fits p _ (repair_scalar-Returns std doc p v m))
    repaired PyroType.str pk v m = guarded _ v _ (utf8-Fits std v)
    repaired PyroType.timestamp pk v m = guarded _ v _ (timestamp-Fits v)
    repaired (PyroType.primitive_list p) pk v m =
        guarded _ v _ (Primitives-Fits p _ (repair_primitive_list-Primitives std doc p none v pk m))
    repaired (PyroType.primitive_fixed_list p n) pk v m =
        guarded _ v _
          (fixed-Fits p n _ (repair_primitive_list-Primitives std doc p (some n) v pk m))
    repaired (PyroType.list t n) pk v m =
        guarded _ v _ (list-Fits t n (repair std t) (repaired t pk) v m)
    repaired (PyroType.group fs) pk v m =
        guarded _ v _ (group-Fits fs (project_repair std fs) (projected fs pk) v m)
    repaired (PyroType.map k t) pk v m =
        guarded _ v _
          (map-Fits k t (repair std k) (repair std t) (repaired k pk.0) (repaired t pk.1) v m)

    projected :
        (fs : PyroFields)
        → FieldsPackable fs
        → (row : PyroRow) → RowIsMachine row
        → Each (RowFits fs) (project_repair std fs row)
    projected PyroFields.nil pk row m = row_nil
    projected (PyroFields.cons f fs) pk row m = projected_field f fs pk.0 (projected fs pk.1) row m

    projected_field :
        (f : PyroField) (fs : PyroFields)
        → FieldPackable f
        → ((row : PyroRow) → RowIsMachine row → Each (RowFits fs) (project_repair std fs row))
        → (row : PyroRow) → RowIsMachine row
        → Each (RowFits (PyroFields.cons f fs)) (project_repair std (PyroFields.cons f fs) row)
    projected_field (field k d t n) fs pk rest row m =
        bind-Each (FieldDone t) _ (repair_at std (field k d t n) row) _
          (field-Fits t (repair std t) k n row (take_item k row) (repaired t pk) m
            (take_item-Taken k row m))
          (λ x h.
            bind-Each (RowFits fs) _ (project_repair std fs x.1) _ (rest x.1 h.1)
              (λ row' hr. row_item h.0 hr))

  -- Where `repair` returns a value for a type, the value is null or has the form that the type asks for:
  -- numbers are in the range of their type, lists and maps hold parts that are null or of their types' form,
  -- and a group has the schema's fields in their order. Null passes for every type, also for a field that is
  -- not nullable, and the length of a list of fixed size is not looked at: the list may be shorter or longer.
  -- This supposes that the integers of the value are machine integers, that the standard library parses and
  -- casts to such, and that the primitive lists of the type are of element types that are packed.
  pub repair-Fits :
      (t : PyroType) (v w : PyroValue) → Packable t → IsMachine v → repair std t v ≡ ok w → Fits t w
  repair-Fits t v w pk m e = subst (Each (Fits t)) e (repaired t pk v m)
