-- ===== src/Spec/Types/Sorted.antt =====
-- The groups that `coerce_pyro_types` of lib/pyro-spec/src/lib.rs merges: their order and their marks.
use Prim.Native.Nat.{max}
use pyroduct.Base.{String, none, some, ◌||◌, true, ◌≡◌, ◌≢◌, refl, sym, arith}
use pyroduct.Base.Options.{◌>>=◌, >>=-eq-some}
use pyroduct.Base.Texts.{Ordering, compare_str, compare_str-flip}
use pyroduct.Spec.Types.{
  PyroType, group, PyroField, field, PyroFields, nil, cons, Coercion, merge_field, merge_fields,
  coerce_type_arms, coerce_step, coerce_at, coerce_pyro_types, depth,
}
use pyroduct.Spec.Types.Entered.{
  name_of, some_inj, Entered, at_end, before, found, after, merge_field-Entered,
}

abbrev pub Above : String → PyroFields → Type 0
Above k nil = Unit
Above k (cons f fs) = compare_str k (name_of f) ≡ Ordering.lt

abbrev IsMerged : PyroField → Type 0
IsMerged (field k d t n) = (d ≡ none) × (n ≡ true)

-- The fields stand in the strict order of their names, each without documentation and nullable.
abbrev pub IsMap : PyroFields → Type 0
IsMap nil = Unit
IsMap (cons f fs) = IsMerged f × Above (name_of f) fs × IsMap fs

above_after : (s t : String) → compare_str s t ≡ Ordering.gt → compare_str t s ≡ Ordering.lt
above_after s t h = ground (arith, compare_str-flip s t, h)

or_true : (m n : mathlib.Core.Bool.Bool) → m ≡ true → (m || n) ≡ true
or_true m n h = ground (arith, h)

module _ (f : Coercion) where
  Entered-Above :
      (k : String) (x : PyroField) (fs gs : PyroFields)
      → Entered f x fs gs
      → compare_str k (name_of x) ≡ Ordering.lt
      → Above k fs
      → Above k gs
  Entered-Above k x fs gs at_end h above = h
  Entered-Above k x fs gs (before lt) h above = h
  Entered-Above k x fs gs (found at) h above = h
  Entered-Above k x fs gs (after gt e) h above = above

  Entered-IsMap : (x : PyroField) (fs gs : PyroFields) → Entered f x fs gs → IsMap fs → IsMap gs
  Entered-IsMap x fs gs at_end inv = ((refl, refl), tt, tt)
  Entered-IsMap x fs gs (before lt) inv = ((refl, refl), lt, inv)
  Entered-IsMap x fs gs (found {n = n} {m = m} at) inv = ((refl, or_true m n inv.0.1), inv.1, inv.2)
  Entered-IsMap x fs gs (after {f = g} {fs = fs'} {gs = gs'} gt e) inv = (
    inv.0,
    Entered-Above (name_of g) x fs' gs' e (above_after (name_of x) (name_of g) gt) inv.1,
    Entered-IsMap x fs' gs' e inv.2,
  )

  merge_fields-IsMap :
      (xs fs gs : PyroFields) → merge_fields f xs fs ≡ some gs → IsMap fs → IsMap gs
  unfolding merge_fields
  merge_fields-IsMap nil fs gs e inv = mathlib.Core.Path.subst IsMap (some_inj _ _ e) inv
  merge_fields-IsMap (cons x xs) fs gs e inv =
      let (fs', at, out) = >>=-eq-some (merge_field f x fs) _ gs e in
      merge_fields-IsMap xs fs' gs out
        (Entered-IsMap x fs fs' (merge_field-Entered f x fs fs' at) inv)

  group_step :
      (fs gs : PyroFields) (c : PyroType)
      → group fs ≢ group gs
      → coerce_step f (group fs) (group gs) ≡ some c
      → (hs : PyroFields) × (c ≡ group hs) × IsMap hs
  unfolding coerce_step coerce_type_arms
  group_step fs gs c ne e =
      let e' : (merge_fields f fs nil >>= (λ m. merge_fields f gs m >>= (λ m'. some (group m'))))
          ≡ some c =
        ground (arith, e, ne) in
      let (hs, at, r) = >>=-eq-some (merge_fields f fs nil) _ c e' in
      let (hs', at', out) = >>=-eq-some (merge_fields f gs hs) _ c r in
      (
        hs',
        sym (some_inj _ _ out),
        merge_fields-IsMap gs hs hs' at' (merge_fields-IsMap fs nil hs at tt),
      )

-- Two different groups are merged into one whose fields stand in the strict order of their names,
-- all without documentation and all nullable, those too that neither group lets be null.
pub coerce_pyro_types_merges :
    (fs gs : PyroFields) (c : PyroType)
    → group fs ≢ group gs
    → coerce_pyro_types (group fs) (group gs) ≡ some c
    → (hs : PyroFields) × (c ≡ group hs) × IsMap hs
unfolding coerce_pyro_types coerce_at
coerce_pyro_types_merges fs gs c ne e =
    group_step (coerce_at (max (depth (group fs)) (depth (group gs)))) fs gs c ne e
