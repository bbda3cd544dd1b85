-- ===== src/Value/Repair/Parts.antt =====
-- The arms of `repair` of lib/pyroduct/src/format/value/repair.rs give values of the type asked for,
-- if the repairs that they call do.
use pyroduct.Base.{ℕ, Bool, inl, inr}
use pyroduct.Base.Outcome.{ok, err, ◌>>=◌}
use pyroduct.Spec.{PrimitiveDataType}
use pyroduct.Spec.Types.{PyroType}
use pyroduct.Value.{
  PyroValue, null, f16, timestamp, primitive_list, group, list, map_internal, PyroValues, nil, cons,
  PyroPairs, no_pairs, pair,
}
use pyroduct.Value.Repair.{unless_null, repair_timestamp, repair_pairs, repair_list, repair_map}
use pyroduct.Value.Repair.Scalars.{Std, RepairResult, Repaired, repair_to_utf8}
use pyroduct.Value.Repair.Lists.{repair_each}
use pyroduct.Value.Repair.Fits.{
  Fits, fits_null, fits_scalar, fits_str, fits_timestamp, fits_primitives, fits_fixed, fits_list,
  fits_map, EachFits, each_nil, each_cons, PairsFit, pairs_nil, pairs_cons, IsMachine, AllMachine,
  PairsMachine,
}
use pyroduct.Value.Repair.ScalarFits.{Returns}
use pyroduct.Value.Repair.PackFits.{Primitives}
use mathlib.Core.Path.{subst⁻¹}

-- What is returned, if anything is.
abbrev pub Each : {A : Type 0} → (A → Type 0) → RepairResult A → Type 0
Each P (ok a) = P a
Each P (err x) = Unit

pub bind-Each :
    {A B : Type 0} (P : A → Type 0) (Q : B → Type 0) (r : RepairResult A) (f : A → RepairResult B)
    → Each P r
    → ((a : A) → P a → Each Q (f a))
    → Each Q (r >>= f)
bind-Each P Q (ok a) f h k = k a h
bind-Each P Q (err x) f h k = tt

pub guarded :
    (t : PyroType) (v : PyroValue) (r : Repaired)
    → Each (Fits t) r
    → Each (Fits t) (unless_null v r)
guarded t null r h = fits_null
guarded t _ r h = h

pub scalar-Fits :
    (p : PrimitiveDataType) (r : Repaired)
    → Returns p r
    → Each (Fits (PyroType.primitive_scalar p)) r
scalar-Fits p (err x) h = tt
scalar-Fits p (ok w) (inl e) = subst⁻¹ (Fits (PyroType.primitive_scalar p)) e fits_null
scalar-Fits p (ok w) (inr h) = fits_scalar h

pub Primitives-Fits :
    (p : PrimitiveDataType) (r : Repaired)
    → Primitives p r
    → Each (Fits (PyroType.primitive_list p)) r
Primitives-Fits p (err x) h = tt
Primitives-Fits p (ok (primitive_list c)) h = fits_primitives h
Primitives-Fits p (ok _) h = absurd h

pub fixed-Fits :
    (p : PrimitiveDataType) (n : ℕ) (r : Repaired)
    → Primitives p r
    → Each (Fits (PyroType.primitive_fixed_list p n)) r
fixed-Fits p n (err x) h = tt
fixed-Fits p n (ok (primitive_list c)) h = fits_fixed h
fixed-Fits p n (ok _) h = absurd h

pub utf8-Fits : (std : Std) (v : PyroValue) → Each (Fits PyroType.str) (repair_to_utf8 std v)
unfolding repair_to_utf8
utf8-Fits std null = fits_null
utf8-Fits std (f16 v) = tt
utf8-Fits std (timestamp t) = tt
utf8-Fits std (primitive_list c) = tt
utf8-Fits std (group row) = tt
utf8-Fits std (list vs) = tt
utf8-Fits std (map_internal ps) = tt
utf8-Fits std _ = fits_str

pub timestamp-Fits : (v : PyroValue) → Each (Fits PyroType.timestamp) (repair_timestamp v)
unfolding repair_timestamp
timestamp-Fits (timestamp t) = fits_timestamp
timestamp-Fits _ = tt

-- A way of repairing to one type.
abbrev pub To : PyroType → (PyroValue → Repaired) → Type 0
To t f = (v : PyroValue) → IsMachine v → Each (Fits t) (f v)

each-Fits :
    (t : PyroType) (f : PyroValue → Repaired)
    → To t f
    → (vs : PyroValues) → AllMachine vs
    → Each (EachFits t) (repair_each f vs)
unfolding repair_each IsMachine
each-Fits t f to nil m = each_nil
each-Fits t f to (cons v vs) m = bind-Each (Fits t) (EachFits t) (f v) _ (to v m.0) (λ w h.
    bind-Each (EachFits t) (EachFits t) (repair_each f vs) _ (each-Fits t f to vs m.1)
      (λ ws hs. each_cons h hs))

pub list-Fits :
    (t : PyroType) (n : Bool) (f : PyroValue → Repaired)
    → To t f
    → (v : PyroValue) → IsMachine v
    → Each (Fits (PyroType.list t n)) (repair_list f v)
unfolding repair_list IsMachine
list-Fits t n f to (list vs) m =
    bind-Each (EachFits t) _ (repair_each f vs) _ (each-Fits t f to vs m) (λ ws h. fits_list h)
list-Fits t n f to v m =
    bind-Each (Fits t) _ (f v) _ (to v m) (λ w h. fits_list (each_cons h each_nil))

pairs-Fit :
    (k t : PyroType) (f g : PyroValue → Repaired)
    → To k f
    → To t g
    → (ps : PyroPairs) → PairsMachine ps
    → Each (PairsFit k t) (repair_pairs f g ps)
unfolding repair_pairs IsMachine
pairs-Fit k t f g to to' no_pairs m = pairs_nil
pairs-Fit k t f g to to' (pair a b ps) m =
    bind-Each (Fits k) (PairsFit k t) (f a) _ (to a m.0) (λ a' ha.
      bind-Each (Fits t) (PairsFit k t) (g b) _ (to' b m.1) (λ b' hb.
        bind-Each (PairsFit k t) (PairsFit k t) (repair_pairs f g ps) _
          (pairs-Fit k t f g to to' ps m.2) (λ ps' hps. pairs_cons ha hb hps)))

pub map-Fits :
    (k t : PyroType) (f g : PyroValue → Repaired)
    → To k f
    → To t g
    → (v : PyroValue) → IsMachine v
    → Each (Fits (PyroType.map k t)) (repair_map k t f g v)
unfolding repair_map IsMachine
map-Fits k t f g to to' (map_internal ps) m =
    bind-Each (PairsFit k t) _ (repair_pairs f g ps) _ (pairs-Fit k t f g to to' ps m)
      (λ ps' h. fits_map h)
map-Fits k t f g to to' _ m = tt
