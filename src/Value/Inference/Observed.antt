-- ===== src/Value/Inference/Observed.antt =====
-- The accumulator of lib/pyroduct/src/format/value/schema.rs, over all values of a column.
use pyroduct.Base.{
  String, Option, none, some, Bool, true, false, List, [], ◌∷◌, ◌++◌, ◌≡◌, refl, sym, ap, ◌∙◌,
  arith, ◌⊎◌, inl, inr, if◌then◌else◌,
}
use pyroduct.Base.Outcome.{Result, ok, err, ◌>>=◌}
use pyroduct.Spec.Types.{PyroType, PyroField, field, coerce_pyro_types}
use pyroduct.Spec.Types.Order.{◌⊑◌, same, of_null, ⊑_trans, Keeps}
use pyroduct.Spec.Types.Merged.{coerce_pyro_types_upper}
use pyroduct.Value.{PyroValue, is_null}
use pyroduct.Value.Inference.{
  value_data_type, ValueSchemaInferenceError, PyroFieldAccumulator, coerced_to, observed_type,
  observe, type_or_null, build,
}
use mathlib.Core.Path.{subst}

-- The calls of `observe` that a column makes, the first error ending them.
unfoldable pub observe_all :
    String
    → List PyroValue
    → PyroFieldAccumulator
    → Result PyroFieldAccumulator ValueSchemaInferenceError
unfolding observe
observe_all name [] accum = ok accum
observe_all name (v ∷ vs) accum = do accum' ← observe name v accum; observe_all name vs accum'

-- A null needs a nullable field, another value a field of a type as wide as its own.
abbrev pub Takes : Bool → Bool → PyroType → PyroType → Type 0
Takes true nullable t u = nullable ≡ true
Takes false nullable t u = u ⊑ t

abbrev pub Covers : PyroField → PyroValue → Type 0
Covers (field k d t n) v = Takes (is_null v) n t (value_data_type v)

-- The accumulator has come to hold at least as much.
Grows : PyroFieldAccumulator → PyroFieldAccumulator → Type 0
Grows a b = Keeps a.nullable b.nullable × (type_or_null a.data_type ⊑ type_or_null b.data_type)

ok_inj : {A E : Type 0} (a b : A) → Path (Result A E) (ok a) (ok b) → a ≡ b
ok_inj a b e = cc e

bind_ok :
    {A B E : Type 0} (r : Result A E) (f : A → Result B E) (b : B)
    → (r >>= f) ≡ ok b
    → (a : A) × (r ≡ ok a) × (f a ≡ ok b)
bind_ok (ok a) f b e = (a, refl, e)
bind_ok (err x) f b e = absurd (cc e)

coerced_to-ok :
    (name : String) (s u t : PyroType) (r : Option PyroType)
    → coerced_to name s u r ≡ ok t
    → r ≡ some t
unfolding coerced_to
coerced_to-ok name s u t none e = absurd (cc e)
coerced_to-ok name s u t (some c) e = ap some (ok_inj c t e)

observed_cases :
    (name : String) (s u t : PyroType)
    → observed_type name (some s) u ≡ ok t
    → ((s ≡ u) × (s ≡ t)) ⊎ (coerced_to name s u (coerce_pyro_types s u) ≡ ok t)
unfolding observed_type
observed_cases name s u t e = ground (arith, e)

observed_type_upper :
    (name : String) (o : Option PyroType) (u t : PyroType)
    → observed_type name o u ≡ ok t
    → (type_or_null o ⊑ t) × (u ⊑ t)
unfolding observed_type type_or_null
observed_type_upper name none u t e = (of_null, subst (λ z. u ⊑ z) (ok_inj u t e) same)
observed_type_upper name (some s) u t e = elim (observed_cases name s u t e) [
  | inl (p, q) ↦ (subst (λ z. s ⊑ z) q same, subst (λ z. u ⊑ z) (sym p ∙ q) same)
  | inr h ↦ coerce_pyro_types_upper s u t (coerced_to-ok name s u t _ h)
]

chosen :
    {A : Type 0} (b : Bool) (x y z : A)
    → (if b then x else y) ≡ z
    → ((b ≡ true) × (x ≡ z)) ⊎ ((b ≡ false) × (y ≡ z))
chosen true x y z e = inl (refl, e)
chosen false x y z e = inr (refl, e)

Covered : PyroFieldAccumulator → PyroValue → Type 0
Covered a v = Takes (is_null v) a.nullable (type_or_null a.data_type) (value_data_type v)

observe-Covered :
    (name : String) (v : PyroValue) (a b : PyroFieldAccumulator)
    → observe name v a ≡ ok b
    → Grows a b × Covered b v
unfolding observe Grows Covered type_or_null
observe-Covered name v a b e = elim (chosen (is_null v) _ _ (ok b) e) [
  | inl (n, h) ↦
      subst (λ z. Grows a z × Covered z v) (ok_inj (record a { nullable = true }) b h)
        ((λ k. refl, same), rw n refl)
  | inr (n, h) ↦
      let (t, at, out) = bind_ok (observed_type name a.data_type (value_data_type v)) _ b h in
      let (low, up) = observed_type_upper name a.data_type (value_data_type v) t at in
      subst (λ z. Grows a z × Covered z v) (ok_inj (record a { data_type = some t }) b out)
        ((λ k. k, low), rw n up)
]

Takes-wider :
    (z n m : Bool) (t t' u : PyroType) → Takes z n t u → Keeps n m → t ⊑ t' → Takes z m t' u
Takes-wider true n m t t' u h keeps up = keeps h
Takes-wider false n m t t' u h keeps up = ⊑_trans h up

observe_all-Grows :
    (name : String) (vs : List PyroValue) (a b : PyroFieldAccumulator)
    → observe_all name vs a ≡ ok b
    → Grows a b
unfolding observe_all Grows
observe_all-Grows name [] a b e = subst (λ z. Grows a z) (ok_inj a b e) (λ k. k, same)
observe_all-Grows name (v ∷ vs) a b e =
    let (c, at, rest) = bind_ok (observe name v a) _ b e in
    let (first, up) = (observe-Covered name v a c at).0 in
    let (later, up') = observe_all-Grows name vs c b rest in (λ k. later (first k), ⊑_trans up up')

-- Where a column's values are all observed without an error, from any accumulator on, the field that
-- is built of it covers each of them: it is nullable where one is null, and its type lies above
-- the type of each that is not null.
pub observe_all-Covers :
    (name : String) (us : List PyroValue) (v : PyroValue) (ws : List PyroValue)
    (a b : PyroFieldAccumulator)
    → observe_all name (us ++ v ∷ ws) a ≡ ok b
    → Covers (build name b) v
unfolding observe_all build Covered Grows
observe_all-Covers name [] v ws a b e =
    let (c, at, rest) = bind_ok (observe name v a) _ b e in
    let (keeps, up) = observe_all-Grows name ws c b rest in
    Takes-wider (is_null v) c.nullable b.nullable _ _ (value_data_type v)
      ((observe-Covered name v a c at).1) keeps up
observe_all-Covers name (u ∷ us) v ws a b e =
    let (c, at, rest) = bind_ok (observe name u a) _ b e in observe_all-Covers name us v ws c b rest
