-- ===== src/Spec/Types/Merged.antt =====
-- What `coerce_pyro_types` of lib/pyro-spec/src/lib.rs gives against the order of the types.
use Prim.Native.Nat.{max}
use pyroduct.Base.{
  ℕ, zero, suc, some, Bool, true, false, ◌==◌, ==_iff, if◌then◌else◌, Bool-cases, ◌||◌, ◌≡◌, refl,
  sym, ◌∙◌, arith, ◌⊎◌, inl, inr,
}
use pyroduct.Base.Options.{◌>>=◌, >>=-eq-some}
use pyroduct.Spec.{PrimitiveDataType, coerce_primitive_types}
use pyroduct.Spec.Coercion.{widens, coerce_primitive_types_least}
use pyroduct.Spec.Types.{
  PyroType, null, primitive_scalar, primitive_list, primitive_fixed_list, list, group, map,
  PyroField, field, PyroFields, nil, cons, Coercion, merge_field, merge_fields, coerce_type_arms,
  coerce_step, coerce_at, coerce_pyro_types, depth,
}
use pyroduct.Spec.Types.Order.{
  ◌⊑◌, same, of_null, of_scalar, of_primitives, of_fixed, of_fixed_list, of_list, of_map, of_group,
  Each, none_left, next, Has, here, there, Keeps, Each_trans, Has-Each,
}
use pyroduct.Spec.Types.Entered.{
  some_inj, Entered, at_end, before, found, after, merge_field-Entered,
}
use mathlib.Core.Path.{subst}

abbrev Sound : Coercion → Type 0
Sound f = (a b c : PyroType) → f a b ≡ some c → (a ⊑ c) × (b ⊑ c)

Each_there : (g : PyroField) (fs gs : PyroFields) → Each fs gs → Each fs (cons g gs)
Each_there g nil gs none_left = none_left
Each_there g (cons f fs) gs (next h hs) = next (there h) (Each_there g fs gs hs)

Has-self : (f : PyroField) (gs : PyroFields) → Has f (cons f gs)
Has-self (field k d t n) gs = here same (λ e. e)

Each_refl : (fs : PyroFields) → Each fs fs
Each_refl nil = none_left
Each_refl (cons f fs) = next (Has-self f fs) (Each_there f fs fs (Each_refl fs))

or_left : (n m : Bool) → Keeps n (n || m)
or_left n m e = ground (arith, e)

or_right : (n m : Bool) → Keeps m (n || m)
or_right n m e = ground (arith, e)

-- Two types of primitives, where what is made of their common type lies above both.
widened :
    (a b : PyroType) (p q : PrimitiveDataType) (make : PrimitiveDataType → PyroType) (c : PyroType)
    → ((t : PrimitiveDataType) → widens p t ≡ true → a ⊑ make t)
    → ((t : PrimitiveDataType) → widens q t ≡ true → b ⊑ make t)
    → (coerce_primitive_types p q >>= (λ t. some (make t))) ≡ some c
    → (a ⊑ c) × (b ⊑ c)
widened a b p q make c up up' e =
    let (t, at, out) = >>=-eq-some (coerce_primitive_types p q) _ c e in
    let h = coerce_primitive_types_least p q t at in
    subst (λ z. (a ⊑ z) × (b ⊑ z)) (some_inj _ _ out) (up t h.0, up' t h.1)

fixed_below :
    (p t : PrimitiveDataType) (s : ℕ) (same_size : Bool)
    → widens p t ≡ true
    → primitive_fixed_list p s ⊑ (if same_size then primitive_fixed_list t s else primitive_list t)
fixed_below p t s true h = of_fixed h
fixed_below p t s false h = of_fixed_list h

fixed_below_other :
    (q t : PrimitiveDataType) (s r : ℕ)
    → widens q t ≡ true
    → primitive_fixed_list q r ⊑ (if s == r then primitive_fixed_list t s else primitive_list t)
fixed_below_other q t s r h = elim (Bool-cases (s == r)) [
  | inl e ↦ rw e (rw ((==_iff s r).0 e) (of_fixed h))
  | inr e ↦ rw e (of_fixed_list h)
]

module _ (f : Coercion) (sound : Sound f) where
  -- A merged field is in the map, and what was in the map stays in it.
  Entered-Has : (x : PyroField) (fs gs : PyroFields) → Entered f x fs gs → Has x gs × Each fs gs
  Entered-Has x fs gs at_end = (here same (λ _. refl), none_left)
  Entered-Has x fs gs (before lt) = (here same (λ _. refl), Each_there _ _ _ (Each_refl fs))
  Entered-Has x fs gs (found {t = t} {u = u} {c = c} {n = n} {m = m} at) =
      let (up, up') = sound u t c at in
      (here up' (or_right m n), next (here up (or_left m n)) (Each_there _ _ _ (Each_refl _)))
  Entered-Has x fs gs (after {f = g} {fs = fs'} {gs = gs'} gt h) =
      let (has, each) = Entered-Has x fs' gs' h in
      (there has, next (Has-self g gs') (Each_there _ _ _ each))

  merge_fields-Each :
      (xs fs gs : PyroFields) → merge_fields f xs fs ≡ some gs → Each xs gs × Each fs gs
  unfolding merge_fields
  merge_fields-Each nil fs gs e = (none_left, subst (Each fs) (some_inj _ _ e) (Each_refl fs))
  merge_fields-Each (cons x xs) fs gs e =
      let (fs', at, out) = >>=-eq-some (merge_field f x fs) _ gs e in
      let (has, each) = Entered-Has x fs fs' (merge_field-Entered f x fs fs' at) in
      let (here_xs, here_fs') = merge_fields-Each xs fs' gs out in
      (next (Has-Each has here_fs') here_xs, Each_trans each here_fs')

  arms-Sound : Sound (coerce_type_arms f)
  unfolding coerce_type_arms
  arms-Sound null b c e = (of_null, subst (λ z. b ⊑ z) (some_inj _ _ e) same)
  arms-Sound (primitive_scalar p) (primitive_scalar q) c e =
      widened (primitive_scalar p) (primitive_scalar q) p q primitive_scalar c (λ t h. of_scalar h)
        (λ t h. of_scalar h) e
  arms-Sound (list a n) (list b m) c e =
      let (r, at, out) = >>=-eq-some (f a b) _ c e in
      let (up, up') = sound a b r at in
      subst (λ z. (list a n ⊑ z) × (list b m ⊑ z)) (some_inj _ _ out)
        (of_list up (or_left n m), of_list up' (or_right n m))
  arms-Sound (map k v) (map k' v') c e =
      let (r, at, e') = >>=-eq-some (f k k') _ c e in
      let (w, at', out) = >>=-eq-some (f v v') _ c e' in
      let (key, key') = sound k k' r at in
      let (val, val') = sound v v' w at' in
      subst (λ z. (map k v ⊑ z) × (map k' v' ⊑ z)) (some_inj _ _ out)
        (of_map key val, of_map key' val')
  arms-Sound (group fs) (group gs) c e =
      let (hs, at, e') = >>=-eq-some (merge_fields f fs nil) _ c e in
      let (hs', at', out) = >>=-eq-some (merge_fields f gs hs) _ c e' in
      let (each, _) = merge_fields-Each fs nil hs at in
      let (each', kept) = merge_fields-Each gs hs hs' at' in
      subst (λ z. (group fs ⊑ z) × (group gs ⊑ z)) (some_inj _ _ out)
        (of_group (Each_trans each kept), of_group each')
  arms-Sound (primitive_list p) (primitive_list q) c e =
      widened (primitive_list p) (primitive_list q) p q primitive_list c (λ t h. of_primitives h)
        (λ t h. of_primitives h) e
  arms-Sound (primitive_fixed_list p s) (primitive_list q) c e =
      widened (primitive_fixed_list p s) (primitive_list q) p q primitive_list c
        (λ t h. of_fixed_list h) (λ t h. of_primitives h) e
  arms-Sound (primitive_list p) (primitive_fixed_list q s) c e =
      widened (primitive_list p) (primitive_fixed_list q s) p q primitive_list c
        (λ t h. of_primitives h) (λ t h. of_fixed_list h) e
  arms-Sound (primitive_fixed_list p s) (primitive_fixed_list q r) c e =
      widened (primitive_fixed_list p s) (primitive_fixed_list q r) p q
        (λ t. if s == r then primitive_fixed_list t s else primitive_list t) c
        (λ t h. fixed_below p t s (s == r) h) (λ t h. fixed_below_other q t s r h) e
  arms-Sound a null c e = subst (λ z. (a ⊑ z) × (null ⊑ z)) (some_inj a c e) (same, of_null)
  arms-Sound a b c e = absurd (cc e)

step_cases :
    (f : Coercion) (a b c : PyroType)
    → coerce_step f a b ≡ some c
    → ((a ≡ b) × (a ≡ c)) ⊎ (coerce_type_arms f a b ≡ some c)
unfolding coerce_step
step_cases f a b c e = ground (arith, e)

coerce_step-Sound : (f : Coercion) → Sound f → Sound (coerce_step f)
coerce_step-Sound f sound a b c e = elim (step_cases f a b c e) [
  | inl (p, q) ↦ (subst (λ z. a ⊑ z) q same, subst (λ z. b ⊑ z) (sym p ∙ q) same)
  | inr h ↦ arms-Sound f sound a b c h
]

coerce_at-Sound : (n : ℕ) → Sound (coerce_at n)
unfolding coerce_at
coerce_at-Sound zero a b c e = absurd (cc e)
coerce_at-Sound (suc n) a b c e = coerce_step-Sound (coerce_at n) (coerce_at-Sound n) a b c e

-- Where two types are coerced to a third, it is an upper bound of both in the order of types in which null
-- lies below every type, a primitive type below those that its coercion with them gives, 64-bit integers
-- below f64 among them, lists and maps follow their parts, a list of fixed size lies below the list without
-- one, and each field of a group has in a group above it a field of the same name, whose type lies above
-- and which is nullable where it is. It is an order of types: a number can lose digits on the way up.
pub coerce_pyro_types_upper :
    (a b c : PyroType) → coerce_pyro_types a b ≡ some c → (a ⊑ c) × (b ⊑ c)
unfolding coerce_pyro_types
coerce_pyro_types_upper a b c e = coerce_at-Sound (suc (max (depth a) (depth b))) a b c e
