-- ===== src/Spec/Types/Depth.antt =====
-- The recursion of `coerce_pyro_types` of lib/pyro-spec/src/lib.rs goes down the nesting of the types.
use Prim.Native.Nat.{max}
use pyroduct.Base.{ℕ, zero, suc, ◌≤◌, ◌<◌, some, ◌≡◌, refl, sym, ap, arith}
use pyroduct.Base.Options.{◌>>=◌, >>=-eq-some, >>=-agree}
use pyroduct.Spec.Types.{
  PyroType, list, group, map, PyroField, field, PyroFields, nil, cons, Coercion, merge_field,
  merge_fields, coerce_type_arms, coerce_step, coerce_at, depth, depth_fields, depth_field,
  coerce_pyro_types,
}

-- What is coerced is nested no deeper than what it comes from.
abbrev pub Bounded : Coercion → Type 0
Bounded f = (k : ℕ) (a b c : PyroType) → depth a < k → depth b < k → f a b ≡ some c → depth c < k

-- Two ways of coercing are one on types nested less than `k`.
abbrev pub Agree : ℕ → Coercion → Coercion → Type 0
Agree k f g = (a b : PyroType) → depth a < k → depth b < k → f a b ≡ g a b

module _ (f : Coercion) (bound : Bounded f) (k : ℕ) where
  merge_field-depth :
      (x : PyroField) (fs gs : PyroFields)
      → depth_field x < k
      → depth_fields fs < k
      → merge_field f x fs ≡ some gs
      → depth_fields gs < k
  unfolding merge_field depth
  merge_field-depth (field name doc t n) nil gs hx hf e = ground arith
  merge_field-depth (field name doc t n) (cons (field l d u m) fs) gs hx hf e =
      grind (arith, bound k u t, merge_field-depth (field name doc t n) fs)

  merge_fields-depth :
      (xs fs gs : PyroFields)
      → depth_fields xs < k
      → depth_fields fs < k
      → merge_fields f xs fs ≡ some gs
      → depth_fields gs < k
  unfolding merge_fields depth
  merge_fields-depth nil fs gs hx hf e = ground arith
  merge_fields-depth (cons x xs) fs gs hx hf e =
      let (fs', e', e'') = >>=-eq-some (merge_field f x fs) (merge_fields f xs) gs e in
      merge_fields-depth xs fs' gs (omega arith)
        (merge_field-depth x fs fs' (omega arith) (omega arith) e') e''

  arms-depth :
      (a b c : PyroType)
      → depth a < suc k
      → depth b < suc k
      → coerce_type_arms f a b ≡ some c
      → depth c < suc k
  unfolding coerce_type_arms depth
  arms-depth (list a n) (list b m) c ha hb e = grind (arith, bound k a b)
  arms-depth (map a a') (map b b') c ha hb e = grind (arith, bound k a b, bound k a' b')
  arms-depth (group fs) (group gs) c ha hb e =
      let (m, e', r) = >>=-eq-some (merge_fields f fs nil) _ c e in
      let (m', e'', q) = >>=-eq-some (merge_fields f gs m) _ c r in
      let h = merge_fields-depth fs nil m (omega arith) (omega arith) e' in
      let h' = merge_fields-depth gs m m' (omega arith) h e'' in ground (arith, q, h')
  arms-depth a b c ha hb e = ground arith

module _ (f g : Coercion) (bound : Bounded f) (k : ℕ) (agree : Agree k f g) where
  merge_field-agree :
      (x : PyroField) (fs : PyroFields)
      → depth_field x < k
      → depth_fields fs < k
      → merge_field f x fs ≡ merge_field g x fs
  unfolding merge_field depth
  merge_field-agree (field name doc t n) nil hx hf = refl
  merge_field-agree (field name doc t n) (cons (field l d u m) fs) hx hf =
      grind (arith, agree u t, merge_field-agree (field name doc t n) fs)

  merge_fields-agree :
      (xs fs : PyroFields)
      → depth_fields xs < k
      → depth_fields fs < k
      → merge_fields f xs fs ≡ merge_fields g xs fs
  unfolding merge_fields depth
  merge_fields-agree nil fs hx hf = refl
  merge_fields-agree (cons x xs) fs hx hf =
      rw (← merge_field-agree x fs (omega arith) (omega arith)) (
        >>=-agree (merge_field f x fs) _ _ (λ fs' e.
          merge_fields-agree xs fs' (omega arith)
            (merge_field-depth f bound k x fs fs' (omega arith) (omega arith) e)))

  arms-agree :
      (a b : PyroType)
      → depth a < suc k
      → depth b < suc k
      → coerce_type_arms f a b ≡ coerce_type_arms g a b
  unfolding coerce_type_arms depth
  arms-agree (list a n) (list b m) ha hb = grind (arith, agree a b)
  arms-agree (map a a') (map b b') ha hb = grind (arith, agree a b, agree a' b')
  arms-agree (group fs) (group gs) ha hb =
      rw (← merge_fields-agree fs nil (omega arith) (omega arith)) (
        >>=-agree (merge_fields f fs nil) _ _ (λ m e.
          ap (λ o. o >>= (λ m'. some (group m')))
            (merge_fields-agree gs m (omega arith)
              (merge_fields-depth f bound k fs nil m (omega arith) (omega arith) e))))
  arms-agree a b ha hb = ground arith

coerce_step-Bounded : (f : Coercion) → Bounded f → Bounded (coerce_step f)
unfolding coerce_step
coerce_step-Bounded f bound zero a b c ha hb e = absurd (omega arith)
coerce_step-Bounded f bound (suc k) a b c ha hb e = ground (arith, arms-depth f bound k a b c ha hb)

pub coerce_at-Bounded : (n : ℕ) → Bounded (coerce_at n)
unfolding coerce_at
coerce_at-Bounded zero k a b c ha hb e = absurd (cc e)
coerce_at-Bounded (suc n) k a b c ha hb e =
    coerce_step-Bounded (coerce_at n) (coerce_at-Bounded n) k a b c ha hb e

pub coerce_step-Agree :
    (f g : Coercion) (k : ℕ)
    → Bounded f
    → Agree k f g
    → Agree (suc k) (coerce_step f) (coerce_step g)
unfolding coerce_step
coerce_step-Agree f g k bound agree a b ha hb = rw (arms-agree f g bound k agree a b ha hb)

-- All the fuel above the depth of the types is alike.
pub coerce_at-Agree : (n m : ℕ) → n ≤ m → Agree n (coerce_at n) (coerce_at m)
unfolding coerce_at
coerce_at-Agree zero m h a b ha hb = absurd (omega arith)
coerce_at-Agree (suc n) zero h a b ha hb = absurd (omega arith)
coerce_at-Agree (suc n) (suc m) h a b ha hb =
    coerce_step-Agree (coerce_at n) (coerce_at m) n (coerce_at-Bounded n)
      (coerce_at-Agree n m (omega arith)) a b ha hb

enough_fuel :
    (n : ℕ) (a b : PyroType) → depth a < n → depth b < n → coerce_at n a b ≡ coerce_pyro_types a b
unfolding coerce_pyro_types
enough_fuel n a b ha hb = sym (
    coerce_at-Agree (suc (max (depth a) (depth b))) n (omega arith) a b (omega arith) (omega arith))

one_more :
    (n : ℕ) (a b : PyroType)
    → depth a < suc n
    → depth b < suc n
    → coerce_at (suc n) a b ≡ coerce_step coerce_pyro_types a b
unfolding coerce_at
one_more n a b ha hb =
    coerce_step-Agree (coerce_at n) coerce_pyro_types n (coerce_at-Bounded n) (enough_fuel n) a b ha
      hb

unrolled : (a b : PyroType) → coerce_pyro_types a b ≡ coerce_step coerce_pyro_types a b
unfolding coerce_pyro_types
unrolled a b = one_more (max (depth a) (depth b)) a b (omega arith) (omega arith)

-- Any fuel above the nesting of both types gives what `coerce_pyro_types` gives, and that satisfies
-- the equation of the source, whose recursive calls are to `coerce_pyro_types` itself.
pub coerce_pyro_types_terminates :
    (a b : PyroType)
    → ((n : ℕ) → depth a < n → depth b < n → coerce_at n a b ≡ coerce_pyro_types a b)
      × (coerce_pyro_types a b ≡ coerce_step coerce_pyro_types a b)
coerce_pyro_types_terminates a b = (λ n. enough_fuel n a b, unrolled a b)
