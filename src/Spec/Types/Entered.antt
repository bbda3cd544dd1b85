-- ===== src/Spec/Types/Entered.antt =====
-- One turn of the merging loop of `coerce_pyro_types` of lib/pyro-spec/src/lib.rs, as a relation.
use pyroduct.Base.{String, Option, none, some, Bool, true, ◌||◌, ◌≡◌, inl, inr, arith}
use pyroduct.Base.Options.{◌>>=◌, >>=-eq-some}
use pyroduct.Base.Texts.{Ordering, compare_str, Ordering-cases, path_by_compare}
use pyroduct.Spec.Types.{PyroType, PyroField, field, PyroFields, nil, cons, Coercion, merge_field}
use mathlib.Core.Path.{subst}

abbrev pub name_of : PyroField → String
name_of (field k d t n) = k

-- The field comes into the map: behind all names, before one, at its own or further on.
pub data Entered (coerce : Coercion) : PyroField → PyroFields → PyroFields → Type 0 where
  at_end :
      {k : String} {d : Option String} {t : PyroType} {n : Bool}
      → Entered coerce (field k d t n) nil (cons (field k none t true) nil)
  before :
      {k : String} {d : Option String} {t : PyroType} {n : Bool} {g : PyroField} {fs : PyroFields}
      → compare_str k (name_of g) ≡ Ordering.lt
      → Entered coerce (field k d t n) (cons g fs) (cons (field k none t true) (cons g fs))
  found :
      {k : String} {d e : Option String} {t u c : PyroType} {n m : Bool} {fs : PyroFields}
      → coerce u t ≡ some c
      → Entered coerce (field k d t n) (cons (field k e u m) fs) (cons (field k none c (m || n)) fs)
  after :
      {x f : PyroField} {fs gs : PyroFields}
      → compare_str (name_of x) (name_of f) ≡ Ordering.gt
      → Entered coerce x fs gs
      → Entered coerce x (cons f fs) (cons f gs)

pub some_inj : {A : Type 0} (a b : A) → some a ≡ some b → a ≡ b
some_inj a b e = cc e

module _ (coerce : Coercion) where
  pub merge_field-Entered :
      (x : PyroField) (fs gs : PyroFields)
      → merge_field coerce x fs ≡ some gs
      → Entered coerce x fs gs
  unfolding merge_field
  merge_field-Entered (field name doc t n) nil gs e =
      subst (Entered coerce (field name doc t n) nil) (some_inj _ _ e) at_end
  merge_field-Entered (field name doc t n) (cons (field l d u m) fs) gs e =
      elim (Ordering-cases (compare_str name l)) [
        | inl lt ↦ subst (Entered coerce _ _) (some_inj _ _ (ground (arith, e, lt))) (before lt)
        | inr (inl eq) ↦
            let e' : (coerce u t >>= (λ c. some (cons (field name none c (m || n)) fs))) ≡ some gs =
              ground (arith, e, eq) in
            let (c, at, out) = >>=-eq-some (coerce u t) _ gs e' in
            subst (Entered coerce (field name doc t n) (cons (field l d u m) fs)) (some_inj _ _ out)
              (subst
                (λ z.
                  Entered coerce (field name doc t n) (cons (field z d u m) fs)
                    (cons (field name none c (m || n)) fs))
                (path_by_compare name l eq) (found at))
        | inr (inr gt) ↦
            let e' : (merge_field coerce (field name doc t n) fs
                  >>= (λ r. some (cons (field l d u m) r)))
                ≡ some gs =
              ground (arith, e, gt) in
            let (r, at, out) = >>=-eq-some (merge_field coerce (field name doc t n) fs) _ gs e' in
            subst (Entered coerce _ _) (some_inj _ _ out)
              (after gt (merge_field-Entered (field name doc t n) fs r at))
      ]
