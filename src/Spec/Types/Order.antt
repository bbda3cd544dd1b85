-- ===== src/Spec/Types/Order.antt =====
-- The order of the types of lib/pyro-spec/src/lib.rs by what they hold, which `coerce_pyro_types` goes up.
use pyroduct.Base.{ℕ, String, Option, Bool, true, ◌≡◌}
use pyroduct.Spec.{PrimitiveDataType}
use pyroduct.Spec.Coercion.{widens, widens_trans}
use pyroduct.Spec.Types.{
  PyroType, null, primitive_scalar, primitive_list, primitive_fixed_list, list, group, map,
  PyroField, field, PyroFields, nil, cons,
}

-- What may be null stays so.
abbrev pub Keeps : Bool → Bool → Type 0
Keeps n m = n ≡ true → m ≡ true

infix 40 ◌⊑◌
mutual
  -- The second type is at least as wide, by the widening of primitive types.
  pub data ◌⊑◌ : PyroType → PyroType → Type 0 where
    same : {a : PyroType} → a ⊑ a
    of_null : {a : PyroType} → null ⊑ a
    of_scalar :
        {p q : PrimitiveDataType} → widens p q ≡ true → primitive_scalar p ⊑ primitive_scalar q
    of_primitives :
        {p q : PrimitiveDataType} → widens p q ≡ true → primitive_list p ⊑ primitive_list q
    of_fixed :
        {p q : PrimitiveDataType} {s : ℕ}
        → widens p q ≡ true
        → primitive_fixed_list p s ⊑ primitive_fixed_list q s
    of_fixed_list :
        {p q : PrimitiveDataType} {s : ℕ}
        → widens p q ≡ true
        → primitive_fixed_list p s ⊑ primitive_list q
    of_list : {a b : PyroType} {n m : Bool} → a ⊑ b → Keeps n m → list a n ⊑ list b m
    of_map : {k l a b : PyroType} → k ⊑ l → a ⊑ b → map k a ⊑ map l b
    of_group : {fs gs : PyroFields} → Each fs gs → group fs ⊑ group gs

  -- Every field of the first has one in the second.
  pub data Each : PyroFields → PyroFields → Type 0 where
    none_left : {gs : PyroFields} → Each nil gs
    next : {f : PyroField} {fs gs : PyroFields} → Has f gs → Each fs gs → Each (cons f fs) gs

  -- The fields have one of this name, of a type that holds as much.
  pub data Has : PyroField → PyroFields → Type 0 where
    here :
        {k : String} {d e : Option String} {t u : PyroType} {n m : Bool} {gs : PyroFields}
        → t ⊑ u
        → Keeps n m
        → Has (field k d t n) (cons (field k e u m) gs)
    there : {f g : PyroField} {gs : PyroFields} → Has f gs → Has f (cons g gs)

Has-wider :
    {k : String} {d e : Option String} {t u : PyroType} {n m : Bool} {hs : PyroFields}
    → ((w : PyroType) → u ⊑ w → t ⊑ w)
    → Keeps n m
    → Has (field k e u m) hs
    → Has (field k d t n) hs
Has-wider up h (here {u = w} q h') = here (up w q) (λ e. h' (h e))
Has-wider up h (there q) = there (Has-wider up h q)

mutual
  pub ⊑_trans : {a b c : PyroType} → a ⊑ b → b ⊑ c → a ⊑ c
  ⊑_trans same q = q
  ⊑_trans of_null q = of_null
  ⊑_trans p same = p
  ⊑_trans (of_scalar {p = p} {q = q} h) (of_scalar {q = r} h') = of_scalar (widens_trans p q r h h')
  ⊑_trans (of_primitives {p = p} {q = q} h) (of_primitives {q = r} h') =
      of_primitives (widens_trans p q r h h')
  ⊑_trans (of_fixed {p = p} {q = q} h) (of_fixed {q = r} h') = of_fixed (widens_trans p q r h h')
  ⊑_trans (of_fixed {p = p} {q = q} h) (of_fixed_list {q = r} h') =
      of_fixed_list (widens_trans p q r h h')
  ⊑_trans (of_fixed_list {p = p} {q = q} h) (of_primitives {q = r} h') =
      of_fixed_list (widens_trans p q r h h')
  ⊑_trans (of_list p h) (of_list q h') = of_list (⊑_trans p q) (λ e. h' (h e))
  ⊑_trans (of_map p q) (of_map p' q') = of_map (⊑_trans p p') (⊑_trans q q')
  ⊑_trans (of_group ps) (of_group qs) = of_group (Each_trans ps qs)

  pub Each_trans : {fs gs hs : PyroFields} → Each fs gs → Each gs hs → Each fs hs
  Each_trans none_left qs = none_left
  Each_trans (next p ps) qs = next (Has-Each p qs) (Each_trans ps qs)

  pub Has-Each : {f : PyroField} {gs hs : PyroFields} → Has f gs → Each gs hs → Has f hs
  Has-Each (here p h) (next q qs) = Has-wider (λ w r. ⊑_trans p r) h q
  Has-Each (there p) (next q qs) = Has-Each p qs
