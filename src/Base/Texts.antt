-- ===== src/Base/Texts.antt =====
-- Rust's `str`: its equality and its order, that of the bytes.
use Prim.Native.Nat.{Ordering, compare as compare_ℕ}
use Prim.Native.Char.{code}
use Prim.Native.String.compare
use Prim.Native.String.{String, [], ◌∷◌, ◌++◌, then, compare}
use mathlib.Core.Path.{◌≡◌, refl}
use mathlib.Core.Logic.{◌⊎◌, inl, inr, ◌≢◌}
use native.Mathlib.Omega.{arith}
use text.Mathlib.TextPositions.{compare_refl}
pub use Prim.Native.Nat.{Ordering}
pub use Prim.Native.String.{compare as compare_str}
pub use text.Mathlib.TextEquality.{path_by_compare}

abbrev flip : Ordering → Ordering
flip Ordering.lt = Ordering.gt
flip Ordering.eq = Ordering.eq
flip Ordering.gt = Ordering.lt

flip-then : (a b : Ordering) → then (flip a) (flip b) ≡ flip (then a b)
flip-then Ordering.lt b = refl
flip-then Ordering.eq b = refl
flip-then Ordering.gt b = refl

flip-compare_ℕ : (m n : Prim.Native.Nat.ℕ) → compare_ℕ n m ≡ flip (compare_ℕ m n)
flip-compare_ℕ m n = ground arith

-- The order read from the other side.
pub compare_str-flip : (s t : String) → compare t s ≡ flip (compare s t)
compare_str-flip [] [] = rw compare.nil-nil
compare_str-flip [] (d ∷ t) = rw (compare.nil-cons d t, compare.cons-nil d t)
compare_str-flip (c ∷ s) [] = rw (compare.nil-cons c s, compare.cons-nil c s)
compare_str-flip (c ∷ s) (d ∷ t) =
    rw (compare.cons-cons c d s t, compare.cons-cons d c t s)
      (rw (flip-compare_ℕ (code c) (code d), compare_str-flip s t) (flip-then _ _))

unfoldable pub str_discrete : Discrete String
str_discrete s t = decided (compare s t) refl
  where
    decided : (o : Ordering) → compare s t ≡ o → Dec (s ≡ t)
    decided Ordering.eq h = yes (path_by_compare s t h)
    decided Ordering.lt h = no (λ p. cc (p, compare_refl s, h))
    decided Ordering.gt h = no (λ p. cc (p, compare_refl s, h))

pub Ordering-cases : (o : Ordering) → (o ≡ Ordering.lt) ⊎ ((o ≡ Ordering.eq) ⊎ (o ≡ Ordering.gt))
Ordering-cases Ordering.lt = inl refl
Ordering-cases Ordering.eq = inr (inl refl)
Ordering-cases Ordering.gt = inr (inr refl)

abbrev pub append_str : String → String → String
append_str s t = s ++ t

pub ne_of_lt : (s t : String) → compare s t ≡ Ordering.lt → s ≢ t
ne_of_lt s t h = λ p. absurd (cc (p, compare_refl s, h))

pub ne_of_gt : (s t : String) → compare s t ≡ Ordering.gt → s ≢ t
ne_of_gt s t h = λ p. absurd (cc (p, compare_refl s, h))
