-- ===== src/Base/Lists.antt =====
-- Lists measured and indexed by native numbers, under the library's names.
use Prim.Native.Nat.{ℕ, zero, suc, ◌+◌, ◌-◌, ◌≤◌, ◌<◌, min}
use mathlib.Core.Path.{◌≡◌, refl, ap, ◌∙◌}
use mathlib.Core.List.{List, [], ◌∷◌, ◌++◌}
use mathlib.Core.Option.{Option, none, some}
use native.Mathlib.Omega.{arith}

module _ {ℓ} {A : Type ℓ} where
  abbrev pub length : List A → ℕ
  length [] = 0
  length (x ∷ xs) = suc (length xs)

  abbrev pub get_elem? : List A → ℕ → Option A
  get_elem? [] i = none
  get_elem? (x ∷ xs) zero = some x
  get_elem? (x ∷ xs) (suc i) = get_elem? xs i

  abbrev pub get_or : List A → ℕ → A → A
  get_or [] i d = d
  get_or (x ∷ xs) zero d = x
  get_or (x ∷ xs) (suc i) d = get_or xs i d

  -- A write out of bounds changes nothing.
  abbrev pub set : List A → ℕ → A → List A
  set [] i v = []
  set (x ∷ xs) zero v = v ∷ xs
  set (x ∷ xs) (suc i) v = x ∷ set xs i v

  abbrev pub take : ℕ → List A → List A
  take zero xs = []
  take (suc n) [] = []
  take (suc n) (x ∷ xs) = x ∷ take n xs

  abbrev pub drop : ℕ → List A → List A
  drop zero xs = xs
  drop (suc n) [] = []
  drop (suc n) (x ∷ xs) = drop n xs

  abbrev pub All {κ} : (A → Type κ) → List A → Type κ
  All P [] = Unit {κ}
  All P (x ∷ xs) = P x × All P xs

module _ {ℓ} {A : Type ℓ} where
  pub length-append : (xs ys : List A) → length (xs ++ ys) ≡ length xs + length ys
  length-append [] ys = omega arith
  length-append (x ∷ xs) ys = omega (arith, length-append xs ys)

  pub length-take : (n : ℕ) (xs : List A) → length (take n xs) ≡ min n (length xs)
  length-take zero xs = omega arith
  length-take (suc n) [] = omega arith
  length-take (suc n) (x ∷ xs) = omega (arith, length-take n xs)

  pub length-drop : (n : ℕ) (xs : List A) → length (drop n xs) ≡ length xs - n
  length-drop zero xs = omega arith
  length-drop (suc n) [] = omega arith
  length-drop (suc n) (x ∷ xs) = omega (arith, length-drop n xs)

  -- Reading a prefix of known length, and what lies behind it.
  pub take-append : (xs ys : List A) (n : ℕ) → n ≡ length xs → take n (xs ++ ys) ≡ xs
  take-append [] ys zero h = refl
  take-append [] ys (suc n) h = absurd (omega arith)
  take-append (x ∷ xs) ys zero h = absurd (omega arith)
  take-append (x ∷ xs) ys (suc n) h = ap (λ t. x ∷ t) (take-append xs ys n (omega arith))

  pub drop-append : (xs ys : List A) (n : ℕ) → n ≡ length xs → drop n (xs ++ ys) ≡ ys
  drop-append [] ys zero h = refl
  drop-append [] ys (suc n) h = absurd (omega arith)
  drop-append (x ∷ xs) ys zero h = absurd (omega arith)
  drop-append (x ∷ xs) ys (suc n) h = drop-append xs ys n (omega arith)

  pub take-all : (xs : List A) (n : ℕ) → n ≡ length xs → take n xs ≡ xs
  take-all [] zero h = refl
  take-all [] (suc n) h = refl
  take-all (x ∷ xs) zero h = absurd (omega arith)
  take-all (x ∷ xs) (suc n) h = ap (λ t. x ∷ t) (take-all xs n (omega arith))

  pub drop-all : (xs : List A) (n : ℕ) → length xs ≤ n → drop n xs ≡ []
  drop-all [] zero h = refl
  drop-all [] (suc n) h = refl
  drop-all (x ∷ xs) zero h = absurd (omega arith)
  drop-all (x ∷ xs) (suc n) h = drop-all xs n (omega arith)

  pub get_elem?-append_last :
      (xs : List A) (x : A) (n : ℕ) → n ≡ length xs → get_elem? (xs ++ x ∷ []) n ≡ some x
  get_elem?-append_last [] x zero h = refl
  get_elem?-append_last [] x (suc n) h = absurd (omega arith)
  get_elem?-append_last (y ∷ xs) x zero h = absurd (omega arith)
  get_elem?-append_last (y ∷ xs) x (suc n) h = get_elem?-append_last xs x n (omega arith)

  pub get_elem?-append_left :
      (xs ys : List A) (n : ℕ) → n < length xs → get_elem? (xs ++ ys) n ≡ get_elem? xs n
  get_elem?-append_left [] ys n h = absurd (omega arith)
  get_elem?-append_left (x ∷ xs) ys zero h = refl
  get_elem?-append_left (x ∷ xs) ys (suc n) h = get_elem?-append_left xs ys n (omega arith)

  pub get_elem?-ge : (xs : List A) (n : ℕ) → length xs ≤ n → get_elem? xs n ≡ none
  get_elem?-ge [] n h = refl
  get_elem?-ge (x ∷ xs) zero h = absurd (omega arith)
  get_elem?-ge (x ∷ xs) (suc n) h = get_elem?-ge xs n (omega arith)

  pub get_elem?-none : (xs : List A) (n : ℕ) → get_elem? xs n ≡ none → length xs ≤ n
  get_elem?-none [] n h = omega arith
  get_elem?-none (x ∷ xs) zero h = absurd (cc)
  get_elem?-none (x ∷ xs) (suc n) h = omega (arith, get_elem?-none xs n h)

zero_sub : (k : ℕ) → 0 ≡ 0 - k
zero_sub k = omega arith

sub_zero : (n : ℕ) → n ≡ n - 0
sub_zero n = omega arith

suc_sub : (n k : ℕ) → n - k ≡ suc n - suc k
suc_sub n k = omega arith

min_zero : (k : ℕ) → min k 0 ≡ 0
min_zero k = omega arith

zero_min : (m : ℕ) → min 0 (suc m) ≡ 0
zero_min m = omega arith

min-suc : (a b : ℕ) → min (suc a) (suc b) ≡ suc (min a b)
min-suc a b = omega arith

-- Prefixes and rests of two lists, one behind the other.
module _ {ℓ} {A : Type ℓ} where
  pub take-append_left :
      (n : ℕ) (xs ys : List A) → take n (xs ++ ys) ≡ take n xs ++ take (n - length xs) ys
  take-append_left zero [] ys = ap (λ k. take k ys) (zero_sub 0)
  take-append_left zero (x ∷ xs) ys = ap (λ k. take k ys) (zero_sub (length (x ∷ xs)))
  take-append_left (suc n) [] ys = ap (λ k. take k ys) (sub_zero (suc n))
  take-append_left (suc n) (x ∷ xs) ys =
      ap (λ t. x ∷ t)
        (take-append_left n xs ys ∙ ap (λ k. take n xs ++ take k ys) (suc_sub n (length xs)))

  pub drop-append_left :
      (n : ℕ) (xs ys : List A) → drop n (xs ++ ys) ≡ drop n xs ++ drop (n - length xs) ys
  drop-append_left zero [] ys = ap (λ k. drop k ys) (zero_sub 0)
  drop-append_left zero (x ∷ xs) ys = ap (λ k. (x ∷ xs) ++ drop k ys) (zero_sub (length (x ∷ xs)))
  drop-append_left (suc n) [] ys = ap (λ k. drop k ys) (sub_zero (suc n))
  drop-append_left (suc n) (x ∷ xs) ys =
      drop-append_left n xs ys ∙ ap (λ k. drop n xs ++ drop k ys) (suc_sub n (length xs))

  pub take-min : (m : ℕ) (xs : List A) → take (min (length xs) m) xs ≡ take m xs
  take-min zero xs = ap (λ k. take k xs) (min_zero (length xs))
  take-min (suc m) [] = ap (λ k. take k []) (zero_min m)
  take-min (suc m) (x ∷ xs) =
      ap (λ k. take k (x ∷ xs)) (min-suc (length xs) m) ∙ ap (λ t. x ∷ t) (take-min m xs)
