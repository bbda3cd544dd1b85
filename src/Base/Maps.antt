-- ===== src/Base/Maps.antt =====
-- Maps from numbers, as association lists: hash maps, tables with a primary key and directories of
-- numbered files. A key is written where it stands, or behind all.
use Prim.Native.Nat.{ℕ}
use mathlib.Core.Path.{◌≡◌, refl}
use mathlib.Core.Option.{Option, none, some}
use mathlib.Core.List.{List, [], ◌∷◌}
use native.Mathlib.Omega.{arith}
use pyroduct.Base.Tests.{◌==◌, if◌then◌else◌}

unfoldable pub set_entry {ℓ} : {A : Type ℓ} → ℕ → A → List (ℕ × A) → List (ℕ × A)
set_entry id a [] = (id, a) ∷ []
set_entry id a (e ∷ es) =
    let rest = set_entry id a es in if e.0 == id then (id, a) ∷ es else e ∷ rest

unfoldable pub entry {ℓ} : {A : Type ℓ} → ℕ → List (ℕ × A) → Option A
entry id [] = none
entry id (e ∷ es) = let rest = entry id es in if e.0 == id then some e.1 else rest

unfoldable pub drop_entry {ℓ} : {A : Type ℓ} → ℕ → List (ℕ × A) → List (ℕ × A)
drop_entry id [] = []
drop_entry id (e ∷ es) = let rest = drop_entry id es in if e.0 == id then rest else e ∷ rest

module _ {ℓ} {A : Type ℓ} where
  pub entry-set_entry_self :
      (id : ℕ) (a : A) (es : List (ℕ × A)) → entry id (set_entry id a es) ≡ some a
  unfolding entry set_entry
  entry-set_entry_self id a [] = ground arith
  entry-set_entry_self id a (e ∷ es) = ground (arith, entry-set_entry_self id a es)

  pub entry-set_entry :
      (j id : ℕ) (a : A) (es : List (ℕ × A))
      → entry j (set_entry id a es) ≡ (if id == j then some a else entry j es)
  unfolding entry set_entry
  entry-set_entry j id a [] = ground arith
  entry-set_entry j id a (e ∷ es) = ground (arith, entry-set_entry j id a es)

  pub entry-drop_entry_self : (id : ℕ) (es : List (ℕ × A)) → entry id (drop_entry id es) ≡ none
  unfolding entry drop_entry
  entry-drop_entry_self id [] = refl
  entry-drop_entry_self id (e ∷ es) = ground (arith, entry-drop_entry_self id es)

  pub entry-drop_entry :
      (j id : ℕ) (es : List (ℕ × A))
      → entry j (drop_entry id es) ≡ (if id == j then none else entry j es)
  unfolding entry drop_entry
  entry-drop_entry j id [] = ground arith
  entry-drop_entry j id (e ∷ es) = ground (arith, entry-drop_entry j id es)
