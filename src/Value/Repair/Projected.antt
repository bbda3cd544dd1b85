-- ===== src/Value/Repair/Projected.antt =====
-- `project_repair` of lib/pyroduct/src/format/value/repair.rs against looking each field up by its name.
use pyroduct.Base.{String, Option, none, some, ◌≡◌, ◌≢◌, refl, sym, ap, ◌∙◌, inl, inr, Option-cases}
use pyroduct.Base.Outcome.{ok, err, ◌>>=◌}
use pyroduct.Spec.Types.{PyroField, field, PyroFields, nil, cons}
use pyroduct.Value.{PyroValue, PyroRow, empty, item, get}
use pyroduct.Value.Repair.{name_of, absent, repair_field, repair, repair_at, project_repair}
use pyroduct.Value.Repair.Scalars.{Std, RepairResult, Repaired}
use pyroduct.Value.Repair.Rows.{Distinct, Left, take_item-none, take_item-some}

-- No field has this name.
abbrev pub Unnamed : String → PyroFields → Type 0
Unnamed k nil = Unit
Unnamed k (cons f fs) = (name_of f ≢ k) × Unnamed k fs

abbrev pub DistinctNames : PyroFields → Type 0
DistinctNames nil = Unit
DistinctNames (cons f fs) = Unnamed (name_of f) fs × DistinctNames fs

-- The field of one name: what the row has under it, repaired, or what its absence gives.
unfoldable pub found_or_absent : Std → PyroField → Option PyroValue → Repaired
unfolding repair absent
found_or_absent std (field name doc t nullable) (some v) = repair std t v
found_or_absent std (field name doc t nullable) none = absent name nullable

-- The specification: each field in the order of the schema, looked up in the whole row.
unfoldable pub project_by_name : Std → PyroFields → PyroRow → RepairResult PyroRow
unfolding found_or_absent
project_by_name std nil row = ok empty
project_by_name std (cons f fs) row = do
  w ← found_or_absent std f (get row (name_of f))
  rest ← project_by_name std fs row
  ok (item (name_of f) w rest)

-- The rows agree on the names of the fields.
abbrev AgreeOn : PyroFields → PyroRow → PyroRow → Type 0
AgreeOn nil a b = Unit
AgreeOn (cons f fs) a b = (get a (name_of f) ≡ get b (name_of f)) × AgreeOn fs a b

agree_refl : (fs : PyroFields) (row : PyroRow) → AgreeOn fs row row
agree_refl nil row = tt
agree_refl (cons f fs) row = (refl, agree_refl fs row)

agree-Left :
    (name : String) (fs : PyroFields) (a a' b : PyroRow)
    → Unnamed name fs
    → Left name a a'
    → AgreeOn fs a b
    → AgreeOn fs a' b
agree-Left name nil a a' b u l h = tt
agree-Left name (cons f fs) a a' b u l h =
    (l.1 (name_of f) u.0 ∙ h.0, agree-Left name fs a a' b u.1 l h.1)

abbrev beside : Repaired → PyroRow → RepairResult (PyroValue × PyroRow)
beside r a = r >>= (λ w. ok (w, a))

-- A step that hands on what it was given beside its result.
paired :
    (r : Repaired) (a : PyroRow) (name : String) (more : RepairResult PyroRow)
    (next : PyroRow → RepairResult PyroRow)
    → next a ≡ more
    → (beside r a >>= (λ x. next x.1 >>= (λ rest. ok (item name x.0 rest))))
      ≡ (r >>= (λ w. more >>= (λ rest. ok (item name w rest))))
paired (ok w) a name more next e = ap (λ m. m >>= (λ rest. ok (item name w rest))) e
paired (err x) a name more next e = refl

project_agree :
    (std : Std) (fs : PyroFields) (a b : PyroRow)
    → DistinctNames fs
    → Distinct a
    → AgreeOn fs a b
    → project_repair std fs a ≡ project_by_name std fs b
unfolding project_repair repair_at project_by_name found_or_absent repair_field
project_agree std nil a b n d h = refl
project_agree std (cons (field k doc t m) fs) a b n d h = elim (Option-cases (get a k)) [
  | inl e ↦
      rw (take_item-none k a e, sym h.0 ∙ e)
        (paired (absent k m) a k (project_by_name std fs b) (project_repair std fs)
          (project_agree std fs a b n.1 d h.1))
  | inr (v, e) ↦
      let (a', taken, left) = take_item-some k a v d e in
      rw (taken, sym h.0 ∙ e)
        (paired (repair std t v) a' k (project_by_name std fs b) (project_repair std fs)
          (project_agree std fs a' b n.1 left.0 (agree-Left k fs a a' b n.0 left h.1)))
]

-- Projection with `swap_remove` gives, for each field of the schema in its order, what the row has
-- under its name, repaired, or null or an error where the row has none: provided that no name
-- stands twice in the schema and no key twice in the row.
pub project_repair-project_by_name :
    (std : Std) (fs : PyroFields) (row : PyroRow)
    → DistinctNames fs
    → Distinct row
    → project_repair std fs row ≡ project_by_name std fs row
project_repair-project_by_name std fs row n d = project_agree std fs row row n d (agree_refl fs row)
