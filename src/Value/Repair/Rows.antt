-- ===== src/Value/Repair/Rows.antt =====
-- Items taken out of a row by `swap_remove`, as `project_repair` of
-- lib/pyroduct/src/format/value/repair.rs does it: what is looked up afterwards.
use pyroduct.Base.{String, none, some, ◌≡◌, ◌≢◌, refl, ◌∙◌, arith}
use pyroduct.Base.Texts.{str_discrete}
use pyroduct.Value.{PyroValue, PyroRow, empty, item, get}
use pyroduct.Value.Repair.{last_item, all_but_last, fill_gap, take_item}

-- No key stands twice.
abbrev pub Distinct : PyroRow → Type 0
Distinct empty = Unit
Distinct (item k v rest) = (get rest k ≡ none) × Distinct rest

-- The last item moved to the front.
abbrev rotated : String → PyroValue → PyroRow → PyroRow
rotated k v rest = item (last_item k v rest).0 (last_item k v rest).1 (all_but_last k v rest)

rotated-get :
    (k : String) (v : PyroValue) (rest : PyroRow)
    → Distinct (item k v rest)
    → (j : String) → get (rotated k v rest) j ≡ get (item k v rest) j
unfolding get last_item all_but_last
rotated-get k v empty d j = refl
rotated-get k v (item k' v' rest) d j =
    ground (arith, rotated-get k' v' rest d.1 j, rotated-get k' v' rest d.1 k)

rotated-Distinct :
    (k : String) (v : PyroValue) (rest : PyroRow)
    → Distinct (item k v rest)
    → Distinct (rotated k v rest)
unfolding get last_item all_but_last
rotated-Distinct k v empty d = (refl, tt)
rotated-Distinct k v (item k' v' rest) d =
    ground (arith, rotated-get k' v' rest d.1 k, rotated-Distinct k' v' rest d.1)

fill_gap-get : (row : PyroRow) → Distinct row → (j : String) → get (fill_gap row) j ≡ get row j
unfolding fill_gap
fill_gap-get empty d j = refl
fill_gap-get (item k v rest) d j = rotated-get k v rest d j

fill_gap-Distinct : (row : PyroRow) → Distinct row → Distinct (fill_gap row)
unfolding fill_gap
fill_gap-Distinct empty d = tt
fill_gap-Distinct (item k v rest) d = rotated-Distinct k v rest d

pub take_item-none :
    (name : String) (row : PyroRow) → get row name ≡ none → take_item name row ≡ none
unfolding take_item get
take_item-none name empty h = refl
take_item-none name (item k v rest) h = ground (arith, take_item-none name rest)

-- The row that is left has the other items, under their keys.
abbrev pub Left : String → PyroRow → PyroRow → Type 0
Left name row row' = Distinct row' × ((j : String) → j ≢ name → get row' j ≡ get row j)

pub take_item-some :
    (name : String) (row : PyroRow) (w : PyroValue)
    → Distinct row
    → get row name ≡ some w
    → (row' : PyroRow) × (take_item name row ≡ some (w, row')) × Left name row row'
unfolding take_item get
take_item-some name empty w d h = absurd (cc h)
take_item-some name (item k v rest) w d h = elim (str_discrete k name) [
  | yes p ↦ (
    fill_gap rest,
    ground (arith, h, p),
    (fill_gap-Distinct rest d.1, λ j ne. ground (arith, fill_gap-get rest d.1 j, ne, p)),
  )
  | no ne ↦
      let (row', e, (d', same)) = take_item-some name rest w d.1 (ground (arith, h, ne)) in
      (
        item k v row',
        ground (arith, e, ne),
        ((same k ne ∙ d.0, d'), λ j nj. ground (arith, same j nj)),
      )
]
