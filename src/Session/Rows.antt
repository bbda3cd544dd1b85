-- ===== src/Session/Rows.antt =====
-- `unpack_session_diff` of lib/pyroduct/src/pipeline/session_diff.rs, which reads a rolled-up row back.
use pyroduct.Base.{List, [], ◌∷◌, ◌++◌, ◌≡◌, refl, ap, ◌∙◌, map}
use pyroduct.Base.Texts.{str_discrete}
use pyroduct.Value.{PyroValue, null, group, list, PyroRow, empty, item, PyroValues, nil, cons, get}
use pyroduct.Session.{groups_under, values_of, rolled_up_row}
use mathlib.Core.Logic.{ite}

unfoldable pub groups_in : PyroValues → List PyroRow
groups_in nil = []
groups_in (cons (group g) vs) = g ∷ groups_in vs
groups_in (cons _ vs) = groups_in vs

unfoldable pub groups_in_list : PyroValue → List PyroRow
unfolding groups_in
groups_in_list (list vs) = groups_in vs
groups_in_list _ = []

-- The items of the row in turn: the inputs and the outputs that they add.
unfoldable pub collected : PyroRow → List PyroRow → List PyroRow → List PyroRow × List PyroRow
unfolding groups_in_list
collected empty inputs outputs = (inputs, outputs)
collected (item key value rest) inputs outputs =
    ite (str_discrete key "inputs") (collected rest (inputs ++ groups_in_list value) outputs) (
      ite (str_discrete key "outputs") (collected rest inputs (outputs ++ groups_in_list value))
        (collected rest inputs outputs))

-- The two iterators side by side, as long as the longer, an empty row where one has ended.
unfoldable pub paired : List PyroRow → List PyroRow → List (PyroRow × PyroRow)
paired [] [] = []
paired (i ∷ is) [] = (i, empty) ∷ paired is []
paired [] (o ∷ os) = (empty, o) ∷ paired [] os
paired (i ∷ is) (o ∷ os) = (i, o) ∷ paired is os

unfoldable pub unpack_session_diff : PyroRow → List (PyroRow × PyroRow)
unfolding collected paired
unpack_session_diff row = let (inputs, outputs) = collected row [] [] in paired inputs outputs

-- The row that a step appends to the session's file.
abbrev pub step_row : PyroRow → PyroRow → PyroRow
step_row input output = item "input" (group input) (item "output" (group output) empty)

-- The row of a step that ended the session without an output.
abbrev pub last_row : PyroRow → PyroRow
last_row input = item "input" (group input) (item "output" null empty)

abbrev pub rows_of_steps : List (PyroRow × PyroRow) → List PyroRow
rows_of_steps [] = []
rows_of_steps ((i, o) ∷ steps) = step_row i o ∷ rows_of_steps steps

groups_in-values_of : (gs : List PyroRow) → groups_in (values_of gs) ≡ gs
unfolding groups_in values_of
groups_in-values_of [] = refl
groups_in-values_of (g ∷ gs) = ap (λ l. g ∷ l) (groups_in-values_of gs)

unpacked :
    (rows : List PyroRow)
    → unpack_session_diff (rolled_up_row rows)
      ≡ paired (groups_under "input" rows) (groups_under "output" rows)
unfolding unpack_session_diff rolled_up_row str_discrete
unpacked rows =
    rw
      (
        groups_in-values_of (groups_under "input" rows),
        groups_in-values_of (groups_under "output" rows),
      )
      refl

no_outputs : (is : List PyroRow) → groups_under "output" (map last_row is) ≡ []
unfolding groups_under str_discrete get
no_outputs [] = refl
no_outputs (i ∷ is) = no_outputs is

all_inputs : (is : List PyroRow) → groups_under "input" (map last_row is) ≡ is
unfolding groups_under str_discrete get
all_inputs [] = refl
all_inputs (i ∷ is) = ap (λ l. i ∷ l) (all_inputs is)

unanswered : List PyroRow → List (PyroRow × PyroRow)
unanswered is = map (λ i. (i, empty)) is

paired-unanswered : (is : List PyroRow) → paired is [] ≡ unanswered is
unfolding paired unanswered
paired-unanswered [] = refl
paired-unanswered (i ∷ is) = ap (λ l. (i, empty) ∷ l) (paired-unanswered is)

paired_steps :
    (steps : List (PyroRow × PyroRow)) (is : List PyroRow)
    → paired
        (groups_under "input" (rows_of_steps steps ++ map last_row is))
        (groups_under "output" (rows_of_steps steps ++ map last_row is))
      ≡ steps ++ unanswered is
unfolding paired groups_under str_discrete get
paired_steps [] is = rw (no_outputs is, all_inputs is) (paired-unanswered is)
paired_steps ((i, o) ∷ steps) is = ap (λ l. (i, o) ∷ l) (paired_steps steps is)

-- A session whose steps without an output all stand behind those with one is rolled up to a row that is
-- read back as its steps, in their order, those without an output with an empty row for it. Of sessions
-- with a step without an output in front of one with an output nothing is said.
pub unpack_session_diff-rolled_up_row :
    (steps : List (PyroRow × PyroRow)) (is : List PyroRow)
    → unpack_session_diff (rolled_up_row (rows_of_steps steps ++ map last_row is))
      ≡ steps ++ map (λ i. (i, empty)) is
unfolding unanswered
unpack_session_diff-rolled_up_row steps is =
    unpacked (rows_of_steps steps ++ map last_row is) ∙ paired_steps steps is
