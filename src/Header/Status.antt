-- ===== src/Header/Status.antt =====
-- lib/pyroduct/src/format/header.rs: `DataStatus`, the status byte at offset 9, and what its codes mean.
use pyroduct.Base.{ℕ, ◌≡◌, refl, sym, ap, ◌∙◌, ◌≢◌, ◌↔◌, arith}
use pyroduct.Base.{Bool, true, false, not, ◌&&◌, List, [], ◌∷◌, ◌==◌, if◌then◌else◌, All}
use pyroduct.Base.Outcome.{Result, ok, err}

pub data DataStatus : Type 0 where
  empty code_error rkyv_valid rkyv_error json_valid json_error interface_schema : DataStatus
  pyro_ffi_fail : DataStatus
  local_serialization local_deserialization local_validation local_transport : DataStatus
  local_io local_utf8 local_invalid_header local_layout_error local_unexpected_eof : DataStatus
  local_not_found local_not_permitted : DataStatus
  remote_serialization remote_deserialization remote_validation remote_transport : DataStatus
  remote_io remote_utf8 remote_invalid_header remote_layout_error : DataStatus
  remote_unexpected_eof remote_not_found remote_not_permitted : DataStatus

-- `Into<u8>`: the discriminants that `define_data_status!` gives.
unfoldable pub code : DataStatus → ℕ
code empty = 0
code code_error = 1
code rkyv_valid = 2
code rkyv_error = 3
code json_valid = 4
code json_error = 5
code interface_schema = 10
code pyro_ffi_fail = 99
code local_serialization = 100
code local_deserialization = 101
code local_validation = 102
code local_transport = 103
code local_io = 104
code local_utf8 = 105
code local_invalid_header = 106
code local_layout_error = 107
code local_unexpected_eof = 108
code local_not_found = 109
code local_not_permitted = 110
code remote_serialization = 150
code remote_deserialization = 151
code remote_validation = 152
code remote_transport = 153
code remote_io = 154
code remote_utf8 = 155
code remote_invalid_header = 156
code remote_layout_error = 157
code remote_unexpected_eof = 158
code remote_not_found = 159
code remote_not_permitted = 160

-- The arms `$val => Ok(DataStatus::$name)` of `parse`, in the macro's order.
abbrev arms : List (ℕ × DataStatus)
arms =
    (0, empty)
    ∷ (1, code_error)
    ∷ (2, rkyv_valid)
    ∷ (3, rkyv_error)
    ∷ (4, json_valid)
    ∷ (5, json_error)
    ∷ (10, interface_schema)
    ∷ (99, pyro_ffi_fail)
    ∷ (100, local_serialization)
    ∷ (101, local_deserialization)
    ∷ (102, local_validation)
    ∷ (103, local_transport)
    ∷ (104, local_io)
    ∷ (105, local_utf8)
    ∷ (106, local_invalid_header)
    ∷ (107, local_layout_error)
    ∷ (108, local_unexpected_eof)
    ∷ (109, local_not_found)
    ∷ (110, local_not_permitted)
    ∷ (150, remote_serialization)
    ∷ (151, remote_deserialization)
    ∷ (152, remote_validation)
    ∷ (153, remote_transport)
    ∷ (154, remote_io)
    ∷ (155, remote_utf8)
    ∷ (156, remote_invalid_header)
    ∷ (157, remote_layout_error)
    ∷ (158, remote_unexpected_eof)
    ∷ (159, remote_not_found)
    ∷ (160, remote_not_permitted)
    ∷ []

-- The first arm whose value is the byte; `other => Err(other)` if there is none.
first_arm : List (ℕ × DataStatus) → ℕ → Result DataStatus ℕ
first_arm [] i = err i
first_arm ((val, s) ∷ rest) i = if i == val then ok s else first_arm rest i

unfoldable pub parse : ℕ → Result DataStatus ℕ
unfolding first_arm
parse i = first_arm arms i

unfoldable pub is_ok : DataStatus → Bool
is_ok empty = true
is_ok rkyv_valid = true
is_ok json_valid = true
is_ok interface_schema = true
is_ok _ = false

unfoldable pub is_user_err : DataStatus → Bool
is_user_err code_error = true
is_user_err _ = false

unfoldable pub is_pyro_err : DataStatus → Bool
unfolding is_ok is_user_err
is_pyro_err s = not (is_ok s) && not (is_user_err s)

parse-code : (s : DataStatus) → parse (code s) ≡ ok s
unfolding parse code
parse-code empty = refl
parse-code _ = refl

abbrev Agrees : (ℕ × DataStatus) → Type 0
Agrees a = code a.1 ≡ a.0

arms_agree : All Agrees arms
unfolding code
arms_agree = omega arith

code-first_arm :
    (l : List (ℕ × DataStatus)) (i : ℕ) (s : DataStatus)
    → All Agrees l
    → first_arm l i ≡ ok s
    → code s ≡ i
unfolding first_arm
code-first_arm [] i s h e = cc
code-first_arm ((val, t) ∷ rest) i s (h, hs) e = ground (arith, code-first_arm rest i s hs)

first_arm_err : (l : List (ℕ × DataStatus)) (i b : ℕ) → first_arm l i ≡ err b → b ≡ i
unfolding first_arm
first_arm_err [] i b e = ground arith
first_arm_err ((val, t) ∷ rest) i b e = ground (arith, first_arm_err rest i b)

-- A byte parses to a status exactly when it is the code of that status.
pub parse_iff : (i : ℕ) (s : DataStatus) → (parse i ≡ ok s) ↔ (code s ≡ i)
parse_iff i s = (unfold parse in code-first_arm arms i s arms_agree, λ e. rw e at (parse-code s))

-- A byte is refused, and given back as it is, exactly when it is the code of no status.
pub parse-eq-err_iff : (i b : ℕ) → (parse i ≡ err b) ↔ ((b ≡ i) × ((s : DataStatus) → code s ≢ i))
parse-eq-err_iff i b = (
  λ e. (unfold parse in first_arm_err arms i b e, λ s c. cc (e, (parse_iff i s).1 c)),
  back (parse i) refl,
)
  where
    back :
        (r : Result DataStatus ℕ)
        → parse i ≡ r
        → (b ≡ i) × ((s : DataStatus) → code s ≢ i)
        → parse i ≡ err b
    back (ok s) q (e, none_of) = absurd (none_of s ((parse_iff i s).0 q))
    back (err c) q (e, none_of) = q ∙ ap err (first c q ∙ sym e)
      where
        first : (c : ℕ) → parse i ≡ err c → c ≡ i
        first c q = unfold parse in first_arm_err arms i c q
