-- ===== src/Header/Tests.antt =====
-- Runs of the header functions, and the theorems at concrete headers.
use pyroduct.Base.{◌%◌, ◌≤◌, ◌≡◌, ◌↔◌, refl, [], ◌∷◌, arith}
use pyroduct.Base.Outcome.{ok, err}
use pyroduct.Header.{
  Header, Slice, Memory, unit_bytes, set_len, set_client_id, set_wire_format, set_status_u8,
  set_class_id, set_fn_id, set_mux_id, header_len, check, check_raw, null_pointer,
}
use pyroduct.Header.Status.{json_valid, code, parse, parse_iff}
use pyroduct.Header.Fields.{Fields, view, write, writers_refine}
use pyroduct.Header.Check.{check_iff}

abbrev sample : Fields
sample = record {
  len = 70000;
  client = 9;
  wire = 1;
  status_byte = 4;
  class = 2;
  fn = 3;
  mux = 4000000000;
}

abbrev sample_header : Header
sample_header = 112 ∷ 17 ∷ 1 ∷ 0 ∷ 9 ∷ 0 ∷ 0 ∷ 0 ∷ 1 ∷ 4 ∷ 2 ∷ 3 ∷ 0 ∷ 40 ∷ 107 ∷ 238 ∷ []

write-sample : write unit_bytes sample ≡ sample_header
unfolding set_len set_client_id set_wire_format set_status_u8 set_class_id set_fn_id set_mux_id
write-sample = refl

writers_refine_example :
    (view (set_len unit_bytes 70000) ≡ record (view unit_bytes) { len = 70000 })
    × (view (set_client_id unit_bytes 9) ≡ record (view unit_bytes) { client = 9 })
    × (view (set_wire_format unit_bytes 1) ≡ record (view unit_bytes) { wire = 1 })
    × (view (set_status_u8 unit_bytes 4) ≡ record (view unit_bytes) { status_byte = 4 })
    × (view (set_class_id unit_bytes 2) ≡ record (view unit_bytes) { class = 2 })
    × (view (set_fn_id unit_bytes 3) ≡ record (view unit_bytes) { fn = 3 })
    × (view (set_mux_id unit_bytes 4000000000) ≡ record (view unit_bytes) { mux = 4000000000 })
writers_refine_example = writers_refine unit_bytes sample refl (omega arith)

parse_iff_example : (parse 4 ≡ ok json_valid) ↔ (code json_valid ≡ 4)
parse_iff_example = parse_iff 4 json_valid

abbrev sample_slice : Slice
sample_slice = record { addr = 32; bytes = sample_header }

check_iff_example :
    (check sample_slice ≡ ok tt) ↔ ((16 ≤ 16) × (32 % 16 ≡ 0) × (header_len sample_header ≤ 16))
check_iff_example = check_iff sample_slice

-- A header that announces 16 bytes, alone in its slice, passes: the length is not the payload's.
check_full : check (record { addr = 32; bytes = set_len unit_bytes 16 }) ≡ ok tt
unfolding check set_len
check_full = refl

abbrev ones : Memory
ones p = 1

check_raw_null : check_raw 0 ≡ err null_pointer
unfolding check_raw
check_raw_null = refl
