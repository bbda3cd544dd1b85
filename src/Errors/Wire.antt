-- ===== src/Errors/Wire.antt =====
-- What the receiver of an error reads: lib/pyroduct/src/error/encoding.rs against `parse_as_error`.
use pyroduct.Base.{
  ℕ, ◌+◌, Option, some, List, [], Bool, true, false, ◌||◌, ◌==◌, ◌≡◌, ◌≢◌, refl, ap,
}
use pyroduct.Base.Outcome.{Result, ok, err}
use pyroduct.Captured.{CapturedError}
use pyroduct.Header.Status.{
  DataStatus, code, parse, is_ok, is_pyro_err, empty, rkyv_error, json_error,
}
use pyroduct.Errors.{
  remote, kind_not_found, kind_not_permitted, serialization, deserialization, validation, transport,
  io, utf8, invalid_header, layout_error, unexpected_eof, ErrorStatus, status_not_found, PyroError,
  incorrect_parse, header_ffi, code_panic, pyro, bad_header, not_found, not_permitted, to_status,
  to_local, to_remote, Env, Packet, encode, extract_captured_error, error_of, parse_as_error,
  carried, captured_or_text, captured_new, with_location, encode_captured,
}

-- The two codes of an error status are fifty apart, and both are the transport's, neither the user's.
pub to_remote-to_local :
    (s : ErrorStatus)
    → (code (to_remote s) ≡ code (to_local s) + 50)
      × (is_pyro_err (to_local s) ≡ true)
      × (is_pyro_err (to_remote s) ≡ true)
unfolding to_remote to_local code is_pyro_err
to_remote-to_local status_not_found = (refl, refl, refl)
to_remote-to_local _ = (refl, refl, refl)

-- What the receiver reads of an error that was sent.
abbrev pub received : Env → PyroError → PyroError
received env (code_panic c) = code_panic c
received env (header_ffi c) = header_ffi c
received env (pyro o (validation c)) = pyro remote (serialization c)
received env (pyro o unexpected_eof) = pyro remote invalid_header
received env (pyro o (kind_not_found msg)) = pyro remote (kind_not_found "not found")
received env (pyro o (kind_not_permitted msg)) =
    not_permitted (extract_captured_error env []).message
received env (pyro o k) = pyro remote k
received env (bad_header e) = pyro remote invalid_header
received env (not_found msg) = pyro remote (kind_not_found "not found")
received env (not_permitted msg) = not_permitted msg
received env (incorrect_parse s) = code_panic (
    with_location env
      (captured_new env
        "Encoding a PyroError that is an unhandled user deserialization error, not a pyro error")
      env.caller)

-- The record that stands in the payload of an error that is sent.
abbrev pub sent : Env → PyroError → Option CapturedError
sent env (code_panic c) = some c
sent env (header_ffi c) = some c
sent env (pyro o k) = carried k
sent env (bad_header e) = some (with_location env (captured_new env (env.display e)) env.caller)
sent env (not_found msg) = some (with_location env (captured_new env msg) env.caller)
sent env (not_permitted msg) = some (with_location env (captured_new env msg) env.caller)
sent env (incorrect_parse s) = some (
    with_location env
      (captured_new env
        "Encoding a PyroError that is an unhandled user deserialization error, not a pyro error")
      env.caller)

extract :
    (env : Env) (c : CapturedError)
    → env.from_slice (env.to_vec c) ≡ some c
    → extract_captured_error env (env.to_vec c) ≡ c
unfolding extract_captured_error captured_or_text
extract env c h = ap (λ r. captured_or_text env r (env.to_vec c)) h

abbrev failed_with : PyroError → Result (Unit {0}) PyroError
failed_with e = err e

read_as :
    (env : Env) (c : CapturedError) (f : CapturedError → PyroError)
    → env.from_slice (env.to_vec c) ≡ some c
    → failed_with (f (extract_captured_error env (env.to_vec c))) ≡ failed_with (f c)
read_as env c f h = ap (λ x. failed_with (f x)) (extract env c h)

-- Where JSON reads back the record that was written, every error that is sent is read as an error: as itself, from the
-- remote side, unless it is one of those that `received` lists.
pub parse_as_error-encode :
    (env : Env) (e : PyroError)
    → ((c : CapturedError) → sent env e ≡ some c → env.from_slice (env.to_vec c) ≡ some c)
    → parse_as_error env (encode env e) ≡ err (received env e)
unfolding parse_as_error encode parse code to_status to_remote encode_captured error_of
    extract_captured_error captured_new with_location
parse_as_error-encode env (code_panic c) json = read_as env c (λ x. code_panic x) (json c refl)
parse_as_error-encode env (header_ffi c) json = read_as env c (λ x. header_ffi x) (json c refl)
parse_as_error-encode env (incorrect_parse s) json = read_as env _ (λ x. code_panic x) (json _ refl)
parse_as_error-encode env (bad_header e) json = refl
parse_as_error-encode env (not_found msg) json = refl
parse_as_error-encode env (not_permitted msg) json =
    read_as env _ (λ x. not_permitted x.message) (json _ refl)
parse_as_error-encode env (pyro o (serialization c)) json =
    read_as env c (λ x. pyro remote (serialization x)) (json c refl)
parse_as_error-encode env (pyro o (deserialization c)) json =
    read_as env c (λ x. pyro remote (deserialization x)) (json c refl)
parse_as_error-encode env (pyro o (validation c)) json =
    read_as env c (λ x. pyro remote (serialization x)) (json c refl)
parse_as_error-encode env (pyro o (transport c)) json =
    read_as env c (λ x. pyro remote (transport x)) (json c refl)
parse_as_error-encode env (pyro o (io c)) json =
    read_as env c (λ x. pyro remote (io x)) (json c refl)
parse_as_error-encode env (pyro o (utf8 c)) json =
    read_as env c (λ x. pyro remote (utf8 x)) (json c refl)
parse_as_error-encode env (pyro o invalid_header) json = refl
parse_as_error-encode env (pyro o layout_error) json = refl
parse_as_error-encode env (pyro o unexpected_eof) json = refl
parse_as_error-encode env (pyro o (kind_not_found msg)) json = refl
parse_as_error-encode env (pyro o (kind_not_permitted msg)) json = refl

-- Where JSON reads back the record that was written, no error that is sent is taken for a result.
pub encode-IsError :
    (env : Env) (e : PyroError)
    → ((c : CapturedError) → sent env e ≡ some c → env.from_slice (env.to_vec c) ≡ some c)
    → parse_as_error env (encode env e) ≢ ok tt
encode-IsError env e json is_fine = cc (parse_as_error-encode env e json)

abbrev pub is_fine : Result (Unit {0}) PyroError → Bool
is_fine (ok _) = true
is_fine (err _) = false

-- The statuses that `parse_as_error` lets pass.
abbrev pub passes : Result DataStatus ℕ → Bool
passes (err _) = true
passes (ok s) = is_ok s || (code s == code rkyv_error) || (code s == code json_error)

error_of-passes :
    (env : Env) (r : Result DataStatus ℕ) (payload : List ℕ)
    → is_fine (error_of env r payload) ≡ passes r
unfolding error_of code is_ok
error_of-passes env (err b) payload = refl
error_of-passes env (ok empty) payload = refl
error_of-passes env (ok _) payload = refl

-- What is taken for a result: the statuses of success, a user's own error in rkyv or JSON, and any byte
-- that is no status at all.
pub parse_as_error-passes :
    (env : Env) (p : Packet) → is_fine (parse_as_error env p) ≡ passes (parse p.status_byte)
unfolding parse_as_error
parse_as_error-passes env p = error_of-passes env (parse p.status_byte) p.payload
