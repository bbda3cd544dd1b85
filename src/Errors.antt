-- ===== src/Errors.antt =====
-- lib/pyroduct/src/error.rs, error/encoding.rs, captured.rs and `parse_as_error` of format/header.rs: an
-- error as a value, on the wire, and as the receiver reads it.
-- Of a buffer, `Packet` keeps what these functions touch: the status byte and the payload. serde_json, the
-- UTF-8 repair and the process's identity are the parameter `Env`.
pub mod Wire
mod Tests
use pyroduct.Base.{ℕ, String, Option, none, some, List, [], ◌∷◌, Bool, true, false}
use pyroduct.Base.Outcome.{Result, ok, err}
use pyroduct.Captured.{LibraryInfo, CapturedError}
use pyroduct.Header.{ParseError}
use pyroduct.Header.Status.{
  DataStatus, code, parse, empty, code_error, rkyv_valid, rkyv_error, json_valid, json_error,
  interface_schema, pyro_ffi_fail, local_serialization, local_deserialization, local_validation,
  local_transport, local_io, local_utf8, local_invalid_header, local_layout_error,
  local_unexpected_eof, local_not_found, local_not_permitted, remote_serialization,
  remote_deserialization, remote_validation, remote_transport, remote_io, remote_utf8,
  remote_invalid_header, remote_layout_error, remote_unexpected_eof, remote_not_found,
  remote_not_permitted,
}

pub data ErrorOrigin : Type 0 where
  local remote : ErrorOrigin

pub data ErrorKind : Type 0 where
  kind_not_found kind_not_permitted : String → ErrorKind
  serialization deserialization validation transport io utf8 : CapturedError → ErrorKind
  invalid_header layout_error unexpected_eof : ErrorKind

pub data ErrorStatus : Type 0 where
  status_not_found status_serialization status_deserialization status_validation : ErrorStatus
  status_transport status_io status_utf8 status_invalid_header status_layout_error : ErrorStatus
  status_unexpected_eof status_not_permitted : ErrorStatus

pub data PyroError : Type 0 where
  incorrect_parse : DataStatus → PyroError
  header_ffi code_panic : CapturedError → PyroError
  pyro : ErrorOrigin → ErrorKind → PyroError
  bad_header : ParseError → PyroError
  not_found not_permitted : String → PyroError

unfoldable pub to_status : ErrorKind → ErrorStatus
to_status (kind_not_found _) = status_not_found
to_status (serialization _) = status_serialization
to_status (deserialization _) = status_deserialization
to_status (validation _) = status_validation
to_status (transport _) = status_transport
to_status (io _) = status_io
to_status (utf8 _) = status_utf8
to_status invalid_header = status_invalid_header
to_status layout_error = status_layout_error
to_status unexpected_eof = status_unexpected_eof
to_status (kind_not_permitted _) = status_not_permitted

unfoldable pub to_local : ErrorStatus → DataStatus
to_local status_not_found = local_not_found
to_local status_serialization = local_serialization
to_local status_deserialization = local_deserialization
to_local status_validation = local_validation
to_local status_transport = local_transport
to_local status_io = local_io
to_local status_utf8 = local_utf8
to_local status_invalid_header = local_invalid_header
to_local status_layout_error = local_layout_error
to_local status_unexpected_eof = local_unexpected_eof
to_local status_not_permitted = local_not_permitted

unfoldable pub to_remote : ErrorStatus → DataStatus
to_remote status_not_found = remote_not_found
to_remote status_serialization = remote_serialization
to_remote status_deserialization = remote_deserialization
to_remote status_validation = remote_validation
to_remote status_transport = remote_transport
to_remote status_io = remote_io
to_remote status_utf8 = remote_utf8
to_remote status_invalid_header = remote_invalid_header
to_remote status_layout_error = remote_layout_error
to_remote status_unexpected_eof = remote_unexpected_eof
to_remote status_not_permitted = remote_not_permitted

unfoldable pub is_local : PyroError → Bool
is_local (pyro local _) = true
is_local _ = false

unfoldable pub is_remote : PyroError → Bool
is_remote (pyro remote _) = true
is_remote _ = false

unfoldable pub kind : PyroError → Option ErrorKind
kind (pyro _ k) = some k
kind _ = none

pub record Location : Type 0 where
  pub file : String
  pub line : ℕ
  pub column : ℕ

-- `serde_json` at `CapturedErrorInner`, `String::from_utf8_lossy`, `ParseError`'s `Display`, the identity
-- that the binary registered, and the caller's location.
pub record Env : Type 0 where
  pub to_vec : CapturedError → List ℕ
  pub from_slice : List ℕ → Option CapturedError
  pub from_utf8_lossy : List ℕ → String
  pub display : ParseError → String
  pub app_identity : Option LibraryInfo
  pub caller : Location

pub record Packet : Type 0 where
  pub status_byte : ℕ
  pub payload : List ℕ

abbrev set_status : Packet → DataStatus → Packet
set_status p s = record p { status_byte = code s }

-- `PyroVec::ok`.
abbrev ok_packet : Packet
ok_packet = record { status_byte = 0; payload = [] }

-- The payload that an `ErrorKind` carries.
abbrev pub carried : ErrorKind → Option CapturedError
carried (serialization c) = some c
carried (deserialization c) = some c
carried (validation c) = some c
carried (transport c) = some c
carried (io c) = some c
carried (utf8 c) = some c
carried _ = none

module _ (env : Env) where
  -- `CapturedError::new`.
  unfoldable pub captured_new : String → CapturedError
  captured_new message = record {
    message = message;
    file = "unknown";
    line = 0;
    column = 0;
    error = none;
    stack_trace = none;
    library = env.app_identity;
  }

  unfoldable pub with_location : CapturedError → Location → CapturedError
  with_location c location = record c {
    file = location.file;
    line = location.line;
    column = location.column;
  }

  -- `CapturedError::encode`.
  unfoldable pub encode_captured : CapturedError → Packet
  encode_captured c = set_status (record { status_byte = 0; payload = env.to_vec c }) code_error

  abbrev encode_option : Option CapturedError → Packet
  encode_option none = ok_packet
  encode_option (some c) = encode_captured c

  abbrev encode_message : String → Packet
  encode_message msg = encode_captured (with_location (captured_new msg) env.caller)

  -- `PyroError::encode`.
  unfoldable pub encode : PyroError → Packet
  unfolding to_status to_remote captured_new with_location encode_captured
  encode (incorrect_parse _) =
      set_status
        (encode_message
          "Encoding a PyroError that is an unhandled user deserialization error, not a pyro error")
        code_error
  encode (code_panic c) = set_status (encode_captured c) code_error
  encode (not_found msg) = set_status (encode_message msg) remote_not_found
  encode (bad_header e) = set_status (encode_message (env.display e)) remote_invalid_header
  encode (pyro _ k) = set_status (encode_option (carried k)) (to_remote (to_status k))
  encode (header_ffi c) = set_status (encode_captured c) pyro_ffi_fail
  encode (not_permitted msg) = set_status (encode_message msg) remote_not_permitted

  unfoldable pub captured_or_text : Option CapturedError → List ℕ → CapturedError
  captured_or_text (some captured) payload = captured
  captured_or_text none payload = record {
    message = env.from_utf8_lossy payload;
    file = "unknown";
    line = 0;
    column = 0;
    error = some "Failed to deserialize error details";
    stack_trace = none;
    library = none;
  }

  -- The payload as JSON, or an error around its text.
  unfoldable pub extract_captured_error : List ℕ → CapturedError
  unfolding captured_or_text
  extract_captured_error payload = captured_or_text (env.from_slice payload) payload

  -- The arms of `parse_as_error`; `payload` is what `extract_captured_error` reads.
  unfoldable pub error_of : Result DataStatus ℕ → List ℕ → Result (Unit {0}) PyroError
  unfolding extract_captured_error
  error_of (err _) payload = ok tt
  error_of (ok empty) payload = ok tt
  error_of (ok rkyv_valid) payload = ok tt
  error_of (ok rkyv_error) payload = ok tt
  error_of (ok json_valid) payload = ok tt
  error_of (ok json_error) payload = ok tt
  error_of (ok interface_schema) payload = ok tt
  error_of (ok code_error) payload = err (code_panic (extract_captured_error payload))
  error_of (ok remote_serialization) payload =
      err (pyro remote (serialization (extract_captured_error payload)))
  error_of (ok remote_validation) payload =
      err (pyro remote (serialization (extract_captured_error payload)))
  error_of (ok remote_deserialization) payload =
      err (pyro remote (deserialization (extract_captured_error payload)))
  error_of (ok remote_transport) payload =
      err (pyro remote (transport (extract_captured_error payload)))
  error_of (ok remote_io) payload = err (pyro remote (io (extract_captured_error payload)))
  error_of (ok remote_utf8) payload = err (pyro remote (utf8 (extract_captured_error payload)))
  error_of (ok remote_unexpected_eof) payload = err (pyro remote invalid_header)
  error_of (ok remote_invalid_header) payload = err (pyro remote invalid_header)
  error_of (ok remote_layout_error) payload = err (pyro remote layout_error)
  error_of (ok pyro_ffi_fail) payload = err (header_ffi (extract_captured_error payload))
  error_of (ok local_serialization) payload =
      err (pyro local (serialization (extract_captured_error payload)))
  error_of (ok local_validation) payload =
      err (pyro local (serialization (extract_captured_error payload)))
  error_of (ok local_deserialization) payload =
      err (pyro local (deserialization (extract_captured_error payload)))
  error_of (ok local_transport) payload =
      err (pyro local (transport (extract_captured_error payload)))
  error_of (ok local_io) payload = err (pyro local (transport (extract_captured_error payload)))
  error_of (ok local_utf8) payload = err (pyro local (transport (extract_captured_error payload)))
  error_of (ok local_invalid_header) payload = err (pyro local invalid_header)
  error_of (ok local_layout_error) payload = err (pyro local layout_error)
  error_of (ok local_unexpected_eof) payload = err (pyro local unexpected_eof)
  error_of (ok local_not_found) payload = err (pyro local (kind_not_found "not found"))
  error_of (ok remote_not_found) payload = err (pyro remote (kind_not_found "not found"))
  error_of (ok local_not_permitted) payload =
      err (not_permitted (extract_captured_error payload).message)
  error_of (ok remote_not_permitted) payload =
      err (not_permitted (extract_captured_error payload).message)

  unfoldable pub parse_as_error : Packet → Result (Unit {0}) PyroError
  unfolding error_of
  parse_as_error p = error_of (parse p.status_byte) p.payload
