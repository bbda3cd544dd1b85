-- ===== src/Errors/Tests.antt =====
-- Errors on the wire with a JSON that knows one error.
use pyroduct.Base.{none, some, [], ◌∷◌, ◌≡◌}
use pyroduct.Base.Outcome.{err}
use pyroduct.Captured.{CapturedError}
use pyroduct.Errors.{local, validation, pyro, Env, encode, parse_as_error}
use pyroduct.Errors.Wire.{received, parse_as_error-encode}

abbrev failed : CapturedError
failed = record {
  message = "no space";
  file = "disk.rs";
  line = 7;
  column = 3;
  error = none;
  stack_trace = none;
  library = none;
}

abbrev env : Env
env = record {
  to_vec = λ c. 123 ∷ [];
  from_slice = λ bytes. some failed;
  from_utf8_lossy = λ bytes. "?";
  display = λ e. "header";
  app_identity = none;
  caller = record { file = "main.rs"; line = 1; column = 1 };
}

parse_as_error-encode_example :
    parse_as_error env (encode env (pyro local (validation failed)))
    ≡ err (received env (pyro local (validation failed)))
parse_as_error-encode_example =
    parse_as_error-encode env (pyro local (validation failed)) (λ c e. e)
