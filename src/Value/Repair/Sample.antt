-- ===== src/Value/Repair/Sample.antt =====
-- A standard library that parses no text and casts each float to 0, to test the code on.
use pyroduct.Base.{none}
use pyroduct.Base.Integers.{pos}
use pyroduct.Value.Repair.Scalars.{Std}

abbrev pub std : Std
std = record {
  parse_int = λ t s. none;
  parse_float = λ t s. none;
  to_lowercase = λ s. s;
  int_to_string = λ v. "?";
  float_to_string = λ t v. "?";
  float_as_int = λ s t v. pos 0;
  int_as_float = λ t v. 0;
  float_as_float = λ s t v. v;
}
