-- ===== src/Captured.antt =====
-- lib/pyroduct/src/captured.rs: what an error carries across a boundary.
use pyroduct.Base.{ℕ, String, Option}

pub record LibraryInfo : Type 0 where
  pub meta : String
  pub name : String
  pub version : String

pub record CapturedError : Type 0 where
  pub message : String
  pub file : String
  pub line : ℕ
  pub column : ℕ
  pub error : Option String
  pub stack_trace : Option String
  pub library : Option LibraryInfo
