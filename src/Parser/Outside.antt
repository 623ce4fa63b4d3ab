-- ===== src/Parser/Outside.antt =====
-- What pkg/parser takes from other packages: the KDL library, `time.ParseDuration`,
-- CEL, and the path functions, which depend on the operating system.
use cicada.Base.{String, ℤ, Bool, List, Option}

pub record Outside : Type 1 where
  -- A KDL node and its parts; the kinds of a value.
  pub Node : Type 0
  pub Value : Type 0
  pub name : Node → String
  pub arguments : Node → List Value
  pub properties : Node → List (String × Value)
  pub children : Node → List Node
  pub string_of : Value → Option String
  pub int_of : Value → Option ℤ
  pub bool_of : Value → Option Bool
  -- The content of a file, as the document that it holds.
  pub Content : Type 0
  pub parse_kdl : Content → Option (List Node)
  pub parse_duration : String → Option ℤ
  -- Whether an expression uses `output()`, if it is a valid test.
  pub check_expr : String → Option Bool
  pub dir : String → String
  pub base : String → String
