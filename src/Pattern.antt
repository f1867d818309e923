-- ===== src/Pattern.antt =====
-- The crate `regex`, as what the code calls of it: `Regex::new`, `is_match`, `escape` and
-- `captures`, the groups of the first match. A pattern that does not compile is `none`.
use miwidothttp.Prelude.{Bool, Option, List, String}

pub record RegexLibrary (Regex : Type 0) : Type 0 where
  pub compile : String → Option Regex
  pub is_match : Regex → String → Bool
  pub escape : String → String
  pub captures : Regex → String → Option (List (Option String))
