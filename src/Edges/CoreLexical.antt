-- ===== src/Edges/CoreLexical.antt =====
-- edges/rs/core/lexical/edge.rs and edges/rs/core/semantic/error/edge.rs: the tokens of a
-- flowscript, their stream, and the errors that the parser reports.
use fractalide.Prelude.{String, Option, List}

pub data CoreLexicalToken : Type 0 where
  bind external comment : CoreLexicalToken
  comp : String → Option String → CoreLexicalToken
  port : String → Option String → CoreLexicalToken
  imsg : String → CoreLexicalToken
  break : CoreLexicalToken

pub data CoreLexical : Type 0 where
  start : String → CoreLexical
  end : String → CoreLexical
  not_found : String → CoreLexical
  token : CoreLexicalToken → CoreLexical

pub record CoreSemanticError : Type 0 where
  pub path : String
  pub parsing : List String
