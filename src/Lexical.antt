-- ===== src/Lexical.antt =====
-- nodes/fvm/rs/parser/lexical/lib.rs: the lines of a flowscript are cut into tokens.
pub mod Combinators
pub mod Progress
pub mod Words
pub mod Literals
pub mod Stream
pub mod Lines
pub mod Scripts
mod Plain
mod Tests
use fractalide.Prelude.{
  ℕ, zero, suc, String, Option, none, some, List, [], ◌∷◌, ◌++◌, map, length, as_bytes, from_utf8,
}
use fractalide.Result.{Run, ok, err, panic, blocked, misc}
use fractalide.Edges.CoreLexical.{CoreLexical, CoreLexicalToken}
use fractalide.Edges.FsFile.{FsFileDesc}
use Combinators.{Nom, Parser, Bytes, IResult, done, error, incomplete}

abbrev pub push : CoreLexicalToken → Option (List CoreLexicalToken) → Option (List CoreLexicalToken)
push lit none = none
push lit (some ts) = some (lit ∷ ts)

-- `match literal(text)`: go on behind the literal, or leave the loop.
abbrev pub on_literal :
    IResult CoreLexicalToken
    → (Bytes → Option (List CoreLexicalToken))
    → Option (List CoreLexicalToken)
on_literal (done rest lit) next = push lit (next rest)
on_literal error next = some []
on_literal incomplete next = some []

-- The tokens of a line, a `Break`, and what comes after it.
abbrev pub line_sent :
    Option (List CoreLexicalToken)
    → List CoreLexical × Run (List FsFileDesc)
    → List CoreLexical × Run (List FsFileDesc)
line_sent none (sent, r) = ([], blocked)
line_sent (some ts) (sent, r) =
    (map CoreLexical.token ts ++ CoreLexical.token CoreLexicalToken.break ∷ sent, r)

module _ (n : Nom) where
  open n use {
    multispace, tag, is_not, take_until, take_until1, many0, opt, complete, alt, ws, map_res, chain,
    value,
  }

  infixl 5 ◌>>=◌ ◌>>◌
  abbrev ◌>>=◌ : {A B : Type 0} → Parser A → (A → Parser B) → Parser B
  p >>= f = chain p f

  abbrev ◌>>◌ : {A B : Type 0} → Parser A → Parser B → Parser B
  p >> q = chain p (λ _. q)

  pub comment : Parser CoreLexicalToken
  comment = do
    many0 multispace
    tag (as_bytes "//")
    is_not (as_bytes "\n")
    value CoreLexicalToken.comment

  pub bind : Parser CoreLexicalToken
  bind = do ws (tag (as_bytes "->")); value CoreLexicalToken.bind

  pub external : Parser CoreLexicalToken
  external = do ws (tag (as_bytes "=>")); value CoreLexicalToken.external

  pub imsg : Parser CoreLexicalToken
  imsg = do
    many0 multispace
    tag (as_bytes "'")
    imsg ← map_res (take_until (as_bytes "'")) from_utf8
    tag (as_bytes "'")
    many0 multispace
    value (CoreLexicalToken.imsg imsg)

  pub name : Parser String
  name = map_res (is_not (as_bytes " [(")) from_utf8

  pub selection : Parser String
  selection = do
    many0 multispace
    tag (as_bytes "[")
    selection ← map_res (take_until (as_bytes "]")) from_utf8
    tag (as_bytes "]")
    many0 multispace
    value selection

  -- `FromStr` of a text is the text.
  pub comp : Parser CoreLexicalToken
  unfolding name
  comp = do
    many0 multispace
    name ← name
    tag (as_bytes "(")
    many0 multispace
    sort ← opt (complete (map_res (map_res (take_until1 (as_bytes ")")) from_utf8) some))
    tag (as_bytes ")")
    value (CoreLexicalToken.comp name sort)

  pub port : Parser CoreLexicalToken
  unfolding name selection
  port = do
    many0 multispace
    name ← name
    selection ← opt (complete selection)
    many0 multispace
    value (CoreLexicalToken.port name selection)

  pub comp_or_port : Parser CoreLexicalToken
  unfolding comp port
  comp_or_port = alt (complete comp) port

  pub literal : Parser CoreLexicalToken
  unfolding comment imsg bind external comp_or_port
  literal = alt comment (alt imsg (alt bind (alt external comp_or_port)))

  -- The loop over a line: the tokens until a literal is not done. It runs out of fuel, `none`, where the
  -- literals do not come to an end.
  pub line_loop : ℕ → Bytes → Option (List CoreLexicalToken)
  line_loop zero line = none
  line_loop (suc fuel) line = on_literal (literal line) (λ rest. line_loop fuel rest)

  -- The tokens of a line. Each takes a byte at least: one more than the bytes is fuel enough.
  pub line_tokens : String → Option (List CoreLexicalToken)
  unfolding line_loop
  line_tokens line = line_loop (suc (length (as_bytes line))) (as_bytes line)

  -- What is sent, and what the loop comes to; the results of the sends are not looked at. A line without an
  -- end would not return.
  pub stream_loop : List FsFileDesc → List CoreLexical × Run (List FsFileDesc)
  unfolding line_tokens
  stream_loop [] = ([], blocked)
  stream_loop (FsFileDesc.text line ∷ rest) = line_sent (line_tokens line) (stream_loop rest)
  stream_loop (FsFileDesc.end path ∷ rest) = (CoreLexical.end path ∷ [], ok rest)
  stream_loop (FsFileDesc.start path ∷ rest) = ([], err (misc "Bad stream"))

  -- The agent's `run`, with what is left in its channel.
  pub run : List FsFileDesc → List CoreLexical × Run (List FsFileDesc)
  unfolding stream_loop
  run [] = ([], blocked)
  run (FsFileDesc.start path ∷ rest) =
      let (sent, r) = stream_loop rest in (CoreLexical.start path ∷ sent, r)
  run (_ ∷ rest) = ([], err (misc "bad stream"))
