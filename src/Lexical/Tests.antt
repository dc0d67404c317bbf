-- ===== src/Lexical/Tests.antt =====
-- The lexer on lines of a flowscript.
use fractalide.Prelude.{
  ◌≡◌, refl, String, none, some, List, [], ◌∷◌, nat_eq, as_bytes, from_utf8, map, All, arith,
}
use fractalide.Result.{ok}
use fractalide.Edges.CoreGraph
use fractalide.Edges.CoreGraph.{CoreGraph}
use fractalide.Edges.CoreLexical.{CoreLexical, CoreLexicalToken}
use fractalide.Lexical.{literal, line_tokens, run}
use fractalide.Lexical.Plain.{plain}
use fractalide.Lexical.Plain.Laws.{plain-IsNom}
use fractalide.Lexical.Plain.Takes.{plain-IsDone}
use fractalide.Lexical.Progress.{line_ends}
use fractalide.Lexical.Words.{IsWord}
use fractalide.Lexical.Lines.{written, text_is_read_back}
use fractalide.Lexical.Scripts.{script_is_parsed}
use fractalide.Lexical.Stream.{file, tokens}
use fractalide.Semantic
use fractalide.Semantic.Grammar.{
  Line, blank, statement, node, ext_in, imsg, stop, ext_out, print, print_line, print_head,
  print_links, print_tail, breaks, add_lines,
}

abbrev line : String
line = "open(${fs}) output -> input[2] lex() // read"

line_cut :
    line_tokens plain line
    ≡ some (
        CoreLexicalToken.comp "open" (some "${fs}")
        ∷ CoreLexicalToken.port "output" none
        ∷ CoreLexicalToken.bind
        ∷ CoreLexicalToken.port "input" (some "2")
        ∷ CoreLexicalToken.comp "lex" none
        ∷ CoreLexicalToken.comment
        ∷ [])
unfolding plain line_tokens literal as_bytes from_utf8
line_cut = refl

line_ends_example : (ts : List CoreLexicalToken) × (line_tokens plain line ≡ some ts)
line_ends_example = line_ends plain plain-IsNom line

abbrev lines : List String
lines =
    "input => input clone(msg_clone) " ∷ "" ∷ "clone() clone[1] -> "
    ∷ "a nand(maths_boolean_nand) output => output " ∷ "'true' -> b nand() " ∷ []

abbrev input : CoreLexicalToken
input = CoreLexicalToken.port "input" none

abbrev output : CoreLexicalToken
output = CoreLexicalToken.port "output" none

abbrev words : List (List CoreLexicalToken)
words =
    (input
      ∷ CoreLexicalToken.external
      ∷ input
      ∷ CoreLexicalToken.comp "clone" (some "msg_clone")
      ∷ [])
    ∷ []
    ∷ (CoreLexicalToken.comp "clone" none
        ∷ CoreLexicalToken.port "clone" (some "1")
        ∷ CoreLexicalToken.bind
        ∷ [])
    ∷ (CoreLexicalToken.port "a" none
        ∷ CoreLexicalToken.comp "nand" (some "maths_boolean_nand")
        ∷ output
        ∷ CoreLexicalToken.external
        ∷ output
        ∷ [])
    ∷ (CoreLexicalToken.imsg "true"
        ∷ CoreLexicalToken.bind
        ∷ CoreLexicalToken.port "b" none
        ∷ CoreLexicalToken.comp "nand" none
        ∷ [])
    ∷ []

are_words : All (All IsWord) words
unfolding as_bytes from_utf8
are_words = ground arith

lines-written : map as_bytes lines ≡ map written words
unfolding as_bytes
lines-written = refl

text_is_read_back_example :
    run plain (file "/not" lines "/not" []) ≡ (tokens "/not" words "/not", ok [])
text_is_read_back_example =
    text_is_read_back plain plain-IsNom plain-IsDone "/not" "/not" lines words [] are_words
      lines-written

-- The flowscript of these lines.
abbrev not_script : List Line
not_script =
    statement
      (ext_in (record { name = "input"; elem = none }) (record { name = "input"; elem = none })
        (record { name = "clone"; sort = some "msg_clone" }))
      [] stop
    ∷ blank
    ∷ statement (node (record { name = "clone"; sort = none }))
        (record {
          out = record { name = "clone"; elem = some "1" };
          gap = 1;
          into = record { name = "a"; elem = none };
          to = record { name = "nand"; sort = some "maths_boolean_nand" };
        }
          ∷ [])
        (ext_out (record { name = "output"; elem = none })
          (record { name = "output"; elem = none }))
    ∷ statement
        (imsg "true" 0 (record { name = "b"; elem = none }) (record { name = "nand"; sort = none }))
        [] stop
    ∷ []

words-printed :
    tokens "/not" words "/not"
    ≡ CoreLexical.start "/not" ∷ print not_script (CoreLexical.end "/not" ∷ [])
unfolding print print_line print_head print_links print_tail breaks
words-printed = refl

script_is_parsed_example :
    (sent : List CoreLexical) × (run plain (file "/not" lines "/not" []) ≡ (sent, ok []))
    × (Semantic.run sent
        ≡ ok (Semantic.output (record (add_lines CoreGraph.new not_script) { path = "/not" }), []))
script_is_parsed_example =
    script_is_parsed plain plain-IsNom plain-IsDone "/not" "/not" not_script lines words []
      are_words lines-written words-printed
