-- ===== src/Lexical/Scripts.antt =====
-- A flowscript from its text to its graph: the lexer and the semantic parser behind it.
use fractalide.Prelude.{◌≡◌, ◌∙◌, ap, String, List, [], ◌∷◌, map, as_bytes, All}
use fractalide.Result.{ok}
use fractalide.Edges.CoreGraph
use fractalide.Edges.CoreGraph.{CoreGraph}
use fractalide.Edges.CoreLexical.{CoreLexical, CoreLexicalToken}
use fractalide.Edges.FsFile.{FsFileDesc}
use fractalide.Semantic
use fractalide.Semantic.Grammar.{Line, print, add_lines}
use fractalide.Semantic.RoundTrip.{run-print}
use fractalide.Lexical.{run}
use fractalide.Lexical.Combinators.{Nom, IsNom, IsDone}
use fractalide.Lexical.Words.{IsWord}
use fractalide.Lexical.Lines.{written, text_is_read_back}
use fractalide.Lexical.Stream.{file, tokens}

-- The text of a flowscript becomes its graph: where the lines of a file are written of the tokens of a
-- flowscript, word by word as the lexer reads them back with parsers that keep the laws of nom, line
-- breaks and blank lines included, the semantic parser makes of what the lexer sends the graph with the
-- flowscript's nodes, edges, messages and outside ports, under the path of the file, and reports no error; the
-- lexer leaves what follows the file in its channel, and the parser nothing.
pub script_is_parsed :
    (n : Nom) (v : IsNom n) (d : IsDone n) (path close : String) (script : List Line)
    (lines : List String) (tss : List (List CoreLexicalToken)) (rest : List FsFileDesc)
    → All (All IsWord) tss
    → map as_bytes lines ≡ map written tss
    → tokens path tss close ≡ CoreLexical.start path ∷ print script (CoreLexical.end close ∷ [])
    → (sent : List CoreLexical) × (run n (file path lines close rest) ≡ (sent, ok rest))
      × (Semantic.run sent
          ≡ ok (Semantic.output (record (add_lines CoreGraph.new script) { path = path }), []))
script_is_parsed n v d path close script lines tss rest h e same = (
  tokens path tss close,
  text_is_read_back n v d path close lines tss rest h e,
  ap Semantic.run same ∙ run-print path script close [],
)
