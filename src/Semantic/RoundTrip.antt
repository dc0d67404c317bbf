-- ===== src/Semantic/RoundTrip.antt =====
-- Whatever flowscript is written as tokens, the parser reads the graph that it means.
use mathlib.Core.List.{append-nil, append_assoc}
use fractalide.Prelude.{ℕ, ◌+◌, String, ◌≡◌, refl, ◌∙◌, List, [], ◌∷◌}
use fractalide.Result.{ok}
use fractalide.Edges.CoreGraph
use fractalide.Edges.CoreGraph.{CoreGraph}
use fractalide.Edges.CoreLexical.{CoreLexical, start, end}
use fractalide.Semantic.{State, stream_loop, output, run}
use fractalide.Semantic.Grammar.{Line, blank, statement, print_line, print, add_lines}
use fractalide.Semantic.Lines.{
  in_state, stream_loop-head, stream_loop-links, stream_loop-tail, stream_loop-blank, head_line,
  link_lines,
}

abbrev count_line : Line → ℕ → ℕ
count_line blank n = n + 1
count_line (statement h ls t) n = link_lines ls (head_line h n) + 1

abbrev count_lines : List Line → ℕ → ℕ
count_lines [] n = n
count_lines (l ∷ ls) n = count_lines ls (count_line l n)

stream_loop-print :
    (ls : List Line) (g : CoreGraph) (n : ℕ) (k : List CoreLexical)
    → stream_loop (in_state State.break [] g n) (print ls k)
      ≡ stream_loop (in_state State.break [] (add_lines g ls) (count_lines ls n)) k
unfolding print print_line
stream_loop-print [] g n k = simp append-nil
stream_loop-print (blank ∷ ls) g n k =
    stream_loop-blank g n (print ls k) ∙ stream_loop-print ls g (n + 1) k
stream_loop-print (statement h links t ∷ ls) g n k =
    simp (stream_loop-head, stream_loop-links, stream_loop-tail, stream_loop-print ls, append_assoc)

-- The parser reads back every flowscript, any number of statements and of blank and broken lines:
-- it sends the graph that has the flowscript's nodes, edges, messages and outside ports in the
-- order in which they are written, reports no error, and leaves what follows in the channel.
pub run-print :
    (path : String) (ls : List Line) (close : String) (rest : List CoreLexical)
    → run (start path ∷ print ls (end close ∷ rest))
      ≡ ok (output (record (add_lines CoreGraph.new ls) { path = path }), rest)
unfolding run
run-print path ls close rest = rw stream_loop-print (unfold stream_loop in refl)
