-- ===== src/Semantic/Tests.antt =====
-- The parser on concrete flowscripts.
use fractalide.Prelude.{◌≡◌, refl, ◌⊎◌, none, some, List, [], ◌∷◌, ◌++◌, map}
use fractalide.Result.{ok, panic}
use fractalide.Edges.CoreGraph
use fractalide.Edges.CoreGraph.{CoreGraph}
use fractalide.Edges.CoreLexical.{CoreLexicalToken, token, start, end}
use fractalide.Semantic.{Parser, State, init, Parsed, stream_loop, handle_stream, output, run}
use fractalide.Semantic.Grammar.{
  Line, blank, statement, node, imsg, ext_in, stop, ext_out, print, add_lines,
}
use fractalide.Semantic.RoundTrip.{run-print}
use fractalide.Semantic.Safety.{Reports, handle_stream_ends, port_before_comp, recovery_panics}

-- maths_boolean_not: a clone in front of a nand
abbrev not_script : List Line
not_script =
    statement
      (ext_in (record { name = "input"; elem = none }) (record { name = "input"; elem = none })
        (record { name = "clone"; sort = some "msg_clone" }))
      [] stop
    ∷ blank
    ∷ statement (node (record { name = "clone"; sort = none }))
        (record {
          out = record { name = "clone"; elem = some "1" };
          gap = 1;
          into = record { name = "a"; elem = none };
          to = record { name = "nand"; sort = some "maths_boolean_nand" };
        }
          ∷ [])
        (ext_out (record { name = "output"; elem = none })
          (record { name = "output"; elem = none }))
    ∷ statement
        (imsg "true" 0 (record { name = "b"; elem = none }) (record { name = "nand"; sort = none }))
        [] stop
    ∷ []

run-print_example :
    run (start "not" ∷ print not_script (end "not" ∷ []))
    ≡ ok (output (record (add_lines CoreGraph.new not_script) { path = "not" }), [])
run-print_example = run-print "not" not_script "not" []

-- `clone() clone[1] => x`, with a stray arrow in front
abbrev stray : List CoreLexicalToken
stray =
    CoreLexicalToken.bind
    ∷ CoreLexicalToken.comp "clone" none
    ∷ CoreLexicalToken.port "clone" none
    ∷ []

handle_stream_ends_example :
    ((parsed : Parsed) × (handle_stream (map token stray ++ end "not" ∷ []) ≡ ok (parsed, [])))
    ⊎ Reports init stray
handle_stream_ends_example = handle_stream_ends stray "not" []

abbrev failed : Parser
failed = record init { state = State.error_s; errors = "line 1 : Found a \"->\"" ∷ [] }

recovery_panics_example :
    stream_loop failed (port_before_comp "p" none "a" none "q" none "x" none (end "f" ∷ [])) ≡ panic
recovery_panics_example =
    recovery_panics failed "p" "a" "q" "x" none none none none (end "f" ∷ []) refl

-- The whole of it: `-> p a() q => x`.
stray_arrow_panics :
    run (
      start "f"
      ∷ token CoreLexicalToken.bind
      ∷ port_before_comp "p" none "a" none "q" none "x" none (end "f" ∷ []))
    ≡ panic
unfolding run
stray_arrow_panics = refl
