-- ===== src/Semantic.antt =====
-- nodes/fvm/rs/parser/semantic/lib.rs: the parser that turns the tokens of a flowscript into a graph.
-- The agent reads its input channel as a list of messages; a read past its end waits.
pub mod Grammar
mod Lines
pub mod RoundTrip
pub mod Safety
mod Tests
use fractalide.Prelude.{
  ℕ, ◌+◌, String, Option, none, some, List, [], ◌∷◌, ◌++◌, ◌==◌, string_eq, if◌then◌else◌, is_empty,
  format, decimal,
}
use fractalide.Result.{Run, ok, err, panic, blocked, misc, ◌>>=◌}
use fractalide.Edges.CoreGraph
use fractalide.Edges.CoreGraph.{
  CoreGraph, CoreGraphNode, CoreGraphEdge, CoreGraphIMsg, CoreGraphExtIn, CoreGraphExtOut,
}
use fractalide.Edges.CoreLexical.{CoreLexical, CoreLexicalToken, CoreSemanticError}

pub data State : Type 0 where
  break compo port imsg : State
  comp_port comp_port_bind comp_port_bind_port : State
  comp_port_external comp_port_external_port : State
  port_external port_external_port : State
  imsg_bind imsg_bind_port : State
  error_s : State

pub get_expected : State → Run String
get_expected break = ok "[Component, Port, IMSG, NewLine]"
get_expected compo = ok "[Port, NewLine]"
get_expected port = ok "[Component, ->, =>]"
get_expected imsg = ok "[->]"
get_expected comp_port = ok "[->, =>]"
get_expected comp_port_bind = ok "[Port]"
get_expected comp_port_bind_port = ok "[Component]"
get_expected comp_port_external = ok "[Port]"
get_expected comp_port_external_port = ok "[NewLine]"
get_expected port_external = ok "[Port]"
get_expected port_external_port = ok "[Component]"
get_expected imsg_bind = ok "[Port]"
get_expected imsg_bind_port = ok "[Component]"
get_expected error_s = panic

-- The local variables of `handle_stream`. The head of `stack` is its top.
pub record Parser : Type 0 where
  pub state : State
  pub stack : List CoreLexicalToken
  pub graph : CoreGraph
  pub errors : List String
  pub line : ℕ

abbrev pub init : Parser
init = record { state = break; stack = []; graph = CoreGraph.new; errors = []; line = 1 }

-- An arm that pushes a message and goes to the error state.
report : Parser → String → Run Parser
report p found = do
  expected ← get_expected p.state
  let text = format (
      "line "
      ∷ decimal p.line
      ∷ " : Found "
      ∷ found
      ∷ ", when \""
      ∷ expected
      ∷ "\" was expected."
      ∷ [])
  ok (record p { errors = p.errors ++ text ∷ []; state = error_s })

abbrev goto : Parser → State → Run Parser
goto p s = ok (record p { state = s })

abbrev push : Parser → CoreLexicalToken → State → Run Parser
push p t s = ok (record p { stack = t ∷ p.stack; state = s })

-- `stack.pop().ok_or(Misc("stack problem"))`
pop : List CoreLexicalToken → Run (CoreLexicalToken × List CoreLexicalToken)
pop [] = err (misc "stack problem")
pop (t ∷ rest) = ok (t, rest)

-- `if let … else { unreachable!() }`
as_port : CoreLexicalToken → Run (String × Option String)
as_port (CoreLexicalToken.port n s) = ok (n, s)
as_port _ = panic

as_comp : CoreLexicalToken → Run (String × Option String)
as_comp (CoreLexicalToken.comp n s) = ok (n, s)
as_comp _ = panic

as_imsg : CoreLexicalToken → Run String
as_imsg (CoreLexicalToken.imsg m) = ok m
as_imsg _ = panic

on_bind : Parser → State → Run Parser
unfolding report get_expected
on_bind p comp_port = goto p comp_port_bind
on_bind p error_s = goto p error_s
on_bind p imsg = goto p imsg_bind
on_bind p _ = report p "a \"->\""

on_external : Parser → State → Run Parser
unfolding report get_expected
on_external p comp_port = goto p comp_port_external
on_external p port = goto p port_external
on_external p error_s = goto p error_s
on_external p _ = report p "a \"=>\""

-- The port that a subgraph offers outside: `out() p[s] => name`.
close_ext_out : Parser → String → Run Parser
unfolding pop as_port as_comp
close_ext_out p name = do
  (out_p, s1) ← pop p.stack
  (out_c, s2) ← pop s1
  (out_c_n, _) ← as_comp out_c
  (out_p_n, out_p_s) ← as_port out_p
  let ext : CoreGraphExtOut = record {
    port = name;
    out_port = out_p_n;
    out_elem = out_p_s;
    out_comp = out_c_n;
  }
  ok (record p {
    state = comp_port_external_port;
    stack = s2;
    graph = record (p.graph) { ext_out = p.graph.ext_out ++ ext ∷ [] };
  })

abbrev unwrap_or_empty : Option String → String
unwrap_or_empty none = ""
unwrap_or_empty (some s) = s

on_port : Parser → String → Option String → State → Run Parser
unfolding report get_expected close_ext_out
on_port p name elem compo = push p (CoreLexicalToken.port name elem) comp_port
on_port p name elem comp_port_bind = push p (CoreLexicalToken.port name elem) comp_port_bind_port
on_port p name elem comp_port_external = close_ext_out p name
on_port p name elem break = push p (CoreLexicalToken.port name elem) port
on_port p name elem port_external = push p (CoreLexicalToken.port name elem) port_external_port
on_port p name elem error_s = push p (CoreLexicalToken.port name elem) error_s
on_port p name elem imsg_bind = push p (CoreLexicalToken.port name elem) imsg_bind_port
on_port p name elem _ =
    report p (format ("port \"" ∷ name ∷ "[" ∷ unwrap_or_empty elem ∷ "]\"" ∷ []))

-- A node is instantiated where it is named with a type.
declare_node : CoreGraph → String → Option String → CoreGraph
declare_node g name none = g
declare_node g name (some s) =
    if s == "" then g else record g { nodes = g.nodes ++ record { name = name; sort = s } ∷ [] }

-- `out() p[s] -> p[s] name()`
close_edge : Parser → String → Option String → Run Parser
unfolding pop as_port as_comp
close_edge p name sort = do
  (in_p, s1) ← pop p.stack
  (out_p, s2) ← pop s1
  (out_c, s3) ← pop s2
  (in_p_n, in_p_s) ← as_port in_p
  (out_p_n, out_p_s) ← as_port out_p
  (out_c_n, _) ← as_comp out_c
  let edge : CoreGraphEdge = record {
    out_comp = out_c_n;
    out_port = out_p_n;
    out_elem = out_p_s;
    in_port = in_p_n;
    in_elem = in_p_s;
    in_comp = name;
  }
  ok (record p {
    state = compo;
    stack = CoreLexicalToken.comp name sort ∷ s3;
    graph = record (p.graph) { edges = p.graph.edges ++ edge ∷ [] };
  })

-- `port => p[s] name()`
close_ext_in : Parser → String → Option String → Run Parser
unfolding pop as_port
close_ext_in p name sort = do
  (in_p, s1) ← pop p.stack
  (out_p, s2) ← pop s1
  (in_p_n, in_p_s) ← as_port in_p
  (out_p_n, out_p_s) ← as_port out_p
  let ext : CoreGraphExtIn = record {
    port = out_p_n;
    in_port = in_p_n;
    in_elem = in_p_s;
    in_comp = name;
  }
  ok (record p {
    state = compo;
    stack = CoreLexicalToken.comp name sort ∷ s2;
    graph = record (p.graph) { ext_in = p.graph.ext_in ++ ext ∷ [] };
  })

-- `'msg' -> p[s] name()`
close_imsg : Parser → String → Option String → Run Parser
unfolding pop as_port as_imsg
close_imsg p name sort = do
  (in_p, s1) ← pop p.stack
  (imsg_t, s2) ← pop s1
  (in_p_n, in_p_s) ← as_port in_p
  text ← as_imsg imsg_t
  let message : CoreGraphIMsg = record { msg = text; port = in_p_n; elem = in_p_s; comp = name }
  ok (record p {
    state = compo;
    stack = CoreLexicalToken.comp name sort ∷ s2;
    graph = record (p.graph) { imsgs = p.graph.imsgs ++ message ∷ [] };
  })

comp_arm : Parser → String → Option String → State → Run Parser
unfolding report get_expected close_edge close_ext_in close_imsg
comp_arm p name sort comp_port_bind_port = close_edge p name sort
comp_arm p name sort port_external_port = close_ext_in p name sort
comp_arm p name sort imsg_bind_port = close_imsg p name sort
comp_arm p name sort break = push p (CoreLexicalToken.comp name sort) compo
comp_arm p name sort error_s = goto p compo
comp_arm p name sort _ =
    report p (format ("agent \"" ∷ name ∷ "(" ∷ unwrap_or_empty sort ∷ ")\"" ∷ []))

on_comp : Parser → String → Option String → Run Parser
unfolding comp_arm
on_comp p name sort =
    comp_arm (record p { graph = declare_node p.graph name sort }) name sort p.state

on_imsg : Parser → String → State → Run Parser
unfolding report get_expected
on_imsg p text error_s = push p (CoreLexicalToken.imsg text) imsg
on_imsg p text break = push p (CoreLexicalToken.imsg text) imsg
on_imsg p text _ = report p (format ("an IMSG \"" ∷ text ∷ "\"" ∷ []))

break_arm : Parser → State → Run Parser
unfolding report get_expected
break_arm p comp_port_bind = ok p
break_arm p imsg_bind = ok p
break_arm p compo = ok (record p { stack = []; state = break })
break_arm p comp_port_external_port = ok (record p { stack = []; state = break })
break_arm p break = goto p break
break_arm p error_s = goto p error_s
break_arm p _ = report p "a \"\n\" or (new line)"

on_break : Parser → Run Parser
unfolding break_arm
on_break p = break_arm (record p { line = p.line + 1 }) p.state

pub on_token : Parser → CoreLexicalToken → Run Parser
unfolding on_bind on_external on_port on_comp on_imsg on_break
on_token p CoreLexicalToken.bind = on_bind p p.state
on_token p CoreLexicalToken.external = on_external p p.state
on_token p (CoreLexicalToken.port name elem) = on_port p name elem p.state
on_token p (CoreLexicalToken.comp name sort) = on_comp p name sort
on_token p (CoreLexicalToken.imsg text) = on_imsg p text p.state
on_token p CoreLexicalToken.break = on_break p
on_token p CoreLexicalToken.comment = ok p

-- What `handle_stream` returns: the graph, or the errors if there are any.
pub data Parsed : Type 0 where
  graph : CoreGraph → Parsed
  errors : List String → Parsed

finish : Parser → Parsed
finish p = if is_empty p.errors then Parsed.graph p.graph else Parsed.errors p.errors

-- The loop, from given values of its variables. It returns what is left in the channel too.
pub stream_loop : Parser → List CoreLexical → Run (Parsed × List CoreLexical)
unfolding finish on_token
stream_loop p [] = blocked
stream_loop p (CoreLexical.end path ∷ rest) = ok (finish p, rest)
stream_loop p (CoreLexical.token t ∷ rest) = elim (on_token p t) [
  | ok q ↦ stream_loop q rest
  | err e ↦ err e
  | panic ↦ panic
  | blocked ↦ blocked
]
stream_loop p (CoreLexical.start path ∷ rest) = panic
stream_loop p (CoreLexical.not_found path ∷ rest) = panic

pub handle_stream : List CoreLexical → Run (Parsed × List CoreLexical)
unfolding stream_loop
handle_stream = stream_loop init

-- The message that an activation sends, on `output` or on `error`.
pub data Sent : Type 0 where
  output : CoreGraph → Sent
  error : CoreSemanticError → Sent

deliver : String → Parsed → Sent
deliver path (Parsed.graph g) = output (record g { path = path })
deliver path (Parsed.errors es) = error (record { path = path; parsing = es })

-- The agent's `run`.
pub run : List CoreLexical → Run (Sent × List CoreLexical)
unfolding handle_stream deliver
run [] = blocked
run (CoreLexical.start path ∷ rest) = do
  (parsed, left) ← handle_stream rest
  ok (deliver path parsed, left)
run (_ ∷ rest) = err (misc "bad stream")
