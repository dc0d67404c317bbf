-- ===== src/Vm.antt =====
-- nodes/fvm/rs/vm/lib.rs: the graphs of a program are put together to one flat graph. The other nodes
-- that it asks, and the file system, are the record `Answers`.
pub mod Ends
pub mod Trees
mod Wiring
pub mod Flatten
pub mod Routes
pub mod Arrivals
pub mod Strays
mod Tests
mod Samples
use fractalide.Prelude.{
  ℕ, zero, suc, String, Bool, true, false, Option, none, some, List, [], ◌∷◌, ◌++◌, ◌==◌, ◌&&◌,
  string_eq, is_empty, format, trim, if◌then◌else◌,
}
use fractalide.Scheduler.Messages.{Signal}
use fractalide.Result.{◌>>=◌, ◌>>◌, Run, ok, err, panic, blocked}
use fractalide.Edges.CoreGraph
use fractalide.Edges.CoreGraph.{
  CoreGraph, CoreGraphNode, CoreGraphEdge, CoreGraphIMsg, CoreGraphExtIn, CoreGraphExtOut,
}

-- What comes of asking for the path of a node's sort and for the graph at a path, and whether a file
-- is there.
pub record Answers : Type 0 where
  pub path_of : String → Run (Option String)
  pub graph_at : String → Run CoreGraph
  pub is_file : String → Bool

-- What the functions change, and what they have printed.
pub record Flat : Type 0 where
  pub errors : Bool
  pub graph : CoreGraph
  pub printed : List String

abbrev pub empty : Flat
empty = record { errors = false; graph = CoreGraph.new; printed = [] }

abbrev pub Stage : Type 0
Stage = Run (Unit {0}) × Flat

abbrev pub under : String → String → String
under name n = format (name ∷ "-" ∷ n ∷ [])

abbrev pub agent_file : String → String
agent_file hash_name = format (trim hash_name ∷ "/lib/libagent.so" ∷ [])

abbrev pub subgraph_file : String → String
subgraph_file hash_name = format (trim hash_name ∷ "/lib/lib.subgraph" ∷ [])

pub add_edges : String → CoreGraph → List CoreGraphEdge → CoreGraph
add_edges name g [] = g
add_edges name g (e ∷ es) =
    add_edges name
      (record g {
        edges =
            g.edges
            ++ record e { out_comp = under name e.out_comp; in_comp = under name e.in_comp } ∷ [];
      })
      es

pub add_imsgs : String → CoreGraph → List CoreGraphIMsg → CoreGraph
add_imsgs name g [] = g
add_imsgs name g (n ∷ ns) =
    add_imsgs name (record g { imsgs = g.imsgs ++ record n { comp = under name n.comp } ∷ [] }) ns

-- The edges that lead to a port of the subgraph lead to the node behind it.
pub enter_edges : String → CoreGraphExtIn → List CoreGraphEdge → List CoreGraphEdge
enter_edges name n [] = []
enter_edges name n (e ∷ es) =
    (if e.in_comp == name && e.in_port == n.port
      then record e { in_comp = under name n.in_comp; in_port = n.in_port }
      else e)
    ∷ enter_edges name n es

pub enter_imsgs : String → CoreGraphExtIn → List CoreGraphIMsg → List CoreGraphIMsg
enter_imsgs name n [] = []
enter_imsgs name n (i ∷ is) =
    (if i.comp == name && i.port == n.in_port
      then record i { comp = under name n.in_comp; port = n.in_port; elem = n.in_elem }
      else i)
    ∷ enter_imsgs name n is

-- The outside ports are those of the first graph, which comes before there is a node.
unfoldable pub add_ext_in : String → CoreGraph → List CoreGraphExtIn → CoreGraph
unfolding enter_edges enter_imsgs
add_ext_in name g [] = g
add_ext_in name g (n ∷ ns) =
    add_ext_in name
      (record g {
        edges = enter_edges name n g.edges;
        imsgs = enter_imsgs name n g.imsgs;
        ext_in =
            if is_empty g.nodes
            then g.ext_in ++ record n { in_comp = under name n.in_comp } ∷ []
            else g.ext_in;
      })
      ns

pub leave_edges : String → CoreGraphExtOut → List CoreGraphEdge → List CoreGraphEdge
leave_edges name n [] = []
leave_edges name n (e ∷ es) =
    (if e.out_comp == name && e.out_port == n.port
      then record e { out_comp = under name n.out_comp; out_port = n.out_port }
      else e)
    ∷ leave_edges name n es

unfoldable pub add_ext_out : String → CoreGraph → List CoreGraphExtOut → CoreGraph
unfolding leave_edges
add_ext_out name g [] = g
add_ext_out name g (n ∷ ns) =
    add_ext_out name
      (record g {
        edges = leave_edges name n g.edges;
        ext_out =
            if is_empty g.nodes
            then g.ext_out ++ record n { out_comp = under name n.out_comp } ∷ []
            else g.ext_out;
      })
      ns

-- A result that the code does not look at.
abbrev pub whatever : Stage → (Flat → Stage) → Stage
whatever (ok u, s) k = k s
whatever (err e, s) k = k s
whatever (panic, s) k = (panic, s)
whatever (blocked, s) k = (blocked, s)

-- `?` on an answer
abbrev pub answered : {T : Type 0} → Run T → Flat → (T → Stage) → Stage
answered (ok x) s k = k x
answered (err e) s k = (err e, s)
answered panic s k = (panic, s)
answered blocked s k = (blocked, s)

abbrev pub wired : CoreGraph → String → Flat → Flat
wired new name s = record s {
  errors = if new.path == "error" then true else s.errors;
  graph =
      add_ext_out name
        (add_ext_in name (add_imsgs name (add_edges name s.graph new.edges) new.imsgs) new.ext_in)
        new.ext_out;
}

-- The loop ends early where a node fails.
abbrev pub then_nodes : Stage → (Flat → Stage) → Stage
then_nodes (ok u, s) k = k s
then_nodes (err e, s) k = (err e, s)
then_nodes (panic, s) k = (panic, s)
then_nodes (blocked, s) k = (blocked, s)

-- The graph that is handed to the output's send, none after an error.
abbrev pub handed : Stage → Run (Option CoreGraph)
handed (ok u, s) = ok (if s.errors then none else some s.graph)
handed (err e, s) = err e
handed (panic, s) = panic
handed (blocked, s) = blocked

-- `self.output.output.send(graph)?`, with what that send comes to, and the end of the run.
abbrev pub finish : (CoreGraph → Run (Unit {0})) → Option CoreGraph → Run Signal
finish output none = ok Signal.end
finish output (some graph) = do output graph; ok Signal.end

module _ (a : Answers) where
  -- A node with its path, `nested` adds the graph at a path.
  unfoldable pub add_node :
      (CoreGraph → String → Flat → Stage) → String → CoreGraphNode → Option String → Flat → Stage
  add_node nested name n none s = (
    ok tt,
    record s {
      errors = false;
      printed =
          s.printed ++ format ("agent " ∷ n.name ∷ "(" ∷ n.sort ∷ ") doesn't exist" ∷ []) ∷ [];
    },
  )
  add_node nested name n (some hash_name) s =
      if a.is_file (agent_file hash_name)
      then (
        ok tt,
        record s {
          graph = record (s.graph) {
            nodes =
                s.graph.nodes
                ++ record { name = under name n.name; sort = agent_file hash_name } ∷ [];
          };
        },
      )
      else answered (a.graph_at (subgraph_file hash_name)) s
          (λ g. whatever (nested g (under name n.name) s) (λ t. (ok tt, t)))

  unfoldable pub add_nodes :
      (CoreGraph → String → Flat → Stage) → String → List CoreGraphNode → Flat → Stage
  unfolding add_node
  add_nodes nested name [] s = (ok tt, s)
  add_nodes nested name (n ∷ ns) s =
      then_nodes (answered (a.path_of n.sort) s (λ p. add_node nested name n p s))
        (λ t. add_nodes nested name ns t)

  -- As deep as the subgraphs go into one another; without an end the calls do not return.
  unfoldable pub add_graph : ℕ → CoreGraph → String → Flat → Stage
  unfolding add_nodes add_edges add_imsgs add_ext_in add_ext_out
  add_graph zero new name s = (blocked, s)
  add_graph (suc depth) new name s = add_nodes (add_graph depth) name new.nodes (wired new name s)

  -- The run of the agent up to the send on its output.
  unfoldable pub run : ℕ → CoreGraph → Run (Option CoreGraph)
  unfolding add_graph
  run depth i_graph = handed (add_graph depth i_graph "" empty)

  -- The whole run, which ends with an error where the output is not connected.
  unfoldable pub run_agent : (CoreGraph → Run (Unit {0})) → ℕ → CoreGraph → Run Signal
  unfolding run
  run_agent output depth i_graph = do graph ← run depth i_graph; finish output graph
