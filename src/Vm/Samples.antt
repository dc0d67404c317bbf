-- ===== src/Vm/Samples.antt =====
-- A program with a subgraph, whose ports are used by an edge in, an edge out and a message.
use mathlib.Core.List.{Mem, mem-cons_self}
use fractalide.Prelude.{
  Pairwise, ◌≤◌, ◌≡◌, ◌≢◌, refl, String, false, not, none, some, [], ◌∷◌, ◌==◌, string_eq, format,
  trim, arith, if◌then◌else◌,
}
use fractalide.Result.{ok}
use fractalide.Edges.CoreGraph
use fractalide.Edges.CoreGraph.{
  CoreGraph, CoreGraphNode, CoreGraphEdge, CoreGraphIMsg, CoreGraphExtIn, CoreGraphExtOut,
}
use fractalide.Vm.{Answers, under, run}
use fractalide.Vm.Trees.{
  Unfolds, unfolds, ends, finds_agent, finds_graph, height, verdict, tree, Branches, done, agent,
  subgraph, names, End, door_in, own_imsg, own_port_in, own_port_out, with_ends, flat, gather,
}
use fractalide.Vm.Flatten.{run_is_flat}
use fractalide.Vm.Routes.{Leads, find_door, at_agent, into, past_graph}
use fractalide.Vm.Arrivals.{first, doors_in, doors_out, node_names, edges_reach_agents}
use fractalide.Vm.Strays.{found, subgraph_ports_leak, stranded_message}

abbrev node : String → String → CoreGraphNode
node name sort = record { name = name; sort = sort }

abbrev port_a : CoreGraphExtIn
port_a = record { port = "a"; in_port = "left"; in_elem = none; in_comp = "nand" }

abbrev gate : CoreGraph
gate = record CoreGraph.new {
  nodes = node "nand" "nand" ∷ [];
  ext_in = port_a ∷ [];
  ext_out = record { port = "out"; out_port = "output"; out_elem = none; out_comp = "nand" } ∷ [];
}

abbrev into_gate : CoreGraphEdge
into_gate = record {
  out_comp = "x";
  out_port = "output";
  out_elem = none;
  in_port = "a";
  in_elem = none;
  in_comp = "g";
}

abbrev to_gate : CoreGraphIMsg
to_gate = record { msg = "true"; port = "a"; elem = none; comp = "g" }

abbrev program : CoreGraph
program = record CoreGraph.new {
  nodes = node "g" "gate" ∷ node "x" "nand" ∷ [];
  edges = into_gate ∷ [];
  imsgs = to_gate ∷ [];
}

abbrev answers : Answers
answers = record {
  path_of = λ sort. ok (if sort == "gate" then some "/g" else some "/n");
  graph_at = λ path. ok gate;
  is_file = λ path. not (path == "/g/lib/libagent.so");
}

abbrev nand_file : String
nand_file = "/n/lib/libagent.so"

abbrev gate_branches : Branches
gate_branches = agent "nand" nand_file done

abbrev branches : Branches
branches = subgraph "g" (tree gate gate_branches) (agent "x" nand_file done)

program-Unfolds : Unfolds answers program (tree program branches)
unfolding format trim
program-Unfolds = unfolds (
    finds_graph gate "/g" refl refl refl (unfolds (finds_agent "/n" refl refl ends))
      (finds_agent "/n" refl refl ends))

two_levels : height (tree program branches) ≤ 3
unfolding height
two_levels = omega arith

no_error : verdict (tree program branches) false ≡ false
unfolding verdict
no_error = refl

differ : (a b : String) → (a == b) ≡ false → a ≢ b
differ a b h = ground (arith, string_eq.beq_iff a b)

names_differ : Pairwise ◌≢◌ ("" ∷ names (tree program branches) "")
unfolding names format
names_differ = (
  (differ "" "-g" refl, (differ "" "-g-nand" refl, (differ "" "-x" refl, tt))),
  (
    (differ "-g" "-g-nand" refl, (differ "-g" "-x" refl, tt)),
    ((differ "-g-nand" "-x" refl, tt), (tt, tt)),
  ),
)

run_is_flat_example :
    run answers 3 program
    ≡ ok (
        if verdict (tree program branches) false then none else some (flat (tree program branches)))
run_is_flat_example =
    run_is_flat answers program (tree program branches) 3 program-Unfolds two_levels

-- The edge into the subgraph leads to the agent in it.
abbrev gate_in : End
gate_in = ("-g-nand", "left")

abbrev x_out : End
x_out = ("-x", "output")

way_in : Leads doors_in branches "" "g" "a" gate_in
unfolding find_door format
way_in = into (door_in port_a) refl refl (at_agent refl refl)

way_out : Leads doors_out branches "" "x" "output" x_out
unfolding format
way_out = past_graph (at_agent refl refl)

edges_reach_agents_example :
    (f : CoreGraph) × (run answers 3 program ≡ ok (some f))
    × Mem (with_ends into_gate gate_in x_out) f.edges
    × Mem "-g-nand" (node_names f.nodes)
    × Mem "-x" (node_names f.nodes)
edges_reach_agents_example =
    edges_reach_agents answers program (tree program branches) 3 program branches "" into_gate
      gate_in x_out program-Unfolds two_levels no_error names_differ (first refl refl) mem-cons_self
      way_in way_out

subgraph_ports_leak_example :
    (f : CoreGraph) × (run answers 3 program ≡ ok (some f))
    × ((d : CoreGraphExtIn) → Mem d gate.ext_in → Mem (own_port_in (under "" "g") d) f.ext_in)
    × ((d : CoreGraphExtOut) → Mem d gate.ext_out → Mem (own_port_out (under "" "g") d) f.ext_out)
subgraph_ports_leak_example =
    subgraph_ports_leak answers program gate "g" gate_branches (agent "x" nand_file done) 3
      program-Unfolds two_levels no_error

no_door : (to_gate.port ≢ port_a.in_port) × Unit {0}
no_door = (differ "a" "left" refl, tt)

stranded_message_example :
    (f : CoreGraph) × (run answers 3 program ≡ ok (some f))
    × Mem (own_imsg "" to_gate) f.imsgs
    × (¬ Mem (under "" "g") (node_names f.nodes))
stranded_message_example =
    stranded_message answers program gate branches 3 "g" to_gate program-Unfolds two_levels no_error
      names_differ (found refl refl) mem-cons_self refl no_door

-- The flat graph, run.
flat_edges :
    (flat (tree program branches)).edges
    ≡ record into_gate { out_comp = "-x"; in_comp = "-g-nand"; in_port = "left" } ∷ []
unfolding flat gather format
flat_edges = refl
