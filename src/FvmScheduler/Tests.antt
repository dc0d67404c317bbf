-- ===== src/FvmScheduler/Tests.antt =====
-- A graph of two `maths_boolean_nand` (nodes/rs/maths/boolean/nand/lib.rs), with a first message.
use fractalide.Prelude.{
  All, ℕ, ◌≡◌, refl, String, true, Option, none, some, [], ◌∷◌, ◌==◌, string_eq, if◌then◌else◌,
}
use fractalide.Prelude.Map.{get, insert}
use fractalide.Result.{Run, ok, err, panic, blocked}
use fractalide.Edges.CoreGraph
use fractalide.Edges.CoreGraph.{CoreGraph, CoreGraphEdge, CoreGraphIMsg}
use fractalide.Ports
use fractalide.Ports.{World}
use fractalide.Agent
use fractalide.Agent.{Declaration, ThisAgent, this_agent, arm, create_agent}
use fractalide.Scheduler.Exterior
use fractalide.Scheduler.Exterior.Cache
use fractalide.Scheduler.Exterior.Cache.{AgentLoader}
use fractalide.Scheduler.Exterior.Known
use fractalide.Scheduler.Exterior.Known.{Comp}
use fractalide.Scheduler.Exterior.Library.{library}
use fractalide.FvmScheduler.{CoreScheduler, CoreSchedulerSubnet, names_of, add_graph}
use fractalide.FvmScheduler.Simple.{NoElements}
use fractalide.FvmScheduler.Loaded.{loaded_is_simple}

abbrev nand : Declaration
nand = record {
  input = ("a", "bool") ∷ ("b", "bool") ∷ [];
  inarr = [];
  output = ("output", "bool") ∷ [];
  outarr = [];
  option_contract = none;
  accumulator_contract = none;
}

abbrev Box : Type 0
Box = ThisAgent ℕ (Unit {0})

abbrev load : String → Option (AgentLoader ℕ Box)
load path = if path == "nand.so" then some (library nand tt) else none

abbrev world : World ℕ
world = record {
  chans = [];
  next_chan = 0;
  notes = [];
  is_open = λ s. true;
  is_received = λ c. true;
}

abbrev first : CoreScheduler ℕ Box
first = record { sched = Known.new 0 world; subnets = [] }

abbrev from_string : String → ℕ
from_string s = 0

abbrev net : CoreGraph
net = record CoreGraph.new {
  nodes = record { name = "n1"; sort = "nand.so" } ∷ record { name = "n2"; sort = "nand.so" } ∷ [];
  edges =
      record {
        out_comp = "n1";
        out_port = "output";
        out_elem = none;
        in_port = "a";
        in_elem = none;
        in_comp = "n2";
      }
      ∷ [];
  imsgs = record { msg = "true"; port = "a"; elem = none; comp = "n1" } ∷ [];
}

abbrev loaded : Run (CoreScheduler ℕ Box) → CoreScheduler ℕ Box
loaded (ok s) = s
loaded (err e) = first
loaded panic = first
loaded blocked = first

running : CoreScheduler ℕ Box
unfolding add_graph
running = loaded (add_graph load from_string (ok net) "net" first)

running_ok : add_graph load from_string (ok net) "net" first ≡ ok running
unfolding running Exterior.add_node Cache.create_comp get insert create_agent Ports.new
    Exterior.connect Cache.get_schema_input Agent.get_schema_input Cache.get_schema_output
    Agent.get_schema_output Cache.clone_input Agent.clone_input Ports.send Exterior.start_if_needed
    Agent.is_input_ports
running_ok = refl

none_there : NoElements first.sched
unfolding get
none_there name c h = absurd (cc)

loaded_is_simple_example :
    All (λ (e : CoreGraphEdge). e.in_elem ≡ none) net.edges
    × All (λ (i : CoreGraphIMsg). i.elem ≡ none) net.imsgs
    × NoElements running.sched
    × ((subnet : CoreSchedulerSubnet) × (get running.subnets "net" ≡ some subnet)
        × (subnet.nodes ≡ names_of net.nodes))
loaded_is_simple_example =
    loaded_is_simple load from_string net "net" first running none_there running_ok
